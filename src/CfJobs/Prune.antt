-- ===== src/CfJobs/Prune.antt =====
-- The pruning of old terminal rows: the statements of packages/nuxt-cf-jobs/src/runtime/server/d1.ts
-- and `pruneDurableJobs` of outbox.ts. The loop over the chunks recurses on fuel, which is one more
-- than the rows of the table; `none` is the answer where the fuel runs out.
pub mod Chunks
pub mod Whole
pub mod Safe
use harlan_nuxt.Prelude.{
  ℕ, zero, suc, ◌+◌, Bool, true, false, not, ◌&&◌, ◌||◌, Option, none, some, List, [], ◌∷◌, length,
  any, max, or_else, String, str_eq, ltb, leb,
}
use harlan_nuxt.CfJobs.JobStore.{JobRow, FailedRow, Db, is_null, at_most}
use harlan_nuxt.CfJobs.BatchStore.{BatchRow, Tables, has_batch_id}

infixl 5 ◌>>=◌
abbrev pub ◌>>=◌ : {A B : Type 0} → Option A → (A → Option B) → Option B
none >>= f = none
some a >>= f = f a

abbrev one_more : {A : Type 0} → ℕ × List A → ℕ × List A
one_more r = (suc r.0, r.1)

abbrev under : {A : Type 0} → A → ℕ × List A → ℕ × List A
under row r = (r.0, row ∷ r.1)

-- `DELETE … WHERE id IN (SELECT id … WHERE test LIMIT n)`, where `id` is the table's key: the number
-- of the rows that were deleted, and the others. Of more than `n` the first ones are taken.
unfoldable pub delete_limited : {A : Type 0} → ℕ → (A → Bool) → List A → ℕ × List A
delete_limited n test [] = (0, [])
delete_limited zero test (row ∷ rows) = (0, row ∷ rows)
delete_limited (suc n) test (row ∷ rows) = elim (test row) [
  | true ↦ one_more (delete_limited n test rows)
  | false ↦ under row (delete_limited (suc n) test rows)
]

abbrev pub default_prune_chunk : ℕ
default_prune_chunk = 1000

-- The test is what the statement's condition says of the table that it runs on.
unfoldable pub prune_loop :
    {A : Type 0} → (List A → A → Bool) → ℕ → ℕ → ℕ → List A → Option (ℕ × List A)
unfolding delete_limited
prune_loop test chunk zero total rows = none
prune_loop test chunk (suc fuel) total rows =
    let r = delete_limited chunk (test rows) rows in
    elim (ltb r.0 chunk) [
      | true ↦ some (total + r.0, r.1)
      | false ↦ prune_loop test chunk fuel (total + r.0) r.1
    ]

unfoldable pub prune_in_chunks :
    {A : Type 0} → (List A → A → Bool) → Option ℕ → List A → Option (ℕ × List A)
unfolding prune_loop
prune_in_chunks test limit rows =
    prune_loop test (max 1 (or_else limit default_prune_chunk)) (suc (length rows)) 0 rows

-- `EXISTS (SELECT 1 FROM batches WHERE id = … AND finished_at IS NULL)`.
unfoldable pub is_unfinished : List BatchRow → String → Bool
is_unfinished batches id = any (λ b. has_batch_id id b && is_null b.finished_at) batches

-- The batch, where there is one, is not an unfinished one.
abbrev pub may_forget : List BatchRow → Option String → Bool
may_forget batches none = true
may_forget batches (some id) = not (is_unfinished batches id)

abbrev pub is_prunable_job : List BatchRow → ℕ → JobRow → Bool
is_prunable_job batches before row =
    at_most row.completed_at before && may_forget batches row.batch_id

abbrev pub is_prunable_failure : List BatchRow → ℕ → FailedRow → Bool
is_prunable_failure batches before row = leb row.failed_at before && may_forget batches row.batch_id

abbrev pub in_batch : String → JobRow → Bool
in_batch id row = elim row.batch_id [ none ↦ false | some b ↦ str_eq b id ]

abbrev pub is_referenced : List JobRow → BatchRow → Bool
is_referenced jobs batch = any (in_batch batch.id) jobs

abbrev pub is_prunable_batch : List JobRow → ℕ → List BatchRow → BatchRow → Bool
is_prunable_batch jobs before batches batch =
    at_most batch.finished_at before
    && (not (is_referenced jobs batch) && may_forget batches batch.parent_batch_id)

pub record PruneDurableJobsQuery : Type 0 where
  pub before : ℕ
  pub limit : Option ℕ

abbrev pub with_jobs : Tables → ℕ × List JobRow → ℕ × Tables
with_jobs t r = (r.0, record t { db = record t.db { jobs = r.1 } })

abbrev pub with_failures : Tables → ℕ × List FailedRow → ℕ × Tables
with_failures t r = (r.0, record t { db = record t.db { failed_jobs = r.1 } })

abbrev pub with_batches : Tables → ℕ × List BatchRow → ℕ × Tables
with_batches t r = (r.0, record t { batches = r.1 })

unfoldable pub prune_completed_jobs : PruneDurableJobsQuery → Tables → Option (ℕ × Tables)
unfolding prune_in_chunks is_unfinished
prune_completed_jobs query t =
    prune_in_chunks (λ _. is_prunable_job t.batches query.before) query.limit t.db.jobs >>= λ r.
    some (with_jobs t r)

unfoldable pub prune_failed_jobs : PruneDurableJobsQuery → Tables → Option (ℕ × Tables)
unfolding prune_in_chunks is_unfinished
prune_failed_jobs query t =
    prune_in_chunks (λ _. is_prunable_failure t.batches query.before) query.limit t.db.failed_jobs
    >>= λ r. some (with_failures t r)

unfoldable pub prune_finished_batches : PruneDurableJobsQuery → Tables → Option (ℕ × Tables)
unfolding prune_in_chunks is_unfinished
prune_finished_batches query t =
    prune_in_chunks (is_prunable_batch t.db.jobs query.before) query.limit t.batches >>= λ r.
    some (with_batches t r)

pub record PruneDurableJobsOptions : Type 0 where
  pub completed_before : Option ℕ
  pub finished_batches_before : Option ℕ
  pub failed_before : Option ℕ
  pub limit : Option ℕ

pub record PruneDurableJobsResult : Type 0 where
  pub completed_jobs : ℕ
  pub finished_batches : ℕ
  pub failed_jobs : ℕ

-- A cutoff that is not given skips its table.
abbrev pub when_cut :
    (PruneDurableJobsQuery → Tables → Option (ℕ × Tables))
    → Option ℕ
    → Option ℕ
    → Tables
    → Option (ℕ × Tables)
when_cut prune none limit t = some (0, t)
when_cut prune (some before) limit t = prune (record { before = before; limit = limit }) t

unfoldable pub prune_durable_jobs :
    PruneDurableJobsOptions → Tables → Option (PruneDurableJobsResult × Tables)
unfolding prune_completed_jobs prune_failed_jobs prune_finished_batches
prune_durable_jobs opts t = do
  (completed_jobs, t1) ← when_cut prune_completed_jobs opts.completed_before opts.limit t
  (failed_jobs, t2) ← when_cut prune_failed_jobs opts.failed_before opts.limit t1
  (finished_batches, t3) ←
      when_cut prune_finished_batches opts.finished_batches_before opts.limit t2
  some (
    record {
      completed_jobs = completed_jobs;
      finished_batches = finished_batches;
      failed_jobs = failed_jobs;
    },
    t3,
  )
