-- ===== src/CfJobs/Prune/Whole.antt =====
-- What the pruning of the three tables returns and leaves: what one deletion of each table would, and
-- no dangling reference.
use harlan_nuxt.Prelude.{
  ℕ, zero, suc, ◌≡◌, refl, ap, inl, inr, Bool, true, false, not, ◌&&◌, Option, none, some, List, [],
  ◌∷◌, any, String, Bool-cases, arith,
}
use harlan_nuxt.CfJobs.JobStore.{JobRow, is_null, at_most, delete}
use harlan_nuxt.CfJobs.BatchStore.{BatchRow, Tables, has_batch_id}
use harlan_nuxt.CfJobs.Prune.{
  delete_limited, is_unfinished, may_forget, is_prunable_job, is_prunable_failure, is_referenced,
  is_prunable_batch, with_jobs, with_failures, with_batches, prune_completed_jobs,
  prune_failed_jobs, prune_finished_batches, PruneDurableJobsOptions, PruneDurableJobsResult,
  prune_durable_jobs, when_cut, ◌>>=◌,
}
use harlan_nuxt.CfJobs.Prune.Chunks.{at_once, prune_in_chunks_lem}

any-delete_limited :
    {A : Type 0} (n : ℕ) (seen test : A → Bool) (rows : List A)
    → ((r : A) → test r ≡ true → seen r ≡ false)
    → any seen (delete_limited n test rows).1 ≡ any seen rows
unfolding delete_limited
any-delete_limited n seen test [] h = refl
any-delete_limited zero seen test (r ∷ rows) h = refl
any-delete_limited (suc n) seen test (r ∷ rows) h = elim (Bool-cases (test r)) [
  | inl t ↦ rw (t, delete_limited) (rw (h r t) (any-delete_limited n seen test rows h))
  | inr f ↦ rw (f, delete_limited) (rw (any-delete_limited (suc n) seen test rows h) refl)
]

prunable_is_finished :
    (jobs : List JobRow) (before : ℕ) (batches : List BatchRow) (id : String) (batch : BatchRow)
    → is_prunable_batch jobs before batches batch ≡ true
    → (has_batch_id id batch && is_null batch.finished_at) ≡ false
prunable_is_finished jobs before batches id batch t = grind (arith, t)

-- Which batches are unfinished does not change as finished ones are deleted.
is_prunable_batch-stable :
    (jobs : List JobRow) (before n : ℕ) (batches : List BatchRow)
    → is_prunable_batch jobs before
        (delete_limited n (is_prunable_batch jobs before batches) batches).1
      ≡ is_prunable_batch jobs before batches
unfolding is_unfinished
is_prunable_batch-stable jobs before n batches = λ i batch.
    at_most batch.finished_at before
    && (not (is_referenced jobs batch) && same_parent batch.parent_batch_id i)
  where
    same_parent :
        (parent : Option String)
        → may_forget (delete_limited n (is_prunable_batch jobs before batches) batches).1 parent
          ≡ may_forget batches parent
    same_parent none = refl
    same_parent (some id) = ap not (
        any-delete_limited n (λ b. has_batch_id id b && is_null b.finished_at)
          (is_prunable_batch jobs before batches) batches
          (prunable_is_finished jobs before batches id))

abbrev pub jobs_at_once : Option ℕ → Tables → ℕ × Tables
jobs_at_once none t = (0, t)
jobs_at_once (some before) t =
    with_jobs t (at_once (λ _. is_prunable_job t.batches before) t.db.jobs)

abbrev pub failures_at_once : Option ℕ → Tables → ℕ × Tables
failures_at_once none t = (0, t)
failures_at_once (some before) t =
    with_failures t (at_once (λ _. is_prunable_failure t.batches before) t.db.failed_jobs)

abbrev pub batches_at_once : Option ℕ → Tables → ℕ × Tables
batches_at_once none t = (0, t)
batches_at_once (some before) t =
    with_batches t (at_once (is_prunable_batch t.db.jobs before) t.batches)

jobs_step :
    (cut limit : Option ℕ) (t : Tables)
    → when_cut prune_completed_jobs cut limit t ≡ some (jobs_at_once cut t)
unfolding prune_completed_jobs is_unfinished
jobs_step none limit t = refl
jobs_step (some before) limit t =
    ap (λ r. r >>= λ x. some (with_jobs t x))
      (prune_in_chunks_lem (λ _. is_prunable_job t.batches before) (λ n rows. refl) limit t.db.jobs)

failures_step :
    (cut limit : Option ℕ) (t : Tables)
    → when_cut prune_failed_jobs cut limit t ≡ some (failures_at_once cut t)
unfolding prune_failed_jobs is_unfinished
failures_step none limit t = refl
failures_step (some before) limit t =
    ap (λ r. r >>= λ x. some (with_failures t x))
      (prune_in_chunks_lem (λ _. is_prunable_failure t.batches before) (λ n rows. refl) limit
        t.db.failed_jobs)

batches_step :
    (cut limit : Option ℕ) (t : Tables)
    → when_cut prune_finished_batches cut limit t ≡ some (batches_at_once cut t)
unfolding prune_finished_batches is_unfinished
batches_step none limit t = refl
batches_step (some before) limit t =
    ap (λ r. r >>= λ x. some (with_batches t x))
      (prune_in_chunks_lem (is_prunable_batch t.db.jobs before)
        (is_prunable_batch-stable t.db.jobs before) limit t.batches)

-- The three tables, one after the other, each by one deletion without a limit.
unfoldable pub pruned_at_once : PruneDurableJobsOptions → Tables → PruneDurableJobsResult × Tables
unfolding delete is_unfinished
pruned_at_once opts t =
    let j = jobs_at_once opts.completed_before t in
    let f = failures_at_once opts.failed_before j.1 in
    let b = batches_at_once opts.finished_batches_before f.1 in
    (record { completed_jobs = j.0; finished_batches = b.0; failed_jobs = f.0 }, b.1)

-- Pruning ends, whatever the limit of its chunks, and has deleted from each of the three tables what
-- one deletion without a limit would have, and counted it: the completed jobs, then the failed jobs,
-- then the finished batches that no row still refers to; a table without a cutoff is left alone.
pub prune_durable_jobs-whole :
    (opts : PruneDurableJobsOptions) (t : Tables)
    → prune_durable_jobs opts t ≡ some (pruned_at_once opts t)
unfolding prune_durable_jobs pruned_at_once
prune_durable_jobs-whole opts t = rw (jobs_step opts.completed_before opts.limit t) (
    rw (failures_step opts.failed_before opts.limit (jobs_at_once opts.completed_before t).1) (
      rw
        (batches_step opts.finished_batches_before opts.limit
          (failures_at_once opts.failed_before (jobs_at_once opts.completed_before t).1).1)
        refl))
