-- ===== src/CfJobs/BatchStore.antt =====
-- The table `job_batches` and the statements of `createD1DurableBatchStore` in
-- packages/nuxt-cf-jobs/src/runtime/server/batch.ts. Each statement, or batch of statements, is one
-- step on the tables; `now` is the clock's reading.
pub mod Counters
pub mod Keys
pub mod Runs
pub mod Winner
pub mod Sound
use harlan_nuxt.Prelude.{
  ℕ, ◌+◌, ◌-◌, Bool, true, false, not, ◌&&◌, ◌||◌, Option, none, some, List, [], ◌∷◌, ◌++◌, map,
  length, keep, any, or_else, String, str_eq, ltb, leb, ◌==◌, if◌then◌else◌,
}
use harlan_nuxt.Prelude.Effect.{Outcome, returned, threw}
use harlan_nuxt.CfJobs.JobStore.{
  JobRow, FailedRow, Db, is_null, is_live, coalesce, update, changes, first_changed, select,
  is_member, limit_to,
}
use harlan_nuxt.CfJobs.Lifecycle.{DurableJobRecord, staged_row, conflicts}

pub record BatchRow : Type 0 where
  pub id : String
  pub name : Option String
  pub parent_batch_id : Option String
  pub total_jobs : ℕ
  pub pending_jobs : ℕ
  pub failed_jobs : ℕ
  pub on_finish : Option String
  pub allow_failures : Bool
  pub site_id : Option String
  pub user_id : Option ℕ
  pub created_at : ℕ
  pub finished_at : Option ℕ

pub record Tables : Type 0 where
  pub batches : List BatchRow
  pub db : Db

pub record InsertBatchInput : Type 0 where
  pub id : String
  pub name : Option String
  pub parent_batch_id : Option String
  pub total_jobs : ℕ
  pub pending_jobs : ℕ
  pub failed_jobs : Option ℕ
  pub on_finish : Option String
  pub allow_failures : Option Bool
  pub site_id : Option String
  pub user_id : Option ℕ

abbrev pub new_batch : ℕ → InsertBatchInput → BatchRow
new_batch now input = record {
  id = input.id;
  name = input.name;
  parent_batch_id = input.parent_batch_id;
  total_jobs = input.total_jobs;
  pending_jobs = input.pending_jobs;
  failed_jobs = or_else input.failed_jobs 0;
  on_finish = input.on_finish;
  allow_failures = or_else input.allow_failures false;
  site_id = input.site_id;
  user_id = input.user_id;
  created_at = now;
  finished_at = none;
}

abbrev pub has_batch_id : String → BatchRow → Bool
has_batch_id id batch = str_eq batch.id id

-- The error is the database's, for a key that is taken.
unfoldable pub insert_batch :
    {E : Type 0} → E → ℕ → InsertBatchInput → Tables → Outcome E (Unit {0}) × Tables
insert_batch taken now input t =
    if any (has_batch_id input.id) t.batches
    then (threw taken, t)
    else (returned tt, record t { batches = t.batches ++ new_batch now input ∷ [] })

-- `INSERT INTO jobs … SELECT … FROM json_each(?)`: the rows one after the other, `none` where a key
-- is taken.
unfoldable pub insert_members : List DurableJobRecord → List JobRow → Option (List JobRow)
insert_members [] jobs = some jobs
insert_members (r ∷ records) jobs =
    let rest = insert_members records (jobs ++ staged_row r ∷ []) in
    if any (conflicts r) jobs then none else rest

abbrev pub grow : ℕ → BatchRow → BatchRow
grow by batch = record batch {
  total_jobs = batch.total_jobs + by;
  pending_jobs = batch.pending_jobs + by;
}

-- An empty id counts as none.
abbrev pub grow_parent : Option String → List BatchRow → List BatchRow
grow_parent none batches = batches
grow_parent (some id) batches =
    if str_eq id "" then batches else update (has_batch_id id) (grow 1) batches

abbrev pub committed :
    {E : Type 0} → E → Tables → List BatchRow → Option (List JobRow) → Outcome E (Unit {0}) × Tables
committed taken t batches none = (threw taken, t)
committed taken t batches (some jobs) =
    (returned tt, record { batches = batches; db = record t.db { jobs = jobs } })

-- One transaction: the batch, its members, and the counters of its parent, or nothing.
unfoldable pub insert_batch_with_jobs :
    {E : Type 0}
    → E
    → ℕ
    → InsertBatchInput
    → List DurableJobRecord
    → Tables
    → Outcome E (Unit {0}) × Tables
unfolding insert_members update
insert_batch_with_jobs taken now input records t =
    if any (has_batch_id input.id) t.batches
    then (threw taken, t)
    else committed taken t
        (grow_parent input.parent_batch_id (t.batches ++ new_batch now input ∷ []))
        (insert_members records t.db.jobs)

unfoldable pub is_pending : String → BatchRow → Bool
is_pending id batch = str_eq batch.id id && ltb 0 batch.pending_jobs

abbrev pub finish_time : ℕ → BatchRow → Option ℕ
finish_time now batch =
    if (batch.pending_jobs == 1) && is_null batch.finished_at then some now else batch.finished_at

unfoldable pub settle_one : ℕ → Bool → BatchRow → BatchRow
settle_one now failed batch = record batch {
  pending_jobs = batch.pending_jobs - 1;
  failed_jobs = batch.failed_jobs + (if failed then 1 else 0);
  finished_at = finish_time now batch;
}

unfoldable pub decrement_pending : ℕ → String → Bool → Tables → Option BatchRow × Tables
unfolding is_pending settle_one first_changed update
decrement_pending now id failed t = (
  first_changed (is_pending id) (settle_one now failed) t.batches,
  record t { batches = update (is_pending id) (settle_one now failed) t.batches },
)

abbrev batch_of_job : String → List JobRow → Option String
batch_of_job id [] = none
batch_of_job id (row ∷ rows) = if str_eq row.id id then row.batch_id else batch_of_job id rows

abbrev batch_of_failed : String → List FailedRow → Option String
batch_of_failed id [] = none
batch_of_failed id (row ∷ rows) = if str_eq row.id id then row.batch_id else batch_of_failed id rows

abbrev not_empty : Option String → Option String
not_empty none = none
not_empty (some id) = if str_eq id "" then none else some id

unfoldable pub get_job_batch_id : String → Tables → Option String
get_job_batch_id id t =
    coalesce (not_empty (batch_of_job id t.db.jobs)) (batch_of_failed id t.db.failed_jobs)

unfoldable pub increment_counters : String → Option ℕ → Tables → Tables
unfolding update
increment_counters id by t = record t {
  batches = update (has_batch_id id) (grow (or_else by 1)) t.batches;
}

-- A comparison of a nullable column with an id.
abbrev pub refers_to : String → Option String → Bool
refers_to id none = false
refers_to id (some x) = str_eq x id

pub data Evidence : Type 0 where
  recoverable unrecoverable : Evidence

-- The three counts of members that are known to have ended.
unfoldable pub terminal_evidence : Tables → BatchRow → ℕ
terminal_evidence t batch =
    length (
      keep (λ (j : JobRow). refers_to batch.id j.batch_id && not (is_null j.completed_at))
        t.db.jobs)
    + length (keep (λ (f : FailedRow). refers_to batch.id f.batch_id) t.db.failed_jobs)
    + length (
        keep (λ (c : BatchRow). refers_to batch.id c.parent_batch_id && not (is_null c.finished_at))
          t.batches)

unfoldable pub has_live_job : Tables → BatchRow → Bool
has_live_job t batch = any (λ (j : JobRow). refers_to batch.id j.batch_id && is_live j) t.db.jobs

unfoldable pub has_open_child : Tables → BatchRow → Bool
has_open_child t batch =
    any (λ (c : BatchRow). refers_to batch.id c.parent_batch_id && is_null c.finished_at) t.batches

abbrev pub is_evident : Evidence → Tables → BatchRow → Bool
is_evident recoverable t batch = leb batch.total_jobs (terminal_evidence t batch)
is_evident unrecoverable t batch = ltb (terminal_evidence t batch) batch.total_jobs

-- The age clause is the Boolean `old`.
unfoldable pub is_orphaned : Evidence → Tables → (BatchRow → Bool) → BatchRow → Bool
unfolding has_live_job has_open_child terminal_evidence
is_orphaned evidence t old batch =
    ltb 0 batch.pending_jobs
    && (ltb 0 batch.total_jobs
        && (is_null batch.finished_at
            && (old batch
                && (not (has_live_job t batch)
                    && (not (has_open_child t batch) && is_evident evidence t batch)))))

abbrev pub created_before : ℕ → BatchRow → Bool
created_before before batch = leb batch.created_at before

abbrev created : BatchRow → ℕ
created batch = batch.created_at

-- `findOrphanedBatches`, and `findUnrecoverableOrphanedBatches` for the other evidence.
unfoldable pub find_orphaned : Evidence → ℕ → Option ℕ → Tables → List BatchRow
unfolding is_orphaned select
find_orphaned evidence before limit t =
    select (is_orphaned evidence t (created_before before)) created (or_else limit 100) t.batches

abbrev pub any_age : BatchRow → Bool
any_age batch = true

unfoldable pub can_finish : Tables → String → BatchRow → Bool
unfolding is_orphaned
can_finish t id batch = str_eq batch.id id && is_orphaned recoverable t any_age batch

abbrev pub close : ℕ → BatchRow → BatchRow
close now batch = record batch {
  pending_jobs = 0;
  finished_at = coalesce batch.finished_at (some now);
}

unfoldable pub finish_orphaned_batch : ℕ → String → Tables → Option BatchRow × Tables
unfolding can_finish first_changed update
finish_orphaned_batch now id t = (
  first_changed (can_finish t id) (close now) t.batches,
  record t { batches = update (can_finish t id) (close now) t.batches },
)

-- The statement closes as many orphaned batches as the limit says, the first ones of the table, and
-- answers how many.
unfoldable pub finish_orphaned_batches : ℕ → ℕ → Option ℕ → Tables → ℕ × Tables
unfolding is_orphaned changes update is_member
finish_orphaned_batches now before limit t =
    let ids =
      map (λ (b : BatchRow). b.id)
        (limit_to (or_else limit 100)
          (keep (is_orphaned recoverable t (created_before before)) t.batches)) in
    let chosen : BatchRow → Bool = λ b. is_member b.id ids in
    (changes chosen t.batches, record t { batches = update chosen (close now) t.batches })
