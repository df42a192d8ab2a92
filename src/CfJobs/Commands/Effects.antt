-- ===== src/CfJobs/Commands/Effects.antt =====
-- What a command can do to the rows of `jobs`.
use harlan_nuxt.Prelude.{
  ℕ, ◌≤◌, ◌≡◌, refl, ap, ◌≢◌, inl, inr, Bool, true, false, Option, List, [], ◌∷◌, ◌++◌, length,
  keep, any, All, Bool-cases, String, eq_iff, ltb, or_else, arith,
}
use harlan_nuxt.Prelude.Effect.{Outcome-cases}
use harlan_nuxt.CfJobs.JobStore.{
  JobRow, Db, is_live, update, changes, delete, select, durable_job_failure_evidence_limit,
}
use harlan_nuxt.CfJobs.JobStore.Rows.{
  All-of_mem, mem-All, IsKeyed, selected_tested, append_failure_evidence_bound,
}
use harlan_nuxt.CfJobs.Lifecycle.{
  DurableJobRecord, staged_row, published_row, conflicts, insert_or_ignore, claim_job, can_claim,
  complete_job, is_owned, fail_job, release_job, assert_owned, completed, released, ReleaseOptions,
  is_listed, published, is_unpublished, dispatch_failed, redispatched, arrived, mark_jobs_published,
  note_jobs_dispatch_failure, note_orphan_redispatch, note_dlq_arrival, record_failure, copy_failed,
}
use harlan_nuxt.CfJobs.Sweep.{
  StaleQuery, is_stale, is_revivable, is_exhausted, chosen, stale_released, reserved_time,
  release_stale_reserved_jobs, fail_stale_reserved_jobs,
}
use harlan_nuxt.CfJobs.Commands.{
  Command, stage, insert, claim, complete, fail, release, mark_published, note_failure,
  note_redispatch, note_arrival, record_dead, release_stale, fail_stale, execute,
}

-- How a command may change a row.
pub record IsStep (row row' : JobRow) : Type 0 where
  pub same_id : row'.id ≡ row.id
  pub counts_up : row.attempts ≤ row'.attempts
  pub bounded_log :
      length row.retry_reasons ≤ durable_job_failure_evidence_limit
      → length row'.retry_reasons ≤ durable_job_failure_evidence_limit

-- A command touches live rows only; a new row has no reservation, an empty log and a fresh id.
pub data IsEffect (IsNew : String → Type 0) (rows rows' : List JobRow) : Type 0 where
  updated :
      (test : JobRow → Bool) (change : JobRow → JobRow)
      → All (λ row. test row ≡ true → is_live row ≡ true) rows
      → ((row : JobRow) → IsStep row (change row))
      → rows' ≡ update test change rows
      → IsEffect IsNew rows rows'
  deleted :
      (test : JobRow → Bool)
      → All (λ row. test row ≡ true → is_live row ≡ true) rows
      → rows' ≡ delete test rows
      → IsEffect IsNew rows rows'
  inserted :
      (new : JobRow)
      → IsNew new.id
      → All (λ row. row.id ≢ new.id) rows
      → new.retry_reasons ≡ []
      → rows' ≡ rows ++ new ∷ []
      → IsEffect IsNew rows rows'
  unchanged : rows' ≡ rows → IsEffect IsNew rows rows'

always :
    (test : JobRow → Bool) (rows : List JobRow)
    → ((row : JobRow) → test row ≡ true → is_live row ≡ true)
    → All (λ row. test row ≡ true → is_live row ≡ true) rows
always test rows h = All-of_mem (λ row. test row ≡ true → is_live row ≡ true) rows (λ row m. h row)

owned_live : (job row : JobRow) → is_owned job row ≡ true → is_live row ≡ true
unfolding is_owned
owned_live job row h = ground arith

pub revivable_live :
    (query : StaleQuery) (row : JobRow) → is_revivable query row ≡ true → is_live row ≡ true
unfolding is_stale
revivable_live query row h = ground arith

exhausted_live :
    (query : StaleQuery) (row : JobRow) → is_exhausted query row ≡ true → is_live row ≡ true
unfolding is_stale
exhausted_live query row h = ground arith

no_conflict :
    (r : DurableJobRecord) (rows : List JobRow)
    → any (conflicts r) rows ≡ false
    → All (λ row. row.id ≢ r.id) rows
unfolding conflicts
no_conflict r [] h = tt
no_conflict r (row ∷ rows) h =
    (ground (arith, eq_iff row.id r.id), no_conflict r rows (ground arith))

-- The test for ownership answers over the tables that it is given.
pub assert_owned-tables : (id : String) (n : ℕ) (db : Db) → (assert_owned id n db).1 ≡ db
assert_owned-tables id n db = elim (Bool-cases (ltb 0 n)) [ inl t ↦ rw t refl | inr f ↦ rw f refl ]

module _ (IsNew : String → Type 0) where
  insert-IsEffect :
      (to_row : DurableJobRecord → JobRow) (r : DurableJobRecord) (db : Db)
      → IsNew r.id
      → (to_row r).id ≡ r.id
      → (to_row r).retry_reasons ≡ []
      → IsEffect IsNew db.jobs (insert_or_ignore to_row r db).1.jobs
  unfolding insert_or_ignore
  insert-IsEffect to_row r db allowed same empty = elim (Bool-cases (any (conflicts r) db.jobs)) [
    | inl known ↦ rw known (unchanged refl)
    | inr new ↦
        rw new
          (inserted (to_row r) (rw same allowed) (rw same (no_conflict r db.jobs new)) empty refl)
  ]

  claim-IsEffect :
      (reclaim_after : Option ℕ) (now : ℕ) (id : String) (db : Db)
      → IsEffect IsNew db.jobs (claim_job reclaim_after now id db).1.jobs
  unfolding claim_job
  claim-IsEffect reclaim_after now id db =
      updated (can_claim reclaim_after now id) _ (always _ db.jobs (λ row h. ground arith))
        (λ row. record { same_id = refl; counts_up = omega arith; bounded_log = λ h. h }) refl

  complete-IsEffect :
      (now : ℕ) (job : JobRow) (db : Db) → IsEffect IsNew db.jobs (complete_job now job db).1.jobs
  unfolding complete_job
  complete-IsEffect now job db =
      updated (is_owned job) (completed now) (always _ db.jobs (owned_live job))
        (λ row. record { same_id = refl; counts_up = omega arith; bounded_log = λ h. h })
        (ap (λ (t : Db). t.jobs) (assert_owned-tables job.id (changes (is_owned job) db.jobs) _))

  release-IsEffect :
      (at : ℕ) (opts : ReleaseOptions) (job : JobRow) (db : Db)
      → IsEffect IsNew db.jobs (release_job at opts job db).1.jobs
  unfolding release_job
  release-IsEffect at opts job db =
      updated (is_owned job) (released at opts) (always _ db.jobs (owned_live job))
        (λ row. record {
          same_id = refl;
          counts_up = omega arith;
          bounded_log = append_failure_evidence_bound _ row.retry_reasons;
        })
        (ap (λ (t : Db). t.jobs) (assert_owned-tables job.id (changes (is_owned job) db.jobs) _))

  fail-IsEffect :
      (now : ℕ) (error : String) (job : JobRow) (db : Db)
      → IsEffect IsNew db.jobs (fail_job now error job db).1.jobs
  unfolding fail_job
  fail-IsEffect now error job db =
      elim (Outcome-cases
        (copy_failed now (λ _. error) (keep (is_owned job) db.jobs) db.failed_jobs)) [
          | inl (failed, e) ↦
              rw (e, fail_job)
                (deleted (is_owned job) (always _ db.jobs (owned_live job)) (
                  ap (λ (t : Db). t.jobs)
                    (assert_owned-tables job.id (changes (is_owned job) db.jobs) _)))
          | inr (error, e) ↦ rw (e, fail_job) (unchanged refl)
        ]

  mark-IsEffect :
      (ids : List String) (at : ℕ) (db : Db)
      → IsEffect IsNew db.jobs (mark_jobs_published ids at db).1.jobs
  unfolding mark_jobs_published
  mark-IsEffect ids at db =
      updated (is_listed ids) (published at) (always _ db.jobs (λ row h. ground arith))
        (λ row. record { same_id = refl; counts_up = omega arith; bounded_log = λ h. h }) refl

  note_failure-IsEffect :
      (ids : List String) (cause : String) (at : ℕ) (db : Db)
      → IsEffect IsNew db.jobs (note_jobs_dispatch_failure ids cause at db).1.jobs
  unfolding note_jobs_dispatch_failure
  note_failure-IsEffect ids cause at db =
      updated (is_unpublished ids) (dispatch_failed cause at)
        (always _ db.jobs (λ row h. ground arith))
        (λ row. record { same_id = refl; counts_up = omega arith; bounded_log = λ h. h }) refl

  note_redispatch-IsEffect :
      (ids : List String) (at : ℕ) (db : Db)
      → IsEffect IsNew db.jobs (note_orphan_redispatch ids at db).1.jobs
  unfolding note_orphan_redispatch
  note_redispatch-IsEffect ids at db =
      updated (is_listed ids) (redispatched at) (always _ db.jobs (λ row h. ground arith))
        (λ row. record {
          same_id = refl;
          counts_up = omega arith;
          bounded_log = append_failure_evidence_bound _ row.retry_reasons;
        })
        refl

  note_arrival-IsEffect :
      (id : String) (at n : ℕ) (db : Db)
      → IsEffect IsNew db.jobs (note_dlq_arrival id at n db).1.jobs
  unfolding note_dlq_arrival
  note_arrival-IsEffect id at n db =
      updated _ (arrived at n) (always _ db.jobs (λ row h. ground arith))
        (λ row. record {
          same_id = refl;
          counts_up = omega arith;
          bounded_log = append_failure_evidence_bound _ row.retry_reasons;
        })
        refl

  -- The selected ids are those of stale rows, which are live.
  release_stale-IsEffect :
      (query : StaleQuery) (db : Db)
      → IsKeyed db.jobs
      → IsEffect IsNew db.jobs (release_stale_reserved_jobs query db).jobs
  unfolding release_stale_reserved_jobs
  release_stale-IsEffect query db keyed =
      updated (chosen (is_revivable query) query db) (stale_released query)
        (All-of_mem _ db.jobs
          (λ row m h. revivable_live query row (mem-All _ row db.jobs m tested h)))
        (λ row. record {
          same_id = refl;
          counts_up = omega arith;
          bounded_log = append_failure_evidence_bound _ row.retry_reasons;
        })
        refl
    where
      tested :
          All
            (λ row. chosen (is_revivable query) query db row ≡ true → is_revivable query row ≡ true)
            db.jobs
      tested =
          selected_tested (is_revivable query) reserved_time (or_else query.limit 100) db.jobs keyed

  fail_stale-IsEffect :
      (exception : JobRow → String) (query : StaleQuery) (db : Db)
      → IsEffect IsNew db.jobs (fail_stale_reserved_jobs exception query db).1.jobs
  unfolding fail_stale_reserved_jobs
  fail_stale-IsEffect exception query db =
      elim (Outcome-cases (
        copy_failed query.now exception
          (select (is_exhausted query) reserved_time (or_else query.limit 100) db.jobs)
          db.failed_jobs)) [
            | inl (failed, e) ↦
                rw (e, fail_stale_reserved_jobs)
                  (deleted _ (always _ db.jobs (λ row h. exhausted_live query row (ground arith)))
                    refl)
            | inr (error, e) ↦ rw (e, fail_stale_reserved_jobs) (unchanged refl)
          ]

-- The id that a command may insert.
abbrev pub MayInsert : Command → String → Type 0
MayInsert (stage r) id = r.id ≡ id
MayInsert (insert r) id = r.id ≡ id
MayInsert _ id = ⊥

pub execute-IsEffect :
    (c : Command) (db : Db) → IsKeyed db.jobs → IsEffect (MayInsert c) db.jobs (execute c db).jobs
unfolding execute record_failure
execute-IsEffect (stage r) db k =
    insert-IsEffect (MayInsert (stage r)) staged_row r db refl refl refl
execute-IsEffect (insert r) db k =
    insert-IsEffect (MayInsert (insert r)) published_row r db refl refl refl
execute-IsEffect (claim reclaim_after now id) db k =
    claim-IsEffect (MayInsert (claim reclaim_after now id)) reclaim_after now id db
execute-IsEffect (complete now job) db k =
    complete-IsEffect (MayInsert (complete now job)) now job db
execute-IsEffect (fail now error job) db k =
    fail-IsEffect (MayInsert (fail now error job)) now error job db
execute-IsEffect (release at opts job) db k =
    release-IsEffect (MayInsert (release at opts job)) at opts job db
execute-IsEffect (mark_published ids at) db k =
    mark-IsEffect (MayInsert (mark_published ids at)) ids at db
execute-IsEffect (note_failure ids cause at) db k =
    note_failure-IsEffect (MayInsert (note_failure ids cause at)) ids cause at db
execute-IsEffect (note_redispatch ids at) db k =
    note_redispatch-IsEffect (MayInsert (note_redispatch ids at)) ids at db
execute-IsEffect (note_arrival id at n) db k =
    note_arrival-IsEffect (MayInsert (note_arrival id at n)) id at n db
execute-IsEffect (record_dead row) db k = unchanged refl
execute-IsEffect (release_stale query) db k =
    release_stale-IsEffect (MayInsert (release_stale query)) query db k
execute-IsEffect (fail_stale exception query) db k =
    fail_stale-IsEffect (MayInsert (fail_stale exception query)) exception query db
