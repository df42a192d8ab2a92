-- ===== src/CfJobs/Lifecycle.antt =====
-- The repository of durable jobs on D1 (packages/nuxt-cf-jobs/src/runtime/server/d1.ts): staging,
-- publication, and the life of a row from its claim to its settlement. Each statement, or batch of
-- statements, is one step on the tables, as D1 runs it in one transaction; the clock's reading is
-- an argument. The observers, whose errors the repository swallows, are left out.
use harlan_nuxt.Prelude.{
  ℕ, ◌+◌, Bool, true, false, not, ◌&&◌, ◌||◌, Option, none, some, List, [], ◌∷◌, ◌++◌, any, keep,
  or_else, String, str_eq, leb, ltb, ◌==◌, if◌then◌else◌,
}
use harlan_nuxt.Prelude.Effect.{Outcome, returned, threw}
use harlan_nuxt.CfJobs.JobStore.{
  release, dlq_arrival, orphan_redispatch, JobRow, FailedRow, Db, is_null, is_live, coalesce,
  update, changes, first_changed, delete, is_member, replace_failed, append_failure_evidence,
}

-- A prepared job, before it has a row.
pub record DurableJobRecord : Type 0 where
  pub id : String
  pub queue : String
  pub job_type : String
  pub batch_id : Option String
  pub unique_key : Option String
  pub payload : String
  pub attempts : ℕ
  pub max_attempts : Option ℕ
  pub available_at : ℕ
  pub created_at : ℕ

abbrev pub staged_row : DurableJobRecord → JobRow
staged_row r = record {
  id = r.id;
  queue = r.queue;
  job_type = r.job_type;
  batch_id = r.batch_id;
  unique_key = r.unique_key;
  payload = r.payload;
  attempts = r.attempts;
  max_attempts = r.max_attempts;
  reserved_at = none;
  available_at = r.available_at;
  created_at = r.created_at;
  published_at = none;
  last_dispatched_at = none;
  dispatch_attempts = 0;
  last_dispatch_error = none;
  completed_at = none;
  failed_at = none;
  last_error = none;
  retry_reasons = [];
}

-- The immediate insert asserts publication, so it stamps the dispatch columns.
abbrev pub published_row : DurableJobRecord → JobRow
published_row r =
    let row = staged_row r in
    record row {
      published_at = some r.created_at;
      last_dispatched_at = some r.created_at;
      dispatch_attempts = 1;
    }

abbrev same_key : Option String → Option String → Bool
same_key (some a) (some b) = str_eq a b
same_key _ _ = false

-- The primary key, and the unique index on the keys of live rows.
unfoldable pub conflicts : DurableJobRecord → JobRow → Bool
conflicts r row = str_eq row.id r.id || (is_live row && same_key row.unique_key r.unique_key)

-- `INSERT OR IGNORE`: the answer is whether the row is new.
unfoldable pub insert_or_ignore : (DurableJobRecord → JobRow) → DurableJobRecord → Db → Bool × Db
unfolding conflicts
insert_or_ignore to_row r db =
    if any (conflicts r) db.jobs
    then (false, db)
    else (true, record db { jobs = db.jobs ++ to_row r ∷ [] })

abbrev pub stage_job : DurableJobRecord → Db → Bool × Db
stage_job = insert_or_ignore staged_row

abbrev pub insert_job : DurableJobRecord → Db → Bool × Db
insert_job = insert_or_ignore published_row

-- Abandoned at `now`: reserved for `reclaimAfterSeconds` or longer. Unset, no reservation is.
abbrev pub is_abandoned : Option ℕ → ℕ → ℕ → Bool
is_abandoned none now t = false
is_abandoned (some seconds) now t = leb (t + seconds) now

abbrev pub is_free : Option ℕ → ℕ → Option ℕ → Bool
is_free reclaim_after now none = true
is_free reclaim_after now (some t) = is_abandoned reclaim_after now t

unfoldable pub can_claim : Option ℕ → ℕ → String → JobRow → Bool
can_claim reclaim_after now id row =
    str_eq row.id id
    && (not (is_null row.published_at)
        && (is_free reclaim_after now row.reserved_at && (leb row.available_at now && is_live row)))

abbrev pub reserve : ℕ → JobRow → JobRow
reserve now row = record row { reserved_at = some now; attempts = row.attempts + 1 }

unfoldable pub claim_job : Option ℕ → ℕ → String → Db → Option JobRow × Db
unfolding can_claim first_changed update
claim_job reclaim_after now id db = (
  first_changed (can_claim reclaim_after now id) (reserve now) db.jobs,
  record db { jobs = update (can_claim reclaim_after now id) (reserve now) db.jobs },
)

pub data ClaimMiss : Type 0 where
  already_resolved in_flight not_found : ClaimMiss

-- A time of 0 counts as unset, as in the source.
abbrev is_truthy : Option ℕ → Bool
is_truthy none = false
is_truthy (some t) = ltb 0 t

unfoldable pub resolve_claim_miss : String → List JobRow → ClaimMiss
resolve_claim_miss id [] = not_found
resolve_claim_miss id (row ∷ rows) =
    if str_eq row.id id
    then (if is_truthy row.completed_at || is_truthy row.failed_at
        then already_resolved
        else in_flight)
    else resolve_claim_miss id rows

abbrev same_time : Option ℕ → Option ℕ → Bool
same_time (some a) (some b) = a == b
same_time _ _ = false

-- The fence of every settlement: the row is still reserved by the claim that `job` was read from.
unfoldable pub is_owned : JobRow → JobRow → Bool
is_owned job row =
    str_eq row.id job.id
    && (same_time row.reserved_at job.reserved_at && (row.attempts == job.attempts && is_live row))

-- `lost_ownership` is the DurableJobOwnershipError, `null_constraint` the refusal of a NULL.
pub data StoreError : Type 0 where
  lost_ownership : (id : String) → StoreError
  null_constraint : StoreError

-- The answer to the count of changed rows, over the tables that the statement left.
abbrev pub assert_owned : String → ℕ → Db → Outcome StoreError (Unit {0}) × Db
assert_owned id changed db =
    if ltb 0 changed then (returned tt, db) else (threw (lost_ownership id), db)

abbrev pub completed : ℕ → JobRow → JobRow
completed now row = record row { completed_at = some now; reserved_at = none }

unfoldable pub complete_job : ℕ → JobRow → Db → Outcome StoreError (Unit {0}) × Db
unfolding is_owned update changes
complete_job now job db =
    assert_owned job.id (changes (is_owned job) db.jobs)
      (record db { jobs = update (is_owned job) (completed now) db.jobs })

abbrev failed_row : ℕ → String → JobRow → ℕ → FailedRow
failed_row now exception row max_attempts = record {
  id = row.id;
  queue = row.queue;
  job_type = row.job_type;
  batch_id = row.batch_id;
  payload = row.payload;
  exception = exception;
  attempts = row.attempts;
  max_attempts = max_attempts;
  failed_at = now;
}

-- `INSERT OR REPLACE INTO failed_jobs … SELECT … FROM jobs`, over the selected rows.
unfoldable pub copy_failed :
    ℕ → (JobRow → String) → List JobRow → List FailedRow → Outcome StoreError (List FailedRow)
copy_failed now exception [] failed = returned failed
copy_failed now exception (row ∷ rows) failed = elim row.max_attempts [
  | none ↦ threw null_constraint
  | some m ↦
      copy_failed now exception rows (replace_failed (failed_row now (exception row) row m) failed)
]

-- The row moves to `failed_jobs`; an error rolls both statements back.
unfoldable pub fail_job : ℕ → String → JobRow → Db → Outcome StoreError (Unit {0}) × Db
unfolding is_owned changes delete copy_failed
fail_job now exception job db =
    elim (copy_failed now (λ _. exception) (keep (is_owned job) db.jobs) db.failed_jobs) [
      | threw e ↦ (threw e, db)
      | returned failed ↦
          assert_owned job.id (changes (is_owned job) db.jobs)
            (record { jobs = delete (is_owned job) db.jobs; failed_jobs = failed })
    ]

pub record ReleaseOptions : Type 0 where
  pub available_at : Option ℕ
  pub delay_seconds : Option ℕ
  pub error : Option String

abbrev pub resolve_available_at : ReleaseOptions → ℕ → ℕ
resolve_available_at opts now = or_else opts.available_at (now + or_else opts.delay_seconds 0)

abbrev pub released : ℕ → ReleaseOptions → JobRow → JobRow
released at opts row = record row {
  reserved_at = none;
  available_at = resolve_available_at opts at;
  last_error = coalesce opts.error row.last_error;
  retry_reasons =
      append_failure_evidence (release at (or_else opts.delay_seconds 0)) row.retry_reasons;
}

unfoldable pub release_job : ℕ → ReleaseOptions → JobRow → Db → Outcome StoreError (Unit {0}) × Db
unfolding is_owned update changes
release_job at opts job db =
    assert_owned job.id (changes (is_owned job) db.jobs)
      (record db { jobs = update (is_owned job) (released at opts) db.jobs })

abbrev pub is_listed : List String → JobRow → Bool
is_listed ids row = is_member row.id ids && is_live row

abbrev pub published : ℕ → JobRow → JobRow
published at row = record row {
  published_at = coalesce row.published_at (some at);
  last_dispatched_at = some at;
  dispatch_attempts = row.dispatch_attempts + 1;
  last_dispatch_error = none;
}

unfoldable pub mark_jobs_published : List String → ℕ → Db → ℕ × Db
unfolding update changes
mark_jobs_published ids at db = (
  changes (is_listed ids) db.jobs,
  record db { jobs = update (is_listed ids) (published at) db.jobs },
)

abbrev pub is_unpublished : List String → JobRow → Bool
is_unpublished ids row = is_listed ids row && is_null row.published_at

abbrev pub dispatch_failed : String → ℕ → JobRow → JobRow
dispatch_failed cause at row = record row {
  last_dispatched_at = some at;
  dispatch_attempts = row.dispatch_attempts + 1;
  last_dispatch_error = some cause;
}

unfoldable pub note_jobs_dispatch_failure : List String → String → ℕ → Db → ℕ × Db
unfolding update changes
note_jobs_dispatch_failure ids cause at db = (
  changes (is_unpublished ids) db.jobs,
  record db { jobs = update (is_unpublished ids) (dispatch_failed cause at) db.jobs },
)

abbrev pub redispatched : ℕ → JobRow → JobRow
redispatched at row = record row {
  last_dispatched_at = some at;
  dispatch_attempts = row.dispatch_attempts + 1;
  last_dispatch_error = none;
  retry_reasons = append_failure_evidence (orphan_redispatch at) row.retry_reasons;
}

unfoldable pub note_orphan_redispatch : List String → ℕ → Db → ℕ × Db
unfolding update changes
note_orphan_redispatch ids at db = (
  changes (is_listed ids) db.jobs,
  record db { jobs = update (is_listed ids) (redispatched at) db.jobs },
)

-- No cap on the attempts, or attempts left below it.
abbrev pub is_retriable : JobRow → Bool
is_retriable row = elim row.max_attempts [ none ↦ true | some m ↦ ltb row.attempts m ]

abbrev pub arrived : ℕ → ℕ → JobRow → JobRow
arrived at message_attempts row = record row {
  published_at = if is_retriable row then none else row.published_at;
  retry_reasons = append_failure_evidence (dlq_arrival at message_attempts) row.retry_reasons;
}

-- Whether the arrival was recorded on a live row.
unfoldable pub note_dlq_arrival : String → ℕ → ℕ → Db → Bool × Db
unfolding update changes
note_dlq_arrival id at message_attempts db =
    let test : JobRow → Bool = λ row. str_eq row.id id && is_live row in
    (
      ltb 0 (changes test db.jobs),
      record db { jobs = update test (arrived at message_attempts) db.jobs },
    )

unfoldable pub record_failure : FailedRow → Db → Db
record_failure row db = record db { failed_jobs = replace_failed row db.failed_jobs }
