-- ===== src/CfJobs/Sweep.antt =====
-- The recovery statements of the repository (packages/nuxt-cf-jobs/src/runtime/server/d1.ts): the
-- rows that are due for another send, and what becomes of stale reservations.
pub mod Revival
use harlan_nuxt.Prelude.{
  ℕ, Bool, true, false, not, ◌&&◌, ◌||◌, Option, none, some, List, [], ◌∷◌, map, any, or_else,
  String, leb, ltb,
}
use harlan_nuxt.Prelude.Effect.{Outcome, returned, threw}
use harlan_nuxt.CfJobs.JobStore.{
  FailureEvidence, stale_release, JobRow, FailedRow, Db, is_null, is_live, at_most, coalesce,
  update, delete, is_member, select, append_failure_evidence,
}
use harlan_nuxt.CfJobs.Lifecycle.{StoreError, is_retriable, copy_failed}

pub data Publication : Type 0 where
  unpublished published all : Publication

-- The fields that are unset are NULL in the statement.
pub record RecoveryQuery : Type 0 where
  pub now : ℕ
  pub created_before : Option ℕ
  pub stale_released_before : Option ℕ
  pub redispatched_before : Option ℕ
  pub publication : Publication
  pub limit : Option ℕ

abbrev is_published_as : Publication → Option ℕ → Bool
is_published_as unpublished at = is_null at
is_published_as published at = not (is_null at)
is_published_as all at = true

abbrev is_before : Option ℕ → ℕ → Bool
is_before none t = true
is_before (some bound) t = leb t bound

abbrev released_after : ℕ → FailureEvidence → Bool
released_after bound (stale_release at) = ltb bound at
released_after bound _ = false

-- No stale release in the log is younger than the bound.
abbrev is_settled_by : Option ℕ → List FailureEvidence → Bool
is_settled_by none log = true
is_settled_by (some bound) log = not (any (released_after bound) log)

-- Never sent, last send failed, or sent at or before the bound.
abbrev may_resend : Option ℕ → JobRow → Bool
may_resend none row = true
may_resend (some bound) row =
    is_null row.last_dispatched_at
    || (not (is_null row.last_dispatch_error) || at_most row.last_dispatched_at bound)

unfoldable pub is_dispatchable : RecoveryQuery → JobRow → Bool
is_dispatchable query row =
    is_null row.reserved_at
    && (is_published_as query.publication row.published_at
        && (leb row.available_at query.now
            && (is_before query.created_before row.created_at
                && (is_settled_by query.stale_released_before row.retry_reasons
                    && (may_resend query.redispatched_before row && is_live row)))))

abbrev order_column : Publication → Option ℕ → JobRow → ℕ
order_column all (some _) row = row.created_at
order_column _ _ row = row.available_at

unfoldable pub find_dispatchable_jobs : RecoveryQuery → Db → List JobRow
unfolding is_dispatchable select
find_dispatchable_jobs query db =
    select (is_dispatchable query) (order_column query.publication query.created_before)
      (or_else query.limit 100) db.jobs

abbrev last_evidence : List FailureEvidence → Option FailureEvidence
last_evidence [] = none
last_evidence (e ∷ log) = coalesce (last_evidence log) (some e)

-- The last entry is a stale release, after the last dispatch and not after the bound.
abbrev is_release_due : ℕ → Option ℕ → Option FailureEvidence → Bool
is_release_due bound dispatched (some (stale_release at)) =
    ltb (or_else dispatched 0) at && leb at bound
is_release_due bound dispatched _ = false

unfoldable pub is_stale_released : ℕ → ℕ → JobRow → Bool
is_stale_released now bound row =
    is_null row.reserved_at
    && (not (is_null row.published_at)
        && (leb row.available_at now
            && (is_live row
                && (is_retriable row
                    && is_release_due bound row.last_dispatched_at
                        (last_evidence row.retry_reasons)))))

unfoldable pub find_stale_released_jobs : ℕ → ℕ → Option ℕ → Db → List JobRow
unfolding is_stale_released select
find_stale_released_jobs now bound limit db =
    select (is_stale_released now bound) (λ row. row.created_at) (or_else limit 100) db.jobs

abbrev pub reserved_time : JobRow → ℕ
reserved_time row = or_else row.reserved_at 0

-- A reservation of a live row from the bound or before.
unfoldable pub is_stale : ℕ → JobRow → Bool
is_stale stale_before row = at_most row.reserved_at stale_before && is_live row

unfoldable pub find_stale_reserved_jobs : ℕ → Option ℕ → Db → List JobRow
unfolding is_stale select
find_stale_reserved_jobs stale_before limit db =
    select (is_stale stale_before) reserved_time (or_else limit 100) db.jobs

pub record StaleQuery : Type 0 where
  pub now : ℕ
  pub stale_before : ℕ
  pub available_at : Option ℕ
  pub error : Option String
  pub limit : Option ℕ

abbrev pub ids_of : List JobRow → List String
ids_of = map (λ (row : JobRow). row.id)

abbrev pub stale_released : StaleQuery → JobRow → JobRow
stale_released query row = record row {
  reserved_at = none;
  available_at = or_else query.available_at query.now;
  last_error = coalesce query.error row.last_error;
  retry_reasons = append_failure_evidence (stale_release query.now) row.retry_reasons;
}

-- The rows that a statement touches: those whose id is among the selected ones.
abbrev pub chosen : (JobRow → Bool) → StaleQuery → Db → JobRow → Bool
chosen test query db row =
    is_member row.id (ids_of (select test reserved_time (or_else query.limit 100) db.jobs))

abbrev pub is_revivable : StaleQuery → JobRow → Bool
is_revivable query row = is_stale query.stale_before row && is_retriable row

unfoldable pub release_stale_reserved_jobs : StaleQuery → Db → Db
unfolding is_stale select update
release_stale_reserved_jobs query db = record db {
  jobs = update (chosen (is_revivable query) query db) (stale_released query) db.jobs;
}

-- A cap that the attempts have reached.
abbrev pub is_exhausted : StaleQuery → JobRow → Bool
is_exhausted query row =
    is_stale query.stale_before row && (not (is_null row.max_attempts) && not (is_retriable row))

abbrev failed_ids : List FailedRow → List String
failed_ids = map (λ (row : FailedRow). row.id)

-- The rows that are moved to `failed_jobs`, and the tables after; `exception` renders the text
-- from the query's error and the row.
unfoldable pub fail_stale_reserved_jobs :
    (JobRow → String) → StaleQuery → Db → Outcome StoreError (List JobRow) × Db
unfolding is_stale select delete copy_failed
fail_stale_reserved_jobs exception query db =
    let rows = select (is_exhausted query) reserved_time (or_else query.limit 100) db.jobs in
    elim (copy_failed query.now exception rows db.failed_jobs) [
      | threw e ↦ (threw e, db)
      | returned failed ↦ (
        returned rows,
        record {
          jobs =
              delete
                (λ row.
                  is_exhausted query row
                  && (is_member row.id (failed_ids failed) && is_member row.id (ids_of rows)))
                db.jobs;
          failed_jobs = failed;
        },
      )
    ]
