-- ===== src/CfJobs/JobStore.antt =====
-- The tables of the durable jobs, and the SQL by which
-- packages/nuxt-cf-jobs/src/runtime/server/d1.ts reads and writes them. A table is the list of its
-- rows; times are seconds. Left out are the columns that no statement tests (tenant ids, traces,
-- statistics) and the texts of an evidence entry.
pub mod Rows
pub mod Selected
use mathlib.Core.List.{tail}
use harlan_nuxt.Prelude.{
  ℕ, zero, suc, Bool, true, false, not, ◌&&◌, Option, none, some, List, [], ◌∷◌, ◌++◌, map, length,
  keep, String, str_eq, ltb, leb, if◌then◌else◌,
}

pub data FailureEvidence : Type 0 where
  release : (at delay_seconds : ℕ) → FailureEvidence
  stale_release : (at : ℕ) → FailureEvidence
  dlq_arrival : (at message_attempts : ℕ) → FailureEvidence
  orphan_redispatch : (at : ℕ) → FailureEvidence

-- A row of `jobs`. `retry_reasons` is the array that the column holds, empty where it holds none.
pub record JobRow : Type 0 where
  pub id : String
  pub queue : String
  pub job_type : String
  pub batch_id : Option String
  pub unique_key : Option String
  pub payload : String
  pub attempts : ℕ
  pub max_attempts : Option ℕ
  pub reserved_at : Option ℕ
  pub available_at : ℕ
  pub created_at : ℕ
  pub published_at : Option ℕ
  pub last_dispatched_at : Option ℕ
  pub dispatch_attempts : ℕ
  pub last_dispatch_error : Option String
  pub completed_at : Option ℕ
  pub failed_at : Option ℕ
  pub last_error : Option String
  pub retry_reasons : List FailureEvidence

-- A row of `failed_jobs`.
pub record FailedRow : Type 0 where
  pub id : String
  pub queue : String
  pub job_type : String
  pub batch_id : Option String
  pub payload : String
  pub exception : String
  pub attempts : ℕ
  pub max_attempts : ℕ
  pub failed_at : ℕ

pub record Db : Type 0 where
  pub jobs : List JobRow
  pub failed_jobs : List FailedRow

abbrev pub is_null {ℓ} : {A : Type ℓ} → Option A → Bool
is_null none = true
is_null (some _) = false

-- `completed_at IS NULL AND failed_at IS NULL`.
abbrev pub is_live : JobRow → Bool
is_live row = is_null row.completed_at && is_null row.failed_at

-- A comparison with NULL is no match.
abbrev pub at_most : Option ℕ → ℕ → Bool
at_most none n = false
at_most (some t) n = leb t n

abbrev pub coalesce {ℓ} : {A : Type ℓ} → Option A → Option A → Option A
coalesce none b = b
coalesce (some a) b = some a

-- `UPDATE … SET change WHERE test`.
unfoldable pub update : {A : Type 0} → (A → Bool) → (A → A) → List A → List A
update test change [] = []
update test change (row ∷ rows) = (if test row then change row else row) ∷ update test change rows

-- `meta.changes` of the same statement.
unfoldable pub changes : {A : Type 0} → (A → Bool) → List A → ℕ
changes test rows = length (keep test rows)

-- `RETURNING *` with `.first()`.
unfoldable pub first_changed : {A : Type 0} → (A → Bool) → (A → A) → List A → Option A
first_changed test change [] = none
first_changed test change (row ∷ rows) =
    if test row then some (change row) else first_changed test change rows

-- `DELETE FROM … WHERE test`.
unfoldable pub delete : {A : Type 0} → (A → Bool) → List A → List A
delete test rows = keep (λ row. not (test row)) rows

unfoldable pub is_member : String → List String → Bool
is_member id [] = false
is_member id (x ∷ ids) = if str_eq x id then true else is_member id ids

-- `ORDER BY key ASC`, rows with one key in the order of the table.
insert_by : {A : Type 0} → (A → ℕ) → A → List A → List A
insert_by key row [] = row ∷ []
insert_by key row (r ∷ rows) =
    if ltb (key r) (key row) then r ∷ insert_by key row rows else row ∷ r ∷ rows

unfoldable pub order_by : {A : Type 0} → (A → ℕ) → List A → List A
unfolding insert_by
order_by key [] = []
order_by key (row ∷ rows) = insert_by key row (order_by key rows)

abbrev pub limit_to {ℓ} : {A : Type ℓ} → ℕ → List A → List A
limit_to zero xs = []
limit_to (suc n) [] = []
limit_to (suc n) (x ∷ xs) = x ∷ limit_to n xs

-- `SELECT … WHERE test ORDER BY key ASC LIMIT limit`.
unfoldable pub select : {A : Type 0} → (A → Bool) → (A → ℕ) → ℕ → List A → List A
unfolding order_by
select test key limit rows = limit_to limit (order_by key (keep test rows))

unfoldable pub replace_failed : FailedRow → List FailedRow → List FailedRow
replace_failed row rows = keep (λ r. not (str_eq r.id row.id)) rows ++ row ∷ []

abbrev pub durable_job_failure_evidence_limit : ℕ
durable_job_failure_evidence_limit = 8

-- A full log drops its first entry.
unfoldable pub append_failure_evidence :
    FailureEvidence → List FailureEvidence → List FailureEvidence
append_failure_evidence evidence log =
    (if leb durable_job_failure_evidence_limit (length log) then tail log else log) ++ evidence ∷ []
