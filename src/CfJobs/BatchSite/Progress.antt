-- ===== src/CfJobs/BatchSite/Progress.antt =====
-- The row that a settlement leaves, and the progress of its batch.
use mathlib.Core.List.{Memᴰ}
use harlan_nuxt.Prelude.{
  ℕ, suc, ◌+◌, ◌-◌, ◌≤◌, ◌≡◌, refl, sym, ap, ◌∙◌, inl, inr, Bool, true, false, ◌&&◌, Bool-cases,
  Option, none, some, List, [], ◌∷◌, String, str_eq, eq_iff, ◌==◌, if◌then◌else◌, arith,
}
use harlan_nuxt.CfJobs.JobStore.{first_changed, coalesce, is_null}
use harlan_nuxt.CfJobs.JobStore.Rows.{first_changed_hit, first_changed_miss}
use harlan_nuxt.CfJobs.BatchStore.{BatchRow, is_pending, settle_one, finish_time}
use harlan_nuxt.CfJobs.Settle.{BatchProgress, to_progress}

some-injective : {A : Type 0} {a b : A} → some a ≡ some b → a ≡ b
some-injective e = cc

-- The progress of a batch `old` of which a settlement leaves `left` members pending.
abbrev pub progress_after : BatchRow → Bool → ℕ → Option ℕ → BatchProgress
progress_after old failed left finished_at = record {
  batch_id = old.id;
  name = old.name;
  site_id = old.site_id;
  completed = old.total_jobs - left;
  total = old.total_jobs;
  failed = old.failed_jobs + (if failed then 1 else 0);
  finished_at = finished_at;
}

-- A row of the table with the id, that has as many members pending.
abbrev pub IsFound : String → ℕ → List BatchRow → BatchRow → Type 0
IsFound id n batches old = Memᴰ old batches × (old.id ≡ id) × (old.pending_jobs ≡ n)

pending_id : (id : String) (b : BatchRow) → is_pending id b ≡ true → b.id ≡ id
unfolding is_pending
pending_id id b t = elim (Bool-cases (str_eq b.id id)) [
  | inl e ↦ (eq_iff b.id id).0 e
  | inr f ↦ absurd (cc (rw f at t))
]

pending_positive : (id : String) (b : BatchRow) → is_pending id b ≡ true → 1 ≤ b.pending_jobs
unfolding is_pending
pending_positive id b t = ground arith

settled_from :
    (now : ℕ) (failed : Bool) (b row : BatchRow) (n : ℕ)
    → 1 ≤ b.pending_jobs
    → settle_one now failed b ≡ row
    → row.pending_jobs ≡ n
    → b.pending_jobs ≡ suc n
unfolding settle_one
settled_from now failed b row n one e p =
    let less : b.pending_jobs - 1 ≡ row.pending_jobs = ap (λ (x : BatchRow). x.pending_jobs) e in
    omega (arith, one, less, p)

-- The row that a settlement answers is the changed row of its batch.
pub settled_row :
    (now : ℕ) (id : String) (failed : Bool) (batches : List BatchRow) (row : BatchRow) (n : ℕ)
    → first_changed (is_pending id) (settle_one now failed) batches ≡ some row
    → row.pending_jobs ≡ n
    → (old : BatchRow) × IsFound id (suc n) batches old × (row ≡ settle_one now failed old)
unfolding first_changed
settled_row now id failed [] row n e p = absurd (cc)
settled_row now id failed (b ∷ batches) row n e p = elim (Bool-cases (is_pending id b)) [
  | inl t ↦
      let same : settle_one now failed b ≡ row =
        some-injective
          (sym (first_changed_hit (is_pending id) (settle_one now failed) b batches t) ∙ e) in
      (
        b,
        (
          Memᴰ.head refl,
          pending_id id b t,
          settled_from now failed b row n (pending_positive id b t) same p,
        ),
        sym same,
      )
  | inr f ↦
      let (old, (m, i, k), same) =
        settled_row now id failed batches row n
          (sym (first_changed_miss (is_pending id) (settle_one now failed) b batches f) ∙ e) p in
      (old, (Memᴰ.tail m, i, k), same)
]

last_time :
    (now m : ℕ) (at : Option ℕ)
    → m ≡ 1
    → (if (m == 1) && is_null at then some now else at) ≡ coalesce at (some now)
last_time now m none e = rw e refl
last_time now m (some t) e = rw e refl

earlier_time :
    (now m n : ℕ) (at : Option ℕ)
    → m ≡ suc (suc n)
    → (if (m == 1) && is_null at then some now else at) ≡ at
earlier_time now m n at e = let two : (m == 1) ≡ false = ground (arith, e) in rw two refl

progress_of_settled :
    (now : ℕ) (failed : Bool) (old : BatchRow) (n : ℕ) (at : Option ℕ)
    → old.pending_jobs ≡ suc n
    → finish_time now old ≡ at
    → to_progress (settle_one now failed old) ≡ progress_after old failed n at
unfolding to_progress settle_one
progress_of_settled now failed old n at p t =
    let left : old.pending_jobs - 1 ≡ n = omega (arith, p) in
    λ i. record {
      batch_id = old.id;
      name = old.name;
      site_id = old.site_id;
      completed = old.total_jobs - left i;
      total = old.total_jobs;
      failed = old.failed_jobs + (if failed then 1 else 0);
      finished_at = t i;
    }

pub last-progress :
    (now : ℕ) (failed : Bool) (old : BatchRow)
    → old.pending_jobs ≡ 1
    → to_progress (settle_one now failed old)
      ≡ progress_after old failed 0 (coalesce old.finished_at (some now))
last-progress now failed old p =
    progress_of_settled now failed old 0 _ p (last_time now old.pending_jobs old.finished_at p)

pub earlier-progress :
    (now : ℕ) (failed : Bool) (old : BatchRow) (n : ℕ)
    → old.pending_jobs ≡ suc (suc n)
    → to_progress (settle_one now failed old) ≡ progress_after old failed (suc n) old.finished_at
earlier-progress now failed old n p =
    progress_of_settled now failed old (suc n) _ p
      (earlier_time now old.pending_jobs n old.finished_at p)
