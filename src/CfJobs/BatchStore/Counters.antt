-- ===== src/CfJobs/BatchStore/Counters.antt =====
-- What the batch store promises: a counter for each batch, which a settlement counts down and which
-- tells the caller what it has reached. The SQL over the table implements it.
use mathlib.Core.Path.{subst}
use mathlib.Core.Option
use harlan_nuxt.Prelude.{
  ℕ, zero, suc, ◌≡◌, refl, sym, ap, ◌∙◌, inl, inr, Bool, true, false, Option, none, some, List, [],
  ◌∷◌, All, String, str_eq, eq_iff, eq_refl, Bool-cases, ltb, lt→ltb, if◌then◌else◌, arith,
}
use harlan_nuxt.CfJobs.JobStore.{update, first_changed}
use harlan_nuxt.CfJobs.JobStore.Rows.{
  update_none, update_hit, update_miss, first_changed_hit, first_changed_miss, first_changed-none,
}
use harlan_nuxt.CfJobs.BatchStore.{BatchRow, is_pending, settle_one}

-- The abstract state: how many members of a batch are pending, where the batch exists.
abbrev pub Counters : Type 0
Counters = String → Option ℕ

abbrev pub lower : Option ℕ → Option ℕ
lower (some (suc n)) = some n
lower (some zero) = some zero
lower none = none

-- What the caller of a settlement learns: the count after it, nothing of a batch that is done.
abbrev pub observed : Option ℕ → Option ℕ
observed (some (suc n)) = some n
observed (some zero) = none
observed none = none

abbrev pub set_at : String → Option ℕ → Counters → Counters
set_at id n counters q = if str_eq id q then n else counters q

abbrev pub pending_of : List BatchRow → Counters
pending_of [] q = none
pending_of (b ∷ batches) q = if str_eq b.id q then some b.pending_jobs else pending_of batches q

abbrev pub HasKeys : List BatchRow → Type 0
HasKeys [] = Unit
HasKeys (b ∷ batches) = All (λ x. str_eq x.id b.id ≡ false) batches × HasKeys batches

abbrev pub pending_jobs_of : BatchRow → ℕ
pending_jobs_of batch = batch.pending_jobs

not_pending :
    (id : String) (batches : List BatchRow)
    → All (λ b. str_eq b.id id ≡ false) batches
    → All (λ b. is_pending id b ≡ false) batches
unfolding is_pending
not_pending id [] h = tt
not_pending id (b ∷ batches) h = (rw h.0 refl, not_pending id batches h.1)

absent :
    (id : String) (batches : List BatchRow)
    → All (λ b. str_eq b.id id ≡ false) batches
    → pending_of batches id ≡ none
absent id [] h = refl
absent id (b ∷ batches) h = rw h.0 (absent id batches h.1)

is_pending_self :
    (id : String) (b : BatchRow) → str_eq b.id id ≡ true → is_pending id b ≡ ltb 0 b.pending_jobs
unfolding is_pending
is_pending_self id b t = rw t refl

is_pending_other : (id : String) (b : BatchRow) → str_eq b.id id ≡ false → is_pending id b ≡ false
unfolding is_pending
is_pending_other id b f = rw f refl

-- The rows below a row with the id do not have it.
below_lack :
    (id : String) (b : BatchRow) (batches : List BatchRow)
    → str_eq b.id id ≡ true
    → All (λ x. str_eq x.id b.id ≡ false) batches
    → All (λ x. str_eq x.id id ≡ false) batches
below_lack id b batches t h =
    subst (λ i. All (λ x. str_eq x.id i ≡ false) batches) ((eq_iff b.id id).0 t) h

pub set_same :
    (id q : String) (v w m : Option ℕ)
    → (if str_eq id q then v else m) ≡ (if str_eq id q then v else if str_eq id q then w else m)
set_same id q v w m = elim (Bool-cases (str_eq id q)) [ inl t ↦ rw t refl | inr f ↦ rw f refl ]

pub set_pass :
    (a id q : String)
    → str_eq a id ≡ false
    → (w v m : Option ℕ)
    → (if str_eq a q then w else if str_eq id q then v else m)
      ≡ (if str_eq id q then v else if str_eq a q then w else m)
set_pass a id q f w v m = elim (Bool-cases (str_eq a q)) [
  | inl t ↦ elim (Bool-cases (str_eq id q)) [
    | inl u ↦ absurd (cc (f, (eq_iff a id).1 ((eq_iff a q).0 t ∙ sym ((eq_iff id q).0 u))))
    | inr u ↦ rw (t, u) refl
  ]
  | inr u ↦ rw u refl
]

module _ (now : ℕ) (failed : Bool) where
  settled_pending :
      (b : BatchRow) (n : ℕ) → b.pending_jobs ≡ suc n → (settle_one now failed b).pending_jobs ≡ n
  unfolding settle_one
  settled_pending b n e = omega (arith, e)

  pub settled_id : (b : BatchRow) → (settle_one now failed b).id ≡ b.id
  unfolding settle_one
  settled_id b = refl

  head-observed :
      (id : String) (b : BatchRow) (batches : List BatchRow) (n : ℕ)
      → b.pending_jobs ≡ n
      → str_eq b.id id ≡ true
      → All (λ x. str_eq x.id id ≡ false) batches
      → Option.map pending_jobs_of
          (first_changed (is_pending id) (settle_one now failed) (b ∷ batches))
        ≡ observed (some n)
  head-observed id b batches zero e t h = ap (Option.map pending_jobs_of) (
      first_changed_miss (is_pending id) (settle_one now failed) b batches
        (is_pending_self id b t ∙ ap (ltb 0) e)
      ∙ first_changed-none (is_pending id) (settle_one now failed) batches
          (not_pending id batches h))
  head-observed id b batches (suc n) e t h =
      ap (Option.map pending_jobs_of) (
        first_changed_hit (is_pending id) (settle_one now failed) b batches
          (is_pending_self id b t ∙ (ap (ltb 0) e ∙ lt→ltb 0 (suc n) (omega arith))))
      ∙ ap some (settled_pending b n e)

  pub settle-observed :
      (id : String) (batches : List BatchRow)
      → HasKeys batches
      → Option.map pending_jobs_of (first_changed (is_pending id) (settle_one now failed) batches)
        ≡ observed (pending_of batches id)
  unfolding first_changed
  settle-observed id [] h = refl
  settle-observed id (b ∷ batches) h = elim (Bool-cases (str_eq b.id id)) [
    | inl t ↦
        head-observed id b batches b.pending_jobs refl t (below_lack id b batches t h.0) ∙ rw t refl
    | inr f ↦
        ap (Option.map pending_jobs_of) (
          first_changed_miss (is_pending id) (settle_one now failed) b batches
            (is_pending_other id b f))
        ∙ (settle-observed id batches h.1 ∙ rw f refl)
  ]

  head-lowered :
      (id : String) (b : BatchRow) (batches : List BatchRow) (n : ℕ) (q : String)
      → b.pending_jobs ≡ n
      → str_eq b.id id ≡ true
      → All (λ x. str_eq x.id id ≡ false) batches
      → pending_of (update (is_pending id) (settle_one now failed) (b ∷ batches)) q
        ≡ (if str_eq b.id q then lower (some n) else pending_of batches q)
  head-lowered id b batches zero q e t h =
      ap (λ l. pending_of l q)
        (update_miss (is_pending id) (settle_one now failed) b batches
            (is_pending_self id b t ∙ ap (ltb 0) e)
          ∙ ap (λ l. b ∷ l)
              (update_none (is_pending id) (settle_one now failed) batches
                (not_pending id batches h)))
      ∙ ap (λ m. if str_eq b.id q then some m else pending_of batches q) e
  head-lowered id b batches (suc n) q e t h =
      ap (λ l. pending_of l q)
        (update_hit (is_pending id) (settle_one now failed) b batches
            (is_pending_self id b t ∙ (ap (ltb 0) e ∙ lt→ltb 0 (suc n) (omega arith)))
          ∙ ap (λ l. settle_one now failed b ∷ l)
              (update_none (is_pending id) (settle_one now failed) batches
                (not_pending id batches h)))
      ∙ (ap
            (λ i.
              if str_eq i q
              then some (settle_one now failed b).pending_jobs
              else pending_of batches q)
            (settled_id b)
          ∙ ap (λ m. if str_eq b.id q then some m else pending_of batches q)
              (settled_pending b n e))

  pub settle-lowered :
      (id : String) (batches : List BatchRow) (q : String)
      → HasKeys batches
      → pending_of (update (is_pending id) (settle_one now failed) batches) q
        ≡ set_at id (lower (pending_of batches id)) (pending_of batches) q
  unfolding update
  settle-lowered id [] q h = elim (Bool-cases (str_eq id q)) [
    | inl t ↦ rw t refl
    | inr f ↦ rw f refl
  ]
  settle-lowered id (b ∷ batches) q h = elim (Bool-cases (str_eq b.id id)) [
    | inl t ↦
        head-lowered id b batches b.pending_jobs q refl t (below_lack id b batches t h.0)
        ∙ rw ((eq_iff b.id id).0 t, eq_refl id)
            (set_same id q (lower (some b.pending_jobs)) (some b.pending_jobs)
              (pending_of batches q))
    | inr f ↦
        ap (λ l. pending_of l q)
          (update_miss (is_pending id) (settle_one now failed) b batches (is_pending_other id b f))
        ∙ (ap (λ m. if str_eq b.id q then some b.pending_jobs else m)
              (settle-lowered id batches q h.1)
            ∙ rw f (
                set_pass b.id id q f (some b.pending_jobs) (lower (pending_of batches id))
                  (pending_of batches q)))
  ]
