-- ===== src/CfJobs/BatchStore/Keys.antt =====
-- The ids of the batches stay distinct, and the counters after an insertion and an increment.
use harlan_nuxt.Prelude.{
  ℕ, ◌+◌, ◌≡◌, refl, sym, ap, ◌∙◌, inl, inr, Bool, true, false, Option, some, List, [], ◌∷◌, ◌++◌,
  any, All, All-append, String, str_eq, eq_iff, eq_refl, Bool-cases, if◌then◌else◌,
}
use mathlib.Core.Option
use mathlib.Core.Path.{subst}
use harlan_nuxt.CfJobs.JobStore.{update}
use harlan_nuxt.CfJobs.JobStore.Rows.{All-update, All-of_mem, update_none, update_hit, update_miss}
use harlan_nuxt.CfJobs.BatchStore.{BatchRow, has_batch_id, grow}
use harlan_nuxt.CfJobs.BatchStore.Counters.{pending_of, set_at, set_same, set_pass, HasKeys}

-- A change that leaves the ids alone.
abbrev pub KeepsId : (BatchRow → BatchRow) → Type 0
KeepsId change = (b : BatchRow) → (change b).id ≡ b.id

branch_id :
    (change : BatchRow → BatchRow)
    → KeepsId change
    → (test : Bool) (b : BatchRow) → (if test then change b else b).id ≡ b.id
branch_id change k true b = k b
branch_id change k false b = refl

lacking :
    (id : String) (change : BatchRow → BatchRow)
    → KeepsId change
    → (test : BatchRow → Bool) (batches : List BatchRow) → All (λ x. str_eq x.id id ≡ false) batches
    → All (λ x. str_eq x.id id ≡ false) (update test change batches)
lacking id change k test batches h =
    All-update (λ x. str_eq x.id id ≡ false) test change batches
      (All-of_mem _ batches (λ x m t f. ap (λ i. str_eq i id) (k x) ∙ f)) h

pub update-HasKeys :
    (change : BatchRow → BatchRow)
    → KeepsId change
    → (test : BatchRow → Bool) (batches : List BatchRow) → HasKeys batches
    → HasKeys (update test change batches)
unfolding update
update-HasKeys change k test [] h = tt
update-HasKeys change k test (b ∷ batches) h = (
  rw (branch_id change k (test b) b) (lacking b.id change k test batches h.0),
  update-HasKeys change k test batches h.1,
)

-- What an insertion tests: the id is not taken.
pub not_taken :
    (id : String) (batches : List BatchRow)
    → any (has_batch_id id) batches ≡ false
    → All (λ x. str_eq x.id id ≡ false) batches
not_taken id [] h = tt
not_taken id (b ∷ batches) h = elim (Bool-cases (str_eq b.id id)) [
  | inl t ↦ absurd (cc (rw t at h))
  | inr f ↦ (f, not_taken id batches (rw f at h))
]

-- A row with a new id at the end of the table.
pub append-HasKeys :
    (new : BatchRow) (batches : List BatchRow)
    → HasKeys batches
    → All (λ x. str_eq x.id new.id ≡ false) batches
    → HasKeys (batches ++ new ∷ [])
append-HasKeys new [] h k = (tt, tt)
append-HasKeys new (b ∷ batches) h k = (
  All-append (λ x. str_eq x.id b.id ≡ false) batches (new ∷ []) h.0
      (str_eq_flip b.id new.id k.0, tt),
  append-HasKeys new batches h.1 k.1,
)
  where
    str_eq_flip : (a c : String) → str_eq a c ≡ false → str_eq c a ≡ false
    str_eq_flip a c f = elim (Bool-cases (str_eq c a)) [
      | inl t ↦ absurd (cc (f, (eq_iff a c).1 (sym ((eq_iff c a).0 t))))
      | inr g ↦ g
    ]

pub pending_of-append :
    (new : BatchRow) (batches : List BatchRow) (q : String)
    → All (λ x. str_eq x.id new.id ≡ false) batches
    → pending_of (batches ++ new ∷ []) q
      ≡ set_at new.id (some new.pending_jobs) (pending_of batches) q
pending_of-append new [] q h = refl
pending_of-append new (b ∷ batches) q h =
    ap (λ m. if str_eq b.id q then some b.pending_jobs else m) (pending_of-append new batches q h.1)
    ∙ set_pass b.id new.id q h.0 (some b.pending_jobs) (some new.pending_jobs)
        (pending_of batches q)

abbrev pub add : ℕ → Option ℕ → Option ℕ
add by n = Option.map (λ m. m + by) n

pub grow-lack :
    (id : String) (by : ℕ) (batches : List BatchRow)
    → All (λ x. str_eq x.id id ≡ false) batches
    → update (has_batch_id id) (grow by) batches ≡ batches
grow-lack id by batches h = update_none (has_batch_id id) (grow by) batches h

pub grow-added :
    (id : String) (by : ℕ) (batches : List BatchRow) (q : String)
    → HasKeys batches
    → pending_of (update (has_batch_id id) (grow by) batches) q
      ≡ set_at id (add by (pending_of batches id)) (pending_of batches) q
unfolding update
grow-added id by [] q h = elim (Bool-cases (str_eq id q)) [ inl t ↦ rw t refl | inr f ↦ rw f refl ]
grow-added id by (b ∷ batches) q h = elim (Bool-cases (str_eq b.id id)) [
  | inl t ↦
      ap (λ l. pending_of l q)
        (update_hit (has_batch_id id) (grow by) b batches t
          ∙ ap (λ l. grow by b ∷ l)
              (grow-lack id by batches
                (subst (λ i. All (λ x. str_eq x.id i ≡ false) batches) ((eq_iff b.id id).0 t) h.0)))
      ∙ rw ((eq_iff b.id id).0 t, eq_refl id)
          (set_same id q (some (b.pending_jobs + by)) (some b.pending_jobs) (pending_of batches q))
  | inr f ↦
      ap (λ l. pending_of l q) (update_miss (has_batch_id id) (grow by) b batches f)
      ∙ (ap (λ m. if str_eq b.id q then some b.pending_jobs else m) (grow-added id by batches q h.1)
          ∙ rw f (
              set_pass b.id id q f (some b.pending_jobs) (add by (pending_of batches id))
                (pending_of batches q)))
]
