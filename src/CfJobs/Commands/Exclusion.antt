-- ===== src/CfJobs/Commands/Exclusion.antt =====
-- The exclusion of a claim: while a reservation holds, no second claim takes the row.
use harlan_nuxt.Prelude.{
  ℕ, ◌≡◌, refl, sym, ap, ◌∙◌, inl, inr, Bool, true, false, Bool-cases, Option, none, some, List, [],
  ◌∷◌, All, String,
}
use mathlib.Core.List.{Memᴰ}
use harlan_nuxt.CfJobs.JobStore.{JobRow, Db, first_changed}
use harlan_nuxt.CfJobs.JobStore.Rows.{All-of_mem, mem-All, IsKeyed, IsKeyed-unique}
use harlan_nuxt.CfJobs.Lifecycle.{is_abandoned, can_claim, reserve, claim_job}
use harlan_nuxt.CfJobs.Commands.{Command, execute_all}
use harlan_nuxt.CfJobs.Commands.Terminal.{IsWellFormed}
use harlan_nuxt.CfJobs.Commands.Fencing.{
  All-each, first_changed-found, can_claim-id, claim-IsWellFormed,
}
use harlan_nuxt.CfJobs.Commands.Reservations.{IsHeld, IsPatient, unclaimable, execute_all-IsHeld}

module _ (id : String) (t : ℕ) where
  claim-IsHeld :
      (reclaim_after : Option ℕ) (db : Db) (job : JobRow)
      → IsKeyed db.jobs
      → (claim_job reclaim_after t id db).0 ≡ some job
      → All (IsHeld id t) (claim_job reclaim_after t id db).1.jobs
  unfolding claim_job
  claim-IsHeld reclaim_after db job keyed won =
      let (r, m, claims, e) =
        first_changed-found (can_claim reclaim_after t id) (reserve t) db.jobs job won in
      All-each (IsHeld id t) (can_claim reclaim_after t id) (reserve t) db.jobs (
        All-of_mem _ db.jobs (λ x n. elim (Bool-cases (can_claim reclaim_after t id x)) [
          | inl u ↦ rw u (λ same. inl refl)
          | inr f ↦ rw f (λ same. absurd (missed r x claims m n same f))
        ]))
    where
      missed :
          (r x : JobRow)
          → can_claim reclaim_after t id r ≡ true
          → Memᴰ r db.jobs
          → Memᴰ x db.jobs
          → x.id ≡ id
          → can_claim reclaim_after t id x ≡ false
          → ⊥
      missed r x claims m n same f =
          let q =
            IsKeyed-unique db.jobs x r keyed n m
              (same ∙ sym (can_claim-id reclaim_after t id r claims)) in
          cc (f, claims, ap (can_claim reclaim_after t id) q)

first_changed-none :
    (test : JobRow → Bool) (change : JobRow → JobRow) (rows : List JobRow)
    → All (λ row. test row ≡ true → ⊥) rows
    → first_changed test change rows ≡ none
unfolding first_changed
first_changed-none test change [] h = refl
first_changed-none test change (r ∷ rows) h = elim (Bool-cases (test r)) [
  | inl t ↦ absurd (h.0 t)
  | inr f ↦ rw f (first_changed-none test change rows h.1)
]

held_refuses :
    (id : String) (t : ℕ) (reclaim_after : Option ℕ) (u : ℕ) (end : Db)
    → is_abandoned reclaim_after u t ≡ false
    → All (IsHeld id t) end.jobs
    → (claim_job reclaim_after u id end).0 ≡ none
unfolding claim_job
held_refuses id t reclaim_after u end early h =
    first_changed-none (can_claim reclaim_after u id) (reserve u) end.jobs (
      All-of_mem _ end.jobs (λ row m claims.
        unclaimable t reclaim_after u id row early
          (mem-All (IsHeld id t) row end.jobs m h (can_claim-id reclaim_after u id row claims))
          claims))

-- On well-formed tables, after a claim of `id` at the time `t` that answers a row and any commands
-- that leave the reservation alone (no row with the id is inserted, no claim takes the reservation
-- for abandoned, its job is not released, no sweep releases reservations of `t` or later; it may
-- be completed or failed), a second claim of `id` that does not take it for abandoned answers
-- nothing.
pub claim_is_exclusive :
    (first second : Option ℕ) (t u : ℕ) (id : String) (db : Db) (job : JobRow) (cs : List Command)
    → IsWellFormed db.jobs
    → (claim_job first t id db).0 ≡ some job
    → All (IsPatient id t) cs
    → is_abandoned second u t ≡ false
    → (claim_job second u id (execute_all cs (claim_job first t id db).1)).0 ≡ none
claim_is_exclusive first second t u id db job cs w won patient early =
    held_refuses id t second u (execute_all cs (claim_job first t id db).1) early (
      execute_all-IsHeld id t cs (claim_job first t id db).1 (claim-IsWellFormed first t id db w)
        patient (claim-IsHeld id t first db job w.keyed won))
