-- ===== src/CfJobs/Sweep/Revival.antt =====
-- What becomes of a job whose worker was lost: the sweep releases it and a claim takes it again.
use harlan_nuxt.Prelude.{
  ℕ, ◌≤◌, ◌≡◌, ◌≢◌, refl, sym, ap, ◌∙◌, inl, inr, Bool, true, false, Option, some, List, [], ◌∷◌,
  length, keep, or_else, String, str_eq, eq_iff, Bool-cases, arith, if◌then◌else◌,
}
use mathlib.Core.List.{Memᴰ}
use harlan_nuxt.CfJobs.JobStore.{JobRow, Db, is_null, update, first_changed}
use harlan_nuxt.CfJobs.JobStore.Rows.{IsKeyed, mem-All, first_changed_hit, first_changed_miss}
use harlan_nuxt.CfJobs.JobStore.Selected.{mem-select, is_member-mem}
use harlan_nuxt.CfJobs.Lifecycle.{can_claim, reserve, claim_job}
use harlan_nuxt.CfJobs.Sweep.{
  StaleQuery, stale_released, chosen, reserved_time, is_revivable, is_stale,
  release_stale_reserved_jobs,
}

-- A claim by id passes over the rows of another id, changed or not.
can_claim-other :
    (reclaim_after : Option ℕ) (now : ℕ) (id : String) (row : JobRow)
    → row.id ≢ id
    → can_claim reclaim_after now id row ≡ false
unfolding can_claim
can_claim-other reclaim_after now id row other = elim (Bool-cases (str_eq row.id id)) [
  | inl t ↦ absurd (other ((eq_iff row.id id).0 t))
  | inr f ↦ rw f refl
]

module _ (test : JobRow → Bool) (change : JobRow → JobRow)
    (keeps_id : (r : JobRow) → (change r).id ≡ r.id) (claim : JobRow → Bool)
    (take : JobRow → JobRow) (row : JobRow)
    (other : (r : JobRow) → r.id ≢ row.id → claim r ≡ false) where
  updated_other : (r : JobRow) → r.id ≢ row.id → claim (if test r then change r else r) ≡ false
  updated_other r d = elim (Bool-cases (test r)) [
    | inl t ↦ rw t (other (change r) (λ e. d (sym (keeps_id r) ∙ e)))
    | inr f ↦ rw f (other r d)
  ]

  -- The first row that a claim by id finds after an update is the one with the id, as updated.
  first_changed-update :
      (rows : List JobRow)
      → IsKeyed rows
      → Memᴰ row rows
      → test row ≡ true
      → claim (change row) ≡ true
      → first_changed claim take (update test change rows) ≡ some (take (change row))
  unfolding update
  first_changed-update [] k m t c = elim m [ ]
  first_changed-update (r ∷ rows) k (Memᴰ.head e) t c =
      ap
        (λ x. first_changed claim take ((if test x then change x else x) ∷ update test change rows))
        (sym e)
      ∙ (rw t (first_changed_hit claim take (change row) (update test change rows) c))
  first_changed-update (r ∷ rows) k (Memᴰ.tail m) t c =
      first_changed_miss claim take _ (update test change rows)
        (updated_other r (λ e. mem-All (λ x. x.id ≢ r.id) row rows m k.0 (sym e)))
      ∙ first_changed-update rows k.1 m t c

claimable :
    (reclaim_after : Option ℕ) (now : ℕ) (query : StaleQuery) (row : JobRow)
    → is_revivable query row ≡ true
    → is_null row.published_at ≡ false
    → or_else query.available_at query.now ≤ now
    → can_claim reclaim_after now row.id (stale_released query row) ≡ true
unfolding can_claim is_stale
claimable reclaim_after now query row revivable published due =
    rw ((eq_iff row.id row.id).1 refl) (rw published (grind (arith, revivable, due)))

-- A job whose worker was lost is not: where ids are keys, and the rows that the sweep may release
-- are no more than its limit, a published row with a stale reservation and attempts left is
-- released by the sweep and taken by a claim of its id at any time from the one it was released to.
-- The claim answers the row as the sweep left it, reserved, with one more attempt.
pub stale_job_is_claimed :
    (reclaim_after : Option ℕ) (now : ℕ) (query : StaleQuery) (db : Db) (row : JobRow)
    → IsKeyed db.jobs
    → Memᴰ row db.jobs
    → is_revivable query row ≡ true
    → is_null row.published_at ≡ false
    → length (keep (is_revivable query) db.jobs) ≤ or_else query.limit 100
    → or_else query.available_at query.now ≤ now
    → (claim_job reclaim_after now row.id (release_stale_reserved_jobs query db)).0
      ≡ some (reserve now (stale_released query row))
unfolding claim_job release_stale_reserved_jobs
stale_job_is_claimed reclaim_after now query db row keyed m revivable published room due =
    first_changed-update (chosen (is_revivable query) query db) (stale_released query) (λ r. refl)
      (can_claim reclaim_after now row.id) (reserve now) row
      (can_claim-other reclaim_after now row.id) db.jobs keyed m
      (is_member-mem row _ (
        mem-select (is_revivable query) reserved_time (or_else query.limit 100) row db.jobs m
          revivable room))
      (claimable reclaim_after now query row revivable published due)
