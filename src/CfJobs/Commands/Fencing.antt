-- ===== src/CfJobs/Commands/Fencing.antt =====
-- The fence of a claim: once a second claim has taken a row, its first claimant cannot settle it.
use harlan_nuxt.Prelude.{
  ℕ, suc, ◌+◌, ◌≤◌, ◌<◌, ◌≡◌, refl, sym, ap, ◌∙◌, inl, inr, Bool, true, false, Option, some, List,
  [], ◌∷◌, All, All-append, Bool-cases, String, eq_iff, if◌then◌else◌, arith,
}
use mathlib.Core.List.{Memᴰ}
use mathlib.Core.Path.{subst}
use harlan_nuxt.Prelude.Effect.{threw}
use harlan_nuxt.CfJobs.JobStore.{JobRow, Db, update, delete, first_changed}
use harlan_nuxt.CfJobs.JobStore.Rows.{
  All-keep, All-of_mem, mem-All, IsKeyed, IsKeyed-unique, update_none, keep_none, delete_none,
  changes_none,
}
use harlan_nuxt.CfJobs.Lifecycle.{
  can_claim, reserve, claim_job, lost_ownership, is_owned, complete_job, copy_failed, fail_job,
  ReleaseOptions, release_job,
}
use harlan_nuxt.CfJobs.Commands.{Command, claim, execute, execute_all}
use harlan_nuxt.CfJobs.Commands.Effects.{
  IsEffect, updated, deleted, inserted, unchanged, MayInsert, execute-IsEffect,
}
use harlan_nuxt.CfJobs.Commands.Terminal.{
  IsWellFormed, IsEffect-IsWellFormed, execute_all-IsWellFormed, All-step,
}

-- Each row with the id was claimed at least `n` times.
abbrev pub IsClaimed : String → ℕ → List JobRow → Type 0
IsClaimed id n rows = All (λ row. row.id ≡ id → n ≤ row.attempts) rows

IsEffect-IsClaimed :
    (IsNew : String → Type 0) (id : String) (n : ℕ) (rows rows' : List JobRow)
    → IsEffect IsNew rows rows'
    → ¬ (IsNew id)
    → IsClaimed id n rows
    → IsClaimed id n rows'
unfolding delete
IsEffect-IsClaimed IsNew id n rows rows' (updated test change live step e) old h = rw e (
    All-step _ test change rows
      (λ row p same.
        let q = p (sym (step row).same_id ∙ same) in
        let r = (step row).counts_up in omega (arith, q, r))
      h)
IsEffect-IsClaimed IsNew id n rows rows' (deleted test live e) old h = rw e (All-keep _ _ rows h)
IsEffect-IsClaimed IsNew id n rows rows' (inserted new allowed fresh empty e) old h =
    rw e (All-append _ rows (new ∷ []) h ((λ same. absurd (old (subst IsNew same allowed))), tt))
IsEffect-IsClaimed IsNew id n rows rows' (unchanged e) old h = rw e h

execute_all-IsClaimed :
    (id : String) (n : ℕ) (cs : List Command) (db : Db)
    → IsWellFormed db.jobs
    → All (λ c. ¬ (MayInsert c id)) cs
    → IsClaimed id n db.jobs
    → IsClaimed id n (execute_all cs db).jobs
unfolding execute_all
execute_all-IsClaimed id n [] db w old h = h
execute_all-IsClaimed id n (c ∷ cs) db w old h =
    let e = execute-IsEffect c db w.keyed in
    execute_all-IsClaimed id n cs (execute c db)
      (IsEffect-IsWellFormed (MayInsert c) db.jobs (execute c db).jobs e w) old.1
      (IsEffect-IsClaimed (MayInsert c) id n db.jobs (execute c db).jobs e old.0 h)

some-injective : {A : Type 0} {a b : A} → some a ≡ some b → a ≡ b
some-injective h = cc

-- The row that an update answers is a row of the table, changed.
pub first_changed-found :
    (test : JobRow → Bool) (change : JobRow → JobRow) (rows : List JobRow) (got : JobRow)
    → first_changed test change rows ≡ some got
    → (r : JobRow) × Memᴰ r rows × (test r ≡ true) × (change r ≡ got)
unfolding first_changed
first_changed-found test change [] got h = absurd (cc)
first_changed-found test change (r ∷ rows) got h = elim (Bool-cases (test r)) [
  | inl t ↦ (r, Memᴰ.head refl, t, some-injective (rw t at h))
  | inr f ↦
      let (x, m, t, e) = first_changed-found test change rows got (rw f at h) in
      (x, Memᴰ.tail m, t, e)
]

pub can_claim-id :
    (reclaim_after : Option ℕ) (now : ℕ) (id : String) (row : JobRow)
    → can_claim reclaim_after now id row ≡ true
    → row.id ≡ id
unfolding can_claim
can_claim-id reclaim_after now id row h = ground (arith, eq_iff row.id id)

pub All-each :
    (P : JobRow → Type 0) (test : JobRow → Bool) (change : JobRow → JobRow) (rows : List JobRow)
    → All (λ row. P (if test row then change row else row)) rows
    → All P (update test change rows)
unfolding update
All-each P test change [] h = tt
All-each P test change (r ∷ rows) h = (h.0, All-each P test change rows h.1)

-- A claim that answers `job` leaves the row with the id at `job`'s count, one above what it was.
claimed :
    (reclaim_after : Option ℕ) (now : ℕ) (id : String) (db : Db) (job : JobRow)
    → IsKeyed db.jobs
    → (claim_job reclaim_after now id db).0 ≡ some job
    → (job.id ≡ id)
      × IsClaimed id job.attempts (claim_job reclaim_after now id db).1.jobs
      × ((n : ℕ) → IsClaimed id n db.jobs → n < job.attempts)
unfolding claim_job
claimed reclaim_after now id db job keyed h =
    let (r, m, t, e) =
      first_changed-found (can_claim reclaim_after now id) (reserve now) db.jobs job h in
    (
      sym (ap (λ (x : JobRow). x.id) e) ∙ can_claim-id reclaim_after now id r t,
      All-each (λ x. x.id ≡ id → job.attempts ≤ x.attempts) (can_claim reclaim_after now id)
          (reserve now) db.jobs
          (All-of_mem _ db.jobs (λ x n. elim (Bool-cases (can_claim reclaim_after now id x)) [
            | inl u ↦ rw u (λ same. raised r x t e m n (can_claim-id reclaim_after now id x u))
            | inr f ↦ rw f (λ same. absurd (missed r x t m n same f))
          ])),
      λ n h.
          let q = mem-All _ r db.jobs m h (can_claim-id reclaim_after now id r t) in
          let p : job.attempts ≡ r.attempts + 1 = sym (ap (λ (x : JobRow). x.attempts) e) in
          omega (arith, q, p),
    )
  where
    missed :
        (r x : JobRow)
        → can_claim reclaim_after now id r ≡ true
        → Memᴰ r db.jobs
        → Memᴰ x db.jobs
        → x.id ≡ id
        → can_claim reclaim_after now id x ≡ false
        → ⊥
    missed r x t m n same f =
        let q =
          IsKeyed-unique db.jobs x r keyed n m
            (same ∙ sym (can_claim-id reclaim_after now id r t)) in
        cc (f, t, ap (can_claim reclaim_after now id) q)

    raised :
        (r x : JobRow)
        → can_claim reclaim_after now id r ≡ true
        → reserve now r ≡ job
        → Memᴰ r db.jobs
        → Memᴰ x db.jobs
        → x.id ≡ id
        → job.attempts ≤ x.attempts + 1
    raised r x t e m n same =
        let q =
          IsKeyed-unique db.jobs x r keyed n m
            (same ∙ sym (can_claim-id reclaim_after now id r t)) in
        let p : job.attempts ≡ r.attempts + 1 = sym (ap (λ (y : JobRow). y.attempts) e) in
        let a : x.attempts ≡ r.attempts = ap (λ (y : JobRow). y.attempts) q in omega (arith, p, a)

not_owned :
    (job row : JobRow)
    → (row.id ≡ job.id → suc job.attempts ≤ row.attempts)
    → is_owned job row ≡ false
unfolding is_owned
not_owned job row h = elim (Bool-cases (is_owned job row)) [
  | inl t ↦ absurd (let q = h (ground (arith, eq_iff row.id job.id, t)) in ground (arith, q, t))
  | inr f ↦ f
]

pub claim-IsWellFormed :
    (reclaim_after : Option ℕ) (now : ℕ) (id : String) (db : Db)
    → IsWellFormed db.jobs
    → IsWellFormed (claim_job reclaim_after now id db).1.jobs
unfolding execute
claim-IsWellFormed reclaim_after now id db w =
    let c = claim reclaim_after now id in
    IsEffect-IsWellFormed (MayInsert c) db.jobs (execute c db).jobs (execute-IsEffect c db w.keyed)
      w

-- What the three settlements answer when no row is owned.
settlements_refuse :
    (job : JobRow) (db : Db)
    → All (λ row. is_owned job row ≡ false) db.jobs
    → (now : ℕ) (error : String) (opts : ReleaseOptions)
    → (complete_job now job db ≡ (threw (lost_ownership job.id), db))
      × (fail_job now error job db ≡ (threw (lost_ownership job.id), db))
      × (release_job now opts job db ≡ (threw (lost_ownership job.id), db))
unfolding complete_job fail_job release_job copy_failed
settlements_refuse job db none_owned now error opts = (
  rw (changes_none (is_owned job) db.jobs none_owned) (
      ap (λ rows. (threw (lost_ownership job.id), record db { jobs = rows }))
        (update_none _ _ db.jobs none_owned)),
  rw (keep_none (is_owned job) db.jobs none_owned, fail_job, copy_failed)
      (rw (changes_none (is_owned job) db.jobs none_owned) (
        ap (λ rows. (threw (lost_ownership job.id), record db { jobs = rows }))
          (delete_none _ db.jobs none_owned))),
  rw (changes_none (is_owned job) db.jobs none_owned) (
      ap (λ rows. (threw (lost_ownership job.id), record db { jobs = rows }))
        (update_none _ _ db.jobs none_owned)),
)

-- Take well-formed tables, a claim of `id` that answers `job`, any commands that insert no row
-- with that id, a second claim of `id` that answers `later`, and again any such commands. Then the
-- first claimant can no longer complete, fail or release the row: each of the three throws the
-- ownership error and leaves the tables as they are.
pub stale_claim_is_fenced :
    (first second : Option ℕ) (t u : ℕ) (id : String) (db : Db) (job later : JobRow)
    (between after : List Command)
    → IsWellFormed db.jobs
    → All (λ c. ¬ (MayInsert c id)) between
    → All (λ c. ¬ (MayInsert c id)) after
    → (claim_job first t id db).0 ≡ some job
    → (claim_job second u id (execute_all between (claim_job first t id db).1)).0 ≡ some later
    → (now : ℕ) (error : String) (opts : ReleaseOptions)
    → let end =
        execute_all after
          (claim_job second u id (execute_all between (claim_job first t id db).1)).1 in
      (complete_job now job end ≡ (threw (lost_ownership job.id), end))
      × (fail_job now error job end ≡ (threw (lost_ownership job.id), end))
      × (release_job now opts job end ≡ (threw (lost_ownership job.id), end))
stale_claim_is_fenced first second t u id db job later between after w old old' won won' now error
      opts =
    let w1 = claim-IsWellFormed first t id db w in
    let (same, at_job, above) = claimed first t id db job w.keyed won in
    let w2 = execute_all-IsWellFormed between (claim_job first t id db).1 w1 in
    let at_job2 =
      execute_all-IsClaimed id job.attempts between (claim_job first t id db).1 w1 old at_job in
    let (same', at_later, above') =
      claimed second u id (execute_all between (claim_job first t id db).1) later w2.keyed won' in
    let w3 = claim-IsWellFormed second u id _ w2 in
    let at_end = execute_all-IsClaimed id later.attempts after _ w3 old' at_later in
    settlements_refuse job _
      (All-of_mem _ _ (λ row m. not_owned job row (λ e.
        let q = mem-All _ row _ m at_end (e ∙ same) in
        let p = above' job.attempts at_job2 in omega (arith, q, p))))
      now error opts
