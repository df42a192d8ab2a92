-- ===== src/CfJobs/BatchStore/Sound.antt =====
-- The counters of a batch stay consistent over the statements of the store, by induction on the
-- steps that lead from one state of the tables to another.
use harlan_nuxt.Prelude.{
  ℕ, ◌+◌, ◌≤◌, ◌≡◌, refl, ◌⊎◌, inl, inr, Bool, true, false, ◌&&◌, Option, none, some, List, [], ◌∷◌,
  ◌++◌, any, or_else, All, All-append, String, str_eq, Bool-cases, ◌==◌, if◌then◌else◌, arith,
}
use harlan_nuxt.CfJobs.JobStore.{JobRow, is_null, coalesce, update}
use harlan_nuxt.CfJobs.JobStore.Rows.{All-update, All-of_mem}
use harlan_nuxt.CfJobs.Lifecycle.{DurableJobRecord}
use harlan_nuxt.CfJobs.BatchStore.{
  BatchRow, Tables, InsertBatchInput, committed, new_batch, has_batch_id, insert_batch,
  insert_members, grow, grow_parent, insert_batch_with_jobs, is_pending, settle_one,
  decrement_pending, increment_counters, can_finish, close, finish_orphaned_batch,
  finish_orphaned_batches,
}

-- Failed and pending members are members; a batch with no member left has none, or has its end.
abbrev pub IsSound : BatchRow → Type 0
IsSound b =
    (b.failed_jobs + b.pending_jobs ≤ b.total_jobs)
    × (b.pending_jobs ≡ 0 → (b.total_jobs ≡ 0) ⊎ (is_null b.finished_at ≡ false))

-- What the code inserts: as many pending as there are members, and none that failed.
abbrev pub IsFresh : InsertBatchInput → Type 0
IsFresh input = (input.pending_jobs ≡ input.total_jobs) × (or_else input.failed_jobs 0 ≡ 0)

-- The statements that change the table of the batches.
pub data Step {E : Type 0} (taken : E) : Tables → Tables → Type 0 where
  inserts :
      (now : ℕ) (input : InsertBatchInput) (t : Tables)
      → Step taken t (insert_batch taken now input t).1
  creates :
      (now : ℕ) (input : InsertBatchInput) (records : List DurableJobRecord) (t : Tables)
      → Step taken t (insert_batch_with_jobs taken now input records t).1
  settles :
      (now : ℕ) (id : String) (failed : Bool) (t : Tables)
      → Step taken t (decrement_pending now id failed t).1
  increments :
      (id : String) (by : Option ℕ) (t : Tables) → Step taken t (increment_counters id by t)
  finishes : (now : ℕ) (id : String) (t : Tables) → Step taken t (finish_orphaned_batch now id t).1
  finishes_all :
      (now before : ℕ) (limit : Option ℕ) (t : Tables)
      → Step taken t (finish_orphaned_batches now before limit t).1

pub data Steps {E : Type 0} (taken : E) : Tables → Tables → Type 0 where
  start : (t : Tables) → Steps taken t t
  then_step : (t u v : Tables) → Steps taken t u → Step taken u v → Steps taken t v

-- The insertions among the steps are fresh.
abbrev pub IsFreshStep : {E : Type 0} {taken : E} {t u : Tables} → Step taken t u → Type 0
IsFreshStep (inserts now input t) = IsFresh input
IsFreshStep (creates now input records t) = IsFresh input
IsFreshStep (settles now id failed t) = Unit
IsFreshStep (increments id by t) = Unit
IsFreshStep (finishes now id t) = Unit
IsFreshStep (finishes_all now before limit t) = Unit

abbrev pub AreFresh : {E : Type 0} {taken : E} {t u : Tables} → Steps taken t u → Type 0
AreFresh (start t) = Unit
AreFresh (then_step t u v before last) = AreFresh before × IsFreshStep last

new_batch-IsSound :
    (now : ℕ) (input : InsertBatchInput) → IsFresh input → IsSound (new_batch now input)
new_batch-IsSound now input h = (omega (arith, h.0, h.1), λ z. inl (omega (arith, h.0, z)))

grow-IsSound : (by : ℕ) (b : BatchRow) → IsSound b → IsSound (grow by b)
grow-IsSound by b h = (omega (arith, h.0), λ z. kept (h.1 (omega (arith, z))) (omega (arith, z)))
  where
    kept :
        (b.total_jobs ≡ 0) ⊎ (is_null b.finished_at ≡ false)
        → by ≡ 0
        → (b.total_jobs + by ≡ 0) ⊎ (is_null b.finished_at ≡ false)
    kept (inl e) z = inl (omega arith)
    kept (inr e) z = inr e

is_last :
    (now n : ℕ) (finished : Option ℕ)
    → n ≡ 1
    → is_null (if (n == 1) && is_null finished then some now else finished) ≡ false
is_last now n none e = rw e refl
is_last now n (some t) e = rw e refl

is_pending-positive : (id : String) (b : BatchRow) → is_pending id b ≡ true → 1 ≤ b.pending_jobs
unfolding is_pending
is_pending-positive id b p = ground arith

settle-IsSound :
    (now : ℕ) (failed : Bool) (id : String) (b : BatchRow)
    → is_pending id b ≡ true
    → IsSound b
    → IsSound (settle_one now failed b)
unfolding settle_one
settle-IsSound now true id b p h = (
  omega (arith, h.0, is_pending-positive id b p),
  λ z.
      inr (is_last now b.pending_jobs b.finished_at (omega (arith, z, is_pending-positive id b p))),
)
settle-IsSound now false id b p h = (
  omega (arith, h.0, is_pending-positive id b p),
  λ z.
      inr (is_last now b.pending_jobs b.finished_at (omega (arith, z, is_pending-positive id b p))),
)

has_end : (now : ℕ) (finished : Option ℕ) → is_null (coalesce finished (some now)) ≡ false
has_end now none = refl
has_end now (some t) = refl

close-IsSound : (now : ℕ) (b : BatchRow) → IsSound b → IsSound (close now b)
close-IsSound now b h = (omega (arith, h.0), λ z. inr (has_end now b.finished_at))

-- An update whose change keeps what is sound.
update-IsSound :
    (test : BatchRow → Bool) (change : BatchRow → BatchRow)
    → ((b : BatchRow) → test b ≡ true → IsSound b → IsSound (change b))
    → (batches : List BatchRow) → All IsSound batches
    → All IsSound (update test change batches)
update-IsSound test change k batches h =
    All-update IsSound test change batches (All-of_mem _ batches (λ b m. k b)) h

grow_parent-IsSound :
    (id : Option String) (batches : List BatchRow)
    → All IsSound batches
    → All IsSound (grow_parent id batches)
grow_parent-IsSound none batches h = h
grow_parent-IsSound (some id) batches h = elim (Bool-cases (str_eq id "")) [
  | inl t ↦ rw t h
  | inr f ↦ rw f (update-IsSound (has_batch_id id) (grow 1) (λ b t. grow-IsSound 1 b) batches h)
]

module _ {E : Type 0} (taken : E) where
  committed-IsSound :
      (t : Tables) (batches : List BatchRow) (jobs : Option (List JobRow))
      → All IsSound t.batches
      → All IsSound batches
      → All IsSound (committed taken t batches jobs).1.batches
  committed-IsSound t batches none h k = h
  committed-IsSound t batches (some jobs) h k = k

  Step-IsSound :
      {t u : Tables} (step : Step taken t u)
      → IsFreshStep step
      → All IsSound t.batches
      → All IsSound u.batches
  unfolding insert_batch insert_batch_with_jobs decrement_pending increment_counters
      finish_orphaned_batch finish_orphaned_batches
  Step-IsSound (inserts now input t) fresh h =
      elim (Bool-cases (any (has_batch_id input.id) t.batches)) [
        | inl e ↦ rw e h
        | inr e ↦ rw e (
            All-append IsSound t.batches (new_batch now input ∷ []) h
              (new_batch-IsSound now input fresh, tt))
      ]
  Step-IsSound (creates now input records t) fresh h =
      elim (Bool-cases (any (has_batch_id input.id) t.batches)) [
        | inl e ↦ rw e h
        | inr e ↦ rw e (
            committed-IsSound t _ (insert_members records t.db.jobs) h (
              grow_parent-IsSound input.parent_batch_id (t.batches ++ new_batch now input ∷ []) (
                All-append IsSound t.batches (new_batch now input ∷ []) h
                  (new_batch-IsSound now input fresh, tt))))
      ]
  Step-IsSound (settles now id failed t) fresh h =
      update-IsSound (is_pending id) (settle_one now failed) (settle-IsSound now failed id)
        t.batches h
  Step-IsSound (increments id by t) fresh h =
      update-IsSound (has_batch_id id) (grow (or_else by 1)) (λ b e. grow-IsSound (or_else by 1) b)
        t.batches h
  Step-IsSound (finishes now id t) fresh h =
      update-IsSound (can_finish t id) (close now) (λ b e. close-IsSound now b) t.batches h
  Step-IsSound (finishes_all now before limit t) fresh h =
      update-IsSound _ (close now) (λ b e. close-IsSound now b) t.batches h

  -- Over any steps of the store in which each batch is inserted with as many pending members as it
  -- has members, and with none that failed, as the creation of batches does: from tables whose
  -- batches are sound, every batch stays sound, so that failed and pending members together are no
  -- more than the members, and a batch of which none is pending has no member or has its time of
  -- finishing.
  pub Steps-IsSound :
      {t u : Tables} (steps : Steps taken t u)
      → AreFresh steps
      → All IsSound t.batches
      → All IsSound u.batches
  Steps-IsSound (start t) fresh h = h
  Steps-IsSound (then_step t u v before last) fresh h =
      Step-IsSound last fresh.1 (Steps-IsSound before fresh.0 h)
