-- ===== src/CfJobs/BatchStore/Runs.antt =====
-- Sequences of settlements, of insertions of a batch without members, and of increments, by any
-- number of workers, on the tables and on the counters of BatchStore.Counters. The insertion of a
-- batch with its members and the closing of orphaned batches are not among them. What a settlement answers is listed with the id of its batch.
use mathlib.Core.Option
use mathlib.Core.Path.{fun_ext}
use harlan_nuxt.Prelude.{
  ℕ, ◌≡◌, refl, sym, ap, inl, inr, Bool, true, false, Option, none, some, List, [], ◌∷◌, any, All,
  or_else, String, str_eq, Bool-cases,
}
use harlan_nuxt.CfJobs.BatchStore.{
  BatchRow, Tables, InsertBatchInput, new_batch, has_batch_id, insert_batch, grow, settle_one,
  is_pending, decrement_pending, increment_counters,
}
use harlan_nuxt.CfJobs.BatchStore.Counters.{
  Counters, lower, observed, set_at, pending_of, pending_jobs_of, HasKeys, settled_id,
  settle-observed, settle-lowered,
}
use harlan_nuxt.CfJobs.BatchStore.Keys.{
  add, update-HasKeys, not_taken, append-HasKeys, pending_of-append, grow-added,
}

pub data BatchCommand : Type 0 where
  settle : (now : ℕ) (id : String) (failed : Bool) → BatchCommand
  insert : (now : ℕ) (input : InsertBatchInput) → BatchCommand
  increment : (id : String) (by : Option ℕ) → BatchCommand

abbrev pub Answers : Type 0
Answers = List (String × Option ℕ)

unfoldable pub run : List BatchCommand → Tables → Answers × Tables
run [] t = ([], t)
run (settle now id failed ∷ commands) t =
    let (batch, t') = decrement_pending now id failed t in
    let (answers, end) = run commands t' in ((id, Option.map pending_jobs_of batch) ∷ answers, end)
run (insert now input ∷ commands) t = run commands (insert_batch tt now input t).1
run (increment id by ∷ commands) t = run commands (increment_counters id by t)

abbrev pub insert_counter : String → ℕ → Option ℕ → Counters → Counters
insert_counter id n none counters = set_at id (some n) counters
insert_counter id n (some _) counters = counters

-- The same commands on the counters.
unfoldable pub replay : List BatchCommand → Counters → Answers × Counters
replay [] c = ([], c)
replay (settle now id failed ∷ commands) c =
    let (answers, end) = replay commands (set_at id (lower (c id)) c) in
    ((id, observed (c id)) ∷ answers, end)
replay (insert now input ∷ commands) c =
    replay commands (insert_counter input.id input.pending_jobs (c input.id) c)
replay (increment id by ∷ commands) c = replay commands (set_at id (add (or_else by 1) (c id)) c)

abbrev Refines : Answers × Tables → Answers × Counters → Type 0
Refines r s = HasKeys r.1.batches × (r.0 ≡ s.0) × (pending_of r.1.batches ≡ s.1)

settle-Refined :
    (now : ℕ) (id : String) (failed : Bool) (t : Tables)
    → HasKeys t.batches
    → let r = decrement_pending now id failed t in
      HasKeys r.1.batches
      × (Option.map pending_jobs_of r.0 ≡ observed (pending_of t.batches id))
      × (pending_of r.1.batches
          ≡ set_at id (lower (pending_of t.batches id)) (pending_of t.batches))
unfolding decrement_pending
settle-Refined now id failed t h = (
  update-HasKeys (settle_one now failed) (settled_id now failed) (is_pending id) t.batches h,
  settle-observed now failed id t.batches h,
  fun_ext λ q. settle-lowered now failed id t.batches q h,
)

increment-Refined :
    (id : String) (by : Option ℕ) (t : Tables)
    → HasKeys t.batches
    → let end = increment_counters id by t in
      HasKeys end.batches
      × (pending_of end.batches
          ≡ set_at id (add (or_else by 1) (pending_of t.batches id)) (pending_of t.batches))
unfolding increment_counters
increment-Refined id by t h = (
  update-HasKeys (grow (or_else by 1)) (λ b. refl) (has_batch_id id) t.batches h,
  fun_ext λ q. grow-added id (or_else by 1) t.batches q h,
)

counter_present :
    (id : String) (batches : List BatchRow)
    → any (has_batch_id id) batches ≡ true
    → (n : ℕ) × (pending_of batches id ≡ some n)
counter_present id [] h = absurd (cc)
counter_present id (b ∷ batches) h = elim (Bool-cases (str_eq b.id id)) [
  | inl t ↦ (b.pending_jobs, rw t refl)
  | inr f ↦ rw f (counter_present id batches (rw f at h))
]

counter_absent :
    (id : String) (batches : List BatchRow)
    → All (λ b. str_eq b.id id ≡ false) batches
    → pending_of batches id ≡ none
counter_absent id [] h = refl
counter_absent id (b ∷ batches) h = rw h.0 (counter_absent id batches h.1)

insert-Refined :
    (now : ℕ) (input : InsertBatchInput) (t : Tables)
    → HasKeys t.batches
    → let end = (insert_batch tt now input t).1 in
      HasKeys end.batches
      × (pending_of end.batches
          ≡ insert_counter input.id input.pending_jobs
              (pending_of t.batches input.id)
              (pending_of t.batches))
unfolding insert_batch
insert-Refined now input t h = elim (Bool-cases (any (has_batch_id input.id) t.batches)) [
  | inl taken ↦ rw (taken, (counter_present input.id t.batches taken).1) (h, refl)
  | inr free ↦
      let lack = not_taken input.id t.batches free in
      rw (free, counter_absent input.id t.batches lack)
        (
          append-HasKeys (new_batch now input) t.batches h lack,
          fun_ext λ q. pending_of-append (new_batch now input) t.batches q lack,
        )
]

-- For settlements, insertions of batches without members, and increments, the SQL implements the
-- counters: from distinct ids, every run of these three statements answers what the same run on the
-- counters answers, and ends in tables with distinct ids that hold the counters it ends in.
pub run_refines :
    (commands : List BatchCommand) (t : Tables)
    → HasKeys t.batches
    → HasKeys (run commands t).1.batches
      × ((run commands t).0 ≡ (replay commands (pending_of t.batches)).0)
      × (pending_of (run commands t).1.batches ≡ (replay commands (pending_of t.batches)).1)
unfolding run replay
run_refines [] t h = (h, refl, refl)
run_refines (settle now id failed ∷ commands) t h =
    let (keys, answer, counters) = settle-Refined now id failed t h in
    let rest = run_refines commands (decrement_pending now id failed t).1 keys in
    rw (sym answer, sym counters)
      (
        rest.0,
        ap (λ l. (id, Option.map pending_jobs_of (decrement_pending now id failed t).0) ∷ l) rest.1,
        rest.2,
      )
run_refines (insert now input ∷ commands) t h =
    let (keys, counters) = insert-Refined now input t h in
    rw (sym counters, replay) (run_refines commands (insert_batch tt now input t).1 keys)
run_refines (increment id by ∷ commands) t h =
    let (keys, counters) = increment-Refined id by t h in
    rw (sym counters, replay) (run_refines commands (increment_counters id by t) keys)
