-- ===== src/CfJobs/Settle/Fuel.antt =====
-- The chain of `onFinish` calls ends: each step up brings a counter down, so that fuel above the sum
-- of the counters is enough.
use mathlib.Core.Option
use harlan_nuxt.Prelude.{
  ℕ, zero, suc, ◌≤◌, ◌<◌, ◌≡◌, refl, inl, inr, Bool, true, false, ◌||◌, Option, none, some, String,
  Bool-cases, ◌==◌, arith,
}
use harlan_nuxt.Prelude.Effect.{Outcome, returned, threw, Action, pure, ◌>>=◌, continue}
use harlan_nuxt.CfJobs.Payload.{Json}
use harlan_nuxt.CfJobs.BatchStore.{BatchRow}
use harlan_nuxt.CfJobs.Continuation.{Continuation, parse_durable_job_continuation, with_batch_id}
use harlan_nuxt.CfJobs.Batch.{DurableBatchStore, filled}
use harlan_nuxt.CfJobs.Settle.{
  call_dispatch, fire_on_finish, after_parent, bubble_up, fire_on_finish_chain,
}

-- What the chain relies on: a decrement that answers a row has lowered the measure, nothing else
-- raises it.
abbrev pub IsLowering : {S E : Type 0} → (S → ℕ) → S → Outcome E (Option BatchRow) × S → Type 0
IsLowering measure s (returned (some batch), s') = measure s' < measure s
IsLowering measure s (_, s') = measure s' ≤ measure s

abbrev pub Keeps : {S E A : Type 0} → (S → ℕ) → Action S E A → Type 0
Keeps {S = S} measure m = (s : S) → measure (m s).1 ≤ measure s

abbrev pub KeepsDispatch :
    {S E : Type 0} → (S → ℕ) → Option (Continuation → BatchRow → Action S E (Unit {0})) → Type 0
KeepsDispatch measure none = Unit
KeepsDispatch measure (some call) =
    (continuation : Continuation) (batch : BatchRow) → Keeps measure (call continuation batch)

-- A run that did not run out of fuel.
abbrev pub IsAnswered : {E A : Type 0} → Outcome E (Option A) → Type 0
IsAnswered (returned none) = ⊥
IsAnswered (returned (some a)) = Unit
IsAnswered (threw e) = Unit

abbrev pub IsDone : {S E A : Type 0} → (S → ℕ) → ℕ → Outcome E (Option A) × S → Type 0
IsDone measure n r = IsAnswered r.0 × (measure r.1 ≤ n)

module _ {S E : Type 0} (measure : S → ℕ) where
  after-IsDone :
      {A B : Type 0} (n : ℕ) (f : A → Action S E (Option B)) (o : Outcome E A) (s : S)
      → measure s ≤ n
      → ((a : A) → o ≡ returned a → IsDone measure n (f a s))
      → IsDone measure n (continue f o s)
  after-IsDone n f (returned a) s h k = k a refl
  after-IsDone n f (threw e) s h k = (tt, h)

  -- A value that is computed from the answer of a run.
  map-IsDone :
      {A B : Type 0} (n : ℕ) (g : A → B) (r : Outcome E (Option A) × S)
      → IsDone measure n r
      → IsDone measure n (continue (λ m. pure (Option.map g m)) r.0 r.1)
  map-IsDone n g (returned none, s) h = h
  map-IsDone n g (returned (some a), s) h = h
  map-IsDone n g (threw e, s) h = h

  module _ (json_parse : String → Outcome E Json) (invalid : E) (index_key : ℕ → String)
      (store : DurableBatchStore S E)
      (dispatch : Option (Continuation → BatchRow → Action S E (Unit {0})))
      (lowers : (id : String) (failed : Bool) (s : S)
        → IsLowering measure s (store.decrement_pending id failed s))
      (keeps : KeepsDispatch measure dispatch) where
    call_dispatch-Keeps :
        (batch : BatchRow) (text : Option String)
        (call : Option (Continuation → BatchRow → Action S E (Unit {0})))
        → KeepsDispatch measure call
        → Keeps measure (call_dispatch json_parse invalid index_key store dispatch batch text call)
    call_dispatch-Keeps batch none none k s = omega arith
    call_dispatch-Keeps batch none (some call) k s = omega arith
    call_dispatch-Keeps batch (some text) none k s = omega arith
    call_dispatch-Keeps batch (some text) (some call) k s =
        parsed (parse_durable_job_continuation index_key json_parse invalid text)
      where
        called :
            (o : Outcome E (Unit {0})) (s' : S)
            → measure s' ≤ measure s
            → measure (continue (λ (_ : Unit {0}). pure {E = E} true) o s').1 ≤ measure s
        called (returned _) s' h = h
        called (threw e) s' h = h

        parsed :
            (o : Outcome E Continuation)
            → measure
                (continue
                  (λ c. call (with_batch_id index_key batch.id c) batch >>= λ _. pure true)
                  o
                  s).1
              ≤ measure s
        parsed (returned c) =
            called (call (with_batch_id index_key batch.id c) batch s).0
              (call (with_batch_id index_key batch.id c) batch s).1
              (k (with_batch_id index_key batch.id c) batch s)
        parsed (threw e) = omega arith

    fire_on_finish-Keeps :
        (batch : BatchRow)
        → Keeps measure (fire_on_finish json_parse invalid index_key store dispatch batch)
    unfolding fire_on_finish
    fire_on_finish-Keeps batch s =
        call_dispatch-Keeps batch (filled batch.on_finish) dispatch keeps s

    -- One step up, where the rest of the chain is done from any lower measure.
    module _ (next : BatchRow → Action S E (Option Bool)) (s : S)
        (done : (parent : BatchRow) (s' : S)
          → measure s' < measure s
          → IsDone measure (measure s') (next parent s')) where
      parent-IsDone :
          (flag : Bool) (s' : S) (r : Outcome E (Option BatchRow) × S)
          → measure s' ≤ measure s
          → IsLowering measure s' r
          → IsDone measure (measure s) (
              continue (after_parent json_parse invalid index_key store dispatch next flag) r.0 r.1)
      parent-IsDone flag s' (returned none, s'') h k = (tt, omega arith)
      parent-IsDone flag s' (threw e, s'') h k = (tt, omega arith)
      parent-IsDone flag s' (returned (some parent), s'') h k =
          elim (Bool-cases (parent.pending_jobs == 0)) [
            | inl t ↦
                let r = done parent s'' (omega arith) in
                rw t (
                  map-IsDone (measure s) (λ m. m || flag) (next parent s'')
                    (r.0, omega (arith, r.1)))
            | inr f ↦ rw f (tt, omega arith)
          ]

      bubble-IsDone :
          (flag : Bool) (s' : S)
          → measure s' ≤ measure s
          → (id : Option String)
          → IsDone measure
              (measure s)
              (bubble_up json_parse invalid index_key store dispatch next id flag s')
      bubble-IsDone flag s' h none = (tt, h)
      bubble-IsDone flag s' h (some id) =
          parent-IsDone flag s' (store.decrement_pending id false s') h (lowers id false s')

    -- From a state whose measure is below the fuel.
    pub fire-IsDone :
        (fuel : ℕ) (batch : BatchRow) (s : S)
        → measure s < fuel
        → IsDone measure
            (measure s)
            (fire_on_finish_chain json_parse invalid index_key store dispatch fuel batch s)
    unfolding fire_on_finish_chain
    fire-IsDone zero batch s h = absurd (omega arith)
    fire-IsDone (suc fuel) batch s h =
        let fired = fire_on_finish json_parse invalid index_key store dispatch batch s in
        let next = fire_on_finish_chain json_parse invalid index_key store dispatch fuel in
        after-IsDone (measure s)
          (bubble_up json_parse invalid index_key store dispatch next
            (filled batch.parent_batch_id))
          fired.0 fired.1 (fire_on_finish-Keeps batch s)
          (λ flag e.
            bubble-IsDone next s (λ parent s' k. fire-IsDone fuel parent s' (omega arith)) flag
              fired.1 (fire_on_finish-Keeps batch s) (filled batch.parent_batch_id))
