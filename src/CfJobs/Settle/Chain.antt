-- ===== src/CfJobs/Settle/Chain.antt =====
-- What the chain of `onFinish` calls does, as a relation between the state before and after it: the
-- batch's own hook, then its parent's where the batch was the last of it.
use mathlib.Core.Option
use harlan_nuxt.Prelude.{
  ℕ, zero, suc, ◌<◌, ◌≡◌, refl, ◌⊎◌, inl, inr, Bool, true, false, ◌||◌, Option, none, some, String,
  Bool-cases, ◌==◌, arith,
}
use harlan_nuxt.Prelude.Effect.{Outcome, returned, threw, Action, pure, continue}
use harlan_nuxt.CfJobs.Payload.{Json}
use harlan_nuxt.CfJobs.BatchStore.{BatchRow}
use harlan_nuxt.CfJobs.Continuation.{Continuation, parse_durable_job_continuation, with_batch_id}
use harlan_nuxt.CfJobs.Batch.{DurableBatchStore, filled}
use harlan_nuxt.CfJobs.Settle.{
  call_dispatch, fire_on_finish, after_parent, bubble_up, fire_on_finish_chain,
}

-- No parent row, or one that waits for others.
abbrev pub IsWaiting : Option BatchRow → Type 0
IsWaiting none = Unit
IsWaiting (some parent) = 0 < parent.pending_jobs

module _ {S E : Type 0} (json_parse : String → Outcome E Json) (invalid : E)
    (index_key : ℕ → String) (store : DurableBatchStore S E)
    (dispatch : Option (Continuation → BatchRow → Action S E (Unit {0}))) where
  -- The hook of one batch: whether it was called, or what was thrown.
  pub data HookRun (batch : BatchRow) (s : S) : Outcome E Bool → S → Type 0 where
    no_hook :
        (filled batch.on_finish ≡ none) ⊎ (dispatch ≡ none) → HookRun batch s (returned false) s
    bad_text :
        (text : String) (call : Continuation → BatchRow → Action S E (Unit {0})) (e : E)
        → filled batch.on_finish ≡ some text
        → dispatch ≡ some call
        → parse_durable_job_continuation index_key json_parse invalid text ≡ threw e
        → HookRun batch s (threw e) s
    called :
        (text : String) (call : Continuation → BatchRow → Action S E (Unit {0}))
        (continuation : Continuation) (end : S)
        → filled batch.on_finish ≡ some text
        → dispatch ≡ some call
        → parse_durable_job_continuation index_key json_parse invalid text ≡ returned continuation
        → call (with_batch_id index_key batch.id continuation) batch s ≡ (returned tt, end)
        → HookRun batch s (returned true) end
    call_threw :
        (text : String) (call : Continuation → BatchRow → Action S E (Unit {0}))
        (continuation : Continuation) (e : E) (end : S)
        → filled batch.on_finish ≡ some text
        → dispatch ≡ some call
        → parse_durable_job_continuation index_key json_parse invalid text ≡ returned continuation
        → call (with_batch_id index_key batch.id continuation) batch s ≡ (threw e, end)
        → HookRun batch s (threw e) end

  -- The chain up the parents: whether any hook was called, or what was thrown.
  pub data FireRun : BatchRow → S → Outcome E Bool → S → Type 0 where
    hook_threw :
        (batch : BatchRow) (s end : S) (e : E)
        → HookRun batch s (threw e) end
        → FireRun batch s (threw e) end
    at_top :
        (batch : BatchRow) (s end : S) (flag : Bool)
        → HookRun batch s (returned flag) end
        → filled batch.parent_batch_id ≡ none
        → FireRun batch s (returned flag) end
    count_threw :
        (batch : BatchRow) (s t end : S) (flag : Bool) (id : String) (e : E)
        → HookRun batch s (returned flag) t
        → filled batch.parent_batch_id ≡ some id
        → store.decrement_pending id false t ≡ (threw e, end)
        → FireRun batch s (threw e) end
    parent_waits :
        (batch : BatchRow) (s t end : S) (flag : Bool) (id : String) (parent : Option BatchRow)
        → HookRun batch s (returned flag) t
        → filled batch.parent_batch_id ≡ some id
        → store.decrement_pending id false t ≡ (returned parent, end)
        → IsWaiting parent
        → FireRun batch s (returned flag) end
    parent_fires :
        (batch : BatchRow) (s t u end : S) (flag more : Bool) (id : String) (parent : BatchRow)
        → HookRun batch s (returned flag) t
        → filled batch.parent_batch_id ≡ some id
        → store.decrement_pending id false t ≡ (returned (some parent), u)
        → parent.pending_jobs ≡ 0
        → FireRun parent u (returned more) end
        → FireRun batch s (returned (more || flag)) end
    parent_threw :
        (batch : BatchRow) (s t u end : S) (flag : Bool) (e : E) (id : String) (parent : BatchRow)
        → HookRun batch s (returned flag) t
        → filled batch.parent_batch_id ≡ some id
        → store.decrement_pending id false t ≡ (returned (some parent), u)
        → parent.pending_jobs ≡ 0
        → FireRun parent u (threw e) end
        → FireRun batch s (threw e) end

  hook_called :
      (batch : BatchRow) (s : S) (text : String)
      (call : Continuation → BatchRow → Action S E (Unit {0})) (c : Continuation)
      → filled batch.on_finish ≡ some text
      → dispatch ≡ some call
      → parse_durable_job_continuation index_key json_parse invalid text ≡ returned c
      → (r : Outcome E (Unit {0}) × S) → call (with_batch_id index_key batch.id c) batch s ≡ r
      → let end = continue (λ (_ : Unit {0}). pure {E = E} true) r.0 r.1 in
        HookRun batch s end.0 end.1
  hook_called batch s text call c t d p (returned tt, end) e = called text call c end t d p e
  hook_called batch s text call c t d p (threw x, end) e = call_threw text call c x end t d p e

  hook_parsed :
      (batch : BatchRow) (s : S) (text : String)
      (call : Continuation → BatchRow → Action S E (Unit {0}))
      → filled batch.on_finish ≡ some text
      → dispatch ≡ some call
      → (o : Outcome E Continuation)
      → parse_durable_job_continuation index_key json_parse invalid text ≡ o
      → let end =
          continue
            (λ c t.
              let r = call (with_batch_id index_key batch.id c) batch t in
              continue (λ (_ : Unit {0}). pure {E = E} true) r.0 r.1)
            o
            s in
        HookRun batch s end.0 end.1
  hook_parsed batch s text call t d (returned c) p =
      hook_called batch s text call c t d p (call (with_batch_id index_key batch.id c) batch s) refl
  hook_parsed batch s text call t d (threw e) p = bad_text text call e t d p

  hook_given :
      (batch : BatchRow) (s : S) (text : Option String)
      (given : Option (Continuation → BatchRow → Action S E (Unit {0})))
      → filled batch.on_finish ≡ text
      → dispatch ≡ given
      → let r = call_dispatch json_parse invalid index_key store dispatch batch text given s in
        HookRun batch s r.0 r.1
  hook_given batch s none none t d = no_hook (inl t)
  hook_given batch s none (some call) t d = no_hook (inl t)
  hook_given batch s (some text) none t d = no_hook (inr d)
  hook_given batch s (some text) (some call) t d =
      hook_parsed batch s text call t d
        (parse_durable_job_continuation index_key json_parse invalid text) refl

  -- A chain that did not run out of fuel ran as the relation says.
  unfoldable pub IsChain : BatchRow → S → Outcome E (Option Bool) × S → Type 0
  IsChain batch s (returned none, end) = Unit
  IsChain batch s (returned (some flag), end) = FireRun batch s (returned flag) end
  IsChain batch s (threw e, end) = FireRun batch s (threw e) end

  module _ (next : BatchRow → Action S E (Option Bool))
      (goes_on : (parent : BatchRow) (s : S) → IsChain parent s (next parent s)) (batch : BatchRow)
      (s t : S) (flag : Bool) (hook : HookRun batch s (returned flag) t) where
    next-IsChain :
        (id : String) (parent : BatchRow) (u : S)
        → filled batch.parent_batch_id ≡ some id
        → store.decrement_pending id false t ≡ (returned (some parent), u)
        → parent.pending_jobs ≡ 0
        → (r : Outcome E (Option Bool) × S) → IsChain parent u r
        → IsChain batch s (continue (λ more. pure (Option.map (λ m. m || flag) more)) r.0 r.1)
    unfolding IsChain
    next-IsChain id parent u p d z (returned none, end) c = tt
    next-IsChain id parent u p d z (returned (some more), end) c =
        parent_fires batch s t u end flag more id parent hook p d z c
    next-IsChain id parent u p d z (threw e, end) c =
        parent_threw batch s t u end flag e id parent hook p d z c

    counted-IsChain :
        (id : String)
        → filled batch.parent_batch_id ≡ some id
        → (r : Outcome E (Option BatchRow) × S) → store.decrement_pending id false t ≡ r
        → IsChain batch s
            (continue (after_parent json_parse invalid index_key store dispatch next flag) r.0 r.1)
    unfolding IsChain
    counted-IsChain id p (threw e, end) d = count_threw batch s t end flag id e hook p d
    counted-IsChain id p (returned none, end) d =
        parent_waits batch s t end flag id none hook p d tt
    counted-IsChain id p (returned (some parent), u) d =
        elim (Bool-cases (parent.pending_jobs == 0)) [
          | inl z ↦
              rw z (
                next-IsChain id parent u p d (ground (arith, z)) (next parent u) (goes_on parent u))
          | inr f ↦
              rw f (parent_waits batch s t u flag id (some parent) hook p d (ground (arith, f)))
        ]

    bubbled-IsChain :
        (id : Option String)
        → filled batch.parent_batch_id ≡ id
        → IsChain batch s (bubble_up json_parse invalid index_key store dispatch next id flag t)
    unfolding IsChain
    bubbled-IsChain none p = at_top batch s t flag hook p
    bubbled-IsChain (some id) p = counted-IsChain id p (store.decrement_pending id false t) refl

  fired-IsChain :
      (next : BatchRow → Action S E (Option Bool))
      → ((parent : BatchRow) (s : S) → IsChain parent s (next parent s))
      → (batch : BatchRow) (s : S) (o : Outcome E Bool) (t : S) → HookRun batch s o t
      → IsChain batch s (
          continue
            (bubble_up json_parse invalid index_key store dispatch next
              (filled batch.parent_batch_id))
            o
            t)
  unfolding IsChain
  fired-IsChain next goes_on batch s (threw e) t h = hook_threw batch s t e h
  fired-IsChain next goes_on batch s (returned flag) t h =
      bubbled-IsChain next goes_on batch s t flag h (filled batch.parent_batch_id) refl

  pub fire_on_finish_chain-IsChain :
      (fuel : ℕ) (batch : BatchRow) (s : S)
      → IsChain batch s
          (fire_on_finish_chain json_parse invalid index_key store dispatch fuel batch s)
  unfolding fire_on_finish_chain fire_on_finish IsChain
  fire_on_finish_chain-IsChain zero batch s = tt
  fire_on_finish_chain-IsChain (suc fuel) batch s =
      let r = fire_on_finish json_parse invalid index_key store dispatch batch s in
      fired-IsChain (fire_on_finish_chain json_parse invalid index_key store dispatch fuel)
        (fire_on_finish_chain-IsChain fuel) batch s r.0 r.1
        (hook_given batch s (filled batch.on_finish) dispatch refl refl)
