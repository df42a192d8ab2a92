-- ===== src/CfJobs/Settle/Recovery.antt =====
-- The accounts of a recovery of orphaned batches, and that an error of one batch stops no other.
use mathlib.Core.Path.{subst}
use harlan_nuxt.Prelude.{
  ℕ, ◌+◌, ◌≤◌, ◌<◌, ◌≡◌, refl, Bool, true, false, Option, none, some, List, [], ◌∷◌, length,
  length-append, String, arith,
}
use harlan_nuxt.Prelude.Effect.{Outcome, returned, threw, Action, branch}
use harlan_nuxt.CfJobs.Payload.{Json}
use harlan_nuxt.CfJobs.BatchStore.{BatchRow}
use harlan_nuxt.CfJobs.Continuation.{Continuation}
use harlan_nuxt.CfJobs.Batch.{DurableBatchStore}
use harlan_nuxt.CfJobs.Settle.{
  RecoverResult, fire_on_finish_chain, skip, recover_batch, fired, fire_failed, after_finish,
  recover_from,
}
use harlan_nuxt.CfJobs.Settle.Fuel.{IsLowering, KeepsDispatch, IsDone, fire-IsDone}

-- After `n` candidates: each was recovered or skipped, and of those recovered the hooks that ran and
-- those that failed are counted.
abbrev pub IsAccounted : {E : Type 0} → ℕ → RecoverResult E → Type 0
IsAccounted n acc =
    (acc.recovered + acc.skipped ≡ n)
    × (length acc.batches ≡ acc.recovered)
    × (length acc.errors ≡ acc.on_finish_failed)
    × (acc.on_finish_dispatched + acc.on_finish_failed ≤ acc.recovered)

module _ {E : Type 0} (n : ℕ) (acc : RecoverResult E) (h : IsAccounted n acc) where
  skip-IsAccounted : IsAccounted (n + 1) (skip acc)
  skip-IsAccounted = (omega (arith, h.0), h.1, h.2, h.3)

  fired-IsAccounted :
      (flag : Bool) (b : BatchRow) → IsAccounted (n + 1) (fired flag (recover_batch b acc))
  fired-IsAccounted true b = (
    omega (arith, h.0),
    omega (arith, h.1, length-append acc.batches (b ∷ [])),
    h.2,
    omega (arith, h.3),
  )
  fired-IsAccounted false b = (
    omega (arith, h.0),
    omega (arith, h.1, length-append acc.batches (b ∷ [])),
    h.2,
    omega (arith, h.3),
  )

  failed-IsAccounted :
      (b : BatchRow) (e : E) → IsAccounted (n + 1) (fire_failed b.id e (recover_batch b acc))
  failed-IsAccounted b e = (
    omega (arith, h.0),
    omega (arith, h.1, length-append acc.batches (b ∷ [])),
    omega (arith, h.2, length-append acc.errors ((b.id, e) ∷ [])),
    omega (arith, h.3),
  )

-- The run answered, with the accounts of `n` candidates.
abbrev pub IsRecovered : {S E : Type 0} → ℕ → Outcome E (Option (RecoverResult E)) × S → Type 0
IsRecovered {E = E} n r = (acc : RecoverResult E) × (r.0 ≡ returned (some acc)) × IsAccounted n acc

-- A call that answers, and leaves the measure no higher.
abbrev pub Answers : {S E A : Type 0} → (S → ℕ) → Action S E A → Type 0
Answers {S = S} {A = A} measure m =
    (s : S) → (a : A) × ((m s).0 ≡ returned a) × (measure (m s).1 ≤ measure s)

module _ {S E : Type 0} (measure : S → ℕ) (json_parse : String → Outcome E Json) (invalid : E)
    (index_key : ℕ → String) (store : DurableBatchStore S E)
    (dispatch : Option (Continuation → BatchRow → Action S E (Unit {0})))
    (lowers : (id : String) (failed : Bool) (s : S)
      → IsLowering measure s (store.decrement_pending id failed s))
    (keeps : KeepsDispatch measure dispatch) (fuel : ℕ) where
  module _ (rest : RecoverResult E → Action S E (Option (RecoverResult E))) (n total : ℕ)
      (goes_on : (acc : RecoverResult E) (s : S)
        → measure s < fuel
        → IsAccounted (n + 1) acc
        → IsRecovered total (rest acc s)) where
    after_fire :
        (batch : BatchRow) (acc : RecoverResult E) (m : ℕ) (r : Outcome E (Option Bool) × S)
        → m < fuel
        → IsDone measure m r
        → IsAccounted n acc
        → IsRecovered total (
            branch
              (λ flag. elim flag [
                | none ↦ (λ s. (returned none, s))
                | some f ↦ rest (fired f (recover_batch batch acc))
              ])
              (λ error. rest (fire_failed batch.id error (recover_batch batch acc)))
              r.0
              r.1)
    after_fire batch acc m (returned none, s) k d h = absurd d.0
    after_fire batch acc m (returned (some flag), s) k d h =
        goes_on _ s (omega (arith, d.1)) (fired-IsAccounted n acc h flag batch)
    after_fire batch acc m (threw e, s) k d h =
        goes_on _ s (omega (arith, d.1)) (failed-IsAccounted n acc h batch e)

    after_finish-IsRecovered :
        (acc : RecoverResult E) (batch : Option BatchRow) (s : S)
        → measure s < fuel
        → IsAccounted n acc
        → IsRecovered total
            (after_finish json_parse invalid index_key store dispatch fuel rest acc batch s)
    after_finish-IsRecovered acc none s k h = goes_on _ s k (skip-IsAccounted n acc h)
    after_finish-IsRecovered acc (some batch) s k h =
        after_fire batch acc (measure s)
          (fire_on_finish_chain json_parse invalid index_key store dispatch fuel batch s) k
          (fire-IsDone measure json_parse invalid index_key store dispatch lowers keeps fuel batch s
            k)
          h

  pub recover_from-IsRecovered :
      (finish : String → Action S E (Option BatchRow))
      → ((id : String) → Answers measure (finish id))
      → (candidates : List BatchRow) (n : ℕ) (acc : RecoverResult E) (s : S) → measure s < fuel
      → IsAccounted n acc
      → IsRecovered
          (n + length candidates)
          (recover_from json_parse invalid index_key store dispatch fuel finish candidates acc s)
  unfolding recover_from
  recover_from-IsRecovered finish f [] n acc s k h =
      (acc, refl, subst (λ m. IsAccounted m acc) (omega arith) h)
  recover_from-IsRecovered finish f (c ∷ cs) n acc s k h =
      let (batch, e, low) = f c.id s in
      rw e (
        after_finish-IsRecovered
          (recover_from json_parse invalid index_key store dispatch fuel finish cs) n
          (n + length (c ∷ cs))
          (λ acc' s' k' h'.
            subst
              (λ m.
                IsRecovered m
                  (recover_from json_parse invalid index_key store dispatch fuel finish cs acc' s'))
              (omega arith) (recover_from-IsRecovered finish f cs (n + 1) acc' s' k' h'))
          acc batch (finish c.id s).1 (omega arith) h)
