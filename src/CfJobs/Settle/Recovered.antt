-- ===== src/CfJobs/Settle/Recovered.antt =====
-- What a recovery of orphaned batches does with each candidate, and how its result lists it.
use harlan_nuxt.Prelude.{
  ℕ, suc, ◌+◌, ◌≡◌, refl, sym, ◌∙◌, Bool, Option, none, some, List, [], ◌∷◌, ◌++◌, append-nil,
  append_assoc, length, String, if◌then◌else◌, arith,
}
use harlan_nuxt.Prelude.Effect.{Outcome, returned, threw, Action, branch, continue}
use harlan_nuxt.CfJobs.Payload.{Json}
use harlan_nuxt.CfJobs.BatchStore.{BatchRow}
use harlan_nuxt.CfJobs.Continuation.{Continuation}
use harlan_nuxt.CfJobs.Batch.{DurableBatchStore}
use harlan_nuxt.CfJobs.Settle.{
  RecoverResult, fire_on_finish_chain, skip, recover_batch, fired, fire_failed, after_finish,
  recover_from,
}
use harlan_nuxt.CfJobs.Settle.Chain.{FireRun, IsChain, fire_on_finish_chain-IsChain}

-- What the candidates came to: the rows that were finished, in order, the errors of their chains
-- under the rows' ids, the chains that called a hook, and the candidates that were gone.
pub record Recovered (E : Type 0) : Type 0 where
  pub rows : List BatchRow
  pub errors : List (String × E)
  pub dispatched : ℕ
  pub gone : ℕ

-- A result to which they are added.
abbrev pub add_recovered : {E : Type 0} → RecoverResult E → Recovered E → RecoverResult E
add_recovered acc done = record {
  recovered = acc.recovered + length done.rows;
  on_finish_dispatched = acc.on_finish_dispatched + done.dispatched;
  on_finish_failed = acc.on_finish_failed + length done.errors;
  skipped = acc.skipped + done.gone;
  batches = acc.batches ++ done.rows;
  errors = acc.errors ++ done.errors;
}

same_result :
    {E : Type 0} (a b : RecoverResult E)
    → a.recovered ≡ b.recovered
    → a.on_finish_dispatched ≡ b.on_finish_dispatched
    → a.on_finish_failed ≡ b.on_finish_failed
    → a.skipped ≡ b.skipped
    → a.batches ≡ b.batches
    → a.errors ≡ b.errors
    → a ≡ b
same_result a b p q r s t u = λ i. record {
  recovered = p i;
  on_finish_dispatched = q i;
  on_finish_failed = r i;
  skipped = s i;
  batches = t i;
  errors = u i;
}

abbrev pub count : Bool → ℕ
count flag = if flag then 1 else 0

module _ {S E : Type 0} (json_parse : String → Outcome E Json) (invalid : E)
    (index_key : ℕ → String) (store : DurableBatchStore S E)
    (dispatch : Option (Continuation → BatchRow → Action S E (Unit {0})))
    (finish : String → Action S E (Option BatchRow)) where
  -- One candidate after the other: gone, or finished, and then its chain was run.
  pub data RecoveryRun : List BatchRow → S → Recovered E → S → Type 0 where
    no_more :
        (s : S) → RecoveryRun [] s (record { rows = []; errors = []; dispatched = 0; gone = 0 }) s
    was_gone :
        (c : BatchRow) (cs : List BatchRow) (s t end : S) (done : Recovered E)
        → finish c.id s ≡ (returned none, t)
        → RecoveryRun cs t done end
        → RecoveryRun (c ∷ cs) s (record done { gone = suc done.gone }) end
    has_fired :
        (c : BatchRow) (cs : List BatchRow) (s t u end : S) (done : Recovered E) (row : BatchRow)
        (flag : Bool)
        → finish c.id s ≡ (returned (some row), t)
        → FireRun json_parse invalid index_key store dispatch row t (returned flag) u
        → RecoveryRun cs u done end
        → RecoveryRun
            (c ∷ cs)
            s
            (record done { rows = row ∷ done.rows; dispatched = count flag + done.dispatched })
            end
    has_failed :
        (c : BatchRow) (cs : List BatchRow) (s t u end : S) (done : Recovered E) (row : BatchRow)
        (e : E)
        → finish c.id s ≡ (returned (some row), t)
        → FireRun json_parse invalid index_key store dispatch row t (threw e) u
        → RecoveryRun cs u done end
        → RecoveryRun
            (c ∷ cs)
            s
            (record done { rows = row ∷ done.rows; errors = (row.id, e) ∷ done.errors })
            end

  -- A recovery that answered did this, and its result lists it.
  unfoldable pub IsListed :
      List BatchRow → S → RecoverResult E → Outcome E (Option (RecoverResult E)) × S → Type 0
  IsListed cs s acc (returned none, end) = Unit
  IsListed cs s acc (returned (some out), end) =
      (done : Recovered E) × RecoveryRun cs s done end × (out ≡ add_recovered acc done)
  IsListed cs s acc (threw e, end) = Unit

  module _ (c : BatchRow) (cs : List BatchRow) (s t : S) (acc : RecoverResult E) where
    gone-IsListed :
        finish c.id s ≡ (returned none, t)
        → (r : Outcome E (Option (RecoverResult E)) × S) → IsListed cs t (skip acc) r
        → IsListed (c ∷ cs) s acc r
    unfolding IsListed
    gone-IsListed f (returned none, end) h = tt
    gone-IsListed f (threw e, end) h = tt
    gone-IsListed f (returned (some out), end) (done, run, e) = (
      record done { gone = suc done.gone },
      was_gone c cs s t end done f run,
      e
          ∙ same_result (add_recovered (skip acc) done)
              (add_recovered acc (record done { gone = suc done.gone })) refl refl refl
              (omega arith) refl refl,
    )

    module _ (row : BatchRow) (f : finish c.id s ≡ (returned (some row), t)) (u : S) where
      fired-IsListed :
          (flag : Bool)
          → FireRun json_parse invalid index_key store dispatch row t (returned flag) u
          → (r : Outcome E (Option (RecoverResult E)) × S)
          → IsListed cs u (fired flag (recover_batch row acc)) r
          → IsListed (c ∷ cs) s acc r
      unfolding IsListed
      fired-IsListed flag chain (returned none, end) h = tt
      fired-IsListed flag chain (threw e, end) h = tt
      fired-IsListed flag chain (returned (some out), end) (done, run, e) = (
        record done { rows = row ∷ done.rows; dispatched = count flag + done.dispatched },
        has_fired c cs s t u end done row flag f chain run,
        e
            ∙ same_result (add_recovered (fired flag (recover_batch row acc)) done)
                (add_recovered acc (record done {
                  rows = row ∷ done.rows;
                  dispatched = count flag + done.dispatched;
                }))
                (omega arith) (omega arith) refl refl
                (append_assoc acc.batches (row ∷ []) done.rows) refl,
      )

      failed-IsListed :
          (x : E)
          → FireRun json_parse invalid index_key store dispatch row t (threw x) u
          → (r : Outcome E (Option (RecoverResult E)) × S)
          → IsListed cs u (fire_failed row.id x (recover_batch row acc)) r
          → IsListed (c ∷ cs) s acc r
      unfolding IsListed
      failed-IsListed x chain (returned none, end) h = tt
      failed-IsListed x chain (threw e, end) h = tt
      failed-IsListed x chain (returned (some out), end) (done, run, e) = (
        record done { rows = row ∷ done.rows; errors = (row.id, x) ∷ done.errors },
        has_failed c cs s t u end done row x f chain run,
        e
            ∙ same_result (add_recovered (fire_failed row.id x (recover_batch row acc)) done)
                (add_recovered acc
                  (record done { rows = row ∷ done.rows; errors = (row.id, x) ∷ done.errors }))
                (omega arith) refl (omega arith) refl
                (append_assoc acc.batches (row ∷ []) done.rows)
                (append_assoc acc.errors ((row.id, x) ∷ []) done.errors),
      )

  module _ (fuel : ℕ) (c : BatchRow) (cs : List BatchRow)
      (rest : RecoverResult E → Action S E (Option (RecoverResult E)))
      (goes_on : (acc : RecoverResult E) (s : S) → IsListed cs s acc (rest acc s)) (s t : S)
      (acc : RecoverResult E) where
    chained-IsListed :
        (row : BatchRow)
        → finish c.id s ≡ (returned (some row), t)
        → (r : Outcome E (Option Bool) × S)
        → IsChain json_parse invalid index_key store dispatch row t r
        → IsListed (c ∷ cs) s acc (
            branch
              (λ flag. elim flag [
                | none ↦ (λ s. (returned none, s))
                | some f ↦ rest (fired f (recover_batch row acc))
              ])
              (λ error. rest (fire_failed row.id error (recover_batch row acc)))
              r.0
              r.1)
    unfolding IsListed IsChain
    chained-IsListed row f (returned none, u) h = tt
    chained-IsListed row f (returned (some flag), u) h =
        fired-IsListed c cs s t acc row f u flag h _ (goes_on _ u)
    chained-IsListed row f (threw e, u) h = failed-IsListed c cs s t acc row f u e h _ (goes_on _ u)

    finished-IsListed :
        (batch : Option BatchRow)
        → finish c.id s ≡ (returned batch, t)
        → IsListed
            (c ∷ cs)
            s
            acc
            (after_finish json_parse invalid index_key store dispatch fuel rest acc batch t)
    finished-IsListed none f = gone-IsListed c cs s t acc f _ (goes_on _ t)
    finished-IsListed (some row) f =
        chained-IsListed row f
          (fire_on_finish_chain json_parse invalid index_key store dispatch fuel row t)
          (fire_on_finish_chain-IsChain json_parse invalid index_key store dispatch fuel row t)

  candidate-IsListed :
      (fuel : ℕ) (c : BatchRow) (cs : List BatchRow)
      (rest : RecoverResult E → Action S E (Option (RecoverResult E)))
      → ((acc : RecoverResult E) (s : S) → IsListed cs s acc (rest acc s))
      → (s : S) (acc : RecoverResult E) (r : Outcome E (Option BatchRow) × S) → finish c.id s ≡ r
      → IsListed (c ∷ cs) s acc (
          continue (after_finish json_parse invalid index_key store dispatch fuel rest acc) r.0 r.1)
  unfolding IsListed
  candidate-IsListed fuel c cs rest goes_on s acc (threw e, t) f = tt
  candidate-IsListed fuel c cs rest goes_on s acc (returned batch, t) f =
      finished-IsListed fuel c cs rest goes_on s t acc batch f

  pub recover_from-IsListed :
      (fuel : ℕ) (candidates : List BatchRow) (acc : RecoverResult E) (s : S)
      → IsListed candidates s acc
          (recover_from json_parse invalid index_key store dispatch fuel finish candidates acc s)
  unfolding recover_from IsListed
  recover_from-IsListed fuel [] acc s = (
    record { rows = []; errors = []; dispatched = 0; gone = 0 },
    no_more s,
    same_result acc _ (omega arith) (omega arith) (omega arith) (omega arith)
        (sym (append-nil acc.batches)) (sym (append-nil acc.errors)),
  )
  recover_from-IsListed fuel (c ∷ cs) acc s =
      candidate-IsListed fuel c cs
        (recover_from json_parse invalid index_key store dispatch fuel finish cs)
        (recover_from-IsListed fuel cs) s acc (finish c.id s) refl

  pub listed_of :
      (cs : List BatchRow) (s : S) (acc out : RecoverResult E)
      (r : Outcome E (Option (RecoverResult E)) × S)
      → IsListed cs s acc r
      → r.0 ≡ returned (some out)
      → (done : Recovered E) × RecoveryRun cs s done r.1 × (out ≡ add_recovered acc done)
  unfolding IsListed
  listed_of cs s acc out (returned none, end) h e = absurd (cc)
  listed_of cs s acc out (threw x, end) h e = absurd (cc)
  listed_of cs s acc out (returned (some result), end) (done, run, same) e =
      (done, run, sym (some_of e) ∙ same)
    where
      some_of :
          {A : Type 0} {a b : A}
          → ◌≡◌ {A = Outcome E (Option A)} (returned (some a)) (returned (some b))
          → a ≡ b
      some_of p = cc
