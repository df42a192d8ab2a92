-- ===== src/CfJobs/RunMessage/Rules.antt =====
-- What a delivery's result says of its trace, and the rules by which a run is followed.
use harlan_nuxt.Prelude.{
  ℕ, ◌≡◌, ap, inl, inr, Bool, true, false, some, List, [], ◌∷◌, ◌++◌, if◌then◌else◌, or_else,
}
use harlan_nuxt.Prelude.Effect.{
  Outcome, returned, threw, Outcome-cases, Action, pure, ◌>>=◌, ◌>>◌, try_catch,
}
use harlan_nuxt.CfJobs.Policy.{retried, handed_to_recovery, obsolete_delivery}
use harlan_nuxt.CfJobs.Message.{
  completed_row, failed_row, released_row, Event, settled, acked, redelivered, MessageRun,
  RunOptions, RunResult, invalid_message, gone_resolved, gone_not_found, held, dispatch_failed,
  failed, released, completed, errored, exhausted, claim_error,
}
use harlan_nuxt.CfJobs.RunMessage.{within, note}

-- What a result says of the run: which settlement returned before it, and the one answer after.
unfoldable pub IsAnswered : {E : Type 0} → Bool → RunResult E → List Event → Type 0
IsAnswered fails (held (retried n delay)) trace = trace ≡ redelivered delay ∷ []
IsAnswered fails (held (handed_to_recovery n)) trace = trace ≡ acked ∷ []
IsAnswered fails (held obsolete_delivery) trace = trace ≡ acked ∷ []
IsAnswered fails invalid_message trace = trace ≡ acked ∷ []
IsAnswered fails gone_resolved trace = trace ≡ acked ∷ []
IsAnswered fails gone_not_found trace = trace ≡ acked ∷ []
IsAnswered fails (dispatch_failed e l) trace =
    trace ≡ (if fails then settled failed_row ∷ acked ∷ [] else acked ∷ [])
IsAnswered fails (failed c e l) trace = trace ≡ settled failed_row ∷ acked ∷ []
IsAnswered fails (released c) trace =
    trace ≡ settled released_row ∷ redelivered (or_else c.delay_seconds 0) ∷ []
IsAnswered fails (completed c l) trace = trace ≡ settled completed_row ∷ acked ∷ []
IsAnswered fails (errored e) trace =
    (delay : ℕ) × (trace ≡ settled released_row ∷ redelivered delay ∷ [])
IsAnswered fails (exhausted e c l) trace = trace ≡ settled failed_row ∷ acked ∷ []
IsAnswered fails (claim_error e) trace = (delay : ℕ) × (trace ≡ redelivered delay ∷ [])

-- A run that throws has settled nothing and has answered nothing.
unfoldable pub IsTraced : {E : Type 0} → Bool → Outcome E (RunResult E) → List Event → Type 0
IsTraced fails (returned r) trace = IsAnswered fails r trace
IsTraced fails (threw e) trace = trace ≡ []

-- The hook throws nothing at its call; its promise may reject.
abbrev pub IsAsync : {W E C J : Type 0} → RunOptions W E C J → Type 0
IsAsync {W} {E} {C} {J} opts =
    (hook : E → J → Action W E (Outcome E (Unit {0})))
    → opts.on_terminal_failure ≡ some hook
    → (error : E) (job : J) (w : W)
    → (answer : Outcome E (Unit {0})) × ((hook error job w).0 ≡ returned answer)

-- Every run of the action returns.
unfoldable pub Returns : {W E A : Type 0} → Action W E A → Type 0
Returns {W} {E} {A} m = (w : W) → (a : A) × ((m w).0 ≡ returned a)

unfoldable pub IsGood :
    {W E : Type 0} → Bool → List Event → Action (MessageRun W) E (RunResult E) → Type 0
IsGood {W} fails t m = (s : MessageRun W) → s.trace ≡ t → IsTraced fails (m s).0 (m s).1.trace

module _ {W E A : Type 0} (fails : Bool) where
  pub within_returns :
      (t : List Event) (m : Action W E A) (k : A → Action (MessageRun W) E (RunResult E))
      → Returns m
      → ((a : A) → IsGood fails t (k a))
      → IsGood fails t (within m >>= k)
  unfolding IsGood Returns
  within_returns t m k calm good s h =
      let (a, e) = calm s.world in rw e (good a (record s { world = (m s.world).1 }) h)

  pub within_throws :
      (m : Action W E A) (k : A → Action (MessageRun W) E (RunResult E))
      → ((a : A) → IsGood fails [] (k a))
      → IsGood fails [] (within m >>= k)
  unfolding IsGood IsTraced
  within_throws m k good s h = elim (Outcome-cases (m s.world).0) [
    | inl (a, e) ↦ rw e (good a (record s { world = (m s.world).1 }) h)
    | inr (error, e) ↦ rw e h
  ]

  pub attempt :
      (m : Action W E A) (k : A → Action (MessageRun W) E (RunResult E))
      (handle : E → Action (MessageRun W) E (RunResult E))
      → ((a : A) → IsGood fails [] (k a))
      → ((error : E) → IsGood fails [] (handle error))
      → IsGood fails [] (try_catch (within m) k handle)
  unfolding IsGood
  attempt m k handle good handled s h = elim (Outcome-cases (m s.world).0) [
    | inl (a, e) ↦ rw e (good a (record s { world = (m s.world).1 }) h)
    | inr (error, e) ↦ rw e (handled error (record s { world = (m s.world).1 }) h)
  ]

module _ {W E : Type 0} (fails : Bool) where
  pub if-IsGood :
      (t : List Event) (b : Bool) (x y : Action (MessageRun W) E (RunResult E))
      → IsGood fails t x
      → IsGood fails t y
      → IsGood fails t (if b then x else y)
  if-IsGood t true x y good other = good
  if-IsGood t false x y good other = other

  pub caught :
      (body : Action (MessageRun W) E (RunResult E))
      (handle : E → Action (MessageRun W) E (RunResult E))
      → IsGood fails [] body
      → ((error : E) → IsGood fails [] (handle error))
      → IsGood fails [] (try_catch body pure handle)
  unfolding IsGood IsTraced
  caught body handle good handled s h = elim (Outcome-cases (body s).0) [
    | inl (r, e) ↦ rw e (rw e at (good s h))
    | inr (error, e) ↦ rw e (handled error (body s).1 (rw e at (good s h)))
  ]

module _ {E : Type 0} (W : Type 0) (fails : Bool) where
  pub answered :
      (t : List Event) (event : Event) (r : RunResult E)
      → ((trace : List Event) → trace ≡ t ++ event ∷ [] → IsAnswered fails r trace)
      → IsGood {W = W} fails t (note event >> pure r)
  unfolding IsGood IsTraced
  answered t event r good s h = good (s.trace ++ event ∷ []) (ap (λ l. l ++ event ∷ []) h)
