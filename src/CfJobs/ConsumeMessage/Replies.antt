-- ===== src/CfJobs/ConsumeMessage/Replies.antt =====
-- A message is answered once: what a run says of its replies, and the rules by which it is followed.
use harlan_nuxt.Prelude.{ℕ, ◌≡◌, refl, ◌∙◌, [], ◌∷◌, ◌++◌, ap}
use harlan_nuxt.Prelude.Effect.{
  Outcome, returned, threw, Action, pure, continue, branch, ◌>>=◌, ◌>>◌, try_catch,
}
use harlan_nuxt.CfJobs.Consumer.{Reply, ack, retry, ack_all, retry_all, ConsumerState, within}

-- A reply to the message at `place`; a message that is returned to the queue is not remembered.
abbrev pub IsFor : {W : Type 0} → ℕ → ConsumerState W → ConsumerState W → Reply → Type 0
IsFor place s end (ack i) = i ≡ place
IsFor place s end (retry i delay) = (i ≡ place) × (end.seen ≡ s.seen)
IsFor place s end ack_all = ⊥
IsFor place s end (retry_all delay) = ⊥

-- Nothing was answered, and nothing remembered.
abbrev pub IsQuietFrom : {W : Type 0} → ConsumerState W → ConsumerState W → Type 0
IsQuietFrom s end = (end.replies ≡ s.replies) × (end.seen ≡ s.seen)

-- A run that returns has answered once; one that throws has not.
unfoldable pub IsReplied :
    {W E : Type 0} → ℕ → ConsumerState W → Outcome E (Unit {0}) × ConsumerState W → Type 0
IsReplied place s (returned _, end) =
    (r : Reply) × (end.replies ≡ s.replies ++ r ∷ []) × IsFor place s end r
IsReplied place s (threw e, end) = IsQuietFrom s end

IsFor-shift :
    {W : Type 0} (place : ℕ) (s t end : ConsumerState W) (r : Reply)
    → IsQuietFrom s t
    → IsFor place t end r
    → IsFor place s end r
IsFor-shift place s t end (ack i) q h = h
IsFor-shift place s t end (retry i delay) q h = (h.0, h.1 ∙ q.1)
IsFor-shift place s t end ack_all q h = h
IsFor-shift place s t end (retry_all delay) q h = h

unfoldable pub IsGood : {W E : Type 0} → ℕ → Action (ConsumerState W) E (Unit {0}) → Type 0
IsGood {W = W} place m = (s : ConsumerState W) → IsReplied place s (m s)

unfoldable pub IsQuiet : {W E A : Type 0} → Action (ConsumerState W) E A → Type 0
IsQuiet {W = W} m = (s : ConsumerState W) → IsQuietFrom s (m s).1

module _ {W E : Type 0} where
  pub within-IsQuiet : {A : Type 0} (m : Action W E A) → IsQuiet {W = W} (within m)
  unfolding IsQuiet
  within-IsQuiet m s = (refl, refl)

  pub then-IsQuiet :
      (m k : Action (ConsumerState W) E (Unit {0})) → IsQuiet m → IsQuiet k → IsQuiet (m >> k)
  unfolding IsQuiet
  then-IsQuiet m k h g s = cases (m s).0 (m s).1 (h s)
    where
      cases :
          (o : Outcome E (Unit {0})) (t : ConsumerState W)
          → IsQuietFrom s t
          → IsQuietFrom s (continue (λ _. k) o t).1
      cases (returned _) t q = ((g t).0 ∙ q.0, (g t).1 ∙ q.1)
      cases (threw e) t q = q

module _ {W E : Type 0} (place : ℕ) where
  IsReplied-shift :
      (s t : ConsumerState W) (r : Outcome E (Unit {0}) × ConsumerState W)
      → IsQuietFrom s t
      → IsReplied place t r
      → IsReplied place s r
  unfolding IsReplied
  IsReplied-shift s t (returned _, end) q (r, e, h) =
      (r, e ∙ ap (λ l. l ++ r ∷ []) q.0, IsFor-shift place s t end r q h)
  IsReplied-shift s t (threw e, end) q h = (h.0 ∙ q.0, h.1 ∙ q.1)

  -- What follows a quiet step.
  continue-IsReplied :
      {A : Type 0} (s : ConsumerState W) (k : A → Action (ConsumerState W) E (Unit {0}))
      (o : Outcome E A) (t : ConsumerState W)
      → IsQuietFrom s t
      → ((a : A) → IsGood place (k a))
      → IsReplied place s (continue k o t)
  unfolding IsReplied IsGood
  continue-IsReplied s k (returned a) t q h = IsReplied-shift s t (k a t) q (h a t)
  continue-IsReplied s k (threw e) t q h = q

  pub within_good :
      {A : Type 0} (m : Action W E A) (k : A → Action (ConsumerState W) E (Unit {0}))
      → ((a : A) → IsGood place (k a))
      → IsGood place (within m >>= k)
  unfolding IsGood
  within_good m k h s = continue-IsReplied s k (m s.world).0 _ (refl, refl) h

  pub quiet_good :
      (m k : Action (ConsumerState W) E (Unit {0}))
      → IsQuiet m
      → IsGood place k
      → IsGood place (m >> k)
  unfolding IsGood IsQuiet
  quiet_good m k q h s = continue-IsReplied s (λ _. k) (m s).0 (m s).1 (q s) (λ _. h)

  -- `try` around a step that does not answer.
  pub try_within_good :
      {A : Type 0} (m : Action W E A) (k : A → Action (ConsumerState W) E (Unit {0}))
      (handle : E → Action (ConsumerState W) E (Unit {0}))
      → ((a : A) → IsGood place (k a))
      → ((e : E) → IsGood place (handle e))
      → IsGood place (try_catch (within m) k handle)
  unfolding IsReplied IsGood
  try_within_good {A = A} m k handle h g s = cases (m s.world).0 (m s.world).1
    where
      cases :
          (o : Outcome E A) (w : W) → IsReplied place s (branch k handle o (record s { world = w }))
      cases (returned a) w = h a (record s { world = w })
      cases (threw e) w = g e (record s { world = w })

  -- `try` around a run that answers where it returns.
  pub try_good :
      (m : Action (ConsumerState W) E (Unit {0}))
      (handle : E → Action (ConsumerState W) E (Unit {0}))
      → IsGood place m
      → ((e : E) → IsGood place (handle e))
      → IsGood place (try_catch m pure handle)
  unfolding IsReplied IsGood
  try_good m handle h g s = cases (m s) (h s)
    where
      cases :
          (r : Outcome E (Unit {0}) × ConsumerState W)
          → IsReplied place s r
          → IsReplied place s (branch pure handle r.0 r.1)
      cases (returned _, end) q = q
      cases (threw e, end) q = IsReplied-shift s end (handle e end) q (g e end)
