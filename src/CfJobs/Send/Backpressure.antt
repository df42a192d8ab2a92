-- ===== src/CfJobs/Send/Backpressure.antt =====
-- The retry of a send under backpressure.
use harlan_nuxt.Prelude.{
  ℕ, zero, suc, ◌+◌, ◌*◌, ◌^◌, ◌≤◌, min, ◌≡◌, refl, ◌⊎◌, inl, inr, Bool, true, false, or_else,
  Bool-cases, arith,
}
use harlan_nuxt.Prelude.Effect.{Outcome, returned, threw, Action, Outcome-cases}
use harlan_nuxt.CfJobs.Send.{BackpressureOptions, report, retry_loop, with_send_backpressure}

module _ {S E R : Type 0} (is_transient : E → Bool) (sleep : ℕ → S → S)
    (opts : BackpressureOptions S E) (fn : Action S E R) where
  abbrev loop : ℕ → ℕ → Action S E R
  loop = retry_loop is_transient sleep opts fn

  abbrev delay : ℕ → ℕ
  delay attempt =
      min (or_else opts.max_delay_ms 5000) (or_else opts.base_delay_ms 100 * 2 ^ attempt)

  module _
      (told : (e : E) (n : ℕ) (b : Bool) (s : S)
        → (report opts.on_error e n b s).0 ≡ returned tt) where
    loop_returned :
        (left attempt : ℕ) (s : S) {a : R}
        → (fn s).0 ≡ returned a
        → loop left attempt s ≡ (returned a, (fn s).1)
    unfolding retry_loop
    loop_returned zero attempt s h = rw h refl
    loop_returned (suc left) attempt s h = rw h refl

    loop_last :
        (attempt : ℕ) (s : S) (e : E)
        → (fn s).0 ≡ threw e
        → loop zero attempt s ≡ (threw e, (report opts.on_error e (attempt + 1) false (fn s).1).1)
    unfolding retry_loop
    loop_last attempt s e h = rw h (rw (told e (attempt + 1) false (fn s).1) refl)

    loop_permanent :
        (left attempt : ℕ) (s : S) (e : E)
        → (fn s).0 ≡ threw e
        → is_transient e ≡ false
        → loop (suc left) attempt s
          ≡ (threw e, (report opts.on_error e (attempt + 1) false (fn s).1).1)
    unfolding retry_loop
    loop_permanent left attempt s e h p =
        rw h (rw p (rw (told e (attempt + 1) false (fn s).1) refl))

    loop_again :
        (left attempt : ℕ) (s : S) (e : E)
        → (fn s).0 ≡ threw e
        → is_transient e ≡ true
        → loop (suc left) attempt s
          ≡ loop left
              (attempt + 1)
              (sleep (delay attempt) (report opts.on_error e (attempt + 1) true (fn s).1).1)
    unfolding retry_loop
    loop_again left attempt s e h p = rw h (rw p (rw (told e (attempt + 1) true (fn s).1) refl))

    -- To show a relation of the state before a send to its outcome: at a call that returns, at one
    -- that throws and is not retried, and over one retry.
    pub with_send_backpressure_rule {ℓ} :
        (P : S → Outcome E R × S → Type ℓ)
        → ((s : S) (a : R) → (fn s).0 ≡ returned a → P s (returned a, (fn s).1))
        → ((s : S) (e : E) (n : ℕ)
            → (fn s).0 ≡ threw e
            → P s (threw e, (report opts.on_error e n false (fn s).1).1))
        → ((s : S) (e : E) (n d : ℕ) (r : Outcome E R × S)
            → (fn s).0 ≡ threw e
            → P (sleep d (report opts.on_error e n true (fn s).1).1) r
            → P s r)
        → (s : S) → P s (with_send_backpressure is_transient sleep opts fn s)
    unfolding with_send_backpressure
    with_send_backpressure_rule P ok last again s = go (or_else opts.max_retries 5) 0 s
      where
        go : (left attempt : ℕ) (s : S) → P s (loop left attempt s)
        go zero attempt s = elim (Outcome-cases (fn s).0) [
          | inl (a, h) ↦ rw (loop_returned zero attempt s h) (ok s a h)
          | inr (e, h) ↦ rw (loop_last attempt s e h) (last s e (attempt + 1) h)
        ]
        go (suc left) attempt s = elim (Outcome-cases (fn s).0) [
          | inl (a, h) ↦ rw (loop_returned (suc left) attempt s h) (ok s a h)
          | inr (e, h) ↦ elim (Bool-cases (is_transient e)) [
            | inl t ↦
                rw (loop_again left attempt s e h t)
                  (again s e (attempt + 1) (delay attempt) _ h (go left (attempt + 1) _))
            | inr t ↦ rw (loop_permanent left attempt s e h t) (last s e (attempt + 1) h)
          ]
        ]

module _ {S E R : Type 0} (is_transient : E → Bool) (sleep : ℕ → S → S)
    (opts : BackpressureOptions S E) (fn : Action S E R) (calls : S → ℕ) where
  -- How a send ends that may retry `left` times.
  pub record IsSpent (left : ℕ) (s : S) (r : Outcome E R × S) : Type 0 where
    pub some_call : calls s + 1 ≤ calls r.1
    pub budget : calls r.1 ≤ calls s + 1 + left
    pub ending :
        ((t : S) × (a : R) × ((fn t).0 ≡ returned a) × (r.0 ≡ returned a))
        ⊎ ((t : S) × (e : E) × ((fn t).0 ≡ threw e)
            × (r.0 ≡ threw e)
            × ((is_transient e ≡ false) ⊎ (calls r.1 ≡ calls s + 1 + left)))

  module _ (call : (s : S) → calls (fn s).1 ≡ calls s + 1)
      (asleep : (d : ℕ) (s : S) → calls (sleep d s) ≡ calls s)
      (told : (e : E) (n : ℕ) (b : Bool) (s : S) → (report opts.on_error e n b s).0 ≡ returned tt)
      (telling : (e : E) (n : ℕ) (b : Bool) (s : S)
        → calls (report opts.on_error e n b s).1 ≡ calls s) where
    last_call :
        (left : ℕ) (s s' : S) (e : E)
        → (fn s).0 ≡ threw e
        → calls s' ≡ calls s + 1
        → (is_transient e ≡ false) ⊎ (left ≡ 0)
        → IsSpent left s (threw e, s')
    last_call left s s' e h c why = record {
      some_call = omega arith;
      budget = omega arith;
      ending = inr (s, e, h, refl, elim why [ inl p ↦ inl p | inr z ↦ inr (omega arith) ]);
    }

    good_call :
        (left : ℕ) (s : S) (a : R) → (fn s).0 ≡ returned a → IsSpent left s (returned a, (fn s).1)
    good_call left s a h = record {
      some_call = omega (arith, call s);
      budget = omega (arith, call s);
      ending = inl (s, a, h, refl);
    }

    later_call :
        (left : ℕ) (s t : S) (r : Outcome E R × S)
        → calls t ≡ calls s + 1
        → IsSpent left t r
        → IsSpent (suc left) s r
    later_call left s t r c i = record {
      some_call = omega (arith, i.some_call);
      budget = omega (arith, i.budget);
      ending = elim i.ending [
        | inl ok ↦ inl ok
        | inr (u, e, h, thrown, inl p) ↦ inr (u, e, h, thrown, inl p)
        | inr (u, e, h, thrown, inr z) ↦ inr (u, e, h, thrown, inr (omega (arith, z, c)))
      ];
    }

    retry_loop-IsSpent :
        (left attempt : ℕ) (s : S)
        → IsSpent left s (retry_loop is_transient sleep opts fn left attempt s)
    retry_loop-IsSpent zero attempt s = elim (Outcome-cases (fn s).0) [
      | inl (a, h) ↦
          rw (loop_returned is_transient sleep opts fn told zero attempt s h) (good_call zero s a h)
      | inr (e, h) ↦ rw (loop_last is_transient sleep opts fn told attempt s e h) (
          last_call zero s _ e h (omega (arith, telling e (attempt + 1) false (fn s).1, call s))
            (inr refl))
    ]
    retry_loop-IsSpent (suc left) attempt s = elim (Outcome-cases (fn s).0) [
      | inl (a, h) ↦
          rw (loop_returned is_transient sleep opts fn told (suc left) attempt s h)
            (good_call (suc left) s a h)
      | inr (e, h) ↦ elim (Bool-cases (is_transient e)) [
        | inl again ↦ rw (loop_again is_transient sleep opts fn told left attempt s e h again) (
            later_call left s _ _
              (omega (
                arith,
                asleep (delay is_transient sleep opts fn attempt)
                    (report opts.on_error e (attempt + 1) true (fn s).1).1,
                telling e (attempt + 1) true (fn s).1,
                call s,
              ))
              (retry_loop-IsSpent left (attempt + 1) _))
        | inr permanent ↦
            rw (loop_permanent is_transient sleep opts fn told left attempt s e h permanent) (
              last_call (suc left) s _ e h
                (omega (arith, telling e (attempt + 1) false (fn s).1, call s)) (inl permanent))
      ]
    ]

    -- Where `calls` counts the calls of the send, and the timer and the observer leave the count
    -- alone and the observer does not throw: a send makes at least one call and at most
    -- `maxRetries` more (5 when unset). It returns what one of its calls returned, or throws what
    -- one threw, and then the error is permanent or every retry is spent.
    pub with_send_backpressure-IsSpent :
        (s : S)
        → IsSpent
            (or_else opts.max_retries 5)
            s
            (with_send_backpressure is_transient sleep opts fn s)
    unfolding with_send_backpressure
    with_send_backpressure-IsSpent s = retry_loop-IsSpent (or_else opts.max_retries 5) 0 s
