-- ===== src/CfJobs/Middleware/Once.antt =====
-- The destination of a middleware chain runs at most once.
use mathlib.Core.Path.{subst}
use harlan_nuxt.Prelude.{
  ℕ, suc, ◌+◌, ◌≤◌, ◌<◌, ◌≡◌, refl, true, false, List, [], ◌∷◌, length, All, Bool-cases, inl, inr,
  lt→ltb, ltb, leb, if◌then◌else◌, arith,
}
use harlan_nuxt.Prelude.Effect.{Outcome, threw, Action}
use harlan_nuxt.CfJobs.Middleware.{
  Layer, settle, act, await_next, Run, run_layer, on_world, run_from, run_job_through_middleware,
}

module _ {W E : Type 0} where
  -- `next` never forgets how far the run got.
  abbrev Grows : Action (Run W) E (Unit {0}) → Type 0
  Grows m = (s : Run W) → s.entered ≤ (m s).1.entered

  run_layer-Grows :
      (layer : Layer W E) (next : Action (Run W) E (Unit {0}))
      → Grows next
      → Grows (run_layer layer next)
  unfolding run_layer
  run_layer-Grows (settle o) next g s = omega arith
  run_layer-Grows (act f k) next g s =
      run_layer-Grows (k s.world) next g (record s { world = f s.world })
  run_layer-Grows (await_next k) next g s =
      omega (arith, run_layer-Grows (k (next s).0) next g (next s).1, g s)

module _ {W E : Type 0} (called_twice : E) (destination : Action W E (Unit {0})) where
  abbrev from : List (Layer W E) → ℕ → Action (Run W) E (Unit {0})
  from = run_from called_twice destination

  abbrev enter : ℕ → Run W → Run W
  enter i s = record s { entered = i + 1 }

  from_again :
      (layers : List (Layer W E)) (i : ℕ) (s : Run W)
      → ltb i s.entered ≡ true
      → from layers i s ≡ (threw called_twice, s)
  unfolding run_from
  from_again [] i s h = rw h refl
  from_again (layer ∷ layers) i s h = rw h refl

  from_layer :
      (layer : Layer W E) (layers : List (Layer W E)) (i : ℕ) (s : Run W)
      → ltb i s.entered ≡ false
      → from (layer ∷ layers) i s ≡ run_layer layer (from layers (i + 1)) (enter i s)
  unfolding run_from
  from_layer layer layers i s h = rw h refl

  from_end :
      (i : ℕ) (s : Run W) → ltb i s.entered ≡ false → from [] i s ≡ on_world destination (enter i s)
  unfolding run_from
  from_end i s h = rw h refl

  -- After `run(i)` the index has passed i, and it never falls.
  from-enters :
      (layers : List (Layer W E)) (i : ℕ) (s : Run W)
      → (i < (from layers i s).1.entered) × (s.entered ≤ (from layers i s).1.entered)
  from-enters [] i s = elim (Bool-cases (ltb i s.entered)) [
    | inl again ↦ rw (from_again [] i s again) (ground arith, omega arith)
    | inr first ↦ rw (from_end i s first) (omega arith, ground arith)
  ]
  from-enters (layer ∷ layers) i s = elim (Bool-cases (ltb i s.entered)) [
    | inl again ↦ rw (from_again (layer ∷ layers) i s again) (ground arith, omega arith)
    | inr first ↦
        let grown =
          run_layer-Grows layer (from layers (i + 1)) (λ t. (from-enters layers (i + 1) t).1)
            (enter i s) in
        rw (from_layer layer layers i s first) (omega (arith, grown), ground (arith, grown))
  ]

  -- A layer that calls `next()` a second time gets the error, and nothing runs.
  pub second_next_fails :
      (layers : List (Layer W E)) (i : ℕ) (s : Run W)
      → from layers i (from layers i s).1 ≡ (threw called_twice, (from layers i s).1)
  second_next_fails layers i s =
      from_again layers i (from layers i s).1 (lt→ltb _ _ (from-enters layers i s).0)

  module _ (calls : W → ℕ) where
    -- The layer itself does not change the count.
    abbrev pub IsQuiet : Layer W E → Type 0
    IsQuiet (settle o) = Unit
    IsQuiet (act f k) = ((w : W) → calls (f w) ≡ calls w) × ((w : W) → IsQuiet (k w))
    IsQuiet (await_next k) = (o : Outcome E (Unit {0})) → IsQuiet (k o)

    -- The runs so far, and the one that is still possible in a chain of `n` layers.
    abbrev potential : ℕ → Run W → ℕ
    potential n s = calls s.world + (if leb s.entered n then 1 else 0)

    run_layer-potential :
        (n : ℕ) (layer : Layer W E) (next : Action (Run W) E (Unit {0}))
        → IsQuiet layer
        → ((s : Run W) → potential n (next s).1 ≤ potential n s)
        → (s : Run W) → potential n (run_layer layer next s).1 ≤ potential n s
    unfolding run_layer
    run_layer-potential n (settle o) next q h s = omega arith
    run_layer-potential n (act f k) next q h s = ground (
      arith,
      run_layer-potential n (k s.world) next (q.1 s.world) h (record s { world = f s.world }),
      q.0 s.world,
    )
    run_layer-potential n (await_next k) next q h s =
        omega (arith, run_layer-potential n (k (next s).0) next (q (next s).0) h (next s).1, h s)

    module _ (counted : (w : W) → calls (destination w).1 ≡ calls w + 1) where
      from-potential :
          (layers : List (Layer W E)) (i : ℕ) (s : Run W)
          → All IsQuiet layers
          → potential (i + length layers) (from layers i s).1 ≤ potential (i + length layers) s
      from-potential [] i s q = elim (Bool-cases (ltb i s.entered)) [
        | inl again ↦ rw (from_again [] i s again) (omega arith)
        | inr first ↦ rw (from_end i s first) (ground (arith, counted s.world))
      ]
      from-potential (layer ∷ layers) i s q = elim (Bool-cases (ltb i s.entered)) [
        | inl again ↦ rw (from_again (layer ∷ layers) i s again) (omega arith)
        | inr first ↦
            let n = i + suc (length layers) in
            let same : i + 1 + length layers ≡ n = omega arith in
            let inner =
              run_layer-potential n layer (from layers (i + 1)) q.0
                (λ t.
                  subst (λ m. potential m (from layers (i + 1) t).1 ≤ potential m t) same
                    (from-potential layers (i + 1) t q.1))
                (enter i s) in
            rw (from_layer layer layers i s first) (ground (arith, inner))
      ]

      -- Where `calls` counts the runs of the destination and no layer changes the count itself: the
      -- destination runs at most once, however often the layers call `next()`.
      pub destination_at_most_once :
          (layers : List (Layer W E)) (w : W)
          → All IsQuiet layers
          → calls (run_job_through_middleware called_twice destination layers w).1 ≤ calls w + 1
      unfolding run_job_through_middleware
      destination_at_most_once layers w q =
          ground (arith, from-potential layers 0 (record { entered = 0; world = w }) q)
