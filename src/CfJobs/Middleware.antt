-- ===== src/CfJobs/Middleware.antt =====
-- `runJobThroughMiddleware` of packages/nuxt-cf-jobs/src/runtime/server/dispatch.ts. A layer
-- changes the world and calls `next` as often as it likes, one call after the other; what it does
-- is a tree, since it reaches the run's index through `next` only. The index, which starts at -1,
-- is kept one higher.
pub mod Once
use harlan_nuxt.Prelude.{ℕ, zero, suc, ◌+◌, Bool, List, [], ◌∷◌, ltb, if◌then◌else◌}
use harlan_nuxt.Prelude.Effect.{Outcome, returned, threw, Action}

-- What one call of a layer does: it settles, changes the world, or awaits `next()`.
pub data Layer (W E : Type 0) : Type 0 where
  settle : Outcome E (Unit {0}) → Layer W E
  act : (W → W) → (W → Layer W E) → Layer W E
  await_next : (Outcome E (Unit {0}) → Layer W E) → Layer W E

pub record Run (W : Type 0) : Type 0 where
  pub entered : ℕ
  pub world : W

module _ {W E : Type 0} where
  unfoldable pub run_layer : Layer W E → Action (Run W) E (Unit {0}) → Action (Run W) E (Unit {0})
  run_layer (settle o) next s = (o, s)
  run_layer (act f k) next s = run_layer (k s.world) next (record s { world = f s.world })
  run_layer (await_next k) next s = let r = next s in run_layer (k r.0) next r.1

  abbrev pub on_world : Action W E (Unit {0}) → Action (Run W) E (Unit {0})
  on_world m s = let r = m s.world in (r.0, record s { world = r.1 })

module _ {W E : Type 0} (called_twice : E) (destination : Action W E (Unit {0})) where
  -- `run(i)`, over the layers from the i-th on. `called_twice` is the error of a second `next()`.
  unfoldable pub run_from : List (Layer W E) → ℕ → Action (Run W) E (Unit {0})
  unfolding run_layer
  run_from [] i s =
      if ltb i s.entered
      then (threw called_twice, s)
      else on_world destination (record s { entered = i + 1 })
  run_from (layer ∷ layers) i s =
      let next : Action (Run W) E (Unit {0}) = run_from layers (i + 1) in
      if ltb i s.entered
      then (threw called_twice, s)
      else run_layer layer next (record s { entered = i + 1 })

  unfoldable pub run_job_through_middleware : List (Layer W E) → Action W E (Unit {0})
  unfolding run_from
  run_job_through_middleware layers w =
      let r = run_from layers 0 (record { entered = 0; world = w }) in (r.0, r.1.world)
