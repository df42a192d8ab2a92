-- ===== src/Tests/Policies.antt =====
-- The delay policies, the duplicate guard and the middleware chain at concrete inputs.
use harlan_nuxt.Prelude.{
  ℕ, ◌+◌, ◌≤◌, ◌<◌, ◌≡◌, refl, ◌⊎◌, true, Option, none, some, List, [], ◌∷◌, String, arith,
}
use harlan_nuxt.Prelude.Int.{ℤ, pos}
use harlan_nuxt.Prelude.Effect.{returned, threw, Action}
use harlan_nuxt.CfJobs.Policy.{
  JobPolicy, steps, BackoffOptions, resolve_job_retry_delay, exponential_backoff,
  cf_queue_max_delay_seconds, seconds, ParsedBackoff, array, resolve_in_flight_claim_miss, retried,
  handed_to_recovery, every,
}
use harlan_nuxt.CfJobs.Policy.Bounds.{
  retry_delay_bounds, default_delay_grows, in_flight_policy, IsAskedFor, IsClamped, delivery,
}
use harlan_nuxt.CfJobs.Dedup.{has, mark_all}
use harlan_nuxt.CfJobs.Dedup.Window.{IsBounded, mark_all-IsBounded, mark_all-remembers}
use harlan_nuxt.CfJobs.Middleware.{Layer, settle, await_next, run_from, run_job_through_middleware}
use harlan_nuxt.CfJobs.Middleware.Once.{second_next_fails, destination_at_most_once}

abbrev unset : BackoffOptions
unset = record { base_seconds = none; max_seconds = none }

abbrev stepped : Option JobPolicy
stepped = some (record { tries = some 3; backoff = some (steps (pos 10 ∷ pos 100000 ∷ [])) })

retry_delay_bounds_example :
    (resolve_job_retry_delay stepped 2 unset ≤ cf_queue_max_delay_seconds)
    × (exponential_backoff 2 unset ≤ cf_queue_max_delay_seconds)
retry_delay_bounds_example = retry_delay_bounds stepped 2 unset

default_delay_grows_example :
    let d : Option JobPolicy = some (record { tries = some 3; backoff = none }) in
    (resolve_job_retry_delay d 2 unset ≤ resolve_job_retry_delay d 5 unset)
    × (resolve_job_retry_delay d 5 unset ≤ 300)
default_delay_grows_example = default_delay_grows (some 3) unset 2 5 (omega arith)

in_flight_policy_example :
    let outcome = resolve_in_flight_claim_miss (some 2) (some (every (pos 50000))) none in
    ((2 < delivery (some 2)) × (outcome ≡ handed_to_recovery (delivery (some 2))))
    ⊎ ((s : ℕ) × (asked : ℤ) × (delivery (some 2) ≤ 2)
        × (outcome ≡ retried (delivery (some 2)) s)
        × IsAskedFor (some (every (pos 50000))) (delivery (some 2)) asked
        × IsClamped asked s)
in_flight_policy_example = in_flight_policy (some 2) (some (every (pos 50000))) none

-- Every stored text is taken for the array of 5 and 60.
abbrev parse_steps : String → ParsedBackoff
parse_steps text = array (seconds (pos 5) ∷ seconds (pos 60) ∷ [])

abbrev deliveries : List (Option String)
deliveries = some "a" ∷ none ∷ some "b" ∷ some "a" ∷ some "c" ∷ []

mark_all-IsBounded_example : IsBounded 2 (mark_all 2 deliveries [])
mark_all-IsBounded_example = mark_all-IsBounded 2 deliveries

mark_all-remembers_example :
    has (some "b") (mark_all 2 (some "b" ∷ some "c" ∷ []) ("a" ∷ [])) ≡ true
unfolding has
mark_all-remembers_example =
    mark_all-remembers 2 "b" ("a" ∷ []) (some "c" ∷ []) (λ e. cc) refl (omega arith)

-- A layer that calls `next()` twice, over a world that counts the runs of the destination.
abbrev twice : Layer ℕ String
twice = await_next (λ _. await_next (λ o. settle o))

abbrev count_run : Action ℕ String (Unit {0})
count_run w = (returned tt, w + 1)

second_next_fails_example :
    let once =
      (run_from "next() called twice" count_run [] 1 (record { entered = 1; world = 0 })).1 in
    run_from "next() called twice" count_run [] 1 once ≡ (threw "next() called twice", once)
second_next_fails_example =
    second_next_fails "next() called twice" count_run [] 1 (record { entered = 1; world = 0 })

destination_at_most_once_example :
    (run_job_through_middleware "next() called twice" count_run (twice ∷ twice ∷ []) 0).1 ≤ 1
destination_at_most_once_example =
    destination_at_most_once "next() called twice" count_run (λ w. w) (λ w. refl)
      (twice ∷ twice ∷ []) 0 ((λ o o'. tt), ((λ o o'. tt), tt))
