-- ===== src/Tests/Retrying.antt =====
-- A retry of a failed job whose enqueue throws.
use harlan_nuxt.Prelude.{
  ◌≡◌, refl, ◌≢◌, ◌⊎◌, Bool, true, false, Option, none, some, [], ◌∷◌, String,
}
use harlan_nuxt.Prelude.Effect.{returned, threw}
use harlan_nuxt.CfJobs.Payload.{Json, obj, str, field, end, Payload, lookup, clean_payload}
use harlan_nuxt.CfJobs.Retry.{RedispatchFailedJobDeps, redispatch_failed_job}
use harlan_nuxt.CfJobs.Retry.Forget.{IsForgotten, clean_payload_lem, redispatch_failed_job_lem}

-- The state is whether the failure is recorded.
abbrev deps : RedispatchFailedJobDeps Bool String
deps = record {
  load_failure = λ w. (returned (some "{}"), w);
  enqueue = λ name payload w. (threw "queue down", w);
  forget = λ w. (returned tt, false);
}

abbrev parse : String → Option Json
parse text = some (obj (field "_task" (str "send") (field "to" (str "x") end)))

redispatch_failed_job_lem_example :
    ((redispatch_failed_job parse deps true).1 ≡ true)
    ⊎ IsForgotten parse deps (λ w. w) (λ w. refl) (λ name payload w. refl) true
redispatch_failed_job_lem_example =
    redispatch_failed_job_lem parse deps (λ w. w) (λ w. refl) (λ name payload w. refl) true

abbrev stored : Payload
stored = ("_task", str "send") ∷ ("to", str "x") ∷ []

abbrev recipient : String
recipient = "to"

clean_payload_lem_example :
    (((recipient ≡ "_task") ⊎ (recipient ≡ "_continuations"))
      × (lookup recipient (clean_payload stored) ≡ none))
    ⊎ ((recipient ≢ "_task")
        × (recipient ≢ "_continuations")
        × (lookup recipient (clean_payload stored) ≡ lookup recipient stored))
clean_payload_lem_example = clean_payload_lem recipient stored
