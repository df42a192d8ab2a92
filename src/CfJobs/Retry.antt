-- ===== src/CfJobs/Retry.antt =====
-- The manual retry of a failed job: packages/nuxt-cf-jobs/src/runtime/server/retry.ts. Loading,
-- enqueueing and forgetting are the host's, over a state `W`; `parse` stands for `JSON.parse`.
pub mod Forget
use harlan_nuxt.Prelude.{ℕ, Option, none, some, List, [], ◌∷◌, String}
use harlan_nuxt.Prelude.Effect.{Outcome, Action, pure, ◌>>=◌, ◌>>◌}
use harlan_nuxt.CfJobs.Payload.{
  Json, Payload, null, bool, num, str, arr, obj, entries, clean_payload, task_name,
}

pub data FailedJobEnvelope : Type 0 where
  ok : (name : String) → Payload → FailedJobEnvelope
  no_task invalid_json : FailedJobEnvelope

-- An envelope's members, without the internal ones.
unfoldable pub open_envelope : Payload → FailedJobEnvelope
unfolding clean_payload task_name
open_envelope payload = elim (task_name payload) [
  | none ↦ no_task
  | some name ↦ ok name (clean_payload payload)
]

-- An array is an object without `_task`.
abbrev of_json : Option Json → FailedJobEnvelope
of_json (some (obj fields)) = open_envelope (entries fields)
of_json (some (arr items)) = no_task
of_json _ = invalid_json

unfoldable pub parse_failed_job_envelope : (String → Option Json) → String → FailedJobEnvelope
unfolding open_envelope
parse_failed_job_envelope parse payload_json = of_json (parse payload_json)

pub record RedispatchFailedJobDeps (W E : Type 0) : Type 0 where
  pub load_failure : Action W E (Option String)
  pub enqueue : String → Payload → Action W E String
  pub forget : Action W E (Unit {0})

pub data RedispatchFailedJobResult : Type 0 where
  redispatched : (name job_id : String) → RedispatchFailedJobResult
  not_found not_retryable : RedispatchFailedJobResult

module _ {W E : Type 0} (parse : String → Option Json) (deps : RedispatchFailedJobDeps W E) where
  unfoldable pub redispatch_envelope : FailedJobEnvelope → Action W E RedispatchFailedJobResult
  redispatch_envelope no_task = pure not_retryable
  redispatch_envelope invalid_json = pure not_retryable
  redispatch_envelope (ok name payload) = do
    job_id ← deps.enqueue name payload
    deps.forget
    pure (redispatched name job_id)

  unfoldable pub redispatch_loaded : Option String → Action W E RedispatchFailedJobResult
  unfolding redispatch_envelope parse_failed_job_envelope
  redispatch_loaded none = pure not_found
  redispatch_loaded (some payload) = redispatch_envelope (parse_failed_job_envelope parse payload)

  unfoldable pub redispatch_failed_job : Action W E RedispatchFailedJobResult
  unfolding redispatch_loaded
  redispatch_failed_job = deps.load_failure >>= redispatch_loaded
