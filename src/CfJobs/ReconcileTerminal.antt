-- ===== src/CfJobs/ReconcileTerminal.antt =====
-- The failure hook of a job that the recovery sweep ended:
-- packages/nuxt-cf-jobs/src/runtime/server/reconcile-terminal.ts. `JSON.parse`, `new Error` and the
-- factory of contexts are parameters.
pub mod Outcomes
use harlan_nuxt.Prelude.{ℕ, Option, none, some, String}
use harlan_nuxt.Prelude.Effect.{
  Outcome, returned, threw, Action, pure, throw, of_outcome, ◌>>=◌, ◌>>◌,
}
use harlan_nuxt.CfJobs.Payload.{Json, obj, Payload, entries, lookup, text_of, clean_payload}
use harlan_nuxt.CfJobs.Dispatch.{
  ParsedPayload, parsed, rejected, DispatchableJob, JobState, fresh_control, JobDefinition,
  JobRegistry, parse_job_input, find_definition, with_control,
}

pub record DurableJobTerminalized : Type 0 where
  pub id : String
  pub queue : String
  pub batch_id : Option String
  pub job_type : String
  pub payload : String
  pub attempts : ℕ
  pub exception : String

pub data ReconcileTerminalFailureResult : Type 0 where
  handled no_failed_handler context_unavailable : (task : String) → ReconcileTerminalFailureResult

-- What the code throws: an error of its own, or one that came out of the application.
pub data ReconcileError (E : Type 0) : Type 0 where
  invalid_json : (id : String) (cause : E) → ReconcileError E
  missing_task : (id : String) → ReconcileError E
  unknown_task : (task : String) → ReconcileError E
  payload_mismatch : (task : String) (cause : E) → ReconcileError E
  raised : (cause : E) → ReconcileError E

abbrev pub raise : {E A : Type 0} → Outcome E A → Outcome (ReconcileError E) A
raise (returned a) = returned a
raise (threw e) = threw (raised e)

-- A call of the application, whose errors pass through.
abbrev pub calls : {W E A : Type 0} → Action W E A → Action W (ReconcileError E) A
calls m w = (raise (m w).0, (m w).1)

-- The payload and its task, which may be the empty text.
pub record TaskEnvelope : Type 0 where
  pub envelope : Payload
  pub task : String

abbrev with_task :
    {E : Type 0} → String → Payload → Option String → Outcome (ReconcileError E) TaskEnvelope
with_task id payload none = threw (missing_task id)
with_task id payload (some task) = returned (record { envelope = payload; task = task })

abbrev of_parsed : {E : Type 0} → String → Outcome E Json → Outcome (ReconcileError E) TaskEnvelope
of_parsed id (threw cause) = threw (invalid_json id cause)
of_parsed id (returned (obj fields)) =
    with_task id (entries fields) (text_of (lookup "_task" (entries fields)))
of_parsed id (returned _) = threw (missing_task id)

unfoldable pub parse_terminalized_payload :
    {E : Type 0}
    → (String → Outcome E Json)
    → DurableJobTerminalized
    → Outcome (ReconcileError E) TaskEnvelope
unfolding lookup
parse_terminalized_payload json_parse terminalized =
    of_parsed terminalized.id (json_parse terminalized.payload)

pub record ReconcileTerminalFailureContextInput : Type 0 where
  pub terminalized : DurableJobTerminalized
  pub job : DispatchableJob
  pub task : String
  pub payload : Payload

pub record ReconcileOptions (W E C : Type 0) : Type 0 where
  pub registry : JobRegistry W E C
  pub create_context : Option (ReconcileTerminalFailureContextInput → Action (JobState W) E C)
  pub json_parse : String → Outcome E Json
  pub error_of : String → E

abbrev pub job_of : DurableJobTerminalized → Payload → DispatchableJob
job_of terminalized envelope = record {
  id = terminalized.id;
  queue = terminalized.queue;
  payload = envelope;
  attempts = terminalized.attempts;
  batch_id = terminalized.batch_id;
}

module _ {W E C : Type 0} (opts : ReconcileOptions W E C)
    (terminalized : DurableJobTerminalized) where
  -- The context and the hook share one control record.
  unfoldable pub run_failed_hook :
      (Payload → C → E → Action (JobState W) E (Unit {0}))
      → (ReconcileTerminalFailureContextInput → Action (JobState W) E C)
      → TaskEnvelope
      → Payload
      → Action W E (Unit {0})
  run_failed_hook failed create opened payload = with_control (do
    context ← create (record {
      terminalized = terminalized;
      job = job_of terminalized opened.envelope;
      task = opened.task;
      payload = payload;
    })
    failed payload context (opts.error_of terminalized.exception))

  unfoldable pub reconcile_parsed :
      (Payload → C → E → Action (JobState W) E (Unit {0}))
      → (ReconcileTerminalFailureContextInput → Action (JobState W) E C)
      → TaskEnvelope
      → ParsedPayload E
      → Action W (ReconcileError E) ReconcileTerminalFailureResult
  unfolding run_failed_hook
  reconcile_parsed failed create opened (rejected cause) =
      throw (payload_mismatch opened.task cause)
  reconcile_parsed failed create opened (parsed payload) =
      calls (run_failed_hook failed create opened payload) >> pure (handled opened.task)

  -- The hook and the factory of contexts are looked for in this order.
  unfoldable pub reconcile_hook :
      TaskEnvelope
      → JobDefinition W E C
      → Option (Payload → C → E → Action (JobState W) E (Unit {0}))
      → Option (ReconcileTerminalFailureContextInput → Action (JobState W) E C)
      → Action W (ReconcileError E) ReconcileTerminalFailureResult
  unfolding reconcile_parsed parse_job_input clean_payload
  reconcile_hook opened definition none create_context = pure (no_failed_handler opened.task)
  reconcile_hook opened definition (some failed) none = pure (context_unavailable opened.task)
  reconcile_hook opened definition (some failed) (some create) =
      reconcile_parsed failed create opened
        (parse_job_input (some definition) (clean_payload opened.envelope))

  unfoldable pub reconcile_definition :
      TaskEnvelope
      → Option (JobDefinition W E C)
      → Action W (ReconcileError E) ReconcileTerminalFailureResult
  unfolding reconcile_hook
  reconcile_definition opened none = throw (unknown_task opened.task)
  reconcile_definition opened (some definition) =
      reconcile_hook opened definition definition.on_failed opts.create_context

  unfoldable pub run_terminalized_job_failure :
      Action W (ReconcileError E) ReconcileTerminalFailureResult
  unfolding parse_terminalized_payload reconcile_definition find_definition
  run_terminalized_job_failure = do
    opened ← of_outcome (parse_terminalized_payload opts.json_parse terminalized)
    definition ← calls (find_definition opts.registry opened.task)
    reconcile_definition opened definition
