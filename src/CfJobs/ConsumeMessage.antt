-- ===== src/CfJobs/ConsumeMessage.antt =====
-- One message of a registered queue: `processRegisteredQueueMessage` of
-- packages/nuxt-cf-jobs/src/runtime/server/queue.ts.
pub mod Replies
pub mod Answer
use harlan_nuxt.Prelude.{
  ℕ, ◌+◌, Bool, true, false, not, ◌&&◌, Option, none, some, List, [], ◌∷◌, or_else, String, str_eq,
  leb, if◌then◌else◌,
}
use harlan_nuxt.Prelude.Int.{ℤ, pos}
use harlan_nuxt.Prelude.Effect.{Outcome, Action, pure, throw, ◌>>=◌, ◌>>◌, try_catch}
use harlan_nuxt.CfJobs.Policy.{clamp_delay, resolve_job_max_attempts, resolve_job_retry_delay}
use harlan_nuxt.CfJobs.Dedup.{has}
use harlan_nuxt.CfJobs.Payload.{Payload, lookup}
use harlan_nuxt.CfJobs.Dispatch.{
  ControlAction, JobControlResult, DispatchResult, success, failure, DispatchableJob, JobDefinition,
  dispatch_registered_job,
}
use harlan_nuxt.CfJobs.QueueConfig.{QueueEntry, named, configured, resolve_dlq_binding, filled}
use harlan_nuxt.CfJobs.Consumer.{
  QueueMessage, ack, retry, ConsumerState, HookInput, exhausted, DlqBinding, literal, computed,
  ConsumerOptions, Platform, within, reply, when_set, record_of, task_of, send_queue_message,
  report_registered_queue_error, dispatch_options, run_registered_job_failed, has_dedup,
  mark_terminal,
}

-- `shouldSendToDlq`: at the cap or above it, where there is one.
unfoldable pub should_send_to_dlq : ℕ → Option ℕ → Bool
should_send_to_dlq attempts none = false
should_send_to_dlq attempts (some most) = leb most attempts

abbrev max_retries_of : Option QueueEntry → Option ℕ
max_retries_of (some (configured config)) = config.max_retries
max_retries_of _ = none

abbrev or_option : Option ℕ → Option ℕ → Option ℕ
or_option none b = b
or_option (some a) b = some a

module _ {W E C : Type 0} (platform : Platform W E) (opts : ConsumerOptions W E C)
    (logical : String) (place : ℕ) (message : QueueMessage) where
  abbrev payload : Payload
  payload = record_of message.body

  -- Terminal: remembered by the guard, and acked.
  unfoldable pub settle : Action (ConsumerState W) E (Unit {0})
  unfolding mark_terminal
  settle = mark_terminal platform opts message.id >> reply (ack place)

  abbrev hook_input : Option String → Option DispatchableJob → HookInput
  hook_input task job = record {
    message = message;
    logical_queue = some logical;
    task = task;
    job = job;
  }

  unfoldable pub settle_invalid : Option String → Action (ConsumerState W) E (Unit {0})
  unfolding settle
  settle_invalid task =
      within (when_set opts.on_invalid_payload (λ hook. hook (hook_input task none) none)) >> settle

  module _ (task : String) (definition : JobDefinition W E C) (job : DispatchableJob) where
    abbrev input : HookInput
    input = hook_input (some task) (some job)

    -- A throw of the failed hook, or of what it needs, goes to the observer.
    unfoldable pub run_failed : E → Action (ConsumerState W) E (Unit {0})
    unfolding run_registered_job_failed report_registered_queue_error
    run_failed error =
        try_catch
          (within (run_registered_job_failed platform opts input job task definition payload error))
          pure (λ thrown. within (report_registered_queue_error platform opts input thrown))

    unfoldable pub retry_later : E → Action (ConsumerState W) E (Unit {0})
    unfolding resolve_job_retry_delay clamp_delay
    retry_later error =
        let raw : ℤ = elim opts.retry_delay_seconds [
          | some delay ↦ delay input error
          | none ↦ pos (
              resolve_job_retry_delay (some definition.policy) message.attempts
                (record { base_seconds = none; max_seconds = none }))
        ] in
        reply (retry place (clamp_delay (some raw)))

    abbrev after_send : E → Bool → Action (ConsumerState W) E (Unit {0})
    after_send error false = retry_later error
    after_send error true =
        within (when_set opts.on_dlq (λ hook. hook (exhausted input))) >> run_failed error >> settle

    -- The binding of a dead-letter queue, where one is configured.
    abbrev dlq_binding : Option String
    dlq_binding = elim opts.dlq_binding [
      | none ↦ resolve_dlq_binding opts.queues logical
      | some (literal name) ↦ some name
      | some (computed f) ↦ f logical
    ]

    abbrev send_exhausted : E → Option String → Action (ConsumerState W) E (Unit {0})
    send_exhausted error none = retry_later error
    send_exhausted error (some binding) =
        try_catch (within (send_queue_message platform opts binding message.body))
          (after_send error)
          (λ thrown.
            within (report_registered_queue_error platform opts input thrown) >> throw thrown)

    unfoldable pub is_exhausted : Bool
    unfolding should_send_to_dlq resolve_job_max_attempts lookup
    is_exhausted = should_send_to_dlq message.attempts (
        or_option (resolve_job_max_attempts (some definition.policy))
          (max_retries_of (lookup logical opts.queues)))

    -- The `catch` around the dispatch and what follows it.
    unfoldable pub give_up_or_retry : E → Action (ConsumerState W) E (Unit {0})
    unfolding report_registered_queue_error is_exhausted retry_later run_failed settle
        send_queue_message resolve_dlq_binding
    give_up_or_retry error =
        within (report_registered_queue_error platform opts input error)
        >> (if is_exhausted then send_exhausted error (filled dlq_binding) else retry_later error)

    unfoldable pub finish_failed : Option String → Action (ConsumerState W) E (Unit {0})
    unfolding report_registered_queue_error run_failed settle
    finish_failed text =
        let error = platform.new_error (or_else text "Job failed via ctx.fail()") in
        within (report_registered_queue_error platform opts input error)
        >> run_failed error
        >> settle

    abbrev finish_control : Option JobControlResult → Action (ConsumerState W) E (Unit {0})
    finish_control none = settle
    finish_control (some control) = elim control.action [
      | none ↦ settle
      | some ControlAction.released ↦ reply (retry place (some (or_else control.delay_seconds 0)))
      | some ControlAction.failed ↦ finish_failed control.error
    ]

    unfoldable pub finish : DispatchResult E → Action (ConsumerState W) E (Unit {0})
    unfolding finish_failed settle
    finish (failure error) =
        within (when_set opts.on_invalid_payload (λ hook. hook input (some error))) >> settle
    finish (success control) = finish_control control

    unfoldable pub run_job : Action (ConsumerState W) E (Unit {0})
    unfolding finish give_up_or_retry dispatch_registered_job
    run_job =
        try_catch
          (within (dispatch_registered_job (dispatch_options platform opts input) job) >>= finish)
          pure give_up_or_retry

  abbrev job_of : String → DispatchableJob
  job_of task = record {
    id = elim opts.get_job_id [
      | some f ↦ f (hook_input (some task) none) payload
      | none ↦ platform.join task (platform.stable_payload_id payload)
    ];
    queue = logical;
    payload = payload;
    attempts = message.attempts;
    batch_id = none;
  }

  -- A message that the guard has seen is acked without a run.
  unfoldable pub run_new : String → JobDefinition W E C → Action (ConsumerState W) E (Unit {0})
  unfolding run_job has
  run_new task definition s =
      if has_dedup platform opts && has message.id s.seen
      then (within (when_set opts.on_duplicate (λ hook. hook (hook_input (some task) none)))
            >> reply (ack place))
          s
      else run_job task definition (job_of task) s

  abbrev run_defined : String → Option (JobDefinition W E C) → Action (ConsumerState W) E (Unit {0})
  run_defined task none = settle_invalid (some task)
  run_defined task (some definition) =
      if str_eq definition.queue logical
      then run_new task definition
      else settle_invalid (some task)

  abbrev run_named : Option String → Action (ConsumerState W) E (Unit {0})
  run_named none = settle_invalid none
  run_named (some task) =
      run_defined task (elim opts.registry.get_job_definition [ none ↦ none | some get ↦ get task ])

  unfoldable pub process_registered_queue_message : Action (ConsumerState W) E (Unit {0})
  unfolding settle_invalid run_new lookup
  process_registered_queue_message = run_named (filled (task_of payload))
