-- ===== src/CfJobs/Consumer.antt =====
-- The consumer of registered queues: `processRegisteredQueueBatch` of
-- packages/nuxt-cf-jobs/src/runtime/server/queue.ts, with the handling of one message and of a
-- dead-letter queue. A message is known by its place in the batch. What the application and the
-- platform do (hooks, contexts, queues, timers, texts) are parameters; the console is left out.
use harlan_nuxt.Prelude.{
  ℕ, Bool, true, false, Option, none, some, List, [], ◌∷◌, ◌++◌, or_else, String, str_eq, ltb,
  if◌then◌else◌,
}
use harlan_nuxt.Prelude.Int.{ℤ}
use harlan_nuxt.Prelude.Effect.{Action, pure, throw, modify, ◌>>=◌, ◌>>◌, try_catch}
use harlan_nuxt.CfJobs.Send.{BackpressureOptions, with_send_backpressure}
use harlan_nuxt.CfJobs.Dedup.{default_message_dedup_capacity, mark}
use harlan_nuxt.CfJobs.Payload.{Json, Payload, entries, lookup, clean_payload, text_of}
use harlan_nuxt.CfJobs.Dispatch.{
  JobError, parsed, rejected, ParsedPayload, parse_job_input, DispatchableJob, JobState,
  fresh_control, JobDefinition, JobRegistry, DispatchInput, DispatchOptions,
}
use harlan_nuxt.CfJobs.QueueConfig.{QueueBindingsConfig}

pub record QueueMessage : Type 0 where
  pub id : Option String
  pub body : Json
  pub attempts : ℕ

-- Whether the platform's batch has `ackAll` and `retryAll`.
pub record QueueBatch : Type 0 where
  pub queue : String
  pub messages : List QueueMessage
  pub has_ack_all : Bool
  pub has_retry_all : Bool

pub data Reply : Type 0 where
  ack : (place : ℕ) → Reply
  retry : (place : ℕ) (delay_seconds : Option ℕ) → Reply
  ack_all : Reply
  retry_all : (delay_seconds : ℕ) → Reply

-- The replies so far, the ids that the guard of these options has seen, and the rest.
pub record ConsumerState (W : Type 0) : Type 0 where
  pub replies : List Reply
  pub seen : List String
  pub world : W

-- What a hook is given.
pub record HookInput : Type 0 where
  pub message : QueueMessage
  pub logical_queue : Option String
  pub task : Option String
  pub job : Option DispatchableJob

-- A message of a dead-letter queue, or one that its own consumer gives up.
pub data DlqInput : Type 0 where
  arrived : (message : QueueMessage) (task job_id : Option String) → DlqInput
  exhausted : HookInput → DlqInput

pub record FailureInput : Type 0 where
  pub id : Option String
  pub queue : String
  pub job_type : String
  pub payload : String
  pub exception : String
  pub attempts : ℕ

pub record DlqQueueHandler (W E : Type 0) : Type 0 where
  pub persist : Bool
  pub on_message : Option (DlqInput → Action W E (Unit {0}))

pub data DlqQueues (W E : Type 0) : Type 0 where
  names : List String → DlqQueues W E
  tested : (String → Bool) → DlqQueues W E
  handlers : List (String × DlqQueueHandler W E) → DlqQueues W E

-- A binding's name, or a function of the logical queue.
pub data DlqBinding : Type 0 where
  literal : String → DlqBinding
  computed : (String → Option String) → DlqBinding

pub record ConsumerOptions (W E C : Type 0) : Type 0 where
  pub registry : JobRegistry W E C
  pub job_queues : Option (List String)
  pub queues : QueueBindingsConfig
  pub create_context : HookInput → DispatchInput → Action (JobState W) E C
  pub get_job_id : Option (HookInput → Payload → String)
  pub retry_delay_seconds : Option (HookInput → E → ℤ)
  pub dlq_queues : Option (DlqQueues W E)
  pub dlq_binding : Option DlqBinding
  pub dlq_repository : Option (FailureInput → Action W E (Unit {0}))
  pub unknown_queue_retry_delay_seconds : Option ℤ
  pub dedup_cache_size : Option ℕ
  pub trace_marker : Bool
  pub on_missing_queue : Option (Option QueueMessage → Option String → Action W E (Unit {0}))
  pub on_invalid_payload : Option (HookInput → Option (JobError E) → Action W E (Unit {0}))
  pub on_dispatch_error : Option (HookInput → E → Action W E (Unit {0}))
  pub on_dlq : Option (DlqInput → Action W E (Unit {0}))
  pub on_duplicate : Option (HookInput → Action W E (Unit {0}))

-- The platform: the queue producers of the environment by binding, timers, texts and errors.
pub record Platform (W E : Type 0) : Type 0 where
  pub queue_of : String → Option (Json → Action W E (Unit {0}))
  pub is_transient : E → Bool
  pub sleep : ℕ → W → W
  pub write_marker : String → JobState W → JobState W
  pub stringify : Json → String
  pub stable_payload_id : Payload → String
  pub new_error : String → E
  pub with_cause : String → E → E
  pub called_twice : E
  pub join : String → String → String

abbrev pub within : {W E A : Type 0} → Action W E A → Action (ConsumerState W) E A
within m s = let r = m s.world in (r.0, record s { world = r.1 })

abbrev pub reply : {W E : Type 0} → Reply → Action (ConsumerState W) E (Unit {0})
reply r = modify (λ s. record s { replies = s.replies ++ r ∷ [] })

-- A hook that is not set does nothing.
abbrev pub when_set :
    {W E A : Type 0} → Option A → (A → Action W E (Unit {0})) → Action W E (Unit {0})
when_set none call = pure tt
when_set (some hook) call = call hook

-- A body that is no object is read as an empty one.
abbrev pub record_of : Json → Payload
record_of (Json.obj fields) = entries fields
record_of _ = []

abbrev pub task_of : Payload → Option String
task_of payload = text_of (lookup "_task" payload)

abbrev no_backpressure_options : {S E : Type 0} → BackpressureOptions S E
no_backpressure_options = record {
  max_retries = none;
  base_delay_ms = none;
  max_delay_ms = none;
  on_error = none;
}

module _ {W E C : Type 0} (platform : Platform W E) (opts : ConsumerOptions W E C) where
  -- Without a queue of that binding nothing is sent.
  abbrev send_to : Json → Option (Json → Action W E (Unit {0})) → Action W E Bool
  send_to body none = pure false
  send_to body (some send) =
      with_send_backpressure platform.is_transient platform.sleep no_backpressure_options
        (send body)
      >> pure true

  unfoldable pub send_queue_message : String → Json → Action W E Bool
  unfolding with_send_backpressure
  send_queue_message binding body =
      send_to body (if str_eq binding "" then none else platform.queue_of binding)

  -- What the observer itself throws goes to the console.
  unfoldable pub report_registered_queue_error : HookInput → E → Action W E (Unit {0})
  report_registered_queue_error input error =
      try_catch (when_set opts.on_dispatch_error (λ observe. observe input error)) (λ _. pure tt)
        (λ _. pure tt)

  abbrev pub dispatch_options : HookInput → DispatchOptions W E C
  dispatch_options input = record {
    registry = opts.registry;
    create_context = opts.create_context input;
    on_handled_throw = λ given error. pure tt;
    on_unhandled_throw = λ given error. pure tt;
    on_complete = λ given. pure tt;
    trace_marker = opts.trace_marker;
    write_marker = platform.write_marker;
    called_twice = platform.called_twice;
  }

  abbrev with_control : {A : Type 0} → Action (JobState W) E A → Action W E A
  with_control m w = let r = m (record { control = fresh_control; world = w }) in (r.0, r.1.world)

  abbrev call_failed :
      HookInput
      → DispatchableJob
      → String
      → Payload
      → E
      → (Payload → C → E → Action (JobState W) E (Unit {0}))
      → ParsedPayload E
      → Action W E (Unit {0})
  call_failed input job task clean error hook (rejected cause) =
      throw (platform.with_cause task cause)
  call_failed input job task clean error hook (parsed data_) = with_control (
      opts.create_context input (record { job = job; task = task; payload = clean }) >>= λ ctx.
      hook data_ ctx error)

  abbrev failed_of :
      HookInput
      → DispatchableJob
      → String
      → Payload
      → E
      → Option (JobDefinition W E C)
      → Action W E (Unit {0})
  failed_of input job task payload error none = pure tt
  failed_of input job task payload error (some definition) = elim definition.on_failed [
    | none ↦ pure tt
    | some hook ↦
        call_failed input job task (clean_payload payload) error hook
          (parse_job_input (some definition) (clean_payload payload))
  ]

  abbrev loaded : String → JobDefinition W E C → Action W E (Option (JobDefinition W E C))
  loaded task definition = elim opts.registry.load_job_definition [
    | some load ↦ load task
    | none ↦ pure (some definition)
  ]

  unfoldable pub run_registered_job_failed :
      HookInput
      → DispatchableJob
      → String
      → JobDefinition W E C
      → Payload
      → E
      → Action W E (Unit {0})
  unfolding clean_payload parse_job_input
  run_registered_job_failed input job task definition payload error =
      loaded task definition >>= failed_of input job task payload error

  abbrev pub has_dedup : Bool
  has_dedup = elim opts.dedup_cache_size [ none ↦ true | some n ↦ ltb 0 n ]

  abbrev pub capacity : ℕ
  capacity = or_else opts.dedup_cache_size default_message_dedup_capacity

  unfoldable pub mark_terminal : Option String → Action (ConsumerState W) E (Unit {0})
  unfolding mark
  mark_terminal id =
      modify (λ s. if has_dedup then record s { seen = mark capacity id s.seen } else s)
