-- ===== src/CfJobs/ConsumeBatch.antt =====
-- A batch of a queue: `processRegisteredQueueBatch` of
-- packages/nuxt-cf-jobs/src/runtime/server/queue.ts. The branches are a dead-letter queue, a queue
-- that no configuration or no job knows, and a registered queue.
pub mod Coverage
use Prim.Native.String.{len, slice}
use harlan_nuxt.Prelude.{
  ℕ, suc, ◌+◌, ◌-◌, Bool, true, false, not, ◌&&◌, leb, Option, none, some, List, [], ◌∷◌, any,
  or_else, String, str_eq, if◌then◌else◌,
}
use harlan_nuxt.Prelude.Int.{ℤ, pos}
use harlan_nuxt.Prelude.Effect.{Outcome, Action, pure, throw, ◌>>=◌, ◌>>◌, try_catch}
use harlan_nuxt.CfJobs.Policy.{clamp_delay}
use harlan_nuxt.CfJobs.Payload.{Json, lookup, text_of}
use harlan_nuxt.CfJobs.Dispatch.{JobDefinition}
use harlan_nuxt.CfJobs.QueueConfig.{resolve_logical_queue_name, filled}
use harlan_nuxt.CfJobs.Consumer.{
  QueueMessage, QueueBatch, Reply, ack, retry, ack_all, retry_all, ConsumerState, HookInput,
  DlqInput, arrived, FailureInput, DlqQueueHandler, DlqQueues, names, tested, handlers,
  ConsumerOptions, Platform, within, reply, when_set, record_of, task_of,
  report_registered_queue_error,
}
use harlan_nuxt.CfJobs.ConsumeMessage.{process_registered_queue_message}

abbrev pub ends_with : String → String → Bool
ends_with s t = leb (len t) (len s) && str_eq (slice s (len s - len t) (len s)) t

abbrev head? : List QueueMessage → Option QueueMessage
head? [] = none
head? (message ∷ messages) = some message

module _ {W E C : Type 0} (platform : Platform W E) (opts : ConsumerOptions W E C)
    (batch : QueueBatch) where
  unfoldable pub is_dlq_queue : Option (DlqQueues W E) → Bool
  unfolding lookup
  is_dlq_queue none = ends_with batch.queue "-dlq"
  is_dlq_queue (some (tested test)) = test batch.queue
  is_dlq_queue (some (names queues)) = any (λ name. str_eq name batch.queue) queues
  is_dlq_queue (some (handlers by_name)) = elim (lookup batch.queue by_name) [
    | none ↦ false
    | some _ ↦ true
  ]

  unfoldable pub resolve_dlq_handler : Option (DlqQueues W E) → Option (DlqQueueHandler W E)
  unfolding lookup
  resolve_dlq_handler (some (handlers by_name)) = lookup batch.queue by_name
  resolve_dlq_handler _ = none

  abbrev static_definition : Option String → Option (JobDefinition W E C)
  static_definition none = none
  static_definition (some task) =
      if str_eq task ""
      then none
      else elim opts.registry.get_job_definition [ none ↦ none | some get ↦ get task ]

  abbrev queue_for : Option (JobDefinition W E C) → String
  queue_for none = batch.queue
  queue_for (some definition) = definition.queue

  abbrev declared_type : Option (JobDefinition W E C) → Option String
  declared_type none = none
  declared_type (some definition) = definition.job_type

  abbrev first_of : Option String → Option String → String → String
  first_of (some a) b c = a
  first_of none (some b) c = b
  first_of none none c = c

  abbrev body_text : Json → String
  body_text (Json.str s) = s
  body_text body = platform.stringify body

  abbrev failure_of : QueueMessage → Option String → Option String → FailureInput
  failure_of message task job_id = record {
    id = job_id;
    queue = queue_for (static_definition task);
    job_type = first_of (declared_type (static_definition task)) task batch.queue;
    payload = body_text message.body;
    exception = platform.join "[DLQ " (platform.join batch.queue "]");
    attempts = message.attempts;
  }

  abbrev persist_in :
      QueueMessage
      → Option String
      → Option String
      → Option (FailureInput → Action W E (Unit {0}))
      → Action W E (Unit {0})
  persist_in message task job_id none = throw (platform.new_error batch.queue)
  persist_in message task job_id (some record_failure) =
      try_catch (record_failure (failure_of message task job_id)) pure (λ error.
        report_registered_queue_error platform opts
          (record { message = message; logical_queue = none; task = none; job = none }) error
        >> throw error)

  abbrev handle_dlq :
      QueueMessage
      → Option String
      → Option String
      → Option (DlqQueueHandler W E)
      → Action W E (Unit {0})
  handle_dlq message task job_id none = pure tt
  handle_dlq message task job_id (some handler) =
      (if handler.persist then persist_in message task job_id opts.dlq_repository else pure tt)
      >> when_set handler.on_message (λ hook. hook (arrived message task job_id))

  abbrev dlq_message : QueueMessage → Action W E (Unit {0})
  dlq_message message =
      let body = record_of message.body in
      let task = task_of body in
      let job_id = text_of (lookup "jobId" body) in
      handle_dlq message task job_id (resolve_dlq_handler opts.dlq_queues)
      >> when_set opts.on_dlq (λ hook. hook (arrived message task job_id))

  unfoldable pub dlq_messages : List QueueMessage → Action W E (Unit {0})
  unfolding resolve_dlq_handler lookup report_registered_queue_error
  dlq_messages [] = pure tt
  dlq_messages (message ∷ messages) = dlq_message message >> dlq_messages messages

  -- The same reply to each message, from a place on.
  unfoldable pub reply_each :
      (ℕ → Reply) → ℕ → List QueueMessage → Action (ConsumerState W) E (Unit {0})
  reply_each answer place [] = pure tt
  reply_each answer place (message ∷ messages) =
      reply (answer place) >> reply_each answer (place + 1) messages

  unfoldable pub ack_batch : Action (ConsumerState W) E (Unit {0})
  unfolding reply_each
  ack_batch = if batch.has_ack_all then reply ack_all else reply_each ack 0 batch.messages

  abbrev unknown_delay : ℕ
  unknown_delay =
      or_else (clamp_delay (some (or_else opts.unknown_queue_retry_delay_seconds (pos 60)))) 60

  -- Back to the queue, after the hook has been told of the first message.
  unfoldable pub retry_batch : Option String → Action (ConsumerState W) E (Unit {0})
  unfolding reply_each clamp_delay
  retry_batch logical =
      within (when_set opts.on_missing_queue (λ hook. hook (head? batch.messages) logical))
      >> (if batch.has_retry_all
          then reply (retry_all unknown_delay)
          else reply_each (λ place. retry place (some unknown_delay)) 0 batch.messages)

  unfoldable pub process_messages :
      String → ℕ → List QueueMessage → Action (ConsumerState W) E (Unit {0})
  unfolding process_registered_queue_message
  process_messages logical place [] = pure tt
  process_messages logical place (message ∷ messages) =
      process_registered_queue_message platform opts logical place message
      >> process_messages logical (place + 1) messages

  -- Where the registry lists its jobs, one of them is on the queue.
  abbrev has_job : String → Option (List String) → Bool
  has_job logical none = true
  has_job logical (some queues) = any (λ queue. str_eq queue logical) queues

  abbrev process_logical : Option String → Action (ConsumerState W) E (Unit {0})
  process_logical none =
      if is_dlq_queue opts.dlq_queues
      then within (dlq_messages batch.messages) >> ack_batch
      else retry_batch none
  process_logical (some logical) =
      if has_job logical opts.job_queues
      then process_messages logical 0 batch.messages
      else retry_batch (some logical)

  unfoldable pub process_registered_queue_batch : Action (ConsumerState W) E (Unit {0})
  unfolding is_dlq_queue dlq_messages ack_batch retry_batch process_messages
      resolve_logical_queue_name
  process_registered_queue_batch =
      process_logical (filled (resolve_logical_queue_name opts.queues batch.queue))
