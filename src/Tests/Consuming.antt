-- ===== src/Tests/Consuming.antt =====
-- The consumer of registered queues, and the configuration of queues, at concrete inputs. Errors are
-- numbers, and the world counts the handler's runs.
use mathlib.Core.List.{Memᴰ}
use harlan_nuxt.Prelude.{ℕ, ◌+◌, ◌≡◌, refl, true, false, none, some, [], ◌∷◌}
use harlan_nuxt.Prelude.Effect.{threw, pure}
use harlan_nuxt.CfJobs.Payload.{Json, Fields}
use harlan_nuxt.CfJobs.Dispatch.{JobDefinition, JobRegistry}
use harlan_nuxt.CfJobs.QueueConfig.{
  named, configured, QueueBindingsConfig, resolve_cloudflare_queue_name, resolve_logical_queue_name,
  validate_queue_binding_shape,
}
use harlan_nuxt.CfJobs.QueueConfig.RoundTrip.{resolve_logical_queue_name-round_trip}
use harlan_nuxt.CfJobs.Consumer.{QueueMessage, QueueBatch, ConsumerState, ConsumerOptions, Platform}
use harlan_nuxt.CfJobs.ConsumeMessage.{process_registered_queue_message}
use harlan_nuxt.CfJobs.ConsumeMessage.Replies.{IsReplied}
use harlan_nuxt.CfJobs.ConsumeMessage.Answer.{process_registered_queue_message-IsReplied}
use harlan_nuxt.CfJobs.ConsumeBatch.{ends_with, process_registered_queue_batch}
use harlan_nuxt.CfJobs.ConsumeBatch.Coverage.{
  IsBatchReplied, process_registered_queue_batch-IsBatchReplied,
}

abbrev queues : QueueBindingsConfig
queues =
    ("mail", named "MAIL")
    ∷ (
      "sync",
      configured (record {
        binding = "SYNC";
        queue_name = some "sync-prod";
        job_type = none;
        max_retries = some 3;
        dead_letter_queue = none;
        dead_letter_queue_binding = none;
      }),
    )
    ∷ []

no_issues : validate_queue_binding_shape queues ≡ []
unfolding validate_queue_binding_shape
no_issues = refl

resolve_logical_queue_name-round_trip_example :
    resolve_logical_queue_name queues (resolve_cloudflare_queue_name queues "sync") ≡ some "sync"
resolve_logical_queue_name-round_trip_example =
    resolve_logical_queue_name-round_trip queues ((refl, tt), (tt, tt)) (refl, (refl, tt)) no_issues
      _ (Memᴰ.tail (Memᴰ.head refl))

dead_letter : ends_with "mail-dlq" "-dlq" ≡ true
dead_letter = refl

-- The handler counts its runs, and throws.
abbrev definition : JobDefinition ℕ ℕ ℕ
definition = record {
  name = "send";
  queue = "sync";
  job_type = none;
  policy = record { tries = some 3; backoff = none };
  input = none;
  handle = some (λ payload ctx s. (threw 7, record s { world = s.world + 1 }));
  middleware = [];
  on_failed = none;
}

abbrev registry : JobRegistry ℕ ℕ ℕ
registry = record {
  get_handler = λ task. pure none;
  get_job_definition = some (λ task. some definition);
  load_job_definition = none;
}

abbrev opts : ConsumerOptions ℕ ℕ ℕ
opts = record {
  registry = registry;
  job_queues = some ("sync" ∷ []);
  queues = queues;
  create_context = λ input given. pure 0;
  get_job_id = none;
  retry_delay_seconds = none;
  dlq_queues = none;
  dlq_binding = none;
  dlq_repository = none;
  unknown_queue_retry_delay_seconds = none;
  dedup_cache_size = none;
  trace_marker = false;
  on_missing_queue = none;
  on_invalid_payload = none;
  on_dispatch_error = none;
  on_dlq = none;
  on_duplicate = none;
}

abbrev platform : Platform ℕ ℕ
platform = record {
  queue_of = λ binding. none;
  is_transient = λ e. false;
  sleep = λ ms w. w;
  write_marker = λ task s. s;
  stringify = λ v. "text";
  stable_payload_id = λ payload. "id";
  new_error = λ text. 1;
  with_cause = λ text e. e;
  called_twice = 2;
  join = λ a b. a;
}

abbrev message : QueueMessage
message = record {
  id = some "m1";
  body = Json.obj (Fields.field "_task" (Json.str "send") Fields.end);
  attempts = 1;
}

abbrev start : ConsumerState ℕ
start = record { replies = []; seen = []; world = 0 }

process_registered_queue_message-IsReplied_example :
    IsReplied 0 start (process_registered_queue_message platform opts "sync" 0 message start)
process_registered_queue_message-IsReplied_example =
    process_registered_queue_message-IsReplied platform opts "sync" 0 message start

abbrev batch : QueueBatch
batch = record {
  queue = "sync-prod";
  messages = message ∷ message ∷ [];
  has_ack_all = true;
  has_retry_all = true;
}

process_registered_queue_batch-IsBatchReplied_example :
    IsBatchReplied platform opts batch start
      (process_registered_queue_batch platform opts batch start)
process_registered_queue_batch-IsBatchReplied_example =
    process_registered_queue_batch-IsBatchReplied platform opts batch start
