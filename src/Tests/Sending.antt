-- ===== src/Tests/Sending.antt =====
-- Sends to a queue at concrete inputs.
use harlan_nuxt.Prelude.{
  keep, length, str_eq, ℕ, ◌+◌, ◌==◌, ◌≡◌, refl, true, false, Option, none, some, List, [], ◌∷◌,
  ◌++◌, map, String, if◌then◌else◌,
}
use harlan_nuxt.Prelude.Effect.{returned, threw, Action}
use harlan_nuxt.CfJobs.Send.{
  SendMessage, Host, BackpressureOptions, chunk_queue_batch_messages, with_send_backpressure,
}
use harlan_nuxt.CfJobs.Send.Chunks.{IsSplit, chunk_queue_batch_messages-IsSplit}
use harlan_nuxt.CfJobs.Send.Backpressure.{IsSpent, with_send_backpressure-IsSpent}
use harlan_nuxt.CfJobs.Publish.{
  SendOptions, CloudflareQueue, send_batch_chunked, send_batch_messages_chunked,
}
use harlan_nuxt.CfJobs.Publish.Delivery.{IsRefusal, IsSent, send_batch-IsSent}
use harlan_nuxt.CfJobs.Outbox.{
  JobRef, to_queue_job_message, group_queue_job_messages_by_queue, OutboxErrors,
  PublicationRepository, QueuePublisher, PublishResult, publish_durable_job_batch,
}
use harlan_nuxt.CfJobs.Outbox.Groups.{
  messages_of, is_for, IsDistinct, group_queue_job_messages_by_queue_lem,
}
use harlan_nuxt.CfJobs.Outbox.Accounts.{reported, publish_durable_job_batch-accounts}

-- A body is the number of its bytes, and an error is its status.
abbrev host : Host ℕ ℕ
host = record {
  byte_length = λ n. some n;
  text_of = λ n. none;
  stringify = λ n. returned (some "");
  utf8_byte_length = λ s. 70000;
  range_error = λ n. 413;
  fields = λ e. record { status = some e; code = none; status_code = none; message = none };
  is_rate_limit_text = λ s. false;
}

abbrev message : ℕ → SendMessage ℕ
message n = record { body = n; delay_seconds = none; content_type = none }

abbrev three : List (SendMessage ℕ)
three = message 1 ∷ message 2 ∷ message 3 ∷ message 4 ∷ []

chunk_queue_batch_messages-IsSplit_example :
    IsSplit host three (chunk_queue_batch_messages host three)
chunk_queue_batch_messages-IsSplit_example = chunk_queue_batch_messages-IsSplit host three

abbrev quiet : {S : Type 0} → BackpressureOptions S ℕ
quiet = record { max_retries = some 1; base_delay_ms = none; max_delay_ms = none; on_error = none }

-- A send that is throttled, over the count of its calls.
abbrev throttled : Action ℕ ℕ (Unit {0})
throttled n = (threw 429, n + 1)

with_send_backpressure-IsSpent_example :
    IsSpent
      (λ e. e == 429)
      (λ d n. n)
      quiet
      throttled
      (λ n. n)
      1
      0
      (with_send_backpressure (λ e. e == 429) (λ d n. n) quiet throttled 0)
with_send_backpressure-IsSpent_example =
    with_send_backpressure-IsSpent (λ e. e == 429) (λ d n. n) quiet throttled (λ n. n) (λ s. refl)
      (λ d s. refl) (λ e n b s. refl) (λ e n b s. refl) 0

-- A queue that takes every batch, over the list of the bodies that it holds.
abbrev accept : List (SendMessage ℕ) → Option ℕ → Action (List ℕ) ℕ (Unit {0})
accept slice d held = (returned tt, held ++ map (λ (m : SendMessage ℕ). m.body) slice)

abbrev queue : CloudflareQueue (List ℕ) ℕ ℕ
queue = record { send = λ n opts held. (returned tt, held ++ n ∷ []); send_batch = some accept }

abbrev plain : SendOptions
plain = record { delay_seconds = none; content_type = none }

send_batch-IsSent_example :
    IsSent
      (λ l. l)
      (IsRefusal host accept)
      (1 ∷ 2 ∷ 3 ∷ 4 ∷ [])
      (9 ∷ [])
      (send_batch_chunked host (λ d l. l) queue quiet plain (1 ∷ 2 ∷ 3 ∷ 4 ∷ []) (9 ∷ []))
    × IsSent
        (λ l. l)
        (IsRefusal host accept)
        (map (λ (m : SendMessage ℕ). m.body) three)
        (9 ∷ [])
        (send_batch_messages_chunked host (λ d l. l) queue quiet three (9 ∷ []))
send_batch-IsSent_example =
    send_batch-IsSent host (λ d l. l) queue quiet (λ l. l) accept refl (λ slice d s h. refl)
      (λ slice d s e h. absurd (cc)) (λ d s. refl) (λ e n b s. refl) (λ e n b s. refl) plain
      (1 ∷ 2 ∷ 3 ∷ 4 ∷ []) three (9 ∷ [])

abbrev rows : List JobRef
rows =
    record { id = "a"; queue = "mail" }
    ∷ record { id = "b"; queue = "sync" }
    ∷ record { id = "c"; queue = "mail" }
    ∷ []

group_queue_job_messages_by_queue_lem_example :
    IsDistinct (group_queue_job_messages_by_queue rows)
    × ((queue : String)
        → messages_of queue (group_queue_job_messages_by_queue rows)
          ≡ map to_queue_job_message (keep (is_for queue) rows))
group_queue_job_messages_by_queue_lem_example = group_queue_job_messages_by_queue_lem rows

-- Errors are numbers; the queue `sync` is down, and no evidence can be written.
abbrev outbox_errors : OutboxErrors ℕ
outbox_errors = record {
  binding_unavailable = λ queue. 1;
  failure_recorded_for = λ cause updated expected. 2;
  send_and_evidence_failed = λ cause evidence. 3;
  published_only = λ updated expected. 4;
}

abbrev repository : PublicationRepository ℕ ℕ
repository = record {
  mark_jobs_published = λ ids at n. (returned (length ids), n + 1);
  note_jobs_dispatch_failure = λ ids cause at n. (threw 500, n);
}

abbrev publisher : QueuePublisher ℕ ℕ
publisher = record {
  send = λ queue message delay n. (returned true, n);
  send_batch =
      λ queue messages delay n. (if str_eq queue "sync" then threw 503 else returned true, n);
}

publish_durable_job_batch-accounts_example :
    (results : List (PublishResult ℕ)) × ((publish_durable_job_batch outbox_errors repository
        publisher rows none none 0).0
      ≡ returned results)
    × IsDistinct (reported results)
    × ((queue : String)
        → messages_of queue (reported results)
          ≡ map (λ (row : JobRef). row.id) (keep (is_for queue) rows))
publish_durable_job_batch-accounts_example =
    publish_durable_job_batch-accounts outbox_errors repository publisher rows none none 0
