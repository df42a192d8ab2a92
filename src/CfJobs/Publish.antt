-- ===== src/CfJobs/Publish.antt =====
-- Publishing to a queue: `sendBatchChunked` and `sendBatchMessagesChunked` of
-- packages/nuxt-cf-jobs/src/runtime/server/queue.ts. The queue itself is the platform's.
pub mod Delivery
use harlan_nuxt.Prelude.{
  ℕ, ◌||◌, Bool, true, false, Option, none, some, List, [], ◌∷◌, map, if◌then◌else◌,
}
use harlan_nuxt.Prelude.Effect.{Outcome, returned, threw, Action, pure, of_outcome, ◌>>=◌, ◌>>◌}
use harlan_nuxt.CfJobs.Send.{
  ContentType, SendMessage, Host, chunk_queue_batch_messages, is_transient_queue_error,
  BackpressureOptions, with_send_backpressure,
}

pub record SendOptions : Type 0 where
  pub delay_seconds : Option ℕ
  pub content_type : Option ContentType

-- `sendBatch` is optional; its second argument is the delay of the whole batch.
pub record CloudflareQueue (S E B : Type 0) : Type 0 where
  pub send : B → Option SendOptions → Action S E (Unit {0})
  pub send_batch : Option (List (SendMessage B) → Option ℕ → Action S E (Unit {0}))

abbrev pub is_set {ℓ} : {A : Type ℓ} → Option A → Bool
is_set none = false
is_set (some _) = true

-- The options object is passed on only where one of its two fields is set.
unfoldable pub send_opts_of : SendOptions → Option SendOptions
send_opts_of opts =
    if is_set opts.delay_seconds || is_set opts.content_type then some opts else none

abbrev first_error :
    {E : Type 0} → Outcome E (Unit {0}) → Outcome E (Unit {0}) → Outcome E (Unit {0})
first_error (returned _) o = o
first_error (threw e) o = threw e

-- `Promise.all`: every action runs, and the first error is thrown. They run in list order; how the
-- platform interleaves them is not modelled.
pub promise_all : {S E : Type 0} → List (Action S E (Unit {0})) → Action S E (Unit {0})
promise_all [] s = (returned tt, s)
promise_all (m ∷ ms) s =
    let r = m s in let rest = promise_all ms r.1 in (first_error r.0 rest.0, rest.1)

abbrev pub to_message : {B : Type 0} → SendOptions → B → SendMessage B
to_message opts body = record {
  body = body;
  delay_seconds = none;
  content_type = opts.content_type;
}

module _ {S E B : Type 0} (host : Host E B) (sleep : ℕ → S → S) (queue : CloudflareQueue S E B)
    (backpressure : BackpressureOptions S E) where
  abbrev guarded : Action S E (Unit {0}) → Action S E (Unit {0})
  guarded = with_send_backpressure (is_transient_queue_error host) sleep backpressure

  -- One slice, with the options that each way of sending gets.
  unfoldable pub send_slice :
      Option (List (SendMessage B) → Option ℕ → Action S E (Unit {0}))
      → Option ℕ
      → (SendMessage B → Option SendOptions)
      → List (SendMessage B)
      → Action S E (Unit {0})
  unfolding promise_all
  send_slice (some send_batch) batch_opts send_opts slice = guarded (send_batch slice batch_opts)
  send_slice none batch_opts send_opts slice =
      promise_all (map (λ message. guarded (queue.send message.body (send_opts message))) slice)

  unfoldable pub send_slices :
      Option ℕ
      → (SendMessage B → Option SendOptions)
      → List (List (SendMessage B))
      → Action S E (Unit {0})
  send_slices batch_opts send_opts [] = pure tt
  send_slices batch_opts send_opts (slice ∷ slices) =
      send_slice queue.send_batch batch_opts send_opts slice
      >> send_slices batch_opts send_opts slices

  unfoldable pub send_batch_chunked : SendOptions → List B → Action S E (Unit {0})
  send_batch_chunked opts messages =
      of_outcome (chunk_queue_batch_messages host (map (to_message opts) messages))
      >>= send_slices opts.delay_seconds (λ _. send_opts_of opts)

  unfoldable pub send_batch_messages_chunked : List (SendMessage B) → Action S E (Unit {0})
  send_batch_messages_chunked messages =
      of_outcome (chunk_queue_batch_messages host messages)
      >>= send_slices none (λ message.
        some
          (record { delay_seconds = message.delay_seconds; content_type = message.content_type }))
