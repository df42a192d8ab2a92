-- ===== src/CfJobs/Send.antt =====
-- Sending to a Cloudflare queue: the size estimate, the split of messages into batches and the
-- retry under backpressure of packages/nuxt-cf-jobs/src/runtime/server/queue.ts. The platform's
-- calls (JSON and UTF-8 sizes, the error's fields, timers) are parameters.
pub mod Chunks
pub mod Backpressure
use mathlib.Core.Option
use harlan_nuxt.Prelude.{
  ℕ, zero, suc, ◌+◌, ◌*◌, ◌^◌, min, Bool, true, false, ◌&&◌, ◌||◌, Option, none, some, List, [],
  ◌∷◌, ◌++◌, map, length, or_else, String, ltb, leb, ◌==◌, if◌then◌else◌,
}
use harlan_nuxt.Prelude.Effect.{
  Outcome, returned, threw, and_then, Action, pure, throw, modify, ◌>>=◌, ◌>>◌, try_catch,
}

abbrev pub cf_queue_max_batch_size : ℕ
cf_queue_max_batch_size = 100

abbrev pub cf_queue_max_batch_bytes : ℕ
cf_queue_max_batch_bytes = 256000

abbrev pub cf_queue_max_message_bytes : ℕ
cf_queue_max_message_bytes = 128000

abbrev pub cf_queue_message_metadata_bytes : ℕ
cf_queue_message_metadata_bytes = 100

pub data ContentType : Type 0 where
  json bytes text v8 : ContentType

pub record SendMessage (B : Type 0) : Type 0 where
  pub body : B
  pub delay_seconds : Option ℕ
  pub content_type : Option ContentType

-- The fields by which an error is classified.
pub record ErrorFields : Type 0 where
  pub status : Option ℕ
  pub code : Option ℕ
  pub status_code : Option ℕ
  pub message : Option String

-- What the platform answers about a body and an error: the bytes of an ArrayBuffer or a view, the
-- text of a string, `JSON.stringify`, the UTF-8 length, the RangeError for a message of some
-- size, an error's fields, and the test of a text by the rate-limit expression.
pub record Host (E B : Type 0) : Type 0 where
  pub byte_length : B → Option ℕ
  pub text_of : B → Option String
  pub stringify : B → Outcome E (Option String)
  pub utf8_byte_length : String → ℕ
  pub range_error : ℕ → E
  pub fields : E → ErrorFields
  pub is_rate_limit_text : String → Bool

-- The variables of the loop of `chunkQueueBatchMessages`.
pub record Chunker (B : Type 0) : Type 0 where
  pub chunks : List (List (SendMessage B))
  pub current : List (SendMessage B)
  pub current_bytes : ℕ

module _ {B : Type 0} where
  abbrev pub push_current :
      List (List (SendMessage B)) → List (SendMessage B) → List (List (SendMessage B))
  push_current chunks [] = chunks
  push_current chunks (m ∷ ms) = chunks ++ (m ∷ ms) ∷ []

  abbrev pub empty_chunker : Chunker B
  empty_chunker = record { chunks = []; current = []; current_bytes = 0 }

  unfoldable pub flush : Chunker B → Chunker B
  flush c = record { chunks = push_current c.chunks c.current; current = []; current_bytes = 0 }

  abbrev pub append : Chunker B → SendMessage B → ℕ → Chunker B
  append c message size = record c {
    current = c.current ++ message ∷ [];
    current_bytes = c.current_bytes + size;
  }

  -- A full batch is closed before the message is added.
  unfoldable pub make_room : Chunker B → ℕ → Chunker B
  make_room c size =
      if leb cf_queue_max_batch_size (length c.current)
        || ltb cf_queue_max_batch_bytes (c.current_bytes + size)
      then flush c
      else c

module _ {E B : Type 0} (host : Host E B) where
  abbrev serialized_bytes : Outcome E (Option String) → Option ℕ
  serialized_bytes (returned (some serialized)) = some (host.utf8_byte_length serialized)
  serialized_bytes (returned none) = none
  serialized_bytes (threw e) = none

  abbrev body_bytes : ContentType → B → Option ℕ
  body_bytes bytes body = host.byte_length body
  body_bytes text body = Option.map host.utf8_byte_length (host.text_of body)
  body_bytes json body = serialized_bytes (host.stringify body)
  body_bytes v8 body = none

  unfoldable pub estimate_queue_message_bytes : SendMessage B → Option ℕ
  estimate_queue_message_bytes message =
      Option.map (λ n. n + cf_queue_message_metadata_bytes)
        (body_bytes (or_else message.content_type json) message.body)

  -- One round of the loop, on the message's estimated size.
  unfoldable pub chunk_step : Chunker B → SendMessage B → Option ℕ → Outcome E (Chunker B)
  unfolding flush make_room
  chunk_step c message none =
      let flushed = flush c in
      returned (record flushed { chunks = flushed.chunks ++ (message ∷ []) ∷ [] })
  chunk_step c message (some size) =
      if ltb cf_queue_max_message_bytes size
      then threw (host.range_error size)
      else returned (append (make_room c size) message size)

  unfoldable pub chunk_from : Chunker B → List (SendMessage B) → Outcome E (Chunker B)
  chunk_from c [] = returned (flush c)
  chunk_from c (m ∷ ms) =
      and_then (chunk_step c m (estimate_queue_message_bytes m)) (λ c'. chunk_from c' ms)

  unfoldable pub chunk_queue_batch_messages :
      List (SendMessage B) → Outcome E (List (List (SendMessage B)))
  chunk_queue_batch_messages messages =
      and_then (chunk_from empty_chunker messages) (λ c. returned c.chunks)

  abbrev is_server_code : Option ℕ → Bool
  is_server_code none = false
  is_server_code (some code) = code == 429 || (code == 503 || (code == 502 || code == 500))

  abbrev first_some : Option ℕ → Option ℕ → Option ℕ
  first_some none other = other
  first_some (some n) other = some n

  unfoldable pub is_transient_queue_error : E → Bool
  is_transient_queue_error error =
      let f = host.fields error in
      is_server_code (first_some f.status (first_some f.code f.status_code))
      || host.is_rate_limit_text (or_else f.message "")

-- The options of a send, all unset where the source passes `undefined`. `on_error` gets the
-- error, the number of the attempt, from 1, and whether it will be retried.
pub record BackpressureOptions (S E : Type 0) : Type 0 where
  pub max_retries : Option ℕ
  pub base_delay_ms : Option ℕ
  pub max_delay_ms : Option ℕ
  pub on_error : Option (E → ℕ → Bool → Action S E (Unit {0}))

abbrev pub report :
    {S E : Type 0}
    → Option (E → ℕ → Bool → Action S E (Unit {0}))
    → E
    → ℕ
    → Bool
    → Action S E (Unit {0})
report none e attempt will_retry = pure tt
report (some observe) e attempt will_retry = observe e attempt will_retry

-- `sleep` is the timer: it takes the delay before its random factor, which lies in [0.5, 1.5).
module _ {S E R : Type 0} (is_transient : E → Bool) (sleep : ℕ → S → S)
    (opts : BackpressureOptions S E) (fn : Action S E R) where
  -- The loop, with `left` for `max - attempt`.
  pub retry_loop : ℕ → ℕ → Action S E R
  retry_loop zero attempt =
      try_catch fn pure λ error. report opts.on_error error (attempt + 1) false >> throw error
  retry_loop (suc left) attempt = try_catch fn pure λ error.
      report opts.on_error error (attempt + 1) (is_transient error)
      >> (if is_transient error
          then (modify (
                sleep (
                  min (or_else opts.max_delay_ms 5000)
                    (or_else opts.base_delay_ms 100 * 2 ^ attempt)))
              >> retry_loop left (attempt + 1))
          else throw error)

  unfoldable pub with_send_backpressure : Action S E R
  unfolding retry_loop
  with_send_backpressure = retry_loop (or_else opts.max_retries 5) 0
