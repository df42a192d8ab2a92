-- ===== src/CfJobs/Continuation.antt =====
-- The continuations of a job, as JSON texts: packages/nuxt-cf-jobs/src/runtime/server/outbox.ts and
-- the spreads of batch.ts. `JSON.parse`, `JSON.stringify` and the numerals of array indices are
-- parameters; an object holds a key once.
pub mod RoundTrip
use harlan_nuxt.Prelude.{
  ℕ, ◌+◌, Bool, true, false, Option, none, some, List, [], ◌∷◌, String, str_eq, if◌then◌else◌,
}
use harlan_nuxt.Prelude.Effect.{Outcome, returned, threw, and_then}
use harlan_nuxt.CfJobs.Payload.{Json, Items, Fields, nil, cons, Payload, entries, lookup}

-- A continuation is a JSON object; what the code reads of it are `name` and `payload`.
abbrev pub Continuation : Type 0
Continuation = Payload

-- `{ ...object, key: value }`.
unfoldable pub assign : String → Json → Payload → Payload
assign key v [] = (key, v) ∷ []
assign key v ((k, w) ∷ pairs) =
    let rest = assign key v pairs in if str_eq k key then (k, v) ∷ pairs else (k, w) ∷ rest

abbrev pub indexed : (ℕ → String) → ℕ → Items → Payload
indexed index_key i nil = []
indexed index_key i (cons v items) = (index_key i, v) ∷ indexed index_key (i + 1) items

-- What a spread copies, and whether `typeof` says object of a value that is not null.
abbrev pub spread : (ℕ → String) → Json → Option Payload
spread index_key (Json.obj fields) = some (entries fields)
spread index_key (Json.arr items) = some (indexed index_key 0 items)
spread index_key _ = none

abbrev pub is_text : Option Json → Bool
is_text (some (Json.str _)) = true
is_text _ = false

abbrev pub has_object : (ℕ → String) → Option Json → Bool
has_object index_key none = false
has_object index_key (some v) = elim (spread index_key v) [ none ↦ false | some _ ↦ true ]

abbrev as_continuation : {E : Type 0} → (ℕ → String) → E → Json → Outcome E Continuation
as_continuation index_key invalid (Json.obj fields) =
    let pairs = entries fields in
    if is_text (lookup "name" pairs)
    then (if has_object index_key (lookup "payload" pairs) then returned pairs else threw invalid)
    else threw invalid
as_continuation index_key invalid _ = threw invalid

module _ {E : Type 0} (index_key : ℕ → String) (json_parse : String → Outcome E Json)
    (invalid : E) where
  unfoldable pub parse_durable_job_continuation : String → Outcome E Continuation
  parse_durable_job_continuation value =
      and_then (json_parse value) (as_continuation index_key invalid)

-- `...value`: nothing of a value that has no fields.
abbrev pub spread_of : (ℕ → String) → Option Json → Payload
spread_of index_key none = []
spread_of index_key (some v) = elim (spread index_key v) [ none ↦ [] | some pairs ↦ pairs ]

abbrev pub payload_of : (ℕ → String) → Continuation → Payload
payload_of index_key continuation = spread_of index_key (lookup "payload" continuation)

abbrev pub fields_of : Payload → Fields
fields_of [] = Fields.end
fields_of ((k, v) ∷ pairs) = Fields.field k v (fields_of pairs)

-- `{ ...continuation, payload: { ...continuation.payload, batchId } }`.
unfoldable pub with_batch_id : (ℕ → String) → String → Continuation → Continuation
unfolding assign lookup
with_batch_id index_key id continuation =
    assign "payload"
      (Json.obj (fields_of (assign "batchId" (Json.str id) (payload_of index_key continuation))))
      continuation

unfoldable pub serialize_durable_job_continuation : (Json → String) → Continuation → String
serialize_durable_job_continuation stringify continuation =
    stringify (Json.obj (fields_of continuation))
