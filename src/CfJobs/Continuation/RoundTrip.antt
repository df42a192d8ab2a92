-- ===== src/CfJobs/Continuation/RoundTrip.antt =====
-- A continuation comes back from its text, and what the id of a batch changes in it.
use harlan_nuxt.Prelude.{
  ℕ, ◌≡◌, refl, ap, ◌∙◌, inl, inr, true, false, some, [], ◌∷◌, String, str_eq, eq_iff, eq_refl,
  Bool-cases,
}
use harlan_nuxt.Prelude.Effect.{Outcome, returned}
use harlan_nuxt.CfJobs.Payload.{Json, Payload, entries, lookup}
use harlan_nuxt.CfJobs.Continuation.{
  Continuation, assign, is_text, has_object, parse_durable_job_continuation, payload_of, spread_of,
  fields_of, with_batch_id, serialize_durable_job_continuation,
}

entries-fields_of : (pairs : Payload) → entries (fields_of pairs) ≡ pairs
entries-fields_of [] = refl
entries-fields_of ((k, v) ∷ pairs) = ap (λ l. (k, v) ∷ l) (entries-fields_of pairs)

module _ (key k : String) (v w : Json) (pairs : Payload) where
  assign_hit : str_eq k key ≡ true → assign key v ((k, w) ∷ pairs) ≡ ((k, v) ∷ pairs)
  unfolding assign
  assign_hit t = rw t refl

  assign_miss : str_eq k key ≡ false → assign key v ((k, w) ∷ pairs) ≡ ((k, w) ∷ assign key v pairs)
  unfolding assign
  assign_miss f = rw f refl

lookup-assign_same :
    (key : String) (v : Json) (pairs : Payload) → lookup key (assign key v pairs) ≡ some v
unfolding lookup assign
lookup-assign_same key v [] = rw (eq_refl key) refl
lookup-assign_same key v ((k, w) ∷ pairs) = elim (Bool-cases (str_eq k key)) [
  | inl t ↦ ap (lookup key) (assign_hit key k v w pairs t) ∙ rw t refl
  | inr f ↦ ap (lookup key) (assign_miss key k v w pairs f) ∙ rw f (lookup-assign_same key v pairs)
]

lookup-assign_other :
    (key q : String) (v : Json) (pairs : Payload)
    → str_eq key q ≡ false
    → lookup q (assign key v pairs) ≡ lookup q pairs
unfolding lookup assign
lookup-assign_other key q v [] h = rw h refl
lookup-assign_other key q v ((k, w) ∷ pairs) h = elim (Bool-cases (str_eq k key)) [
  | inl t ↦ rw (t, ap (λ x. str_eq x q) ((eq_iff k key).0 t) ∙ h) refl
  | inr f ↦ elim (Bool-cases (str_eq k q)) [
    | inl u ↦ rw (f, u) refl
    | inr u ↦ rw (f, u) (lookup-assign_other key q v pairs h)
  ]
]

-- What `parseDurableJobContinuation` asks of an object.
abbrev pub IsContinuation : (ℕ → String) → Continuation → Type 0
IsContinuation index_key c =
    (is_text (lookup "name" c) ≡ true) × (has_object index_key (lookup "payload" c) ≡ true)

payload_of-with_batch_id :
    (index_key : ℕ → String) (id : String) (c : Continuation)
    → payload_of index_key (with_batch_id index_key id c)
      ≡ assign "batchId" (Json.str id) (payload_of index_key c)
unfolding with_batch_id
payload_of-with_batch_id index_key id c =
    ap (spread_of index_key) (
      lookup-assign_same "payload"
        (Json.obj (fields_of (assign "batchId" (Json.str id) (payload_of index_key c)))) c)
    ∙ entries-fields_of (assign "batchId" (Json.str id) (payload_of index_key c))

lookup-with_batch_id :
    (index_key : ℕ → String) (id : String) (c : Continuation) (key : String)
    → str_eq "payload" key ≡ false
    → lookup key (with_batch_id index_key id c) ≡ lookup key c
unfolding with_batch_id
lookup-with_batch_id index_key id c key other =
    lookup-assign_other "payload" key
      (Json.obj (fields_of (assign "batchId" (Json.str id) (payload_of index_key c)))) c other

-- Where JSON reads the text of a continuation back as the object it was written from, and the
-- continuation has a name and a payload, the text that a batch keeps is read back as that
-- continuation. In the one that the
-- hook is given, `payload.batchId` is the id of the batch, and every other entry of the payload, and
-- of the continuation, is as it was.
pub continuation_round_trip :
    {E : Type 0} (index_key : ℕ → String) (json_parse : String → Outcome E Json) (invalid : E)
    (stringify : Json → String) (id : String) (c : Continuation)
    → json_parse (stringify (Json.obj (fields_of c))) ≡ returned (Json.obj (fields_of c))
    → IsContinuation index_key c
    → let d = with_batch_id index_key id c in
      (parse_durable_job_continuation index_key json_parse invalid
          (serialize_durable_job_continuation stringify c)
        ≡ returned c)
      × (lookup "batchId" (payload_of index_key d) ≡ some (Json.str id))
      × ((key : String)
          → str_eq "batchId" key ≡ false
          → lookup key (payload_of index_key d) ≡ lookup key (payload_of index_key c))
      × ((key : String) → str_eq "payload" key ≡ false → lookup key d ≡ lookup key c)
unfolding parse_durable_job_continuation serialize_durable_job_continuation
continuation_round_trip index_key json_parse invalid stringify id c reads h = (
  rw (reads, entries-fields_of c, h.0, h.1) refl,
  rw (payload_of-with_batch_id index_key id c)
      (lookup-assign_same "batchId" (Json.str id) (payload_of index_key c)),
  λ key other.
      rw (payload_of-with_batch_id index_key id c)
        (lookup-assign_other "batchId" key (Json.str id) (payload_of index_key c) other),
  λ key other. lookup-with_batch_id index_key id c key other,
)
