-- ===== src/CfJobs/Send/Chunks.antt =====
-- The split of messages into batches: nothing is lost or reordered, every batch is within the
-- platform's limits, and only an oversized message is refused.
use harlan_nuxt.Prelude.{
  ℕ, ◌+◌, ◌≤◌, ◌<◌, ◌≡◌, refl, sym, ap, ◌∙◌, ◌≢◌, ◌⊎◌, inl, inr, Bool, true, false, ◌||◌, Option,
  none, some, List, [], ◌∷◌, ◌++◌, length, length-append, or_else, concat, concat-append,
  append-nil, append_assoc, All, All-append, Bool-cases, Option-cases, ltb, leb, if◌then◌else◌,
  arith,
}
use harlan_nuxt.Prelude.Effect.{Outcome, returned, threw}
use harlan_nuxt.CfJobs.Send.{
  cf_queue_max_batch_size, cf_queue_max_batch_bytes, cf_queue_max_message_bytes, SendMessage, Host,
  estimate_queue_message_bytes, Chunker, push_current, flush, make_room, append, chunk_step,
  chunk_from, empty_chunker, chunk_queue_batch_messages,
}

module _ {B : Type 0} where
  abbrev is_full : Chunker B → ℕ → Bool
  is_full c size =
      leb cf_queue_max_batch_size (length c.current)
      || ltb cf_queue_max_batch_bytes (c.current_bytes + size)

  abbrev pub total_bytes : (SendMessage B → Option ℕ) → List (SendMessage B) → ℕ
  total_bytes size [] = 0
  total_bytes size (m ∷ ms) = or_else (size m) 0 + total_bytes size ms

  abbrev contents : Chunker B → List (SendMessage B)
  contents c = concat c.chunks ++ c.current

  concat-push_current :
      (chunks : List (List (SendMessage B))) (current : List (SendMessage B))
      → concat (push_current chunks current) ≡ concat chunks ++ current
  concat-push_current chunks [] = sym (append-nil _)
  concat-push_current chunks (m ∷ ms) = simp (concat-append, append-nil)

  contents-flush : (c : Chunker B) → contents (flush c) ≡ contents c
  unfolding flush
  contents-flush c = simp (append-nil, concat-push_current c.chunks c.current)

  concat-flush : (c : Chunker B) → concat (flush c).chunks ≡ contents c
  unfolding flush
  concat-flush c = concat-push_current c.chunks c.current

  contents-append :
      (c : Chunker B) (m : SendMessage B) (size : ℕ)
      → contents (append c m size) ≡ contents c ++ m ∷ []
  contents-append c m size = simp append_assoc

  contents-make_room : (c : Chunker B) (size : ℕ) → contents (make_room c size) ≡ contents c
  unfolding make_room
  contents-make_room c size = elim (Bool-cases (is_full c size)) [
    | inl full ↦ rw full (contents-flush c)
    | inr room ↦ rw room refl
  ]

  -- A batch that the platform takes: not empty, at most 100 messages, and at most 256000 bytes, by
  -- the estimate of every message.
  pub record IsBatch (size : SendMessage B → Option ℕ) (ms : List (SendMessage B)) : Type 0 where
    pub non_empty : 0 < length ms
    pub short : length ms ≤ cf_queue_max_batch_size
    pub light : total_bytes size ms ≤ cf_queue_max_batch_bytes
    pub sized : All (λ m. size m ≢ none) ms

  -- A message with no estimate goes out alone.
  abbrev pub IsChunk : (SendMessage B → Option ℕ) → List (SendMessage B) → Type 0
  IsChunk size ms = IsBatch size ms ⊎ ((m : SendMessage B) × (ms ≡ m ∷ []) × (size m ≡ none))

  -- What holds between two rounds.
  record Inv (size : SendMessage B → Option ℕ) (c : Chunker B) : Type 0 where
    done : All (IsChunk size) c.chunks
    short : length c.current ≤ cf_queue_max_batch_size
    light : c.current_bytes ≤ cf_queue_max_batch_bytes
    total : total_bytes size c.current ≡ c.current_bytes
    sized : All (λ m. size m ≢ none) c.current

  All-push_current :
      (size : SendMessage B → Option ℕ) (chunks : List (List (SendMessage B)))
      (current : List (SendMessage B))
      → All (IsChunk size) chunks
      → length current ≤ cf_queue_max_batch_size
      → total_bytes size current ≤ cf_queue_max_batch_bytes
      → All (λ m. size m ≢ none) current
      → All (IsChunk size) (push_current chunks current)
  All-push_current size chunks [] done short light sized = done
  All-push_current size chunks (m ∷ ms) done short light sized =
      All-append (IsChunk size) chunks ((m ∷ ms) ∷ []) done
        (inl (record { non_empty = omega arith; short = short; light = light; sized = sized }), tt)

  flush-Inv : (size : SendMessage B → Option ℕ) (c : Chunker B) → Inv size c → Inv size (flush c)
  unfolding flush
  flush-Inv size c inv = record {
    done =
        All-push_current size c.chunks c.current inv.done inv.short (omega (arith, inv.total))
          inv.sized;
    short = omega arith;
    light = omega arith;
    total = refl;
    sized = tt;
  }

  total_bytes-append :
      (size : SendMessage B → Option ℕ) (ms : List (SendMessage B)) (m : SendMessage B)
      → total_bytes size (ms ++ m ∷ []) ≡ total_bytes size ms + or_else (size m) 0
  total_bytes-append size [] m = omega arith
  total_bytes-append size (x ∷ ms) m = omega (arith, total_bytes-append size ms m)

  -- There is room for the message after `make_room`.
  record HasRoom (size : SendMessage B → Option ℕ) (c : Chunker B) (n : ℕ) : Type 0 where
    inv : Inv size c
    slot : length c.current < cf_queue_max_batch_size
    space : c.current_bytes + n ≤ cf_queue_max_batch_bytes

  make_room-HasRoom :
      (size : SendMessage B → Option ℕ) (c : Chunker B) (n : ℕ)
      → Inv size c
      → n ≤ cf_queue_max_message_bytes
      → HasRoom size (make_room c n) n
  unfolding make_room
  make_room-HasRoom size c n inv small = elim (Bool-cases (is_full c n)) [
    | inl full ↦ rw full (record {
      inv = flush-Inv size c inv;
      slot = unfold flush in omega arith;
      space = unfold flush in omega arith;
    })
    | inr room ↦ rw room (record { inv = inv; slot = ground arith; space = ground arith })
  ]

  append-Inv :
      (size : SendMessage B → Option ℕ) (c : Chunker B) (m : SendMessage B) (n : ℕ)
      → HasRoom size c n
      → size m ≡ some n
      → Inv size (append c m n)
  append-Inv size c m n room e = record {
    done = room.inv.done;
    short = omega (arith, length-append c.current (m ∷ []), room.slot);
    light = room.space;
    total = total_bytes-append size c.current m ∙ rw e (ap (λ (t : ℕ). t + n) room.inv.total);
    sized =
        All-append (λ m. size m ≢ none) c.current (m ∷ []) room.inv.sized ((λ h. cc (e, h)), tt);
  }

-- The size of the first message over the limit.
pub first_oversized : {B : Type 0} → (SendMessage B → Option ℕ) → List (SendMessage B) → Option ℕ
first_oversized size [] = none
first_oversized size (m ∷ ms) =
    if ltb cf_queue_max_message_bytes (or_else (size m) 0) then size m else first_oversized size ms

-- What a run promises: without an oversized message the batches hold the messages in order, and
-- each is one that the platform takes; else the first oversized message is refused with its size.
pub data IsSplit {E B : Type 0} (host : Host E B) (ms : List (SendMessage B))
    (outcome : Outcome E (List (List (SendMessage B)))) : Type 0 where
  split :
      (chunks : List (List (SendMessage B)))
      → first_oversized (estimate_queue_message_bytes host) ms ≡ none
      → outcome ≡ returned chunks
      → concat chunks ≡ ms
      → All (IsChunk (estimate_queue_message_bytes host)) chunks
      → IsSplit host ms outcome
  refused :
      (n : ℕ)
      → first_oversized (estimate_queue_message_bytes host) ms ≡ some n
      → outcome ≡ threw (host.range_error n)
      → IsSplit host ms outcome

module _ {E B : Type 0} (host : Host E B) where
  abbrev size : SendMessage B → Option ℕ
  size = estimate_queue_message_bytes host

  step_known :
      (c : Chunker B) (m : SendMessage B) (n : ℕ)
      → ltb cf_queue_max_message_bytes n ≡ false
      → chunk_step host c m (some n) ≡ returned (append (make_room c n) m n)
  unfolding chunk_step
  step_known c m n fits = rw fits refl

  step_over :
      (c : Chunker B) (m : SendMessage B) (n : ℕ)
      → ltb cf_queue_max_message_bytes n ≡ true
      → chunk_step host c m (some n) ≡ threw (host.range_error n)
  unfolding chunk_step
  step_over c m n over = rw over refl

  abbrev alone : Chunker B → SendMessage B → Chunker B
  alone c m = record { chunks = (flush c).chunks ++ (m ∷ []) ∷ []; current = []; current_bytes = 0 }

  step_unknown :
      (c : Chunker B) (m : SendMessage B) → chunk_step host c m none ≡ returned (alone c m)
  unfolding chunk_step
  step_unknown c m = refl

  alone-Inv :
      (c : Chunker B) (m : SendMessage B) → size m ≡ none → Inv size c → Inv size (alone c m)
  alone-Inv c m e inv = record {
    done =
        All-append (IsChunk size) (flush c).chunks ((m ∷ []) ∷ []) (flush-Inv size c inv).done
          (inr (m, refl, e), tt);
    short = omega arith;
    light = omega arith;
    total = refl;
    sized = tt;
  }

  contents-alone : (c : Chunker B) (m : SendMessage B) → contents (alone c m) ≡ contents c ++ m ∷ []
  contents-alone c m = simp (concat-append, append-nil, concat-flush c, append_assoc)

  -- What a run of the loop from `c` promises.
  data Ends (c : Chunker B) (ms : List (SendMessage B)) (o : Outcome E (Chunker B)) : Type 0 where
    ends :
        (c' : Chunker B)
        → first_oversized size ms ≡ none
        → o ≡ returned c'
        → concat c'.chunks ≡ contents c ++ ms
        → All (IsChunk size) c'.chunks
        → Ends c ms o
    stops :
        (n : ℕ) → first_oversized size ms ≡ some n → o ≡ threw (host.range_error n) → Ends c ms o

  Ends-cons :
      (c c' : Chunker B) (m : SendMessage B) (ms : List (SendMessage B))
      → ltb cf_queue_max_message_bytes (or_else (size m) 0) ≡ false
      → chunk_step host c m (size m) ≡ returned c'
      → contents c' ≡ contents c ++ m ∷ []
      → Ends c' ms (chunk_from host c' ms)
      → Ends c (m ∷ ms) (chunk_from host c (m ∷ ms))
  unfolding chunk_from first_oversized
  Ends-cons c c' m ms fits step same (ends d none_over e keep all) =
      ends d (rw fits none_over) (rw step e)
        (keep ∙ rw same (append_assoc (contents c) (m ∷ []) ms)) all
  Ends-cons c c' m ms fits step same (stops n over e) = stops n (rw fits over) (rw step e)

  chunk_from-Ends :
      (c : Chunker B) (ms : List (SendMessage B)) → Inv size c → Ends c ms (chunk_from host c ms)
  unfolding chunk_from first_oversized
  chunk_from-Ends c [] inv =
      ends (flush c) refl refl (concat-flush c ∙ sym (append-nil _)) (flush-Inv size c inv).done
  chunk_from-Ends c (m ∷ ms) inv = elim (Option-cases (size m)) [
    | inl unknown ↦
        Ends-cons c (alone c m) m ms (rw unknown refl) (rw unknown (step_unknown c m))
          (contents-alone c m) (chunk_from-Ends (alone c m) ms (alone-Inv c m unknown inv))
    | inr (n, known) ↦ elim (Bool-cases (ltb cf_queue_max_message_bytes n)) [
      | inl over ↦ stops n (rw known (rw over refl)) (rw known (rw (step_over c m n over) refl))
      | inr fits ↦
          let c' = append (make_room c n) m n in
          Ends-cons c c' m ms (rw known fits) (rw known (step_known c m n fits))
            (contents-append (make_room c n) m n ∙ ap (λ l. l ++ m ∷ []) (contents-make_room c n))
            (chunk_from-Ends c' ms (
              append-Inv size (make_room c n) m n (make_room-HasRoom size c n inv (ground arith))
                known))
    ]
  ]

-- Splitting keeps every message once and in order, in batches within the limits of 100 messages
-- and 256000 estimated bytes, a message without an estimate alone; it refuses exactly the lists
-- with an estimate over 128000 bytes, with the RangeError for the first such message.
pub chunk_queue_batch_messages-IsSplit :
    {E B : Type 0} (host : Host E B) (ms : List (SendMessage B))
    → IsSplit host ms (chunk_queue_batch_messages host ms)
unfolding chunk_queue_batch_messages
chunk_queue_batch_messages-IsSplit host ms = go (chunk_from-Ends host empty_chunker ms empty-Inv)
  where
    empty-Inv : Inv (estimate_queue_message_bytes host) empty_chunker
    empty-Inv = record {
      done = tt;
      short = omega arith;
      light = omega arith;
      total = refl;
      sized = tt;
    }

    go :
        Ends host empty_chunker ms (chunk_from host empty_chunker ms)
        → IsSplit host ms (chunk_queue_batch_messages host ms)
    go (ends c none_over e keep all) = split c.chunks none_over (rw e refl) keep all
    go (stops n over e) = refused n over (rw e refl)
