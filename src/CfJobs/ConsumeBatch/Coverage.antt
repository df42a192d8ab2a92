-- ===== src/CfJobs/ConsumeBatch/Coverage.antt =====
-- Every message of a batch is answered once.
use harlan_nuxt.Prelude.{
  ℕ, zero, suc, ◌+◌, ◌≤◌, ◌≡◌, refl, sym, ◌∙◌, ap, ◌⊎◌, inl, inr, Bool, true, false, Option, none,
  some, List, [], ◌∷◌, ◌++◌, append-nil, append_assoc, length, String, Bool-cases, if◌then◌else◌,
  arith,
}
use harlan_nuxt.Prelude.Effect.{Outcome, returned, threw, Action, continue, ◌>>◌}
use harlan_nuxt.CfJobs.QueueConfig.{resolve_logical_queue_name, filled}
use harlan_nuxt.CfJobs.Consumer.{
  QueueMessage, QueueBatch, Reply, ack, retry, ack_all, retry_all, ConsumerState, ConsumerOptions,
  Platform, within, reply, when_set,
}
use harlan_nuxt.CfJobs.ConsumeMessage.{process_registered_queue_message}
use harlan_nuxt.CfJobs.ConsumeMessage.Replies.{IsFor, IsReplied}
use harlan_nuxt.CfJobs.ConsumeMessage.Answer.{process_registered_queue_message-IsReplied}
use harlan_nuxt.CfJobs.ConsumeBatch.{
  is_dlq_queue, dlq_messages, reply_each, ack_batch, retry_batch, process_messages, process_logical,
  has_job, unknown_delay, head?, process_registered_queue_batch,
}

-- One reply for each of `n` places from `place` on, in order.
abbrev pub IsCovering : ℕ → ℕ → List Reply → Type 0
IsCovering place zero [] = Unit
IsCovering place (suc n) (ack i ∷ replies) = (i ≡ place) × IsCovering (place + 1) n replies
IsCovering place (suc n) (retry i delay ∷ replies) = (i ≡ place) × IsCovering (place + 1) n replies
IsCovering place _ _ = ⊥

-- The replies that a run adds: one for each of `n` messages where it returns, one for each of the
-- first few where it throws.
unfoldable pub IsCovered :
    {W E : Type 0} → ℕ → ℕ → ConsumerState W → Outcome E (Unit {0}) × ConsumerState W → Type 0
IsCovered place n s (returned _, end) =
    (replies : List Reply) × (end.replies ≡ s.replies ++ replies) × IsCovering place n replies
IsCovered place n s (threw e, end) =
    (replies : List Reply) × (k : ℕ) × (k ≤ n)
    × (end.replies ≡ s.replies ++ replies)
    × IsCovering place k replies

cons-IsCovering :
    {W : Type 0} (place n : ℕ) (s end : ConsumerState W) (r : Reply) (replies : List Reply)
    → IsFor place s end r
    → IsCovering (place + 1) n replies
    → IsCovering place (suc n) (r ∷ replies)
cons-IsCovering place n s end (ack i) replies h k = (h, k)
cons-IsCovering place n s end (retry i delay) replies h k = (h.0, k)
cons-IsCovering place n s end ack_all replies h k = absurd h
cons-IsCovering place n s end (retry_all delay) replies h k = absurd h

appended : (a b c l m : List Reply) (r : Reply) → b ≡ a ++ r ∷ [] → c ≡ b ++ l → c ≡ a ++ r ∷ l
appended a b c l m r e f = f ∙ (ap (λ x. x ++ l) e ∙ append_assoc a (r ∷ []) l)

module _ {W E : Type 0} where
  -- A message that was answered, and the messages after it.
  cons-IsCovered :
      (place n : ℕ) (s t : ConsumerState W) (r : Reply)
      (rest : Outcome E (Unit {0}) × ConsumerState W)
      → t.replies ≡ s.replies ++ r ∷ []
      → IsFor place s t r
      → IsCovered (place + 1) n t rest
      → IsCovered place (suc n) s rest
  unfolding IsCovered
  cons-IsCovered place n s t r (returned _, end) e h (replies, f, c) = (
    r ∷ replies,
    appended s.replies t.replies end.replies replies [] r e f,
    cons-IsCovering place n s t r replies h c,
  )
  cons-IsCovered place n s t r (threw error, end) e h (replies, k, less, f, c) = (
    r ∷ replies,
    suc k,
    omega arith,
    appended s.replies t.replies end.replies replies [] r e f,
    cons-IsCovering place k s t r replies h c,
  )

  none-IsCovered :
      (place n : ℕ) (e : E) (s end : ConsumerState W)
      → end.replies ≡ s.replies
      → IsCovered {E = E} place n s (threw e, end)
  unfolding IsCovered
  none-IsCovered place n e s end h = ([], zero, omega arith, h ∙ sym (append-nil s.replies), tt)

  then-IsCovered :
      (place n : ℕ) (s : ConsumerState W) (r : Outcome E (Unit {0}) × ConsumerState W)
      (k : Action (ConsumerState W) E (Unit {0}))
      → IsReplied place s r
      → ((t : ConsumerState W) → IsCovered (place + 1) n t (k t))
      → IsCovered place (suc n) s (continue (λ _. k) r.0 r.1)
  unfolding IsReplied
  then-IsCovered place n s (returned _, t) k (r, e, h) rest =
      cons-IsCovered place n s t r (k t) e h (rest t)
  then-IsCovered place n s (threw error, t) k q rest = none-IsCovered place (suc n) error s t q.0

module _ {W E C : Type 0} (platform : Platform W E) (opts : ConsumerOptions W E C)
    (batch : QueueBatch) where
  process_messages-IsCovered :
      (logical : String) (place : ℕ) (messages : List QueueMessage) (s : ConsumerState W)
      → IsCovered place
          (length messages)
          s
          (process_messages platform opts batch logical place messages s)
  unfolding process_messages IsCovered
  process_messages-IsCovered logical place [] s = ([], sym (append-nil s.replies), tt)
  process_messages-IsCovered logical place (message ∷ messages) s =
      then-IsCovered place (length messages) s
        (process_registered_queue_message platform opts logical place message s)
        (process_messages platform opts batch logical (place + 1) messages)
        (process_registered_queue_message-IsReplied platform opts logical place message s)
        (process_messages-IsCovered logical (place + 1) messages)

  reply_each-IsCovered :
      (answer : ℕ → Reply)
      → ((i : ℕ) (s end : ConsumerState W) → end.seen ≡ s.seen → IsFor i s end (answer i))
      → (place : ℕ) (messages : List QueueMessage) (s : ConsumerState W)
      → IsCovered place (length messages) s (reply_each platform opts batch answer place messages s)
  unfolding reply_each IsCovered
  reply_each-IsCovered answer h place [] s = ([], sym (append-nil s.replies), tt)
  reply_each-IsCovered answer h place (message ∷ messages) s =
      let t : ConsumerState W = record s { replies = s.replies ++ answer place ∷ [] } in
      cons-IsCovered place (length messages) s t (answer place)
        (reply_each platform opts batch answer (place + 1) messages t) refl (h place s t refl)
        (reply_each-IsCovered answer h (place + 1) messages t)

  abbrev logical_queue : Option String
  logical_queue = filled (resolve_logical_queue_name opts.queues batch.queue)

  -- The replies of a whole batch.
  unfoldable pub IsBatchReplied : ConsumerState W → Outcome E (Unit {0}) × ConsumerState W → Type 0
  IsBatchReplied s r =
      IsCovered 0 (length batch.messages) s r
      ⊎ ((r.0 ≡ returned tt)
          × (r.1.replies ≡ s.replies ++ ack_all ∷ [])
          × (logical_queue ≡ none)
          × (is_dlq_queue platform opts batch opts.dlq_queues ≡ true))
      ⊎ ((r.0 ≡ returned tt)
          × (r.1.replies ≡ s.replies ++ retry_all (unknown_delay platform opts batch) ∷ []))

  -- A first step that answers nothing; where it throws, nothing was answered.
  after_step :
      (s : ConsumerState W) (k : Action (ConsumerState W) E (Unit {0})) (o : Outcome E (Unit {0}))
      (w : W)
      → ((t : ConsumerState W) → IsBatchReplied t (k t))
      → IsBatchReplied s (continue (λ _. k) o (record s { world = w }))
  unfolding IsBatchReplied IsCovered
  after_step s k (returned _) w h = h (record s { world = w })
  after_step s k (threw e) w h =
      inl (none-IsCovered 0 (length batch.messages) e s (record s { world = w }) refl)

  retry_rest :
      (b : Bool) (s : ConsumerState W)
      → IsBatchReplied s (
          (if b
              then reply (retry_all (unknown_delay platform opts batch))
              else reply_each platform opts batch
                  (λ place. retry place (some (unknown_delay platform opts batch)))
                  0
                  batch.messages)
            s)
  unfolding IsBatchReplied
  retry_rest true s = inr (inr (refl, refl))
  retry_rest false s = inl (
      reply_each-IsCovered (λ place. retry place (some (unknown_delay platform opts batch)))
        (λ i t end same. (refl, same)) 0 batch.messages s)

  covered :
      (s : ConsumerState W) (r : Outcome E (Unit {0}) × ConsumerState W)
      → IsCovered 0 (length batch.messages) s r
      → IsBatchReplied s r
  unfolding IsBatchReplied
  covered s r h = inl h

  retry_batch-IsBatchReplied :
      (logical : Option String) (s : ConsumerState W)
      → IsBatchReplied s (retry_batch platform opts batch logical s)
  unfolding retry_batch
  retry_batch-IsBatchReplied logical s =
      let told =
        when_set opts.on_missing_queue (λ hook. hook (head? batch.messages) logical) s.world in
      after_step s _ told.0 told.1 (retry_rest batch.has_retry_all)

  ack_rest :
      logical_queue ≡ none
      → is_dlq_queue platform opts batch opts.dlq_queues ≡ true
      → (b : Bool) (s : ConsumerState W)
      → IsBatchReplied s
          ((if b then reply ack_all else reply_each platform opts batch ack 0 batch.messages) s)
  unfolding IsBatchReplied
  ack_rest unknown dlq true s = inr (inl (refl, refl, unknown, dlq))
  ack_rest unknown dlq false s =
      inl (reply_each-IsCovered ack (λ i t end same. refl) 0 batch.messages s)

  ack_batch-IsBatchReplied :
      logical_queue ≡ none
      → is_dlq_queue platform opts batch opts.dlq_queues ≡ true
      → (s : ConsumerState W) → IsBatchReplied s (ack_batch platform opts batch s)
  unfolding ack_batch
  ack_batch-IsBatchReplied unknown dlq s = ack_rest unknown dlq batch.has_ack_all s

  dlq_batch-IsBatchReplied :
      logical_queue ≡ none
      → is_dlq_queue platform opts batch opts.dlq_queues ≡ true
      → (s : ConsumerState W)
      → IsBatchReplied s (
          (within (dlq_messages platform opts batch batch.messages)
              >> ack_batch platform opts batch)
            s)
  dlq_batch-IsBatchReplied unknown dlq s =
      let handled = dlq_messages platform opts batch batch.messages s.world in
      after_step s _ handled.0 handled.1 (ack_batch-IsBatchReplied unknown dlq)

  process_logical-IsBatchReplied :
      (logical : Option String)
      → logical_queue ≡ logical
      → (s : ConsumerState W) → IsBatchReplied s (process_logical platform opts batch logical s)
  process_logical-IsBatchReplied none e s =
      elim (Bool-cases (is_dlq_queue platform opts batch opts.dlq_queues)) [
        | inl t ↦ rw t (dlq_batch-IsBatchReplied e t s)
        | inr f ↦ rw f (retry_batch-IsBatchReplied none s)
      ]
  process_logical-IsBatchReplied (some logical) e s =
      elim (Bool-cases (has_job platform opts batch logical opts.job_queues)) [
        | inl t ↦ rw t (covered s _ (process_messages-IsCovered logical 0 batch.messages s))
        | inr f ↦ rw f (retry_batch-IsBatchReplied (some logical) s)
      ]

  -- A batch that the consumer takes is answered message by message, each of its messages exactly once
  -- and in their order where the run returns, and the first few of them once where it throws. Or, in a
  -- run that returns, it is answered as a whole: acked, and then its queue is a dead-letter queue that
  -- no configuration names, or returned to its queue with the delay for unknown queues.
  pub process_registered_queue_batch-IsBatchReplied :
      (s : ConsumerState W)
      → IsBatchReplied s (process_registered_queue_batch platform opts batch s)
  unfolding process_registered_queue_batch
  process_registered_queue_batch-IsBatchReplied s =
      process_logical-IsBatchReplied logical_queue refl s
