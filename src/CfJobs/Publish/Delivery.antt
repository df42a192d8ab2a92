-- ===== src/CfJobs/Publish/Delivery.antt =====
-- What a batched send delivers, whatever the platform refuses on the way.
use mathlib.Core.List.{map-append}
use mathlib.Core.Path.{subst}
use harlan_nuxt.Prelude.{
  ℕ, ◌≡◌, refl, sym, ap, ◌∙◌, ◌⊎◌, inl, inr, Bool, true, false, Option, none, some, List, [], ◌∷◌,
  ◌++◌, map, concat, append-nil, append_assoc,
}
use harlan_nuxt.Prelude.Effect.{Outcome, returned, threw, Action, continue}
use harlan_nuxt.CfJobs.Send.{
  SendMessage, Host, chunk_queue_batch_messages, is_transient_queue_error, BackpressureOptions,
  report, with_send_backpressure,
}
use harlan_nuxt.CfJobs.Send.Chunks.{IsSplit, split, refused, chunk_queue_batch_messages-IsSplit}
use harlan_nuxt.CfJobs.Send.Backpressure.{with_send_backpressure_rule}
use harlan_nuxt.CfJobs.Publish.{
  SendOptions, CloudflareQueue, send_opts_of, send_slice, send_slices, to_message,
  send_batch_chunked, send_batch_messages_chunked,
}

-- Why a send throws: a message is oversized, or the queue's own `sendBatch` threw.
pub data IsRefusal {S E B : Type 0} (host : Host E B)
    (send_batch : List (SendMessage B) → Option ℕ → Action S E (Unit {0})) (e : E) : Type 0 where
  oversized : (n : ℕ) → e ≡ host.range_error n → IsRefusal host send_batch e
  by_queue :
      (slice : List (SendMessage B)) (d : Option ℕ) (s : S)
      → (send_batch slice d s).0 ≡ threw e
      → IsRefusal host send_batch e

-- Of `bodies` the queue has taken the part `sent`, in order and once, after what it had; either
-- the send returned and that is all of them, or it threw with a cause.
pub record IsSent {S E B : Type 0} (delivered : S → List B) (IsCause : E → Type 0) (bodies : List B)
    (s : S) (r : Outcome E (Unit {0}) × S) : Type 0 where
  pub sent : List B
  pub rest : List B
  pub cut : bodies ≡ sent ++ rest
  pub taken : delivered r.1 ≡ delivered s ++ sent
  pub outcome : ((r.0 ≡ returned tt) × (rest ≡ [])) ⊎ ((e : E) × (r.0 ≡ threw e) × IsCause e)

module _ {S E B : Type 0} (host : Host E B) (sleep : ℕ → S → S) (queue : CloudflareQueue S E B)
    (backpressure : BackpressureOptions S E) (delivered : S → List B)
    (send_batch : List (SendMessage B) → Option ℕ → Action S E (Unit {0})) where
  abbrev bodies : List (SendMessage B) → List B
  bodies = map (λ (m : SendMessage B). m.body)

  abbrev slices :
      Option ℕ
      → (SendMessage B → Option SendOptions)
      → List (List (SendMessage B))
      → Action S E (Unit {0})
  slices = send_slices host sleep queue backpressure

  abbrev IsCause : E → Type 0
  IsCause = IsRefusal host send_batch

  -- A slice is taken whole, or not at all.
  abbrev IsAtomic : List B → S → Outcome E (Unit {0}) × S → Type 0
  IsAtomic out s r =
      ((r.0 ≡ returned tt) × (delivered r.1 ≡ delivered s ++ out))
      ⊎ ((e : E) × (r.0 ≡ threw e) × (delivered r.1 ≡ delivered s) × IsCause e)

  IsSent-nothing :
      (out : List B) (e : E) (s : S) → IsCause e → IsSent delivered IsCause out s (threw e, s)
  IsSent-nothing out e s cause = record {
    sent = [];
    rest = out;
    cut = refl;
    taken = sym (append-nil _);
    outcome = inr (e, refl, cause);
  }

  module _ (present : queue.send_batch ≡ some send_batch)
      (accepts : (slice : List (SendMessage B)) (d : Option ℕ) (s : S)
        → (send_batch slice d s).0 ≡ returned tt
        → delivered (send_batch slice d s).1
          ≡ delivered s ++ map (λ (m : SendMessage B). m.body) slice)
      (rejects : (slice : List (SendMessage B)) (d : Option ℕ) (s : S) (e : E)
        → (send_batch slice d s).0 ≡ threw e
        → delivered (send_batch slice d s).1 ≡ delivered s)
      (asleep : (d : ℕ) (s : S) → delivered (sleep d s) ≡ delivered s)
      (told : (e : E) (n : ℕ) (b : Bool) (s : S)
        → (report backpressure.on_error e n b s).0 ≡ returned tt)
      (telling : (e : E) (n : ℕ) (b : Bool) (s : S)
        → delivered (report backpressure.on_error e n b s).1 ≡ delivered s) where
    guarded-IsAtomic :
        (slice : List (SendMessage B)) (d : Option ℕ) (s : S)
        → IsAtomic (bodies slice) s (
            with_send_backpressure
              (is_transient_queue_error host)
              sleep
              backpressure
              (send_batch slice d)
              s)
    guarded-IsAtomic slice d =
        with_send_backpressure_rule (is_transient_queue_error host) sleep backpressure
          (send_batch slice d) told (λ s r. IsAtomic (bodies slice) s r)
          (λ s u h. inl (refl, accepts slice d s h))
          (λ s e n h. inr (
            e,
            refl,
            telling e n false (send_batch slice d s).1 ∙ rejects slice d s e h,
            by_queue slice d s h,
          ))
          again
      where
        again :
            (s : S) (e : E) (n wait : ℕ) (r : Outcome E (Unit {0}) × S)
            → (send_batch slice d s).0 ≡ threw e
            → IsAtomic
                (bodies slice)
                (sleep wait (report backpressure.on_error e n true (send_batch slice d s).1).1)
                r
            → IsAtomic (bodies slice) s r
        again s e n wait r h =
            let back =
              asleep wait (report backpressure.on_error e n true (send_batch slice d s).1).1
              ∙ (telling e n true (send_batch slice d s).1 ∙ rejects slice d s e h) in
            rw back (λ i. i)

    send_slice-IsAtomic :
        (d : Option ℕ) (o : SendMessage B → Option SendOptions) (slice : List (SendMessage B))
        (s : S)
        → IsAtomic
            (bodies slice)
            s
            (send_slice host sleep queue backpressure queue.send_batch d o slice s)
    unfolding send_slice
    send_slice-IsAtomic d o slice s = rw present (guarded-IsAtomic slice d s)

    send_slices-IsSent :
        (d : Option ℕ) (o : SendMessage B → Option SendOptions) (xs : List (List (SendMessage B)))
        (s : S)
        → IsSent delivered IsCause (bodies (concat xs)) s (slices d o xs s)
    unfolding send_slices
    send_slices-IsSent d o [] s = record {
      sent = [];
      rest = [];
      cut = refl;
      taken = sym (append-nil _);
      outcome = inl (refl, refl);
    }
    send_slices-IsSent d o (x ∷ xs) s = elim (send_slice-IsAtomic d o x s) [
      | inl (ok, out) ↦
          let later =
            send_slices-IsSent d o xs
              (send_slice host sleep queue backpressure queue.send_batch d o x s).1 in
          rw ok (record {
            sent = bodies x ++ later.sent;
            rest = later.rest;
            cut =
                map-append _ _ _
                ∙ (ap (λ l. bodies x ++ l) later.cut
                    ∙ sym (append_assoc (bodies x) later.sent later.rest));
            taken =
                later.taken
                ∙ (ap (λ l. l ++ later.sent) out
                    ∙ append_assoc (delivered s) (bodies x) later.sent);
            outcome = later.outcome;
          })
      | inr (e, failed, same, cause) ↦ rw failed (record {
        sent = [];
        rest = bodies (x ++ concat xs);
        cut = refl;
        taken = same ∙ sym (append-nil _);
        outcome = inr (e, refl, cause);
      })
    ]

    -- Where `sendBatch` takes a slice whole or, when it throws, not at all, and neither the timer
    -- nor the observer sends or throws: after a batched send the queue holds, after what it had, a
    -- prefix of the given messages in order, each once whatever was retried. Either the send
    -- returned and that is all of them, or it threw the RangeError for an oversized message or an
    -- error that `sendBatch` throws. So for plain bodies, and for messages with their own options.
    pub send_batch-IsSent :
        (opts : SendOptions) (messages : List B) (own : List (SendMessage B)) (s : S)
        → IsSent delivered IsCause messages s
            (send_batch_chunked host sleep queue backpressure opts messages s)
          × IsSent delivered IsCause
              (bodies own)
              s
              (send_batch_messages_chunked host sleep queue backpressure own s)
    unfolding send_batch_chunked send_batch_messages_chunked
    send_batch-IsSent opts messages own s = (
      subst
          (λ bs.
            IsSent delivered IsCause bs s
              (send_batch_chunked host sleep queue backpressure opts messages s))
          (bodies-to_message messages)
          (go opts.delay_seconds (λ _. send_opts_of opts) (map (to_message opts) messages)
            (chunk_queue_batch_messages-IsSplit host (map (to_message opts) messages))),
      go none _ own (chunk_queue_batch_messages-IsSplit host own),
    )
      where
        bodies-to_message : (ms : List B) → bodies (map (to_message opts) ms) ≡ ms
        bodies-to_message [] = refl
        bodies-to_message (m ∷ ms) = ap (λ l. m ∷ l) (bodies-to_message ms)

        go :
            (d : Option ℕ) (o : SendMessage B → Option SendOptions) (ms : List (SendMessage B))
            → IsSplit host ms (chunk_queue_batch_messages host ms)
            → IsSent delivered IsCause
                (bodies ms)
                s
                (continue (slices d o) (chunk_queue_batch_messages host ms) s)
        go d o ms (split chunks fits e keep all) =
            rw e (rw (← keep) (send_slices-IsSent d o chunks s))
        go d o ms (refused n over e) =
            rw e (IsSent-nothing (bodies ms) (host.range_error n) s (oversized n refl))
