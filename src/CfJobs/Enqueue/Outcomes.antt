-- ===== src/CfJobs/Enqueue/Outcomes.antt =====
-- What the result of an enqueue says of the row and of its message.
use harlan_nuxt.Prelude.{
  ℕ, ◌≡◌, refl, ap, ◌∙◌, ◌⊎◌, inl, inr, Bool, true, false, Bool-cases, Option, none, some, [], ◌∷◌,
  ◌==◌, ==_iff,
}
use harlan_nuxt.Prelude.Effect.{Outcome, returned, threw, Outcome-cases, pure, ◌>>◌, try_catch}
use harlan_nuxt.CfJobs.Lifecycle.{DurableJobRecord}
use harlan_nuxt.CfJobs.Outbox.{QueuePublisher, OutboxErrors}
use harlan_nuxt.CfJobs.Enqueue.{
  EnqueueDurableJobResult, enqueued, duplicate, not_dispatched, dispatch_failed, EnqueueRepository,
  Staging, staging_of, insert_row, note_dispatch_failure, after_enqueue, send_and_record,
  enqueue_durable_job,
}

module _ {W E : Type 0} (errors : OutboxErrors E) (publisher : QueuePublisher W E)
    (job : DurableJobRecord) (delay_seconds : Option ℕ) where
  -- The one row is marked published, where the repository records that.
  abbrev pub IsMarked : Option (Staging W E) → Type 0
  IsMarked none = Unit
  IsMarked (some staging) =
      (s : W) × ((staging.records.mark_jobs_published (job.id ∷ []) none s).0 ≡ returned 1)

  abbrev Sends : Bool → Type 0
  Sends accepted =
      (s : W) × ((publisher.send job.queue (record { job_id = job.id; queue = job.queue })
          delay_seconds s).0
        ≡ returned accepted)

  -- A write of the failure's evidence threw.
  abbrev pub IsUnrecorded : Option (Staging W E) → E → Type 0
  IsUnrecorded none e = ⊥
  IsUnrecorded (some staging) e =
      (cause : E) × (s : W) × ((staging.records.note_jobs_dispatch_failure (job.id ∷ []) cause none
          s).0
        ≡ threw e)

  -- What an outcome is the evidence of, once the row is inserted.
  abbrev pub IsEvident : Option (Staging W E) → Outcome E (EnqueueDurableJobResult E) → Type 0
  IsEvident staging (returned enqueued) = Sends true × IsMarked staging
  IsEvident staging (returned not_dispatched) = Sends false
  IsEvident staging (returned duplicate) = ⊥
  IsEvident staging (returned (dispatch_failed cause)) = Unit
  IsEvident staging (threw e) = IsUnrecorded staging e

  note_cases :
      (staging : Option (Staging W E)) (cause : E) (s : W)
      → ((note_dispatch_failure errors publisher job delay_seconds staging cause s).0 ≡ returned tt)
        ⊎ ((e : E) × ((note_dispatch_failure errors publisher job delay_seconds staging cause s).0
              ≡ threw e)
            × IsUnrecorded staging e)
  note_cases none cause s = inl refl
  note_cases (some staging) cause s =
      elim (Outcome-cases
        (staging.records.note_jobs_dispatch_failure (job.id ∷ []) cause none s).0) [
          | inl (n, h) ↦ rw h (inl refl)
          | inr (e, h) ↦ inr (e, rw h refl, (cause, s, h))
        ]

  failed_send :
      (staging : Option (Staging W E)) (cause : E) (s : W)
      → IsEvident staging
          ((note_dispatch_failure errors publisher job delay_seconds staging cause
              >> pure (dispatch_failed cause))
            s).0
  failed_send staging cause s = elim (note_cases staging cause s) [
    | inl n ↦ rw n tt
    | inr (e, n, u) ↦ rw n u
  ]

  send_and_record_lem :
      (staging : Option (Staging W E)) (w : W)
      → IsEvident staging (send_and_record errors publisher job delay_seconds staging w).0
  unfolding send_and_record after_enqueue
  send_and_record_lem staging w =
      elim (Outcome-cases
        (publisher.send job.queue (record { job_id = job.id; queue = job.queue }) delay_seconds
          w).0) [
            | inr (cause, h) ↦ rw h (failed_send staging cause _)
            | inl (false, h) ↦
                rw h
                  (elim (note_cases staging (errors.binding_unavailable job.queue)
                    (publisher.send job.queue (record { job_id = job.id; queue = job.queue })
                      delay_seconds w).1) [
                        | inl n ↦ rw n (w, h)
                        | inr (e, n, u) ↦ rw n (failed_send staging e _)
                      ])
            | inl (true, h) ↦ rw h (accepted staging h)
          ]
    where
      accepted :
          (staging : Option (Staging W E))
          → (publisher.send job.queue
              (record { job_id = job.id; queue = job.queue })
              delay_seconds
              w).0
            ≡ returned true
          → let s =
              (publisher.send job.queue
                (record { job_id = job.id; queue = job.queue })
                delay_seconds
                w).1 in
            IsEvident staging
              (try_catch
                (after_enqueue errors publisher job delay_seconds staging true)
                pure
                (λ cause.
                  note_dispatch_failure errors publisher job delay_seconds staging cause
                  >> pure (dispatch_failed cause))
                s).0
      accepted none h = ((w, h), tt)
      accepted (some staging) h =
          let s =
            (publisher.send job.queue (record { job_id = job.id; queue = job.queue }) delay_seconds
              w).1 in
          elim (Outcome-cases (staging.records.mark_jobs_published (job.id ∷ []) none s).0) [
            | inr (e, m) ↦ rw m (failed_send (some staging) e _)
            | inl (updated, m) ↦ elim (Bool-cases (updated == 1)) [
              | inl t ↦ rw m (rw t ((w, h), (s, m ∙ ap returned ((==_iff updated 1).0 t))))
              | inr f ↦ rw m (rw f tt)
            ]
          ]

  -- An enqueue whose insertion throws or finds the row throws or answers `duplicate`, over the
  -- state that the insertion left: nothing is sent. With a new row, it answers `enqueued` only where
  -- the publisher sent the message and, if the repository records publications, one row was marked,
  -- and `not_dispatched` only where the publisher answered that it did not send; it throws only
  -- what a write of a failure's evidence throws.
  pub enqueue_durable_job_lem :
      (repository : EnqueueRepository W E) (w : W)
      → let staging = staging_of repository in
        let inserted = insert_row errors publisher job delay_seconds repository staging w in
        let end = enqueue_durable_job errors publisher job delay_seconds repository w in
        ((e : E) × (inserted.0 ≡ threw e) × (end ≡ (threw e, inserted.1)))
        ⊎ ((inserted.0 ≡ returned false) × (end ≡ (returned duplicate, inserted.1)))
        ⊎ ((inserted.0 ≡ returned true) × IsEvident staging end.0)
  unfolding enqueue_durable_job
  enqueue_durable_job_lem repository w =
      elim (Outcome-cases
        (insert_row errors publisher job delay_seconds repository (staging_of repository) w).0) [
          | inr (e, h) ↦ inl (e, h, rw h refl)
          | inl (false, h) ↦ inr (inl (h, rw h refl))
          | inl (true, h) ↦ inr (inr (h, rw h (send_and_record_lem (staging_of repository) _)))
        ]
