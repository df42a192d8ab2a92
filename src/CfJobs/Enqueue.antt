-- ===== src/CfJobs/Enqueue.antt =====
-- `enqueueDurableJob` of packages/nuxt-cf-jobs/src/runtime/server/outbox.ts: a row is staged, its
-- message is sent, and the outcome is recorded, where the repository can stage and record.
pub mod Outcomes
use harlan_nuxt.Prelude.{
  ℕ, Bool, true, false, Option, none, some, List, [], ◌∷◌, String, ◌==◌, if◌then◌else◌,
}
use harlan_nuxt.Prelude.Effect.{Outcome, Action, pure, ◌>>=◌, ◌>>◌, try_catch}
use harlan_nuxt.CfJobs.Lifecycle.{DurableJobRecord}
use harlan_nuxt.CfJobs.Outbox.{PublicationRepository, QueuePublisher, OutboxErrors}

pub data EnqueueDurableJobResult (E : Type 0) : Type 0 where
  enqueued duplicate not_dispatched : EnqueueDurableJobResult E
  dispatch_failed : (cause : E) → EnqueueDurableJobResult E

-- A repository that stages is one that also records publications.
pub record EnqueueRepository (W E : Type 0) : Type 0 where
  pub insert_job : DurableJobRecord → Action W E Bool
  pub stage_job : Option (DurableJobRecord → Action W E Bool)
  pub publication : Option (PublicationRepository W E)

pub record Staging (W E : Type 0) : Type 0 where
  pub stage : DurableJobRecord → Action W E Bool
  pub records : PublicationRepository W E

abbrev pub staging_of : {W E : Type 0} → EnqueueRepository W E → Option (Staging W E)
staging_of repository = elim repository.stage_job [
  | none ↦ none
  | some stage ↦ elim repository.publication [
    | none ↦ none
    | some records ↦ some (record { stage = stage; records = records })
  ]
]

module _ {W E : Type 0} (errors : OutboxErrors E) (publisher : QueuePublisher W E)
    (job : DurableJobRecord) (delay_seconds : Option ℕ) where
  abbrev pub insert_row : EnqueueRepository W E → Option (Staging W E) → Action W E Bool
  insert_row repository none = repository.insert_job job
  insert_row repository (some staging) = staging.stage job

  -- A dispatch failure is recorded where the repository can.
  abbrev pub note_dispatch_failure : Option (Staging W E) → E → Action W E (Unit {0})
  note_dispatch_failure none cause = pure tt
  note_dispatch_failure (some staging) cause =
      staging.records.note_jobs_dispatch_failure (job.id ∷ []) cause none >>= λ updated. pure tt

  -- What follows a send.
  unfoldable pub after_enqueue :
      Option (Staging W E) → Bool → Action W E (EnqueueDurableJobResult E)
  after_enqueue staging false =
      note_dispatch_failure staging (errors.binding_unavailable job.queue) >> pure not_dispatched
  after_enqueue none true = pure enqueued
  after_enqueue (some staging) true = do
    updated ← staging.records.mark_jobs_published (job.id ∷ []) none
    pure (if updated == 1 then enqueued else dispatch_failed (errors.published_only updated 1))

  -- The `catch` also takes what the `then` throws.
  unfoldable pub send_and_record : Option (Staging W E) → Action W E (EnqueueDurableJobResult E)
  unfolding after_enqueue
  send_and_record staging =
      try_catch
        (publisher.send job.queue (record { job_id = job.id; queue = job.queue }) delay_seconds
          >>= after_enqueue staging)
        pure (λ cause. note_dispatch_failure staging cause >> pure (dispatch_failed cause))

  unfoldable pub enqueue_durable_job :
      EnqueueRepository W E → Action W E (EnqueueDurableJobResult E)
  unfolding send_and_record
  enqueue_durable_job repository = do
    inserted ← insert_row repository (staging_of repository)
    if inserted then send_and_record (staging_of repository) else pure duplicate
