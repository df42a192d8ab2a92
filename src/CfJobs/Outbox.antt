-- ===== src/CfJobs/Outbox.antt =====
-- Publication of durable jobs: packages/nuxt-cf-jobs/src/runtime/server/outbox.ts, from the
-- grouping of rows by queue to the enqueue of a job and the sweep of the dispatchable ones. The
-- repository, the publisher and the errors are parameters over a state `W`.
pub mod Groups
pub mod Accounts
use harlan_nuxt.Prelude.{
  ℕ, Bool, true, false, Option, none, some, List, [], ◌∷◌, ◌++◌, map, length, String, str_eq, ◌==◌,
  if◌then◌else◌,
}
use harlan_nuxt.Prelude.Effect.{Outcome, returned, threw, Action, pure, ◌>>=◌, ◌>>◌, try_catch}

-- The part of a row that a publication reads.
pub record JobRef : Type 0 where
  pub id : String
  pub queue : String

pub record QueueJobMessage : Type 0 where
  pub job_id : String
  pub queue : String

abbrev pub to_queue_job_message : JobRef → QueueJobMessage
to_queue_job_message row = record { job_id = row.id; queue = row.queue }

-- A Map of the messages of each queue, in the order of its insertions.
abbrev pub QueueGroups : Type 0
QueueGroups = List (String × List QueueJobMessage)

unfoldable pub push_message : String → QueueJobMessage → QueueGroups → QueueGroups
push_message queue message [] = (queue, message ∷ []) ∷ []
push_message queue message ((q, messages) ∷ groups) =
    if str_eq q queue
    then (q, messages ++ message ∷ []) ∷ groups
    else (q, messages) ∷ push_message queue message groups

unfoldable pub group_from : QueueGroups → List JobRef → QueueGroups
unfolding push_message
group_from groups [] = groups
group_from groups (r ∷ rs) = group_from (push_message r.queue (to_queue_job_message r) groups) rs

unfoldable pub group_queue_job_messages_by_queue : List JobRef → QueueGroups
unfolding group_from
group_queue_job_messages_by_queue records = group_from [] records

pub record QueuePublisher (W E : Type 0) : Type 0 where
  pub send : String → QueueJobMessage → (delay_seconds : Option ℕ) → Action W E Bool
  pub send_batch : String → List QueueJobMessage → (delay_seconds : Option ℕ) → Action W E Bool

-- The two writes that record a publication: the ids, the cause, the time.
pub record PublicationRepository (W E : Type 0) : Type 0 where
  pub mark_jobs_published : List String → Option ℕ → Action W E ℕ
  pub note_jobs_dispatch_failure : List String → E → Option ℕ → Action W E ℕ

-- The errors that the code makes.
pub record OutboxErrors (E : Type 0) : Type 0 where
  pub binding_unavailable : (queue : String) → E
  pub failure_recorded_for : (cause : E) → (updated expected : ℕ) → E
  pub send_and_evidence_failed : (cause evidence : E) → E
  pub published_only : (updated expected : ℕ) → E

pub data DispatchBatchResult (E : Type 0) : Type 0 where
  sent not_dispatched : (queue : String) → DispatchBatchResult E
  failed : (queue : String) (cause : E) → DispatchBatchResult E

pub data PublishStatus (E : Type 0) : Type 0 where
  published not_published : PublishStatus E
  publish_failed state_failed : (cause : E) → PublishStatus E

pub record PublishResult (E : Type 0) : Type 0 where
  pub queue : String
  pub job_ids : List String
  pub status : PublishStatus E

-- The calls of the array's functions one after the other; how the platform interleaves their
-- awaits is not modelled.
abbrev pub map_all : {W E A B : Type 0} → (A → Action W E B) → List A → Action W E (List B)
map_all f [] = pure []
map_all f (x ∷ xs) = do y ← f x; ys ← map_all f xs; pure (y ∷ ys)

module _ {W E : Type 0} (errors : OutboxErrors E) (repository : PublicationRepository W E)
    (publisher : QueuePublisher W E) where
  abbrev ids_of : List QueueJobMessage → List String
  ids_of = map (λ (m : QueueJobMessage). m.job_id)

  -- The evidence of a failed send: `whole` where every row has it.
  unfoldable pub note_failure :
      List String
      → E
      → Option ℕ
      → (whole : PublishStatus E) → (lost : E → E) → Action W E (PublishStatus E)
  note_failure job_ids cause now whole lost =
      try_catch (repository.note_jobs_dispatch_failure job_ids cause now)
        (λ updated. pure (
          if updated == length job_ids
          then whole
          else state_failed (errors.failure_recorded_for cause updated (length job_ids))))
        (λ evidence. pure (state_failed (lost evidence)))

  unfoldable pub after_send : String → List String → Option ℕ → Bool → Action W E (PublishStatus E)
  unfolding note_failure
  after_send queue job_ids now false =
      note_failure job_ids (errors.binding_unavailable queue) now not_published
        (λ evidence. evidence)
  after_send queue job_ids now true =
      try_catch (repository.mark_jobs_published job_ids now)
        (λ updated. pure (
          if updated == length job_ids
          then published
          else state_failed (errors.published_only updated (length job_ids))))
        (λ cause. pure (state_failed cause))

  unfoldable pub publish_group :
      Option ℕ → Option ℕ → String × List QueueJobMessage → Action W E (PublishResult E)
  unfolding after_send note_failure
  publish_group delay_seconds now (queue, messages) = do
    status ←
        try_catch (publisher.send_batch queue messages delay_seconds)
          (after_send queue (ids_of messages) now)
          (λ cause.
            note_failure (ids_of messages) cause now (publish_failed cause)
              (λ evidence. errors.send_and_evidence_failed cause evidence))
    pure (record { queue = queue; job_ids = ids_of messages; status = status })

  unfoldable pub publish_durable_job_batch :
      List JobRef → Option ℕ → Option ℕ → Action W E (List (PublishResult E))
  unfolding publish_group group_queue_job_messages_by_queue
  publish_durable_job_batch records delay_seconds now =
      map_all (publish_group delay_seconds now) (group_queue_job_messages_by_queue records)

module _ {W E : Type 0} (publisher : QueuePublisher W E) where
  unfoldable pub dispatch_group :
      Option ℕ → String × List QueueJobMessage → Action W E (DispatchBatchResult E)
  dispatch_group delay_seconds (queue, messages) =
      try_catch (publisher.send_batch queue messages delay_seconds)
        (λ accepted. pure (if accepted then sent queue else not_dispatched queue))
        (λ cause. pure (failed queue cause))

  unfoldable pub dispatch_durable_job_batch :
      List JobRef → Option ℕ → Action W E (List (DispatchBatchResult E))
  unfolding dispatch_group group_queue_job_messages_by_queue
  dispatch_durable_job_batch records delay_seconds =
      map_all (dispatch_group delay_seconds) (group_queue_job_messages_by_queue records)

-- How a publication is reported as a dispatch.
unfoldable pub as_dispatch : {E : Type 0} → PublishResult E → DispatchBatchResult E
as_dispatch result = elim result.status [
  | published ↦ sent result.queue
  | not_published ↦ not_dispatched result.queue
  | publish_failed cause ↦ failed result.queue cause
  | state_failed cause ↦ failed result.queue cause
]
