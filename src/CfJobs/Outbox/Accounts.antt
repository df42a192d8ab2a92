-- ===== src/CfJobs/Outbox/Accounts.antt =====
-- A publication accounts for every row.
use mathlib.Core.List.{map-map}
use harlan_nuxt.Prelude.{
  ℕ, ◌≡◌, refl, ap, ◌∙◌, ◌≢◌, inl, inr, Bool, true, false, Bool-cases, Option, List, [], ◌∷◌, map,
  keep, All, String, str_eq,
}
use harlan_nuxt.Prelude.Effect.{returned, Outcome-cases}
use harlan_nuxt.CfJobs.Outbox.{
  JobRef, QueueJobMessage, QueueGroups, group_queue_job_messages_by_queue, QueuePublisher,
  PublicationRepository, OutboxErrors, PublishStatus, publish_failed, PublishResult, map_all,
  note_failure, after_send, publish_group, publish_durable_job_batch,
}
use harlan_nuxt.CfJobs.Outbox.Groups.{
  messages_of, is_for, IsDistinct, group_queue_job_messages_by_queue_lem,
}

-- The queue and the ids of each result.
abbrev pub reported : {E : Type 0} → List (PublishResult E) → List (String × List String)
reported {E} = map (λ (r : PublishResult E). (r.queue, r.job_ids))

abbrev ids_by_queue : QueueGroups → List (String × List String)
ids_by_queue =
    map (λ (g : String × List QueueJobMessage). (g.0, map (λ (m : QueueJobMessage). m.job_id) g.1))

messages_of-ids_by_queue :
    (queue : String) (groups : QueueGroups)
    → messages_of queue (ids_by_queue groups)
      ≡ map (λ (m : QueueJobMessage). m.job_id) (messages_of queue groups)
unfolding messages_of
messages_of-ids_by_queue queue [] = refl
messages_of-ids_by_queue queue ((q, ms) ∷ groups) = elim (Bool-cases (str_eq q queue)) [
  | inl t ↦ rw t refl
  | inr f ↦ rw f (messages_of-ids_by_queue queue groups)
]

ids_by_queue-All :
    (P : String → Type 0) (groups : QueueGroups)
    → All (λ g. P g.0) groups
    → All (λ g. P g.0) (ids_by_queue groups)
ids_by_queue-All P [] h = tt
ids_by_queue-All P (g ∷ groups) h = (h.0, ids_by_queue-All P groups h.1)

ids_by_queue-IsDistinct :
    (groups : QueueGroups) → IsDistinct groups → IsDistinct (ids_by_queue groups)
ids_by_queue-IsDistinct [] d = tt
ids_by_queue-IsDistinct ((q, ms) ∷ groups) d =
    (ids_by_queue-All (λ x. x ≢ q) groups d.0, ids_by_queue-IsDistinct groups d.1)

module _ {W E : Type 0} (errors : OutboxErrors E) (repository : PublicationRepository W E)
    (publisher : QueuePublisher W E) where
  note_failure-returns :
      (ids : List String) (cause : E) (now : Option ℕ) (whole : PublishStatus E) (lost : E → E)
      (w : W)
      → (status : PublishStatus E) × ((note_failure errors repository publisher ids cause now whole
            lost w).0
          ≡ returned status)
  unfolding note_failure
  note_failure-returns ids cause now whole lost w =
      elim (Outcome-cases (repository.note_jobs_dispatch_failure ids cause now w).0) [
        | inl (updated, e) ↦ rw e (_, refl)
        | inr (evidence, e) ↦ rw e (_, refl)
      ]

  after_send-returns :
      (queue : String) (ids : List String) (now : Option ℕ) (accepted : Bool) (w : W)
      → (status : PublishStatus E) × ((after_send errors repository publisher queue ids now accepted
            w).0
          ≡ returned status)
  unfolding after_send
  after_send-returns queue ids now false w = note_failure-returns ids _ now _ _ w
  after_send-returns queue ids now true w =
      elim (Outcome-cases (repository.mark_jobs_published ids now w).0) [
        | inl (updated, e) ↦ rw e (_, refl)
        | inr (cause, e) ↦ rw e (_, refl)
      ]

  publish_group-returns :
      (delay now : Option ℕ) (group : String × List QueueJobMessage) (w : W)
      → (status : PublishStatus E) × ((publish_group errors repository publisher delay now group
            w).0
          ≡ returned (record {
            queue = group.0;
            job_ids = map (λ (m : QueueJobMessage). m.job_id) group.1;
            status = status;
          }))
  unfolding publish_group
  publish_group-returns delay now (queue, messages) w =
      elim (Outcome-cases (publisher.send_batch queue messages delay w).0) [
        | inl (accepted, e) ↦
            let (status, f) =
              after_send-returns queue (map (λ (m : QueueJobMessage). m.job_id) messages) now
                accepted (publisher.send_batch queue messages delay w).1 in
            (status, rw e (rw f refl))
        | inr (cause, e) ↦
            let (status, f) =
              note_failure-returns (map (λ (m : QueueJobMessage). m.job_id) messages) cause now
                (publish_failed cause) (λ evidence. errors.send_and_evidence_failed cause evidence)
                (publisher.send_batch queue messages delay w).1 in
            (status, rw e (rw f refl))
      ]

  publish_all-returns :
      (delay now : Option ℕ) (groups : QueueGroups) (w : W)
      → (results : List (PublishResult E)) × ((map_all
            (publish_group errors repository publisher delay now)
            groups
            w).0
          ≡ returned results)
        × (reported results ≡ ids_by_queue groups)
  publish_all-returns delay now [] w = ([], refl, refl)
  publish_all-returns delay now (group ∷ groups) w =
      let (status, e) = publish_group-returns delay now group w in
      let (results, f, same) =
        publish_all-returns delay now groups
          (publish_group errors repository publisher delay now group w).1 in
      (
        record {
          queue = group.0;
          job_ids = map (λ (m : QueueJobMessage). m.job_id) group.1;
          status = status;
        }
            ∷ results,
        rw e (rw f refl),
        ap (λ l. (group.0, map (λ (m : QueueJobMessage). m.job_id) group.1) ∷ l) same,
      )

  -- Whatever the repository and the publisher do, a publication returns: one result for each queue
  -- of the rows, and the result of a queue lists the ids of the rows of that queue, each once and
  -- in their order.
  pub publish_durable_job_batch-accounts :
      (rows : List JobRef) (delay now : Option ℕ) (w : W)
      → (results : List (PublishResult E)) × ((publish_durable_job_batch errors repository publisher
            rows delay now w).0
          ≡ returned results)
        × IsDistinct (reported results)
        × ((queue : String)
            → messages_of queue (reported results)
              ≡ map (λ (row : JobRef). row.id) (keep (is_for queue) rows))
  unfolding publish_durable_job_batch
  publish_durable_job_batch-accounts rows delay now w =
      let (results, e, same) =
        publish_all-returns delay now (group_queue_job_messages_by_queue rows) w in
      let (distinct, held) = group_queue_job_messages_by_queue_lem rows in
      (
        results,
        e,
        rw same (ids_by_queue-IsDistinct _ distinct),
        λ queue. rw same (
            messages_of-ids_by_queue queue (group_queue_job_messages_by_queue rows)
            ∙ (ap (map (λ (m : QueueJobMessage). m.job_id)) (held queue) ∙ map-map _ _ _)),
      )
