-- ===== src/CfJobs/Recovery.antt =====
-- The recovery sweep: packages/nuxt-cf-jobs/src/runtime/server/recovery.ts. The methods of the
-- repository are optional and, with the publisher, parameters over a state `W`. The clock is taken
-- to be past the spans that are subtracted from it (`-` stops at 0).
pub mod Unique
pub mod Dispatchable
use Prim.Native.String.{◌++◌ as append}
use harlan_nuxt.Prelude.{
  ℕ, ◌-◌, ◌*◌, Bool, true, false, not, Option, none, some, List, [], ◌∷◌, ◌++◌, map, keep, length,
  or_else, String, str_eq, ltb, if◌then◌else◌,
}
use harlan_nuxt.Prelude.Int.{ℤ, pos, pos_part}
use harlan_nuxt.Prelude.Effect.{Outcome, Action, pure, ◌>>=◌, ◌>>◌}
use harlan_nuxt.CfJobs.JobStore.{is_member, limit_to}
use harlan_nuxt.CfJobs.Sweep.{RecoveryQuery, unpublished, published, StaleQuery}
use harlan_nuxt.CfJobs.Outbox.{
  JobRef, QueuePublisher, PublicationRepository, OutboxErrors, DispatchBatchResult, sent,
  publish_durable_job_batch, dispatch_durable_job_batch, as_dispatch,
}

pub record RecoveryRepository (W E : Type 0) : Type 0 where
  pub fail_stale_reserved_jobs : Option (StaleQuery → Action W E (List JobRef))
  pub find_stale_reserved_jobs : Option ((stale_before limit : ℕ) → Action W E (List JobRef))
  pub release_stale_reserved_jobs : Option (StaleQuery → Action W E ℕ)
  pub find_dispatchable_jobs : Option (RecoveryQuery → Action W E (List JobRef))
  pub find_stale_released_jobs :
      Option ((now stale_released_before limit : ℕ) → Action W E (List JobRef))
  pub note_orphan_redispatch : Option (List String → (at : ℕ) → Action W E ℕ)
  pub publication : Option (PublicationRepository W E)

pub record RecoverOptions (W E : Type 0) : Type 0 where
  pub stale_seconds : Option ℕ
  pub orphaned_seconds : Option ℕ
  pub redelivery_grace_seconds : Option ℤ
  pub redispatch_grace_seconds : Option ℤ
  pub limit : Option ℕ
  pub stale_error : Option String
  pub on_terminalized : Option (List JobRef → Action W E (Unit {0}))

pub record RecoverResult (E : Type 0) : Type 0 where
  pub released : ℕ
  pub terminalized_jobs : List JobRef
  pub stale : List JobRef
  pub orphaned : List JobRef
  pub dispatchable : List JobRef
  pub dispatch_results : List (DispatchBatchResult E)
  pub dispatched : ℕ
  pub redispatch_noted : ℕ

-- The first row of each id, given the ids that were seen.
unfoldable pub unique_from : List String → List JobRef → List JobRef
unique_from seen [] = []
unique_from seen (job ∷ jobs) =
    let rest = unique_from seen jobs in
    let more = unique_from (job.id ∷ seen) jobs in
    if is_member job.id seen then rest else job ∷ more

unfoldable pub unique_jobs : List JobRef → List JobRef
unfolding unique_from
unique_jobs jobs = unique_from [] jobs

abbrev pub ids : List JobRef → List String
ids = map (λ (job : JobRef). job.id)

-- The rows to send: with a redelivery grace, the original message of a row that was released in
-- this sweep is left the time to claim it.
unfoldable pub dispatchable_jobs :
    (grace limit : ℕ) (fresh released_now stale_released orphaned : List JobRef) → List JobRef
unfolding unique_jobs
dispatchable_jobs grace limit fresh released_now stale_released orphaned = limit_to limit (
    unique_jobs (
      if ltb 0 grace
      then fresh
        ++ (stale_released ++ keep (λ job. not (is_member job.id (ids released_now))) orphaned)
      else fresh ++ (released_now ++ (stale_released ++ orphaned))))

-- A method that the repository lacks.
abbrev when_given {ℓ} :
    {W E A : Type 0} {F : Type ℓ} → Option F → A → (F → Action W E A) → Action W E A
when_given none default call = pure default
when_given (some method) default call = call method

abbrev is_sent : {E : Type 0} → DispatchBatchResult E → Bool
is_sent (sent queue) = true
is_sent _ = false

abbrev queue_of_sent : {E : Type 0} → List (DispatchBatchResult E) → List String
queue_of_sent [] = []
queue_of_sent (sent queue ∷ results) = queue ∷ queue_of_sent results
queue_of_sent (_ ∷ results) = queue_of_sent results

module _ {W E : Type 0} (errors : OutboxErrors E) (repository : RecoveryRepository W E)
    (publisher : QueuePublisher W E) (opts : RecoverOptions W E) (now : ℕ) where
  abbrev limit : ℕ
  limit = or_else opts.limit 100

  abbrev stale_before : ℕ
  stale_before = now - or_else opts.stale_seconds 900

  abbrev orphaned_seconds : ℕ
  orphaned_seconds = or_else opts.orphaned_seconds (6 * 60 * 60)

  abbrev grace : ℕ
  grace = pos_part (or_else opts.redelivery_grace_seconds (pos 120))

  abbrev redispatch_grace : ℕ
  redispatch_grace = pos_part (or_else opts.redispatch_grace_seconds (pos orphaned_seconds))

  abbrev exhausted_error : Option String → String
  exhausted_error none = "exhausted retries"
  exhausted_error (some error) = append error ": exhausted retries"

  abbrev before : ℕ → Option ℕ
  before span = if ltb 0 span then some (now - span) else none

  unfoldable pub fail_stale : Action W E (List JobRef)
  fail_stale = when_given repository.fail_stale_reserved_jobs [] (λ method. method (record {
    now = now;
    stale_before = stale_before;
    available_at = none;
    error = some (exhausted_error opts.stale_error);
    limit = some limit;
  }))

  abbrev tell_terminalized : List JobRef → Action W E (Unit {0})
  tell_terminalized [] = pure tt
  tell_terminalized (job ∷ jobs) = when_given opts.on_terminalized tt (λ hook. hook (job ∷ jobs))

  unfoldable pub release_stale : Action W E ℕ
  release_stale = when_given repository.release_stale_reserved_jobs 0 (λ method. method (record {
    now = now;
    stale_before = stale_before;
    available_at = some now;
    error = some (or_else opts.stale_error "stale-reservation");
    limit = some limit;
  }))

  unfoldable pub find_unpublished : Action W E (List JobRef)
  find_unpublished = when_given repository.find_dispatchable_jobs [] (λ method. method (record {
    now = now;
    created_before = none;
    stale_released_before = none;
    redispatched_before = none;
    publication = unpublished;
    limit = some limit;
  }))

  unfoldable pub find_stale_released : (remaining : ℕ) → Action W E (List JobRef)
  find_stale_released remaining =
      if ltb 0 remaining
      then when_given repository.find_stale_released_jobs []
          (λ method. method now (now - grace) remaining)
      else pure []

  unfoldable pub find_orphaned : (remaining : ℕ) → Action W E (List JobRef)
  find_orphaned remaining =
      if ltb 0 remaining
      then when_given repository.find_dispatchable_jobs [] (λ method. method (record {
        now = now;
        created_before = some (now - orphaned_seconds);
        stale_released_before = before grace;
        redispatched_before = before redispatch_grace;
        publication = published;
        limit = some remaining;
      }))
      else pure []

  unfoldable pub send_dispatchable : List JobRef → Action W E (List (DispatchBatchResult E))
  send_dispatchable jobs = elim repository.publication [
    | some publication ↦
        publish_durable_job_batch errors publication publisher jobs none (some now) >>= λ results.
        pure (map as_dispatch results)
    | none ↦ dispatch_durable_job_batch publisher jobs none
  ]

  abbrev note_all : List String → Action W E ℕ
  note_all [] = pure 0
  note_all (id ∷ rest) =
      when_given repository.note_orphan_redispatch 0 (λ method. method (id ∷ rest) now)

  unfoldable pub recover_durable_jobs : Action W E (RecoverResult E)
  unfolding fail_stale release_stale find_unpublished find_stale_released find_orphaned
      send_dispatchable dispatchable_jobs
  recover_durable_jobs = do
    terminalized ← fail_stale
    tell_terminalized terminalized
    stale ← when_given repository.find_stale_reserved_jobs [] (λ method. method stale_before limit)
    released ← release_stale
    fresh ← find_unpublished
    stale_released ← find_stale_released (limit - length fresh)
    orphaned ← find_orphaned (limit - length fresh - length stale_released)
    results ←
        send_dispatchable
          (dispatchable_jobs grace limit fresh (limit_to released stale) stale_released orphaned)
    noted ← note_all (
        ids (
          keep (λ job. is_member job.queue (queue_of_sent results))
            (dispatchable_jobs grace limit fresh (limit_to released stale) stale_released
              orphaned)))
    pure (record {
      released = released;
      terminalized_jobs = terminalized;
      stale = stale;
      orphaned = orphaned;
      dispatchable =
          dispatchable_jobs grace limit fresh (limit_to released stale) stale_released orphaned;
      dispatch_results = results;
      dispatched = length (keep is_sent results);
      redispatch_noted = noted;
    })
