-- ===== src/CfJobs/Batch.antt =====
-- The creation of a batch of jobs, over the store's contract: `createJobBatch` and
-- `createParentJobBatch` of packages/nuxt-cf-jobs/src/runtime/server/batch.ts. JSON and the random
-- id are parameters.
use mathlib.Core.Option
use harlan_nuxt.Prelude.{
  ℕ, Bool, false, Option, none, some, List, [], ◌∷◌, map, length, or_else, String, str_eq, ◌==◌,
  if◌then◌else◌,
}
use harlan_nuxt.Prelude.Effect.{Action, pure, throw, ◌>>=◌, ◌>>◌, try_catch}
use harlan_nuxt.CfJobs.Payload.{Json}
use harlan_nuxt.CfJobs.Lifecycle.{DurableJobRecord}
use harlan_nuxt.CfJobs.BatchStore.{BatchRow, InsertBatchInput}
use harlan_nuxt.CfJobs.Continuation.{Continuation, serialize_durable_job_continuation}
use harlan_nuxt.CfJobs.Outbox.{
  JobRef, QueuePublisher, PublicationRepository, OutboxErrors, DispatchBatchResult, as_dispatch,
  publish_durable_job_batch, dispatch_durable_job_batch,
}

-- The store's contract, over a state `S`. What a store need not have is optional.
pub record DurableBatchStore (S E : Type 0) : Type 0 where
  pub insert_batch : InsertBatchInput → Action S E (Unit {0})
  pub insert_batch_with_jobs : InsertBatchInput → List DurableJobRecord → Action S E (Unit {0})
  pub publication : Option (PublicationRepository S E)
  pub decrement_pending : String → (failed : Bool) → Action S E (Option BatchRow)
  pub get_job_batch_id : String → Action S E (Option String)
  pub find_orphaned_batches : Option (ℕ → Option ℕ → Action S E (List BatchRow))
  pub find_unrecoverable_orphaned_batches : Option (ℕ → Option ℕ → Action S E (List BatchRow))
  pub finish_orphaned_batch : Option (String → (now : Option ℕ) → Action S E (Option BatchRow))

-- An empty text counts as none.
abbrev pub filled : Option String → Option String
filled none = none
filled (some s) = if str_eq s "" then none else some s

-- A delay of 0 counts as none.
abbrev pub given_delay : Option ℕ → Option ℕ
given_delay none = none
given_delay (some n) = if n == 0 then none else some n

pub record CreateJobBatchOptions (S E : Type 0) : Type 0 where
  pub store : DurableBatchStore S E
  pub publisher : QueuePublisher S E
  pub jobs : List DurableJobRecord
  pub name : Option String
  pub site_id : Option String
  pub user_id : Option ℕ
  pub parent_batch_id : Option String
  pub allow_failures : Option Bool
  pub on_finish : Option Continuation
  pub delay_seconds : Option ℕ
  pub batch_id : Option String

pub record CreateJobBatchResult (E : Type 0) : Type 0 where
  pub batch_id : String
  pub job_ids : List String
  pub dispatched : List (DispatchBatchResult E)

abbrev pub in_batch : String → DurableJobRecord → DurableJobRecord
in_batch id job = record job { batch_id = some id }

abbrev pub as_ref : DurableJobRecord → JobRef
as_ref job = record { id = job.id; queue = job.queue }

abbrev pub job_id_of : DurableJobRecord → String
job_id_of job = job.id

module _ {S E : Type 0} (errors : OutboxErrors E) (not_created : String → E → E)
    (stringify : Json → String) (random_uuid : String) (opts : CreateJobBatchOptions S E) where
  abbrev pub new_batch_id : String
  new_batch_id = or_else opts.batch_id random_uuid

  abbrev pub member_records : List DurableJobRecord
  member_records = map (in_batch new_batch_id) opts.jobs

  unfoldable pub batch_input : InsertBatchInput
  unfolding serialize_durable_job_continuation
  batch_input = record {
    id = new_batch_id;
    name = opts.name;
    parent_batch_id = opts.parent_batch_id;
    total_jobs = length member_records;
    pending_jobs = length member_records;
    failed_jobs = some 0;
    on_finish = Option.map (serialize_durable_job_continuation stringify) opts.on_finish;
    allow_failures = some (or_else opts.allow_failures false);
    site_id = opts.site_id;
    user_id = opts.user_id;
  }

  -- Where the store member_records publications, the batch is published; elsewhere it is dispatched.
  unfoldable pub dispatch_members :
      Option (PublicationRepository S E) → Action S E (List (DispatchBatchResult E))
  unfolding publish_durable_job_batch dispatch_durable_job_batch as_dispatch
  dispatch_members (some repository) = do
    results ←
        publish_durable_job_batch errors repository opts.publisher (map as_ref member_records)
          (given_delay opts.delay_seconds) none
    pure (map as_dispatch results)
  dispatch_members none =
      dispatch_durable_job_batch opts.publisher (map as_ref member_records)
        (given_delay opts.delay_seconds)

  unfoldable pub create_members : Action S E (CreateJobBatchResult E)
  unfolding batch_input dispatch_members
  create_members = do
    try_catch (opts.store.insert_batch_with_jobs batch_input member_records) pure
        (λ cause. throw (not_created new_batch_id cause))
    dispatched ← dispatch_members opts.store.publication
    pure (record {
      batch_id = new_batch_id;
      job_ids = map job_id_of member_records;
      dispatched = dispatched;
    })

  abbrev create_some : List DurableJobRecord → Action S E (CreateJobBatchResult E)
  create_some [] = pure (record { batch_id = ""; job_ids = []; dispatched = [] })
  create_some (_ ∷ _) = create_members

  unfoldable pub create_job_batch : Action S E (CreateJobBatchResult E)
  unfolding create_members
  create_job_batch = create_some opts.jobs

  -- A parent without members of its own; its children count themselves in.
  unfoldable pub parent_input : InsertBatchInput
  unfolding serialize_durable_job_continuation
  parent_input = record {
    id = new_batch_id;
    name = opts.name;
    parent_batch_id = none;
    total_jobs = 0;
    pending_jobs = 0;
    failed_jobs = some 0;
    on_finish = Option.map (serialize_durable_job_continuation stringify) opts.on_finish;
    allow_failures = some (or_else opts.allow_failures false);
    site_id = opts.site_id;
    user_id = opts.user_id;
  }

  unfoldable pub create_parent_job_batch : Action S E String
  unfolding parent_input
  create_parent_job_batch = opts.store.insert_batch parent_input >> pure new_batch_id
