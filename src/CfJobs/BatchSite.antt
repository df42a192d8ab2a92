-- ===== src/CfJobs/BatchSite.antt =====
-- The D1 store of packages/nuxt-cf-jobs/src/runtime/server/batch.ts as an implementation of the
-- store's contract: each method is a step on the tables, and leaves the rest of the world alone.
-- The clock stands at `now`; `describe` is the text of a cause.
pub mod Counting
pub mod Progress
pub mod Outcomes
pub mod Creation
use harlan_nuxt.Prelude.{ℕ, Option, none, some, List, [], ◌∷◌, or_else, String}
use harlan_nuxt.Prelude.Effect.{Outcome, returned, Action}
use harlan_nuxt.CfJobs.JobStore.{Db}
use harlan_nuxt.CfJobs.Lifecycle.{mark_jobs_published, note_jobs_dispatch_failure}
use harlan_nuxt.CfJobs.Outbox.{PublicationRepository}
use harlan_nuxt.CfJobs.BatchStore.{
  BatchRow, Tables, recoverable, unrecoverable, insert_batch, insert_batch_with_jobs,
  decrement_pending, get_job_batch_id, find_orphaned, finish_orphaned_batch,
}
use harlan_nuxt.CfJobs.Batch.{DurableBatchStore}

pub record Site (W : Type 0) : Type 0 where
  pub tables : Tables
  pub world : W

module _ {W E : Type 0} where
  abbrev pub step_outcome : {A : Type 0} → (Tables → Outcome E A × Tables) → Action (Site W) E A
  step_outcome f s = let r = f s.tables in (r.0, record s { tables = r.1 })

  abbrev pub step : {A : Type 0} → (Tables → A × Tables) → Action (Site W) E A
  step f s = let r = f s.tables in (returned r.0, record s { tables = r.1 })

  abbrev pub query : {A : Type 0} → (Tables → A) → Action (Site W) E A
  query f s = (returned (f s.tables), s)

  -- Nothing is written for no ids.
  abbrev pub on_jobs : List String → (Db → ℕ × Db) → Action (Site W) E ℕ
  on_jobs [] f s = (returned 0, s)
  on_jobs (_ ∷ _) f s =
      let r = f s.tables.db in (returned r.0, record s { tables = record s.tables { db = r.1 } })

  abbrev pub d1_publication : (E → String) → ℕ → PublicationRepository (Site W) E
  d1_publication describe now = record {
    mark_jobs_published = λ ids at. on_jobs ids (mark_jobs_published ids (or_else at now));
    note_jobs_dispatch_failure = λ ids cause at.
        on_jobs ids (note_jobs_dispatch_failure ids (describe cause) (or_else at now));
  }

  unfoldable pub create_d1_durable_batch_store : E → (E → String) → ℕ → DurableBatchStore (Site W) E
  unfolding insert_batch insert_batch_with_jobs decrement_pending get_job_batch_id find_orphaned
      finish_orphaned_batch mark_jobs_published note_jobs_dispatch_failure
  create_d1_durable_batch_store taken describe now = record {
    insert_batch = λ input. step_outcome (insert_batch taken now input);
    insert_batch_with_jobs =
        λ input records. step_outcome (insert_batch_with_jobs taken now input records);
    publication = some (d1_publication describe now);
    decrement_pending = λ id failed. step (decrement_pending now id failed);
    get_job_batch_id = λ id. query (get_job_batch_id id);
    find_orphaned_batches = some (λ before limit. query (find_orphaned recoverable before limit));
    find_unrecoverable_orphaned_batches =
        some (λ before limit. query (find_orphaned unrecoverable before limit));
    finish_orphaned_batch = some (λ id at. step (finish_orphaned_batch (or_else at now) id));
  }
