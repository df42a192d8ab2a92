-- ===== src/Tests/Pruning.antt =====
-- Old rows of a finished and of an unfinished batch, pruned in chunks of one row.
use harlan_nuxt.Prelude.{ℕ, ◌≡◌, refl, false, Option, none, some, [], ◌∷◌, String}
use harlan_nuxt.CfJobs.JobStore.{JobRow}
use harlan_nuxt.CfJobs.BatchStore.{BatchRow, Tables}
use harlan_nuxt.CfJobs.Prune.{PruneDurableJobsOptions, PruneDurableJobsResult, prune_durable_jobs}
use harlan_nuxt.CfJobs.Prune.Whole.{pruned_at_once, prune_durable_jobs-whole}
use harlan_nuxt.CfJobs.Prune.Safe.{IsSafe, prune_durable_jobs-IsSafe}

abbrev job : String → Option String → Option ℕ → JobRow
job id batch_id completed_at = record {
  id = id;
  queue = "mail";
  job_type = "send";
  batch_id = batch_id;
  unique_key = none;
  payload = "{}";
  attempts = 1;
  max_attempts = some 3;
  reserved_at = none;
  available_at = 0;
  created_at = 0;
  published_at = some 0;
  last_dispatched_at = some 0;
  dispatch_attempts = 1;
  last_dispatch_error = none;
  completed_at = completed_at;
  failed_at = none;
  last_error = none;
  retry_reasons = [];
}

abbrev batch : String → Option ℕ → BatchRow
batch id finished_at = record {
  id = id;
  name = none;
  parent_batch_id = none;
  total_jobs = 1;
  pending_jobs = 0;
  failed_jobs = 0;
  on_finish = none;
  allow_failures = false;
  site_id = none;
  user_id = none;
  created_at = 0;
  finished_at = finished_at;
}

abbrev tables : Tables
tables = record {
  batches = batch "done" (some 5) ∷ batch "open" none ∷ [];
  db = record {
    jobs =
        job "a" (some "done") (some 4)
        ∷ job "b" (some "open") (some 4)
        ∷ job "c" none (some 4)
        ∷ job "d" none none
        ∷ [];
    failed_jobs = [];
  };
}

abbrev opts : PruneDurableJobsOptions
opts = record {
  completed_before = some 10;
  finished_batches_before = some 10;
  failed_before = none;
  limit = some 1;
}

-- The jobs of the finished batch and of none go, and the finished batch after them.
pruned :
    prune_durable_jobs opts tables
    ≡ some (
      record { completed_jobs = 2; finished_batches = 1; failed_jobs = 0 },
      record {
        batches = batch "open" none ∷ [];
        db = record {
          jobs = job "b" (some "open") (some 4) ∷ job "d" none none ∷ [];
          failed_jobs = [];
        };
      },
    )
unfolding prune_durable_jobs
pruned = refl

prune_durable_jobs-whole_example :
    prune_durable_jobs opts tables ≡ some (pruned_at_once opts tables)
prune_durable_jobs-whole_example = prune_durable_jobs-whole opts tables

prune_durable_jobs-IsSafe_example :
    (result : PruneDurableJobsResult) × (end : Tables) × (prune_durable_jobs opts tables
      ≡ some (result, end))
    × IsSafe tables end
prune_durable_jobs-IsSafe_example =
    prune_durable_jobs-IsSafe opts tables (refl, (refl, (tt, (tt, tt))))
