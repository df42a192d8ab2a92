-- ===== src/Tests/Enqueueing.antt =====
-- An enqueue whose message is sent and whose row is marked.
use harlan_nuxt.Prelude.{ℕ, ◌+◌, ◌≡◌, ◌⊎◌, true, false, none, some, length}
use harlan_nuxt.Prelude.Effect.{returned, threw}
use harlan_nuxt.CfJobs.Lifecycle.{DurableJobRecord}
use harlan_nuxt.CfJobs.Outbox.{QueuePublisher, OutboxErrors}
use harlan_nuxt.CfJobs.Enqueue.{
  duplicate, EnqueueRepository, staging_of, insert_row, enqueue_durable_job,
}
use harlan_nuxt.CfJobs.Enqueue.Outcomes.{IsEvident, enqueue_durable_job_lem}

-- The state counts the calls; errors are numbers.
abbrev errors : OutboxErrors ℕ
errors = record {
  binding_unavailable = λ queue. 1;
  failure_recorded_for = λ cause updated expected. 2;
  send_and_evidence_failed = λ cause evidence. 3;
  published_only = λ updated expected. 4;
}

abbrev publisher : QueuePublisher ℕ ℕ
publisher = record {
  send = λ queue message delay n. (returned true, n + 1);
  send_batch = λ queue messages delay n. (returned true, n + 1);
}

abbrev repository : EnqueueRepository ℕ ℕ
repository = record {
  insert_job = λ job n. (returned true, n + 1);
  stage_job = some (λ job n. (returned true, n + 1));
  publication = some (record {
    mark_jobs_published = λ ids at n. (returned (length ids), n + 1);
    note_jobs_dispatch_failure = λ ids cause at n. (threw 500, n);
  });
}

abbrev job : DurableJobRecord
job = record {
  id = "a";
  queue = "emails";
  job_type = "send";
  batch_id = none;
  unique_key = none;
  payload = "{}";
  attempts = 0;
  max_attempts = some 3;
  available_at = 10;
  created_at = 10;
}

enqueue_durable_job_lem_example :
    let staging = staging_of repository in
    let inserted = insert_row errors publisher job none repository staging 0 in
    let end = enqueue_durable_job errors publisher job none repository 0 in
    ((e : ℕ) × (inserted.0 ≡ threw e) × (end ≡ (threw e, inserted.1)))
    ⊎ ((inserted.0 ≡ returned false) × (end ≡ (returned duplicate, inserted.1)))
    ⊎ ((inserted.0 ≡ returned true) × IsEvident errors publisher job none staging end.0)
enqueue_durable_job_lem_example = enqueue_durable_job_lem errors publisher job none repository 0
