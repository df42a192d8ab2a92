-- ===== src/Tests/Batches.antt =====
-- The batches of jobs at concrete inputs. Errors are numbers; 1 is a key that is taken.
use harlan_nuxt.Prelude.{
  ℕ, ◌+◌, ◌≡◌, refl, ◌⊎◌, true, false, Option, none, some, List, [], ◌∷◌, All, length, String,
  str_eq, leb, if◌then◌else◌, arith,
}
use harlan_nuxt.Prelude.Effect.{Outcome, returned, threw, Action}
use harlan_nuxt.CfJobs.Payload.{Json, Fields, lookup}
use harlan_nuxt.CfJobs.Lifecycle.{DurableJobRecord}
use harlan_nuxt.CfJobs.BatchStore.{
  BatchRow, Tables, InsertBatchInput, recoverable, unrecoverable, find_orphaned,
  insert_batch_with_jobs, decrement_pending, finish_orphaned_batch,
}
use harlan_nuxt.CfJobs.BatchStore.Counters.{HasKeys, pending_of}
use harlan_nuxt.CfJobs.BatchStore.Runs.{BatchCommand, settle, increment, run, replay, run_refines}
use harlan_nuxt.CfJobs.BatchStore.Winner.{wins, settlements, run-single_winner}
use harlan_nuxt.CfJobs.BatchStore.Sound.{IsSound, Steps, start, then_step, settles, Steps-IsSound}
use harlan_nuxt.CfJobs.Continuation.{
  Continuation, is_text, has_object, parse_durable_job_continuation,
  serialize_durable_job_continuation, payload_of, fields_of, with_batch_id,
}
use harlan_nuxt.CfJobs.Continuation.RoundTrip.{continuation_round_trip}
use harlan_nuxt.CfJobs.Outbox.{OutboxErrors}
use harlan_nuxt.CfJobs.Batch.{CreateJobBatchOptions, batch_input, member_records}
use harlan_nuxt.CfJobs.Settle.{
  RecoverSummary, nothing_recovered, fire_on_finish_chain, recover_orphaned_batches,
}
use harlan_nuxt.CfJobs.Settle.Fuel.{IsDone}
use harlan_nuxt.CfJobs.BatchSite.Counting.{site_total}
use harlan_nuxt.CfJobs.Settle.Recovered.{Recovered, RecoveryRun, add_recovered}
use harlan_nuxt.CfJobs.Settle.Recovery.{IsAccounted}
use harlan_nuxt.CfJobs.BatchSite.{Site, step, create_d1_durable_batch_store}
use harlan_nuxt.CfJobs.BatchSite.Outcomes.{
  fire_on_finish_chain-IsDone, recover_orphaned_batches-IsRecovered,
}
use harlan_nuxt.CfJobs.BatchSite.Creation.{
  IsCreated, insert_batch_with_jobs-IsAtomic, created_batch-single_winner,
}

abbrev batch : String → Option String → ℕ → BatchRow
batch id parent pending = record {
  id = id;
  name = none;
  parent_batch_id = parent;
  total_jobs = 3;
  pending_jobs = pending;
  failed_jobs = 0;
  on_finish = some "text";
  allow_failures = false;
  site_id = none;
  user_id = none;
  created_at = 5;
  finished_at = none;
}

abbrev tables : Tables
tables = record {
  batches = batch "parent" none 2 ∷ batch "child" (some "parent") 1 ∷ [];
  db = record { jobs = []; failed_jobs = [] };
}

tables-HasKeys : HasKeys tables.batches
tables-HasKeys = ((refl, tt), (tt, tt))

abbrev commands : List BatchCommand
commands =
    settle 10 "parent" false
    ∷ settle 11 "child" true
    ∷ increment "child" none
    ∷ settle 12 "parent" false
    ∷ settle 13 "parent" false
    ∷ []

run_refines_example :
    HasKeys (run commands tables).1.batches
    × ((run commands tables).0 ≡ (replay commands (pending_of tables.batches)).0)
    × (pending_of (run commands tables).1.batches ≡ (replay commands (pending_of tables.batches)).1)
run_refines_example = run_refines commands tables tables-HasKeys

run-single_winner_example :
    wins "parent" (run commands tables).0 ≡ (if leb 2 (settlements "parent" commands) then 1 else 0)
run-single_winner_example =
    run-single_winner "parent" commands tables 1 tables-HasKeys refl
      (tt, (tt, (refl, (tt, (tt, tt)))))

tables-IsSound : All IsSound tables.batches
tables-IsSound = (
  (omega arith, λ z. absurd (omega (arith, z))),
  ((omega arith, λ z. absurd (omega (arith, z))), tt),
)

abbrev settled_steps :
    Steps {E = ℕ} 1 tables
      (decrement_pending 11 "child" true (decrement_pending 10 "parent" false tables).1).1
settled_steps =
    then_step tables (decrement_pending 10 "parent" false tables).1 _
      (then_step tables tables _ (start tables) (settles 10 "parent" false tables))
      (settles 11 "child" true (decrement_pending 10 "parent" false tables).1)

Steps-IsSound_example :
    All IsSound
      (decrement_pending 11 "child" true (decrement_pending 10 "parent" false tables).1).1.batches
Steps-IsSound_example = Steps-IsSound {E = ℕ} 1 settled_steps ((tt, tt), tt) tables-IsSound

-- A text that stands for one continuation.
abbrev continuation : Continuation
continuation =
    ("name", Json.str "report")
    ∷ ("payload", Json.obj (Fields.field "site" (Json.str "s") Fields.end))
    ∷ []

abbrev index_key : ℕ → String
index_key i = "0"

abbrev json_parse : String → Outcome ℕ Json
json_parse text = returned (Json.obj (fields_of continuation))

-- The hook counts its calls, and throws for the parent.
abbrev hook : Continuation → BatchRow → Action (Site ℕ) ℕ (Unit {0})
hook c b s =
    (if str_eq b.id "parent" then threw 9 else returned tt, record s { world = s.world + 1 })

abbrev site : Site ℕ
site = record { tables = tables; world = 0 }

recover_orphaned_batches-IsRecovered_example :
    let r =
      recover_orphaned_batches json_parse 2 index_key
        (create_d1_durable_batch_store 1 (λ e. "error") 20)
        (some hook)
        4
        10
        none
        none
        site in
    (out : RecoverSummary ℕ) × (r.0 ≡ returned (some out))
    × (out.scanned ≡ length (find_orphaned recoverable 10 none tables))
    × (out.unrecoverable_batches ≡ find_orphaned unrecoverable 10 none tables)
    × (out.unrecoverable ≡ length out.unrecoverable_batches)
    × IsAccounted out.scanned out.result
    × (done : Recovered ℕ) × RecoveryRun json_parse 2 index_key
        (create_d1_durable_batch_store 1 (λ e. "error") 20)
        (some hook)
        (λ id. step (finish_orphaned_batch 20 id))
        (find_orphaned recoverable 10 none tables)
        site
        done
        r.1
    × (out.result ≡ add_recovered nothing_recovered done)
recover_orphaned_batches-IsRecovered_example =
    recover_orphaned_batches-IsRecovered 1 (λ e. "error") 20 json_parse 2 index_key (some hook)
      (λ c b s. omega arith) 4 site (omega arith) 10 none none

fire_on_finish_chain-IsDone_example : IsDone site_total 3 (
    fire_on_finish_chain json_parse 2 index_key
      (create_d1_durable_batch_store 1 (λ e. "error") 20)
      (some hook)
      4
      (batch "child" (some "parent") 0)
      site)
fire_on_finish_chain-IsDone_example =
    fire_on_finish_chain-IsDone 1 (λ e. "error") 20 json_parse 2 index_key (some hook)
      (λ c b s. omega arith) 4 site (omega arith) (batch "child" (some "parent") 0)

is_named : is_text (lookup "name" continuation) ≡ true
unfolding lookup
is_named = refl

has_payload : has_object index_key (lookup "payload" continuation) ≡ true
unfolding lookup
has_payload = refl

continuation_round_trip_example :
    let d = with_batch_id index_key "b" continuation in
    (parse_durable_job_continuation index_key json_parse 2
        (serialize_durable_job_continuation (λ v. "text") continuation)
      ≡ returned continuation)
    × (lookup "batchId" (payload_of index_key d) ≡ some (Json.str "b"))
    × ((key : String)
        → str_eq "batchId" key ≡ false
        → lookup key (payload_of index_key d) ≡ lookup key (payload_of index_key continuation))
    × ((key : String) → str_eq "payload" key ≡ false → lookup key d ≡ lookup key continuation)
continuation_round_trip_example =
    continuation_round_trip index_key json_parse 2 (λ v. "text") "b" continuation refl
      (is_named, has_payload)

abbrev job : String → DurableJobRecord
job id = record {
  id = id;
  queue = "emails";
  job_type = "send";
  batch_id = none;
  unique_key = none;
  payload = "{}";
  attempts = 0;
  max_attempts = some 3;
  available_at = 10;
  created_at = 10;
}

abbrev input : InsertBatchInput
input = record {
  id = "new";
  name = none;
  parent_batch_id = some "parent";
  total_jobs = 2;
  pending_jobs = 2;
  failed_jobs = none;
  on_finish = none;
  allow_failures = none;
  site_id = none;
  user_id = none;
}

abbrev members : List DurableJobRecord
members = job "x" ∷ job "y" ∷ []

insert_batch_with_jobs-IsAtomic_example :
    let r = insert_batch_with_jobs {E = ℕ} 1 20 input members tables in
    ((r.0 ≡ threw 1) × (r.1 ≡ tables)) ⊎ ((r.0 ≡ returned tt) × IsCreated input members tables r.1)
insert_batch_with_jobs-IsAtomic_example =
    insert_batch_with_jobs-IsAtomic {E = ℕ} 1 20 input members tables tables-HasKeys refl

abbrev outbox_errors : OutboxErrors ℕ
outbox_errors = record {
  binding_unavailable = λ queue. 3;
  failure_recorded_for = λ cause updated expected. 4;
  send_and_evidence_failed = λ cause evidence. 5;
  published_only = λ updated expected. 6;
}

abbrev opts : CreateJobBatchOptions (Site ℕ) ℕ
opts = record {
  store = create_d1_durable_batch_store 1 (λ e. "error") 20;
  publisher = record {
    send = λ queue message delay s. (returned true, s);
    send_batch = λ queue messages delay s. (returned true, s);
  };
  jobs = members;
  name = none;
  site_id = none;
  user_id = none;
  parent_batch_id = some "parent";
  allow_failures = none;
  on_finish = some continuation;
  delay_seconds = none;
  batch_id = some "new";
}

abbrev later : List BatchCommand
later = settle 30 "new" false ∷ settle 31 "child" false ∷ settle 32 "new" true ∷ []

created_batch-single_winner_example :
    let r =
      insert_batch_with_jobs {E = ℕ} 1 20
        (batch_input outbox_errors (λ id e. e) (λ v. "text") "uuid" opts)
        (member_records outbox_errors (λ id e. e) (λ v. "text") "uuid" opts)
        tables in
    ((r.0 ≡ threw 1) × (r.1 ≡ tables))
    ⊎ ((r.0 ≡ returned tt)
        × (wins "new" (run later r.1).0 ≡ (if leb 2 (settlements "new" later) then 1 else 0)))
created_batch-single_winner_example =
    created_batch-single_winner 1 20 outbox_errors (λ id e. e) (λ v. "text") "uuid" opts 1 tables
      later refl tables-HasKeys refl (tt, (tt, (tt, tt)))
