-- ===== src/Tests/Reconciling.antt =====
-- A job that the sweep ended, and the failure hook of its definition.
use harlan_nuxt.Prelude.{ℕ, ◌+◌, ◌≡◌, refl, none, some, [], String}
use harlan_nuxt.Prelude.Effect.{returned, pure}
use harlan_nuxt.CfJobs.Payload.{obj, str, field, end}
use harlan_nuxt.CfJobs.Dispatch.{JobDefinition, JobRegistry}
use harlan_nuxt.CfJobs.ReconcileTerminal.{
  DurableJobTerminalized, handled, ReconcileOptions, run_terminalized_job_failure,
}
use harlan_nuxt.CfJobs.ReconcileTerminal.Outcomes.{
  IsReconciled, run_terminalized_job_failure-IsReconciled,
}

-- The state counts the runs of the hook.
abbrev definition : JobDefinition ℕ String ℕ
definition = record {
  name = "send";
  queue = "mail";
  job_type = none;
  policy = record { tries = some 3; backoff = none };
  input = none;
  handle = none;
  middleware = [];
  on_failed = some (λ payload ctx error s. (returned tt, record s { world = s.world + 1 }));
}

abbrev registry : JobRegistry ℕ String ℕ
registry = record {
  get_handler = λ task. pure none;
  get_job_definition = some (λ task. some definition);
  load_job_definition = none;
}

abbrev opts : ReconcileOptions ℕ String ℕ
opts = record {
  registry = registry;
  create_context = some (λ input. pure 0);
  json_parse = λ text. returned (obj (field "_task" (str "send") (field "to" (str "x") end)));
  error_of = λ text. text;
}

abbrev terminalized : DurableJobTerminalized
terminalized = record {
  id = "j1";
  queue = "mail";
  batch_id = none;
  job_type = "send";
  payload = "{}";
  attempts = 3;
  exception = "stale";
}

hook_runs_once : run_terminalized_job_failure opts terminalized 0 ≡ (returned (handled "send"), 1)
unfolding run_terminalized_job_failure
hook_runs_once = refl

run_terminalized_job_failure-IsReconciled_example :
    IsReconciled opts terminalized 0 (run_terminalized_job_failure opts terminalized 0)
run_terminalized_job_failure-IsReconciled_example =
    run_terminalized_job_failure-IsReconciled opts terminalized 0
