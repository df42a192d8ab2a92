-- ===== src/Tests/Delivery.antt =====
-- A delivery of a durable job whose handler throws at its last attempt.
use harlan_nuxt.Prelude.{ℕ, ◌+◌, ◌≡◌, refl, true, false, none, some, [], ◌∷◌, String}
use harlan_nuxt.Prelude.Effect.{Outcome, returned, threw, Action, pure, throw}
use harlan_nuxt.CfJobs.Payload.{str, task_name}
use harlan_nuxt.CfJobs.Middleware.{run_job_through_middleware}
use harlan_nuxt.CfJobs.Dispatch.{JobRegistry, DispatchOptions, dispatch_registered_job}
use harlan_nuxt.CfJobs.Message.{DurableJobLifecycle, RunOptions, Errors, settled, failed_row, acked}
use harlan_nuxt.CfJobs.RunMessage.{run_durable_job_message, run_filled}

-- The state counts the calls of the application; a row is the number of its attempts.
abbrev call : Action ℕ String (Unit {0})
call n = (returned tt, n + 1)

abbrev lifecycle : DurableJobLifecycle ℕ String ℕ
lifecycle = record {
  claim_job = λ id. pure (some 3);
  resolve_claim_miss = none;
  complete_job = λ job. call;
  fail_job = λ job text. call;
  release_job = some (λ job delay text. call);
}

abbrev registry : JobRegistry ℕ String (Unit {0})
registry = record {
  get_handler = λ task. pure (some (λ payload ctx. throw "boom"));
  get_job_definition = none;
  load_job_definition = none;
}

abbrev dispatching : DispatchOptions ℕ String (Unit {0})
dispatching = record {
  registry = registry;
  create_context = λ input. pure tt;
  on_handled_throw = λ input e. pure tt;
  on_unhandled_throw = λ input e. pure tt;
  on_complete = λ input. pure tt;
  trace_marker = false;
  write_marker = λ task s. s;
  called_twice = "next() called twice";
}

-- The promise of the hook rejects.
abbrev reject : String → ℕ → Action ℕ String (Outcome String (Unit {0}))
reject error job n = (returned (threw "hook failed"), n + 1)

abbrev opts : RunOptions ℕ String (Unit {0}) ℕ
opts = record {
  body_job_id = some "a";
  get_job_id = none;
  deliveries = some 1;
  lifecycle = lifecycle;
  dispatch_options = λ job. dispatching;
  to_dispatchable_job = λ job. record {
    id = "a";
    queue = "emails";
    payload = ("_task", str "send") ∷ [];
    attempts = job;
    batch_id = none;
  };
  retry_delay_seconds = none;
  claim_retry_delay_seconds = none;
  in_flight_retry_delay_seconds = none;
  max_in_flight_retries = none;
  fail_dispatch_failure = true;
  complete_result = none;
  max_attempts_of = some (λ job. some 3);
  wrap_dispatch = none;
  on_settled = none;
  is_permanent_failure = none;
  on_terminal_failure = some reject;
  on_observer_error = none;
  dispatch_continuations = none;
}

abbrev errors : Errors String
errors = record {
  is_ownership_error = λ e. false;
  format_job_error = λ e. "dispatch failed";
  describe_cause = λ e. e;
  describe_cause_with_stack = λ e. e;
  new_error = λ text. text;
}

exhausted_run :
    (run_durable_job_message errors opts (record { trace = []; world = 0 })).1.trace
    ≡ settled failed_row ∷ acked ∷ []
unfolding run_durable_job_message run_filled dispatch_registered_job task_name
    run_job_through_middleware
exhausted_run = refl
