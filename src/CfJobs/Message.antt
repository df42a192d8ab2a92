-- ===== src/CfJobs/Message.antt =====
-- What `runDurableJobMessage` of packages/nuxt-cf-jobs/src/runtime/server/outbox.ts is given and
-- what it answers. The lifecycle, the handlers and the hooks of an application are parameters that
-- work on its state `W`; the row of a job is of their type `J`. The state of a run adds the trace
-- of the settlements that returned and of the calls of the message's `ack` and `retry`. Left out
-- are the execution statistics, the clock and the console.
use harlan_nuxt.Prelude.{ℕ, Bool, Option, List, String}
use harlan_nuxt.Prelude.Effect.{Outcome, Action}
use harlan_nuxt.CfJobs.Policy.{DurableJobInFlightOutcome, InFlightRetryDelaySeconds}
use harlan_nuxt.CfJobs.Dispatch.{
  JobControlResult, JobError, DispatchResult, DispatchableJob, DispatchOptions,
}
use harlan_nuxt.CfJobs.Lifecycle.{ClaimMiss}

pub data Settlement : Type 0 where
  completed_row failed_row released_row : Settlement

pub data Event : Type 0 where
  settled : Settlement → Event
  acked : Event
  redelivered : (delay_seconds : ℕ) → Event

pub record MessageRun (W : Type 0) : Type 0 where
  pub trace : List Event
  pub world : W

pub data Stage : Type 0 where
  then_stage catch_stage finally_stage : Stage

-- A continuation that could not be dispatched, and its cause.
pub record ContinuationFailure (E : Type 0) : Type 0 where
  pub stage : Stage
  pub cause : E

-- The statuses that an observer is told.
pub data Status : Type 0 where
  status_dispatch_failed status_failed status_released status_completed status_exhausted
        status_errored :
      Status

-- The error that an observer is told: of the dispatch, of `ctx.fail()` or `ctx.release()`, thrown.
pub data SettledError (E : Type 0) : Type 0 where
  undispatched : JobError E → SettledError E
  told : String → SettledError E
  thrown : E → SettledError E

pub data ObserverStage : Type 0 where
  settlement terminal_failure : ObserverStage

pub record DurableJobLifecycle (W E J : Type 0) : Type 0 where
  pub claim_job : String → Action W E (Option J)
  pub resolve_claim_miss : Option (String → Action W E ClaimMiss)
  pub complete_job : J → Action W E (Unit {0})
  pub fail_job : J → String → Action W E (Unit {0})
  pub release_job :
      Option (J → (delay_seconds : ℕ) → (error : Option String) → Action W E (Unit {0}))

pub data ClaimResult (J : Type 0) : Type 0 where
  claimed : J → ClaimResult J
  missed : ClaimMiss → ClaimResult J

-- A delay that is configured as a number is the constant function. `on_terminal_failure` throws at
-- its call, or answers a promise, which is the inner outcome.
pub record RunOptions (W E C J : Type 0) : Type 0 where
  pub body_job_id : Option String
  pub get_job_id : Option (Option String)
  pub deliveries : Option ℕ
  pub lifecycle : DurableJobLifecycle W E J
  pub dispatch_options : J → DispatchOptions W E C
  pub to_dispatchable_job : J → DispatchableJob
  pub retry_delay_seconds : Option (E → J → ℕ)
  pub claim_retry_delay_seconds : Option (E → ℕ)
  pub in_flight_retry_delay_seconds : Option InFlightRetryDelaySeconds
  pub max_in_flight_retries : Option ℕ
  pub fail_dispatch_failure : Bool
  pub complete_result : Option (J → DispatchResult E → Action W E (Unit {0}))
  pub max_attempts_of : Option (J → Option ℕ)
  pub wrap_dispatch : Option (J → Action W E (DispatchResult E) → Action W E (DispatchResult E))
  pub on_settled :
      Option (J → Status → (permanent : Bool) → Option (SettledError E) → Action W E (Unit {0}))
  pub is_permanent_failure : Option (E → J → (attempts : ℕ) → (max_attempts : Option ℕ) → Bool)
  pub on_terminal_failure : Option (E → J → Action W E (Outcome E (Unit {0})))
  pub on_observer_error : Option (ObserverStage → E → J → Action W E (Unit {0}))
  pub dispatch_continuations : Option (J → Stage → Action W E (Unit {0}))

-- The texts of errors, `new Error`, and the test for a DurableJobOwnershipError.
pub record Errors (E : Type 0) : Type 0 where
  pub is_ownership_error : E → Bool
  pub format_job_error : JobError E → String
  pub describe_cause : E → String
  pub describe_cause_with_stack : E → String
  pub new_error : String → E

pub data RunResult (E : Type 0) : Type 0 where
  invalid_message gone_resolved gone_not_found : RunResult E
  held : DurableJobInFlightOutcome → RunResult E
  dispatch_failed : JobError E → List (ContinuationFailure E) → RunResult E
  failed :
      JobControlResult
      → (terminal_failure_cause : Option E) → List (ContinuationFailure E)
      → RunResult E
  released : JobControlResult → RunResult E
  completed : Option JobControlResult → List (ContinuationFailure E) → RunResult E
  errored : JobError E → RunResult E
  exhausted :
      JobError E → (terminal_failure_cause : Option E) → List (ContinuationFailure E) → RunResult E
  claim_error : JobError E → RunResult E
