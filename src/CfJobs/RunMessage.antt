-- ===== src/CfJobs/RunMessage.antt =====
-- One delivery of a durable job: `runDurableJobMessage` of
-- packages/nuxt-cf-jobs/src/runtime/server/outbox.ts, with the helpers that are local to it.
pub mod Rules
pub mod Answer
use mathlib.Core.Option
use harlan_nuxt.Prelude.{
  ℕ, Bool, true, false, Option, none, some, List, [], ◌∷◌, ◌++◌, or_else, String, str_eq, leb,
  if◌then◌else◌,
}
use harlan_nuxt.Prelude.Effect.{
  Outcome, returned, threw, Action, pure, throw, modify, ◌>>=◌, ◌>>◌, try_catch,
}
use harlan_nuxt.CfJobs.Policy.{
  DurableJobInFlightOutcome, retried, handed_to_recovery, obsolete_delivery,
  resolve_in_flight_claim_miss,
}
use harlan_nuxt.CfJobs.Dispatch.{
  ControlAction, JobControlResult, JobError, handler_threw, claim_threw, DispatchResult, success,
  failure, dispatch_registered_job,
}
use harlan_nuxt.CfJobs.JobStore.{coalesce}
use harlan_nuxt.CfJobs.Lifecycle.{already_resolved, in_flight, not_found}
use harlan_nuxt.CfJobs.Message.{
  Settlement, completed_row, failed_row, released_row, Event, settled, acked, redelivered,
  MessageRun, Stage, then_stage, catch_stage, finally_stage, ContinuationFailure, Status,
  status_dispatch_failed, status_failed, status_released, status_completed, status_exhausted,
  status_errored, SettledError, undispatched, told, thrown, ObserverStage, settlement,
  terminal_failure, DurableJobLifecycle, ClaimResult, claimed, missed, RunOptions, Errors,
  RunResult, invalid_message, gone_resolved, gone_not_found, held, dispatch_failed, failed,
  released, completed, errored, exhausted, claim_error,
}

module _ {W E J : Type 0} where
  unfoldable pub claim_durable_job : DurableJobLifecycle W E J → String → Action W E (ClaimResult J)
  claim_durable_job lifecycle id = do
    got ← lifecycle.claim_job id
    elim got [
      | some job ↦ pure (claimed job)
      | none ↦ elim lifecycle.resolve_claim_miss [
        | some resolve ↦ resolve id >>= λ miss. pure (missed miss)
        | none ↦ pure (missed not_found)
      ]
    ]

  -- A repository without `releaseJob` releases nothing.
  unfoldable pub release_durable_job :
      DurableJobLifecycle W E J → J → ℕ → Option String → Action W E (Unit {0})
  release_durable_job lifecycle job delay_seconds error = elim lifecycle.release_job [
    | some release ↦ release job delay_seconds error
    | none ↦ pure tt
  ]

-- An action of the application, inside a run.
abbrev pub within : {W E A : Type 0} → Action W E A → Action (MessageRun W) E A
within m s = let r = m s.world in (r.0, record s { world = r.1 })

abbrev pub note : {W E : Type 0} → Event → Action (MessageRun W) E (Unit {0})
note event = modify (λ s. record s { trace = s.trace ++ event ∷ [] })

-- A hook that is not set does nothing.
abbrev pub when_set :
    {W E A : Type 0} → Option A → (A → Action W E (Unit {0})) → Action W E (Unit {0})
when_set none call = pure tt
when_set (some hook) call = call hook

-- `opts.getJobId?.(body) ?? body.jobId`.
abbrev given_id : Option (Option String) → Option String → Option String
given_id none body = body
given_id (some got) body = coalesce got body

-- An empty id counts as none.
abbrev filled : Option String → Option String
filled none = none
filled (some id) = if str_eq id "" then none else some id

module _ {W E C J : Type 0} (errors : Errors E) (opts : RunOptions W E C J) where
  -- `reportObserverError`: what the observer itself throws is swallowed.
  unfoldable pub report_observer_error : ObserverStage → E → J → Action W E (Unit {0})
  report_observer_error stage cause job =
      try_catch (when_set opts.on_observer_error (λ observer. observer stage cause job))
        (λ _. pure tt) (λ _. pure tt)

  unfoldable pub observe_settlement :
      J → Status → Bool → Option (SettledError E) → Action W E (Unit {0})
  unfolding report_observer_error
  observe_settlement job status permanent error =
      try_catch (when_set opts.on_settled (λ hook. hook job status permanent error)) (λ _. pure tt)
        (λ cause. report_observer_error settlement cause job)

  abbrev pub promised : J → Outcome E (Unit {0}) → Action W E (Option E)
  promised job (returned _) = pure none
  promised job (threw cause) = report_observer_error terminal_failure cause job >> pure (some cause)

  abbrev pub answer_hook :
      J → E → Option (E → J → Action W E (Outcome E (Unit {0}))) → Action W E (Option E)
  answer_hook job error none = pure none
  answer_hook job error (some hook) = hook error job >>= promised job

  -- The rejection of the hook's promise is the answer; a throw at its call escapes.
  unfoldable pub run_terminal_failure : J → E → Action W E (Option E)
  unfolding report_observer_error
  run_terminal_failure job error = answer_hook job error opts.on_terminal_failure

  unfoldable pub dispatch_terminal_continuations :
      J → List Stage → Action W E (List (ContinuationFailure E))
  dispatch_terminal_continuations job [] = pure []
  dispatch_terminal_continuations job (stage ∷ stages) =
      try_catch (when_set opts.dispatch_continuations (λ dispatch. dispatch job stage))
        (λ _. dispatch_terminal_continuations job stages)
        (λ cause. do
          rest ← dispatch_terminal_continuations job stages
          pure (record { stage = stage; cause = cause } ∷ rest))

  -- A settlement, and what follows it; a lost ownership acks the delivery as obsolete.
  unfoldable pub settle_then :
      Settlement
      → Action W E (Unit {0})
      → Action (MessageRun W) E (RunResult E)
      → Action (MessageRun W) E (RunResult E)
  settle_then how call rest =
      try_catch (within call) (λ _. note (settled how) >> rest)
        (λ error.
          if errors.is_ownership_error error
          then note acked >> pure (held obsolete_delivery)
          else throw error)

  unfoldable pub finish_dispatch_failure : J → JobError E → Action (MessageRun W) E (RunResult E)
  unfolding observe_settlement dispatch_terminal_continuations
  finish_dispatch_failure job error = do
    within (observe_settlement job status_dispatch_failed true (some (undispatched error)))
    failures ← within (dispatch_terminal_continuations job (catch_stage ∷ finally_stage ∷ []))
    note acked
    pure (dispatch_failed error failures)

  abbrev failed_text : JobControlResult → String
  failed_text control = or_else control.error "Job failed via ctx.fail()"

  unfoldable pub finish_failed : J → JobControlResult → Action (MessageRun W) E (RunResult E)
  unfolding observe_settlement run_terminal_failure dispatch_terminal_continuations
  finish_failed job control = do
    within (observe_settlement job status_failed true (Option.map told control.error))
    cause ← within (run_terminal_failure job (errors.new_error (failed_text control)))
    failures ← within (dispatch_terminal_continuations job (catch_stage ∷ finally_stage ∷ []))
    note acked
    pure (failed control cause failures)

  abbrev retry_delay_of : E → J → ℕ
  retry_delay_of error job = elim opts.retry_delay_seconds [
    | none ↦ 0
    | some delay ↦ delay error job
  ]

  unfoldable pub finish_released : J → JobControlResult → Action (MessageRun W) E (RunResult E)
  unfolding observe_settlement
  finish_released job control = do
    within (observe_settlement job status_released false (Option.map told control.error))
    note (redelivered (or_else control.delay_seconds 0))
    pure (released control)

  unfoldable pub finish_completed :
      J → Option JobControlResult → Action (MessageRun W) E (RunResult E)
  unfolding observe_settlement dispatch_terminal_continuations
  finish_completed job control = do
    within (observe_settlement job status_completed false none)
    failures ← within (dispatch_terminal_continuations job (then_stage ∷ finally_stage ∷ []))
    note acked
    pure (completed control failures)

  -- The `control.handled` branch: `failed`, else a release.
  unfoldable pub settle_control :
      J → JobControlResult → Option ControlAction → Action (MessageRun W) E (RunResult E)
  unfolding settle_then finish_failed finish_released release_durable_job
  settle_control job control (some ControlAction.failed) =
      settle_then failed_row (opts.lifecycle.fail_job job (failed_text control))
        (finish_failed job control)
  settle_control job control _ =
      settle_then released_row
        (release_durable_job opts.lifecycle job (or_else control.delay_seconds 0) control.error)
        (finish_released job control)

  unfoldable pub settle_completed :
      J → Option JobControlResult → Action (MessageRun W) E (RunResult E)
  unfolding settle_then finish_completed
  settle_completed job control = do
    within (when_set opts.complete_result (λ hook. hook job (success control)))
    settle_then completed_row (opts.lifecycle.complete_job job) (finish_completed job control)

  -- What the handler left: an undispatched job, a control outcome, or a completion.
  unfoldable pub settle_dispatch : J → DispatchResult E → Action (MessageRun W) E (RunResult E)
  unfolding settle_then finish_dispatch_failure settle_control settle_completed
  settle_dispatch job (failure error) =
      if opts.fail_dispatch_failure
      then settle_then failed_row (opts.lifecycle.fail_job job (errors.format_job_error error))
          (finish_dispatch_failure job error)
      else finish_dispatch_failure job error
  settle_dispatch job (success none) = settle_completed job none
  settle_dispatch job (success (some control)) =
      if control.handled
      then settle_control job control control.action
      else settle_completed job (some control)

  abbrev run_once : J → Action W E (DispatchResult E)
  run_once job = dispatch_registered_job (opts.dispatch_options job) (opts.to_dispatchable_job job)

  abbrev wrapped : J → Action W E (DispatchResult E)
  wrapped job = elim opts.wrap_dispatch [
    | none ↦ run_once job
    | some wrap ↦ wrap job (run_once job)
  ]

  abbrev max_attempts : J → Option ℕ
  max_attempts job = elim opts.max_attempts_of [ none ↦ none | some of_job ↦ of_job job ]

  abbrev has_reached : Option ℕ → ℕ → Bool
  has_reached none attempts = false
  has_reached (some most) attempts = leb most attempts

  -- The caller's predicate, or the cap on the attempts.
  unfoldable pub is_permanent : E → J → Bool
  is_permanent error job =
      let attempts = (opts.to_dispatchable_job job).attempts in
      elim opts.is_permanent_failure [
        | some decide ↦ decide error job attempts (max_attempts job)
        | none ↦ has_reached (max_attempts job) attempts
      ]

  unfoldable pub finish_exhausted : J → E → Action (MessageRun W) E (RunResult E)
  unfolding observe_settlement run_terminal_failure dispatch_terminal_continuations
  finish_exhausted job error = do
    within (observe_settlement job status_exhausted true (some (thrown error)))
    cause ← within (run_terminal_failure job error)
    failures ← within (dispatch_terminal_continuations job (catch_stage ∷ finally_stage ∷ []))
    note acked
    pure (exhausted (handler_threw error) cause failures)

  unfoldable pub finish_errored : J → E → Action (MessageRun W) E (RunResult E)
  unfolding observe_settlement
  finish_errored job error = do
    within (observe_settlement job status_errored false (some (thrown error)))
    note (redelivered (retry_delay_of error job))
    pure (errored (handler_threw error))

  -- The `catch` around the dispatch and its settlement.
  unfoldable pub settle_throw : J → E → Action (MessageRun W) E (RunResult E)
  unfolding is_permanent settle_then finish_exhausted finish_errored release_durable_job
  settle_throw job error =
      if is_permanent error job
      then settle_then failed_row
          (opts.lifecycle.fail_job job (errors.describe_cause_with_stack error))
          (finish_exhausted job error)
      else settle_then released_row
          (release_durable_job opts.lifecycle job (retry_delay_of error job)
            (some (errors.describe_cause error)))
          (finish_errored job error)

  unfoldable pub run_claimed : J → Action (MessageRun W) E (RunResult E)
  unfolding settle_dispatch settle_throw
  run_claimed job = try_catch (within (wrapped job) >>= settle_dispatch job) pure (settle_throw job)

  abbrev answer_in_flight : DurableJobInFlightOutcome → Action (MessageRun W) E (RunResult E)
  answer_in_flight (retried n delay_seconds) =
      note (redelivered delay_seconds) >> pure (held (retried n delay_seconds))
  answer_in_flight (handed_to_recovery n) = note acked >> pure (held (handed_to_recovery n))
  answer_in_flight obsolete_delivery = note acked >> pure (held obsolete_delivery)

  unfoldable pub run_claim_result : ClaimResult J → Action (MessageRun W) E (RunResult E)
  unfolding run_claimed
  run_claim_result (claimed job) = run_claimed job
  run_claim_result (missed in_flight) = answer_in_flight (
      resolve_in_flight_claim_miss opts.deliveries opts.in_flight_retry_delay_seconds
        opts.max_in_flight_retries)
  run_claim_result (missed already_resolved) = note acked >> pure gone_resolved
  run_claim_result (missed not_found) = note acked >> pure gone_not_found

  abbrev claim_delay : E → ℕ
  claim_delay error = elim opts.claim_retry_delay_seconds [ none ↦ 10 | some delay ↦ delay error ]

  unfoldable pub run_filled : Option String → Action (MessageRun W) E (RunResult E)
  unfolding claim_durable_job run_claim_result resolve_in_flight_claim_miss
  run_filled none = note acked >> pure invalid_message
  run_filled (some id) =
      try_catch (within (claim_durable_job opts.lifecycle id)) run_claim_result
        (λ error. note (redelivered (claim_delay error)) >> pure (claim_error (claim_threw error)))

  unfoldable pub run_durable_job_message : Action (MessageRun W) E (RunResult E)
  unfolding run_filled
  run_durable_job_message = run_filled (filled (given_id opts.get_job_id opts.body_job_id))
