-- ===== src/CfJobs/ConsumeMessage/Answer.antt =====
-- The runs of one message: each answers it once where it returns.
use harlan_nuxt.Prelude.{
  ℕ, refl, inl, inr, Bool, true, false, ◌&&◌, Option, none, some, String, str_eq, Bool-cases,
  or_else, if◌then◌else◌,
}
use harlan_nuxt.Prelude.Effect.{Outcome, returned, threw, pure, throw, branch, ◌>>◌}
use harlan_nuxt.CfJobs.Dedup.{has}
use harlan_nuxt.CfJobs.Dispatch.{
  ControlAction, JobControlResult, DispatchResult, success, failure, DispatchableJob, JobDefinition,
}
use harlan_nuxt.CfJobs.Consumer.{
  QueueMessage, ack, retry, ConsumerState, ConsumerOptions, Platform, within, reply, when_set,
  task_of, send_queue_message, has_dedup, run_registered_job_failed, report_registered_queue_error,
}
use harlan_nuxt.CfJobs.ConsumeMessage.{
  settle, settle_invalid, run_failed, retry_later, after_send, send_exhausted, give_up_or_retry,
  is_exhausted, finish_failed, finish_control, finish, run_job, run_new, run_defined, run_named,
  process_registered_queue_message, input, payload, dlq_binding, hook_input, job_of,
}
use harlan_nuxt.CfJobs.QueueConfig.{filled}
use harlan_nuxt.CfJobs.ConsumeMessage.Replies.{
  IsQuietFrom, IsReplied, IsGood, IsQuiet, within-IsQuiet, then-IsQuiet, within_good, quiet_good,
  try_within_good, try_good,
}

thrown_good : {E : Type 0} (W : Type 0) (place : ℕ) (e : E) → IsGood {W = W} place (throw e)
unfolding IsGood IsReplied
thrown_good W place e s = (refl, refl)

retry_good :
    (E W : Type 0) (place : ℕ) (delay : ℕ)
    → IsGood {W = W} {E = E} place (reply (retry place (some delay)))
unfolding IsGood IsReplied
retry_good E W place delay s = (_, refl, (refl, refl))

ack_good : (E W : Type 0) (place : ℕ) → IsGood {W = W} {E = E} place (reply (ack place))
unfolding IsGood IsReplied
ack_good E W place s = (_, refl, refl)

module _ {W E C : Type 0} (platform : Platform W E) (opts : ConsumerOptions W E C)
    (logical : String) (place : ℕ) (message : QueueMessage) where
  settle_good : IsGood {W = W} {E = E} place (settle platform opts logical place message)
  unfolding settle IsGood IsReplied
  settle_good s = elim (Bool-cases (has_dedup platform opts)) [
    | inl t ↦ rw t (ack place, refl, refl)
    | inr f ↦ rw f (ack place, refl, refl)
  ]

  settle_invalid_good :
      (task : Option String)
      → IsGood {W = W} {E = E} place (settle_invalid platform opts logical place message task)
  unfolding settle_invalid
  settle_invalid_good task = within_good place _ _ (λ _. settle_good)

  module _ (task : String) (definition : JobDefinition W E C) (job : DispatchableJob) where
    run_failed-IsQuiet :
        (error : E)
        → IsQuiet (run_failed platform opts logical place message task definition job error)
    unfolding run_failed IsQuiet
    run_failed-IsQuiet error s =
        cases
          (run_registered_job_failed platform opts
            (input platform opts logical place message task definition job) job task definition
            (payload platform opts logical place message) error s.world).0
          (run_registered_job_failed platform opts
            (input platform opts logical place message task definition job) job task definition
            (payload platform opts logical place message) error s.world).1
      where
        cases :
            (o : Outcome E (Unit {0})) (w : W)
            → IsQuietFrom s
                (branch pure
                  (λ thrown. within (
                    report_registered_queue_error platform opts
                      (input platform opts logical place message task definition job)
                      thrown))
                  o
                  (record s { world = w })).1
        cases (returned _) w = (refl, refl)
        cases (threw e) w = (refl, refl)

    retry_later_good :
        (error : E)
        → IsGood {W = W} {E = E} place
            (retry_later platform opts logical place message task definition job error)
    unfolding retry_later IsGood IsReplied
    retry_later_good error s = (_, refl, (refl, refl))

    after_send_good :
        (error : E) (sent : Bool)
        → IsGood {W = W} {E = E} place
            (after_send platform opts logical place message task definition job error sent)
    after_send_good error false = retry_later_good error
    after_send_good error true =
        quiet_good place _ _ (then-IsQuiet _ _ (within-IsQuiet _) (run_failed-IsQuiet error))
          settle_good

    reported_good :
        (thrown : E)
        → IsGood place (
            within (
              report_registered_queue_error platform opts
                (input platform opts logical place message task definition job)
                thrown)
            >> throw thrown)
    reported_good thrown = within_good place _ _ (λ _. thrown_good W place thrown)

    send_exhausted_good :
        (error : E) (binding : Option String)
        → IsGood {W = W} {E = E} place
            (send_exhausted platform opts logical place message task definition job error binding)
    send_exhausted_good error none = retry_later_good error
    send_exhausted_good error (some binding) =
        try_within_good place (send_queue_message platform opts binding message.body) _ _
          (after_send_good error) reported_good

    give_up_or_retry_good :
        (error : E)
        → IsGood {W = W} {E = E} place
            (give_up_or_retry platform opts logical place message task definition job error)
    unfolding give_up_or_retry
    give_up_or_retry_good error =
        within_good place _ _
          (λ _. decided (is_exhausted platform opts logical place message task definition job))
      where
        decided :
            (b : Bool)
            → IsGood {W = W} {E = E} place (
                if b
                then send_exhausted platform opts logical place message task definition job error
                    (filled (dlq_binding platform opts logical place message task definition job))
                else retry_later platform opts logical place message task definition job error)
        decided true =
            send_exhausted_good error
              (filled (dlq_binding platform opts logical place message task definition job))
        decided false = retry_later_good error

    finish_failed_good :
        (text : Option String)
        → IsGood {W = W} {E = E} place
            (finish_failed platform opts logical place message task definition job text)
    unfolding finish_failed
    finish_failed_good text =
        quiet_good place _ _
          (then-IsQuiet _ _ (within-IsQuiet _)
            (run_failed-IsQuiet (platform.new_error (or_else text "Job failed via ctx.fail()"))))
          settle_good

    finish_control_good :
        (control : Option JobControlResult)
        → IsGood {W = W} {E = E} place
            (finish_control platform opts logical place message task definition job control)
    finish_control_good none = settle_good
    finish_control_good (some control) = by_action control.action
      where
        by_action :
            (action : Option ControlAction)
            → IsGood {W = W} {E = E} place (elim action [
              | none ↦ settle platform opts logical place message
              | some ControlAction.released ↦
                  reply (retry place (some (or_else control.delay_seconds 0)))
              | some ControlAction.failed ↦
                  finish_failed platform opts logical place message task definition job
                    control.error
            ])
        by_action none = settle_good
        by_action (some ControlAction.released) =
            retry_good E W place (or_else control.delay_seconds 0)
        by_action (some ControlAction.failed) = finish_failed_good control.error

    finish_good :
        (result : DispatchResult E)
        → IsGood {W = W} {E = E} place
            (finish platform opts logical place message task definition job result)
    unfolding finish
    finish_good (failure error) = within_good place _ _ (λ _. settle_good)
    finish_good (success control) = finish_control_good control

    run_job_good :
        IsGood {W = W} {E = E} place
          (run_job platform opts logical place message task definition job)
    unfolding run_job
    run_job_good =
        try_good place _ _ (within_good place _ _ (λ result. finish_good result))
          (λ error. give_up_or_retry_good error)

  run_new_good :
      (task : String) (definition : JobDefinition W E C)
      → IsGood {W = W} {E = E} place (run_new platform opts logical place message task definition)
  unfolding run_new IsGood
  run_new_good task definition s =
      elim (Bool-cases (has_dedup platform opts && has message.id s.seen)) [
        | inl t ↦ rw t (
            within_good place
              (when_set opts.on_duplicate
                (λ hook. hook (hook_input platform opts logical place message (some task) none)))
              (λ _. reply (ack place)) (λ _. ack_good E W place) s)
        | inr f ↦
            rw f (run_job_good task definition (job_of platform opts logical place message task) s)
      ]

  run_defined_good :
      (task : String) (definition : Option (JobDefinition W E C))
      → IsGood {W = W} {E = E} place
          (run_defined platform opts logical place message task definition)
  run_defined_good task none = settle_invalid_good (some task)
  run_defined_good task (some definition) = on_queue (str_eq definition.queue logical)
    where
      on_queue :
          (b : Bool)
          → IsGood {W = W} {E = E} place (
              if b
              then run_new platform opts logical place message task definition
              else settle_invalid platform opts logical place message (some task))
      on_queue true = run_new_good task definition
      on_queue false = settle_invalid_good (some task)

  run_named_good :
      (task : Option String)
      → IsGood {W = W} {E = E} place (run_named platform opts logical place message task)
  run_named_good none = settle_invalid_good none
  run_named_good (some task) = run_defined_good task _

  -- A message of a registered queue that is processed is answered exactly once where the processing
  -- returns: acked, or returned to the queue and then not remembered by the guard against duplicates.
  -- Where the processing throws, it was not answered and not remembered.
  pub process_registered_queue_message-IsReplied :
      (s : ConsumerState W)
      → IsReplied place s (process_registered_queue_message platform opts logical place message s)
  unfolding process_registered_queue_message IsGood
  process_registered_queue_message-IsReplied s =
      run_named_good (filled (task_of (payload platform opts logical place message))) s
