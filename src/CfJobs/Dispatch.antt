-- ===== src/CfJobs/Dispatch.antt =====
-- `dispatchRegisteredJob` of packages/nuxt-cf-jobs/src/runtime/server/dispatch.ts, with the errors
-- of errors.ts and the control record of types.ts. The handlers, hooks and contexts of an
-- application are parameters.
use harlan_nuxt.Prelude.{ℕ, Bool, false, Option, none, some, List, [], map, String, if◌then◌else◌}
use harlan_nuxt.Prelude.Effect.{Outcome, returned, threw, Action, pure, throw, modify, ◌>>=◌, ◌>>◌}
use harlan_nuxt.CfJobs.Policy.{JobPolicy}
use harlan_nuxt.CfJobs.Payload.{Payload, clean_payload, task_name}
use harlan_nuxt.CfJobs.Middleware.{Layer, run_job_through_middleware}

pub data ControlAction : Type 0 where
  released failed : ControlAction

-- What `ctx.release()` and `ctx.fail()` leave behind.
pub record JobControlResult : Type 0 where
  pub handled : Bool
  pub action : Option ControlAction
  pub delay_seconds : Option ℕ
  pub error : Option String

-- The tagged errors, with the task's name and the cause that they carry.
pub data JobError (E : Type 0) : Type 0 where
  no_task : JobError E
  handler_not_found : (task : String) → JobError E
  invalid_payload : (task : String) (cause : E) → JobError E
  payload_too_large : (task : String) (bytes limit : ℕ) → JobError E
  no_route : (task : String) → JobError E
  unknown_continuation : (task : String) → JobError E
  invalid_continuation : (task : String) (cause : E) → JobError E
  continuation_queue_mismatch : (task expected received : String) → JobError E
  handler_threw : (cause : E) → JobError E
  claim_threw : (cause : E) → JobError E

-- `{ success: true, control? }` and `{ success: false, error }`.
pub data DispatchResult (E : Type 0) : Type 0 where
  success : Option JobControlResult → DispatchResult E
  failure : JobError E → DispatchResult E

pub data ParsedPayload (E : Type 0) : Type 0 where
  parsed : Payload → ParsedPayload E
  rejected : E → ParsedPayload E

pub record DispatchableJob : Type 0 where
  pub id : String
  pub queue : String
  pub payload : Payload
  pub attempts : ℕ
  pub batch_id : Option String

-- What a job's code works on: the control record, which its context writes, and the rest.
pub record JobState (W : Type 0) : Type 0 where
  pub control : JobControlResult
  pub world : W

abbrev pub fresh_control : JobControlResult
fresh_control = record { handled = false; action = none; delay_seconds = none; error = none }

-- `C` is the type of contexts. The handler of a lazy entry's static metadata is absent.
pub record JobDefinition (W E C : Type 0) : Type 0 where
  pub name : String
  pub queue : String
  pub job_type : Option String
  pub policy : JobPolicy
  pub input : Option (Payload → ParsedPayload E)
  pub handle : Option (Payload → C → Action (JobState W) E (Unit {0}))
  pub middleware : List (Payload → C → Layer (JobState W) E)
  pub on_failed : Option (Payload → C → E → Action (JobState W) E (Unit {0}))

pub record JobRegistry (W E C : Type 0) : Type 0 where
  pub get_handler : String → Action W E (Option (Payload → C → Action (JobState W) E (Unit {0})))
  pub get_job_definition : Option (String → Option (JobDefinition W E C))
  pub load_job_definition : Option (String → Action W E (Option (JobDefinition W E C)))

module _ {W E C : Type 0} where
  unfoldable pub parse_job_input : Option (JobDefinition W E C) → Payload → ParsedPayload E
  parse_job_input none payload = parsed payload
  parse_job_input (some definition) payload = elim definition.input [
    | none ↦ parsed payload
    | some parse ↦ parse payload
  ]

  abbrev handler_of :
      Option (JobDefinition W E C) → Option (Payload → C → Action (JobState W) E (Unit {0}))
  handler_of none = none
  handler_of (some definition) = definition.handle

  abbrev middleware_of : Option (JobDefinition W E C) → Payload → C → List (Layer (JobState W) E)
  middleware_of none payload ctx = []
  middleware_of (some definition) payload ctx =
      map (λ layer. layer payload ctx) definition.middleware

  -- The full definition where the registry loads lazily, else its static one.
  unfoldable pub find_definition :
      JobRegistry W E C → String → Action W E (Option (JobDefinition W E C))
  find_definition registry task = elim registry.load_job_definition [
    | some load ↦ load task
    | none ↦ elim registry.get_job_definition [ some get ↦ pure (get task) | none ↦ pure none ]
  ]

  abbrev find_handler :
      JobRegistry W E C
      → String
      → Option (Payload → C → Action (JobState W) E (Unit {0}))
      → Action W E (Option (Payload → C → Action (JobState W) E (Unit {0})))
  find_handler registry task (some handle) = pure (some handle)
  find_handler registry task none = registry.get_handler task

-- What `createContext` and the hooks are given.
pub record DispatchInput : Type 0 where
  pub job : DispatchableJob
  pub task : String
  pub payload : Payload

pub record DispatchOptions (W E C : Type 0) : Type 0 where
  pub registry : JobRegistry W E C
  pub create_context : DispatchInput → Action (JobState W) E C
  pub on_handled_throw : DispatchInput → E → Action (JobState W) E (Unit {0})
  pub on_unhandled_throw : DispatchInput → E → Action (JobState W) E (Unit {0})
  pub on_complete : DispatchInput → Action (JobState W) E (Unit {0})
  pub trace_marker : Bool
  pub write_marker : String → JobState W → JobState W
  pub called_twice : E

-- The shared control record lives as long as the dispatch does.
abbrev pub with_control : {W E A : Type 0} → Action (JobState W) E A → Action W E A
with_control m w = let r = m (record { control = fresh_control; world = w }) in (r.0, r.1.world)

module _ {W E C : Type 0} (opts : DispatchOptions W E C) where
  abbrev pub reported : JobState W → DispatchResult E
  reported s = success (if s.control.handled then some s.control else none)

  -- The `catch` and what follows the `try`.
  unfoldable pub after_handler :
      DispatchInput → Outcome E (Unit {0}) → Action (JobState W) E (DispatchResult E)
  after_handler input (returned _) s = (opts.on_complete input >> λ t. (returned (reported t), t)) s
  after_handler input (threw error) s =
      if s.control.handled
      then (opts.on_handled_throw input error >> λ t. (returned (success (some t.control)), t)) s
      else (opts.on_unhandled_throw input error >> throw error) s

  -- From the creation of the context on, over the control record that it shares.
  unfoldable pub run_handler :
      Option (JobDefinition W E C)
      → (Payload → C → Action (JobState W) E (Unit {0}))
      → DispatchInput
      → Action (JobState W) E (DispatchResult E)
  unfolding after_handler
  run_handler definition handler input = do
    ctx ← opts.create_context input
    modify (λ s. if opts.trace_marker then opts.write_marker input.task s else s)
    λ s.
        let r =
          run_job_through_middleware opts.called_twice (handler input.payload ctx)
            (middleware_of definition input.payload ctx) s in
        after_handler input r.0 r.1

  unfoldable pub dispatch_parsed :
      Option (JobDefinition W E C)
      → (Payload → C → Action (JobState W) E (Unit {0}))
      → DispatchableJob
      → String
      → ParsedPayload E
      → Action W E (DispatchResult E)
  unfolding run_handler
  dispatch_parsed definition handler job task (rejected cause) =
      pure (failure (invalid_payload task cause))
  dispatch_parsed definition handler job task (parsed payload) =
      with_control
        (run_handler definition handler (record { job = job; task = task; payload = payload }))

  abbrev dispatch_found :
      Option (JobDefinition W E C)
      → Option (Payload → C → Action (JobState W) E (Unit {0}))
      → DispatchableJob
      → String
      → Action W E (DispatchResult E)
  dispatch_found definition none job task = pure (failure (handler_not_found task))
  dispatch_found definition (some handler) job task =
      dispatch_parsed definition handler job task
        (parse_job_input definition (clean_payload job.payload))

  abbrev dispatch_task : DispatchableJob → Option String → Action W E (DispatchResult E)
  dispatch_task job none = pure (failure no_task)
  dispatch_task job (some task) = do
    definition ← find_definition opts.registry task
    handler ← find_handler opts.registry task (handler_of definition)
    dispatch_found definition handler job task

  unfoldable pub dispatch_registered_job : DispatchableJob → Action W E (DispatchResult E)
  unfolding find_definition dispatch_parsed parse_job_input
  dispatch_registered_job job = dispatch_task job (task_name job.payload)
