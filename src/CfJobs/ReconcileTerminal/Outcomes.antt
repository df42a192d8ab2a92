-- ===== src/CfJobs/ReconcileTerminal/Outcomes.antt =====
-- What the reconciliation of a job that the sweep ended answers, and what it has run by then.
use harlan_nuxt.Prelude.{◌≡◌, refl, ◌⊎◌, inl, inr, Option, none, some, String}
use harlan_nuxt.Prelude.Effect.{Outcome, returned, threw, Action, pure, continue}
use harlan_nuxt.CfJobs.Payload.{
  Json, null, bool, num, str, arr, obj, Fields, Payload, entries, lookup, text_of, clean_payload,
}
use harlan_nuxt.CfJobs.Dispatch.{
  ParsedPayload, parsed, rejected, JobState, JobDefinition, parse_job_input, find_definition,
}
use harlan_nuxt.CfJobs.ReconcileTerminal.{
  DurableJobTerminalized, ReconcileTerminalFailureResult, handled, no_failed_handler,
  context_unavailable, ReconcileError, invalid_json, missing_task, unknown_task, payload_mismatch,
  raised, raise, TaskEnvelope, parse_terminalized_payload, ReconcileTerminalFailureContextInput,
  ReconcileOptions, run_failed_hook, reconcile_parsed, reconcile_hook, reconcile_definition,
  run_terminalized_job_failure,
}

module _ {W E C : Type 0} (opts : ReconcileOptions W E C) (terminalized : DurableJobTerminalized)
    (w : W) where
  -- The payload's text is an object that names the task.
  unfoldable pub IsOpened : String → Fields → Type 0
  IsOpened task fields =
      (opts.json_parse terminalized.payload ≡ returned (obj fields))
      × (text_of (lookup "_task" (entries fields)) ≡ some task)

  -- The hook of the task's definition ran, on the accepted payload without the internal members.
  pub data IsHookRun (task : String) (o : Outcome E (Unit {0})) (end : W) : Type 0 where
    hook_run :
        (fields : Fields) (definition : JobDefinition W E C)
        (failed : Payload → C → E → Action (JobState W) E (Unit {0}))
        (create : ReconcileTerminalFailureContextInput → Action (JobState W) E C)
        (payload : Payload)
        → IsOpened task fields
        → (find_definition opts.registry task w).0 ≡ returned (some definition)
        → definition.on_failed ≡ some failed
        → opts.create_context ≡ some create
        → parse_job_input (some definition) (clean_payload (entries fields)) ≡ parsed payload
        → run_failed_hook opts terminalized failed create
            (record { envelope = entries fields; task = task })
            payload
            (find_definition opts.registry task w).1
          ≡ (o, end)
        → IsHookRun task o end

  -- Nothing ran but the lookup of the task that the payload names.
  abbrev pub IsLookedUp : String → W → Type 0
  IsLookedUp task end =
      ((fields : Fields) × IsOpened task fields) × (end ≡ (find_definition opts.registry task w).1)

  unfoldable pub IsReconciled :
      Outcome (ReconcileError E) ReconcileTerminalFailureResult × W → Type 0
  IsReconciled (returned (handled task), end) = IsHookRun task (returned tt) end
  IsReconciled (returned (no_failed_handler task), end) = IsLookedUp task end
  IsReconciled (returned (context_unavailable task), end) =
      IsLookedUp task end × (opts.create_context ≡ none)
  IsReconciled (threw (invalid_json id cause), end) =
      (id ≡ terminalized.id) × (opts.json_parse terminalized.payload ≡ threw cause) × (end ≡ w)
  IsReconciled (threw (missing_task id), end) = (id ≡ terminalized.id) × (end ≡ w)
  IsReconciled (threw (unknown_task task), end) =
      IsLookedUp task end × ((find_definition opts.registry task w).0 ≡ returned none)
  IsReconciled (threw (payload_mismatch task cause), end) = IsLookedUp task end
  IsReconciled (threw (raised cause), end) =
      (task : String) × ((IsLookedUp task end
          × ((find_definition opts.registry task w).0 ≡ threw cause))
        ⊎ IsHookRun task (threw cause) end)

  module _ (task : String) (fields : Fields) (is_open : IsOpened task fields) where
    abbrev opened : TaskEnvelope
    opened = record { envelope = entries fields; task = task }

    abbrev found : W
    found = (find_definition opts.registry task w).1

    hook-IsReconciled :
        (r : Outcome E (Unit {0}) × W)
        → ((o : Outcome E (Unit {0})) (end : W) → r ≡ (o, end) → IsHookRun task o end)
        → IsReconciled (continue (λ _. pure (handled task)) (raise r.0) r.1)
    unfolding IsReconciled
    hook-IsReconciled (returned tt, end) run = run (returned tt) end refl
    hook-IsReconciled (threw e, end) run = (task, inr (run (threw e) end refl))

    parsed-IsReconciled :
        (definition : JobDefinition W E C)
        (failed : Payload → C → E → Action (JobState W) E (Unit {0}))
        (create : ReconcileTerminalFailureContextInput → Action (JobState W) E C)
        → (find_definition opts.registry task w).0 ≡ returned (some definition)
        → definition.on_failed ≡ some failed
        → opts.create_context ≡ some create
        → (p : ParsedPayload E)
        → parse_job_input (some definition) (clean_payload (entries fields)) ≡ p
        → IsReconciled (reconcile_parsed opts terminalized failed create opened p found)
    unfolding reconcile_parsed IsReconciled
    parsed-IsReconciled definition failed create d f c (rejected cause) e =
        ((fields, is_open), refl)
    parsed-IsReconciled definition failed create d f c (parsed payload) e =
        hook-IsReconciled (run_failed_hook opts terminalized failed create opened payload found)
          (λ o end r. hook_run fields definition failed create payload is_open d f c e r)

    hook_of-IsReconciled :
        (definition : JobDefinition W E C)
        → (find_definition opts.registry task w).0 ≡ returned (some definition)
        → (f : Option (Payload → C → E → Action (JobState W) E (Unit {0})))
        → definition.on_failed ≡ f
        → (c : Option (ReconcileTerminalFailureContextInput → Action (JobState W) E C))
        → opts.create_context ≡ c
        → IsReconciled (reconcile_hook opts terminalized opened definition f c found)
    unfolding reconcile_hook IsReconciled
    hook_of-IsReconciled definition d none f create c = ((fields, is_open), refl)
    hook_of-IsReconciled definition d (some failed) f none c = (((fields, is_open), refl), c)
    hook_of-IsReconciled definition d (some failed) f (some create) c =
        parsed-IsReconciled definition failed create d f c
          (parse_job_input (some definition) (clean_payload (entries fields))) refl

    definition-IsReconciled :
        (o : Outcome E (Option (JobDefinition W E C)))
        → (find_definition opts.registry task w).0 ≡ o
        → IsReconciled (continue (reconcile_definition opts terminalized opened) (raise o) found)
    unfolding reconcile_definition IsReconciled
    definition-IsReconciled (threw e) d = (task, inl (((fields, is_open), refl), d))
    definition-IsReconciled (returned none) d = (((fields, is_open), refl), d)
    definition-IsReconciled (returned (some definition)) d =
        hook_of-IsReconciled definition d definition.on_failed refl opts.create_context refl

  opened-IsReconciled :
      (o : Outcome E Json)
      → opts.json_parse terminalized.payload ≡ o
      → IsReconciled (run_terminalized_job_failure opts terminalized w)
  unfolding run_terminalized_job_failure IsReconciled IsOpened
  opened-IsReconciled (threw cause) e = rw (e, parse_terminalized_payload) (refl, e, refl)
  opened-IsReconciled (returned (obj fields)) e =
      named (text_of (lookup "_task" (entries fields))) refl
    where
      named :
          (t : Option String)
          → text_of (lookup "_task" (entries fields)) ≡ t
          → IsReconciled (run_terminalized_job_failure opts terminalized w)
      named none n = rw (e, n, parse_terminalized_payload) (refl, refl)
      named (some task) n =
          rw (e, n, parse_terminalized_payload)
            (definition-IsReconciled task fields (e, n) (find_definition opts.registry task w).0
              refl)
  opened-IsReconciled (returned null) e = rw (e, parse_terminalized_payload) (refl, refl)
  opened-IsReconciled (returned (bool b)) e = rw (e, parse_terminalized_payload) (refl, refl)
  opened-IsReconciled (returned (num n)) e = rw (e, parse_terminalized_payload) (refl, refl)
  opened-IsReconciled (returned (str s)) e = rw (e, parse_terminalized_payload) (refl, refl)
  opened-IsReconciled (returned (arr items)) e = rw (e, parse_terminalized_payload) (refl, refl)

  -- The failure hook of a job that the sweep ended runs only where its payload is a JSON object that
  -- names a task, the task's definition has the hook, a factory of contexts is given and the
  -- definition accepts the payload without the internal members; `handled` is the answer exactly
  -- where that run returned, and its throw is the only throw after the lookup of the task that is
  -- not an error of the code's own. Every other answer or error comes with nothing run but that
  -- lookup, and the errors of the payload's text before it.
  pub run_terminalized_job_failure-IsReconciled :
      IsReconciled (run_terminalized_job_failure opts terminalized w)
  run_terminalized_job_failure-IsReconciled =
      opened-IsReconciled (opts.json_parse terminalized.payload) refl
