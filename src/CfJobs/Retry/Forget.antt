-- ===== src/CfJobs/Retry/Forget.antt =====
-- A failed job is forgotten after it was enqueued again, and its envelope keeps what is its own.
use harlan_nuxt.Prelude.{
  ◌≡◌, refl, ap, ◌∙◌, ◌≢◌, ◌⊎◌, inl, inr, Bool, true, false, Bool-cases, Option, none, some, [],
  ◌∷◌, String, str_eq, eq_iff,
}
use harlan_nuxt.Prelude.Effect.{returned, Outcome-cases}
use harlan_nuxt.CfJobs.Payload.{Json, Payload, lookup, is_internal, clean_payload}
use harlan_nuxt.CfJobs.Retry.{
  FailedJobEnvelope, ok, no_task, invalid_json, parse_failed_job_envelope, RedispatchFailedJobDeps,
  redispatch_envelope, redispatch_loaded, redispatch_failed_job,
}

lookup-kept :
    (key : String) (payload : Payload)
    → is_internal key ≡ false
    → lookup key (clean_payload payload) ≡ lookup key payload
unfolding lookup clean_payload
lookup-kept key [] own = refl
lookup-kept key ((k, v) ∷ payload) own = elim (Bool-cases (str_eq k key)) [
  | inl same ↦ rw (ap is_internal ((eq_iff k key).0 same) ∙ own) (rw same refl)
  | inr other ↦ elim (Bool-cases (is_internal k)) [
    | inl t ↦ rw t (rw other (lookup-kept key payload own))
    | inr f ↦ rw f (rw other (lookup-kept key payload own))
  ]
]

lookup-dropped :
    (key : String) (payload : Payload)
    → is_internal key ≡ true
    → lookup key (clean_payload payload) ≡ none
unfolding lookup clean_payload
lookup-dropped key [] internal = refl
lookup-dropped key ((k, v) ∷ payload) internal = elim (Bool-cases (is_internal k)) [
  | inl t ↦ rw t (lookup-dropped key payload internal)
  | inr f ↦ elim (Bool-cases (str_eq k key)) [
    | inl same ↦ absurd (cc (f, internal, ap is_internal ((eq_iff k key).0 same)))
    | inr other ↦ rw f (rw other (lookup-dropped key payload internal))
  ]
]

-- Dropping the internal members of a payload: `_task` and `_continuations` are absent afterwards,
-- and a member of any other name reads as it did.
pub clean_payload_lem :
    (key : String) (payload : Payload)
    → (((key ≡ "_task") ⊎ (key ≡ "_continuations")) × (lookup key (clean_payload payload) ≡ none))
      ⊎ ((key ≢ "_task")
          × (key ≢ "_continuations")
          × (lookup key (clean_payload payload) ≡ lookup key payload))
unfolding is_internal
clean_payload_lem key payload = elim (Bool-cases (str_eq key "_task")) [
  | inl t ↦ inl (inl ((eq_iff key "_task").0 t), lookup-dropped key payload (rw t refl))
  | inr f ↦ elim (Bool-cases (str_eq key "_continuations")) [
    | inl t ↦
        inl (inr ((eq_iff key "_continuations").0 t), lookup-dropped key payload (rw f (rw t refl)))
    | inr g ↦ inr (
      (λ e. absurd (cc (f, (eq_iff key "_task").1 e))),
      (λ e. absurd (cc (g, (eq_iff key "_continuations").1 e))),
      lookup-kept key payload (rw f (rw g refl)),
    )
  ]
]

module _ {W E : Type 0} (parse : String → Option Json) (deps : RedispatchFailedJobDeps W E)
    (is_recorded : W → Bool) (loads : (w : W) → is_recorded (deps.load_failure w).1 ≡ is_recorded w)
    (enqueues : (name : String) (payload : Payload) (w : W)
      → is_recorded (deps.enqueue name payload w).1 ≡ is_recorded w) where
  -- Why the record of the failure may have changed: the job of its envelope was enqueued.
  pub data IsForgotten (w : W) : Type 0 where
    forgotten :
        (text name : String) (payload : Payload) (job_id : String) (s : W)
        → (deps.load_failure w).0 ≡ returned (some text)
        → parse_failed_job_envelope parse text ≡ ok name payload
        → (deps.enqueue name payload s).0 ≡ returned job_id
        → IsForgotten w

  -- Where loading and enqueueing leave the record of the failure alone: after a retry, whether it
  -- returns or throws, the record is as it was, unless the job that its text names was enqueued.
  pub redispatch_failed_job_lem :
      (w : W) → (is_recorded (redispatch_failed_job parse deps w).1 ≡ is_recorded w) ⊎ IsForgotten w
  unfolding redispatch_failed_job redispatch_envelope
  redispatch_failed_job_lem w = elim (Outcome-cases (deps.load_failure w).0) [
    | inr (error, e) ↦ rw e (inl (loads w))
    | inl (none, e) ↦ rw (e, redispatch_loaded) (inl (loads w))
    | inl (some text, e) ↦
        rw (e, redispatch_loaded) (opened text e (parse_failed_job_envelope parse text) refl)
  ]
    where
      opened :
          (text : String)
          → (deps.load_failure w).0 ≡ returned (some text)
          → (envelope : FailedJobEnvelope) → parse_failed_job_envelope parse text ≡ envelope
          → (is_recorded (redispatch_envelope parse deps envelope (deps.load_failure w).1).1
              ≡ is_recorded w)
            ⊎ IsForgotten w
      opened text e no_task p = inl (loads w)
      opened text e invalid_json p = inl (loads w)
      opened text e (ok name payload) p =
          elim (Outcome-cases (deps.enqueue name payload (deps.load_failure w).1).0) [
            | inl (job_id, sent) ↦
                inr (forgotten text name payload job_id (deps.load_failure w).1 e p sent)
            | inr (error, lost) ↦
                rw (lost, redispatch_envelope)
                  (inl (enqueues name payload (deps.load_failure w).1 ∙ loads w))
          ]
