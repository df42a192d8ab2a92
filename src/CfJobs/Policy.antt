-- ===== src/CfJobs/Policy.antt =====
-- The delay policies of a job: packages/nuxt-cf-jobs/src/runtime/server/policy.ts, the retry
-- backoff of queue.ts and of runtime.ts, and the in-flight policy of outbox.ts. Delays and counts
-- are whole numbers; a delay that a program configures may be negative, as in the source.
pub mod Bounds
use harlan_nuxt.Prelude.{
  ℕ, suc, ◌+◌, ◌-◌, ◌*◌, ◌^◌, min, max, Bool, true, false, Option, none, some, List, [], ◌∷◌, map,
  length, get_elem?, or_else, any, ltb, if◌then◌else◌,
}
use harlan_nuxt.Prelude.Int.{ℤ, pos, negsuc}

-- The cap on `delaySeconds` of a send (24 hours).
abbrev pub cf_queue_max_delay_seconds : ℕ
cf_queue_max_delay_seconds = 86400

unfoldable pub clamp_delay : Option ℤ → Option ℕ
clamp_delay none = none
clamp_delay (some (negsuc n)) = some 0
clamp_delay (some (pos n)) = some (min n cf_queue_max_delay_seconds)

-- `number | number[] | (attempt) => number`.
pub data JobBackoff : Type 0 where
  fixed : ℤ → JobBackoff
  steps : List ℤ → JobBackoff
  computed : (ℕ → ℤ) → JobBackoff

-- The fields of a job definition that the policies read.
pub record JobPolicy : Type 0 where
  pub tries : Option ℕ
  pub backoff : Option JobBackoff

unfoldable pub resolve_job_max_attempts : Option JobPolicy → Option ℕ
resolve_job_max_attempts none = none
resolve_job_max_attempts (some definition) = definition.tries

-- An index below the list stops at its first entry (truncated `-`), one above it at its last; on
-- an empty list the source reads index -1, which is `undefined`.
unfoldable pub resolve_job_backoff : Option JobBackoff → ℕ → Option ℕ
unfolding clamp_delay
resolve_job_backoff none attempt = clamp_delay none
resolve_job_backoff (some (fixed delay)) attempt = clamp_delay (some delay)
resolve_job_backoff (some (steps delays)) attempt =
    clamp_delay (get_elem? delays (min (attempt - 1) (length delays - 1)))
resolve_job_backoff (some (computed f)) attempt = clamp_delay (some (f attempt))

pub record BackoffOptions : Type 0 where
  pub base_seconds : Option ℕ
  pub max_seconds : Option ℕ

abbrev backoff_of : Option JobPolicy → Option JobBackoff
backoff_of none = none
backoff_of (some definition) = definition.backoff

unfoldable pub resolve_job_retry_delay : Option JobPolicy → ℕ → BackoffOptions → ℕ
unfolding resolve_job_backoff
resolve_job_retry_delay definition attempt opts =
    elim (resolve_job_backoff (backoff_of definition) attempt) [
      | some configured ↦ configured
      | none ↦
          let base = or_else opts.base_seconds 10 in
          let most = min (or_else opts.max_seconds 300) cf_queue_max_delay_seconds in
          min (base * 2 ^ (attempt - 1)) most
    ]

unfoldable pub exponential_backoff : ℕ → BackoffOptions → ℕ
exponential_backoff attempts opts =
    let base = or_else opts.base_seconds 30 in
    let most = min (or_else opts.max_seconds 300) cf_queue_max_delay_seconds in
    min (base * 2 ^ attempts) most

-- What `JSON.parse` gives for a stored backoff: no JSON, no array, or an array whose entries are
-- whole numbers or something that is no finite number.
pub data Delay : Type 0 where
  seconds : ℤ → Delay
  not_a_number : Delay

pub data ParsedBackoff : Type 0 where
  invalid_json not_an_array : ParsedBackoff
  array : List Delay → ParsedBackoff

unfoldable pub is_bad_delay : Delay → Bool
is_bad_delay not_a_number = true
is_bad_delay (seconds (negsuc n)) = true
is_bad_delay (seconds (pos n)) = false

abbrev delay_seconds : Option Delay → ℕ
delay_seconds (some (seconds (pos n))) = n
delay_seconds _ = 0

-- The entry for an attempt, in a list that was found to hold good delays only.
unfoldable pub stored_delay : List Delay → ℕ → ℕ
stored_delay [] attempts = 0
stored_delay (d ∷ ds) attempts =
    delay_seconds (get_elem? (d ∷ ds) (min (attempts - 1) (length (d ∷ ds) - 1)))

-- The delay, and whether `onInvalid` (or the console) is told of a bad stored value. The stored
-- text is `none` when the column is empty; `parse` stands for `JSON.parse`.
unfoldable pub resolve_stored_job_retry_delay :
    {Text : Type 0} → (Text → ParsedBackoff) → Option Text → ℕ → ℕ × Bool
unfolding is_bad_delay stored_delay
resolve_stored_job_retry_delay parse none attempts = (0, false)
resolve_stored_job_retry_delay parse (some backoff) attempts = elim (parse backoff) [
  | invalid_json ↦ (0, true)
  | not_an_array ↦ (0, true)
  | array delays ↦
      if any is_bad_delay delays then (0, true) else (stored_delay delays attempts, false)
]

-- The ceiling for the delay of a retry (12 hours).
abbrev pub cf_queue_max_retry_delay_seconds : ℕ
cf_queue_max_retry_delay_seconds = 43200

abbrev pub default_in_flight_base_delay_seconds : ℕ
default_in_flight_base_delay_seconds = 60

abbrev pub default_max_in_flight_retries : ℕ
default_max_in_flight_retries = 2

pub data DurableJobInFlightOutcome : Type 0 where
  retried : (deliveries delay_seconds : ℕ) → DurableJobInFlightOutcome
  handed_to_recovery : (deliveries : ℕ) → DurableJobInFlightOutcome
  obsolete_delivery : DurableJobInFlightOutcome

unfoldable pub normalize_deliveries : Option ℕ → ℕ
normalize_deliveries none = 1
normalize_deliveries (some value) = max value 1

unfoldable pub clamp_retry_delay_seconds : ℤ → ℕ
clamp_retry_delay_seconds (negsuc n) = 0
clamp_retry_delay_seconds (pos n) = min n cf_queue_max_retry_delay_seconds

-- `number | (input) => number`.
pub data InFlightRetryDelaySeconds : Type 0 where
  every : ℤ → InFlightRetryDelaySeconds
  by_delivery : (ℕ → ℤ) → InFlightRetryDelaySeconds

abbrev configured_delay : Option InFlightRetryDelaySeconds → ℕ → Option ℤ
configured_delay none deliveries = none
configured_delay (some (every delay)) deliveries = some delay
configured_delay (some (by_delivery f)) deliveries = some (f deliveries)

-- The job id is passed to the configured function only, so `by_delivery` holds that function at
-- the message's job.
unfoldable pub resolve_in_flight_claim_miss :
    Option ℕ → Option InFlightRetryDelaySeconds → Option ℕ → DurableJobInFlightOutcome
unfolding normalize_deliveries clamp_retry_delay_seconds
resolve_in_flight_claim_miss given delay max_retries =
    let deliveries = normalize_deliveries given in
    let most = or_else max_retries default_max_in_flight_retries in
    if ltb most deliveries
    then handed_to_recovery deliveries
    else retried deliveries (
        clamp_retry_delay_seconds (
          or_else (configured_delay delay deliveries)
            (pos (default_in_flight_base_delay_seconds * 2 ^ (deliveries - 1)))))
