-- ===== src/CfJobs/Policy/Bounds.antt =====
-- Bounds of the delay policies.
use native.Mathlib.Nat.{pow-le-pow_right, mul-le-mul_left}
use harlan_nuxt.Prelude.{
  ℕ, ◌-◌, ◌*◌, ◌^◌, ◌≤◌, ◌<◌, min, ◌≡◌, refl, ◌⊎◌, inl, inr, Option, none, some, List, [], ◌∷◌,
  length, get_elem?, or_else, Bool-cases, Option-cases, ltb, ltb→lt, zero, suc, arith,
}
use harlan_nuxt.Prelude.Int.{ℤ, pos, negsuc}
use harlan_nuxt.CfJobs.Policy.{
  cf_queue_max_delay_seconds, clamp_delay, JobBackoff, fixed, steps, computed, JobPolicy,
  resolve_job_backoff, BackoffOptions, backoff_of, resolve_job_retry_delay, exponential_backoff,
  Delay, seconds, not_a_number, default_in_flight_base_delay_seconds, default_max_in_flight_retries,
  retried, handed_to_recovery, normalize_deliveries, InFlightRetryDelaySeconds, every, by_delivery,
  configured_delay, clamp_retry_delay_seconds, resolve_in_flight_claim_miss,
}

clamp_delay_bound : (d : Option ℤ) {n : ℕ} → clamp_delay d ≡ some n → n ≤ cf_queue_max_delay_seconds
unfolding clamp_delay
clamp_delay_bound d h = ground arith

resolve_job_backoff_bound :
    (b : Option JobBackoff) (attempt n : ℕ)
    → resolve_job_backoff b attempt ≡ some n
    → n ≤ cf_queue_max_delay_seconds
unfolding resolve_job_backoff
resolve_job_backoff_bound none attempt n h = clamp_delay_bound none h
resolve_job_backoff_bound (some (fixed d)) attempt n h = clamp_delay_bound (some d) h
resolve_job_backoff_bound (some (steps ds)) attempt n h =
    clamp_delay_bound (get_elem? ds (min (attempt - 1) (length ds - 1))) h
resolve_job_backoff_bound (some (computed f)) attempt n h = clamp_delay_bound (some (f attempt)) h

-- Whatever backoff a job configures, and whatever the attempt and the options, the retry delay is
-- at most 86400 seconds; so is the plain exponential backoff.
pub retry_delay_bounds :
    (definition : Option JobPolicy) (attempt : ℕ) (opts : BackoffOptions)
    → (resolve_job_retry_delay definition attempt opts ≤ cf_queue_max_delay_seconds)
      × (exponential_backoff attempt opts ≤ cf_queue_max_delay_seconds)
unfolding resolve_job_retry_delay exponential_backoff
retry_delay_bounds definition attempt opts = (
  elim (Option-cases (resolve_job_backoff (backoff_of definition) attempt)) [
    | inl unset ↦ rw (unset, resolve_job_retry_delay) (omega arith)
    | inr (n, set) ↦
        rw (set, resolve_job_retry_delay)
          (resolve_job_backoff_bound (backoff_of definition) attempt n set)
  ],
  omega arith,
)

growth : (base most : ℕ) {a b : ℕ} → a ≤ b → min (base * 2 ^ a) most ≤ min (base * 2 ^ b) most
growth base most {a} {b} h =
    omega (arith, mul-le-mul_left base (pow-le-pow_right {n = 2} (omega arith) h))

-- With no backoff in the definition the delay never falls as the attempts grow, and it stays at
-- most the `maxSeconds` option (300 seconds when that is unset).
pub default_delay_grows :
    (tries : Option ℕ) (opts : BackoffOptions) (a b : ℕ)
    → a ≤ b
    → let d : Option JobPolicy = some (record { tries = tries; backoff = none }) in
      (resolve_job_retry_delay d a opts ≤ resolve_job_retry_delay d b opts)
      × (resolve_job_retry_delay d b opts ≤ or_else opts.max_seconds 300)
unfolding resolve_job_retry_delay resolve_job_backoff clamp_delay
default_delay_grows tries opts a b h = (
  growth (or_else opts.base_seconds 10) (min (or_else opts.max_seconds 300) 86400) (omega arith),
  omega arith,
)

-- The delivery that a count stands for.
abbrev pub delivery : Option ℕ → ℕ
delivery none = 1
delivery (some zero) = 1
delivery (some (suc n)) = suc n

normalize-delivery : (given : Option ℕ) → normalize_deliveries given ≡ delivery given
unfolding normalize_deliveries
normalize-delivery none = refl
normalize-delivery (some zero) = refl
normalize-delivery (some (suc n)) = omega arith

-- The delay that is asked for: the configured one, or one that doubles from 60 seconds.
abbrev pub IsAskedFor : Option InFlightRetryDelaySeconds → ℕ → ℤ → Type 0
IsAskedFor none deliveries asked = asked ≡ pos (60 * 2 ^ (deliveries - 1))
IsAskedFor (some (every delay)) deliveries asked = asked ≡ delay
IsAskedFor (some (by_delivery f)) deliveries asked = asked ≡ f deliveries

-- What the platform may be given for it: within 0 and 43200.
abbrev pub IsClamped : ℤ → ℕ → Type 0
IsClamped (negsuc n) s = s ≡ 0
IsClamped (pos n) s = (s ≤ n) × (s ≤ 43200) × ((s ≡ n) ⊎ (s ≡ 43200))

clamp-IsClamped : (asked : ℤ) → IsClamped asked (clamp_retry_delay_seconds asked)
unfolding clamp_retry_delay_seconds
clamp-IsClamped (negsuc n) = refl
clamp-IsClamped (pos n) = ground arith

asked_for :
    (delay : Option InFlightRetryDelaySeconds) (deliveries : ℕ)
    → IsAskedFor delay deliveries (
        or_else
          (configured_delay delay deliveries)
          (pos (default_in_flight_base_delay_seconds * 2 ^ (deliveries - 1))))
asked_for none deliveries = refl
asked_for (some (every delay)) deliveries = refl
asked_for (some (by_delivery f)) deliveries = refl

-- An in-flight message whose count of deliveries, of which a missing or zero one is the first, is
-- above the bound on retries (2 where none is given) is handed to the recovery sweep; another one is
-- retried, with the configured delay, or with one that doubles from 60 seconds for the first
-- delivery, taken as 0 where it is negative and as 43200 where it is above that.
pub in_flight_policy :
    (given : Option ℕ) (delay : Option InFlightRetryDelaySeconds) (max_retries : Option ℕ)
    → let outcome = resolve_in_flight_claim_miss given delay max_retries in
      ((or_else max_retries 2 < delivery given) × (outcome ≡ handed_to_recovery (delivery given)))
      ⊎ ((s : ℕ) × (asked : ℤ) × (delivery given ≤ or_else max_retries 2)
          × (outcome ≡ retried (delivery given) s)
          × IsAskedFor delay (delivery given) asked
          × IsClamped asked s)
unfolding resolve_in_flight_claim_miss
in_flight_policy given delay max_retries =
    rw (normalize-delivery given) (elim (Bool-cases (ltb most (delivery given))) [
      | inl over ↦ inl (ltb→lt _ _ over, rw over refl)
      | inr under ↦ inr (
        clamp_retry_delay_seconds asked,
        asked,
        ground arith,
        rw under refl,
        asked_for delay (delivery given),
        clamp-IsClamped asked,
      )
    ])
  where
    most : ℕ
    most = or_else max_retries default_max_in_flight_retries

    asked : ℤ
    asked =
        or_else (configured_delay delay (delivery given))
          (pos (default_in_flight_base_delay_seconds * 2 ^ (delivery given - 1)))

-- The entry that a stored backoff gives for an attempt.
abbrev entry : List Delay → ℕ → Option Delay
entry delays attempts = get_elem? delays (min (attempts - 1) (length delays - 1))

-- A delay that a retry may have: a whole number of seconds that is not negative.
abbrev pub IsGoodDelay : Delay → Type 0
IsGoodDelay (seconds (pos n)) = Unit
IsGoodDelay (seconds (negsuc n)) = ⊥
IsGoodDelay not_a_number = ⊥

-- The delay of an attempt: the first attempt has the first, each later one the next, the last stays.
abbrev pub planned : Delay → List Delay → ℕ → Delay
planned d [] attempts = d
planned d (e ∷ ds) zero = d
planned d (e ∷ ds) (suc zero) = d
planned d (e ∷ ds) (suc (suc n)) = planned e ds (suc n)
