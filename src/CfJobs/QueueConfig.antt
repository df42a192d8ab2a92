-- ===== src/CfJobs/QueueConfig.antt =====
-- The configuration of the queues: how packages/nuxt-cf-jobs/src/runtime/server/queue.ts resolves
-- the names of queues and bindings, and what it validates. An object is the list of its entries, in
-- their order; the texts of the issues are left out.
pub mod RoundTrip
use harlan_nuxt.Prelude.{
  ℕ, ◌+◌, Bool, true, false, not, ◌&&◌, ◌||◌, Option, none, some, List, [], ◌∷◌, ◌++◌, or_else,
  String, str_eq, ltb, if◌then◌else◌,
}
use harlan_nuxt.Prelude.Effect.{Outcome, returned, threw}
use harlan_nuxt.CfJobs.Payload.{lookup}

pub record QueueBindingConfig : Type 0 where
  pub binding : String
  pub queue_name : Option String
  pub job_type : Option String
  pub max_retries : Option ℕ
  pub dead_letter_queue : Option String
  pub dead_letter_queue_binding : Option String

-- A binding's name alone, or a configuration.
pub data QueueEntry : Type 0 where
  named : (binding : String) → QueueEntry
  configured : QueueBindingConfig → QueueEntry

abbrev pub QueueBindingsConfig : Type 0
QueueBindingsConfig = List (String × QueueEntry)

abbrev pub binding_of : QueueEntry → String
binding_of (named binding) = binding
binding_of (configured config) = config.binding

abbrev binding_name : Option QueueEntry → Option String
binding_name none = none
binding_name (some entry) = some (binding_of entry)

unfoldable pub resolve_queue_binding_name : QueueBindingsConfig → String → Option String
unfolding lookup
resolve_queue_binding_name queues name = binding_name (lookup name queues)

abbrev pub cloudflare_name : String → Option QueueEntry → String
cloudflare_name name none = name
cloudflare_name name (some (named binding)) = name
cloudflare_name name (some (configured config)) = or_else config.queue_name name

unfoldable pub resolve_cloudflare_queue_name : QueueBindingsConfig → String → String
unfolding lookup
resolve_cloudflare_queue_name queues name = cloudflare_name name (lookup name queues)

abbrev pub is_named_so : String → String → QueueEntry → Bool
is_named_so cloudflare name (named binding) = str_eq name cloudflare
is_named_so cloudflare name (configured config) = false

-- The loop over the entries of the configuration `queues`.
unfoldable pub resolve_logical_from :
    QueueBindingsConfig → QueueBindingsConfig → String → Option String
unfolding resolve_cloudflare_queue_name
resolve_logical_from queues [] cloudflare = none
resolve_logical_from queues ((name, entry) ∷ entries) cloudflare =
    let rest = resolve_logical_from queues entries cloudflare in
    if str_eq (resolve_cloudflare_queue_name queues name) cloudflare
    then some name
    else if is_named_so cloudflare name entry
    then some name
    else rest

unfoldable pub resolve_logical_queue_name : QueueBindingsConfig → String → Option String
unfolding resolve_logical_from
resolve_logical_queue_name queues cloudflare = resolve_logical_from queues queues cloudflare

abbrev job_type_name : Option QueueEntry → Option String
job_type_name none = none
job_type_name (some (named binding)) = none
job_type_name (some (configured config)) = config.job_type

unfoldable pub resolve_queue_job_type : QueueBindingsConfig → String → Option String
unfolding lookup
resolve_queue_job_type queues name = job_type_name (lookup name queues)

-- An empty text counts as none.
abbrev pub filled : Option String → Option String
filled none = none
filled (some s) = if str_eq s "" then none else some s

-- The binding of the first queue whose Cloudflare name is the dead-letter queue's.
unfoldable pub dlq_binding_from : QueueBindingsConfig → QueueBindingsConfig → String → Option String
unfolding resolve_cloudflare_queue_name
dlq_binding_from queues [] dead_letter_queue = none
dlq_binding_from queues ((name, entry) ∷ entries) dead_letter_queue =
    let rest = dlq_binding_from queues entries dead_letter_queue in
    if str_eq (resolve_cloudflare_queue_name queues name) dead_letter_queue
    then some (binding_of entry)
    else rest

abbrev dlq_by_name : QueueBindingsConfig → Option String → Option String
dlq_by_name queues none = none
dlq_by_name queues (some dead_letter_queue) = dlq_binding_from queues queues dead_letter_queue

abbrev dlq_of_config : QueueBindingsConfig → QueueBindingConfig → Option String → Option String
dlq_of_config queues config (some binding) = some binding
dlq_of_config queues config none = dlq_by_name queues (filled config.dead_letter_queue)

abbrev dlq_of_entry : QueueBindingsConfig → Option QueueEntry → Option String
dlq_of_entry queues (some (configured config)) =
    dlq_of_config queues config (filled config.dead_letter_queue_binding)
dlq_of_entry queues _ = none

unfoldable pub resolve_dlq_binding : QueueBindingsConfig → String → Option String
unfolding dlq_binding_from lookup
resolve_dlq_binding queues name = dlq_of_entry queues (lookup name queues)

-- A job that names a queue without a binding, in the order of the jobs: the name and the queue.
unfoldable pub validate_job_queue_bindings :
    QueueBindingsConfig → List (String × String) → List (String × String)
unfolding resolve_queue_binding_name
validate_job_queue_bindings queues [] = []
validate_job_queue_bindings queues ((job, queue) ∷ jobs) =
    let rest = validate_job_queue_bindings queues jobs in
    elim (filled (resolve_queue_binding_name queues queue)) [
      | none ↦ (job, queue) ∷ rest
      | some _ ↦ rest
    ]

unfoldable pub assert_job_queue_bindings :
    {E : Type 0}
    → (List (String × String) → E)
    → QueueBindingsConfig
    → List (String × String)
    → Outcome E (Unit {0})
unfolding validate_job_queue_bindings
assert_job_queue_bindings missing queues jobs = elim (validate_job_queue_bindings queues jobs) [
  | [] ↦ returned tt
  | issue ∷ issues ↦ threw (missing (issue ∷ issues))
]

pub data ShapeReason : Type 0 where
  missing_binding dlq_pair_incomplete duplicate_binding duplicate_cf_queue_name : ShapeReason

pub record QueueShapeIssue : Type 0 where
  pub queue : String
  pub reason : ShapeReason

-- A Map from a name to the logical queue that has it; an empty queue name counts as none.
abbrev pub is_taken_by_other : String → Option String → Bool
is_taken_by_other logical none = false
is_taken_by_other logical (some other) = not (str_eq other "") && not (str_eq other logical)

abbrev pub duplicate : ShapeReason → String → String → List (String × String) → List QueueShapeIssue
duplicate reason logical name seen =
    if is_taken_by_other logical (lookup name seen)
    then record { queue = logical; reason = reason } ∷ []
    else []

-- `Map.set`, newest first; the lookup finds the newest.
abbrev pub seen_after : String → String → List (String × String) → List (String × String)
seen_after logical name seen =
    if is_taken_by_other logical (lookup name seen) then seen else (name, logical) ∷ seen

abbrev is_set : Option String → Bool
is_set o = elim (filled o) [ none ↦ false | some _ ↦ true ]

abbrev differ : Bool → Bool → Bool
differ a b = (a && not b) || (not a && b)

abbrev pub dlq_issue : String → QueueEntry → List QueueShapeIssue
dlq_issue logical (named binding) = []
dlq_issue logical (configured config) =
    if differ (is_set config.dead_letter_queue) (is_set config.dead_letter_queue_binding)
    then record { queue = logical; reason = dlq_pair_incomplete } ∷ []
    else []

unfoldable pub shape_from :
    QueueBindingsConfig
    → QueueBindingsConfig
    → (bindings names : List (String × String)) → List QueueShapeIssue
unfolding resolve_cloudflare_queue_name lookup
shape_from queues [] bindings names = []
shape_from queues ((logical, entry) ∷ entries) bindings names =
    let cf = resolve_cloudflare_queue_name queues logical in
    let passed = shape_from queues entries bindings names in
    let rest =
      shape_from queues entries (seen_after logical (binding_of entry) bindings)
        (seen_after logical cf names) in
    if str_eq (binding_of entry) ""
    then record { queue = logical; reason = missing_binding } ∷ passed
    else duplicate duplicate_binding logical (binding_of entry) bindings
      ++ (duplicate duplicate_cf_queue_name logical cf names ++ (dlq_issue logical entry ++ rest))

unfoldable pub validate_queue_binding_shape : QueueBindingsConfig → List QueueShapeIssue
unfolding shape_from
validate_queue_binding_shape queues = shape_from queues queues [] []

unfoldable pub define_cf_jobs_queues :
    {E : Type 0} → (List QueueShapeIssue → E) → QueueBindingsConfig → Outcome E QueueBindingsConfig
unfolding validate_queue_binding_shape
define_cf_jobs_queues invalid queues = elim (validate_queue_binding_shape queues) [
  | [] ↦ returned queues
  | issue ∷ issues ↦ threw (invalid (issue ∷ issues))
]
