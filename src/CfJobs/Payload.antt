-- ===== src/CfJobs/Payload.antt =====
-- The payload of a job: a JSON object with the internal keys `_task` and `_continuations`, as the
-- dispatcher reads it (packages/nuxt-cf-jobs/src/runtime/server/dispatch.ts) and as a stored
-- failure is opened again (retry.ts). Numbers are whole.
use harlan_nuxt.Prelude.{
  Bool, not, ◌||◌, Option, none, some, List, [], ◌∷◌, keep, String, str_eq, if◌then◌else◌,
}
use harlan_nuxt.Prelude.Int.{ℤ}

mutual
  pub data Json : Type 0 where
    null : Json
    bool : Bool → Json
    num : ℤ → Json
    str : String → Json
    arr : Items → Json
    obj : Fields → Json

  pub data Items : Type 0 where
    nil : Items
    cons : Json → Items → Items

  pub data Fields : Type 0 where
    end : Fields
    field : String → Json → Fields → Fields

abbrev pub Payload : Type 0
Payload = List (String × Json)

abbrev pub entries : Fields → Payload
entries end = []
entries (field k v fs) = (k, v) ∷ entries fs

unfoldable pub lookup {ℓ} : {V : Type ℓ} → String → List (String × V) → Option V
lookup key [] = none
lookup key ((k, v) ∷ pairs) = if str_eq k key then some v else lookup key pairs

-- A key that the dispatcher keeps for itself.
unfoldable pub is_internal : String → Bool
is_internal key = str_eq key "_task" || str_eq key "_continuations"

-- `const { _task, _continuations, ...cleanPayload } = payload`.
unfoldable pub clean_payload : Payload → Payload
unfolding is_internal
clean_payload payload = keep (λ entry. not (is_internal entry.0)) payload

abbrev pub text_of : Option Json → Option String
text_of (some (str s)) = some s
text_of _ = none

abbrev pub if_named : Option String → Option String
if_named none = none
if_named (some s) = if str_eq s "" then none else some s

-- `_task`, where it is a text that is not empty.
unfoldable pub task_name : Payload → Option String
unfolding lookup
task_name payload = if_named (text_of (lookup "_task" payload))
