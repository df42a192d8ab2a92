-- ===== src/CfJobs/Dedup.antt =====
-- The in-memory guard against duplicate deliveries:
-- packages/nuxt-cf-jobs/src/runtime/server/message-dedup.ts. A JavaScript Set is the list of its
-- members in the order of their insertion; the WeakMap of the sets is a list of pairs, by a number
-- for each owner object.
pub mod Window
use mathlib.Core.List.{tail}
use harlan_nuxt.Prelude.{
  ℕ, Bool, true, false, not, ◌&&◌, ◌||◌, Option, none, some, List, [], ◌∷◌, ◌++◌, length, String,
  str_eq, ltb, ◌==◌, if◌then◌else◌,
}

abbrev pub default_message_dedup_capacity : ℕ
default_message_dedup_capacity = 1024

unfoldable pub contains : String → List String → Bool
contains id [] = false
contains id (s ∷ seen) = str_eq s id || contains id seen

-- `Set.add` leaves a member where it is.
unfoldable pub add : String → List String → List String
unfolding contains
add id seen = if contains id seen then seen else seen ++ id ∷ []

unfoldable pub has : Option String → List String → Bool
unfolding contains
has none seen = false
has (some id) seen = not (str_eq id "") && contains id seen

-- Above the capacity the oldest member goes.
unfoldable pub evict : ℕ → List String → List String
evict capacity seen = if ltb capacity (length seen) then tail seen else seen

unfoldable pub mark : ℕ → Option String → List String → List String
unfolding add evict
mark capacity none seen = seen
mark capacity (some id) seen = if str_eq id "" then seen else evict capacity (add id seen)

pub mark_all : ℕ → List (Option String) → List String → List String
mark_all capacity [] seen = seen
mark_all capacity (id ∷ ids) seen = mark_all capacity ids (mark capacity id seen)

-- The set of an owner, empty at the first use, and how a changed one is kept.
unfoldable pub object_seen : ℕ → List (ℕ × List String) → List String
object_seen owner [] = []
object_seen owner ((o, seen) ∷ sets) = if o == owner then seen else object_seen owner sets

unfoldable pub keep_seen : ℕ → List String → List (ℕ × List String) → List (ℕ × List String)
keep_seen owner seen [] = (owner, seen) ∷ []
keep_seen owner seen ((o, old) ∷ sets) =
    if o == owner then (o, seen) ∷ sets else (o, old) ∷ keep_seen owner seen sets
