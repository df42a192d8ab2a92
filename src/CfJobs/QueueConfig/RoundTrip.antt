-- ===== src/CfJobs/QueueConfig/RoundTrip.antt =====
-- A validated configuration names its queues without ambiguity: the Cloudflare name of a logical
-- queue leads back to it.
use mathlib.Core.List.{Memᴰ}
use mathlib.Core.Path.{subst}
use harlan_nuxt.Prelude.{
  ◌≡◌, refl, sym, inl, inr, Bool, true, false, some, List, [], ◌∷◌, ◌++◌, All, String, str_eq,
  eq_refl, Bool-cases, if◌then◌else◌,
}
use harlan_nuxt.CfJobs.JobStore.Rows.{mem-All, All-of_mem}
use harlan_nuxt.CfJobs.Payload.{lookup}
use harlan_nuxt.CfJobs.QueueConfig.{
  QueueEntry, named, configured, QueueBindingsConfig, binding_of, resolve_cloudflare_queue_name,
  is_named_so, resolve_logical_from, resolve_logical_queue_name, QueueShapeIssue, is_taken_by_other,
  duplicate, seen_after, dlq_issue, shape_from, duplicate_binding, duplicate_cf_queue_name,
  validate_queue_binding_shape,
}

-- An object holds a key once.
abbrev pub HasDistinctKeys {ℓ} : {V : Type ℓ} → List (String × V) → Type ℓ
HasDistinctKeys [] = Unit
HasDistinctKeys (x ∷ xs) = All (λ y. str_eq x.0 y.0 ≡ false) xs × HasDistinctKeys xs

-- The names that earlier entries have taken: each by a queue that has a name, and none of those
-- still to come.
abbrev IsEarlier : QueueBindingsConfig → String × String → Type 0
IsEarlier entries p = (str_eq p.1 "" ≡ false) × All (λ x. str_eq p.1 x.0 ≡ false) entries

abbrev Lacks : String → List (String × String) → Type 0
Lacks name seen = All (λ p. str_eq p.0 name ≡ false) seen

not_taken :
    (logical name : String) (seen : List (String × String))
    → All (λ p. (str_eq p.1 "" ≡ false) × (str_eq p.1 logical ≡ false)) seen
    → is_taken_by_other logical (lookup name seen) ≡ false
    → Lacks name seen
unfolding lookup
not_taken logical name [] h e = tt
not_taken logical name ((c, other) ∷ seen) h e = elim (Bool-cases (str_eq c name)) [
  | inl t ↦ absurd (cc (rw (t, h.0.0, h.0.1) at e))
  | inr f ↦ (f, not_taken logical name seen h.1 (rw f at e))
]

append_empty : {A : Type 0} (xs ys : List A) → xs ++ ys ≡ [] → (xs ≡ []) × (ys ≡ [])
append_empty [] ys e = (refl, e)
append_empty (x ∷ xs) ys e = absurd (cc)

no_duplicate :
    (b : Bool) (issue : QueueShapeIssue) → (if b then issue ∷ [] else []) ≡ [] → b ≡ false
no_duplicate true issue e = absurd (cc)
no_duplicate false issue e = refl

module _ (queues : QueueBindingsConfig) where
  abbrev cf : String → String
  cf name = resolve_cloudflare_queue_name queues name

  -- The names of the entries are told apart.
  abbrev pub HasDistinctNames : QueueBindingsConfig → Type 0
  HasDistinctNames [] = Unit
  HasDistinctNames (x ∷ xs) = All (λ y. str_eq (cf x.0) (cf y.0) ≡ false) xs × HasDistinctNames xs

  -- Where the first entry has no issue, its name is new, and the rest is checked with it.
  shape_step :
      (logical : String) (entry : QueueEntry) (entries : QueueBindingsConfig)
      (bindings names : List (String × String))
      → shape_from queues ((logical, entry) ∷ entries) bindings names ≡ []
      → (is_taken_by_other logical (lookup (cf logical) names) ≡ false)
        × (shape_from queues entries
              (seen_after logical (binding_of entry) bindings)
              ((cf logical, logical) ∷ names)
            ≡ [])
  unfolding shape_from
  shape_step logical entry entries bindings names e =
      elim (Bool-cases (str_eq (binding_of entry) "")) [
        | inl t ↦ absurd (cc (rw t at e))
        | inr f ↦
            let (_, rest) =
              append_empty (duplicate duplicate_binding logical (binding_of entry) bindings) _
                (rw f at e) in
            let (own, later) =
              append_empty (duplicate duplicate_cf_queue_name logical (cf logical) names) _ rest in
            let (_, last) = append_empty (dlq_issue logical entry) _ later in
            let free = no_duplicate _ _ own in (free, rw free at last)
      ]

  firsts :
      (logical : String) (entry : QueueEntry) (entries : QueueBindingsConfig)
      (seen : List (String × String))
      → All (IsEarlier ((logical, entry) ∷ entries)) seen
      → All (λ p. (str_eq p.1 "" ≡ false) × (str_eq p.1 logical ≡ false)) seen
  firsts logical entry entries [] h = tt
  firsts logical entry entries (p ∷ seen) h =
      ((h.0.0, h.0.1.0), firsts logical entry entries seen h.1)

  rests :
      (x : String × QueueEntry) (entries : QueueBindingsConfig) (seen : List (String × String))
      → All (IsEarlier (x ∷ entries)) seen
      → All (IsEarlier entries) seen
  rests x entries [] h = tt
  rests x entries (p ∷ seen) h = ((h.0.0, h.0.1.1), rests x entries seen h.1)

  heads :
      (p : String × String) (seen : List (String × String)) (entries : QueueBindingsConfig)
      → All (λ x. Lacks (cf x.0) (p ∷ seen)) entries
      → All (λ x. str_eq p.0 (cf x.0) ≡ false) entries × All (λ x. Lacks (cf x.0) seen) entries
  heads p seen [] h = (tt, tt)
  heads p seen (x ∷ xs) h = let (a, b) = heads p seen xs h.1 in ((h.0.0, a), (h.0.1, b))

  shape_distinct :
      (entries : QueueBindingsConfig) (bindings seen : List (String × String))
      → HasDistinctKeys entries
      → All (λ x. str_eq x.0 "" ≡ false) entries
      → All (IsEarlier entries) seen
      → shape_from queues entries bindings seen ≡ []
      → All (λ x. Lacks (cf x.0) seen) entries × HasDistinctNames entries
  shape_distinct [] bindings seen keys filled earlier e = (tt, tt)
  shape_distinct ((logical, entry) ∷ entries) bindings seen keys filled earlier e =
      let (free, rest) = shape_step logical entry entries bindings seen e in
      let (lack, distinct) =
        shape_distinct entries (seen_after logical (binding_of entry) bindings)
          ((cf logical, logical) ∷ seen) keys.1 filled.1
          ((filled.0, keys.0), rests (logical, entry) entries seen earlier) rest in
      let (own, others) = heads (cf logical, logical) seen entries lack in
      (
        (
          not_taken logical (cf logical) seen (firsts logical entry entries seen earlier) free,
          others,
        ),
        (own, distinct),
      )

  -- The name of a plain entry is its own.
  named_cf :
      (name cloudflare : String) (entry : QueueEntry)
      → lookup name queues ≡ some entry
      → str_eq (cf name) cloudflare ≡ false
      → is_named_so cloudflare name entry ≡ false
  unfolding resolve_cloudflare_queue_name
  named_cf name cloudflare (named binding) e h = rw e at h
  named_cf name cloudflare (configured config) e h = refl

  resolve_from :
      (entries : QueueBindingsConfig) (x : String × QueueEntry)
      → All (λ y. lookup y.0 queues ≡ some y.1) entries
      → HasDistinctNames entries
      → Memᴰ x entries
      → resolve_logical_from queues entries (cf x.0) ≡ some x.0
  unfolding resolve_logical_from
  resolve_from [] x held distinct m = elim m [ ]
  resolve_from (y ∷ ys) x held distinct (Memᴰ.head e) =
      subst (λ z. resolve_logical_from queues (y ∷ ys) (cf z.0) ≡ some z.0) (sym e)
        (rw (eq_refl (cf y.0)) refl)
  resolve_from ((name, entry) ∷ ys) x held distinct (Memᴰ.tail m) =
      let other = mem-All (λ z. str_eq (cf name) (cf z.0) ≡ false) x ys m distinct.0 in
      rw (other, named_cf name (cf x.0) entry held.0 other) (resolve_from ys x held.1 distinct.1 m)

lookup-member :
    {V : Type 0} (x : String × V) (entries : List (String × V))
    → HasDistinctKeys entries
    → Memᴰ x entries
    → lookup x.0 entries ≡ some x.1
unfolding lookup
lookup-member x [] keys m = elim m [ ]
lookup-member x ((k, v) ∷ entries) keys (Memᴰ.head e) =
    subst (λ z. lookup z.0 ((k, v) ∷ entries) ≡ some z.1) (sym e) (rw (eq_refl k) refl)
lookup-member x ((k, v) ∷ entries) keys (Memᴰ.tail m) =
    rw (mem-All (λ z. str_eq k z.0 ≡ false) x entries m keys.0) (lookup-member x entries keys.1 m)

all_held :
    (queues : QueueBindingsConfig)
    → HasDistinctKeys queues
    → All (λ y. lookup y.0 queues ≡ some y.1) queues
all_held queues keys = All-of_mem _ queues (λ x m. lookup-member x queues keys m)

-- In a configuration with distinct logical names, none of them empty, in which the validation of the
-- shape finds no issue, the Cloudflare name of each logical queue is resolved to that queue.
pub resolve_logical_queue_name-round_trip :
    (queues : QueueBindingsConfig)
    → HasDistinctKeys queues
    → All (λ x. str_eq x.0 "" ≡ false) queues
    → validate_queue_binding_shape queues ≡ []
    → (x : String × QueueEntry) → Memᴰ x queues
    → resolve_logical_queue_name queues (resolve_cloudflare_queue_name queues x.0) ≡ some x.0
unfolding validate_queue_binding_shape resolve_logical_queue_name
resolve_logical_queue_name-round_trip queues keys filled e x m =
    resolve_from queues queues x (all_held queues keys)
      (shape_distinct queues queues [] [] keys filled tt e).1 m
