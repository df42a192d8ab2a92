-- ===== src/CfJobs/Dedup/Window.antt =====
-- The guard's memory is bounded, holds nothing twice, and reaches back `capacity` deliveries.
use mathlib.Core.List.{tail}
use harlan_nuxt.Prelude.{
  ℕ, ◌+◌, ◌≤◌, ◌<◌, ◌≡◌, refl, ap, ◌∙◌, ◌≢◌, inl, inr, true, false, Option, none, some, List, [],
  ◌∷◌, ◌++◌, length, length-append, append_assoc, String, str_eq, eq_iff, eq_refl, Bool-cases, ltb,
  arith,
}
use harlan_nuxt.CfJobs.Dedup.{contains, add, has, evict, mark, mark_all}

-- No member is listed twice.
abbrev pub IsDistinct : List String → Type 0
IsDistinct [] = Unit
IsDistinct (s ∷ seen) = (contains s seen ≡ false) × IsDistinct seen

pub record IsBounded (capacity : ℕ) (seen : List String) : Type 0 where
  pub size : length seen ≤ capacity
  pub distinct : IsDistinct seen

contains-append :
    (id : String) (xs ys : List String)
    → contains id xs ≡ false
    → contains id ys ≡ false
    → contains id (xs ++ ys) ≡ false
unfolding contains
contains-append id [] ys p q = q
contains-append id (x ∷ xs) ys p q = ground (arith, contains-append id xs ys)

IsDistinct-append :
    (seen : List String) (id : String)
    → IsDistinct seen
    → contains id seen ≡ false
    → IsDistinct (seen ++ id ∷ [])
unfolding contains
IsDistinct-append [] id h k = (refl, tt)
IsDistinct-append (x ∷ seen) id (fresh, h) k = (
  contains-append x seen (id ∷ []) fresh (ground (arith, eq_iff x id, eq_iff id x)),
  IsDistinct-append seen id h (ground arith),
)

IsDistinct-tail : (seen : List String) → IsDistinct seen → IsDistinct (tail seen)
IsDistinct-tail [] h = tt
IsDistinct-tail (x ∷ seen) h = h.1

length-tail : (seen : List String) (n : ℕ) → length seen ≤ n + 1 → length (tail seen) ≤ n
length-tail [] n h = omega arith
length-tail (x ∷ seen) n h = omega arith

add-IsDistinct : (id : String) (seen : List String) → IsDistinct seen → IsDistinct (add id seen)
unfolding add
add-IsDistinct id seen h = elim (Bool-cases (contains id seen)) [
  | inl old ↦ rw old h
  | inr new ↦ rw new (IsDistinct-append seen id h new)
]

length-add : (id : String) (seen : List String) → length (add id seen) ≤ length seen + 1
unfolding add
length-add id seen = ground (arith, length-append seen (id ∷ []))

evict-IsBounded :
    (capacity : ℕ) (seen : List String)
    → length seen ≤ capacity + 1
    → IsDistinct seen
    → IsBounded capacity (evict capacity seen)
unfolding evict
evict-IsBounded capacity seen h d = elim (Bool-cases (ltb capacity (length seen))) [
  | inl over ↦
      rw over (record { size = length-tail seen capacity h; distinct = IsDistinct-tail seen d })
  | inr fits ↦ rw fits (record { size = ground arith; distinct = d })
]

mark-IsBounded :
    (capacity : ℕ) (id : Option String) (seen : List String)
    → IsBounded capacity seen
    → IsBounded capacity (mark capacity id seen)
unfolding mark
mark-IsBounded capacity none seen b = b
mark-IsBounded capacity (some id) seen b = elim (Bool-cases (str_eq id "")) [
  | inl empty ↦ rw empty b
  | inr named ↦ rw named (
      evict-IsBounded capacity (add id seen) (omega (arith, length-add id seen, b.size))
        (add-IsDistinct id seen b.distinct))
]

-- From an empty set, whatever ids are marked, the guard remembers at most `capacity` of them and
-- none twice.
pub mark_all-IsBounded :
    (capacity : ℕ) (ids : List (Option String)) → IsBounded capacity (mark_all capacity ids [])
unfolding mark_all
mark_all-IsBounded capacity ids = go ids [] (record { size = omega arith; distinct = tt })
  where
    go :
        (ids : List (Option String)) (seen : List String)
        → IsBounded capacity seen
        → IsBounded capacity (mark_all capacity ids seen)
    go [] seen b = b
    go (id ∷ ids) seen b = go ids (mark capacity id seen) (mark-IsBounded capacity id seen b)

-- `id` stands in the set with at most `n` newer members.
record IsRecent (id : String) (n : ℕ) (seen : List String) : Type 0 where
  older : List String
  newer : List String
  place : seen ≡ older ++ id ∷ newer
  few : length newer ≤ n

contains-middle : (id : String) (xs ys : List String) → contains id (xs ++ id ∷ ys) ≡ true
unfolding contains
contains-middle id [] ys = ground (arith, eq_refl id)
contains-middle id (x ∷ xs) ys = ground (arith, contains-middle id xs ys)

add-IsRecent :
    (id x : String) (n : ℕ) (seen : List String)
    → IsRecent id n seen
    → IsRecent id (n + 1) (add x seen)
unfolding add
add-IsRecent id x n seen r = elim (Bool-cases (contains x seen)) [
  | inl old ↦
      rw old
        (record { older = r.older; newer = r.newer; place = r.place; few = omega (arith, r.few) })
  | inr new ↦ rw new (record {
    older = r.older;
    newer = r.newer ++ x ∷ [];
    place = ap (λ l. l ++ x ∷ []) r.place ∙ append_assoc r.older (id ∷ r.newer) (x ∷ []);
    few = omega (arith, r.few, length-append r.newer (x ∷ []));
  })
]

evict-IsRecent :
    (capacity : ℕ) (id : String) (n : ℕ) (seen : List String)
    → n < capacity
    → IsRecent id n seen
    → IsRecent id n (evict capacity seen)
unfolding evict
evict-IsRecent capacity id n seen h r = elim (Bool-cases (ltb capacity (length seen))) [
  | inl over ↦ rw over (go r.older r.place (ground arith))
  | inr fits ↦ rw fits r
]
  where
    go :
        (older : List String)
        → seen ≡ older ++ id ∷ r.newer
        → capacity < length seen
        → IsRecent id n (tail seen)
    go [] e over = absurd (omega (arith, ap length e, r.few))
    go (o ∷ older) e over = record {
      older = older;
      newer = r.newer;
      place = ap tail e;
      few = r.few;
    }

mark-IsRecent :
    (capacity : ℕ) (id : String) (x : Option String) (n : ℕ) (seen : List String)
    → n + 1 < capacity
    → IsRecent id n seen
    → IsRecent id (n + 1) (mark capacity x seen)
unfolding mark
mark-IsRecent capacity id none n seen h r = record {
  older = r.older;
  newer = r.newer;
  place = r.place;
  few = omega (arith, r.few);
}
mark-IsRecent capacity id (some x) n seen h r = elim (Bool-cases (str_eq x "")) [
  | inl empty ↦
      rw empty
        (record { older = r.older; newer = r.newer; place = r.place; few = omega (arith, r.few) })
  | inr named ↦
      rw named (evict-IsRecent capacity id (n + 1) (add x seen) h (add-IsRecent id x n seen r))
]

mark_all-has :
    (capacity : ℕ) (id : String) (ids : List (Option String)) (n : ℕ) (seen : List String)
    → n + length ids < capacity
    → str_eq id "" ≡ false
    → IsRecent id n seen
    → has (some id) (mark_all capacity ids seen) ≡ true
unfolding mark_all has
mark_all-has capacity id [] n seen h named r =
    rw r.place (rw named (contains-middle id r.older r.newer))
mark_all-has capacity id (x ∷ ids) n seen h named r =
    mark_all-has capacity id ids (n + 1) (mark capacity x seen) (omega arith) named
      (mark-IsRecent capacity id x n seen (omega arith) r)

-- A new id, once marked, is recognised after any later marks that are fewer than the capacity.
pub mark_all-remembers :
    (capacity : ℕ) (id : String) (seen : List String) (ids : List (Option String))
    → id ≢ ""
    → has (some id) seen ≡ false
    → length ids < capacity
    → has (some id) (mark_all capacity (some id ∷ ids) seen) ≡ true
unfolding mark_all
mark_all-remembers capacity id seen ids named new h =
    mark_all-has capacity id ids 0 (mark capacity (some id) seen) (omega arith) nonempty
      (unfold mark in rw nonempty here)
  where
    nonempty : str_eq id "" ≡ false
    nonempty = ground (arith, eq_iff id "")

    fresh : contains id seen ≡ false
    fresh = unfold has in rw nonempty at new

    here : IsRecent id 0 (evict capacity (add id seen))
    here = evict-IsRecent capacity id 0 (add id seen) (omega arith) (
        unfold add in
        rw fresh (record { older = seen; newer = []; place = refl; few = omega arith }))
