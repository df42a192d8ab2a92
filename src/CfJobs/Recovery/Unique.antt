-- ===== src/CfJobs/Recovery/Unique.antt =====
-- The first rows of each id, up to a limit: what they keep, and that rows at the front are among
-- them.
use mathlib.Core.Path.{subst}
use harlan_nuxt.Prelude.{
  ℕ, zero, suc, ◌≡◌, refl, sym, ◌≢◌, ◌≤◌, ◌⊎◌, inl, inr, Bool, true, false, Bool-cases, List, [],
  ◌∷◌, ◌++◌, length, All, String, str_eq, eq_iff, eq_refl, append-nil, arith,
}
use harlan_nuxt.CfJobs.JobStore.{is_member, limit_to}
use harlan_nuxt.CfJobs.JobStore.Rows.{All-limit_to}
use harlan_nuxt.CfJobs.Outbox.{JobRef}
use harlan_nuxt.CfJobs.Recovery.{unique_from, ids}

abbrev pub IsDistinctIds : List JobRef → Type 0
IsDistinctIds [] = Unit
IsDistinctIds (job ∷ jobs) = All (λ x. x.id ≢ job.id) jobs × IsDistinctIds jobs

abbrev is_seen : List String → JobRef → Bool
is_seen seen job = is_member job.id seen

unseen_later :
    (id : String) (seen : List String) (job : JobRef)
    → is_seen (id ∷ seen) job ≡ false
    → (job.id ≢ id) × (is_seen seen job ≡ false)
unfolding is_member
unseen_later id seen job h = elim (Bool-cases (str_eq id job.id)) [
  | inl t ↦ absurd (cc (rw t at h))
  | inr f ↦ ((λ e. absurd (cc (f, (eq_iff id job.id).1 (sym e)))), rw f at h)
]

pub All-imp :
    (P Q : JobRef → Type 0) (jobs : List JobRef)
    → ((job : JobRef) → P job → Q job)
    → All P jobs
    → All Q jobs
All-imp P Q [] f h = tt
All-imp P Q (job ∷ jobs) f h = (f job h.0, All-imp P Q jobs f h.1)

unique_from-unseen :
    (seen : List String) (jobs : List JobRef)
    → All (λ job. is_seen seen job ≡ false) (unique_from seen jobs)
unfolding unique_from
unique_from-unseen seen [] = tt
unique_from-unseen seen (job ∷ jobs) = elim (Bool-cases (is_member job.id seen)) [
  | inl t ↦ rw t (unique_from-unseen seen jobs)
  | inr f ↦ rw f (
    f,
    All-imp _ _ _ (λ x h. (unseen_later job.id seen x h).1)
        (unique_from-unseen (job.id ∷ seen) jobs),
  )
]

pub unique_from-IsDistinctIds :
    (seen : List String) (jobs : List JobRef) → IsDistinctIds (unique_from seen jobs)
unfolding unique_from
unique_from-IsDistinctIds seen [] = tt
unique_from-IsDistinctIds seen (job ∷ jobs) = elim (Bool-cases (is_member job.id seen)) [
  | inl t ↦ rw t (unique_from-IsDistinctIds seen jobs)
  | inr f ↦ rw f (
    All-imp _ _ _ (λ x h. (unseen_later job.id seen x h).0)
        (unique_from-unseen (job.id ∷ seen) jobs),
    unique_from-IsDistinctIds (job.id ∷ seen) jobs,
  )
]

pub unique_from-All :
    (P : JobRef → Type 0) (seen : List String) (jobs : List JobRef)
    → All P jobs
    → All P (unique_from seen jobs)
unfolding unique_from
unique_from-All P seen [] h = tt
unique_from-All P seen (job ∷ jobs) h = elim (Bool-cases (is_member job.id seen)) [
  | inl t ↦ rw t (unique_from-All P seen jobs h.1)
  | inr f ↦ rw f (h.0, unique_from-All P (job.id ∷ seen) jobs h.1)
]

pub limit_to-IsDistinctIds :
    (n : ℕ) (jobs : List JobRef) → IsDistinctIds jobs → IsDistinctIds (limit_to n jobs)
limit_to-IsDistinctIds zero jobs d = tt
limit_to-IsDistinctIds (suc n) [] d = tt
limit_to-IsDistinctIds (suc n) (job ∷ jobs) d =
    (All-limit_to (λ x. x.id ≢ job.id) n jobs d.0, limit_to-IsDistinctIds n jobs d.1)

pub length-limit_to : (n : ℕ) (jobs : List JobRef) → length (limit_to n jobs) ≤ n
length-limit_to zero jobs = omega arith
length-limit_to (suc n) [] = omega arith
length-limit_to (suc n) (job ∷ jobs) = omega (arith, length-limit_to n jobs)

seen_head : (id : String) (seen : List String) → is_member id (id ∷ seen) ≡ true
unfolding is_member
seen_head id seen = rw (eq_refl id) refl

seen_tail :
    (id : String) (seen : List String) (job : JobRef)
    → is_seen seen job ≡ true
    → is_seen (id ∷ seen) job ≡ true
unfolding is_member
seen_tail id seen job h = elim (Bool-cases (str_eq id job.id)) [
  | inl t ↦ rw t refl
  | inr f ↦ rw f h
]

never_seen : (job : JobRef) → is_seen [] job ≡ true → ⊥
unfolding is_member
never_seen job h = cc

-- An id that was seen, apart from the head, is seen in any list with that head, or in the rest.
seen_split :
    (id : String) (seen other : List String) (job : JobRef)
    → is_seen (id ∷ seen) job ≡ true
    → (is_seen (id ∷ other) job ≡ true) ⊎ (is_seen seen job ≡ true)
unfolding is_member
seen_split id seen other job h = elim (Bool-cases (str_eq id job.id)) [
  | inl t ↦ inl (rw t refl)
  | inr f ↦ inr (rw f at h)
]

unique_from-seen :
    (seen : List String) (job : JobRef) (jobs : List JobRef)
    → is_member job.id seen ≡ true
    → unique_from seen (job ∷ jobs) ≡ unique_from seen jobs
unfolding unique_from
unique_from-seen seen job jobs t = rw t refl

unique_from-new :
    (seen : List String) (job : JobRef) (jobs : List JobRef)
    → is_member job.id seen ≡ false
    → unique_from seen (job ∷ jobs) ≡ job ∷ unique_from (job.id ∷ seen) jobs
unfolding unique_from
unique_from-new seen job jobs f = rw f refl

-- The rows at the front are among the first that are kept, or were seen.
front_kept :
    (seen : List String) (front rest : List JobRef) (n : ℕ)
    → length front ≤ n
    → All
        (λ job.
          (is_seen (ids (limit_to n (unique_from seen (front ++ rest)))) job ≡ true)
          ⊎ (is_seen seen job ≡ true))
        front
front_kept seen [] rest n h = tt
front_kept seen (job ∷ front) rest zero h = absurd (omega (arith, h))
front_kept seen (job ∷ front) rest (suc n) h = elim (Bool-cases (is_member job.id seen)) [
  | inl t ↦
      subst
        (λ l.
          All (λ x. (is_seen (ids (limit_to (suc n) l)) x ≡ true) ⊎ (is_seen seen x ≡ true))
            (job ∷ front))
        (sym (unique_from-seen seen job (front ++ rest) t))
        (inr t, front_kept seen front rest (suc n) (omega (arith, h)))
  | inr f ↦
      subst
        (λ l.
          All (λ x. (is_seen (ids (limit_to (suc n) l)) x ≡ true) ⊎ (is_seen seen x ≡ true))
            (job ∷ front))
        (sym (unique_from-new seen job (front ++ rest) f))
        (
          inl (seen_head job.id _),
          All-imp _ _ front later (front_kept (job.id ∷ seen) front rest n (omega (arith, h))),
        )
]
  where
    later :
        (x : JobRef)
        → (is_seen (ids (limit_to n (unique_from (job.id ∷ seen) (front ++ rest)))) x ≡ true)
          ⊎ (is_seen (job.id ∷ seen) x ≡ true)
        → (is_seen (job.id ∷ ids (limit_to n (unique_from (job.id ∷ seen) (front ++ rest)))) x
            ≡ true)
          ⊎ (is_seen seen x ≡ true)
    later x (inl k) = inl (seen_tail job.id _ x k)
    later x (inr k) = seen_split job.id seen _ x k

abbrev pub IsSent : List JobRef → JobRef → Type 0
IsSent out job = is_member job.id (ids out) ≡ true

abbrev pub sent_of : ℕ → List JobRef → List JobRef
sent_of limit rows = limit_to limit (unique_from [] rows)

-- Rows at the front that are within the limit are sent.
pub front-IsSent :
    (limit : ℕ) (front rest : List JobRef)
    → length front ≤ limit
    → All (IsSent (sent_of limit (front ++ rest))) front
front-IsSent limit front rest h = All-imp _ _ front kept (front_kept [] front rest limit h)
  where
    kept :
        (job : JobRef)
        → IsSent (sent_of limit (front ++ rest)) job ⊎ (is_seen [] job ≡ true)
        → IsSent (sent_of limit (front ++ rest)) job
    kept job (inl k) = k
    kept job (inr k) = absurd (never_seen job k)

pub whole-IsSent :
    (limit : ℕ) (rows : List JobRef) → length rows ≤ limit → All (IsSent (sent_of limit rows)) rows
whole-IsSent limit rows h =
    subst (λ l. All (IsSent (sent_of limit l)) rows) (append-nil rows)
      (front-IsSent limit rows [] h)

pub All-front : (P : JobRef → Type 0) (xs ys : List JobRef) → All P (xs ++ ys) → All P xs
All-front P [] ys h = tt
All-front P (x ∷ xs) ys h = (h.0, All-front P xs ys h.1)

pub All-rest : (P : JobRef → Type 0) (xs ys : List JobRef) → All P (xs ++ ys) → All P ys
All-rest P [] ys h = h
All-rest P (x ∷ xs) ys h = All-rest P xs ys h.1
