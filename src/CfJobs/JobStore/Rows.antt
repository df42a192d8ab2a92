-- ===== src/CfJobs/JobStore/Rows.antt =====
-- Lemmas on the statements over a table: what an update, a deletion and a selection keep.
use harlan_nuxt.Prelude.{
  ℕ, zero, suc, ◌≤◌, ◌≡◌, refl, sym, ap, ◌∙◌, ◌≢◌, inl, inr, Bool, true, false, not, none, some,
  List, [], ◌∷◌, map, length, length-append, keep, All, String, str_eq, eq_iff, Bool-cases, ltb,
  leb, arith,
}
use mathlib.Core.List.{Memᴰ}
use harlan_nuxt.CfJobs.JobStore.{
  JobRow, FailureEvidence, update, changes, first_changed, delete, is_member, insert_by, order_by,
  limit_to, select, append_failure_evidence, durable_job_failure_evidence_limit,
}

module _ {ℓ} {A : Type 0} (P : A → Type ℓ) where
  pub All-keep : (test : A → Bool) (xs : List A) → All P xs → All P (keep test xs)
  All-keep test [] h = tt
  All-keep test (x ∷ xs) h = elim (Bool-cases (test x)) [
    | inl t ↦ rw t (h.0, All-keep test xs h.1)
    | inr f ↦ rw f (All-keep test xs h.1)
  ]

  pub All-limit_to : (n : ℕ) (xs : List A) → All P xs → All P (limit_to n xs)
  All-limit_to zero xs h = tt
  All-limit_to (suc n) [] h = tt
  All-limit_to (suc n) (x ∷ xs) h = (h.0, All-limit_to n xs h.1)

  pub All-of_mem : (xs : List A) → ((x : A) → Memᴰ x xs → P x) → All P xs
  All-of_mem [] h = tt
  All-of_mem (x ∷ xs) h = (h x (Memᴰ.head refl), All-of_mem xs (λ y m. h y (Memᴰ.tail m)))

  pub mem-All : (x : A) (xs : List A) → Memᴰ x xs → All P xs → P x
  mem-All x [] m h = elim m [ ]
  mem-All x (y ∷ ys) (Memᴰ.head e) h = rw e h.0
  mem-All x (y ∷ ys) (Memᴰ.tail m) h = mem-All x ys m h.1

pub All-both :
    {A : Type 0} (P Q : A → Type 0) (xs : List A) → All P xs → All Q xs → All (λ x. P x × Q x) xs
All-both P Q [] h k = tt
All-both P Q (x ∷ xs) h k = ((h.0, k.0), All-both P Q xs h.1 k.1)

pub keep_tested :
    {A : Type 0} (test : A → Bool) (xs : List A) → All (λ x. test x ≡ true) (keep test xs)
keep_tested test [] = tt
keep_tested test (x ∷ xs) = elim (Bool-cases (test x)) [
  | inl t ↦ rw t (t, keep_tested test xs)
  | inr f ↦ rw f (keep_tested test xs)
]

module _ {A : Type 0} (P : A → Type 0) where
  All-insert_by :
      (key : A → ℕ) (row : A) (rows : List A) → P row → All P rows → All P (insert_by key row rows)
  unfolding insert_by
  All-insert_by key row [] p h = (p, tt)
  All-insert_by key row (r ∷ rows) p h = elim (Bool-cases (ltb (key r) (key row))) [
    | inl t ↦ rw t (h.0, All-insert_by key row rows p h.1)
    | inr f ↦ rw f (p, h)
  ]

  All-order_by : (key : A → ℕ) (rows : List A) → All P rows → All P (order_by key rows)
  unfolding order_by
  All-order_by key [] h = tt
  All-order_by key (r ∷ rows) h =
      All-insert_by key r (order_by key rows) h.0 (All-order_by key rows h.1)

  pub All-select :
      (test : A → Bool) (key : A → ℕ) (limit : ℕ) (rows : List A)
      → All P rows
      → All P (select test key limit rows)
  unfolding select
  All-select test key limit rows h =
      All-limit_to P limit (order_by key (keep test rows))
        (All-order_by key (keep test rows) (All-keep P test rows h))

  -- An update keeps what its change keeps on the rows that pass the test.
  pub All-update :
      (test : A → Bool) (change : A → A) (rows : List A)
      → All (λ row. test row ≡ true → P row → P (change row)) rows
      → All P rows
      → All P (update test change rows)
  unfolding update
  All-update test change [] k h = tt
  All-update test change (r ∷ rows) k h = (
    elim (Bool-cases (test r)) [ inl t ↦ rw t (k.0 t h.0) | inr f ↦ rw f h.0 ],
    All-update test change rows k.1 h.1,
  )

  pub All-delete : (test : A → Bool) (rows : List A) → All P rows → All P (delete test rows)
  unfolding delete
  All-delete test rows h = All-keep P (λ row. not (test row)) rows h

pub select_tested :
    {A : Type 0} (test : A → Bool) (key : A → ℕ) (limit : ℕ) (rows : List A)
    → All (λ row. test row ≡ true) (select test key limit rows)
unfolding select
select_tested test key limit rows =
    All-limit_to (λ row. test row ≡ true) limit (order_by key (keep test rows))
      (All-order_by (λ row. test row ≡ true) key (keep test rows) (keep_tested test rows))

-- The ids are keys.
abbrev pub IsKeyed : List JobRow → Type 0
IsKeyed [] = Unit
IsKeyed (r ∷ rows) = All (λ x. x.id ≢ r.id) rows × IsKeyed rows

pub IsKeyed-unique :
    (rows : List JobRow) (x y : JobRow)
    → IsKeyed rows
    → Memᴰ x rows
    → Memᴰ y rows
    → x.id ≡ y.id
    → x ≡ y
IsKeyed-unique [] x y k m n same = elim m [ ]
IsKeyed-unique (r ∷ rows) x y k (Memᴰ.head e) (Memᴰ.head f) same = e ∙ sym f
IsKeyed-unique (r ∷ rows) x y k (Memᴰ.head e) (Memᴰ.tail m) same =
    absurd (mem-All (λ z. z.id ≢ r.id) y rows m k.0 (sym same ∙ ap (λ (z : JobRow). z.id) e))
IsKeyed-unique (r ∷ rows) x y k (Memᴰ.tail m) (Memᴰ.head f) same =
    absurd (mem-All (λ z. z.id ≢ r.id) x rows m k.0 (same ∙ ap (λ (z : JobRow). z.id) f))
IsKeyed-unique (r ∷ rows) x y k (Memᴰ.tail m) (Memᴰ.tail n) same =
    IsKeyed-unique rows x y k.1 m n same

member_row :
    (P : JobRow → Type 0) (id : String) (rows : List JobRow)
    → is_member id (map (λ (row : JobRow). row.id) rows) ≡ true
    → All P rows
    → (r : JobRow) × (r.id ≡ id) × P r
unfolding is_member
member_row P id [] h k = absurd (cc)
member_row P id (r ∷ rows) h k = elim (Bool-cases (str_eq r.id id)) [
  | inl t ↦ (r, (eq_iff r.id id).0 t, k.0)
  | inr f ↦ member_row P id rows (rw f at h) k.1
]

-- With ids for keys, the row whose id was selected is the selected row: it passes the test.
pub selected_tested :
    (test : JobRow → Bool) (key : JobRow → ℕ) (limit : ℕ) (rows : List JobRow)
    → IsKeyed rows
    → All
        (λ row.
          is_member row.id (map (λ (r : JobRow). r.id) (select test key limit rows)) ≡ true
          → test row ≡ true)
        rows
selected_tested test key limit rows keyed = All-of_mem _ rows go
  where
    go :
        (row : JobRow)
        → Memᴰ row rows
        → is_member row.id (map (λ (r : JobRow). r.id) (select test key limit rows)) ≡ true
        → test row ≡ true
    go row m h =
        let (r, same, (tested, n)) =
          member_row (λ r. (test r ≡ true) × Memᴰ r rows) row.id (select test key limit rows) h
            (All-both (λ r. test r ≡ true) (λ r. Memᴰ r rows) _ (select_tested test key limit rows)
              (All-select (λ r. Memᴰ r rows) test key limit rows
                (All-of_mem (λ r. Memᴰ r rows) rows (λ r n. n)))) in
        rw (IsKeyed-unique rows row r keyed m n (sym same)) tested

pub update_none :
    {A : Type 0} (test : A → Bool) (change : A → A) (rows : List A)
    → All (λ row. test row ≡ false) rows
    → update test change rows ≡ rows
unfolding update
update_none test change [] h = refl
update_none test change (r ∷ rows) h = rw h.0 (ap (λ l. r ∷ l) (update_none test change rows h.1))

-- One step of a statement down the table.
module _ {A : Type 0} (test : A → Bool) (change : A → A) (r : A) (rows : List A) where
  pub first_changed_hit : test r ≡ true → first_changed test change (r ∷ rows) ≡ some (change r)
  unfolding first_changed
  first_changed_hit t = rw t refl

  pub first_changed_miss :
      test r ≡ false → first_changed test change (r ∷ rows) ≡ first_changed test change rows
  unfolding first_changed
  first_changed_miss f = rw f refl

  pub update_hit :
      test r ≡ true → update test change (r ∷ rows) ≡ change r ∷ update test change rows
  unfolding update
  update_hit t = ap (λ x. x ∷ update test change rows) (rw t refl)

  pub update_miss : test r ≡ false → update test change (r ∷ rows) ≡ r ∷ update test change rows
  unfolding update
  update_miss f = ap (λ x. x ∷ update test change rows) (rw f refl)

pub first_changed-none :
    {A : Type 0} (test : A → Bool) (change : A → A) (rows : List A)
    → All (λ row. test row ≡ false) rows
    → first_changed test change rows ≡ none
unfolding first_changed
first_changed-none test change [] h = refl
first_changed-none test change (r ∷ rows) h = rw h.0 (first_changed-none test change rows h.1)

pub length-keep :
    {A : Type 0} (test : A → Bool) (rows : List A) → length (keep test rows) ≤ length rows
length-keep test [] = omega arith
length-keep test (row ∷ rows) = elim (Bool-cases (test row)) [
  | inl t ↦ rw t (omega (arith, length-keep test rows))
  | inr f ↦ rw f (omega (arith, length-keep test rows))
]

pub keep_none :
    {A : Type 0} (test : A → Bool) (rows : List A)
    → All (λ row. test row ≡ false) rows
    → keep test rows ≡ []
keep_none test [] h = refl
keep_none test (r ∷ rows) h = rw h.0 (keep_none test rows h.1)

pub delete_none :
    {A : Type 0} (test : A → Bool) (rows : List A)
    → All (λ row. test row ≡ false) rows
    → delete test rows ≡ rows
unfolding delete
delete_none test [] h = refl
delete_none test (r ∷ rows) h = rw h.0 (ap (λ l. r ∷ l) (delete_none test rows h.1))

pub changes_none :
    {A : Type 0} (test : A → Bool) (rows : List A)
    → All (λ row. test row ≡ false) rows
    → changes test rows ≡ 0
unfolding changes
changes_none test rows h = rw (keep_none test rows h) refl

pub append_failure_evidence_bound :
    (e : FailureEvidence) (log : List FailureEvidence)
    → length log ≤ durable_job_failure_evidence_limit
    → length (append_failure_evidence e log) ≤ durable_job_failure_evidence_limit
unfolding append_failure_evidence
append_failure_evidence_bound e [] h = omega arith
append_failure_evidence_bound e (x ∷ log) h = elim (Bool-cases (leb 8 (length (x ∷ log)))) [
  | inl full ↦ rw full (omega (arith, length-append log (e ∷ [])))
  | inr room ↦ rw room (ground (arith, length-append (x ∷ log) (e ∷ [])))
]
