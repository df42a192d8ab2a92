-- ===== src/CfJobs/JobStore/Selected.antt =====
-- A selection within its limit has every row that passes its test.
use harlan_nuxt.Prelude.{
  ℕ, zero, suc, ◌≤◌, ◌≡◌, refl, sym, ap, ◌∙◌, inl, inr, Bool, true, List, [], ◌∷◌, map, length,
  keep, str_eq, eq_iff, Bool-cases, ltb, arith,
}
use mathlib.Core.List.{Memᴰ}
use harlan_nuxt.CfJobs.JobStore.{JobRow, is_member, insert_by, order_by, limit_to, select}

pub mem-keep :
    {A : Type 0} (test : A → Bool) (x : A) (xs : List A)
    → Memᴰ x xs
    → test x ≡ true
    → Memᴰ x (keep test xs)
mem-keep test x [] m t = elim m [ ]
mem-keep test x (y ∷ ys) (Memᴰ.head e) t = rw (sym (ap test e) ∙ t) (Memᴰ.head e)
mem-keep test x (y ∷ ys) (Memᴰ.tail m) t = elim (Bool-cases (test y)) [
  | inl h ↦ rw h (Memᴰ.tail (mem-keep test x ys m t))
  | inr f ↦ rw f (mem-keep test x ys m t)
]

module _ {A : Type 0} (key : A → ℕ) where
  inserted_mem : (x : A) (xs : List A) → Memᴰ x (insert_by key x xs)
  unfolding insert_by
  inserted_mem x [] = Memᴰ.head refl
  inserted_mem x (y ∷ ys) = elim (Bool-cases (ltb (key y) (key x))) [
    | inl t ↦ rw t (Memᴰ.tail (inserted_mem x ys))
    | inr f ↦ rw f (Memᴰ.head refl)
  ]

  mem-insert_by : (x y : A) (ys : List A) → Memᴰ x ys → Memᴰ x (insert_by key y ys)
  unfolding insert_by
  mem-insert_by x y [] m = elim m [ ]
  mem-insert_by x y (z ∷ zs) (Memᴰ.head e) = elim (Bool-cases (ltb (key z) (key y))) [
    | inl t ↦ rw t (Memᴰ.head e)
    | inr f ↦ rw f (Memᴰ.tail (Memᴰ.head e))
  ]
  mem-insert_by x y (z ∷ zs) (Memᴰ.tail m) = elim (Bool-cases (ltb (key z) (key y))) [
    | inl t ↦ rw t (Memᴰ.tail (mem-insert_by x y zs m))
    | inr f ↦ rw f (Memᴰ.tail (Memᴰ.tail m))
  ]

  mem-order_by : (x : A) (xs : List A) → Memᴰ x xs → Memᴰ x (order_by key xs)
  unfolding order_by
  mem-order_by x [] m = elim m [ ]
  mem-order_by x (y ∷ ys) (Memᴰ.head e) = rw e (inserted_mem y (order_by key ys))
  mem-order_by x (y ∷ ys) (Memᴰ.tail m) = mem-insert_by x y (order_by key ys) (mem-order_by x ys m)

  length-insert_by : (x : A) (xs : List A) → length (insert_by key x xs) ≡ suc (length xs)
  unfolding insert_by
  length-insert_by x [] = refl
  length-insert_by x (y ∷ ys) = elim (Bool-cases (ltb (key y) (key x))) [
    | inl t ↦ rw t (ap suc (length-insert_by x ys))
    | inr f ↦ rw f refl
  ]

  length-order_by : (xs : List A) → length (order_by key xs) ≡ length xs
  unfolding order_by
  length-order_by [] = refl
  length-order_by (y ∷ ys) = length-insert_by y (order_by key ys) ∙ ap suc (length-order_by ys)

limit_to-whole : {A : Type 0} (n : ℕ) (xs : List A) → length xs ≤ n → limit_to n xs ≡ xs
limit_to-whole zero [] h = refl
limit_to-whole zero (x ∷ xs) h = absurd (omega (arith, h))
limit_to-whole (suc n) [] h = refl
limit_to-whole (suc n) (x ∷ xs) h = ap (λ l. x ∷ l) (limit_to-whole n xs (omega (arith, h)))

pub mem-select :
    {A : Type 0} (test : A → Bool) (key : A → ℕ) (limit : ℕ) (x : A) (xs : List A)
    → Memᴰ x xs
    → test x ≡ true
    → length (keep test xs) ≤ limit
    → Memᴰ x (select test key limit xs)
unfolding select
mem-select test key limit x xs m t h =
    rw
      (limit_to-whole limit (order_by key (keep test xs))
        (omega (arith, h, length-order_by key (keep test xs))))
      (mem-order_by key x (keep test xs) (mem-keep test x xs m t))

pub is_member-mem :
    (row : JobRow) (rows : List JobRow)
    → Memᴰ row rows
    → is_member row.id (map (λ (r : JobRow). r.id) rows) ≡ true
unfolding is_member
is_member-mem row [] m = elim m [ ]
is_member-mem row (r ∷ rows) (Memᴰ.head e) =
    rw ((eq_iff r.id row.id).1 (ap (λ (x : JobRow). x.id) (sym e))) refl
is_member-mem row (r ∷ rows) (Memᴰ.tail m) = elim (Bool-cases (str_eq r.id row.id)) [
  | inl t ↦ rw t refl
  | inr f ↦ rw f (is_member-mem row rows m)
]
