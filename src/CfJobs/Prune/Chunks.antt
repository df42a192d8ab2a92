-- ===== src/CfJobs/Prune/Chunks.antt =====
-- Deleting in chunks deletes what one statement without a limit would.
use harlan_nuxt.Prelude.{
  ℕ, zero, suc, ◌+◌, ◌≤◌, ◌<◌, ◌≡◌, refl, ap, ◌∙◌, inl, inr, Bool, true, false, Option, some, List,
  [], ◌∷◌, length, keep, max, or_else, Bool-cases, ltb, ltb→lt, arith,
}
use harlan_nuxt.CfJobs.JobStore.{delete}
use harlan_nuxt.CfJobs.JobStore.Rows.{length-keep}
use harlan_nuxt.CfJobs.Prune.{delete_limited, default_prune_chunk, prune_loop, prune_in_chunks}

module _ {A : Type 0} (test : A → Bool) where
  -- What one statement leaves behind: how many of the rows it could delete, and that they are all
  -- gone where it deleted fewer than its limit.
  pub record IsCut (n : ℕ) (rows : List A) (deleted : ℕ) (left : List A) : Type 0 where
    counted : deleted + length (keep test left) ≡ length (keep test rows)
    bounded : deleted ≤ n
    same : delete test left ≡ delete test rows
    done : deleted < n → left ≡ delete test rows

  IsCut-hit :
      (n deleted : ℕ) (row : A) (rows left : List A)
      → test row ≡ true
      → IsCut n rows deleted left
      → IsCut (suc n) (row ∷ rows) (suc deleted) left
  unfolding delete
  IsCut-hit n deleted row rows left t cut = record {
    counted = rw t (omega (arith, cut.counted));
    bounded = omega (arith, cut.bounded);
    same = rw t cut.same;
    done = λ h. rw t (cut.done (omega (arith, h)));
  }

  IsCut-miss :
      (n deleted : ℕ) (row : A) (rows left : List A)
      → test row ≡ false
      → IsCut n rows deleted left
      → IsCut n (row ∷ rows) deleted (row ∷ left)
  unfolding delete
  IsCut-miss n deleted row rows left f cut = record {
    counted = rw f cut.counted;
    bounded = cut.bounded;
    same = rw f (ap (λ l. row ∷ l) cut.same);
    done = λ h. rw f (ap (λ l. row ∷ l) (cut.done h));
  }

  delete_limited-IsCut :
      (n : ℕ) (rows : List A)
      → IsCut n rows (delete_limited n test rows).0 (delete_limited n test rows).1
  unfolding delete_limited delete
  delete_limited-IsCut n [] = record {
    counted = omega arith;
    bounded = omega arith;
    same = refl;
    done = λ h. refl;
  }
  delete_limited-IsCut zero (row ∷ rows) = record {
    counted = omega arith;
    bounded = omega arith;
    same = refl;
    done = λ h. absurd (omega (arith, h));
  }
  delete_limited-IsCut (suc n) (row ∷ rows) = elim (Bool-cases (test row)) [
    | inl t ↦ rw (t, delete_limited) (IsCut-hit n _ row rows _ t (delete_limited-IsCut n rows))
    | inr f ↦
        rw (f, delete_limited)
          (IsCut-miss (suc n) _ row rows _ f (delete_limited-IsCut (suc n) rows))
  ]

  keep-delete : (rows : List A) → length (keep test (delete test rows)) ≡ 0
  unfolding delete
  keep-delete [] = refl
  keep-delete (row ∷ rows) = elim (Bool-cases (test row)) [
    | inl t ↦ rw t (keep-delete rows)
    | inr f ↦ rw f (rw f (keep-delete rows))
  ]

answer_of :
    {A : Type 0} {m n : ℕ} {xs ys : List A}
    → m ≡ n
    → xs ≡ ys
    → ◌≡◌ {A = Option (ℕ × List A)} (some (m, xs)) (some (n, ys))
answer_of p q = λ i. some (p i, q i)

ltb-false : (a b : ℕ) → ltb a b ≡ false → b ≤ a
ltb-false a b h = ground arith

-- What one `DELETE` without a limit would delete, and leave.
abbrev pub at_once : {A : Type 0} → (List A → A → Bool) → List A → ℕ × List A
at_once test rows = (length (keep (test rows) rows), delete (test rows) rows)

module _ {A : Type 0} (test : List A → A → Bool)
    (stable : (n : ℕ) (rows : List A)
      → test (delete_limited n (test rows) rows).1 ≡ test rows) where
  prune_loop_lem :
      (chunk fuel total : ℕ) (rows : List A)
      → 0 < chunk
      → length (keep (test rows) rows) < fuel
      → prune_loop test chunk fuel total rows
        ≡ some (total + (at_once test rows).0, (at_once test rows).1)
  unfolding prune_loop
  prune_loop_lem chunk zero total rows c h = absurd (omega (arith, h))
  prune_loop_lem chunk (suc fuel) total rows c h =
      elim (Bool-cases (ltb (delete_limited chunk (test rows) rows).0 chunk)) [
        | inl t ↦
            rw (t, prune_loop)
              (answer_of (omega (arith, cut.counted, ended t)) (cut.done (ltb→lt _ _ t)))
        | inr f ↦
            rw (f, prune_loop)
              (prune_loop_lem chunk fuel (total + r.0) r.1 c
                  (omega (arith, h, c, kept, cut.counted, ltb-false _ _ f))
                ∙ ap (λ T. some (total + r.0 + length (keep T r.1), delete T r.1))
                    (stable chunk rows)
                ∙ answer_of (omega (arith, cut.counted)) cut.same)
      ]
    where
      r : ℕ × List A
      r = delete_limited chunk (test rows) rows

      cut : IsCut (test rows) chunk rows r.0 r.1
      cut = delete_limited-IsCut (test rows) chunk rows

      ended : ltb r.0 chunk ≡ true → length (keep (test rows) r.1) ≡ 0
      ended t =
          ap (λ l. length (keep (test rows) l)) (cut.done (ltb→lt _ _ t))
          ∙ keep-delete (test rows) rows

      kept : length (keep (test r.1) r.1) ≡ length (keep (test rows) r.1)
      kept = ap (λ T. length (keep T r.1)) (stable chunk rows)

  pub prune_in_chunks_lem :
      (limit : Option ℕ) (rows : List A)
      → prune_in_chunks test limit rows ≡ some (at_once test rows)
  unfolding prune_in_chunks
  prune_in_chunks_lem limit rows =
      prune_loop_lem (max 1 (or_else limit default_prune_chunk)) (suc (length rows)) 0 rows
        (omega arith) (omega (arith, length-keep (test rows) rows))
      ∙ answer_of (omega arith) refl
