-- ===== src/CfJobs/Commands/Terminal.antt =====
-- What holds of the tables through every run of commands: keys, bounded logs, settled rows.
use harlan_nuxt.Prelude.{
  ℕ, ◌<◌, ◌⊎◌, ◌&&◌, not, Option, none, some, ◌≤◌, ◌≡◌, refl, sym, ap, ◌∙◌, ◌≢◌, inl, inr, Bool,
  true, false, List, [], ◌∷◌, ◌++◌, length, All, All-append, Bool-cases, String, keep, arith,
}
use mathlib.Core.List.{Memᴰ}
use mathlib.Core.Path.{subst}
use harlan_nuxt.CfJobs.JobStore.{
  JobRow, Db, is_live, at_most, update, delete, durable_job_failure_evidence_limit,
}
use harlan_nuxt.CfJobs.JobStore.Rows.{All-update, All-of_mem, mem-All, All-keep, IsKeyed}
use harlan_nuxt.CfJobs.BatchStore.{Tables}
use harlan_nuxt.CfJobs.Prune.{
  may_forget, is_prunable_job, PruneDurableJobsOptions, PruneDurableJobsResult, prune_durable_jobs,
}
use harlan_nuxt.CfJobs.Prune.Whole.{
  jobs_at_once, failures_at_once, batches_at_once, pruned_at_once, prune_durable_jobs-whole,
}
use harlan_nuxt.CfJobs.Commands.{Command, execute, execute_all}
use harlan_nuxt.CfJobs.Commands.Effects.{
  IsEffect, updated, deleted, inserted, unchanged, MayInsert, execute-IsEffect,
}

-- The primary key holds and no log of evidence exceeds its limit.
pub record IsWellFormed (rows : List JobRow) : Type 0 where
  pub keyed : IsKeyed rows
  pub bounded : All (λ row. length row.retry_reasons ≤ durable_job_failure_evidence_limit) rows

-- A step on some rows keeps what it keeps on each, whichever rows they are.
pub All-step :
    (P : JobRow → Type 0) (test : JobRow → Bool) (change : JobRow → JobRow) (rows : List JobRow)
    → ((row : JobRow) → P row → P (change row))
    → All P rows
    → All P (update test change rows)
All-step P test change rows step h =
    All-update P test change rows (All-of_mem _ rows (λ row m t p. step row p)) h

IsKeyed-update :
    (test : JobRow → Bool) (change : JobRow → JobRow) (rows : List JobRow)
    → ((row : JobRow) → (change row).id ≡ row.id)
    → IsKeyed rows
    → IsKeyed (update test change rows)
unfolding update
IsKeyed-update test change [] same k = tt
IsKeyed-update test change (r ∷ rows) same k = (
  elim (Bool-cases (test r)) [
    | inl t ↦ rw t (rw (same r) (others k.0))
    | inr f ↦ rw f (others k.0)
  ],
  IsKeyed-update test change rows same k.1,
)
  where
    others : All (λ x. x.id ≢ r.id) rows → All (λ x. x.id ≢ r.id) (update test change rows)
    others = All-step (λ x. x.id ≢ r.id) test change rows (λ x n e. n (sym (same x) ∙ e))

IsKeyed-keep : (test : JobRow → Bool) (rows : List JobRow) → IsKeyed rows → IsKeyed (keep test rows)
IsKeyed-keep test [] k = tt
IsKeyed-keep test (r ∷ rows) k = elim (Bool-cases (test r)) [
  | inl t ↦ rw t (All-keep (λ x. x.id ≢ r.id) test rows k.0, IsKeyed-keep test rows k.1)
  | inr f ↦ rw f (IsKeyed-keep test rows k.1)
]

IsKeyed-insert :
    (new : JobRow) (rows : List JobRow)
    → All (λ row. row.id ≢ new.id) rows
    → IsKeyed rows
    → IsKeyed (rows ++ new ∷ [])
IsKeyed-insert new [] fresh k = (tt, tt)
IsKeyed-insert new (r ∷ rows) fresh k = (
  All-append (λ x. x.id ≢ r.id) rows (new ∷ []) k.0 ((λ e. fresh.0 (sym e)), tt),
  IsKeyed-insert new rows fresh.1 k.1,
)

pub IsEffect-IsWellFormed :
    (IsNew : String → Type 0) (rows rows' : List JobRow)
    → IsEffect IsNew rows rows'
    → IsWellFormed rows
    → IsWellFormed rows'
unfolding delete
IsEffect-IsWellFormed IsNew rows rows' (updated test change live step e) w = rw e record {
  keyed = IsKeyed-update test change rows (λ row. (step row).same_id) w.keyed;
  bounded = All-step _ test change rows (λ row. (step row).bounded_log) w.bounded;
}
IsEffect-IsWellFormed IsNew rows rows' (deleted test live e) w =
    rw e record { keyed = IsKeyed-keep _ rows w.keyed; bounded = All-keep _ _ rows w.bounded }
IsEffect-IsWellFormed IsNew rows rows' (inserted new allowed fresh empty e) w = rw e record {
  keyed = IsKeyed-insert new rows fresh w.keyed;
  bounded = All-append _ rows (new ∷ []) w.bounded (rw empty (omega arith), tt);
}
IsEffect-IsWellFormed IsNew rows rows' (unchanged e) w = rw e w

-- Any interleaving of commands, on tables whose ids are keys and whose logs of evidence are within
-- the limit of 8 entries, leaves tables with both properties.
pub execute_all-IsWellFormed :
    (cs : List Command) (db : Db) → IsWellFormed db.jobs → IsWellFormed (execute_all cs db).jobs
unfolding execute_all
execute_all-IsWellFormed [] db w = w
execute_all-IsWellFormed (c ∷ cs) db w = execute_all-IsWellFormed cs (execute c db) (
    IsEffect-IsWellFormed (MayInsert c) db.jobs (execute c db).jobs (execute-IsEffect c db w.keyed)
      w)

mem-append : {A : Type 0} (x : A) (xs ys : List A) → Memᴰ x xs → Memᴰ x (xs ++ ys)
mem-append x [] ys m = elim m [ ]
mem-append x (y ∷ xs) ys (Memᴰ.head e) = Memᴰ.head e
mem-append x (y ∷ xs) ys (Memᴰ.tail m) = Memᴰ.tail (mem-append x xs ys m)

mem-update :
    (row : JobRow) (test : JobRow → Bool) (change : JobRow → JobRow) (rows : List JobRow)
    → test row ≡ false
    → Memᴰ row rows
    → Memᴰ row (update test change rows)
unfolding update
mem-update row test change [] f m = elim m [ ]
mem-update row test change (r ∷ rows) f (Memᴰ.head e) = Memᴰ.head (rw (sym e) (rw f refl))
mem-update row test change (r ∷ rows) f (Memᴰ.tail m) =
    Memᴰ.tail (mem-update row test change rows f m)

mem-keep :
    (row : JobRow) (test : JobRow → Bool) (rows : List JobRow)
    → test row ≡ true
    → Memᴰ row rows
    → Memᴰ row (keep test rows)
mem-keep row test [] t m = elim m [ ]
mem-keep row test (r ∷ rows) t (Memᴰ.head e) = rw (ap test (sym e) ∙ t) (Memᴰ.head e)
mem-keep row test (r ∷ rows) t (Memᴰ.tail m) = elim (Bool-cases (test r)) [
  | inl u ↦ rw u (Memᴰ.tail (mem-keep row test rows t m))
  | inr f ↦ rw f (mem-keep row test rows t m)
]

not_live :
    (test : JobRow → Bool) (row : JobRow)
    → is_live row ≡ false
    → (test row ≡ true → is_live row ≡ true)
    → test row ≡ false
not_live test row settled h = elim (Bool-cases (test row)) [
  | inl t ↦ absurd (cc (settled, h t))
  | inr f ↦ f
]

IsEffect-settled :
    (IsNew : String → Type 0) (row : JobRow) (rows rows' : List JobRow)
    → IsEffect IsNew rows rows'
    → is_live row ≡ false
    → Memᴰ row rows
    → Memᴰ row rows'
unfolding delete
IsEffect-settled IsNew row rows rows' (updated test change live step e) s m =
    rw e (mem-update row test change rows (not_live test row s (mem-All _ row rows m live)) m)
IsEffect-settled IsNew row rows rows' (deleted test live e) s m =
    rw e (mem-keep row _ rows (rw (not_live test row s (mem-All _ row rows m live)) refl) m)
IsEffect-settled IsNew row rows rows' (inserted new allowed fresh empty e) s m =
    rw e (mem-append row rows (new ∷ []) m)
IsEffect-settled IsNew row rows rows' (unchanged e) s m = rw e m

-- A settled row stays as it is, whichever commands follow.
commands_keep :
    (cs : List Command) (db : Db) (row : JobRow)
    → IsWellFormed db.jobs
    → is_live row ≡ false
    → Memᴰ row db.jobs
    → Memᴰ row (execute_all cs db).jobs × IsWellFormed (execute_all cs db).jobs
unfolding execute_all
commands_keep [] db row w s m = (m, w)
commands_keep (c ∷ cs) db row w s m =
    let e = execute-IsEffect c db w.keyed in
    commands_keep cs (execute c db) row
      (IsEffect-IsWellFormed (MayInsert c) db.jobs (execute c db).jobs e w) s
      (IsEffect-settled (MayInsert c) row db.jobs (execute c db).jobs e s m)

-- Runs of commands, and the pruning of old rows in between.
pub data Upkeep : Type 0 where
  works : List Command → Upkeep
  prunes : PruneDurableJobsOptions → Upkeep

abbrev pruned_or_same : Tables → Option (PruneDurableJobsResult × Tables) → Tables
pruned_or_same t none = t
pruned_or_same t (some r) = r.1

unfoldable pub keep_up : List Upkeep → Tables → Tables
unfolding execute_all prune_durable_jobs
keep_up [] t = t
keep_up (works cs ∷ steps) t = keep_up steps (record t { db = execute_all cs t.db })
keep_up (prunes opts ∷ steps) t = keep_up steps (pruned_or_same t (prune_durable_jobs opts t))

-- A cutoff that the row's completion, if any, is later than.
abbrev pub IsSpared : JobRow → Option ℕ → Type 0
IsSpared row none = Unit
IsSpared row (some before) =
    (row.completed_at ≡ none) ⊎ ((t : ℕ) × (row.completed_at ≡ some t) × (before < t))

abbrev pub SparesRow : JobRow → Upkeep → Type 0
SparesRow row (works cs) = Unit
SparesRow row (prunes opts) = IsSpared row opts.completed_before

at_most-spared :
    (row : JobRow) (before : ℕ)
    → IsSpared row (some before)
    → at_most row.completed_at before ≡ false
at_most-spared row before (inl e) = ap (λ c. at_most c before) e
at_most-spared row before (inr (t, e, later)) = ap (λ c. at_most c before) e ∙ ground (arith, later)

jobs_kept :
    (cut : Option ℕ) (t : Tables) (row : JobRow)
    → IsSpared row cut
    → IsWellFormed t.db.jobs
    → Memᴰ row t.db.jobs
    → Memᴰ row (jobs_at_once cut t).1.db.jobs × IsWellFormed (jobs_at_once cut t).1.db.jobs
unfolding delete
jobs_kept none t row h w m = (m, w)
jobs_kept (some before) t row h w m = (
  mem-keep row (λ r. not (is_prunable_job t.batches before r)) t.db.jobs
      (ap (λ b. not (b && may_forget t.batches row.batch_id)) (at_most-spared row before h)) m,
  record { keyed = IsKeyed-keep _ t.db.jobs w.keyed; bounded = All-keep _ _ t.db.jobs w.bounded },
)

failures-jobs : (cut : Option ℕ) (t : Tables) → (failures_at_once cut t).1.db.jobs ≡ t.db.jobs
failures-jobs none t = refl
failures-jobs (some before) t = refl

batches-jobs : (cut : Option ℕ) (t : Tables) → (batches_at_once cut t).1.db.jobs ≡ t.db.jobs
batches-jobs none t = refl
batches-jobs (some before) t = refl

pruning_keeps :
    (opts : PruneDurableJobsOptions) (t : Tables) (row : JobRow)
    → IsSpared row opts.completed_before
    → IsWellFormed t.db.jobs
    → Memᴰ row t.db.jobs
    → let end = pruned_or_same t (prune_durable_jobs opts t) in
      Memᴰ row end.db.jobs × IsWellFormed end.db.jobs
unfolding pruned_at_once
pruning_keeps opts t row h w m =
    let j = (jobs_at_once opts.completed_before t).1 in
    let f = (failures_at_once opts.failed_before j).1 in
    subst (λ (rows : List JobRow). Memᴰ row rows × IsWellFormed rows)
      (sym (
        ap (λ o. (pruned_or_same t o).db.jobs) (prune_durable_jobs-whole opts t)
        ∙ (batches-jobs opts.finished_batches_before f ∙ failures-jobs opts.failed_before j)))
      (jobs_kept opts.completed_before t row h w m)

-- On well-formed tables, a row that is completed or failed stays in the table as it is, whatever
-- commands and prunings follow, where no pruning has a cutoff for completed jobs at or after the
-- time at which the row was completed: nothing else claims, settles, publishes, sweeps or deletes it.
pub settled_row_stays :
    (steps : List Upkeep) (t : Tables) (row : JobRow)
    → IsWellFormed t.db.jobs
    → is_live row ≡ false
    → Memᴰ row t.db.jobs
    → All (SparesRow row) steps
    → Memᴰ row (keep_up steps t).db.jobs
unfolding keep_up
settled_row_stays [] t row w s m h = m
settled_row_stays (works cs ∷ steps) t row w s m h =
    let (kept, sound) = commands_keep cs t.db row w s m in
    settled_row_stays steps (record t { db = execute_all cs t.db }) row sound s kept h.1
settled_row_stays (prunes opts ∷ steps) t row w s m h =
    let (kept, sound) = pruning_keeps opts t row h.0 w m in
    settled_row_stays steps (pruned_or_same t (prune_durable_jobs opts t)) row sound s kept h.1
