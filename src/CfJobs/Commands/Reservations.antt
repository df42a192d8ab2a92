-- ===== src/CfJobs/Commands/Reservations.antt =====
-- A reservation stands through every command that leaves it alone.
use harlan_nuxt.Prelude.{
  ℕ, ◌<◌, ◌≡◌, refl, sym, ap, ◌∙◌, ◌≢◌, ◌⊎◌, inl, inr, Bool, true, false, Bool-cases, Option, some,
  List, [], ◌∷◌, keep, any, All, All-append, String, eq_iff, or_else, arith,
}
use harlan_nuxt.Prelude.Effect.{Outcome-cases}
use harlan_nuxt.CfJobs.JobStore.{JobRow, Db, is_live, at_most, update, changes, select}
use harlan_nuxt.CfJobs.JobStore.Rows.{
  All-update, All-delete, All-of_mem, mem-All, IsKeyed, selected_tested,
}
use harlan_nuxt.CfJobs.Lifecycle.{
  DurableJobRecord, staged_row, published_row, conflicts, insert_or_ignore, is_abandoned, is_free,
  can_claim, reserve, claim_job, is_owned, complete_job, copy_failed, fail_job, release_job,
  released, completed, published, dispatch_failed, redispatched, arrived, mark_jobs_published,
  note_jobs_dispatch_failure, note_orphan_redispatch, note_dlq_arrival, record_failure,
}
use harlan_nuxt.CfJobs.Sweep.{
  StaleQuery, is_stale, is_revivable, is_exhausted, chosen, stale_released, reserved_time,
  release_stale_reserved_jobs, fail_stale_reserved_jobs,
}
use harlan_nuxt.CfJobs.Commands.{
  Command, stage, insert, claim, complete, fail, release, mark_published, note_failure,
  note_redispatch, note_arrival, record_dead, release_stale, fail_stale, execute, execute_all,
}
use harlan_nuxt.CfJobs.Commands.Effects.{
  assert_owned-tables, revivable_live, MayInsert, execute-IsEffect,
}
use harlan_nuxt.CfJobs.Commands.Terminal.{IsWellFormed, IsEffect-IsWellFormed}

-- The row is reserved since `t`, or settled.
abbrev pub IsHeld : String → ℕ → JobRow → Type 0
IsHeld id t row = row.id ≡ id → (row.reserved_at ≡ some t) ⊎ (is_live row ≡ false)

-- A command that leaves a reservation of `id` since `t` alone: no claim that takes it for
-- abandoned, no release by its owner, no sweep with a bound from `t` on, no new row with the id.
abbrev pub IsPatient : String → ℕ → Command → Type 0
IsPatient id t (stage r) = r.id ≢ id
IsPatient id t (insert r) = r.id ≢ id
IsPatient id t (claim reclaim_after now other) = is_abandoned reclaim_after now t ≡ false
IsPatient id t (release at opts job) = job.id ≢ id
IsPatient id t (release_stale query) = query.stale_before < t
IsPatient id t _ = Unit

claimable :
    (reclaim_after : Option ℕ) (now : ℕ) (other : String) (row : JobRow)
    → can_claim reclaim_after now other row ≡ true
    → (is_free reclaim_after now row.reserved_at ≡ true) × (is_live row ≡ true)
unfolding can_claim
claimable reclaim_after now other row h = (ground arith, ground arith)

pub unclaimable :
    (t : ℕ) (reclaim_after : Option ℕ) (now : ℕ) (other : String) (row : JobRow)
    → is_abandoned reclaim_after now t ≡ false
    → (row.reserved_at ≡ some t) ⊎ (is_live row ≡ false)
    → can_claim reclaim_after now other row ≡ true
    → ⊥
unclaimable t reclaim_after now other row early (inl held) h =
    cc (
      early,
      ap (is_free reclaim_after now) (sym held) ∙ (claimable reclaim_after now other row h).0,
    )
unclaimable t reclaim_after now other row early (inr settled) h =
    cc (settled, (claimable reclaim_after now other row h).1)

owned_id : (job row : JobRow) → is_owned job row ≡ true → row.id ≡ job.id
unfolding is_owned
owned_id job row h = ground (arith, eq_iff row.id job.id)

stale_time :
    (query : StaleQuery) (row : JobRow)
    → is_revivable query row ≡ true
    → at_most row.reserved_at query.stale_before ≡ true
unfolding is_stale
stale_time query row h = ground arith

at_most_bound :
    (t : ℕ) (query : StaleQuery) (row : JobRow)
    → query.stale_before < t
    → at_most (some t) query.stale_before ≡ true
    → ⊥
at_most_bound t query row early h = ground arith

-- A stale row is reserved since the bound or before, so a later reservation is not stale.
not_stale :
    (t : ℕ) (query : StaleQuery) (row : JobRow)
    → query.stale_before < t
    → (row.reserved_at ≡ some t) ⊎ (is_live row ≡ false)
    → is_revivable query row ≡ true
    → ⊥
not_stale t query row early (inl held) h =
    at_most_bound t query row early
      (ap (λ r. at_most r query.stale_before) (sym held) ∙ stale_time query row h)
not_stale t query row early (inr settled) h = cc (settled, revivable_live query row h)

module _ (id : String) (t : ℕ) where
  -- An update that spares the reserved rows, or keeps their reservation or settles them.
  kept :
      (test : JobRow → Bool) (change : JobRow → JobRow) (rows : List JobRow)
      → ((row : JobRow) → test row ≡ true → IsHeld id t row → IsHeld id t (change row))
      → All (IsHeld id t) rows
      → All (IsHeld id t) (update test change rows)
  kept test change rows step h =
      All-update (IsHeld id t) test change rows (All-of_mem _ rows (λ row m. step row)) h

  insert-IsHeld :
      (to_row : DurableJobRecord → JobRow) (r : DurableJobRecord) (db : Db)
      → (to_row r).id ≢ id
      → All (IsHeld id t) db.jobs
      → All (IsHeld id t) (insert_or_ignore to_row r db).1.jobs
  unfolding insert_or_ignore
  insert-IsHeld to_row r db other h = elim (Bool-cases (any (conflicts r) db.jobs)) [
    | inl known ↦ rw known h
    | inr new ↦
        rw new (All-append (IsHeld id t) db.jobs (to_row r ∷ []) h ((λ e. absurd (other e)), tt))
  ]

  fail-IsHeld :
      (now : ℕ) (error : String) (job : JobRow) (db : Db)
      → All (IsHeld id t) db.jobs
      → All (IsHeld id t) (fail_job now error job db).1.jobs
  unfolding fail_job
  fail-IsHeld now error job db h =
      elim (Outcome-cases
        (copy_failed now (λ _. error) (keep (is_owned job) db.jobs) db.failed_jobs)) [
          | inl (failed, e) ↦
              rw (e, fail_job)
                (rw (assert_owned-tables job.id (changes (is_owned job) db.jobs) _)
                  (All-delete (IsHeld id t) (is_owned job) db.jobs h))
          | inr (error, e) ↦ rw (e, fail_job) h
        ]

  fail_stale-IsHeld :
      (exception : JobRow → String) (query : StaleQuery) (db : Db)
      → All (IsHeld id t) db.jobs
      → All (IsHeld id t) (fail_stale_reserved_jobs exception query db).1.jobs
  unfolding fail_stale_reserved_jobs
  fail_stale-IsHeld exception query db h =
      elim (Outcome-cases (
        copy_failed query.now exception
          (select (is_exhausted query) reserved_time (or_else query.limit 100) db.jobs)
          db.failed_jobs)) [
            | inl (failed, e) ↦
                rw (e, fail_stale_reserved_jobs) (All-delete (IsHeld id t) _ db.jobs h)
            | inr (error, e) ↦ rw (e, fail_stale_reserved_jobs) h
          ]

  release_stale-IsHeld :
      (query : StaleQuery) (db : Db)
      → IsKeyed db.jobs
      → query.stale_before < t
      → All (IsHeld id t) db.jobs
      → All (IsHeld id t) (release_stale_reserved_jobs query db).jobs
  unfolding release_stale_reserved_jobs
  release_stale-IsHeld query db keyed early h =
      All-update (IsHeld id t) (chosen (is_revivable query) query db) (stale_released query) db.jobs
        (All-of_mem _ db.jobs (λ row m picked held same. absurd (
          not_stale t query row early (held same) (
            mem-All _ row db.jobs m
              (selected_tested (is_revivable query) reserved_time (or_else query.limit 100) db.jobs
                keyed)
              picked))))
        h

  execute-IsHeld :
      (c : Command) (db : Db)
      → IsKeyed db.jobs
      → IsPatient id t c
      → All (IsHeld id t) db.jobs
      → All (IsHeld id t) (execute c db).jobs
  unfolding execute record_failure claim_job complete_job release_job mark_jobs_published
      note_jobs_dispatch_failure note_orphan_redispatch note_dlq_arrival
  execute-IsHeld (stage r) db k p h = insert-IsHeld staged_row r db p h
  execute-IsHeld (insert r) db k p h = insert-IsHeld published_row r db p h
  execute-IsHeld (claim reclaim_after now other) db k p h =
      kept (can_claim reclaim_after now other) (reserve now) db.jobs
        (λ row picked held same.
          absurd (unclaimable t reclaim_after now other row p (held same) picked))
        h
  execute-IsHeld (complete now job) db k p h =
      rw (assert_owned-tables job.id (changes (is_owned job) db.jobs) _)
        (kept (is_owned job) (completed now) db.jobs (λ row picked held same. inr refl) h)
  execute-IsHeld (fail now error job) db k p h = fail-IsHeld now error job db h
  execute-IsHeld (release at opts job) db k p h =
      rw (assert_owned-tables job.id (changes (is_owned job) db.jobs) _) (
        kept (is_owned job) (released at opts) db.jobs
          (λ row picked held same. absurd (p (sym (owned_id job row picked) ∙ same))) h)
  execute-IsHeld (mark_published ids at) db k p h =
      kept _ (published at) db.jobs (λ row picked held. held) h
  execute-IsHeld (note_failure ids cause at) db k p h =
      kept _ (dispatch_failed cause at) db.jobs (λ row picked held. held) h
  execute-IsHeld (note_redispatch ids at) db k p h =
      kept _ (redispatched at) db.jobs (λ row picked held. held) h
  execute-IsHeld (note_arrival other at n) db k p h =
      kept _ (arrived at n) db.jobs (λ row picked held. held) h
  execute-IsHeld (record_dead row) db k p h = h
  execute-IsHeld (release_stale query) db k p h = release_stale-IsHeld query db k p h
  execute-IsHeld (fail_stale exception query) db k p h = fail_stale-IsHeld exception query db h

  pub execute_all-IsHeld :
      (cs : List Command) (db : Db)
      → IsWellFormed db.jobs
      → All (IsPatient id t) cs
      → All (IsHeld id t) db.jobs
      → All (IsHeld id t) (execute_all cs db).jobs
  unfolding execute_all
  execute_all-IsHeld [] db w p h = h
  execute_all-IsHeld (c ∷ cs) db w p h =
      execute_all-IsHeld cs (execute c db)
        (IsEffect-IsWellFormed (MayInsert c) db.jobs (execute c db).jobs
          (execute-IsEffect c db w.keyed) w)
        p.1 (execute-IsHeld c db w.keyed p.0 h)
