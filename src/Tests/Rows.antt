-- ===== src/Tests/Rows.antt =====
-- Runs of the tables of durable jobs.
use mathlib.Core.List.{Memᴰ}
use harlan_nuxt.Prelude.{
  inr, length, keep, ◌≤◌, or_else, ◌≡◌, refl, none, some, List, [], ◌∷◌, String, str_eq, eq_iff,
  true, arith,
}
use harlan_nuxt.Prelude.Effect.{threw}
use harlan_nuxt.CfJobs.JobStore.{JobRow, Db, is_member, append_failure_evidence}
use harlan_nuxt.CfJobs.Lifecycle.{
  DurableJobRecord, published_row, reserve, claim_job, ReleaseOptions, complete_job, fail_job,
  release_job, lost_ownership,
}
use harlan_nuxt.CfJobs.Commands.{
  Command, claim, mark_published, release_stale, execute, execute_all,
}
use harlan_nuxt.CfJobs.Sweep.{
  StaleQuery, is_revivable, is_stale, stale_released, release_stale_reserved_jobs,
}
use harlan_nuxt.CfJobs.Sweep.Revival.{stale_job_is_claimed}
use harlan_nuxt.CfJobs.Commands.Exclusion.{claim_is_exclusive}
use harlan_nuxt.CfJobs.Commands.Fencing.{stale_claim_is_fenced}
use harlan_nuxt.CfJobs.Commands.Terminal.{
  IsWellFormed, execute_all-IsWellFormed, works, prunes, keep_up, settled_row_stays,
}
use harlan_nuxt.CfJobs.BatchStore.{Tables}
use harlan_nuxt.CfJobs.Prune.{PruneDurableJobsOptions}

abbrev job_record : String → DurableJobRecord
job_record id = record {
  id = id;
  queue = "emails";
  job_type = "send";
  batch_id = none;
  unique_key = none;
  payload = "{}";
  attempts = 0;
  max_attempts = some 3;
  available_at = 10;
  created_at = 10;
}

abbrev row : String → JobRow
row id = published_row (job_record id)

abbrev done : JobRow
done = let r = row "b" in record r { completed_at = some 15 }

abbrev tables : Db
tables = record { jobs = row "a" ∷ done ∷ []; failed_jobs = [] }

b_is_not_a : str_eq "b" "a" ≡ true → ⊥
b_is_not_a e = cc

tables-IsWellFormed : IsWellFormed tables.jobs
tables-IsWellFormed = record {
  keyed = (((λ e. b_is_not_a ((eq_iff "b" "a").1 e)), tt), (tt, tt));
  bounded = (omega arith, (omega arith, tt));
}

abbrev sweep : StaleQuery
sweep = record { now = 920; stale_before = 20; available_at = none; error = none; limit = none }

abbrev run : List Command
run = claim none 20 "a" ∷ release_stale sweep ∷ mark_published ("a" ∷ "b" ∷ []) 930 ∷ []

execute_all-IsWellFormed_example : IsWellFormed (execute_all run tables).jobs
execute_all-IsWellFormed_example = execute_all-IsWellFormed run tables tables-IsWellFormed

-- Rows that were completed by 10 are pruned; this one was at 15.
abbrev pruning : PruneDurableJobsOptions
pruning = record {
  completed_before = some 10;
  finished_batches_before = some 10;
  failed_before = none;
  limit = none;
}

abbrev site_tables : Tables
site_tables = record { batches = []; db = tables }

settled_row_stays_example :
    Memᴰ done (keep_up (works run ∷ prunes pruning ∷ works run ∷ []) site_tables).db.jobs
settled_row_stays_example =
    settled_row_stays (works run ∷ prunes pruning ∷ works run ∷ []) site_tables done
      tables-IsWellFormed refl (Memᴰ.tail (Memᴰ.head refl))
      (tt, (inr (15, refl, omega arith), (tt, tt)))

-- The claim at 20 is swept at 920 and followed by a second claim; then the first one settles.
abbrev first_claim : JobRow
first_claim = reserve 20 (row "a")

abbrev between : List Command
between = release_stale sweep ∷ []

abbrev plain_release : ReleaseOptions
plain_release = record { available_at = none; delay_seconds = none; error = none }

first_wins : (claim_job none 20 "a" tables).0 ≡ some first_claim
unfolding claim_job
first_wins = refl

second_wins :
    (claim_job none 930 "a" (execute_all between (claim_job none 20 "a" tables).1)).0
    ≡ some (reserve 930 (stale_released sweep first_claim))
unfolding claim_job execute_all execute release_stale_reserved_jobs append_failure_evidence
    is_member
second_wins = refl

stale_claim_is_fenced_example :
    let end =
      execute_all
        (mark_published ("a" ∷ []) 940 ∷ [])
        (claim_job none 930 "a" (execute_all between (claim_job none 20 "a" tables).1)).1 in
    (complete_job 950 first_claim end ≡ (threw (lost_ownership "a"), end))
    × (fail_job 950 "timeout" first_claim end ≡ (threw (lost_ownership "a"), end))
    × (release_job 950 plain_release first_claim end ≡ (threw (lost_ownership "a"), end))
stale_claim_is_fenced_example =
    stale_claim_is_fenced none none 20 930 "a" tables first_claim
      (reserve 930 (stale_released sweep first_claim)) between (mark_published ("a" ∷ []) 940 ∷ [])
      tables-IsWellFormed ((λ e. e), tt) ((λ e. e), tt) first_wins second_wins 950 "timeout"
      plain_release

-- While the claim of 20 stands, a claim at 30 that takes reservations of 60 seconds for abandoned.
claim_is_exclusive_example :
    (claim_job
      (some 60)
      30
      "a"
      (execute_all (mark_published ("a" ∷ []) 25 ∷ []) (claim_job none 20 "a" tables).1)).0
    ≡ none
claim_is_exclusive_example =
    claim_is_exclusive none (some 60) 20 30 "a" tables first_claim
      (mark_published ("a" ∷ []) 25 ∷ []) tables-IsWellFormed first_wins (tt, tt) refl

-- The row as its worker left it, reserved at 20.
abbrev abandoned : Db
abandoned = record { jobs = first_claim ∷ done ∷ []; failed_jobs = [] }

first_claim_is_stale : is_revivable sweep first_claim ≡ true
unfolding is_stale
first_claim_is_stale = refl

within_limit : length (keep (is_revivable sweep) abandoned.jobs) ≤ or_else sweep.limit 100
unfolding is_stale
within_limit = omega arith

stale_job_is_claimed_example :
    (claim_job (some 900) 920 "a" (release_stale_reserved_jobs sweep abandoned)).0
    ≡ some (reserve 920 (stale_released sweep first_claim))
stale_job_is_claimed_example =
    stale_job_is_claimed (some 900) 920 sweep abandoned first_claim tables-IsWellFormed.keyed
      (Memᴰ.head refl) first_claim_is_stale refl within_limit (omega arith)
