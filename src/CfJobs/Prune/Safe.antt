-- ===== src/CfJobs/Prune/Safe.antt =====
-- What pruning keeps: the work in flight, the evidence of unfinished batches, and the references of
-- the rows to their batches.
use mathlib.Core.List.{Memᴰ}
use harlan_nuxt.Prelude.{
  ℕ, ◌≡◌, refl, sym, ap, ◌∙◌, ◌⊎◌, inl, inr, Bool, true, false, not, ◌&&◌, Option, none, some, List,
  [], ◌∷◌, any, All, String, str_eq, eq_iff, Bool-cases,
}
use harlan_nuxt.CfJobs.JobStore.{JobRow, FailedRow, at_most, delete}
use harlan_nuxt.CfJobs.JobStore.Rows.{All-delete, All-of_mem, mem-All}
use harlan_nuxt.CfJobs.JobStore.Selected.{mem-keep}
use harlan_nuxt.CfJobs.BatchStore.{BatchRow, Tables, has_batch_id}
use harlan_nuxt.CfJobs.Prune.{
  is_unfinished, may_forget, is_prunable_job, is_prunable_failure, in_batch, is_referenced,
  is_prunable_batch, PruneDurableJobsOptions, PruneDurableJobsResult, prune_durable_jobs,
}
use harlan_nuxt.CfJobs.Prune.Whole.{
  jobs_at_once, failures_at_once, batches_at_once, pruned_at_once, prune_durable_jobs-whole,
}

-- A batch that is not finished.
abbrev pub IsOpen : List BatchRow → Option String → Type 0
IsOpen batches none = ⊥
IsOpen batches (some id) = is_unfinished batches id ≡ true

abbrev pub IsLinked : List BatchRow → Option String → Type 0
IsLinked batches none = Unit
IsLinked batches (some id) = any (has_batch_id id) batches ≡ true

-- Each job's batch is a row of the table of batches.
abbrev pub IsReferential : Tables → Type 0
IsReferential t = All (λ (job : JobRow). IsLinked t.batches job.batch_id) t.db.jobs

pub record IsSafe (t end : Tables) : Type 0 where
  jobs_kept :
      (job : JobRow)
      → Memᴰ job t.db.jobs
      → (job.completed_at ≡ none) ⊎ IsOpen t.batches job.batch_id
      → Memᴰ job end.db.jobs
  failures_kept :
      (failed : FailedRow)
      → Memᴰ failed t.db.failed_jobs
      → IsOpen t.batches failed.batch_id
      → Memᴰ failed end.db.failed_jobs
  batches_kept :
      (batch : BatchRow) → Memᴰ batch t.batches → batch.finished_at ≡ none → Memᴰ batch end.batches
  referential : IsReferential end

module _ {A : Type 0} (test : A → Bool) where
  mem-delete : (x : A) (rows : List A) → Memᴰ x rows → test x ≡ false → Memᴰ x (delete test rows)
  unfolding delete
  mem-delete x rows m f = mem-keep (λ row. not (test row)) x rows m (ap not f)

  any-delete :
      (seen : A → Bool) (rows : List A)
      → ((r : A) → seen r ≡ true → test r ≡ false)
      → any seen rows ≡ true
      → any seen (delete test rows) ≡ true
  unfolding delete
  any-delete seen [] h a = a
  any-delete seen (r ∷ rows) h a = elim (Bool-cases (seen r)) [
    | inl t ↦ rw (h r t) (rw t refl)
    | inr f ↦ elim (Bool-cases (test r)) [
      | inl t ↦ rw t (any-delete seen rows h (rw f at a))
      | inr u ↦ rw u (rw f (any-delete seen rows h (rw f at a)))
    ]
  ]

any-mem :
    {A : Type 0} (test : A → Bool) (x : A) (xs : List A)
    → Memᴰ x xs
    → test x ≡ true
    → any test xs ≡ true
any-mem test x [] m t = elim m [ ]
any-mem test x (y ∷ ys) (Memᴰ.head e) t = rw (sym (ap test e) ∙ t) refl
any-mem test x (y ∷ ys) (Memᴰ.tail m) t = elim (Bool-cases (test y)) [
  | inl h ↦ rw h refl
  | inr f ↦ rw f (any-mem test x ys m t)
]

open_is_kept :
    (batches : List BatchRow) (b : Option String) → IsOpen batches b → may_forget batches b ≡ false
open_is_kept batches none o = absurd o
open_is_kept batches (some id) o = ap not o

and_false : (a b : Bool) → b ≡ false → (a && b) ≡ false
and_false true b h = h
and_false false b h = refl

job_is_kept :
    (batches : List BatchRow) (before : ℕ) (job : JobRow)
    → (job.completed_at ≡ none) ⊎ IsOpen batches job.batch_id
    → is_prunable_job batches before job ≡ false
job_is_kept batches before job (inl e) =
    ap (λ c. at_most c before && may_forget batches job.batch_id) e
job_is_kept batches before job (inr o) =
    and_false (at_most job.completed_at before) _ (open_is_kept batches job.batch_id o)

-- A batch that a remaining job is in stays.
IsLinked-stays :
    (jobs : List JobRow) (before : ℕ) (batches : List BatchRow) (job : JobRow) (b : Option String)
    → Memᴰ job jobs
    → job.batch_id ≡ b
    → IsLinked batches b
    → IsLinked (delete (is_prunable_batch jobs before batches) batches) b
IsLinked-stays jobs before batches job none m e l = tt
IsLinked-stays jobs before batches job (some id) m e l =
    any-delete (is_prunable_batch jobs before batches) (has_batch_id id) batches
      (λ batch s. and_false (at_most batch.finished_at before) _ (
        ap (λ r. not r && may_forget batches batch.parent_batch_id)
          (any-mem (in_batch batch.id) job jobs m (referenced batch s))))
      l
  where
    referenced : (batch : BatchRow) → has_batch_id id batch ≡ true → in_batch batch.id job ≡ true
    referenced batch s =
        ap (λ o. elim o [ none ↦ false | some x ↦ str_eq x batch.id ]) e
        ∙ (eq_iff id batch.id).1 (sym ((eq_iff batch.id id).0 s))

IsSafe-refl : (t : Tables) → IsReferential t → IsSafe t t
IsSafe-refl t l = record {
  jobs_kept = λ job m h. m;
  failures_kept = λ f m h. m;
  batches_kept = λ b m h. m;
  referential = l;
}

-- One table after the other.
module _ (t : Tables) where
  jobs_step : (cut : Option ℕ) → IsReferential t → IsSafe t (jobs_at_once cut t).1
  jobs_step none l = IsSafe-refl t l
  jobs_step (some before) l = record {
    jobs_kept = λ job m h.
        mem-delete (is_prunable_job t.batches before) job t.db.jobs m
          (job_is_kept t.batches before job h);
    failures_kept = λ f m h. m;
    batches_kept = λ b m h. m;
    referential =
        All-delete (λ (job : JobRow). IsLinked t.batches job.batch_id)
          (is_prunable_job t.batches before) t.db.jobs l;
  }

  failures_step : (cut : Option ℕ) → IsReferential t → IsSafe t (failures_at_once cut t).1
  failures_step none l = IsSafe-refl t l
  failures_step (some before) l = record {
    jobs_kept = λ job m h. m;
    failures_kept = λ f m h.
        mem-delete (is_prunable_failure t.batches before) f t.db.failed_jobs m
          (and_false _ _ (open_is_kept t.batches f.batch_id h));
    batches_kept = λ b m h. m;
    referential = l;
  }

  batches_step : (cut : Option ℕ) → IsReferential t → IsSafe t (batches_at_once cut t).1
  batches_step none l = IsSafe-refl t l
  batches_step (some before) l = record {
    jobs_kept = λ job m h. m;
    failures_kept = λ f m h. m;
    batches_kept = λ b m h.
        mem-delete (is_prunable_batch t.db.jobs before t.batches) b t.batches m (
          ap
            (λ f.
              at_most f before
              && (not (is_referenced t.db.jobs b) && may_forget t.batches b.parent_batch_id))
            h);
    referential =
        All-of_mem
          (λ (job : JobRow).
            IsLinked (delete (is_prunable_batch t.db.jobs before t.batches) t.batches) job.batch_id)
          t.db.jobs
          (λ job m.
            IsLinked-stays t.db.jobs before t.batches job job.batch_id m refl
              (mem-All (λ (job : JobRow). IsLinked t.batches job.batch_id) job t.db.jobs m l));
  }

opened_still : (xs ys : List BatchRow) (b : Option String) → xs ≡ ys → IsOpen ys b → IsOpen xs b
opened_still xs ys b e o = rw e o

IsSafe-trans : (t u v : Tables) → u.batches ≡ t.batches → IsSafe t u → IsSafe u v → IsSafe t v
IsSafe-trans t u v e h k = record {
  jobs_kept = λ job m o. k.jobs_kept job (h.jobs_kept job m o) (later job o);
  failures_kept = λ f m o.
      k.failures_kept f (h.failures_kept f m o) (opened_still u.batches t.batches f.batch_id e o);
  batches_kept = λ b m o. k.batches_kept b (h.batches_kept b m o) o;
  referential = k.referential;
}
  where
    later :
        (job : JobRow)
        → (job.completed_at ≡ none) ⊎ IsOpen t.batches job.batch_id
        → (job.completed_at ≡ none) ⊎ IsOpen u.batches job.batch_id
    later job (inl n) = inl n
    later job (inr o) = inr (opened_still u.batches t.batches job.batch_id e o)

jobs-batches : (cut : Option ℕ) (t : Tables) → (jobs_at_once cut t).1.batches ≡ t.batches
jobs-batches none t = refl
jobs-batches (some before) t = refl

failures-batches : (cut : Option ℕ) (t : Tables) → (failures_at_once cut t).1.batches ≡ t.batches
failures-batches none t = refl
failures-batches (some before) t = refl

-- Where each job's batch is in the table of batches, pruning returns, whatever its cutoffs and its
-- limit, and it has kept each job that is not completed, each job and each failed job whose batch is
-- an unfinished one, and each batch that is not finished; and each job's batch is still there.
pub prune_durable_jobs-IsSafe :
    (opts : PruneDurableJobsOptions) (t : Tables)
    → IsReferential t
    → (result : PruneDurableJobsResult) × (end : Tables) × (prune_durable_jobs opts t
        ≡ some (result, end))
      × IsSafe t end
unfolding pruned_at_once
prune_durable_jobs-IsSafe opts t l =
    let t1 = (jobs_at_once opts.completed_before t).1 in
    let t2 = (failures_at_once opts.failed_before t1).1 in
    let s1 = jobs_step t opts.completed_before l in
    let s2 = failures_step t1 opts.failed_before s1.referential in
    let s3 = batches_step t2 opts.finished_batches_before s2.referential in
    (
      (pruned_at_once opts t).0,
      (pruned_at_once opts t).1,
      prune_durable_jobs-whole opts t,
      IsSafe-trans t t2 _
          (failures-batches opts.failed_before t1 ∙ jobs-batches opts.completed_before t)
          (IsSafe-trans t t1 t2 (jobs-batches opts.completed_before t) s1 s2) s3,
    )
