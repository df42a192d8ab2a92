-- ===== src/CfJobs/Recovery/Dispatchable.antt =====
-- What a recovery sweep sends: no row twice, none beyond the limit, none from elsewhere, and the
-- unpublished rows first.
use mathlib.Core.List.{Memᴰ}
use mathlib.Core.Path.{subst}
use harlan_nuxt.Prelude.{
  ℕ, ◌≡◌, refl, ◌≤◌, ◌⊎◌, inl, inr, Bool, true, false, not, Bool-cases, List, [], ◌∷◌, ◌++◌, keep,
  length, All, All-append, ltb, ltb→lt, ◌+◌, ◌<◌, append_assoc, length-append, arith,
}
use harlan_nuxt.CfJobs.JobStore.{is_member, limit_to}
use harlan_nuxt.CfJobs.JobStore.Rows.{
  All-keep, All-limit_to, All-of_mem, All-both, keep_tested, length-keep,
}
use harlan_nuxt.CfJobs.Outbox.{JobRef}
use harlan_nuxt.CfJobs.Recovery.{unique_from, unique_jobs, ids, dispatchable_jobs}
use harlan_nuxt.CfJobs.Recovery.Unique.{
  IsDistinctIds, All-imp, unique_from-IsDistinctIds, unique_from-All, limit_to-IsDistinctIds,
  length-limit_to, IsSent, sent_of, front-IsSent, whole-IsSent, All-front, All-rest,
}

flipped : (b : Bool) → not b ≡ true → b ≡ false
flipped true h = cc
flipped false h = refl

-- Where a sent row comes from; with a grace, an orphaned row is no row that this sweep released.
pub data IsSource (grace : ℕ) (fresh released_now stale_released orphaned : List JobRef)
    (job : JobRef) : Type 0 where
  from_fresh : Memᴰ job fresh → IsSource grace fresh released_now stale_released orphaned job
  from_released :
      grace ≡ 0
      → Memᴰ job released_now
      → IsSource grace fresh released_now stale_released orphaned job
  from_stale_released :
      Memᴰ job stale_released → IsSource grace fresh released_now stale_released orphaned job
  from_orphaned :
      Memᴰ job orphaned
      → (grace ≡ 0) ⊎ (is_member job.id (ids released_now) ≡ false)
      → IsSource grace fresh released_now stale_released orphaned job

-- Of rows of which some are held back, each is sent or was held back.
IsSent-or_held :
    (out : List JobRef) (held : JobRef → Bool) (rows : List JobRef)
    → All (IsSent out) (keep (λ job. not (held job)) rows)
    → All (λ job. IsSent out job ⊎ (held job ≡ true)) rows
IsSent-or_held out held [] h = tt
IsSent-or_held out held (job ∷ rows) h = elim (Bool-cases (held job)) [
  | inl t ↦ (inr t, IsSent-or_held out held rows (rw t at h))
  | inr f ↦ (inl (rw f at h).0, IsSent-or_held out held rows (rw f at h).1)
]

module _ (limit : ℕ) (fresh released_now stale_released orphaned : List JobRef) where
  released-IsSent :
      (rest : List JobRef)
      → (limit < length fresh + length released_now)
        ⊎ All (IsSent (sent_of limit (fresh ++ (released_now ++ rest)))) released_now
  released-IsSent rest = elim (Bool-cases (ltb limit (length fresh + length released_now))) [
    | inl t ↦ inl (ltb→lt _ _ t)
    | inr f ↦ inr (
        All-rest _ fresh released_now (
          subst (λ l. All (IsSent (sent_of limit l)) (fresh ++ released_now))
            (append_assoc fresh released_now rest)
            (front-IsSent limit (fresh ++ released_now) rest
              (ground (arith, f, length-append fresh released_now)))))
  ]

  abbrev IsAllSent : List JobRef → (JobRef → Type 0) → Type 0
  IsAllSent out IsHeld =
      (limit < length fresh + (length released_now + (length stale_released + length orphaned)))
      ⊎ (All (IsSent out) stale_released × All (λ job. IsSent out job ⊎ IsHeld job) orphaned)

  abbrev is_released : JobRef → Bool
  is_released job = is_member job.id (ids released_now)

  all_sent_with_grace :
      (grace : ℕ)
      → 0 < grace
      → IsAllSent
          (sent_of limit
            (fresh ++ (stale_released ++ keep (λ job. not (is_released job)) orphaned)))
          (λ job. (0 < grace) × (is_released job ≡ true))
  all_sent_with_grace grace g = elim (Bool-cases (ltb limit total)) [
    | inl t ↦ inl (ltb→lt _ _ t)
    | inr f ↦
        let sent = All-rest _ fresh (stale_released ++ kept) (
          whole-IsSent limit (fresh ++ (stale_released ++ kept)) (
            ground (
              arith,
              f,
              length-append fresh (stale_released ++ kept),
              length-append stale_released kept,
              length-keep (λ job. not (is_released job)) orphaned,
            ))) in
        inr (
          All-front _ stale_released kept sent,
          All-imp _ _ orphaned (λ job h. held job h)
              (IsSent-or_held _ is_released orphaned (All-rest _ stale_released kept sent)),
        )
  ]
    where
      total : ℕ
      total = length fresh + (length released_now + (length stale_released + length orphaned))

      kept : List JobRef
      kept = keep (λ job. not (is_released job)) orphaned

      held :
          {P : Type 0} (job : JobRef)
          → P ⊎ (is_released job ≡ true)
          → P ⊎ ((0 < grace) × (is_released job ≡ true))
      held job (inl p) = inl p
      held job (inr r) = inr (g, r)

  all_sent_without :
      (IsHeld : JobRef → Type 0)
      → IsAllSent (sent_of limit (fresh ++ (released_now ++ (stale_released ++ orphaned)))) IsHeld
  all_sent_without IsHeld = elim (Bool-cases (ltb limit total)) [
    | inl t ↦ inl (ltb→lt _ _ t)
    | inr f ↦
        let sent = All-rest _ released_now (stale_released ++ orphaned) (
          All-rest _ fresh _ (
            whole-IsSent limit (fresh ++ (released_now ++ (stale_released ++ orphaned))) (
              ground (
                arith,
                f,
                length-append fresh (released_now ++ (stale_released ++ orphaned)),
                length-append released_now (stale_released ++ orphaned),
                length-append stale_released orphaned,
              )))) in
        inr (
          All-front _ stale_released orphaned sent,
          All-imp _ _ orphaned (λ job h. inl h) (All-rest _ stale_released orphaned sent),
        )
  ]
    where
      total : ℕ
      total = length fresh + (length released_now + (length stale_released + length orphaned))

-- Where the unpublished rows that a sweep found are within its limit: it sends at most `limit`
-- rows, none twice by its id, and every unpublished row's id is sent; each sent row is
-- unpublished, or stale and released before, or orphaned, or, without a redelivery grace only, one
-- that this sweep released, and with a grace none of the orphaned ones was released in this sweep.
-- Without a grace the rows that this sweep released are sent too, where they are within the limit
-- together with the unpublished ones. Where all the rows are within the limit, so are sent the stale
-- rows that were released before, and the orphaned ones but those that a grace holds back.
pub dispatchable_jobs_lem :
    (grace limit : ℕ) (fresh released_now stale_released orphaned : List JobRef)
    → length fresh ≤ limit
    → let out = dispatchable_jobs grace limit fresh released_now stale_released orphaned in
      IsDistinctIds out
      × (length out ≤ limit)
      × All (IsSource grace fresh released_now stale_released orphaned) out
      × All (IsSent out) fresh
      × ((0 < grace)
          ⊎ ((limit < length fresh + length released_now) ⊎ All (IsSent out) released_now))
      × ((limit < length fresh + (length released_now + (length stale_released + length orphaned)))
          ⊎ (All (IsSent out) stale_released
              × All
                  (λ job.
                    IsSent out job ⊎ ((0 < grace) × (is_member job.id (ids released_now) ≡ true)))
                  orphaned))
unfolding dispatchable_jobs unique_jobs
dispatchable_jobs_lem grace limit fresh released_now stale_released orphaned room =
    elim (Bool-cases (ltb 0 grace)) [
      | inl some_grace ↦ rw some_grace (
          let base = both (stale_released ++ keep held_not orphaned) with_grace in
          (
            base.0,
            base.1,
            base.2,
            base.3,
            inl (ltb→lt _ _ some_grace),
            all_sent_with_grace limit fresh released_now stale_released orphaned grace
                (ltb→lt _ _ some_grace),
          ))
      | inr no_grace ↦ rw no_grace (
          let base =
            both (released_now ++ (stale_released ++ orphaned))
              (without (ground (arith, no_grace))) in
          (
            base.0,
            base.1,
            base.2,
            base.3,
            inr (
                released-IsSent limit fresh released_now stale_released orphaned
                  (stale_released ++ orphaned)),
            all_sent_without limit fresh released_now stale_released orphaned _,
          ))
    ]
  where
    held_not : JobRef → Bool
    held_not job = not (is_member job.id (ids released_now))

    with_grace :
        All
          (IsSource grace fresh released_now stale_released orphaned)
          (stale_released ++ keep (λ job. not (is_member job.id (ids released_now))) orphaned)
    with_grace =
        All-append _ stale_released _ (All-of_mem _ stale_released (λ job m. from_stale_released m))
          (All-imp _ _ _
            (λ job h. from_orphaned h.0 (inr (flipped (is_member job.id (ids released_now)) h.1)))
            (All-both (λ job. Memᴰ job orphaned)
              (λ job. not (is_member job.id (ids released_now)) ≡ true) _
              (All-keep (λ job. Memᴰ job orphaned) _ orphaned (All-of_mem _ orphaned (λ job m. m)))
              (keep_tested _ orphaned)))

    without :
        grace ≡ 0
        → All
            (IsSource grace fresh released_now stale_released orphaned)
            (released_now ++ (stale_released ++ orphaned))
    without none =
        All-append _ released_now _ (All-of_mem _ released_now (λ job m. from_released none m)) (
          All-append _ stale_released orphaned
            (All-of_mem _ stale_released (λ job m. from_stale_released m))
            (All-of_mem _ orphaned (λ job m. from_orphaned m (inl none))))

    both :
        (others : List JobRef)
        → All (IsSource grace fresh released_now stale_released orphaned) others
        → let out = limit_to limit (unique_from [] (fresh ++ others)) in
          IsDistinctIds out
          × (length out ≤ limit)
          × All (IsSource grace fresh released_now stale_released orphaned) out
          × All (λ job. is_member job.id (ids out) ≡ true) fresh
    both others h = (
      limit_to-IsDistinctIds limit _ (unique_from-IsDistinctIds [] _),
      length-limit_to limit _,
      All-limit_to _ limit _ (
          unique_from-All _ [] _
            (All-append _ fresh others (All-of_mem _ fresh (λ job m. from_fresh m)) h)),
      front-IsSent limit fresh others room,
    )
