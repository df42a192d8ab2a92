-- ===== src/Tests/Sweeping.antt =====
-- The choice of a recovery sweep at a concrete input.
use harlan_nuxt.Prelude.{◌<◌, ◌+◌, ◌⊎◌, ◌≡◌, ◌≤◌, true, List, [], ◌∷◌, All, length, String, arith}
use harlan_nuxt.CfJobs.JobStore.{is_member}
use harlan_nuxt.CfJobs.Outbox.{JobRef}
use harlan_nuxt.CfJobs.Recovery.{ids, dispatchable_jobs}
use harlan_nuxt.CfJobs.Recovery.Unique.{IsDistinctIds, IsSent}
use harlan_nuxt.CfJobs.Recovery.Dispatchable.{IsSource, dispatchable_jobs_lem}

abbrev job : String → JobRef
job id = record { id = id; queue = "emails" }

abbrev fresh : List JobRef
fresh = job "a" ∷ job "b" ∷ []

abbrev released_now : List JobRef
released_now = job "c" ∷ []

abbrev orphaned : List JobRef
orphaned = job "c" ∷ job "b" ∷ job "d" ∷ []

dispatchable_jobs_lem_example :
    let out = dispatchable_jobs 120 3 fresh released_now [] orphaned in
    IsDistinctIds out
    × (length out ≤ 3)
    × All (IsSource 120 fresh released_now [] orphaned) out
    × All (IsSent out) fresh
    × ((0 < 120) ⊎ ((3 < length fresh + length released_now) ⊎ All (IsSent out) released_now))
    × ((3 < length fresh + (length released_now + (0 + length orphaned)))
        ⊎ (All (IsSent out) []
            × All
                (λ x. IsSent out x ⊎ ((0 < 120) × (is_member x.id (ids released_now) ≡ true)))
                orphaned))
dispatchable_jobs_lem_example =
    dispatchable_jobs_lem 120 3 fresh released_now [] orphaned (omega arith)
