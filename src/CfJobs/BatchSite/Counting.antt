-- ===== src/CfJobs/BatchSite/Counting.antt =====
-- The sum of the counters of the D1 store bounds the chain of `onFinish` calls: a decrement that
-- answers a row lowers it, and finishing an orphaned batch does not raise it.
use harlan_nuxt.Prelude.{
  ℕ, ◌+◌, ◌≤◌, ◌<◌, ◌≡◌, refl, inl, inr, Bool, true, Option, none, some, List, [], ◌∷◌, String,
  Bool-cases, arith,
}
use harlan_nuxt.Prelude.Effect.{returned}
use harlan_nuxt.CfJobs.JobStore.{update, first_changed}
use harlan_nuxt.CfJobs.BatchStore.{
  BatchRow, is_pending, settle_one, decrement_pending, can_finish, close, finish_orphaned_batch,
}
use harlan_nuxt.CfJobs.Settle.Fuel.{IsLowering}
use harlan_nuxt.CfJobs.BatchSite.{Site, create_d1_durable_batch_store}

abbrev pub pending_total : List BatchRow → ℕ
pending_total [] = 0
pending_total (b ∷ batches) = b.pending_jobs + pending_total batches

abbrev pub site_total : {W : Type 0} → Site W → ℕ
site_total s = pending_total s.tables.batches

-- A change that does not raise a counter does not raise the sum.
pending_total-update :
    (test : BatchRow → Bool) (change : BatchRow → BatchRow)
    → ((b : BatchRow) → (change b).pending_jobs ≤ b.pending_jobs)
    → (batches : List BatchRow) → pending_total (update test change batches) ≤ pending_total batches
unfolding update
pending_total-update test change low [] = omega arith
pending_total-update test change low (b ∷ batches) = elim (Bool-cases (test b)) [
  | inl t ↦ rw t (omega (arith, low b, pending_total-update test change low batches))
  | inr f ↦ rw f (omega (arith, pending_total-update test change low batches))
]

module _ (now : ℕ) (failed : Bool) where
  settled_lower : (b : BatchRow) → (settle_one now failed b).pending_jobs ≤ b.pending_jobs
  unfolding settle_one
  settled_lower b = omega arith

  settled_less :
      (id : String) (b : BatchRow)
      → is_pending id b ≡ true
      → (settle_one now failed b).pending_jobs < b.pending_jobs
  unfolding settle_one is_pending
  settled_less id b h = ground arith

  decrement-less :
      (id : String) (batches : List BatchRow) (r : BatchRow)
      → first_changed (is_pending id) (settle_one now failed) batches ≡ some r
      → pending_total (update (is_pending id) (settle_one now failed) batches)
        < pending_total batches
  unfolding first_changed update
  decrement-less id [] r e = absurd (cc)
  decrement-less id (b ∷ batches) r e = elim (Bool-cases (is_pending id b)) [
    | inl t ↦ rw t (
        omega (
          arith,
          settled_less id b t,
          pending_total-update (is_pending id) (settle_one now failed) settled_lower batches,
        ))
    | inr f ↦ rw f (omega (arith, decrement-less id batches r (rw f at e)))
  ]

module _ {W E : Type 0} (taken : E) (describe : E → String) (now : ℕ) where
  lowering :
      (s : Site W) (o : Option BatchRow) (end : Site W)
      → site_total end ≤ site_total s
      → ((b : BatchRow) → o ≡ some b → site_total end < site_total s)
      → IsLowering {E = E} site_total s (returned o, end)
  lowering s none end h k = h
  lowering s (some b) end h k = k b refl

  pub decrement-IsLowering :
      (id : String) (failed : Bool) (s : Site W)
      → IsLowering {E = E} site_total s
          ((create_d1_durable_batch_store taken describe now).decrement_pending id failed s)
  unfolding create_d1_durable_batch_store decrement_pending
  decrement-IsLowering id failed s =
      lowering s (first_changed (is_pending id) (settle_one now failed) s.tables.batches) _
        (pending_total-update (is_pending id) (settle_one now failed) (settled_lower now failed)
          s.tables.batches)
        (λ b e. decrement-less now failed id s.tables.batches b e)

  pub finish-lower :
      (at : ℕ) (id : String) (s : Site W)
      → site_total (record s { tables = (finish_orphaned_batch at id s.tables).1 }) ≤ site_total s
  unfolding finish_orphaned_batch
  finish-lower at id s =
      pending_total-update (can_finish s.tables id) (close at) (λ b. omega arith) s.tables.batches

  pub decrement-lower :
      (id : String) (failed : Bool) (s : Site W)
      → site_total (record s { tables = (decrement_pending now id failed s.tables).1 })
        ≤ site_total s
  unfolding decrement_pending
  decrement-lower id failed s =
      pending_total-update (is_pending id) (settle_one now failed) (settled_lower now failed)
        s.tables.batches
