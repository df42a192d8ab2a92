-- ===== src/CfJobs/BatchSite/Outcomes.antt =====
-- What the ends of a batch come to on the D1 store.
use mathlib.Core.Option
use harlan_nuxt.Prelude.{
  ℕ, zero, suc, ◌<◌, ◌≡◌, refl, Bool, true, false, Option, none, some, length, or_else, String,
  arith,
}
use harlan_nuxt.Prelude.Effect.{Outcome, returned, threw, Action}
use harlan_nuxt.CfJobs.Payload.{Json}
use harlan_nuxt.CfJobs.JobStore.{coalesce}
use harlan_nuxt.CfJobs.BatchStore.{
  BatchRow, recoverable, unrecoverable, find_orphaned, finish_orphaned_batch, decrement_pending,
  settle_one,
}
use harlan_nuxt.CfJobs.BatchStore.Counters.{pending_of}
use harlan_nuxt.CfJobs.Continuation.{Continuation}
use harlan_nuxt.CfJobs.Settle.{
  SettleBatchMemberResult, RecoverSummary, BatchProgress, nothing_recovered, fire_on_finish_chain,
  recover_orphaned_batches,
}
use harlan_nuxt.CfJobs.Settle.Fuel.{KeepsDispatch, IsDone, fire-IsDone}
use harlan_nuxt.CfJobs.Settle.Recovery.{IsAccounted, recover_from-IsRecovered}
use harlan_nuxt.CfJobs.Settle.Chain.{FireRun}
use harlan_nuxt.CfJobs.Settle.Recovered.{
  Recovered, RecoveryRun, add_recovered, recover_from-IsListed, listed_of,
}
use harlan_nuxt.CfJobs.BatchSite.{Site, step, create_d1_durable_batch_store}
use harlan_nuxt.CfJobs.BatchSite.Progress.{progress_after, IsFound}
use harlan_nuxt.CfJobs.BatchSite.Counting.{site_total, decrement-IsLowering, finish-lower}

module _ {W E : Type 0} (taken : E) (describe : E → String) (now : ℕ)
    (json_parse : String → Outcome E Json) (invalid : E) (index_key : ℕ → String)
    (dispatch : Option (Continuation → BatchRow → Action (Site W) E (Unit {0})))
    (keeps : KeepsDispatch site_total dispatch) (fuel : ℕ) (s : Site W)
    (enough : site_total s < fuel) where
  -- Where the hook does not raise the sum of the counters, and that sum is below the fuel, the chain
  -- of `onFinish` calls on the D1 store ends, with an answer or with an error of the hook, and leaves
  -- the sum no higher.
  pub fire_on_finish_chain-IsDone :
      (batch : BatchRow)
      → IsDone site_total (site_total s) (
          fire_on_finish_chain json_parse invalid index_key
            (create_d1_durable_batch_store taken describe now)
            dispatch
            fuel
            batch
            s)
  fire_on_finish_chain-IsDone batch =
      fire-IsDone site_total json_parse invalid index_key
        (create_d1_durable_batch_store taken describe now) dispatch
        (decrement-IsLowering taken describe now) keeps fuel batch s enough

  -- Where the hook does not raise the sum of the counters, and that sum is below the fuel, a recovery
  -- on the D1 store answers, whatever the hook throws. It has scanned the orphaned batches that the store finds, in order: each was gone by then, or it was
  -- finished and its chain of `onFinish` calls was run, up to its end or to an error, which stops no
  -- other batch. The result lists the finished rows and, under their ids, the errors; it counts the
  -- chains that called a hook, those that failed, and the batches that were gone; and no batch counts
  -- as both fired and failed. The unrecoverable batches are those that the store finds.
  pub recover_orphaned_batches-IsRecovered :
      (before : ℕ) (at limit : Option ℕ)
      → let r =
          recover_orphaned_batches json_parse invalid index_key
            (create_d1_durable_batch_store taken describe now)
            dispatch
            fuel
            before
            at
            limit
            s in
        (out : RecoverSummary E) × (r.0 ≡ returned (some out))
        × (out.scanned ≡ length (find_orphaned recoverable before limit s.tables))
        × (out.unrecoverable_batches ≡ find_orphaned unrecoverable before limit s.tables)
        × (out.unrecoverable ≡ length out.unrecoverable_batches)
        × IsAccounted out.scanned out.result
        × (done : Recovered E) × RecoveryRun json_parse invalid index_key
            (create_d1_durable_batch_store taken describe now)
            dispatch
            (λ id. step (finish_orphaned_batch (or_else at now) id))
            (find_orphaned recoverable before limit s.tables)
            s
            done
            r.1
        × (out.result ≡ add_recovered nothing_recovered done)
  unfolding recover_orphaned_batches create_d1_durable_batch_store
  recover_orphaned_batches-IsRecovered before at limit =
      let store = create_d1_durable_batch_store taken describe now in
      let finish : String → Action (Site W) E (Option BatchRow) =
        λ id. step (finish_orphaned_batch (or_else at now) id) in
      let found = find_orphaned recoverable before limit s.tables in
      let (acc, e, h) =
        recover_from-IsRecovered site_total json_parse invalid index_key store dispatch
          (decrement-IsLowering taken describe now) keeps fuel finish
          (λ id s'. (
            (finish_orphaned_batch (or_else at now) id s'.tables).0,
            refl,
            finish-lower taken describe now (or_else at now) id s',
          ))
          found 0 nothing_recovered s enough (omega arith, refl, refl, omega arith) in
      let listed =
        listed_of json_parse invalid index_key store dispatch finish found s nothing_recovered acc _
          (recover_from-IsListed json_parse invalid index_key store dispatch finish fuel found
            nothing_recovered s)
          e in
      rw e (
        _,
        refl,
        refl,
        refl,
        refl,
        (omega (arith, h.0), h.1, h.2, h.3),
        listed.0,
        listed.1,
        listed.2,
      )

-- The answer that the batch goes on.
abbrev pub goes_on : Option BatchProgress → SettleBatchMemberResult
goes_on progress = record {
  batch_complete = false;
  on_finish_dispatched = false;
  progress = progress;
}

module _ {W E : Type 0} (taken : E) (describe : E → String) (now : ℕ)
    (json_parse : String → Outcome E Json) (invalid : E) (index_key : ℕ → String)
    (dispatch : Option (Continuation → BatchRow → Action (Site W) E (Unit {0}))) (id : String)
    (failed : Bool) (s : Site W) where
  abbrev pub counted : Site W
  counted = record s { tables = (decrement_pending now id failed s.tables).1 }

  -- The chain of the batch `old`, run from the state in which the last member is counted.
  abbrev pub IsFired : BatchRow → Outcome E Bool → Site W → Type 0
  IsFired old o end =
      FireRun json_parse invalid index_key (create_d1_durable_batch_store taken describe now)
        dispatch (settle_one now failed old) counted o end

  abbrev pub IsCompleted : BatchRow → Outcome E (Option SettleBatchMemberResult) × Site W → Type 0
  IsCompleted old (returned none, end) = ⊥
  IsCompleted old (returned (some result), end) =
      IsFired old (returned result.on_finish_dispatched) end
      × (result.batch_complete ≡ true)
      × (result.progress ≡ some (progress_after old failed 0 (coalesce old.finished_at (some now))))
  IsCompleted old (threw e, end) = IsFired old (threw e) end

  -- What a settlement of the batch `id` is told and does, by the counter that it finds.
  abbrev pub IsSettledAs : Option ℕ → Outcome E (Option SettleBatchMemberResult) × Site W → Type 0
  IsSettledAs (some (suc zero)) r =
      (old : BatchRow) × IsFound id 1 s.tables.batches old
      × (pending_of counted.tables.batches id ≡ some 0)
      × IsCompleted old r
  IsSettledAs (some (suc (suc n))) r =
      (old : BatchRow) × IsFound id (suc (suc n)) s.tables.batches old
      × (r.0 ≡ returned (some (goes_on (some (progress_after old failed (suc n) old.finished_at)))))
      × (pending_of r.1.tables.batches id ≡ some (suc n))
      × (r.1.world ≡ s.world)
  IsSettledAs o r =
      (r.0 ≡ returned (some (goes_on none)))
      × (pending_of r.1.tables.batches id ≡ o)
      × (r.1.world ≡ s.world)
