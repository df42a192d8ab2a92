-- ===== src/CfJobs/Settle.antt =====
-- The end of a batch: `settleBatchMember`, the chain of `onFinish` calls up the parents, and the
-- recovery of orphaned batches, of packages/nuxt-cf-jobs/src/runtime/server/batch.ts, over the
-- store's contract. The chain recurses on fuel: `none` is the chain that ran out.
pub mod Fuel
pub mod Chain
pub mod Recovery
pub mod Recovered
use mathlib.Core.Option
use harlan_nuxt.Prelude.{
  ℕ, zero, suc, ◌+◌, ◌-◌, Bool, true, false, ◌||◌, Option, none, some, List, [], ◌∷◌, ◌++◌, length,
  String, ◌==◌, if◌then◌else◌,
}
use harlan_nuxt.Prelude.Effect.{
  Outcome, returned, threw, Action, pure, of_outcome, ◌>>=◌, ◌>>◌, try_catch,
}
use harlan_nuxt.CfJobs.Payload.{Json}
use harlan_nuxt.CfJobs.BatchStore.{BatchRow}
use harlan_nuxt.CfJobs.Continuation.{Continuation, parse_durable_job_continuation, with_batch_id}
use harlan_nuxt.CfJobs.Batch.{DurableBatchStore, filled}

pub record BatchProgress : Type 0 where
  pub batch_id : String
  pub name : Option String
  pub site_id : Option String
  pub completed : ℕ
  pub total : ℕ
  pub failed : ℕ
  pub finished_at : Option ℕ

-- A row has no more pending than total, as `IsSound` says, so the difference does not cut off.
unfoldable pub to_progress : BatchRow → BatchProgress
to_progress batch = record {
  batch_id = batch.id;
  name = batch.name;
  site_id = batch.site_id;
  completed = batch.total_jobs - batch.pending_jobs;
  total = batch.total_jobs;
  failed = batch.failed_jobs;
  finished_at = batch.finished_at;
}

pub record SettleBatchMemberResult : Type 0 where
  pub batch_complete : Bool
  pub on_finish_dispatched : Bool
  pub progress : Option BatchProgress

pub record RecoverResult (E : Type 0) : Type 0 where
  pub recovered : ℕ
  pub on_finish_dispatched : ℕ
  pub on_finish_failed : ℕ
  pub skipped : ℕ
  pub batches : List BatchRow
  pub errors : List (String × E)

pub record RecoverSummary (E : Type 0) : Type 0 where
  pub scanned : ℕ
  pub unrecoverable : ℕ
  pub unrecoverable_batches : List BatchRow
  pub result : RecoverResult E

abbrev pub nothing_recovered : {E : Type 0} → RecoverResult E
nothing_recovered = record {
  recovered = 0;
  on_finish_dispatched = 0;
  on_finish_failed = 0;
  skipped = 0;
  batches = [];
  errors = [];
}

abbrev pub unsettled : Option BatchProgress → SettleBatchMemberResult
unsettled progress = record {
  batch_complete = false;
  on_finish_dispatched = false;
  progress = progress;
}

abbrev pub complete : BatchRow → Bool → SettleBatchMemberResult
complete batch dispatched = record {
  batch_complete = true;
  on_finish_dispatched = dispatched;
  progress = some (to_progress batch);
}

module _ {E : Type 0} where
  abbrev pub skip : RecoverResult E → RecoverResult E
  skip acc = record acc { skipped = acc.skipped + 1 }

  abbrev pub recover_batch : BatchRow → RecoverResult E → RecoverResult E
  recover_batch batch acc = record acc {
    recovered = acc.recovered + 1;
    batches = acc.batches ++ batch ∷ [];
  }

  abbrev pub fired : Bool → RecoverResult E → RecoverResult E
  fired flag acc = record acc {
    on_finish_dispatched = acc.on_finish_dispatched + (if flag then 1 else 0);
  }

  abbrev pub fire_failed : String → E → RecoverResult E → RecoverResult E
  fire_failed id error acc = record acc {
    on_finish_failed = acc.on_finish_failed + 1;
    errors = acc.errors ++ (id, error) ∷ [];
  }

  abbrev pub summary : List BatchRow → List BatchRow → RecoverResult E → RecoverSummary E
  summary candidates lost result = record {
    scanned = length candidates;
    unrecoverable = length lost;
    unrecoverable_batches = lost;
    result = result;
  }

module _ {S E : Type 0} (json_parse : String → Outcome E Json) (invalid : E)
    (index_key : ℕ → String) (store : DurableBatchStore S E)
    (dispatch : Option (Continuation → BatchRow → Action S E (Unit {0}))) where
  abbrev call_dispatch :
      BatchRow
      → Option String
      → Option (Continuation → BatchRow → Action S E (Unit {0}))
      → Action S E Bool
  call_dispatch batch (some text) (some call) = do
    continuation ← of_outcome (parse_durable_job_continuation index_key json_parse invalid text)
    call (with_batch_id index_key batch.id continuation) batch
    pure true
  call_dispatch batch _ _ = pure false

  unfoldable pub fire_on_finish : BatchRow → Action S E Bool
  unfolding with_batch_id parse_durable_job_continuation
  fire_on_finish batch = call_dispatch batch (filled batch.on_finish) dispatch

  -- The parent that the decrement brought to 0 continues the chain.
  abbrev pub after_parent :
      (BatchRow → Action S E (Option Bool)) → Bool → Option BatchRow → Action S E (Option Bool)
  after_parent next dispatched none = pure (some dispatched)
  after_parent next dispatched (some parent) =
      if parent.pending_jobs == 0
      then (next parent >>= λ more. pure (Option.map (λ m. m || dispatched) more))
      else pure (some dispatched)

  abbrev pub bubble_up :
      (BatchRow → Action S E (Option Bool)) → Option String → Bool → Action S E (Option Bool)
  bubble_up next none dispatched = pure (some dispatched)
  bubble_up next (some id) dispatched =
      store.decrement_pending id false >>= after_parent next dispatched

  unfoldable pub fire_on_finish_chain : ℕ → BatchRow → Action S E (Option Bool)
  unfolding fire_on_finish
  fire_on_finish_chain zero batch = pure none
  fire_on_finish_chain (suc fuel) batch =
      let next = fire_on_finish_chain fuel in
      fire_on_finish batch >>= bubble_up next (filled batch.parent_batch_id)

  abbrev pub after_decrement : ℕ → Option BatchRow → Action S E (Option SettleBatchMemberResult)
  after_decrement fuel none = pure (some (unsettled none))
  after_decrement fuel (some batch) =
      if batch.pending_jobs == 0
      then (fire_on_finish_chain fuel batch >>= λ fired. pure (Option.map (complete batch) fired))
      else pure (some (unsettled (some (to_progress batch))))

  abbrev settle_batch : ℕ → Bool → Option String → Action S E (Option SettleBatchMemberResult)
  settle_batch fuel failed none = pure (some (unsettled none))
  settle_batch fuel failed (some id) = store.decrement_pending id failed >>= after_decrement fuel

  abbrev resolve_batch_id : Option String → Option String → Action S E (Option String)
  resolve_batch_id (some id) job_id = pure (some id)
  resolve_batch_id none job_id = elim (filled job_id) [
    | none ↦ pure none
    | some id ↦ store.get_job_batch_id id
  ]

  unfoldable pub settle_batch_member :
      ℕ
      → (batch_id job_id : Option String) → (failed : Bool)
      → Action S E (Option SettleBatchMemberResult)
  unfolding fire_on_finish_chain to_progress
  settle_batch_member fuel batch_id job_id failed =
      resolve_batch_id batch_id job_id >>= λ id. settle_batch fuel failed (filled id)

  abbrev pub after_finish :
      ℕ
      → (RecoverResult E → Action S E (Option (RecoverResult E)))
      → RecoverResult E
      → Option BatchRow
      → Action S E (Option (RecoverResult E))
  after_finish fuel rest acc none = rest (skip acc)
  after_finish fuel rest acc (some batch) =
      try_catch (fire_on_finish_chain fuel batch)
        (λ flag. elim flag [ none ↦ pure none | some f ↦ rest (fired f (recover_batch batch acc)) ])
        (λ error. rest (fire_failed batch.id error (recover_batch batch acc)))

  unfoldable pub recover_from :
      ℕ
      → (String → Action S E (Option BatchRow))
      → List BatchRow
      → RecoverResult E
      → Action S E (Option (RecoverResult E))
  unfolding fire_on_finish_chain
  recover_from fuel finish [] acc = pure (some acc)
  recover_from fuel finish (candidate ∷ candidates) acc =
      let rest = recover_from fuel finish candidates in
      finish candidate.id >>= after_finish fuel rest acc

  abbrev find_lost :
      ℕ → Option ℕ → Option (ℕ → Option ℕ → Action S E (List BatchRow)) → Action S E (List BatchRow)
  find_lost before limit none = pure []
  find_lost before limit (some find) = find before limit

  abbrev recover_with :
      ℕ
      → ℕ
      → Option ℕ
      → Option ℕ
      → Option (ℕ → Option ℕ → Action S E (List BatchRow))
      → Option (String → Option ℕ → Action S E (Option BatchRow))
      → Action S E (Option (RecoverSummary E))
  recover_with fuel before now limit (some find) (some finish) = do
    candidates ← find before limit
    lost ← find_lost before limit store.find_unrecoverable_orphaned_batches
    result ← recover_from fuel (λ id. finish id now) candidates nothing_recovered
    pure (Option.map (summary candidates lost) result)
  recover_with fuel before now limit _ _ = pure (some (summary [] [] nothing_recovered))

  unfoldable pub recover_orphaned_batches :
      (fuel before : ℕ) → (now limit : Option ℕ) → Action S E (Option (RecoverSummary E))
  unfolding recover_from
  recover_orphaned_batches fuel before now limit =
      recover_with fuel before now limit store.find_orphaned_batches store.finish_orphaned_batch
