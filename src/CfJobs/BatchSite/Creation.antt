-- ===== src/CfJobs/BatchSite/Creation.antt =====
-- A batch that is created on the D1 store, from the insertion of its members to its last settlement.
use harlan_nuxt.Prelude.{
  ℕ, suc, ◌≡◌, refl, sym, ap, ◌∙◌, ◌⊎◌, inl, inr, false, Option, none, some, List, [], ◌∷◌, ◌++◌,
  map, length, append-nil, append_assoc, any, All, String, str_eq, eq_refl, Bool-cases, leb,
  if◌then◌else◌,
}
use harlan_nuxt.Prelude.Effect.{returned, threw}
use harlan_nuxt.CfJobs.Payload.{Json}
use harlan_nuxt.CfJobs.JobStore.{JobRow}
use harlan_nuxt.CfJobs.Lifecycle.{DurableJobRecord, staged_row, conflicts}
use harlan_nuxt.CfJobs.BatchStore.{
  BatchRow, Tables, InsertBatchInput, new_batch, has_batch_id, grow, grow_parent, insert_members,
  committed, insert_batch_with_jobs,
}
use harlan_nuxt.CfJobs.Batch.{
  CreateJobBatchOptions, in_batch, new_batch_id, member_records, batch_input,
}
use harlan_nuxt.CfJobs.Outbox.{OutboxErrors}
use harlan_nuxt.CfJobs.BatchStore.Counters.{pending_of, HasKeys}
use harlan_nuxt.CfJobs.BatchStore.Keys.{
  update-HasKeys, not_taken, append-HasKeys, pending_of-append, grow-added,
}
use harlan_nuxt.CfJobs.BatchStore.Runs.{BatchCommand, run}
use harlan_nuxt.CfJobs.BatchStore.Winner.{wins, settlements, IsFixed, run-single_winner}

some-injective : {A : Type 0} {a b : A} → some a ≡ some b → a ≡ b
some-injective e = cc

-- The members that an insertion adds are all of them.
insert_members-all :
    (records : List DurableJobRecord) (jobs end : List JobRow)
    → insert_members records jobs ≡ some end
    → end ≡ jobs ++ map staged_row records
unfolding insert_members
insert_members-all [] jobs end e = some-injective (sym e) ∙ sym (append-nil jobs)
insert_members-all (r ∷ records) jobs end e = elim (Bool-cases (any (conflicts r) jobs)) [
  | inl t ↦ absurd (cc (rw t at e))
  | inr f ↦
      insert_members-all records (jobs ++ staged_row r ∷ []) end (rw f at e)
      ∙ append_assoc jobs (staged_row r ∷ []) (map staged_row records)
]

-- A parent that is another batch.
abbrev pub IsElsewhere : String → Option String → Type 0
IsElsewhere id none = Unit
IsElsewhere id (some parent) = str_eq parent id ≡ false

grow_parent-keeps :
    (id : String) (parent : Option String) (batches : List BatchRow)
    → IsElsewhere id parent
    → HasKeys batches
    → HasKeys (grow_parent parent batches)
      × (pending_of (grow_parent parent batches) id ≡ pending_of batches id)
grow_parent-keeps id none batches h keys = (keys, refl)
grow_parent-keeps id (some parent) batches h keys = elim (Bool-cases (str_eq parent "")) [
  | inl t ↦ rw t (keys, refl)
  | inr f ↦ rw f (
    update-HasKeys (grow 1) (λ b. refl) (has_batch_id parent) batches keys,
    grow-added parent 1 batches id keys ∙ rw h refl,
  )
]

length-map : {A B : Type 0} (f : A → B) (xs : List A) → length (map f xs) ≡ length xs
length-map f [] = refl
length-map f (x ∷ xs) = ap suc (length-map f xs)

-- The state after an insertion that was committed.
abbrev pub IsCreated : InsertBatchInput → List DurableJobRecord → Tables → Tables → Type 0
IsCreated input records t end =
    (end.db.jobs ≡ t.db.jobs ++ map staged_row records)
    × HasKeys end.batches
    × (pending_of end.batches input.id ≡ some input.pending_jobs)

module _ {E : Type 0} (taken : E) (now : ℕ) (input : InsertBatchInput)
    (records : List DurableJobRecord) (t : Tables) where
  committed-IsCreated :
      HasKeys t.batches
      → IsElsewhere input.id input.parent_batch_id
      → All (λ b. str_eq b.id input.id ≡ false) t.batches
      → (o : Option (List JobRow)) → insert_members records t.db.jobs ≡ o
      → let r =
          committed taken t
            (grow_parent input.parent_batch_id (t.batches ++ new_batch now input ∷ []))
            o in
        ((r.0 ≡ threw taken) × (r.1 ≡ t)) ⊎ ((r.0 ≡ returned tt) × IsCreated input records t r.1)
  committed-IsCreated keys elsewhere free none e = inl (refl, refl)
  committed-IsCreated keys elsewhere free (some jobs) e =
      let (kept, pending) =
        grow_parent-keeps input.id input.parent_batch_id (t.batches ++ new_batch now input ∷ [])
          elsewhere (append-HasKeys (new_batch now input) t.batches keys free) in
      inr (
        refl,
        (
          insert_members-all records t.db.jobs jobs e,
          kept,
          pending
              ∙ (pending_of-append (new_batch now input) t.batches input.id free
                  ∙ rw (eq_refl input.id) refl),
        ),
      )

  -- Where the batches have distinct ids and the parent, if any, is another batch: an insertion of a
  -- batch with its members fails and changes nothing, or it adds every member to the jobs, in order,
  -- the ids stay distinct, and the batch counts the pending members that it was given.
  pub insert_batch_with_jobs-IsAtomic :
      HasKeys t.batches
      → IsElsewhere input.id input.parent_batch_id
      → let r = insert_batch_with_jobs taken now input records t in
        ((r.0 ≡ threw taken) × (r.1 ≡ t)) ⊎ ((r.0 ≡ returned tt) × IsCreated input records t r.1)
  unfolding insert_batch_with_jobs
  insert_batch_with_jobs-IsAtomic keys elsewhere =
      elim (Bool-cases (any (has_batch_id input.id) t.batches)) [
        | inl u ↦ rw u (inl (refl, refl))
        | inr f ↦ rw f (
            committed-IsCreated keys elsewhere (not_taken input.id t.batches f)
              (insert_members records t.db.jobs) refl)
      ]

-- On batches with distinct ids, where the parent, if any, is another batch: of a batch that
-- `createJobBatch` puts on the D1 store with `n + 1` jobs, over any settlements, insertions of
-- batches without members and increments of other batches that follow, with no recovery that closes
-- a batch among them, exactly one settlement of it is told that none is left where `n + 1` of its
-- settlements or more are made, and none is where fewer are; or the creation failed and changed
-- nothing.
pub created_batch-single_winner :
    {S E : Type 0} (taken : E) (now : ℕ) (errors : OutboxErrors E) (not_created : String → E → E)
    (stringify : Json → String) (random_uuid : String) (opts : CreateJobBatchOptions S E) (n : ℕ)
    (t : Tables) (commands : List BatchCommand)
    → length opts.jobs ≡ suc n
    → HasKeys t.batches
    → let id = new_batch_id errors not_created stringify random_uuid opts in
      IsElsewhere id opts.parent_batch_id
      → All (IsFixed id) commands
      → let r =
          insert_batch_with_jobs taken now
            (batch_input errors not_created stringify random_uuid opts)
            (member_records errors not_created stringify random_uuid opts)
            t in
        ((r.0 ≡ threw taken) × (r.1 ≡ t))
        ⊎ ((r.0 ≡ returned tt)
            × (wins id (run commands r.1).0
                ≡ (if leb (suc n) (settlements id commands) then 1 else 0)))
unfolding batch_input
created_batch-single_winner taken now errors not_created stringify random_uuid opts n t commands
      counted keys elsewhere fixed =
    elim (insert_batch_with_jobs-IsAtomic taken now
      (batch_input errors not_created stringify random_uuid opts)
      (member_records errors not_created stringify random_uuid opts) t keys elsewhere) [
        | inl failed ↦ inl failed
        | inr (ok, (members, kept, pending)) ↦ inr (
          ok,
          run-single_winner (new_batch_id errors not_created stringify random_uuid opts) commands _
              n kept (pending ∙ ap some (length-map (in_batch _) opts.jobs ∙ counted)) fixed,
        )
      ]
