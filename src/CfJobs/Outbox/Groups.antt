-- ===== src/CfJobs/Outbox/Groups.antt =====
-- The grouping by queue: one group for a queue, with its messages in order.
use harlan_nuxt.Prelude.{
  ◌≡◌, refl, sym, ap, ◌∙◌, ◌≢◌, inl, inr, Bool, true, false, Bool-cases, List, [], ◌∷◌, ◌++◌, map,
  keep, All, append-nil, append_assoc, String, str_eq, eq_iff, if◌then◌else◌,
}
use harlan_nuxt.CfJobs.Outbox.{
  JobRef, QueueJobMessage, to_queue_job_message, QueueGroups, push_message, group_from,
  group_queue_job_messages_by_queue,
}

-- What a list of groups holds for a queue, as the Map answers it.
unfoldable pub messages_of {ℓ} : {A : Type ℓ} → String → List (String × List A) → List A
messages_of queue [] = []
messages_of queue ((q, messages) ∷ groups) =
    if str_eq q queue then messages else messages_of queue groups

abbrev pub is_for : String → JobRef → Bool
is_for queue row = str_eq row.queue queue

-- No two groups have one queue.
abbrev pub IsDistinct {ℓ} : {A : Type ℓ} → List (String × A) → Type ℓ
IsDistinct [] = Unit
IsDistinct ((q, x) ∷ groups) = All (λ g. g.0 ≢ q) groups × IsDistinct groups

messages_of-push_message :
    (queue q : String) (m : QueueJobMessage) (groups : QueueGroups)
    → messages_of queue (push_message q m groups)
      ≡ messages_of queue groups ++ (if str_eq q queue then m ∷ [] else [])
unfolding messages_of push_message
messages_of-push_message queue q m [] = refl
messages_of-push_message queue q m ((k, ms) ∷ groups) = elim (Bool-cases (str_eq k q)) [
  | inl same ↦ rw same (
      rw ((eq_iff k q).0 same) (elim (Bool-cases (str_eq q queue)) [
        | inl t ↦ rw t refl
        | inr f ↦ rw f (sym (append-nil _))
      ]))
  | inr other ↦ rw other (elim (Bool-cases (str_eq k queue)) [
    | inl t ↦ rw t (rw (another other t) (sym (append-nil _)))
    | inr f ↦ rw f (messages_of-push_message queue q m groups)
  ])
]
  where
    another : str_eq k q ≡ false → str_eq k queue ≡ true → str_eq q queue ≡ false
    another other t = elim (Bool-cases (str_eq q queue)) [
      | inl u ↦
          absurd
            (cc (((eq_iff k q).1 (((eq_iff k queue).0 t) ∙ sym ((eq_iff q queue).0 u))), other))
      | inr f ↦ f
    ]

push_message-All :
    (P : String → Type 0) (q : String) (m : QueueJobMessage) (groups : QueueGroups)
    → P q
    → All (λ g. P g.0) groups
    → All (λ g. P g.0) (push_message q m groups)
unfolding push_message
push_message-All P q m [] p h = (p, tt)
push_message-All P q m ((k, ms) ∷ groups) p h = elim (Bool-cases (str_eq k q)) [
  | inl same ↦ rw same h
  | inr other ↦ rw other (h.0, push_message-All P q m groups p h.1)
]

push_message-IsDistinct :
    (q : String) (m : QueueJobMessage) (groups : QueueGroups)
    → IsDistinct groups
    → IsDistinct (push_message q m groups)
unfolding push_message
push_message-IsDistinct q m [] d = (tt, tt)
push_message-IsDistinct q m ((k, ms) ∷ groups) d = elim (Bool-cases (str_eq k q)) [
  | inl same ↦ rw same d
  | inr other ↦ rw other (
    push_message-All (λ x. x ≢ k) q m groups (λ e. unequal other (sym e)) d.0,
    push_message-IsDistinct q m groups d.1,
  )
]
  where
    unequal : str_eq k q ≡ false → k ≡ q → ⊥
    unequal other e = cc ((eq_iff k q).1 e, other)

group_from-IsDistinct :
    (groups : QueueGroups) (rows : List JobRef)
    → IsDistinct groups
    → IsDistinct (group_from groups rows)
unfolding group_from
group_from-IsDistinct groups [] d = d
group_from-IsDistinct groups (r ∷ rows) d =
    group_from-IsDistinct (push_message r.queue (to_queue_job_message r) groups) rows
      (push_message-IsDistinct r.queue (to_queue_job_message r) groups d)

messages_of-group_from :
    (queue : String) (groups : QueueGroups) (rows : List JobRef)
    → messages_of queue (group_from groups rows)
      ≡ messages_of queue groups ++ map to_queue_job_message (keep (is_for queue) rows)
unfolding group_from
messages_of-group_from queue groups [] = sym (append-nil _)
messages_of-group_from queue groups (r ∷ rows) =
    messages_of-group_from queue (push_message r.queue (to_queue_job_message r) groups) rows
    ∙ (ap (λ l. l ++ map to_queue_job_message (keep (is_for queue) rows))
          (messages_of-push_message queue r.queue (to_queue_job_message r) groups)
        ∙ (append_assoc (messages_of queue groups)
              (if str_eq r.queue queue then to_queue_job_message r ∷ [] else [])
              (map to_queue_job_message (keep (is_for queue) rows))
            ∙ ap (λ l. messages_of queue groups ++ l) last))
  where
    last :
        (if str_eq r.queue queue then to_queue_job_message r ∷ [] else [])
          ++ map to_queue_job_message (keep (is_for queue) rows)
        ≡ map to_queue_job_message (keep (is_for queue) (r ∷ rows))
    last = elim (Bool-cases (str_eq r.queue queue)) [ inl t ↦ rw t refl | inr f ↦ rw f refl ]

-- The groups have distinct queues, and for every queue hold the messages of its rows, each once
-- and in the order of the rows.
pub group_queue_job_messages_by_queue_lem :
    (rows : List JobRef)
    → IsDistinct (group_queue_job_messages_by_queue rows)
      × ((queue : String)
          → messages_of queue (group_queue_job_messages_by_queue rows)
            ≡ map to_queue_job_message (keep (is_for queue) rows))
unfolding group_queue_job_messages_by_queue messages_of
group_queue_job_messages_by_queue_lem rows =
    (group_from-IsDistinct [] rows tt, λ queue. messages_of-group_from queue [] rows)
