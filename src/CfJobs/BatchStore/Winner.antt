-- ===== src/CfJobs/BatchStore/Winner.antt =====
-- The single winner of a batch: of the settlements of its members, one alone is told that none is
-- left. The code's `onFinish` hangs on it.
use harlan_nuxt.Prelude.{
  ℕ, zero, suc, ◌+◌, ◌≡◌, refl, ap, ◌∙◌, inl, inr, true, false, Option, none, some, List, [], ◌∷◌,
  All, or_else, String, str_eq, eq_iff, Bool-cases, leb, ◌==◌, if◌then◌else◌, arith,
}
use harlan_nuxt.CfJobs.BatchStore.{Tables}
use harlan_nuxt.CfJobs.BatchStore.Counters.{Counters, lower, observed, set_at, pending_of, HasKeys}
use harlan_nuxt.CfJobs.BatchStore.Keys.{add}
use harlan_nuxt.CfJobs.BatchStore.Runs.{
  BatchCommand, settle, insert, increment, Answers, run, insert_counter, replay, run_refines,
}

-- How often a settlement of the batch brought its counter to 0.
abbrev pub wins : String → Answers → ℕ
wins id [] = 0
wins id ((q, some zero) ∷ answers) = (if str_eq q id then 1 else 0) + wins id answers
wins id ((q, some (suc n)) ∷ answers) = wins id answers
wins id ((q, none) ∷ answers) = wins id answers

abbrev pub settlements : String → List BatchCommand → ℕ
settlements id [] = 0
settlements id (settle now q failed ∷ commands) =
    (if str_eq q id then 1 else 0) + settlements id commands
settlements id (_ ∷ commands) = settlements id commands

abbrev pub IsFixed : String → BatchCommand → Type 0
IsFixed id (increment q by) = str_eq q id ≡ false
IsFixed id _ = Unit

set_other :
    (id q : String) (v : Option ℕ) (c : Counters) → str_eq q id ≡ false → set_at q v c id ≡ c id
set_other id q v c f = rw f refl

wins_other :
    (id q : String) (o : Option ℕ) (answers : Answers)
    → str_eq q id ≡ false
    → wins id ((q, o) ∷ answers) ≡ wins id answers
wins_other id q none answers f = refl
wins_other id q (some zero) answers f = rw f (omega arith)
wins_other id q (some (suc n)) answers f = refl

wins_self :
    (id q : String) (o : Option ℕ) (n : ℕ) (answers : Answers)
    → str_eq q id ≡ true
    → o ≡ observed (some (suc n))
    → wins id ((q, o) ∷ answers) ≡ (if n == 0 then 1 else 0) + wins id answers
wins_self id q o zero answers t e = rw (e, t) refl
wins_self id q o (suc n) answers t e = rw e (ground arith)

insert_keeps :
    (id q : String) (n : ℕ) (o : Option ℕ) (c : Counters) (m : ℕ)
    → c q ≡ o
    → c id ≡ some m
    → insert_counter q n o c id ≡ some m
insert_keeps id q n (some _) c m e h = h
insert_keeps id q n none c m e h = elim (Bool-cases (str_eq q id)) [
  | inl t ↦ absurd (cc (e, h, (eq_iff q id).0 t))
  | inr f ↦ set_other id q (some n) c f ∙ h
]

set_self : (id q : String) (v : Option ℕ) (c : Counters) → str_eq q id ≡ true → set_at q v c id ≡ v
set_self id q v c t = rw t refl

-- A batch that is done has no further winner.
wins-replay_done :
    (id : String) (commands : List BatchCommand) (c : Counters)
    → All (IsFixed id) commands
    → c id ≡ some 0
    → wins id (replay commands c).0 ≡ 0
unfolding replay
wins-replay_done id [] c h e = refl
wins-replay_done id (settle now q failed ∷ commands) c h e = elim (Bool-cases (str_eq q id)) [
  | inl t ↦
      let at_q : c q ≡ some 0 = ap c ((eq_iff q id).0 t) ∙ e in
      ap (λ o. wins id ((q, observed o) ∷ (replay commands (set_at q (lower (c q)) c)).0)) at_q
      ∙ wins-replay_done id commands (set_at q (lower (c q)) c) h.1
          (set_self id q (lower (c q)) c t ∙ ap lower at_q)
  | inr f ↦
      wins_other id q (observed (c q)) _ f
      ∙ wins-replay_done id commands (set_at q (lower (c q)) c) h.1
          (set_other id q (lower (c q)) c f ∙ e)
]
wins-replay_done id (insert now input ∷ commands) c h e =
    wins-replay_done id commands _ h.1
      (insert_keeps id input.id input.pending_jobs (c input.id) c 0 refl e)
wins-replay_done id (increment q by ∷ commands) c h e =
    wins-replay_done id commands _ h.1 (set_other id q (add (or_else by 1) (c q)) c h.0 ∙ e)

-- The settlement at hand is the last one pending and wins, or it leaves one pending less.
last_or_less :
    (n w s : ℕ)
    → (n ≡ 0 → w ≡ 0)
    → ((m : ℕ) → n ≡ suc m → w ≡ (if leb (suc m) s then 1 else 0))
    → (if n == 0 then 1 else 0) + w ≡ (if leb (suc n) (1 + s) then 1 else 0)
last_or_less zero w s h k = ground (arith, h refl)
last_or_less (suc n) w s h k = ground (arith, k n refl)

wins-replay :
    (id : String) (commands : List BatchCommand) (c : Counters) (n : ℕ)
    → All (IsFixed id) commands
    → c id ≡ some (suc n)
    → wins id (replay commands c).0 ≡ (if leb (suc n) (settlements id commands) then 1 else 0)
unfolding replay
wins-replay id [] c n h e = ground arith
wins-replay id (settle now q failed ∷ commands) c n h e = elim (Bool-cases (str_eq q id)) [
  | inl t ↦
      let at_q : c q ≡ some (suc n) = ap c ((eq_iff q id).0 t) ∙ e in
      let now_at : set_at q (lower (c q)) c id ≡ some n =
        set_self id q (lower (c q)) c t ∙ ap lower at_q in
      wins_self id q (observed (c q)) n _ t (ap observed at_q)
      ∙ (last_or_less n (wins id (replay commands (set_at q (lower (c q)) c)).0)
            (settlements id commands)
            (λ z. wins-replay_done id commands (set_at q (lower (c q)) c) h.1 (now_at ∙ ap some z))
            (λ m z. wins-replay id commands (set_at q (lower (c q)) c) m h.1 (now_at ∙ ap some z))
          ∙ rw t refl)
  | inr f ↦
      wins_other id q (observed (c q)) _ f
      ∙ (wins-replay id commands (set_at q (lower (c q)) c) n h.1
            (set_other id q (lower (c q)) c f ∙ e)
          ∙ rw f (ground arith))
]
wins-replay id (insert now input ∷ commands) c n h e =
    wins-replay id commands _ n h.1
      (insert_keeps id input.id input.pending_jobs (c input.id) c (suc n) refl e)
wins-replay id (increment q by ∷ commands) c n h e =
    wins-replay id commands _ n h.1 (set_other id q (add (or_else by 1) (c q)) c h.0 ∙ e)

-- Of a batch with `n + 1` members pending, over any run of settlements, of insertions of batches
-- without members and of increments of other batches, in which no recovery closes a batch: exactly
-- one settlement of it is told that none is left where `n + 1` of its settlements or more are made,
-- and none is where fewer are. The ids of the batches are distinct.
pub run-single_winner :
    (id : String) (commands : List BatchCommand) (t : Tables) (n : ℕ)
    → HasKeys t.batches
    → pending_of t.batches id ≡ some (suc n)
    → All (IsFixed id) commands
    → wins id (run commands t).0 ≡ (if leb (suc n) (settlements id commands) then 1 else 0)
run-single_winner id commands t n keys e h =
    ap (wins id) (run_refines commands t keys).1
    ∙ wins-replay id commands (pending_of t.batches) n h e
