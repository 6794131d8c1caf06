-- ===== src/Ledger/Rounds.antt =====
-- backend/v2/task_executor.py: the accounts through a round's own transactions.
use agent_craft.Prelude.{
  ℕ, ◌≡◌, refl, subst, sym, Bool, true, String, Option, none, some, List, [], ◌∷◌, ltb, length,
  Bool-cases, inl, inr, arith, ◌==◌, update_where, ==→eq,
}
use agent_craft.Model.Words.{Author}
use agent_craft.Model.Rows.{Db, Task, TaskRound, PlatformSlot}
use agent_craft.Model.Tx.{pure}
use agent_craft.Table.{visible, update_task, update_found}
use agent_craft.Release.{leased_to}
use agent_craft.Service.Finish.{flip_task}
use agent_craft.Executor.Round.{
  RoundContext, fence_round, persist_fact, renew_slot, renew_once, settle_round, save_pending,
  settle_task, settle_fenced, settle_rows, settle,
}
use agent_craft.Logic.{
  AnyError, Post, Triple, Triple-bind, Triple-pure, Triple-pre, Triple-get, Triple-if,
  Triple-require_some,
}
use agent_craft.Ledger.Invariant.{
  Ledger, Balanced, Before, BeforeRelease, live_status, owner_of, slots_of,
}
use agent_craft.Ledger.Steps.{
  Condition, On, Keeps, add_event-Keeps, allocate-Keeps, update_rounds-Keeps, flip-Before,
}
use agent_craft.Ledger.Flips.{release-Restores, new_profiles, old_profile}
use agent_craft.Ledger.Background.{save_message-Keeps, before_of, running_is_live, owned_of}

fence-Keeps : (F : Condition) (ctx : RoundContext) → Keeps (On F) (fence_round ctx)
unfolding fence_round
fence-Keeps F ctx =
    Triple-bind (λ _. On F) _ _ (update_rounds-Keeps F ctx.owner_id _ _)
      λ rows. Triple-pure _ (λ s h. h)

pub persist_fact-Keeps :
    (F : Condition) (ctx : RoundContext) (a : Author) (c : String) (m : ℕ)
    → Keeps (On F) (persist_fact ctx a c m)
unfolding persist_fact
persist_fact-Keeps F ctx a c m =
    Triple-bind (λ _. On F) _ _ (fence-Keeps F ctx)
      λ n. elim (Bool-cases (ltb 0 n)) [
        | inl e ↦ rw e (
            Triple-bind (λ _. On F) _ _ (save_message-Keeps F ctx.owner_id ctx.task_id m a c _)
              λ seq. Triple-pure _ (λ s h. h))
        | inr e ↦ rw e (Triple-pure _ (λ s h. h))
      ]

-- A renewal writes the slots' deadlines only.
slots_of-renew :
    (t t' until : ℕ) (slots : List PlatformSlot)
    → slots_of t' (update_where (leased_to t) (λ s. record s { leased_until = some until }) slots)
      ≡ slots_of t' slots
slots_of-renew t t' until [] = refl
slots_of-renew t t' until (s ∷ slots) = ground (arith, slots_of-renew t t' until slots)

renew_slot-Keeps : (t until : ℕ) → Keeps Balanced (renew_slot t until)
unfolding renew_slot
renew_slot-Keeps t until = record {
  at = λ s h. record {
    rows = h.rows;
    accounts = h.accounts;
    loose = λ k. record {
      slot = ground (arith, slots_of-renew t k until s.slots, (h.loose k).slot);
      one_slot = (h.loose k).one_slot;
      alive = (h.loose k).alive;
    };
    tight = h.tight;
  };
}

pub renew_once-Keeps : (ctx : RoundContext) (ttl now : ℕ) → Keeps Balanced (renew_once ctx ttl now)
unfolding renew_once
renew_once-Keeps ctx ttl now =
    Triple-bind (λ _. Balanced) _ _ (update_rounds-Keeps Ledger ctx.owner_id _ _)
      λ rows.
        Triple-bind (λ _. Balanced) _ _
          (Triple-if (ltb 0 (length rows)) _ (pure tt) (λ _. renew_slot-Keeps _ _)
            (λ _. Triple-pure _ (λ s h. h)))
          λ _. Triple-pure _ (λ s h. h)

-- The accounts, with a task that is known to be the owner's.
abbrev pub Owned : ℕ → ℕ → Condition
Owned owner t tasks rs usage slots storage =
    Ledger tasks rs usage slots storage × (owner_of (tasks t) ≡ some owner)

-- Behind a flip of such a task, taken or missed, the release may follow.
module _ (owner t : ℕ) (guard : Task → Bool) (f : Task → Task)
    (same : (x : Task) → (f x).owner_id ≡ x.owner_id)
    (w : (x : Task)
      → guard x ≡ true
      → live_status (f x).status ≡ true
      → live_status x.status ≡ true) where
  owned_found :
      (s : Db) (o : Option Task)
      → s.tasks t ≡ o
      → On (Owned owner t) s
      → Post AnyError
          (λ (_ : ℕ). BeforeRelease owner t)
          (update_found (visible owner o) guard f t s)
  owned_found s none e h = before_of owner t s h.0 h.1
  owned_found s (some x) e h = elim (Bool-cases (x.owner_id == owner)) [
    | inr q ↦ rw q (before_of owner t s h.0 h.1)
    | inl q ↦ rw q (elim (Bool-cases (guard x)) [
      | inr g ↦ rw g (before_of owner t s h.0 h.1)
      | inl g ↦ rw g (
          flip-Before owner t x.status (f x).status _ _ _ _ _ _
            (old_profile owner t guard f same s x e (==→eq _ _ q))
            (λ k. new_profiles owner t guard f same s x k (==→eq _ _ q)) h.0 (w x g))
    ])
  ]

  pub flip-Owned :
      Triple AnyError
        (On (Owned owner t))
        (update_task owner t guard f)
        (λ _. BeforeRelease owner t)
  unfolding update_task
  flip-Owned = record { at = λ s h. owned_found s (s.tasks t) refl h }

settle_task-Triple :
    (ctx : RoundContext) (revoked : Bool)
    → Triple AnyError
        (On (Owned ctx.owner_id ctx.task_id))
        (settle_task ctx revoked)
        (λ _. BeforeRelease ctx.owner_id ctx.task_id)
unfolding settle_task flip_task
settle_task-Triple ctx revoked =
    Triple-bind (λ _. BeforeRelease ctx.owner_id ctx.task_id) _ _
      (flip-Owned ctx.owner_id ctx.task_id _ _ (λ x. refl) (λ x g e. running_is_live _ g))
      λ n. elim (Bool-cases (ltb 0 n)) [
        | inl e ↦ rw e (
            Triple-bind (λ _. BeforeRelease ctx.owner_id ctx.task_id) _ _
              (allocate-Keeps F ctx.owner_id ctx.task_id 1)
              λ seq. add_event-Keeps F ctx.owner_id ctx.task_id _ _ _ _)
        | inr e ↦ rw e (Triple-pure _ (λ s h. h))
      ]
  where
    F : Condition
    F = Before ctx.owner_id ctx.task_id

save_pending-Keeps :
    (F : Condition) (ctx : RoundContext) (m : ℕ) (o : Option String)
    → Keeps (On F) (save_pending ctx m o)
unfolding save_pending
save_pending-Keeps F ctx m none = Triple-pure _ (λ s h. h)
save_pending-Keeps F ctx m (some c) =
    Triple-bind (λ _. On F) _ _ (save_message-Keeps F ctx.owner_id ctx.task_id m _ c _)
      λ seq. Triple-pure _ (λ s h. h)

settle_fenced-Keeps :
    (ctx : RoundContext) (attempt : ℕ) (reason : String) (resolved : Option ℕ) (m : ℕ)
    → Keeps Balanced (settle_fenced ctx attempt reason resolved m)
unfolding settle_fenced
settle_fenced-Keeps ctx attempt reason resolved m =
    Triple-bind (λ _. Balanced) _ _ (save_pending-Keeps Ledger ctx m ctx.pending_assistant)
      λ _.
        Triple-bind (λ _. Balanced) _ _ (allocate-Keeps Ledger ctx.owner_id ctx.task_id 1)
          λ seq.
            Triple-bind (λ _. Balanced) _ _
              (add_event-Keeps Ledger ctx.owner_id ctx.task_id _ _ _ _)
              λ _. Triple-get _ λ s h. Triple-require_some _ _ _ tt λ task e.
                Triple-pre (On (Owned ctx.owner_id ctx.task_id))
                  (λ s' q.
                    subst (On (Owned ctx.owner_id ctx.task_id)) (sym q)
                      (h, owned_of ctx.owner_id (s.tasks ctx.task_id) task e))
                  (Triple-bind (λ _. BeforeRelease ctx.owner_id ctx.task_id) _ _
                    (settle_task-Triple ctx _) λ _. release-Restores ctx.owner_id ctx.task_id)

pub settle-Keeps :
    (ctx : RoundContext) (reason : String) (resolved : Option ℕ) (m : ℕ)
    → Keeps Balanced (settle ctx reason resolved m)
unfolding settle settle_round
settle-Keeps ctx reason resolved m =
    Triple-bind (λ _. Balanced) _ _ (update_rounds-Keeps Ledger ctx.owner_id _ _) go
  where
    go : (rows : List TaskRound) → Keeps Balanced (settle_rows ctx rows reason resolved m)
    go [] = Triple-pure _ (λ s h. h)
    go (r ∷ rows) = settle_fenced-Keeps ctx r.attempt reason resolved m
