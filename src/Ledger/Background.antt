-- ===== src/Ledger/Background.antt =====
-- backend/v2/task_dispatcher.py: the accounts through the transactions that end a round.
use agent_craft.Prelude.{
  ℕ, ◌+◌, ◌≡◌, refl, subst, sym, Bool, true, false, String, Option, none, some, List, [], ◌∷◌, ltb,
  if◌then◌else◌, arith,
}
use agent_craft.Model.Words.{TaskStatus, Author, is_status, RoundState}
use agent_craft.Model.Rows.{Db, Task, TaskRound, EventBody}
use agent_craft.Model.Tx.{raise, Tx, pure, ◌>>=◌}
use agent_craft.Table.{allocate_event_sequence, add_event, visible}
use agent_craft.Release.{release_task_holdings}
use agent_craft.Service.Send.{save_message}
use agent_craft.Dispatcher.Claim.{first_or_drop}
use agent_craft.Dispatcher.Reclaim.{
  fence_expired, set_unleased_round, fail_task, requeue_task, record_reclaim, reclaim_expired_round,
  close_cancelling, cancel_cancelling_round,
}
use agent_craft.Dispatcher.Sweep.{expire_upload, sweep_upload}
use agent_craft.Logic.{
  AnyError, Triple, Triple-bind, Triple-pure, Triple-pre, Triple-get, Triple-require,
  Triple-require_some,
}
use agent_craft.Ledger.Invariant.{
  Ledger, Balanced, Before, BeforeRelease, live_status, profile, profiles, owner_of,
}
use agent_craft.Ledger.Steps.{
  Condition, On, Keeps, add_event-Keeps, add_message-Keeps, allocate-Keeps, update_rounds-Keeps,
  same_profile,
}
use agent_craft.Ledger.Flips.{Flipped, flip-Triple, release-Restores}

pub before_of :
    (owner t : ℕ) (s : Db)
    → Balanced s
    → owner_of (profiles s t) ≡ some owner
    → BeforeRelease owner t s
before_of owner t s h o = record {
  rows = h.rows;
  accounts = h.accounts;
  loose = h.loose;
  tight = λ k e. h.tight k;
  owned = o;
}

pub owned_of :
    (owner : ℕ) (o : Option Task) (c : Task)
    → visible owner o ≡ some c
    → owner_of (profile o) ≡ some owner
owned_of owner none c e = cc
owned_of owner (some x) c e = ground arith

-- A task that numbers an event is its owner's.
pub allocate-Before :
    (owner t n : ℕ)
    → Triple AnyError Balanced (allocate_event_sequence owner t n) (λ _. BeforeRelease owner t)
unfolding allocate_event_sequence
allocate-Before owner t n =
    Triple-bind (λ _. Balanced) _ _ (same_profile Ledger owner t _ (λ x. refl))
      λ _. Triple-get _ λ s h. Triple-require_some _ _ _ tt λ c e. Triple-pure _ λ s' q.
        subst (BeforeRelease owner t) (sym q)
          (before_of owner t s h (owned_of owner (s.tasks t) c e))

module _ (F : Condition) where
  pub first-Keeps : (rows : List TaskRound) → Keeps (On F) (first_or_drop rows)
  unfolding pure raise
  first-Keeps [] = record { at = λ s h. tt }
  first-Keeps (r ∷ rs) = record { at = λ s h. h }

  pub save_message-Keeps :
      (owner t m : ℕ) (a : Author) (c : String) (r : Option ℕ)
      → Keeps (On F) (save_message owner t m a c r)
  unfolding save_message
  save_message-Keeps owner t m a c r =
      Triple-bind (λ _. On F) _ _ (allocate-Keeps F owner t 1)
        λ seq.
          Triple-bind (λ _. On F) _ _ (add_message-Keeps F _)
            λ _.
              Triple-bind (λ _. On F) _ _ (add_event-Keeps F owner t _ _ _ _)
                λ _. Triple-pure _ (λ s h. h)

  pub two_events-Keeps :
      {B : Type 0} (owner t : ℕ) (b c : EventBody) (m m' r r' : Option ℕ) (v : ℕ → B)
      → Keeps (On F) (
          allocate_event_sequence owner t 2 >>= λ seq. add_event owner t seq b m r >>= λ _.
          add_event owner t (seq + 1) c m' r' >>= λ _. pure (v seq))
  two_events-Keeps owner t b c m m' r r' v =
      Triple-bind (λ _. On F) _ _ (allocate-Keeps F owner t 2)
        λ seq.
          Triple-bind (λ _. On F) _ _ (add_event-Keeps F owner t _ _ _ _)
            λ _.
              Triple-bind (λ _. On F) _ _ (add_event-Keeps F owner t _ _ _ _)
                λ _. Triple-pure _ (λ s h. h)

  fence_expired-Keeps :
      (owner r : ℕ) (lo : Option ℕ) (e : ℕ) → Keeps (On F) (fence_expired owner r lo e)
  unfolding fence_expired
  fence_expired-Keeps owner r lo e =
      Triple-bind (λ _. On F) _ _ (update_rounds-Keeps F owner _ _) first-Keeps

  close_cancelling-Keeps : (owner r : ℕ) → Keeps (On F) (close_cancelling owner r)
  unfolding close_cancelling
  close_cancelling-Keeps owner r =
      Triple-bind (λ _. On F) _ _ (update_rounds-Keeps F owner _ _) first-Keeps

  set_unleased-Keeps : (owner r : ℕ) (x : RoundState) → Keeps (On F) (set_unleased_round owner r x)
  unfolding set_unleased_round
  set_unleased-Keeps owner r x =
      Triple-bind (λ _. On F) _ _ (update_rounds-Keeps F owner _ _)
        (λ rows. Triple-pure _ (λ s h. h))

  record_reclaim-Keeps : (owner t r n : ℕ) (b : Bool) → Keeps (On F) (record_reclaim owner t r n b)
  unfolding record_reclaim
  record_reclaim-Keeps owner t r n true = two_events-Keeps owner t _ _ _ _ _ _ _
  record_reclaim-Keeps owner t r n false = two_events-Keeps owner t _ _ _ _ _ _ _

-- A flip that took, its events, the release, and the value returned.
module _ {A B : Type 0} (owner t n : ℕ) where
  pub finish_flip :
      (events : Tx A) (v : A → B)
      → ltb 0 n ≡ true
      → ((F : Condition) → Keeps (On F) events)
      → Triple AnyError
          (Flipped owner t n)
          (events >>= λ a. release_task_holdings owner (some t) (some owner) >>= λ _. pure (v a))
          (λ _. Balanced)
  finish_flip events v took k =
      Triple-pre (BeforeRelease owner t) (λ s h. h.took took)
        (Triple-bind (λ _. BeforeRelease owner t) _ _ (k (Before owner t))
          λ a.
            Triple-bind (λ _. Balanced) _ _ (release-Restores owner t)
              λ _. Triple-pure _ (λ s h. h))

pub running_is_live :
    (x : TaskStatus) → is_status TaskStatus.running x ≡ true → live_status x ≡ true
running_is_live x e = ground arith

fail_task-Triple : (owner t : ℕ) → Triple AnyError Balanced (fail_task owner t) (Flipped owner t)
unfolding fail_task
fail_task-Triple owner t = flip-Triple owner t _ _ (λ x. refl) (λ x g e. cc)

requeue_task-Triple :
    (owner t : ℕ) → Triple AnyError Balanced (requeue_task owner t) (Flipped owner t)
unfolding requeue_task
requeue_task-Triple owner t = flip-Triple owner t _ _ (λ x. refl) (λ x g e. running_is_live _ g)

reclaim_flip :
    (owner t : ℕ) (b : Bool)
    → Triple AnyError Balanced
        (if b then fail_task owner t else requeue_task owner t)
        (Flipped owner t)
reclaim_flip owner t true = fail_task-Triple owner t
reclaim_flip owner t false = requeue_task-Triple owner t

pub reclaim-Keeps :
    (owner t r : ℕ) (lo : Option ℕ) (epoch : ℕ)
    → Keeps Balanced (reclaim_expired_round owner t r lo epoch)
unfolding reclaim_expired_round
reclaim-Keeps owner t r lo epoch =
    Triple-bind (λ _. Balanced) _ _ (fence_expired-Keeps Ledger owner r lo epoch)
      λ round.
        Triple-bind (λ _. Balanced) _ _ (set_unleased-Keeps Ledger owner r _)
          λ step2. Triple-require _ _ _ tt λ _.
            Triple-bind (Flipped owner t) _ _ (reclaim_flip owner t _) λ n.
              Triple-require _ _ _ tt λ took.
                finish_flip owner t n _ (λ frames. frames) took
                  (λ F. record_reclaim-Keeps F owner t r _ _)

pub cancel_cancelling-Keeps : (owner t r : ℕ) → Keeps Balanced (cancel_cancelling_round owner t r)
unfolding cancel_cancelling_round
cancel_cancelling-Keeps owner t r =
    Triple-bind (λ _. Balanced) _ _ (close_cancelling-Keeps Ledger owner r)
      λ _.
        Triple-bind (λ _. BeforeRelease owner t) _ _ (allocate-Before owner t 1)
          λ seq.
            Triple-bind (λ _. BeforeRelease owner t) _ _
              (add_event-Keeps (Before owner t) owner t _ _ _ _)
              λ _.
                Triple-bind (λ _. Balanced) _ _ (release-Restores owner t)
                  λ _. Triple-pure _ (λ s h. h)

expire-Triple : (owner t : ℕ) → Triple AnyError Balanced (expire_upload owner t) (Flipped owner t)
unfolding expire_upload
expire-Triple owner t = flip-Triple owner t _ _ (λ x. refl) (λ x g e. cc)

pub sweep_upload-Keeps : (owner t : ℕ) → Keeps Balanced (sweep_upload owner t)
unfolding sweep_upload
sweep_upload-Keeps owner t = Triple-bind (Flipped owner t) _ _ (expire-Triple owner t) λ n.
    Triple-require _ _ _ tt λ took.
      Triple-pre (BeforeRelease owner t) (λ s h. h.took took)
        (Triple-bind (λ _. BeforeRelease owner t) _ _ (allocate-Keeps (Before owner t) owner t 1)
          λ seq.
            Triple-bind (λ _. BeforeRelease owner t) _ _
              (add_event-Keeps (Before owner t) owner t _ _ _ _)
              λ _.
                Triple-bind (λ _. Balanced) _ _ (release-Restores owner t)
                  λ _. Triple-pure _ (λ s h. h))
