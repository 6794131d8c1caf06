-- ===== src/Executor/Fencing.antt =====
-- backend/v2/task_executor.py: an executor whose lease is lost.
use agent_craft.Prelude.{
  ℕ, ◌+◌, String, ◌≡◌, refl, ◌∙◌, Bool, false, ◌&&◌, ◌==◌, Option, none, some, List, [], ◌∷◌, arith,
  update_where, select, map,
}
use agent_craft.Model.Words.{Author, RoundState}
use agent_craft.Model.Rows.{Db, TaskRound}
use agent_craft.Model.Tx.{ok, pure, Result}
use agent_craft.Table.{has, update_rounds}
use agent_craft.Logic.{bind_at}
use agent_craft.Executor.Round.{
  RoundContext, holds_lease, fence_round, persist_fact, renew_once, settle_round, settle,
  fail_leased_round, enforce_rows, enforce_round_deadline,
}

-- No round of the owner still has the context's lease: it was requeued, claimed by another instance
-- or at a later epoch, or it is no longer running.
abbrev pub LeaseLost : RoundContext → Db → Type 0
LeaseLost ctx s = has (λ r. r.owner_id == ctx.owner_id && holds_lease ctx r) s.rounds ≡ false

none_selected : (p : TaskRound → Bool) (rs : List TaskRound) → has p rs ≡ false → select p rs ≡ []
none_selected p [] e = refl
none_selected p (r ∷ rs) e = ground (arith, none_selected p rs)

none_updated :
    (p : TaskRound → Bool) (f : TaskRound → TaskRound) (rs : List TaskRound)
    → has p rs ≡ false
    → update_where p f rs ≡ rs
none_updated p f [] e = refl
none_updated p f (r ∷ rs) e = ground (arith, none_updated p f rs)

-- An update of rounds that matches none returns none and leaves the database as it is.
missed :
    (owner : ℕ) (test : TaskRound → Bool) (f : TaskRound → TaskRound) (s : Db)
    → has (λ r. r.owner_id == owner && test r) s.rounds ≡ false
    → update_rounds owner test f s ≡ ok ([], s)
unfolding update_rounds
missed owner test f s e =
    nothing (none_selected (λ r. r.owner_id == owner && test r) s.rounds e)
      (none_updated (λ r. r.owner_id == owner && test r) f s.rounds e)
  where
    nothing :
        {xs ys : List TaskRound}
        → xs ≡ []
        → ys ≡ s.rounds
        → Path (Result (List TaskRound × Db)) (ok (map f xs, record s { rounds = ys })) (ok ([], s))
    nothing p q = rw (p, q) refl

-- With a lost lease, saving a fact, renewing, settling and enforcing the deadline all return without
-- an error and leave the database as it was.
pub lost_lease :
    (ctx : RoundContext) (s : Db) (author : Author) (content reason : String) (resolved : Option ℕ)
    (message_id ttl now : ℕ)
    → LeaseLost ctx s
    → (persist_fact ctx author content message_id s ≡ ok (none, s))
      × (renew_once ctx ttl now s ≡ ok (false, s))
      × (settle ctx reason resolved message_id s ≡ ok (tt, s))
      × (enforce_round_deadline ctx s ≡ ok ([], s))
unfolding persist_fact fence_round renew_once settle settle_round enforce_round_deadline
    fail_leased_round enforce_rows pure
lost_lease ctx s author content reason resolved message_id ttl now e = (
  bind_at (fence_round ctx) _ s s 0 (bind_at _ _ s s [] (lost (λ r. r))),
  bind_at _ _ s s [] (lost (λ r. record r { lease_expires_at = some (now + ttl) }))
      ∙ bind_at (pure tt) _ s s tt refl,
  bind_at _ _ s s [] (lost (λ r. record r { state = RoundState.settled })),
  bind_at _ _ s s [] (
      lost
        (λ r. record r { state = RoundState.failed; lease_owner = none; lease_expires_at = none })),
)
  where
    lost :
        (f : TaskRound → TaskRound) → update_rounds ctx.owner_id (holds_lease ctx) f s ≡ ok ([], s)
    lost f = missed ctx.owner_id (holds_lease ctx) f s e
