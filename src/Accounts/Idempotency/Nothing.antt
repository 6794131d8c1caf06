-- ===== src/Accounts/Idempotency/Nothing.antt =====
-- backend/v2/idempotency.py: a request with a key whose body raises before it has changed anything.
use agent_craft.Prelude.{
  ℕ, refl, ◌&&◌, find, Bool-cases, inl, inr, ◌≡◌, sym, subst, ◌==◌, Option, none, some,
}
use agent_craft.Accounts.Rows.{IdempotencyRecord, Body}
use agent_craft.Accounts.Service.{
  World, Service, Outcome, Failure, returned, raised, after, restore, ◌>>=◌,
}
use agent_craft.Accounts.Idempotency.{
  Ticket, Reply, replay, fresh, Answer, begin, replay_or, filed_under, is_live, found_or_swept,
}

abbrev pub IsReplay : Reply Body → Type 0
IsReplay r = (a : Answer) × (r ≡ replay a)

-- Nothing has changed from one world to another but the table of stored answers.
abbrev pub SameButAnswers : World → World → Type 0
SameButAnswers v w = w ≡ record v { db = record v.db { records = w.db.records } }

abbrev pub NothingNew : Outcome (Reply Body) → Type 0
NothingNew (returned r w) = IsReplay r
NothingNew (raised f w) = Unit

-- A request has done nothing: whether it returns or raises, what it leaves is as before, but for stored
-- answers; and if it returns, it gives a stored answer again.
pub record DoesNothing (v : World) (o : Outcome (Reply Body)) : Type 0 where
  pub same : SameButAnswers v (after o)
  pub answer : NothingNew o

-- A handler whose body only raises does nothing.
module _ (m : Service Body) (f : Failure) where
  pub replay_or-DoesNothing :
      (t : Ticket) (now : ℕ) (w : World)
      → ((x : World) → x.db.tokens ≡ w.db.tokens → m x ≡ raised f x)
      → DoesNothing w ((begin t now >>= λ known. replay_or known m) w)
  unfolding begin
  replay_or-DoesNothing t now w fails =
      go (find (λ r. filed_under t r && is_live now r) w.db.records)
    where
      go :
          (o : Option IdempotencyRecord)
          → DoesNothing w
              (((λ v. restore v.db (found_or_swept o t now v)) >>= λ known. replay_or known m) w)
      go none =
          let x = after (found_or_swept none t now w) in
          subst
            (λ (o : Outcome Body). DoesNothing w (elim o as (λ _. Outcome (Reply Body)) [
              | returned b y ↦ returned (fresh b) y
              | raised g y ↦ raised g y
            ]))
            (sym (fails x refl)) (record { same = refl; answer = tt })
      go (some r) = elim (Bool-cases (r.request_hash == t.request_hash)) [
        | inl e ↦ rw e (record { same = refl; answer = (_, refl) })
        | inr e ↦ rw e (record { same = refl; answer = tt })
      ]
