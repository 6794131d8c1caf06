-- ===== src/Accounts/Steps.antt =====
-- The statements and the composition of services, within a relation that is closed under them.
pub mod Tables
use agent_craft.Prelude.{
  ℕ, String, Bool, true, false, not, ◌&&◌, ◌==◌, ◌≡◌, refl, ap, sym, subst, Option, none, some,
  List, [], ◌∷◌, ◌++◌, any, Bool-cases, inl, inr, is_none, and_left, and_right, if◌then◌else◌,
}
use agent_craft.Accounts.Rows.{
  IdempotencyRecord, User, Session, ActionToken, UserStatus, Scope, Purpose, Email, Template,
  AccountDb, same_email,
}
use agent_craft.Accounts.Service.{
  World, Service, Outcome, Failure, returned, raised, after, require, require_some, restore,
  atomically, pure, raise, read, ◌>>=◌,
}
use agent_craft.Accounts.RateLimit.{enforce, admit, decide, cleanup, with_events}
use agent_craft.Accounts.Idempotency.{
  Ticket, Answer, begin, store, lookup, found_or_swept, replay_or_conflict, insert_record,
  sweep_ticket, filed_under, is_live, Reply, replay_or,
}
use agent_craft.Accounts.Outbox.{enqueue, insert_mail}
use agent_craft.Accounts.Sessions.{
  SessionDraw, insert_session, create_session, revoke_all, revoke_where, revoked, refresh_if_needed,
  new_session,
}
use agent_craft.Accounts.Tokens.{
  TokenDraw, insert_token, issue_token, consume_token, consume_where, invalidate_prior, new_token,
}
use agent_craft.Accounts.Users.{update_user}
use agent_craft.Accounts.Changes.{Closed, Keeps, UserChange, SessionChange}

module _ (R : World → World → Type 0) (c : Closed R) where
  pub Keeps-pure : {A : Type 0} (a : A) → Keeps R (pure a)
  Keeps-pure a = record { at = c.same }

  pub Keeps-raise : {A : Type 0} (e : Failure) → Keeps R (raise {A = A} e)
  Keeps-raise e = record { at = c.same }

  bound :
      {A B : Type 0} (f : A → Service B) (w : World) (o : Outcome A)
      → R w (after o)
      → ((a : A) → Keeps R (f a))
      → R w (after (elim o as (λ _. Outcome B) [ returned a v ↦ f a v | raised e v ↦ raised e v ]))
  bound f w (returned a v) h k = c.then w v (after (f a v)) h ((k a).at v)
  bound f w (raised e v) h k = h

  pub Keeps-bind :
      {A B : Type 0} (m : Service A) (f : A → Service B)
      → Keeps R m
      → ((a : A) → Keeps R (f a))
      → Keeps R (m >>= f)
  Keeps-bind m f h k = record { at = λ w. bound f w (m w) (h.at w) k }

  -- The world that a block reads is known to the rest of it.
  pub Keeps-read :
      {B : Type 0} (f : World → Service B) → ((v : World) → Keeps R (f v)) → Keeps R (read >>= f)
  Keeps-read f k = record { at = λ w. (k w).at w }

  pub Keeps-require :
      {B : Type 0} (b : Bool) (e : Failure) (f : Unit {0} → Service B)
      → (b ≡ true → Keeps R (f tt))
      → Keeps R (require b e >>= f)
  Keeps-require true e f k = record { at = (k refl).at }
  Keeps-require false e f k = record { at = c.same }

  pub Keeps-check : (b : Bool) (e : Failure) → Keeps R (require b e)
  Keeps-check true e = record { at = c.same }
  Keeps-check false e = record { at = c.same }

  pub Keeps-require_some :
      {A B : Type 0} (o : Option A) (e : Failure) (f : A → Service B)
      → ((a : A) → o ≡ some a → Keeps R (f a))
      → Keeps R (require_some o e >>= f)
  Keeps-require_some none e f k = record { at = c.same }
  Keeps-require_some (some a) e f k = record { at = (k a refl).at }

  pub Keeps-if :
      {A : Type 0} (b : Bool) (m n : Service A)
      → Keeps R m
      → Keeps R n
      → Keeps R (if b then m else n)
  Keeps-if true m n h k = h
  Keeps-if false m n h k = k

  restored_after :
      {A : Type 0} (w : World) (o : Outcome A) → R w (after o) → R w (after (restore w.db o))
  restored_after w (returned a v) h = h
  restored_after w (raised e v) h = c.restored w v h

  pub Keeps-atomically : {A : Type 0} (m : Service A) → Keeps R m → Keeps R (atomically m)
  Keeps-atomically m h = record { at = λ w. restored_after w (m w) (h.at w) }

  admit-Keeps : (o : Option ℕ) (s : Scope) (hs : List ℕ) (now : ℕ) → Keeps R (admit o s hs now)
  admit-Keeps none s hs now = record {
    at = λ w. c.events w (cleanup s now (with_events hs s now w.db.events));
  }
  admit-Keeps (some x) s hs now = record { at = c.same }

  pub enforce-Keeps : (s : Scope) (hs : List ℕ) (now : ℕ) → Keeps R (enforce s hs now)
  unfolding enforce
  enforce-Keeps s [] now = record { at = c.same }
  enforce-Keeps s (h ∷ hs) now = record {
    at = λ w. (admit-Keeps (decide s (h ∷ hs) now w.db.events) s (h ∷ hs) now).at w;
  }

  found-Keeps :
      (o : Option IdempotencyRecord) (t : Ticket) (now : ℕ) → Keeps R (found_or_swept o t now)
  found-Keeps none t now = record { at = λ w. c.records w _ }
  found-Keeps (some r) t now = elim (Bool-cases (r.request_hash == t.request_hash)) [
    | inl e ↦ record { at = λ w. rw e (c.same w) }
    | inr e ↦ record { at = λ w. rw e (c.same w) }
  ]

  pub begin-Keeps : (t : Ticket) (now : ℕ) → Keeps R (begin t now)
  unfolding begin
  begin-Keeps t now =
      Keeps-atomically (lookup t now) (record { at = λ w. (found-Keeps _ t now).at w })

  inserted-Keeps :
      (b : Bool) (t : Ticket) (a : Answer) (now : ℕ) (rs : List IdempotencyRecord)
      → Keeps R (insert_record b t a now rs)
  inserted-Keeps true t a now rs = record { at = c.same }
  inserted-Keeps false t a now rs = record { at = λ w. c.records w _ }

  pub store-Keeps : (t : Ticket) (a : Answer) (now : ℕ) → Keeps R (store t a now)
  unfolding store
  store-Keeps t a now = record {
    at = λ w.
        let kept = sweep_ticket t now w.db.records in
        (inserted-Keeps (any (filed_under t) kept) t a now kept).at w;
  }

  pub replay_or-Keeps :
      {A : Type 0} (o : Option Answer) (m : Service A) → Keeps R m → Keeps R (replay_or o m)
  replay_or-Keeps none m h = Keeps-bind m _ h (λ x. Keeps-pure _)
  replay_or-Keeps (some a) m h = Keeps-pure _
