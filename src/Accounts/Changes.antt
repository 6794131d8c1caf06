-- ===== src/Accounts/Changes.antt =====
-- What one statement of the account services (backend/v2) may do to the world, and the relations
-- between worlds that contain every such change.
use agent_craft.Prelude.{
  ℕ, Bool, true, false, ◌≡◌, ◌==◌, List, [], ◌∷◌, ◌++◌, any, is_none, update_where, ◌||◌,
}
use agent_craft.Accounts.Rows.{
  User, Session, ActionToken, Invitation, Mail, IdempotencyRecord, RateLimitEvent, UserStatus,
  Email, has_status,
}
use agent_craft.Accounts.Service.{World, Service, after, Challenge, PendingSecret}
use agent_craft.Accounts.Tokens.{consumed}
use agent_craft.Accounts.Invitations.{new_user}

-- The moves of an account's status that the services make.
pub data Move : UserStatus → UserStatus → Type 0 where
  stays : {s : UserStatus} → Move s s
  verifies : Move UserStatus.pending UserStatus.active
  closes : Move UserStatus.active UserStatus.deleting
  reopens : Move UserStatus.deleting UserStatus.active
  erases : Move UserStatus.deleting UserStatus.deleted

-- The CHECK constraints deleted_consistency and deletion_deadline_consistency of `users`.
abbrev pub Consistent : User → Type 0
Consistent u =
    ((is_none u.deleted_at || has_status u.status UserStatus.deleted) ≡ true)
    × ((is_none u.deletion_deadline_at || has_status u.status UserStatus.deleting) ≡ true)

pub record UserChange (u v : User) : Type 0 where
  pub same_id : v.id ≡ u.id
  pub move : Move u.status v.status
  pub consistent : Consistent u → Consistent v

-- An update of sessions keeps their token, their owner and their revocation.
pub record SessionChange (s t : Session) : Type 0 where
  pub same_token : t.token_hash ≡ s.token_hash
  pub same_owner : t.user_id ≡ s.user_id
  pub still_revoked : is_none s.revoked_at ≡ false → is_none t.revoked_at ≡ false

-- A relation between worlds that holds across every statement of the services, and their sequences.
pub record Closed (R : World → World → Type 0) : Type 0 where
  pub same : (w : World) → R w w
  pub then : (u v w : World) → R u v → R v w → R u w
  pub restored : (v w : World) → R v w → R v (record w { db = v.db })
  pub events :
      (w : World) (x : List RateLimitEvent) → R w (record w { db = record w.db { events = x } })
  pub records :
      (w : World) (x : List IdempotencyRecord) → R w (record w { db = record w.db { records = x } })
  pub outbox : (w : World) (x : List Mail) → R w (record w { db = record w.db { outbox = x } })
  pub invitations :
      (w : World) (x : List Invitation) → R w (record w { db = record w.db { invitations = x } })
  pub providers : (w : World) (x : List ℕ) → R w (record w { db = record w.db { providers = x } })
  pub mismatches : (w : World) (x : List ℕ) → R w (record w { mismatches = x })
  pub challenges : (w : World) (x : List Challenge) → R w (record w { challenges = x })
  pub secrets : (w : World) (x : List PendingSecret) → R w (record w { secrets = x })
  pub session_in :
      (w : World) (s : Session)
      → any (λ x. x.token_hash == s.token_hash) w.db.sessions ≡ false
      → R w (record w { db = record w.db { sessions = w.db.sessions ++ s ∷ [] } })
  pub sessions :
      (w : World) (p : Session → Bool) (f : Session → Session)
      → ((s : Session) → p s ≡ true → SessionChange s (f s))
      → R w (record w { db = record w.db { sessions = update_where p f w.db.sessions } })
  pub token_in :
      (w : World) (t : ActionToken)
      → any (λ x. x.token_hash == t.token_hash) w.db.tokens ≡ false
      → R w (record w { db = record w.db { tokens = w.db.tokens ++ t ∷ [] } })
  pub tokens :
      (w : World) (p : ActionToken → Bool) (now : ℕ)
      → R w (record w { db = record w.db { tokens = update_where p (consumed now) w.db.tokens } })
  pub user_in :
      (w : World) (id : ℕ) (email : Email) (h : ℕ)
      → R w (record w { db = record w.db { users = w.db.users ++ new_user id email h ∷ [] } })
  pub users :
      (w : World) (p : User → Bool) (f : User → User)
      → ((u : User) → p u ≡ true → UserChange u (f u))
      → R w (record w { db = record w.db { users = update_where p f w.db.users } })

-- A service that stays within a relation, whether it returns or raises.
pub record Keeps (R : World → World → Type 0) {A : Type 0} (m : Service A) : Type 0 where
  pub at : (w : World) → R w (after (m w))
