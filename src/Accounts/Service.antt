-- ===== src/Accounts/Service.antt =====
-- What a request of the account domain runs in: several transactions one after the other, each of
-- which commits or rolls back on its own (backend/v2/runtime.py), and memory that no rollback touches.
pub mod Runs
use agent_craft.Prelude.{ℕ, Bool, true, false, Option, none, some, List}
use agent_craft.Accounts.Rows.{AccountDb}

-- The codes that the services of the account domain answer with.
pub data Code : Type 0 where
  invitation_invalid email_not_verified account_pending account_suspended account_deleting : Code
  mfa_invalid mfa_not_configured csrf_invalid session_expired invalid_credentials : Code
  idempotency_conflict validation_error forbidden : Code

-- AgentCraftError or HTTPException with its code and status; the 429 of the rate limit with its
-- Retry-After; ValueError; NoResultFound; and an IntegrityError that nobody has translated.
pub data Failure : Type 0 where
  refused : Code → (http_status : ℕ) → Failure
  too_many_requests : (retry_after : ℕ) → Failure
  value_error : Failure
  no_result_found : Failure
  integrity_error : Failure

-- _Challenge and _PendingSecret, each with its key in the dictionary.
pub record Challenge : Type 0 where
  pub id : ℕ
  pub user_id : ℕ
  pub created_at : ℕ
  pub attempts : ℕ

pub record PendingSecret : Type 0 where
  pub user_id : ℕ
  pub secret : ℕ
  pub created_at : ℕ

-- The database, the audit rows that _audit_email_mismatch commits on its own, and the two stores that
-- live in the process.
pub record World : Type 0 where
  pub db : AccountDb
  pub mismatches : List ℕ
  pub challenges : List Challenge
  pub secrets : List PendingSecret

pub data Outcome (A : Type 0) : Type 0 where
  returned : A → World → Outcome A
  raised : Failure → World → Outcome A

-- The world that an outcome leaves.
abbrev pub after : {A : Type 0} → Outcome A → World
after (returned a w) = w
after (raised e w) = w

abbrev pub failure_of : {A : Type 0} → Outcome A → Option Failure
failure_of (returned a w) = none
failure_of (raised e w) = some e

abbrev pub Service : Type 0 → Type 0
Service A = World → Outcome A

abbrev pub pure : {A : Type 0} → A → Service A
pure a w = returned a w

abbrev pub raise : {A : Type 0} → Failure → Service A
raise e w = raised e w

infixl 5 ◌>>=◌ ◌>>◌
abbrev pub ◌>>=◌ : {A B : Type 0} → Service A → (A → Service B) → Service B
m >>= f = λ w. elim (m w) [ returned a w' ↦ f a w' | raised e w' ↦ raised e w' ]

abbrev pub ◌>>◌ : {A B : Type 0} → Service A → Service B → Service B
m >> k = m >>= λ _. k

-- `if not test: raise e`
abbrev pub require : Bool → Failure → Service (Unit {0})
require true e w = returned tt w
require false e w = raised e w

abbrev pub require_some : {A : Type 0} → Option A → Failure → Service A
require_some none e w = raised e w
require_some (some a) e w = returned a w

abbrev pub read : Service World
read w = returned w w

abbrev pub write : (AccountDb → AccountDb) → Service (Unit {0})
write f w = returned tt (record w { db = f w.db })

abbrev pub restore : {A : Type 0} → AccountDb → Outcome A → Outcome A
restore d (returned a w) = returned a w
restore d (raised e w) = raised e (record w { db = d })

-- `async with owner_session`, or `session.begin()`: an exception puts the database back.
abbrev pub atomically : {A : Type 0} → Service A → Service A
atomically m w = restore w.db (m w)
