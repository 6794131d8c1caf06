-- ===== src/Model/Tx.antt =====
-- A transaction on an owner session (backend/v2/runtime.py, owner_session): it reads and writes
-- the database, and an exception rolls all of it back, so a failure carries no database.
use agent_craft.Prelude.{ℕ, Bool, true, false, Option, none, some}
use agent_craft.Model.Words.{ErrorCode}
use agent_craft.Model.Rows.{Db}

-- What a transaction body raises: AgentCraftError with its HTTP status, the 400 VALIDATION_ERROR of
-- HTTPException, the dispatcher's _CandidateDropped, SQLAlchemy's NoResultFound and MultipleResultsFound, and its
-- IntegrityError with the constraint that a flush has violated; the OSError of a disk.
pub data Constraint : Type 0 where
  one_active_round_per_task other_constraint : Constraint

pub data Exn : Type 0 where
  app_error : ErrorCode → (http_status : ℕ) → Exn
  validation_error : Exn
  candidate_dropped : Exn
  no_result_found : Exn
  os_error : Exn
  multiple_results_found : Exn
  integrity_error : Constraint → Exn

pub data Result {ℓ} (A : Type ℓ) : Type ℓ where
  ok : A → Result A
  err : Exn → Result A

abbrev pub Tx : Type 0 → Type 0
Tx A = Db → Result (A × Db)

unfoldable pub pure : {A : Type 0} → A → Tx A
pure a s = ok (a, s)

unfoldable pub raise : {A : Type 0} → Exn → Tx A
raise e s = err e

infixl 5 ◌>>=◌ ◌>>◌
unfoldable pub ◌>>=◌ : {A B : Type 0} → Tx A → (A → Tx B) → Tx B
◌>>=◌ m f s = elim (m s) [ err e ↦ err e | ok (a, s') ↦ f a s' ]

abbrev pub ◌>>◌ : {A B : Type 0} → Tx A → Tx B → Tx B
m >> k = m >>= λ _. k

unfoldable pub get : Tx Db
get s = ok (s, s)

unfoldable pub put : Db → Tx (Unit {0})
put s' s = ok (tt, s')

-- `if not test: raise e`
unfoldable pub require : Bool → Exn → Tx (Unit {0})
require true e s = ok (tt, s)
require false e s = err e

-- The value of a row that must be there: `if row is None: raise e`.
unfoldable pub require_some : {A : Type 0} → Option A → Exn → Tx A
require_some none e s = err e
require_some (some a) e s = ok (a, s)

-- What the caller's `async with owner_session` leaves behind.
abbrev pub commit_or_rollback : {A : Type 0} → Tx A → Db → Db
commit_or_rollback m s = elim (m s) [ err e ↦ s | ok (a, s') ↦ s' ]
