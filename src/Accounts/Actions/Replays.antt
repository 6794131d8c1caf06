-- ===== src/Accounts/Actions/Replays.antt =====
-- backend/v2/verification_service.py and password_service.py: a request that is sent again.
use agent_craft.Prelude.{ℕ}
use agent_craft.Accounts.Rows.{Body}
use agent_craft.Accounts.Service.{Service}
use agent_craft.Accounts.Primitives.{Primitives}
use agent_craft.Accounts.Idempotency.{Answer}

module _ (p : Primitives) (token new_hash : ℕ) where
  abbrev done : Answer
  done = record { status_code = 200; response_json = Body.password_set }

module _ (p : Primitives) (token : ℕ) where
  abbrev confirmed : Answer
  confirmed = record { status_code = 200; response_json = Body.verified }
