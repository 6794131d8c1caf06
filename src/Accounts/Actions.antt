-- ===== src/Accounts/Actions.antt =====
-- The account services (backend/v2) as one type of actions, and what all of them keep.
pub mod Links
pub mod Joining
pub mod Entries
pub mod Leaving
pub mod Keeping
pub mod Status
pub mod Final
pub mod Replays
use agent_craft.Prelude.{ℕ, String, Option, List, [], ◌∷◌}
use agent_craft.Accounts.Rows.{User, UserStatus, Role, Email, Mail}
use agent_craft.Accounts.Service.{World, Service, after}
use agent_craft.Accounts.Primitives.{Primitives}
use agent_craft.Accounts.Idempotency.{Idem}
use agent_craft.Accounts.Outbox.{Delivery, dispatch_once}
use agent_craft.Accounts.Sessions.{SessionDraw, Request, get_v2_auth, revoke, revoke_all}
use agent_craft.Accounts.Tokens.{TokenDraw}
use agent_craft.Accounts.Verification.{confirm_email, resend_email}
use agent_craft.Accounts.Invitations.{AcceptDraw, accept_invitation}
use agent_craft.Accounts.Passwords.{request_reset, confirm_reset, change_password}
use agent_craft.Accounts.Login.{login, login_mfa, verify_mfa, setup_mfa, activate_mfa, disable_mfa}
use agent_craft.Accounts.Deletion.{request_deletion, cancel_deletion, sweep_expired}

pub data AccountAction : Type 0 where
  authenticate : Request → (now : ℕ) → AccountAction
  log_out : (user_id session_id now : ℕ) → AccountAction
  log_out_all : (user_id now : ℕ) → AccountAction
  accept :
      (token : ℕ)
      → Email
      → (ip : ℕ) → AcceptDraw
      → (label : String) → Idem
      → (now : ℕ) → AccountAction
  confirm : (token : ℕ) → Idem → (now : ℕ) → AccountAction
  resend : (user_id : ℕ) → Email → UserStatus → TokenDraw → (now : ℕ) → AccountAction
  ask_reset : Email → (ip : ℕ) → TokenDraw → (now : ℕ) → AccountAction
  reset : (token new_hash : ℕ) → Idem → (now : ℕ) → AccountAction
  change : User → (session_id current_password new_hash : ℕ) → Option ℕ → (now : ℕ) → AccountAction
  sign_in :
      Email
      → (password ip challenge_id : ℕ) → SessionDraw
      → (label : String) → (now : ℕ) → AccountAction
  sign_in_mfa : (challenge_id code : ℕ) → SessionDraw → (label : String) → (now : ℕ) → AccountAction
  step_up : (user_id session_id code now : ℕ) → AccountAction
  set_up : (user_id secret now : ℕ) → AccountAction
  activate : (user_id session_id code : ℕ) → (ℕ → ℕ) → (now : ℕ) → AccountAction
  disable : (user_id : ℕ) → Role → AccountAction
  request : User → (password : ℕ) → Option ℕ → TokenDraw → Idem → (now : ℕ) → AccountAction
  cancel :
      (token password ip : ℕ) → SessionDraw → (label : String) → Idem → (now : ℕ) → AccountAction
  sweep : (ℕ → ℕ) → (now : ℕ) → AccountAction
  dispatch : (worker : ℕ) → (Mail → Delivery) → (batch now : ℕ) → AccountAction

module _ (p : Primitives) (hook : ℕ → Service (Unit {0})) where
  unfoldable pub serve_account : AccountAction → World → World
  serve_account (authenticate r now) w = after (get_v2_auth p.hash_token r now w)
  serve_account (log_out user_id session_id now) w = after (revoke user_id session_id now w)
  serve_account (log_out_all user_id now) w = after (revoke_all user_id now w)
  serve_account (accept token email ip draw label idem now) w =
      after (accept_invitation p token email ip draw label idem now w)
  serve_account (confirm token idem now) w = after (confirm_email p token idem now w)
  serve_account (resend user_id email status draw now) w =
      after (resend_email p user_id email status draw now w)
  serve_account (ask_reset email ip draw now) w = after (request_reset p email ip draw now w)
  serve_account (reset token new_hash idem now) w =
      after (confirm_reset p token new_hash idem now w)
  serve_account (change u session_id current new_hash code now) w =
      after (change_password p u session_id current new_hash code now w)
  serve_account (sign_in email password ip challenge_id draw label now) w =
      after (login p email password ip challenge_id draw label now w)
  serve_account (sign_in_mfa challenge_id code draw label now) w =
      after (login_mfa p challenge_id code draw label now w)
  serve_account (step_up user_id session_id code now) w =
      after (verify_mfa p user_id session_id code now w)
  serve_account (set_up user_id secret now) w = after (setup_mfa user_id secret now w)
  serve_account (activate user_id session_id code encrypt now) w =
      after (activate_mfa p user_id session_id code encrypt now w)
  serve_account (disable user_id role) w = after (disable_mfa user_id role w)
  serve_account (request u password code draw idem now) w =
      after (request_deletion p hook u password code draw idem now w)
  serve_account (cancel token password ip draw label idem now) w =
      after (cancel_deletion p token password ip draw label idem now w)
  serve_account (sweep random_hash now) w = after (sweep_expired random_hash now w)
  serve_account (dispatch worker deliver batch now) w =
      after (dispatch_once worker deliver batch now w)

  abbrev pub serve_accounts : List AccountAction → World → World
  serve_accounts [] w = w
  serve_accounts (a ∷ actions) w = serve_accounts actions (serve_account a w)
