-- ===== src/Accounts/Actions/Keeping.antt =====
-- Every account service stays within a relation that is closed under their statements.
use agent_craft.Prelude.{ℕ, List, [], ◌∷◌}
use agent_craft.Accounts.Service.{World, Service}
use agent_craft.Accounts.Primitives.{Primitives}
use agent_craft.Accounts.Changes.{Closed, Keeps}
use agent_craft.Accounts.Steps.Tables.{revoke_all-Keeps}
use agent_craft.Accounts.Actions.{AccountAction, serve_account, serve_accounts}
use AccountAction.{
  authenticate, log_out, log_out_all, accept, confirm, resend, ask_reset, reset, change, sign_in,
  sign_in_mfa, step_up, set_up, activate, disable, request, cancel, sweep, dispatch,
}
use agent_craft.Accounts.Actions.Links.{confirm_email-Keeps, resend_email-Keeps}
use agent_craft.Accounts.Actions.Joining.{
  accept_invitation-Keeps, request_reset-Keeps, confirm_reset-Keeps, change_password-Keeps,
}
use agent_craft.Accounts.Actions.Entries.{
  get_v2_auth-Keeps, revoke-Keeps, dispatch_once-Keeps, login-Keeps, login_mfa-Keeps,
}
use agent_craft.Accounts.Actions.Leaving.{
  verify_mfa-Keeps, setup_mfa-Keeps, activate_mfa-Keeps, disable_mfa-Keeps, request_deletion-Keeps,
  cancel_deletion-Keeps, sweep_expired-Keeps,
}

module _ (R : World → World → Type 0) (c : Closed R) (p : Primitives)
    (hook : ℕ → Service (Unit {0})) (hook-Keeps : (id : ℕ) → Keeps R (hook id)) where
  serve_account-Keeps : (a : AccountAction) (w : World) → R w (serve_account p hook a w)
  unfolding serve_account
  serve_account-Keeps (authenticate r now) w = (get_v2_auth-Keeps R c p.hash_token r now).at w
  serve_account-Keeps (log_out user_id id now) w = (revoke-Keeps R c user_id id now).at w
  serve_account-Keeps (log_out_all user_id now) w = (revoke_all-Keeps R c user_id now).at w
  serve_account-Keeps (accept token email ip draw label idem now) w =
      (accept_invitation-Keeps R c p token email ip draw label idem now).at w
  serve_account-Keeps (confirm token idem now) w = (confirm_email-Keeps R c p token idem now).at w
  serve_account-Keeps (resend user_id email status draw now) w =
      (resend_email-Keeps R c p user_id email status draw now).at w
  serve_account-Keeps (ask_reset email ip draw now) w =
      (request_reset-Keeps R c p email ip draw now).at w
  serve_account-Keeps (reset token h idem now) w = (confirm_reset-Keeps R c p token h idem now).at w
  serve_account-Keeps (change u id current h code now) w =
      (change_password-Keeps R c p u id current h code now).at w
  serve_account-Keeps (sign_in email password ip id draw label now) w =
      (login-Keeps R c p email password ip id draw label now).at w
  serve_account-Keeps (sign_in_mfa id code draw label now) w =
      (login_mfa-Keeps R c p id code draw label now).at w
  serve_account-Keeps (step_up user_id id code now) w =
      (verify_mfa-Keeps R c p user_id id code now).at w
  serve_account-Keeps (set_up user_id secret now) w = (setup_mfa-Keeps R c user_id secret now).at w
  serve_account-Keeps (activate user_id id code encrypt now) w =
      (activate_mfa-Keeps R c p user_id id code encrypt now).at w
  serve_account-Keeps (disable user_id role) w = (disable_mfa-Keeps R c user_id role).at w
  serve_account-Keeps (request u password code draw idem now) w =
      (request_deletion-Keeps R c hook hook-Keeps p u password code draw idem now).at w
  serve_account-Keeps (cancel token password ip draw label idem now) w =
      (cancel_deletion-Keeps R c p token password ip draw label idem now).at w
  serve_account-Keeps (sweep h now) w = (sweep_expired-Keeps R c h now).at w
  serve_account-Keeps (dispatch worker deliver batch now) w =
      (dispatch_once-Keeps R c worker deliver batch now).at w

  pub serve_accounts-Keeps :
      (actions : List AccountAction) (w : World) → R w (serve_accounts p hook actions w)
  serve_accounts-Keeps [] w = c.same w
  serve_accounts-Keeps (a ∷ actions) w =
      c.then w (serve_account p hook a w) (serve_accounts p hook actions (serve_account p hook a w))
        (serve_account-Keeps a w) (serve_accounts-Keeps actions (serve_account p hook a w))
