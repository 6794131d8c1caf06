-- ===== src/Examples/AccountData.antt =====
-- Small worlds of the account domain, and the calls that the examples make.
use agent_craft.Prelude.{ℕ, ◌+◌, false, ◌==◌, none, some, List, [], ◌∷◌}
use agent_craft.Accounts.Rows.{
  User, Session, ActionToken, Mail, UserStatus, Role, Purpose, Template, Scope, OutboxState, Body,
  address, Route,
}
use agent_craft.Accounts.Service.{World, Service, after, pure}
use agent_craft.Accounts.Primitives.{Primitives}
use agent_craft.Accounts.RateLimit.Log.{Call}
use agent_craft.Accounts.Idempotency.{Ticket, Answer, Idem, begin, store, ticket}
use agent_craft.Accounts.Outbox.Drain.{Round}
use agent_craft.Accounts.Sessions.{Request, revoke_all, post_method}
use agent_craft.Accounts.Tokens.{consume_token}
use agent_craft.Accounts.Users.{update_user}
use agent_craft.Accounts.Verification.{confirm_email, confirm_fresh, confirm_tx}
use agent_craft.Accounts.Passwords.{confirm_reset, reset_fresh, reset_tx}

abbrev pub primitives : Primitives
primitives = record {
  hash_token = λ n. n + 1000;
  text_of_id = λ n. n;
  hmac_email = λ e. 7;
  hmac_ip = λ n. n;
  hmac_user = λ n. n;
  verify_password = λ p h. p == h;
  fold_email = λ e. e;
  validate_email = λ e. some e;
  decrypt_secret = λ u e. some e;
  totp_verify = λ s c now. s == c;
}

abbrev pub member : ℕ → UserStatus → User
member id status = record {
  id = id;
  email = address id;
  password_hash = 900;
  role = Role.user;
  status = status;
  mfa_secret_enc = none;
  deleted_at = none;
  deletion_deadline_at = none;
}

abbrev pub session_3 : Session
session_3 = record {
  id = 3;
  token_hash = 1070;
  user_id = 2;
  csrf_hash = 1071;
  created_at = 0;
  expires_at = 600000;
  revoked_at = none;
  mfa_verified_at = none;
  device_label = "browser";
}

abbrev pub link : ℕ → ℕ → Purpose → ActionToken
link id user_id purpose = record {
  id = id;
  user_id = user_id;
  purpose = purpose;
  token_hash = id + 1000;
  expires_at = 5000;
  consumed_at = none;
}

abbrev pub letter : Mail
letter = record {
  id = 4;
  user_id = 1;
  purpose = Template.action Purpose.email_verify;
  recipient = address 1;
  action_token = 50;
  state = OutboxState.pending;
  lease_owner = none;
  lease_expires_at = none;
  attempts = 0;
  next_attempt_at = none;
  created_at = 0;
}

abbrev pub accounts : World
accounts = record {
  db = record {
    users = member 1 UserStatus.pending ∷ member 2 UserStatus.active ∷ [];
    sessions = session_3 ∷ [];
    tokens = link 50 1 Purpose.email_verify ∷ link 60 2 Purpose.password_reset ∷ [];
    invitations = [];
    outbox = letter ∷ [];
    records = [];
    events = [];
    providers = [];
  };
  mismatches = [];
  challenges = [];
  secrets = [];
}

abbrev pub no_hook : ℕ → Service (Unit {0})
no_hook id = pure tt

abbrev pub idem_1 : Idem
idem_1 = record { key = 11; request_hash = 12 }

abbrev pub login_at : ℕ → Call
login_at now = record { scope = Scope.login; subjects = 1 ∷ 2 ∷ []; now = now }

abbrev pub logins : List Call
logins = login_at 5 ∷ login_at 6 ∷ login_at 1000 ∷ []

abbrev pub round_at : ℕ → Round
round_at now = record { worker = 1; now = now; deliver = λ m. record { is_ok = false; at = now } }

abbrev pub rounds : List Round
rounds = round_at 0 ∷ round_at 2000 ∷ round_at 4000 ∷ round_at 6000 ∷ round_at 8000 ∷ []

abbrev pub write_request : Request
write_request = record { cookie = some 70; method = post_method; csrf_header = some 71 }

abbrev pub ticket_1 : Ticket
ticket_1 = ticket 1050 Route.confirm_route idem_1

abbrev pub ticket_2 : Ticket
ticket_2 = ticket 1060 Route.confirm_route idem_1

abbrev pub answer_1 : Answer
answer_1 = record { status_code = 200; response_json = Body.verified }

-- The worlds after a confirmation, a reset and a stored answer.
abbrev pub confirmed_world : World
unfolding confirm_email confirm_fresh confirm_tx begin store update_user consume_token
confirmed_world = after (confirm_email primitives 50 idem_1 20 accounts)

abbrev pub reset_world : World
unfolding confirm_reset reset_fresh reset_tx begin store update_user consume_token revoke_all
reset_world = after (confirm_reset primitives 60 900 idem_1 20 accounts)

abbrev pub stored_world : World
unfolding store
stored_world = after (store ticket_1 answer_1 20 accounts)
