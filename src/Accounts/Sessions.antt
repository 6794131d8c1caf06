-- ===== src/Accounts/Sessions.antt =====
-- backend/v2/session_service.py: sessions, their refresh and revocation, and the gates of a request.
pub mod Lifetimes
pub mod Admission
pub mod Gates
use agent_craft.Prelude.{
  ℕ, ◌+◌, String, Bool, true, false, not, ◌&&◌, ◌||◌, ◌==◌, ltb, if◌then◌else◌, Option, none, some,
  List, [], ◌∷◌, ◌++◌, select, find, any, count, update_where, map, is_none, order_by,
}
use agent_craft.Accounts.Rows.{User, Session, AccountDb, UserStatus, has_status}
use agent_craft.Accounts.Service.{
  World, Service, Failure, Outcome, returned, raised, refused, session_expired, csrf_invalid,
  account_suspended, account_deleting, integrity_error, atomically, require, require_some, read,
  write, pure, ◌>>=◌, ◌>>◌,
}

-- SESSION_TTL, SESSION_ABSOLUTE and REFRESH_THRESHOLD, in seconds
abbrev pub session_ttl : ℕ
session_ttl = 604800

abbrev pub session_absolute : ℕ
session_absolute = 2592000

abbrev pub refresh_threshold : ℕ
refresh_threshold = 518400

-- The id of a new row, and the tokens that generate_token has drawn for it.
pub record SessionDraw : Type 0 where
  pub id : ℕ
  pub session_token : ℕ
  pub csrf_token : ℕ

abbrev pub new_session : (ℕ → ℕ) → ℕ → SessionDraw → String → Bool → ℕ → Session
new_session hash_token user_id draw label mfa_verified now = record {
  id = draw.id;
  token_hash = hash_token draw.session_token;
  user_id = user_id;
  csrf_hash = hash_token draw.csrf_token;
  created_at = now;
  expires_at = now + session_ttl;
  revoked_at = none;
  mfa_verified_at = if mfa_verified then some now else none;
  device_label = label;
}

abbrev pub insert_session : Session → Service (Unit {0})
insert_session s = do
  w ← read
  require (not (any (λ x. x.token_hash == s.token_hash) w.db.sessions)) integrity_error
  write (λ d. record d { sessions = d.sessions ++ s ∷ [] })

-- create_session: the tokens in plain text are the draw's.
unfoldable pub create_session : (ℕ → ℕ) → ℕ → SessionDraw → String → Bool → ℕ → Service (Unit {0})
create_session hash_token user_id draw label mfa_verified now =
    insert_session (new_session hash_token user_id draw label mfa_verified now)

abbrev pub is_open : ℕ → Session → Bool
is_open now s = is_none s.revoked_at && ltb now s.expires_at

abbrev pub owner_of : Session → List User → Option User
owner_of s users = find (λ u. u.id == s.user_id) users

abbrev pub unless_deleted : Session → Option User → Option (Session × User)
unless_deleted s none = none
unless_deleted s (some u) = if has_status u.status UserStatus.deleted then none else some (s, u)

abbrev pub joined : Option Session → List User → Option (Session × User)
joined none users = none
joined (some s) users = unless_deleted s (owner_of s users)

-- resolve_session: an empty token is no token.
unfoldable pub resolve_session : (ℕ → ℕ) → Option ℕ → ℕ → AccountDb → Option (Session × User)
resolve_session hash_token none now d = none
resolve_session hash_token (some token) now d =
    joined (find (λ s. s.token_hash == hash_token token && is_open now s) d.sessions) d.users

abbrev min : ℕ → ℕ → ℕ
min a b = if ltb a b then a else b

-- _REFRESH_SQL
abbrev pub is_critical : ℕ → ℕ → ℕ → Session → Bool
is_critical owner session_id now s =
    s.user_id == owner
    && s.id == session_id
    && is_none s.revoked_at
    && ltb s.expires_at (now + refresh_threshold)

abbrev pub extended : ℕ → Session → Session
extended now s = record s { expires_at = min (now + session_ttl) (s.created_at + session_absolute) }

abbrev pub update_sessions : (Session → Bool) → (Session → Session) → AccountDb → AccountDb
update_sessions p f d = record d { sessions = update_where p f d.sessions }

-- refresh_if_needed, on the session of an owner
unfoldable pub refresh_if_needed : ℕ → ℕ → ℕ → Service (Unit {0})
refresh_if_needed owner session_id now =
    write (update_sessions (is_critical owner session_id now) (extended now))

abbrev pub revoked : ℕ → Session → Session
revoked now s = record s { revoked_at = some now }

abbrev pub is_unrevoked : ℕ → Session → Bool
is_unrevoked owner s = s.user_id == owner && is_none s.revoked_at

abbrev pub revoke_where : (Session → Bool) → ℕ → Service ℕ
revoke_where p now w =
    returned (count p w.db.sessions) (record w { db = update_sessions p (revoked now) w.db })

-- revoke, on an owner's session; the answer is the rowcount
unfoldable pub revoke : ℕ → ℕ → ℕ → Service ℕ
revoke owner session_id now = revoke_where (λ s. is_unrevoked owner s && s.id == session_id) now

-- revoke_all
unfoldable pub revoke_all : ℕ → ℕ → Service ℕ
revoke_all owner now = revoke_where (is_unrevoked owner) now

-- What the list of devices shows.
pub record Device : Type 0 where
  pub id : ℕ
  pub device_label : String
  pub created_at : ℕ
  pub expires_at : ℕ
  pub current : Bool

-- ORDER BY created_at DESC, id
abbrev before : Session → Session → Bool
before a b = ltb b.created_at a.created_at || a.created_at == b.created_at && ltb a.id b.id

abbrev pub device : ℕ → Session → Device
device current_id s = record {
  id = s.id;
  device_label = s.device_label;
  created_at = s.created_at;
  expires_at = s.expires_at;
  current = s.id == current_id;
}

-- list_sessions
unfoldable pub list_sessions : ℕ → ℕ → AccountDb → List Device
list_sessions owner current_id d =
    map (device current_id) (order_by before (select (λ s. s.user_id == owner) d.sessions))

-- The method of a request, in upper case.
pub data Method : Type 0 where
  get_method head_method options_method post_method put_method delete_method patch_method : Method
  other_method : String → Method

-- _CSRF_METHODS
abbrev pub is_csrf_method : Method → Bool
is_csrf_method post_method = true
is_csrf_method put_method = true
is_csrf_method delete_method = true
is_csrf_method patch_method = true
is_csrf_method _ = false

-- What get_v2_auth reads of a request: its cookie, its method and its X-CSRF-Token; an empty header is no
-- header.
pub record Request : Type 0 where
  pub cookie : Option ℕ
  pub method : Method
  pub csrf_header : Option ℕ

abbrev pub csrf_ok : (ℕ → ℕ) → Request → Session → Bool
csrf_ok hash_token r s = elim r.csrf_header [
  | none ↦ not (is_csrf_method r.method)
  | some token ↦ not (is_csrf_method r.method) || hash_token token == s.csrf_hash
]

abbrev pub expired_error : Failure
expired_error = refused session_expired 401

-- The gate on the status of a user.
abbrev pub gate : UserStatus → Service (Unit {0})
gate UserStatus.pending = pure tt
gate UserStatus.active = pure tt
gate UserStatus.suspended = λ w. raised (refused account_suspended 403) w
gate UserStatus.deleting = λ w. raised (refused account_deleting 403) w
gate UserStatus.deleted = λ w. raised expired_error w

abbrev pub refresh_critical : User → Session → ℕ → Service (Unit {0})
refresh_critical u s now =
    if ltb s.expires_at (now + refresh_threshold)
    then atomically (refresh_if_needed u.id s.id now)
    else pure tt

abbrev pub admit_request : (ℕ → ℕ) → Request → ℕ → Session × User → Service (Session × User)
admit_request hash_token r now (s, u) = do
  require (csrf_ok hash_token r s) (refused csrf_invalid 403)
  gate u.status
  refresh_critical u s now
  pure (s, u)

-- get_v2_auth
unfoldable pub get_v2_auth : (ℕ → ℕ) → Request → ℕ → Service (Session × User)
get_v2_auth hash_token r now = do
  w ← read
  pair ← require_some (resolve_session hash_token r.cookie now w.db) expired_error
  admit_request hash_token r now pair
