-- ===== src/Accounts/Idempotency.antt =====
-- backend/v2/idempotency.py: the record of an answer, and its replay.
pub mod Replay
pub mod Nothing
use agent_craft.Prelude.{
  ℕ, ◌+◌, Bool, true, false, not, ◌&&◌, ◌==◌, ltb, if◌then◌else◌, Option, none, some, List, [], ◌∷◌,
  ◌++◌, select, find, any,
}
use agent_craft.Accounts.Rows.{Route, Body, IdempotencyRecord, AccountDb, same_route}
use agent_craft.Accounts.Service.{
  World, Service, Failure, Outcome, returned, raised, refused, idempotency_conflict, atomically,
  pure, ◌>>=◌,
}

-- _RECORD_TTL
abbrev pub record_ttl : ℕ
record_ttl = 86400

-- What a request is filed under: its subject, its route and its key.
pub record Ticket : Type 0 where
  pub subject_hash : ℕ
  pub route : Route
  pub key : ℕ
  pub request_hash : ℕ

-- The answer that a replay gives again.
pub record Answer : Type 0 where
  pub status_code : ℕ
  pub response_json : Body

abbrev pub filed_under : Ticket → IdempotencyRecord → Bool
filed_under t r = r.subject_hash == t.subject_hash && same_route r.route t.route && r.key == t.key

-- `expires_at > now()`
abbrev pub is_live : ℕ → IdempotencyRecord → Bool
is_live now r = ltb now r.expires_at

abbrev pub conflict : Failure
conflict = refused idempotency_conflict 409

abbrev drop_expired : ℕ → AccountDb → AccountDb
drop_expired now d = record d { records = select (is_live now) d.records }

abbrev pub replay_or_conflict : IdempotencyRecord → Ticket → Service (Option Answer)
replay_or_conflict r t w =
    if r.request_hash == t.request_hash
    then returned (some (record { status_code = r.status_code; response_json = r.response_json })) w
    else raised conflict w

-- Without a live record, every expired record goes.
abbrev pub found_or_swept : Option IdempotencyRecord → Ticket → ℕ → Service (Option Answer)
found_or_swept none t now w = returned none (record w { db = drop_expired now w.db })
found_or_swept (some r) t now w = replay_or_conflict r t w

-- _lookup
abbrev pub lookup : Ticket → ℕ → Service (Option Answer)
lookup t now w = found_or_swept (find (λ r. filed_under t r && is_live now r) w.db.records) t now w

-- begin, with its own transaction
unfoldable pub begin : Ticket → ℕ → Service (Option Answer)
begin t now = atomically (lookup t now)

abbrev pub new_record : Ticket → Answer → ℕ → IdempotencyRecord
new_record t a now = record {
  subject_hash = t.subject_hash;
  route = t.route;
  key = t.key;
  request_hash = t.request_hash;
  response_json = a.response_json;
  status_code = a.status_code;
  expires_at = now + record_ttl;
}

-- The expired records of a ticket are swept before its insert.
abbrev pub sweep_ticket : Ticket → ℕ → List IdempotencyRecord → List IdempotencyRecord
sweep_ticket t now rs = select (λ r. not (filed_under t r && not (is_live now r))) rs

abbrev pub insert_record : Bool → Ticket → Answer → ℕ → List IdempotencyRecord → Service (Unit {0})
insert_record true t a now rs w = raised conflict w
insert_record false t a now rs w =
    returned tt (record w { db = record w.db { records = rs ++ new_record t a now ∷ [] } })

-- store: the unique index idempotency_route_key turns a second live record into a conflict.
unfoldable pub store : Ticket → Answer → ℕ → Service (Unit {0})
store t a now w =
    let kept = sweep_ticket t now w.db.records in
    insert_record (any (filed_under t) kept) t a now kept w

-- A new answer, or the replay of a stored one.
pub data Reply (A : Type 0) : Type 0 where
  fresh : A → Reply A
  replay : Answer → Reply A

-- The caller's key and the hash of its request.
pub record Idem : Type 0 where
  pub key : ℕ
  pub request_hash : ℕ

abbrev pub ticket : ℕ → Route → Idem → Ticket
ticket subject route idem = record {
  subject_hash = subject;
  route = route;
  key = idem.key;
  request_hash = idem.request_hash;
}

-- What a handler does with the answer of `begin`.
abbrev pub replay_or : {A : Type 0} → Option Answer → Service A → Service (Reply A)
replay_or (some a) m = pure (replay a)
replay_or none m = do x ← m; pure (fresh x)
