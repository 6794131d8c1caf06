-- ===== src/Service/Create.antt =====
-- backend/v2/task_service.py: create_task, with snapshot_refs_for_task of backend/v2/mcp_service.py
-- and assert_tool_enabled of backend/v2/tool_service.py.
use agent_craft.Prelude.{
  ℕ, String, Bool, true, false, ◌||◌, ◌==◌, Option, none, some, List, [], ◌∷◌, ◌++◌, if◌then◌else◌,
  leb, length,
}
use agent_craft.Model.Words.{
  TaskStatus, Kind, ReservationState, Author, revision_not_published, tool_revoked, not_found,
}
use agent_craft.Model.Rows.{Task, message_saved}
use agent_craft.Model.Tx.{Exn, Tx, app_error, pure, get, require, require_some, ◌>>=◌, ◌>>◌}
use agent_craft.Table.{
  find_task, update_task, parse_id, allocate_event_sequence, add_event, add_message,
  insert_reservation, insert_task,
}
use agent_craft.Settings.{Settings}
use agent_craft.Service.Quota.{validate_message, charge_creation_quota}

-- The tables of the other domains that creation reads.
pub record Catalog : Type 0 where
  -- expert_revisions: is the revision published?
  pub is_published : ℕ → Bool
  -- revision_tools of a revision
  pub revision_tools : ℕ → List ℕ
  -- tool_catalog.enabled, where there is a row
  pub tool_enabled : ℕ → Option Bool
  -- user_mcp_servers.enabled, where the owner sees a row
  pub mcp_enabled : ℕ → ℕ → Option Bool

-- The request, its ids as `uuid.UUID` reads them; the snapshot's keys, and the ids that uuid7 draws.
pub record CreateRequest : Type 0 where
  pub owner_id : Option ℕ
  pub expert_revision_id : Option ℕ
  pub provider_id : Option ℕ
  pub initial_message : String
  pub snapshot : Option (Option ℕ × String × ℕ)
  pub mcp_refs : List (Option ℕ)

pub record FreshIds : Type 0 where
  pub task : ℕ
  pub message : ℕ
  pub reservation : ℕ

abbrev pub contains : ℕ → List ℕ → Bool
contains a [] = false
contains a (x ∷ xs) = a == x || contains a xs

-- The loop that reads the ids and drops repetitions, keeping the order.
unfoldable pub distinct_ids : List ℕ → List (Option ℕ) → Tx (List ℕ)
distinct_ids ids [] = pure ids
distinct_ids ids (raw ∷ rest) = do
  sid ← parse_id raw
  distinct_ids (if contains sid ids then ids else ids ++ sid ∷ []) rest

-- The loop over the rows: an absent server is 404, a disabled one 400.
unfoldable pub freeze_servers : (ℕ → Option Bool) → List ℕ → Tx (List ℕ)
freeze_servers enabled [] = pure []
freeze_servers enabled (sid ∷ rest) = do
  on ← require_some (enabled sid) (app_error not_found 404)
  require on Exn.validation_error
  frozen ← freeze_servers enabled rest
  pure (sid ∷ frozen)

-- snapshot_refs_for_task
unfoldable pub snapshot_refs_for_task : (ℕ → Option Bool) → List (Option ℕ) → Tx (List ℕ)
snapshot_refs_for_task enabled [] = pure []
snapshot_refs_for_task enabled (r ∷ refs) = do
  require (leb (length (r ∷ refs)) 3) Exn.validation_error
  ids ← distinct_ids [] (r ∷ refs)
  freeze_servers enabled ids

abbrev pub is_true : Option Bool → Bool
is_true none = false
is_true (some b) = b

-- _assert_revision_tools_enabled
unfoldable pub assert_tools_enabled : (ℕ → Option Bool) → List ℕ → Tx (Unit {0})
assert_tools_enabled enabled [] = pure tt
assert_tools_enabled enabled (tool ∷ rest) = do
  require (is_true (enabled tool)) (app_error tool_revoked 409)
  assert_tools_enabled enabled rest

abbrev pub new_task : FreshIds → ℕ → ℕ → ℕ → Option ℕ × String × ℕ → List ℕ → (now : ℕ) → Task
new_task ids owner revision provider (catalog, model, key_version) servers now = record {
  id = ids.task;
  owner_id = owner;
  expert_revision_id = revision;
  provider_id = provider;
  provider_catalog_id = catalog;
  provider_model_id = model;
  provider_key_version = key_version;
  mcp_servers = servers;
  initial_message_id = none;
  status = TaskStatus.uploading;
  input_manifest_sha256 = none;
  input_committed_at = none;
  event_sequence = 0;
  abort_reason = none;
  pending_terminal = none;
  created_at = now;
}

-- The gates of create_task, in order; `day` is CURRENT_DATE.
unfoldable pub create_gates : Settings → Catalog → CreateRequest → ℕ → ℕ → Tx (List ℕ)
create_gates settings catalog request revision day = do
  owner ← parse_id request.owner_id
  validate_message settings request.initial_message
  require (catalog.is_published revision) (app_error revision_not_published 400)
  servers ← snapshot_refs_for_task (catalog.mcp_enabled owner) request.mcp_refs
  charge_creation_quota owner day
  assert_tools_enabled catalog.tool_enabled (catalog.revision_tools revision)
  pure servers

-- The rows that create_task inserts once the gates are passed.
unfoldable pub create_rows : FreshIds → Task → String → Tx (Option Task × ℕ × ℕ)
create_rows ids task content = do
  let owner = task.owner_id
  insert_task task
  seq ← allocate_event_sequence owner task.id 1
  add_message (record {
    id = ids.message;
    task_id = task.id;
    owner_id = owner;
    event_sequence = seq;
    author = Author.user;
    content = content;
  })
  add_event owner task.id seq (message_saved ids.message seq Author.user) (some ids.message) none
  update_task owner task.id (λ t. true) (λ t. record t { initial_message_id = some ids.message })
  insert_reservation (record {
    id = ids.reservation;
    task_id = task.id;
    user_id = owner;
    kind = Kind.active;
    bytes = 0;
    state = ReservationState.held;
  })
  db ← get
  pure (find_task owner task.id db, ids.message, seq)

-- create_task
unfoldable pub create_task :
    Settings → Catalog → FreshIds → CreateRequest → (day now : ℕ) → Tx (Option Task × ℕ × ℕ)
create_task settings catalog ids request day now = do
  revision ← parse_id request.expert_revision_id
  provider ← parse_id request.provider_id
  owner ← parse_id request.owner_id
  snapshot ← require_some request.snapshot Exn.validation_error
  servers ← create_gates settings catalog request revision day
  create_rows ids (new_task ids owner revision provider snapshot servers now)
      request.initial_message
