-- ===== src/Examples/Data.antt =====
-- The databases, requests and scripts of the runs, with the conditions that they meet.
use agent_craft.Prelude.{if◌then◌else◌, ◌==◌, ltb}
use agent_craft.Streams.{Subscription, Registry}
use agent_craft.Frames.{Frame}
use agent_craft.Prelude.{ℕ, refl, true, none, some, List, [], ◌∷◌, arith}
use agent_craft.Model.Words.{TaskStatus, Kind, ReservationState, SlotState}
use agent_craft.Model.Rows.{Db, Task, Reservation, UserQuotaUsage, PlatformSlot}
use agent_craft.Table.{set_row}
use agent_craft.Service.Create.{Catalog, CreateRequest}
use agent_craft.Executor.Round.{RoundContext}
use agent_craft.Ledger.Invariant.{Balanced, BeforeRelease}
use agent_craft.System.{Action}
use agent_craft.State.{allowed, valid_transitions}
use agent_craft.State.Graph.{Reaches}
use agent_craft.Frames.{queued_frame}
use agent_craft.Streams.Delivery.{Call, register_call, unsubscribe_call, publish_call, take_call}
use agent_craft.Files.{upload_files, Upload}
use agent_craft.Files.Names.{Unicode}
use agent_craft.Model.Tx.{commit_or_rollback}

abbrev pub one_slot : PlatformSlot
one_slot = record { slot_no = 1; task_id = none; state = SlotState.free; leased_until = none }

abbrev pub empty_db : Db
empty_db = record {
  tasks = λ k. none;
  task_keys = [];
  files = [];
  reservations = [];
  messages = [];
  rounds = [];
  events = [];
  quotas = λ u. none;
  usage = λ u. none;
  daily = λ u d. none;
  slots = one_slot ∷ [];
  storage = record { retained_storage_bytes = 0; max_retained_storage_bytes = 1000000 };
}

pub empty_db-Balanced : Balanced empty_db
empty_db-Balanced = record {
  rows = tt;
  accounts = record { active = λ v. refl; running = λ v. refl; bytes = λ v. refl; platform = refl };
  loose = λ t. record { slot = refl; one_slot = omega arith; alive = λ e. cc };
  tight = λ t. record { idle = λ e. refl; over = λ e. refl; gone = λ e. refl };
}

abbrev pub catalog : Catalog
catalog = record {
  is_published = λ r. true;
  revision_tools = λ r. [];
  tool_enabled = λ t. none;
  mcp_enabled = λ u m. none;
}

abbrev pub request : CreateRequest
request = record {
  owner_id = some 1;
  expert_revision_id = some 2;
  provider_id = some 3;
  initial_message = "hello";
  snapshot = some (none, "model", 1);
  mcp_refs = [];
}

abbrev pub ctx : RoundContext
ctx = record {
  task_id = 7;
  owner_id = 1;
  round_id = 20;
  instance_id = 5;
  epoch = 1;
  pending_assistant = some "hi";
}

-- A task is created, committed, dispatched and settled; a second message is sent, and it is aborted
-- and deleted.
abbrev pub script : List Action
script =
    Action.create 1 catalog (record { task = 7; message = 8; reservation = 9 }) request 0 100
    ∷ Action.commit 1 (some 7) "digest" 20 21 110
    ∷ Action.dispatch 5 120
        (record { round_id = 20; task_id = 7; owner_id = 1; reservation_id = 22 } ∷ [])
    ∷ Action.settle_round ctx "stop" (some 1) 23
    ∷ Action.send 1 (some 7) "more" 24 25 130
    ∷ Action.abort 1 (some 7)
    ∷ Action.delete 1 (some 7)
    ∷ []

-- A task in a status, with one held active reservation and one of storage.
abbrev pub task_7 : TaskStatus → Task
task_7 status = record {
  id = 7;
  owner_id = 1;
  expert_revision_id = 2;
  provider_id = 3;
  provider_catalog_id = none;
  provider_model_id = "model";
  provider_key_version = 1;
  mcp_servers = [];
  initial_message_id = some 8;
  status = status;
  input_manifest_sha256 = none;
  input_committed_at = none;
  event_sequence = 1;
  abort_reason = none;
  pending_terminal = none;
  created_at = 100;
}

abbrev pub held_row : ℕ → Kind → ℕ → Reservation
held_row id kind bytes = record {
  id = id;
  task_id = 7;
  user_id = 1;
  kind = kind;
  bytes = bytes;
  state = ReservationState.held;
}

abbrev pub db_with : TaskStatus → List Reservation → UserQuotaUsage → ℕ → Db
db_with status rows usage bytes = record empty_db {
  tasks = set_row (λ k. none) 7 (some (task_7 status));
  task_keys = 7 ∷ [];
  reservations = rows;
  usage = set_row (λ u. none) 1 (some usage);
  storage = record { retained_storage_bytes = bytes; max_retained_storage_bytes = 1000000 };
}

abbrev pub flipped_db : Db
flipped_db =
    db_with TaskStatus.aborted (held_row 9 Kind.active 0 ∷ held_row 21 Kind.task_root 40 ∷ [])
      (record { active_tasks = 1; running_tasks = 0; retained_storage_bytes = 40 }) 40

abbrev pub ready_db : Db
ready_db =
    db_with TaskStatus.ready (held_row 9 Kind.active 0 ∷ held_row 21 Kind.task_root 40 ∷ [])
      (record { active_tasks = 1; running_tasks = 0; retained_storage_bytes = 40 }) 40

pub flipped_db-BeforeRelease : BeforeRelease 1 7 flipped_db
flipped_db-BeforeRelease = record {
  rows = ((refl, refl), ((refl, refl), tt));
  accounts = record {
    active = λ v. ground arith;
    running = λ v. ground arith;
    bytes = λ v. ground arith;
    platform = refl;
  };
  loose = λ t. record { slot = ground arith; one_slot = ground arith; alive = λ e. ground arith };
  tight = λ t q. record {
    idle = λ e. ground arith;
    over = λ e. ground arith;
    gone = λ e. ground arith;
  };
  owned = refl;
}

-- The same task once it has given back its active reservation.
abbrev pub closed_db : Db
closed_db =
    db_with TaskStatus.aborted (held_row 21 Kind.task_root 40 ∷ [])
      (record { active_tasks = 0; running_tasks = 0; retained_storage_bytes = 40 }) 40

pub closed_db-Balanced : Balanced closed_db
closed_db-Balanced = record {
  rows = ((refl, refl), tt);
  accounts = record {
    active = λ v. ground arith;
    running = λ v. ground arith;
    bytes = λ v. ground arith;
    platform = refl;
  };
  loose = λ t. record { slot = ground arith; one_slot = ground arith; alive = λ e. ground arith };
  tight =
      λ t. record { idle = λ e. ground arith; over = λ e. ground arith; gone = λ e. ground arith };
}

pub aborted_to_deleted : Reaches TaskStatus.aborted TaskStatus.deleted
unfolding allowed valid_transitions
aborted_to_deleted = Reaches.then Reaches.here refl

abbrev pub stream_calls : List Call
stream_calls =
    register_call 7 1 3
    ∷ publish_call 7 (queued_frame 3 20)
    ∷ publish_call 7 (queued_frame 4 20)
    ∷ take_call 7 1
    ∷ publish_call 7 (queued_frame 5 20)
    ∷ unsubscribe_call 7 2
    ∷ []

abbrev pub subscriber : Subscription
subscriber = record { queue_id = 1; queue = []; after = 3 }

abbrev pub streams : Registry
streams = λ t. if t == 7 then some (subscriber ∷ []) else none

abbrev pub frames : List Frame
frames = queued_frame 3 20 ∷ queued_frame 4 20 ∷ []

abbrev pub plain_text : Unicode
plain_text = record { is_control = λ c. ltb c 32; nfc = λ name. name }

abbrev pub upload_items : List Upload
upload_items =
    record { id = 31; file_name = "a.py"; sha256 = "d1"; size_bytes = 100 }
    ∷ record { id = 32; file_name = "b.py"; sha256 = "d2"; size_bytes = 5242880 }
    ∷ []

abbrev pub no_usage : UserQuotaUsage
no_usage = record { active_tasks = 0; running_tasks = 0; retained_storage_bytes = 0 }

abbrev pub after_upload : Db → Db
after_upload = commit_or_rollback (upload_files plain_text 1 (some 7) (some 1) upload_items true)
