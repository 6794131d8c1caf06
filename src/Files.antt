-- ===== src/Files.antt =====
-- backend/v2/task_file_service.py: the files of a task's input. A content is its length and its digest; a
-- row's storage key is made of the task's id and its own, and so is the path that is read from it.
pub mod Names
pub mod Limits
use agent_craft.Prelude.{
  ℕ, String, ◌+◌, Bool, true, false, not, ◌&&◌, ◌||◌, ◌==◌, Option, none, some, List, [], ◌∷◌, ◌++◌,
  leb, ltb, length, total, map, select, find, any, is_none, update_where, count,
}
use agent_craft.Model.Words.{
  TaskStatus, FileState, Direction, is_status, is_file_state, is_direction, file_not_found,
  file_limit_exceeded,
}
use agent_craft.Model.Rows.{Task, TaskFile, Db}
use agent_craft.Model.Tx.{
  Exn, Tx, ok, app_error, validation_error, os_error, multiple_results_found, pure, raise, get, put,
  require, require_some, ◌>>=◌, ◌>>◌,
}
use agent_craft.Table.{
  update_task, find_task, hide_deleted, parse_id, lock_task, task_not_found_error,
}
use agent_craft.Service.Commit.{uploading_gate, input_committed_error}
use Names.{Unicode, is_valid_name, same_name, same_text, codes, repeats}

-- _MAX_FILES_PER_TASK, _MAX_SINGLE_FILE_BYTES and _MAX_TASK_INPUT_BYTES
abbrev pub max_files : ℕ
max_files = 10

abbrev pub max_single_bytes : ℕ
max_single_bytes = 5242880

abbrev pub max_total_bytes : ℕ
max_total_bytes = 10485760

-- An item of an upload, with the id that is drawn for its row.
pub record Upload : Type 0 where
  pub id : ℕ
  pub file_name : String
  pub sha256 : String
  pub size_bytes : ℕ

abbrev pub file_not_found_error : Exn
file_not_found_error = app_error file_not_found 404

abbrev pub limit_error : Exn
limit_error = app_error file_limit_exceeded 400

-- _lock_uploading_task
unfoldable pub lock_uploading_task : ℕ → Option ℕ → Tx Task
lock_uploading_task owner raw = do
  task ← lock_task owner raw
  uploading_gate task
  n ←
      update_task owner task.id
        (λ t. is_status TaskStatus.uploading t.status && is_none t.input_committed_at) (λ t. t)
  require (ltb 0 n) input_committed_error
  pure task

-- The rows of a task that are not tombstones, as a session of its owner sees them.
abbrev pub is_live : ℕ → ℕ → TaskFile → Bool
is_live owner task_id f =
    f.owner_id == owner && (f.task_id == task_id && not (is_file_state FileState.deleted f.state))

abbrev pub is_live_input : ℕ → ℕ → TaskFile → Bool
is_live_input owner task_id f = is_live owner task_id f && is_direction Direction.input f.direction

abbrev pub live_inputs : ℕ → ℕ → List TaskFile → ℕ
live_inputs owner task_id files = count (is_live_input owner task_id) files

abbrev pub live_bytes : ℕ → ℕ → List TaskFile → ℕ
live_bytes owner task_id files =
    total (λ (f : TaskFile). f.size_bytes) (select (is_live owner task_id) files)

abbrev pub upload_bytes : List Upload → ℕ
upload_bytes uploads = total (λ (u : Upload). u.size_bytes) uploads

-- _assert_upload_shape
abbrev pub shape_ok : Unicode → List Upload → Bool
shape_ok unicode uploads =
    ltb 0 (length uploads)
    && not (any (λ (u : Upload). not (is_valid_name unicode u.file_name)) uploads)

-- _assert_name_uniqueness
abbrev pub names_ok : Unicode → ℕ → ℕ → List TaskFile → List Upload → Bool
names_ok unicode owner task_id files uploads =
    not (repeats unicode (map (λ (u : Upload). u.file_name) uploads))
    && not (
        any
          (λ (f : TaskFile).
            is_live_input owner task_id f
            && any (λ (u : Upload). same_name unicode f.file_name u.file_name) uploads)
          files)

-- _assert_upload_limits
abbrev pub limits_ok : ℕ → ℕ → List TaskFile → List Upload → Bool
limits_ok owner task_id files uploads =
    leb (live_inputs owner task_id files + length uploads) max_files
    && (not (any (λ (u : Upload). ltb max_single_bytes u.size_bytes) uploads)
        && leb (live_bytes owner task_id files + upload_bytes uploads) max_total_bytes)

abbrev pub new_file : Task → Upload → TaskFile
new_file task u = record {
  id = u.id;
  task_id = task.id;
  owner_id = task.owner_id;
  direction = Direction.input;
  file_name = u.file_name;
  sha256 = u.sha256;
  size_bytes = u.size_bytes;
  state = FileState.staged;
}

unfoldable pub add_files : Task → List Upload → Tx (List TaskFile)
add_files task uploads db =
    ok (map (new_file task) uploads, record db { files = db.files ++ map (new_file task) uploads })

-- upload_files: `written` says whether the staging and the renames have succeeded; a failure removes what
-- was written, and is raised before any row is.
unfoldable pub upload_files :
    Unicode → ℕ → Option ℕ → Option ℕ → List Upload → Bool → Tx (List TaskFile)
upload_files unicode owner raw raw_owner uploads written = do
  task ← lock_uploading_task owner raw
  parse_id raw_owner
  require (shape_ok unicode uploads) validation_error
  db ← get
  require (names_ok unicode owner task.id db.files uploads) validation_error
  require (limits_ok owner task.id db.files uploads) limit_error
  require written os_error
  add_files task uploads

abbrev pub is_staged_input : ℕ → ℕ → ℕ → TaskFile → Bool
is_staged_input owner task_id file_id f =
    f.id == file_id
    && (f.owner_id == owner
        && (f.task_id == task_id
            && (is_direction Direction.input f.direction
                && is_file_state FileState.staged f.state)))

abbrev pub tombstone : TaskFile → TaskFile
tombstone f = record f { state = FileState.deleted }

unfoldable pub bury_file : ℕ → ℕ → Tx ℕ
bury_file owner file_id db =
    let p = λ (f : TaskFile).
      f.owner_id == owner && (f.id == file_id && is_file_state FileState.staged f.state) in
    ok (count p db.files, record db { files = update_where p tombstone db.files })

-- delete_file: `removed` says whether the file could be removed from the disk.
unfoldable pub delete_file : ℕ → Option ℕ → Option ℕ → Option ℕ → Bool → Tx ℕ
delete_file owner raw raw_owner raw_file removed = do
  task ← lock_uploading_task owner raw
  parse_id raw_owner
  file_id ← parse_id raw_file
  db ← get
  row ← require_some (find (is_staged_input owner task.id file_id) db.files) file_not_found_error
  n ← bury_file owner row.id
  require (ltb 0 n) file_not_found_error
  require removed os_error
  pure row.id

-- list_files, in the order of the table
unfoldable pub list_files : ℕ → Option ℕ → Option ℕ → Direction → Tx (List TaskFile)
list_files owner raw raw_owner direction = do
  task_id ← parse_id raw
  parse_id raw_owner
  db ← get
  task ← require_some (hide_deleted (find_task owner task_id db)) task_not_found_error
  pure (select (λ f. is_live owner task_id f && is_direction direction f.direction) db.files)

abbrev is_named : ℕ → ℕ → ℕ → String → TaskFile → Bool
is_named owner uid task_id file_name f =
    f.owner_id == uid && (is_live_input owner task_id f && same_text f.file_name file_name)

-- read_input_bytes: the row whose bytes are read, if `readable` says that they can be.
unfoldable pub read_input : ℕ → Option ℕ → Option ℕ → String → (TaskFile → Bool) → Tx TaskFile
read_input owner raw raw_owner file_name readable = do
  task_id ← parse_id raw
  uid ← parse_id raw_owner
  require (ltb 0 (length (codes file_name))) file_not_found_error
  db ← get
  require (leb (count (is_named owner uid task_id file_name) db.files) 1) multiple_results_found
  row ← require_some (find (is_named owner uid task_id file_name) db.files) file_not_found_error
  require (readable row) file_not_found_error
  pure row

-- list_input_meta
unfoldable pub list_input_meta : ℕ → Option ℕ → Tx (List TaskFile)
list_input_meta owner raw = do
  task_id ← parse_id raw
  db ← get
  pure (select (is_live_input owner task_id) db.files)
