-- ===== src/Examples.antt =====
-- The theorems applied at concrete inputs.
use agent_craft.Service.Bounds.{ChargeError, WithinStorage, charge_storage-WithinStorage}
use agent_craft.Service.Commit.{charge_storage, uploading_gate}
use agent_craft.Dispatcher.Bounds.{ClaimError, WithinRunning, take_running_account-WithinRunning}
use agent_craft.Dispatcher.Claim.{take_running_account}
use agent_craft.Prelude.{map, if◌then◌else◌, ◌==◌, inl, inr}
use agent_craft.Release.Frame.{Framed, release_frames}
use agent_craft.Executor.Erasure.{Erased, hook_erases}
use agent_craft.Executor.Terminate.{terminate_tasks_hook}
use agent_craft.Provider.Charged.{Charged}
use agent_craft.Service.Gates.{
  has_unfinished, commit_error, commit_refused, send_error, send_refused,
}
use agent_craft.Streams.{Subscription, Registry, publish_frames}
use agent_craft.Streams.Order.{received, publish_frames_lem}
use agent_craft.Frames.{Frame}
use agent_craft.Prelude.{ℕ, ◌≡◌, refl, not, Bool, true, false, none, some, List, [], ◌∷◌, arith}
use agent_craft.Model.Words.{TaskStatus, Kind, ReservationState, SlotState, Author, is_status}
use agent_craft.Model.Rows.{Db, Task, Reservation, UserQuotaUsage, PlatformSlot, TaskFile}
use agent_craft.Model.Tx.{ok, err, ◌>>=◌, require_some, get, pure, require}
use agent_craft.Settings.{default_settings}
use agent_craft.Table.{set_row, task_not_found_error, lock_task, parse_id, update_task}
use agent_craft.State.{invalid_transition}
use agent_craft.Release.{release_task_holdings}
use agent_craft.Service.Create.{Catalog, CreateRequest}
use agent_craft.Dispatcher.Sweep.{cleanup_task}
use agent_craft.Executor.Round.{
  RoundContext, persist_fact, renew_once, settle, enforce_round_deadline,
}
use agent_craft.Ledger.Invariant.{Balanced, BeforeRelease}
use agent_craft.Ledger.Releasing.{Released}
use agent_craft.Logic.{Post, NoError, AnyError}
use agent_craft.System.{Action, serve_all}
use agent_craft.System.Accounts.{serve_all-Balanced}
use agent_craft.Ledger.Restore.{release_restores}
use agent_craft.Ledger.Cleaning.{cleanup_restores}
use agent_craft.Executor.Fencing.{lost_lease}
use agent_craft.Service.Refusals.{hidden_task, refused_late}
use agent_craft.Service.Finish.{abort_task, complete_task}
use agent_craft.Service.Delete.{delete_task}
use agent_craft.Service.Commit.{commit_input}
use agent_craft.Service.Send.{send_message}
use agent_craft.State.{allowed, valid_transitions}
use agent_craft.State.Graph.{Reaches, has_ended, ended_stays, deletable}
use agent_craft.Frames.{queued_frame}
use agent_craft.Streams.Delivery.{
  Call, register_call, unsubscribe_call, publish_call, calls, AllSound, calls-Sound,
}
use agent_craft.Examples.Data.{
  one_slot, empty_db, empty_db-Balanced, catalog, request, ctx, script, task_7, held_row, db_with,
  flipped_db, flipped_db-BeforeRelease, closed_db, closed_db-Balanced, aborted_to_deleted,
  stream_calls, subscriber, streams, frames, plain_text, upload_items, no_usage, after_upload,
}
use agent_craft.Files.{upload_files, lock_uploading_task, add_files, live_inputs}
use agent_craft.Files.Limits.{WithinLimits, upload_files-WithinLimits}
mod Data
mod AccountData
mod Accounts
mod Reviews

serve_all-Balanced_example : Balanced (serve_all default_settings script empty_db)
serve_all-Balanced_example = serve_all-Balanced default_settings script empty_db empty_db-Balanced

release_restores_example :
    Post NoError (Released flipped_db) (release_task_holdings 1 (some 7) (some 1) flipped_db)
release_restores_example = release_restores flipped_db 7 1 flipped_db-BeforeRelease

cleanup_restores_example : Post NoError (λ (_ : Bool). Balanced) (cleanup_task 1 7 closed_db)
cleanup_restores_example =
    cleanup_restores 1 7 TaskStatus.aborted closed_db refl closed_db-Balanced refl

lost_lease_example :
    (persist_fact ctx Author.tool "text" 30 empty_db ≡ ok (none, empty_db))
    × (renew_once ctx 90 200 empty_db ≡ ok (false, empty_db))
    × (settle ctx "stop" none 30 empty_db ≡ ok (tt, empty_db))
    × (enforce_round_deadline ctx empty_db ≡ ok ([], empty_db))
lost_lease_example = lost_lease ctx empty_db Author.tool "text" "stop" none 30 90 200 refl

hidden_task_example :
    (abort_task 2 (some 2) (some 7) flipped_db ≡ err task_not_found_error)
    × (complete_task 2 (some 2) (some 7) flipped_db ≡ err task_not_found_error)
    × (delete_task 2 (some 2) (some 7) flipped_db ≡ err task_not_found_error)
    × (commit_input 2 (some 2) (some 7) "text" 30 31 200 flipped_db ≡ err task_not_found_error)
    × (send_message default_settings 2 (some 2) (some 7) "text" 30 31 200 flipped_db
        ≡ err task_not_found_error)
hidden_task_example =
    hidden_task default_settings 2 7 (some 2) flipped_db "text" 30 31 200
      (inr (task_7 TaskStatus.aborted, refl, inl (λ e. cc e)))

refused_late_example :
    (abort_task 1 (some 1) (some 7) flipped_db ≡ err invalid_transition)
    × (complete_task 1 (some 1) (some 7) flipped_db ≡ err invalid_transition)
refused_late_example = refused_late 1 7 flipped_db (task_7 TaskStatus.aborted) refl refl

ended_stays_example : has_ended TaskStatus.deleted ≡ true
ended_stays_example = ended_stays TaskStatus.aborted TaskStatus.deleted refl aborted_to_deleted

deletable_example :
    (allowed TaskStatus.ready TaskStatus.deleted
      ≡ not (is_status TaskStatus.deleted TaskStatus.ready))
    × (allowed TaskStatus.deleted TaskStatus.queued ≡ false)
deletable_example = deletable TaskStatus.ready TaskStatus.queued

calls-Sound_example : AllSound (calls stream_calls (λ t. none))
calls-Sound_example = calls-Sound stream_calls (λ t. none) (λ t. tt)

release_frames_example :
    Post NoError
      (λ (_ : Unit {0}). Framed empty_db)
      (release_task_holdings 1 (some 7) (some 1) empty_db)
release_frames_example = release_frames empty_db 1 7 1

hook_erases_example :
    Post NoError (λ (_ : List ℕ). Erased 1 flipped_db) (terminate_tasks_hook true 1 flipped_db)
hook_erases_example = hook_erases 1 flipped_db

commit_refused_example :
    commit_input 1 (some 1) (some 7) "digest" 20 21 110 flipped_db
    ≡ err (commit_error (task_7 TaskStatus.aborted))
commit_refused_example =
    commit_refused 1 7 "digest" 20 21 110 flipped_db (task_7 TaskStatus.aborted) refl refl

send_refused_example :
    send_message default_settings 1 (some 1) (some 7) "more" 24 25 130 flipped_db
    ≡ err (send_error (has_unfinished 1 7 flipped_db.rounds))
send_refused_example =
    send_refused default_settings 1 7 "more" 24 25 130 flipped_db (task_7 TaskStatus.aborted) refl
      refl

publish_frames_lem_example :
    (publish_frames 7 frames streams 7 ≡ some (map (received frames) (subscriber ∷ [])))
    × ((k : ℕ) → (7 == k) ≡ false → publish_frames 7 frames streams k ≡ streams k)
publish_frames_lem_example =
    publish_frames_lem 7 frames streams (subscriber ∷ []) refl (omega arith, tt)

charge_storage-WithinStorage_example :
    Post ChargeError (λ (_ : Unit {0}). WithinStorage 1) (charge_storage 1 7 40 100 flipped_db)
charge_storage-WithinStorage_example = charge_storage-WithinStorage 1 7 40 100 flipped_db

take_running_account-WithinRunning_example :
    Post ClaimError (λ (_ : Unit {0}). WithinRunning 1) (take_running_account 1 7 40 300 flipped_db)
take_running_account-WithinRunning_example =
    take_running_account-WithinRunning 1 7 40 300 flipped_db

upload_files-WithinLimits_example :
    Post AnyError
      (λ (_ : List TaskFile). WithinLimits 1 7)
      (upload_files plain_text 1
        (some 7)
        (some 1)
        upload_items
        true
        (db_with TaskStatus.uploading [] no_usage 0))
upload_files-WithinLimits_example =
    (upload_files-WithinLimits 1 7 plain_text (some 1) upload_items true).at
      (db_with TaskStatus.uploading [] no_usage 0) tt

-- The upload of the example goes through.
uploads : live_inputs 1 7 (after_upload (db_with TaskStatus.uploading [] no_usage 0)).files ≡ 2
unfolding upload_files lock_uploading_task lock_task parse_id uploading_gate update_task add_files
    ◌>>=◌ require_some get pure require
uploads = refl
