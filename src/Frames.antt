-- ===== src/Frames.antt =====
-- The live frames of backend/v2/task_streams.py. They are sent after a commit, so a transaction
-- returns the frames that its caller publishes.
use agent_craft.Prelude.{ℕ, String, Option, none, some}
use agent_craft.Model.Words.{TaskStatus, Author, AbortReason}

pub data Frame : Type 0 where
  status_frame : (sequence : ℕ) → TaskStatus → Option AbortReason → Frame
  queued_frame : (sequence : ℕ) (round_id : ℕ) → Frame
  message_frame : (message_id : ℕ) (sequence : ℕ) → Author → Frame
  done_frame : (finish_reason : String) → Frame

-- `frame.get("event_sequence")`
abbrev pub frame_sequence : Frame → Option ℕ
frame_sequence (status_frame n s r) = some n
frame_sequence (queued_frame n r) = some n
frame_sequence (message_frame m n a) = some n
frame_sequence (done_frame f) = none
