-- ===== src/Streams.antt =====
-- backend/v2/task_streams.py: the registry of live subscribers. A queue is what it holds, and a
-- subscription carries a number for its queue's identity.
use agent_craft.Prelude.{
  ℕ, ◌≡◌, Bool, true, false, not, ◌==◌, Option, none, some, List, [], ◌∷◌, ◌++◌, if◌then◌else◌, leb,
  ltb, length, select, map, is_none,
}
use agent_craft.Frames.{Frame, frame_sequence}
pub mod Delivery
pub mod Order

-- _QUEUE_MAX
abbrev pub queue_max : ℕ
queue_max = 2000

-- _Subscription
pub record Subscription : Type 0 where
  pub queue_id : ℕ
  pub queue : List Frame
  pub after : ℕ

-- TaskStreamRegistry: the subscribers of a task, and none where the dictionary has no key.
abbrev pub Registry : Type 0
Registry = ℕ → Option (List Subscription)

abbrev pub subscribers : Option (List Subscription) → List Subscription
subscribers none = []
subscribers (some subs) = subs

abbrev pub set_subs : Registry → ℕ → Option (List Subscription) → Registry
set_subs reg t v k = if t == k then v else reg k

-- register
unfoldable pub register : ℕ → ℕ → ℕ → Registry → Registry
register task_id queue_id after reg = set_subs reg task_id (
    some
      (subscribers (reg task_id) ++ record { queue_id = queue_id; queue = []; after = after } ∷ []))

-- An empty list of subscribers is popped.
abbrev pub or_pop : List Subscription → Option (List Subscription)
or_pop [] = none
or_pop (s ∷ rest) = some (s ∷ rest)

-- unsubscribe
unfoldable pub unsubscribe : ℕ → ℕ → Registry → Registry
unsubscribe task_id queue_id reg = elim (reg task_id) [
  | none ↦ reg
  | some subs ↦ set_subs reg task_id (or_pop (select (λ s. not (s.queue_id == queue_id)) subs))
]

-- A frame with a number at or below the watermark is passed over.
abbrev pub is_old : Option ℕ → ℕ → Bool
is_old none after = false
is_old (some n) after = leb n after

-- put_nowait, which drops the frame where the queue is full
abbrev pub deliver : Frame → Subscription → Subscription
deliver frame s =
    if is_old (frame_sequence frame) s.after
    then s
    else if ltb (length s.queue) queue_max
    then record s { queue = s.queue ++ frame ∷ [] }
    else s

-- publish
unfoldable pub publish : ℕ → Frame → Registry → Registry
publish task_id frame reg = elim (reg task_id) [
  | none ↦ reg
  | some subs ↦ set_subs reg task_id (some (map (deliver frame) subs))
]

abbrev pub without_first : List Frame → List Frame
without_first [] = []
without_first (f ∷ frames) = frames

abbrev pub drop_first : ℕ → Subscription → Subscription
drop_first queue_id s =
    if s.queue_id == queue_id then record s { queue = without_first s.queue } else s

-- What `queue.get` and `queue.get_nowait` of a subscriber take from its queue: the first frame, if there is
-- one (backend/api/v2/task_sse.py).
unfoldable pub take_frame : ℕ → ℕ → Registry → Registry
take_frame task_id queue_id reg = elim (reg task_id) [
  | none ↦ reg
  | some subs ↦ set_subs reg task_id (some (map (drop_first queue_id) subs))
]

-- publish_runtime_frames, with the registry wired
unfoldable pub publish_frames : ℕ → List Frame → Registry → Registry
publish_frames task_id [] reg = reg
publish_frames task_id (f ∷ frames) reg = publish_frames task_id frames (publish task_id f reg)
