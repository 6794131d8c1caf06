-- ===== src/Dispatcher/Claim.antt =====
-- backend/v2/task_dispatcher.py: _claim_round and dispatch_once.
use agent_craft.Prelude.{
  ℕ, ◌+◌, Bool, true, false, ◌&&◌, ◌==◌, Option, none, some, List, [], ◌∷◌, if◌then◌else◌, ltb,
}
use agent_craft.Model.Words.{
  TaskStatus, RoundState, Kind, ReservationState, SlotState, is_status, is_round, is_leased,
}
use agent_craft.Model.Rows.{Db, TaskRound, PlatformSlot, round_running, status_changed}
use agent_craft.Model.Tx.{
  Exn, Tx, Result, ok, err, candidate_dropped, pure, raise, get, require, ◌>>=◌, ◌>>◌,
}
use agent_craft.Table.{
  update_task, allocate_event_sequence, add_event, update_rounds, insert_reservation,
}
use agent_craft.Release.{update_usage}
use agent_craft.Service.Quota.{below_quota}
use agent_craft.Frames.{Frame, status_frame}

-- The first row of RETURNING, or the exception of a rowcount of 0.
abbrev pub first_or_drop : List TaskRound → Tx TaskRound
first_or_drop [] = raise candidate_dropped
first_or_drop (r ∷ rs) = pure r

-- _CLAIM_ROUND_SQL
unfoldable pub claim_round_row : ℕ → ℕ → (instance_id ttl now : ℕ) → Tx TaskRound
claim_round_row owner round_id instance_id ttl now = do
  rows ←
      update_rounds owner (λ r. r.id == round_id && is_round RoundState.pending r.state)
        (λ r. record r {
          state = RoundState.running;
          lease_owner = some instance_id;
          lease_epoch = r.lease_epoch + 1;
          lease_expires_at = some (now + ttl);
          attempt = r.attempt + 1;
        })
  first_or_drop rows

-- _RUN_TASK_SQL
unfoldable pub run_task : ℕ → ℕ → Tx ℕ
run_task owner task_id =
    update_task owner task_id (λ t. is_status TaskStatus.queued t.status)
      (λ t. record t { status = TaskStatus.running })

-- _RUNNING_INC_SQL
unfoldable pub charge_running : ℕ → Tx ℕ
charge_running owner = do
  db ← get
  update_usage owner (λ q. below_quota (db.quotas owner) (λ l. l.max_running_tasks) q.running_tasks)
      (λ q. record q { running_tasks = q.running_tasks + 1 })

-- _SLOT_LEASE_SQL: the free slot with the least number; `slots` is kept in that order.
abbrev pub take_slot : ℕ → ℕ → List PlatformSlot → List PlatformSlot
take_slot task_id until [] = []
take_slot task_id until (s ∷ rest) =
    let later = take_slot task_id until rest in
    if is_leased s.state
    then s ∷ later
    else record s { task_id = some task_id; state = SlotState.leased; leased_until = some until }
      ∷ rest

abbrev pub has_free_slot : List PlatformSlot → Bool
has_free_slot [] = false
has_free_slot (s ∷ rest) = if is_leased s.state then has_free_slot rest else true

unfoldable pub lease_slot : ℕ → ℕ → Tx ℕ
lease_slot task_id until db =
    if has_free_slot db.slots
    then ok (1, record db { slots = take_slot task_id until db.slots })
    else ok (0, db)

-- The running account: the reservation, the user's counter and the platform's slot.
unfoldable pub take_running_account : ℕ → ℕ → (reservation_id until : ℕ) → Tx (Unit {0})
take_running_account owner task_id reservation_id until = do
  insert_reservation (record {
    id = reservation_id;
    task_id = task_id;
    user_id = owner;
    kind = Kind.running;
    bytes = 0;
    state = ReservationState.held;
  })
  charged ← charge_running owner
  require (ltb 0 charged) candidate_dropped
  leased ← lease_slot task_id until
  require (ltb 0 leased) candidate_dropped

-- _claim_round
unfoldable pub claim_round :
    (owner task_id round_id reservation_id instance_id ttl now : ℕ) → Tx (List Frame)
claim_round owner task_id round_id reservation_id instance_id ttl now = do
  round ← claim_round_row owner round_id instance_id ttl now
  ran ← run_task owner task_id
  require (ltb 0 ran) candidate_dropped
  take_running_account owner task_id reservation_id (now + ttl)
  seq ← allocate_event_sequence owner task_id 2
  add_event owner task_id seq (status_changed TaskStatus.running none) none none
  add_event owner task_id (seq + 1) (round_running round_id round.attempt) none (some round_id)
  pure (status_frame seq TaskStatus.running none ∷ [])

-- A candidate of the scan, with the id that uuid7 draws for its reservation.
pub record Candidate : Type 0 where
  pub round_id : ℕ
  pub task_id : ℕ
  pub owner_id : ℕ
  pub reservation_id : ℕ

-- What a loop over candidates leaves: the database, the candidates done, and the exception, if one
-- ended the loop.
pub record Outcome : Type 0 where
  pub db : Db
  pub done : ℕ
  pub failure : Option Exn

-- One candidate's own transaction: _CandidateDropped drops it alone, another exception ends the loop.
abbrev pub next_outcome : {A : Type 0} → Db → Result (A × Db) → (Db → ℕ → Outcome) → ℕ → Outcome
next_outcome before (ok (a, after)) continue done = continue after (done + 1)
next_outcome before (err candidate_dropped) continue done = continue before done
next_outcome before (err e) continue done = record { db = before; done = done; failure = some e }

-- The loop of dispatch_once, over whatever the scan has returned.
unfoldable pub dispatch_loop : (instance_id ttl now : ℕ) → List Candidate → Db → ℕ → Outcome
dispatch_loop instance_id ttl now [] db done = record { db = db; done = done; failure = none }
dispatch_loop instance_id ttl now (c ∷ cs) db done =
    next_outcome db
      (claim_round c.owner_id c.task_id c.round_id c.reservation_id instance_id ttl now db)
      (dispatch_loop instance_id ttl now cs) done
