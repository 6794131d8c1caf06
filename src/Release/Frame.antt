-- ===== src/Release/Frame.antt =====
-- backend/v2/task_release.py: release_task_holdings in any state, whatever the accounts.
use agent_craft.Prelude.{
  ℕ, ◌≡◌, refl, ap, Bool, true, false, Option, none, some, List, [], ◌++◌, Bool-cases, inl, inr,
}
use agent_craft.Model.Words.{TaskStatus, Kind, is_status, is_kind, status_in}
use agent_craft.Model.Rows.{Db, Task, Reservation, UserQuotaUsage, PlatformSlot, PlatformStorage}
use agent_craft.Model.Tx.{Tx, pure, get, require_some, ◌>>=◌}
use agent_craft.Table.{find_task, parse_id}
use agent_craft.Release.{
  release_reservations, update_usage, update_usage_row, update_storage, refund_storage, free_slots,
  release_running, release_active, when, apply_release_accounting, release_by_status,
  release_task_holdings, terminal_non_deleted, any_kind,
}
use agent_craft.Logic.{Post, NoError, Triple, Triple-bind, Triple-pure, Triple-if}

-- Only the reservations, the usage, the slots and the platform's storage may differ from `s0`.
pub record Framed (s0 s : Db) : Type 0 where
  pub same : s ≡ record s0 {
    reservations = s.reservations;
    usage = s.usage;
    slots = s.slots;
    storage = s.storage;
  }

module _ (s0 : Db) where
  abbrev Calm : {A : Type 0} → Tx A → Type 0
  Calm m = Triple NoError (Framed s0) m (λ _. Framed s0)

  done : {A : Type 0} (a : A) → Calm (pure a)
  done a = Triple-pure a (λ s h. h)

  framed :
      (s : Db) (rs : List Reservation) (usage : ℕ → Option UserQuotaUsage)
      (slots : List PlatformSlot) (storage : PlatformStorage)
      → Framed s0 s
      → Framed s0 (record s { reservations = rs; usage = usage; slots = slots; storage = storage })
  framed s rs usage slots storage h = record {
    same =
        ap
          (λ (x : Db). record x {
            reservations = rs;
            usage = usage;
            slots = slots;
            storage = storage;
          })
          h.same;
  }

  release_reservations-Calm : (t : ℕ) (kinds : Kind → Bool) → Calm (release_reservations t kinds)
  unfolding release_reservations
  release_reservations-Calm t kinds = record { at = λ s h. framed s _ s.usage s.slots s.storage h }

  free_slots-Calm : (t : ℕ) → Calm (free_slots t)
  unfolding free_slots
  free_slots-Calm t = record { at = λ s h. framed s s.reservations s.usage _ s.storage h }

  row-Calm :
      (guard : UserQuotaUsage → Bool) (f : UserQuotaUsage → UserQuotaUsage) (u : ℕ) (s : Db)
      (o : Option UserQuotaUsage)
      → Framed s0 s
      → Post NoError (λ (_ : ℕ). Framed s0) (update_usage_row o guard f u s)
  row-Calm guard f u s none h = h
  row-Calm guard f u s (some q) h = elim (Bool-cases (guard q)) [
    | inl g ↦ rw g (framed s s.reservations _ s.slots s.storage h)
    | inr g ↦ rw g h
  ]

  update_usage-Calm :
      (u : ℕ) (guard : UserQuotaUsage → Bool) (f : UserQuotaUsage → UserQuotaUsage)
      → Calm (update_usage u guard f)
  unfolding update_usage
  update_usage-Calm u guard f = record { at = λ s h. row-Calm guard f u s (s.usage u) h }

  storage_at :
      (guard : PlatformStorage → Bool) (f : PlatformStorage → PlatformStorage) (s : Db)
      → Framed s0 s
      → Post NoError (λ (_ : ℕ). Framed s0) (update_storage guard f s)
  unfolding update_storage
  storage_at guard f s h = elim (Bool-cases (guard s.storage)) [
    | inl g ↦ rw g (framed s s.reservations s.usage s.slots _ h)
    | inr g ↦ rw g h
  ]

  update_storage-Calm :
      (guard : PlatformStorage → Bool) (f : PlatformStorage → PlatformStorage)
      → Calm (update_storage guard f)
  update_storage-Calm guard f = record { at = λ s h. storage_at guard f s h }

  when-Calm : (b : Bool) (m : Tx (Unit {0})) → Calm m → Calm (when b m)
  unfolding when
  when-Calm true m h = h
  when-Calm false m h = done tt

  running-Calm : (t u n : ℕ) → Calm (release_running t u n)
  unfolding release_running
  running-Calm t u n =
      Triple-bind (λ _. Framed s0) _ _ (free_slots-Calm t)
        λ _. Triple-bind (λ _. Framed s0) _ _ (update_usage-Calm u _ _) (λ _. done tt)

  active-Calm : (u n : ℕ) → Calm (release_active u n)
  unfolding release_active
  active-Calm u n = Triple-bind (λ _. Framed s0) _ _ (update_usage-Calm u _ _) (λ _. done tt)

  refund-Calm : (u n : ℕ) → Calm (refund_storage u n)
  unfolding refund_storage
  refund-Calm u n =
      Triple-bind (λ _. Framed s0) _ _ (update_usage-Calm u _ _)
        λ _. Triple-bind (λ _. Framed s0) _ _ (update_storage-Calm _ _) (λ _. done tt)

  accounting-Calm :
      (t u : ℕ) (rows : List (Kind × ℕ)) (refund : Bool)
      → Calm (apply_release_accounting t u rows refund)
  unfolding apply_release_accounting
  accounting-Calm t u rows refund =
      Triple-bind (λ _. Framed s0) _ _ (when-Calm _ _ (running-Calm t u _))
        λ _.
          Triple-bind (λ _. Framed s0) _ _ (when-Calm _ _ (active-Calm u _))
            λ _. when-Calm _ _ (refund-Calm u _)

  by_status-Calm : (t u : ℕ) (o : Option Task) → Calm (release_by_status t u o)
  unfolding release_by_status
  by_status-Calm t u none = done tt
  by_status-Calm t u (some row) = elim (Bool-cases (is_status TaskStatus.deleted row.status)) [
    | inl e ↦ rw e (
        Triple-bind (λ _. Framed s0) _ _ (release_reservations-Calm t any_kind)
          λ rows. accounting-Calm t u rows true)
    | inr e ↦ rw e (
        Triple-bind (λ _. Framed s0) _ _ (release_reservations-Calm t (is_kind Kind.running))
          λ rows.
            Triple-bind (λ _. Framed s0) _ _
              (Triple-if (status_in row.status terminal_non_deleted) _ (pure [])
                (λ _. release_reservations-Calm t (is_kind Kind.active)) (λ _. done []))
              λ more. accounting-Calm t u (rows ++ more) false)
  ]

  pub release-Calm : (u t owner : ℕ) → Calm (release_task_holdings u (some t) (some owner))
  unfolding release_task_holdings parse_id require_some ◌>>=◌ get
  release-Calm u t owner = record { at = λ s h. (by_status-Calm t owner (find_task u t s)).at s h }

-- In any state, release_task_holdings returns without an error and leaves every table but the
-- reservations, the usage, the slots and the platform's storage as it was.
pub release_frames :
    (s : Db) (u t owner : ℕ)
    → Post NoError (λ (_ : Unit {0}). Framed s) (release_task_holdings u (some t) (some owner) s)
release_frames s u t owner = (release-Calm s u t owner).at s (record { same = refl })
