-- ===== src/Ledger/Accounting.antt =====
-- backend/v2/task_release.py: _apply_release_accounting, which pays what a user owes for released rows.
use agent_craft.Prelude.{
  ℕ, ◌+◌, ◌-◌, ◌≡◌, ◌≤◌, refl, ap, subst, Bool, true, false, ◌&&◌, ◌==◌, Option, none, some, List,
  if◌then◌else◌, arith, total, leb, ltb, update_where, Bool-cases, inl, inr,
}
use agent_craft.Model.Words.{Kind}
use agent_craft.Model.Rows.{Db, UserQuotaUsage, PlatformSlot}
use agent_craft.Table.{set_row}
use agent_craft.Release.{
  update_usage, update_usage_row, update_storage, release_running, release_active, refund_storage,
  apply_release_accounting, count_kind, free_slots, leased_to, free_slot, when,
}
use agent_craft.Logic.{Post, NoError, Triple, Triple-bind, Triple-pure}
use agent_craft.Service.Quota.{no_usage}

zero_of : (n : ℕ) → ltb 0 n ≡ false → n ≡ 0
zero_of n e = ground arith

-- A user with no row has used nothing.
abbrev pub usage_of : Option UserQuotaUsage → UserQuotaUsage
usage_of none = no_usage
usage_of (some q) = q

-- The sums that the accounts are to show: active, running and bytes by user, and all bytes.
pub record Sums : Type 0 where
  pub active : ℕ → ℕ
  pub running : ℕ → ℕ
  pub bytes : ℕ → ℕ
  pub all : ℕ

-- The accounts show the sums, but that of `u` is still too high by what was released.
pub record Owes (sums : Sums) (base : Db) (slots : List PlatformSlot) (u a r b c : ℕ) (s : Db)
    : Type 0 where
  pub active :
      (v : ℕ) → (usage_of (s.usage v)).active_tasks ≡ sums.active v + (if u == v then a else 0)
  pub running :
      (v : ℕ) → (usage_of (s.usage v)).running_tasks ≡ sums.running v + (if u == v then r else 0)
  pub bytes :
      (v : ℕ)
      → (usage_of (s.usage v)).retained_storage_bytes ≡ sums.bytes v + (if u == v then b else 0)
  pub storage : s.storage.retained_storage_bytes ≡ sums.all + c
  -- nothing but the accounts and the slots has changed
  pub rest : s ≡ record base { usage = s.usage; storage = s.storage; slots = slots }

module _ (sums : Sums) (base : Db) (slots : List PlatformSlot) (u : ℕ) where
  -- Writing the user's row keeps what is shown in balance with what is owed.
  write_row :
      (a r b a' r' b' c : ℕ) (s : Db) (q q' : UserQuotaUsage)
      → s.usage u ≡ some q
      → q'.active_tasks + a ≡ q.active_tasks + a'
      → q'.running_tasks + r ≡ q.running_tasks + r'
      → q'.retained_storage_bytes + b ≡ q.retained_storage_bytes + b'
      → Owes sums base slots u a r b c s
      → Owes sums base slots u a' r' b' c (record s { usage = set_row s.usage u (some q') })
  write_row a r b a' r' b' c s q q' e ea er eb h = record {
    active = λ v. ground (arith, h.active v, h.active u);
    running = λ v. ground (arith, h.running v, h.running u);
    bytes = λ v. ground (arith, h.bytes v, h.bytes u);
    storage = h.storage;
    rest = ap (λ (x : Db). record x { usage = set_row s.usage u (some q') }) h.rest;
  }

  active_row :
      (n r b c : ℕ) (s : Db) (o : Option UserQuotaUsage)
      → s.usage u ≡ o
      → Owes sums base slots u n r b c s
      → Post NoError
          (λ _ s'. Owes sums base slots u 0 r b c s')
          (update_usage_row o
            (λ q. leb n q.active_tasks)
            (λ q. record q { active_tasks = q.active_tasks - n })
            u
            s)
  active_row n r b c s none e h = record {
    active = λ v. ground (arith, h.active v, h.active u);
    running = h.running;
    bytes = h.bytes;
    storage = h.storage;
    rest = h.rest;
  }
  active_row n r b c s (some q) e h =
      let fits : n ≤ q.active_tasks = ground (arith, h.active u) in
      let covered : leb n q.active_tasks ≡ true = ground arith in
      rw covered (
        write_row n r b 0 r b c s q (record q { active_tasks = q.active_tasks - n }) e (omega arith)
          (omega arith) (omega arith) h)

  running_row :
      (a n b c : ℕ) (s : Db) (o : Option UserQuotaUsage)
      → s.usage u ≡ o
      → Owes sums base slots u a n b c s
      → Post NoError
          (λ _ s'. Owes sums base slots u a 0 b c s')
          (update_usage_row o
            (λ q. leb n q.running_tasks)
            (λ q. record q { running_tasks = q.running_tasks - n })
            u
            s)
  running_row a n b c s none e h = record {
    active = h.active;
    running = λ v. ground (arith, h.running v, h.running u);
    bytes = h.bytes;
    storage = h.storage;
    rest = h.rest;
  }
  running_row a n b c s (some q) e h =
      let fits : n ≤ q.running_tasks = ground (arith, h.running u) in
      let covered : leb n q.running_tasks ≡ true = ground arith in
      rw covered (
        write_row a n b a 0 b c s q (record q { running_tasks = q.running_tasks - n }) e
          (omega arith) (omega arith) (omega arith) h)

  bytes_row :
      (a r n c : ℕ) (s : Db) (o : Option UserQuotaUsage)
      → s.usage u ≡ o
      → Owes sums base slots u a r n c s
      → Post NoError
          (λ _ s'. Owes sums base slots u a r 0 c s')
          (update_usage_row o
            (λ q. leb n q.retained_storage_bytes)
            (λ q. record q { retained_storage_bytes = q.retained_storage_bytes - n })
            u
            s)
  bytes_row a r n c s none e h = record {
    active = h.active;
    running = h.running;
    bytes = λ v. ground (arith, h.bytes v, h.bytes u);
    storage = h.storage;
    rest = h.rest;
  }
  bytes_row a r n c s (some q) e h =
      let fits : n ≤ q.retained_storage_bytes = ground (arith, h.bytes u) in
      let covered : leb n q.retained_storage_bytes ≡ true = ground arith in
      rw covered (
        write_row a r n a r 0 c s q
          (record q { retained_storage_bytes = q.retained_storage_bytes - n }) e (omega arith)
          (omega arith) (omega arith) h)

  storage_row :
      (a r b n : ℕ) (s : Db)
      → Owes sums base slots u a r b n s
      → Post NoError
          (λ _ s'. Owes sums base slots u a r b 0 s')
          (update_storage
            (λ p. leb n p.retained_storage_bytes)
            (λ p. record p { retained_storage_bytes = p.retained_storage_bytes - n })
            s)
  unfolding update_storage
  storage_row a r b n s h =
      let fits : n ≤ s.storage.retained_storage_bytes = omega (arith, h.storage) in
      let covered : leb n s.storage.retained_storage_bytes ≡ true = ground arith in
      rw covered (record {
        active = h.active;
        running = h.running;
        bytes = h.bytes;
        storage = omega (arith, h.storage);
        rest =
            ap
              (λ (x : Db). record x {
                storage = record x.storage {
                  retained_storage_bytes = x.storage.retained_storage_bytes - n;
                };
              })
              h.rest;
      })

  abbrev Paid : ℕ → ℕ → ℕ → ℕ → Unit {0} → Db → Type 0
  Paid a r b c _ = Owes sums base slots u a r b c

  release_active-Triple :
      (n r b c : ℕ)
      → Triple NoError (Owes sums base slots u n r b c) (release_active u n) (Paid 0 r b c)
  unfolding release_active update_usage
  release_active-Triple n r b c =
      Triple-bind (λ _. Owes sums base slots u 0 r b c) _ _
        (record { at = λ s h. active_row n r b c s (s.usage u) refl h })
        (λ _. Triple-pure tt (λ _ h. h))

  refund_storage-Triple :
      (a r n : ℕ)
      → Triple NoError (Owes sums base slots u a r n n) (refund_storage u n) (Paid a r 0 0)
  unfolding refund_storage update_usage
  refund_storage-Triple a r n =
      Triple-bind (λ _. Owes sums base slots u a r 0 n) _ _
        (record { at = λ s h. bytes_row a r n n s (s.usage u) refl h })
        λ _.
          Triple-bind (λ _. Owes sums base slots u a r 0 0) _ _
            (record { at = λ s h. storage_row a r 0 n s h }) (λ _. Triple-pure tt (λ _ h. h))

module _ (sums : Sums) (base : Db) (t u : ℕ) where
  abbrev freed : List PlatformSlot
  freed = update_where (leased_to t) free_slot base.slots

  release_running-Triple :
      (a n b c : ℕ)
      → Triple NoError
          (Owes sums base base.slots u a n b c)
          (release_running t u n)
          (λ _. Owes sums base freed u a 0 b c)
  unfolding release_running update_usage free_slots
  release_running-Triple a n b c =
      Triple-bind (λ _. Owes sums base freed u a n b c) _ _
        (record {
          at = λ s h. record {
            active = h.active;
            running = h.running;
            bytes = h.bytes;
            storage = h.storage;
            rest =
                ap (λ (x : Db). record x { slots = update_where (leased_to t) free_slot x.slots })
                  h.rest;
          };
        })
        λ _.
          Triple-bind (λ _. Owes sums base freed u a 0 b c) _ _
            (record { at = λ s h. running_row sums base freed u a n b c s (s.usage u) refl h })
            (λ _. Triple-pure tt (λ _ h. h))

  -- The slots after the release of `n` running reservations.
  abbrev pub slots_after : ℕ → List PlatformSlot
  slots_after n = if ltb 0 n then freed else base.slots

  stage_running :
      (a n b c : ℕ)
      → Triple NoError
          (Owes sums base base.slots u a n b c)
          (when (ltb 0 n) (release_running t u n))
          (λ _. Owes sums base (slots_after n) u a 0 b c)
  unfolding when
  stage_running a n b c = elim (Bool-cases (ltb 0 n)) [
    | inl e ↦ rw e (release_running-Triple a n b c)
    | inr e ↦
        rw e (
          Triple-pure tt
            (λ s h. subst (λ k. Owes sums base base.slots u a k b c s) (zero_of n e) h))
  ]

  module _ (slots : List PlatformSlot) where
    stage_active :
        (n b c : ℕ)
        → Triple NoError
            (Owes sums base slots u n 0 b c)
            (when (ltb 0 n) (release_active u n))
            (λ _. Owes sums base slots u 0 0 b c)
    unfolding when
    stage_active n b c = elim (Bool-cases (ltb 0 n)) [
      | inl e ↦ rw e (release_active-Triple sums base slots u n 0 b c)
      | inr e ↦
          rw e
            (Triple-pure tt (λ s h. subst (λ k. Owes sums base slots u k 0 b c s) (zero_of n e) h))
    ]

    stage_refund :
        (n : ℕ) (refund : Bool)
        → let b = if refund then n else 0 in
          Triple NoError
            (Owes sums base slots u 0 0 b b)
            (when (refund && ltb 0 n) (refund_storage u n))
            (λ _. Owes sums base slots u 0 0 0 0)
    unfolding when
    stage_refund n false = Triple-pure tt (λ s h. h)
    stage_refund n true = elim (Bool-cases (ltb 0 n)) [
      | inl e ↦ rw e (refund_storage-Triple sums base slots u 0 0 n)
      | inr e ↦
          rw e
            (Triple-pure tt (λ s h. subst (λ k. Owes sums base slots u 0 0 k k s) (zero_of n e) h))
    ]

  -- What is owed for the rows is paid, and nothing else is touched.
  pub accounting-Triple :
      (rows : List (Kind × ℕ)) (refund : Bool)
      → let b = if refund then total (λ (x : Kind × ℕ). x.1) rows else 0 in
        Triple NoError
          (Owes sums base base.slots u
            (count_kind Kind.active rows)
            (count_kind Kind.running rows)
            b
            b)
          (apply_release_accounting t u rows refund)
          (λ _. Owes sums base (slots_after (count_kind Kind.running rows)) u 0 0 0 0)
  unfolding apply_release_accounting
  accounting-Triple rows refund =
      Triple-bind _ _ _
        (stage_running (count_kind Kind.active rows) (count_kind Kind.running rows) _ _)
        λ _.
          Triple-bind _ _ _
            (stage_active (slots_after (count_kind Kind.running rows)) (count_kind Kind.active rows)
              _ _)
            (λ _. stage_refund (slots_after (count_kind Kind.running rows)) _ refund)
