-- ===== src/Ledger/Taken.antt =====
-- backend/v2/task_release.py: what the releases of release_task_holdings take from the reservations.
use agent_craft.Prelude.{
  ℕ, ◌+◌, ◌≡◌, refl, ◌∙◌, Bool, true, false, ◌&&◌, ◌==◌, some, List, ◌++◌, if◌then◌else◌, arith,
  total, total-append, All,
}
use agent_craft.Model.Words.{Kind, is_kind}
use agent_craft.Model.Rows.{Reservation}
use agent_craft.Release.{released_rows, count_kind, any_kind}
use agent_craft.Ledger.Sums.{
  sum_held, of_user, of_task, bytes_of, all_bytes, after_release, sum_held-after_release,
  count_kind-released_rows, sum_hit-all_bytes, sum_hit-of_user, sum_hit-bytes_of,
}
use agent_craft.Ledger.Invariant.{Profile, owner_of, RowOk, of_task_any}
use agent_craft.Ledger.Taking.{
  rows_owned, RowOk-after_release, no_bytes, nothing_left, of_task_any-after_release,
  of_task-after_release,
}

-- `rows`, worth `b` bytes, have been taken from `rs`: the running one of `t`, its active one if
-- `act`, and all of them if `all`.
pub record Taken (tasks : ℕ → Profile) (t u : ℕ) (act all : Bool) (rows : List (Kind × ℕ)) (b : ℕ)
    (rs rs' : List Reservation) : Type 0 where
  pub rows_ok : All (RowOk tasks) rs'
  pub active :
      (v : ℕ)
      → sum_held (of_user v Kind.active) rs' + (if u == v then count_kind Kind.active rows else 0)
        ≡ sum_held (of_user v Kind.active) rs
  pub running :
      (v : ℕ)
      → sum_held (of_user v Kind.running) rs' + (if u == v then count_kind Kind.running rows else 0)
        ≡ sum_held (of_user v Kind.running) rs
  pub bytes :
      (v : ℕ) → sum_held (bytes_of v) rs' + (if u == v then b else 0) ≡ sum_held (bytes_of v) rs
  pub platform : sum_held all_bytes rs' + b ≡ sum_held all_bytes rs
  pub run_task :
      (t' : ℕ)
      → sum_held (of_task t' Kind.running) rs'
        ≡ (if t == t' then 0 else sum_held (of_task t' Kind.running) rs)
  pub act_task :
      (t' : ℕ)
      → sum_held (of_task t' Kind.active) rs'
        ≡ (if t == t' && act then 0 else sum_held (of_task t' Kind.active) rs)
  pub any_task :
      (t' : ℕ) → (t == t') ≡ false → sum_held (of_task_any t') rs' ≡ sum_held (of_task_any t') rs
  pub gone : all ≡ true → sum_held (of_task_any t) rs' ≡ 0
  pub count : count_kind Kind.running rows ≡ sum_held (of_task t Kind.running) rs

module _ (tasks : ℕ → Profile) (t u : ℕ) (owned : owner_of (tasks t) ≡ some u)
    (rs : List Reservation) (ok_rows : All (RowOk tasks) rs) where
  module _ (kinds : Kind → Bool) where
    abbrev pub out : List (Kind × ℕ)
    out = released_rows t kinds rs

    abbrev pub left : List Reservation
    left = after_release t kinds rs

    pub took_user :
        (k : Kind) (v : ℕ)
        → sum_held (of_user v k) left + (if u == v then count_kind k out else 0)
          ≡ sum_held (of_user v k) rs
    took_user k v = ground (
      arith,
      sum_held-after_release t kinds (of_user v k) (λ r. refl) rs,
      sum_hit-of_user t kinds u v k rs (rows_owned tasks t u owned rs ok_rows),
    )

    pub took_bytes :
        (v : ℕ)
        → sum_held (bytes_of v) left + (if u == v then total (λ x. x.1) out else 0)
          ≡ sum_held (bytes_of v) rs
    took_bytes v = ground (
      arith,
      sum_held-after_release t kinds (bytes_of v) (λ r. refl) rs,
      sum_hit-bytes_of t kinds u v rs (rows_owned tasks t u owned rs ok_rows),
    )

    pub took_platform : sum_held all_bytes left + total (λ x. x.1) out ≡ sum_held all_bytes rs
    took_platform = ground (
      arith,
      sum_held-after_release t kinds all_bytes (λ r. refl) rs,
      sum_hit-all_bytes t kinds rs,
    )

  -- The release of all kinds.
  pub Taken-all :
      Taken tasks t u true true (out any_kind) (total (λ x. x.1) (out any_kind)) rs (left any_kind)
  Taken-all = record {
    rows_ok = RowOk-after_release tasks t any_kind rs ok_rows;
    active = took_user any_kind Kind.active;
    running = took_user any_kind Kind.running;
    bytes = took_bytes any_kind;
    platform = took_platform any_kind;
    run_task = λ t'. ground (arith, of_task-after_release t t' Kind.running any_kind rs);
    act_task = λ t'. ground (arith, of_task-after_release t t' Kind.active any_kind rs);
    any_task = λ t' e. of_task_any-after_release t t' any_kind rs e;
    gone = λ _. nothing_left t rs;
    count = ground (arith, count_kind-released_rows t any_kind Kind.running rs);
  }

  -- The release of the running kind.
  pub Taken-running :
      Taken tasks t u false false (out (is_kind Kind.running)) 0 rs (left (is_kind Kind.running))
  Taken-running = record {
    rows_ok = RowOk-after_release tasks t (is_kind Kind.running) rs ok_rows;
    active = took_user (is_kind Kind.running) Kind.active;
    running = took_user (is_kind Kind.running) Kind.running;
    bytes = λ v. rw no_bytes' at (took_bytes (is_kind Kind.running) v);
    platform = rw no_bytes' at (took_platform (is_kind Kind.running));
    run_task =
        λ t'. ground (arith, of_task-after_release t t' Kind.running (is_kind Kind.running) rs);
    act_task =
        λ t'. ground (arith, of_task-after_release t t' Kind.active (is_kind Kind.running) rs);
    any_task = λ t' e. of_task_any-after_release t t' (is_kind Kind.running) rs e;
    gone = λ e. cc;
    count = ground (arith, count_kind-released_rows t (is_kind Kind.running) Kind.running rs);
  }
    where
      no_bytes' : total (λ x. x.1) (out (is_kind Kind.running)) ≡ 0
      no_bytes' = no_bytes tasks t Kind.running rs refl ok_rows

module _ (tasks : ℕ → Profile) (t u : ℕ) (owned : owner_of (tasks t) ≡ some u)
    (rs : List Reservation) (ok_rows : All (RowOk tasks) rs) where
  abbrev pub rest : List Reservation
  rest = after_release t (is_kind Kind.running) rs

  abbrev pub both : List (Kind × ℕ)
  both = released_rows t (is_kind Kind.running) rs ++ released_rows t (is_kind Kind.active) rest

  ok_rest : All (RowOk tasks) rest
  ok_rest = RowOk-after_release tasks t (is_kind Kind.running) rs ok_rows

  count_both :
      (k : Kind)
      → count_kind k both
        ≡ count_kind k (released_rows t (is_kind Kind.running) rs)
          + count_kind k (released_rows t (is_kind Kind.active) rest)
  count_both k =
      total-append (λ (r : Kind × ℕ). if is_kind k r.0 then 1 else 0)
        (released_rows t (is_kind Kind.running) rs) (released_rows t (is_kind Kind.active) rest)

  took_both :
      (k : Kind) (v : ℕ)
      → sum_held (of_user v k) (after_release t (is_kind Kind.active) rest)
          + (if u == v then count_kind k both else 0)
        ≡ sum_held (of_user v k) rs
  took_both k v = ground (
    arith,
    count_both k,
    took_user tasks t u owned rs ok_rows (is_kind Kind.running) k v,
    took_user tasks t u owned rest ok_rest (is_kind Kind.active) k v,
  )

  no_bytes_running : total (λ x. x.1) (released_rows t (is_kind Kind.running) rs) ≡ 0
  no_bytes_running = no_bytes tasks t Kind.running rs refl ok_rows

  no_bytes_active : total (λ x. x.1) (released_rows t (is_kind Kind.active) rest) ≡ 0
  no_bytes_active = no_bytes tasks t Kind.active rest refl ok_rest

  -- The release of the running kind and then of the active one.
  pub Taken-both : Taken tasks t u true false both 0 rs (after_release t (is_kind Kind.active) rest)
  Taken-both = record {
    rows_ok = RowOk-after_release tasks t (is_kind Kind.active) rest ok_rest;
    active = took_both Kind.active;
    running = took_both Kind.running;
    bytes = λ v.
        (rw no_bytes_active at (took_bytes tasks t u owned rest ok_rest (is_kind Kind.active) v))
        ∙ step v;
    platform = ground (
      arith,
      no_bytes_active,
      no_bytes_running,
      took_platform tasks t u owned rest ok_rest (is_kind Kind.active),
      took_platform tasks t u owned rs ok_rows (is_kind Kind.running),
    );
    run_task = λ t'. ground (
      arith,
      of_task-after_release t t' Kind.running (is_kind Kind.active) rest,
      of_task-after_release t t' Kind.running (is_kind Kind.running) rs,
    );
    act_task = λ t'. ground (
      arith,
      of_task-after_release t t' Kind.active (is_kind Kind.active) rest,
      of_task-after_release t t' Kind.active (is_kind Kind.running) rs,
    );
    any_task = λ t' e.
        of_task_any-after_release t t' (is_kind Kind.active) rest e
        ∙ of_task_any-after_release t t' (is_kind Kind.running) rs e;
    gone = λ e. cc;
    count = ground (
      arith,
      count_both Kind.running,
      count_kind-released_rows t (is_kind Kind.running) Kind.running rs,
      count_kind-released_rows t (is_kind Kind.active) Kind.running rest,
    );
  }
    where
      step : (v : ℕ) → sum_held (bytes_of v) rest ≡ sum_held (bytes_of v) rs
      step v =
          ground (
            arith,
            no_bytes_running,
            took_bytes tasks t u owned rs ok_rows (is_kind Kind.running) v,
          )
