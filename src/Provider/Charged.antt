-- ===== src/Provider/Charged.antt =====
-- backend/v2/provider_service.py: the storage accounts through the statements of fail_unstarted_tasks.
use agent_craft.Prelude.{
  ℕ, ◌-◌, ap, and_false, ==→eq, ◌≡◌, refl, subst, sym, ◌∙◌, Bool, true, false, ◌||◌, ◌&&◌, ◌==◌,
  Option, none, some, List, [], ◌∷◌, update_where, All, Bool-cases, inl, inr, arith,
}
use agent_craft.Model.Words.{is_held}
use agent_craft.Model.Rows.{Db, Task, TaskRound, Reservation, UserQuotaUsage, EventBody}
use agent_craft.Model.Tx.{Tx, pure}
use agent_craft.Table.{find_task, update_task, update_found, update_rounds, add_event}
use agent_craft.Release.{
  release_reservations, update_usage, update_usage_row, any_kind, when, hit, mark_released,
}
use agent_craft.Ledger.Accounting.{usage_of}
use agent_craft.Logic.{Post, NoError, Triple, Triple-bind, Triple-pure, Triple-if}
use agent_craft.Provider.{drop_active}

-- The storage that the users and the platform are charged for is as it was.
pub record Charged (s x : Db) : Type 0 where
  pub users :
      (v : ℕ)
      → (usage_of (x.usage v)).retained_storage_bytes
        ≡ (usage_of (s.usage v)).retained_storage_bytes
  pub platform : x.storage ≡ s.storage

-- A task holds no reservation.
abbrev pub HoldsNone : ℕ → List Reservation → Type 0
HoldsNone k = All (λ r. (r.task_id == k && is_held r.state) ≡ false)

-- A release lets go of what its task holds, and takes nothing for another.
released_bare :
    (t k : ℕ) (c : Bool) (rs : List Reservation)
    → (c ≡ true → HoldsNone k rs)
    → (c || t == k) ≡ true
    → HoldsNone k (update_where (hit t any_kind) mark_released rs)
released_bare t k c [] h e = tt
released_bare t k c (r ∷ rs) h e =
    let rest = released_bare t k c rs (λ q. (h q).1) e in
    elim (Bool-cases (hit t any_kind r)) [
      | inl f ↦ rw f (and_false (r.task_id == k) false refl, rest)
      | inr f ↦ rw f (kept (λ q. (h q).0) f, rest)
    ]
  where
    kept :
        (c ≡ true → (r.task_id == k && is_held r.state) ≡ false)
        → hit t any_kind r ≡ false
        → (r.task_id == k && is_held r.state) ≡ false
    kept q f = elim (Bool-cases c) [ inl d ↦ q d | inr d ↦ spared f (==→eq t k (rw d at e)) ]
      where
        spared : hit t any_kind r ≡ false → t ≡ k → (r.task_id == k && is_held r.state) ≡ false
        spared f same = subst (λ j. (r.task_id == j && is_held r.state) ≡ false) same (ground arith)

module _ (s : Db) (k : ℕ) where
  -- Nothing has been refunded, and once `c` the task `k` holds nothing.
  pub record Un (c : Bool) (x : Db) : Type 0 where
    pub charged : Charged s x
    pub bare : c ≡ true → HoldsNone k x.reservations

  abbrev pub Keep : {A : Type 0} → Tx A → Type 0
  Keep m = (c : Bool) → Triple NoError (Un c) m (λ _. Un c)

  pub released_Un :
      (t : ℕ) (c : Bool)
      → Triple NoError (Un c) (release_reservations t any_kind) (λ _. Un (c || t == k))
  unfolding release_reservations
  released_Un t c = record {
    at = λ x h. record {
      charged = record { users = h.charged.users; platform = h.charged.platform };
      bare = λ e. released_bare t k c x.reservations h.bare e;
    };
  }

  pub drop_active-Keep : (u n : ℕ) → Keep (drop_active u n)
  unfolding drop_active update_usage
  drop_active-Keep u n c =
      Triple-bind (λ _. Un c) _ _ (record { at = λ x h. row x h (x.usage u) refl })
        λ _. Triple-pure tt (λ x h. h)
    where
      lower : UserQuotaUsage → UserQuotaUsage
      lower q = record q { active_tasks = q.active_tasks - n }

      row :
          (x : Db)
          → Un c x
          → (o : Option UserQuotaUsage) → x.usage u ≡ o
          → Post NoError (λ (_ : ℕ). Un c) (update_usage_row o (λ q. true) lower u x)
      row x h none e = h
      row x h (some q) e = record {
        charged = record {
          users = λ v. elim (Bool-cases (u == v)) [
            | inl d ↦ rw d (
                ap (λ o. (usage_of o).retained_storage_bytes) (sym e ∙ ap x.usage (==→eq u v d))
                ∙ h.charged.users v)
            | inr d ↦ rw d (h.charged.users v)
          ];
          platform = h.charged.platform;
        };
        bare = h.bare;
      }

  pub rounds-Keep :
      (owner : ℕ) (test : TaskRound → Bool) (f : TaskRound → TaskRound)
      → Keep (update_rounds owner test f)
  unfolding update_rounds
  rounds-Keep owner test f c = record {
    at = λ x h. record {
      charged = record { users = h.charged.users; platform = h.charged.platform };
      bare = h.bare;
    };
  }

  pub task-Keep :
      (owner t : ℕ) (guard : Task → Bool) (f : Task → Task) → Keep (update_task owner t guard f)
  unfolding update_task
  task-Keep owner t guard f c = record { at = λ x h. go x h (find_task owner t x) }
    where
      go :
          (x : Db)
          → Un c x
          → (o : Option Task) → Post NoError (λ (_ : ℕ). Un c) (update_found o guard f t x)
      go x h none = h
      go x h (some q) = elim (Bool-cases (guard q)) [
        | inr e ↦ rw e h
        | inl e ↦ rw e (record {
          charged = record { users = h.charged.users; platform = h.charged.platform };
          bare = h.bare;
        })
      ]

  pub event-Keep :
      (owner t n : ℕ) (body : EventBody) (m r : Option ℕ) → Keep (add_event owner t n body m r)
  unfolding add_event
  event-Keep owner t n body m r c = record {
    at = λ x h. record {
      charged = record { users = h.charged.users; platform = h.charged.platform };
      bare = h.bare;
    };
  }

  pub when-Keep : (b : Bool) (m : Tx (Unit {0})) → Keep m → Keep (when b m)
  unfolding when
  when-Keep b m h c = Triple-if b m (pure tt) (λ _. h c) (λ _. Triple-pure tt (λ x q. q))
