-- ===== src/Executor/Erasure.antt =====
-- backend/v2/task_executor.py: what terminate_tasks_hook leaves of a user whose account is deleted.
use agent_craft.Prelude.{
  ℕ, ◌≡◌, refl, sym, subst, ◌∙◌, Bool, true, false, not, Option, none, some, List, [], ◌∷◌, arith,
  select, All, Bool-cases, inl, inr,
}
use agent_craft.Model.Rows.{Db, Task, TaskRound, TaskEvent, TaskMessage, TaskFile, Reservation}
use agent_craft.Table.{update_rounds}
use agent_craft.Release.{release_task_holdings}
use agent_craft.Release.Frame.{Framed, release_frames}
use agent_craft.Executor.Terminate.{
  cancel_user_rounds, flip_row, flip_user_tasks, release_each, owned_by, drop_row,
  delete_user_tasks, erase_user_tasks, terminate_tasks_hook,
}
use agent_craft.Logic.{
  Post, NoError, Triple, Triple-bind, Triple-pure, Triple-get, Triple-pre, Triple-post, Triple-fix,
}

-- No row of the user's tasks is left, and the other users' tasks are as they were.
pub record Erased (u : ℕ) (s s' : Db) : Type 0 where
  pub no_task : (k : ℕ) → owned_by u (s'.tasks k) ≡ false
  pub others : (k : ℕ) → owned_by u (s.tasks k) ≡ false → s'.tasks k ≡ s.tasks k
  pub reservations :
      All (λ (r : Reservation). owned_by u (s.tasks r.task_id) ≡ false) s'.reservations
  pub rounds : All (λ (r : TaskRound). owned_by u (s.tasks r.task_id) ≡ false) s'.rounds
  pub events : All (λ (e : TaskEvent). owned_by u (s.tasks e.task_id) ≡ false) s'.events
  pub messages : All (λ (m : TaskMessage). owned_by u (s.tasks m.task_id) ≡ false) s'.messages
  pub files : All (λ (f : TaskFile). owned_by u (s.tasks f.task_id) ≡ false) s'.files

-- On the way there the tasks keep their owners, and the other users' tasks are untouched.
record Midway (u : ℕ) (s x : Db) : Type 0 where
  pub owns : (k : ℕ) → owned_by u (x.tasks k) ≡ owned_by u (s.tasks k)
  pub others : (k : ℕ) → owned_by u (s.tasks k) ≡ false → x.tasks k ≡ s.tasks k

select-not :
    {A : Type 0} (p q : A → Bool)
    → ((a : A) → p a ≡ q a)
    → (xs : List A) → All (λ a. q a ≡ false) (select (λ a. not (p a)) xs)
select-not p q e [] = tt
select-not p q e (x ∷ xs) = elim (Bool-cases (p x)) [
  | inl f ↦ rw f (select-not p q e xs)
  | inr f ↦ rw f (sym (e x) ∙ f, select-not p q e xs)
]

owned-drop_row : (u : ℕ) (o : Option Task) → owned_by u (drop_row u o) ≡ false
owned-drop_row u none = refl
owned-drop_row u (some t) = ground arith

dropped_other : (u : ℕ) (o : Option Task) → owned_by u o ≡ false → drop_row u o ≡ o
dropped_other u none e = refl
dropped_other u (some t) e = ground arith

owned-flip_row : (u : ℕ) (o : Option Task) → owned_by u (flip_row u o) ≡ owned_by u o
owned-flip_row u none = refl
owned-flip_row u (some t) = ground arith

flipped_other : (u : ℕ) (o : Option Task) → owned_by u o ≡ false → flip_row u o ≡ o
flipped_other u none e = refl
flipped_other u (some t) e = ground arith

module _ (u : ℕ) (s : Db) where
  cancel-Midway : Triple NoError (Midway u s) (cancel_user_rounds u) (λ _. Midway u s)
  unfolding cancel_user_rounds update_rounds
  cancel-Midway = record { at = λ x h. record { owns = h.owns; others = h.others } }

  flip-Midway : Triple NoError (Midway u s) (flip_user_tasks u) (λ _. Midway u s)
  unfolding flip_user_tasks
  flip-Midway = record {
    at = λ x h. record {
      owns = λ k. owned-flip_row u (x.tasks k) ∙ h.owns k;
      others = λ k e. flipped_other u (x.tasks k) (h.owns k ∙ e) ∙ h.others k e;
    };
  }

  Framed-Midway : (x y : Db) → Framed x y → Midway u s x → Midway u s y
  Framed-Midway x y f h =
      subst (Midway u s) (sym f.same) (record { owns = h.owns; others = h.others })

  release-Midway :
      (t : ℕ)
      → Triple NoError (Midway u s) (release_task_holdings u (some t) (some u)) (λ _. Midway u s)
  release-Midway t = Triple-fix λ x h.
      Triple-post (λ _. Framed x)
        (record {
          at = λ y q.
              subst
                (λ z.
                  Post NoError (λ (_ : Unit {0}). Framed x)
                    (release_task_holdings u (some t) (some u) z))
                (sym q) (release_frames x u t u);
        })
        (λ a y f. Framed-Midway x y f h)

  each-Midway : (ts : List ℕ) → Triple NoError (Midway u s) (release_each u ts) (λ _. Midway u s)
  unfolding release_each
  each-Midway [] = Triple-pure _ (λ x h. h)
  each-Midway (t ∷ ts) = Triple-bind (λ _. Midway u s) _ _ (release-Midway t) (λ _. each-Midway ts)

  delete-Erased : Triple NoError (Midway u s) (delete_user_tasks u) (λ _. Erased u s)
  unfolding delete_user_tasks
  delete-Erased = record {
    at = λ x h. record {
      no_task = λ k. owned-drop_row u (x.tasks k);
      others = λ k e. dropped_other u (x.tasks k) (h.owns k ∙ e) ∙ h.others k e;
      reservations = select-not _ _ (λ (r : Reservation). h.owns r.task_id) x.reservations;
      rounds = select-not _ _ (λ (r : TaskRound). h.owns r.task_id) x.rounds;
      events = select-not _ _ (λ (e : TaskEvent). h.owns e.task_id) x.events;
      messages = select-not _ _ (λ (m : TaskMessage). h.owns m.task_id) x.messages;
      files = select-not _ _ (λ (f : TaskFile). h.owns f.task_id) x.files;
    };
  }

  hook-Erased : Triple NoError (λ x. x ≡ s) (erase_user_tasks u) (λ _. Erased u s)
  unfolding erase_user_tasks
  hook-Erased = Triple-get _ λ x e.
      Triple-pre (Midway u s)
        (λ y q.
          subst (Midway u s) (sym (q ∙ e)) (record { owns = λ k. refl; others = λ k f. refl }))
        (Triple-bind (λ _. Midway u s) _ _ cancel-Midway
          λ _.
            Triple-bind (λ _. Midway u s) _ _ flip-Midway
              λ _.
                Triple-bind (λ _. Midway u s) _ _ (each-Midway _)
                  λ _.
                    Triple-bind (λ _. Erased u s) _ _ delete-Erased λ _. Triple-pure _ (λ y h. h))

-- In any state, and with a V2 runtime, terminate_tasks_hook returns without an error; afterwards the user
-- has no task, no reservation, round, event, message or file of the user's tasks is left, and the other
-- users' tasks are as they were.
pub hook_erases :
    (u : ℕ) (s : Db) → Post NoError (λ (_ : List ℕ). Erased u s) (terminate_tasks_hook true u s)
unfolding terminate_tasks_hook
hook_erases u s = (hook-Erased u s).at s refl
