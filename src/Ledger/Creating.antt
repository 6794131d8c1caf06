-- ===== src/Ledger/Creating.antt =====
-- backend/v2/task_service.py: the accounts through create_task.
use agent_craft.Prelude.{
  some_eq, ℕ, ◌+◌, ◌≡◌, refl, subst, sym, ap, ◌∙◌, Bool, true, String, Option, none, some, List, [],
  ◌∷◌, ◌++◌, if◌then◌else◌, arith, ◌==◌, is_none, Bool-cases, Option-cases, inl, inr, ==→eq,
}
use agent_craft.Model.Words.{TaskStatus}
use agent_craft.Model.Rows.{Db, Task, UserQuotaUsage}
use agent_craft.Table.{insert_task, set_row}
use agent_craft.Settings.{Settings}
use agent_craft.Service.Quota.{
  ensure_quota_rows, charge_daily, write_daily, charge_creation_quota, or_insert, no_usage,
  validate_message, next_daily,
}
use agent_craft.Service.Create.{
  contains, Catalog, CreateRequest, FreshIds, distinct_ids, freeze_servers, snapshot_refs_for_task,
  assert_tools_enabled, create_gates, create_rows, create_task,
}
use agent_craft.Logic.{
  AnyError, Triple, Triple-bind, Triple-pure, Triple-get, Triple-require, Triple-require_some,
  Triple-fix, Triple-put,
}
use agent_craft.Ledger.Accounting.{usage_of}
use agent_craft.Ledger.Invariant.{Ledger, Balanced, profile, profiles}
use agent_craft.Ledger.Steps.{
  Condition, On, Keeps, add_event-Keeps, add_message-Keeps, allocate-Keeps, require-Keeps,
  same_profile,
}
use agent_craft.Ledger.Flips.{parse-Triple}
use agent_craft.Ledger.Charging.{took_last, insert_then, counted, got}
use agent_craft.Ledger.Opening.{Paying, Opening, opening, opened}

inserted_or :
    (usage : ℕ → Option UserQuotaUsage) (u : ℕ) (o : Option UserQuotaUsage)
    → usage u ≡ o
    → or_insert usage u no_usage
      ≡ elim o [ none ↦ set_row usage u (some no_usage) | some b ↦ usage ]
inserted_or usage u o e =
    ap
      (λ (x : Option UserQuotaUsage). elim x [
        | none ↦ set_row usage u (some no_usage)
        | some b ↦ usage
      ])
      e

-- A row of zeroes is what an absent row counts as.
usage_of-or_insert :
    (usage : ℕ → Option UserQuotaUsage) (u v : ℕ)
    → usage_of (or_insert usage u no_usage v) ≡ usage_of (usage v)
usage_of-or_insert usage u v = elim (Option-cases (usage u)) [
  | inr (a, e) ↦ ap (λ f. usage_of (f v)) (inserted_or usage u (some a) e)
  | inl e ↦ ap (λ f. usage_of (f v)) (inserted_or usage u none e) ∙ elim (Bool-cases (u == v)) [
    | inl q ↦ rw q (sym (ap usage_of (ap usage (sym (==→eq u v q)) ∙ e)))
    | inr q ↦ rw q refl
  ]
]

ensure-Keeps : (owner : ℕ) → Keeps Balanced (ensure_quota_rows owner)
unfolding ensure_quota_rows
ensure-Keeps owner = record {
  at = λ s h. record {
    rows = h.rows;
    accounts = record {
      active =
          λ v. ap (λ q. q.active_tasks) (usage_of-or_insert s.usage owner v) ∙ h.accounts.active v;
      running = λ v.
          ap (λ q. q.running_tasks) (usage_of-or_insert s.usage owner v) ∙ h.accounts.running v;
      bytes = λ v.
          ap (λ q. q.retained_storage_bytes) (usage_of-or_insert s.usage owner v)
          ∙ h.accounts.bytes v;
      platform = h.accounts.platform;
    };
    loose = h.loose;
    tight = h.tight;
  };
}

written-Keeps :
    (F : Condition) (owner day : ℕ) (o : Option ℕ) → Keeps (On F) (write_daily owner day o)
written-Keeps F owner day none = record { at = λ s h. h }
written-Keeps F owner day (some n) = record { at = λ s h. h }

daily-Keeps : (F : Condition) (owner day : ℕ) → Keeps (On F) (charge_daily owner day)
unfolding charge_daily
daily-Keeps F owner day = record {
  at = λ s h. (written-Keeps F owner day (next_daily (s.quotas owner) (s.daily owner day))).at s h;
}

charged_active :
    (owner : ℕ) (s : Db)
    → Balanced s
    → (q : UserQuotaUsage) → s.usage owner ≡ some q
    → On (Paying owner) (record s {
      usage = set_row s.usage owner (some (record q { active_tasks = q.active_tasks + 1 }));
    })
charged_active owner s h q e = record {
  rows = h.rows;
  accounts = record {
    active = λ v. ground (arith, h.accounts.active v, e);
    running = λ v. ground (arith, h.accounts.running v, e);
    bytes = λ v. ground (arith, h.accounts.bytes v, e);
    platform = h.accounts.platform;
  };
  loose = h.loose;
  tight = h.tight;
}

quota-Triple :
    (owner day : ℕ)
    → Triple AnyError Balanced (charge_creation_quota owner day) (λ _. On (Paying owner))
unfolding charge_creation_quota
quota-Triple owner day =
    Triple-bind (λ _. Balanced) _ _ (ensure-Keeps owner)
      λ _.
        Triple-bind (λ _. Balanced) _ _ (daily-Keeps Ledger owner day)
          λ n. Triple-require _ _ _ tt λ _. Triple-get _ λ s h.
            took_last _ _ _ _ tt (counted owner _ _ s) (On (Paying owner))
              (λ a. charged_active owner s h a.0 a.1)

module _ (F : Condition) where
  tools-Keeps :
      (enabled : ℕ → Option Bool) (tools : List ℕ)
      → Keeps (On F) (assert_tools_enabled enabled tools)
  unfolding assert_tools_enabled
  tools-Keeps enabled [] = Triple-pure _ (λ s h. h)
  tools-Keeps enabled (t ∷ ts) = Triple-require _ _ _ tt λ _. tools-Keeps enabled ts

  distinct-Keeps : (ids : List ℕ) (refs : List (Option ℕ)) → Keeps (On F) (distinct_ids ids refs)
  unfolding distinct_ids
  distinct-Keeps ids [] = Triple-pure _ (λ s h. h)
  distinct-Keeps ids (r ∷ refs) =
      parse-Triple r _ λ k _. distinct-Keeps (if contains k ids then ids else ids ++ k ∷ []) refs

  freeze-Keeps :
      (enabled : ℕ → Option Bool) (ids : List ℕ) → Keeps (On F) (freeze_servers enabled ids)
  unfolding freeze_servers
  freeze-Keeps enabled [] = Triple-pure _ (λ s h. h)
  freeze-Keeps enabled (i ∷ ids) = Triple-require_some _ _ _ tt λ on _.
      Triple-require _ _ _ tt
        λ _. Triple-bind (λ _. On F) _ _ (freeze-Keeps enabled ids) λ fs. Triple-pure _ (λ s h. h)

  snapshot-Keeps :
      (enabled : ℕ → Option Bool) (refs : List (Option ℕ))
      → Keeps (On F) (snapshot_refs_for_task enabled refs)
  unfolding snapshot_refs_for_task
  snapshot-Keeps enabled [] = Triple-pure _ (λ s h. h)
  snapshot-Keeps enabled (r ∷ refs) = Triple-require _ _ _ tt λ _.
      Triple-bind (λ _. On F) _ _ (distinct-Keeps [] (r ∷ refs)) λ ids. freeze-Keeps enabled ids

gates-Triple :
    (settings : Settings) (catalog : Catalog) (request : CreateRequest) (owner revision day : ℕ)
    → request.owner_id ≡ some owner
    → Triple AnyError Balanced
        (create_gates settings catalog request revision day)
        (λ _. On (Paying owner))
unfolding create_gates validate_message
gates-Triple settings catalog request owner revision day e = parse-Triple request.owner_id _ λ o eo.
    Triple-bind (λ _. Balanced) _ _ (Triple-require _ _ _ tt (λ _. require-Keeps Ledger _ _))
      λ _. Triple-require _ _ _ tt λ _.
        Triple-bind (λ _. Balanced) _ _
          (snapshot-Keeps Ledger (catalog.mcp_enabled o) request.mcp_refs)
          λ servers.
            Triple-bind (λ _. On (Paying owner)) _ _
              (subst
                (λ u.
                  Triple AnyError Balanced (charge_creation_quota u day) (λ _. On (Paying owner)))
                (sym (some_eq owner o (sym e ∙ eo))) (quota-Triple owner day))
              λ _.
                Triple-bind (λ _. On (Paying owner)) _ _
                  (tools-Keeps (Paying owner) catalog.tool_enabled _) λ _. Triple-pure _ (λ s h. h)

absent : (o : Option Task) → is_none o ≡ true → profile o ≡ none
absent none e = refl
absent (some t) e = cc

new_row :
    (s : Db) (task : Task)
    → task.status ≡ TaskStatus.uploading
    → (k : ℕ)
    → profile (set_row s.tasks task.id (some task) k)
      ≡ (if task.id == k then some (task.owner_id, TaskStatus.uploading) else profile (s.tasks k))
new_row s task e k = ground (arith, e)

module _ (ids : FreshIds) (task : Task) (content : String)
    (new : task.status ≡ TaskStatus.uploading) where
  inserted :
      Triple AnyError
        (On (Paying task.owner_id))
        (insert_task task)
        (λ _. On (Opening task.owner_id task.id))
  unfolding insert_task
  inserted = Triple-get _ λ s h. Triple-require _ _ _ tt λ e. Triple-put _ λ x q.
      opening task.owner_id task.id (profiles s) _ (absent _ e) (new_row s task new) s.reservations
        s.usage s.slots s.storage h

  create_rows-Triple :
      Triple AnyError (On (Paying task.owner_id)) (create_rows ids task content) (λ _. Balanced)
  unfolding create_rows
  create_rows-Triple =
      Triple-bind (λ _. On F) _ _ inserted
        λ _.
          Triple-bind (λ _. On F) _ _ (allocate-Keeps F task.owner_id task.id 1)
            λ seq.
              Triple-bind (λ _. On F) _ _ (add_message-Keeps F _)
                λ _.
                  Triple-bind (λ _. On F) _ _ (add_event-Keeps F task.owner_id task.id _ _ _ _)
                    λ _.
                      Triple-bind (λ _. On F) _ _
                        (same_profile F task.owner_id task.id _ (λ x. refl))
                        λ _. Triple-fix λ s h. insert_then _ s _ tt λ c. got _ _ (
                          Triple-pure _ λ x q.
                            subst Balanced (sym q)
                              (opened task.owner_id task.id ids.reservation _ _ _ _ _ h))
    where
      F : Condition
      F = Opening task.owner_id task.id

-- For a request of the session's owner.
pub create_task-Keeps :
    (settings : Settings) (catalog : Catalog) (ids : FreshIds) (request : CreateRequest)
    (owner day now : ℕ)
    → request.owner_id ≡ some owner
    → Keeps Balanced (create_task settings catalog ids request day now)
unfolding create_task
create_task-Keeps settings catalog ids request owner day now e =
    parse-Triple request.expert_revision_id _ λ revision _.
      parse-Triple request.provider_id _ λ provider _. parse-Triple request.owner_id _ λ o eo.
        Triple-require_some request.snapshot _ _ tt λ snapshot _.
          Triple-bind (λ _. On (Paying o)) _ _
            (gates-Triple settings catalog request o revision day eo)
            λ servers. create_rows-Triple ids _ request.initial_message refl
