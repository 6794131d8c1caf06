-- ===== src/Reviews/Stale.antt =====
-- backend/v2/review_service.py: a revision that is decided on while a review waits for its lock.
use agent_craft.Prelude.{
  ℕ, String, ◌≡◌, sym, ap, ◌∙◌, true, false, Option, some, find, and_left, and_right, some_inj,
}
use agent_craft.Reviews.{
  approve_locked, approve_revision, reject_locked, reject_revision, is_reviewable, require_reason,
}
use agent_craft.Reviews.Rows.{
  Store, Target, Entity, Revision, Primitives, is_pending, is_revision, catalog,
}
use agent_craft.Reviews.Decisions.{After, After-bind, After-needed, After-ensure}

-- The answers of which nothing is done.
abbrev pub Never : Store → Type 0
Never s = true ≡ false

module _ (p : Primitives) (t : Target) (s : Store) (rid : ℕ) (v : Revision)
    (found : find (is_revision rid) (catalog t s).revisions ≡ some v)
    (decided : is_pending v.status ≡ false) where
  stale :
      (e : Entity) (w : Revision)
      → find (is_revision rid) (catalog t s).revisions ≡ some w
      → is_reviewable p e w ≡ true
      → true ≡ false
  stale e w fw ok =
      sym (and_left _ _ (and_right _ _ ok))
      ∙ (ap (λ (r : Revision). is_pending r.status) (some_inj (sym fw ∙ found)) ∙ decided)

  approve_stale :
      (entity_id reviewer : ℕ) (why : String) (request : Option ℕ)
      → After Never (approve_locked p t rid entity_id reviewer why request s)
  unfolding approve_locked
  approve_stale entity_id reviewer why request = After-needed Never _ _ _ λ e _.
      After-needed Never _ _ _
        λ w fw. After-ensure Never (is_reviewable p e w) _ _ λ ok. absurd (cc (stale e w fw ok))

  reject_stale :
      (entity_id reviewer : ℕ) (why : String) (request : Option ℕ)
      → After Never (reject_locked p t rid entity_id reviewer why request s)
  unfolding reject_locked
  reject_stale entity_id reviewer why request = After-needed Never _ _ _ λ e _.
      After-needed Never _ _ _
        λ w fw. After-ensure Never (is_reviewable p e w) _ _ λ ok. absurd (cc (stale e w fw ok))

-- A revision that is no longer pending when the lock of its entity is taken is neither approved nor rejected,
-- whatever the review read of it before: both answer with a refusal.
pub reviews_stale :
    (p : Primitives) (t : Target) (rid reviewer : ℕ) (reason : Option String) (request : Option ℕ)
    (meanwhile : Store → Store) (s : Store) (v : Revision)
    → find (is_revision rid) (catalog t (meanwhile s)).revisions ≡ some v
    → is_pending v.status ≡ false
    → After Never (approve_revision p t (some rid) reviewer reason request meanwhile s)
      × After Never (reject_revision p t (some rid) reviewer reason request meanwhile s)
unfolding approve_revision reject_revision
reviews_stale p t rid reviewer reason request meanwhile s v found decided = (
  After-bind Never (require_reason p reason) _ λ why _. After-needed Never (some rid) _ _ λ r er.
      After-needed Never _ _ _ λ seen _.
        approve_stale p t (meanwhile s) r v
          (ap (λ i. find (is_revision i) (catalog t (meanwhile s)).revisions) (sym (some_inj er))
            ∙ found)
          decided seen.entity_id reviewer why request,
  After-bind Never (require_reason p reason) _ λ why _. After-needed Never (some rid) _ _ λ r er.
      After-needed Never _ _ _ λ seen _.
        reject_stale p t (meanwhile s) r v
          (ap (λ i. find (is_revision i) (catalog t (meanwhile s)).revisions) (sym (some_inj er))
            ∙ found)
          decided seen.entity_id reviewer why request,
)
