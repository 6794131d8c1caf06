-- ===== src/Reviews/Decisions.antt =====
-- backend/v2/review_service.py: what the pointers to published revisions point to after a review.
use agent_craft.Prelude.{
  ℕ, String, ◌≡◌, refl, ap, sym, subst, ◌∙◌, Bool, true, false, Option, none, some, find, and_left,
  and_right, ==→eq, find-holds, ltb, count,
}
use agent_craft.Reviews.{
  is_reviewable, archive_previous, is_current, approve_locked, approve_revision, reject_locked,
  reject_revision, require_reason, tools_enabled, skill_refs_published,
}
use agent_craft.Reviews.Rows.{
  Answer, done, refused, ◌>>=◌, ◌>>◌, needed, ensure, Refusal, Target, expert_revision,
  skill_revision, Store, Catalog, Entity, Revision, Primitives, rejected, is_entity, is_revision,
  catalog, with_catalog,
}
use agent_craft.Reviews.Pointers.{Sound, restated-Sound, approved-Sound}

-- What holds of the answers that are no refusals.
unfoldable pub After : {A : Type 0} → (A → Type 0) → Answer A → Type 0
After Q (done a) = Q a
After Q (refused r) = Unit

module _ {A B : Type 0} (Q : B → Type 0) where
  pub After-bind :
      (m : Answer A) (k : A → Answer B) → ((a : A) → m ≡ done a → After Q (k a)) → After Q (m >>= k)
  unfolding After ◌>>=◌
  After-bind (done a) k h = h a refl
  After-bind (refused r) k h = tt

  pub After-needed :
      (o : Option A) (r : Refusal) (k : A → Answer B)
      → ((a : A) → o ≡ some a → After Q (k a))
      → After Q (needed o r >>= k)
  unfolding After ◌>>=◌ needed
  After-needed none r k h = tt
  After-needed (some a) r k h = h a refl

pub After-ensure :
    {B : Type 0} (Q : B → Type 0) (b : Bool) (r : Refusal) (k : Answer B)
    → (b ≡ true → After Q k)
    → After Q (ensure b r >> k)
unfolding After ◌>>=◌ ◌>>◌ ensure
After-ensure Q true r k h = h refl
After-ensure Q false r k h = tt

unfoldable pub AllSound : Primitives → Store → Type 0
AllSound p s = Sound p s.experts × Sound p s.skills

module _ (p : Primitives) (s : Store) (sound : AllSound p s) where
  part : (t : Target) → Sound p (catalog t s)
  unfolding AllSound
  part expert_revision = sound.0
  part skill_revision = sound.1

  replaced-AllSound :
      (t : Target) (c : Catalog) (r : Store)
      → Sound p c
      → r.experts ≡ (with_catalog t c s).experts
      → r.skills ≡ (with_catalog t c s).skills
      → AllSound p r
  unfolding AllSound
  replaced-AllSound expert_revision c r h d e =
      (subst (Sound p) (sym d) h, subst (Sound p) (sym e) sound.1)
  replaced-AllSound skill_revision c r h d e =
      (subst (Sound p) (sym d) sound.0, subst (Sound p) (sym e) h)

  module _ (t : Target) (rid entity_id reviewer : ℕ) (why : String) (request : Option ℕ)
      (own : (v : Revision)
        → find (is_revision rid) (catalog t s).revisions ≡ some v
        → v.entity_id ≡ entity_id) where
    found_by_id :
        (v : Revision)
        → find (is_revision rid) (catalog t s).revisions ≡ some v
        → find (is_revision v.id) (catalog t s).revisions ≡ some v
    found_by_id v fv =
        ap (λ i. find (is_revision i) (catalog t s).revisions)
          (==→eq v.id rid (find-holds (is_revision rid) (catalog t s).revisions v fv))
        ∙ fv

    entity_of :
        (e : Entity) → find (is_entity entity_id) (catalog t s).entities ≡ some e → e.id ≡ entity_id
    entity_of e fe =
        ==→eq e.id entity_id (find-holds (is_entity entity_id) (catalog t s).entities e fe)

    entity_by_id :
        (e : Entity)
        → find (is_entity entity_id) (catalog t s).entities ≡ some e
        → find (is_entity e.id) (catalog t s).entities ≡ some e
    entity_by_id e fe = ap (λ i. find (is_entity i) (catalog t s).entities) (entity_of e fe) ∙ fe

    reject_locked-AllSound :
        After (AllSound p) (reject_locked p t rid entity_id reviewer why request s)
    unfolding reject_locked After
    reject_locked-AllSound = After-needed (AllSound p) _ _ _ λ e fe.
        After-needed (AllSound p) _ _ _ λ v fv.
          After-ensure (AllSound p) (is_reviewable p e v) _ _ λ ok.
            replaced-AllSound t _ _
              (restated-Sound p (catalog t s) (part t) v rejected (found_by_id v fv)
                (and_left _ _ (and_right _ _ ok)))
              refl refl

    approve_locked-AllSound :
        After (AllSound p) (approve_locked p t rid entity_id reviewer why request s)
    unfolding approve_locked After
    approve_locked-AllSound = After-needed (AllSound p) _ _ _ λ e fe.
        After-needed (AllSound p) _ _ _ λ v fv.
          After-ensure (AllSound p) (is_reviewable p e v) _ _ λ ok.
            After-ensure (AllSound p) (tools_enabled t v.id s) _ _ λ _.
              After-ensure (AllSound p) (skill_refs_published t v.content_json s) _ _ λ _.
                After-ensure (AllSound p) (ltb 0 (count (is_current e) (catalog t s).entities)) _ _
                  λ _.
                    After-bind (AllSound p) (archive_previous e.published_revision_id v.id _) _
                      λ revisions arch.
                        replaced-AllSound t _ _
                          (approved-Sound p (catalog t s) (part t) e v revisions (entity_by_id e fe)
                            (found_by_id v fv) (and_left _ _ (and_right _ _ ok))
                            (own v fv ∙ sym (entity_of e fe)) (and_right _ _ (and_right _ _ ok))
                            arch)
                          refl refl

-- What other transactions may commit while a review waits for its lock: any change that leaves the pointers
-- sound and the revisions with their entities.
module _ (p : Primitives) (t : Target) (raw : Option ℕ) (reviewer : ℕ) (reason : Option String)
    (request : Option ℕ) (meanwhile : Store → Store) (s : Store) (sound : AllSound p (meanwhile s))
    (fixed : (rid : ℕ) (a b : Revision)
      → find (is_revision rid) (catalog t s).revisions ≡ some a
      → find (is_revision rid) (catalog t (meanwhile s)).revisions ≡ some b
      → b.entity_id ≡ a.entity_id) where
  -- An approval or a rejection that is not refused leaves the pointer of each expert and of each skill empty,
  -- or on a published revision of its own whose digest is that of its content; where that was so when the
  -- lock was taken, and no revision has changed its entity while the review waited for it.
  pub reviews-AllSound :
      After (AllSound p) (approve_revision p t raw reviewer reason request meanwhile s)
      × After (AllSound p) (reject_revision p t raw reviewer reason request meanwhile s)
  unfolding approve_revision reject_revision
  reviews-AllSound = (
    After-bind (AllSound p) (require_reason p reason) _ λ why _.
        After-needed (AllSound p) _ _ _ λ rid _. After-needed (AllSound p) _ _ _ λ seen fs.
          approve_locked-AllSound p (meanwhile s) sound t rid seen.entity_id reviewer why request
            (λ v fv. fixed rid seen v fs fv),
    After-bind (AllSound p) (require_reason p reason) _ λ why _.
        After-needed (AllSound p) _ _ _ λ rid _. After-needed (AllSound p) _ _ _ λ seen fs.
          reject_locked-AllSound p (meanwhile s) sound t rid seen.entity_id reviewer why request
            (λ v fv. fixed rid seen v fs fv),
  )
