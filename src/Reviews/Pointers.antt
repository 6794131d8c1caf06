-- ===== src/Reviews/Pointers.antt =====
-- backend/v2/review_service.py: the pointers to published revisions, under a change of the revisions.
use agent_craft.Prelude.{
  ℕ, ◌≡◌, refl, ap, sym, subst, ◌∙◌, Bool, true, false, ◌==◌, Option, none, some, List,
  if◌then◌else◌, find, update_where, arith, Bool-cases, Option-cases, inl, inr, and_left, ==→eq,
  ==-refl, some_inj, find-holds,
}
use agent_craft.Reviews.{archive_previous, is_current, point_to, set_status}
use agent_craft.Reviews.Rows.{
  done, Catalog, Entity, Revision, Primitives, RevisionStatus, published, is_pending, is_published,
  is_entity, is_revision, same_pointer,
}
use agent_craft.Reviews.Finding.{
  changed_or_same, find-update_where, untouched, touched, archived_kept,
}

-- A revision that an entity may publish: it is published, it is one of the entity's, and its digest is that
-- of its content.
abbrev pub Fit : Primitives → ℕ → Revision → Type 0
Fit p id v =
    (is_published v.status ≡ true)
    × ((v.entity_id ≡ id) × ((p.content_sha256 v.content_json == v.content_sha256) ≡ true))

-- The pointer of each entity is empty, or points to a revision that it may publish.
unfoldable pub Sound : Primitives → Catalog → Type 0
Sound p c =
    (id rid : ℕ) (e : Entity)
    → find (is_entity id) c.entities ≡ some e
    → e.published_revision_id ≡ some rid
    → (v : Revision) × ((find (is_revision rid) c.revisions ≡ some v) × Fit p id v)

false_true : {A : Type 0} (b : Bool) → b ≡ false → b ≡ true → A
false_true b h k = cc (h, k)

pending_published :
    {A : Type 0} (s : RevisionStatus) → is_pending s ≡ true → is_published s ≡ true → A
pending_published RevisionStatus.draft h k = cc h
pending_published RevisionStatus.pending_review h k = cc k
pending_published RevisionStatus.approved h k = cc h
pending_published RevisionStatus.rejected h k = cc h
pending_published RevisionStatus.published h k = cc h
pending_published RevisionStatus.archived h k = cc h

same_pointer_refl : (o : Option ℕ) → same_pointer o o ≡ true
same_pointer_refl none = refl
same_pointer_refl (some a) = ==-refl a

==-flip : (a b : ℕ) → (a == b) ≡ false → (b == a) ≡ false
==-flip a b h = ground arith

is_current_refl : (e : Entity) → is_current e e ≡ true
is_current_refl e = rw (==-refl e.id, same_pointer_refl e.published_revision_id) refl

Published : Primitives → ℕ → ℕ → List Revision → Type 0
Published p id rid revisions =
    (v : Revision) × ((find (is_revision rid) revisions ≡ some v) × Fit p id v)

module _ (p : Primitives) (c : Catalog) (inv : Sound p c) where
  pointed_to :
      (id rid : ℕ) (e : Entity)
      → find (is_entity id) c.entities ≡ some e
      → e.published_revision_id ≡ some rid
      → Published p id rid c.revisions
  unfolding Sound Published
  pointed_to id rid e fe pe = inv id rid e fe pe

  not_pending :
      {A : Type 0} (v w : Revision) (rid : ℕ)
      → find (is_revision v.id) c.revisions ≡ some v
      → is_pending v.status ≡ true
      → find (is_revision rid) c.revisions ≡ some w
      → is_published w.status ≡ true
      → (rid == v.id) ≡ true
      → A
  not_pending v w rid fv pending fw fit d =
      let same = sym fw ∙ (ap (λ i. find (is_revision i) c.revisions) (==→eq rid v.id d) ∙ fv) in
      pending_published v.status pending
        (subst (λ u. is_published u.status ≡ true) (some_inj same) fit)

  pub restated-Sound :
      (v : Revision) (st : RevisionStatus)
      → find (is_revision v.id) c.revisions ≡ some v
      → is_pending v.status ≡ true
      → Sound p (record {
        entities = c.entities;
        revisions = update_where (is_revision v.id) (set_status st) c.revisions;
      })
  unfolding Sound
  restated-Sound v st fv pending id rid e fe pe =
      let (w, (fw, fit)) = inv id rid e fe pe in
      elim (Bool-cases (rid == v.id)) [
        | inl d ↦ not_pending v w rid fv pending fw fit.0 d
        | inr d ↦ (w, (untouched c.revisions st rid v.id w fw d, fit))
      ]

  module _ (e : Entity) (v : Revision) (after : List Revision)
      (fe : find (is_entity e.id) c.entities ≡ some e)
      (fv : find (is_revision v.id) c.revisions ≡ some v) (pending : is_pending v.status ≡ true)
      (own : v.entity_id ≡ e.id)
      (digest : (p.content_sha256 v.content_json == v.content_sha256) ≡ true)
      (arch : archive_previous e.published_revision_id v.id
          (update_where (is_revision v.id) (set_status published) c.revisions)
        ≡ done after) where
    pointed :
        (id rid : ℕ) (z : Entity)
        → find (is_entity id) c.entities ≡ some z
        → is_current e z ≡ true
        → some v.id ≡ some rid
        → Published p id rid after
    unfolding Published
    pointed id rid z fz d same =
        let owner = sym (==→eq z.id e.id (and_left _ _ d)) in
        let found = ==→eq z.id id (find-holds (is_entity id) c.entities z fz) in
        let kept =
          archived_kept e.published_revision_id v.id v.id _ after (set_status published v) arch
            (touched c.revisions published v.id v fv) (λ o _ k. ==-flip o v.id k) in
        subst (λ y. (u : Revision) × ((find (is_revision y) after ≡ some u) × Fit p id u))
          (some_inj same) (set_status published v, (kept, (refl, (own ∙ (owner ∙ found), digest))))

    apart :
        (id rid : ℕ) (z : Entity) (w : Revision) (o : ℕ)
        → find (is_entity id) c.entities ≡ some z
        → is_current e z ≡ false
        → find (is_revision rid) c.revisions ≡ some w
        → w.entity_id ≡ id
        → e.published_revision_id ≡ some o
        → (rid == o) ≡ false
    unfolding Published
    apart id rid z w o fz d fw of po = elim (Bool-cases (rid == o)) [
      | inr k ↦ k
      | inl k ↦
          let (u, (fu, fit)) = pointed_to e.id o e fe po in
          let same =
            some_inj
              (sym fu ∙ (ap (λ i. find (is_revision i) c.revisions) (sym (==→eq rid o k)) ∙ fw)) in
          let here = sym fit.1.0 ∙ (ap (λ (x : Revision). x.entity_id) same ∙ of) in
          let known = some_inj (sym fe ∙ (ap (λ i. find (is_entity i) c.entities) here ∙ fz)) in
          false_true (is_current e z) d
            (subst (λ x. is_current e x ≡ true) known (is_current_refl e))
    ]

    other :
        (id rid : ℕ) (z : Entity)
        → find (is_entity id) c.entities ≡ some z
        → is_current e z ≡ false
        → z.published_revision_id ≡ some rid
        → Published p id rid after
    unfolding Published
    other id rid z fz d pz =
        let (w, (fw, fit)) = pointed_to id rid z fz pz in
        elim (Bool-cases (rid == v.id)) [
          | inl k ↦ not_pending v w rid fv pending fw fit.0 k
          | inr k ↦ (
            w,
            (
              archived_kept e.published_revision_id v.id rid _ after w arch
                  (untouched c.revisions published rid v.id w fw k)
                  (λ o po _. apart id rid z w o fz d fw fit.1.0 po),
              fit,
            ),
          )
        ]

    pub approved-Sound : Sound p (record {
      entities = update_where (is_current e) (point_to v.id) c.entities;
      revisions = after;
    })
    unfolding Sound Published changed_or_same
    approved-Sound id rid x fx px =
        let moved =
          find-update_where (is_entity id) (is_current e) (point_to v.id) (λ a. refl) c.entities in
        elim (Option-cases (find (is_entity id) c.entities)) [
          | inl n ↦
              absurd (cc (sym fx ∙ (moved ∙ ap (changed_or_same (is_current e) (point_to v.id)) n)))
          | inr (z, fz) ↦
              let same =
                some_inj
                  (sym fx ∙ (moved ∙ ap (changed_or_same (is_current e) (point_to v.id)) fz)) in
              elim (Bool-cases (is_current e z)) [
                | inl d ↦ pointed id rid z fz d (
                    sym (
                      ap (λ (a : Entity). a.published_revision_id)
                        (same ∙ ap (λ b. if b then point_to v.id z else z) d))
                    ∙ px)
                | inr d ↦ other id rid z fz d (
                    sym (
                      ap (λ (a : Entity). a.published_revision_id)
                        (same ∙ ap (λ b. if b then point_to v.id z else z) d))
                    ∙ px)
              ]
        ]
