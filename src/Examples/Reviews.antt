-- ===== src/Examples/Reviews.antt =====
-- Tests of the review of revisions, and the run to which its theorem is applied.
use agent_craft.Prelude.{
  ℕ, ◌+◌, ==→eq, ◌≡◌, refl, ap, sym, subst, ◌∙◌, true, ◌==◌, none, some, List, [], ◌∷◌, Bool-cases,
  inl, inr, some_inj, find, map,
}
use agent_craft.Reviews.{
  approve_revision, approve_locked, reject_revision, require_reason, archive_previous,
}
use agent_craft.Reviews.Rows.{
  Answer, done, refused, ◌>>=◌, ◌>>◌, needed, ensure, expert_revision, Store, Entity, Revision,
  Primitives, RevisionStatus, pending_review, published, archived, published_entity, is_revision,
  revision_not_published,
}
use agent_craft.Reviews.Pointers.{Sound, Fit}
use agent_craft.Reviews.Stale.{Never, reviews_stale}
use agent_craft.Reviews.Decisions.{After, AllSound, reviews-AllSound}

abbrev prims : Primitives
prims = record { strip = λ x. x; content_sha256 = λ c. c.body + 100 }

abbrev revision : ℕ → ℕ → List ℕ → RevisionStatus → Revision
revision id number refs status = record {
  id = id;
  entity_id = 1;
  owner_id = 3;
  revision_no = number;
  content_json = record { body = id; skill_refs = refs };
  content_sha256 = id + 100;
  status = status;
}

abbrev expert : Entity
expert = record { id = 1; owner_id = 3; published_revision_id = some 5; status = published_entity }

-- An expert whose revision 5 is published, and whose revision 7 waits for a review; it refers to `refs`.
abbrev shop : List ℕ → Store
shop refs = record {
  experts = record {
    entities = expert ∷ [];
    revisions = revision 5 1 [] published ∷ revision 7 2 refs pending_review ∷ [];
  };
  skills = record { entities = []; revisions = [] };
  tool_catalog = record { tool_id = 8; version = 1; enabled = true } ∷ [];
  revision_tools = record { expert_revision_id = 7; tool_id = 8; version = 1 } ∷ [];
  content_reviews = [];
  audit_logs = [];
}

abbrev waits : Store → Store
waits s = s

abbrev statuses : Answer Store → List RevisionStatus
statuses (done s) = map (λ (v : Revision). v.status) s.experts.revisions
statuses (refused r) = []

approves :
    statuses (approve_revision prims expert_revision (some 7) 2 (some "fine") none waits (shop []))
    ≡ archived ∷ published ∷ []
unfolding approve_revision approve_locked require_reason archive_previous needed ensure ◌>>=◌ ◌>>◌
approves = refl

lacks_skill :
    approve_revision prims expert_revision (some 7) 2 (some "fine") none waits (shop (9 ∷ []))
    ≡ refused revision_not_published
unfolding approve_revision approve_locked require_reason archive_previous needed ensure ◌>>=◌ ◌>>◌
lacks_skill = refl

shop-AllSound : AllSound prims (shop [])
unfolding AllSound Sound
shop-AllSound = (
  λ id rid e fe pe. elim (Bool-cases (1 == id)) [
    | inl d ↦
        let same = some_inj (rw d at fe) in
        let at_five = some_inj (ap (λ (x : Entity). x.published_revision_id) same ∙ pe) in
        subst
          (λ r.
            (v : Revision) × ((find (is_revision r) (shop []).experts.revisions ≡ some v)
              × Fit prims id v))
          at_five (revision 5 1 [] published, (refl, (refl, (==→eq 1 id d, refl))))
    | inr d ↦ cc (rw d at fe)
  ],
  λ id rid e fe pe. absurd (cc fe),
)

reviews-AllSound_example :
    After
      (AllSound prims)
      (approve_revision prims expert_revision (some 7) 2 (some "fine") none waits (shop []))
    × After
        (AllSound prims)
        (reject_revision prims expert_revision (some 7) 2 (some "fine") none waits (shop []))
reviews-AllSound_example =
    reviews-AllSound prims expert_revision (some 7) 2 (some "fine") none waits (shop [])
      shop-AllSound (λ rid a b fa fb. ap (λ (v : Revision). v.entity_id) (some_inj (sym fb ∙ fa)))

-- Another reviewer rejects revision 7 first.
abbrev rejects : Store → Store
rejects s = record s {
  experts = record s.experts {
    revisions = revision 5 1 [] published ∷ revision 7 2 [] RevisionStatus.rejected ∷ [];
  };
}

reviews_stale_example :
    After Never
      (approve_revision prims expert_revision (some 7) 2 (some "fine") none rejects (shop []))
    × After Never
        (reject_revision prims expert_revision (some 7) 2 (some "fine") none rejects (shop []))
reviews_stale_example =
    reviews_stale prims expert_revision 7 2 (some "fine") none rejects (shop [])
      (revision 7 2 [] RevisionStatus.rejected) refl refl
