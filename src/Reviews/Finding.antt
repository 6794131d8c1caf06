-- ===== src/Reviews/Finding.antt =====
-- The revision that a lookup finds after a review has changed the table of revisions.
use agent_craft.Prelude.{
  ℕ, ◌≡◌, refl, ap, sym, ◌∙◌, Bool, false, ◌==◌, Option, none, some, List, [], ◌∷◌, if◌then◌else◌,
  find, update_where, Bool-cases, Option-cases, inl, inr, ==→eq, find-holds,
}
use agent_craft.Reviews.{archive_previous, set_status}
use agent_craft.Reviews.Rows.{
  Answer, done, refused, Revision, RevisionStatus, archived, is_revision,
}

unfoldable pub changed_or_same : {A : Type 0} → (A → Bool) → (A → A) → Option A → Option A
changed_or_same q f none = none
changed_or_same q f (some a) = some (if q a then f a else a)

-- An update that a test does not see moves with the row that the test finds.
module _ {A : Type 0} (p q : A → Bool) (f : A → A) (unseen : (a : A) → p (f a) ≡ p a) where
  pub find-update_where :
      (xs : List A) → find p (update_where q f xs) ≡ changed_or_same q f (find p xs)
  unfolding changed_or_same
  find-update_where [] = refl
  find-update_where (x ∷ xs) = elim (Bool-cases (q x)) [
    | inl e ↦ elim (Bool-cases (p x)) [
      | inl d ↦ rw (e, unseen x, d, e) refl
      | inr d ↦ rw (e, unseen x, d) (find-update_where xs)
    ]
    | inr e ↦ elim (Bool-cases (p x)) [
      | inl d ↦ rw (e, d, e) refl
      | inr d ↦ rw (e, d) (find-update_where xs)
    ]
  ]

module _ (revs : List Revision) (st : RevisionStatus) where
  id_of : (y : ℕ) (w : Revision) → find (is_revision y) revs ≡ some w → w.id ≡ y
  id_of y w fw = ==→eq w.id y (find-holds (is_revision y) revs w fw)

  pub untouched :
      (y o : ℕ) (w : Revision)
      → find (is_revision y) revs ≡ some w
      → (y == o) ≡ false
      → find (is_revision y) (update_where (is_revision o) (set_status st) revs) ≡ some w
  unfolding changed_or_same
  untouched y o w fw d =
      let moved =
        find-update_where (is_revision y) (is_revision o) (set_status st) (λ a. refl) revs in
      let other = ap (λ i. i == o) (id_of y w fw) ∙ d in
      moved
      ∙ (ap (changed_or_same (is_revision o) (set_status st)) fw
          ∙ ap (λ b. some (if b then set_status st w else w)) other)

  pub touched :
      (y : ℕ) (w : Revision)
      → find (is_revision y) revs ≡ some w
      → find (is_revision y) (update_where (is_revision y) (set_status st) revs)
        ≡ some (set_status st w)
  unfolding changed_or_same
  touched y w fw =
      let moved =
        find-update_where (is_revision y) (is_revision y) (set_status st) (λ a. refl) revs in
      moved
      ∙ (ap (changed_or_same (is_revision y) (set_status st)) fw
          ∙ ap (λ b. some (if b then set_status st w else w))
              (find-holds (is_revision y) revs w fw))

done_inj : {A : Type 0} {a b : A} → done a ≡ done b → a ≡ b
done_inj {A} {a} {b} e = ap (λ (o : Answer A). elim o as (λ _. A) [ refused _ ↦ a | done x ↦ x ]) e

pub archived_kept :
    (previous : Option ℕ) (rid y : ℕ) (revs after : List Revision) (w : Revision)
    → archive_previous previous rid revs ≡ done after
    → find (is_revision y) revs ≡ some w
    → ((o : ℕ) → previous ≡ some o → (o == rid) ≡ false → (y == o) ≡ false)
    → find (is_revision y) after ≡ some w
unfolding archive_previous
archived_kept none rid y revs after w h fw apart = ap (find (is_revision y)) (sym (done_inj h)) ∙ fw
archived_kept (some o) rid y revs after w h fw apart = elim (Bool-cases (o == rid)) [
  | inl d ↦ ap (find (is_revision y)) (sym (done_inj (rw d at h))) ∙ fw
  | inr d ↦ elim (Option-cases (find (is_revision o) revs)) [
    | inl n ↦ cc (rw (d, n) at h)
    | inr (v, f) ↦
        ap (find (is_revision y)) (sym (done_inj (rw (d, f) at h)))
        ∙ untouched revs archived y o w fw (apart o refl d)
  ]
]
