-- ===== src/Files/Limits.antt =====
-- backend/v2/task_file_service.py: the limits of a task's files.
use agent_craft.Prelude.{
  Option, ℕ, ◌+◌, ◌≤◌, ◌≡◌, refl, ap, sym, subst, ◌∙◌, Bool, true, ◌&&◌, ltb, leb, not, some, List,
  [], ◌∷◌, ◌++◌, length, total, total-append, select, select-append, length-append, length-select,
  map, any, arith, Bool-cases, inl, inr, and_left, and_right, some_inj,
}
use agent_craft.Model.Rows.{Task, TaskFile, Db}
use agent_craft.Model.Tx.{Result, ok, err, Tx}
use agent_craft.Table.{lock_task, parse_id, hide_deleted, find_task, update_task}
use agent_craft.Service.Commit.{uploading_gate}
use agent_craft.Logic.{
  Post, AnyError, Triple, Triple-bind, Triple-pure, Triple-require, Triple-require_some, Triple-get,
}
use agent_craft.Files.{
  Upload, upload_files, lock_uploading_task, add_files, new_file, is_live, is_live_input,
  live_inputs, live_bytes, upload_bytes, limits_ok, max_files, max_total_bytes, max_single_bytes,
  Unicode, shape_ok, names_ok,
}

abbrev pub WithinLimits : ℕ → ℕ → Db → Type 0
WithinLimits owner task_id db =
    (live_inputs owner task_id db.files ≤ max_files)
    × (live_bytes owner task_id db.files ≤ max_total_bytes)

length-new : (t : Task) (us : List Upload) → length (map (new_file t) us) ≡ length us
length-new t [] = refl
length-new t (u ∷ us) = omega (arith, length-new t us)

new_bytes :
    (t : Task) (p : TaskFile → Bool) (us : List Upload)
    → total (λ (f : TaskFile). f.size_bytes) (select p (map (new_file t) us)) ≤ upload_bytes us
new_bytes t p [] = omega arith
new_bytes t p (u ∷ us) = elim (Bool-cases (p (new_file t u))) [
  | inl e ↦ rw e (omega (arith, new_bytes t p us))
  | inr e ↦ rw e (omega (arith, new_bytes t p us))
]

leb→≤ : (a b : ℕ) → leb a b ≡ true → a ≤ b
leb→≤ a b h = ground arith

module _ (owner tid : ℕ) (t : Task) (us : List Upload) (db : Db) where
  abbrev grown : Db
  grown = record db { files = db.files ++ map (new_file t) us }

  added-WithinLimits : limits_ok owner tid db.files us ≡ true → WithinLimits owner tid grown
  added-WithinLimits h =
      let w = λ (f : TaskFile). f.size_bytes in
      let a = leb (live_inputs owner tid db.files + length us) max_files in
      let c = leb (live_bytes owner tid db.files + upload_bytes us) max_total_bytes in
      let b = not (any (λ (u : Upload). ltb max_single_bytes u.size_bytes) us) in
      let files =
        leb→≤ (live_inputs owner tid db.files + length us) max_files (and_left a (b && c) h) in
      let bytes =
        leb→≤ (live_bytes owner tid db.files + upload_bytes us) max_total_bytes
          (and_right b c (and_right a (b && c) h)) in
      let new = map (new_file t) us in
      let split =
        ap length (select-append (is_live_input owner tid) db.files new)
        ∙ length-append (select (is_live_input owner tid) db.files)
            (select (is_live_input owner tid) new) in
      let few = length-select (is_live_input owner tid) new in
      let sum =
        ap (total w) (select-append (is_live owner tid) db.files new)
        ∙ total-append w (select (is_live owner tid) db.files) (select (is_live owner tid) new) in
      (
        omega (arith, files, split, few, length-new t us),
        omega (arith, bytes, sum, new_bytes t (is_live owner tid) us),
      )

-- Any transaction, with nothing asked of its end.
any_end : {A : Type 0} (m : Tx A) (P : Db → Type 0) → Triple AnyError P m (λ _ _. Unit)
any_end {A} m P = record { at = λ s p. go (m s) }
  where
    go : (r : Result (A × Db)) → Post AnyError (λ _ _. Unit) r
    go (ok (a, s)) = tt
    go (err e) = tt

module _ (owner tid : ℕ) where
  locked_id : Triple AnyError (λ s. Unit) (lock_task owner (some tid)) (λ t s. t.id ≡ tid)
  unfolding lock_task parse_id
  locked_id = Triple-require_some (some tid) _ _ tt λ c e. Triple-get _ λ s _.
      Triple-require_some (hide_deleted (find_task owner c s)) _ _ tt
        λ t _. Triple-pure _ (λ _ _. some_inj (sym e))

  uploading_id :
      Triple AnyError (λ s. Unit) (lock_uploading_task owner (some tid)) (λ t s. t.id ≡ tid)
  unfolding lock_uploading_task
  uploading_id =
      Triple-bind (λ t s. t.id ≡ tid) (lock_task owner (some tid)) _ locked_id
        λ t. record {
          at = λ s named.
              (Triple-bind (λ _ _. Unit) (uploading_gate t) _
                  (any_end (uploading_gate t) (λ _. Unit))
                  λ _.
                    Triple-bind (λ _ _. Unit) (update_task owner t.id _ _) _
                      (any_end (update_task owner t.id _ _) (λ _. Unit))
                      λ n. Triple-require (ltb 0 n) _ _ tt λ _. Triple-pure t (λ _ _. named)).at
                s tt;
        }

  -- In any state, an upload to a task either leaves it with at most ten live input files, and with at most
  -- ten MiB of live files altogether, or it is refused.
  pub upload_files-WithinLimits :
      (unicode : Unicode) (raw_owner : Option ℕ) (us : List Upload) (written : Bool)
      → Triple AnyError
          (λ s. Unit)
          (upload_files unicode owner (some tid) raw_owner us written)
          (λ fs s. WithinLimits owner tid s)
  unfolding upload_files add_files
  upload_files-WithinLimits unicode raw_owner us written =
      Triple-bind (λ t s. t.id ≡ tid) (lock_uploading_task owner (some tid)) _ uploading_id
        λ t. record {
          at = λ s named.
              (Triple-bind (λ _ _. Unit) (parse_id raw_owner) _
                  (any_end (parse_id raw_owner) (λ _. Unit))
                  λ _. Triple-require {P = λ _. Unit {0}} (shape_ok unicode us) _ _ tt λ _.
                    Triple-get _ λ db _.
                      Triple-require (names_ok unicode owner t.id db.files us) _ _ tt λ _.
                        Triple-require (limits_ok owner t.id db.files us) _ _ tt λ fits.
                          Triple-require written _ _ tt λ _. record {
                            at = λ x same.
                                subst (λ d. WithinLimits owner tid (grown owner tid t us d))
                                  (sym same)
                                  (added-WithinLimits owner tid t us db
                                    (subst (λ i. limits_ok owner i db.files us ≡ true) named fits));
                          }).at
                s tt;
        }
