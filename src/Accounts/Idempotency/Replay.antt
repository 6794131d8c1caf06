-- ===== src/Accounts/Idempotency/Replay.antt =====
-- backend/v2/idempotency.py: what a stored answer means to the calls that follow.
use agent_craft.Prelude.{
  ℕ, ◌+◌, ◌<◌, ◌≡◌, refl, ap, sym, subst, ◌∙◌, Bool, true, false, not, ◌&&◌, ◌==◌, Option, none,
  some, List, [], ◌∷◌, ◌++◌, find, select, any, find-append, arith, All, Bool-cases, inl, inr,
  ==-refl, some_inj,
}
use agent_craft.Accounts.Rows.{IdempotencyRecord}
use agent_craft.Accounts.Rows.Same.{same_route_refl}
use agent_craft.Accounts.Service.{World, returned, raised, after, restore, atomically}
use agent_craft.Accounts.Idempotency.{
  Ticket, Answer, begin, store, lookup, filed_under, is_live, new_record, record_ttl, sweep_ticket,
  conflict, replay_or_conflict, found_or_swept,
}

filed_under-new : (t : Ticket) (a : Answer) (now : ℕ) → filed_under t (new_record t a now) ≡ true
filed_under-new t a now = rw (==-refl t.subject_hash, same_route_refl t.route, ==-refl t.key) refl

-- The record that is filed under a ticket: the first of its ticket, and not a record that some lookup has
-- let go.
abbrev pub Filed : Ticket → IdempotencyRecord → List IdempotencyRecord → Type 0
Filed t r rs = find (filed_under t) rs ≡ some r

module _ {A : Type 0} (p q : A → Bool) (r : A) where
  find-both : (xs : List A) → q r ≡ true → find p xs ≡ some r → find (λ x. p x && q x) xs ≡ some r
  find-both [] k e = absurd (cc e)
  find-both (x ∷ xs) k e = elim (Bool-cases (p x)) [
    | inr f ↦ rw f (find-both xs k (rw f at e))
    | inl f ↦ let same = some_inj (rw f at e) in rw (f, ap q same ∙ k) (ap some same)
  ]

  find-select : (xs : List A) → q r ≡ true → find p xs ≡ some r → find p (select q xs) ≡ some r
  find-select [] k e = absurd (cc e)
  find-select (x ∷ xs) k e = elim (Bool-cases (q x)) [
    | inl g ↦ elim (Bool-cases (p x)) [
      | inl f ↦ rw (g, f) (rw f at e)
      | inr f ↦ rw (g, f) (find-select xs k (rw f at e))
    ]
    | inr g ↦ elim (Bool-cases (p x)) [
      | inl f ↦ absurd (cc (sym g ∙ (ap q (some_inj (rw f at e)) ∙ k)))
      | inr f ↦ rw g (find-select xs k (rw f at e))
    ]
  ]

  find-before : (xs ys : List A) → find p xs ≡ some r → find p (xs ++ ys) ≡ some r
  find-before [] ys e = absurd (cc e)
  find-before (x ∷ xs) ys e = elim (Bool-cases (p x)) [
    | inl f ↦ rw f (rw f at e)
    | inr f ↦ rw f (find-before xs ys (rw f at e))
  ]

-- The calls of begin and store, each with its ticket and its clock; a store is in a transaction.
pub data RecordCall : Type 0 where
  begin_call : Ticket → (at_time : ℕ) → RecordCall
  store_call : Ticket → Answer → (at_time : ℕ) → RecordCall

abbrev pub time_of : RecordCall → ℕ
time_of (begin_call t u) = u
time_of (store_call t a u) = u

unfoldable pub record_call : RecordCall → World → World
record_call (begin_call t u) w = after (begin t u w)
record_call (store_call t a u) w = after (atomically (store t a u) w)

unfoldable pub record_calls : List RecordCall → World → World
record_calls [] w = w
record_calls (c ∷ cs) w = record_calls cs (record_call c w)

stored-Filed :
    (t : Ticket) (a : Answer) (now : ℕ) (w w' : World)
    → store t a now w ≡ returned tt w'
    → Filed t (new_record t a now) w'.db.records
unfolding store
stored-Filed t a now w w' e =
    let kept = sweep_ticket t now w.db.records in
    elim (Bool-cases (any (filed_under t) kept)) [
      | inl h ↦ absurd (cc (rw h at e))
      | inr h ↦
          subst (λ (x : World). Filed t (new_record t a now) x.db.records) (ap after (simp h at e))
            (find-append (filed_under t) kept (new_record t a now ∷ []) h
              ∙ rw (filed_under-new t a now) refl)
    ]

-- A record that has not expired outlasts the calls.
module _ (t : Ticket) (r : IdempotencyRecord) where
  lookup-Filed :
      (t' : Ticket) (u : ℕ) (w : World)
      → is_live u r ≡ true
      → Filed t r w.db.records
      → Filed t r (after (restore w.db (lookup t' u w))).db.records
  lookup-Filed t' u w live h = go (find (λ x. filed_under t' x && is_live u x) w.db.records)
    where
      go :
          (o : Option IdempotencyRecord)
          → Filed t r (after (restore w.db (found_or_swept o t' u w))).db.records
      go none = find-select (filed_under t) (is_live u) r w.db.records live h
      go (some x) = elim (Bool-cases (x.request_hash == t'.request_hash)) [
        | inl e ↦ rw e h
        | inr e ↦ rw e h
      ]

  store-Filed :
      (t' : Ticket) (a : Answer) (u : ℕ) (w : World)
      → is_live u r ≡ true
      → Filed t r w.db.records
      → Filed t r (after (restore w.db (store t' a u w))).db.records
  unfolding store
  store-Filed t' a u w live h =
      let kept = sweep_ticket t' u w.db.records in
      let still =
        find-select (filed_under t) (λ x. not (filed_under t' x && not (is_live u x))) r
          w.db.records (spared (filed_under t' r) (is_live u r) live) h in
      elim (Bool-cases (any (filed_under t') kept)) [
        | inl e ↦ rw e h
        | inr e ↦
            rw e (find-before (filed_under t) (is_live u) r kept (new_record t' a u ∷ []) still)
      ]
    where
      spared : (a b : Bool) → b ≡ true → not (a && not b) ≡ true
      spared a b e = ground arith

  record_call-Filed :
      (c : RecordCall) (w : World)
      → is_live (time_of c) r ≡ true
      → Filed t r w.db.records
      → Filed t r (record_call c w).db.records
  unfolding record_call begin
  record_call-Filed (begin_call t' u) w live h = lookup-Filed t' u w live h
  record_call-Filed (store_call t' a u) w live h = store-Filed t' a u w live h

  record_calls-Filed :
      (cs : List RecordCall) (w : World)
      → All (λ c. time_of c < r.expires_at) cs
      → Filed t r w.db.records
      → Filed t r (record_calls cs w).db.records
  unfolding record_calls
  record_calls-Filed [] w l h = h
  record_calls-Filed (c ∷ cs) w l h =
      record_calls-Filed cs (record_call c w) l.1 (record_call-Filed c w (ground (arith, l.0)) h)

-- What `lookup` answers where it finds a record.
lookup-found :
    (t : Ticket) (now : ℕ) (w : World) (r : IdempotencyRecord)
    → find (λ r. filed_under t r && is_live now r) w.db.records ≡ some r
    → lookup t now w ≡ replay_or_conflict r t w
lookup-found t now w r e = ap (λ o. found_or_swept o t now w) e

answered :
    (r : IdempotencyRecord) (t : Ticket) (w : World)
    → (r.request_hash == t.request_hash) ≡ true
    → replay_or_conflict r t w
      ≡ returned (some (record { status_code = r.status_code; response_json = r.response_json })) w
answered r t w e = rw e refl

rejected :
    (r : IdempotencyRecord) (t : Ticket) (w : World)
    → (r.request_hash == t.request_hash) ≡ false
    → replay_or_conflict r t w ≡ raised conflict w
rejected r t w e = rw e refl

-- An answer is stored at `now`; then come any calls of begin and store within a day of it, and a call at
-- `now'`, within that day too, in a world `x` whose records are those that the calls have left.
module _ (t : Ticket) (a : Answer) (now now' : ℕ) (w w' : World) (cs : List RecordCall) (x : World)
    (e : store t a now w ≡ returned tt w') (within : All (λ c. time_of c < now + record_ttl) cs)
    (lt : now' < now + record_ttl) (same : x.db.records ≡ (record_calls cs w').db.records) where
  stored-lookup :
      find (λ r. filed_under t r && is_live now' r) x.db.records ≡ some (new_record t a now)
  stored-lookup =
      let still =
        record_calls-Filed t (new_record t a now) cs w' within (stored-Filed t a now w w' e) in
      find-both (filed_under t) (is_live now') (new_record t a now) x.db.records
        (ground (arith, lt)) (subst (Filed t (new_record t a now)) (sym same) still)

  -- An answer that has been stored is given again, for a day, to the same request, and changes nothing;
  -- whatever requests call begin and store in between.
  pub stored_answer : begin t now' x ≡ returned (some a) x
  unfolding begin
  stored_answer =
      let l = lookup-found t now' x (new_record t a now) stored-lookup in
      ap (restore x.db) (l ∙ answered (new_record t a now) t x (==-refl t.request_hash))

  -- For a day after an answer is stored, the same key with another request is a conflict and changes
  -- nothing; in any world in which the stored answers are what calls of begin and store, within that day and
  -- in whatever order of their clocks, have left of those after the store.
  pub stored_conflict :
      (other : ℕ)
      → (t.request_hash == other) ≡ false
      → begin (record t { request_hash = other }) now' x ≡ raised conflict x
  unfolding begin
  stored_conflict other ne =
      let l =
        lookup-found (record t { request_hash = other }) now' x (new_record t a now)
          stored-lookup in
      ap (restore x.db) (l ∙ rejected (new_record t a now) (record t { request_hash = other }) x ne)
