-- ===== src/Accounts/Sessions/Admission.antt =====
-- backend/v2/session_service.py: the session that a token resolves to, and the token of a writing request.
use agent_craft.Prelude.{
  and_left, Option-cases, ==→eq, ◌≢◌, Bool, ℕ, ◌<◌, ◌≡◌, ◌⊎◌, inl, inr, refl, ap, sym, subst, true,
  false, ◌&&◌, ◌==◌, ltb, Option, none, some, List, [], ◌∷◌, find, is_none, find-holds, and_right,
  arith, Bool-cases, some_inj,
}
use mathlib.Core.List.{Mem}
use mathlib.Core.List.Memᴰ
use mathlib.Core.Logic.{∥∥₁_map}
use agent_craft.Accounts.Rows.{Session, User, AccountDb, UserStatus, has_status}
use agent_craft.Accounts.Sessions.{
  resolve_session, is_open, joined, owner_of, unless_deleted, Request, Method, post_method,
  put_method, delete_method, patch_method, is_csrf_method, csrf_ok,
}

kept_user :
    (x s : Session) (o : Option User) (u : User)
    → unless_deleted x o ≡ some (s, u)
    → (x ≡ s) × (o ≡ some u)
kept_user x s none u e = absurd (cc e)
kept_user x s (some v) u e = elim (Bool-cases (has_status v.status UserStatus.deleted)) [
  | inl d ↦ absurd (cc (simp d at e))
  | inr d ↦
      let same = some_inj (simp d at e) in
      (ap (λ p. p.0) same, ap (λ (p : Session × User). some p.1) same)
]

joined_session :
    (o : Option Session) (users : List User) (s : Session) (u : User)
    → joined o users ≡ some (s, u)
    → o ≡ some s
joined_session none users s u e = absurd (cc e)
joined_session (some x) users s u e = ap some (kept_user x s (owner_of x users) u e).0

joined_user :
    (o : Option Session) (users : List User) (s : Session) (u : User)
    → joined o users ≡ some (s, u)
    → owner_of s users ≡ some u
joined_user none users s u e = absurd (cc e)
joined_user (some x) users s u e =
    let one = kept_user x s (owner_of x users) u e in
    subst (λ y. owner_of y users ≡ some u) one.0 one.1

module _ (hash_token : ℕ → ℕ) where
  pub resolved_row :
      (token now : ℕ) (d : AccountDb) (s : Session) (u : User)
      → resolve_session hash_token (some token) now d ≡ some (s, u)
      → find (λ s. s.token_hash == hash_token token && is_open now s) d.sessions ≡ some s
  unfolding resolve_session
  resolved_row token now d s u e =
      joined_session (find (λ s. s.token_hash == hash_token token && is_open now s) d.sessions)
        d.users s u e

-- The methods that change nothing, and need no token: all but POST, PUT, DELETE and PATCH.
abbrev pub IsSafe : Method → Type 0
IsSafe m = (m ≢ post_method) × (m ≢ put_method) × (m ≢ delete_method) × (m ≢ patch_method)

-- The token in the header of a request is that of its session.
abbrev pub ShowsToken : (ℕ → ℕ) → Request → Session → Type 0
ShowsToken hash_token r s =
    (header : ℕ) × (r.csrf_header ≡ some header) × (hash_token header ≡ s.csrf_hash)

method-IsSafe : (m : Method) → is_csrf_method m ≡ false → IsSafe m
method-IsSafe m e = (
  unlike post_method refl,
  unlike put_method refl,
  unlike delete_method refl,
  unlike patch_method refl,
)
  where
    unlike : (n : Method) → is_csrf_method n ≡ true → m ≢ n
    unlike n k q = cc (e, k, ap is_csrf_method q)

pub csrf-ShowsToken :
    (hash_token : ℕ → ℕ) (r : Request) (s : Session)
    → csrf_ok hash_token r s ≡ true
    → IsSafe r.method ⊎ ShowsToken hash_token r s
csrf-ShowsToken hash_token r s e = elim (Bool-cases (is_csrf_method r.method)) [
  | inr f ↦ inl (method-IsSafe r.method f)
  | inl f ↦ elim (Option-cases r.csrf_header) [
    | inl n ↦ absurd (cc (rw (n, f) at e))
    | inr (token, n) ↦ inr (token, n, ==→eq (hash_token token) s.csrf_hash (rw (n, f) at e))
  ]
]

-- A session that lets a request in: the cookie is its token, it is a row of the table, and it has been
-- neither revoked nor outlived.
pub record LetIn (hash_token : ℕ → ℕ) (r : Request) (now : ℕ) (ss : List Session) (s : Session)
    (u : User) : Type 0 where
  pub token : ℕ
  pub from_cookie : r.cookie ≡ some token
  pub known : Mem s ss
  pub same_hash : s.token_hash ≡ hash_token token
  pub unrevoked : s.revoked_at ≡ none
  pub in_time : now < s.expires_at
  pub owner : u.id ≡ s.user_id

find-Mem : {A : Type 0} (p : A → Bool) (xs : List A) (a : A) → find p xs ≡ some a → Mem a xs
find-Mem p [] a e = absurd (cc e)
find-Mem p (x ∷ xs) a e = elim (Bool-cases (p x)) [
  | inl f ↦ ∣ Memᴰ.head (sym (some_inj (rw f at e))) ∣₁
  | inr f ↦ ∥∥₁_map (find-Mem p xs a (rw f at e)) (λ m. Memᴰ.tail m)
]

pub resolved-LetIn :
    (hash_token : ℕ → ℕ) (r : Request) (now : ℕ) (d : AccountDb) (s : Session) (u : User)
    → resolve_session hash_token r.cookie now d ≡ some (s, u)
    → LetIn hash_token r now d.sessions s u
unfolding resolve_session
resolved-LetIn hash_token r now d s u e = elim (Option-cases r.cookie) [
  | inl n ↦ absurd (no_token (subst (λ c. resolve_session hash_token c now d ≡ some (s, u)) n e))
  | inr (token, n) ↦
      let row =
        resolved_row hash_token token now d s u
          (subst (λ c. resolve_session hash_token c now d ≡ some (s, u)) n e) in
      let test : Session → Bool = λ x. x.token_hash == hash_token token && is_open now x in
      let holds = find-holds test d.sessions s row in
      let opened = and_right (s.token_hash == hash_token token) (is_open now s) holds in
      let late = and_right (is_none s.revoked_at) (ltb now s.expires_at) opened in
      record {
        token = token;
        from_cookie = n;
        known = find-Mem test d.sessions s row;
        same_hash = ==→eq _ _ (and_left (s.token_hash == hash_token token) (is_open now s) holds);
        unrevoked =
            absent s.revoked_at (and_left (is_none s.revoked_at) (ltb now s.expires_at) opened);
        in_time = ground (arith, late);
        owner = ==→eq u.id s.user_id (
            find-holds (λ (x : User). x.id == s.user_id) d.users u
              (joined_user (find test d.sessions) d.users s u
                (subst (λ c. resolve_session hash_token c now d ≡ some (s, u)) n e)));
      }
]
  where
    absent : (o : Option ℕ) → is_none o ≡ true → o ≡ none
    absent none k = refl
    absent (some a) k = absurd (cc k)

    no_token : resolve_session hash_token none now d ≡ some (s, u) → ⊥
    no_token k = cc k
