-- ===== src/Accounts/Tokens/Spent.antt =====
-- backend/v2: a consumed token of account_action_tokens, and the tests that it fails.
use agent_craft.Prelude.{
  ℕ, ◌≡◌, refl, ap, subst, ◌∙◌, Bool, true, false, ◌&&◌, ◌==◌, ltb, none, List, [], ◌∷◌, ◌++◌, any,
  find, update_where, is_none, All, All-append, All-update_where, any-append, any-update_where,
  find-All, find-holds, and_left, Bool-cases, Option-cases, inl, inr, ==→eq,
}
use agent_craft.Accounts.Rows.{ActionToken, Purpose, AccountDb, same_purpose}
use agent_craft.Accounts.Tokens.{usable_token, usable, kept_if, consumed}

abbrev pub is_of : ℕ → ActionToken → Bool
is_of h t = t.token_hash == h

abbrev pub Used : ℕ → ActionToken → Type 0
Used h t = is_of h t ≡ true → is_none t.consumed_at ≡ false

-- The table has a row for a hash, and every such row has been consumed.
abbrev pub Spent : ℕ → List ActionToken → Type 0
Spent h ts = (any (is_of h) ts ≡ true) × All (Used h) ts

pub updated-Spent :
    (h : ℕ) (p : ActionToken → Bool) (now : ℕ) (ts : List ActionToken)
    → Spent h ts
    → Spent h (update_where p (consumed now) ts)
updated-Spent h p now ts s = (
  any-update_where (is_of h) p (consumed now) ts (λ t _. refl) ∙ s.0,
  All-update_where (Used h) (Used h) p (consumed now) ts (λ t _ _ _. refl) (λ t u _. u) s.1,
)

pub added-Spent :
    (h : ℕ) (t : ActionToken) (ts : List ActionToken)
    → any (λ x. x.token_hash == t.token_hash) ts ≡ false
    → Spent h ts
    → Spent h (ts ++ t ∷ [])
added-Spent h t ts fresh s = elim (Bool-cases (is_of h t)) [
  | inl e ↦ absurd (
      cc (s.0, subst (λ k. any (λ x. x.token_hash == k) ts ≡ false) (==→eq t.token_hash h e) fresh))
  | inr e ↦ (
    any-append (is_of h) ts (t ∷ []) s.0,
    All-append (Used h) ts (t ∷ []) s.1 ((λ d. cc (d, e)), tt),
  )
]

pub Spent-unusable :
    (h owner now : ℕ) (purpose : Purpose) (d : AccountDb)
    → Spent h d.tokens
    → usable_token owner h purpose now d ≡ none
Spent-unusable h owner now purpose d s = elim (Option-cases (find q d.tokens)) [
  | inl e ↦ ap (usable now) e
  | inr (t, e) ↦
      let holds = find-holds q d.tokens t e in
      let here = and_left (t.token_hash == h) (same_purpose t.purpose purpose) (
        and_left (t.token_hash == h && same_purpose t.purpose purpose) (t.user_id == owner)
          holds) in
      let gone = find-All (Used h) q d.tokens t s.1 e here in
      ap (usable now) e ∙ ap (λ b. kept_if (b && ltb now t.expires_at) t) gone
]
  where
    q : ActionToken → Bool
    q t = (t.token_hash == h && same_purpose t.purpose purpose) && t.user_id == owner
