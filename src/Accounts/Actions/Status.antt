-- ===== src/Accounts/Actions/Status.antt =====
-- The state machine that the account services (backend/v2) implement together on the rows of `users`.
use agent_craft.Prelude.{
  ℕ, Bool, true, ◌≡◌, refl, ◌∙◌, List, [], ◌∷◌, ◌++◌, update_where, Bool-cases, inl, inr, All,
  All-append, subst, sym, All-update_where,
}
use agent_craft.Accounts.Rows.{User, UserStatus, Email}
use agent_craft.Accounts.Service.{World, Service, after}
use agent_craft.Accounts.Primitives.{Primitives}
use agent_craft.Accounts.Invitations.{new_user}
use agent_craft.Accounts.Changes.{Closed, Keeps, UserChange, Consistent, Move}
use agent_craft.Accounts.Actions.{AccountAction, serve_accounts}
use agent_craft.Accounts.Actions.Keeping.{serve_accounts-Keeps}

-- The account machine: the statuses that its moves lead to.
pub data Leads : UserStatus → UserStatus → Type 0 where
  here : {s : UserStatus} → Leads s s
  further : {s t u : UserStatus} → Leads s t → Move t u → Leads s u

Leads-trans : {s t u : UserStatus} → Leads s t → Leads t u → Leads s u
Leads-trans l here = l
Leads-trans l (further m e) = further (Leads-trans l m) e

-- A row and what has become of it.
pub record Becomes (u v : User) : Type 0 where
  pub same_id : v.id ≡ u.id
  pub leads : Leads u.status v.status

-- A row that an invitation has made.
pub record Joined (v : User) : Type 0 where
  pub leads : Leads UserStatus.pending v.status

-- The rows of a table follow the machine one by one, and further rows start at its beginning.
abbrev pub Follows : List User → List User → Type 0
Follows [] vs = All Joined vs
Follows (u ∷ us) [] = ⊥
Follows (u ∷ us) (v ∷ vs) = Becomes u v × Follows us vs

Becomes-refl : (u : User) → Becomes u u
Becomes-refl u = record { same_id = refl; leads = here }

Becomes-trans : (u v x : User) → Becomes u v → Becomes v x → Becomes u x
Becomes-trans u v x a b = record {
  same_id = b.same_id ∙ a.same_id;
  leads = Leads-trans a.leads b.leads;
}

changed-Becomes : (u v : User) → UserChange u v → Becomes u v
changed-Becomes u v c = record { same_id = c.same_id; leads = further here c.move }

Joined-Becomes : (u v : User) → Joined u → Becomes u v → Joined v
Joined-Becomes u v j b = record { leads = Leads-trans j.leads b.leads }

Follows-refl : (us : List User) → Follows us us
Follows-refl [] = tt
Follows-refl (u ∷ us) = (Becomes-refl u, Follows-refl us)

all_Joined : (us vs : List User) → All Joined us → Follows us vs → All Joined vs
all_Joined [] vs h f = f
all_Joined (u ∷ us) [] h f = absurd f
all_Joined (u ∷ us) (v ∷ vs) h f = (Joined-Becomes u v h.0 f.0, all_Joined us vs h.1 f.1)

Follows-trans : (us vs xs : List User) → Follows us vs → Follows vs xs → Follows us xs
Follows-trans [] vs xs f g = all_Joined vs xs f g
Follows-trans (u ∷ us) [] xs f g = absurd f
Follows-trans (u ∷ us) (v ∷ vs) [] f g = absurd g
Follows-trans (u ∷ us) (v ∷ vs) (x ∷ xs) f g =
    (Becomes-trans u v x f.0 g.0, Follows-trans us vs xs f.1 g.1)

Follows-update :
    (p : User → Bool) (f : User → User) (us : List User)
    → ((u : User) → p u ≡ true → UserChange u (f u))
    → Follows us (update_where p f us)
Follows-update p f [] k = tt
Follows-update p f (u ∷ us) k = elim (Bool-cases (p u)) [
  | inl e ↦ rw e (changed-Becomes u (f u) (k u e), Follows-update p f us k)
  | inr e ↦ rw e (Becomes-refl u, Follows-update p f us k)
]

new_user-Joined : (id : ℕ) (email : Email) (h : ℕ) → Joined (new_user id email h)
new_user-Joined id email h = record { leads = here }

Follows-append : (us vs : List User) → All Joined vs → Follows us (us ++ vs)
Follows-append [] vs h = h
Follows-append (u ∷ us) vs h = (Becomes-refl u, Follows-append us vs h)

abbrev UsersFollow : World → World → Type 0
UsersFollow v w = Follows v.db.users w.db.users

UsersFollow-Closed : Closed UsersFollow
UsersFollow-Closed = record {
  same = λ w. Follows-refl w.db.users;
  then = λ u v w. Follows-trans u.db.users v.db.users w.db.users;
  restored = λ v w _. Follows-refl v.db.users;
  events = λ w _. Follows-refl w.db.users;
  records = λ w _. Follows-refl w.db.users;
  outbox = λ w _. Follows-refl w.db.users;
  invitations = λ w _. Follows-refl w.db.users;
  providers = λ w _. Follows-refl w.db.users;
  mismatches = λ w _. Follows-refl w.db.users;
  challenges = λ w _. Follows-refl w.db.users;
  secrets = λ w _. Follows-refl w.db.users;
  session_in = λ w _ _. Follows-refl w.db.users;
  sessions = λ w _ _ _. Follows-refl w.db.users;
  token_in = λ w _ _. Follows-refl w.db.users;
  tokens = λ w _ _. Follows-refl w.db.users;
  user_in = λ w id email h.
      Follows-append w.db.users (new_user id email h ∷ []) (new_user-Joined id email h, tt);
  users = λ w p f k. Follows-update p f w.db.users k;
}

-- What the hook of a deletion does to tasks leaves the account domain as it was.
abbrev pub Elsewhere : (ℕ → Service (Unit {0})) → Type 0
Elsewhere hook = (id : ℕ) (w : World) → after (hook id w) ≡ w

pub Elsewhere-Keeps :
    (R : World → World → Type 0) (c : Closed R) (hook : ℕ → Service (Unit {0}))
    → Elsewhere hook
    → (id : ℕ) → Keeps R (hook id)
Elsewhere-Keeps R c hook e id = record { at = λ w. subst (R w) (sym (e id w)) (c.same w) }

-- Any sequence of account actions moves each user along the account machine: a row keeps its id, its
-- status goes from pending to active, between active and deleting, and from deleting to deleted; a row
-- that is new has started as pending. The hook of a deletion is one that leaves the account domain as it
-- was.
pub serve_accounts-Follows :
    (p : Primitives) (hook : ℕ → Service (Unit {0})) (actions : List AccountAction) (w : World)
    → Elsewhere hook
    → Follows w.db.users (serve_accounts p hook actions w).db.users
serve_accounts-Follows p hook actions w e =
    serve_accounts-Keeps UsersFollow UsersFollow-Closed p hook
      (Elsewhere-Keeps UsersFollow UsersFollow-Closed hook e) actions w

abbrev StayConsistent : World → World → Type 0
StayConsistent v w = All Consistent v.db.users → All Consistent w.db.users

StayConsistent-Closed : Closed StayConsistent
StayConsistent-Closed = record {
  same = λ w h. h;
  then = λ u v w f g h. g (f h);
  restored = λ v w _ h. h;
  events = λ w _ h. h;
  records = λ w _ h. h;
  outbox = λ w _ h. h;
  invitations = λ w _ h. h;
  providers = λ w _ h. h;
  mismatches = λ w _ h. h;
  challenges = λ w _ h. h;
  secrets = λ w _ h. h;
  session_in = λ w _ _ h. h;
  sessions = λ w _ _ _ h. h;
  token_in = λ w _ _ h. h;
  tokens = λ w _ _ h. h;
  user_in = λ w id email x h.
      All-append Consistent w.db.users (new_user id email x ∷ []) h ((refl, refl), tt);
  users = λ w p f k h.
      All-update_where Consistent Consistent p f w.db.users (λ u c e. (k u e).consistent c)
        (λ u c _. c) h;
}

-- Any sequence of account actions keeps the CHECK constraints on a user's dates: a row with deleted_at is
-- deleted, and a row with deletion_deadline_at is deleting. The hook of a deletion is one that leaves the
-- account domain as it was.
pub serve_accounts-Consistent :
    (p : Primitives) (hook : ℕ → Service (Unit {0})) (actions : List AccountAction) (w : World)
    → Elsewhere hook
    → All Consistent w.db.users
    → All Consistent (serve_accounts p hook actions w).db.users
serve_accounts-Consistent p hook actions w e h =
    serve_accounts-Keeps StayConsistent StayConsistent-Closed p hook
      (Elsewhere-Keeps StayConsistent StayConsistent-Closed hook e) actions w h
