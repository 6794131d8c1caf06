-- ===== src/Accounts/Users.antt =====
-- The statements on `users` that the account services share, on the row of an owner's session.
use agent_craft.Prelude.{ℕ, Bool, ◌&&◌, ◌==◌, Option, find, count, update_where}
use agent_craft.Accounts.Rows.{User, UserStatus, Email, AccountDb, same_email}
use agent_craft.Accounts.Service.{Service, returned}

abbrev pub find_user : ℕ → AccountDb → Option User
find_user id d = find (λ u. u.id == id) d.users

abbrev pub user_by_email : Email → AccountDb → Option User
user_by_email e d = find (λ u. same_email u.email e) d.users

-- UPDATE users ... WHERE id = :u AND guard, with its rowcount.
unfoldable pub update_user : ℕ → (UserStatus → Bool) → (User → User) → Service ℕ
update_user owner guard f w =
    returned (count (λ u. u.id == owner && guard u.status) w.db.users) (record w {
      db = record w.db { users = update_where (λ u. u.id == owner && guard u.status) f w.db.users };
    })
