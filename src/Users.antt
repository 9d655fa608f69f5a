-- ===== src/Users.antt =====
-- The table users of backend/app/database.py and the functions on it.
use glassops.Prelude.{
  ℕ, ◌+◌, String, Bool, true, false, not, ◌&&◌, Option, none, some, [], ◌∷◌, string_eq,
}
use glassops.Prelude.Dict
use glassops.Prelude.Dict.{Dict}
pub mod Router
pub mod Admins
pub mod Revocation
pub mod Tests

pub data Role : Type 0 where
  admin : Role
  user : Role

-- A row of the table users, whose key is the address.
pub record Account : Type 0 where
  pub password_hash : String
  pub totp_secret : Option String
  pub totp_enabled : Bool
  pub must_change_password : Bool
  pub created_at : ℕ
  pub role : Role
  pub is_active : Bool
  pub tokens_valid_after : ℕ

abbrev pub Accounts : Type 0
Accounts = Dict String Account

unfoldable pub is_admin : Role → Bool
is_admin admin = true
is_admin user = false

unfoldable pub same_role : Role → Role → Bool
same_role admin r = is_admin r
same_role user r = not (is_admin r)

unfoldable pub is_active_admin : Account → Bool
is_active_admin u = is_admin u.role && u.is_active

unfoldable pub one_if : Bool → ℕ
one_if true = 1
one_if false = 0

-- `SELECT COUNT(*) FROM users WHERE role = 'admin' AND is_active = 1`
unfoldable pub count_active_admins : Accounts → ℕ
count_active_admins [] = 0
count_active_admins ((_, u) ∷ users) = one_if (is_active_admin u) + count_active_admins users

-- What `create_user` inserts, and the columns' defaults.
unfoldable pub new_account : ℕ → String → Role → Account
new_account now password_hash role = record {
  password_hash = password_hash;
  totp_secret = none;
  totp_enabled = false;
  must_change_password = true;
  created_at = now;
  role = role;
  is_active = true;
  tokens_valid_after = 0;
}

-- The columns that `update_user` is called with.
pub record Fields : Type 0 where
  pub role : Option Role
  pub is_active : Option Bool
  pub password_hash : Option String
  pub must_change_password : Option Bool
  pub tokens_valid_after : Option ℕ

unfoldable pub or_old {ℓ} : {A : Type ℓ} → Option A → A → A
or_old none old = old
or_old (some new) old = new

unfoldable pub set_fields : Fields → Account → Account
set_fields f u = record u {
  role = or_old f.role u.role;
  is_active = or_old f.is_active u.is_active;
  password_hash = or_old f.password_hash u.password_hash;
  must_change_password = or_old f.must_change_password u.must_change_password;
  tokens_valid_after = or_old f.tokens_valid_after u.tokens_valid_after;
}

-- `UPDATE users SET … WHERE email = ?`
unfoldable pub update_user : String → Fields → Accounts → Accounts
update_user email f users = elim (Dict.lookup email users) [
  | none ↦ users
  | some u ↦ Dict.insert email (set_fields f u) users
]
