-- ===== src/Users/Router.antt =====
-- backend/app/routers/users.py: the requests that write accounts.
use glassops.Prelude.{
  ℕ, String, Bool, true, false, not, ◌&&◌, ◌||◌, Option, none, some, leb, if◌then◌else◌, ◌==◌,
  string_eq,
}
use glassops.Prelude.Dict
use glassops.Prelude.Dict.{Dict}
use glassops.Users.{
  Account, Accounts, Fields, Role, count_active_admins, is_active_admin, is_admin, new_account,
  same_role, update_user,
}

-- The answers that are no success.
pub data Refusal : Type 0 where
  admin_required : Refusal
  already_exists : Refusal
  not_found : Refusal
  weak_password : Refusal
  last_admin : Refusal
  yourself : Refusal

pub data Answer (A : Type 0) : Type 0 where
  done : A → Answer A
  refused : Refusal → Answer A

unfoldable pub and_then : {A B : Type 0} → Answer A → (A → Answer B) → Answer B
and_then (done a) f = f a
and_then (refused r) f = refused r

pub record UpdateUserRequest : Type 0 where
  pub role : Option Role
  pub is_active : Option Bool
  pub new_password : Option String

-- `require_admin`
unfoldable pub require_admin : String → Accounts → Bool
require_admin email users = elim (Dict.lookup email users) [
  | none ↦ false
  | some u ↦ is_active_admin u
]

-- Whether the role changes, to what.
unfoldable pub role_field : Account → UpdateUserRequest → Accounts → Answer (Option Role)
role_field target body users = elim body.role [
  | none ↦ done none
  | some r ↦
      if same_role r target.role
      then done none
      else if is_admin target.role && not (is_admin r) && leb (count_active_admins users) 1
      then refused last_admin
      else done (some r)
]

unfoldable pub same_flag : Bool → Bool → Bool
same_flag true b = b
same_flag false b = not b

unfoldable pub active_field :
    String → String → Account → UpdateUserRequest → Accounts → Answer (Option Bool)
active_field actor email target body users = elim body.is_active [
  | none ↦ done none
  | some active ↦
      if same_flag active target.is_active
      then done none
      else if not active && is_admin target.role && leb (count_active_admins users) 1
      then refused last_admin
      else if not active && email == actor
      then refused yourself
      else done (some active)
]

unfoldable pub is_some : {A : Type 0} → Option A → Bool
is_some none = false
is_some (some _) = true

unfoldable pub is_false : Option Bool → Bool
is_false none = false
is_false (some b) = not b

-- What `validate_password` accepts, and the hash that `bcrypt.hashpw` makes with its new salt.
module _ (validate_password : String → Bool) (hashpw : String → String) where
  unfoldable pub password_field : UpdateUserRequest → Answer (Option String)
  password_field body = elim body.new_password [
    | none ↦ done none
    | some p ↦ if validate_password p then done (some (hashpw p)) else refused weak_password
  ]

  -- Everything before the write of `patch_user`: its checks, and the columns they allow.
  unfoldable pub patch_fields :
      ℕ → String → String → UpdateUserRequest → Account → Accounts → Answer Fields
  patch_fields now actor email body target users = and_then (role_field target body users) (λ role.
      and_then (active_field actor email target body users) (λ active.
        and_then (password_field body) (λ password. done (record {
          role = role;
          is_active = active;
          password_hash = password;
          must_change_password = if is_some password then some true else none;
          tokens_valid_after =
              if is_some role || is_some password || is_false active then some now else none;
        }))))

  -- `patch_user`. Without a column the update is left out, and changes nothing.
  unfoldable pub patch_user : ℕ → String → String → UpdateUserRequest → Accounts → Answer Accounts
  patch_user now actor email body users = elim (Dict.lookup email users) [
    | none ↦ refused not_found
    | some target ↦
        and_then (patch_fields now actor email body target users)
          (λ f. done (update_user email f users))
  ]

  -- `post_user`, with `create_user`.
  unfoldable pub post_user : ℕ → String → String → Role → Accounts → Answer Accounts
  post_user now email password role users = elim (Dict.lookup email users) [
    | some _ ↦ refused already_exists
    | none ↦
        if validate_password password
        then done (Dict.insert email (new_account now (hashpw password) role) users)
        else refused weak_password
  ]

-- `delete_user_route`
unfoldable pub delete_user_route : String → String → Accounts → Answer Accounts
delete_user_route actor email users = elim (Dict.lookup email users) [
  | none ↦ refused not_found
  | some target ↦
      if email == actor
      then refused yourself
      else if is_admin target.role && leb (count_active_admins users) 1
      then refused last_admin
      else done (Dict.erase email users)
]

-- A request of the router that writes, with its clock.
pub data Request : Type 0 where
  post : (now : ℕ) (email password : String) (role : Role) → Request
  patch : (now : ℕ) (email : String) (body : UpdateUserRequest) → Request
  delete : (email : String) → Request

module _ (validate_password : String → Bool) (hashpw : String → String) where
  unfoldable pub route : String → Request → Accounts → Answer Accounts
  route actor (post now email password role) users =
      post_user validate_password hashpw now email password role users
  route actor (patch now email body) users =
      patch_user validate_password hashpw now actor email body users
  route actor (delete email) users = delete_user_route actor email users

  -- One request, from the gate to the answer, where no other request comes between.
  unfoldable pub serve : String → Request → Accounts → Answer Accounts
  serve actor request users =
      if require_admin actor users then route actor request users else refused admin_required
