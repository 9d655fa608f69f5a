-- ===== src/Users/Revocation.antt =====
-- Which changes of an account end its sessions.
use glassops.Prelude.{ℕ, ◌≡◌, String, Bool, not, ◌&&◌, ◌||◌, arith, if◌then◌else◌}
use glassops.Users.{Account, Accounts, is_admin, same_role, Fields, or_old, set_fields}
use glassops.Users.Router.{
  same_flag, done, and_then, UpdateUserRequest, role_field, active_field, password_field,
  patch_fields, is_some, is_false,
}

module _ (validate_password : String → Bool) (hashpw : String → String) where
  -- A change that the checks allow moves the time before which tokens are void to the time of the
  -- request exactly if the role is another one, a new password is set, or an active account is
  -- no longer active; else it leaves this time as it was.
  patch_fields-revokes :
      (now : ℕ) (actor email : String) (body : UpdateUserRequest) (target : Account)
      (users : Accounts) (f : Fields)
      → patch_fields validate_password hashpw now actor email body target users ≡ done f
      → let after = set_fields f target in
        after.tokens_valid_after ≡ (
          if not (same_role after.role target.role)
            || is_some body.new_password
            || (target.is_active && not after.is_active)
          then now
          else target.tokens_valid_after)
  unfolding patch_fields and_then role_field active_field password_field set_fields or_old is_admin
      same_role same_flag is_some is_false
  patch_fields-revokes now actor email body target users f e = ground (arith, e)
