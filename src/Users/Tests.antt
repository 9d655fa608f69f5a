-- ===== src/Users/Tests.antt =====
-- Requests of admins, one after the other and at the same time.
use glassops.Prelude.{
  ◌≤◌, ◌≡◌, refl, String, Bool, true, none, some, List, [], ◌∷◌, arith, string_eq, false,
}
use glassops.Prelude.Dict
use glassops.Prelude.Dict.{lookup}
use glassops.Users.{
  Account, Accounts, admin, user, update_user, count_active_admins, new_account, same_role,
  is_admin, one_if, is_active_admin, set_fields, or_old,
}
use glassops.Users.Router.{
  done, and_then, UpdateUserRequest, patch, Request, patch_fields, role_field, active_field,
  password_field, is_some, is_false, same_flag,
}
use glassops.Users.Admins.{serve_all, serve_all-keeps_admin, accounts_after}

abbrev any_password : String → Bool
any_password p = true

abbrev hash_of : String → String
hash_of p = p

abbrev ann : Account
ann = new_account 0 "h1" admin

abbrev two_admins : Accounts
two_admins = ("ann", new_account 0 "h1" admin) ∷ ("bob", new_account 0 "h2" admin) ∷ []

abbrev demote : UpdateUserRequest
demote = record { role = some user; is_active = none; new_password = none }

abbrev coup : List (String × Request)
coup =
    ("ann", patch 1 "bob" demote)
    ∷ ("bob", patch 2 "ann" demote)
    ∷ ("ann", patch 3 "ann" demote)
    ∷ []

served : Unit {0}
unfolding patch_fields and_then update_user count_active_admins new_account accounts_after lookup
    string_eq role_field same_role is_admin one_if is_active_admin active_field password_field
    Dict.insert set_fields or_old is_some is_false same_flag
served = tt

serve_all-keeps_admin_example :
    1 ≤ count_active_admins (serve_all any_password hash_of coup two_admins)
unfolding served
serve_all-keeps_admin_example =
    serve_all-keeps_admin any_password hash_of coup two_admins (refl, (refl, tt)) (omega arith)

-- Two requests whose checks both run before either write leave no active admin.
demoted_together :
    let bob_goes =
      patch_fields any_password hash_of 1 "ann" "bob" demote
        (new_account 0 "h2" admin)
        two_admins in
    let ann_goes =
      patch_fields any_password hash_of 1 "bob" "ann" demote
        (new_account 0 "h1" admin)
        two_admins in
    count_active_admins (
      accounts_after
        (and_then bob_goes (λ f.
          and_then ann_goes (λ g. done (update_user "ann" g (update_user "bob" f two_admins)))))
        two_admins)
    ≡ 0
unfolding served
demoted_together = refl

abbrev deactivate : UpdateUserRequest
deactivate = record { role = none; is_active = some false; new_password = none }
