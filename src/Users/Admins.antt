-- ===== src/Users/Admins.antt =====
-- The number of active admins through the requests of the router.
use glassops.Prelude.{
  ℕ, ◌+◌, ◌≤◌, ◌≡◌, refl, String, Bool, true, false, not, ◌&&◌, ◌||◌, Option, none, some, List, [],
  ◌∷◌, arith, leb, ltb, if◌then◌else◌, ◌==◌, string_eq,
}
use glassops.Prelude.Dict
use glassops.Prelude.Dict.{Dict, lookup, NodupKeys, insert-NodupKeys, erase-NodupKeys}
use glassops.Users.{
  new_account, Account, Accounts, Role, is_admin, same_role, is_active_admin, one_if,
  count_active_admins, Fields, or_old, set_fields, update_user,
}
use glassops.Users.Router.{
  same_flag, Answer, done, refused, and_then, UpdateUserRequest, require_admin, role_field,
  active_field, password_field, patch_fields, patch_user, post_user, delete_user_route, Request,
  post, patch, delete, route, serve, not_found, yourself, already_exists, last_admin, weak_password,
}

worth : Option Account → ℕ
worth none = 0
worth (some u) = one_if (is_active_admin u)

count-insert :
    (email : String) (u : Account) (users : Accounts)
    → count_active_admins (Dict.insert email u users) + worth (lookup email users)
      ≡ count_active_admins users + one_if (is_active_admin u)
unfolding count_active_admins Dict.insert lookup worth
count-insert email u [] = ground arith
count-insert email u ((e, v) ∷ users) = ground (arith, count-insert email u users)

erase_absent :
    (email : String) (users : Accounts) → lookup email users ≡ none → Dict.erase email users ≡ users
unfolding Dict.erase lookup
erase_absent email [] h = refl
erase_absent email ((e, v) ∷ users) h = ground (arith, erase_absent email users)

count-erase :
    (email : String) (users : Accounts)
    → NodupKeys users
    → count_active_admins (Dict.erase email users) + worth (lookup email users)
      ≡ count_active_admins users
unfolding count_active_admins Dict.erase lookup worth
count-erase email [] u = ground arith
count-erase email ((e, v) ∷ users) u =
    ground (arith, count-erase email users u.1, u.0, erase_absent email users)

-- The accounts after an answer.
unfoldable pub accounts_after : Answer Accounts → Accounts → Accounts
accounts_after (done users') users = users'
accounts_after (refused r) users = users

delete-keeps_admin :
    (actor email : String) (users : Accounts)
    → NodupKeys users
    → 1 ≤ count_active_admins users
    → 1 ≤ count_active_admins (accounts_after (delete_user_route actor email users) users)
unfolding delete_user_route accounts_after worth is_active_admin one_if is_admin
delete-keeps_admin actor email users u h = ground (arith, count-erase email users u, h)

module _ (validate_password : String → Bool) (hashpw : String → String) where
  post-keeps_admin :
      (now : ℕ) (email password : String) (role : Role) (users : Accounts)
      → 1 ≤ count_active_admins users
      → 1
        ≤ count_active_admins (
            accounts_after (post_user validate_password hashpw now email password role users) users)
  unfolding post_user accounts_after worth
  post-keeps_admin now email password role users h =
      ground (arith, count-insert email (new_account now (hashpw password) role) users, h)

  -- Whether columns that take an active admin away are allowed only where there are two.
  unfoldable spares : Accounts → Account → Answer Fields → Bool
  spares users target (refused r) = true
  spares users target (done f) =
      not (is_active_admin target && not (is_active_admin (set_fields f target)))
      || ltb 1 (count_active_admins users)

  patch_fields-spares :
      (now : ℕ) (actor email : String) (body : UpdateUserRequest) (target : Account)
      (users : Accounts)
      → spares users target
          (patch_fields validate_password hashpw now actor email body target users)
        ≡ true
  unfolding spares patch_fields and_then role_field active_field password_field is_active_admin
      set_fields or_old is_admin same_role same_flag
  patch_fields-spares now actor email body target users = ground arith

  patch-keeps_admin :
      (now : ℕ) (actor email : String) (body : UpdateUserRequest) (users : Accounts)
      → 1 ≤ count_active_admins users
      → 1
        ≤ count_active_admins
            (accounts_after (patch_user validate_password hashpw now actor email body users) users)
  unfolding patch_user accounts_after and_then update_user spares worth one_if
  patch-keeps_admin now actor email body users h = by_target (lookup email users) refl
    where
      by_answer :
          (target : Account) (a : Answer Fields)
          → lookup email users ≡ some target
          → spares users target a ≡ true
          → 1
            ≤ count_active_admins
                (accounts_after (and_then a (λ f. done (update_user email f users))) users)
      by_answer target (refused r) e s = h
      by_answer target (done f) e s =
          ground (arith, e, s, h, count-insert email (set_fields f target) users)

      by_target :
          (o : Option Account)
          → lookup email users ≡ o
          → 1
            ≤ count_active_admins (
                accounts_after
                  (elim o [
                    | none ↦ refused not_found
                    | some target ↦
                        and_then
                          (patch_fields validate_password hashpw now actor email body target users)
                          (λ f. done (update_user email f users))
                  ])
                  users)
      by_target none e = h
      by_target (some target) e =
          by_answer target (patch_fields validate_password hashpw now actor email body target users)
            e (patch_fields-spares now actor email body target users)

  -- A sequence of requests, one after the other, each with its actor.
  abbrev pub serve_all : List (String × Request) → Accounts → Accounts
  serve_all [] users = users
  serve_all ((actor, request) ∷ rs) users =
      serve_all rs (accounts_after (serve validate_password hashpw actor request users) users)

  module _ (users : Accounts) (u : NodupKeys users) where
    abbrev Unique : Answer Accounts → Type 0
    Unique a = NodupKeys (accounts_after a users)

    Unique-if :
        (b : Bool) (x y : Answer Accounts) → Unique x → Unique y → Unique (if b then x else y)
    Unique-if true x y p q = p
    Unique-if false x y p q = q

    Unique-delete : (actor email : String) → Unique (delete_user_route actor email users)
    unfolding delete_user_route accounts_after
    Unique-delete actor email = by_target (lookup email users)
      where
        by_target :
            (o : Option Account)
            → Unique (elim o [
              | none ↦ refused not_found
              | some target ↦
                  if email == actor
                  then refused yourself
                  else if is_admin target.role && leb (count_active_admins users) 1
                  then refused last_admin
                  else done (Dict.erase email users)
            ])
        by_target none = u
        by_target (some target) =
            let spare = is_admin target.role && leb (count_active_admins users) 1 in
            let erased = done (Dict.erase email users) in
            Unique-if (email == actor) (refused yourself)
              (if spare then refused last_admin else erased) u
              (Unique-if spare (refused last_admin) erased u (erase-NodupKeys email users u))

    Unique-post :
        (now : ℕ) (email password : String) (role : Role)
        → Unique (post_user validate_password hashpw now email password role users)
    unfolding post_user accounts_after
    Unique-post now email password role = by_target (lookup email users)
      where
        by_target :
            (o : Option Account)
            → Unique (elim o [
              | some _ ↦ refused already_exists
              | none ↦
                  if validate_password password
                  then done (Dict.insert email (new_account now (hashpw password) role) users)
                  else refused weak_password
            ])
        by_target (some _) = u
        by_target none =
            let row = new_account now (hashpw password) role in
            Unique-if (validate_password password) (done (Dict.insert email row users))
              (refused weak_password) (insert-NodupKeys email row users u) u

    Unique-patch :
        (now : ℕ) (actor email : String) (body : UpdateUserRequest)
        → Unique (patch_user validate_password hashpw now actor email body users)
    unfolding patch_user accounts_after and_then update_user
    Unique-patch now actor email body = by_target (lookup email users)
      where
        by_row :
            (f : Fields) (o : Option Account)
            → NodupKeys
                (elim o [ none ↦ users | some r ↦ Dict.insert email (set_fields f r) users ])
        by_row f none = u
        by_row f (some r) = insert-NodupKeys email (set_fields f r) users u

        by_answer :
            (a : Answer Fields) → Unique (and_then a (λ f. done (update_user email f users)))
        by_answer (refused r) = u
        by_answer (done f) = by_row f (lookup email users)

        by_target :
            (o : Option Account)
            → Unique (elim o [
              | none ↦ refused not_found
              | some target ↦
                  and_then
                    (patch_fields validate_password hashpw now actor email body target users)
                    (λ f. done (update_user email f users))
            ])
        by_target none = u
        by_target (some target) =
            by_answer (patch_fields validate_password hashpw now actor email body target users)

    Unique-serve :
        (actor : String) (request : Request)
        → Unique (serve validate_password hashpw actor request users)
    unfolding serve route accounts_after
    Unique-serve actor (post now email password role) =
        Unique-if (require_admin actor users) _ _ (Unique-post now email password role) u
    Unique-serve actor (patch now email body) =
        Unique-if (require_admin actor users) _ _ (Unique-patch now actor email body) u
    Unique-serve actor (delete email) =
        Unique-if (require_admin actor users) _ _ (Unique-delete actor email) u

  serve-keeps_admin :
      (actor : String) (request : Request) (users : Accounts)
      → NodupKeys users
      → 1 ≤ count_active_admins users
      → 1
        ≤ count_active_admins
            (accounts_after (serve validate_password hashpw actor request users) users)
  unfolding serve route accounts_after
  serve-keeps_admin actor (post now email password role) users u h =
      ground (arith, h, post-keeps_admin now email password role users h)
  serve-keeps_admin actor (patch now email body) users u h =
      ground (arith, h, patch-keeps_admin now actor email body users h)
  serve-keeps_admin actor (delete email) users u h =
      ground (arith, h, delete-keeps_admin actor email users u h)

  -- From accounts with different addresses, an active admin among them, any sequence of requests
  -- to create, change and delete accounts, each served before the next one begins, leaves an
  -- active admin: whoever sends them, themselves included, whatever they combine, and whatever
  -- the password policy is.
  pub serve_all-keeps_admin :
      (rs : List (String × Request)) (users : Accounts)
      → NodupKeys users
      → 1 ≤ count_active_admins users
      → 1 ≤ count_active_admins (serve_all rs users)
  serve_all-keeps_admin [] users u h = h
  serve_all-keeps_admin ((actor, request) ∷ rs) users u h =
      serve_all-keeps_admin rs
        (accounts_after (serve validate_password hashpw actor request users) users)
        (Unique-serve users u actor request) (serve-keeps_admin actor request users u h)
