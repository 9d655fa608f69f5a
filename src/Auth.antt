-- ===== src/Auth.antt =====
-- backend/app/services/auth_service.py, with the token blacklist of backend/app/database.py: tokens
-- and passwords. PyJWT, SHA-256 and bcrypt are arguments.
use glassops.Prelude.{
  ℕ, ◌+◌, ◌*◌, String, Bool, true, false, not, ◌||◌, Option, none, some, [], ◌∷◌, ltb,
  if◌then◌else◌, ◌==◌, nat_eq, string_eq,
}
use glassops.Prelude.Dict
use glassops.Prelude.Dict.{Dict}
use glassops.Prelude.Text.{is_empty}
use glassops.Users.{Account, Accounts, Fields, update_user}
pub mod Origin
pub mod Gate
pub mod Logout
pub mod Floor
pub mod CrossSite
pub mod Admission
pub mod Tests

abbrev pub second : ℕ
second = 1_000_000

-- The claims of a token that the program writes and reads.
pub record Claims : Type 0 where
  pub sub : Option String
  pub iat : Option ℕ
  pub exp : Option ℕ
  pub kind : Option String

-- What the program uses of PyJWT under its secret key, at a reading of the clock: `decode_live`
-- requires the claim exp and checks it, `decode_any` does not look at it. `hash_token` is the
-- hexadecimal SHA-256.
pub record Library : Type 0 where
  pub encode : Claims → String
  pub decode_live : ℕ → String → Option Claims
  pub decode_any : ℕ → String → Option Claims
  pub hash_token : String → String
  pub checkpw : String → String → Bool
  pub hashpw : String → String

-- The tables users and token_blacklist.
pub record Sessions : Type 0 where
  pub accounts : Accounts
  pub blacklist : Dict String ℕ

abbrev pub access_token_expire : ℕ
access_token_expire = 15 * 60 * second

abbrev pub refresh_token_expire : ℕ
refresh_token_expire = 7 * 24 * 3600 * second

unfoldable pub or_zero : Option ℕ → ℕ
or_zero none = 0
or_zero (some n) = n

-- `if not email`
unfoldable pub is_present : Option String → Bool
is_present none = false
is_present (some s) = not (is_empty s)

unfoldable pub is_kind : Option String → String → Bool
is_kind none kind = false
is_kind (some k) kind = k == kind

-- The columns of an update that leaves role and activity alone.
unfoldable pub password_fields : String → Option ℕ → Fields
password_fields password_hash tokens_valid_after = record {
  role = none;
  is_active = none;
  password_hash = some password_hash;
  must_change_password = some false;
  tokens_valid_after = tokens_valid_after;
}

abbrev pub access_claims : ℕ → String → Claims
access_claims now email = record {
  sub = some email;
  iat = some now;
  exp = some (now + access_token_expire);
  kind = some "access";
}

abbrev pub refresh_claims : ℕ → String → Claims
refresh_claims now email = record {
  sub = some email;
  iat = some now;
  exp = some (now + refresh_token_expire);
  kind = some "refresh";
}

-- What the password calls answer.
pub data Change : Type 0 where
  changed : Change
  unknown_user : Change
  not_required : Change
  wrong_password : Change
  weak_password : Change

-- `INSERT OR IGNORE`
unfoldable pub blacklist_token : String → ℕ → Sessions → Sessions
blacklist_token token_hash expires_at s = elim (Dict.lookup token_hash s.blacklist) [
  | none ↦ record s { blacklist = Dict.insert token_hash expires_at s.blacklist }
  | some _ ↦ s
]

unfoldable pub is_token_blacklisted : String → Sessions → Bool
is_token_blacklisted token_hash s = elim (Dict.lookup token_hash s.blacklist) [
  | none ↦ false
  | some _ ↦ true
]

unfoldable pub drop_expired : ℕ → Dict String ℕ → Dict String ℕ
drop_expired now [] = []
drop_expired now ((h, e) ∷ d) =
    let rest = drop_expired now d in if ltb e now then rest else (h, e) ∷ rest

unfoldable pub cleanup_blacklist : ℕ → Sessions → Sessions
cleanup_blacklist now s = record s { blacklist = drop_expired now s.blacklist }

-- `iat` against the invalidation floor of the account.
unfoldable pub predates : Claims → Account → Bool
predates c u = ltb (or_zero c.iat) u.tokens_valid_after

unfoldable pub or_now : Option ℕ → ℕ → ℕ
or_now none default = default
or_now (some e) default = e

module _ (L : Library) where
  open L use {encode, decode_live, decode_any, hash_token, checkpw, hashpw}

  unfoldable pub create_access_token : ℕ → String → String
  create_access_token now email = encode (access_claims now email)

  unfoldable pub create_refresh_token : ℕ → String → String
  create_refresh_token now email = encode (refresh_claims now email)

  unfoldable pub verify_token : ℕ → String → String → Option String
  verify_token now token kind = elim (decode_live now token) [
    | none ↦ none
    | some c ↦ if is_kind c.kind kind then c.sub else none
  ]

  -- Both readings of the clock, of the two calls of `jwt.decode`.
  unfoldable pub verify_refresh_token : ℕ → ℕ → String → Sessions → Option String
  verify_refresh_token now later token s = elim (verify_token now token "refresh") [
    | none ↦ none
    | some email ↦
        if is_empty email || is_token_blacklisted (hash_token token) s
        then none
        else elim (decode_any later token) [
          | none ↦ none
          | some c ↦ elim (Dict.lookup email s.accounts) [
            | none ↦ none
            | some u ↦ if predates c u then none else some email
          ]
        ]
  ]

  -- Called with the account of the token's address.
  unfoldable pub access_revoked : ℕ → String → Account → Sessions → Bool
  access_revoked now token u s =
      if is_token_blacklisted (hash_token token) s
      then true
      else elim (decode_any now token) [ none ↦ true | some c ↦ predates c u ]

  unfoldable pub revoke_token : ℕ → ℕ → String → Sessions → Sessions
  revoke_token now lifetime token s = elim (decode_any now token) [
    | none ↦ s
    | some c ↦ blacklist_token (hash_token token) (or_now c.exp (now + lifetime)) s
  ]

  unfoldable pub revoke_refresh_token : ℕ → String → Sessions → Sessions
  revoke_refresh_token now token s = revoke_token now refresh_token_expire token s

  unfoldable pub revoke_access_token : ℕ → String → Sessions → Sessions
  revoke_access_token now token s = revoke_token now access_token_expire token s

  -- For an unknown address bcrypt runs on a dummy hash, and its answer is not used.
  unfoldable pub verify_password : String → String → Sessions → Bool
  verify_password email password s = elim (Dict.lookup email s.accounts) [
    | none ↦ false
    | some u ↦ checkpw password u.password_hash
  ]

  module _ (validate_password : String → Bool) where
    unfoldable pub change_password : ℕ → String → String → String → Sessions → Change × Sessions
    change_password now email old_password new_password s =
        if not (verify_password email old_password s)
        then (wrong_password, s)
        else if not (validate_password new_password)
        then (weak_password, s)
        else (
          changed,
          record s {
            accounts =
                update_user email (password_fields (hashpw new_password) (some now)) s.accounts;
          },
        )

    unfoldable pub force_change_password : String → String → String → Sessions → Change × Sessions
    force_change_password email current_password new_password s =
        elim (Dict.lookup email s.accounts) [
          | none ↦ (unknown_user, s)
          | some u ↦
              if not u.must_change_password
              then (not_required, s)
              else if not (verify_password email current_password s)
              then (wrong_password, s)
              else if not (validate_password new_password)
              then (weak_password, s)
              else (
                changed,
                record s {
                  accounts =
                      update_user email (password_fields (hashpw new_password) none) s.accounts;
                },
              )
        ]
