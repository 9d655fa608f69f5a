-- ===== src/Auth/Floor.antt =====
-- Tokens of a new login, and tokens after a change of the password.
use glassops.Prelude.{
  ℕ, ◌+◌, ◌≤◌, ◌≡◌, refl, String, Bool, true, false, ◌||◌, none, some, ltb, if◌then◌else◌, ◌==◌,
  arith, Option-cases, inl, inr, string_eq,
}
use glassops.Prelude.Text.{is_empty}
use glassops.Prelude.Dict
use glassops.Users.{Account, set_fields, or_old, update_user}
use glassops.Auth.{
  Claims, Library, Sessions, changed, second, access_token_expire, refresh_token_expire,
  access_claims, refresh_claims, or_zero, is_kind, password_fields, create_access_token,
  create_refresh_token, verify_token, is_token_blacklisted, predates, verify_refresh_token,
  access_revoked, change_password, force_change_password, verify_password,
}

module _ (L : Library) where
  open L use {encode, decode_live, decode_any, hash_token, hashpw}

  -- What PyJWT documents of a token that it has encoded: it decodes to its claims from iat on, and
  -- where the expiry is checked, until the last whole second before exp.
  pub record EncodesBack (c : Claims) : Type 0 where
    pub live_encode :
        (n iat exp : ℕ)
        → c.iat ≡ some iat
        → c.exp ≡ some exp
        → iat ≤ n
        → n + second ≤ exp
        → decode_live n (encode c) ≡ some c
    pub any_encode : (n iat : ℕ) → c.iat ≡ some iat → iat ≤ n → decode_any n (encode c) ≡ some c

  -- An access token that the program creates is verified as the address that it was created for,
  -- as an access token and as no other kind, up to a second before its lifetime is over.
  verify_token-create_access_token :
      (t0 n : ℕ) (email kind : String)
      → EncodesBack (access_claims t0 email)
      → t0 ≤ n
      → n + second ≤ t0 + access_token_expire
      → verify_token L n (create_access_token L t0 email) kind
        ≡ (if "access" == kind then some email else none)
  unfolding verify_token create_access_token is_kind
  verify_token-create_access_token t0 n email kind law le h =
      rw (verify_token, law.live_encode n t0 (t0 + access_token_expire) refl refl le h) refl

  -- A refresh token that the program creates is accepted as the address that it was created for, up
  -- to a second before its lifetime is over, while its hash is not listed as revoked, the account
  -- is there, and its floor is not after the token's creation.
  verify_refresh_token-create_refresh_token :
      (t0 n later : ℕ) (email : String) (s : Sessions) (u : Account)
      → EncodesBack (refresh_claims t0 email)
      → t0 ≤ n
      → n ≤ later
      → n + second ≤ t0 + refresh_token_expire
      → is_empty email ≡ false
      → is_token_blacklisted (hash_token (create_refresh_token L t0 email)) s ≡ false
      → Dict.lookup email s.accounts ≡ some u
      → u.tokens_valid_after ≤ t0
      → verify_refresh_token L n later (create_refresh_token L t0 email) s ≡ some email
  unfolding verify_refresh_token verify_token create_refresh_token is_kind predates or_zero
  verify_refresh_token-create_refresh_token t0 n later email s u law le le' h given fresh account
        floor =
      let live = law.live_encode n t0 (t0 + refresh_token_expire) refl refl le h in
      let any = law.any_encode later t0 refl (omega arith) in ground (arith, live, any)

  module _ (validate_password : String → Bool) where
    change_password-floor :
        (now : ℕ) (email old_password new_password : String) (s s' : Sessions) (u : Account)
        → change_password L validate_password now email old_password new_password s ≡ (changed, s')
        → Dict.lookup email s'.accounts ≡ some u
        → (u.tokens_valid_after ≡ now) × (s'.blacklist ≡ s.blacklist)
    unfolding change_password verify_password update_user set_fields or_old password_fields
    change_password-floor now email old_password new_password s s' u h account =
        elim (Option-cases (Dict.lookup email s.accounts)) [
          | inl nobody ↦ absurd (ground (arith, nobody))
          | inr (u0, known) ↦ ground (
            arith,
            known,
            Dict.lookup-insert email email
                (set_fields (password_fields (hashpw new_password) (some now)) u0) s.accounts,
          )
        ]

    -- After a successful change of the password an access token of the address is revoked exactly
    -- if it was listed before or was issued before the time of the change.
    change_password-revokes :
        (now later : ℕ) (email old_password new_password token : String) (s s' : Sessions)
        (u : Account) (d : Claims)
        → change_password L validate_password now email old_password new_password s ≡ (changed, s')
        → Dict.lookup email s'.accounts ≡ some u
        → decode_any later token ≡ some d
        → access_revoked L later token u s'
          ≡ (is_token_blacklisted (hash_token token) s || ltb (or_zero d.iat) now)
    unfolding access_revoked predates is_token_blacklisted
    change_password-revokes now later email old_password new_password token s s' u d h account
          claims =
        let (floor, same) =
          change_password-floor now email old_password new_password s s' u h account in
        ground (arith, floor, same, claims)

    -- A forced change of the password that succeeds leaves the access tokens of the address revoked
    -- exactly if they were revoked before, clears the demand, and was proved by the old password.
    force_change_password-keeps :
        (later : ℕ) (email current_password new_password token : String) (s s' : Sessions)
        (u u' : Account)
        → force_change_password L validate_password email current_password new_password s
          ≡ (changed, s')
        → Dict.lookup email s.accounts ≡ some u
        → Dict.lookup email s'.accounts ≡ some u'
        → (access_revoked L later token u' s' ≡ access_revoked L later token u s)
          × (u'.must_change_password ≡ false)
          × (L.checkpw current_password u.password_hash ≡ true)
    unfolding force_change_password verify_password update_user set_fields or_old password_fields
        access_revoked predates is_token_blacklisted
    force_change_password-keeps later email current_password new_password token s s' u u' h known
          account =
        ground (
          arith,
          Dict.lookup-insert email email (set_fields (password_fields (hashpw new_password) none) u)
              s.accounts,
        )
