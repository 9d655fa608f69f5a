-- ===== src/Auth/Tests.antt =====
-- A login of one address and what becomes of its two tokens.
use glassops.Prelude.{
  ℕ, ◌≡◌, ◌≢◌, ◌↔◌, refl, String, Bool, true, false, Option, none, some, [], ◌∷◌, ltb,
  if◌then◌else◌, ◌==◌, arith, string_eq, nat_eq,
}
use glassops.Prelude.Text.{is_empty, strip, split, is_space, skip}
use glassops.Prelude.Dict
use glassops.Users.{Account, admin, new_account, update_user, set_fields, or_old}
use glassops.Net.{lower, lower_codes, same_codes}
use glassops.Auth.{
  Claims, Library, Sessions, refresh_token_expire, access_claims, refresh_claims, or_zero, is_kind,
  is_token_blacklisted, verify_refresh_token, revoke_token, revoke_access_token, verify_password,
  change_password, force_change_password, password_fields,
}
use glassops.Auth.Origin.{
  Hostname, named, has_slashes, starts_slash, with_slashes, two_slashes, parse_setting,
  parse_origins, add_host, judge_host, is_own_host,
}
use glassops.Auth.Gate.{
  token_of, auth_headers, note_header, last_header, method_of, is_public, cookie_token, Moment,
  Scope, Header, forwarded, refused, authenticate, check_origin, call,
}
use glassops.Auth.Logout.{cleanup, write_accounts, run, Documented, revoke_refresh_token-final}
use glassops.Auth.Floor.{EncodesBack}
use glassops.Auth.Admission.{IsAdmitted, call-forwards, authenticate-revoked}
use glassops.Auth.CrossSite.{
  no_cache, decide, decide_host, decide_named, check_all, check_all-decide_all, cache_after,
  call-foreign,
}

abbrev claims_of : String → Option Claims
claims_of t =
    if t == "A"
    then some (access_claims 10 "ann")
    else if t == "R"
    then some (refresh_claims 10 "ann")
    else none

abbrev live_claims : ℕ → Option Claims → Option Claims
live_claims now none = none
live_claims now (some c) = if ltb now (or_zero c.exp) then some c else none

-- The token of each kind is one letter.
abbrev letters : Library
letters = record {
  encode = λ c. if is_kind c.kind "access" then "A" else "R";
  decode_live = λ now t. live_claims now (claims_of t);
  decode_any = λ now t. claims_of t;
  hash_token = λ t. t;
  checkpw = λ password hash. password == hash;
  hashpw = λ password. password;
}

abbrev start : Sessions
start = record { accounts = ("ann", new_account 0 "old" admin) ∷ []; blacklist = [] }

-- A host names itself, with or without slashes before it.
abbrev name_host : String → Hostname
name_host url =
    if url == "evil" then named "evil" else if url == "//evil" then named "evil" else named "ours"

abbrev any_password : String → Bool
any_password p = true

letters-Documented : Documented letters
unfolding or_zero
letters-Documented = record {
  live_exp = λ now t c h. (or_zero c.exp, ground (arith, h), ground (arith, h));
  live_any = λ now n t c d h k. ground (arith, h, k);
}

access-EncodesBack : EncodesBack letters (access_claims 10 "ann")
unfolding or_zero is_kind string_eq
access-EncodesBack = record {
  live_encode = λ n iat exp h k le lt. ground (arith, h, k);
  any_encode = λ n iat h le. refl;
}

refresh-EncodesBack : EncodesBack letters (refresh_claims 10 "ann")
unfolding or_zero is_kind string_eq
refresh-EncodesBack = record {
  live_encode = λ n iat exp h k le lt. ground (arith, h, k);
  any_encode = λ n iat h le. refl;
}

logged_out : Unit {0}
unfolding string_eq nat_eq token_of auth_headers note_header last_header method_of is_public
    cookie_token is_kind or_zero Dict.lookup new_account is_token_blacklisted is_empty strip split
    is_space skip change_password force_change_password verify_password update_user set_fields
    or_old password_fields Dict.insert lower lower_codes same_codes has_slashes starts_slash
    with_slashes two_slashes parse_setting parse_origins add_host decide decide_host decide_named
    judge_host is_own_host
logged_out = tt

revoke_refresh_token-final_example :
    verify_refresh_token letters 20 21 "R" (
      run letters
        (cleanup 15 ∷ write_accounts [] ∷ [])
        (revoke_token letters 12 refresh_token_expire "R" start))
    ≡ none
unfolding logged_out
revoke_refresh_token-final_example =
    revoke_refresh_token-final letters letters-Documented 12 20 21 "R" (refresh_claims 10 "ann")
      start (cleanup 15 ∷ write_accounts [] ∷ []) refl refl (omega arith)

abbrev moment : Moment
moment = record {
  now = 20;
  later = 21;
  allowed_origins = "";
  users_answer = true;
  blacklist_answers = true;
}

abbrev bearer : Header
bearer = record { name = "authorization"; latin = "Bearer A"; utf = some "Bearer A" }

abbrev own_page : Scope
own_page = record { kind = "http"; path = "/api/metrics"; method = none; headers = bearer ∷ [] }

authenticate-revoked_example :
    authenticate letters moment own_page
      (run letters (cleanup 15 ∷ []) (revoke_access_token letters 12 "A" start))
    ≢ forwarded (some "ann")
unfolding logged_out
authenticate-revoked_example =
    authenticate-revoked letters letters-Documented moment own_page ("Bearer A", "") 12
      (access_claims 10 "ann") start (cleanup 15 ∷ []) "ann" refl refl refl (omega arith)

call-forwards_example :
    let forwards =
      (call letters name_host moment own_page start no_cache).0 ≡ forwarded (some "ann") in
    forwards ↔ (
      ((check_origin name_host moment own_page no_cache).0 ≡ some true)
      × IsAdmitted letters moment own_page start "ann")
unfolding logged_out
call-forwards_example =
    call-forwards letters name_host moment own_page start no_cache "ann" refl refl refl

abbrev after_change : Sessions
after_change = record start {
  accounts =
      (
        "ann",
        record (new_account 0 "new" admin) {
          must_change_password = false;
          tokens_valid_after = 50;
        },
      )
      ∷ [];
}

abbrev after_force : Account
after_force = record (new_account 0 "new" admin) { must_change_password = false }

check_all-decide_all_example :
    check_all name_host
      (record { raw = ""; origin = "ours"; host = "ours" }
        ∷ record { raw = "evil"; origin = "evil"; host = "ours" }
        ∷ [])
      no_cache
    ≡ some true ∷ some true ∷ []
unfolding logged_out
check_all-decide_all_example = check_all-decide_all name_host (
    record { raw = ""; origin = "ours"; host = "ours" }
    ∷ record { raw = "evil"; origin = "evil"; host = "ours" }
    ∷ [])

abbrev foreign_write : Scope
foreign_write = record {
  kind = "http";
  path = "/api/auth/login";
  method = some "POST";
  headers =
      record { name = "origin"; latin = "evil"; utf = some "evil" }
      ∷ record { name = "host"; latin = "ours"; utf = some "ours" }
      ∷ [];
}

call-foreign_example :
    (call letters name_host moment foreign_write start (
      cache_after name_host
        (record { raw = "evil"; origin = "evil"; host = "ours" } ∷ [])
        no_cache)).0
    ≡ refused 403 "Cross-origin request blocked"
unfolding logged_out
call-foreign_example =
    call-foreign name_host letters (record { raw = "evil"; origin = "evil"; host = "ours" } ∷ [])
      moment foreign_write start "evil" "ours" [] refl refl refl refl refl refl refl refl refl
