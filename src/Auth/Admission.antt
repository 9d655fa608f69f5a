-- ===== src/Auth/Admission.antt =====
-- Which protected requests the middleware hands to the application.
use glassops.Prelude.{
  ℕ, ◌≤◌, ◌≡◌, ◌≢◌, ◌↔◌, ◌⊎◌, inl, inr, sym, ap, ◌∙◌, String, true, false, not, ◌&&◌, none, some,
  List, arith, Option-cases, starts_with, contains, inl, inr, sym, string_eq,
}
use glassops.Prelude.Text.{is_empty}
use glassops.Prelude.Dict
use glassops.Users.{Account, is_admin}
use glassops.Auth.{
  Claims, Library, Sessions, is_kind, or_zero, predates, verify_token, is_token_blacklisted,
  access_revoked, revoke_access_token, revoke_token, access_token_expire,
}
use glassops.Auth.Origin.{Hostname, OriginCache}
use glassops.Auth.Gate.{
  Moment, Scope, forwarded, auth_headers, token_of, pwchange_allowed, is_admin_write, is_public,
  check_rights, check_account, check_email, check_token, authenticate, after_csrf, check_origin,
  call,
}
use glassops.Auth.Logout.{Op, ClocksUntil, run, Documented, revoke_token-run}

module _ (L : Library) where
  open L use {decode_live, decode_any, hash_token}

  -- What a token and the account of its address need.
  pub record IsAdmitted (m : Moment) (scope : Scope) (s : Sessions) (email : String) : Type 0 where
    pub found : String × String
    pub headers_eq : auth_headers scope.headers ("", "") ≡ some found
    pub token_given : is_empty (token_of found) ≡ false
    pub live : Claims
    pub live_eq : decode_live m.now (token_of found) ≡ some live
    pub kind_access : is_kind live.kind "access" ≡ true
    pub sub_eq : live.sub ≡ some email
    pub email_given : is_empty email ≡ false
    pub users_answer : m.users_answer ≡ true
    pub account : Account
    pub account_eq : Dict.lookup email s.accounts ≡ some account
    pub active : account.is_active ≡ true
    pub blacklist_answers : m.blacklist_answers ≡ true
    pub not_listed : is_token_blacklisted (hash_token (token_of found)) s ≡ false
    pub claims : Claims
    pub claims_eq : decode_any m.later (token_of found) ≡ some claims
    pub issued_after : account.tokens_valid_after ≤ or_zero claims.iat
    pub password_kept :
        (account.must_change_password && not (contains pwchange_allowed scope.path)) ≡ false
    pub rights : (is_admin_write scope && not (is_admin account.role)) ≡ false

  admitted-authenticate :
      (m : Moment) (scope : Scope) (s : Sessions) (email : String)
      → IsAdmitted m scope s email
      → authenticate L m scope s ≡ forwarded (some email)
  unfolding authenticate check_token verify_token check_email check_account access_revoked predates
      check_rights
  admitted-authenticate m scope s email a = ground (
    arith, a.headers_eq, a.token_given, a.live_eq, a.kind_access, a.sub_eq, a.email_given,
    a.users_answer, a.account_eq, a.active, a.blacklist_answers, a.not_listed, a.claims_eq,
    a.issued_after, a.password_kept, a.rights,
  )

  -- The tests that a forwarded request has passed, with what it read.
  authenticate-passed :
      (m : Moment) (scope : Scope) (s : Sessions) (email : String) (found : String × String)
      (live claims : Claims) (account : Account)
      → authenticate L m scope s ≡ forwarded (some email)
      → auth_headers scope.headers ("", "") ≡ some found
      → decode_live m.now (token_of found) ≡ some live
      → Dict.lookup email s.accounts ≡ some account
      → decode_any m.later (token_of found) ≡ some claims
      → (is_empty (token_of found) ≡ false)
        × (is_kind live.kind "access" ≡ true)
        × (live.sub ≡ some email)
        × (is_empty email ≡ false)
        × (m.users_answer ≡ true)
        × (account.is_active ≡ true)
        × (m.blacklist_answers ≡ true)
        × (is_token_blacklisted (hash_token (token_of found)) s ≡ false)
        × (account.tokens_valid_after ≤ or_zero claims.iat)
        × ((account.must_change_password && not (contains pwchange_allowed scope.path)) ≡ false)
        × ((is_admin_write scope && not (is_admin account.role)) ≡ false)
  unfolding authenticate check_token verify_token check_email check_account access_revoked predates
      check_rights
  authenticate-passed m scope s email found live claims account h headers_eq live_eq account_eq
        claims_eq =
      ground arith

  check_email-address :
      (m : Moment) (scope : Scope) (token address : String) (s : Sessions) (email : String)
      → check_email L m scope token address s ≡ forwarded (some email)
      → address ≡ email
  unfolding check_email check_account check_rights
  check_email-address m scope token address s email h = ground arith

  authenticate-sub :
      (m : Moment) (scope : Scope) (s : Sessions) (email : String) (found : String × String)
      (live : Claims)
      → authenticate L m scope s ≡ forwarded (some email)
      → auth_headers scope.headers ("", "") ≡ some found
      → decode_live m.now (token_of found) ≡ some live
      → live.sub ≡ some email
  unfolding authenticate check_token verify_token
  authenticate-sub m scope s email found live h e1 e2 = elim (Option-cases live.sub) [
    | inl nothing ↦ absurd (ground (arith, nothing))
    | inr (address, sub) ↦
        ground (arith, sub, check_email-address m scope (token_of found) address s email)
  ]

  authenticate-IsAdmitted :
      (m : Moment) (scope : Scope) (s : Sessions) (email : String)
      → authenticate L m scope s ≡ forwarded (some email)
      → IsAdmitted m scope s email
  unfolding authenticate check_token verify_token check_email check_account access_revoked
  authenticate-IsAdmitted m scope s email h =
      by_headers (Option-cases (auth_headers scope.headers ("", "")))
    where
      by_claims :
          (found : String × String) (live : Claims) (account : Account)
          → auth_headers scope.headers ("", "") ≡ some found
          → decode_live m.now (token_of found) ≡ some live
          → Dict.lookup email s.accounts ≡ some account
          → (decode_any m.later (token_of found) ≡ none)
            ⊎ ((claims : Claims) × (decode_any m.later (token_of found) ≡ some claims))
          → IsAdmitted m scope s email
      by_claims found live account e1 e2 e3 (inl no_claims) =
          absurd (ground (arith, h, e1, e2, e3, no_claims))
      by_claims found live account e1 e2 e3 (inr (claims, e4)) =
          let p = authenticate-passed m scope s email found live claims account h e1 e2 e3 e4 in
          record {
            found = found;
            headers_eq = e1;
            token_given = p.0;
            live = live;
            live_eq = e2;
            kind_access = p.1;
            sub_eq = p.2;
            email_given = p.3;
            users_answer = p.4;
            account = account;
            account_eq = e3;
            active = p.5;
            blacklist_answers = p.6;
            not_listed = p.7;
            claims = claims;
            claims_eq = e4;
            issued_after = p.8;
            password_kept = p.9;
            rights = p.10;
          }

      by_account :
          (found : String × String) (live : Claims)
          → auth_headers scope.headers ("", "") ≡ some found
          → decode_live m.now (token_of found) ≡ some live
          → (Dict.lookup email s.accounts ≡ none)
            ⊎ ((u : Account) × (Dict.lookup email s.accounts ≡ some u))
          → IsAdmitted m scope s email
      by_account found live e1 e2 (inl nobody) =
          absurd
            (ground (arith, h, e1, e2, nobody, authenticate-sub m scope s email found live h e1 e2))
      by_account found live e1 e2 (inr (u, e3)) =
          by_claims found live u e1 e2 e3 (Option-cases (decode_any m.later (token_of found)))

      by_live :
          (found : String × String)
          → auth_headers scope.headers ("", "") ≡ some found
          → (decode_live m.now (token_of found) ≡ none)
            ⊎ ((c : Claims) × (decode_live m.now (token_of found) ≡ some c))
          → IsAdmitted m scope s email
      by_live found e1 (inl dead) = absurd (ground (arith, h, e1, dead))
      by_live found e1 (inr (c, e2)) =
          by_account found c e1 e2 (Option-cases (Dict.lookup email s.accounts))

      by_headers :
          (auth_headers scope.headers ("", "") ≡ none)
            ⊎ ((found : String × String) × (auth_headers scope.headers ("", "") ≡ some found))
          → IsAdmitted m scope s email
      by_headers (inl undecoded) = absurd (ground (arith, h, undecoded))
      by_headers (inr (found, e1)) =
          by_live found e1 (Option-cases (decode_live m.now (token_of found)))

  module _ (hostname : String → Hostname) where
    -- An HTTP request to a path under /api/ that is not public reaches the application with an
    -- address exactly if the check of its origin passes, it carries a token that decodes and is
    -- unexpired, of the kind access and for this address, the address has an active account, both
    -- queries are answered, the token is not listed as revoked and not issued before the account's
    -- floor, a pending password change allows the path, and a privileged write is an admin's.
    pub call-forwards :
        (m : Moment) (scope : Scope) (s : Sessions) (cache : OriginCache) (email : String)
        → scope.kind ≡ "http"
        → starts_with scope.path "/api/" ≡ true
        → is_public scope.path ≡ false
        → ((call L hostname m scope s cache).0 ≡ forwarded (some email))
          ↔ (((check_origin hostname m scope cache).0 ≡ some true) × IsAdmitted m scope s email)
    unfolding call after_csrf
    call-forwards m scope s cache email http api not_public = (
      λ h. (
        ground (arith, h, http, api, not_public),
        authenticate-IsAdmitted m scope s email (ground (arith, h, http, api, not_public)),
      ),
      λ a.
          let inner = admitted-authenticate m scope s email a.1 in
          ground (arith, inner, a.0, http, api, not_public),
    )

  module _ (law : Documented L) where
    -- An access token that was decoded at its logout, and whose hash was not listed before, opens
    -- no request from then on: whatever tokens are revoked, whatever is written to the accounts,
    -- and however often the expired rows are cleaned up by clocks that are not ahead of the check.
    pub authenticate-revoked :
        (m : Moment) (scope : Scope) (found : String × String) (t0 : ℕ) (d : Claims) (s : Sessions)
        (ops : List Op) (email : String)
        → auth_headers scope.headers ("", "") ≡ some found
        → decode_any t0 (token_of found) ≡ some d
        → Dict.lookup (hash_token (token_of found)) s.blacklist ≡ none
        → ClocksUntil m.now ops
        → authenticate L m scope (run L ops (revoke_access_token L t0 (token_of found) s))
          ≢ forwarded (some email)
    unfolding revoke_access_token
    authenticate-revoked m scope found t0 d s ops email headers_eq decoded fresh before through =
        let s' : Sessions = run L ops (revoke_token L t0 access_token_expire (token_of found) s) in
        let a = authenticate-IsAdmitted m scope s' email through in
        let same : some a.found ≡ some found = sym a.headers_eq ∙ headers_eq in
        let same_found : a.found ≡ found = cc in
        let on_list =
          revoke_token-run L law t0 m.now access_token_expire (token_of found) a.live d s ops
            decoded (ap (λ f. decode_live m.now (token_of f)) (sym same_found) ∙ a.live_eq) fresh
            before in
        absurd (ground (arith, on_list, same_found, a.not_listed))
