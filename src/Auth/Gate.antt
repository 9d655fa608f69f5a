-- ===== src/Auth/Gate.antt =====
-- backend/app/middleware/auth.py: the verdict of `JWTAuthMiddleware.__call__` on a request.
use glassops.Prelude.{
  ℕ, String, Bool, true, false, not, ◌&&◌, ◌||◌, Option, none, some, List, [], ◌∷◌, if◌then◌else◌,
  ◌==◌, any, contains, starts_with, string_eq,
}
use glassops.Prelude.Text.{strip, split, skip, is_empty}
use glassops.Prelude.Dict
use glassops.Users.{Account, is_admin}
use glassops.Auth.{Library, Sessions, verify_token, access_revoked}
use glassops.Auth.Origin.{Hostname, OriginCache, csrf_origin_ok}

abbrev pub csrf_methods : List String
csrf_methods = "POST" ∷ "PUT" ∷ "DELETE" ∷ "PATCH" ∷ []

abbrev pub public_paths : List String
public_paths =
    "/health" ∷ "/api/auth/login" ∷ "/api/auth/refresh" ∷ "/api/auth/password-policy" ∷ "/api/time"
    ∷ []

abbrev pub public_prefixes : List String
public_prefixes =
    "/ws/" ∷ "/api/auth/login" ∷ "/api/auth/refresh" ∷ "/api/auth/logout"
    ∷ "/api/auth/validate-password" ∷ []

abbrev pub admin_write_methods : List String
admin_write_methods = "POST" ∷ "PUT" ∷ "DELETE" ∷ "PATCH" ∷ []

abbrev pub admin_write_prefixes : List String
admin_write_prefixes =
    "/api/docker" ∷ "/api/process" ∷ "/api/settings" ∷ "/api/alerts" ∷ "/api/logs" ∷ "/api/users"
    ∷ []

abbrev pub pwchange_allowed : List String
pwchange_allowed = "/api/auth/force-password" ∷ "/api/auth/password" ∷ "/api/auth/me" ∷ []

-- A header with its value decoded as latin-1 and as UTF-8, `none` where the latter raises.
pub record Header : Type 0 where
  pub name : String
  pub latin : String
  pub utf : Option String

-- The ASGI scope; a missing path is empty.
pub record Scope : Type 0 where
  pub kind : String
  pub path : String
  pub method : Option String
  pub headers : List Header

-- What a request meets: the clock at the two decodings of its token, the setting of allowed
-- origins, and whether the database answers each of the two queries.
pub record Moment : Type 0 where
  pub now : ℕ
  pub later : ℕ
  pub allowed_origins : String
  pub users_answer : Bool
  pub blacklist_answers : Bool

-- The application runs, with the address in the state of the request if the token was checked; or
-- a status and a detail are sent; or the call raises.
pub data Verdict : Type 0 where
  forwarded : Option String → Verdict
  refused : ℕ → String → Verdict
  raised : Verdict

unfoldable pub method_of : Scope → String
method_of scope = elim scope.method [ none ↦ "GET" | some method ↦ method ]

-- The last header of the name, or else the text given.
unfoldable pub last_header : String → List Header → String → String
last_header name [] found = found
last_header name (h ∷ rest) found =
    last_header name rest (if h.name == name then h.latin else found)

unfoldable pub note_header : Header → String × String → Option (String × String)
note_header h (auth, cookie) =
    if h.name == "authorization"
    then elim h.utf [ none ↦ none | some v ↦ some (v, cookie) ]
    else if h.name == "cookie"
    then elim h.utf [ none ↦ none | some v ↦ some (auth, v) ]
    else some (auth, cookie)

-- The last headers authorization and cookie; `none` where a decoding raises.
unfoldable pub auth_headers : List Header → String × String → Option (String × String)
auth_headers [] found = some found
auth_headers (h ∷ rest) found = elim (note_header h found) [
  | none ↦ none
  | some found' ↦ auth_headers rest found'
]

unfoldable pub cookie_token : List String → String
cookie_token [] = ""
cookie_token (part ∷ rest) =
    let later = cookie_token rest in
    if starts_with (strip part) "access_token=" then skip 13 (strip part) else later

-- The semicolon has the code 59.
unfoldable pub token_of : String × String → String
token_of (auth, cookie) =
    if starts_with auth "Bearer "
    then skip 7 auth
    else if is_empty cookie
    then ""
    else cookie_token (split 59 cookie)

unfoldable pub is_admin_write : Scope → Bool
is_admin_write scope =
    contains admin_write_methods (method_of scope)
    && any (starts_with scope.path) admin_write_prefixes

unfoldable pub is_public : String → Bool
is_public path = contains public_paths path || any (starts_with path) public_prefixes

-- The last two tests of the call.
unfoldable pub check_rights : Scope → String → Account → Verdict
check_rights scope email u =
    if u.must_change_password && not (contains pwchange_allowed scope.path)
    then refused 403 "Password change required"
    else if is_admin_write scope && not (is_admin u.role)
    then refused 403 "Admin access required"
    else forwarded (some email)

module _ (hostname : String → Hostname) where
  unfoldable pub check_origin : Moment → Scope → OriginCache → Option Bool × OriginCache
  check_origin m scope cache =
      if contains csrf_methods (method_of scope)
      then csrf_origin_ok hostname m.allowed_origins (last_header "origin" scope.headers "")
          (last_header "host" scope.headers "") cache
      else (some true, cache)

module _ (L : Library) where
  unfoldable pub check_account : Moment → Scope → String → String → Account → Sessions → Verdict
  check_account m scope token email u s =
      if not u.is_active
      then refused 403 "Account disabled"
      else if not m.blacklist_answers
      then raised
      else if access_revoked L m.later token u s
      then refused 401 "Token revoked"
      else check_rights scope email u

  unfoldable pub check_email : Moment → Scope → String → String → Sessions → Verdict
  check_email m scope token email s =
      if not m.users_answer
      then refused 503 "Authentication backend unavailable"
      else elim (Dict.lookup email s.accounts) [
        | none ↦ refused 401 "Invalid or expired token"
        | some u ↦ check_account m scope token email u s
      ]

  unfoldable pub check_token : Moment → Scope → String → Sessions → Verdict
  check_token m scope token s =
      if is_empty token
      then refused 401 "Not authenticated"
      else elim (verify_token L m.now token "access") [
        | none ↦ refused 401 "Invalid or expired token"
        | some email ↦
            if is_empty email
            then refused 401 "Invalid or expired token"
            else check_email m scope token email s
      ]

  unfoldable pub authenticate : Moment → Scope → Sessions → Verdict
  authenticate m scope s = elim (auth_headers scope.headers ("", "")) [
    | none ↦ raised
    | some found ↦ check_token m scope (token_of found) s
  ]

  unfoldable pub after_csrf : Moment → Scope → Sessions → Option Bool → Verdict
  after_csrf m scope s none = raised
  after_csrf m scope s (some false) = refused 403 "Cross-origin request blocked"
  after_csrf m scope s (some true) =
      if is_public scope.path then forwarded none else authenticate m scope s

  module _ (hostname : String → Hostname) where
    -- `__call__`, with the cache of origins after it.
    unfoldable pub call : Moment → Scope → Sessions → OriginCache → Verdict × OriginCache
    call m scope s cache =
        if not (scope.kind == "http")
        then (forwarded none, cache)
        else if not (starts_with scope.path "/api/")
        then (forwarded none, cache)
        else let (ok, cache') = check_origin hostname m scope cache in
          (after_csrf m scope s ok, cache')
