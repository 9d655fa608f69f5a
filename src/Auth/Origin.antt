-- ===== src/Auth/Origin.antt =====
-- backend/app/websocket/ws_auth.py: the check of the header Origin, its cache of the setting
-- GLASSOPS_ALLOWED_ORIGINS, and the token of a WebSocket. `urlparse(...).hostname` is an argument.
use glassops.Prelude.{
  ℕ, String, Bool, true, false, ◌&&◌, ◌||◌, Option, none, some, List, [], ◌∷◌, if◌then◌else◌, ◌==◌,
  any, contains, nat_eq, string_eq,
}
use glassops.Prelude.Text.{strip, split, is_empty}
use glassops.Net.{lower_codes, same_codes}
use Prim.Native.Char.{code}

-- What `urlparse(url).hostname` does: it raises ValueError, or it is None or a text.
pub data Hostname : Type 0 where
  invalid : Hostname
  absent : Hostname
  named : String → Hostname

-- `_origin_cache`
pub record OriginCache : Type 0 where
  pub raw : Option String
  pub hosts : List (List ℕ)

unfoldable pub starts_slash : String → Bool
starts_slash String.[] = false
starts_slash (String.◌∷◌ c _) = code c == 47

-- `"//" in entry`; the slash has the code 47.
unfoldable pub has_slashes : String → Bool
has_slashes String.[] = false
has_slashes (String.◌∷◌ c s) = code c == 47 && starts_slash s || has_slashes s

-- `"//" + s`
unfoldable pub two_slashes : String → String
two_slashes s = String.◌∷◌ "/" (String.◌∷◌ "/" s)

unfoldable pub with_slashes : String → String
with_slashes entry = if has_slashes entry then entry else two_slashes entry

-- `hosts.add(host.lower())`, for a host that is not empty.
unfoldable pub add_host : String → Option (List (List ℕ)) → Option (List (List ℕ))
add_host host none = none
add_host host (some hosts) = some (if is_empty host then hosts else lower_codes host ∷ hosts)

-- `_offered`
unfoldable pub strip_all : List String → List String
strip_all [] = []
strip_all (p ∷ rest) =
    let later = strip_all rest in if is_empty (strip p) then later else strip p ∷ later

unfoldable pub offered : String → List String
offered protocols = strip_all (split 44 protocols)

unfoldable pub first_token : List String → String → String
first_token [] cookie = cookie
first_token (p ∷ rest) cookie =
    let later = first_token rest cookie in if p == "bearer" then later else p

-- With the header Sec-WebSocket-Protocol and the cookie access_token, each empty if missing.
unfoldable pub ws_token : String → String → String
ws_token protocols cookie = first_token (offered protocols) cookie

unfoldable pub accept_subprotocol : String → Option String
accept_subprotocol protocols = if contains (offered protocols) "bearer" then some "bearer" else none

module _ (hostname : String → Hostname) where
  -- The loop of `_allowed_hosts`; `none` where it raises.
  unfoldable pub parse_origins : List String → Option (List (List ℕ))
  parse_origins [] = some []
  parse_origins (entry ∷ rest) =
      let later = parse_origins rest in
      if is_empty (strip entry) then later else elim (hostname (with_slashes (strip entry))) [
        | invalid ↦ none
        | absent ↦ later
        | named host ↦ add_host host later
      ]

  unfoldable pub parse_setting : String → Option (List (List ℕ))
  parse_setting raw = parse_origins (split 44 raw)

  unfoldable pub is_cached : Option String → String → Bool
  is_cached none raw = false
  is_cached (some old) raw = old == raw

  -- `_allowed_hosts`, with the cache after it, which stays as it was where the call raises.
  unfoldable pub allowed_hosts : String → OriginCache → Option (List (List ℕ)) × OriginCache
  allowed_hosts raw cache =
      if is_cached cache.raw raw then (some cache.hosts, cache) else elim (parse_setting raw) [
        | none ↦ (none, cache)
        | some hosts ↦ (some hosts, record { raw = some raw; hosts = hosts })
      ]

  -- The last line of `_origin_host_trusted`.
  unfoldable pub is_own_host : String → String → Option Bool
  is_own_host o_host host =
      if is_empty host then some false else elim (hostname (two_slashes host)) [
        | invalid ↦ none
        | absent ↦ some false
        | named own ↦ some (o_host == own)
      ]

  unfoldable pub judge_host : String → String → Option (List (List ℕ)) → Option Bool
  judge_host o_host host none = none
  judge_host o_host host (some []) = is_own_host o_host host
  judge_host o_host host (some (h ∷ hosts)) =
      some (any (same_codes (lower_codes o_host)) (h ∷ hosts))

  -- `_origin_host_trusted`; `none` where it raises.
  unfoldable pub origin_host_trusted :
      String → String → String → OriginCache → Option Bool × OriginCache
  origin_host_trusted raw origin host cache =
      if is_empty origin then (some false, cache) else elim (hostname origin) [
        | invalid ↦ (none, cache)
        | absent ↦ (some false, cache)
        | named o_host ↦
            if is_empty o_host
            then (some false, cache)
            else let (allowed, cache') = allowed_hosts raw cache in
              (judge_host o_host host allowed, cache')
      ]

  -- A header that is missing is empty.
  unfoldable pub origin_ok : String → String → String → OriginCache → Option Bool × OriginCache
  origin_ok raw origin host cache = origin_host_trusted raw origin host cache

  unfoldable pub csrf_origin_ok : String → String → String → OriginCache → Option Bool × OriginCache
  csrf_origin_ok raw origin host cache =
      if is_empty origin then (some true, cache) else origin_host_trusted raw origin host cache
