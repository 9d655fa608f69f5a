-- ===== src/Net.antt =====
-- backend/app/net.py: whose forwarded headers are believed. The addresses and networks of Python's
-- `ipaddress` are arguments.
use glassops.Prelude.{
  ℕ, ◌+◌, String, Bool, true, false, ◌&&◌, ◌||◌, Option, none, some, List, [], ◌∷◌, leb,
  if◌then◌else◌, ◌==◌, any, nat_eq, string_eq,
}
use glassops.Prelude.Text.{strip, split, is_empty}
use Prim.Native.Char.{code}
use Prim.Native.String
pub mod Spoofing
pub mod Tests

-- What the file uses of `ipaddress`: `none` where it raises ValueError.
pub record Addresses : Type 1 where
  pub Address : Type 0
  pub Network : Type 0
  pub ip_address : String → Option Address
  pub ip_network : String → Option Network
  pub is_loopback : Address → Bool
  pub within : Address → Network → Bool

-- The peer of a request, `none` where the server knows none, its scheme and its headers.
pub record Scope : Type 0 where
  pub client : Option String
  pub scheme : String
  pub headers : List (String × String)

-- `_header`: the first header of the name.
unfoldable pub header : List (String × String) → String → String
header [] name = ""
header ((k, v) ∷ rest) name = if k == name then v else header rest name

-- The codes of `s.lower()`, for the characters that latin-1 has.
unfoldable pub lower : ℕ → ℕ
lower c =
    if leb 65 c && leb c 90
    then c + 32
    else if leb 192 c && leb c 222 && (leb c 214 || leb 216 c)
    then c + 32
    else c

unfoldable pub lower_codes : String → List ℕ
lower_codes String.[] = []
lower_codes (String.◌∷◌ c s) = lower (code c) ∷ lower_codes s

unfoldable pub same_codes : List ℕ → List ℕ → Bool
same_codes [] [] = true
same_codes [] (_ ∷ _) = false
same_codes (_ ∷ _) [] = false
same_codes (c ∷ cs) (d ∷ ds) = c == d && same_codes cs ds

unfoldable pub first_of : List String → String
first_of [] = ""
first_of (s ∷ _) = s

unfoldable pub peer_of : Scope → String
peer_of scope = elim scope.client [ none ↦ "" | some peer ↦ peer ]

module _ (I : Addresses) where
  open I use {Address, Network, ip_address, ip_network, is_loopback, within}

  -- `_cache`
  pub record Cache : Type 0 where
    pub raw : Option String
    pub nets : List Network

  unfoldable pub parse_entries : List String → List Network
  parse_entries [] = []
  parse_entries (entry ∷ rest) =
      let nets = parse_entries rest in
      if is_empty (strip entry)
      then nets
      else elim (ip_network (strip entry)) [ none ↦ nets | some net ↦ net ∷ nets ]

  -- `raw.split(",")`, whose comma has the code 44.
  unfoldable pub parse_networks : String → List Network
  parse_networks raw = parse_entries (split 44 raw)

  unfoldable pub is_cached : Option String → String → Bool
  is_cached none raw = false
  is_cached (some old) raw = old == raw

  -- `_trusted_nets`, with the cache after it.
  unfoldable pub trusted_nets : String → Cache → List Network × Cache
  trusted_nets raw cache =
      if is_cached cache.raw raw
      then (cache.nets, cache)
      else (parse_networks raw, record { raw = some raw; nets = parse_networks raw })

  -- `_peer_trusted`
  unfoldable pub peer_trusted : String → String → Cache → Bool × Cache
  peer_trusted raw peer cache = elim (ip_address peer) [
    | none ↦ (false, cache)
    | some addr ↦
        if is_loopback addr
        then (true, cache)
        else (any (within addr) (trusted_nets raw cache).0, (trusted_nets raw cache).1)
  ]

  unfoldable pub or_unknown : String → String
  or_unknown peer = if is_empty peer then "unknown" else peer

  -- What a trusted peer forwards, or else the peer.
  unfoldable pub forwarded_ip : Scope → String
  forwarded_ip scope =
      let xri = strip (header scope.headers "x-real-ip") in
      let xff = strip (header scope.headers "x-forwarded-for") in
      if is_empty xri
      then (if is_empty xff then or_unknown (peer_of scope) else strip (first_of (split 44 xff)))
      else xri

  -- The test of both functions: `peer and _peer_trusted(peer)`.
  unfoldable pub trusted_scope : String → Scope → Cache → Bool × Cache
  trusted_scope raw scope cache =
      if is_empty (peer_of scope) then (false, cache) else peer_trusted raw (peer_of scope) cache

  unfoldable pub resolve_client_ip : String → Scope → Cache → String × Cache
  resolve_client_ip raw scope cache =
      let (trusted, cache') = trusted_scope raw scope cache in
      ((if trusted then forwarded_ip scope else or_unknown (peer_of scope)), cache')

  unfoldable pub request_is_secure : Bool → String → Scope → Cache → Bool × Cache
  request_is_secure force_secure_cookies raw scope cache =
      if force_secure_cookies
      then (true, cache)
      else if scope.scheme == "https"
      then (true, cache)
      else let (trusted, cache') = trusted_scope raw scope cache in
        (
          trusted
              && same_codes (lower_codes (strip (header scope.headers "x-forwarded-proto")))
                  (lower_codes "https"),
          cache',
        )
