-- ===== src/Net/Spoofing.antt =====
-- The cache of networks, and the headers of peers that are not trusted.
use glassops.Prelude.{
  ◌≡◌, refl, ◌∙◌, ap, ◌++◌, inl, inr, Bool-cases, ==_iff, String, Bool, true, false, ◌||◌, Option,
  none, some, List, [], ◌∷◌, arith, if◌then◌else◌, ◌==◌, any, string_eq,
}
use glassops.Prelude.Text.{is_empty}
use glassops.Net.{
  Addresses, Scope, peer_of, Cache, parse_networks, is_cached, trusted_nets, peer_trusted,
  or_unknown, forwarded_ip, trusted_scope, resolve_client_ip,
}

module _ (I : Addresses) where
  open I use {Address, Network, ip_address, ip_network, is_loopback, within}

  abbrev pub no_cache : Cache I
  no_cache = record { raw = none; nets = [] }

  -- The cached networks are those of the setting that is cached with them.
  abbrev pub IsCurrent : Option String → List Network → Type 0
  IsCurrent none nets = Unit
  IsCurrent (some raw) nets = nets ≡ parse_networks I raw

  -- Whether a peer is believed under a setting, without a cache.
  unfoldable pub believed : String → String → Bool
  believed raw peer = elim (ip_address peer) [
    | none ↦ false
    | some addr ↦ is_loopback addr || any (within addr) (parse_networks I raw)
  ]

  -- The address that a request counts for, without a cache.
  abbrev pub client_of : String → Scope → String
  client_of raw scope =
      if is_empty (peer_of scope)
      then or_unknown I (peer_of scope)
      else if believed raw (peer_of scope)
      then forwarded_ip I scope
      else or_unknown I (peer_of scope)

  trusted_nets-IsCurrent :
      (raw : String) (o : Option String) (nets : List Network)
      → IsCurrent o nets
      → let out = trusted_nets I raw (record { raw = o; nets = nets }) in
        (out.0 ≡ parse_networks I raw) × IsCurrent out.1.raw out.1.nets
  unfolding trusted_nets is_cached
  trusted_nets-IsCurrent raw none nets h = (refl, refl)
  trusted_nets-IsCurrent raw (some old) nets h = elim (Bool-cases (old == raw)) [
    | inl same ↦
        rw (trusted_nets, is_cached, same) (h ∙ ap (parse_networks I) ((==_iff old raw).0 same), h)
    | inr other ↦ rw (trusted_nets, is_cached, other) (refl, refl)
  ]

  abbrev Believes : String → String → Bool × Cache I → Type 0
  Believes raw peer out = (out.0 ≡ believed raw peer) × IsCurrent out.1.raw out.1.nets

  peer_trusted-Believes :
      (raw peer : String) (c : Cache I)
      → IsCurrent c.raw c.nets
      → Believes raw peer (peer_trusted I raw peer c)
  unfolding peer_trusted believed
  peer_trusted-Believes raw peer c h = by_address (ip_address peer)
    where
      by_loopback :
          (addr : Address) (b : Bool)
          → let out : Bool × Cache I =
              if b
              then (true, c)
              else (any (within addr) (trusted_nets I raw c).0, (trusted_nets I raw c).1) in
            (out.0 ≡ (b || any (within addr) (parse_networks I raw)))
            × IsCurrent out.1.raw out.1.nets
      by_loopback addr true = (refl, h)
      by_loopback addr false =
          let looked = trusted_nets-IsCurrent raw c.raw c.nets h in
          (ap (any (within addr)) looked.0, looked.1)

      by_address :
          (o : Option Address)
          → let out : Bool × Cache I = elim o [
            | none ↦ (false, c)
            | some addr ↦
                if is_loopback addr
                then (true, c)
                else (any (within addr) (trusted_nets I raw c).0, (trusted_nets I raw c).1)
          ] in
            (out.0 ≡ elim o [
              | none ↦ false
              | some addr ↦ is_loopback addr || any (within addr) (parse_networks I raw)
            ])
            × IsCurrent out.1.raw out.1.nets
      by_address none = (refl, h)
      by_address (some addr) = by_loopback addr (is_loopback addr)

  resolve-IsCurrent :
      (raw : String) (scope : Scope) (c : Cache I)
      → IsCurrent c.raw c.nets
      → let out = resolve_client_ip I raw scope c in
        (out.0 ≡ client_of raw scope) × IsCurrent out.1.raw out.1.nets
  unfolding resolve_client_ip trusted_scope
  resolve-IsCurrent raw scope c h = elim (Bool-cases (is_empty (peer_of scope))) [
    | inl nobody ↦ rw (resolve_client_ip, trusted_scope, nobody) (refl, h)
    | inr peer ↦
        let b = peer_trusted-Believes raw (peer_of scope) c h in
        rw (resolve_client_ip, trusted_scope, peer, b.0) (refl, b.1)
  ]

  -- Requests one after the other, each under the setting of its time.
  abbrev pub resolve_all : List (String × Scope) → Cache I → List String
  resolve_all [] c = []
  resolve_all ((raw, scope) ∷ rest) c =
      let (ip, c') = resolve_client_ip I raw scope c in ip ∷ resolve_all rest c'

  abbrev pub clients_of : List (String × Scope) → List String
  clients_of [] = []
  clients_of ((raw, scope) ∷ rest) = client_of raw scope ∷ clients_of rest

  resolve_all_lem :
      (rs : List (String × Scope)) (c : Cache I)
      → IsCurrent c.raw c.nets
      → resolve_all rs c ≡ clients_of rs
  resolve_all_lem [] c h = refl
  resolve_all_lem ((raw, scope) ∷ rest) c h =
      let out = resolve-IsCurrent raw scope c h in
      rw (out.0, resolve_all_lem rest (resolve_client_ip I raw scope c).1 out.1)

  -- Over any requests, with the setting of trusted proxies changed between them in any way, the
  -- resolved addresses are those that the setting of each request gives without the cache.
  resolve_all-fresh : (rs : List (String × Scope)) → resolve_all rs no_cache ≡ clients_of rs
  resolve_all-fresh rs = resolve_all_lem rs no_cache tt

  -- After any requests and changes of the setting, a request whose peer is neither loopback nor in
  -- a trusted network counts for its peer, whatever its headers are.
  pub resolve_client_ip-untrusted :
      (rs : List (String × Scope)) (raw peer scheme : String) (headers : List (String × String))
      → believed raw peer ≡ false
      → resolve_all
          (rs ++ ((raw, record { client = some peer; scheme = scheme; headers = headers }) ∷ []))
          no_cache
        ≡ clients_of rs ++ (or_unknown I peer ∷ [])
  unfolding peer_of
  resolve_client_ip-untrusted rs raw peer scheme headers h =
      let own : client_of raw (record { client = some peer; scheme = scheme; headers = headers })
          ≡ or_unknown I peer =
        ground (arith, h) in
      rw (resolve_all-fresh, clients_of-append) (ap (λ x. clients_of rs ++ (x ∷ [])) own)
    where
      clients_of-append :
          (xs ys : List (String × Scope)) → clients_of (xs ++ ys) ≡ clients_of xs ++ clients_of ys
      clients_of-append [] ys = refl
      clients_of-append (x ∷ xs) ys = rw (clients_of-append xs ys)
