-- ===== src/Alerts/Outside.antt =====
-- Which servers a message may be sent to, without the code of the tests.
use glassops.Prelude.{
  ℕ, ◌≡◌, ◌↔◌, refl, String, Bool, true, false, none, some, List, [], ◌∷◌, contains, any, All,
  arith, Option-cases, inl, inr, nat_eq, string_eq,
}
use glassops.Prelude.Text.{strip, is_empty}
use glassops.Net.{lower_codes, same_codes}
use glassops.Alerts.Target.{
  Resolver, allowed_smtp_ports, smtp_allowed_hosts, has_bad, is_nil, is_internal, unmapped,
  ip_blocked, resolves_outside, host_permitted, validate_smtp_target, validate_smtp_target_async,
}

module _ (R : Resolver) where
  open R use {
    Address, ip_address, ipv4_mapped, is_loopback, is_link_local, is_unspecified, is_multicast,
    is_reserved, getaddrinfo,
  }

  -- An address outside of the ranges that a server must not be in.
  pub record IsGlobal (a : Address) : Type 0 where
    pub no_loopback : is_loopback a ≡ false
    pub no_link_local : is_link_local a ≡ false
    pub no_unspecified : is_unspecified a ≡ false
    pub no_multicast : is_multicast a ≡ false
    pub no_reserved : is_reserved a ≡ false

  -- A text that is no address, or one of such an address; an IPv6 address that stands for an IPv4
  -- address is judged by that.
  pub data IsOutside (x : String) : Type 0 where
    no_address : ip_address x ≡ none → IsOutside x
    plain : (a : Address) → ip_address x ≡ some a → ipv4_mapped a ≡ none → IsGlobal a → IsOutside x
    mapped :
        (a b : Address) → ip_address x ≡ some a → ipv4_mapped a ≡ some b → IsGlobal b → IsOutside x

  -- A host that the operator vouches for, or, without an allowlist, one that is outside and whose
  -- name has addresses that all are.
  pub data IsTarget (setting host : String) (port : ℕ) : Type 0 where
    vouched :
        any (same_codes (lower_codes host)) (smtp_allowed_hosts setting) ≡ true
        → IsTarget setting host port
    resolved :
        (infos : List String)
        → smtp_allowed_hosts setting ≡ []
        → IsOutside host
        → getaddrinfo host port ≡ some infos
        → All IsOutside infos
        → IsTarget setting host port

  is_internal-IsGlobal : (a : Address) → is_internal R a ≡ false → IsGlobal a
  unfolding is_internal
  is_internal-IsGlobal a h = record {
    no_loopback = ground arith;
    no_link_local = ground arith;
    no_unspecified = ground arith;
    no_multicast = ground arith;
    no_reserved = ground arith;
  }

  IsGlobal-is_internal : (a : Address) → IsGlobal a → is_internal R a ≡ false
  unfolding is_internal
  IsGlobal-is_internal a g =
      ground
        (arith, g.no_loopback, g.no_link_local, g.no_unspecified, g.no_multicast, g.no_reserved)

  ip_blocked-IsOutside : (x : String) → ip_blocked R x ≡ false → IsOutside x
  unfolding ip_blocked unmapped
  ip_blocked-IsOutside x h = elim (Option-cases (ip_address x)) [
    | inl text ↦ no_address text
    | inr (a, read) ↦ elim (Option-cases (ipv4_mapped a)) [
      | inl own ↦ plain a read own (is_internal-IsGlobal a (ground (arith, read, own)))
      | inr (b, other) ↦
          mapped a b read other (is_internal-IsGlobal b (ground (arith, read, other)))
    ]
  ]

  IsOutside-ip_blocked : (x : String) → IsOutside x → ip_blocked R x ≡ false
  unfolding ip_blocked unmapped
  IsOutside-ip_blocked x (no_address text) = ground (arith, text)
  IsOutside-ip_blocked x (plain a read own g) = ground (arith, read, own, IsGlobal-is_internal a g)
  IsOutside-ip_blocked x (mapped a b read other g) =
      ground (arith, read, other, IsGlobal-is_internal b g)

  any-All : (xs : List String) → any (ip_blocked R) xs ≡ false → All IsOutside xs
  any-All [] h = tt
  any-All (x ∷ xs) h = (ip_blocked-IsOutside x (ground arith), any-All xs (ground arith))

  All-any : (xs : List String) → All IsOutside xs → any (ip_blocked R) xs ≡ false
  All-any [] p = refl
  All-any (x ∷ xs) p = ground (arith, IsOutside-ip_blocked x p.0, All-any xs p.1)

  host_permitted-IsTarget :
      (setting host : String) (port : ℕ)
      → host_permitted R setting host port ≡ true
      → IsTarget setting host port
  unfolding host_permitted resolves_outside is_nil
  host_permitted-IsTarget setting host port passed = by_list (smtp_allowed_hosts setting) refl
    where
      by_list :
          (hosts : List (List ℕ)) → smtp_allowed_hosts setting ≡ hosts → IsTarget setting host port
      by_list [] none_listed = elim (Option-cases (getaddrinfo host port)) [
        | inl unknown ↦ absurd (ground (arith, passed, none_listed, unknown))
        | inr (infos, known) ↦
            resolved infos none_listed
              (ip_blocked-IsOutside host (ground (arith, passed, none_listed))) known
              (any-All infos (ground (arith, passed, none_listed, known)))
      ]
      by_list (h ∷ hs) listed = vouched (ground (arith, passed, listed))

  IsTarget-host_permitted :
      (setting host : String) (port : ℕ)
      → IsTarget setting host port
      → host_permitted R setting host port ≡ true
  unfolding host_permitted resolves_outside is_nil
  IsTarget-host_permitted setting host port (resolved infos none_listed outside known all_outside) =
      ground
        (arith, none_listed, known, IsOutside-ip_blocked host outside, All-any infos all_outside)
  IsTarget-host_permitted setting host port (vouched listed) =
      by_list (smtp_allowed_hosts setting) refl
    where
      by_list :
          (hosts : List (List ℕ))
          → smtp_allowed_hosts setting ≡ hosts
          → host_permitted R setting host port ≡ true
      by_list [] none_listed = absurd (ground (arith, listed, none_listed))
      by_list (h ∷ hs) some_listed = ground (arith, listed, some_listed)

  -- A server passes the test in time exactly if its name is not blank and has no blank, slash or at
  -- sign, its port is one of the four for mail, and either the allowlist has its name, or there is no
  -- allowlist, it is no address in a loopback, link-local, unspecified, multicast or reserved range,
  -- and its name resolves to addresses of which none is, the IPv4 ones written as IPv6 included.
  pub validate_smtp_target-IsTarget :
      (timed_out : Bool) (setting host : String) (port : ℕ)
      → (validate_smtp_target_async R timed_out setting host (some port) ≡ true) ↔ (
          (timed_out ≡ false)
          × (is_empty (strip host) ≡ false)
          × (has_bad (strip host) ≡ false)
          × (contains allowed_smtp_ports port ≡ true)
          × IsTarget setting (strip host) port)
  unfolding validate_smtp_target_async validate_smtp_target
  validate_smtp_target-IsTarget timed_out setting host port = (
    λ passed. (
      ground arith,
      ground arith,
      ground arith,
      ground arith,
      host_permitted-IsTarget setting (strip host) port (ground arith),
    ),
    λ allowed. ground (
      arith,
      allowed.0,
      allowed.1,
      allowed.2,
      allowed.3,
      IsTarget-host_permitted setting (strip host) port allowed.4,
    ),
  )
