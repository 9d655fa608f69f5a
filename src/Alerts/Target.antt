-- ===== src/Alerts/Target.antt =====
-- backend/app/services/smtp_validate.py and `validate_smtp_target_async`: which servers a message may
-- be sent to. Addresses of Python's `ipaddress` and the resolver are arguments.
use glassops.Prelude.{
  ℕ, String, Bool, true, false, not, ◌&&◌, ◌||◌, Option, none, some, List, [], ◌∷◌, if◌then◌else◌,
  ◌==◌, contains, any, nat_eq, string_eq,
}
use glassops.Prelude.Text.{strip, split, is_empty}
use glassops.Net.{lower_codes, same_codes}
use Prim.Native.Char.{code}

pub record Resolver : Type 1 where
  pub Address : Type 0
  pub ip_address : String → Option Address
  pub ipv4_mapped : Address → Option Address
  pub is_loopback : Address → Bool
  pub is_link_local : Address → Bool
  pub is_unspecified : Address → Bool
  pub is_multicast : Address → Bool
  pub is_reserved : Address → Bool
  pub getaddrinfo : String → ℕ → Option (List String)

abbrev pub allowed_smtp_ports : List ℕ
allowed_smtp_ports = 25 ∷ 465 ∷ 587 ∷ 2525 ∷ []

-- The entries of the setting, as the codes of their lower case.
unfoldable pub host_entries : List String → List (List ℕ)
host_entries [] = []
host_entries (h ∷ rest) =
    let later = host_entries rest in
    if is_empty (strip h) then later else lower_codes (strip h) ∷ later

unfoldable pub smtp_allowed_hosts : String → List (List ℕ)
smtp_allowed_hosts setting = host_entries (split 44 setting)

-- A blank, a tab, a line end, a slash or an at sign.
unfoldable pub is_bad : ℕ → Bool
is_bad c = c == 32 || c == 9 || c == 13 || c == 10 || c == 47 || c == 64

unfoldable pub has_bad : String → Bool
has_bad String.[] = false
has_bad (String.◌∷◌ c s) = is_bad (code c) || has_bad s

unfoldable pub is_nil {ℓ} : {A : Type ℓ} → List A → Bool
is_nil [] = true
is_nil (_ ∷ _) = false

module _ (R : Resolver) where
  open R use {
    Address, ip_address, ipv4_mapped, is_loopback, is_link_local, is_unspecified, is_multicast,
    is_reserved, getaddrinfo,
  }

  unfoldable pub is_internal : Address → Bool
  is_internal a =
      is_loopback a || is_link_local a || is_unspecified a || is_multicast a || is_reserved a

  -- The IPv4 address that an IPv6 address stands for, or else itself.
  unfoldable pub unmapped : Address → Address
  unmapped a = elim (ipv4_mapped a) [ none ↦ a | some b ↦ b ]

  -- `_ip_blocked`
  unfoldable pub ip_blocked : String → Bool
  ip_blocked value = elim (ip_address value) [ none ↦ false | some a ↦ is_internal (unmapped a) ]

  unfoldable pub resolves_outside : String → ℕ → Bool
  resolves_outside host port = elim (getaddrinfo host port) [
    | none ↦ false
    | some infos ↦ not (any ip_blocked infos)
  ]

  -- The tests after the port, on the host without blanks around it.
  unfoldable pub host_permitted : String → String → ℕ → Bool
  host_permitted setting host port =
      if is_nil (smtp_allowed_hosts setting)
      then not (ip_blocked host) && resolves_outside host port
      else any (same_codes (lower_codes host)) (smtp_allowed_hosts setting)

  -- `validate_smtp_target` returns without ValueError; `port` is what int() makes of it, and `none`
  -- where it raises.
  unfoldable pub validate_smtp_target : String → String → Option ℕ → Bool
  validate_smtp_target setting host none = false
  validate_smtp_target setting host (some port) =
      not (is_empty (strip host))
      && not (has_bad (strip host))
      && contains allowed_smtp_ports port
      && host_permitted setting (strip host) port

  -- The wait for the thread may be over before the thread.
  unfoldable pub validate_smtp_target_async : Bool → String → String → Option ℕ → Bool
  validate_smtp_target_async timed_out setting host port =
      not timed_out && validate_smtp_target setting host port
