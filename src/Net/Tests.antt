-- ===== src/Net/Tests.antt =====
-- Requests through the bundled proxy and past it.
use glassops.Prelude.{◌≡◌, refl, String, some, [], ◌∷◌, ◌==◌, string_eq}
use glassops.Prelude.Text.{is_empty, strip, split, is_space}
use glassops.Net.{
  Addresses, Scope, header, first_of, peer_of, parse_entries, parse_networks, or_unknown,
  forwarded_ip,
}
use glassops.Net.Spoofing.{no_cache, believed, resolve_all, resolve_client_ip-untrusted}

-- Addresses are texts, and a network is one address.
abbrev texts : Addresses
texts = record {
  Address = String;
  Network = String;
  ip_address = λ s. some s;
  ip_network = λ s. some s;
  is_loopback = λ a. a == "127.0.0.1";
  within = λ a n. a == n;
}

abbrev proxied : Scope
proxied = record {
  client = some "127.0.0.1";
  scheme = "http";
  headers = ("x-real-ip", "9.9.9.9") ∷ [];
}

resolved : Unit {0}
unfolding believed parse_networks parse_entries split strip is_empty is_space header first_of
    peer_of or_unknown forwarded_ip string_eq
resolved = tt

resolve_client_ip-untrusted_example :
    resolve_all texts
      (("10.0.0.1", proxied)
        ∷ (
          "10.0.0.1",
          record {
            client = some "8.8.8.8";
            scheme = "http";
            headers = ("x-real-ip", "1.1.1.1") ∷ [];
          },
        )
        ∷ [])
      (no_cache texts)
    ≡ "9.9.9.9" ∷ "8.8.8.8" ∷ []
unfolding resolved
resolve_client_ip-untrusted_example =
    resolve_client_ip-untrusted texts (("10.0.0.1", proxied) ∷ []) "10.0.0.1" "8.8.8.8" "http"
      (("x-real-ip", "1.1.1.1") ∷ []) refl
