-- ===== src/Fence/Authority.antt =====
-- backend/app/wal_fence.py: the lease of a manifest and the signed acknowledgement beside it,
-- checked at one instant.
use glassops.Prelude.{
  ℕ, String, Bool, not, ◌&&◌, Option, none, some, List, map, ltb, leb, ◌==◌, string_eq,
}
use glassops.Prelude.Text.{strip, is_empty}
use glassops.Fence.{
  Result, ok, err, demand, fence_stale, authority_unacknowledged, authority_unverified, Ack, Scoped,
  Manifest, ◌>>=◌, ◌>>◌,
}

-- What os.stat tells of a mount's source.
pub record Identity : Type 0 where
  pub realpath : String
  pub device : ℕ
  pub inode : ℕ

-- What is not of this code: SHA-256 over JSON texts, HMAC under the verifier's key, and the file
-- system. `scope_digest` and `lease_binding` sort the ids before they are hashed.
pub record Outside : Type 0 where
  pub scope_digest : String → List String → Option Identity → String
  pub lease_binding : Ack → String → List String → String
  pub mac : String → Ack → String
  pub mount_identity : String → Option Identity
  pub realpath : String → String

abbrev pub container_ids : List Scoped → List String
container_ids scope = map (λ (s : Scoped). s.container_id) scope

abbrev is_blank : String → Bool
is_blank text = is_empty (strip text)

unfoldable pub has_fields : Ack → Bool
has_fields a =
    not (is_blank a.issuer)
    && not (is_blank a.host_id)
    && not (is_blank a.scope_digest)
    && not (is_blank a.signature)

unfoldable pub in_window : Ack → ℕ → Bool
in_window a now = ltb a.issued_at a.expires_at && leb a.issued_at now && leb now a.expires_at

module _ (o : Outside) (verifier : Option String) where
  unfoldable pub verify_ack :
      Option Ack → String → List String → Option Identity → ℕ → Result (Unit {0})
  verify_ack none host_id ids identity now = err authority_unacknowledged
  verify_ack (some a) host_id ids identity now = do
    demand (has_fields a) authority_unacknowledged
    key ← elim verifier [ none ↦ err authority_unverified | some key ↦ ok key ]
    demand (in_window a now) authority_unverified
    demand (a.host_id == host_id) authority_unverified
    demand (a.scope_digest == o.scope_digest host_id ids identity) authority_unverified
    demand (a.signature == o.mac key a) authority_unverified

  -- The acknowledgement as the manifest has it now; one that cannot be read is `none`.
  unfoldable pub reverify_manifest_authority : Manifest → ℕ → Result (Unit {0})
  reverify_manifest_authority m now = elim m.ack [
    | none ↦ err authority_unverified
    | some a ↦ do
      verify_ack (some a) m.host_id (container_ids m.scope) (o.mount_identity m.mount_source) now
      demand (m.ack_lease_binding == o.lease_binding a m.lease_id (container_ids m.scope))
          authority_unverified
  ]

  unfoldable pub require_authority_at : Manifest → ℕ → Result (Unit {0})
  require_authority_at m now = do
    demand (leb now m.expires_at) fence_stale
    reverify_manifest_authority m now
