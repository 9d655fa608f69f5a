-- ===== src/Fence/Quiet.antt =====
-- What a grant for the source says of the containers of the host.
use glassops.Prelude.{
  ◌≡◌, ℕ, String, Bool, true, false, not, ◌&&◌, ◌||◌, ◌≤◌, Option, none, some, List, [], ◌∷◌, keep,
  any, all, contains, leb→le, arith, inl, inr, Option-cases, string_eq, nat_eq,
}
use glassops.Prelude.Text.{is_empty}
use glassops.Prelude.Dict
use glassops.Prelude.Dict.{keys}
use glassops.Fence.{ok, Result-cases, Scoped, Manifest, Files}
use glassops.Fence.Authority.{Identity, Outside, container_ids, require_authority_at}
use glassops.Fence.Inventory.{
  ContainerFacts, Inventory, same_storage, walk_mounts, shares_mount, is_unanswered, mount_sharers,
  is_socket, holds_socket, start_authorities, subset, require_inventory_bound,
}
use glassops.Fence.Claims.{Survey, Grant, still_fenced, check_before_source_open}

module _ (o : Outside) where
  -- A source of a mount that has the device and inode of the data mount's, or one of the two that
  -- cannot be looked up.
  unfoldable pub is_same_mount : String → String → Bool
  is_same_mount data_source source = elim (o.mount_identity source) [
    | none ↦ true
    | some here ↦ elim (o.mount_identity data_source) [
      | none ↦ true
      | some there ↦ same_storage here there
    ]
  ]

  -- A container with a mount of the data mount's source, or of a socket that the code lists.
  unfoldable pub is_listed_risk : String → ContainerFacts → Bool
  is_listed_risk data_source facts =
      any (λ source. not (is_empty source) && is_same_mount data_source source) facts.mounts
      || any (is_socket o) facts.mounts

  walk_mounts-any :
      (identity : Identity) (data_source : String) (sources : List String)
      → o.mount_identity data_source ≡ some identity
      → any (λ source. not (is_empty source) && is_same_mount data_source source) sources ≡ true
      → ((walk_mounts o identity sources).0 || (walk_mounts o identity sources).1) ≡ true
  unfolding walk_mounts is_same_mount
  walk_mounts-any identity data_source [] known some_reach = some_reach
  walk_mounts-any identity data_source (source ∷ rest) known some_reach =
      ground (arith, known, walk_mounts-any identity data_source rest)

  any-lookup :
      (p : String × ContainerFacts → Bool) (inventory : Inventory) (id : String)
      (facts : ContainerFacts)
      → Dict.lookup id inventory ≡ some facts
      → p (id, facts) ≡ true
      → any p inventory ≡ true
  unfolding Dict.lookup
  any-lookup p [] id facts found holds = absurd (ground arith)
  any-lookup p ((j, other) ∷ rest) id facts found holds = ground (arith, any-lookup p rest id facts)

  contains-keep :
      (p : String × ContainerFacts → Bool) (inventory : Inventory) (id : String)
      (facts : ContainerFacts)
      → Dict.lookup id inventory ≡ some facts
      → p (id, facts) ≡ true
      → contains (keys (keep p inventory)) id ≡ true
  unfolding Dict.lookup
  contains-keep p [] id facts found holds = absurd (ground arith)
  contains-keep p ((j, other) ∷ rest) id facts found holds =
      ground (arith, contains-keep p rest id facts)

  subset-contains :
      (xs ys : List String) (id : String)
      → subset xs ys ≡ true
      → contains xs id ≡ true
      → contains ys id ≡ true
  subset-contains [] ys id within there = absurd (ground arith)
  subset-contains (x ∷ xs) ys id within there = ground (arith, subset-contains xs ys id)

  all-scope :
      (inventory : Inventory) (scope : List Scoped) (id : String) (facts : ContainerFacts)
      → all (still_fenced inventory) scope ≡ true
      → contains (container_ids scope) id ≡ true
      → Dict.lookup id inventory ≡ some facts
      → (facts.running ≡ false) × (facts.status ≡ "exited") × (facts.policy.name ≡ "no")
  unfolding still_fenced
  all-scope inventory [] id facts fenced there found = absurd (ground arith)
  all-scope inventory (s ∷ rest) id facts fenced there found =
      ground (arith, all-scope inventory rest id facts)

  -- Whoever has such a mount is in the scope.
  require_inventory_bound-contains :
      (inventory : Inventory) (data_source : String) (declared : List String) (id : String)
      (facts : ContainerFacts)
      → require_inventory_bound o inventory data_source declared ≡ ok tt
      → Dict.lookup id inventory ≡ some facts
      → is_listed_risk data_source facts ≡ true
      → contains declared id ≡ true
  unfolding require_inventory_bound mount_sharers start_authorities is_listed_risk shares_mount
      is_unanswered holds_socket
  require_inventory_bound-contains inventory data_source declared id facts bound found risky =
      elim (Option-cases (o.mount_identity data_source)) [
        | inl unknown ↦ absurd (ground (arith, unknown))
        | inr (identity, known) ↦ ground (
          arith,
          known,
          walk_mounts-any identity data_source facts.mounts,
          any-lookup (is_unanswered o identity) inventory id facts,
          contains-keep (shares_mount o identity) inventory id facts,
          contains-keep (holds_socket o) inventory id facts,
          subset-contains (start_authorities o inventory) declared id,
          subset-contains (keys (keep (shares_mount o identity) inventory)) declared id,
        )
      ]

  require_authority_at-le :
      (verifier : Option String) (m : Manifest) (now : ℕ)
      → require_authority_at o verifier m now ≡ ok tt
      → now ≤ m.expires_at
  unfolding require_authority_at
  require_authority_at-le verifier m now authorised = ground (arith, leb→le now m.expires_at)

  -- A grant is only given within the lease, and when every container of the surveyed host has exited
  -- and is not restarted by docker that has a mount whose source cannot be looked up, has the device
  -- and inode of the data mount's, or is one of the docker sockets that the code lists. Mounts that
  -- lead to the same storage from another directory are not covered.
  pub check_before_source_open-quiet :
      (verifier : Option String) (m : Manifest) (claim_id : String) (w : Survey) (path : String)
      (f : Files) (inventory : Inventory) {g : Grant}
      → check_before_source_open o verifier m claim_id w path f ≡ ok g
      → w.inventory ≡ ok inventory
      → (w.second ≤ m.expires_at)
        × ((id : String) (facts : ContainerFacts)
            → Dict.lookup id inventory ≡ some facts
            → is_listed_risk m.mount_source facts ≡ true
            → (facts.running ≡ false) × (facts.status ≡ "exited") × (facts.policy.name ≡ "no"))
  unfolding check_before_source_open
  check_before_source_open-quiet verifier m claim_id w path f inventory granted surveyed =
      elim (Result-cases (require_authority_at o verifier m w.second)) [
        | inl (e, refused) ↦ absurd (ground (arith, surveyed, refused))
        | inr (_, authorised) ↦
            elim (Result-cases
              (require_inventory_bound o inventory m.mount_source (container_ids m.scope))) [
                | inl (e, refused) ↦ absurd (ground (arith, surveyed, refused))
                | inr (_, bound) ↦
                    let fenced : all (still_fenced inventory) m.scope ≡ true =
                      ground (arith, surveyed, bound) in
                    (
                      require_authority_at-le verifier m w.second authorised,
                      λ id facts found risky.
                          all-scope inventory m.scope id facts fenced
                            (require_inventory_bound-contains inventory m.mount_source
                              (container_ids m.scope) id facts bound found risky)
                            found,
                    )
              ]
      ]
