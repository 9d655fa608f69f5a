-- ===== src/Fence/Inventory.antt =====
-- backend/app/wal_fence.py: which containers of the host can write to the database or start what
-- the fence stops, and that the scope is exactly these.
use glassops.Prelude.{
  String, Bool, true, false, ◌&&◌, ◌||◌, none, some, List, [], ◌∷◌, map, keep, any, all, contains,
  if◌then◌else◌, ◌==◌, nat_eq, string_eq,
}
use glassops.Prelude.Text.{is_empty}
use glassops.Prelude.Dict.{Dict, keys}
use glassops.Fence.{
  Result, ok, err, demand, scope_mismatch, start_authority_unbound, Policy, ◌>>=◌, ◌>>◌,
}
use glassops.Fence.Authority.{Identity, Outside}

-- What `docker inspect` tells of a container, as far as the fence reads it; its mounts by source.
pub record ContainerFacts : Type 0 where
  pub container_id : String
  pub service : String
  pub image_id : String
  pub status : String
  pub running : Bool
  pub policy : Policy
  pub mounts : List String

abbrev pub docker_socket_paths : List String
docker_socket_paths = "/var/run/docker.sock" ∷ "/run/docker.sock" ∷ []

-- The containers of the host by their ids.
abbrev pub Inventory : Type 0
Inventory = Dict String ContainerFacts

abbrev pub same_storage : Identity → Identity → Bool
same_storage a b = a.device == b.device && a.inode == b.inode

-- Every id of the first list is in the second.
abbrev pub subset : List String → List String → Bool
subset xs ys = all (contains ys) xs

module _ (o : Outside) where
  -- Whether one of the mounts is on the storage, and whether a mount before it is unanswered.
  unfoldable pub walk_mounts : Identity → List String → Bool × Bool
  walk_mounts identity [] = (false, false)
  walk_mounts identity (source ∷ rest) =
      let later = walk_mounts identity rest in
      if is_empty source then later else elim (o.mount_identity source) [
        | none ↦ (later.0, true)
        | some here ↦ if same_storage here identity then (true, false) else later
      ]

  unfoldable pub shares_mount : Identity → String × ContainerFacts → Bool
  shares_mount identity (_, facts) = (walk_mounts identity facts.mounts).0

  unfoldable pub is_unanswered : Identity → String × ContainerFacts → Bool
  is_unanswered identity (_, facts) = (walk_mounts identity facts.mounts).1

  unfoldable pub mount_sharers : Inventory → Identity → Result (List String)
  mount_sharers inventory identity =
      if any (is_unanswered identity) inventory
      then err scope_mismatch
      else ok (keys (keep (shares_mount identity) inventory))

  unfoldable pub is_socket : String → Bool
  is_socket source =
      contains (map o.realpath docker_socket_paths) (o.realpath source)
      || contains docker_socket_paths source

  unfoldable pub holds_socket : String × ContainerFacts → Bool
  holds_socket (_, facts) = any is_socket facts.mounts

  unfoldable pub start_authorities : Inventory → List String
  start_authorities inventory = keys (keep holds_socket inventory)

  -- Without the list of start authorities that the source returns.
  unfoldable pub require_inventory_bound : Inventory → String → List String → Result (Unit {0})
  require_inventory_bound inventory mount_source declared = elim (o.mount_identity mount_source) [
    | none ↦ err scope_mismatch
    | some identity ↦ do
      sharing ← mount_sharers inventory identity
      demand (subset (start_authorities inventory) declared) start_authority_unbound
      demand
          (subset sharing declared
            && all (λ id. contains sharing id || contains (start_authorities inventory) id)
                declared)
          scope_mismatch
  ]
