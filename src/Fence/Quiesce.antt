-- ===== src/Fence/Quiesce.antt =====
-- backend/app/wal_fence.py: fence, which stops the scope, and its preflight.
use glassops.Prelude.{
  ℕ, String, Bool, true, false, not, ◌+◌, ◌&&◌, Option, none, some, List, [], ◌∷◌, map,
  if◌then◌else◌, leb, contains, ◌==◌, string_eq,
}
use glassops.Prelude.Dict
use glassops.Prelude.Sorting.{order_by}
use Prim.Native.String.{compare}
use Prim.Native.Nat.{Ordering}
use glassops.Fence.{
  Result, ok, err, demand, manifest_rejected, prepared_rejected, scope_mismatch,
  restart_policy_not_applied, stop_incomplete, descriptors_open, lease_exceeds_acknowledgement,
  os_error, torn, sealed, Scoped, FileFacts, Ack, Manifest, Target, PreparedRecord, Files,
  exists_file, ◌>>=◌, ◌>>◌,
}
use glassops.Fence.Authority.{Outside, container_ids, verify_ack}
use glassops.Fence.Inventory.{ContainerFacts, Inventory, subset, require_inventory_bound}
use glassops.Fence.Release.{Docker, named, and_then}

-- A container of the scope as the caller declares it.
pub record Declared : Type 0 where
  pub service : String
  pub container_id : String

pub record Preflight : Type 0 where
  pub target : Target
  pub scope : List Declared
  pub scope_facts : List ContainerFacts
  pub ack : Ack

-- One call of `fence`, with what it meets: the container that it resolves to, the clock, whether a
-- lock is there, whether lsof shows the files closed, the files, and whether its writes succeed.
pub record Attempt : Type 0 where
  pub target : Result Target
  pub declared : List Declared
  pub ack : Option Ack
  pub verifier : Option String
  pub host_id : String
  pub now : ℕ
  pub granted_at : ℕ
  pub ttl : ℕ
  pub locked : Bool
  pub closed : Bool
  pub db : FileFacts
  pub wal : FileFacts
  pub prepared_written : Bool
  pub manifest_path : String
  pub manifest_written : Bool
  pub lease_id : String

abbrev pub before_id : Declared → Declared → Bool
before_id a b = elim (compare a.container_id b.container_id) [ Ordering.lt ↦ true | _ ↦ false ]

abbrev declared_ids : List Declared → List String
declared_ids scope = map (λ (e : Declared). e.container_id) scope

-- The facts of each declared container.
unfoldable pub facts_of : Inventory → List Declared → Result (List ContainerFacts)
facts_of inventory [] = ok []
facts_of inventory (entry ∷ rest) = elim (Dict.lookup entry.container_id inventory) [
  | none ↦ err scope_mismatch
  | some facts ↦ do
    demand (facts.service == entry.service) scope_mismatch
    later ← facts_of inventory rest
    ok (facts ∷ later)
]

unfoldable pub scoped_of : ContainerFacts → Scoped
scoped_of facts = record {
  container_id = facts.container_id;
  image_id = facts.image_id;
  policy_before = facts.policy;
  running_before = facts.running;
}

unfoldable pub prepared_body : Preflight → PreparedRecord
prepared_body pre = record { target = pre.target; scope = map scoped_of pre.scope_facts }

unfoldable pub prepared_matches : PreparedRecord → Preflight → Bool
prepared_matches p pre =
    p.target.project == pre.target.project
    && p.target.service == pre.target.service
    && p.target.container_id == pre.target.container_id
    && p.target.image_id == pre.target.image_id
    && p.target.mount_source == pre.target.mount_source
    && subset (container_ids p.scope) (declared_ids pre.scope)
    && subset (declared_ids pre.scope) (container_ids p.scope)

-- The record of an earlier attempt, or a new one.
unfoldable pub prepare_record : Preflight → Bool → Files → Files × Result PreparedRecord
prepare_record pre written f = elim f.prepared [
  | none ↦
      if written
      then (record f { prepared = some (sealed (prepared_body pre)) }, ok (prepared_body pre))
      else (f, err os_error)
  | some torn ↦ (f, err prepared_rejected)
  | some (sealed p) ↦ if prepared_matches p pre then (f, ok p) else (f, err prepared_rejected)
]

module _ {Host : Type 0} (d : Docker Host) where
  unfoldable pub inspect_each : List String → Host → Result Inventory
  inspect_each [] h = ok []
  inspect_each (id ∷ rest) h = do
    facts ← d.inspect id h
    later ← inspect_each rest h
    ok ((id, facts) ∷ later)

  unfoldable pub host_inventory : Host → Result Inventory
  host_inventory h = do ids ← d.list h; inspect_each ids h

  unfoldable pub pin_one : Scoped → Host → Host × Result (Unit {0})
  pin_one entry h =
      let (h', ran) = d.update (named "no") entry.container_id h in
      (
        h',
        do
          ran
          after ← d.inspect entry.container_id h'
          demand (after.policy.name == "no") restart_policy_not_applied,
      )

  unfoldable pub pin_all : List Scoped → Host → Host × Result (Unit {0})
  pin_all [] h = (h, ok tt)
  pin_all (entry ∷ rest) h = and_then (pin_one entry h) (λ _ h'. pin_all rest h')

  unfoldable pub stop_one : Scoped → Host → Host × Result (Unit {0})
  stop_one entry h =
      let (h', ran) = d.stop entry.container_id h in
      (
        h',
        do
          timed_out ← ran
          after ← d.inspect entry.container_id h'
          demand (not timed_out) stop_incomplete
          demand (not after.running && after.status == "exited") stop_incomplete,
      )

  unfoldable pub stop_all : List Scoped → Host → Host × Result (Unit {0})
  stop_all [] h = (h, ok tt)
  stop_all (entry ∷ rest) h = and_then (stop_one entry h) (λ _ h'. stop_all rest h')

  -- The scope is pinned as a whole before the first container is stopped.
  unfoldable pub quiesce : List Scoped → Host → Host × Result (Unit {0})
  quiesce scope h = and_then (pin_all scope h) (λ _ h'. stop_all scope h')

module _ {Host : Type 0} (o : Outside) (d : Docker Host) where
  -- From the target on: whole-host inventory, scope and acknowledgement.
  unfoldable pub preflight : Attempt → Host → Result Preflight
  preflight a h = do
    target ← a.target
    inventory ← host_inventory d h
    demand (contains (declared_ids a.declared) target.container_id) scope_mismatch
    require_inventory_bound o inventory target.mount_source (declared_ids a.declared)
    _ ← facts_of inventory a.declared
    verify_ack o a.verifier a.ack a.host_id (declared_ids a.declared)
        (o.mount_identity target.mount_source) a.now
    ack ← elim a.ack [ none ↦ err scope_mismatch | some ack ↦ ok ack ]
    facts ← facts_of inventory (order_by before_id a.declared)
    ok (record {
      target = target;
      scope = order_by before_id a.declared;
      scope_facts = facts;
      ack = ack;
    })

  unfoldable pub manifest_of : Attempt → Preflight → List Scoped → Manifest
  manifest_of a pre scope = record {
    path = a.manifest_path;
    quiesced = true;
    lease_id = a.lease_id;
    expires_at = a.granted_at + a.ttl;
    ack = some pre.ack;
    ack_lease_binding = o.lease_binding pre.ack a.lease_id (container_ids scope);
    host_id = a.host_id;
    scope = scope;
    mount_source = pre.target.mount_source;
    db_path = pre.target.db_path;
    wal_path = pre.target.wal_path;
    db = a.db;
    wal = a.wal;
  }

  -- From the stopped host on: the probe and the manifest.
  unfoldable pub write_manifest :
      Attempt
      → Preflight
      → List Scoped
      → Files
      → Host × Result (Unit {0})
      → (Files × Host) × Result Manifest
  write_manifest a pre scope f (h, err e) = ((f, h), err e)
  write_manifest a pre scope f (h, ok _) =
      let m = manifest_of a pre scope in
      if not a.closed
      then ((f, h), err descriptors_open)
      else if a.manifest_written
      then ((record f { manifest = some (sealed m) }, h), ok m)
      else ((f, h), err os_error)

  -- From the preflight on.
  unfoldable pub fence_scope :
      Attempt → Preflight → Files × Result PreparedRecord → Host → (Files × Host) × Result Manifest
  fence_scope a pre (f, err e) h = ((f, h), err e)
  fence_scope a pre (f, ok p) h = write_manifest a pre p.scope f (quiesce d p.scope h)

  unfoldable pub fence_locked : Attempt → Files → Host → (Files × Host) × Result Manifest
  fence_locked a f h = elim (preflight a h) [
    | err e ↦ ((f, h), err e)
    | ok pre ↦
        if not (leb (a.granted_at + a.ttl) pre.ack.expires_at)
        then ((f, h), err lease_exceeds_acknowledgement)
        else if exists_file f.manifest
        then ((f, h), err manifest_rejected)
        else fence_scope a pre (prepare_record pre a.prepared_written f) h
  ]

  unfoldable pub fence : Attempt → Files → Host → (Files × Host) × Result Manifest
  fence a f h = if a.locked then ((f, h), err manifest_rejected) else fence_locked a f h
