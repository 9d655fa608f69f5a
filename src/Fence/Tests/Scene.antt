-- ===== src/Fence/Tests/Scene.antt =====
-- A host of two containers, a fence on it, and runs of the operations.
use glassops.Prelude.{
  Bool, String, true, false, Option, none, some, List, [], ◌∷◌, string_eq, nat_eq,
}
use glassops.Prelude.Text.{strip, is_empty}
use glassops.Prelude.Dict
use glassops.Prelude.Dict.{Dict}
use glassops.Fence.{
  ok, Result, ReleaseRecord, Scoped, sealed, FileFacts, Ack, Manifest, Target, Files,
  Stage-discrete, read_apply_record, binds, require_claim_binds,
}
use glassops.Fence.Authority.{
  has_fields, in_window, verify_ack, reverify_manifest_authority, require_authority_at,
}
use glassops.Fence.Inventory.{
  ContainerFacts, walk_mounts, shares_mount, is_unanswered, mount_sharers, is_socket, holds_socket,
  start_authorities, require_inventory_bound,
}
use glassops.Fence.Claims.{
  Survey, Grant, same_identity, still_fenced, claim_record, require_active, claim_allowed,
  create_claim, claim, apply_allowed, note_applying, begin_apply, check_before_source_open, bool_eq,
}
use glassops.Fence.Finish.{
  finish_claim, complete, finish_live, is_finishable, mark_finished, terminal_record,
}
use glassops.Fence.Release.{
  format_policy, lease_of, require_spent, release_allowed, wanted_policy, restore_one, restore_all,
}
use glassops.Fence.Release.Start.{start_one, start_all, put_back, write_release, release}
use glassops.Fence.Quiesce.{
  Attempt, facts_of, scoped_of, prepared_body, prepared_matches, prepare_record, inspect_each,
  host_inventory, pin_one, pin_all, stop_one, stop_all, quiesce, preflight, manifest_of,
  write_manifest, fence_scope, fence_locked, fence,
}
use glassops.Fence.Steps.{Event, claims, begins, completes, run}
use glassops.Fence.Tests.Memory.{world, Host, docker}
use glassops.Fence.Attempts.{attempt_all}
use glassops.Prelude.Sorting.{order_by}

abbrev pub stopped_facts : ContainerFacts
stopped_facts = record {
  container_id = "web";
  service = "web";
  image_id = "image";
  status = "exited";
  running = false;
  policy = record { name = "no"; retries = 0 };
  mounts = "/data" ∷ [];
}

abbrev pub web_facts : ContainerFacts
web_facts = record stopped_facts {
  status = "running";
  running = true;
  policy = record { name = "on-failure"; retries = 3 };
}

abbrev pub cache_facts : ContainerFacts
cache_facts = record web_facts { container_id = "cache"; mounts = "/cache" ∷ [] }

abbrev pub host : Host
host = ("web", web_facts) ∷ ("cache", cache_facts) ∷ []

abbrev pub quiet_host : Host
quiet_host = ("web", stopped_facts) ∷ ("cache", cache_facts) ∷ []

abbrev pub ack : Ack
ack = record {
  issuer = "admin";
  issued_at = 0;
  expires_at = 100;
  host_id = "host";
  scope_digest = "scope";
  signature = "signed";
}

abbrev pub file : FileFacts
file = record { exists = true; size = 4096; inode = some 5; device = some 1; sha = some "hash" }

abbrev pub scoped : Scoped
scoped = record {
  container_id = "web";
  image_id = "image";
  policy_before = record { name = "on-failure"; retries = 3 };
  running_before = true;
}

abbrev pub manifest : Manifest
manifest = record {
  path = "m";
  quiesced = true;
  lease_id = "lease";
  expires_at = 50;
  ack = some ack;
  ack_lease_binding = "bound";
  host_id = "host";
  scope = scoped ∷ [];
  mount_source = "/data";
  db_path = "/data/db";
  wal_path = "/data/db-wal";
  db = file;
  wal = file;
}

abbrev pub target : Target
target = record {
  project = "p";
  service = "web";
  container_id = "web";
  image_id = "image";
  mount_source = "/data";
  db_path = "/data/db";
  wal_path = "/data/db-wal";
}

abbrev pub survey : Survey
survey = record {
  first = 10;
  second = 11;
  inventory = ok quiet_host;
  closed = true;
  db = file;
  wal = file;
}

abbrev pub no_files : Files
no_files = record {
  prepared = none;
  manifest = none;
  claim = none;
  done = none;
  applying = none;
  release = none;
}

-- The files of a fence that was just taken.
abbrev pub fenced : Files
fenced = record no_files {
  prepared = some (sealed (record { target = target; scope = scoped ∷ [] }));
  manifest = some (sealed manifest);
}

abbrev pub attempt : Attempt
attempt = record {
  target = ok target;
  declared = record { service = "web"; container_id = "web" } ∷ [];
  ack = some ack;
  verifier = some "key";
  host_id = "host";
  now = 10;
  granted_at = 10;
  ttl = 40;
  locked = false;
  closed = true;
  db = file;
  wal = file;
  prepared_written = true;
  manifest_path = "m";
  manifest_written = true;
  lease_id = "lease";
}

abbrev pub claiming : Event Host
claiming = claims survey "id" true

abbrev pub beginning : Event Host
beginning = begins "id" 12 "apply" true

abbrev pub whole_pass : List (Event Host)
whole_pass = claiming ∷ beginning ∷ beginning ∷ completes "id" 13 true true ∷ []

-- After two attempts, the first of which ends before its manifest is written.
abbrev pub attempts : List Attempt
attempts = record attempt { manifest_written = false } ∷ attempt ∷ []

unfoldable pub key : Option String
key = some "key"

-- The files after events on this host.
unfoldable pub pass : List (Event Host) → Files → Files
unfolding key has_fields in_window verify_ack reverify_manifest_authority require_authority_at
    walk_mounts shares_mount is_unanswered mount_sharers is_socket holds_socket start_authorities
    require_inventory_bound claim_record require_active claim_allowed create_claim claim
    apply_allowed note_applying begin_apply read_apply_record binds require_claim_binds finish_claim
    complete finish_live is_finishable mark_finished terminal_record string_eq nat_eq strip is_empty
    Dict.lookup Stage-discrete
pass es f = run world key docker manifest es f

unfoldable pub release_here : Bool → Files → Host → (Files × Host) × Result ReleaseRecord
unfolding release_allowed lease_of require_spent put_back restore_all restore_one start_all
    start_one write_release release wanted_policy format_policy Dict.insert Dict.lookup string_eq
    nat_eq is_empty
release_here start f h = release docker "m" true true start [] true f f h

unfoldable pub attempted : Files × Host
unfolding fence fence_locked preflight host_inventory inspect_each facts_of prepare_record
    prepared_body scoped_of prepared_matches fence_scope quiesce pin_all pin_one stop_all stop_one
    write_manifest manifest_of order_by verify_ack has_fields in_window strip is_empty walk_mounts
    shares_mount is_unanswered mount_sharers is_socket holds_socket start_authorities
    require_inventory_bound string_eq nat_eq Dict.insert Dict.lookup
attempted = attempt_all world docker attempts no_files host

unfoldable pub grant_here : Files → Result Grant
unfolding check_before_source_open same_identity still_fenced bool_eq
grant_here f = check_before_source_open world key manifest "id" survey "/data/db" f

unfoldable pub claimed_files : Files
unfolding pass
claimed_files = pass (claiming ∷ []) fenced

unfoldable pub begun_files : Files
unfolding pass
begun_files = pass (claiming ∷ beginning ∷ []) fenced
