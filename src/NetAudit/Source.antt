-- ===== src/NetAudit/Source.antt =====
-- `HostNetnsProcSource` and `build_inode_pid_map`: a snapshot of the connection table, with the
-- process of each socket.
use glassops.Prelude.{
  ℕ, ◌+◌, String, Bool, true, false, ◌&&◌, Option, none, some, List, [], ◌∷◌, ◌++◌, ltb,
  if◌then◌else◌, ◌==◌, contains, keep, map, nat_eq, string_eq,
}
use glassops.Prelude.Dict
use glassops.Prelude.Dict.{Dict}
use glassops.NetAudit.Types.{Conn, Snapshot, Counters}
use glassops.NetAudit.Proc.{Numbers, parse_proc_net, parse_proc_net_dev}

-- An entry of the proc file system: its number, `none` if its name is no number; the targets of its
-- descriptors, `none` if they cannot be listed, each the inode if it is a socket that can be read;
-- and its name without blanks around it, empty if it cannot be read.
pub record Entry : Type 0 where
  pub pid : Option ℕ
  pub fds : Option (List (Option ℕ))
  pub comm : String

-- `_read_proto`
pub data Table : Type 0 where
  readable : String → Table
  missing_file : Table
  unreadable : Table

-- What one call of `snapshot` reads; `entries` is `none` where the directory cannot be listed.
pub record Host : Type 0 where
  pub tcp : Table
  pub tcp6 : Table
  pub udp : Table
  pub udp6 : Table
  pub entries : Option (List Entry)

abbrev pub Inodes : Type 0
Inodes = Dict ℕ (ℕ × String)

abbrev pub fd_scan_budget : ℕ
fd_scan_budget = 200_000

unfoldable pub note_inode : List ℕ → ℕ → String → Option ℕ → Inodes → Inodes
note_inode wanted pid comm none m = m
note_inode wanted pid comm (some inode) m =
    if contains wanted inode then Dict.insert inode (pid, comm) m else m

-- The loop over descriptors: whether the budget is exceeded, how many were looked at, and the map.
pub record Scan : Type 0 where
  pub exceeded : Bool
  pub scanned : ℕ
  pub mapping : Inodes

unfoldable pub scan_fds : List ℕ → ℕ → ℕ → String → List (Option ℕ) → ℕ → Inodes → Scan
scan_fds wanted budget pid comm [] scanned m = record {
  exceeded = false;
  scanned = scanned;
  mapping = m;
}
scan_fds wanted budget pid comm (fd ∷ fds) scanned m =
    let later =
      scan_fds wanted budget pid comm fds (scanned + 1) (note_inode wanted pid comm fd m) in
    if ltb budget (scanned + 1)
    then record { exceeded = true; scanned = scanned + 1; mapping = m }
    else later

-- `not (wanted - mapping.keys())`
unfoldable pub all_found : List ℕ → Inodes → Bool
all_found [] m = true
all_found (i ∷ is) m = elim (Dict.lookup i m) [ none ↦ false | some _ ↦ all_found is m ]

unfoldable pub scan_entry : List ℕ → ℕ → Entry → ℕ → Inodes → Scan
scan_entry wanted budget e scanned m = elim e.pid [
  | none ↦ record { exceeded = false; scanned = scanned; mapping = m }
  | some pid ↦ elim e.fds [
    | none ↦ record { exceeded = false; scanned = scanned; mapping = m }
    | some fds ↦ scan_fds wanted budget pid e.comm fds scanned m
  ]
]

unfoldable pub is_number : Entry → Bool
is_number e = elim e.pid [ none ↦ false | some _ ↦ true ]

unfoldable pub scan_entries : List ℕ → ℕ → List Entry → ℕ → Inodes → Inodes
scan_entries wanted budget [] scanned m = m
scan_entries wanted budget (e ∷ es) scanned m =
    let out = scan_entry wanted budget e scanned m in
    let later = scan_entries wanted budget es out.scanned out.mapping in
    if is_number e && all_found wanted m then m else if out.exceeded then out.mapping else later

-- `build_inode_pid_map`, called with the inodes that are wanted.
unfoldable pub build_inode_pid_map : Option (List Entry) → List ℕ → ℕ → Inodes
build_inode_pid_map none wanted budget = []
build_inode_pid_map (some entries) wanted budget = scan_entries wanted budget entries 0 []

-- The inodes of rows, but 0.
unfoldable pub wanted_of : List Conn → List ℕ
wanted_of [] = []
wanted_of (r ∷ rs) = let rest = wanted_of rs in if r.inode == 0 then rest else r.inode ∷ rest

unfoldable pub is_missing : Inodes → ℕ → Bool
is_missing cache i = elim (Dict.lookup i cache) [ none ↦ true | some _ ↦ false ]

-- `cache.update(found)`
unfoldable pub update_all : Inodes → Inodes → Inodes
update_all [] cache = cache
update_all ((i, v) ∷ found) cache = update_all found (Dict.insert i v cache)

unfoldable pub drop_gone : List ℕ → Inodes → Inodes
drop_gone wanted [] = []
drop_gone wanted ((i, v) ∷ cache) =
    let rest = drop_gone wanted cache in if contains wanted i then (i, v) ∷ rest else rest

-- The cache after the scan, for the rows of a snapshot; no scan without a missing inode.
unfoldable pub next_cache : Option (List Entry) → List Conn → Inodes → Inodes
next_cache entries rows cache =
    let wanted = wanted_of rows in
    drop_gone wanted (elim (keep (is_missing cache) wanted) [
      | [] ↦ cache
      | i ∷ is ↦ update_all (build_inode_pid_map entries (i ∷ is) fd_scan_budget) cache
    ])

unfoldable pub attribute : Inodes → Conn → Conn
attribute cache r = elim (Dict.lookup r.inode cache) [
  | none ↦ record r { pid = none; pname = "" }
  | some (pid, pname) ↦ record r { pid = some pid; pname = pname }
]

unfoldable pub skipped : String → Inodes → Snapshot × Inodes
skipped reason cache = (record { conns = []; ok = false; reason = reason }, cache)

unfoldable pub attributed : List Conn → Inodes → Snapshot × Inodes
attributed rows cache =
    (record { conns = map (attribute cache) rows; ok = true; reason = "" }, cache)

-- A table that is there and cannot be read.
unfoldable pub is_broken : Table → Bool
is_broken (readable _) = false
is_broken missing_file = false
is_broken unreadable = true

-- The reason for a table that has to be there.
unfoldable pub required : String → String → Table → Option String
required absent_reason error_reason (readable _) = none
required absent_reason error_reason missing_file = some absent_reason
required absent_reason error_reason unreadable = some error_reason

module _ (N : Numbers) where
  unfoldable pub table_rows : Table → String → List Conn
  table_rows (readable text) proto = parse_proc_net N text proto
  table_rows missing_file proto = []
  table_rows unreadable proto = []

  unfoldable pub all_rows : Host → List Conn
  all_rows h =
      table_rows h.tcp "tcp"
      ++ (table_rows h.tcp6 "tcp6" ++ (table_rows h.udp "udp" ++ table_rows h.udp6 "udp6"))

  unfoldable pub read_all : Host → Inodes → Snapshot × Inodes
  read_all h cache =
      if is_broken h.tcp6
      then skipped "tcp6 table unreadable" cache
      else if is_broken h.udp6
      then skipped "udp6 table unreadable" cache
      else attributed (all_rows h) (next_cache h.entries (all_rows h) cache)

  -- `snapshot`, with the cache after it.
  unfoldable pub snapshot : Host → Inodes → Snapshot × Inodes
  snapshot h cache = elim (required "tcp table absent" "tcp table error" h.tcp) [
    | some reason ↦ skipped reason cache
    | none ↦ elim (required "udp table absent" "udp table error" h.udp) [
      | some reason ↦ skipped reason cache
      | none ↦ read_all h cache
    ]
  ]

  -- The text of /proc/net/dev, empty if it cannot be read.
  unfoldable pub interface_counters : Option String → Dict String Counters
  interface_counters none = parse_proc_net_dev N ""
  interface_counters (some text) = parse_proc_net_dev N text
