-- ===== src/NetAudit/Attribution.antt =====
-- The process that a snapshot gives to a connection.
use glassops.Prelude.{
  ℕ, ◌+◌, ◌≡◌, refl, ◌∙◌, ap, sym, String, Bool, true, false, not, ◌&&◌, ◌||◌, Option, none, some,
  List, [], ◌∷◌, ltb, if◌then◌else◌, ◌==◌, contains, keep, map, contains-keep, arith, Bool-cases,
  inl, inr, nat_eq, string_eq,
}
use glassops.Prelude.Dict
use glassops.Prelude.Dict.{Dict, NodupKeys, insert-NodupKeys}
use glassops.NetAudit.Types.{Conn}
use glassops.NetAudit.Proc.{Numbers}
use glassops.NetAudit.Source.{
  Entry, Table, readable, missing_file, unreadable, Host, Inodes, fd_scan_budget, note_inode, Scan,
  scan_fds, all_found, scan_entry, is_number, scan_entries, build_inode_pid_map, wanted_of,
  is_missing, update_all, drop_gone, next_cache, attribute, all_rows, skipped, attributed,
  is_broken, read_all, required, snapshot,
}

-- A map of a scan: every inode once, and only of those that are wanted.
abbrev IsScan : List ℕ → Inodes → Type 0
IsScan wanted m = NodupKeys m × ((i : ℕ) → contains wanted i ≡ false → Dict.lookup i m ≡ none)

note_inode-IsScan :
    (wanted : List ℕ) (pid : ℕ) (comm : String) (o : Option ℕ) (m : Inodes)
    → IsScan wanted m
    → IsScan wanted (note_inode wanted pid comm o m)
unfolding note_inode
note_inode-IsScan wanted pid comm none m h = h
note_inode-IsScan wanted pid comm (some inode) m h = elim (Bool-cases (contains wanted inode)) [
  | inl yes_ ↦ rw yes_ (
    insert-NodupKeys inode (pid, comm) m h.0,
    λ i out. ground (arith, Dict.lookup-insert i inode (pid, comm) m, h.1 i out, yes_, out),
  )
  | inr out ↦ rw out h
]

scan_fds-IsScan :
    (wanted : List ℕ) (budget pid : ℕ) (comm : String) (fds : List (Option ℕ)) (scanned : ℕ)
    (m : Inodes)
    → IsScan wanted m
    → IsScan wanted (scan_fds wanted budget pid comm fds scanned m).mapping
unfolding scan_fds
scan_fds-IsScan wanted budget pid comm [] scanned m h = h
scan_fds-IsScan wanted budget pid comm (fd ∷ fds) scanned m h =
    elim (Bool-cases (ltb budget (scanned + 1))) [
      | inl over ↦ rw over h
      | inr under ↦ rw under (
          scan_fds-IsScan wanted budget pid comm fds (scanned + 1) (note_inode wanted pid comm fd m)
            (note_inode-IsScan wanted pid comm fd m h))
    ]

scan_entry-IsScan :
    (wanted : List ℕ) (budget : ℕ) (e : Entry) (scanned : ℕ) (m : Inodes)
    → IsScan wanted m
    → IsScan wanted (scan_entry wanted budget e scanned m).mapping
unfolding scan_entry
scan_entry-IsScan wanted budget e scanned m h = by_pid e.pid e.fds
  where
    by_pid :
        (p : Option ℕ) (o : Option (List (Option ℕ)))
        → let out : Scan = elim p [
          | none ↦ record { exceeded = false; scanned = scanned; mapping = m }
          | some pid ↦ elim o [
            | none ↦ record { exceeded = false; scanned = scanned; mapping = m }
            | some fds ↦ scan_fds wanted budget pid e.comm fds scanned m
          ]
        ] in
          IsScan wanted out.mapping
    by_pid none o = h
    by_pid (some pid) none = h
    by_pid (some pid) (some fds) = scan_fds-IsScan wanted budget pid e.comm fds scanned m h

scan_entries-IsScan :
    (wanted : List ℕ) (budget : ℕ) (es : List Entry) (scanned : ℕ) (m : Inodes)
    → IsScan wanted m
    → IsScan wanted (scan_entries wanted budget es scanned m)
unfolding scan_entries
scan_entries-IsScan wanted budget [] scanned m h = h
scan_entries-IsScan wanted budget (e ∷ es) scanned m h =
    by_tests (is_number e && all_found wanted m) out.exceeded here
      (scan_entries-IsScan wanted budget es out.scanned out.mapping here)
  where
    out : Scan
    out = scan_entry wanted budget e scanned m

    here : IsScan wanted out.mapping
    here = scan_entry-IsScan wanted budget e scanned m h

    by_tests :
        (a b : Bool)
        → IsScan wanted out.mapping
        → IsScan wanted (scan_entries wanted budget es out.scanned out.mapping)
        → IsScan wanted (
            if a
            then m
            else if b
            then out.mapping
            else scan_entries wanted budget es out.scanned out.mapping)
    by_tests true b p q = h
    by_tests false true p q = p
    by_tests false false p q = q

build-IsScan :
    (entries : Option (List Entry)) (wanted : List ℕ) (budget : ℕ)
    → IsScan wanted (build_inode_pid_map entries wanted budget)
unfolding build_inode_pid_map
build-IsScan none wanted budget = (tt, λ i out. Dict.lookup-nil i)
build-IsScan (some es) wanted budget =
    scan_entries-IsScan wanted budget es 0 [] (tt, λ i out. Dict.lookup-nil i)

lookup-update_all :
    (i : ℕ) (found cache : Inodes)
    → NodupKeys found
    → Dict.lookup i (update_all found cache)
      ≡ elim (Dict.lookup i found) [ none ↦ Dict.lookup i cache | some v ↦ some v ]
unfolding update_all
lookup-update_all i [] cache u = rw (Dict.lookup-nil i) refl
lookup-update_all i ((j, v) ∷ found) cache (fresh, u) = ground (
  arith,
  lookup-update_all i found (Dict.insert j v cache) u,
  Dict.lookup-insert i j v cache,
  Dict.lookup-cons i j v found,
  fresh,
)

lookup-drop_gone :
    (i : ℕ) (wanted : List ℕ) (cache : Inodes)
    → Dict.lookup i (drop_gone wanted cache)
      ≡ (if contains wanted i then Dict.lookup i cache else none)
unfolding drop_gone
lookup-drop_gone i wanted [] = ground (arith, Dict.lookup-nil {V = ℕ × String} i)
lookup-drop_gone i wanted ((j, v) ∷ cache) = ground (
  arith,
  lookup-drop_gone i wanted cache,
  Dict.lookup-cons i j v cache,
  Dict.lookup-cons i j v (drop_gone wanted cache),
)

-- What the scan of a snapshot finds, of the inodes that the cache does not have.
unfoldable pub scan_of : Option (List Entry) → List Conn → Inodes → Inodes
scan_of entries rows cache = elim (keep (is_missing cache) (wanted_of rows)) [
  | [] ↦ []
  | i ∷ is ↦ build_inode_pid_map entries (i ∷ is) fd_scan_budget
]

-- The process of an inode: that of the cache, or else of the scan, and none for the inode 0.
unfoldable pub process_of : Option (List Entry) → List Conn → Inodes → ℕ → Option (ℕ × String)
process_of entries rows cache i = if i == 0 then none else elim (Dict.lookup i cache) [
  | none ↦ Dict.lookup i (scan_of entries rows cache)
  | some v ↦ some v
]

unfoldable pub with_process : Option (ℕ × String) → Conn → Conn
with_process none r = record r { pid = none; pname = "" }
with_process (some (pid, pname)) r = record r { pid = some pid; pname = pname }

lookup-next_cache :
    (entries : Option (List Entry)) (rows : List Conn) (cache : Inodes) (i : ℕ)
    → Dict.lookup i (next_cache entries rows cache) ≡ (
        if contains (wanted_of rows) i
        then elim (Dict.lookup i cache) [
          | none ↦ Dict.lookup i (scan_of entries rows cache)
          | some v ↦ some v
        ]
        else none)
unfolding next_cache scan_of
lookup-next_cache entries rows cache i = by_missing (keep (is_missing cache) wanted) refl
  where
    wanted : List ℕ
    wanted = wanted_of rows

    by_missing :
        (ms : List ℕ)
        → keep (is_missing cache) wanted ≡ ms
        → Dict.lookup i (
            drop_gone wanted (elim ms [
              | [] ↦ cache
              | k ∷ ks ↦ update_all (build_inode_pid_map entries (k ∷ ks) fd_scan_budget) cache
            ]))
          ≡ (if contains wanted i
              then elim (Dict.lookup i cache) [
                | none ↦ Dict.lookup i (elim ms [
                  | [] ↦ []
                  | k ∷ ks ↦ build_inode_pid_map entries (k ∷ ks) fd_scan_budget
                ])
                | some v ↦ some v
              ]
              else none)
    by_missing [] e =
        ground (arith, lookup-drop_gone i wanted cache, Dict.lookup-nil {V = ℕ × String} i)
    by_missing (k ∷ ks) e =
        let found = build_inode_pid_map entries (k ∷ ks) fd_scan_budget in
        let scan = build-IsScan entries (k ∷ ks) fd_scan_budget in
        let known : contains (k ∷ ks) i ≡ (contains wanted i && is_missing cache i) =
          ap (λ (xs : List ℕ). contains xs i) (sym e) ∙ contains-keep (is_missing cache) wanted i in
        ground (
          arith,
          known,
          scan.1 i,
          missing_lem cache i,
          lookup-drop_gone i wanted (update_all found cache),
          lookup-update_all i found cache scan.0,
        )
      where
        missing_lem :
            (c : Inodes) (j : ℕ)
            → is_missing c j ≡ elim (Dict.lookup j c) [ none ↦ true | some _ ↦ false ]
        missing_lem c j = unfold is_missing in refl

contains-wanted_of_zero : (rows : List Conn) → contains (wanted_of rows) 0 ≡ false
unfolding wanted_of
contains-wanted_of_zero [] = refl
contains-wanted_of_zero (r ∷ rs) = ground (arith, contains-wanted_of_zero rs)

-- The inodes of the rows that are left to do are among those of all rows.
abbrev AreWanted : List ℕ → List Conn → Type 0
AreWanted wanted [] = Unit
AreWanted wanted (r ∷ rs) = ((r.inode == 0 || contains wanted r.inode) ≡ true) × AreWanted wanted rs

AreWanted-cons :
    (i : ℕ) (wanted : List ℕ) (rs : List Conn) → AreWanted wanted rs → AreWanted (i ∷ wanted) rs
AreWanted-cons i wanted [] h = tt
AreWanted-cons i wanted (r ∷ rs) h = (ground (arith, h.0), AreWanted-cons i wanted rs h.1)

wanted_of-AreWanted : (rows : List Conn) → AreWanted (wanted_of rows) rows
unfolding wanted_of
wanted_of-AreWanted [] = tt
wanted_of-AreWanted (r ∷ rs) = by_zero (wanted_of-AreWanted rs) (r.inode == 0) refl
  where
    by_zero :
        AreWanted (wanted_of rs) rs
        → (b : Bool) → (r.inode == 0) ≡ b
        → AreWanted (if b then wanted_of rs else r.inode ∷ wanted_of rs) (r ∷ rs)
    by_zero h true e = (ground (arith, e), h)
    by_zero h false e = (ground arith, AreWanted-cons r.inode (wanted_of rs) rs h)

module _ (entries : Option (List Entry)) (rows : List Conn) (cache : Inodes) where
  attribute_lem :
      (r : Conn)
      → (r.inode == 0 || contains (wanted_of rows) r.inode) ≡ true
      → attribute (next_cache entries rows cache) r
        ≡ with_process (process_of entries rows cache r.inode) r
  unfolding attribute with_process process_of
  attribute_lem r w =
      ground (arith, lookup-next_cache entries rows cache r.inode, contains-wanted_of_zero rows)

  map-attribute :
      (rs : List Conn)
      → AreWanted (wanted_of rows) rs
      → map (attribute (next_cache entries rows cache)) rs
        ≡ map (λ r. with_process (process_of entries rows cache r.inode) r) rs
  map-attribute [] h = refl
  map-attribute (r ∷ rs) h = rw (attribute_lem r h.0, map-attribute rs h.1) refl

abbrev pub is_readable : Table → Bool
is_readable (readable _) = true
is_readable missing_file = false
is_readable unreadable = false

-- The tables of a host without IPv6 are complete too.
abbrev pub is_complete : Host → Bool
is_complete h =
    is_readable h.tcp && is_readable h.udp && not (is_broken h.tcp6) && not (is_broken h.udp6)

-- A snapshot counts exactly if the tables of tcp and udp are readable and those of tcp6 and udp6 are
-- readable or missing. Then it has the rows of all tables, in their order, each with the process
-- that the cache has for its inode, or else that the scan for the inodes without one finds, and none
-- for the inode 0; and the cache has from then on what was found of the inodes of these rows, and
-- nothing else. Otherwise it has no row, and the cache stays as it was.
pub snapshot_exact :
    (N : Numbers) (h : Host) (cache : Inodes) (i : ℕ)
    → let rows = all_rows N h in
      let out = snapshot N h cache in
      (out.0.ok ≡ is_complete h)
      × (out.0.conns ≡ (
          if is_complete h
          then map (λ r. with_process (process_of h.entries rows cache r.inode) r) rows
          else []))
      × (Dict.lookup i out.1 ≡ (
          if is_complete h
          then (if contains (wanted_of rows) i then process_of h.entries rows cache i else none)
          else Dict.lookup i cache))
unfolding snapshot read_all attributed skipped required is_broken process_of
snapshot_exact N h cache i =
    let rows = all_rows N h in
    let given = map-attribute h.entries rows cache rows (wanted_of-AreWanted rows) in
    ground (arith, given, lookup-next_cache h.entries rows cache i, contains-wanted_of_zero rows)
