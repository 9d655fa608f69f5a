-- ===== src/NetAudit/Talkers.antt =====
-- The active peers of a bucket, against the snapshots of its minute.
use glassops.Prelude.{
  ℕ, ◌≡◌, ◌≢◌, refl, ◌∙◌, ap, String, Bool, true, false, not, ◌&&◌, ◌||◌, some, List, [], ◌∷◌, ◌++◌,
  arith, if◌then◌else◌, contains, ◌==◌, All, keep, nat_eq, string_eq,
}
use glassops.Prelude.Dict
use glassops.Prelude.Dict.{Dict, lookup, lookup-insert}
use glassops.NetAudit.Types.{Conn, Key, conn_key, Snapshot, is_wildcard, key_eq}
use glassops.NetAudit.Rollup.{minute, maybe_rollup, add_key, set_of, note_active}
use glassops.NetAudit.Collector.{
  Collector, Tick, has, by_key, current_of, diff_tick, skip_tick, collect,
}
use glassops.NetAudit.Trail.{run, live, has-current_of}
use glassops.NetAudit.Trail.Loops.{has-nil, has-cons}

-- Every key of the snapshot's table is the key of its row.
abbrev Keyed : Dict Key Conn → Type 0
Keyed [] = Unit
Keyed ((k, c) ∷ d) = (c.raddr ≡ k.raddr) × Keyed d

insert-Keyed :
    (k : Key) (c : Conn) (d : Dict Key Conn)
    → c.raddr ≡ k.raddr
    → Keyed d
    → Keyed (Dict.insert k c d)
unfolding Dict.insert
insert-Keyed k c [] e h = (e, tt)
insert-Keyed k c ((j, b) ∷ d) e h = ground (arith, insert-Keyed k c d e)

by_key-Keyed : (d : Dict Key Conn) (cs : List Conn) → Keyed d → Keyed (by_key d cs)
unfolding by_key
by_key-Keyed d [] h = h
by_key-Keyed d (c ∷ cs) h =
    by_key-Keyed (Dict.insert (conn_key c) c d) cs
      (insert-Keyed (conn_key c) c d (unfold conn_key in refl) h)

module _ (r : String) (k : Key) where
  -- Whether the connection `k` counts for the peer `r`.
  unfoldable pub active : Dict String (List Key) → Bool
  active conns = contains (set_of (lookup r conns)) k

  contains-snoc :
      (j : Key) (ks : List Key) → contains (ks ++ (j ∷ [])) k ≡ (k == j || contains ks k)
  contains-snoc j [] = refl
  contains-snoc j (i ∷ ks) = ground (arith, contains-snoc j ks)

  contains_same : (j : Key) (ks : List Key) → k ≡ j → contains ks k ≡ contains ks j
  contains_same j ks e = rw e

  contains-add_key :
      (j : Key) (ks : List Key) → contains (add_key j ks) k ≡ (k == j || contains ks k)
  unfolding add_key
  contains-add_key j ks = ground (arith, contains-snoc j ks, contains_same j ks)

  lookup-insert_set :
      (raddr : String) (ks : List Key) (conns : Dict String (List Key))
      → active (Dict.insert raddr ks conns) ≡ (if r == raddr then contains ks k else active conns)
  unfolding active set_of
  lookup-insert_set raddr ks conns = ground (arith, lookup-insert r raddr ks conns)

  active_at :
      (raddr : String) (conns : Dict String (List Key))
      → r ≡ raddr
      → contains (set_of (lookup raddr conns)) k ≡ active conns
  unfolding active
  active_at raddr conns e = rw e

  active-note_active :
      (current : Dict Key Conn) (conns : Dict String (List Key))
      → Keyed current
      → active (note_active current conns) ≡ (active conns || (has k current && r == k.raddr))
  unfolding note_active
  active-note_active [] conns h = rw has-nil (ground arith)
  active-note_active ((j, c) ∷ current) conns (e, h) =
      let old = set_of (lookup c.raddr conns) in
      let next = Dict.insert c.raddr (add_key j old) conns in
      rw (has-cons, active-note_active current next h)
        (ground (
          arith,
          lookup-insert_set c.raddr (add_key j old) conns,
          contains-add_key j old,
          active_at c.raddr conns,
        ))

abbrev pub Distinct : List Key → Type 0
Distinct [] = Unit
Distinct (k ∷ ks) = (contains ks k ≡ false) × Distinct ks

Distinct-snoc :
    (k : Key) (ks : List Key) → contains ks k ≡ false → Distinct ks → Distinct (ks ++ (k ∷ []))
Distinct-snoc k [] h d = (refl, tt)
Distinct-snoc k (j ∷ ks) h d = ground (arith, Distinct-snoc k ks, contains-snoc "" j k ks)

Distinct-add_key : (k : Key) (ks : List Key) → Distinct ks → Distinct (add_key k ks)
unfolding add_key
Distinct-add_key k ks d = ground (arith, Distinct-snoc k ks)

-- The set of keys that the bucket holds for a peer.
abbrev pub peers : String → Dict String (List Key) → List Key
peers r conns = set_of (lookup r conns)

abbrev AllDistinct : Dict String (List Key) → Type 0
AllDistinct conns = (r : String) → Distinct (peers r conns)

AllDistinct-insert :
    (raddr : String) (ks : List Key) (conns : Dict String (List Key))
    → Distinct ks
    → AllDistinct conns
    → AllDistinct (Dict.insert raddr ks conns)
unfolding set_of
AllDistinct-insert raddr ks conns h d r =
    let old = d r in rw (lookup-insert r raddr ks conns) (ground arith)

AllDistinct-note_active :
    (current : Dict Key Conn) (conns : Dict String (List Key))
    → AllDistinct conns
    → AllDistinct (note_active current conns)
unfolding note_active
AllDistinct-note_active [] conns d = d
AllDistinct-note_active ((j, c) ∷ current) conns d = AllDistinct-note_active current _ (
    AllDistinct-insert c.raddr (add_key j (set_of (lookup c.raddr conns))) conns
      (Distinct-add_key j (set_of (lookup c.raddr conns)) (d c.raddr)) d)

-- Whether some snapshot that could be read shows the connection.
unfoldable pub seen : Key → List Tick → Bool
seen k [] = false
seen k (t ∷ ts) = (t.snap.ok && live k t.snap.conns) || seen k ts

module _ (r : String) (k : Key) where
  abbrev Counted : Bool → Dict String (List Key) → Type 0
  Counted b conns = (active r k conns ≡ (b && r == k.raddr)) × AllDistinct conns

  Counted-note_active :
      (b : Bool) (snap : Snapshot) (conns : Dict String (List Key))
      → Counted b conns
      → Counted (b || live k snap.conns) (note_active (current_of snap) conns)
  Counted-note_active b snap conns (same, d) = (
    rw
        (
          active-note_active r k (current_of snap) conns (
              unfold current_of in
              by_key-Keyed [] (keep (λ (c : Conn). not (is_wildcard c.raddr)) snap.conns) tt),
          same,
          has-current_of,
        )
        (ground arith),
    AllDistinct-note_active (current_of snap) conns d,
  )

  -- A cycle in the minute of the open bucket.
  Counted-collect :
      (b : Bool) (t : Tick) (s : Collector)
      → s.buckets.bucket ≡ some (minute t.now)
      → Counted b s.buckets.conns
      → ((collect t s).1.buckets.bucket ≡ some (minute t.now))
        × Counted (b || (t.snap.ok && live k t.snap.conns)) (collect t s).1.buckets.conns
  unfolding collect diff_tick skip_tick maybe_rollup
  Counted-collect b t s e h = ground (arith, Counted-note_active b t.snap s.buckets.conns h)

  Counted-run :
      (m : ℕ) (ts : List Tick) (b : Bool) (s : Collector)
      → All (λ (t : Tick). minute t.now ≡ m) ts
      → s.buckets.bucket ≡ some m
      → Counted b s.buckets.conns
      → Counted (b || seen k ts) (run s ts).1.buckets.conns
  unfolding run seen
  Counted-run m [] b s h e c = ground arith
  Counted-run m (t ∷ ts) b s h e c =
      let step = Counted-collect b t s (rw h.0 e) c in
      let rest =
        Counted-run m ts (b || (t.snap.ok && live k t.snap.conns)) (collect t s).1 h.1
          (step.0 ∙ ap some h.0) step.1 in
      (ground (arith, rest.0), rest.1)

  -- The first good cycle of a minute: the bucket before it is closed.
  Counted-first :
      (t : Tick) (s : Collector) (b : ℕ)
      → s.buckets.bucket ≡ some b
      → minute t.now ≢ b
      → t.snap.ok ≡ true
      → ((collect t s).1.buckets.bucket ≡ some (minute t.now))
        × Counted (live k t.snap.conns) (collect t s).1.buckets.conns
  unfolding collect diff_tick maybe_rollup
  Counted-first t s b e other good =
      ground (
        arith,
        Counted-note_active false t.snap [] (unfold active set_of lookup in (refl, λ q. tt)),
      )

  -- From a good cycle that opens a new minute, and through any further cycles of that minute, the
  -- bucket counts a connection for the peer `r` exactly if `r` is its remote address and some
  -- snapshot of the minute that could be read shows it, so also when it was opened long before;
  -- and no connection is counted twice.
  pub peers_exact :
      (t : Tick) (ts : List Tick) (s : Collector) (b : ℕ)
      → s.buckets.bucket ≡ some b
      → minute t.now ≢ b
      → t.snap.ok ≡ true
      → All (λ (u : Tick). minute u.now ≡ minute t.now) ts
      → let conns = (run s (t ∷ ts)).1.buckets.conns in
        (contains (peers r conns) k ≡ (seen k (t ∷ ts) && r == k.raddr)) × Distinct (peers r conns)
  unfolding run seen
  peers_exact t ts s b e other good h =
      let step = Counted-first t s b e other good in
      let rest =
        Counted-run (minute t.now) ts (live k t.snap.conns) (collect t s).1 h step.0 step.1 in
      (unfold active in (ground (arith, rest.0)), rest.1 r)
