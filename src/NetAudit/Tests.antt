-- ===== src/NetAudit/Tests.antt =====
-- Runs of the collector, and its theorems at concrete cycles.
use glassops.Prelude.{
  ℕ, ◌+◌, ◌*◌, ◌≡◌, refl, String, true, false, ◌&&◌, some, List, [], ◌∷◌, arith, contains,
  string_eq, nat_eq,
}
use glassops.Prelude.Dict
use glassops.Prelude.Dict.{Dict}
use glassops.NetAudit.Types.{Conn, Key, key_eq, conn_key, Counters, is_wildcard, second}
use native.Mathlib.Decide.{ℕ_discrete}
use glassops.NetAudit.Rollup.{minute, note_active, maybe_rollup}
use glassops.NetAudit.Collector
use glassops.NetAudit.Collector.{Collector, Tick, new, collect, current_of}
use glassops.NetAudit.Trail.Loops.{trail}
use glassops.NetAudit.Trail.{run, events_of, last_seen, trail_exact}
use glassops.NetAudit.Outage.{leaves, outage_discards}
use glassops.NetAudit.Traffic.{reported, reading, start_bytes, reported_exact}
use glassops.NetAudit.Talkers.{peers, seen, Distinct, peers_exact}

-- What a run of the collector computes through.
cycle : Unit {0}
unfolding run collect Collector.diff_tick Collector.skip_tick Collector.cap_events
    Collector.close_gone Collector.open_new Collector.has current_of Collector.by_key is_wildcard
    conn_key key_eq string_eq nat_eq minute maybe_rollup Dict.insert Dict.lookup ℕ_discrete
cycle = tt

abbrev ssh : Conn
ssh = record {
  proto = "tcp";
  laddr = "10.0.0.2";
  lport = 22;
  raddr = "10.0.0.9";
  rport = 5000;
  status = "ESTABLISHED";
  inode = 7;
  pid = some 12;
  pname = "sshd";
}

abbrev ssh_key : Key
ssh_key = record { proto = "tcp"; laddr = "10.0.0.2"; lport = 22; raddr = "10.0.0.9"; rport = 5000 }

abbrev eth0 : ℕ → Dict String Counters
eth0 n = ("eth0", record { bytes_in = n; packets_in = n; bytes_out = n; packets_out = n }) ∷ []

abbrev at : ℕ → List Conn → ℕ → Tick
at seconds conns bytes = record {
  now = seconds * second;
  snap = record { conns = conns; ok = true; reason = "" };
  counters = eth0 bytes;
}

abbrev down : ℕ → Tick
down seconds = record {
  now = seconds * second;
  snap = record { conns = []; ok = false; reason = "tcp table error" };
  counters = [];
}

-- The connection stays open over the outage, and is closed by the last cycle.
abbrev cycles : List Tick
cycles = at 600 (ssh ∷ []) 100 ∷ at 601 (ssh ∷ []) 150 ∷ down 630 ∷ at 640 [] 170 ∷ []

trail_exact_example :
    trail ssh_key false (events_of (run (new 200 20) cycles).0)
    ≡ some (last_seen ssh_key false cycles)
unfolding cycle
trail_exact_example = trail_exact ssh_key cycles 200 20 (omega arith)

abbrev fresh : Collector
fresh = new 200 20

abbrev counting : Collector
counting = record fresh {
  buckets = record { bucket = some 10; start_if = some (eth0 50); conns = []; invalid = false };
}

outage_discards_example :
    ((collect (at 720 [] 90) (run counting (down 630 ∷ down 661 ∷ [])).1).0.rollups ≡ [])
    × ((collect (at 720 [] 90) (run counting (down 630 ∷ down 661 ∷ [])).1).1.buckets ≡ record {
      bucket = some (minute (720 * second));
      start_if = some (eth0 90);
      conns = note_active (current_of (at 720 [] 90).snap) [];
      invalid = false;
    })
unfolding minute leaves nat_eq
outage_discards_example =
    outage_discards (down 630 ∷ down 661 ∷ []) (at 720 [] 90) counting 10 (refl, (refl, tt)) refl
      refl refl (omega arith)

reported_exact_example :
    reported "eth0" (run fresh (at 600 [] 100 ∷ at 660 [] 180 ∷ [])).0
      + reading "eth0" (at 600 [] 100)
    ≡ start_bytes "eth0" (run fresh (at 600 [] 100 ∷ at 660 [] 180 ∷ [])).1.buckets
unfolding Dict.lookup string_eq
reported_exact_example =
    reported_exact "eth0" (at 600 [] 100) (at 660 [] 180 ∷ []) fresh refl refl
      (refl, (refl, tt), refl, omega arith, (refl, (refl, tt), refl, omega arith, tt))

peers_exact_example :
    let conns =
      (run counting (at 660 (ssh ∷ []) 90 ∷ down 661 ∷ at 662 [] 95 ∷ [])).1.buckets.conns in
    (contains (peers "10.0.0.9" conns) ssh_key
      ≡ (seen ssh_key (at 660 (ssh ∷ []) 90 ∷ down 661 ∷ at 662 [] 95 ∷ []) && true))
    × Distinct (peers "10.0.0.9" conns)
unfolding minute string_eq
peers_exact_example =
    peers_exact "10.0.0.9" ssh_key (at 660 (ssh ∷ []) 90) (down 661 ∷ at 662 [] 95 ∷ []) counting 10
      refl (omega arith) refl (refl, (refl, tt))
