-- ===== src/AuditLog.antt =====
-- backend/app/database.py: the tables net_conn_events and net_flow_rollup, how they are filled and
-- cleaned, and the pages that are read of them.
use glassops.Prelude.{
  ℕ, ◌+◌, ◌*◌, min, max, String, Bool, true, false, ◌&&◌, ◌||◌, Option, none, some, List, [], ◌∷◌,
  ◌++◌, ltb, leb, if◌then◌else◌, ◌==◌, keep, take, string_eq, nat_eq,
}
use glassops.Prelude.Text.{is_empty}
use glassops.Prelude.Sorting.{order_by}
use glassops.Ingest.{CleanEvent, CleanRollup, second}
pub mod Paging
pub mod Ids
pub mod Tests

pub record EventRow : Type 0 where
  pub id : ℕ
  pub agent_id : String
  pub entry : CleanEvent

pub record RollupRow : Type 0 where
  pub agent_id : String
  pub entry : CleanRollup

-- `next_id` is what AUTOINCREMENT gives to the next row.
pub record AuditTables : Type 0 where
  pub next_id : ℕ
  pub events : List EventRow
  pub rollups : List RollupRow

unfoldable pub insert_events : String → List CleanEvent → AuditTables → AuditTables
insert_events agent [] t = t
insert_events agent (e ∷ es) t = insert_events agent es (record t {
  next_id = t.next_id + 1;
  events = t.events ++ (record { id = t.next_id; agent_id = agent; entry = e } ∷ []);
})

-- The unique index on (agent_id, ts).
unfoldable pub same_slot : String → ℕ → RollupRow → Bool
same_slot agent ts r = r.agent_id == agent && r.entry.ts == ts

unfoldable pub drop_slot : String → ℕ → List RollupRow → List RollupRow
drop_slot agent ts [] = []
drop_slot agent ts (r ∷ rs) =
    let others = drop_slot agent ts rs in if same_slot agent ts r then others else r ∷ others

-- `INSERT OR REPLACE`
unfoldable pub insert_rollups : String → List CleanRollup → AuditTables → AuditTables
insert_rollups agent [] t = t
insert_rollups agent (r ∷ rs) t = insert_rollups agent rs (record t {
  rollups = drop_slot agent r.ts t.rollups ++ (record { agent_id = agent; entry = r } ∷ []);
})

unfoldable pub store_net_audit :
    String → List CleanEvent → List CleanRollup → AuditTables → AuditTables
store_net_audit agent events rollups t = insert_rollups agent rollups (insert_events agent events t)

-- Neither older than the limit nor in the future: `NOT (ts < ? OR ts > ?)`.
unfoldable pub is_current : ℕ → ℕ → ℕ → Bool
is_current now days ts = leb now (ts + days * 86_400 * second) && leb ts (now + 300 * second)

-- With the number of deleted events, which is what the function answers.
unfoldable pub deleted_events : ℕ → ℕ → List EventRow → ℕ
deleted_events now days [] = 0
deleted_events now days (r ∷ rs) =
    let others = deleted_events now days rs in
    if is_current now days r.entry.ts then others else others + 1

unfoldable pub cleanup_net_audit : ℕ → ℕ → ℕ → AuditTables → ℕ × AuditTables
cleanup_net_audit now event_days rollup_days t = (
  deleted_events now event_days t.events,
  record t {
    events = keep (λ r. is_current now event_days r.entry.ts) t.events;
    rollups = keep (λ r. is_current now rollup_days r.entry.ts) t.rollups;
  },
)

-- The arguments of a page but its cursor and its length; an empty text is no filter.
pub record Filters : Type 0 where
  pub agent_id : String
  pub proto : Option String
  pub raddr : Option String
  pub port : Option ℕ
  pub pid : Option ℕ

unfoldable pub text_matches : Option String → String → Bool
text_matches none s = true
text_matches (some wanted) s = is_empty wanted || s == wanted

-- `column = ?`, which is not so for NULL.
unfoldable pub holds : ℕ → Option ℕ → Bool
holds wanted none = false
holds wanted (some n) = n == wanted

unfoldable pub port_matches : Option ℕ → CleanEvent → Bool
port_matches none e = true
port_matches (some port) e = holds port e.lport || holds port e.rport

unfoldable pub pid_matches : Option ℕ → CleanEvent → Bool
pid_matches none e = true
pid_matches (some pid) e = holds pid e.pid

unfoldable pub matches : Filters → EventRow → Bool
matches q r =
    r.agent_id == q.agent_id
    && text_matches q.proto r.entry.proto
    && text_matches q.raddr r.entry.raddr
    && port_matches q.port r.entry
    && pid_matches q.pid r.entry

-- `ts < ? OR (ts = ? AND id < ?)`, or only the first test without an id.
unfoldable pub behind : Option ℕ → Option ℕ → EventRow → Bool
behind none before_id r = true
behind (some ts) none r = ltb r.entry.ts ts
behind (some ts) (some id) r = ltb r.entry.ts ts || (r.entry.ts == ts && ltb r.id id)

-- `ORDER BY ts DESC, id DESC`
unfoldable pub newest_first : EventRow → EventRow → Bool
newest_first x y = ltb y.entry.ts x.entry.ts || (y.entry.ts == x.entry.ts && ltb y.id x.id)

-- `max(1, min(limit, 1000))`
unfoldable pub page_length : ℕ → ℕ
page_length limit = max 1 (min limit 1000)

unfoldable pub get_net_conn_events : Filters → Option ℕ → Option ℕ → ℕ → AuditTables → List EventRow
get_net_conn_events q before_ts before_id limit t =
    take (page_length limit)
      (order_by newest_first (keep (λ r. matches q r && behind before_ts before_id r) t.events))

unfoldable pub oldest_first : RollupRow → RollupRow → Bool
oldest_first x y = ltb x.entry.ts y.entry.ts

unfoldable pub get_net_flow_rollup : String → ℕ → ℕ → AuditTables → List RollupRow
get_net_flow_rollup agent start end_ t =
    order_by oldest_first
      (keep (λ r. r.agent_id == agent && leb start r.entry.ts && leb r.entry.ts end_) t.rollups)
