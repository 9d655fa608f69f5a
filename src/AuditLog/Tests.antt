-- ===== src/AuditLog/Tests.antt =====
-- Pages over events of the same time.
use glassops.Prelude.{ℕ, ◌≡◌, none, some, List, [], ◌∷◌, arith, string_eq, nat_eq}
use glassops.Prelude.Text.{is_empty}
use glassops.Prelude.Sorting.{order_by}
use glassops.Ingest.{CleanEvent}
use glassops.AuditLog.{
  Filters, insert_events, insert_rollups, store_net_audit, is_current, cleanup_net_audit,
  text_matches, holds, port_matches, pid_matches, matches, newest_first,
}
use glassops.AuditLog.Ids.{Op, store, clean, run, no_rows, pages-run}
use glassops.AuditLog.Paging.{pages}

abbrev event_at : ℕ → ℕ → CleanEvent
event_at ts port = record {
  event = "open";
  ts = ts;
  proto = "tcp";
  laddr = "";
  lport = some port;
  raddr = "";
  rport = none;
  status = "";
  pid = none;
  pname = "";
  duration = none;
}

abbrev written : List Op
written = store "web" (event_at 5 80 ∷ event_at 5 443 ∷ event_at 5 80 ∷ []) [] ∷ clean 6 1 1 ∷ []

abbrev on_port : Filters
on_port = record { agent_id = "web"; proto = none; raddr = some ""; port = some 80; pid = none }

paged : Unit {0}
unfolding string_eq nat_eq insert_events insert_rollups store_net_audit is_current cleanup_net_audit
    text_matches holds port_matches pid_matches matches newest_first is_empty order_by
paged = tt

pages-run_example :
    pages 3 on_port 1 none none (run written no_rows)
    ≡ record { id = 3; agent_id = "web"; entry = event_at 5 80 }
      ∷ record { id = 1; agent_id = "web"; entry = event_at 5 80 }
      ∷ []
unfolding paged
pages-run_example = pages-run written on_port 1 3 (omega arith)
