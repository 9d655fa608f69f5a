-- ===== src/Ingest/Wellformed.antt =====
-- A message of an agent that keeps to the format.
use glassops.Prelude.{ℕ, Option, none, some, List, [], ◌∷◌}
use glassops.Json.{pos, Json, null, int, float, str, obj, Items, no_items, item, Members}
use glassops.Ingest.{CleanEvent}
use glassops.Json.{member, no_members}

abbrev pub number_or_null : Option ℕ → Json
number_or_null none = null
number_or_null (some n) = int (pos n)

abbrev pub duration_or_null : Option ℕ → Json
duration_or_null none = null
duration_or_null (some n) = float (pos n)

-- An event as `NetAuditCollector._event` of the agent sends it.
abbrev pub sent_members : CleanEvent → Members
sent_members e = member "event" (str e.event) (
    member "ts" (float (pos e.ts)) (
      member "proto" (str e.proto) (
        member "laddr" (str e.laddr) (
          member "lport" (number_or_null e.lport) (
            member "raddr" (str e.raddr) (
              member "rport" (number_or_null e.rport) (
                member "status" (str e.status) (
                  member "pid" (number_or_null e.pid) (
                    member "pname" (str e.pname)
                      (member "duration" (duration_or_null e.duration) no_members))))))))))

abbrev pub sent_event : CleanEvent → Json
sent_event e = obj (sent_members e)

abbrev pub sent_items : List CleanEvent → Items
sent_items [] = no_items
sent_items (e ∷ es) = item (sent_event e) (sent_items es)

abbrev pub at_time : ℕ → CleanEvent → CleanEvent
at_time ts e = record e { ts = ts }
