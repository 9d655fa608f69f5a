-- ===== src/Ingest/Events.antt =====
-- `_clean_event`
use glassops.Prelude.{ℕ, String, Bool, false, Option, none, some, if◌then◌else◌}
use glassops.Json.{
  ℤ, Json, null, bool, int, float, infinite, str, arr, obj, Members, get, text_of, in_set,
}
use glassops.Ingest.{
  max_pid, event_kinds, protos, CleanEvent, finite, int_within, not_negative, capped, ip,
}

-- Both membership tests, the second only if the first holds.
unfoldable pub is_known : Members → Option Bool
is_known e = elim (in_set event_kinds (get "event" e)) [
  | none ↦ none
  | some known ↦ if known then in_set protos (get "proto" e) else some false
]

module _ (canonical : String → Option String) (show : Json → String) where
  unfoldable pub event_of : Members → ℕ → Option ℤ → CleanEvent
  event_of e server_ts duration = record {
    event = text_of (get "event" e);
    ts = server_ts;
    proto = text_of (get "proto" e);
    laddr = ip canonical (get "laddr" e);
    lport = int_within 0 65535 (get "lport" e);
    raddr = ip canonical (get "raddr" e);
    rport = int_within 0 65535 (get "rport" e);
    status = capped show 32 (get "status" e);
    pid = int_within 0 max_pid (get "pid" e);
    pname = capped show 64 (get "pname" e);
    duration = not_negative duration;
  }

  unfoldable pub clean_members : Members → ℕ → Option (Option CleanEvent)
  clean_members e server_ts = elim (is_known e) [
    | none ↦ none
    | some known ↦
        if known
        then elim (finite (get "duration" e)) [
          | none ↦ none
          | some duration ↦ some (some (event_of e server_ts duration))
        ]
        else some none
  ]

  unfoldable pub clean_event : ℕ → Json → Option (Option CleanEvent)
  clean_event server_ts (obj e) = clean_members e server_ts
  clean_event server_ts null = some none
  clean_event server_ts (bool _) = some none
  clean_event server_ts (int _) = some none
  clean_event server_ts (float _) = some none
  clean_event server_ts infinite = some none
  clean_event server_ts (str _) = some none
  clean_event server_ts (arr _) = some none
