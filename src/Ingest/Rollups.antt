-- ===== src/Ingest/Rollups.antt =====
-- `_clean_rollup`
use glassops.Prelude.{ℕ, String, Option, none, some}
use glassops.Json.{Json, null, bool, int, float, infinite, str, arr, obj, Members, get}
use glassops.Ingest.{
  max_pid, max_ifaces, max_talkers, Iface, CleanTalker, CleanRollup, finite, int_within, or_zero,
  byte_count, rollup_ts, clean_list, capped, ip,
}

module _ (canonical : String → Option String) (show : Json → String) where
  -- The loops skip what is no dict, of the first items of a list.
  unfoldable pub iface_of : Json → Option (Option Iface)
  iface_of (obj it) = elim (byte_count (get "bytes_in" it)) [
    | none ↦ none
    | some bytes_in ↦ elim (byte_count (get "bytes_out" it)) [
      | none ↦ none
      | some bytes_out ↦ some (
          some (record {
            name = capped show 32 (get "name" it);
            bytes_in = bytes_in;
            bytes_out = bytes_out;
          }))
    ]
  ]
  iface_of null = some none
  iface_of (bool _) = some none
  iface_of (int _) = some none
  iface_of (float _) = some none
  iface_of infinite = some none
  iface_of (str _) = some none
  iface_of (arr _) = some none

  unfoldable pub talker_of : Json → Option (Option CleanTalker)
  talker_of (obj t) = some (
      some (record {
        raddr = ip canonical (get "raddr" t);
        conns = or_zero (int_within 0 max_pid (get "conns" t));
      }))
  talker_of null = some none
  talker_of (bool _) = some none
  talker_of (int _) = some none
  talker_of (float _) = some none
  talker_of infinite = some none
  talker_of (str _) = some none
  talker_of (arr _) = some none

  unfoldable pub rollup_of : Members → ℕ → Option (Option CleanRollup)
  rollup_of r server_ts = elim (finite (get "ts" r)) [
    | none ↦ none
    | some ts ↦ elim (clean_list iface_of max_ifaces (get "interfaces" r)) [
      | none ↦ none
      | some ifaces ↦ elim (clean_list talker_of max_talkers (get "top_talkers" r)) [
        | none ↦ none
        | some talkers ↦ some (
            some
              (record { ts = rollup_ts server_ts ts; interfaces = ifaces; top_talkers = talkers }))
      ]
    ]
  ]

  unfoldable pub clean_rollup : ℕ → Json → Option (Option CleanRollup)
  clean_rollup server_ts (obj r) = rollup_of r server_ts
  clean_rollup server_ts null = some none
  clean_rollup server_ts (bool _) = some none
  clean_rollup server_ts (int _) = some none
  clean_rollup server_ts (float _) = some none
  clean_rollup server_ts infinite = some none
  clean_rollup server_ts (str _) = some none
  clean_rollup server_ts (arr _) = some none
