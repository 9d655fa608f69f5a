-- ===== src/Ingest/Extract.antt =====
-- `extract_and_store_net_audit`, up to its write.
use glassops.Prelude.{ℕ, String, Option, none, some, List, [], ◌∷◌}
use glassops.Json.{Json, null, bool, int, float, infinite, str, arr, obj, Members, get, drop_key}
use glassops.Ingest.{
  max_events, max_rollups, CleanEvent, CleanRollup, Extracted, raised, nothing, stored, clean_list,
}
use glassops.Ingest.Events.{clean_event}
use glassops.Ingest.Rollups.{clean_rollup}

unfoldable pub to_store : List CleanEvent → List CleanRollup → Extracted
to_store [] [] = nothing
to_store (e ∷ es) rs = stored (e ∷ es) rs
to_store [] (r ∷ rs) = stored [] (r ∷ rs)

module _ (canonical : String → Option String) (show : Json → String) where
  unfoldable pub extract_payload : ℕ → Json → Extracted
  extract_payload timestamp (obj payload) =
      elim (clean_list (clean_event canonical show timestamp) max_events (get "events" payload)) [
        | none ↦ raised
        | some events ↦
            elim (clean_list (clean_rollup canonical show timestamp) max_rollups
              (get "rollups" payload)) [ none ↦ raised | some rollups ↦ to_store events rollups ]
      ]
  extract_payload timestamp null = nothing
  extract_payload timestamp (bool _) = nothing
  extract_payload timestamp (int _) = nothing
  extract_payload timestamp (float _) = nothing
  extract_payload timestamp infinite = nothing
  extract_payload timestamp (str _) = nothing
  extract_payload timestamp (arr _) = nothing

  -- `extract_and_store_net_audit`, with what is left of the message.
  unfoldable pub extract : ℕ → Members → Extracted × Members
  extract timestamp message =
      (extract_payload timestamp (get "net_audit" message), drop_key "net_audit" message)
