-- ===== src/Fence/Finish.antt =====
-- backend/app/wal_fence.py: the end of a claim, `SourceApplyCapability._finish`.
use glassops.Prelude.{
  ℕ, String, Bool, false, not, ◌||◌, Option, none, some, if◌then◌else◌, ◌==◌, string_eq, nat_eq,
}
use glassops.Fence.{
  Result, ok, err, demand, claim_spent, os_error, Stage, claimed, applying, completed, failed,
  other, ApplyRecord, sealed, Manifest, Files, exists_file, read_apply_record, require_claim_binds,
  stage_eq, ◌>>=◌,
}

unfoldable pub terminal_record : Manifest → String → Stage → ℕ → Option String → ApplyRecord
terminal_record m claim_id outcome now reason = record {
  state = outcome;
  claim_id = claim_id;
  lease_id = m.lease_id;
  manifest_path = m.path;
  db_path = m.db_path;
  wal_path = m.wal_path;
  claimed_at = none;
  apply_id = none;
  apply_started_at = none;
  finished_at = some now;
  reason = reason;
}

-- Where an outcome can be recorded from.
unfoldable pub is_finishable : Stage → Stage → Bool
is_finishable completed live = live == applying
is_finishable failed live = live == claimed || live == applying
is_finishable claimed live = false
is_finishable applying live = false
is_finishable other live = false

-- The last rewrite of the live record is only tried.
unfoldable pub mark_finished : Stage → Bool → Files → Files
mark_finished outcome rewritten f = elim (read_apply_record f.claim none) [
  | err e ↦ f
  | ok r ↦
      if rewritten then record f { claim = some (sealed (record r { state = outcome })) } else f
]

-- `_finish` with a live record that binds.
unfoldable pub finish_live :
    Manifest
    → String
    → Stage
    → Option String
    → ℕ
    → Bool
    → Bool
    → ApplyRecord
    → Files
    → Files × Result (Unit {0})
finish_live m claim_id outcome reason now written rewritten live f =
    if exists_file f.done
    then (
      f,
      do
        existing ← require_claim_binds f.done m (some claim_id)
        demand (existing.state == outcome) claim_spent,
    )
    else if not (is_finishable outcome live.state)
    then (f, err claim_spent)
    else if not written
    then (f, err os_error)
    else (
      mark_finished outcome rewritten
          (record f { done = some (sealed (terminal_record m claim_id outcome now reason)) }),
      ok tt,
    )

unfoldable pub finish_claim :
    Manifest → String → Stage → Option String → ℕ → Bool → Bool → Files → Files × Result (Unit {0})
finish_claim m claim_id outcome reason now written rewritten f =
    elim (require_claim_binds f.claim m (some claim_id)) [
      | err e ↦ (f, err e)
      | ok live ↦ finish_live m claim_id outcome reason now written rewritten live f
    ]

unfoldable pub complete : Manifest → String → ℕ → Bool → Bool → Files → Files × Result (Unit {0})
complete m claim_id now written rewritten f =
    finish_claim m claim_id completed none now written rewritten f

unfoldable pub fail :
    Manifest → String → String → ℕ → Bool → Bool → Files → Files × Result (Unit {0})
fail m claim_id reason now written rewritten f =
    finish_claim m claim_id failed (some reason) now written rewritten f
