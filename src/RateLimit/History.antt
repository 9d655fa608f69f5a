-- ===== src/RateLimit/History.antt =====
-- `cleanup_old` against the full history of stamps.
use glassops.Prelude.{
  ℕ, ◌≤◌, ◌≡◌, String, true, List, [], ◌++◌, arith, if◌then◌else◌, keep, keep-append, keep-keep,
  ◌==◌, string_eq,
}
use glassops.Prelude.Dict
use glassops.Prelude.Dict.{Dict, lookup-insert, lookup-erase}
use glassops.RateLimit.{Stamps, stamps, is_recent, cleanup_old}

-- The stamps that a test at `now` counts.
abbrev pub counted : ℕ → ℕ → List ℕ → List ℕ
counted now window ts = keep (is_recent now window) ts

-- A test at `now` does not see an earlier pruning.
pub counted-cleanup_old :
    (now pruned window : ℕ) (ts : List ℕ)
    → pruned ≤ now
    → counted now window (cleanup_old pruned ts window) ≡ counted now window ts
unfolding cleanup_old is_recent
counted-cleanup_old now pruned window ts h =
    keep-keep (is_recent pruned window) (is_recent now window) ts λ t. older t
  where
    older : (t : ℕ) → is_recent now window t ≡ true → is_recent pruned window t ≡ true
    older t seen = ground arith

pub counted-append :
    (now window : ℕ) (ts us vs : List ℕ)
    → counted now window ts ≡ counted now window us
    → counted now window (ts ++ vs) ≡ counted now window (us ++ vs)
counted-append now window ts us vs e =
    rw (keep-append (is_recent now window) ts vs, e, ← keep-append (is_recent now window) us vs)

pub stamps-insert :
    (j k : String) (ts : List ℕ) (store : Stamps)
    → stamps j (Dict.insert k ts store) ≡ (if j == k then ts else stamps j store)
unfolding stamps
stamps-insert j k ts store = ground (arith, lookup-insert j k ts store)

pub stamps-erase :
    (j k : String) (store : Stamps)
    → stamps j (Dict.erase k store) ≡ (if j == k then [] else stamps j store)
unfolding stamps
stamps-erase j k store = ground (arith, lookup-erase j k store)
