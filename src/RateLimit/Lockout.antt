-- ===== src/RateLimit/Lockout.antt =====
-- The lockouts of rate_limit.py, `is_login_locked` and `is_agent_key_locked`, against the full
-- history of an address.
use glassops.Prelude.{
  ℕ, ◌≤◌, ◌≡◌, refl, ◌∙◌, String, List, [], ◌∷◌, ◌++◌, arith, if◌then◌else◌, ◌==◌, All, leb, length,
  ap, string_eq,
}
use glassops.Prelude.Dict
use glassops.Prelude.Dict.{lookup}
use glassops.RateLimit.{
  State, Stamps, stamps, cleanup_old, record_login_failure, clear_login_failures, is_login_locked,
  record_agent_key_failure, is_agent_key_locked, login_lockout_seconds, agent_key_lockout_seconds,
  empty, login_max_failures, agent_key_max_failures,
}
use glassops.RateLimit.History.{
  counted, counted-cleanup_old, counted-append, stamps-insert, stamps-erase,
}

-- What the routes and the middleware do with the two lockouts. `failed` and `agent_failed` carry
-- both readings of the clock.
pub data Event : Type 0 where
  failed : ℕ → ℕ → String → Event
  cleared : String → Event
  tested : ℕ → String → Event
  agent_failed : ℕ → ℕ → String → Event
  agent_tested : ℕ → String → Event

unfoldable pub apply : State → Event → State
apply s (failed now pruned ip) = record_login_failure now pruned ip s
apply s (cleared ip) = clear_login_failures ip s
apply s (tested now ip) = (is_login_locked now ip s).1
apply s (agent_failed now pruned ip) = record_agent_key_failure now pruned ip s
apply s (agent_tested now ip) = (is_agent_key_locked now ip s).1

unfoldable pub run : State → List Event → State
run s [] = s
run s (e ∷ es) = run (apply s e) es

-- The clock does not read less at the end than where a list was pruned.
abbrev pub PrunedBy : ℕ → Event → Type 0
PrunedBy now (failed _ pruned _) = pruned ≤ now
PrunedBy now (cleared _) = Unit
PrunedBy now (tested pruned _) = pruned ≤ now
PrunedBy now (agent_failed _ pruned _) = pruned ≤ now
PrunedBy now (agent_tested pruned _) = pruned ≤ now

-- The specification: every login failure of the address since it was last cleared, kept for good.
unfoldable pub since_clear : String → List ℕ → List Event → List ℕ
since_clear ip ts [] = ts
since_clear ip ts (failed now _ who ∷ es) =
    since_clear ip (if ip == who then ts ++ (now ∷ []) else ts) es
since_clear ip ts (cleared who ∷ es) = since_clear ip (if ip == who then [] else ts) es
since_clear ip ts (_ ∷ es) = since_clear ip ts es

-- Every refused handshake of the address.
unfoldable pub refused : String → List ℕ → List Event → List ℕ
refused ip ts [] = ts
refused ip ts (agent_failed now _ who ∷ es) =
    refused ip (if ip == who then ts ++ (now ∷ []) else ts) es
refused ip ts (_ ∷ es) = refused ip ts es

module _ (now : ℕ) (ip : String) where
  abbrev Agrees : ℕ → Stamps → List ℕ → Type 0
  Agrees window store ts = counted now window (stamps ip store) ≡ counted now window ts

  -- One pruned write of another stamp, as both `record_…_failure` functions make it.
  Agrees-push :
      (window at pruned : ℕ) (who : String) (store : Stamps) (ts : List ℕ)
      → pruned ≤ now
      → Agrees window store ts
      → Agrees window
          (Dict.insert who (cleanup_old pruned (stamps who store) window ++ (at ∷ [])) store)
          (if ip == who then ts ++ (at ∷ []) else ts)
  Agrees-push window at pruned who store ts h a =
      rw (stamps-insert ip who (cleanup_old pruned (stamps who store) window ++ (at ∷ [])) store) (
        ground (
          arith,
          counted-append now window (cleanup_old pruned (stamps ip store) window) ts (at ∷ [])
              (counted-cleanup_old now pruned window (stamps ip store) h ∙ a),
        ))

  -- One pruning read, as both `is_…_locked` functions make it.
  Agrees-prune :
      (window pruned : ℕ) (who : String) (store : Stamps) (ts : List ℕ)
      → pruned ≤ now
      → Agrees window store ts
      → Agrees window (Dict.insert who (cleanup_old pruned (stamps who store) window) store) ts
  Agrees-prune window pruned who store ts h a =
      rw (stamps-insert ip who (cleanup_old pruned (stamps who store) window) store)
        (ground (arith, counted-cleanup_old now pruned window (stamps ip store) h))

  Agrees-clear :
      (who : String) (store : Stamps) (ts : List ℕ)
      → Agrees login_lockout_seconds store ts
      → Agrees login_lockout_seconds (Dict.erase who store) (if ip == who then [] else ts)
  Agrees-clear who store ts a = rw (stamps-erase ip who store) (ground arith)

  -- Both stores of a state against both histories.
  abbrev StateAgrees : State → List ℕ → List ℕ → Type 0
  StateAgrees s ts us =
      Agrees login_lockout_seconds s.login_failures ts
      × Agrees agent_key_lockout_seconds s.agent_key_failures us

  StateAgrees-run :
      (es : List Event) (s : State) (ts us : List ℕ)
      → All (PrunedBy now) es
      → StateAgrees s ts us
      → StateAgrees (run s es) (since_clear ip ts es) (refused ip us es)
  unfolding run apply since_clear refused record_login_failure clear_login_failures is_login_locked
      record_agent_key_failure is_agent_key_locked
  StateAgrees-run [] s ts us h a = a
  StateAgrees-run (failed at pruned who ∷ es) s ts us h a =
      StateAgrees-run es _ _ us h.1
        (Agrees-push login_lockout_seconds at pruned who s.login_failures ts h.0 a.0, a.1)
  StateAgrees-run (cleared who ∷ es) s ts us h a =
      StateAgrees-run es _ _ us h.1 (Agrees-clear who s.login_failures ts a.0, a.1)
  StateAgrees-run (tested pruned who ∷ es) s ts us h a =
      StateAgrees-run es _ ts us h.1
        (Agrees-prune login_lockout_seconds pruned who s.login_failures ts h.0 a.0, a.1)
  StateAgrees-run (agent_failed at pruned who ∷ es) s ts us h a =
      StateAgrees-run es _ ts _ h.1
        (a.0, Agrees-push agent_key_lockout_seconds at pruned who s.agent_key_failures us h.0 a.1)
  StateAgrees-run (agent_tested pruned who ∷ es) s ts us h a =
      StateAgrees-run es _ ts us h.1
        (a.0, Agrees-prune agent_key_lockout_seconds pruned who s.agent_key_failures us h.0 a.1)

-- After any sequence of failures, clears and tests of any addresses, in which no list was pruned
-- by a clock that read later than `now`, the login of an address is locked at `now` exactly if at
-- least 5 of all its failures since its last clear are younger than 300 seconds, and its agent
-- handshakes are locked exactly if at least 5 of all its refused handshakes are.
pub locked_exactly :
    (es : List Event) (now : ℕ) (ip : String)
    → All (PrunedBy now) es
    → ((is_login_locked now ip (run empty es)).0
        ≡ leb login_max_failures
            (length (counted now login_lockout_seconds (since_clear ip [] es))))
      × ((is_agent_key_locked now ip (run empty es)).0
          ≡ leb agent_key_max_failures
              (length (counted now agent_key_lockout_seconds (refused ip [] es))))
unfolding is_login_locked is_agent_key_locked cleanup_old
locked_exactly es now ip h =
    let a = StateAgrees-run now ip es empty [] [] h (unfold stamps lookup in (refl, refl)) in
    (
      ap (λ (ts : List ℕ). leb login_max_failures (length ts)) a.0,
      ap (λ (ts : List ℕ). leb agent_key_max_failures (length ts)) a.1,
    )
