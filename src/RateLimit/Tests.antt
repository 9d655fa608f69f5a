-- ===== src/RateLimit/Tests.antt =====
-- Runs of rate_limit.py, and its theorems at concrete calls.
use glassops.Prelude.{
  ℕ, ◌*◌, ◌≤◌, ◌≡◌, refl, true, false, List, [], ◌∷◌, arith, leb, length, string_eq,
}
use glassops.Prelude.Dict
use glassops.RateLimit.{
  State, Call, second, empty, login_max_failures, login_lockout_seconds, agent_key_max_failures,
  agent_key_lockout_seconds, api_rpm, api_window, cleanup_old, is_recent, stamps, nth,
  record_login_failure, is_login_locked, is_agent_key_locked, get_lockout_remaining,
  record_agent_key_failure,
}
use glassops.RateLimit.History.{counted}
use glassops.RateLimit.Lockout
use glassops.RateLimit.Lockout.{
  Event, failed, tested, agent_failed, run, since_clear, refused, locked_exactly,
}
use glassops.RateLimit.Release.{unlocked_after_remaining}
use glassops.RateLimit.Throttle.{admitted, admitted_bounded}

-- The first failure has left the window when the fifth of the later ones comes.
abbrev attempts : List Event
attempts =
    failed 0 0 "a"
    ∷ failed (200 * second) (200 * second) "a"
    ∷ failed (200 * second) (200 * second) "b"
    ∷ agent_failed (201 * second) (201 * second) "a"
    ∷ failed (210 * second) (210 * second) "a"
    ∷ failed (301 * second) (301 * second) "a"
    ∷ tested (302 * second) "a"
    ∷ failed (303 * second) (303 * second) "a"
    ∷ failed (304 * second) (304 * second) "a"
    ∷ []

abbrev locked_out : State
locked_out = run empty attempts

locked_at_the_fifth : (is_login_locked (305 * second) "a" locked_out).0 ≡ true
unfolding run Lockout.apply record_login_failure record_agent_key_failure is_login_locked stamps
    cleanup_old is_recent Dict.insert Dict.lookup string_eq
locked_at_the_fifth = refl

remaining_after_the_fifth : get_lockout_remaining (305 * second) "a" locked_out ≡ 195
unfolding run Lockout.apply record_login_failure record_agent_key_failure is_login_locked
    get_lockout_remaining nth stamps cleanup_old is_recent Dict.insert Dict.lookup string_eq
remaining_after_the_fifth = refl

locked_exactly_example :
    ((is_login_locked (305 * second) "a" (run empty attempts)).0
      ≡ leb login_max_failures
          (length (counted (305 * second) login_lockout_seconds (since_clear "a" [] attempts))))
    × ((is_agent_key_locked (305 * second) "a" (run empty attempts)).0
        ≡ leb agent_key_max_failures
            (length (counted (305 * second) agent_key_lockout_seconds (refused "a" [] attempts))))
locked_exactly_example = locked_exactly attempts (305 * second) "a" (omega arith)

unlocked_after_remaining_example : (is_login_locked (501 * second) "a" locked_out).0 ≡ false
unfolding run Lockout.apply record_login_failure record_agent_key_failure is_login_locked
    get_lockout_remaining nth stamps cleanup_old is_recent Dict.insert Dict.lookup string_eq
unlocked_after_remaining_example =
    unlocked_after_remaining locked_out "a" (305 * second) (501 * second) (omega arith)
      (omega arith)

abbrev call_at : ℕ → Call
call_at t = record {
  http = true;
  path = "/api/time";
  ip = "a";
  locked_at = t;
  remaining_at = t;
  now = t;
  pruned_at = t;
}

admitted_bounded_example :
    length (
      counted
        (3 * second)
        api_window
        (admitted "a" [] empty (call_at second ∷ call_at (2 * second) ∷ [])))
    ≤ api_rpm
admitted_bounded_example =
    admitted_bounded (call_at second ∷ call_at (2 * second) ∷ []) (3 * second) "a" (omega arith)
