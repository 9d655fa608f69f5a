-- ===== src/RateLimit/Release.antt =====
-- What `get_lockout_remaining` announces, against `is_login_locked`.
use glassops.Prelude.{
  ℕ, zero, suc, ◌+◌, ◌*◌, ◌-◌, ◌/◌, ◌≤◌, ◌<◌, ◌≡◌, String, false, List, [], ◌∷◌, arith, ltb, length,
  length-keep, All, inl, inr, Bool-cases,
}
use glassops.RateLimit.{
  State, second, stamps, is_recent, cleanup_old, nth, is_login_locked, get_lockout_remaining,
  login_max_failures, login_lockout_seconds,
}
use glassops.RateLimit.History.{counted}

-- The order in which a clock that never goes back appends the stamps.
abbrev pub Ascending : List ℕ → Type 0
Ascending [] = Unit
Ascending (t ∷ ts) = All (λ u. t ≤ u) ts × Ascending ts

le-nth : (t i : ℕ) (ts : List ℕ) → All (λ u. t ≤ u) ts → i < length ts → t ≤ nth ts i
unfolding nth
le-nth t i [] h lt = absurd (omega arith)
le-nth t zero (u ∷ ts) h lt = h.0
le-nth t (suc i) (u ∷ ts) h lt = le-nth t i ts h.1 (omega arith)

-- Once the stamp at `i` has left the window, only later ones are counted.
length-counted :
    (now window i : ℕ) (ts : List ℕ)
    → Ascending ts
    → i < length ts
    → nth ts i + window * second ≤ now
    → length (counted now window ts) + i + 1 ≤ length ts
unfolding is_recent nth
length-counted now window i [] a lt gone = absurd (omega arith)
length-counted now window zero (t ∷ ts) a lt gone =
    ground (arith, length-keep (is_recent now window) ts)
length-counted now window (suc i) (t ∷ ts) a lt gone =
    ground (arith, length-counted now window i ts a.1, le-nth t i ts a.0)

-- The announced seconds, and the second that `int` cut off, reach past the stamp's window.
wait_is_enough :
    (w o now later : ℕ)
    → now + ((w * second + o - now) / second + 1) * second ≤ later
    → o + w * second ≤ later
wait_is_enough w o now later h = omega arith

-- From a state whose failures stand in the order of the clock, a login that is refused with
-- `get_lockout_remaining` seconds is open again once these and one more second have gone by
-- without a failure.
pub unlocked_after_remaining :
    (s : State) (ip : String) (now later : ℕ)
    → Ascending (stamps ip s.login_failures)
    → now + (get_lockout_remaining now ip s + 1) * second ≤ later
    → (is_login_locked later ip s).0 ≡ false
unfolding is_login_locked get_lockout_remaining cleanup_old
unlocked_after_remaining s ip now later a h =
    let ts = stamps ip s.login_failures in
    let i = length ts - login_max_failures in
    elim (Bool-cases (ltb (length ts) login_max_failures)) [
      | inl few ↦ ground (arith, length-keep (is_recent later login_lockout_seconds) ts)
      | inr enough ↦ ground (
        arith,
        length-counted later login_lockout_seconds i ts a,
        wait_is_enough login_lockout_seconds (nth ts i) now later (rw enough at h),
      )
    ]
