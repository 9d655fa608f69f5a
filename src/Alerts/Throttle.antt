-- ===== src/Alerts/Throttle.antt =====
-- The attempts to send for one key, whatever calls run at the same time.
use glassops.Prelude.{
  ℕ, ◌+◌, ◌*◌, ◌≤◌, ◌≡◌, refl, ap, String, Bool, true, false, ◌&&◌, Option, none, some, List, [],
  ◌∷◌, if◌then◌else◌, ◌==◌, arith, string_eq,
}
use mathlib.Core.Path.{subst}
use glassops.Prelude.Text.{is_empty}
use glassops.Prelude.Dict
use glassops.Alerts.{
  Alerts, second, cooldown, failure_backoff, Suppressed, is_within, suppression_of,
  suppression_reason,
}
use glassops.Alerts.Sending.{note, reserve, accept}

-- The two parts of `send_alert_email` that write the dictionaries, of any calls in any order.
pub data Part : Type 0 where
  reserving : ℕ → ℕ → Option String → Part
  accepting : ℕ → Option String → Part

abbrev pub step : Part → Alerts → Alerts
step (reserving now later key) s = (reserve now later key s).1
step (accepting now key) s = accept now key s

-- What is seen of one key: an attempt, with the clock at its test and at its note, or a message
-- that the server accepted.
pub data Mark : Type 0 where
  attempt : ℕ → ℕ → Mark
  receipt : ℕ → Mark

abbrev pub is_key : String → Option String → Bool
is_key key none = false
is_key key (some k) = k == key

abbrev pub goes_on : Option Suppressed → Bool
goes_on none = true
goes_on (some _) = false

abbrev pub mark_of : String → Part → Alerts → List Mark → List Mark
mark_of key (reserving now later k) s rest =
    if is_key key k && goes_on (reserve now later k s).0 then attempt now later ∷ rest else rest
mark_of key (accepting now k) s rest = if is_key key k then receipt now ∷ rest else rest

abbrev pub marks : String → List Part → Alerts → List Mark
marks key [] s = []
marks key (p ∷ ps) s = mark_of key p s (marks key ps (step p s))

-- The clock is `seconds` after an earlier reading, if there is one.
abbrev pub Elapsed : ℕ → Option ℕ → ℕ → Type 0
Elapsed seconds none now = Unit
Elapsed seconds (some last) now = last + seconds ≤ now

-- Each attempt is tested 60 seconds or more after the last one was noted, and 300 seconds or more
-- after the last message was accepted.
abbrev pub IsThrottled : Option ℕ → Option ℕ → List Mark → Type 0
IsThrottled tried sent [] = Unit
IsThrottled tried sent (attempt now later ∷ rest) =
    Elapsed (60 * second) tried now
    × Elapsed (300 * second) sent now
    × IsThrottled (some later) sent rest
IsThrottled tried sent (receipt now ∷ rest) = IsThrottled tried (some now) rest

elapsed :
    (seconds now : ℕ) (last : Option ℕ)
    → is_within now seconds last ≡ false
    → Elapsed seconds last now
unfolding is_within
elapsed seconds now none h = tt
elapsed seconds now (some last) h = ground arith

module _ (key : String) (given : is_empty key ≡ false) where
  lookup-note :
      (k : Option String) (now : ℕ) (d : Dict.Dict String ℕ)
      → Dict.lookup key (note k now d) ≡ (if is_key key k then some now else Dict.lookup key d)
  unfolding note
  lookup-note none now d = refl
  lookup-note (some k) now d = ground (arith, given, Dict.lookup-insert key k now d)

  -- A part changes the entries of its own key, and of its attempts only if they go on.
  reserve-entries :
      (now later : ℕ) (k : Option String) (s : Alerts)
      → let out = reserve now later k s in
        (Dict.lookup key out.1.last_attempt
          ≡ (if is_key key k && goes_on out.0 then some later else Dict.lookup key s.last_attempt))
        × (Dict.lookup key out.1.last_sent ≡ Dict.lookup key s.last_sent)
  unfolding reserve
  reserve-entries now later k s = ground (arith, lookup-note k later s.last_attempt)

  reserve-within :
      (now later : ℕ) (k : Option String) (s : Alerts)
      → (is_key key k && goes_on (reserve now later k s).0) ≡ true
      → (is_within now failure_backoff (Dict.lookup key s.last_attempt) ≡ false)
        × (is_within now cooldown (Dict.lookup key s.last_sent) ≡ false)
  unfolding reserve suppression_reason suppression_of
  reserve-within now later none s h = absurd (cc)
  reserve-within now later (some k) s h = ground (arith, given)

  after_accept :
      (now : ℕ) (k : Option String) (s : Alerts) (rest : List Mark)
      → IsThrottled
          (Dict.lookup key (accept now k s).last_attempt)
          (Dict.lookup key (accept now k s).last_sent)
          rest
      → IsThrottled
          (Dict.lookup key s.last_attempt)
          (Dict.lookup key s.last_sent)
          (if is_key key k then receipt now ∷ rest else rest)
  unfolding accept
  after_accept now k s rest h = by_key (is_key key k) (
      subst (λ o. IsThrottled (Dict.lookup key s.last_attempt) o rest)
        (lookup-note k now s.last_sent) h)
    where
      by_key :
          (b : Bool)
          → IsThrottled
              (Dict.lookup key s.last_attempt)
              (if b then some now else Dict.lookup key s.last_sent)
              rest
          → IsThrottled
              (Dict.lookup key s.last_attempt)
              (Dict.lookup key s.last_sent)
              (if b then receipt now ∷ rest else rest)
      by_key true h' = h'
      by_key false h' = h'

  after_reserve :
      (now later : ℕ) (k : Option String) (s : Alerts) (rest : List Mark)
      → let out = reserve now later k s in
        IsThrottled (Dict.lookup key out.1.last_attempt) (Dict.lookup key out.1.last_sent) rest
        → IsThrottled
            (Dict.lookup key s.last_attempt)
            (Dict.lookup key s.last_sent)
            (if is_key key k && goes_on out.0 then attempt now later ∷ rest else rest)
  after_reserve now later k s rest h =
      let entries = reserve-entries now later k s in
      by_test (is_key key k && goes_on (reserve now later k s).0) refl (
        subst (λ o. IsThrottled o (Dict.lookup key s.last_sent) rest) entries.0
          (subst (λ o. IsThrottled (Dict.lookup key (reserve now later k s).1.last_attempt) o rest)
            entries.1 h))
    where
      by_test :
          (b : Bool)
          → (is_key key k && goes_on (reserve now later k s).0) ≡ b
          → IsThrottled
              (if b then some later else Dict.lookup key s.last_attempt)
              (Dict.lookup key s.last_sent)
              rest
          → IsThrottled
              (Dict.lookup key s.last_attempt)
              (Dict.lookup key s.last_sent)
              (if b then attempt now later ∷ rest else rest)
      by_test true went h' =
          let within = reserve-within now later k s went in
          (
            elapsed failure_backoff now (Dict.lookup key s.last_attempt) within.0,
            elapsed cooldown now (Dict.lookup key s.last_sent) within.1,
            h',
          )
      by_test false stayed h' = h'

  IsThrottled-each :
      (ps : List Part) (s : Alerts)
      → IsThrottled (Dict.lookup key s.last_attempt) (Dict.lookup key s.last_sent) (marks key ps s)
  IsThrottled-each [] s = tt
  IsThrottled-each (accepting now k ∷ ps) s =
      after_accept now k s (marks key ps (accept now k s)) (IsThrottled-each ps (accept now k s))
  IsThrottled-each (reserving now later k ∷ ps) s =
      after_reserve now later k s (marks key ps (reserve now later k s).1)
        (IsThrottled-each ps (reserve now later k s).1)

-- Of any calls for alerts with a key, however their parts interleave and whatever their clocks
-- read: each attempt passes its test 60 seconds or more after the last attempt for the key was
-- noted, and 300 seconds or more after the last message for it was accepted.
pub marks-IsThrottled :
    (key : String) (ps : List Part) (s : Alerts)
    → is_empty key ≡ false
    → s.last_attempt ≡ []
    → s.last_sent ≡ []
    → IsThrottled none none (marks key ps s)
unfolding Dict.lookup
marks-IsThrottled key ps s given no_attempts none_sent =
    subst (λ o. IsThrottled o none (marks key ps s)) (ap (Dict.lookup key) no_attempts)
      (subst (λ o. IsThrottled (Dict.lookup key s.last_attempt) o (marks key ps s))
        (ap (Dict.lookup key) none_sent) (IsThrottled-each key given ps s))
