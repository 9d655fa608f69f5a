-- ===== src/NetAudit/Cap.antt =====
-- The cap of `collect`, against the same cycle under another cap.
use glassops.Prelude.{
  ℕ, zero, suc, ◌-◌, ◌≤◌, ◌≡◌, refl, Bool, true, false, List, [], ◌∷◌, ◌++◌, arith, length,
  length-take, take, inl, inr, Bool-cases,
}
use glassops.Prelude.Dict.{Dict, insert}
use glassops.NetAudit.Types.{Conn, Key, Meta, opened, closed, Event, key_eq}
use glassops.NetAudit.Branches.{collect_of_ok, collect_of_failed}
use glassops.NetAudit.Collector.{
  Collector, Tick, Report, open_event, close_event, open_new, close_gone, cap_events, current_of,
  diff_tick, skip_tick, collect,
}

unfoldable pub all_opens : List Event → Bool
all_opens [] = true
all_opens (e ∷ es) = elim e.event [ opened ↦ all_opens es | closed ↦ false ]

-- No close stands behind an open, so a cap cuts opens first.
unfoldable pub closes_first : List Event → Bool
closes_first [] = true
closes_first (e ∷ es) = elim e.event [ opened ↦ all_opens es | closed ↦ closes_first es ]

all_opens-open_new :
    (now : ℕ) (current : Dict Key Conn) (prev : Dict Key Meta)
    → all_opens (open_new now current prev).1 ≡ true
unfolding all_opens open_new open_event
all_opens-open_new now [] prev = refl
all_opens-open_new now ((k, c) ∷ current) prev = ground (
  arith,
  all_opens-open_new now current prev,
  all_opens-open_new now current
      (insert k (record { ts = now; pid = c.pid; pname = c.pname; status = c.status }) prev),
)

closes_first_of_all_opens : (es : List Event) → all_opens es ≡ true → closes_first es ≡ true
unfolding closes_first all_opens
closes_first_of_all_opens [] h = refl
closes_first_of_all_opens (e ∷ es) h = ground arith

closes_first-close_gone :
    (now : ℕ) (current : Dict Key Conn) (prev : Dict Key Meta) (opens : List Event)
    → all_opens opens ≡ true
    → closes_first ((close_gone now current prev).1 ++ opens) ≡ true
unfolding close_gone close_event closes_first
closes_first-close_gone now current [] opens h = closes_first_of_all_opens opens h
closes_first-close_gone now current ((k, m) ∷ prev) opens h =
    ground (arith, closes_first-close_gone now current prev opens h)

-- The same collector with another cap.
abbrev pub with_cap : ℕ → Collector → Collector
with_cap n s = record s { max_events = n }

take_all : (n : ℕ) (es : List Event) → length es ≤ n → take n es ≡ es
take_all zero [] h = refl
take_all (suc n) [] h = refl
take_all zero (e ∷ es) h = absurd (omega arith)
take_all (suc n) (e ∷ es) h = rw (take_all n es (omega arith))

cap_events-take :
    (m n : ℕ) (es : List Event)
    → (cap_events n es).1 ≡ 0
    → ((cap_events m es).0 ≡ take m (cap_events n es).0)
      × ((cap_events m es).1 ≡ length (cap_events n es).0 - m)
unfolding cap_events
cap_events-take m n es h = ground (arith, take_all m es)

abbrev IsCapped : ℕ → Report × Collector → Report × Collector → Type 0
IsCapped m (r, s') (whole, after) =
    (r.events ≡ take m whole.events)
    × (length r.events ≤ m)
    × (r.dropped ≡ length whole.events - m)
    × (closes_first whole.events ≡ true)
    × (r.rollups ≡ whole.rollups)
    × (s' ≡ with_cap m after)

cap_events_of_dropped :
    (n : ℕ) (es : List Event) → (cap_events n es).1 ≡ 0 → (cap_events n es).0 ≡ es
unfolding cap_events
cap_events_of_dropped n es h = ground arith

diff_tick-IsCapped :
    (m n : ℕ) (t : Tick) (s : Collector)
    → (diff_tick t (with_cap n s)).0.dropped ≡ 0
    → IsCapped m (diff_tick t (with_cap m s)) (diff_tick t (with_cap n s))
unfolding diff_tick
diff_tick-IsCapped m n t s h =
    let current = current_of t.snap in
    let seen = open_new t.now current s.prev in
    let events = (close_gone t.now current seen.0).1 ++ seen.1 in
    let cut = cap_events-take m n events h in
    (
      cut.0,
      rw cut.0 (omega (arith, length-take m (cap_events n events).0)),
      cut.1,
      rw (cap_events_of_dropped n events h) (
          closes_first-close_gone t.now current seen.0 seen.1
            (all_opens-open_new t.now current s.prev)),
      refl,
      refl,
    )

skip_tick-IsCapped :
    (m n now : ℕ) (s : Collector)
    → IsCapped m (skip_tick now (with_cap m s)) (skip_tick now (with_cap n s))
unfolding skip_tick closes_first
skip_tick-IsCapped zero n now s = (refl, omega arith, omega arith, refl, refl, ground arith)
skip_tick-IsCapped (suc m) n now s = (refl, omega arith, omega arith, refl, refl, ground arith)

-- A cycle with a cap reports, of the cycle in which nothing is dropped, the first events up to
-- the cap, in which all closes stand before all opens; it counts the others as dropped; its
-- rollups and what it remembers do not depend on the cap.
collect-with_cap :
    (m n : ℕ) (t : Tick) (s : Collector)
    → (collect t (with_cap n s)).0.dropped ≡ 0
    → let (r, s') = collect t (with_cap m s) in
      let (whole, after) = collect t (with_cap n s) in
      (r.events ≡ take m whole.events)
      × (length r.events ≤ m)
      × (r.dropped ≡ length whole.events - m)
      × (closes_first whole.events ≡ true)
      × (r.rollups ≡ whole.rollups)
      × (s' ≡ with_cap m after)
collect-with_cap m n t s h = elim (Bool-cases t.snap.ok) [
  | inl good ↦
      let whole = collect_of_ok t (with_cap n s) good in
      rw (collect_of_ok t (with_cap m s) good, whole) (diff_tick-IsCapped m n t s (rw whole at h))
  | inr failed ↦
      rw (collect_of_failed t (with_cap m s) failed, collect_of_failed t (with_cap n s) failed)
        (skip_tick-IsCapped m n t.now s)
]
