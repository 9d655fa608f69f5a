-- ===== src/RateLimit/Throttle.antt =====
-- The general limit of `RateLimitMiddleware`: what it admits in a window, the sweep included.
use glassops.Prelude.{
  ℕ, ◌≤◌, ◌≡◌, refl, ◌∙◌, String, Bool, true, false, none, List, [], ◌∷◌, ◌++◌, arith, ltb, leb,
  if◌then◌else◌, length, length-append, length-keep, All, ◌==◌, inl, inr, Bool-cases, string_eq,
}
use glassops.Prelude.Dict
use glassops.RateLimit.{
  State, Stamps, Call, Response, forwarded, stamps, is_recent, cleanup_old, unless_empty, sweep,
  is_login_locked, is_limited, api_limit, handle, empty, api_rpm, api_window,
}
use glassops.RateLimit.History.{counted, counted-cleanup_old, counted-append, stamps-insert}
use glassops.Prelude.Dict.{lookup, NodupKeys, insert-NodupKeys}

unfoldable pub serve : State → List Call → State
serve s [] = s
serve s (c ∷ cs) = serve (handle c s).1 cs

abbrev pub is_forwarded : Response → Bool
is_forwarded forwarded = true
is_forwarded _ = false

-- The times at which limited requests of an address were let through, in the order of the calls.
unfoldable pub admitted : String → List ℕ → State → List Call → List ℕ
admitted ip ts s [] = ts
admitted ip ts s (c ∷ cs) =
    admitted ip
      (if is_limited c
        then (if is_forwarded (handle c s).0
            then (if ip == c.ip then ts ++ (c.now ∷ []) else ts)
            else ts)
        else ts)
      (handle c s).1 cs

-- Neither list of the call was pruned by a clock that reads later than `now`.
abbrev pub ReadBy : ℕ → Call → Type 0
ReadBy now c = (c.now ≤ now) × (c.pruned_at ≤ now)

lookup-unless_empty_absent :
    (ip who : String) (ts us : List ℕ) (store : Stamps)
    → lookup ip ((who, ts) ∷ store) ≡ none
    → lookup ip (unless_empty who us store) ≡ none
unfolding lookup unless_empty
lookup-unless_empty_absent ip who ts [] store h = ground arith
lookup-unless_empty_absent ip who ts (u ∷ us) store h = ground arith

lookup-sweep_absent :
    (ip : String) (now : ℕ) (store : Stamps)
    → lookup ip store ≡ none
    → lookup ip (sweep now store) ≡ none
unfolding lookup sweep
lookup-sweep_absent ip now [] h = refl
lookup-sweep_absent ip now ((who, ts) ∷ store) h = ground (
  arith,
  lookup-sweep_absent ip now store,
  lookup-unless_empty_absent ip who ts (cleanup_old now ts api_window) (sweep now store),
)

unless_empty-NodupKeys :
    (who : String) (us : List ℕ) (store : Stamps)
    → lookup who store ≡ none
    → NodupKeys store
    → NodupKeys (unless_empty who us store)
unfolding unless_empty
unless_empty-NodupKeys who [] store fresh u = u
unless_empty-NodupKeys who (t ∷ us) store fresh u = (fresh, u)

sweep-NodupKeys : (now : ℕ) (store : Stamps) → NodupKeys store → NodupKeys (sweep now store)
unfolding sweep
sweep-NodupKeys now [] u = tt
sweep-NodupKeys now ((who, ts) ∷ store) (fresh, u) =
    unless_empty-NodupKeys who (cleanup_old now ts api_window) (sweep now store)
      (lookup-sweep_absent who now store fresh) (sweep-NodupKeys now store u)

-- An entry of the sweep answers for its own address, which no later entry has.
stamps-unless_empty :
    (ip who : String) (ts : List ℕ) (store : Stamps)
    → lookup who store ≡ none
    → stamps ip (unless_empty who ts store) ≡ (if ip == who then ts else stamps ip store)
unfolding stamps unless_empty lookup
stamps-unless_empty ip who [] store fresh = ground arith
stamps-unless_empty ip who (t ∷ ts) store fresh = ground arith

stamps-sweep :
    (ip : String) (now : ℕ) (store : Stamps)
    → NodupKeys store
    → stamps ip (sweep now store) ≡ cleanup_old now (stamps ip store) api_window
unfolding sweep stamps lookup
stamps-sweep ip now [] u = unfold cleanup_old in refl
stamps-sweep ip now ((who, ts) ∷ store) (fresh, u) = ground (
  arith,
  stamps-unless_empty ip who (cleanup_old now ts api_window) (sweep now store),
  lookup-sweep_absent who now store fresh,
  stamps-sweep ip now store u,
)

-- What the state keeps of an address: the stamps that can still count, and never more than 100.
module _ (now : ℕ) (ip : String) where
  abbrev Tracks : Stamps → List ℕ → Type 0
  Tracks store ts =
      (counted now api_window (stamps ip store) ≡ counted now api_window ts)
      × (length (stamps ip store) ≤ api_rpm)
      × NodupKeys store

  Tracks-sweep :
      (pruned : ℕ) (store : Stamps) (ts : List ℕ)
      → pruned ≤ now
      → Tracks store ts
      → Tracks (sweep pruned store) ts
  Tracks-sweep pruned store ts h (same, few, u) = rw (stamps-sweep ip pruned store u) (
    counted-cleanup_old now pruned api_window (stamps ip store) h ∙ same,
    unfold cleanup_old in
        (ground (arith, length-keep (is_recent pruned api_window) (stamps ip store))),
    sweep-NodupKeys pruned store u,
  )

  -- One admitted request, where fewer than 100 of its address are recent.
  Tracks-push :
      (who : String) (at pruned : ℕ) (store : Stamps) (ts : List ℕ)
      → pruned ≤ now
      → leb api_rpm (length (cleanup_old pruned (stamps who store) api_window)) ≡ false
      → Tracks store ts
      → Tracks
          (Dict.insert who (cleanup_old pruned (stamps who store) api_window ++ (at ∷ [])) store)
          (if ip == who then ts ++ (at ∷ []) else ts)
  Tracks-push who at pruned store ts h room (same, few, u) =
      let new = cleanup_old pruned (stamps who store) api_window ++ (at ∷ []) in
      rw (stamps-insert ip who new store) (
        ground (
          arith,
          counted-append now api_window (cleanup_old pruned (stamps ip store) api_window) ts
              (at ∷ []) (counted-cleanup_old now pruned api_window (stamps ip store) h ∙ same),
        ),
        ground (arith, length-append (cleanup_old pruned (stamps ip store) api_window) (at ∷ [])),
        insert-NodupKeys who new store u,
      )

  -- The login guard of the same call leaves the request store alone.
  api_requests-is_login_locked :
      (at : ℕ) (who : String) (s : State)
      → (is_login_locked at who s).1.api_requests ≡ s.api_requests
  unfolding is_login_locked
  api_requests-is_login_locked at who s = refl

  abbrev push : Call → Response → List ℕ → List ℕ
  push c r ts = if is_forwarded r then (if ip == c.ip then ts ++ (c.now ∷ []) else ts) else ts

  Tracks-api_limit :
      (c : Call) (s : State) (ts : List ℕ)
      → ReadBy now c
      → Tracks s.api_requests ts
      → Tracks (api_limit c s).1.api_requests (push c (api_limit c s).0 ts)
  unfolding api_limit
  Tracks-api_limit c s ts read t =
      let reqs = cleanup_old c.pruned_at (stamps c.ip s.api_requests) api_window in
      let requests = Dict.insert c.ip (reqs ++ (c.now ∷ [])) s.api_requests in
      elim (Bool-cases (leb api_rpm (length reqs))) [
        | inl full ↦ rw full t
        | inr room ↦ rw room (elim (Bool-cases (ltb 1000 (length requests))) [
          | inl many ↦ rw many (
              Tracks-sweep c.now requests _ read.0
                (Tracks-push c.ip c.now c.pruned_at s.api_requests ts read.1 room t))
          | inr little ↦
              rw little (Tracks-push c.ip c.now c.pruned_at s.api_requests ts read.1 room t)
        ])
      ]

  Tracks-handle :
      (c : Call) (s : State) (ts : List ℕ)
      → ReadBy now c
      → Tracks s.api_requests ts
      → Tracks (handle c s).1.api_requests (if is_limited c then push c (handle c s).0 ts else ts)
  unfolding handle
  Tracks-handle c s ts read t = elim (Bool-cases (is_limited c)) [
    | inr free ↦ rw free t
    | inl limited ↦ rw limited (elim (Bool-cases (c.path == "/api/auth/login")) [
      | inr other ↦ rw other (Tracks-api_limit c s ts read t)
      | inl login ↦ rw login (elim (Bool-cases (is_login_locked c.locked_at c.ip s).0) [
        | inl locked ↦ rw locked (unfold is_login_locked in t)
        | inr open_login ↦ rw open_login (
            Tracks-api_limit c (is_login_locked c.locked_at c.ip s).1 ts read
              (unfold is_login_locked in t))
      ])
    ])
  ]

  Tracks-serve :
      (cs : List Call) (s : State) (ts : List ℕ)
      → All (ReadBy now) cs
      → Tracks s.api_requests ts
      → Tracks (serve s cs).api_requests (admitted ip ts s cs)
  unfolding serve admitted
  Tracks-serve [] s ts h t = t
  Tracks-serve (c ∷ cs) s ts h t = Tracks-serve cs (handle c s).1 _ h.1 (Tracks-handle c s ts h.0 t)

-- After any calls, of any addresses and paths, whose clocks do not read later than `now`, at most
-- 100 of the limited requests that were let through for one address are younger than 60 seconds
-- at `now`.
pub admitted_bounded :
    (cs : List Call) (now : ℕ) (ip : String)
    → All (ReadBy now) cs
    → length (counted now api_window (admitted ip [] empty cs)) ≤ api_rpm
admitted_bounded cs now ip h =
    let t = Tracks-serve now ip cs empty [] h (unfold stamps lookup in (refl, omega arith, tt)) in
    let bound = length-keep (is_recent now api_window) (stamps ip (serve empty cs).api_requests) in
    rw (← t.0) (omega (arith, bound, t.1))
