-- ===== src/Auth/Logout.antt =====
-- A token after its logout, while tokens are revoked, expired rows are cleaned up and accounts
-- change.
use glassops.Prelude.{
  ℕ, ◌+◌, ◌≤◌, ◌<◌, ◌≡◌, refl, String, true, none, some, List, [], ◌∷◌, arith, Option-cases, inl,
  inr, string_eq,
}
use glassops.Prelude.Dict
use glassops.Prelude.Dict.{Dict}
use glassops.Users.{Accounts}
use glassops.Auth.{
  Claims, Library, Sessions, verify_token, blacklist_token, is_token_blacklisted, drop_expired,
  cleanup_blacklist, verify_refresh_token, or_now, revoke_token, refresh_token_expire,
}

-- What happens to the two tables: a logout, the hourly cleanup, and any write of accounts.
pub data Op : Type 0 where
  revoke : ℕ → ℕ → String → Op
  cleanup : ℕ → Op
  write_accounts : Accounts → Op

abbrev pub ClocksUntil : ℕ → List Op → Type 0
ClocksUntil now [] = Unit
ClocksUntil now (cleanup n ∷ ops) = (n ≤ now) × ClocksUntil now ops
ClocksUntil now (revoke _ _ _ ∷ ops) = ClocksUntil now ops
ClocksUntil now (write_accounts _ ∷ ops) = ClocksUntil now ops

lookup-drop_expired :
    (n x : ℕ) (h : String) (d : Dict String ℕ)
    → Dict.lookup h d ≡ some x
    → n ≤ x
    → Dict.lookup h (drop_expired n d) ≡ some x
unfolding drop_expired Dict.lookup
lookup-drop_expired n x h [] found le = found
lookup-drop_expired n x h ((k, e) ∷ d) found le = ground (arith, lookup-drop_expired n x h d)

lookup-blacklist_token :
    (x e : ℕ) (h k : String) (s : Sessions)
    → Dict.lookup h s.blacklist ≡ some x
    → Dict.lookup h (blacklist_token k e s).blacklist ≡ some x
unfolding blacklist_token
lookup-blacklist_token x e h k s found = ground (arith, Dict.lookup-insert h k e s.blacklist)

module _ (L : Library) where
  open L use {decode_live, decode_any, hash_token}

  abbrev pub step : Op → Sessions → Sessions
  step (revoke now lifetime token) s = revoke_token L now lifetime token s
  step (cleanup now) s = cleanup_blacklist now s
  step (write_accounts users) s = record s { accounts = users }

  abbrev pub run : List Op → Sessions → Sessions
  run [] s = s
  run (op ∷ ops) s = run ops (step op s)

  lookup-step-revoke :
      (x now lifetime : ℕ) (h token : String) (s : Sessions)
      → Dict.lookup h s.blacklist ≡ some x
      → Dict.lookup h (revoke_token L now lifetime token s).blacklist ≡ some x
  unfolding revoke_token
  lookup-step-revoke x now lifetime h token s found = elim (Option-cases (decode_any now token)) [
    | inl no_claims ↦ rw (revoke_token, no_claims) found
    | inr (c, claims) ↦
        rw (revoke_token, claims)
          (lookup-blacklist_token x (or_now c.exp (now + lifetime)) h (hash_token token) s found)
  ]

  lookup-run :
      (x now : ℕ) (h : String) (ops : List Op) (s : Sessions)
      → ClocksUntil now ops
      → now < x
      → Dict.lookup h s.blacklist ≡ some x
      → Dict.lookup h (run ops s).blacklist ≡ some x
  unfolding cleanup_blacklist
  lookup-run x now h [] s before lt found = found
  lookup-run x now h (revoke n lifetime token ∷ ops) s before lt found =
      lookup-run x now h ops (step (revoke n lifetime token) s) before lt
        (lookup-step-revoke x n lifetime h token s found)
  lookup-run x now h (cleanup n ∷ ops) s (le, before) lt found =
      lookup-run x now h ops (step (cleanup n) s) before lt
        (lookup-drop_expired n x h s.blacklist found (omega arith))
  lookup-run x now h (write_accounts users ∷ ops) s before lt found =
      lookup-run x now h ops (step (write_accounts users) s) before lt found

  -- What PyJWT documents of its decodings: one that checks the expiry needs the claim exp, to be
  -- after the clock, and two decodings of a token give the same claims.
  pub record Documented : Type 0 where
    pub live_exp :
        (now : ℕ) (t : String) (c : Claims)
        → decode_live now t ≡ some c
        → (e : ℕ) × (c.exp ≡ some e) × (now < e)
    pub live_any :
        (now n : ℕ) (t : String) (c d : Claims)
        → decode_live now t ≡ some c
        → decode_any n t ≡ some d
        → c ≡ d

  module _ (law : Documented) where
    -- The token, decoded when it is revoked, and live afterwards, is on the list.
    pub revoke_token-run :
        (t0 now lifetime : ℕ) (t : String) (c d : Claims) (s : Sessions) (ops : List Op)
        → decode_any t0 t ≡ some d
        → decode_live now t ≡ some c
        → Dict.lookup (hash_token t) s.blacklist ≡ none
        → ClocksUntil now ops
        → is_token_blacklisted (hash_token t) (run ops (revoke_token L t0 lifetime t s)) ≡ true
    unfolding revoke_token blacklist_token or_now is_token_blacklisted
    revoke_token-run t0 now lifetime t c d s ops decoded live fresh before =
        let (e, exp_c, lt) = law.live_exp now t c live in
        let same = law.live_any now t0 t c d live decoded in
        let listed : Dict.lookup (hash_token t) (revoke_token L t0 lifetime t s).blacklist
            ≡ some e =
          ground (
            arith,
            same,
            exp_c,
            decoded,
            fresh,
            Dict.lookup-insert (hash_token t) (hash_token t) e s.blacklist,
          ) in
        rw
          (
            is_token_blacklisted,
            lookup-run e now (hash_token t) ops (revoke_token L t0 lifetime t s) before lt listed,
          )
          refl

    -- A refresh token that was decoded at its logout, and whose hash was not listed before, is
    -- refused from then on: whatever tokens are revoked, whatever is written to the accounts, and
    -- however often the expired rows are cleaned up by clocks that are not ahead of the check.
    pub revoke_refresh_token-final :
        (t0 now later : ℕ) (t : String) (d : Claims) (s : Sessions) (ops : List Op)
        → decode_any t0 t ≡ some d
        → Dict.lookup (hash_token t) s.blacklist ≡ none
        → ClocksUntil now ops
        → verify_refresh_token L now later t (run ops (revoke_token L t0 refresh_token_expire t s))
          ≡ none
    unfolding verify_refresh_token verify_token
    revoke_refresh_token-final t0 now later t d s ops decoded fresh before =
        elim (Option-cases (decode_live now t)) [
          | inl dead ↦ rw (verify_refresh_token, verify_token, dead) refl
          | inr (c, live) ↦
              let on_list =
                revoke_token-run t0 now refresh_token_expire t c d s ops decoded live fresh
                  before in
              ground (arith, on_list, live)
        ]
