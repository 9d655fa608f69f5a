-- ===== src/Auth/CrossSite.antt =====
-- The cache of allowed origins, and writes from other sites.
use glassops.Prelude.{
  ℕ, ◌≡◌, ◌⊎◌, refl, sym, ap, ◌∙◌, inl, inr, Bool-cases, ==_iff, String, Bool, true, false, Option,
  none, some, List, [], ◌∷◌, arith, if◌then◌else◌, ◌==◌, any, contains, starts_with, string_eq,
}
use glassops.Prelude.Text.{is_empty}
use glassops.Net.{lower_codes, same_codes}
use glassops.Auth.{Library, Sessions}
use glassops.Auth.Origin.{
  Hostname, invalid, absent, named, OriginCache, two_slashes, parse_setting, is_cached,
  allowed_hosts, is_own_host, judge_host, origin_host_trusted, csrf_origin_ok,
}
use glassops.Auth.Gate.{
  Moment, Scope, refused, method_of, csrf_methods, last_header, check_origin, after_csrf, call,
}

abbrev pub no_cache : OriginCache
no_cache = record { raw = none; hosts = [] }

-- The setting, the origin and the host of a check.
pub record Check : Type 0 where
  pub raw : String
  pub origin : String
  pub host : String

module _ (hostname : String → Hostname) where
  -- The cached hosts are those of the setting that is cached with them.
  abbrev pub IsCurrent : Option String → List (List ℕ) → Type 0
  IsCurrent none hosts = Unit
  IsCurrent (some raw) hosts = parse_setting hostname raw ≡ some hosts

  -- The decision on an origin under a setting, without a cache.
  unfoldable pub decide_named : Check → String → Option Bool
  decide_named q o_host =
      if is_empty o_host
      then some false
      else judge_host hostname o_host q.host (parse_setting hostname q.raw)

  unfoldable pub decide_host : Check → Hostname → Option Bool
  decide_host q invalid = none
  decide_host q absent = some false
  decide_host q (named o_host) = decide_named q o_host

  unfoldable pub decide : Check → Option Bool
  decide q = if is_empty q.origin then some true else decide_host q (hostname q.origin)

  allowed_hosts-IsCurrent :
      (raw : String) (o : Option String) (hosts : List (List ℕ))
      → IsCurrent o hosts
      → let out = allowed_hosts hostname raw (record { raw = o; hosts = hosts }) in
        (out.0 ≡ parse_setting hostname raw) × IsCurrent out.1.raw out.1.hosts
  unfolding allowed_hosts is_cached
  allowed_hosts-IsCurrent raw o hosts h = by_cached (Bool-cases (is_cached hostname o raw))
    where
      current :
          (old : Option String)
          → IsCurrent old hosts
          → is_cached hostname old raw ≡ true
          → parse_setting hostname raw ≡ some hosts
      current none h same = absurd (cc)
      current (some old) h same = ap (parse_setting hostname) (sym ((==_iff old raw).0 same)) ∙ h

      by_parsed :
          (p : Option (List (List ℕ)))
          → parse_setting hostname raw ≡ p
          → let out : Option (List (List ℕ)) × OriginCache = elim p [
            | none ↦ (none, record { raw = o; hosts = hosts })
            | some new ↦ (some new, record { raw = some raw; hosts = new })
          ] in
            (out.0 ≡ parse_setting hostname raw) × IsCurrent out.1.raw out.1.hosts
      by_parsed none e = (sym e, h)
      by_parsed (some new) e = (sym e, e)

      by_cached :
          (is_cached hostname o raw ≡ true) ⊎ (is_cached hostname o raw ≡ false)
          → let out = allowed_hosts hostname raw (record { raw = o; hosts = hosts }) in
            (out.0 ≡ parse_setting hostname raw) × IsCurrent out.1.raw out.1.hosts
      by_cached (inl same) = rw (allowed_hosts, same) (sym (current o h same), h)
      by_cached (inr other) =
          rw (allowed_hosts, other) (by_parsed (parse_setting hostname raw) refl)

  abbrev Decides : Check → Option Bool × OriginCache → Type 0
  Decides q out = (out.0 ≡ decide q) × IsCurrent out.1.raw out.1.hosts

  csrf_origin_ok-Decides :
      (q : Check) (c : OriginCache)
      → IsCurrent c.raw c.hosts
      → Decides q (csrf_origin_ok hostname q.raw q.origin q.host c)
  unfolding csrf_origin_ok origin_host_trusted decide decide_host decide_named
  csrf_origin_ok-Decides q c h = by_empty (Bool-cases (is_empty q.origin))
    where
      by_name :
          (o_host : String) (b : Bool)
          → let out : Option Bool × OriginCache = if b then (some false, c) else (
            judge_host hostname o_host q.host (allowed_hosts hostname q.raw c).0,
            (allowed_hosts hostname q.raw c).1,
          ) in
            (out.0 ≡ (
              if b
              then some false
              else judge_host hostname o_host q.host (parse_setting hostname q.raw)))
            × IsCurrent out.1.raw out.1.hosts
      by_name o_host true = (refl, h)
      by_name o_host false =
          let looked = allowed_hosts-IsCurrent q.raw c.raw c.hosts h in
          (ap (judge_host hostname o_host q.host) looked.0, looked.1)

      by_host :
          (n : Hostname)
          → let out : Option Bool × OriginCache = elim n [
            | invalid ↦ (none, c)
            | absent ↦ (some false, c)
            | named o_host ↦ if is_empty o_host then (some false, c) else (
              judge_host hostname o_host q.host (allowed_hosts hostname q.raw c).0,
              (allowed_hosts hostname q.raw c).1,
            )
          ] in
            (out.0 ≡ decide_host q n) × IsCurrent out.1.raw out.1.hosts
      by_host invalid = (refl, h)
      by_host absent = (refl, h)
      by_host (named o_host) = by_name o_host (is_empty o_host)

      by_empty :
          (is_empty q.origin ≡ true) ⊎ (is_empty q.origin ≡ false)
          → Decides q (csrf_origin_ok hostname q.raw q.origin q.host c)
      by_empty (inl missing) = rw (csrf_origin_ok, decide, missing) (refl, h)
      by_empty (inr given) =
          rw (csrf_origin_ok, decide, origin_host_trusted, given) (by_host (hostname q.origin))

  -- Checks one after the other, each under the setting of its time.
  abbrev pub check_all : List Check → OriginCache → List (Option Bool)
  check_all [] c = []
  check_all (q ∷ rest) c =
      let (ok, c') = csrf_origin_ok hostname q.raw q.origin q.host c in ok ∷ check_all rest c'

  abbrev pub cache_after : List Check → OriginCache → OriginCache
  cache_after [] c = c
  cache_after (q ∷ rest) c = cache_after rest (csrf_origin_ok hostname q.raw q.origin q.host c).1

  abbrev pub decide_all : List Check → List (Option Bool)
  decide_all [] = []
  decide_all (q ∷ rest) = decide q ∷ decide_all rest

  check_all_lem :
      (qs : List Check) (c : OriginCache) → IsCurrent c.raw c.hosts → check_all qs c ≡ decide_all qs
  check_all_lem [] c h = refl
  check_all_lem (q ∷ rest) c h =
      let out = csrf_origin_ok-Decides q c h in
      rw (out.0, check_all_lem rest (csrf_origin_ok hostname q.raw q.origin q.host c).1 out.1)

  cache_after-IsCurrent :
      (qs : List Check) (c : OriginCache)
      → IsCurrent c.raw c.hosts
      → IsCurrent (cache_after qs c).raw (cache_after qs c).hosts
  cache_after-IsCurrent [] c h = h
  cache_after-IsCurrent (q ∷ rest) c h =
      cache_after-IsCurrent rest (csrf_origin_ok hostname q.raw q.origin q.host c).1
        (csrf_origin_ok-Decides q c h).1

  -- Over any checks, with the setting of allowed origins changed between them in any way, each
  -- answers what its own setting, origin and host give without the cache, or raises where that
  -- raises.
  pub check_all-decide_all : (qs : List Check) → check_all qs no_cache ≡ decide_all qs
  check_all-decide_all qs = check_all_lem qs no_cache tt

  decide-foreign :
      (q : Check) (o_host own : String) (hosts : List (List ℕ))
      → is_empty q.origin ≡ false
      → hostname q.origin ≡ named o_host
      → parse_setting hostname q.raw ≡ some hosts
      → any (same_codes (lower_codes o_host)) hosts ≡ false
      → hostname (two_slashes q.host) ≡ named own
      → (o_host == own) ≡ false
      → decide q ≡ some false
  unfolding decide decide_host decide_named is_own_host judge_host
  decide-foreign q o_host own hosts given origin setting not_allowed own_eq differ =
      rw (decide, decide_host, given, origin, decide_named, setting) (by_hosts hosts not_allowed)
    where
      by_hosts :
          (hs : List (List ℕ))
          → any (same_codes (lower_codes o_host)) hs ≡ false
          → (if is_empty o_host then some false else judge_host hostname o_host q.host (some hs))
            ≡ some false
      by_hosts [] e = ground (arith, own_eq, differ)
      by_hosts (x ∷ hs) e = ground (arith, e)

  -- After any checks under any settings, a request to a path under /api/, a public one included,
  -- whose method writes and whose last header Origin names a host that is neither among the allowed
  -- ones nor that of the header Host, is refused with 403.
  pub call-foreign :
      (L : Library) (qs : List Check) (m : Moment) (scope : Scope) (s : Sessions)
      (o_host own : String) (hosts : List (List ℕ))
      → scope.kind ≡ "http"
      → starts_with scope.path "/api/" ≡ true
      → contains csrf_methods (method_of scope) ≡ true
      → is_empty (last_header "origin" scope.headers "") ≡ false
      → hostname (last_header "origin" scope.headers "") ≡ named o_host
      → parse_setting hostname m.allowed_origins ≡ some hosts
      → any (same_codes (lower_codes o_host)) hosts ≡ false
      → hostname (two_slashes (last_header "host" scope.headers "")) ≡ named own
      → (o_host == own) ≡ false
      → (call L hostname m scope s (cache_after qs no_cache)).0
        ≡ refused 403 "Cross-origin request blocked"
  unfolding call after_csrf check_origin
  call-foreign L qs m scope s o_host own hosts http api writes given origin setting not_allowed
        own_eq differ =
      let q : Check = record {
        raw = m.allowed_origins;
        origin = last_header "origin" scope.headers "";
        host = last_header "host" scope.headers "";
      } in
      let out =
        csrf_origin_ok-Decides q (cache_after qs no_cache) (cache_after-IsCurrent qs no_cache tt) in
      let answer =
        out.0 ∙ decide-foreign q o_host own hosts given origin setting not_allowed own_eq differ in
      ground (arith, http, api, writes, answer)
