-- ===== src/RateLimit.antt =====
-- backend/app/middleware/rate_limit.py: login lockout, agent-key lockout and request rates.
-- Times are whole microseconds of `time.time()`; each reading of the clock is an argument.
pub mod History
pub mod Lockout
pub mod Release
pub mod Throttle
mod Tests
use glassops.Prelude.{
  ℕ, ◌+◌, ◌-◌, ◌*◌, ◌/◌, String, Bool, true, false, not, ◌&&◌, none, some, List, [], ◌∷◌, ◌++◌, ltb,
  leb, if◌then◌else◌, length, keep, starts_with, ◌==◌, string_eq,
}
use glassops.Prelude.Dict
use glassops.Prelude.Dict.{Dict}

abbrev pub second : ℕ
second = 1_000_000

abbrev pub login_max_failures : ℕ
login_max_failures = 5

abbrev pub login_lockout_seconds : ℕ
login_lockout_seconds = 300

abbrev pub api_rpm : ℕ
api_rpm = 100

abbrev pub api_window : ℕ
api_window = 60

abbrev pub agent_key_max_failures : ℕ
agent_key_max_failures = 5

abbrev pub agent_key_lockout_seconds : ℕ
agent_key_lockout_seconds = 300

abbrev pub agent_conn_max : ℕ
agent_conn_max = 30

abbrev pub agent_conn_window : ℕ
agent_conn_window = 60

abbrev pub Stamps : Type 0
Stamps = Dict String (List ℕ)

-- The four module-level dictionaries.
pub record State : Type 0 where
  pub login_failures : Stamps
  pub api_requests : Stamps
  pub agent_key_failures : Stamps
  pub agent_conns : Stamps

abbrev pub empty : State
empty = record { login_failures = []; api_requests = []; agent_key_failures = []; agent_conns = [] }

-- `store.get(ip, [])`
unfoldable pub stamps : String → Stamps → List ℕ
stamps ip store = elim (Dict.lookup ip store) [ none ↦ [] | some ts ↦ ts ]

-- `t > now - window`, for a window in seconds
unfoldable pub is_recent : ℕ → ℕ → ℕ → Bool
is_recent now window t = ltb now (t + window * second)

unfoldable pub cleanup_old : ℕ → List ℕ → ℕ → List ℕ
cleanup_old now entries window = keep (is_recent now window) entries

-- `now` is read by the function, `pruned` by `_cleanup_old`.
unfoldable pub record_login_failure : ℕ → ℕ → String → State → State
record_login_failure now pruned ip s = record s {
  login_failures =
      Dict.insert ip
        (cleanup_old pruned (stamps ip s.login_failures) login_lockout_seconds ++ (now ∷ []))
        s.login_failures;
}

unfoldable pub clear_login_failures : String → State → State
clear_login_failures ip s = record s { login_failures = Dict.erase ip s.login_failures }

unfoldable pub is_login_locked : ℕ → String → State → Bool × State
is_login_locked now ip s =
    let failures = cleanup_old now (stamps ip s.login_failures) login_lockout_seconds in
    (
      leb login_max_failures (length failures),
      record s { login_failures = Dict.insert ip failures s.login_failures },
    )

-- `xs[i]`, with 0 outside the list
unfoldable pub nth : List ℕ → ℕ → ℕ
nth [] i = 0
nth (x ∷ xs) ℕ.zero = x
nth (x ∷ xs) (ℕ.suc i) = nth xs i

-- `int(300 - (now - oldest))`, at least 0: the whole seconds that are left.
unfoldable pub get_lockout_remaining : ℕ → String → State → ℕ
get_lockout_remaining now ip s =
    let failures = stamps ip s.login_failures in
    if ltb (length failures) login_max_failures
    then 0
    else (login_lockout_seconds * second
        + nth failures (length failures - login_max_failures)
        - now)
      / second

unfoldable pub record_agent_key_failure : ℕ → ℕ → String → State → State
record_agent_key_failure now pruned ip s = record s {
  agent_key_failures =
      Dict.insert ip
        (cleanup_old pruned (stamps ip s.agent_key_failures) agent_key_lockout_seconds
          ++ (now ∷ []))
        s.agent_key_failures;
}

unfoldable pub is_agent_key_locked : ℕ → String → State → Bool × State
is_agent_key_locked now ip s =
    let failures = cleanup_old now (stamps ip s.agent_key_failures) agent_key_lockout_seconds in
    (
      leb agent_key_max_failures (length failures),
      record s { agent_key_failures = Dict.insert ip failures s.agent_key_failures },
    )

unfoldable pub agent_conn_allowed : ℕ → ℕ → String → State → Bool × State
agent_conn_allowed pruned now ip s =
    let conns = cleanup_old pruned (stamps ip s.agent_conns) agent_conn_window in
    if leb agent_conn_max (length conns)
    then (false, record s { agent_conns = Dict.insert ip conns s.agent_conns })
    else (true, record s { agent_conns = Dict.insert ip (conns ++ (now ∷ [])) s.agent_conns })

unfoldable pub unless_empty : String → List ℕ → Stamps → Stamps
unless_empty ip [] store = store
unless_empty ip (t ∷ ts) store = (ip, t ∷ ts) ∷ store

-- The periodic cleanup over every address: what has no recent request is deleted.
unfoldable pub sweep : ℕ → Stamps → Stamps
sweep now [] = []
sweep now ((ip, ts) ∷ store) = unless_empty ip (cleanup_old now ts api_window) (sweep now store)

pub data Response : Type 0 where
  forwarded : Response
  too_many_logins : ℕ → Response
  rate_limited : Response

-- What the middleware reads of one ASGI call, with the client's address as `resolve_client_ip`
-- gives it and its readings of the clock, in the order of the code.
pub record Call : Type 0 where
  pub http : Bool
  pub path : String
  pub ip : String
  pub locked_at : ℕ
  pub remaining_at : ℕ
  pub now : ℕ
  pub pruned_at : ℕ

-- The general API limit, from `now = time.time()` on.
unfoldable pub api_limit : Call → State → Response × State
api_limit c s =
    let reqs = cleanup_old c.pruned_at (stamps c.ip s.api_requests) api_window in
    if leb api_rpm (length reqs)
    then (rate_limited, s)
    else let requests = Dict.insert c.ip (reqs ++ (c.now ∷ [])) s.api_requests in
      (
        forwarded,
        record s {
          api_requests = if ltb 1000 (length requests) then sweep c.now requests else requests;
        },
      )

-- Other ASGI traffic, and what is outside `/api/`, passes.
unfoldable pub is_limited : Call → Bool
is_limited c = c.http && starts_with c.path "/api/"

-- `RateLimitMiddleware.__call__`. The lock is asked for the login path alone.
unfoldable pub handle : Call → State → Response × State
handle c s =
    if not (is_limited c)
    then (forwarded, s)
    else if c.path == "/api/auth/login"
    then (let (locked, s') = is_login_locked c.locked_at c.ip s in
        if locked
        then (too_many_logins (get_lockout_remaining c.remaining_at c.ip s'), s')
        else api_limit c s')
    else api_limit c s
