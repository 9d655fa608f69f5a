-- ===== src/Rpc.antt =====
-- backend/app/services/agent_rpc.py and agent_dispatch.py: calls and streams to agents, as the steps
-- between two awaits. A future or a stream's state is known by its rpc id, and outlives its entry
-- in `_pending` or `_streams` while a task holds it.
use glassops.Prelude.{
  ℕ, String, Bool, true, false, Option, none, some, List, [], ◌∷◌, ◌++◌, if◌then◌else◌, ◌==◌,
  contains, string_eq,
}
use glassops.Prelude.Text.{is_empty}
use glassops.Prelude.Dict
use glassops.Prelude.Dict.{Dict}
pub mod Events
pub mod Tracking
pub mod Tickets
pub mod FirstAnswer
pub mod Tests

-- A response; a missing error is empty, and a missing result is the text of an empty object.
pub record Payload : Type 0 where
  pub ok : Bool
  pub error : String
  pub result : String

-- What a future is set to.
pub data Answer : Type 0 where
  payload : Payload → Answer
  disconnected : Answer

-- How `call` ends.
pub data Outcome : Type 0 where
  result : String → Outcome
  rpc_error : String → Outcome
  agent_not_connected : Outcome
  rpc_timeout : Outcome

pub data Phase : Type 0 where
  sending : Phase
  waiting : Phase
  finished : Outcome → Phase

-- A run of `call`, with its future.
pub record Call : Type 0 where
  pub agent : String
  pub phase : Phase
  pub future : Option Answer

-- `_StreamState`, with what its callback was given.
pub record StreamState : Type 0 where
  pub agent : String
  pub done : Bool
  pub error : Option String
  pub chunks : List String

-- The three dictionaries of the module, the runs of `call` and the states of streams.
pub record Rpc : Type 0 where
  pub pending : Dict String String
  pub streams : Dict String String
  pub send_locks : List String
  pub calls : Dict String Call
  pub states : Dict String StreamState

-- `_lock_for`
unfoldable pub lock_for : String → Rpc → Rpc
lock_for agent s =
    if contains s.send_locks agent then s else record s { send_locks = agent ∷ s.send_locks }

unfoldable pub is_finished : Phase → Bool
is_finished sending = false
is_finished waiting = false
is_finished (finished _) = true

-- `if not fut.done(): fut.set_…`
unfoldable pub set_once : Answer → Call → Call
set_once a c = elim c.future [ none ↦ record c { future = some a } | some _ ↦ c ]

unfoldable pub change {ℓ} : {V : Type ℓ} → String → (V → V) → Dict String V → Dict String V
change rid f d = elim (Dict.lookup rid d) [ none ↦ d | some v ↦ Dict.insert rid (f v) d ]

-- `_pending.pop(rpc_id, None)` and the end of the call.
unfoldable pub finish : String → Outcome → Rpc → Rpc
finish rid outcome s = record s {
  pending = Dict.erase rid s.pending;
  calls = change rid (λ c. record c { phase = finished outcome }) s.calls;
}

-- `call` up to the sending of its request; `connected` tells if the agent has a socket.
unfoldable pub begin_call : Bool → String → String → Rpc → Rpc
begin_call connected rid agent s =
    let entered : Rpc = record s {
      pending = Dict.insert rid agent s.pending;
      calls = Dict.insert rid (record { agent = agent; phase = sending; future = none }) s.calls;
    } in
    if connected then lock_for agent entered else finish rid agent_not_connected entered

-- After `ws.send_text`, which succeeded or raised.
unfoldable pub after_send : Bool → String → Rpc → Rpc
after_send sent rid s = elim (Dict.lookup rid s.calls) [
  | none ↦ s
  | some c ↦ elim c.phase [
    | sending ↦
        if sent
        then record s { calls = Dict.insert rid (record c { phase = waiting }) s.calls }
        else finish rid agent_not_connected s
    | waiting ↦ s
    | finished _ ↦ s
  ]
]

-- The last lines of `call`.
unfoldable pub outcome_of : Answer → Outcome
outcome_of disconnected = agent_not_connected
outcome_of (payload p) =
    if p.ok
    then result p.result
    else rpc_error (if is_empty p.error then "Unknown error" else p.error)

-- A time-out may win over an answer that comes in the same turn of the event loop.
unfoldable pub outcome_at : Bool → Option Answer → Option Outcome
outcome_at true _ = some rpc_timeout
outcome_at false none = none
outcome_at false (some a) = some (outcome_of a)

-- `asyncio.wait_for` goes on: the future is done, or the time is out.
unfoldable pub wake : Bool → String → Rpc → Rpc
wake timed_out rid s = elim (Dict.lookup rid s.calls) [
  | none ↦ s
  | some c ↦ elim c.phase [
    | sending ↦ s
    | waiting ↦ elim (outcome_at timed_out c.future) [
      | none ↦ s
      | some outcome ↦ finish rid outcome s
    ]
    | finished _ ↦ s
  ]
]

unfoldable pub resolve : String → Payload → Rpc → Rpc
resolve rid p s = elim (Dict.lookup rid s.pending) [
  | none ↦ s
  | some _ ↦ record s { calls = change rid (set_once (payload p)) s.calls }
]

-- `start_stream` up to the sending of its request.
unfoldable pub start_stream : Bool → String → String → Rpc → Rpc
start_stream connected rid agent s =
    let state : StreamState = record { agent = agent; done = false; error = none; chunks = [] } in
    let states = Dict.insert rid state s.states in
    if connected
    then lock_for agent (record s { streams = Dict.insert rid agent s.streams; states = states })
    else record s { streams = Dict.erase rid (Dict.insert rid agent s.streams); states = states }

-- The request of `start_stream` could not be sent.
unfoldable pub stream_not_sent : String → Rpc → Rpc
stream_not_sent rid s = record s { streams = Dict.erase rid s.streams }

-- Only the states of streams that are listed are reached.
unfoldable pub at_stream : String → (StreamState → StreamState) → Rpc → Rpc
at_stream rid f s = elim (Dict.lookup rid s.streams) [
  | none ↦ s
  | some _ ↦ record s { states = change rid f s.states }
]

unfoldable pub on_chunk : String → String → Rpc → Rpc
on_chunk rid data' s = at_stream rid (λ st. record st { chunks = st.chunks ++ (data' ∷ []) }) s

unfoldable pub on_end : String → Option String → Rpc → Rpc
on_end rid error s = at_stream rid (λ st. record st { error = error; done = true }) s

-- `cancel_stream` up to the sending of rpc.cancel, whose failure changes nothing.
unfoldable pub cancel_stream : String → Rpc → Rpc
cancel_stream rid s =
    let out = at_stream rid (λ st. record st { done = true }) s in
    record out { streams = Dict.erase rid out.streams }

-- How a wait of `await_stream_end` ends: not yet, or with the error if there is one.
unfoldable pub end_of : StreamState → Option (Option String)
end_of st =
    if st.done
    then some (elim st.error [ none ↦ none | some e ↦ if is_empty e then none else some e ])
    else none

-- What `await_stream_end` does on waking.
unfoldable pub end_awaited : String → Rpc → Rpc
end_awaited rid s = record s { streams = Dict.erase rid s.streams }

-- The agent that `send_control` sends to; `none` where it raises for a stream that is not listed.
unfoldable pub control_target : String → Rpc → Option String
control_target rid s = elim (Dict.lookup rid s.streams) [
  | none ↦ none
  | some _ ↦ elim (Dict.lookup rid s.states) [ none ↦ none | some st ↦ some st.agent ]
]

-- `[rid for rid, … in ….items() if … == agent_id]`
unfoldable pub ids_of_agent : String → Dict String String → List String
ids_of_agent agent [] = []
ids_of_agent agent ((rid, a) ∷ d) =
    let rest = ids_of_agent agent d in if a == agent then rid ∷ rest else rest

unfoldable pub cancel_calls : List String → Rpc → Rpc
cancel_calls [] s = s
cancel_calls (rid ∷ rest) s = cancel_calls rest (record s {
  pending = Dict.erase rid s.pending;
  calls = change rid (set_once disconnected) s.calls;
})

unfoldable pub disconnect_stream : String → StreamState → StreamState
disconnect_stream error st = if st.done then st else record st { error = some error; done = true }

unfoldable pub cancel_streams : String → List String → Rpc → Rpc
cancel_streams error [] s = s
cancel_streams error (rid ∷ rest) s = cancel_streams error rest (record s {
  streams = Dict.erase rid s.streams;
  states = change rid (disconnect_stream error) s.states;
})

-- `_send_locks.pop(agent_id, None)`
unfoldable pub drop_lock : String → List String → List String
drop_lock agent [] = []
drop_lock agent (a ∷ rest) =
    let others = drop_lock agent rest in if a == agent then others else a ∷ others

-- With the text of the error for the streams.
unfoldable pub cancel_for_agent : String → String → Rpc → Rpc
cancel_for_agent error agent s =
    let calls_gone = cancel_calls (ids_of_agent agent s.pending) s in
    let gone = cancel_streams error (ids_of_agent agent calls_gone.streams) calls_gone in
    record gone { send_locks = drop_lock agent gone.send_locks }

-- The status that `call_remote` of agent_dispatch.py answers, if the call fails.
unfoldable pub status_of : Outcome → Option ℕ
status_of (result _) = none
status_of (rpc_error _) = some 400
status_of agent_not_connected = some 503
status_of rpc_timeout = some 504
