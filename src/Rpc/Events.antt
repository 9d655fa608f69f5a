-- ===== src/Rpc/Events.antt =====
-- The steps of the module in any order, and each call as a ticket of its own, without the
-- dictionaries that the calls share.
use glassops.Prelude.{
  String, Bool, Option, none, some, List, [], ◌∷◌, if◌then◌else◌, ◌==◌, string_eq,
}
use glassops.Rpc.{
  Payload, Answer, payload, disconnected, agent_not_connected, sending, waiting, finished, Call,
  Rpc, is_finished, begin_call, after_send, outcome_at, wake, resolve, start_stream,
  stream_not_sent, on_chunk, on_end, cancel_stream, end_awaited, cancel_for_agent,
}

-- A step of the module between two awaits.
pub data Event : Type 0 where
  began : Bool → String → String → Event
  sent : Bool → String → Event
  woken : Bool → String → Event
  answered : String → Payload → Event
  lost : String → String → Event
  stream_began : Bool → String → String → Event
  stream_unsent : String → Event
  chunk : String → String → Event
  ended : String → Option String → Event
  cancelled : String → Event
  awaited : String → Event

abbrev pub step : Event → Rpc → Rpc
step (began connected rid agent) s = begin_call connected rid agent s
step (sent ok rid) s = after_send ok rid s
step (woken timed_out rid) s = wake timed_out rid s
step (answered rid p) s = resolve rid p s
step (lost error agent) s = cancel_for_agent error agent s
step (stream_began connected rid agent) s = start_stream connected rid agent s
step (stream_unsent rid) s = stream_not_sent rid s
step (chunk rid text) s = on_chunk rid text s
step (ended rid error) s = on_end rid error s
step (cancelled rid) s = cancel_stream rid s
step (awaited rid) s = end_awaited rid s

abbrev pub run : List Event → Rpc → Rpc
run [] s = s
run (e ∷ es) s = run es (step e s)

abbrev pub no_calls : Rpc
no_calls = record { pending = []; streams = []; send_locks = []; calls = []; states = [] }

-- The specification: what becomes of one call, told from its own state and the events alone.
unfoldable pub new_ticket : Bool → String → Option Call
new_ticket connected agent = some (record {
  agent = agent;
  phase = if connected then sending else finished agent_not_connected;
  future = none;
})

unfoldable pub on_send : Bool → Call → Call
on_send ok c = elim c.phase [
  | sending ↦ record c { phase = if ok then waiting else finished agent_not_connected }
  | waiting ↦ c
  | finished _ ↦ c
]

unfoldable pub on_wake : Bool → Call → Call
on_wake timed_out c = elim c.phase [
  | sending ↦ c
  | waiting ↦ elim (outcome_at timed_out c.future) [
    | none ↦ c
    | some outcome ↦ record c { phase = finished outcome }
  ]
  | finished _ ↦ c
]

-- The first answer of a call that is not over counts.
unfoldable pub on_answer : Answer → Call → Call
on_answer a c =
    if is_finished c.phase
    then c
    else elim c.future [ none ↦ record c { future = some a } | some _ ↦ c ]

unfoldable pub update {ℓ} : {V : Type ℓ} → (V → V) → Option V → Option V
update f none = none
update f (some v) = some (f v)

abbrev pub ticket_step : String → Event → Option Call → Option Call
ticket_step rid (began connected r agent) o = if rid == r then new_ticket connected agent else o
ticket_step rid (sent ok r) o = if rid == r then update (on_send ok) o else o
ticket_step rid (woken timed_out r) o = if rid == r then update (on_wake timed_out) o else o
ticket_step rid (answered r p) o = if rid == r then update (on_answer (payload p)) o else o
ticket_step rid (lost _ agent) o =
    update (λ c. if c.agent == agent then on_answer disconnected c else c) o
ticket_step rid (stream_began _ _ _) o = o
ticket_step rid (stream_unsent _) o = o
ticket_step rid (chunk _ _) o = o
ticket_step rid (ended _ _) o = o
ticket_step rid (cancelled _) o = o
ticket_step rid (awaited _) o = o

abbrev pub ticket : String → List Event → Option Call → Option Call
ticket rid [] o = o
ticket rid (e ∷ es) o = ticket rid es (ticket_step rid e o)
