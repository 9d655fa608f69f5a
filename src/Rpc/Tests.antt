-- ===== src/Rpc/Tests.antt =====
-- Calls of two agents, one of which is lost.
use glassops.Prelude.{◌≡◌, refl, String, true, false, none, some, List, [], ◌∷◌, string_eq}
use glassops.Prelude.Text.{is_empty}
use glassops.Prelude.Dict
use glassops.Rpc.{
  Call, Payload, payload, result, waiting, finished, cancel_for_agent, wake, resolve, is_finished,
  end_of, begin_call, lock_for, finish, change, after_send, cancel_calls, cancel_streams,
  ids_of_agent, drop_lock, set_once, outcome_of, outcome_at, start_stream, at_stream,
  disconnect_stream,
}
use glassops.Rpc.Events.{
  update, new_ticket, on_send, on_wake, on_answer, Event, began, sent, woken, answered, lost,
  stream_began, run, no_calls,
}
use glassops.Rpc.Tickets.{run-ticket}
use glassops.Rpc.FirstAnswer.{resolve-wins}

abbrev started : List Event
started = began true "1" "web" ∷ began true "2" "db" ∷ sent true "2" ∷ sent true "1" ∷ []

abbrev reply : String → Payload
reply text = record { ok = true; error = ""; result = text }

abbrev asked : Call
asked = record { agent = "web"; phase = waiting; future = none }

routed : Unit {0}
unfolding string_eq Dict.lookup Dict.insert Dict.erase begin_call lock_for finish change after_send
    wake resolve cancel_for_agent cancel_calls cancel_streams ids_of_agent drop_lock set_once
    is_finished outcome_of outcome_at update new_ticket on_send on_wake on_answer is_empty
    start_stream at_stream disconnect_stream end_of
routed = tt

-- The first of two answers is the result.
run-ticket_example :
    Dict.lookup "1"
      (run
        (began true "1" "web"
          ∷ sent true "1"
          ∷ answered "1" (reply "a")
          ∷ answered "1" (reply "b")
          ∷ woken false "1"
          ∷ [])
        no_calls).calls
    ≡ some (record {
      agent = "web";
      phase = finished (result "a");
      future = some (payload (reply "a"));
    })
unfolding routed
run-ticket_example =
    run-ticket
      (began true "1" "web"
        ∷ sent true "1"
        ∷ answered "1" (reply "a")
        ∷ answered "1" (reply "b")
        ∷ woken false "1"
        ∷ [])
      "1"

resolve-wins_example :
    Dict.lookup "1"
      (wake false "1"
        (run (lost "lost" "web" ∷ []) (resolve "1" (reply "a") (run started no_calls)))).calls
    ≡ some (record {
      agent = "web";
      phase = finished (result "a");
      future = some (payload (reply "a"));
    })
unfolding routed
resolve-wins_example =
    resolve-wins started (lost "lost" "web" ∷ []) "1" (reply "a") asked refl refl refl refl

-- A stream whose agent is lost before anybody waits for its end is not listed any more, so
-- `await_stream_end` returns as for a stream that has ended, though its state has the error.
lost_before_the_wait :
    let s = run (stream_began true "1" "web" ∷ lost "lost" "web" ∷ []) no_calls in
    (Dict.lookup "1" s.streams ≡ none)
    × (Dict.lookup "1" s.states
        ≡ some (record { agent = "web"; done = true; error = some "lost"; chunks = [] }))
unfolding routed
lost_before_the_wait = (refl, refl)
