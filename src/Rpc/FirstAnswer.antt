-- ===== src/Rpc/FirstAnswer.antt =====
-- Which answer a call ends with.
use glassops.Prelude.{
  ◌≡◌, refl, ◌∙◌, ap, String, Bool, true, false, not, none, some, List, [], ◌∷◌, ◌==◌, arith, all,
  string_eq,
}
use glassops.Prelude.Dict
use glassops.Rpc.{
  Call, Payload, payload, waiting, finished, outcome_of, outcome_at, is_finished, set_once, resolve,
  wake,
}
use glassops.Rpc.Events.{
  Event, began, sent, woken, answered, lost, stream_began, stream_unsent, chunk, ended, cancelled,
  awaited, run, no_calls, ticket, on_send, on_wake, on_answer, update,
}
use glassops.Rpc.Tickets.{
  run-ticket_lem, run-IsTracked, step-IsTracked, step-Follows, no_calls-IsTracked,
}

-- No step that begins or goes on with the call.
abbrev pub leaves_asleep : String → Event → Bool
leaves_asleep rid (began _ r _) = not (rid == r)
leaves_asleep rid (sent _ _) = true
leaves_asleep rid (woken _ r) = not (rid == r)
leaves_asleep rid (answered _ _) = true
leaves_asleep rid (lost _ _) = true
leaves_asleep rid (stream_began _ _ _) = true
leaves_asleep rid (stream_unsent _) = true
leaves_asleep rid (chunk _ _) = true
leaves_asleep rid (ended _ _) = true
leaves_asleep rid (cancelled _) = true
leaves_asleep rid (awaited _) = true

ticket-step-asleep :
    (rid : String) (e : Event) (c : Call) (p : Payload)
    → c.phase ≡ waiting
    → c.future ≡ some (payload p)
    → leaves_asleep rid e ≡ true
    → ticket rid (e ∷ []) (some c) ≡ some c
unfolding on_send on_answer set_once update is_finished
ticket-step-asleep rid (began connected r agent) c p w f q = ground arith
ticket-step-asleep rid (woken timed_out r) c p w f q = ground arith
ticket-step-asleep rid e c p w f q = ground arith

ticket-asleep :
    (rid : String) (es : List Event) (c : Call) (p : Payload)
    → c.phase ≡ waiting
    → c.future ≡ some (payload p)
    → all (leaves_asleep rid) es ≡ true
    → ticket rid es (some c) ≡ some c
ticket-asleep rid [] c p w f q = refl
ticket-asleep rid (e ∷ es) c p w f q =
    let here : leaves_asleep rid e ≡ true = ground arith in
    let later : all (leaves_asleep rid) es ≡ true = ground arith in
    ap (ticket rid es) (ticket-step-asleep rid e c p w f here) ∙ ticket-asleep rid es c p w f later

-- A call that waits without an answer, after any steps from the start, and gets a response, goes on
-- with the outcome of this response: whatever other responses or losses of its agent come between,
-- as long as it was not woken before and its time is not out.
pub resolve-wins :
    (before between : List Event) (rid : String) (p : Payload) (c : Call)
    → Dict.lookup rid (run before no_calls).calls ≡ some c
    → c.phase ≡ waiting
    → c.future ≡ none
    → all (leaves_asleep rid) between ≡ true
    → Dict.lookup rid (wake false rid (run between (resolve rid p (run before no_calls)))).calls
      ≡ some (record c { phase = finished (outcome_of (payload p)); future = some (payload p) })
unfolding on_answer on_wake outcome_at set_once update is_finished
resolve-wins before between rid p c found waits unanswered asleep =
    let s = run before no_calls in
    let t = run-IsTracked before no_calls no_calls-IsTracked in
    let s1 = resolve rid p s in
    let t1 = step-IsTracked (answered rid p) s t in
    let c1 : Call = record c { future = some (payload p) } in
    let got : Dict.lookup rid s1.calls ≡ some c1 =
      ground (arith, (step-Follows s t rid (answered rid p)).0, found) in
    let kept =
      run-ticket_lem between s1 rid t1
      ∙ ap (ticket rid between) got
      ∙ ticket-asleep rid between c1 p waits refl asleep in
    let woke =
      (step-Follows (run between s1) (run-IsTracked between s1 t1) rid (woken false rid)).0 in
    ground (arith, woke, kept)
