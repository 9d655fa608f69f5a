-- ===== src/Rpc/Tickets.antt =====
-- The module against the tickets of its calls, and what a lost agent leaves.
use glassops.Prelude.{
  ◌≡◌, refl, sym, ◌∙◌, ap, String, Bool, true, false, not, none, some, List, [], ◌∷◌, if◌then◌else◌,
  arith, string_eq,
}
use mathlib.Core.Path.{subst}
use glassops.Prelude.Dict
use glassops.Prelude.Dict.{Dict, NodupKeys, insert-NodupKeys, erase-NodupKeys}
use glassops.Rpc.{
  outcome_at, sending, waiting, finished, Rpc, lock_for, finish, begin_call, after_send, wake,
  resolve, start_stream, stream_not_sent, at_stream, on_chunk, on_end, cancel_stream, end_awaited,
  ids_of_agent, cancel_calls, cancel_streams, cancel_for_agent,
}
use glassops.Rpc.Events.{
  Event, began, sent, woken, answered, lost, stream_began, stream_unsent, chunk, ended, cancelled,
  awaited, step, run, no_calls, ticket_step, ticket,
}
use glassops.Rpc.Tracking.{
  tracked, IsTracked, entry, Follows, entry-begin_call, entry-after_send, entry-wake, entry-resolve,
  entry-cancel_for_agent,
}

-- The steps of streams leave the calls alone.
pub step-Follows :
    (s : Rpc) (t : IsTracked s) (j : String) (e : Event)
    → Follows (ticket_step j e (Dict.lookup j s.calls)) (entry j (step e s))
unfolding start_stream lock_for stream_not_sent at_stream on_chunk on_end cancel_stream end_awaited
step-Follows s t j (began connected rid agent) = entry-begin_call s t j connected rid agent
step-Follows s t j (sent ok rid) = entry-after_send s t j ok rid
step-Follows s t j (woken timed_out rid) = entry-wake s t j timed_out rid
step-Follows s t j (answered rid p) = entry-resolve s t j rid p
step-Follows s t j (lost error agent) = entry-cancel_for_agent s t j error agent
step-Follows s t j (stream_began connected rid agent) = ground (arith, t.at j)
step-Follows s t j (stream_unsent rid) = ground (arith, t.at j)
step-Follows s t j (chunk rid text) = ground (arith, t.at j)
step-Follows s t j (ended rid error) = ground (arith, t.at j)
step-Follows s t j (cancelled rid) = ground (arith, t.at j)
step-Follows s t j (awaited rid) = ground (arith, t.at j)

cancel_calls-NodupKeys :
    (ids : List String) (s : Rpc) → NodupKeys s.pending → NodupKeys (cancel_calls ids s).pending
unfolding cancel_calls
cancel_calls-NodupKeys [] s u = u
cancel_calls-NodupKeys (rid ∷ rest) s u =
    cancel_calls-NodupKeys rest _ (erase-NodupKeys rid s.pending u)

cancel_streams-pending :
    (error : String) (ids : List String) (s : Rpc)
    → (cancel_streams error ids s).pending ≡ s.pending
unfolding cancel_streams
cancel_streams-pending error [] s = refl
cancel_streams-pending error (rid ∷ rest) s = cancel_streams-pending error rest _

keep_or_erase :
    (b : Bool) (rid : String) {d : Dict String String} (s : Rpc)
    → d ≡ (if b then Dict.erase rid s.pending else s.pending)
    → NodupKeys s.pending
    → NodupKeys d
keep_or_erase true rid s e u = subst NodupKeys (sym e) (erase-NodupKeys rid s.pending u)
keep_or_erase false rid s e u = subst NodupKeys (sym e) u

after_send-NodupKeys :
    (ok : Bool) (rid : String) (s : Rpc)
    → NodupKeys s.pending
    → NodupKeys (after_send ok rid s).pending
unfolding after_send finish
after_send-NodupKeys ok rid s u =
    let drops : Bool = elim (Dict.lookup rid s.calls) [
      | none ↦ false
      | some c ↦ elim c.phase [ sending ↦ not ok | waiting ↦ false | finished _ ↦ false ]
    ] in
    keep_or_erase drops rid s (ground arith) u

wake-NodupKeys :
    (timed_out : Bool) (rid : String) (s : Rpc)
    → NodupKeys s.pending
    → NodupKeys (wake timed_out rid s).pending
unfolding wake finish
wake-NodupKeys timed_out rid s u =
    let drops : Bool = elim (Dict.lookup rid s.calls) [
      | none ↦ false
      | some c ↦ elim c.phase [
        | sending ↦ false
        | waiting ↦ elim (outcome_at timed_out c.future) [ none ↦ false | some _ ↦ true ]
        | finished _ ↦ false
      ]
    ] in
    keep_or_erase drops rid s (ground arith) u

step-NodupKeys : (e : Event) (s : Rpc) → NodupKeys s.pending → NodupKeys (step e s).pending
unfolding begin_call finish lock_for resolve cancel_for_agent start_stream stream_not_sent at_stream
    on_chunk on_end cancel_stream end_awaited
step-NodupKeys (began true rid agent) s u =
    let d = Dict.insert rid agent s.pending in
    let same : (step (began true rid agent) s).pending ≡ d = ground arith in
    subst NodupKeys (sym same) (insert-NodupKeys rid agent s.pending u)
step-NodupKeys (began false rid agent) s u =
    erase-NodupKeys rid _ (insert-NodupKeys rid agent s.pending u)
step-NodupKeys (sent ok rid) s u = after_send-NodupKeys ok rid s u
step-NodupKeys (woken timed_out rid) s u = wake-NodupKeys timed_out rid s u
step-NodupKeys (answered rid p) s u = keep_or_erase false rid s (ground arith) u
step-NodupKeys (lost error agent) s u =
    let gone = cancel_calls (ids_of_agent agent s.pending) s in
    subst NodupKeys (sym (cancel_streams-pending error (ids_of_agent agent gone.streams) gone))
      (cancel_calls-NodupKeys (ids_of_agent agent s.pending) s u)
step-NodupKeys (stream_began connected rid agent) s u = keep_or_erase false rid s (ground arith) u
step-NodupKeys (stream_unsent rid) s u = u
step-NodupKeys (chunk rid text) s u = keep_or_erase false rid s (ground arith) u
step-NodupKeys (ended rid error) s u = keep_or_erase false rid s (ground arith) u
step-NodupKeys (cancelled rid) s u = keep_or_erase false rid s (ground arith) u
step-NodupKeys (awaited rid) s u = u

pub step-IsTracked : (e : Event) (s : Rpc) → IsTracked s → IsTracked (step e s)
step-IsTracked e s t = record {
  nodup = step-NodupKeys e s t.nodup;
  at = λ rid. (step-Follows s t rid e).1;
}

pub run-IsTracked : (es : List Event) (s : Rpc) → IsTracked s → IsTracked (run es s)
run-IsTracked [] s t = t
run-IsTracked (e ∷ es) s t = run-IsTracked es (step e s) (step-IsTracked e s t)

pub run-ticket_lem :
    (es : List Event) (s : Rpc) (rid : String)
    → IsTracked s
    → Dict.lookup rid (run es s).calls ≡ ticket rid es (Dict.lookup rid s.calls)
run-ticket_lem [] s rid t = refl
run-ticket_lem (e ∷ es) s rid t =
    run-ticket_lem es (step e s) rid (step-IsTracked e s t)
    ∙ ap (ticket rid es) (step-Follows s t rid e).0

pub no_calls-IsTracked : IsTracked no_calls
unfolding Dict.lookup
no_calls-IsTracked = record { nodup = tt; at = λ rid. refl }

-- Through any steps from the start, every call is where its own ticket is, which is told from the
-- events alone: it takes the first answer or loss of its agent before its end, and ends as its own
-- sending and waking say.
pub run-ticket :
    (es : List Event) (rid : String) → Dict.lookup rid (run es no_calls).calls ≡ ticket rid es none
unfolding Dict.lookup
run-ticket es rid = run-ticket_lem es no_calls rid no_calls-IsTracked

-- Through any steps from the start, an id stands in `_pending` under an agent only if its call is
-- to this agent and not over; and a call that does not stand there is over or has its answer.
run-tracked :
    (es : List Event) (rid : String)
    → tracked (Dict.lookup rid (run es no_calls).pending) (Dict.lookup rid (run es no_calls).calls)
      ≡ true
run-tracked es rid = (run-IsTracked es no_calls no_calls-IsTracked).at rid

-- The dispatcher after the steps `es` from the start and then the loss of `agent`.
abbrev pub after_loss : List Event → String → String → Rpc
after_loss es error agent = cancel_for_agent error agent (run es no_calls)
