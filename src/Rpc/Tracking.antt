-- ===== src/Rpc/Tracking.antt =====
-- What each step does at one id of `_pending` and at the call of this id.
use glassops.Prelude.{
  ◌≡◌, refl, String, Bool, true, false, not, ◌&&◌, ◌||◌, Option, none, some, List, [], ◌∷◌,
  if◌then◌else◌, ◌==◌, contains, arith, Option-cases, inl, inr, string_eq,
}
use glassops.Prelude.Dict
use glassops.Prelude.Dict.{Dict, NodupKeys}
use glassops.Rpc.{
  Payload, Answer, payload, disconnected, Outcome, agent_not_connected, sending, waiting, finished,
  Call, Rpc, lock_for, is_finished, set_once, change, finish, begin_call, after_send, outcome_at,
  wake, resolve, ids_of_agent, cancel_calls, cancel_streams, cancel_for_agent,
}
use glassops.Rpc.Events.{
  began, sent, woken, answered, lost, ticket_step, new_ticket, on_send, on_wake, on_answer, update,
}

-- Where a call stands in the dictionary `_pending`.
abbrev pub tracked : Option String → Option Call → Bool
tracked none none = true
tracked none (some c) = is_finished c.phase || elim c.future [ none ↦ false | some _ ↦ true ]
tracked (some a) none = false
tracked (some a) (some c) = not (is_finished c.phase) && c.agent == a

pub record IsTracked (s : Rpc) : Type 0 where
  pub nodup : NodupKeys s.pending
  pub at : (rid : String) → tracked (Dict.lookup rid s.pending) (Dict.lookup rid s.calls) ≡ true

lookup-change {ℓ} :
    {V : Type ℓ} (j k : String) (f : V → V) (d : Dict String V)
    → Dict.lookup j (change k f d)
      ≡ (if j == k then update f (Dict.lookup k d) else Dict.lookup j d)
unfolding change update
lookup-change j k f d = elim (Option-cases (Dict.lookup k d)) [
  | inl missing ↦ ground (arith, missing)
  | inr (v, found) ↦ ground (arith, found, Dict.lookup-insert j k (f v) d)
]

-- What a step leaves at an id, of both dictionaries.
abbrev pub Entry : Type 0
Entry = Option String × Option Call

abbrev pub entry : String → Rpc → Entry
entry rid s = (Dict.lookup rid s.pending, Dict.lookup rid s.calls)

abbrev pub is_tracked : Entry → Bool
is_tracked (p, c) = tracked p c

unfoldable pub finished_entry : Outcome → Entry → Entry
finished_entry outcome (p, c) = (none, update (λ c. record c { phase = finished outcome }) c)

pub entry-finish :
    (j rid : String) (outcome : Outcome) (s : Rpc)
    → entry j (finish rid outcome s)
      ≡ (if j == rid then finished_entry outcome (entry rid s) else entry j s)
unfolding finish finished_entry
entry-finish j rid outcome s = ground (
  arith,
  Dict.lookup-erase j rid s.pending,
  lookup-change j rid (λ (c : Call). record c { phase = finished outcome }) s.calls,
)

-- A step at an id agrees with the ticket there, and keeps the two dictionaries in step.
abbrev pub Follows : Option Call → Entry → Type 0
Follows c out = (out.1 ≡ c) × (is_tracked out ≡ true)

module _ (s : Rpc) (t : IsTracked s) (j : String) where
  pub entry-begin_call :
      (connected : Bool) (rid agent : String)
      → Follows
          (ticket_step j (began connected rid agent) (Dict.lookup j s.calls))
          (entry j (begin_call connected rid agent s))
  unfolding begin_call new_ticket lock_for is_finished finished_entry update
  entry-begin_call true rid agent =
      let c : Call = record { agent = agent; phase = sending; future = none } in
      ground (
        arith,
        t.at j,
        Dict.lookup-insert j rid agent s.pending,
        Dict.lookup-insert j rid c s.calls,
      )
  entry-begin_call false rid agent =
      let c : Call = record { agent = agent; phase = sending; future = none } in
      let entered : Rpc = record s {
        pending = Dict.insert rid agent s.pending;
        calls = Dict.insert rid c s.calls;
      } in
      ground (
        arith,
        t.at j,
        Dict.lookup-insert j rid agent s.pending,
        Dict.lookup-insert j rid c s.calls,
        Dict.lookup-insert rid rid c s.calls,
        entry-finish j rid agent_not_connected entered,
      )

  pub entry-after_send :
      (ok : Bool) (rid : String)
      → Follows
          (ticket_step j (sent ok rid) (Dict.lookup j s.calls))
          (entry j (after_send ok rid s))
  unfolding after_send on_send is_finished finished_entry update
  entry-after_send ok rid = elim (Option-cases (Dict.lookup rid s.calls)) [
    | inl missing ↦ ground (arith, t.at j, missing)
    | inr (c, found) ↦ ground (
      arith,
      t.at j,
      found,
      Dict.lookup-insert j rid (record c { phase = waiting }) s.calls,
      entry-finish j rid agent_not_connected s,
    )
  ]

  pub entry-wake :
      (timed_out : Bool) (rid : String)
      → Follows
          (ticket_step j (woken timed_out rid) (Dict.lookup j s.calls))
          (entry j (wake timed_out rid s))
  unfolding wake on_wake outcome_at is_finished finished_entry update
  entry-wake timed_out rid = elim (Option-cases (Dict.lookup rid s.calls)) [
    | inl missing ↦ ground (arith, t.at j, missing)
    | inr (c, found) ↦ elim (Option-cases (outcome_at timed_out c.future)) [
      | inl still ↦ ground (arith, t.at j, found, still)
      | inr (outcome, over) ↦ ground (arith, t.at j, found, over, entry-finish j rid outcome s)
    ]
  ]

  pub entry-resolve :
      (rid : String) (p : Payload)
      → Follows (ticket_step j (answered rid p) (Dict.lookup j s.calls)) (entry j (resolve rid p s))
  unfolding resolve on_answer set_once is_finished update
  entry-resolve rid p = elim (Option-cases (Dict.lookup rid s.pending)) [
    | inl missing ↦ ground (arith, t.at j, t.at rid, missing)
    | inr (a, found) ↦
        ground (arith, t.at j, t.at rid, found, lookup-change j rid (set_once (payload p)) s.calls)
  ]

pub contains-ids_of_agent :
    (agent j : String) (d : Dict String String)
    → NodupKeys d
    → contains (ids_of_agent agent d) j
      ≡ elim (Dict.lookup j d) [ none ↦ false | some a ↦ a == agent ]
unfolding ids_of_agent
contains-ids_of_agent agent j [] u = rw (Dict.lookup-nil j) refl
contains-ids_of_agent agent j ((rid, a) ∷ d) (fresh, u) =
    ground (arith, contains-ids_of_agent agent j d u, Dict.lookup-cons j rid a d, fresh)

unfoldable pub cancelled_entry : Entry → Entry
cancelled_entry (p, c) = (none, update (set_once disconnected) c)

set_once-set_once : (a : Answer) (c : Call) → set_once a (set_once a c) ≡ set_once a c
unfolding set_once
set_once-set_once a c = ground arith

pub entry-cancel_calls :
    (j : String) (ids : List String) (s : Rpc)
    → entry j (cancel_calls ids s)
      ≡ (if contains ids j then cancelled_entry (entry j s) else entry j s)
unfolding cancel_calls cancelled_entry update
entry-cancel_calls j [] s = refl
entry-cancel_calls j (rid ∷ rest) s = elim (Option-cases (Dict.lookup j s.calls)) [
  | inl missing ↦ ground (
    arith,
    missing,
    entry-cancel_calls j rest next,
    Dict.lookup-erase j rid s.pending,
    lookup-change j rid (set_once disconnected) s.calls,
  )
  | inr (c, found) ↦ ground (
    arith,
    found,
    entry-cancel_calls j rest next,
    Dict.lookup-erase j rid s.pending,
    lookup-change j rid (set_once disconnected) s.calls,
    set_once-set_once disconnected c,
  )
]
  where
    next : Rpc
    next = record s {
      pending = Dict.erase rid s.pending;
      calls = change rid (set_once disconnected) s.calls;
    }

pub entry-cancel_streams :
    (j error : String) (ids : List String) (s : Rpc)
    → entry j (cancel_streams error ids s) ≡ entry j s
unfolding cancel_streams
entry-cancel_streams j error [] s = refl
entry-cancel_streams j error (rid ∷ rest) s = rw (entry-cancel_streams j error rest _) refl

module _ (s : Rpc) (t : IsTracked s) (j : String) where
  pub entry-cancel_for_agent :
      (error agent : String)
      → Follows
          (ticket_step j (lost error agent) (Dict.lookup j s.calls))
          (entry j (cancel_for_agent error agent s))
  unfolding cancel_for_agent on_answer set_once is_finished cancelled_entry update
  entry-cancel_for_agent error agent =
      let ids = ids_of_agent agent s.pending in
      let gone = cancel_calls ids s in
      ground (
        arith,
        t.at j,
        contains-ids_of_agent agent j s.pending t.nodup,
        entry-cancel_calls j ids s,
        entry-cancel_streams j error (ids_of_agent agent gone.streams) gone,
      )
