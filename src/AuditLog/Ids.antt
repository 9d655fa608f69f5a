-- ===== src/AuditLog/Ids.antt =====
-- The ids of the events, through any writes and cleanups.
use glassops.Prelude.{
  ℕ, ◌+◌, ◌≤◌, ◌<◌, ◌≡◌, String, Bool, none, List, [], ◌∷◌, ◌++◌, arith, keep, length, All,
  All-append, Bool-cases, inl, inr,
}
use glassops.Prelude.Sorting.{order_by, Distinct, keep-Distinct}
use glassops.Ingest.{CleanEvent, CleanRollup}
use glassops.AuditLog.{
  EventRow, AuditTables, Filters, matches, newest_first, insert_events, insert_rollups,
  store_net_audit, is_current, cleanup_net_audit,
}
use glassops.AuditLog.Paging.{id_of, pages, pages_complete}

-- A write of the ingest, or the hourly cleanup.
pub data Op : Type 0 where
  store : String → List CleanEvent → List CleanRollup → Op
  clean : ℕ → ℕ → ℕ → Op

abbrev pub step : Op → AuditTables → AuditTables
step (store agent es rs) t = store_net_audit agent es rs t
step (clean now event_days rollup_days) t = (cleanup_net_audit now event_days rollup_days t).1

abbrev pub run : List Op → AuditTables → AuditTables
run [] t = t
run (op ∷ ops) t = run ops (step op t)

abbrev pub no_rows : AuditTables
no_rows = record { next_id = 1; events = []; rollups = [] }

-- No id was given twice, and none is left to be given again.
record HasFreshIds (t : AuditTables) : Type 0 where
  pub below : All (λ (r : EventRow). r.id < t.next_id) t.events
  pub distinct : Distinct id_of t.events

Distinct-append :
    (xs : List EventRow) (r : EventRow)
    → Distinct id_of xs
    → All (λ (x : EventRow). x.id < r.id) xs
    → Distinct id_of (xs ++ (r ∷ []))
Distinct-append [] r u h = (tt, tt)
Distinct-append (x ∷ xs) r u h =
    (All-append _ xs (r ∷ []) u.0 (omega (arith, h.0), tt), Distinct-append xs r u.1 h.1)

All-below :
    (n k : ℕ) (xs : List EventRow)
    → n ≤ k
    → All (λ (x : EventRow). x.id < n) xs
    → All (λ (x : EventRow). x.id < k) xs
All-below n k [] le h = tt
All-below n k (x ∷ xs) le h = (omega (arith, h.0), All-below n k xs le h.1)

All-keep_below :
    (n : ℕ) (p : EventRow → Bool) (xs : List EventRow)
    → All (λ (x : EventRow). x.id < n) xs
    → All (λ (x : EventRow). x.id < n) (keep p xs)
All-keep_below n p [] h = tt
All-keep_below n p (x ∷ xs) h = elim (Bool-cases (p x)) [
  | inl kept ↦ rw kept (h.0, All-keep_below n p xs h.1)
  | inr out ↦ rw out (All-keep_below n p xs h.1)
]

insert_events-HasFreshIds :
    (agent : String) (es : List CleanEvent) (t : AuditTables)
    → HasFreshIds t
    → HasFreshIds (insert_events agent es t)
unfolding insert_events
insert_events-HasFreshIds agent [] t h = h
insert_events-HasFreshIds agent (e ∷ es) t h =
    let r : EventRow = record { id = t.next_id; agent_id = agent; entry = e } in
    insert_events-HasFreshIds agent es
      (record t { next_id = t.next_id + 1; events = t.events ++ (r ∷ []) })
      (record {
        below =
            All-append _ t.events (r ∷ [])
              (All-below t.next_id (t.next_id + 1) t.events (omega arith) h.below)
              (omega arith, tt);
        distinct = Distinct-append t.events r h.distinct h.below;
      })

insert_rollups-HasFreshIds :
    (agent : String) (rs : List CleanRollup) (t : AuditTables)
    → HasFreshIds t
    → HasFreshIds (insert_rollups agent rs t)
unfolding insert_rollups
insert_rollups-HasFreshIds agent [] t h = h
insert_rollups-HasFreshIds agent (r ∷ rs) t h =
    insert_rollups-HasFreshIds agent rs _ (record { below = h.below; distinct = h.distinct })

step-HasFreshIds : (op : Op) (t : AuditTables) → HasFreshIds t → HasFreshIds (step op t)
unfolding store_net_audit cleanup_net_audit
step-HasFreshIds (store agent es rs) t h =
    insert_rollups-HasFreshIds agent rs (insert_events agent es t)
      (insert_events-HasFreshIds agent es t h)
step-HasFreshIds (clean now event_days rollup_days) t h = record {
  below = All-keep_below t.next_id (λ r. is_current now event_days r.entry.ts) t.events h.below;
  distinct = keep-Distinct id_of (λ r. is_current now event_days r.entry.ts) t.events h.distinct;
}

run-HasFreshIds : (ops : List Op) (t : AuditTables) → HasFreshIds t → HasFreshIds (run ops t)
run-HasFreshIds [] t h = h
run-HasFreshIds (op ∷ ops) t h = run-HasFreshIds ops (step op t) (step-HasFreshIds op t h)

abbrev pub found : Filters → AuditTables → List EventRow
found q t = order_by newest_first (keep (matches q) t.events)

-- After any writes and cleanups of an empty table, a client that starts without a cursor and asks
-- for each next page by the time and id of the last row that it has, whatever length of page it
-- asks for, reads the rows that match its filters once each, the newest first, also where many rows
-- have the same time; it is done after as many rounds as there are such rows and one.
pub pages-run :
    (ops : List Op) (q : Filters) (limit fuel : ℕ)
    → length (found q (run ops no_rows)) < fuel
    → pages fuel q limit none none (run ops no_rows) ≡ found q (run ops no_rows)
pages-run ops q limit fuel enough =
    let t = run ops no_rows in
    let h = run-HasFreshIds ops no_rows (record { below = tt; distinct = tt }) in
    pages_complete q limit fuel t h.distinct enough
