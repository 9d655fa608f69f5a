-- ===== src/Metrics/Floor.antt =====
-- The floor of the scan, across the two loops and the settling of `downsample_metrics`.
use mathlib.Core.Path.{subst}
use glassops.Prelude.{
  ℕ, ◌≤◌, ◌≡◌, refl, sym, ◌∙◌, String, Bool, true, List, [], ◌∷◌, ◌||◌, arith, keep, contains,
  length, All, not, nat_eq, string_eq,
}
use glassops.Metrics.Tables.{
  Fold, by_id, covered_at, bucket_key_eq, coverage_key_eq, progress_key_eq,
}
use glassops.Prelude.Sorting.{order_by}
use glassops.Metrics.Advance.{Db, Row}
use glassops.Metrics.Cleanup.{ids_of}
use glassops.Metrics.Ids.{length-order_by}
use glassops.Metrics.Downsample.{
  in_flight, advance_each, is_decided, is_candidate, candidates, buckets_of, agents_of, scan_floor,
  settle_agent, settle_agents, raise_progress, downsample_from,
}
use glassops.Metrics.Minimum.{kept_listed}
use glassops.Metrics.Progress.{
  Settled, held_row, Fetched-each, Passes-each, settle_agents-IsSettled,
}
use glassops.Metrics.Scan.{Keeps, advance_each-Keeps}
use glassops.Metrics.Publication.{take_all}

module _ (F : Fold) (text_before : String → String → Bool) (resolution_seconds : ℕ)
    (label : String) where
  Settled-Keeps :
      (cutover : ℕ) (t u : Db F) (xs : List (Row F))
      → Keeps F t u
      → All (Settled F text_before resolution_seconds label cutover t) xs
      → All (Settled F text_before resolution_seconds label cutover u) xs
  unfolding scan_floor is_decided
  Settled-Keeps cutover t u [] k h = tt
  Settled-Keeps cutover t u (x ∷ xs) k h =
      (rw k.1 (ground (arith, h.0, k.2 (covered_at label x))), Settled-Keeps cutover t u xs k h.1)

  settle_agents-metrics :
      (cutover due_cutoff : ℕ) (rows : List (Row F)) (agents : List String) (t : Db F)
      → (settle_agents F text_before resolution_seconds label cutover due_cutoff rows agents
          t).metrics
        ≡ t.metrics
  unfolding settle_agents settle_agent raise_progress
  settle_agents-metrics cutover due_cutoff rows [] t = refl
  settle_agents-metrics cutover due_cutoff rows (a ∷ agents) t =
      settle_agents-metrics cutover due_cutoff rows agents
        (settle_agent F text_before resolution_seconds label cutover due_cutoff rows a t)
      ∙ settle_agent-metrics a
    where
      settle_agent-metrics :
          (b : String)
          → (settle_agent F text_before resolution_seconds label cutover due_cutoff rows b
              t).metrics
            ≡ t.metrics
      settle_agent-metrics b = ground arith

  module _ (cutover due_cutoff budget : ℕ) (t : Db F) where
    -- The tables and the budget after the buckets in flight.
    abbrev pub resumed : Db F
    resumed =
        (advance_each F text_before resolution_seconds label cutover
          (in_flight F text_before resolution_seconds label budget t) budget t).1.1

    abbrev pub left : ℕ
    left =
        (advance_each F text_before resolution_seconds label cutover
          (in_flight F text_before resolution_seconds label budget t) budget t).0.0

    abbrev pub waiting : List (Row F)
    waiting =
        keep (is_candidate F text_before resolution_seconds label cutover due_cutoff resumed)
          resumed.metrics

    abbrev rows : List (Row F)
    rows = candidates F text_before resolution_seconds label cutover due_cutoff left resumed

    -- The tables after both loops over buckets.
    abbrev worked : Db F
    worked =
        (advance_each F text_before resolution_seconds label cutover
          (keep
            (λ k. not (
              contains
                (advance_each F text_before resolution_seconds label cutover
                  (in_flight F text_before resolution_seconds label budget t) budget t).1.0
                k))
            (buckets_of F text_before resolution_seconds label rows))
          left resumed).1.1

    resumed-Keeps : Keeps F t resumed
    resumed-Keeps = advance_each-Keeps F resolution_seconds cutover text_before label _ budget t

    worked-Keeps : Keeps F resumed worked
    worked-Keeps = advance_each-Keeps F resolution_seconds cutover text_before label _ left resumed

    rows_all : length waiting ≤ left → rows ≡ order_by by_id waiting
    unfolding candidates
    rows_all fits = take_all left (order_by by_id waiting) (rw (length-order_by by_id waiting) fits)

    decided_stays :
        (u v : Db F)
        → Keeps F u v
        → (r : Row F) → is_decided F text_before resolution_seconds label u r ≡ true
        → is_decided F text_before resolution_seconds label v r ≡ true
    unfolding is_decided
    decided_stays u v k r h = k.2 (covered_at label r) h

    abbrev held_of : String → Row F → Bool
    held_of a = held_row F text_before resolution_seconds label cutover due_cutoff rows a

    listed_held :
        (a : String)
        → All
            (λ (r : Row F).
              (not (held_of a r) || contains (ids_of (keep (held_of a) worked.metrics)) r.id)
              ≡ true)
            resumed.metrics
    listed_held a =
        subst
          (λ xs.
            All
              (λ (r : Row F).
                (not (held_of a r) || contains (ids_of (keep (held_of a) worked.metrics)) r.id)
                ≡ true)
              xs)
          worked-Keeps.0 (kept_listed (held_of a) worked.metrics)

    -- Where the rows below each agent's floor are decided, and the rows that wait fit in the
    -- budget that the buckets in flight leave, the rows below each floor are decided after the
    -- call too: the scan passes no row that is undecided, whether its bucket has closed or not.
    pub downsample-Settled :
        All (Settled F text_before resolution_seconds label cutover t) t.metrics
        → length waiting ≤ left
        → let t' =
            (downsample_from F text_before resolution_seconds label cutover due_cutoff budget
              t).1 in
          (t'.metrics ≡ t.metrics)
          × All (Settled F text_before resolution_seconds label cutover t') t.metrics
    unfolding downsample_from
    downsample-Settled settled fits =
        let ms = resumed.metrics in
        let before : All (Settled F text_before resolution_seconds label cutover resumed) ms =
          subst (λ xs. All (Settled F text_before resolution_seconds label cutover resumed) xs)
            (sym resumed-Keeps.0)
            (Settled-Keeps cutover t resumed t.metrics resumed-Keeps settled) in
        let pass = λ (a : String).
          Passes-each F text_before resolution_seconds label cutover due_cutoff rows a resumed
            worked (decided_stays resumed worked worked-Keeps) ms before
            (Fetched-each F text_before resolution_seconds label cutover due_cutoff rows a resumed
              worked ms (rows_all fits))
            (listed_held a) in
        let after =
          settle_agents-IsSettled F text_before resolution_seconds label cutover due_cutoff rows
            (agents_of F text_before resolution_seconds label rows) worked ms
            (Settled-Keeps cutover resumed worked ms worked-Keeps before) pass in
        (
          settle_agents-metrics cutover due_cutoff rows _ worked ∙ worked-Keeps.0 ∙ resumed-Keeps.0,
          subst
              (λ xs.
                All
                  (Settled F text_before resolution_seconds label cutover
                    (downsample_from F text_before resolution_seconds label cutover due_cutoff
                      budget t).1)
                  xs)
              resumed-Keeps.0 after,
        )
