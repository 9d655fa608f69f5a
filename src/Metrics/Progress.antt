-- ===== src/Metrics/Progress.antt =====
-- Settling the progress floor of an agent, row by row.
use glassops.Prelude.{
  ℕ, ◌≡◌, ap, sym, String, Bool, true, not, ◌&&◌, ◌||◌, List, [], ◌∷◌, ◌++◌, arith, ltb, leb, ◌==◌,
  contains, keep, All, nat_eq, string_eq,
}
use glassops.Prelude.Dict.{lookup, lookup-insert}
use glassops.Metrics.Tables.{
  Fold, ProgressKey, by_id, bucket_key_eq, coverage_key_eq, progress_key_eq,
}
use glassops.Prelude.Sorting.{order_by}
use glassops.Metrics.Cleanup.{ids_of}
use glassops.Prelude.{keep_and}
use glassops.Metrics.Advance.{Db, Row}
use glassops.Metrics.Downsample.{
  least, listed, progress_key, scan_floor, is_decided, is_candidate, of_agent, unsettled, held,
  advanced_to, raise_progress, settle_agent, settle_agents, raised,
}
use glassops.Metrics.Minimum.{
  reaches, reaches-append, reaches-least, reaches-listed, kept_listed, contains-keep_order,
}

module _ (F : Fold) (text_before : String → String → Bool) (resolution_seconds : ℕ)
    (label : String) where
  key : String → ProgressKey
  key a = progress_key F text_before resolution_seconds label a

  key_same : (a b : String) → (key a == key b) ≡ (a == b)
  unfolding key progress_key
  key_same a b =
      let agent : key a ≡ key b → a ≡ b = λ q. ap (λ (k : ProgressKey). k.agent_id) q in
      let same : a ≡ b → key a ≡ key b = λ q. ap key q in ground (arith, agent, same)

  -- A row that the scan will not look at again is decided.
  abbrev pub Settled : ℕ → Db F → Row F → Type 0
  Settled cutover t r =
      (leb r.id cutover
        || ltb (scan_floor F text_before resolution_seconds label cutover r.agent_id t) r.id
        || is_decided F text_before resolution_seconds label t r)
      ≡ true

  module _ (cutover due_cutoff : ℕ) (rows : List (Row F)) where
    abbrev floor_of : String → Db F → ℕ
    floor_of a t = scan_floor F text_before resolution_seconds label cutover a t

    abbrev pub decided : Db F → Row F → Bool
    decided t r = is_decided F text_before resolution_seconds label t r

    abbrev advance_to : String → Db F → ℕ
    advance_to a t = advanced_to F text_before resolution_seconds label cutover due_cutoff a rows t

    abbrev pub IsSettled : Db F → Row F → Type 0
    IsSettled t r = Settled cutover t r

    abbrev pub Passes : String → Db F → Row F → Type 0
    Passes a t r =
        (not (r.agent_id == a) || leb r.id cutover || ltb (advance_to a t) r.id || decided t r)
        ≡ true

    raise_below :
        (a b : String) (v i : ℕ) (t : Db F)
        → ltb (floor_of b t) i ≡ true
        → (not (b == a) || ltb v i) ≡ true
        → ltb (floor_of b (raise_progress F text_before resolution_seconds label a v t)) i ≡ true
    unfolding raise_progress scan_floor raised key
    raise_below a b v i t low h = ground (
      arith,
      low,
      h,
      key_same b a,
      ap (λ (k : ProgressKey). lookup k t.progress),
      lookup-insert (key b) (key a) (raised (lookup (key a) t.progress) v) t.progress,
    )

    settle_one :
        (a : String) (t : Db F) (r : Row F)
        → IsSettled t r
        → Passes a t r
        → IsSettled
            (settle_agent F text_before resolution_seconds label cutover due_cutoff rows a t)
            r
    unfolding settle_agent is_decided raise_progress
    settle_one a t r s p = ground (arith, s, p, raise_below a r.agent_id (advance_to a t) r.id t)

    advance_below :
        (a : String) (i : ℕ) (t : Db F)
        → ltb cutover i ≡ true
        → reaches
            (least (
              unsettled F text_before resolution_seconds label a rows t
              ++ listed (held F text_before resolution_seconds label cutover due_cutoff a t)))
            i
          ≡ true
        → ltb (advance_to a t) i ≡ true
    unfolding advanced_to reaches
    advance_below a i t low h = ground (arith, low, h)

    abbrev pub candidate : Db F → Row F → Bool
    candidate t r = is_candidate F text_before resolution_seconds label cutover due_cutoff t r

    abbrev open_row : String → Db F → Row F → Bool
    open_row a t r = of_agent F text_before resolution_seconds label a r && not (decided t r)

    abbrev pub held_row : String → Row F → Bool
    held_row a r =
        of_agent F text_before resolution_seconds label a r
        && ltb cutover r.id
        && leb due_cutoff r.timestamp

    -- One row, between the fetch of the candidates in `t` and the settling in `t'`.
    pass_one :
        (a : String) (t t' : Db F) (r : Row F)
        → IsSettled t r
        → (decided t r ≡ true → decided t' r ≡ true)
        → (not (candidate t r && open_row a t' r)
            || contains (unsettled F text_before resolution_seconds label a rows t') r.id)
          ≡ true
        → (not (held_row a r) || contains (ids_of (keep (held_row a) t'.metrics)) r.id) ≡ true
        → Passes a t' r
    unfolding is_candidate of_agent held
    pass_one a t t' r s grows fetched waits =
        let us = unsettled F text_before resolution_seconds label a rows t' in
        let hs = ids_of (keep (held_row a) t'.metrics) in
        ground (
          arith,
          s,
          grows,
          fetched,
          waits,
          reaches-append us (listed (least hs)) r.id,
          reaches-least hs r.id,
          reaches-listed us (least hs) r.id,
          advance_below a r.id t',
        )

    abbrev pub Fetched : String → Db F → Db F → Row F → Type 0
    Fetched a t t' r =
        (not (candidate t r && open_row a t' r)
          || contains (unsettled F text_before resolution_seconds label a rows t') r.id)
        ≡ true

    pub Fetched-each :
        (a : String) (t t' : Db F) (ms : List (Row F))
        → rows ≡ order_by by_id (keep (candidate t) ms)
        → All (Fetched a t t') ms
    unfolding unsettled
    Fetched-each a t t' ms e =
        each ms (kept_listed (λ (r : Row F). candidate t r && open_row a t' r) ms)
      where
        same :
            (i : ℕ)
            → contains (ids_of (keep (λ (r : Row F). candidate t r && open_row a t' r) ms)) i
              ≡ contains (unsettled F text_before resolution_seconds label a rows t') i
        same i =
            rw (e, keep_and (candidate t) (open_row a t') ms)
              (sym (contains-keep_order (open_row a t') by_id (keep (candidate t) ms) i))

        each :
            (xs : List (Row F))
            → All
                (λ (r : Row F).
                  (not (candidate t r && open_row a t' r)
                    || contains
                        (ids_of (keep (λ (r : Row F). candidate t r && open_row a t' r) ms))
                        r.id)
                  ≡ true)
                xs
            → All (Fetched a t t') xs
        each [] h = tt
        each (x ∷ xs) h = (ground (arith, same x.id, h.0), each xs h.1)

    pub Passes-each :
        (a : String) (t t' : Db F)
        → ((r : Row F) → decided t r ≡ true → decided t' r ≡ true)
        → (xs : List (Row F)) → All (IsSettled t) xs
        → All (Fetched a t t') xs
        → All
            (λ (r : Row F).
              (not (held_row a r) || contains (ids_of (keep (held_row a) t'.metrics)) r.id) ≡ true)
            xs
        → All (Passes a t') xs
    Passes-each a t t' grows [] s f w = tt
    Passes-each a t t' grows (x ∷ xs) s f w =
        (pass_one a t t' x s.0 (grows x) f.0 w.0, Passes-each a t t' grows xs s.1 f.1 w.1)

    settled_state : String → Db F → Db F
    settled_state a t =
        settle_agent F text_before resolution_seconds label cutover due_cutoff rows a t

    settle-keeps :
        (a b : String) (t : Db F) (xs : List (Row F))
        → All (Passes b t) xs
        → All (Passes b (settled_state a t)) xs
    unfolding settled_state settle_agent raise_progress advanced_to unsettled held is_decided
    settle-keeps a b t [] h = tt
    settle-keeps a b t (x ∷ xs) h = (ground (arith, h.0), settle-keeps a b t xs h.1)

    settle_rows :
        (a : String) (t : Db F) (xs : List (Row F))
        → All (IsSettled t) xs
        → All (Passes a t) xs
        → All (IsSettled (settled_state a t)) xs
    unfolding settled_state
    settle_rows a t [] s p = tt
    settle_rows a t (x ∷ xs) s p = (settle_one a t x s.0 p.0, settle_rows a t xs s.1 p.1)

    pub settle_agents-IsSettled :
        (agents : List String) (t : Db F) (xs : List (Row F))
        → All (IsSettled t) xs
        → ((a : String) → All (Passes a t) xs)
        → All
            (IsSettled (
              settle_agents F text_before resolution_seconds label cutover due_cutoff rows agents
                t))
            xs
    unfolding settle_agents settled_state
    settle_agents-IsSettled [] t xs s p = s
    settle_agents-IsSettled (a ∷ agents) t xs s p =
        settle_agents-IsSettled agents (settled_state a t) xs (settle_rows a t xs s (p a))
          (λ b. settle-keeps a b t xs (p b))
