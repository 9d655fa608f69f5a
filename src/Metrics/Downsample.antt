-- ===== src/Metrics/Downsample.antt =====
-- `downsample_metrics`: which buckets a call works on, and how far the scan moves for each agent.
use glassops.Prelude.{
  ℕ, zero, suc, ◌+◌, ◌-◌, ◌*◌, ◌/◌, String, Bool, true, false, not, ◌&&◌, ◌||◌, Option, none, some,
  List, [], ◌∷◌, ◌++◌, ltb, leb, if◌then◌else◌, ◌==◌, contains, keep, take, max, min, nat_eq,
  string_eq,
}
use glassops.Prelude.Dict
use glassops.Prelude.Dict.{Dict, keys}
use glassops.Metrics.Tables.{
  Fold, BucketKey, ProgressKey, has, by_id, covered_at, second, bucket_key_eq, coverage_key_eq,
  progress_key_eq,
}
use glassops.Prelude.Sorting.{order_by}
use glassops.Metrics.Cleanup.{ids_of}
use glassops.Metrics.Advance.{Db, Row, advance_bucket}

-- `_require_resolution`: whether the pair is one of `_AGG_SPECS`.
unfoldable pub is_supported : ℕ → String → Bool
is_supported seconds label = (label == "1m" && seconds == 60) || (label == "5m" && seconds == 300)

-- `MIN` of the numbers, `none` where there are none.
unfoldable pub least : List ℕ → Option ℕ
least [] = none
least (i ∷ is) = elim (least is) [ none ↦ some i | some j ↦ some (min i j) ]

unfoldable pub greatest : List ℕ → ℕ
greatest [] = 0
greatest (i ∷ is) = max i (greatest is)

unfoldable pub listed : Option ℕ → List ℕ
listed none = []
listed (some i) = i ∷ []

unfoldable pub raised : Option ℕ → ℕ → ℕ
raised none advanced = advanced
raised (some last_raw_id) advanced = max last_raw_id advanced

unfoldable pub count_of : Bool → ℕ
count_of true = 1
count_of false = 0

-- The sum, where neither loop raised.
unfoldable pub added : Option ℕ → Option ℕ → Option ℕ
added (some m) (some n) = some (m + n)
added (some m) none = none
added none n = none

-- How SQLite orders the texts of agent ids.
module _ (F : Fold) (text_before : String → String → Bool) (resolution_seconds : ℕ)
    (label : String) where
  -- `ORDER BY bucket_ts, agent_id`
  unfoldable pub by_bucket : BucketKey → BucketKey → Bool
  by_bucket j k =
      ltb j.bucket_ts k.bucket_ts
      || (j.bucket_ts == k.bucket_ts && text_before j.agent_id k.agent_id)

  -- The buckets in flight, that come first.
  unfoldable pub in_flight : ℕ → Db F → List BucketKey
  in_flight budget t =
      take budget
        (order_by by_bucket (keep (λ (k : BucketKey). k.resolution == label) (keys t.partials)))

  -- One loop over buckets: the budget left, the summaries published, `none` where a call raised, the
  -- buckets visited and the tables. A call uses at most its budget, so the budget left does not stop at 0 early.
  unfoldable pub advance_each :
      ℕ → List BucketKey → ℕ → Db F → (ℕ × Option ℕ) × (List BucketKey × Db F)
  advance_each cutover [] budget t = ((budget, some 0), ([], t))
  advance_each cutover (k ∷ ks) zero t = ((0, some 0), ([], t))
  advance_each cutover (k ∷ ks) (suc b) t =
      let ((used, published), t') = advance_bucket F k resolution_seconds cutover (suc b) t in
      elim published [
        | none ↦ ((0, none), ([], t'))
        | some fresh ↦
            let ((left, count), (visited, t'')) = advance_each cutover ks (suc b - used) t' in
            ((left, added (some (count_of fresh)) count), (k ∷ visited, t''))
      ]

  unfoldable pub progress_key : String → ProgressKey
  progress_key agent_id = record { agent_id = agent_id; resolution = label }

  -- `COALESCE(p.last_raw_id, cutover)`
  unfoldable pub scan_floor : ℕ → String → Db F → ℕ
  scan_floor cutover agent_id t = elim (Dict.lookup (progress_key agent_id) t.progress) [
    | none ↦ cutover
    | some last_raw_id ↦ last_raw_id
  ]

  unfoldable pub is_decided : Db F → Row F → Bool
  is_decided t r = has (covered_at label r) t.coverage

  unfoldable pub is_candidate : ℕ → ℕ → Db F → Row F → Bool
  is_candidate cutover due_cutoff t r =
      ltb cutover r.id
      && ltb (scan_floor cutover r.agent_id t) r.id
      && ltb r.timestamp due_cutoff
      && not (is_decided t r)

  unfoldable pub candidates : ℕ → ℕ → ℕ → Db F → List (Row F)
  candidates cutover due_cutoff budget t =
      take budget (order_by by_id (keep (is_candidate cutover due_cutoff t) t.metrics))

  unfoldable pub bucket_of : Row F → BucketKey
  bucket_of r = record {
    agent_id = r.agent_id;
    resolution = label;
    bucket_ts = r.timestamp / (resolution_seconds * second) * (resolution_seconds * second);
  }

  -- The buckets of the candidates, by their least id: the candidates stand in the order of their
  -- ids, so a bucket stands where its first row does.
  unfoldable pub buckets_of : List (Row F) → List BucketKey
  buckets_of [] = []
  buckets_of (r ∷ rs) = bucket_of r ∷ keep (λ k. not (k == bucket_of r)) (buckets_of rs)

  unfoldable pub agents_of : List (Row F) → List String
  agents_of [] = []
  agents_of (r ∷ rs) = r.agent_id ∷ keep (λ a. not (a == r.agent_id)) (agents_of rs)

  unfoldable pub of_agent : String → Row F → Bool
  of_agent agent_id r = r.agent_id == agent_id

  -- The candidates of the agent that are still undecided.
  unfoldable pub unsettled : String → List (Row F) → Db F → List ℕ
  unsettled agent_id rows t =
      ids_of (keep (λ (r : Row F). of_agent agent_id r && not (is_decided t r)) rows)

  -- The least row of the agent that is not due.
  unfoldable pub held : ℕ → ℕ → String → Db F → Option ℕ
  held cutover due_cutoff agent_id t = least (
      ids_of (
        keep (λ (r : Row F). of_agent agent_id r && ltb cutover r.id && leb due_cutoff r.timestamp)
          t.metrics))

  unfoldable pub advanced_to : ℕ → ℕ → String → List (Row F) → Db F → ℕ
  advanced_to cutover due_cutoff agent_id rows t =
      elim (least (unsettled agent_id rows t ++ listed (held cutover due_cutoff agent_id t))) [
        | none ↦ greatest (ids_of (keep (of_agent agent_id) rows))
        | some floor ↦ floor - 1
      ]

  -- The upsert with `MAX(last_raw_id, excluded.last_raw_id)`.
  unfoldable pub raise_progress : String → ℕ → Db F → Db F
  raise_progress agent_id advanced t = record t {
    progress =
        Dict.insert (progress_key agent_id)
          (raised (Dict.lookup (progress_key agent_id) t.progress) advanced) t.progress;
  }

  unfoldable pub settle_agent : ℕ → ℕ → List (Row F) → String → Db F → Db F
  settle_agent cutover due_cutoff rows agent_id t =
      let advanced = advanced_to cutover due_cutoff agent_id rows t in
      if leb advanced cutover then t else raise_progress agent_id advanced t

  unfoldable pub settle_agents : ℕ → ℕ → List (Row F) → List String → Db F → Db F
  settle_agents cutover due_cutoff rows [] t = t
  settle_agents cutover due_cutoff rows (a ∷ agents) t =
      settle_agents cutover due_cutoff rows agents (settle_agent cutover due_cutoff rows a t)

  -- `due_cutoff`: the start of the bucket that is open now.
  unfoldable pub due_cutoff_at : ℕ → ℕ
  due_cutoff_at now = now / (resolution_seconds * second) * (resolution_seconds * second)

  -- The transaction before its end; a first count of `none` is undone by it.
  unfoldable pub downsample_from : ℕ → ℕ → ℕ → Db F → Option ℕ × Db F
  downsample_from cutover due_cutoff budget t =
      let ((left, finished), (visited, t')) = advance_each cutover (in_flight budget t) budget t in
      let rows = candidates cutover due_cutoff left t' in
      let fresh = keep (λ k. not (contains visited k)) (buckets_of rows) in
      let (counts, (_, t'')) = advance_each cutover fresh left t' in
      (added finished counts.1, settle_agents cutover due_cutoff rows (agents_of rows) t'')

  -- `downsample_metrics`: how many summaries were published, and the tables. `none` is
  -- `InvalidAggregationResolution`, or what a sample raises; the tables are then as they were.
  unfoldable pub downsample_metrics : ℕ → ℕ → Db F → Option (ℕ × Db F)
  downsample_metrics now batch_limit t =
      if is_supported resolution_seconds label
      then elim t.cutover [
        | none ↦ some (0, t)
        | some cutover ↦
            let (count, t') = downsample_from cutover (due_cutoff_at now) (max 1 batch_limit) t in
            elim count [ none ↦ none | some published ↦ some (published, t') ]
      ]
      else none
