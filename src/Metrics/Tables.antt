-- ===== src/Metrics/Tables.antt =====
-- The tables of the metric store, as `init_db` declares them: a table with a primary key is a
-- dictionary of it. Times are whole microseconds, and so are the starts of buckets.
use glassops.Prelude.{
  ℕ, ◌+◌, String, Bool, true, false, ◌&&◌, ◌||◌, Option, none, some, List, [], ◌∷◌, ltb, leb, Eq,
  string_eq, ◌==◌, max, nat_eq,
}
use native.Mathlib.Decide.{ℕ_discrete}
use glassops.Prelude.Dict
use glassops.Prelude.Dict.{Dict}

abbrev pub second : ℕ
second = 1_000_000

-- What `_average_metrics` and the incremental aggregation share: an accumulator, how one sample goes
-- in, `none` where that raises an error that `_agg_add` does not take, and how one summary comes out.
-- `reload` is what an accumulator is after json.dumps and json.loads: keys that are no texts become
-- texts.
pub record Fold : Type 1 where
  pub Sample : Type 0
  pub State : Type 0
  pub Summary : Type 0
  pub agg_new : State
  pub agg_add : State → Sample → Option State
  pub reload : State → State
  pub agg_finalize : State → Option Summary

-- metrics
pub record RawRow (D : Type 0) : Type 0 where
  pub id : ℕ
  pub agent_id : String
  pub timestamp : ℕ
  pub sample : D

-- The key (agent_id, resolution, bucket_ts) of three tables.
pub record BucketKey : Type 0 where
  pub agent_id : String
  pub resolution : String
  pub bucket_ts : ℕ

-- The key (raw_id, resolution) of metric_agg_coverage.
pub record CoverageKey : Type 0 where
  pub raw_id : ℕ
  pub resolution : String

-- The key (agent_id, resolution) of metric_agg_progress.
pub record ProgressKey : Type 0 where
  pub agent_id : String
  pub resolution : String

string_discrete : Discrete String
unfolding string_eq
string_discrete = string_eq.dec

BucketKey-discrete : Discrete BucketKey
unfolding string_discrete
BucketKey-discrete = hlevel (ℕ_discrete, string_discrete)

CoverageKey-discrete : Discrete CoverageKey
unfolding string_discrete
CoverageKey-discrete = hlevel (ℕ_discrete, string_discrete)

ProgressKey-discrete : Discrete ProgressKey
unfolding string_discrete
ProgressKey-discrete = hlevel string_discrete

instance unfoldable pub progress_key_eq : Eq ProgressKey
unfolding ProgressKey-discrete
progress_key_eq = record { dec = ProgressKey-discrete }

instance unfoldable pub bucket_key_eq : Eq BucketKey
unfolding BucketKey-discrete
bucket_key_eq = record { dec = BucketKey-discrete }

instance unfoldable pub coverage_key_eq : Eq CoverageKey
unfolding CoverageKey-discrete
coverage_key_eq = record { dec = CoverageKey-discrete }

pub data CoverageState : Type 0 where
  folded : CoverageState
  pending : CoverageState

pub record Coverage : Type 0 where
  pub agent_id : String
  pub bucket_ts : ℕ
  pub state : CoverageState

pub data BucketState : Type 0 where
  open_bucket : BucketState
  sealed : BucketState

unfoldable pub is_folded : CoverageState → Bool
is_folded folded = true
is_folded pending = false

unfoldable pub is_open : BucketState → Bool
is_open open_bucket = true
is_open sealed = false

pub record Bucket : Type 0 where
  pub state : BucketState
  pub published_gen : ℕ

-- `(timestamp, id)` of the last folded row. `none` is `(lo - 1.0, 0)`, before every row.
abbrev pub Cursor : Type 0
Cursor = Option (ℕ × ℕ)

-- `n` is the accumulator's own count, and stands in `acc`.
pub record Partial (A : Type 0) : Type 0 where
  pub cursor : Cursor
  pub through_raw_id : ℕ
  pub acc : A

-- `last_id` is the AUTOINCREMENT sequence of metrics, `cutover` the runtime_config marker.
pub record Tables (D A S : Type 0) : Type 0 where
  pub metrics : List (RawRow D)
  pub last_id : ℕ
  pub downsampled : Dict BucketKey S
  pub coverage : Dict CoverageKey Coverage
  pub bucket : Dict BucketKey Bucket
  pub partials : Dict BucketKey (Partial A)
  pub progress : Dict ProgressKey ℕ
  pub cutover : Option ℕ

-- Whether a table has a row of the key.
unfoldable pub has {ℓ κ} : {K : Type ℓ} {V : Type κ} ⦃e : Eq K⦄ → K → Dict K V → Bool
has k d = elim (Dict.lookup k d) [ none ↦ false | some _ ↦ true ]

module _ {D : Type 0} where
  unfoldable pub by_id : RawRow D → RawRow D → Bool
  by_id r s = ltb r.id s.id

  -- `ORDER BY timestamp, id`
  unfoldable pub by_time : RawRow D → RawRow D → Bool
  by_time r s = ltb r.timestamp s.timestamp || (r.timestamp == s.timestamp && ltb r.id s.id)

  -- `timestamp > ? OR (timestamp = ? AND id > ?)`
  unfoldable pub after : Cursor → RawRow D → Bool
  after none r = true
  after (some (ts, id)) r = ltb ts r.timestamp || (ts == r.timestamp && ltb id r.id)

  -- `agent_id = ? AND timestamp >= ? AND timestamp < ?`
  unfoldable pub in_bucket : BucketKey → ℕ → RawRow D → Bool
  in_bucket k hi r = r.agent_id == k.agent_id && leb k.bucket_ts r.timestamp && ltb r.timestamp hi

  -- `MAX(id)`, 0 where there is no row.
  unfoldable pub max_id : List (RawRow D) → ℕ
  max_id [] = 0
  max_id (r ∷ rs) = max r.id (max_id rs)

  unfoldable pub covered_at : String → RawRow D → CoverageKey
  covered_at resolution r = record { raw_id = r.id; resolution = resolution }

module _ {D A S : Type 0} where
  -- `store_metric`: the row gets the next id.
  unfoldable pub store_metric : String → ℕ → D → Tables D A S → ℕ × Tables D A S
  store_metric agent_id timestamp sample t = (
    t.last_id + 1,
    record t {
      metrics =
          record { id = t.last_id + 1; agent_id = agent_id; timestamp = timestamp; sample = sample }
          ∷ t.metrics;
      last_id = t.last_id + 1;
    },
  )
