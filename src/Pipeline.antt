-- ===== src/Pipeline.antt =====
-- src/infra_sentinel/metrics/pipeline.py: the hot window in memory, the flushes of completed buckets
-- to the store, and the overlay of both for a query. The store is not part of the pipeline: it is a
-- state with a write, where `none` is an exception, and a query. Every method runs under the
-- pipeline's lock, and is a step of its own. The clock's reading is an argument.
pub mod Flushes
pub mod Queries
mod Tests
use Prim.Native.String.{compare}
use Prim.Native.Nat.{Ordering}
use infra_sentinel.Prelude.{
  ℕ, String, str_eq, Bool, true, false, ◌&&◌, ◌||◌, Option, none, some, List, [], ◌∷◌, ◌++◌, length,
  take, select, map, max, or_default, if◌then◌else◌,
}
use infra_sentinel.Prelude.Int.{ℤ, pos, ltb_ℤ, leb_ℤ, eqb_ℤ}
use infra_sentinel.Prelude.Sort.{text_lt, sort}
use infra_sentinel.Aggregation.{
  Arithmetic, MetricPoint, MetricBucket, MetricAccumulator, Instrument, counter, gauge, quota,
  event, instrument_eq, AttributionMethod, Confidence, add_points, add_bucket, add_buckets,
  all_buckets, drain_before, drain_all, value, bucket_start,
}

-- The store, as the pipeline calls it.
pub record Store (V : Type 0) : Type 1 where
  pub State : Type 0
  pub write_buckets : State → List (MetricBucket V) → Option State

pub data Flush : Type 0 where
  -- the number of buckets that were written
  flushed : ℕ → Flush
  -- the store's exception, raised on to the caller
  raised : Flush

module _ {V : Type 0} (a : Arithmetic V) (s : Store V) where
  pub record MetricPipeline : Type 0 where
    pub store : s.State
    pub resolution_seconds : ℕ
    pub accumulator : MetricAccumulator V
    pub last_flush_epoch : ℤ

  -- The end of a flush: what was taken out is written, or put back before the exception goes on.
  unfoldable pub finish_flush :
      MetricPipeline
      → MetricAccumulator V
      → List (MetricBucket V)
      → ℤ
      → Option s.State
      → MetricPipeline × Flush
  finish_flush p rest buckets now none =
      (record p { accumulator = add_buckets a rest buckets }, raised)
  finish_flush p rest buckets now (some store) = (
    record p { store = store; accumulator = rest; last_flush_epoch = now },
    flushed (length buckets),
  )

  unfoldable pub write_out :
      MetricPipeline → MetricAccumulator V × List (MetricBucket V) → ℤ → MetricPipeline × Flush
  write_out p (rest, []) now = (record p { accumulator = rest }, flushed 0)
  write_out p (rest, b ∷ bs) now =
      finish_flush p rest (b ∷ bs) now (s.write_buckets p.store (b ∷ bs))

  -- `_flush_completed_locked`, `flush_completed`
  unfoldable pub flush_completed : MetricPipeline → ℤ → MetricPipeline × Flush
  flush_completed p now =
      write_out p (drain_before p.accumulator (bucket_start now p.resolution_seconds 0)) now

  -- `flush_all`
  unfoldable pub flush_all : MetricPipeline → ℤ → MetricPipeline × Flush
  flush_all p now = write_out p (drain_all p.accumulator) now

  -- `ingest`; the number of accepted points is the length of `points`.
  unfoldable pub ingest : MetricPipeline → List (MetricPoint V) → ℤ → MetricPipeline × Flush
  ingest p points now =
      flush_completed (record p { accumulator = add_points a p.accumulator points }) now

-- The keyword arguments of a query.
pub record Criteria : Type 0 where
  pub since_epoch : ℤ
  pub until_epoch : ℤ
  pub resource_id : Option String
  pub source_id : Option String
  pub metric : Option String
  pub instrument : Option Instrument
  pub bucket_seconds : Option ℕ
  pub bucket_offset_seconds : ℕ
  pub limit : ℕ

abbrev is_wanted : {A : Type 0} → (A → A → Bool) → Option A → A → Bool
is_wanted eq none found = true
is_wanted eq (some wanted) found = eq found wanted

-- `_matches`
unfoldable pub matches : {V : Type 0} → Criteria → MetricBucket V → Bool
matches c b =
    (leb_ℤ c.since_epoch b.observed_epoch && leb_ℤ b.observed_epoch c.until_epoch)
    && is_wanted str_eq c.resource_id b.resource_id
    && is_wanted str_eq c.source_id b.source_id
    && is_wanted str_eq c.metric b.metric
    && is_wanted instrument_eq c.instrument b.instrument

-- A row of a query, with all of its fields.
pub record QueryPoint (V : Type 0) : Type 0 where
  pub observed_epoch : ℤ
  pub metric : String
  pub instrument : Instrument
  pub value : V
  pub unit : String
  pub source_id : String
  pub resource_id : String
  pub dimensions : String
  pub attribution_method : AttributionMethod
  pub confidence : Confidence
  pub estimated : Bool
  pub sample_count : ℕ
  pub minimum_value : V
  pub maximum_value : V
  pub last_value : V
  pub last_epoch : ℤ
  pub resolution_seconds : ℕ

-- ORDER of the rows: by epoch, metric, source and dimensions.
abbrev pub earlier : {V : Type 0} → QueryPoint V → QueryPoint V → Bool
earlier p q =
    ltb_ℤ p.observed_epoch q.observed_epoch
    || (eqb_ℤ p.observed_epoch q.observed_epoch
        && (text_lt p.metric q.metric
            || (str_eq p.metric q.metric
                && (text_lt p.source_id q.source_id
                    || (str_eq p.source_id q.source_id && text_lt p.dimensions q.dimensions)))))

module _ {V : Type 0} (a : Arithmetic V) where
  unfoldable pub restored_sum : Instrument → V → ℕ → V
  restored_sum gauge value samples = a.times value samples
  restored_sum _ value samples = value

  -- `_from_query_point`
  unfoldable pub from_query_point : ℕ → QueryPoint V → MetricBucket V
  from_query_point resolution p =
      let samples = max 1 p.sample_count in
      record {
        observed_epoch = p.observed_epoch;
        resolution_seconds = max resolution p.resolution_seconds;
        metric = p.metric;
        instrument = p.instrument;
        value_sum = restored_sum p.instrument p.value samples;
        sample_count = samples;
        minimum_value = p.minimum_value;
        maximum_value = p.maximum_value;
        last_value = p.last_value;
        last_epoch = p.last_epoch;
        unit = p.unit;
        source_id = p.source_id;
        resource_id = p.resource_id;
        dimensions = p.dimensions;
        attribution_method = p.attribution_method;
        confidence = p.confidence;
        estimated = p.estimated;
      }

  -- `_as_query_point`
  unfoldable pub as_query_point : MetricBucket V → QueryPoint V
  as_query_point b = record {
    observed_epoch = b.observed_epoch;
    metric = b.metric;
    instrument = b.instrument;
    value = value a b;
    unit = b.unit;
    source_id = b.source_id;
    resource_id = b.resource_id;
    dimensions = b.dimensions;
    attribution_method = b.attribution_method;
    confidence = b.confidence;
    estimated = b.estimated;
    sample_count = b.sample_count;
    minimum_value = b.minimum_value;
    maximum_value = b.maximum_value;
    last_value = b.last_value;
    last_epoch = b.last_epoch;
    resolution_seconds = b.resolution_seconds;
  }

  -- The resolution that a query asks for: its own, or that of the pipeline where it is 0 or absent.
  abbrev pub requested : Option ℕ → ℕ → ℕ
  requested none resolution = resolution
  requested (some ℕ.zero) resolution = resolution
  requested (some (ℕ.suc n)) resolution = ℕ.suc n

  -- The merge of what is stored and what is buffered. `persisted` is the store's answer.
  unfoldable pub overlay :
      Criteria → ℕ → List (QueryPoint V) → List (MetricBucket V) → MetricAccumulator V
  overlay c resolution persisted buffered =
      let fresh : MetricAccumulator V = record {
        resolution_seconds = resolution;
        offset_seconds = c.bucket_offset_seconds;
        buckets = [];
      } in
      add_buckets a (add_buckets a fresh (map (from_query_point resolution) persisted))
        (select (matches c) buffered)

  -- `query_points`
  unfoldable pub query_points :
      Criteria → ℕ → List (QueryPoint V) → MetricAccumulator V → List (QueryPoint V)
  query_points c resolution persisted accumulator =
      let merged =
        overlay c (requested c.bucket_seconds resolution) persisted (all_buckets accumulator) in
      take c.limit (sort earlier (map as_query_point (all_buckets merged)))
