-- ===== src/Aggregation.antt =====
-- src/infra_sentinel/metrics/aggregation.py: the buckets into which metric points are merged.
-- Epochs are whole seconds, as integers: a fraction of a second moves no point to another bucket.
-- The values are floats in the code, and a type with the operations that are used here. The
-- dimensions of a bucket are the canonical JSON text by which the code compares them.
pub mod Time
pub mod Key
pub mod Groups
pub mod Totals
pub mod Draining
mod Tests
use infra_sentinel.Prelude.{
  ℕ, ◌+◌, String, str_eq, Bool, true, false, ◌&&◌, ◌||◌, not, Option, none, some, List, [], ◌∷◌,
  ltb, max, select, map, if◌then◌else◌,
}
use infra_sentinel.Prelude.Int.{ℤ, ltb_ℤ, leb_ℤ}
use infra_sentinel.Prelude.Dict.{Dict, get, put}
unfoldable pub use Time.{bucket_start}
pub use Key.{Instrument, counter, gauge, quota, event, BucketKey, instrument_eq}
use Key.{key_eq}

pub data Confidence : Type 0 where
  high medium low : Confidence

pub data AttributionMethod : Type 0 where
  exact mapped inferred residual : AttributionMethod

-- The operations on the values.
pub record Arithmetic (V : Type 0) : Type 0 where
  pub add : V → V → V
  pub times : V → ℕ → V
  pub over : V → ℕ → V
  pub minimum : V → V → V
  pub maximum : V → V → V

-- `MetricPoint`, with its epoch read.
pub record MetricPoint (V : Type 0) : Type 0 where
  pub observed_epoch : ℤ
  pub metric : String
  pub instrument : Instrument
  pub value : V
  pub unit : String
  pub source_id : String
  pub resource_id : String
  pub dimensions : String
  pub attribution_method : AttributionMethod
  pub confidence : Confidence
  pub estimated : Bool

-- `MetricBucket`, and `_MutableBucket`, which has the same fields: `freeze` copies them.
pub record MetricBucket (V : Type 0) : Type 0 where
  pub observed_epoch : ℤ
  pub resolution_seconds : ℕ
  pub metric : String
  pub instrument : Instrument
  pub value_sum : V
  pub sample_count : ℕ
  pub minimum_value : V
  pub maximum_value : V
  pub last_value : V
  pub last_epoch : ℤ
  pub unit : String
  pub source_id : String
  pub resource_id : String
  pub dimensions : String
  pub attribution_method : AttributionMethod
  pub confidence : Confidence
  pub estimated : Bool

abbrev pub confidence_order : Confidence → ℕ
confidence_order high = 0
confidence_order medium = 1
confidence_order low = 2

abbrev pub attribution_eq : AttributionMethod → AttributionMethod → Bool
attribution_eq exact exact = true
attribution_eq mapped mapped = true
attribution_eq inferred inferred = true
attribution_eq residual residual = true
attribution_eq _ _ = false

module _ {V : Type 0} (a : Arithmetic V) where
  -- The property `value`, by the instrument.
  unfoldable pub value_by : Instrument → MetricBucket V → V
  value_by gauge b = a.over b.value_sum (max 1 b.sample_count)
  value_by counter b = b.value_sum
  value_by _ b = b.last_value

  abbrev pub value : MetricBucket V → V
  value b = value_by b.instrument b

  -- `_MutableBucket.merge`: the new sum, by the instrument of the bucket that grows.
  unfoldable pub merged_sum : Instrument → MetricBucket V → MetricBucket V → V
  merged_sum counter m b = a.add m.value_sum (value b)
  merged_sum gauge m b = a.add m.value_sum (a.times (value b) b.sample_count)
  merged_sum _ m b = value b

  unfoldable pub merge : MetricBucket V → MetricBucket V → MetricBucket V
  merge m b =
      let newer = leb_ℤ m.last_epoch b.last_epoch in
      record m {
        value_sum = merged_sum m.instrument m b;
        sample_count = m.sample_count + b.sample_count;
        minimum_value = a.minimum m.minimum_value b.minimum_value;
        maximum_value = a.maximum m.maximum_value b.maximum_value;
        last_value = if newer then b.last_value else m.last_value;
        last_epoch = if newer then b.last_epoch else m.last_epoch;
        estimated = m.estimated || b.estimated;
        confidence =
            if ltb (confidence_order m.confidence) (confidence_order b.confidence)
            then b.confidence
            else m.confidence;
        attribution_method =
            if attribution_eq b.attribution_method m.attribution_method
            then m.attribution_method
            else inferred;
      }

-- `_point_bucket`
unfoldable pub point_bucket : {V : Type 0} → MetricPoint V → MetricBucket V
point_bucket p = record {
  observed_epoch = p.observed_epoch;
  resolution_seconds = 0;
  metric = p.metric;
  instrument = p.instrument;
  value_sum = p.value;
  sample_count = 1;
  minimum_value = p.value;
  maximum_value = p.value;
  last_value = p.value;
  last_epoch = p.observed_epoch;
  unit = p.unit;
  source_id = p.source_id;
  resource_id = p.resource_id;
  dimensions = p.dimensions;
  attribution_method = p.attribution_method;
  confidence = p.confidence;
  estimated = p.estimated;
}

pub record MetricAccumulator (V : Type 0) : Type 0 where
  pub resolution_seconds : ℕ
  pub offset_seconds : ℕ
  pub buckets : Dict BucketKey (MetricBucket V)

-- `__init__`: a resolution of 0 is refused (`ValueError`).
unfoldable pub new_accumulator : {V : Type 0} → ℕ → ℕ → Option (MetricAccumulator V)
new_accumulator resolution offset =
    if ltb 0 resolution
    then some (record { resolution_seconds = resolution; offset_seconds = offset; buckets = [] })
    else none

-- The key of a bucket in an accumulator of some resolution and offset.
unfoldable pub key_of : {V : Type 0} → ℕ → ℕ → MetricBucket V → BucketKey
key_of resolution offset b = record {
  target_epoch = bucket_start b.observed_epoch resolution offset;
  metric = b.metric;
  instrument = b.instrument;
  unit = b.unit;
  source_id = b.source_id;
  resource_id = b.resource_id;
  dimensions = b.dimensions;
}

module _ {V : Type 0} (a : Arithmetic V) where
  -- The sum with which a bucket begins a new one.
  unfoldable pub first_sum : Instrument → MetricBucket V → V
  first_sum gauge b = a.times (value a b) b.sample_count
  first_sum _ b = value a b

  -- The new bucket of `add_bucket`.
  unfoldable pub start : ℕ → ℕ → MetricBucket V → MetricBucket V
  start resolution offset b = record b {
    observed_epoch = bucket_start b.observed_epoch resolution offset;
    resolution_seconds = resolution;
    value_sum = first_sum b.instrument b;
  }

  abbrev pub grow : ℕ → ℕ → Option (MetricBucket V) → MetricBucket V → MetricBucket V
  grow resolution offset none b = start resolution offset b
  grow resolution offset (some current) b = merge a current b

  -- `add_bucket`
  unfoldable pub add_bucket : MetricAccumulator V → MetricBucket V → MetricAccumulator V
  add_bucket acc b =
      let key = key_of acc.resolution_seconds acc.offset_seconds b in
      record acc {
        buckets =
            put key (grow acc.resolution_seconds acc.offset_seconds (get key acc.buckets) b)
              acc.buckets;
      }

  -- `add_point`
  unfoldable pub add_point : MetricAccumulator V → MetricPoint V → MetricAccumulator V
  add_point acc p = add_bucket acc (point_bucket p)

  -- `add_bucket` at each bucket of a sequence in turn.
  unfoldable pub add_buckets : MetricAccumulator V → List (MetricBucket V) → MetricAccumulator V
  add_buckets acc [] = acc
  add_buckets acc (b ∷ rest) = add_buckets (add_bucket acc b) rest

  -- `add_points`
  unfoldable pub add_points : MetricAccumulator V → List (MetricPoint V) → MetricAccumulator V
  add_points acc [] = acc
  add_points acc (p ∷ rest) = add_points (add_point acc p) rest

abbrev pub values : {V : Type 0} → Dict BucketKey (MetricBucket V) → List (MetricBucket V)
values [] = []
values ((key, b) ∷ rest) = b ∷ values rest

-- `buckets()`
unfoldable pub all_buckets : {V : Type 0} → MetricAccumulator V → List (MetricBucket V)
all_buckets acc = values acc.buckets

-- `bucket.observed_epoch < cutoff_epoch`
abbrev pub is_before : {V : Type 0} → ℤ → BucketKey × MetricBucket V → Bool
is_before cutoff entry = ltb_ℤ entry.1.observed_epoch cutoff

-- `drain_before`: the accumulator that is left, and the buckets taken out.
unfoldable pub drain_before :
    {V : Type 0} → MetricAccumulator V → ℤ → MetricAccumulator V × List (MetricBucket V)
drain_before acc cutoff = (
  record acc { buckets = select (λ e. not (is_before cutoff e)) acc.buckets },
  values (select (is_before cutoff) acc.buckets),
)

-- `drain_all`
unfoldable pub drain_all :
    {V : Type 0} → MetricAccumulator V → MetricAccumulator V × List (MetricBucket V)
drain_all acc = (record acc { buckets = [] }, values acc.buckets)
