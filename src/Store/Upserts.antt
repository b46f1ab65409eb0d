-- ===== src/Store/Upserts.antt =====
-- A bucket that meets its row, against a bucket that meets its like in an accumulator.
use infra_sentinel.Prelude.{◌≡◌, ◌⊎◌}
use infra_sentinel.Aggregation.{
  Arithmetic, Instrument, counter, quota, event, MetricBucket, Confidence, AttributionMethod,
}

-- Two buckets hold the same, but for what is said of how sure they are.
pub record Agrees {V : Type 0} (b c : MetricBucket V) : Type 0 where
  pub observed_epoch : b.observed_epoch ≡ c.observed_epoch
  pub metric : b.metric ≡ c.metric
  pub instrument : b.instrument ≡ c.instrument
  pub value_sum : b.value_sum ≡ c.value_sum
  pub sample_count : b.sample_count ≡ c.sample_count
  pub minimum_value : b.minimum_value ≡ c.minimum_value
  pub maximum_value : b.maximum_value ≡ c.maximum_value
  pub last_value : b.last_value ≡ c.last_value
  pub last_epoch : b.last_epoch ≡ c.last_epoch
  pub unit : b.unit ≡ c.unit
  pub source_id : b.source_id ≡ c.source_id
  pub resource_id : b.resource_id ≡ c.resource_id
  pub dimensions : b.dimensions ≡ c.dimensions
  pub estimated : b.estimated ≡ c.estimated

module _ {V : Type 0} (a : Arithmetic V) where
  -- Instruments whose buckets are not averaged.
  abbrev pub IsPlain : Instrument → Type 0
  IsPlain i = (i ≡ counter) ⊎ ((i ≡ quota) ⊎ (i ≡ event))

  -- How sure a bucket is of its value, and of whose it is.
  abbrev pub surety : MetricBucket V → Confidence × AttributionMethod
  surety b = (b.confidence, b.attribution_method)
