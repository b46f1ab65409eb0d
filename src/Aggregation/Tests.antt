-- ===== src/Aggregation/Tests.antt =====
-- Tests of the buckets, with natural numbers as values.
use infra_sentinel.Prelude.{
  ℕ, ◌+◌, ◌*◌, ◌/◌, ◌≡◌, refl, min, max, false, some, List, [], ◌∷◌, arith,
}
use infra_sentinel.Prelude.Dict.{get}
use infra_sentinel.Prelude.Int.{pos, negsuc, ◌≤ℤ◌, ◌<ℤ◌, ◌+ℤ◌}
use infra_sentinel.Aggregation.Key.{BucketKey, Instrument, counter, key_eq}
use infra_sentinel.Aggregation.Time.{bucket_start}
use infra_sentinel.Aggregation.{
  Arithmetic, MetricBucket, MetricPoint, MetricAccumulator, exact, high, key_of, point_bucket,
  add_bucket, add_buckets, drain_before,
}
use infra_sentinel.Aggregation.Groups.{group}
use infra_sentinel.Aggregation.Totals.{running, samples, add_buckets_totals}
use infra_sentinel.Aggregation.Draining.{IsAligned}

abbrev naturals : Arithmetic ℕ
naturals = record { add = ◌+◌; times = ◌*◌; over = ◌/◌; minimum = min; maximum = max }

abbrev point : Instrument → ℕ → ℕ → MetricPoint ℕ
point instrument epoch value = record {
  observed_epoch = pos epoch;
  metric = "network.bytes";
  instrument = instrument;
  value = value;
  unit = "bytes";
  source_id = "network.local";
  resource_id = "network";
  dimensions = "{}";
  attribution_method = exact;
  confidence = high;
  estimated = false;
}

abbrev sample : ℕ → ℕ → MetricBucket ℕ
sample epoch value = point_bucket (point counter epoch value)

abbrev empty : MetricAccumulator ℕ
empty = record { resolution_seconds = 900; offset_seconds = 0; buckets = [] }

empty-IsAligned : IsAligned empty
empty-IsAligned = record { positive = omega arith; entries = tt; unique = tt }

abbrev three : List (MetricBucket ℕ)
three = sample 1000 5 ∷ sample 2000 7 ∷ sample 1100 8 ∷ []

abbrev key : BucketKey
key = key_of 900 0 (sample 1000 5)

merges :
    (add_buckets naturals empty three).buckets
    ≡ (
      key,
      record (sample 1000 5) {
        observed_epoch = pos 900;
        resolution_seconds = 900;
        value_sum = 13;
        sample_count = 2;
        maximum_value = 8;
        last_value = 8;
        last_epoch = pos 1100;
      },
    )
      ∷ (
        key_of 900 0 (sample 2000 7),
        record (sample 2000 7) { observed_epoch = pos 1800; resolution_seconds = 900 },
      )
      ∷ []
unfolding add_buckets key_of point_bucket add_bucket bucket_start infra_sentinel.Prelude.Dict.put
    ◌+ℤ◌ infra_sentinel.Prelude.Int.scale infra_sentinel.Prelude.Int.floor_div
    infra_sentinel.Prelude.Int.◌-ℤ◌ get infra_sentinel.Aggregation.merge
    infra_sentinel.Aggregation.start infra_sentinel.Aggregation.merged_sum
    infra_sentinel.Aggregation.first_sum infra_sentinel.Aggregation.value_by
merges = refl

abbrev started : MetricBucket ℕ
started = record (sample 1000 5) { observed_epoch = pos 900; resolution_seconds = 900 }

abbrev one : MetricAccumulator ℕ
one = record empty { buckets = (key, started) ∷ [] }

finds_one : get key one.buckets ≡ some started
unfolding get key_of point_bucket bucket_start ◌+ℤ◌ infra_sentinel.Prelude.Int.scale
    infra_sentinel.Prelude.Int.floor_div infra_sentinel.Prelude.Int.◌-ℤ◌
finds_one = refl

is_counter : key.instrument ≡ counter
unfolding key_of point_bucket
is_counter = refl

starts_counter : started.instrument ≡ key.instrument
unfolding key_of point_bucket
starts_counter = refl

add_buckets_totals_example :
    (n : MetricBucket ℕ) × (get key (add_buckets naturals one three).buckets ≡ some n)
    × (n.value_sum ≡ running naturals started.value_sum (group 900 0 key three))
    × (n.sample_count ≡ started.sample_count + samples (group 900 0 key three))
add_buckets_totals_example =
    add_buckets_totals naturals one three key started (rw is_counter refl) starts_counter finds_one

one-IsAligned : IsAligned one
unfolding key_of point_bucket bucket_start get infra_sentinel.Prelude.Int.◌-ℤ◌
    infra_sentinel.Prelude.Int.floor_div ◌+ℤ◌ infra_sentinel.Prelude.Int.scale
one-IsAligned = record {
  positive = omega arith;
  entries = (record { keyed = refl; placed = refl; resolved = refl }, tt);
  unique = (refl, tt);
}
