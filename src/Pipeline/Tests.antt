-- ===== src/Pipeline/Tests.antt =====
-- Tests of the pipeline, with natural numbers as values and a store that is a list of buckets, and
-- refuses a write once it is full.
use infra_sentinel.Prelude.{
  ℕ, ◌+◌, ◌*◌, ◌/◌, ◌≡◌, refl, min, max, false, none, some, List, [], ◌∷◌, ◌++◌, length, map,
  select, ltb, arith, if◌then◌else◌,
}
use infra_sentinel.Prelude.Dict.{get}
use infra_sentinel.Prelude.Int.{pos}
use infra_sentinel.Aggregation.{
  add_buckets, Arithmetic, MetricBucket, MetricPoint, BucketKey, counter, exact, high, key_of,
  point_bucket, all_buckets,
}
use infra_sentinel.Aggregation.Groups.{group, merged}
use infra_sentinel.Aggregation.Draining.{IsAligned}
use infra_sentinel.Aggregation.Key.{key_eq}
use infra_sentinel.Pipeline.{
  Store, MetricPipeline, flushed, raised, ingest, flush_completed, write_out, finish_flush,
}
use infra_sentinel.Pipeline.Flushes.{IsWritten, ingest-raised, ingest_flushed}

abbrev naturals : Arithmetic ℕ
naturals = record { add = ◌+◌; times = ◌*◌; over = ◌/◌; minimum = min; maximum = max }

abbrev shelf : Store ℕ
shelf = record {
  State = List (MetricBucket ℕ);
  write_buckets = λ rows new. if ltb (length rows) 1 then some (new ++ rows) else none;
}

abbrev point : ℕ → ℕ → MetricPoint ℕ
point epoch value = record {
  observed_epoch = pos epoch;
  metric = "network.bytes";
  instrument = counter;
  value = value;
  unit = "bytes";
  source_id = "network.local";
  resource_id = "network";
  dimensions = "{}";
  attribution_method = exact;
  confidence = high;
  estimated = false;
}

abbrev pipeline : List (MetricBucket ℕ) → MetricPipeline naturals shelf
pipeline rows = record {
  store = rows;
  resolution_seconds = 900;
  accumulator = record { resolution_seconds = 900; offset_seconds = 0; buckets = [] };
  last_flush_epoch = pos 0;
}

pipeline-IsAligned : (rows : List (MetricBucket ℕ)) → IsAligned (pipeline rows).accumulator
pipeline-IsAligned rows = record { positive = omega arith; entries = tt; unique = tt }

abbrev full : MetricPipeline naturals shelf
full = pipeline (point_bucket (point 0 1) ∷ [])

abbrev batch : List (MetricPoint ℕ)
batch = point 1000 5 ∷ point 2000 7 ∷ point 1100 8 ∷ []

abbrev key : BucketKey
key = key_of 900 0 (point_bucket (point 1000 5))

abbrev after : MetricPipeline naturals shelf → MetricPipeline naturals shelf
after p = (ingest naturals shelf p batch (pos 2000)).0

raises : ingest naturals shelf full batch (pos 2000) ≡ (after full, raised)
unfolding ingest flush_completed write_out finish_flush infra_sentinel.Aggregation.drain_before
    infra_sentinel.Aggregation.add_points infra_sentinel.Aggregation.add_point
    infra_sentinel.Aggregation.add_bucket infra_sentinel.Prelude.Dict.put key_of
    infra_sentinel.Aggregation.bucket_start infra_sentinel.Prelude.Int.◌+ℤ◌
    infra_sentinel.Prelude.Int.scale infra_sentinel.Prelude.Int.floor_div
    infra_sentinel.Prelude.Int.◌-ℤ◌ point_bucket get infra_sentinel.Aggregation.merge
    infra_sentinel.Aggregation.start
raises = refl

is_counter : key.instrument ≡ counter
unfolding key_of point_bucket
is_counter = refl

ingest-raised_example :
    ((after full).store ≡ full.store)
    × ((after full).last_flush_epoch ≡ full.last_flush_epoch)
    × (get key (after full).accumulator.buckets
        ≡ merged naturals 900 0 (get key []) (group 900 0 key (map point_bucket batch)))
ingest-raised_example =
    ingest-raised naturals shelf full batch (pos 2000) (after full) key
      (pipeline-IsAligned (point_bucket (point 0 1) ∷ [])) raises is_counter

flushes : ingest naturals shelf (pipeline []) batch (pos 2000) ≡ (after (pipeline []), flushed 1)
unfolding ingest flush_completed write_out finish_flush infra_sentinel.Aggregation.drain_before
    infra_sentinel.Aggregation.add_points infra_sentinel.Aggregation.add_point
    infra_sentinel.Aggregation.add_bucket infra_sentinel.Prelude.Dict.put key_of
    infra_sentinel.Aggregation.bucket_start infra_sentinel.Prelude.Int.◌+ℤ◌
    infra_sentinel.Prelude.Int.scale infra_sentinel.Prelude.Int.floor_div
    infra_sentinel.Prelude.Int.◌-ℤ◌ point_bucket get infra_sentinel.Aggregation.merge
    infra_sentinel.Aggregation.start
flushes = refl

ingest_flushed_example :
    (out : List (MetricBucket ℕ)) × (1 ≡ length out)
    × IsWritten naturals shelf (pipeline []) (after (pipeline [])) out (pos 2000)
    × ((k : BucketKey)
        → k.instrument ≡ counter
        → get k (add_buckets naturals (after (pipeline [])).accumulator out).buckets
          ≡ merged naturals 900 0 (get k []) (group 900 0 k (map point_bucket batch)))
ingest_flushed_example =
    ingest_flushed naturals shelf (pipeline []) batch (pos 2000) (after (pipeline [])) 1
      (pipeline-IsAligned []) flushes
