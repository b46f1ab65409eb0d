-- ===== src/Store/Tests.antt =====
-- Tests of the table of points, with natural numbers as values.
use mathlib.Core.Option.{some-injective}
use infra_sentinel.Prelude.{
  ◌<◌, true, false, subst, ℕ, ◌+◌, ◌*◌, ◌/◌, ◌<◌, ◌≡◌, ◌≢◌, ◌⊎◌, inr, refl, min, max, Bool, true,
  false, Option, none, some, List, [], ◌∷◌, All, arith, String,
}
use infra_sentinel.Prelude.Dict.{string_eq}
use infra_sentinel.Prelude.Int.{ℤ, pos, ◌+ℤ◌, ◌-ℤ◌, ◌<ℤ◌}
use infra_sentinel.Aggregation.Key.{Instrument, counter}
use infra_sentinel.Aggregation.{
  low, mapped, Arithmetic, MetricBucket, MetricPoint, exact, high, point_bucket, value,
  bucket_start,
}
use infra_sentinel.Store.{identity_instance, Table, point_identity, point_row}
use infra_sentinel.Store.Compaction.{Compaction, Progress, first_epoch, compact_resolution}
use infra_sentinel.Store.Compaction.Totals.{IsRow, table_samples}
use infra_sentinel.Store.Compaction.Loop.{Finished, compact_resolution-Finished}
use infra_sentinel.Store.Maintenance.{
  MetricStore, maintain_history, unfinished, maintain_history_samples,
}

abbrev naturals : Arithmetic ℕ
naturals = record { add = ◌+◌; times = ◌*◌; over = ◌/◌; minimum = min; maximum = max }

abbrev point : Instrument → ℕ → ℕ → MetricPoint ℕ
point instrument epoch value = record {
  observed_epoch = pos epoch;
  metric = "network.bytes";
  instrument = instrument;
  value = value;
  unit = "bytes";
  source_id = "network.local";
  resource_id = "network";
  dimensions = "{}";
  attribution_method = exact;
  confidence = high;
  estimated = false;
}

abbrev sample : Instrument → ℕ → ℕ → MetricBucket ℕ
sample instrument epoch value = point_bucket (point instrument epoch value)

abbrev two_points : List (MetricPoint ℕ)
two_points = point counter 1000 5 ∷ point counter 2000 7 ∷ []

abbrev two_rows : Table ℕ
two_rows =
    (point_identity (point counter 1000 5), point_row (point counter 1000 5))
    ∷ (point_identity (point counter 2000 7), point_row (point counter 2000 7))
    ∷ []

two_rows-IsRow : All IsRow two_rows
unfolding point_identity point_row
two_rows-IsRow = (
  record { resolution = refl; sampled = omega arith },
  (record { resolution = refl; sampled = omega arith }, tt),
)

abbrev unsure : MetricBucket ℕ
unsure = record (sample counter 1000 7) { confidence = low; attribution_method = mapped }

abbrev to_quarters : Compaction
to_quarters = record {
  source_resolution = 0;
  target_resolution = 900;
  before_epoch = pos 1800;
  offset_seconds = 0;
  resource_id = none;
}

first_bucket :
    (first : ℤ)
    → first_epoch to_quarters two_rows none ≡ some first
    → pos 1800 <ℤ bucket_start first 900 0 +ℤ pos 1000
unfolding first_epoch point_row bucket_start infra_sentinel.Prelude.Int.scale
    infra_sentinel.Prelude.Int.floor_div ◌-ℤ◌ ◌+ℤ◌
first_bucket first e =
    subst (λ f. pos 1800 <ℤ bucket_start f 900 0 +ℤ pos 1000) (some-injective _ _ e) (ground arith)

compact_resolution-Finished_example :
    (q : Progress ℕ) × (compact_resolution naturals to_quarters 1000 two_rows ≡ some q)
    × Finished naturals to_quarters two_rows q.table
compact_resolution-Finished_example =
    compact_resolution-Finished naturals to_quarters 1000 two_rows (omega arith) (ground arith)
      two_rows-IsRow first_bucket

abbrev store : MetricStore ℕ
store = record { table = two_rows; metadata = []; maintenance_epoch = none }

maintain_history_samples_example :
    let (after, report) = maintain_history naturals (λ e. 0) (pos 86400) (pos 100000) false store in
    All IsRow after.table
    × (table_samples after.table ≡ table_samples two_rows)
    × (report ≢ unfinished)
maintain_history_samples_example =
    maintain_history_samples naturals (λ e. 0) (pos 86400) (pos 100000) false store two_rows-IsRow
