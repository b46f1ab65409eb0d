-- ===== src/MetricQuery/Tests.antt =====
-- Tests of the validation of a metric query.
use infra_sentinel.Prelude.{ℕ, ◌≡◌, refl, String, Bool, true, Option, none, some, List, [], ◌∷◌}
use infra_sentinel.Prelude.Int.{ℤ, pos}
use infra_sentinel.Prelude.Dict.{Dict}
use infra_sentinel.Values.{Value, int, text}
use infra_sentinel.Aggregation.{gauge}
use infra_sentinel.MetricQuery.{MetricQuery, from_payload}
use infra_sentinel.MetricQuery.Bounds.{IsBounded, from_payload-IsBounded}

abbrev payload : Dict String Value
payload =
    ("since_epoch", int (pos 1000))
    ∷ ("instrument", text "gauge")
    ∷ ("metric", text "system.load")
    ∷ []

abbrev query : MetricQuery
query = record {
  since_epoch = pos 1000;
  until_epoch = pos 90000;
  resource_id = none;
  source_id = none;
  metric = some "system.load";
  instrument = gauge;
  bucket_seconds = 60;
  bucket_offset_seconds = 0;
}

accepted : from_payload (λ t. true) payload (pos 90000) ≡ some query
unfolding from_payload infra_sentinel.MetricQuery.no_unknown infra_sentinel.MetricQuery.range_of
    infra_sentinel.MetricQuery.epoch_of infra_sentinel.Prelude.Dict.get
    infra_sentinel.MetricQuery.ordered infra_sentinel.MetricQuery.bucket_of
    infra_sentinel.MetricQuery.offset_of infra_sentinel.MetricQuery.within_range
    infra_sentinel.Prelude.Int.◌-ℤ◌ infra_sentinel.MetricQuery.filter_by
    infra_sentinel.MetricQuery.instrument_of infra_sentinel.MetricQuery.identifier
    infra_sentinel.MetricQuery.filtered
accepted = refl

from_payload-IsBounded_example : IsBounded query
from_payload-IsBounded_example =
    from_payload-IsBounded (λ t. true) payload (pos 90000) query accepted
