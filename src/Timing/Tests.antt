-- ===== src/Timing/Tests.antt =====
-- Tests of the timing decision.
use infra_sentinel.Prelude.{◌*◌, ◌≤◌, ◌≡◌, ◌↔◌, refl, true, none, some}
use infra_sentinel.Prelude.Int.{pos}
use infra_sentinel.Timing.{
  Timed, annotate_sample_timing, sample_is_realtime, observed_of, expected_of, classify_interval,
}
use infra_sentinel.Timing.Decisions.{sample_is_realtime-annotate}

abbrev sample : Timed
sample = record {
  observed_seconds = some (pos 9000);
  interval_kind = none;
  expected_interval_seconds = none;
}

delayed : classify_interval (some (pos 10001)) (some (pos 5000)) ≡ "catch_up"
unfolding classify_interval
delayed = refl

sample_is_realtime-annotate_example :
    let (annotated, kind) = annotate_sample_timing sample (pos 5000) in
    (annotated.interval_kind ≡ some kind)
    × ((sample_is_realtime annotated (pos 1) ≡ true)
        ↔ (observed_of (some (pos 9000)) ≤ expected_of (some (pos 5000)) * 2))
sample_is_realtime-annotate_example = sample_is_realtime-annotate sample (pos 5000) (pos 1)
