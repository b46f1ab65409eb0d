-- ===== src/Timing.antt =====
-- src/infra_sentinel/core/timing.py: whether a sample's interval is live or a delayed catch-up. Times
-- are whole milliseconds; a value that is not a number is `none`.
pub mod Decisions
mod Tests
use infra_sentinel.Prelude.{
  ℕ, ◌*◌, String, str_eq, Bool, ◌||◌, Option, none, some, ltb, max, if◌then◌else◌,
}
use infra_sentinel.Prelude.Int.{ℤ, pos_part}

abbrev pub realtime_interval : String
realtime_interval = "realtime"

abbrev pub catch_up_interval : String
catch_up_interval = "catch_up"

-- `max(0.0, float(observed_seconds))`, and 0 for what is no number.
abbrev pub observed_of : Option ℤ → ℕ
observed_of none = 0
observed_of (some z) = pos_part z

-- `max(0.001, float(expected_interval_seconds))`, and 5 s for what is no number.
abbrev pub expected_of : Option ℤ → ℕ
expected_of none = 5000
expected_of (some z) = max 1 (pos_part z)

-- `classify_interval`
unfoldable pub classify_interval : Option ℤ → Option ℤ → String
classify_interval observed expected =
    if ltb (expected_of expected * 2) (observed_of observed)
    then catch_up_interval
    else realtime_interval

-- The timing fields of a sample; a field that is missing is `none`, and one that is there may be no
-- number, or no known kind.
pub record Timed : Type 0 where
  pub observed_seconds : Option ℤ
  pub interval_kind : Option String
  pub expected_interval_seconds : Option (Option ℤ)

-- `annotate_sample_timing`
unfoldable pub annotate_sample_timing : Timed → ℤ → Timed × String
annotate_sample_timing sample expected =
    let kind = classify_interval sample.observed_seconds (some expected) in
    (
      record sample { interval_kind = some kind; expected_interval_seconds = some (some expected) },
      kind,
    )

abbrev expected_or : Option (Option ℤ) → ℤ → Option ℤ
expected_or none fallback = some fallback
expected_or (some expected) fallback = expected

unfoldable pub classified : Timed → ℤ → Bool
classified sample fallback =
    str_eq
      (classify_interval sample.observed_seconds
        (expected_or sample.expected_interval_seconds fallback))
      realtime_interval

unfoldable pub by_kind : Option String → Bool → Bool
by_kind none fresh = fresh
by_kind (some kind) fresh =
    if str_eq kind realtime_interval || str_eq kind catch_up_interval
    then str_eq kind realtime_interval
    else fresh

-- `sample_is_realtime`
unfoldable pub sample_is_realtime : Timed → ℤ → Bool
sample_is_realtime sample fallback = by_kind sample.interval_kind (classified sample fallback)
