-- ===== src/Timing/Decisions.antt =====
-- The timing decision, when it is made and when it is read back.
use infra_sentinel.Prelude.{
  ℕ, ◌*◌, ◌≤◌, ◌≡◌, ◌↔◌, refl, Bool, true, false, some, ltb, not, ◌∙◌, sym, if◌then◌else◌, arith,
}
use infra_sentinel.Prelude.Int.{ℤ}
use infra_sentinel.Timing.{
  Timed, classify_interval, annotate_sample_timing, by_kind, classified, sample_is_realtime,
  realtime_interval, catch_up_interval, observed_of, expected_of,
}

kind_read :
    (late fresh : Bool)
    → by_kind (some (if late then catch_up_interval else realtime_interval)) fresh ≡ not late
unfolding by_kind
kind_read true fresh = refl
kind_read false fresh = refl

within : (limit spent : ℕ) → not (ltb limit spent) ≡ true → spent ≤ limit
within limit spent h = ground (arith, h)

not_over : (limit spent : ℕ) → spent ≤ limit → not (ltb limit spent) ≡ true
not_over limit spent h = ground (arith, h)

-- An annotated sample reads back as the decision that was made, with any fallback and any interval:
-- it is realtime exactly when it spans at most two of the expected intervals, of at least 1 ms each,
-- where a negative span is none and a span that is no number is 0.
pub sample_is_realtime-annotate :
    (sample : Timed) (expected fallback : ℤ)
    → let (annotated, kind) = annotate_sample_timing sample expected in
      (annotated.interval_kind ≡ some kind)
      × ((sample_is_realtime annotated fallback ≡ true)
          ↔ (observed_of sample.observed_seconds ≤ expected_of (some expected) * 2))
unfolding annotate_sample_timing sample_is_realtime by_kind classify_interval
sample_is_realtime-annotate sample expected fallback =
    let limit = expected_of (some expected) * 2 in
    let spent = observed_of sample.observed_seconds in
    let read =
      kind_read (ltb limit spent)
        (classified (annotate_sample_timing sample expected).0 fallback) in
    (refl, (λ h. within limit spent (sym read ∙ h), λ h. read ∙ not_over limit spent h))
