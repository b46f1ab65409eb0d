-- ===== src/Vps/Tests.antt =====
-- Tests of the polls of a server. Midnight is the multiple of a day below an epoch.
use infra_sentinel.Prelude.{
  ℕ, ◌+◌, ◌≡◌, refl, String, Bool, true, false, none, some, List, [], ◌∷◌, arith,
}
use infra_sentinel.Prelude.Int.{ℤ, pos, ◌+ℤ◌, ◌<ℤ◌}
use infra_sentinel.Aggregation.Time.{bucket_start}
use infra_sentinel.StatusStability.{init}
use infra_sentinel.Vps.{
  Reading, Baseline, Sample, Totals, VpsMonitor, PublicState, Poll, unread, unsaved, read, apply,
  baseline, sum_bytes, sum_vps_samples, maybe_poll,
}
use infra_sentinel.Vps.Log.{outgoing, IsCounted, run, run-IsCounted}

abbrev reading : ℕ → ℕ → Reading
reading epoch bytes = record {
  timestamp = "then";
  epoch = pos epoch;
  interface = "eth0";
  in_bytes = bytes;
  out_bytes = bytes + bytes;
  in_packets = 1;
  out_packets = 2;
}

abbrev first : Baseline
first = baseline (reading 0 100)

abbrev readings : List Reading
readings = reading 300 150 ∷ reading 600 150 ∷ reading 900 400 ∷ []

delta_after_reset : (apply (some first) (reading 300 40)).1.in_bytes ≡ 0
unfolding apply infra_sentinel.Vps.byte_delta baseline
delta_after_reset = refl

abbrev midnight : ℤ → ℤ
midnight now = bucket_start now 86400 0

abbrev text_of : ℤ → String
text_of now = "then"

abbrev monitor : VpsMonitor
monitor = record {
  enabled = true;
  poll_seconds = 300;
  tracker = some first;
  next_poll_at = pos 0;
  public_state = record {
    enabled = true;
    status = "ok";
    updated_at = none;
    checked_at = none;
    interface = none;
    last_sample = none;
    cycle = record {
      started_at = "then";
      coverage_started_at = none;
      totals = record { in_bytes = 0; out_bytes = 0; total_bytes = 0 };
    };
    error = none;
    confirmation = none;
  };
  stability =
      init "ok" (("disabled", 0) ∷ ("waiting", 0) ∷ ("baseline", 0) ∷ ("ok", 0) ∷ ("error", 1) ∷ [])
        2 2;
  samples = [];
}

abbrev polls : List (ℤ × Bool × Poll)
polls =
    (pos 300, false, read (reading 300 150))
    ∷ (pos 600, false, unsaved (reading 600 150) "disk full")
    ∷ (pos 900, true, unread "no route")
    ∷ (pos 1200, false, read (reading 1200 400))
    ∷ []

monitor-IsCounted : IsCounted outgoing "eth0" 200 200 monitor
unfolding baseline sum_bytes
monitor-IsCounted = record {
  counter = first;
  there = refl;
  named = refl;
  reached = omega arith;
  counted = omega arith;
}

run-IsCounted_example :
    (last : ℕ) × IsCounted outgoing "eth0" 200 last (run text_of midnight monitor polls)
run-IsCounted_example =
    run-IsCounted text_of midnight outgoing "eth0" 200 200 monitor polls
      (refl, omega arith, (refl, omega arith, (refl, omega arith, tt))) monitor-IsCounted

abbrev failing : VpsMonitor
failing = maybe_poll text_of midnight monitor (pos 300) false (unread "no route")

early : pos 599 <ℤ pos 300 +ℤ pos 300
unfolding ◌+ℤ◌
early = omega arith
