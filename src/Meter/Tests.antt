-- ===== src/Meter/Tests.antt =====
-- Tests of the meter of a session, with two servers.
use infra_sentinel.Prelude.{
  ℕ, ◌≡◌, ◌+◌, refl, String, true, false, not, any, none, some, List, [], ◌∷◌,
}
use infra_sentinel.Prelude.Int.{ℤ, pos}
use infra_sentinel.Prelude.Dict.{get, put, string_eq}
use infra_sentinel.Mihomo.{proxy, known}
use infra_sentinel.Vps
use infra_sentinel.Vps.Start.{initial_monitor}
use infra_sentinel.Meter.{
  LocalSample, RemoteRow, SessionMeter, Counts, empty_vps, empty_traffic, empty_routes, route_names,
  set_vps_baseline,
}
use infra_sentinel.Meter.Sums.{
  Quantity, in_bytes, covered_out, Balances, Event, resetting, baselining, recording, run,
  IsBalanced, run-IsBalanced,
}
use infra_sentinel.Meter.Recording.{record_session}
use infra_sentinel.Meter.Repeats.{record_again}
use infra_sentinel.Meter.Baselines.{is_unsampled, set_vps_baseline_ends, first_failure_raises}

abbrev meter : SessionMeter
meter = record {
  expected_interval_seconds = 60;
  started_epoch = none;
  started_reason = "";
  kernel = empty_traffic;
  services = [];
  routes = empty_routes route_names;
  attribution_observed_bytes = 0;
  attribution_unattributed_bytes = 0;
  vps = empty_vps;
  vps_servers = [];
  history = [];
}

abbrev text_of : ℤ → String
text_of now = "then"

abbrev midnight : ℤ → ℤ
midnight now = pos 0

abbrev vps_sample : ℕ → ℕ → Vps.Sample
vps_sample epoch bytes = record {
  schema = 3;
  timestamp = "then";
  epoch = pos (epoch + 300);
  interface = "eth0";
  in_bytes = bytes;
  out_bytes = bytes + bytes;
  in_packets = 1;
  out_packets = 2;
  packet_counters_ready = true;
  interval_started_epoch = some (pos epoch);
}

abbrev row : String → Vps.Sample → RemoteRow
row id s = record {
  id = id;
  label = id;
  billing_mode = "both";
  vps = (initial_monitor text_of midnight true 300 none (s ∷ []) (pos 0)).public_state;
}

abbrev waiting_row : RemoteRow
waiting_row = record {
  id = "c";
  label = "c";
  billing_mode = "both";
  vps = (initial_monitor text_of midnight true 300 none [] (pos 0)).public_state;
}

abbrev local : LocalSample
local = record {
  epoch = pos 900;
  observed_ms = 60000;
  interval_kind = none;
  expected_interval_seconds = none;
  kernel = record { up_bytes = 5; down_bytes = 6 };
  services = (known "s", record { label = []; up_bytes = 5; down_bytes = 6; hosts = [] }) ∷ [];
  routes = (proxy, record { up_bytes = 5; down_bytes = 6 }) ∷ [];
  observed_bytes = 11;
  unattributed_bytes = 0;
}

abbrev events : List Event
events =
    recording local (row "a" (vps_sample 0 10) ∷ waiting_row ∷ []) true
    ∷ recording local (row "a" (vps_sample 300 20) ∷ row "b" (vps_sample 900 7) ∷ []) true
    ∷ recording local (row "a" (vps_sample 900 40) ∷ row "b" (vps_sample 900 7) ∷ []) false
    ∷ []

events_in_bytes : (run meter events).vps.in_bytes ≡ 47
unfolding run infra_sentinel.Meter.Sums.after_event infra_sentinel.Meter.Recording.record_in
    set_vps_baseline infra_sentinel.Meter.baseline_rows infra_sentinel.Meter.baseline_row
    infra_sentinel.Meter.row_baseline infra_sentinel.Meter.sample_baseline
    infra_sentinel.Meter.reset infra_sentinel.Meter.clear
    infra_sentinel.Meter.Recording.record_remote infra_sentinel.Meter.Recording.record_rows
    infra_sentinel.Meter.Recording.record_sample infra_sentinel.Meter.Recording.record_from
    infra_sentinel.Meter.Recording.record_interval infra_sentinel.Meter.Recording.add_counts
    infra_sentinel.Meter.Recording.record_local initial_monitor
    infra_sentinel.Vps.Start.initial_public_state infra_sentinel.Vps.Start.latest get put
events_in_bytes = refl

meter-IsBalanced : IsBalanced meter
meter-IsBalanced = infra_sentinel.Meter.Sums.amount_empty

run-IsBalanced_example : IsBalanced (run meter events)
run-IsBalanced_example = run-IsBalanced meter events meter-IsBalanced

set_vps_baseline_ends_example :
    (set_vps_baseline meter (row "a" (vps_sample 0 10) ∷ waiting_row ∷ [])).1
    ≡ not (any is_unsampled (row "a" (vps_sample 0 10) ∷ waiting_row ∷ []))
set_vps_baseline_ends_example =
    set_vps_baseline_ends meter (row "a" (vps_sample 0 10) ∷ waiting_row ∷ [])

first_failure_raises_example :
    set_vps_baseline meter (
      record {
        id = "c";
        label = "c";
        billing_mode = "both";
        vps =
            (Vps.maybe_poll text_of midnight
              (initial_monitor text_of midnight true 300 none [] (pos 0))
              (pos 9)
              true
              (Vps.unread "timeout")).public_state;
      }
      ∷ row "a" (vps_sample 0 10)
      ∷ [])
    ≡ (meter, false)
first_failure_raises_example =
    first_failure_raises text_of midnight 300 none (pos 0) (pos 9) true "timeout" "c" "c" "both"
      (row "a" (vps_sample 0 10) ∷ []) meter

abbrev session : SessionMeter
session = record meter { started_epoch = some (pos 300) }

record_again_example :
    let rows = row "a" (vps_sample 300 20) ∷ row "b" (vps_sample 900 7) ∷ [] in
    let once = (record_session session local rows true).0 in
    (record_session once local rows false).0.vps ≡ once.vps
record_again_example =
    record_again session (pos 300) local local
      (row "a" (vps_sample 300 20) ∷ row "b" (vps_sample 900 7) ∷ []) true false refl
      ((refl, tt), (tt, tt))
