-- ===== src/Xray/Tests.antt =====
-- Tests of the polls of a server, with two users.
use infra_sentinel.Prelude.{ℕ, ◌+◌, ◌≤◌, ◌≡◌, refl, true, false, none, some, List, [], ◌∷◌, arith}
use infra_sentinel.Prelude.Int.{pos}
use infra_sentinel.Prelude.Dict.{get, string_eq}
use infra_sentinel.StatusStability.{init}
use infra_sentinel.Xray.{
  UserTraffic, Users, Direction, uplink, Reading, XrayStatsTracker, SessionTotals, new_session,
}
use infra_sentinel.Xray.Public.{
  XrayStatsConfig, XrayStatsMonitor, PublicState, Poll, unread, unsaved, read, build_public_state,
  maybe_poll, poll,
}
use infra_sentinel.Xray.Session.{
  Event, polling, IsCovered, AdmitsAll, run, after_event, run-IsCovered,
}

abbrev traffic : ℕ → UserTraffic
traffic n = record { up_bytes = n; down_bytes = n + n }

abbrev reading : ℕ → ℕ → Reading
reading epoch n = record {
  timestamp = "then";
  epoch = pos epoch;
  users = ("a", traffic n) ∷ ("b", traffic 7) ∷ [];
}

abbrev config : XrayStatsConfig
config = record { enabled = true; poll_seconds = 60; expected_users = "a" ∷ []; flagged_users = [] }

abbrev monitor : XrayStatsMonitor
monitor = record {
  config = config;
  tracker = record { previous = ("a", traffic 100) ∷ []; previous_epoch = some (pos 0) };
  session = new_session (pos 0);
  next_poll_at = pos 0;
  public_state = build_public_state config (new_session (pos 0)) "waiting" none none none;
  stability =
      init "waiting"
        (("disabled", 0) ∷ ("waiting", 0) ∷ ("baseline", 0) ∷ ("ok", 0) ∷ ("error", 1) ∷ []) 2 2;
}

abbrev polls : List Event
polls =
    polling (pos 60) false (unread "timeout") ∷ polling (pos 120) true (read (reading 120 400)) ∷ []

polls-AdmitsAll : AdmitsAll uplink "a" monitor polls
unfolding AdmitsAll after_event maybe_poll poll infra_sentinel.Xray.Public.fail_poll get
polls-AdmitsAll = (tt, (((refl, (refl, tt)), rises), tt))
  where
    rises : (c : UserTraffic) → some (traffic 400) ≡ some c → 100 ≤ c.up_bytes
    rises c e = ground (arith, e)

monitor-IsCovered : IsCovered uplink "a" 100 monitor
unfolding get
monitor-IsCovered = ground arith

run-IsCovered_example : IsCovered uplink "a" 100 (run monitor polls)
run-IsCovered_example = run-IsCovered uplink "a" 100 monitor polls polls-AdmitsAll monitor-IsCovered
