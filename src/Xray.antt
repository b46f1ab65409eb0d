-- ===== src/Xray.antt =====
-- src/infra_sentinel/resources/network/xray.py: the traffic of each user of a server, its polls, and the totals of a
-- session. The SSH reader's outcome is what a poll is given; a user's name in a record is read by an argument.
-- Epochs are whole seconds. The baseline, session and sample files are left out, but for a write that fails.
pub mod Public
pub mod Growth
pub mod Session
mod Tests
use infra_sentinel.Prelude.{
  ℕ, ◌+◌, ◌-◌, String, str_eq, Bool, true, false, ◌&&◌, ◌||◌, not, Option, none, some, List, [],
  ◌∷◌, leb, or_default, if◌then◌else◌,
}
use infra_sentinel.Prelude.Int.{ℤ, pos, pos_part, ltb_ℤ, eqb_ℤ}
use infra_sentinel.Prelude.Dict.{Dict, get, put, string_eq}

pub record UserTraffic : Type 0 where
  pub up_bytes : ℕ
  pub down_bytes : ℕ

abbrev pub Users : Type 0
Users = Dict String UserTraffic

abbrev pub no_traffic : UserTraffic
no_traffic = record { up_bytes = 0; down_bytes = 0 }

pub data Direction : Type 0 where
  uplink : Direction
  downlink : Direction

unfoldable pub with_counter : Direction → ℕ → UserTraffic → UserTraffic
with_counter uplink n t = record t { up_bytes = n }
with_counter downlink n t = record t { down_bytes = n }

-- A record of the response: its name, and its value where it reads as an integer.
pub record StatRecord : Type 0 where
  pub name : String
  pub value : Option ℤ

unfoldable pub with_stat : Option (String × Direction) → Option ℤ → Users → Users
with_stat (some (label, direction)) (some n) users =
    put label (with_counter direction (pos_part n) (or_default (get label users) no_traffic)) users
with_stat _ _ users = users

-- `parse_xray_stats`, of the records of the response.
unfoldable pub parse_stats :
    (String → Option (String × Direction)) → Users → List StatRecord → Users
parse_stats match_user users [] = users
parse_stats match_user users (r ∷ rest) =
    parse_stats match_user (with_stat (match_user r.name) r.value users) rest

pub record Reading : Type 0 where
  pub timestamp : String
  pub epoch : ℤ
  pub users : Users

pub record XrayStatsTracker : Type 0 where
  pub previous : Users
  pub previous_epoch : Option ℤ

pub record Sample : Type 0 where
  pub timestamp : String
  pub epoch : ℤ
  pub interval_started_epoch : Option ℤ
  pub users : Users

abbrev pub grown : ℕ → ℕ → ℕ
grown current prior = if leb prior current then current - prior else 0

unfoldable pub delta : Option UserTraffic → UserTraffic → UserTraffic
delta none current = no_traffic
delta (some prior) current = record {
  up_bytes = grown current.up_bytes prior.up_bytes;
  down_bytes = grown current.down_bytes prior.down_bytes;
}

-- The loop over the users: the deltas, and the counters to come.
unfoldable pub apply_users : Users → Users → Users → Users → Users × Users
apply_users previous deltas next [] = (deltas, next)
apply_users previous deltas next ((label, current) ∷ rest) =
    apply_users previous (put label (delta (get label previous) current) deltas)
      (put label current next) rest

-- `XrayStatsTracker.apply`
unfoldable pub apply : XrayStatsTracker → Reading → XrayStatsTracker × Sample
apply t raw =
    let (deltas, next) = apply_users t.previous [] t.previous raw.users in
    (
      record { previous = next; previous_epoch = some raw.epoch },
      record {
        timestamp = raw.timestamp;
        epoch = raw.epoch;
        interval_started_epoch = t.previous_epoch;
        users = deltas;
      },
    )

-- The totals of a session.
pub record SessionTotals : Type 0 where
  pub started_epoch : Option ℤ
  pub coverage_started_epoch : Option ℤ
  pub totals : Users
  pub intervals : ℕ

abbrev pub new_session : ℤ → SessionTotals
new_session epoch = record {
  started_epoch = some epoch;
  coverage_started_epoch = none;
  totals = [];
  intervals = 0;
}

abbrev pub same_start : Option ℤ → ℤ → Bool
same_start none epoch = false
same_start (some started) epoch = eqb_ℤ started epoch

-- `align_session`: the session, and whether it is a new one.
unfoldable pub align_session : SessionTotals → Option ℤ → SessionTotals × Bool
align_session s none = (s, false)
align_session s (some epoch) =
    if same_start s.started_epoch epoch then (s, false) else (new_session epoch, true)

unfoldable pub add_users : Users → Users → Users
add_users totals [] = totals
add_users totals ((label, d) ∷ rest) =
    let total = or_default (get label totals) no_traffic in
    add_users
      (put label
        (record {
          up_bytes = total.up_bytes + d.up_bytes;
          down_bytes = total.down_bytes + d.down_bytes;
        })
        totals)
      rest

-- The session with a sample of an interval that began at an epoch.
unfoldable pub recorded : SessionTotals → ℤ → Sample → SessionTotals
recorded s began sample = record s {
  coverage_started_epoch = some (or_default s.coverage_started_epoch began);
  totals = add_users s.totals sample.users;
  intervals = s.intervals + 1;
}

-- `_record_session`: an interval that began before the session does not count.
unfoldable pub record_since : SessionTotals → Option ℤ → Option ℤ → Sample → SessionTotals
record_since s (some started) (some began) sample =
    if ltb_ℤ began started then s else recorded s began sample
record_since s _ _ sample = s

abbrev pub record_session : SessionTotals → Sample → SessionTotals
record_session s sample = record_since s s.started_epoch sample.interval_started_epoch sample
