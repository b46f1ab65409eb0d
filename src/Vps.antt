-- ===== src/Vps.antt =====
-- src/infra_sentinel/resources/network/vps.py: the deltas of a server's interface counters, their
-- daily sums, and the polls. The SSH reader's outcome, the local midnight of an epoch and the text
-- of an epoch are arguments; epochs are whole seconds. The sample log is a list: the rotation of its
-- files by size is left out, and so are the configured names that every state repeats.
pub mod Deltas
pub mod Log
pub mod Polls
pub mod Start
mod Tests
use infra_sentinel.Prelude.{
  ℕ, ◌+◌, ◌-◌, ◌==◌, String, str_eq, Bool, true, false, ◌&&◌, ◌||◌, not, Option, none, some, List,
  [], ◌∷◌, ◌++◌, leb, select, is_some, if◌then◌else◌,
}
use mathlib.Core.Option
use infra_sentinel.Prelude.Int.{ℤ, pos, ◌+ℤ◌, ltb_ℤ, leb_ℤ}
use infra_sentinel.StatusStability.{StatusStabilizer, StatusDecision, observe}

-- A snapshot of the counters, as `read_vps_counters` returns it.
pub record Reading : Type 0 where
  pub timestamp : String
  pub epoch : ℤ
  pub interface : String
  pub in_bytes : ℕ
  pub out_bytes : ℕ
  pub in_packets : ℕ
  pub out_packets : ℕ

-- `previous`: a baseline restored from an older file has no packets, or no epoch.
pub record Baseline : Type 0 where
  pub interface : String
  pub in_bytes : ℕ
  pub out_bytes : ℕ
  pub packets : Option (ℕ × ℕ)
  pub epoch : Option ℤ

pub record Sample : Type 0 where
  pub schema : ℕ
  pub timestamp : String
  pub epoch : ℤ
  pub interface : String
  pub in_bytes : ℕ
  pub out_bytes : ℕ
  pub in_packets : ℕ
  pub out_packets : ℕ
  pub packet_counters_ready : Bool
  pub interval_started_epoch : Option ℤ

abbrev same_interface : Option Baseline → Reading → Bool
same_interface none raw = false
same_interface (some prior) raw = str_eq prior.interface raw.interface

-- A counter's growth, or 0 when it was reset or there is nothing to compare with.
unfoldable pub byte_delta : Bool → ℕ → ℕ → ℕ
byte_delta same now prior = if same && leb prior now then now - prior else 0

abbrev in_bytes_of : Option Baseline → ℕ
in_bytes_of none = 0
in_bytes_of (some prior) = prior.in_bytes

abbrev out_bytes_of : Option Baseline → ℕ
out_bytes_of none = 0
out_bytes_of (some prior) = prior.out_bytes

abbrev packets_of : Option Baseline → Option (ℕ × ℕ)
packets_of none = none
packets_of (some prior) = prior.packets

abbrev epoch_of : Option Baseline → Option ℤ
epoch_of none = none
epoch_of (some prior) = prior.epoch

-- Whether both packet counters grew, and by how much: they are used together or not at all.
unfoldable pub packet_deltas : Bool → Option (ℕ × ℕ) → ℕ → ℕ → Bool × (ℕ × ℕ)
packet_deltas same none received sent = (false, (0, 0))
packet_deltas same (some (i, o)) received sent =
    if same && leb i received && leb o sent
    then (true, (received - i, sent - o))
    else (false, (0, 0))

unfoldable pub baseline : Reading → Baseline
baseline raw = record {
  interface = raw.interface;
  in_bytes = raw.in_bytes;
  out_bytes = raw.out_bytes;
  packets = some (raw.in_packets, raw.out_packets);
  epoch = some raw.epoch;
}

-- `VpsCounterTracker.apply`
unfoldable pub apply : Option Baseline → Reading → Option Baseline × Sample
unfolding baseline
apply prior raw =
    let same = same_interface prior raw in
    let packets = packet_deltas same (packets_of prior) raw.in_packets raw.out_packets in
    (
      some (baseline raw),
      record {
        schema = 3;
        timestamp = raw.timestamp;
        epoch = raw.epoch;
        interface = raw.interface;
        in_bytes = byte_delta same raw.in_bytes (in_bytes_of prior);
        out_bytes = byte_delta same raw.out_bytes (out_bytes_of prior);
        in_packets = packets.1.0;
        out_packets = packets.1.1;
        packet_counters_ready = packets.0;
        interval_started_epoch = if same then epoch_of prior else none;
      },
    )

pub record Totals : Type 0 where
  pub in_bytes : ℕ
  pub out_bytes : ℕ
  pub total_bytes : ℕ

abbrev pub is_supported : ℕ → Bool
is_supported schema = schema == 1 || schema == 2 || schema == 3

-- A sample of a known schema, at or after an epoch.
abbrev pub is_counted : ℤ → Sample → Bool
is_counted since s = is_supported s.schema && leb_ℤ since s.epoch

unfoldable pub sum_bytes : List Sample → ℕ × ℕ
sum_bytes [] = (0, 0)
sum_bytes (s ∷ rest) = let sums = sum_bytes rest in (s.in_bytes + sums.0, s.out_bytes + sums.1)

-- `sum_vps_samples`
unfoldable pub sum_vps_samples : List Sample → ℤ → Totals
sum_vps_samples samples since =
    let sums = sum_bytes (select (is_counted since) samples) in
    record { in_bytes = sums.0; out_bytes = sums.1; total_bytes = sums.0 + sums.1 }

pub record Cycle : Type 0 where
  pub started_at : String
  pub coverage_started_at : Option String
  pub totals : Totals

unfoldable pub earliest : List Sample → Option ℤ
earliest [] = none
earliest (s ∷ rest) = elim (earliest rest) [
  | none ↦ some s.epoch
  | some e ↦ some (if leb_ℤ s.epoch e then s.epoch else e)
]

pub record Confirmation : Type 0 where
  pub candidate_status : String
  pub consecutive : ℕ
  pub required : ℕ

-- `_confirmation`
unfoldable pub confirmation_of : StatusDecision → Option Confirmation
confirmation_of d = elim d.pending_status [
  | none ↦ none
  | some p ↦
      some (record {
        candidate_status = p;
        consecutive = d.pending_count;
        required = d.required_count;
      })
]

-- `public_state`, less the configured names.
pub record PublicState : Type 0 where
  pub enabled : Bool
  pub status : String
  pub updated_at : Option String
  pub checked_at : Option String
  pub interface : Option String
  pub last_sample : Option Sample
  pub cycle : Cycle
  pub error : Option String
  pub confirmation : Option Confirmation

pub record VpsMonitor : Type 0 where
  pub enabled : Bool
  pub poll_seconds : ℕ
  pub tracker : Option Baseline
  pub next_poll_at : ℤ
  pub public_state : PublicState
  pub stability : StatusStabilizer
  pub samples : List Sample

-- What the `try` block meets: the reader raises, a file cannot be written after the reading, or
-- neither. A failure carries the exception's text, already cut to 500 characters.
pub data Poll : Type 0 where
  unread : String → Poll
  unsaved : Reading → String → Poll
  read : Reading → Poll

module _ (iso_now : ℤ → String) (daily_usage_start_epoch : ℤ → ℤ) where
  -- `_cycle`
  unfoldable pub cycle_of : List Sample → ℤ → Cycle
  cycle_of samples now =
      let since = daily_usage_start_epoch now in
      let eligible = select (is_counted since) samples in
      record {
        started_at = iso_now since;
        coverage_started_at = Option.map iso_now (earliest eligible);
        totals = sum_vps_samples eligible since;
      }

  -- The `except` branch.
  unfoldable pub fail_poll : VpsMonitor → ℤ → String → VpsMonitor
  fail_poll m now text =
      let (stability, decision) = observe m.stability "error" false in
      record m {
        stability = stability;
        public_state = record m.public_state {
          enabled = true;
          status = decision.status;
          checked_at = some (iso_now now);
          cycle = cycle_of m.samples now;
          error = if str_eq decision.status "error" then some text else none;
          confirmation = confirmation_of decision;
        };
      }

  -- The `try` block once the sample is on disk.
  unfoldable pub finish_poll : VpsMonitor → ℤ → Bool → Sample → VpsMonitor
  finish_poll m now was_uninitialized sample =
      let immediate = str_eq m.stability.status "waiting" || str_eq m.stability.status "baseline" in
      let (stability, decision) =
        observe m.stability (if was_uninitialized then "baseline" else "ok") immediate in
      record m {
        stability = stability;
        public_state = record {
          enabled = true;
          status = decision.status;
          updated_at = some sample.timestamp;
          checked_at = some (iso_now now);
          interface = some sample.interface;
          last_sample = some sample;
          cycle = cycle_of m.samples sample.epoch;
          error = none;
          confirmation = confirmation_of decision;
        };
      }

  unfoldable pub poll : VpsMonitor → ℤ → Poll → VpsMonitor
  poll m now (unread text) = fail_poll m now text
  poll m now (unsaved raw text) =
      fail_poll (record m { tracker = (apply m.tracker raw).0 }) now text
  poll m now (read raw) =
      let (tracker, sample) = apply m.tracker raw in
      finish_poll (record m { tracker = tracker; samples = m.samples ++ (sample ∷ []) }) now
        (not (is_some m.tracker)) sample

  unfoldable pub disabled : VpsMonitor → ℤ → VpsMonitor
  disabled m now = record m {
    stability = (observe m.stability "disabled" true).0;
    public_state = record {
      enabled = false;
      status = "disabled";
      updated_at = none;
      checked_at = none;
      interface = none;
      last_sample = none;
      cycle = cycle_of m.samples now;
      error = none;
      confirmation = none;
    };
  }

  -- `maybe_poll`
  unfoldable pub maybe_poll : VpsMonitor → ℤ → Bool → Poll → VpsMonitor
  maybe_poll m now force outcome =
      if not m.enabled
      then disabled m now
      else if force || leb_ℤ m.next_poll_at now
      then poll (record m { next_poll_at = now +ℤ pos m.poll_seconds }) now outcome
      else m
