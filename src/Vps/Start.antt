-- ===== src/Vps/Start.antt =====
-- The monitor as it starts, from the samples on disk.
use infra_sentinel.Prelude.{
  ℕ, String, Bool, true, false, Option, none, some, List, [], ◌∷◌, if◌then◌else◌,
}
use infra_sentinel.Prelude.Int.{ℤ, pos}
use infra_sentinel.StatusStability.{init}
use infra_sentinel.Vps.{Baseline, Sample, PublicState, VpsMonitor, is_supported, cycle_of}

abbrev later : Option Sample → Sample → Option Sample
later none s = if is_supported s.schema then some s else none
later (some last) s = some last

-- The last sample of a known schema.
unfoldable pub latest : List Sample → Option Sample
latest [] = none
latest (s ∷ rest) = later (latest rest) s

abbrev status_of : Option Sample → String
status_of none = "waiting"
status_of (some s) = "ok"

abbrev timestamp_of : Option Sample → Option String
timestamp_of none = none
timestamp_of (some s) = some s.timestamp

abbrev interface_of : Option Sample → Option String
interface_of none = none
interface_of (some s) = some s.interface

module _ (iso_now : ℤ → String) (daily_usage_start_epoch : ℤ → ℤ) where
  -- `_initial_public_state`
  unfoldable pub initial_public_state : Bool → List Sample → ℤ → PublicState
  initial_public_state false samples now = record {
    enabled = false;
    status = "disabled";
    updated_at = none;
    checked_at = none;
    interface = none;
    last_sample = none;
    cycle = cycle_of iso_now daily_usage_start_epoch samples now;
    error = none;
    confirmation = none;
  }
  initial_public_state true samples now =
      let last = latest samples in
      record {
        enabled = true;
        status = status_of last;
        updated_at = timestamp_of last;
        checked_at = none;
        interface = interface_of last;
        last_sample = last;
        cycle = cycle_of iso_now daily_usage_start_epoch samples now;
        error = none;
        confirmation = none;
      }

  -- `__init__`: the first call polls.
  unfoldable pub initial_monitor : Bool → ℕ → Option Baseline → List Sample → ℤ → VpsMonitor
  initial_monitor enabled poll_seconds tracker samples now =
      let state = initial_public_state enabled samples now in
      record {
        enabled = enabled;
        poll_seconds = poll_seconds;
        tracker = tracker;
        next_poll_at = pos 0;
        public_state = state;
        stability =
            init state.status
              (("disabled", 0) ∷ ("waiting", 0) ∷ ("baseline", 0) ∷ ("ok", 0) ∷ ("error", 1) ∷ []) 2
              2;
        samples = samples;
      }
