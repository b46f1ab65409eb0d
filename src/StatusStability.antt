-- ===== src/StatusStability.antt =====
-- src/infra_sentinel/core/status_stability.py: confirmation windows for health states.
-- A stabilizer is its record of fields; `observe` returns the new record and the decision. Ranks
-- and window lengths are natural numbers, as every caller passes them.
pub mod Windows
pub mod Runs
mod Tests
use infra_sentinel.Prelude.{
  ℕ, ◌+◌, max, String, str_eq, Bool, true, false, not, Option, none, some, ltb, or_default,
  if◌then◌else◌,
}
use infra_sentinel.Prelude.Dict.{Dict, get, string_eq}

pub record StatusDecision : Type 0 where
  pub status : String
  pub changed : Bool
  pub pending_status : Option String
  pub pending_count : ℕ
  pub required_count : ℕ

pub record StatusStabilizer : Type 0 where
  pub status : String
  pub ranks : Dict String ℕ
  pub worsen_after : ℕ
  pub recover_after : ℕ
  pub pending_status : Option String
  pub pending_count : ℕ

-- `__init__`
unfoldable pub init : String → Dict String ℕ → ℕ → ℕ → StatusStabilizer
init initial_status ranks worsen_after recover_after = record {
  status = initial_status;
  ranks = ranks;
  worsen_after = max 1 worsen_after;
  recover_after = max 1 recover_after;
  pending_status = none;
  pending_count = 0;
}

-- The number of observations in a row that a candidate needs while `status` is confirmed.
unfoldable pub window : Dict String ℕ → ℕ → ℕ → String → String → ℕ
window ranks worsen_after recover_after status candidate =
    let current_rank = or_default (get status ranks) 0 in
    let candidate_rank = or_default (get candidate ranks) current_rank in
    if ltb current_rank candidate_rank then worsen_after else recover_after

abbrev pub required : StatusStabilizer → String → ℕ
required s candidate = window s.ranks s.worsen_after s.recover_after s.status candidate

-- `self.pending_status == candidate`
abbrev pub is_pending : Option String → String → Bool
is_pending none candidate = false
is_pending (some p) candidate = str_eq p candidate

-- The assignment of a new status with the pending candidate cleared.
unfoldable pub settle : StatusStabilizer → String → StatusStabilizer
settle s status = record s { status = status; pending_status = none; pending_count = 0 }

abbrev pub settled : String → Bool → StatusDecision
settled status changed = record {
  status = status;
  changed = changed;
  pending_status = none;
  pending_count = 0;
  required_count = 0;
}

-- `observe(candidate, immediate=...)`
unfoldable pub observe : StatusStabilizer → String → Bool → StatusStabilizer × StatusDecision
unfolding settle
observe s candidate immediate =
    let pending_count = if is_pending s.pending_status candidate then s.pending_count + 1 else 1 in
    if str_eq candidate s.status
    then (settle s s.status, settled s.status false)
    else if immediate
    then (settle s candidate, settled candidate (not (str_eq candidate s.status)))
    else if ltb pending_count (required s candidate)
    then (
      record s { pending_status = some candidate; pending_count = pending_count },
      record {
        status = s.status;
        changed = false;
        pending_status = some candidate;
        pending_count = pending_count;
        required_count = required s candidate;
      },
    )
    else (settle s candidate, settled candidate (not (str_eq candidate s.status)))
