-- ===== src/StatusStability/Windows.antt =====
-- What one call of `observe` does to the window of the pending candidate.
use infra_sentinel.Prelude.{
  ℕ, ◌<◌, String, str_eq, eq_iff, ◌≡◌, Bool, false, Option, none, some, arith,
}
use infra_sentinel.Prelude.Dict.{Dict}
use infra_sentinel.StatusStability.{StatusStabilizer, init, required, observe}

-- A window is open for a candidate other than the status, and is shorter than the candidate needs.
abbrev pub IsOpen : StatusStabilizer → Option String → Type 0
IsOpen s none = s.pending_count ≡ 0
IsOpen s (some p) =
    (str_eq p s.status ≡ false) × (0 < s.pending_count) × (s.pending_count < required s p)

pub record IsValid (s : StatusStabilizer) : Type 0 where
  pub worsen : 0 < s.worsen_after
  pub recover : 0 < s.recover_after
  pub open_window : IsOpen s s.pending_status

pub init-IsValid :
    (status : String) (ranks : Dict String ℕ) (worsen recover : ℕ)
    → IsValid (init status ranks worsen recover)
unfolding init
init-IsValid status ranks worsen recover = ground arith

-- From a valid state, any observation, immediate or not, leads to a valid state.
pub observe-IsValid :
    (s : StatusStabilizer) (candidate : String) (immediate : Bool)
    → IsValid s
    → IsValid (observe s candidate immediate).0
unfolding observe
observe-IsValid s candidate immediate v = record {
  worsen = ground (arith, v.worsen);
  recover = ground (arith, v.recover);
  open_window = ground (arith, v.open_window, eq_iff candidate s.status);
}
