-- ===== src/Values.antt =====
-- Values of a decoded JSON request, as far as the code tells them apart. A float is one with a whole
-- number for its value, or one that is not finite; what arrays and objects hold is not looked at.
use infra_sentinel.Prelude.{ℕ, String, Bool, Option, none, some, leb, if◌then◌else◌}
use infra_sentinel.Prelude.Int.{ℤ, pos, negsuc}

pub data Value : Type 0 where
  null : Value
  boolean : Bool → Value
  int : ℤ → Value
  float : ℤ → Value
  not_finite : Value
  text : String → Value
  array : Value
  object : Value

-- The largest epoch that `valid_epoch` of core/diagnostics.py accepts.
abbrev pub max_epoch : ℕ
max_epoch = 253402300799

-- A number in 0 .. max_epoch.
abbrev bounded_epoch : ℤ → Option ℕ
bounded_epoch (pos n) = if leb n max_epoch then some n else none
bounded_epoch (negsuc n) = none

-- `valid_epoch`: a bool is no number.
unfoldable pub valid_epoch : Value → Option ℕ
valid_epoch (int z) = bounded_epoch z
valid_epoch (float z) = bounded_epoch z
valid_epoch _ = none
