-- ===== src/Aggregation/Time.antt =====
-- `bucket_start`: the start of the aligned bucket in which an epoch lies.
use infra_sentinel.Prelude.{ℕ, suc, ◌+◌, ◌-◌, ◌*◌, ◌/◌, ◌<◌, ◌≡◌, arith}
use infra_sentinel.Prelude.Int.{
  ℤ, pos, negsuc, ◌+ℤ◌, ◌-ℤ◌, ◌≤ℤ◌, ◌<ℤ◌, floor_div, scale, floor_div_le, lt_floor_div, int_laws,
  +ℤ_parts, -ℤ_parts,
}

unfoldable pub bucket_start : ℤ → ℕ → ℕ → ℤ
bucket_start epoch seconds offset =
    scale (floor_div (epoch -ℤ pos offset) seconds) seconds +ℤ pos offset

-- An epoch lies in its bucket: at or after the start, and less than the bucket's length after it.
pub bucket_start_bounds :
    (epoch : ℤ) (seconds offset : ℕ)
    → 0 < seconds
    → (bucket_start epoch seconds offset ≤ℤ epoch)
      × (epoch <ℤ bucket_start epoch seconds offset +ℤ pos seconds)
unfolding bucket_start
bucket_start_bounds epoch seconds offset h =
    let e = epoch -ℤ pos offset in
    let start = scale (floor_div e seconds) seconds in
    (
      omega (
        arith,
        floor_div_le e seconds h,
        +ℤ_parts start (pos offset),
        -ℤ_parts epoch (pos offset),
      ),
      omega (
        arith,
        lt_floor_div e seconds h,
        +ℤ_parts start (pos offset),
        +ℤ_parts start (pos seconds),
        +ℤ_parts (start +ℤ pos offset) (pos seconds),
        -ℤ_parts epoch (pos offset),
      ),
    )

suc_times : (q s : ℕ) → suc q * s ≡ q * s + s
suc_times q s = grind arith

div_exact : (q s r : ℕ) → r < s → (q * s + r) / s ≡ q
div_exact q s r h = grind arith

floor_div-scale : (q : ℤ) (s : ℕ) → 0 < s → floor_div (scale q s) s ≡ q
unfolding floor_div scale
floor_div-scale (pos q) s h = ground (arith, div_exact q s 0)
floor_div-scale (negsuc q) s h = ground (arith, div_exact q s (s - 1), suc_times q s)

-- A bucket's start is its own start: aligning twice is aligning once.
pub bucket_start_again :
    (epoch : ℤ) (seconds offset : ℕ)
    → 0 < seconds
    → bucket_start (bucket_start epoch seconds offset) seconds offset
      ≡ bucket_start epoch seconds offset
unfolding bucket_start
bucket_start_again epoch seconds offset h =
    let q = floor_div (epoch -ℤ pos offset) seconds in
    let cancel : scale q seconds +ℤ pos offset -ℤ pos offset ≡ scale q seconds = omega int_laws in
    rw (cancel, floor_div-scale q seconds h)
