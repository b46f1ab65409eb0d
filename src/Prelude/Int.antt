-- ===== src/Prelude/Int.antt =====
-- Signed integers over the native numbers, for differences of times and of counters.
use Prim.Native.Nat.{ℕ, suc, ◌+◌, ◌-◌, ◌*◌, ◌/◌, ◌≤◌, ◌<◌}
use mathlib.Core.Path.{◌≡◌}
use mathlib.Core.Logic.{◌↔◌}
use mathlib.Core.Bool.{Bool, true}
use native.Mathlib.Omega.{arith}
use infra_sentinel.Prelude.Tests.{ltb, leb, ◌==◌, if◌then◌else◌}

-- `negsuc n` is -(n + 1).
pub data ℤ : Type 0 where
  pos : ℕ → ℤ
  negsuc : ℕ → ℤ

abbrev pub pos_part : ℤ → ℕ
pos_part (pos n) = n
pos_part (negsuc n) = 0

abbrev pub neg_part : ℤ → ℕ
neg_part (pos n) = 0
neg_part (negsuc n) = suc n

-- a - b, as an integer.
abbrev pub sub_ℕ : ℕ → ℕ → ℤ
sub_ℕ a b = if leb b a then pos (a - b) else negsuc (b - a - 1)

infixl 65 ◌+ℤ◌ ◌-ℤ◌
infix 50 ◌≤ℤ◌ ◌<ℤ◌
unfoldable pub ◌+ℤ◌ : ℤ → ℤ → ℤ
a +ℤ b = sub_ℕ (pos_part a + pos_part b) (neg_part a + neg_part b)

unfoldable pub ◌-ℤ◌ : ℤ → ℤ → ℤ
a -ℤ b = sub_ℕ (pos_part a + neg_part b) (neg_part a + pos_part b)

-- a // s, rounded towards minus infinity.
unfoldable pub floor_div : ℤ → ℕ → ℤ
floor_div (pos a) s = pos (a / s)
floor_div (negsuc a) s = negsuc (a / s)

-- a * s, for a natural number s.
unfoldable pub scale : ℤ → ℕ → ℤ
scale (pos a) s = pos (a * s)
scale (negsuc a) s = sub_ℕ 0 (suc a * s)

abbrev pub ◌≤ℤ◌ : ℤ → ℤ → Type 0
a ≤ℤ b = pos_part a + neg_part b ≤ pos_part b + neg_part a

abbrev pub ◌<ℤ◌ : ℤ → ℤ → Type 0
a <ℤ b = pos_part a + neg_part b < pos_part b + neg_part a

abbrev pub ltb_ℤ : ℤ → ℤ → Bool
ltb_ℤ a b = ltb (pos_part a + neg_part b) (pos_part b + neg_part a)

abbrev pub leb_ℤ : ℤ → ℤ → Bool
leb_ℤ a b = leb (pos_part a + neg_part b) (pos_part b + neg_part a)

abbrev pub eqb_ℤ : ℤ → ℤ → Bool
eqb_ℤ a b = (pos_part a + neg_part b) == (pos_part b + neg_part a)

pub +ℤ_parts :
    (a b : ℤ)
    → pos_part (a +ℤ b) + neg_part a + neg_part b ≡ neg_part (a +ℤ b) + pos_part a + pos_part b
unfolding ◌+ℤ◌
+ℤ_parts a b = ground arith

pub -ℤ_parts :
    (a b : ℤ)
    → pos_part (a -ℤ b) + neg_part a + pos_part b ≡ neg_part (a -ℤ b) + pos_part a + neg_part b
unfolding ◌-ℤ◌
-ℤ_parts a b = ground arith

pub eq_of_parts : (a b : ℤ) → pos_part a + neg_part b ≡ pos_part b + neg_part a → a ≡ b
eq_of_parts a b h = ground arith

module _ (a : ℕ) (s : ℕ) (h : 0 < s) where
  quotient_bounds : (a / s * s ≤ a) × (a < a / s * s + s)
  quotient_bounds = (grind arith, grind arith)

  suc_quotient : suc (a / s) * s ≡ a / s * s + s
  suc_quotient = grind arith

-- floor_div a s * s is at most a, and less than s below it.
pub floor_div_le : (a : ℤ) (s : ℕ) → 0 < s → scale (floor_div a s) s ≤ℤ a
unfolding floor_div scale
floor_div_le (pos a) s h = omega (arith, (quotient_bounds a s h).0)
floor_div_le (negsuc a) s h = rw (suc_quotient a s h) (ground (arith, quotient_bounds a s h))

pub lt_floor_div : (a : ℤ) (s : ℕ) → 0 < s → a <ℤ scale (floor_div a s) s +ℤ pos s
unfolding floor_div scale ◌+ℤ◌
lt_floor_div (pos a) s h = ground (arith, quotient_bounds a s h)
lt_floor_div (negsuc a) s h = rw (suc_quotient a s h) (ground (arith, quotient_bounds a s h))

pub ruleset int_laws = (arith, +ℤ_parts, -ℤ_parts, eq_of_parts)

pub eqb_ℤ_iff : (a b : ℤ) → (eqb_ℤ a b ≡ true) ↔ (a ≡ b)
eqb_ℤ_iff (pos m) (pos n) = ground arith
eqb_ℤ_iff (pos m) (negsuc n) = ground arith
eqb_ℤ_iff (negsuc m) (pos n) = ground arith
eqb_ℤ_iff (negsuc m) (negsuc n) = ground arith
