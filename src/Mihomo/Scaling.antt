-- ===== src/Mihomo/Scaling.antt =====
-- `_scaled` of resources/network/mihomo.py: observations are scaled down to a total, by largest value.
use infra_sentinel.Prelude.{
  ℕ, zero, suc, ◌+◌, ◌-◌, ◌*◌, ◌/◌, ◌≤◌, ◌<◌, ◌≡◌, refl, Bool, List, [], ◌∷◌, map, ltb, leb, ◌==◌,
  ◌||◌, length, take, min, All, arith, length-take, length-map, if◌then◌else◌, Bool-cases, inl, inr,
}
use infra_sentinel.Prelude.Sort.{sort, All-sort, All-take, length-sort}

abbrev pub sum : List ℕ → ℕ
sum [] = 0
sum (x ∷ xs) = x + sum xs

unfoldable pub indexed : ℕ → List ℕ → List (ℕ × ℕ)
indexed i [] = []
indexed i (x ∷ xs) = (i, x) ∷ indexed (i + 1) xs

-- The larger value stands first, and of equal ones the earlier.
abbrev larger : ℕ × ℕ → ℕ × ℕ → Bool
larger a b = ltb b.1 a.1

unfoldable pub add_one : ℕ → List ℕ → List ℕ
add_one i [] = []
add_one zero (x ∷ xs) = suc x ∷ xs
add_one (suc i) (x ∷ xs) = x ∷ add_one i xs

-- `for index in order[:remaining]: scaled[index] += 1`
unfoldable pub add_ones : List (ℕ × ℕ) → List ℕ → List ℕ
add_ones [] scaled = scaled
add_ones ((i, v) ∷ order) scaled = add_ones order (add_one i scaled)

abbrev pub floors : ℕ → ℕ → List ℕ → List ℕ
floors target total values = map (λ v. v * target / total) values

unfoldable pub scale_down : List ℕ → ℕ → List ℕ
scale_down values target =
    let scaled = floors target (sum values) values in
    let order = sort larger (indexed 0 values) in add_ones (take (target - sum scaled) order) scaled

-- `_scaled`. The values and the target are no negative numbers, as the caller makes them.
unfoldable pub scaled : List ℕ → ℕ → List ℕ
scaled values target =
    if leb (sum values) target
    then values
    else if target == 0 || sum values == 0
    then map (λ v. 0) values
    else scale_down values target

length-add_one : (i : ℕ) (xs : List ℕ) → length (add_one i xs) ≡ length xs
unfolding add_one
length-add_one i [] = refl
length-add_one zero (x ∷ xs) = refl
length-add_one (suc i) (x ∷ xs) = omega (arith, length-add_one i xs)

sum-add_one : (i : ℕ) (xs : List ℕ) → i < length xs → sum (add_one i xs) ≡ sum xs + 1
unfolding add_one
sum-add_one i [] h = omega arith
sum-add_one zero (x ∷ xs) h = omega arith
sum-add_one (suc i) (x ∷ xs) h = omega (arith, sum-add_one i xs (omega (arith, h)))

add_ones-sum :
    (n : ℕ) (order : List (ℕ × ℕ)) (xs : List ℕ)
    → length xs ≡ n
    → All (λ (p : ℕ × ℕ). p.0 < n) order
    → (sum (add_ones order xs) ≡ sum xs + length order) × (length (add_ones order xs) ≡ n)
unfolding add_ones
add_ones-sum n [] xs e h = (omega arith, e)
add_ones-sum n ((i, v) ∷ order) xs e h =
    let kept = length-add_one i xs in
    let (total, size) = add_ones-sum n order (add_one i xs) (omega (arith, kept, e)) h.1 in
    (omega (arith, total, sum-add_one i xs (omega (arith, e, h.0))), size)

indexed_bound :
    (i n : ℕ) (xs : List ℕ) → i + length xs ≤ n → All (λ (p : ℕ × ℕ). p.0 < n) (indexed i xs)
unfolding indexed
indexed_bound i n [] h = tt
indexed_bound i n (x ∷ xs) h = (omega (arith, h), indexed_bound (i + 1) n xs (omega (arith, h)))

length-indexed : (i : ℕ) (xs : List ℕ) → length (indexed i xs) ≡ length xs
unfolding indexed
length-indexed i [] = refl
length-indexed i (x ∷ xs) = omega (arith, length-indexed (i + 1) xs)

quotient : (a d : ℕ) → 0 < d → (a / d * d ≤ a) × (a ≤ (a / d + 1) * d)
quotient a d h = (grind arith, grind arith)

-- The floors together are at most the target, and less than one for each value below it.
floors_bounds :
    (t d : ℕ) (xs : List ℕ)
    → 0 < d
    → (sum (floors t d xs) * d ≤ sum xs * t) × (sum xs * t ≤ (sum (floors t d xs) + length xs) * d)
floors_bounds t d [] h = (omega arith, omega arith)
floors_bounds t d (x ∷ xs) h =
    let (low, high) = floors_bounds t d xs h in
    let (below, above) = quotient (x * t) d h in
    (grind (arith, low, below), grind (arith, high, above))

cancel : (a b d : ℕ) → 0 < d → a * d ≤ b * d → a ≤ b
cancel a b d h le = grind (arith, le)

sum_zeros : (xs : List ℕ) → sum (map (λ v. 0) xs) ≡ 0
sum_zeros [] = refl
sum_zeros (x ∷ xs) = omega (arith, sum_zeros xs)

scale_down-sum :
    (values : List ℕ) (target : ℕ)
    → target < sum values
    → (sum (scale_down values target) ≡ target)
      × (length (scale_down values target) ≡ length values)
unfolding scale_down
scale_down-sum values target h =
    let down = floors target (sum values) values in
    let order = sort larger (indexed 0 values) in
    let n = length values in
    let (low, high) = floors_bounds target (sum values) values (omega (arith, h)) in
    let fits = cancel (sum down) target (sum values) (omega (arith, h)) (omega (arith, low)) in
    let near = cancel target (sum down + n) (sum values) (omega (arith, h)) (omega (arith, high)) in
    let size = length-sort larger (indexed 0 values) in
    let (total, length') =
      add_ones-sum n (take (target - sum down) order) down
        (length-map (λ v. v * target / sum values) values)
        (All-take (λ (p : ℕ × ℕ). p.0 < n) (target - sum down) order
          (All-sort (λ (p : ℕ × ℕ). p.0 < n) larger (indexed 0 values)
            (indexed_bound 0 n values (omega arith)))) in
    (
      omega (
        arith,
        total,
        fits,
        near,
        size,
        length-indexed 0 values,
        length-take (target - sum down) order,
      ),
      length',
    )

-- Scaled values keep their number, and add up to the smaller of their total and the target: they never
-- exceed it, and where they did it is used up to the last byte.
pub scaled-sum :
    (values : List ℕ) (target : ℕ)
    → (sum (scaled values target) ≡ min (sum values) target)
      × (length (scaled values target) ≡ length values)
unfolding scaled
scaled-sum values target = elim (Bool-cases (leb (sum values) target)) [
  | inl few ↦ rw few (ground (arith, few), refl)
  | inr many ↦ rw many (elim (Bool-cases (target == 0 || sum values == 0)) [
    | inl none ↦ rw none (ground (arith, none, many, sum_zeros values), length-map (λ v. 0) values)
    | inr some ↦
        let (total, size) = scale_down-sum values target (ground (arith, many)) in
        rw some (ground (arith, total, many), size)
  ])
]
