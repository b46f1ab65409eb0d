-- ===== src/Prelude/Sort.antt =====
-- `ORDER BY` and `sorted`: a stable insertion sort by a test for "stands before".
use Prim.Native.Nat.{ℕ, suc, Ordering}
use Prim.Native.String.{String, compare}
use mathlib.Core.Path.{◌≡◌, refl}
use mathlib.Core.Bool.{Bool, true, false}
use mathlib.Core.Logic.{inl, inr}
use mathlib.Core.List.{List, [], ◌∷◌}
use native.Mathlib.Omega.{arith}
use infra_sentinel.Prelude.Tests.{if◌then◌else◌, Bool-cases}
use infra_sentinel.Prelude.Lists.{length, All, take}

-- Texts by their code points, as Python and SQLite compare them.
abbrev pub text_lt : String → String → Bool
text_lt x y = elim (compare x y) [ Ordering.lt ↦ true | _ ↦ false ]

module _ {ℓ} {A : Type ℓ} where
  -- `insert` puts a row before the first one that does not stand before it.
  unfoldable pub insert : (A → A → Bool) → A → List A → List A
  insert before a [] = a ∷ []
  insert before a (x ∷ xs) = if before x a then x ∷ insert before a xs else a ∷ x ∷ xs

  unfoldable pub sort : (A → A → Bool) → List A → List A
  unfolding insert
  sort before [] = []
  sort before (x ∷ xs) = insert before x (sort before xs)

  length-insert :
      (before : A → A → Bool) (a : A) (xs : List A) → length (insert before a xs) ≡ suc (length xs)
  unfolding insert
  length-insert before a [] = refl
  length-insert before a (x ∷ xs) = ground (arith, length-insert before a xs)

  pub length-sort : (before : A → A → Bool) (xs : List A) → length (sort before xs) ≡ length xs
  unfolding sort
  length-sort before [] = refl
  length-sort before (x ∷ xs) =
      omega (arith, length-insert before x (sort before xs), length-sort before xs)

  module _ {κ} (P : A → Type κ) (before : A → A → Bool) where
    All-insert : (a : A) (xs : List A) → P a → All P xs → All P (insert before a xs)
    unfolding insert
    All-insert a [] p h = (p, tt)
    All-insert a (x ∷ xs) p h = elim (Bool-cases (before x a)) [
      | inl e ↦ rw e (h.0, All-insert a xs p h.1)
      | inr e ↦ rw e (p, h)
    ]

    pub All-sort : (xs : List A) → All P xs → All P (sort before xs)
    unfolding sort
    All-sort [] h = h
    All-sort (x ∷ xs) h = All-insert x (sort before xs) h.0 (All-sort xs h.1)

  pub All-take {κ} : (P : A → Type κ) (n : ℕ) (xs : List A) → All P xs → All P (take n xs)
  All-take P ℕ.zero xs h = tt
  All-take P (suc n) [] h = h
  All-take P (suc n) (x ∷ xs) h = (h.0, All-take P n xs h.1)
