-- ===== src/Prelude/Sums.antt =====
-- Sums over the values of a dictionary.
use mathlib.Core.Path.{◌≡◌, refl}
use mathlib.Core.Logic.{inl, inr}
use mathlib.Core.Bool.{Bool, not}
use mathlib.Core.Option.{Option, none, some}
use mathlib.Core.List.{List, [], ◌∷◌}
use native.Mathlib.Omega.{arith}
use Prim.Native.Nat.{ℕ, ◌+◌}
use infra_sentinel.Prelude.Tests.{Bool-cases}
use infra_sentinel.Prelude.Lists.{select}
use infra_sentinel.Prelude.Dict.{Eq, Dict, get, put}
use infra_sentinel.Prelude.Sort.{sort, insert}

abbrev pub total {ℓ κ} : {K : Type ℓ} {V : Type κ} → (V → ℕ) → List (K × V) → ℕ
total f [] = 0
total f ((k, v) ∷ rest) = f v + total f rest

abbrev pub value_at {κ} : {V : Type κ} → (V → ℕ) → Option V → ℕ
value_at f none = 0
value_at f (some v) = f v

module _ {ℓ κ} {K : Type ℓ} {V : Type κ} ⦃e : Eq K⦄ where
  pub total-put :
      (f : V → ℕ) (k : K) (v : V) (m : Dict K V)
      → total f (put k v m) + value_at f (get k m) ≡ total f m + f v
  unfolding put get
  total-put f k v [] = omega arith
  total-put f k v ((j, w) ∷ m) = elim (Bool-cases (e.beq j k)) [
    | inl same ↦ rw same (omega arith)
    | inr other ↦ rw other (omega (arith, total-put f k v m))
  ]

module _ {ℓ κ} {K : Type ℓ} {V : Type κ} (f : V → ℕ) where
  total-insert :
      (before : K × V → K × V → Bool) (a : K × V) (rows : List (K × V))
      → total f (insert before a rows) ≡ f a.1 + total f rows
  unfolding insert
  total-insert before a [] = refl
  total-insert before a (r ∷ rows) = elim (Bool-cases (before r a)) [
    | inl e ↦ rw e (omega (arith, total-insert before a rows))
    | inr e ↦ rw e refl
  ]

  pub total-sort :
      (before : K × V → K × V → Bool) (rows : List (K × V))
      → total f (sort before rows) ≡ total f rows
  unfolding sort
  total-sort before [] = refl
  total-sort before (r ∷ rows) =
      omega (arith, total-insert before r (sort before rows), total-sort before rows)

  -- What is selected, and the rest.
  pub total-select :
      (test : K × V → Bool) (rows : List (K × V))
      → total f (select test rows) + total f (select (λ r. not (test r)) rows) ≡ total f rows
  total-select test [] = omega arith
  total-select test (r ∷ rows) = elim (Bool-cases (test r)) [
    | inl e ↦ rw e (omega (arith, total-select test rows))
    | inr e ↦ rw e (omega (arith, total-select test rows))
  ]
