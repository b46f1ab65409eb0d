-- ===== src/Prelude/Entries.antt =====
-- Predicates on all entries of a dictionary, and dictionaries with each key once.
use mathlib.Core.Path.{◌≡◌, refl, sym, subst, ap}
use mathlib.Core.Logic.{inl, inr}
use mathlib.Core.Bool.{Bool}
use mathlib.Core.Option.{Option, none, some, some-injective}
use mathlib.Core.List.{[], ◌∷◌}
use native.Mathlib.Omega.{arith}
use infra_sentinel.Prelude.Tests.{if◌then◌else◌, Bool-cases}
use infra_sentinel.Prelude.Lists.{All, select}
use infra_sentinel.Prelude.Dict.{Eq, Dict, get, put, get-put}

module _ {ℓ κ} {K : Type ℓ} {V : Type κ} ⦃e : Eq K⦄ where
  -- Each key stands once.
  abbrev pub Unique : Dict K V → Type κ
  Unique [] = Unit
  Unique ((k, v) ∷ m) = (get k m ≡ none) × Unique m

  module _ {μ} (P : K × V → Type μ) where
    pub All-put : (k : K) (v : V) (m : Dict K V) → P (k, v) → All P m → All P (put k v m)
    unfolding put
    All-put k v [] p h = (p, tt)
    All-put k v ((j, w) ∷ m) p h = elim (Bool-cases (e.beq j k)) [
      | inl same ↦ rw same (subst (λ i. P (i, v)) (sym ((e.beq_iff j k).0 same)) p, h.1)
      | inr other ↦ rw other (h.0, All-put k v m p h.1)
    ]

    pub All-get : (k : K) (m : Dict K V) {v : V} → All P m → get k m ≡ some v → P (k, v)
    unfolding get
    All-get k [] h g = cc
    All-get k ((j, w) ∷ m) {v} h g = elim (Bool-cases (e.beq j k)) [
      | inl same ↦
          let found : w ≡ v = some-injective _ _ (rw same at g) in
          subst (λ i. P (i, v)) ((e.beq_iff j k).0 same) (subst (λ x. P (j, x)) found h.0)
      | inr other ↦ All-get k m h.1 (rw other at g)
    ]

  pub Unique-put : (k : K) (v : V) (m : Dict K V) → Unique m → Unique (put k v m)
  unfolding put get
  Unique-put k v [] u = (refl, tt)
  Unique-put k v ((j, w) ∷ m) u = elim (Bool-cases (e.beq j k)) [
    | inl same ↦ rw same u
    | inr other ↦
        rw other
          (ground (arith, get-put k j v m, u.0, e.beq_iff j k, e.beq_iff k j), Unique-put k v m u.1)
  ]

  -- A key that is absent is absent from every part.
  pub get-select-none :
      (test : K × V → Bool) (k : K) (m : Dict K V) → get k m ≡ none → get k (select test m) ≡ none
  unfolding get
  get-select-none test k [] h = refl
  get-select-none test k ((j, w) ∷ m) h = elim (Bool-cases (e.beq j k)) [
    | inl same ↦ cc (h, ap (λ b. if b then some w else get k m) same)
    | inr other ↦ let rest = get-select-none test k m (rw other at h) in ground (arith, rest)
  ]

  pub Unique-select : (test : K × V → Bool) (m : Dict K V) → Unique m → Unique (select test m)
  Unique-select test [] u = u
  Unique-select test ((j, w) ∷ m) u = elim (Bool-cases (test (j, w))) [
    | inl kept ↦ rw kept (get-select-none test j m u.0, Unique-select test m u.1)
    | inr left ↦ rw left (Unique-select test m u.1)
  ]

  abbrev shown : (K × V → Bool) → K → V → Option V
  shown test k v = if test (k, v) then some v else none

  own_entry :
      (test : K × V → Bool) (j : K) (w : V) (m : Dict K V)
      → get j m ≡ none
      → get j (select test ((j, w) ∷ m)) ≡ shown test j w
  unfolding get
  own_entry test j w m h = elim (Bool-cases (test (j, w))) [
    | inl kept ↦ rw kept (rw ((e.beq_iff j j).1 refl))
    | inr left ↦ rw left (get-select-none test j m h)
  ]

  -- In a dictionary with each key once, a part holds an entry exactly when it passes the test.
  pub get-select :
      (test : K × V → Bool) (k : K) (m : Dict K V) {v : V}
      → Unique m
      → get k m ≡ some v
      → get k (select test m) ≡ (if test (k, v) then some v else none)
  unfolding get
  get-select test k [] u h = cc
  get-select test k ((j, w) ∷ m) {v} u h = elim (Bool-cases (e.beq j k)) [
    | inl same ↦
        let part = select test ((j, w) ∷ m) in
        let found : w ≡ v = some-injective _ _ (rw same at h) in
        let own = subst (λ x. get j part ≡ shown test j x) found (own_entry test j w m u.0) in
        subst (λ i. get i part ≡ shown test i v) ((e.beq_iff j k).0 same) own
    | inr other ↦
        let rest = get-select test k m u.1 (rw other at h) in
        elim (Bool-cases (test (j, w))) [
          | inl kept ↦ rw (kept, other) rest
          | inr left ↦ rw left rest
        ]
  ]
