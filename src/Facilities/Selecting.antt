-- ===== src/Facilities/Selecting.antt =====
-- What the selection of an adapter promises.
use infra_sentinel.Prelude.{
  ℕ, ◌≡◌, ◌⊎◌, refl, sym, ap, ◌∙◌, subst, String, str_eq, eq_iff, true, Option, none, some, List,
  [], ◌∷◌, map, All, arith, Bool-cases, Option-cases, inl, inr,
}
use infra_sentinel.Prelude.Texts.{unique_texts}
use infra_sentinel.Prelude.Sort.{sort, All-sort}
use mathlib.Core.Option.{some-injective}
use infra_sentinel.Facilities.Offers.{
  DiscoveryOffer, Registration, Adapter, AdapterSelection, has, selected_version, matches, matched,
  compatible_offers, first_offer, select_offer, first_selection, select_adapter,
}

-- A list holds an element.
abbrev pub Holds : {A : Type 0} → A → List A → Type 0
Holds a [] = ⊥
Holds a (x ∷ xs) = (x ≡ a) ⊎ Holds a xs

-- An offer, and the version that was chosen of it.
record IsMatch (named : String) (versions bindings : List String) (offers : List DiscoveryOffer)
    (m : ℕ × (DiscoveryOffer × String)) : Type 0 where
  protocol : m.1.0.protocol ≡ named
  binding : has m.1.0.binding bindings ≡ true
  advertised : has m.1.1 m.1.0.protocol_versions ≡ true
  wanted : has m.1.1 versions ≡ true
  offer : Holds m.1.0 offers

selected_version-has :
    (versions advertised : List String) (v : String)
    → selected_version versions advertised ≡ some v
    → (has v advertised ≡ true) × (has v versions ≡ true)
unfolding selected_version
selected_version-has [] advertised v h = absurd (ground (arith, h))
selected_version-has (u ∷ rest) advertised v h = elim (Bool-cases (has u advertised)) [
  | inl found ↦
      let e : u ≡ v = some-injective _ _ (rw found at h) in
      (subst (λ t. has t advertised ≡ true) e found, ground (arith, e, eq_iff v u))
  | inr missing ↦
      let (a, b) = selected_version-has rest advertised v (rw missing at h) in
      (a, ground (arith, b))
]

unique_texts-has :
    (seen texts : List String) (t : String)
    → has t (unique_texts seen texts) ≡ true
    → has t texts ≡ true
unfolding unique_texts
unique_texts-has seen [] t h = h
unique_texts-has seen (u ∷ rest) t h = elim (Bool-cases (has u seen)) [
  | inl known ↦ ground (arith, unique_texts-has seen rest t (rw known at h))
  | inr fresh ↦ elim (Bool-cases (str_eq t u)) [
    | inl same ↦ rw same refl
    | inr other ↦ rw other (unique_texts-has (u ∷ seen) rest t (rw other at rw fresh at h))
  ]
]

module _ (protocol : String) (versions bindings : List String) (offers : List DiscoveryOffer) where
  matched-IsMatch :
      (o : DiscoveryOffer) (v : Option String) (later : List (ℕ × (DiscoveryOffer × String)))
      → selected_version versions o.protocol_versions ≡ v
      → o.protocol ≡ protocol
      → has o.binding bindings ≡ true
      → Holds o offers
      → All (IsMatch protocol versions bindings offers) later
      → All (IsMatch protocol versions bindings offers) (matched bindings o v later)
  unfolding matched
  matched-IsMatch o none later e p b m h = h
  matched-IsMatch o (some v) later e p b m h =
      let (a, w) = selected_version-has versions o.protocol_versions v e in
      (record { protocol = p; binding = b; advertised = a; wanted = w; offer = m }, h)

  matches-IsMatch :
      (os : List DiscoveryOffer)
      → All (λ o. Holds o offers) os
      → All (IsMatch protocol versions bindings offers) (matches protocol versions bindings os)
  unfolding matches
  matches-IsMatch [] m = tt
  matches-IsMatch (o ∷ rest) m =
      let later = matches-IsMatch rest m.1 in
      elim (Bool-cases (str_eq o.protocol protocol)) [
        | inr foreign ↦ rw foreign later
        | inl own ↦ elim (Bool-cases (has o.binding bindings)) [
          | inr elsewhere ↦ rw (own, elsewhere) later
          | inl local ↦
              rw (own, local)
                (matched-IsMatch o (selected_version versions o.protocol_versions) _ refl
                  ((eq_iff _ _).0 own) local m.0 later)
        ]
      ]

holds_all :
    {A : Type 0} (xs ys : List A) → ((a : A) → Holds a xs → Holds a ys) → All (λ a. Holds a ys) xs
holds_all [] ys h = tt
holds_all (x ∷ xs) ys h = (h x (inl refl), holds_all xs ys (λ a m. h a (inr m)))

-- The selection is one that its adapter and its registration offer.
pub record IsOffered (bindings : List String) (r : Registration) (s : AdapterSelection)
    : Type 0 where
  pub version : s.protocol_version ≡ s.adapter.protocol_version
  pub protocol : s.offer.protocol ≡ s.adapter.protocol
  pub binding : has s.offer.binding bindings ≡ true
  pub advertised : has s.protocol_version s.offer.protocol_versions ≡ true
  pub offer : Holds s.offer r.offers

first_offer-IsOffered :
    (bindings : List String) (a : Adapter) (r : Registration) (s : AdapterSelection)
    → (ms : List (ℕ × (DiscoveryOffer × String)))
    → All (IsMatch a.protocol (a.protocol_version ∷ []) (unique_texts [] bindings) r.offers) ms
    → first_offer a (map (λ (m : ℕ × (DiscoveryOffer × String)). m.1) ms) ≡ some s
    → (s.adapter ≡ a) × IsOffered bindings r s
unfolding first_offer
first_offer-IsOffered bindings a r s [] m h = absurd (ground (arith, h))
first_offer-IsOffered bindings a r s ((i, (o, v)) ∷ rest) m h =
    let e : record { adapter = a; offer = o; protocol_version = v } ≡ s = some-injective _ _ h in
    let wanted : v ≡ a.protocol_version = only (m.0.wanted) in
    subst (λ t. (t.adapter ≡ a) × IsOffered bindings r t) e
      (
        refl,
        record {
          version = wanted;
          protocol = m.0.protocol;
          binding = unique_texts-has [] bindings o.binding m.0.binding;
          advertised = m.0.advertised;
          offer = m.0.offer;
        },
      )
  where
    only : has v (a.protocol_version ∷ []) ≡ true → v ≡ a.protocol_version
    only k = ground (arith, k, eq_iff v a.protocol_version)

-- The adapter that is selected for a registration is one of the adapters, and the offer is one of the
-- registration's: of the adapter's protocol, over a binding of the platform, and of the version that
-- the adapter speaks and the offer names.
pub select_adapter-IsOffered :
    (bindings : List String) (adapters : List Adapter) (r : Registration) (s : AdapterSelection)
    → select_adapter bindings adapters r ≡ some s
    → Holds s.adapter adapters × IsOffered bindings r s
unfolding select_adapter first_selection select_offer compatible_offers unique_texts
select_adapter-IsOffered bindings [] r s h = absurd (ground (arith, h))
select_adapter-IsOffered bindings (a ∷ rest) r s h =
    elim (Option-cases (select_offer bindings a r)) [
      | inl unknown ↦
          let (holds, offered) = select_adapter-IsOffered bindings rest r s (rw unknown at h) in
          (inr holds, offered)
      | inr (t, known) ↦
          let e : t ≡ s = some-injective _ _ (rw known at h) in
          let found =
            matches a.protocol (a.protocol_version ∷ []) (unique_texts [] bindings) r.offers in
          let (own, offered) =
            first_offer-IsOffered bindings a r s (sort _ found)
              (All-sort _ _ found (
                matches-IsMatch a.protocol (a.protocol_version ∷ []) (unique_texts [] bindings)
                  r.offers r.offers (holds_all r.offers r.offers (λ o m. m))))
              (known ∙ ap some e) in
          (inl (sym own), offered)
    ]
