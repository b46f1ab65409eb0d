-- ===== src/Facilities/Offers.antt =====
-- The offers of a registration, and the adapter that is selected for it:
-- resources/facilities/discovery.py and resources/facilities/protocols.py.
pub use infra_sentinel.Prelude.Texts.{has}
use infra_sentinel.Prelude.Texts.{unique_texts}
use infra_sentinel.Prelude.{
  ℕ, suc, String, str_eq, Bool, true, false, ◌&&◌, ◌||◌, not, Option, none, some, List, [], ◌∷◌,
  ltb, map, if◌then◌else◌,
}
use infra_sentinel.Prelude.Sort.{sort}

pub record DiscoveryOffer : Type 0 where
  pub protocol : String
  pub protocol_versions : List String
  pub binding : String
  pub endpoint : String

pub record Registration : Type 0 where
  pub path : String
  pub kind : String
  pub instance_id : String
  pub generation : String
  pub offers : List DiscoveryOffer

-- What selects and shows a facility; the rest of an adapter is its wire.
pub record Adapter : Type 0 where
  pub protocol : String
  pub protocol_version : String
  pub label : String

pub record AdapterSelection : Type 0 where
  pub adapter : Adapter
  pub offer : DiscoveryOffer
  pub protocol_version : String

-- `next((version for version in preference if version in advertised), None)`
unfoldable pub selected_version : List String → List String → Option String
selected_version [] advertised = none
selected_version (v ∷ rest) advertised =
    if has v advertised then some v else selected_version rest advertised

-- `binding_preference.index(binding)`, of a binding that is there.
unfoldable pub index_of : String → List String → ℕ
index_of text [] = 0
index_of text (t ∷ rest) = if str_eq t text then 0 else suc (index_of text rest)

abbrev Match : Type 0
Match = ℕ × (DiscoveryOffer × String)

unfoldable pub matched : List String → DiscoveryOffer → Option String → List Match → List Match
matched bindings o none later = later
matched bindings o (some version) later = (index_of o.binding bindings, (o, version)) ∷ later

unfoldable pub matches : String → List String → List String → List DiscoveryOffer → List Match
matches protocol versions bindings [] = []
matches protocol versions bindings (o ∷ rest) =
    let later = matches protocol versions bindings rest in
    if not (str_eq o.protocol protocol) || not (has o.binding bindings)
    then later
    else matched bindings o (selected_version versions o.protocol_versions) later

abbrev preferred : Match → Match → Bool
preferred a b = ltb a.0 b.0

-- `Registration.compatible_offers`
unfoldable pub compatible_offers :
    Registration → String → List String → List String → List (DiscoveryOffer × String)
compatible_offers r protocol versions bindings =
    map (λ (m : Match). m.1)
      (sort preferred
        (matches protocol (unique_texts [] versions) (unique_texts [] bindings) r.offers))

unfoldable pub first_offer : Adapter → List (DiscoveryOffer × String) → Option AdapterSelection
first_offer a [] = none
first_offer a ((offer, version) ∷ rest) =
    some (record { adapter = a; offer = offer; protocol_version = version })

-- `FacilityProtocolAdapter.select`; the bindings are those of the platform.
unfoldable pub select_offer : List String → Adapter → Registration → Option AdapterSelection
select_offer bindings a r =
    first_offer a (compatible_offers r a.protocol (a.protocol_version ∷ []) bindings)

unfoldable pub first_selection :
    Option AdapterSelection → Option AdapterSelection → Option AdapterSelection
first_selection none later = later
first_selection (some selection) later = some selection

unfoldable pub select_adapter : List String → List Adapter → Registration → Option AdapterSelection
select_adapter bindings [] r = none
select_adapter bindings (a ∷ rest) r =
    first_selection (select_offer bindings a r) (select_adapter bindings rest r)

abbrev texts_eq : List String → List String → Bool
texts_eq [] [] = true
texts_eq (s ∷ ss) (t ∷ ts) = str_eq s t && texts_eq ss ts
texts_eq _ _ = false

abbrev pub offer_eq : DiscoveryOffer → DiscoveryOffer → Bool
offer_eq o p =
    str_eq o.protocol p.protocol
    && texts_eq o.protocol_versions p.protocol_versions
    && str_eq o.binding p.binding
    && str_eq o.endpoint p.endpoint

-- An adapter is told by its protocol, its version and its label.
abbrev pub selection_eq : AdapterSelection → AdapterSelection → Bool
selection_eq s t =
    str_eq s.adapter.protocol t.adapter.protocol
    && str_eq s.adapter.protocol_version t.adapter.protocol_version
    && str_eq s.adapter.label t.adapter.label
    && offer_eq s.offer t.offer
    && str_eq s.protocol_version t.protocol_version
