-- ===== src/Facilities/Following.antt =====
-- What a facility's reconciliation does to the observation of its record.
use infra_sentinel.Prelude.{
  ◌≡◌, ◌<◌, ◌⊎◌, refl, sym, ap, ◌∙◌, subst, String, str_eq, eq_iff, Bool, true, false, ◌&&◌, Option,
  none, some, List, arith, Bool-cases, inl, inr,
}
use infra_sentinel.Prelude.Int.{ℤ, ltb_ℤ}
use infra_sentinel.Prelude.Dict.{string_eq}
use infra_sentinel.Facilities.{
  Registration, Adapter, AdapterSelection, ObservedFacility, FacilityObservation, Result, ok,
  failed, World, failing_registration, confirmed_again, selected_again, select_adapter, reconciled,
  kept_or, stable_prior, poll_facility, record_of, polled, checked, stalled, repeats,
  same_protocol_generation, confirmed_record, failed_record, shown_observation, retained,
  observation_of, same_selection, confirm_current,
}

-- Between a record and its successor, of the same selection or not, the observation stays, or its sequence
-- grows; only where the selection is another one it can be lost.
abbrev pub Advances : Bool → Option FacilityObservation → Option FacilityObservation → Type 0
Advances same none new = Unit
Advances same (some last) none = same ≡ false
Advances same (some last) (some new) = (some new ≡ some last) ⊎ (last.sequence < new.sequence)

Advances-same : (same : Bool) (o : Option FacilityObservation) → Advances same o o
Advances-same same none = tt
Advances-same same (some o) = inl refl

Advances-gone : (same : Bool) (o : Option FacilityObservation) → same ≡ false → Advances same o none
Advances-gone same none h = tt
Advances-gone same (some o) h = h

Advances-grown :
    (same : Bool) (last : Option FacilityObservation) (new : FacilityObservation)
    → repeats last new ≡ false
    → (shown : FacilityObservation) → shown.sequence ≡ new.sequence
    → Advances same last (some shown)
Advances-grown same none new h shown e = tt
Advances-grown same (some last) new h shown e = inr (ground (arith, h, e))

pub Advances-kept :
    (same : Bool) (before after : Option FacilityObservation)
    → after ≡ before
    → Advances same before after
Advances-kept same before after e =
    subst (λ o. Advances same before o) (sym e) (Advances-same same before)

shown_sequence :
    (accepted : Bool) (last : Option FacilityObservation) (new : FacilityObservation)
    (status : String)
    → (shown_observation accepted last new status).sequence ≡ new.sequence
unfolding shown_observation retained
shown_sequence true last new status = refl
shown_sequence false none new status = refl
shown_sequence false (some last) new status = refl

abbrev answered : Registration → FacilityObservation → Result (Registration × FacilityObservation)
answered c new = ok (c, new)

abbrev pair : Registration → FacilityObservation → Registration × FacilityObservation
pair c new = (c, new)

-- The pair that a result holds.
held :
    Result (Registration × FacilityObservation)
    → Registration × FacilityObservation
    → Registration × FacilityObservation
held (ok pair) default = pair
held (failed e) default = default

module _ (bindings : List String) (adapters : List Adapter) (p : ObservedFacility)
    (selection : AdapterSelection) where
  ok_advances :
      (o : FacilityObservation) (current c : Registration) (new : FacilityObservation)
      → answered current o ≡ answered c new
      → stalled (some p) current selection o ≡ false
      → stalled (some p) c selection new ≡ false
  unfolding held
  ok_advances o current c new e early =
      let same : pair current o ≡ pair c new = ap (λ r. held r (pair c new)) e in
      subst (λ (q : Registration × FacilityObservation). stalled (some p) q.0 selection q.1 ≡ false)
        same early

  checked_advances :
      (o : FacilityObservation) (current : Result Registration) (c : Registration)
      (new : FacilityObservation)
      → checked (some p) selection o current ≡ ok (c, new)
      → stalled (some p) c selection new ≡ false
  unfolding checked stalled
  checked_advances o (failed e) c new h = absurd (ground (arith, h))
  checked_advances o (ok current) c new h =
      elim (Bool-cases (stalled (some p) current selection o)) [
        | inl late ↦ absurd (ground (arith, rw late at h))
        | inr early ↦ ok_advances o current c new (rw early at h) early
      ]

  polled_advances :
      (w : World bindings adapters) (registration c : Registration)
      (answer : Result FacilityObservation) (new : FacilityObservation)
      → polled bindings adapters w (some p) registration selection answer ≡ ok (c, new)
      → stalled (some p) c selection new ≡ false
  unfolding polled
  polled_advances w registration c (failed e) new h = absurd (ground (arith, h))
  polled_advances w registration c (ok o) new h =
      checked_advances o
        (confirm_current bindings adapters registration selection (w.read_again registration)) c new
        h

  -- What a record of one poll has to do with the record before it.
  abbrev Follows : ObservedFacility → Type 0
  Follows r =
      same_protocol_generation p r.registration r.selection ≡ true
      → Advances (same_selection p r.registration r.selection) p.observation r.observation

  -- The registration of a failed record is of the generation that was polled.
  same_generation :
      (registration failing : Registration)
      → failing.generation ≡ registration.generation
      → same_selection p failing selection ≡ same_selection p registration selection
  unfolding same_selection
  same_generation registration failing e = rw e refl

  failed_follows :
      (registration failing : Registration)
      → failing.generation ≡ registration.generation
      → Advances
          (same_selection p failing selection)
          p.observation
          (observation_of (stable_prior (some p) registration selection))
  failed_follows registration failing g =
      elim (Bool-cases (same_selection p registration selection)) [
        | inl same ↦ rw same (Advances-same (same_selection p failing selection) p.observation)
        | inr other ↦ rw other (
            Advances-gone (same_selection p failing selection) p.observation
              (same_generation registration failing g ∙ other))
      ]

  selected_generation :
      (current : Registration) (s : Option AdapterSelection) (c : Registration)
      → selected_again bindings adapters current selection s ≡ ok c
      → current ≡ c
  unfolding selected_again
  selected_generation current none c h = absurd (ground (arith, h))
  selected_generation current (some s) c h = ground (arith, h)

  confirmed_generation :
      (registration : Registration) (again : Result Registration) (c : Registration)
      → confirm_current bindings adapters registration selection again ≡ ok c
      → c.generation ≡ registration.generation
  unfolding confirm_current
  confirmed_generation registration (failed e) c h = absurd (ground (arith, h))
  confirmed_generation registration (ok current) c h =
      elim (Bool-cases (str_eq current.generation registration.generation)) [
        | inl same ↦
            ap (λ r. r.generation)
              (sym (
                selected_generation current (select_adapter bindings adapters current) c
                  (rw same at h)))
            ∙ (eq_iff current.generation registration.generation).0 same
        | inr other ↦ absurd (ground (arith, rw other at h))
      ]

  failing_of :
      (registration : Registration) (again : Result Registration)
      → ((c : Registration) → again ≡ ok c → c.generation ≡ registration.generation)
      → (failing_registration registration again).generation ≡ registration.generation
  unfolding failing_registration
  failing_of registration (failed e) h = refl
  failing_of registration (ok c) h = h c refl

  failing_generation :
      (w : World bindings adapters) (registration : Registration)
      (answer : Result FacilityObservation)
      → (failing_registration registration
          (confirmed_again bindings adapters w registration selection answer)).generation
        ≡ registration.generation
  unfolding confirmed_again failing_registration
  failing_generation w registration (failed e) = refl
  failing_generation w registration (ok o) =
      failing_of registration
        (confirm_current bindings adapters registration selection (w.read_again registration))
        (confirmed_generation registration (w.read_again registration))

  not_repeated : {a b : Bool} → a ≡ true → (a && b) ≡ false → b ≡ false
  not_repeated e h = ground (arith, e, h)

  record-Follows :
      (registration failing : Registration) (now : ℤ)
      (result : Result (Registration × FacilityObservation))
      → failing.generation ≡ registration.generation
      → ((c : Registration) (new : FacilityObservation)
          → result ≡ ok (c, new)
          → stalled (some p) c selection new ≡ false)
      → Follows
          (record_of failing selection (stable_prior (some p) registration selection) now result)
  unfolding record_of failed_record confirmed_record stalled
  record-Follows registration failing now (failed e) g h same =
      failed_follows registration failing g
  record-Follows registration failing now (ok (c, new)) g h same =
      Advances-grown (same_selection p c selection) p.observation new
        (not_repeated same (h c new refl)) _ (shown_sequence _ _ new _)

  stable_same :
      (registration : Registration) (q : ObservedFacility)
      → stable_prior (some p) registration selection ≡ some q
      → q.observation ≡ p.observation
  stable_same registration q h = elim (Bool-cases (same_selection p registration selection)) [
    | inl same ↦ ground (arith, h, same)
    | inr other ↦ absurd (ground (arith, h, other))
  ]

  kept-Follows :
      (same : Option ObservedFacility) (registration : Registration) (now : ℤ)
      (new : ObservedFacility)
      → ((q : ObservedFacility) → same ≡ some q → q.observation ≡ p.observation)
      → Follows new
      → Follows (kept_or same registration now new)
  unfolding kept_or
  kept-Follows none registration now new h f = f
  kept-Follows (some q) registration now new h f = elim (Bool-cases (ltb_ℤ now q.next_poll_epoch)) [
    | inl early ↦ rw early (λ same. Advances-kept _ p.observation q.observation (h q refl))
    | inr due ↦ rw due f
  ]

  -- A facility that is reconciled follows its record.
  pub reconciled-Follows :
      (w : World bindings adapters) (registration : Registration) (now : ℤ)
      → Follows (reconciled bindings adapters w (some p) registration selection now)
  unfolding reconciled poll_facility
  reconciled-Follows w registration now =
      let answer = w.observe_provider registration selection in
      kept-Follows (stable_prior (some p) registration selection) registration now
        (poll_facility bindings adapters w (some p) registration selection now)
        (stable_same registration)
        (record-Follows registration _ now
          (polled bindings adapters w (some p) registration selection answer)
          (failing_generation w registration answer)
          (λ c new. polled_advances w registration c answer new))
