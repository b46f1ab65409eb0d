-- ===== src/Facilities/Reconciling.antt =====
-- A refresh treats each facility by itself.
use infra_sentinel.Prelude.{
  ◌≡◌, refl, sym, ap, ◌∙◌, subst, String, str_eq, eq_iff, Bool, true, false, not, any, Option, none,
  some, List, [], ◌∷◌, ◌>>=◌, arith, if◌then◌else◌, Bool-cases, inl, inr,
}
use infra_sentinel.Prelude.Int.{ℤ}
use infra_sentinel.Prelude.Dict.{Dict, get, put, get-put, beq_refl, string_eq}
use infra_sentinel.Prelude.Entries.{Unique, Unique-put}
use infra_sentinel.Facilities.{
  Registration, Adapter, AdapterSelection, ObservedFacility, FacilityMonitor, Result, ok, failed,
  World, FacilityObservation, files, registered, observation_of, touched, put_touched, escapes_now,
  completed, escaped, concluded, select_adapter, reconciled, put_selected, reconcile_all,
  refresh_once, rescanned, registration_id,
}

registered-Unique :
    (fs : List (Result Registration)) (found : Dict String Registration)
    → Unique found
    → Unique (registered found fs)
unfolding registered
registered-Unique [] found u = u
registered-Unique (ok r ∷ rest) found u =
    registered-Unique rest (put (registration_id r) r found)
      (Unique-put (registration_id r) r found u)
registered-Unique (failed e ∷ rest) found u = registered-Unique rest found u

module _ (bindings : List String) (adapters : List Adapter) where
  -- The record of a facility whose registration was found, or not.
  abbrev pub own_record :
      World bindings adapters
      → ℤ
      → Option ObservedFacility
      → Option Registration
      → Option ObservedFacility
  own_record w now prior found = found >>= (λ registration.
      select_adapter bindings adapters registration
      >>= (λ selection. some (reconciled bindings adapters w prior registration selection now)))

  -- The new records of all registrations.
  all_reconciled :
      World bindings adapters
      → ℤ
      → Dict String ObservedFacility
      → Dict String ObservedFacility
      → Dict String Registration
      → Dict String ObservedFacility
  all_reconciled w now previous updated [] = updated
  all_reconciled w now previous updated ((id, registration) ∷ rest) =
      all_reconciled w now previous
        (put_selected bindings adapters w now (get id previous) id registration updated
          (select_adapter bindings adapters registration))
        rest

  -- A registration whose facility is due, and whose poll raises what is not caught.
  abbrev pub escapes_in :
      World bindings adapters → ℤ → Dict String ObservedFacility → String × Registration → Bool
  escapes_in w now previous (id, registration) =
      escapes_now bindings adapters w now (get id previous) registration
        (select_adapter bindings adapters registration)

  module _ (w : World bindings adapters) (now : ℤ) (previous : Dict String ObservedFacility)
      (id : String) where
    get-put_selected :
        (j : String) (r : Registration) (updated : Dict String ObservedFacility)
        (s : Option AdapterSelection)
        → str_eq j id ≡ false
        → get id (put_selected bindings adapters w now (get j previous) j r updated s)
          ≡ get id updated
    unfolding put_selected
    get-put_selected j r updated none other = refl
    get-put_selected j r updated (some selection) other =
        let new = reconciled bindings adapters w (get j previous) r selection now in
        get-put j id new updated ∙ ap (λ b. if b then some new else get id updated) other

    own-put_selected :
        (r : Registration) (updated : Dict String ObservedFacility) (s : Option AdapterSelection)
        → get id updated ≡ none
        → get id (put_selected bindings adapters w now (get id previous) id r updated s) ≡ (
            s >>= (λ selection.
              some (reconciled bindings adapters w (get id previous) r selection now)))
    unfolding put_selected
    own-put_selected r updated none h = h
    own-put_selected r updated (some selection) h =
        let new = reconciled bindings adapters w (get id previous) r selection now in
        get-put id id new updated ∙ ap (λ b. if b then some new else get id updated) (beq_refl id)

    all_absent :
        (updated : Dict String ObservedFacility) (rs : Dict String Registration)
        → get id rs ≡ none
        → get id (all_reconciled w now previous updated rs) ≡ get id updated
    unfolding all_reconciled get
    all_absent updated [] h = refl
    all_absent updated ((j, r) ∷ rest) h = elim (Bool-cases (str_eq j id)) [
      | inl same ↦ absurd (ground (arith, h, same))
      | inr other ↦
          all_absent
            (put_selected bindings adapters w now (get j previous) j r updated
              (select_adapter bindings adapters r))
            rest (rw other at h)
          ∙ get-put_selected j r updated (select_adapter bindings adapters r) other
    ]

    all_found :
        (updated : Dict String ObservedFacility) (rs : Dict String Registration)
        → Unique rs
        → get id updated ≡ none
        → get id (all_reconciled w now previous updated rs)
          ≡ own_record w now (get id previous) (get id rs)
    unfolding all_reconciled get
    all_found updated [] u h = h
    all_found updated ((j, r) ∷ rest) u h = elim (Bool-cases (str_eq j id)) [
      | inl same ↦
          let e : id ≡ j = sym ((eq_iff j id).0 same) in
          let gone : get id rest ≡ none = subst (λ k. get k rest ≡ none) (sym e) u.0 in
          rw same (
            all_absent
              (put_selected bindings adapters w now (get j previous) j r updated
                (select_adapter bindings adapters r))
              rest gone
            ∙ ap
                (λ k. get id (
                  put_selected bindings adapters w now (get k previous) k r updated
                    (select_adapter bindings adapters r)))
                (sym e)
            ∙ own-put_selected r updated (select_adapter bindings adapters r) h)
      | inr other ↦ rw other (
          all_found
            (put_selected bindings adapters w now (get j previous) j r updated
              (select_adapter bindings adapters r))
            rest u.1 (get-put_selected j r updated (select_adapter bindings adapters r) other ∙ h))
    ]

  abbrev observation_at : String → Dict String ObservedFacility → Option FacilityObservation
  observation_at id records = observation_of (get id records)

  observation-touched :
      (now : ℤ) (p : ObservedFacility) (r : Registration) (s : AdapterSelection)
      (new : ObservedFacility)
      → (touched bindings adapters now p r s new).observation ≡ p.observation
  unfolding touched
  observation-touched now p r s new = ground arith

  module _ (w : World bindings adapters) (now : ℤ) (previous : Dict String ObservedFacility) where
    -- A turn changes no observation of the records that were there.
    observation-put_touched :
        (id j : String) (r : Registration) (left : Dict String ObservedFacility)
        (prior : Option ObservedFacility) (s : Option AdapterSelection)
        → observation_of prior ≡ observation_at j left
        → observation_at id (put_touched bindings adapters w now prior j r left s)
          ≡ observation_at id left
    unfolding put_touched
    observation-put_touched id j r left prior none h = refl
    observation-put_touched id j r left none (some s) h = refl
    observation-put_touched id j r left (some p) (some s) h =
        let new =
          touched bindings adapters now p r s (reconciled bindings adapters w (some p) r s now) in
        elim (Bool-cases (str_eq j id)) [
          | inl same ↦
              rw (get-put j id new left, same)
                (observation-touched now p r s _
                  ∙ h
                  ∙ ap (λ k. observation_at k left) ((eq_iff j id).0 same))
          | inr other ↦ rw (get-put j id new left, other) refl
        ]

    completes :
        (left updated : Dict String ObservedFacility) (rs : Dict String Registration)
        → any (escapes_in w now previous) rs ≡ false
        → reconcile_all bindings adapters w now previous left updated rs
          ≡ completed (all_reconciled w now previous updated rs)
    unfolding reconcile_all all_reconciled
    completes left updated [] h = refl
    completes left updated ((j, r) ∷ rest) h =
        elim (Bool-cases (escapes_in w now previous (j, r))) [
          | inl now_raises ↦ absurd (ground (arith, h, now_raises))
          | inr calm ↦
              let s = select_adapter bindings adapters r in
              rw calm (
                completes (put_touched bindings adapters w now (get j previous) j r left s)
                  (put_selected bindings adapters w now (get j previous) j r updated s) rest
                  (rw calm at h))
        ]

    -- The loop is left with the records that were there, each with its observation.
    escapes_from :
        (left updated : Dict String ObservedFacility) (rs : Dict String Registration)
        → ((id : String) → observation_at id previous ≡ observation_at id left)
        → any (escapes_in w now previous) rs ≡ true
        → (last : Dict String ObservedFacility) × (reconcile_all bindings adapters w now previous
              left updated rs
            ≡ escaped last)
          × ((id : String) → observation_at id previous ≡ observation_at id last)
    unfolding reconcile_all
    escapes_from left updated [] same h = absurd (ground (arith, h))
    escapes_from left updated ((j, r) ∷ rest) same h =
        elim (Bool-cases (escapes_in w now previous (j, r))) [
          | inl now_raises ↦ rw now_raises (left, refl, same)
          | inr calm ↦
              let s = select_adapter bindings adapters r in
              let next = put_touched bindings adapters w now (get j previous) j r left s in
              rw calm (
                escapes_from next
                  (put_selected bindings adapters w now (get j previous) j r updated s) rest
                  (λ id.
                    same id ∙ sym (observation-put_touched id j r left (get j previous) s (same j)))
                  (rw calm at h))
        ]

  abbrev refreshed :
      World bindings adapters
      → ℤ
      → List (Result Registration)
      → FacilityMonitor bindings adapters
      → FacilityMonitor bindings adapters × Bool
  refreshed w now fs m = refresh_once bindings adapters w now (files fs) m

  -- A scan that succeeds. The refresh ends with an exception exactly when some facility that is due has a poll
  -- that raises neither of the errors that are caught. Where it ends without one, a facility has a record
  -- exactly when its registration was found and an adapter knows it, and the record is what its own prior
  -- record and its own poll come to: no other facility, and no other record, has a part in it. Where it ends
  -- with one, every facility keeps the observation that it had, and no facility gets one.
  pub refreshed_record :
      (w : World bindings adapters) (now : ℤ) (fs : List (Result Registration))
      (m : FacilityMonitor bindings adapters)
      → ((refreshed w now fs m).1 ≡ not (any (escapes_in w now m.records) (registered [] fs)))
        × ((id : String)
            → if (refreshed w now fs m).1
              then get id (refreshed w now fs m).0.records
                ≡ own_record w now (get id m.records) (get id (registered [] fs))
              else observation_at id (refreshed w now fs m).0.records ≡ observation_at id m.records)
  unfolding refresh_once rescanned concluded get
  refreshed_record w now fs m =
      elim (Bool-cases (any (escapes_in w now m.records) (registered [] fs))) [
        | inl raises ↦
            let (last, e, same) =
              escapes_from w now m.records m.records [] (registered [] fs) (λ id. refl) raises in
            rw raises (rw e (refl, λ id. sym (same id)))
        | inr calm ↦ rw calm (
            rw (completes w now m.records m.records [] (registered [] fs) calm) (
              refl,
              λ id.
                  all_found w now m.records id [] (registered [] fs) (registered-Unique fs [] tt)
                    refl,
            ))
      ]
