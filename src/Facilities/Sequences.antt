-- ===== src/Facilities/Sequences.antt =====
-- The sequences of a provider's observations over the refreshes.
use infra_sentinel.Prelude.{
  ◌≡◌, sym, ap, ◌∙◌, subst, String, if◌then◌else◌, Bool, true, false, Option, none, some, List, [],
  >>=-eq-some, arith,
}
use infra_sentinel.Prelude.Int.{ℤ}
use infra_sentinel.Prelude.Dict.{get, string_eq}
use mathlib.Core.Option.{some-injective}
use infra_sentinel.Facilities.{
  Registration, Adapter, ObservedFacility, FacilityMonitor, Result, World, Directory, absent,
  refused, unreadable, concluded, files, registered, select_adapter, reconciled, refresh_once,
  rescanned, same_protocol_generation, observation_of, same_selection,
}
use infra_sentinel.Facilities.Reconciling.{own_record, refreshed_record}
use infra_sentinel.Facilities.Following.{Advances, Advances-kept, reconciled-Follows}

module _ (bindings : List String) (adapters : List Adapter) where
  own_follows :
      (w : World bindings adapters) (now : ℤ) (p r : ObservedFacility) (found : Option Registration)
      → own_record bindings adapters w now (some p) found ≡ some r
      → same_protocol_generation p r.registration r.selection ≡ true
      → Advances (same_selection p r.registration r.selection) p.observation r.observation
  own_follows w now p r none h same = absurd (ground (arith, h))
  own_follows w now p r (some registration) h same =
      let (selection, known, e) = >>=-eq-some (select_adapter bindings adapters registration) _ h in
      let e' : reconciled bindings adapters w (some p) registration selection now ≡ r =
        some-injective _ _ e in
      subst
        (λ r'.
          same_protocol_generation p r'.registration r'.selection ≡ true
          → Advances (same_selection p r'.registration r'.selection) p.observation r'.observation)
        e' (reconciled-Follows bindings adapters p selection w registration now) same

  scanned_follows :
      (w : World bindings adapters) (now : ℤ) (fs : List (Result Registration))
      (m : FacilityMonitor bindings adapters) (id : String) (p r : ObservedFacility) (ended : Bool)
      → get id m.records ≡ some p
      → get id (refresh_once bindings adapters w now (files fs) m).0.records ≡ some r
      → same_protocol_generation p r.registration r.selection ≡ true
      → (if ended
          then get id (refresh_once bindings adapters w now (files fs) m).0.records
            ≡ own_record bindings adapters w now (get id m.records) (get id (registered [] fs))
          else observation_of (get id (refresh_once bindings adapters w now (files fs) m).0.records)
            ≡ observation_of (get id m.records))
      → Advances (same_selection p r.registration r.selection) p.observation r.observation
  scanned_follows w now fs m id p r true before after same e =
      own_follows w now p r (get id (registered [] fs))
        (subst
          (λ prior. own_record bindings adapters w now prior (get id (registered [] fs)) ≡ some r)
          before (sym e ∙ after))
        same
  scanned_follows w now fs m id p r false before after same e =
      Advances-kept _ p.observation r.observation
        (ap observation_of (sym after) ∙ e ∙ ap observation_of before)

  kept_follows :
      (p r : ObservedFacility) (o : Option ObservedFacility)
      → o ≡ some p
      → o ≡ some r
      → Advances (same_selection p r.registration r.selection) p.observation r.observation
  kept_follows p r o before after =
      Advances-kept _ p.observation r.observation
        (ap (λ q. q.observation) (sym (some-injective _ _ (sym before ∙ after))))

  -- Whatever a refresh reads, polls that fail, scans that are refused and refreshes that end with an exception
  -- included: where a facility keeps its generation and its protocol, its observation stays as it is or its
  -- sequence grows. It is lost only where the selection is another one than before (its offer or the
  -- protocol's version), as it is when such a poll fails, and then any sequence is accepted next.
  pub refresh_once-Advances :
      (w : World bindings adapters) (now : ℤ) (directory : Directory)
      (m : FacilityMonitor bindings adapters)
      → (id : String) (p r : ObservedFacility) → get id m.records ≡ some p
      → get id (refresh_once bindings adapters w now directory m).0.records ≡ some r
      → same_protocol_generation p r.registration r.selection ≡ true
      → Advances (same_selection p r.registration r.selection) p.observation r.observation
  unfolding refresh_once rescanned concluded get
  refresh_once-Advances w now absent m id p r before after same = absurd (ground (arith, after))
  refresh_once-Advances w now (refused name) m id p r before after same =
      kept_follows p r (get id m.records) before after
  refresh_once-Advances w now unreadable m id p r before after same =
      kept_follows p r (get id m.records) before after
  refresh_once-Advances w now (files fs) m id p r before after same =
      scanned_follows w now fs m id p r (refresh_once bindings adapters w now (files fs) m).1 before
        after same ((refreshed_record bindings adapters w now fs m).1 id)
