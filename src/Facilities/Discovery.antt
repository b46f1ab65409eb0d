-- ===== src/Facilities/Discovery.antt =====
-- What a refresh shows of the discovery itself.
use infra_sentinel.Prelude.{
  ◌≡◌, ◌⊎◌, subst, refl, String, str_eq, Bool, true, false, Option, none, some, List, [], is_some,
  arith, if◌then◌else◌, Bool-cases, inl, inr,
}
use infra_sentinel.Prelude.Int.{ℤ}
use infra_sentinel.StatusStability.{StatusStabilizer, observe, init, settle}
use infra_sentinel.Facilities.{
  Adapter, FacilityMonitor, World, Directory, absent, files, unreadable, refused, Reconciliation,
  completed, escaped, concluded, reconcile_all, registered, refresh_once, init_monitor,
  candidate_error, rescanned,
}

-- The decision tells the status of the stabilizer, which is as before or the candidate.
observed_status :
    (s : StatusStabilizer) (candidate : String) (immediate : Bool)
    → (observe s candidate immediate).1.status ≡ (observe s candidate immediate).0.status
unfolding observe
observed_status s candidate immediate = ground arith

same_or_candidate :
    (s : StatusStabilizer) (candidate : String) (immediate : Bool)
    → ((observe s candidate immediate).0.status ≡ s.status)
      ⊎ ((observe s candidate immediate).0.status ≡ candidate)
unfolding observe settle
same_or_candidate s candidate immediate = ground arith

not_worse :
    (s : StatusStabilizer)
    → str_eq (observe s "healthy" false).0.status "error" ≡ true
    → str_eq s.status "error" ≡ true
not_worse s h = elim (same_or_candidate s "healthy" false) [
  | inl same ↦ subst (λ t. str_eq t "error" ≡ true) same h
  | inr calm ↦ absurd (ground (arith, subst (λ t. str_eq t "error" ≡ true) calm h))
]

module _ (bindings : List String) (adapters : List Adapter) where
  -- An error of the discovery is on show exactly while its confirmed status is `error`.
  pub record IsSound (m : FacilityMonitor bindings adapters) : Type 0 where
    pub shown : is_some m.discovery_error ≡ str_eq m.discovery_stability.status "error"

  pub init_monitor-IsSound : IsSound (init_monitor bindings adapters)
  unfolding init_monitor init
  init_monitor-IsSound = record { shown = refl }

  shown_error :
      (s : StatusStabilizer) (found confirmed : Option String)
      → is_some confirmed ≡ str_eq s.status "error"
      → let next = observe s (if is_some found then "error" else "healthy") false in
        is_some (if str_eq next.1.status "error" then candidate_error found confirmed else none)
        ≡ str_eq next.0.status "error"
  shown_error s none confirmed h =
      elim (Bool-cases (str_eq (observe s "healthy" false).0.status "error")) [
        | inl e ↦
            let before = not_worse s e in
            rw (observed_status s "healthy" false) (rw e (ground (arith, h, before)))
        | inr e ↦ rw (observed_status s "healthy" false) (rw e refl)
      ]
  shown_error s (some name) confirmed h =
      elim (Bool-cases (str_eq (observe s "error" false).0.status "error")) [
        | inl e ↦ rw (observed_status s "error" false) (rw e refl)
        | inr e ↦ rw (observed_status s "error" false) (rw e refl)
      ]

  IsSound-concluded :
      (now : ℤ) (m : FacilityMonitor bindings adapters) (found : Option String)
      (end : Reconciliation)
      → IsSound m
      → let after =
          concluded bindings adapters m now found
            (observe m.discovery_stability (if is_some found then "error" else "healthy") false)
            end in
        if after.1 then IsSound after.0 else after.0.discovery_error ≡ m.discovery_error
  unfolding concluded
  IsSound-concluded now m found (completed records) h = record {
    shown = shown_error m.discovery_stability found m.discovery_error h.shown;
  }
  IsSound-concluded now m found (escaped left) h = refl

  -- From a monitor that shows an error of the discovery exactly while its confirmed status is `error`, a
  -- refresh that comes to its end leads to one; a refresh that ends with an exception leaves the error on
  -- show as it was. A refresh whose directory cannot be read comes to its end, and keeps every record as it
  -- is.
  pub refresh_once-IsSound :
      (w : World bindings adapters) (now : ℤ) (directory : Directory)
      (m : FacilityMonitor bindings adapters)
      → IsSound m
      → let after = refresh_once bindings adapters w now directory m in
        (if after.1 then IsSound after.0 else after.0.discovery_error ≡ m.discovery_error)
        × ((name : String)
            → directory ≡ refused name
            → (after.1 ≡ true) × (after.0.records ≡ m.records))
  unfolding refresh_once rescanned concluded
  refresh_once-IsSound w now directory m h = (sound directory, λ name e. rw e (refl, refl))
    where
      sound :
          (d : Directory)
          → let after = refresh_once bindings adapters w now d m in
            if after.1 then IsSound after.0 else after.0.discovery_error ≡ m.discovery_error
      sound absent = IsSound-concluded now m none (completed []) h
      sound unreadable = refl
      sound (refused name) = IsSound-concluded now m (some name) (completed m.records) h
      sound (files fs) =
          IsSound-concluded now m none
            (reconcile_all bindings adapters w now m.records m.records [] (registered [] fs)) h
