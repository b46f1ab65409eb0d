-- ===== src/Collectors/Isolation.antt =====
-- A pass gives every collector its own turn: what a collector reports depends on its own outcome,
-- stabilizer and last available run, and not on the collectors that run before or after it.
use infra_sentinel.Prelude.{
  String, str_eq, ◌≡◌, ◌∙◌, ◌>>=◌, ◌&&◌, Bool, all, if◌then◌else◌, refl, ap, true, false, Option,
  none, some, List, [], ◌∷◌, arith, is_some, All, Option-cases, inl, inr,
}
use infra_sentinel.Prelude.Dict.{Dict, get, put, string_eq, get-put}
use infra_sentinel.StatusStability.{StatusStabilizer}
use infra_sentinel.Collectors.{
  CollectorContext, CollectorRun, Collector, Pass, Turn, write_last, take_turn, after_turn,
  collect_from,
}

module _ {Point Snapshot : Type 0} where
  -- What the loop reports.
  abbrev pub reported : Pass Point Snapshot → Option (List (CollectorRun Point Snapshot))
  reported p = if p.finished then some p.runs else none

  -- All runs, or none.
  pub all_some :
      List (Option (CollectorRun Point Snapshot)) → Option (List (CollectorRun Point Snapshot))
  all_some [] = some []
  all_some (o ∷ rest) = o >>= (λ r. all_some rest >>= (λ rs. some (r ∷ rs)))

  reported_next :
      (finished : Bool) (r : CollectorRun Point Snapshot)
      (runs : List (CollectorRun Point Snapshot))
      → (if finished then some (r ∷ runs) else none)
        ≡ ((if finished then some runs else none) >>= (λ rs. some (r ∷ rs)))
  reported_next true r runs = refl
  reported_next false r runs = refl

  reported-after_turn :
      (stop : Pass Point Snapshot) (turn : Option (Turn Point Snapshot))
      (onward : Turn Point Snapshot → Pass Point Snapshot)
      (rest : List (Option (CollectorRun Point Snapshot)))
      → stop.finished ≡ false
      → ((t : Turn Point Snapshot) → reported (onward t) ≡ all_some rest)
      → reported (after_turn stop turn onward) ≡ all_some ((turn >>= (λ t. some t.result)) ∷ rest)
  unfolding after_turn all_some
  reported-after_turn stop none onward rest s h = rw s refl
  reported-after_turn stop (some t) onward rest s h =
      reported_next (onward t).finished t.result (onward t).runs
      ∙ ap (λ (o : Option (List (CollectorRun Point Snapshot))). o >>= (λ rs. some (t.result ∷ rs)))
          (h t)

  is_some-all_some :
      (o : Option (CollectorRun Point Snapshot))
      (rest : List (Option (CollectorRun Point Snapshot)))
      → is_some (all_some (o ∷ rest)) ≡ (is_some o && is_some (all_some rest))
  unfolding all_some
  is_some-all_some none rest = refl
  is_some-all_some (some r) rest = elim (Option-cases (all_some rest)) [
    | inl e ↦ rw e refl
    | inr (rs, e) ↦ rw e refl
  ]

module _ {Facts Point Snapshot : Type 0} where
  abbrev pub Fresh : String → Dict String (Collector Facts Point Snapshot) → Type 0
  Fresh id cs = All (λ c. str_eq id c.1.capability.id ≡ false) cs

  abbrev pub Distinct : Dict String (Collector Facts Point Snapshot) → Type 0
  Distinct [] = Unit
  Distinct ((key, c) ∷ cs) = Fresh c.capability.id cs × Distinct cs

  -- Every collector has a stabilizer.
  abbrev pub IsCovered :
      Dict String StatusStabilizer → Dict String (Collector Facts Point Snapshot) → Type 0
  IsCovered availability cs = All (λ c. is_some (get c.1.capability.id availability) ≡ true) cs

  -- The run of a collector by its own part of the registry alone: there is none without a stabilizer, and
  -- none where its points cannot be read.
  pub own_run :
      CollectorContext Facts
      → Option StatusStabilizer
      → Option (CollectorRun Point Snapshot)
      → Collector Facts Point Snapshot
      → Option (CollectorRun Point Snapshot)
  own_run context a last c = (a >>= (λ s. take_turn context s last c)) >>= (λ t. some t.result)

  -- The runs of all collectors, each by its own part of the dictionaries.
  pub own_runs :
      CollectorContext Facts
      → Dict String StatusStabilizer
      → Dict String (CollectorRun Point Snapshot)
      → Dict String (Collector Facts Point Snapshot)
      → List (Option (CollectorRun Point Snapshot))
  own_runs context availability last [] = []
  own_runs context availability last ((key, c) ∷ cs) =
      own_run context (get c.capability.id availability) (get c.capability.id last) c
      ∷ own_runs context availability last cs

  module _ (context : CollectorContext Facts) (id : String) (a : StatusStabilizer)
      (w : Option (CollectorRun Point Snapshot)) where
    get-write_last :
        (j : String) (last : Dict String (CollectorRun Point Snapshot))
        → str_eq id j ≡ false
        → get j (write_last id w last) ≡ get j last
    get-write_last j last h = elim (Option-cases w) [
      | inl e ↦ rw e
      | inr (r, e) ↦ rw e (simp (get-put, h))
    ]

    -- A turn of another collector changes none of the runs.
    own_runs-put :
        (availability : Dict String StatusStabilizer)
        (last : Dict String (CollectorRun Point Snapshot))
        (cs : Dict String (Collector Facts Point Snapshot))
        → Fresh id cs
        → own_runs context (put id a availability) (write_last id w last) cs
          ≡ own_runs context availability last cs
    unfolding own_runs
    own_runs-put availability last [] h = refl
    own_runs-put availability last ((key, c) ∷ cs) h = simp (
      get-put,
      h.0,
      get-write_last c.capability.id last h.0,
      own_runs-put availability last cs h.1,
    )

  pub IsCovered-put :
      (id : String) (a : StatusStabilizer) (availability : Dict String StatusStabilizer)
      (cs : Dict String (Collector Facts Point Snapshot))
      → IsCovered availability cs
      → IsCovered (put id a availability) cs
  IsCovered-put id a availability [] h = h
  IsCovered-put id a availability ((key, c) ∷ cs) h = (
    ground (arith, get-put id c.capability.id a availability, h.0),
    IsCovered-put id a availability cs h.1,
  )

  -- The runs of the loop are the collectors' own, and it reports none where one of them is missing.
  pub collect_from-own_runs :
      (context : CollectorContext Facts) (cs : Dict String (Collector Facts Point Snapshot))
      (availability : Dict String StatusStabilizer)
      (last : Dict String (CollectorRun Point Snapshot))
      → Distinct cs
      → reported (collect_from context cs availability last)
        ≡ all_some (own_runs context availability last cs)
  unfolding collect_from own_runs own_run all_some
  collect_from-own_runs context [] availability last d = refl
  collect_from-own_runs context ((key, c) ∷ cs) availability last d =
      let id = c.capability.id in
      reported-after_turn _ (get id availability >>= (λ a. take_turn context a (get id last) c)) _
        (own_runs context availability last cs) refl
        (λ t.
          collect_from-own_runs context cs (put id t.availability availability)
            (write_last id t.last last) d.1
          ∙ ap all_some (own_runs-put context id t.availability t.last availability last cs d.0))

  own_run_there :
      (context : CollectorContext Facts) (a : Option StatusStabilizer)
      (last : Option (CollectorRun Point Snapshot)) (c : Collector Facts Point Snapshot)
      → is_some a ≡ true
      → is_some (own_run context a last c) ≡ is_some (c.run context)
  unfolding own_run take_turn
  own_run_there context none last c h = absurd (ground (arith, h))
  own_run_there context (some a) last c h = elim (Option-cases (c.run context)) [
    | inl e ↦ rw e refl
    | inr (o, e) ↦ rw e refl
  ]

  -- All runs are there exactly where the points of all collectors can be read.
  pub own_runs_there :
      (context : CollectorContext Facts) (cs : Dict String (Collector Facts Point Snapshot))
      (availability : Dict String StatusStabilizer)
      (last : Dict String (CollectorRun Point Snapshot))
      → IsCovered availability cs
      → is_some (all_some (own_runs context availability last cs))
        ≡ all (λ (c : String × Collector Facts Point Snapshot). is_some (c.1.run context)) cs
  unfolding own_runs all_some
  own_runs_there context [] availability last h = refl
  own_runs_there context ((key, c) ∷ cs) availability last h =
      let own = own_run context (get c.capability.id availability) (get c.capability.id last) c in
      is_some-all_some own (own_runs context availability last cs)
      ∙ ap (λ b. b && is_some (all_some (own_runs context availability last cs)))
          (own_run_there context (get c.capability.id availability) (get c.capability.id last) c
            h.0)
      ∙ ap (λ b. is_some (c.run context) && b) (own_runs_there context cs availability last h.1)
