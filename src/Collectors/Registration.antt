-- ===== src/Collectors/Registration.antt =====
-- The registry's own invariant: registration builds it, and a pass keeps it.
use mathlib.Core.Option.{some-injective}
use text.Mathlib.TextPositions.{eq_refl}
use infra_sentinel.Prelude.{
  String, str_eq, ◌≡◌, ◌∙◌, ◌>>=◌, ap, all, refl, false, Option, none, some, [], ◌∷◌, arith,
  is_some, All, >>=-eq-some, Bool-cases, inl, inr,
}
use infra_sentinel.Prelude.Dict.{Dict, get, put, string_eq, get-put}
use infra_sentinel.StatusStability.{StatusStabilizer, init}
use infra_sentinel.Collectors.{
  CollectorContext, CollectorRun, Collector, CollectorRegistry, ok, register, Turn, after_turn,
  Pass, availability_ranks, write_last, take_turn, collect_from, collect,
}
use infra_sentinel.Collectors.Isolation.{
  Fresh, Distinct, IsCovered, IsCovered-put, own_runs, own_runs_there, all_some,
  collect_from-own_runs,
}
use infra_sentinel.Collectors.Outcomes.{IsAvailable, dispatch_last}

module _ {Point Snapshot : Type 0} where
  abbrev pub LastOk : Dict String (CollectorRun Point Snapshot) → Type 0
  LastOk last =
      (id : String) (run : CollectorRun Point Snapshot) → get id last ≡ some run → IsAvailable run

  LastOk-write :
      (id : String) (w : Option (CollectorRun Point Snapshot))
      (last : Dict String (CollectorRun Point Snapshot))
      → ((r : CollectorRun Point Snapshot) → w ≡ some r → IsAvailable r)
      → LastOk last
      → LastOk (write_last id w last)
  LastOk-write id none last h l = l
  LastOk-write id (some r) last h l = λ j run e. elim (Bool-cases (str_eq id j)) [
    | inl same ↦ h run (rw (get-put, same) at e)
    | inr other ↦ l j run (rw (get-put, other) at e)
  ]

module _ {Facts Point Snapshot : Type 0} where
  -- Every collector stands under its own id.
  abbrev pub IsKeyed : Dict String (Collector Facts Point Snapshot) → Type 0
  IsKeyed cs = All (λ c. c.0 ≡ c.1.capability.id) cs

  pub record IsWellFormed (r : CollectorRegistry Facts Point Snapshot) : Type 0 where
    pub keyed : IsKeyed r.collectors
    pub distinct : Distinct r.collectors
    pub covered : IsCovered r.availability r.collectors
    pub last_ok : LastOk r.last_available

  module _ (c : Collector Facts Point Snapshot) where
    absent_ne :
        (k : String) (d : Collector Facts Point Snapshot)
        (cs : Dict String (Collector Facts Point Snapshot))
        → is_some (get c.capability.id ((k, d) ∷ cs)) ≡ false
        → (str_eq k c.capability.id ≡ false) × (is_some (get c.capability.id cs) ≡ false)
    unfolding get
    absent_ne k d cs h = ground arith

    Fresh-put :
        (j : String) (cs : Dict String (Collector Facts Point Snapshot))
        → is_some (get c.capability.id cs) ≡ false
        → str_eq j c.capability.id ≡ false
        → Fresh j cs
        → Fresh j (put c.capability.id c cs)
    unfolding put
    Fresh-put j [] h e f = (e, tt)
    Fresh-put j ((k, d) ∷ cs) h e f =
        let (ne, rest) = absent_ne k d cs h in rw ne (f.0, Fresh-put j cs rest e f.1)

    Distinct-put :
        (cs : Dict String (Collector Facts Point Snapshot))
        → is_some (get c.capability.id cs) ≡ false
        → IsKeyed cs
        → Distinct cs
        → Distinct (put c.capability.id c cs)
    unfolding put
    Distinct-put [] h k f = (tt, tt)
    Distinct-put ((key, d) ∷ cs) h k f =
        let (ne, rest) = absent_ne key d cs h in
        rw ne (Fresh-put d.capability.id cs rest (rw k.0 at ne) f.0, Distinct-put cs rest k.1 f.1)

    IsKeyed-put :
        (cs : Dict String (Collector Facts Point Snapshot))
        → is_some (get c.capability.id cs) ≡ false
        → IsKeyed cs
        → IsKeyed (put c.capability.id c cs)
    unfolding put
    IsKeyed-put [] h k = (refl, tt)
    IsKeyed-put ((key, d) ∷ cs) h k =
        let (ne, rest) = absent_ne key d cs h in rw ne (k.0, IsKeyed-put cs rest k.1)

    IsCovered-put_new :
        (a : StatusStabilizer) (availability : Dict String StatusStabilizer)
        (cs : Dict String (Collector Facts Point Snapshot))
        → is_some (get c.capability.id cs) ≡ false
        → IsCovered availability cs
        → IsCovered (put c.capability.id a availability) (put c.capability.id c cs)
    unfolding put
    IsCovered-put_new a availability [] h v = (simp (get-put, eq_refl), tt)
    IsCovered-put_new a availability ((key, d) ∷ cs) h v =
        let (ne, rest) = absent_ne key d cs h in
        rw ne (
          ground (arith, get-put c.capability.id d.capability.id a availability, v.0),
          IsCovered-put_new a availability cs rest v.1,
        )

  -- The registry with a collector of a new id.
  abbrev pub added :
      CollectorRegistry Facts Point Snapshot
      → Collector Facts Point Snapshot
      → CollectorRegistry Facts Point Snapshot
  added r c = record r {
    collectors = put c.capability.id c r.collectors;
    availability = put c.capability.id (init "available" availability_ranks 3 2) r.availability;
  }

  -- `register` refuses a capability that lacks an id, then an id that is taken, and adds the
  -- collector with a fresh stabilizer otherwise.
  register_result :
      (r : CollectorRegistry Facts Point Snapshot) (c : Collector Facts Point Snapshot)
      {r' : CollectorRegistry Facts Point Snapshot}
      → register r c ≡ ok r'
      → (is_some (get c.capability.id r.collectors) ≡ false) × (added r c ≡ r')
  unfolding register
  register_result r c h = ground arith

  added-IsWellFormed :
      (r : CollectorRegistry Facts Point Snapshot) (c : Collector Facts Point Snapshot)
      → IsWellFormed r
      → is_some (get c.capability.id r.collectors) ≡ false
      → IsWellFormed (added r c)
  added-IsWellFormed r c w h = record {
    keyed = IsKeyed-put c r.collectors h w.keyed;
    distinct = Distinct-put c r.collectors h w.keyed w.distinct;
    covered =
        IsCovered-put_new c (init "available" availability_ranks 3 2) r.availability r.collectors h
          w.covered;
    last_ok = w.last_ok;
  }

  -- A successful registration leads from a well-formed registry to a well-formed one.
  pub register-IsWellFormed :
      (r : CollectorRegistry Facts Point Snapshot) (c : Collector Facts Point Snapshot)
      {r' : CollectorRegistry Facts Point Snapshot}
      → IsWellFormed r
      → register r c ≡ ok r'
      → IsWellFormed r'
  register-IsWellFormed r c w h =
      let (fresh, e) = register_result r c h in rw (← e) (added-IsWellFormed r c w fresh)

  take_turn_last :
      (context : CollectorContext Facts) (a : Option StatusStabilizer)
      (previous : Option (CollectorRun Point Snapshot)) (c : Collector Facts Point Snapshot)
      {t : Turn Point Snapshot} {r : CollectorRun Point Snapshot}
      → (a >>= (λ s. take_turn context s previous c)) ≡ some t
      → t.last ≡ some r
      → IsAvailable r
  unfolding take_turn
  take_turn_last context a previous c e h =
      let (s, _, e') = >>=-eq-some a _ e in
      let (o, _, e'') = >>=-eq-some (c.run context) _ e' in
      dispatch_last s previous c.capability context.timestamp o
        (ap (λ (u : Turn Point Snapshot). u.last) (some-injective _ _ e'') ∙ h)

  -- A pass keeps every stabilizer and the last available runs in order, whether it comes to its end or not.
  abbrev Kept : Dict String (Collector Facts Point Snapshot) → Pass Point Snapshot → Type 0
  Kept all p = IsCovered p.availability all × LastOk p.last_available

  after_turn-Kept :
      (all : Dict String (Collector Facts Point Snapshot)) (stop : Pass Point Snapshot)
      (turn : Option (Turn Point Snapshot)) (onward : Turn Point Snapshot → Pass Point Snapshot)
      → Kept all stop
      → ((t : Turn Point Snapshot) → turn ≡ some t → Kept all (onward t))
      → Kept all (after_turn stop turn onward)
  unfolding after_turn
  after_turn-Kept all stop none onward k h = k
  after_turn-Kept all stop (some t) onward k h = h t refl

  collect_from_keeps :
      (context : CollectorContext Facts) (all cs : Dict String (Collector Facts Point Snapshot))
      (availability : Dict String StatusStabilizer)
      (last : Dict String (CollectorRun Point Snapshot))
      → IsCovered availability all
      → LastOk last
      → Kept all (collect_from context cs availability last)
  unfolding collect_from
  collect_from_keeps context all [] availability last v l = (v, l)
  collect_from_keeps context all ((key, c) ∷ cs) availability last v l =
      let id = c.capability.id in
      after_turn-Kept all _ (get id availability >>= (λ a. take_turn context a (get id last) c)) _
        (v, l)
        (λ t e.
          collect_from_keeps context all cs (put id t.availability availability)
            (write_last id t.last last) (IsCovered-put id t.availability availability all v)
            (LastOk-write id t.last last
              (λ r. take_turn_last context (get id availability) (get id last) c e) l))

  -- From a well-formed registry a pass leaves a well-formed one with the same collectors, whether it comes to
  -- its end or not. It does exactly where every result that is no `Collection` can be read: one that raises
  -- when its points are read ends the pass. It then reports one run for each collector, in order: the run that
  -- its own outcome, stabilizer and last available run give, whatever the other collectors do.
  pub collect-own_runs :
      (context : CollectorContext Facts) (r : CollectorRegistry Facts Point Snapshot)
      → IsWellFormed r
      → let (after, runs) = collect context r in
        IsWellFormed after
        × (after.collectors ≡ r.collectors)
        × (is_some runs
            ≡ all
                (λ (c : String × Collector Facts Point Snapshot). is_some (c.1.run context))
                r.collectors)
        × (runs ≡ all_some (own_runs context r.availability r.last_available r.collectors))
  unfolding collect
  collect-own_runs context r w =
      let (covered, last_ok) =
        collect_from_keeps context r.collectors r.collectors r.availability r.last_available
          w.covered w.last_ok in
      let own =
        collect_from-own_runs context r.collectors r.availability r.last_available w.distinct in
      (
        record { keyed = w.keyed; distinct = w.distinct; covered = covered; last_ok = last_ok },
        refl,
        ap is_some own
            ∙ own_runs_there context r.collectors r.availability r.last_available w.covered,
        own,
      )
