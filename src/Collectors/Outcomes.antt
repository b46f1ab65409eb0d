-- ===== src/Collectors/Outcomes.antt =====
-- What a collector's turn reports after a failure and after a success, and over an outage.
use infra_sentinel.Prelude.{
  ℕ, String, str_eq, ◌≡◌, refl, Bool, true, false, Bool-cases, inl, inr, Option, none, some, List,
  [], ◌∷◌, ◌++◌, All, map, take, drop, ap, ◌∙◌, arith, if◌then◌else◌,
}
use infra_sentinel.Prelude.Dict.{get, string_eq}
use infra_sentinel.StatusStability.{StatusStabilizer, observe, window}
use infra_sentinel.Collectors.{
  CollectorCapability, CollectorRun, Collection, Outcome, raised, collection, plain, Turn,
  availability_ranks, failed_run, fail_turn, success_turn, dispatch,
}

ok_is_no_error : str_eq "ok" "error" ≡ false
ok_is_no_error = refl

-- A collector's stabilizer at registration, after n failures, and with its failure confirmed.
abbrev pub steady : StatusStabilizer
steady = record {
  status = "available";
  ranks = availability_ranks;
  worsen_after = 3;
  recover_after = 2;
  pending_status = none;
  pending_count = 0;
}

abbrev pub failing : ℕ → StatusStabilizer
failing n = record steady { pending_status = some "error"; pending_count = n }

abbrev pub down : StatusStabilizer
down = record steady { status = "error" }

abbrev pub recovering : StatusStabilizer
recovering = record down { pending_status = some "available"; pending_count = 1 }

abbrev settled_error : StatusStabilizer → Bool
settled_error s = str_eq s.status "error"

-- The stabilizer's way through an outage and back.
outage_states :
    ((observe steady "error" false).0 ≡ failing 1)
    × ((observe (failing 1) "error" false).0 ≡ failing 2)
    × ((observe (failing 2) "error" false).0 ≡ down)
    × ((observe down "available" false).0 ≡ recovering)
    × ((observe recovering "available" false).0 ≡ steady)
unfolding observe window get
outage_states = (refl, refl, refl, refl, refl)

two : {x y : String} {xs ys : List String} → x ≡ y → xs ≡ ys → (x ∷ xs) ≡ (y ∷ ys)
two e f = cc (e, f)

module _ {Point Snapshot : Type 0} where
  -- The collector raised, or returned the status `error`.
  abbrev pub is_failure : Outcome Point Snapshot → Bool
  is_failure (raised kind) = true
  is_failure (collection c) = str_eq c.status "error"
  is_failure (plain points) = false

  -- The points that an outcome brings with it.
  abbrev pub delivered : Outcome Point Snapshot → List Point
  delivered (raised kind) = []
  delivered (collection c) = c.points
  delivered (plain points) = points

  -- What the outcome feeds to the collector's stabilizer.
  abbrev pub signal : Outcome Point Snapshot → String
  signal o = if is_failure o then "error" else "available"

  -- A turn feeds the stabilizer one sample, and its run has the outcome's points exactly when the
  -- collector succeeded and no failure is confirmed; otherwise it has none.
  pub dispatch_points :
      (a : StatusStabilizer) (previous : Option (CollectorRun Point Snapshot))
      (capability : CollectorCapability) (timestamp : Option String) (o : Outcome Point Snapshot)
      → let t = dispatch a previous capability timestamp o in
        (t.availability ≡ (observe a (signal o) false).0)
        × (t.result.capability ≡ capability)
        × (t.result.points ≡ (
            if is_failure o
            then []
            else if str_eq (observe a (signal o) false).1.status "error"
            then []
            else delivered o))
  unfolding dispatch fail_turn success_turn failed_run
  dispatch_points a previous capability timestamp (raised kind) = ground arith
  dispatch_points a previous capability timestamp (collection c) = ground arith
  dispatch_points a previous capability timestamp (plain points) = ground arith

  -- A last available run carries no points and is not an error.
  pub record IsAvailable (r : CollectorRun Point Snapshot) : Type 0 where
    pub no_points : r.points ≡ []
    pub no_error : str_eq r.status "error" ≡ false

  success_last :
      (a : StatusStabilizer) (capability : CollectorCapability) (c : Collection Point Snapshot)
      {r : CollectorRun Point Snapshot}
      → (success_turn a capability c).last ≡ some r
      → (r.points ≡ []) × (r.status ≡ c.status)
  unfolding success_turn
  success_last a capability c h = ground arith

  pub dispatch_last :
      (a : StatusStabilizer) (previous : Option (CollectorRun Point Snapshot))
      (capability : CollectorCapability) (timestamp : Option String) (o : Outcome Point Snapshot)
      {r : CollectorRun Point Snapshot}
      → (dispatch a previous capability timestamp o).last ≡ some r
      → IsAvailable r
  unfolding dispatch fail_turn
  dispatch_last a previous capability timestamp (raised kind) h = cc
  dispatch_last a previous capability timestamp (collection c) h =
      elim (Bool-cases (str_eq c.status "error")) [
        | inl e ↦ ground arith
        | inr e ↦
            let (no_points, same) = success_last a capability c (rw e at h) in
            record { no_points = no_points; no_error = rw same e }
      ]
  dispatch_last a previous capability timestamp (plain points) h =
      let (no_points, same) = success_last a capability _ h in
      record { no_points = no_points; no_error = rw same refl }

  -- The run that stands in for a failure that is not confirmed: the last available one, without
  -- points, or `waiting`.
  abbrev pub stand_in : Option (CollectorRun Point Snapshot) → String
  stand_in none = "waiting"
  stand_in (some p) = p.status

  module _ (previous : Option (CollectorRun Point Snapshot)) (capability : CollectorCapability)
      (timestamp : Option String) where
    abbrev turn : StatusStabilizer → Outcome Point Snapshot → Turn Point Snapshot
    turn a o = dispatch a previous capability timestamp o

    failure_reports :
        (a : StatusStabilizer) (o : Outcome Point Snapshot)
        → is_failure o ≡ true
        → ((turn a o).availability ≡ (observe a "error" false).0)
          × ((turn a o).result.status ≡ (
              if str_eq (observe a "error" false).1.status "error"
              then "error"
              else stand_in previous))
    unfolding dispatch fail_turn success_turn failed_run
    failure_reports a (raised kind) h = ground arith
    failure_reports a (collection c) h = ground arith
    failure_reports a (plain points) h = cc

    failure_from :
        {a b : StatusStabilizer} (o : Outcome Point Snapshot)
        → a ≡ b
        → is_failure o ≡ true
        → ((turn a o).availability ≡ (observe b "error" false).0)
          × ((turn a o).result.status ≡ (
              if str_eq (observe b "error" false).1.status "error"
              then "error"
              else stand_in previous))
    failure_from {a} {b} o p h = rw p (failure_reports b o h)

    -- The statuses that a collector shows over a sequence of outcomes.
    pub statuses : StatusStabilizer → List (Outcome Point Snapshot) → List String
    statuses a [] = []
    statuses a (o ∷ rest) = (turn a o).result.status ∷ statuses (turn a o).availability rest

    abbrev pub AllFail : List (Outcome Point Snapshot) → Type 0
    AllFail outcomes = All (λ (o : Outcome Point Snapshot). is_failure o ≡ true) outcomes

    down_stays :
        (outcomes : List (Outcome Point Snapshot))
        → AllFail outcomes
        → statuses down outcomes ≡ map (λ (o : Outcome Point Snapshot). "error") outcomes
    unfolding statuses observe window get
    down_stays [] h = refl
    down_stays (o ∷ rest) h =
        let t = failure_from {a = down} {b = down} o refl h.0 in
        two t.1 (ap (λ a. statuses a rest) t.0 ∙ down_stays rest h.1)

    after_two :
        (a : StatusStabilizer) (outcomes : List (Outcome Point Snapshot))
        → a ≡ failing 2
        → AllFail outcomes
        → statuses a outcomes ≡ map (λ (o : Outcome Point Snapshot). "error") outcomes
    unfolding statuses observe window get
    after_two a [] e h = refl
    after_two a (o ∷ rest) e h =
        let t = failure_from {a = a} {b = failing 2} o e h.0 in
        two t.1 (ap (λ a. statuses a rest) t.0 ∙ down_stays rest h.1)

    -- A collector of an available source that fails any number of times in a row, whatever the failures are,
    -- shows its last available status for the first two of them, and `error` for the third and all later ones.
    pub outage :
        (outcomes : List (Outcome Point Snapshot))
        → AllFail outcomes
        → statuses steady outcomes
          ≡ map (λ (o : Outcome Point Snapshot). stand_in previous) (take 2 outcomes)
            ++ map (λ (o : Outcome Point Snapshot). "error") (drop 2 outcomes)
    unfolding statuses observe window get
    outage [] h = refl
    outage (first ∷ []) f =
        let t = failure_from {a = steady} {b = steady} first refl f.0 in two t.1 refl
    outage (first ∷ second ∷ later) f =
        let t = failure_from {a = steady} {b = steady} first refl f.0 in
        let u =
          failure_from {a = (turn steady first).availability} {b = failing 1} second t.0 f.1.0 in
        two t.1 (two u.1 (after_two _ later u.0 f.1.1))

    success_reports :
        (a : StatusStabilizer) (o : Outcome Point Snapshot)
        → is_failure o ≡ false
        → ((turn a o).availability ≡ (observe a "available" false).0)
          × ((turn a o).result.points
              ≡ (if str_eq (observe a "available" false).1.status "error" then [] else delivered o))
    success_reports a o h =
        let (s, c, p) = dispatch_points a previous capability timestamp o in ground arith

    success_from :
        {a b : StatusStabilizer} (o : Outcome Point Snapshot)
        → a ≡ b
        → is_failure o ≡ false
        → ((turn a o).availability ≡ (observe b "available" false).0)
          × ((turn a o).result.points
              ≡ (if str_eq (observe b "available" false).1.status "error" then [] else delivered o))
    success_from {a} {b} o p h = rw p (success_reports b o h)

    -- After a confirmed outage the points of the first success are withheld, and those of the
    -- second success in a row are reported, with the source available again.
    pub recovery :
        (first second : Outcome Point Snapshot)
        → is_failure first ≡ false
        → is_failure second ≡ false
        → let t = turn down first in
          let u = turn t.availability second in
          (t.result.points ≡ []) × (u.result.points ≡ delivered second) × (u.availability ≡ steady)
    unfolding observe window get
    recovery first second f g =
        let t = success_from first refl f in let u = success_from second t.0 g in (t.1, u.1, u.0)
