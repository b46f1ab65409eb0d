-- ===== src/Collectors.antt =====
-- src/infra_sentinel/core/collectors.py: the collector registry, which runs every collector in turn. A
-- failure of the call stays with its collector; one in reading the points that it returned ends the pass.
-- The collectors are not part of the registry: each is its capability and a function from the context to
-- an outcome (an exception of some kind, a `Collection`, or plain points), or to none where the points
-- cannot be read. Metric points, snapshots and the facts of the context are types of the model's
-- parameters; of the context the registry itself reads the timestamp alone.
pub mod Isolation
pub mod Outcomes
pub mod Registration
mod Tests
use infra_sentinel.Prelude.{
  String, str_eq, Bool, true, false, ◌||◌, Option, none, some, List, [], ◌∷◌, ◌++◌, is_some, ℕ,
  if◌then◌else◌, ◌>>=◌,
}
use infra_sentinel.Prelude.Dict.{Dict, get, put, string_eq}
use infra_sentinel.StatusStability.{StatusDecision, StatusStabilizer, init, observe}

pub record CollectorCapability : Type 0 where
  pub id : String
  pub source_id : String
  pub source_kind : String
  pub resource_id : String
  pub metrics : List String

pub record CollectorContext (Facts : Type 0) : Type 0 where
  -- `local_sample.get("timestamp")` where that is a string
  pub timestamp : Option String
  pub facts : Facts

pub record Collection (Point Snapshot : Type 0) : Type 0 where
  pub points : List Point
  pub status : String
  pub snapshot : Option Snapshot
  pub checked_at : Option String

pub record CollectorRun (Point Snapshot : Type 0) : Type 0 where
  pub capability : CollectorCapability
  pub status : String
  pub points : List Point
  pub snapshot : Option Snapshot
  pub error_kind : Option String
  pub checked_at : Option String

-- What a call of `collector.collect(context)` does: it raises, or returns a `Collection` or other points.
pub data Outcome (Point Snapshot : Type 0) : Type 0 where
  raised : String → Outcome Point Snapshot
  collection : Collection Point Snapshot → Outcome Point Snapshot
  plain : List Point → Outcome Point Snapshot

-- `none` is a result that is no `Collection` and raises when its points are read.
pub record Collector (Facts Point Snapshot : Type 0) : Type 0 where
  pub capability : CollectorCapability
  pub run : CollectorContext Facts → Option (Outcome Point Snapshot)

pub record CollectorRegistry (Facts Point Snapshot : Type 0) : Type 0 where
  pub collectors : Dict String (Collector Facts Point Snapshot)
  pub availability : Dict String StatusStabilizer
  pub last_available : Dict String (CollectorRun Point Snapshot)

pub data RegisterError : Type 0 where
  incomplete_capability duplicate_id : RegisterError

pub data Registered (R : Type 0) : Type 0 where
  ok : R → Registered R
  err : RegisterError → Registered R

abbrev pub availability_ranks : Dict String ℕ
availability_ranks = ("available", 0) ∷ ("error", 1) ∷ []

module _ {Facts Point Snapshot : Type 0} where
  -- `register`: `ValueError` is `err`.
  unfoldable pub register :
      CollectorRegistry Facts Point Snapshot
      → Collector Facts Point Snapshot
      → Registered (CollectorRegistry Facts Point Snapshot)
  register r c =
      let capability = c.capability in
      if str_eq capability.id ""
        || str_eq capability.source_id ""
        || str_eq capability.resource_id ""
      then err incomplete_capability
      else if is_some (get capability.id r.collectors)
      then err duplicate_id
      else ok (record r {
        collectors = put capability.id c r.collectors;
        availability = put capability.id (init "available" availability_ranks 3 2) r.availability;
      })

-- What one collector's turn leaves: its stabilizer, its new last available run if that is
-- written, and its run.
pub record Turn (Point Snapshot : Type 0) : Type 0 where
  pub availability : StatusStabilizer
  pub last : Option (CollectorRun Point Snapshot)
  pub result : CollectorRun Point Snapshot

-- What the loop of `collect` leaves: the two dictionaries, the runs in order, and whether it comes to its
-- end.
pub record Pass (Point Snapshot : Type 0) : Type 0 where
  pub availability : Dict String StatusStabilizer
  pub last_available : Dict String (CollectorRun Point Snapshot)
  pub runs : List (CollectorRun Point Snapshot)
  pub finished : Bool

module _ {Point Snapshot : Type 0} where
  -- The run that is reported while a failure is confirmed (`error`) or still waits for
  -- confirmation (the last available run, without its points).
  unfoldable pub failed_run :
      CollectorCapability
      → StatusDecision
      → Option (CollectorRun Point Snapshot)
      → Option String
      → Option String
      → CollectorRun Point Snapshot
  failed_run capability decision previous error_kind checked_at =
      if str_eq decision.status "error"
      then record {
        capability = capability;
        status = "error";
        points = [];
        snapshot = none;
        error_kind = error_kind;
        checked_at = checked_at;
      }
      else record {
        capability = capability;
        status = elim previous [ none ↦ "waiting" | some p ↦ p.status ];
        points = [];
        snapshot = elim previous [ none ↦ none | some p ↦ p.snapshot ];
        error_kind = none;
        checked_at = elim previous [ none ↦ checked_at | some p ↦ p.checked_at ];
      }

  -- A turn in which the collector failed: it raised, or returned the status `error`.
  unfoldable pub fail_turn :
      StatusStabilizer
      → Option (CollectorRun Point Snapshot)
      → CollectorCapability
      → Option String
      → Option String
      → Turn Point Snapshot
  fail_turn availability previous capability error_kind checked_at =
      let (availability', decision) = observe availability "error" false in
      record {
        availability = availability';
        last = none;
        result = failed_run capability decision previous error_kind checked_at;
      }

  -- A turn in which it succeeded. A confirmed failure hides it until recovery is confirmed too.
  unfoldable pub success_turn :
      StatusStabilizer → CollectorCapability → Collection Point Snapshot → Turn Point Snapshot
  success_turn availability capability c =
      let (availability', decision) = observe availability "available" false in
      if str_eq decision.status "error"
      then record {
        availability = availability';
        last = none;
        result = record {
          capability = capability;
          status = "error";
          points = [];
          snapshot = none;
          error_kind = none;
          checked_at = c.checked_at;
        };
      }
      else record {
        availability = availability';
        last = some (record {
          capability = capability;
          status = c.status;
          points = [];
          snapshot = c.snapshot;
          error_kind = none;
          checked_at = c.checked_at;
        });
        result = record {
          capability = capability;
          status = c.status;
          points = c.points;
          snapshot = c.snapshot;
          error_kind = none;
          checked_at = c.checked_at;
        };
      }

  -- The body of the loop after the call: by how the call ended.
  unfoldable pub dispatch :
      StatusStabilizer
      → Option (CollectorRun Point Snapshot)
      → CollectorCapability
      → Option String
      → Outcome Point Snapshot
      → Turn Point Snapshot
  dispatch a previous capability timestamp (raised kind) =
      fail_turn a previous capability (some kind) timestamp
  dispatch a previous capability timestamp (collection c) =
      if str_eq c.status "error"
      then fail_turn a previous capability none c.checked_at
      else success_turn a capability c
  dispatch a previous capability timestamp (plain points) =
      success_turn a capability
        (record { points = points; status = "ok"; snapshot = none; checked_at = none })

  abbrev pub write_last :
      String
      → Option (CollectorRun Point Snapshot)
      → Dict String (CollectorRun Point Snapshot)
      → Dict String (CollectorRun Point Snapshot)
  write_last id none last = last
  write_last id (some r) last = put id r last

  -- `collected_points`
  unfoldable pub collected_points : List (CollectorRun Point Snapshot) → List Point
  collected_points [] = []
  collected_points (r ∷ runs) = r.points ++ collected_points runs

  -- The pass that a turn begins: it stops where there is no turn.
  unfoldable pub after_turn :
      Pass Point Snapshot
      → Option (Turn Point Snapshot)
      → (Turn Point Snapshot → Pass Point Snapshot)
      → Pass Point Snapshot
  after_turn stop none onward = stop
  after_turn stop (some t) onward = let p = onward t in record p { runs = t.result ∷ p.runs }

module _ {Facts Point Snapshot : Type 0} where
  -- One collector's turn in a context. The points are read outside of the `try`.
  unfoldable pub take_turn :
      CollectorContext Facts
      → StatusStabilizer
      → Option (CollectorRun Point Snapshot)
      → Collector Facts Point Snapshot
      → Option (Turn Point Snapshot)
  take_turn context a previous c =
      c.run context
      >>= (λ outcome. some (dispatch a previous c.capability context.timestamp outcome))

  -- The loop of `collect` over the collectors that are left. It ends with an exception at a collector with no
  -- stabilizer (a `KeyError`), and at one whose points cannot be read.
  unfoldable pub collect_from :
      CollectorContext Facts
      → Dict String (Collector Facts Point Snapshot)
      → Dict String StatusStabilizer
      → Dict String (CollectorRun Point Snapshot)
      → Pass Point Snapshot
  collect_from context [] availability last = record {
    availability = availability;
    last_available = last;
    runs = [];
    finished = true;
  }
  collect_from context ((key, c) ∷ rest) availability last =
      let id = c.capability.id in
      let stop : Pass Point Snapshot = record {
        availability = availability;
        last_available = last;
        runs = [];
        finished = false;
      } in
      after_turn stop (get id availability >>= (λ a. take_turn context a (get id last) c)) (λ t.
        collect_from context rest (put id t.availability availability) (write_last id t.last last))

  -- `collect`: the registry, and the runs where the pass comes to its end.
  unfoldable pub collect :
      CollectorContext Facts
      → CollectorRegistry Facts Point Snapshot
      → CollectorRegistry Facts Point Snapshot × Option (List (CollectorRun Point Snapshot))
  collect context r =
      let p = collect_from context r.collectors r.availability r.last_available in
      (
        record r { availability = p.availability; last_available = p.last_available },
        if p.finished then some p.runs else none,
      )
