-- ===== src/Journal.antt =====
-- src/infra_sentinel/metrics/diagnostics.py: the diagnostic journal, and the one writer of it,
-- `observe_projection`. Each SQLite table is a list of rows: a table with a primary key is a
-- dictionary by that key, and `diagnostic_metadata` is the record's own fields. A transaction is a
-- function from the journal to the journal. Epochs are whole seconds.
pub mod Retention
pub mod Replay
pub mod Query
pub mod Conditions
mod Tests
use Prim.Native.String.{compare}
use Prim.Native.Nat.{Ordering}
pub use infra_sentinel.Prelude.Sort.{text_lt}
use infra_sentinel.Prelude.{
  ℕ, ◌+◌, ◌-◌, ◌*◌, String, ◌==◌, str_eq, Bool, true, false, ◌||◌, ◌&&◌, not, Option, none, some,
  List, [], ◌∷◌, ◌++◌, ltb, leb, length, is_some, take, drop, select, or_default, map,
  if◌then◌else◌,
}
use infra_sentinel.Prelude.Dict.{Dict, get, put, remove, string_eq}
use infra_sentinel.Prelude.Sort.{sort}
use infra_sentinel.Diagnostics.{
  Category, Severity, info, warning, critical, ObservationStatus, observed, unknown, unobserved,
  DiagnosticCheck, DiagnosticObservation, is_observed,
}

abbrev pub retention_seconds : ℕ
retention_seconds = 30 * 86400

abbrev pub max_events : ℕ
max_events = 10000

abbrev pub max_active : ℕ
max_active = 512

abbrev pub max_checks : ℕ
max_checks = 1024

pub data Transition : Type 0 where
  raised changed recovered : Transition

-- A row of `diagnostic_checks`, whose key is the diagnostic's id.
pub record CheckRow : Type 0 where
  pub category : Category
  pub source_id : String
  pub source_label : String
  pub code : String
  pub observation_status : ObservationStatus
  pub observed_epoch : Option ℕ
  pub last_seen_epoch : ℕ
  pub freshness_seconds : ℕ

-- A row of `diagnostic_active`, whose key is the diagnostic's id.
pub record ActiveRow : Type 0 where
  pub category : Category
  pub source_id : String
  pub source_label : String
  pub code : String
  pub severity : Severity
  pub observed_epoch : ℕ
  pub started_epoch : ℕ

-- A row of `diagnostic_events`.
pub record EventRow : Type 0 where
  pub event_id : ℕ
  pub diagnostic_id : String
  pub category : Category
  pub source_id : String
  pub source_label : String
  pub code : String
  pub severity : Severity
  pub transition : Transition
  pub observed_epoch : ℕ
  pub started_epoch : ℕ

pub record Journal : Type 0 where
  pub checks : Dict String CheckRow
  pub active : Dict String ActiveRow
  pub events : List EventRow
  -- the next value of AUTOINCREMENT
  pub next_event_id : ℕ
  pub history_started_epoch : Option ℕ
  pub observed_epoch : Option ℕ
  pub sample_truncated : Bool
  pub history_truncated : Bool

unfoldable pub empty : Journal
empty = record {
  checks = [];
  active = [];
  events = [];
  next_event_id = 1;
  history_started_epoch = none;
  observed_epoch = none;
  sample_truncated = false;
  history_truncated = false;
}

abbrev pub severity_eq : Severity → Severity → Bool
severity_eq info info = true
severity_eq warning warning = true
severity_eq critical critical = true
severity_eq _ _ = false

-- `_event`
unfoldable pub event : Journal → String → ActiveRow → Transition → ℕ → Journal
event j id row transition now = record j {
  events =
      j.events
      ++ record {
        event_id = j.next_event_id;
        diagnostic_id = id;
        category = row.category;
        source_id = row.source_id;
        source_label = row.source_label;
        code = row.code;
        severity = row.severity;
        transition = transition;
        observed_epoch = now;
        started_epoch = row.started_epoch;
      }
        ∷ [];
  next_event_id = j.next_event_id + 1;
}

-- The evidence of an active condition is newer than that of the check.
abbrev pub is_replay : Option ActiveRow → Option ℕ → Bool
is_replay (some prior) (some epoch) = ltb epoch prior.observed_epoch
is_replay _ _ = false

-- The status of a check, once older cached evidence is set aside.
unfoldable pub effective_status : DiagnosticCheck → Option ActiveRow → ObservationStatus
effective_status check prior =
    if is_observed check.observation_status && is_replay prior check.observed_epoch
    then unknown
    else check.observation_status

-- INSERT INTO diagnostic_checks ... ON CONFLICT DO UPDATE: a row that is there keeps its category,
-- source, label and code, and its epoch where the check has none.
unfoldable pub upsert_check : Option CheckRow → DiagnosticCheck → ObservationStatus → ℕ → CheckRow
upsert_check none check status now = record {
  category = check.category;
  source_id = check.source_id;
  source_label = check.source_label;
  code = check.code;
  observation_status = status;
  observed_epoch = check.observed_epoch;
  last_seen_epoch = now;
  freshness_seconds = check.freshness_seconds;
}
upsert_check (some row) check status now = record row {
  observation_status = status;
  observed_epoch =
      if is_some check.observed_epoch then check.observed_epoch else row.observed_epoch;
  last_seen_epoch = now;
  freshness_seconds = check.freshness_seconds;
}

-- The row that an asserted condition gets.
unfoldable pub active_row : DiagnosticCheck → Option ActiveRow → Severity → ℕ → ActiveRow
active_row check prior severity now = record {
  category = check.category;
  source_id = check.source_id;
  source_label = check.source_label;
  code = check.code;
  severity = severity;
  observed_epoch = or_default check.observed_epoch now;
  started_epoch = elim prior [ none ↦ now | some p ↦ p.started_epoch ];
}

-- INSERT INTO diagnostic_active ... ON CONFLICT DO UPDATE.
unfoldable pub upsert_active : Option ActiveRow → ActiveRow → ActiveRow
upsert_active none row = row
upsert_active (some old) row = record old {
  severity = row.severity;
  observed_epoch = row.observed_epoch;
}

-- The part of the loop's body below the upsert of the check, at an observed check: a condition that
-- clears is recovered, one that is asserted is raised, changed or refreshed.
unfoldable pub assert_condition :
    Journal → DiagnosticCheck → Option ActiveRow → Option Severity → ℕ → Journal
assert_condition j check none none now = j
assert_condition j check (some prior) none now =
    let t = event j check.id prior recovered now in record t { active = remove check.id t.active }
assert_condition j check none (some severity) now =
    let row = active_row check none severity now in
    let t = event j check.id row raised now in
    record t { active = put check.id (upsert_active (get check.id t.active) row) t.active }
assert_condition j check (some prior) (some severity) now =
    let row = active_row check (some prior) severity now in
    let t = if severity_eq prior.severity severity then j else event j check.id row changed now in
    record t { active = put check.id (upsert_active (get check.id t.active) row) t.active }

-- The loop's body. `snapshot` is the active table as it was read before the loop.
unfoldable pub record_check : Dict String ActiveRow → ℕ → Journal → DiagnosticCheck → Journal
record_check snapshot now j check =
    let prior = get check.id snapshot in
    let status = effective_status check prior in
    let t = record j {
      checks = put check.id (upsert_check (get check.id j.checks) check status now) j.checks;
    } in
    if is_observed status then assert_condition t check prior check.severity now else t

unfoldable pub record_checks : Dict String ActiveRow → ℕ → Journal → List DiagnosticCheck → Journal
record_checks snapshot now j [] = j
record_checks snapshot now j (check ∷ rest) =
    record_checks snapshot now (record_check snapshot now j check) rest

-- ORDER BY observed_epoch DESC, event_id DESC.
abbrev pub newer_event : EventRow → EventRow → Bool
newer_event a b =
    ltb b.observed_epoch a.observed_epoch
    || (a.observed_epoch == b.observed_epoch && ltb b.event_id a.event_id)

-- ORDER BY observed_epoch DESC, diagnostic_id.
abbrev pub newer_active : String × ActiveRow → String × ActiveRow → Bool
newer_active a b =
    ltb b.1.observed_epoch a.1.observed_epoch
    || (a.1.observed_epoch == b.1.observed_epoch && text_lt a.0 b.0)

-- ORDER BY last_seen_epoch DESC, diagnostic_id.
abbrev pub newer_check : String × CheckRow → String × CheckRow → Bool
newer_check a b =
    ltb b.1.last_seen_epoch a.1.last_seen_epoch
    || (a.1.last_seen_epoch == b.1.last_seen_epoch && text_lt a.0 b.0)

-- `observed_epoch < now - RETENTION_SECONDS`
abbrev pub is_expired : ℕ → ℕ → Bool
is_expired now epoch = ltb (epoch + retention_seconds) now

-- `_retain`. DELETE of the rows past an OFFSET leaves the first rows in that order. A check of an
-- active condition is kept whatever its age.
unfoldable pub retain : Journal → ℕ → Journal
retain j now =
    let young = select (λ (e : EventRow). not (is_expired now e.observed_epoch)) j.events in
    let events = take max_events (sort newer_event young) in
    let active = take max_active (sort newer_active j.active) in
    let is_active = λ (c : String × CheckRow). is_some (get c.0 active) in
    let kept =
      select (λ (c : String × CheckRow). is_active c || not (is_expired now c.1.last_seen_epoch))
        j.checks in
    let spare =
      take (max_checks - length active)
        (sort newer_check (select (λ (c : String × CheckRow). not (is_active c)) kept)) in
    record j {
      events = events;
      active = active;
      checks = select is_active kept ++ spare;
      history_truncated =
          j.history_truncated
          || ltb (length events) (length j.events)
          || ltb (length active) (length j.active);
    }

-- The transaction of `observe_projection`: a sample older than the last one changes nothing.
abbrev pub is_stale : Option ℕ → ℕ → Bool
is_stale none now = false
is_stale (some previous) now = ltb now previous

abbrev unobserve : String × CheckRow → String × CheckRow
unobserve (id, row) = (id, record row { observation_status = unobserved })

unfoldable pub observe : Journal → DiagnosticObservation → ℕ → Journal
observe j observation now =
    if is_stale j.observed_epoch now
    then j
    else let started = record j {
      history_started_epoch =
          if is_some j.history_started_epoch then j.history_started_epoch else some now;
      observed_epoch = some now;
      sample_truncated = observation.truncated;
      checks = map unobserve j.checks;
    } in
      retain (record_checks j.active now started observation.checks) now
