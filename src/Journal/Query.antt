-- ===== src/Journal/Query.antt =====
-- The read side of metrics/diagnostics.py: `_query` validates a request, `query` answers it from the
-- tables. A row's values are of the tables' own types, so the tests for foreign values are left out.
pub mod Bounds
pub mod Answers
use infra_sentinel.Prelude.{
  ℕ, suc, ◌+◌, ◌-◌, String, str_eq, ◌==◌, Bool, true, false, ◌&&◌, ◌||◌, not, Option, none, some,
  List, [], ◌∷◌, ltb, leb, length, take, select, any, is_some, or_default, map, if◌then◌else◌,
}
use infra_sentinel.Prelude.Int.{pos, negsuc}
use infra_sentinel.Prelude.Dict.{Dict, get, string_eq}
use infra_sentinel.Prelude.Sort.{sort}
use infra_sentinel.Values.{
  Value, null, boolean, int, float, not_finite, text, array, object, valid_epoch,
}
use infra_sentinel.Diagnostics.{
  Category, source, network, system, facility, upstream, Severity, info, warning, critical,
  ObservationStatus, observed, unknown, disabled, unobserved, is_observed,
}
use infra_sentinel.Journal.{
  Journal, CheckRow, ActiveRow, EventRow, Transition, raised, changed, recovered, newer_event,
  text_lt, severity_eq, max_active, max_checks, retention_seconds,
}

pub data QueryError : Type 0 where
  unsupported_fields invalid_filter invalid_source_id invalid_limit invalid_epoch invalid_range :
      QueryError

pub data Result (A : Type 0) : Type 0 where
  ok : A → Result A
  err : QueryError → Result A

infixl 5 ◌>>=◌ ◌>>◌
abbrev pub ◌>>=◌ : {A B : Type 0} → Result A → (A → Result B) → Result B
ok a >>= f = f a
err e >>= f = err e

abbrev pub ◌>>◌ : {B : Type 0} → Result (Unit {0}) → Result B → Result B
m >> k = m >>= λ _. k

abbrev pub guard : Bool → QueryError → Result (Unit {0})
guard true e = ok tt
guard false e = err e

pub record Query : Type 0 where
  pub category : Option Category
  pub source_id : Option String
  pub severity : Option Severity
  pub transition : Option Transition
  pub since_epoch : ℕ
  pub until_epoch : ℕ
  pub limit : ℕ

abbrev query_fields : List String
query_fields =
    "category" ∷ "source_id" ∷ "severity" ∷ "transition" ∷ "since_epoch" ∷ "until_epoch" ∷ "limit"
    ∷ []

-- `set(payload) - QUERY_FIELDS` is empty.
unfoldable pub is_supported : Dict String Value → Bool
is_supported [] = true
is_supported ((key, v) ∷ rest) = any (str_eq key) query_fields && is_supported rest

abbrev pub categories : Dict String Category
categories =
    ("source", source)
    ∷ ("network", network)
    ∷ ("system", system)
    ∷ ("facility", facility)
    ∷ ("upstream", upstream)
    ∷ []

abbrev pub severities : Dict String Severity
severities = ("info", info) ∷ ("warning", warning) ∷ ("critical", critical) ∷ []

abbrev pub transitions : Dict String Transition
transitions = ("raised", raised) ∷ ("changed", changed) ∷ ("recovered", recovered) ∷ []

-- A filter that is absent, or one of an allowed set of words.
unfoldable pub filter_of : {A : Type 0} → Dict String A → Option Value → Result (Option A)
filter_of allowed none = ok none
filter_of allowed (some (text word)) = elim (get word allowed) [
  | none ↦ err invalid_filter
  | some a ↦ ok (some a)
]
filter_of allowed (some _) = err invalid_filter

unfoldable pub source_filter : (String → Bool) → Option Value → Result (Option String)
source_filter source_id_valid none = ok none
source_filter source_id_valid (some (text id)) =
    if source_id_valid id then ok (some id) else err invalid_source_id
source_filter source_id_valid (some _) = err invalid_source_id

-- `type(limit) is int and 1 <= limit <= MAX_QUERY_LIMIT`, 50 by default.
unfoldable pub limit_of : Option Value → Result ℕ
limit_of none = ok 50
limit_of (some (int (pos n))) = if leb 1 n && leb n 200 then ok n else err invalid_limit
limit_of (some _) = err invalid_limit

unfoldable pub epoch_of : Option Value → Result (Option ℕ)
epoch_of none = ok none
epoch_of (some v) = elim (valid_epoch v) [ none ↦ err invalid_epoch | some e ↦ ok (some e) ]

-- `_query`. The test of a source id (`_source_id_valid`) is an argument.
unfoldable pub parse : (String → Bool) → Dict String Value → ℕ → Result Query
parse source_id_valid payload now = do
  guard (is_supported payload) unsupported_fields
  category ← filter_of categories (get "category" payload)
  severity ← filter_of severities (get "severity" payload)
  transition ← filter_of transitions (get "transition" payload)
  source_id ← source_filter source_id_valid (get "source_id" payload)
  limit ← limit_of (get "limit" payload)
  since ← epoch_of (get "since_epoch" payload)
  until ← epoch_of (get "until_epoch" payload)
  let until_epoch = or_default until now
  let since_epoch = or_default since (until_epoch - retention_seconds)
  guard (leb since_epoch until_epoch && leb (until_epoch - since_epoch) retention_seconds)
      invalid_range
  ok (record {
    category = category;
    source_id = source_id;
    severity = severity;
    transition = transition;
    since_epoch = since_epoch;
    until_epoch = until_epoch;
    limit = limit;
  })

abbrev category_eq : Category → Category → Bool
category_eq source source = true
category_eq network network = true
category_eq system system = true
category_eq facility facility = true
category_eq upstream upstream = true
category_eq _ _ = false

abbrev transition_eq : Transition → Transition → Bool
transition_eq raised raised = true
transition_eq changed changed = true
transition_eq recovered recovered = true
transition_eq _ _ = false

-- A clause `key = ?` that is there only when the filter is.
abbrev pub matches : {A : Type 0} → (A → A → Bool) → Option A → A → Bool
matches eq none a = true
matches eq (some b) a = eq a b

pub data Freshness : Type 0 where
  fresh stale unknown_freshness : Freshness

-- `_freshness`: current from 60 seconds ahead of `now` to `seconds` behind it.
unfoldable pub freshness_of : Option ℕ → ℕ → ℕ → Freshness
freshness_of none now seconds = unknown_freshness
freshness_of (some epoch) now seconds =
    if leb epoch (now + 60) && leb now (epoch + seconds) then fresh else stale

abbrev is_fresh : Freshness → Bool
is_fresh fresh = true
is_fresh _ = false

-- The WHERE clauses.
unfoldable pub active_matches : Query → String × ActiveRow → Bool
active_matches q row =
    matches category_eq q.category row.1.category
    && matches str_eq q.source_id row.1.source_id
    && matches severity_eq q.severity row.1.severity

unfoldable pub check_matches : Query → String × CheckRow → Bool
check_matches q row =
    matches category_eq q.category row.1.category && matches str_eq q.source_id row.1.source_id

unfoldable pub event_matches : Query → EventRow → Bool
event_matches q e =
    matches category_eq q.category e.category
    && matches str_eq q.source_id e.source_id
    && matches severity_eq q.severity e.severity
    && (leb q.since_epoch e.observed_epoch && leb e.observed_epoch q.until_epoch)
    && matches transition_eq q.transition e.transition

abbrev severity_rank : Severity → ℕ
severity_rank critical = 0
severity_rank warning = 1
severity_rank info = 2

-- ORDER BY severity, started_epoch DESC, diagnostic_id.
abbrev pub graver : String × ActiveRow → String × ActiveRow → Bool
graver a b =
    ltb (severity_rank a.1.severity) (severity_rank b.1.severity)
    || (severity_rank a.1.severity == severity_rank b.1.severity
        && (ltb b.1.started_epoch a.1.started_epoch
            || (a.1.started_epoch == b.1.started_epoch && text_lt a.0 b.0)))

abbrev category_word : Category → String
category_word source = "source"
category_word network = "network"
category_word system = "system"
category_word facility = "facility"
category_word upstream = "upstream"

-- ORDER BY category, source_id, code, diagnostic_id.
abbrev pub earlier_check : String × CheckRow → String × CheckRow → Bool
earlier_check a b =
    text_lt (category_word a.1.category) (category_word b.1.category)
    || (str_eq (category_word a.1.category) (category_word b.1.category)
        && (text_lt a.1.source_id b.1.source_id
            || (str_eq a.1.source_id b.1.source_id
                && (text_lt a.1.code b.1.code || (str_eq a.1.code b.1.code && text_lt a.0 b.0)))))

-- The status of a check that is shown: stale evidence is unknown.
unfoldable pub shown_status : ℕ → CheckRow → ObservationStatus
shown_status now row =
    if is_observed row.observation_status
      && not (is_fresh (freshness_of row.observed_epoch now row.freshness_seconds))
    then unknown
    else row.observation_status

pub record Answer : Type 0 where
  pub active : List (String × ActiveRow × ObservationStatus)
  pub events : List EventRow
  pub coverage : List (String × CheckRow × ObservationStatus)
  pub active_count : ℕ
  pub freshness : Freshness
  pub truncated : Bool

unfoldable pub coverage_rows : Journal → Query → ℕ → List (String × CheckRow × ObservationStatus)
coverage_rows j q now =
    map (λ (c : String × CheckRow). (c.0, c.1, shown_status now c.1))
      (take max_checks (sort earlier_check (select (check_matches q) j.checks)))

-- `statuses.get(diagnostic_id, "unobserved")`
unfoldable pub status_in : List (String × CheckRow × ObservationStatus) → String → ObservationStatus
status_in [] id = unobserved
status_in ((key, row, status) ∷ rest) id = if str_eq key id then status else status_in rest id

-- The body of `query` below the validation.
unfoldable pub answer : Journal → Query → ℕ → Answer
answer j q now =
    let events = take (q.limit + 1) (sort newer_event (select (event_matches q) j.events)) in
    let coverage = coverage_rows j q now in
    let active =
      map (λ (a : String × ActiveRow). (a.0, a.1, status_in coverage a.0))
        (take max_active (sort graver (select (active_matches q) j.active))) in
    record {
      active = active;
      events = take q.limit events;
      coverage = coverage;
      active_count = length active;
      freshness = freshness_of j.observed_epoch now 60;
      truncated = ltb q.limit (length events);
    }
