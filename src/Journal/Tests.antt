-- ===== src/Journal/Tests.antt =====
-- A journal through a few samples and a query.
use infra_sentinel.Prelude.{
  ℕ, ◌<◌, ◌≡◌, ◌↔◌, refl, String, true, false, Option, none, some, List, [], ◌∷◌, ◌++◌, length,
  select, min, All, arith,
}
use infra_sentinel.Prelude.Dict.{Dict, get, put, remove, string_eq}
use infra_sentinel.Prelude.Sort.{sort}
use infra_sentinel.Prelude.Int.{pos}
use infra_sentinel.Values.{Value, int, text}
use infra_sentinel.Diagnostics.{
  Severity, warning, critical, DiagnosticCheck, DiagnosticObservation, observed, source, Checks, at,
  add,
}
use infra_sentinel.Diagnostics.Evidence.{IsSound, add-IsSound}
use infra_sentinel.Journal.{
  Journal, ActiveRow, EventRow, empty, observe, record_check, record_checks, retain, event, raised,
  changed, recovered, assert_condition, effective_status, upsert_check, active_row, upsert_active,
  is_replay, Transition,
}
use infra_sentinel.Journal.Replay.{severity_of, replay, record_checks-replay}
use infra_sentinel.Journal.Conditions.{clears_on_evidence, lasting_condition}
use infra_sentinel.Journal.Retention.{IsKept, observe_all, run-IsBounded}
use infra_sentinel.Journal.Query.{
  Query, ok, parse, answer, event_matches, limit_of, epoch_of, filter_of, source_filter,
  is_supported,
}
use infra_sentinel.Journal.Query.Answers.{answer_events}

abbrev check : String → Option Severity → ℕ → DiagnosticCheck
check id severity epoch = record {
  id = id;
  category = source;
  source_id = "codex";
  source_label = "Codex";
  code = "source.collection_failed";
  severity = severity;
  observation_status = observed;
  observed_epoch = some epoch;
  freshness_seconds = 60;
}

abbrev sample : List DiagnosticCheck → DiagnosticObservation
sample checks = record { observed_epoch = 0; checks = checks; truncated = false }

abbrev run : Journal
run = observe_all empty (
    (sample (check "a" (some warning) 100 ∷ check "b" none 100 ∷ []), 100)
    ∷ (sample (check "a" (some critical) 110 ∷ []), 110)
    ∷ (sample (check "a" none 105 ∷ []), 120)
    ∷ (sample (check "a" none 125 ∷ []), 125)
    ∷ [])

transitions_of : List EventRow → List (Transition × ℕ)
transitions_of [] = []
transitions_of (e ∷ es) = (e.transition, e.observed_epoch) ∷ transitions_of es

-- The evidence of second 105 is older than that of second 110, and does not recover the condition.
history : transitions_of run.events ≡ (recovered, 125) ∷ (changed, 110) ∷ (raised, 100) ∷ []
unfolding transitions_of observe_all observe empty record_checks record_check assert_condition
    retain event effective_status upsert_check active_row upsert_active get put remove sort
history = refl

resolved : get "a" run.active ≡ none
unfolding observe_all observe empty record_checks record_check assert_condition retain event
    effective_status upsert_check active_row upsert_active get put remove sort
resolved = refl

abbrev no_checks : Checks
no_checks = record { now = 100; items = []; truncated = false }

no_checks-IsSound : IsSound no_checks
no_checks-IsSound = record { bounded = omega arith; evident = tt; keyed = tt }

add-IsSound_example : IsSound (
    add no_checks "a" source "codex" "Codex" "source.collection_failed"
      (some warning)
      observed
      (at 90)
      60)
add-IsSound_example =
    add-IsSound no_checks "a" source "codex" "Codex" "source.collection_failed" (some warning)
      observed (at 90) 60 no_checks-IsSound

record_checks-replay_example :
    let k =
      record_checks empty.active 100 empty
        (check "a" (some warning) 100 ∷ check "b" none 100 ∷ []) in
    (new : List EventRow) × (k.events ≡ empty.events ++ new)
    × ((id : String)
        → severity_of (get id k.active) ≡ replay id (severity_of (get id empty.active)) new)
record_checks-replay_example =
    record_checks-replay 100 empty (check "a" (some warning) 100 ∷ check "b" none 100 ∷ [])
      ((refl, tt), (tt, tt))

abbrev condition : ActiveRow
condition = record {
  category = source;
  source_id = "codex";
  source_label = "Codex";
  code = "source.collection_failed";
  severity = warning;
  observed_epoch = 100;
  started_epoch = 100;
}

abbrev one_active : Journal
one_active = record {
  checks = [];
  active = ("a", condition) ∷ [];
  events = [];
  next_event_id = 1;
  history_started_epoch = none;
  observed_epoch = none;
  sample_truncated = false;
  history_truncated = false;
}

abbrev clear : DiagnosticCheck
clear = check "a" none 101

clears_on_evidence_example :
    (clear.id ≡ "a")
    × (clear.observation_status ≡ observed)
    × (clear.severity ≡ none)
    × (is_replay (some condition) clear.observed_epoch ≡ false)
unfolding get record_check assert_condition event effective_status remove
clears_on_evidence_example = clears_on_evidence 101 one_active clear "a" condition refl refl

abbrev worse : ActiveRow
worse = record condition { severity = critical; observed_epoch = 101 }

lasting_condition_example :
    (worse.started_epoch ≡ condition.started_epoch)
    × (worse.category ≡ condition.category)
    × (worse.source_id ≡ condition.source_id)
    × (worse.code ≡ condition.code)
unfolding get put record_check assert_condition event effective_status upsert_active active_row
lasting_condition_example =
    lasting_condition 101 one_active (check "a" (some critical) 101) "a" condition worse refl refl

run-IsBounded_example : IsKept (observe_all empty ((sample [], 100) ∷ (sample [], 90) ∷ []))
run-IsBounded_example = run-IsBounded (sample []) 100 ((sample [], 90) ∷ [])

abbrev request : Query
request = record {
  category = none;
  source_id = none;
  severity = some warning;
  transition = none;
  since_epoch = 0;
  until_epoch = 1000;
  limit = 5;
}

abbrev payload : Dict String Value
payload = ("limit", int (pos 5)) ∷ ("severity", text "warning") ∷ []

accepted : parse (λ s. true) payload 1000 ≡ ok request
unfolding parse limit_of epoch_of filter_of source_filter is_supported get
accepted = refl

answer_events_example :
    let a = answer run request 130 in
    let found = length (select (event_matches request) run.events) in
    (length a.events ≡ min request.limit found)
    × All (λ e. event_matches request e ≡ true) a.events
    × ((a.truncated ≡ true) ↔ (request.limit < found))
answer_events_example = answer_events run request 130
