-- ===== src/Collectors/Tests.antt =====
-- A registry of two collectors, one of which fails.
use infra_sentinel.Prelude.{ℕ, ◌≡◌, refl, is_some, all, String, Option, none, some, List, [], ◌∷◌}
use infra_sentinel.Prelude.Dict.{get, put}
use infra_sentinel.StatusStability.{init, observe, window}
use infra_sentinel.Collectors.{
  CollectorCapability, CollectorContext, CollectorRun, Collector, CollectorRegistry, Outcome,
  raised, plain, ok, err, duplicate_id, register, dispatch, collect, collect_from, take_turn,
  fail_turn, success_turn, failed_run, collected_points,
}
use infra_sentinel.Collectors.Isolation.{own_runs, all_some}
use infra_sentinel.Collectors.Outcomes.{steady, statuses, outage}
use infra_sentinel.Collectors.Registration.{
  IsWellFormed, register-IsWellFormed, collect-own_runs, added,
}

abbrev capability : String → CollectorCapability
capability id = record {
  id = id;
  source_id = "source";
  source_kind = "network.mihomo";
  resource_id = "network";
  metrics = [];
}

abbrev working : Collector ℕ ℕ ℕ
working = record { capability = capability "a"; run = λ c. some (plain (c.facts ∷ [])) }

abbrev broken : Collector ℕ ℕ ℕ
broken = record { capability = capability "b"; run = λ c. some (raised "OSError") }

abbrev no_collectors : CollectorRegistry ℕ ℕ ℕ
no_collectors = record { collectors = []; availability = []; last_available = [] }

abbrev both : CollectorRegistry ℕ ℕ ℕ
both = added (added no_collectors broken) working

abbrev now : CollectorContext ℕ
now = record { timestamp = some "2026-08-22T00:00:00"; facts = 7 }

empty-IsWellFormed : IsWellFormed no_collectors
unfolding get
empty-IsWellFormed = record { keyed = tt; distinct = tt; covered = tt; last_ok = λ id run h. cc }

register_again : register (added no_collectors working) working ≡ err duplicate_id
unfolding register put get
register_again = refl

first_registered : register no_collectors broken ≡ ok (added no_collectors broken)
unfolding register get
first_registered = refl

second_registered : register (added no_collectors broken) working ≡ ok both
unfolding register get put
second_registered = refl

both-IsWellFormed : IsWellFormed both
both-IsWellFormed =
    register-IsWellFormed (added no_collectors broken) working
      (register-IsWellFormed no_collectors broken empty-IsWellFormed first_registered)
      second_registered

collect-own_runs_example :
    let (after, runs) = collect now both in
    IsWellFormed after
    × (after.collectors ≡ both.collectors)
    × (is_some runs ≡ all (λ (c : String × Collector ℕ ℕ ℕ). is_some (c.1.run now)) both.collectors)
    × (runs ≡ all_some (own_runs now both.availability both.last_available both.collectors))
collect-own_runs_example = collect-own_runs now both both-IsWellFormed

-- The broken collector waits, the working one delivers its point.
abbrev pass_points : Option (List (CollectorRun ℕ ℕ)) → Option (List ℕ)
pass_points none = none
pass_points (some runs) = some (collected_points runs)

one_pass_points : pass_points (collect now both).1 ≡ some (7 ∷ [])
unfolding collect collect_from infra_sentinel.Collectors.after_turn take_turn dispatch fail_turn
    success_turn failed_run collected_points observe window init get put
one_pass_points = refl

-- A result whose points cannot be read ends the pass for the working collector too.
abbrev lazy : Collector ℕ ℕ ℕ
lazy = record { capability = capability "c"; run = λ c. none }

lost_pass : (collect now (added (added no_collectors lazy) working)).1 ≡ none
unfolding collect collect_from infra_sentinel.Collectors.after_turn take_turn get put
lost_pass = refl

abbrev failures : List (Outcome ℕ ℕ)
failures = raised "OSError" ∷ raised "ValueError" ∷ raised "OSError" ∷ raised "KeyError" ∷ []

outage_example :
    statuses none (capability "b") none steady failures
    ≡ "waiting" ∷ "waiting" ∷ "error" ∷ "error" ∷ []
outage_example = outage none (capability "b") none failures (refl, (refl, (refl, (refl, tt))))
