-- ===== src/Billing/Tests.antt =====
-- One VPS that crosses its thresholds.
use infra_sentinel.Prelude.{◌≡◌, refl, true, List, [], ◌∷◌}
use infra_sentinel.Prelude.Int.{ℤ, pos, negsuc}
use infra_sentinel.Prelude.Dict.{get, put, string_eq}
use infra_sentinel.Billing.{
  BillingBudgetPolicy, BillingBudgetTransition, EventType, alert, Server, daily_usage_bytes,
  next_level, event_type, transition, judge, judge_server, judge_all, judged, servers_by_id,
  evaluate,
}
use infra_sentinel.Billing.Levels.{level_of}
use infra_sentinel.Billing.Alerts.{replay, evaluate-replay, evaluate_once}

abbrev policy : BillingBudgetPolicy
policy = record {
  id = "daily-a";
  source_id = "vps-a";
  label = "A";
  warning_bytes = 100;
  critical_bytes = 200;
}

abbrev server : ℤ → Server
server out = record {
  id = "vps-a";
  enabled = true;
  billing_mode = "both";
  cycle = record { in_bytes = negsuc 4; out_bytes = out };
}

events_of : List BillingBudgetTransition → List EventType
events_of [] = []
events_of (t ∷ ts) = t.event_type ∷ events_of ts

alerted : events_of (evaluate [] (server (pos 250) ∷ []) (policy ∷ [])).1 ≡ alert ∷ []
unfolding events_of evaluate judge_all judge judge_server judged servers_by_id transition event_type
    next_level daily_usage_bytes get put
alerted = refl

evaluate-replay_example :
    level_of (evaluate [] (server (pos 250) ∷ []) (policy ∷ [])).0 "daily-a"
    ≡ replay "daily-a" (level_of [] "daily-a") (evaluate [] (server (pos 250) ∷ []) (policy ∷ [])).1
evaluate-replay_example = evaluate-replay [] (server (pos 250) ∷ []) (policy ∷ []) "daily-a" refl

evaluate_once_example :
    (evaluate
      (evaluate [] (server (pos 250) ∷ []) (policy ∷ [])).0
      (server (pos 250) ∷ [])
      (policy ∷ [])).1
    ≡ []
evaluate_once_example = evaluate_once [] (server (pos 250) ∷ []) (policy ∷ []) (tt, tt)
