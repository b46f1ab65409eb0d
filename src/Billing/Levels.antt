-- ===== src/Billing/Levels.antt =====
-- The level of a policy: when it is reached, and where it goes.
use infra_sentinel.Prelude.{ℕ, ◌≤◌, ◌<◌, ◌≡◌, ◌↔◌, String, false, or_default, arith}
use infra_sentinel.Prelude.Dict.{get, string_eq}
use infra_sentinel.Billing.{
  BillingBudgetPolicy, Level, none_level, warning, critical, alert, deescalated, recovered, Levels,
  level_eq, next_level, event_type,
}

-- The order of the levels.
abbrev pub rank : Level → ℕ
rank none_level = 0
rank warning = 1
rank critical = 2

abbrev pub level_of : Levels → String → Level
level_of levels id = or_default (get id levels) none_level

-- More usage never lowers the level, and where the thresholds are ordered the level is at least
-- `warning` exactly from the warning threshold on, and `critical` exactly from the critical one on.
pub next_level_thresholds :
    (policy : BillingBudgetPolicy) (value more : ℕ)
    → policy.warning_bytes ≤ policy.critical_bytes
    → value ≤ more
    → (rank (next_level policy value) ≤ rank (next_level policy more))
      × ((1 ≤ rank (next_level policy value)) ↔ (policy.warning_bytes ≤ value))
      × ((next_level policy value ≡ critical) ↔ (policy.critical_bytes ≤ value))
unfolding next_level
next_level_thresholds policy value more ordered le = ground arith

-- The kind of an event says which way the level went: an alert is a rise, a recovery ends at no
-- level, and a de-escalation goes from critical to warning.
event_direction :
    (previous next : Level)
    → level_eq next previous ≡ false
    → ((event_type previous next ≡ alert) ↔ (rank previous < rank next))
      × ((event_type previous next ≡ recovered) ↔ (next ≡ none_level))
      × ((event_type previous next ≡ deescalated) ↔ ((previous ≡ critical) × (next ≡ warning)))
unfolding event_type
event_direction previous next h = ground arith
