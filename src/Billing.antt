-- ===== src/Billing.antt =====
-- src/infra_sentinel/resources/network/billing_policy.py: the daily usage guard of each VPS. A byte
-- count may be negative in a remote state, and is cut at 0. The remote state comes with its list of
-- servers, each with the fields that the guard reads; the cycle's other entries are a parameter.
pub mod Levels
pub mod Alerts
mod Tests
use infra_sentinel.Prelude.{
  ℕ, ◌+◌, String, str_eq, Bool, true, false, Option, none, some, List, [], ◌∷◌, ◌++◌, leb, any,
  or_default, select, ◌&&◌, not, if◌then◌else◌,
}
use infra_sentinel.Prelude.Int.{ℤ, pos_part}
use infra_sentinel.Prelude.Dict.{Dict, get, put, string_eq}

pub record BillingBudgetPolicy : Type 0 where
  pub id : String
  pub source_id : String
  pub label : String
  pub warning_bytes : ℕ
  pub critical_bytes : ℕ

pub data Level : Type 0 where
  none_level warning critical : Level

pub data EventType : Type 0 where
  alert deescalated recovered : EventType

pub record Cycle : Type 0 where
  pub in_bytes : ℤ
  pub out_bytes : ℤ

pub record Server : Type 0 where
  pub id : String
  pub enabled : Bool
  pub billing_mode : String
  pub cycle : Cycle

pub record BillingBudgetTransition : Type 0 where
  pub policy : BillingBudgetPolicy
  pub event_type : EventType
  pub level : Level
  pub usage_bytes : ℕ
  pub threshold_bytes : ℕ
  pub cycle : Cycle

-- `daily_usage_bytes`
unfoldable pub daily_usage_bytes : Server → ℕ
daily_usage_bytes server =
    let incoming = pos_part server.cycle.in_bytes in
    let outgoing = pos_part server.cycle.out_bytes in
    if str_eq server.billing_mode "outbound" then outgoing else incoming + outgoing

-- `self.levels`
abbrev pub Levels : Type 0
Levels = Dict String Level

abbrev pub level_eq : Level → Level → Bool
level_eq none_level none_level = true
level_eq warning warning = true
level_eq critical critical = true
level_eq _ _ = false

abbrev has_level : Level → Levels → Bool
has_level level levels = any (λ (l : String × Level). level_eq level l.1) levels

-- The property `level`: the worst of all policies.
unfoldable pub overall : Levels → Level
overall levels =
    if has_level critical levels
    then critical
    else if has_level warning levels
    then warning
    else none_level

unfoldable pub next_level : BillingBudgetPolicy → ℕ → Level
next_level policy value =
    if leb policy.critical_bytes value
    then critical
    else if leb policy.warning_bytes value
    then warning
    else none_level

unfoldable pub event_type : Level → Level → EventType
event_type previous none_level = recovered
event_type critical warning = deescalated
event_type previous next = alert

index_from : Dict String Server → List Server → Dict String Server
index_from index [] = index
index_from index (s ∷ rest) = index_from (put s.id s index) rest

-- `servers`: the last server of an id counts.
unfoldable pub servers_by_id : List Server → Dict String Server
unfolding index_from
servers_by_id servers = index_from [] servers

-- The servers that a policy can judge: found, and with its VPS enabled.
unfoldable pub judged : Dict String Server → BillingBudgetPolicy → Option Server
judged servers policy = elim (get policy.source_id servers) [
  | none ↦ none
  | some s ↦ if s.enabled then some s else none
]

-- The transition of a policy from one level to another.
unfoldable pub transition : BillingBudgetPolicy → Server → Level → Level → BillingBudgetTransition
transition policy server previous next = record {
  policy = policy;
  event_type = event_type previous next;
  level = next;
  usage_bytes = daily_usage_bytes server;
  threshold_bytes = if level_eq next critical then policy.critical_bytes else policy.warning_bytes;
  cycle = server.cycle;
}

-- One policy's turn in `evaluate`, with the server that it judges, if there is one.
unfoldable pub judge_server :
    Levels → BillingBudgetPolicy → Option Server → Levels × List BillingBudgetTransition
judge_server levels policy none = (levels, [])
judge_server levels policy (some server) =
    let next = next_level policy (daily_usage_bytes server) in
    let previous = or_default (get policy.id levels) none_level in
    (
      put policy.id next levels,
      if level_eq next previous then [] else transition policy server previous next ∷ [],
    )

unfoldable pub judge :
    Dict String Server → Levels → BillingBudgetPolicy → Levels × List BillingBudgetTransition
judge servers levels policy = judge_server levels policy (judged servers policy)

unfoldable pub judge_all :
    Dict String Server → Levels → List BillingBudgetPolicy → Levels × List BillingBudgetTransition
judge_all servers levels [] = (levels, [])
judge_all servers levels (policy ∷ rest) =
    let (levels', first) = judge servers levels policy in
    let (final, others) = judge_all servers levels' rest in (final, first ++ others)

abbrev is_configured : List BillingBudgetPolicy → String → Bool
is_configured policies id = any (λ (p : BillingBudgetPolicy). str_eq p.id id) policies

-- `evaluate`: at its end the levels of policies that are no longer configured are dropped.
unfoldable pub evaluate :
    Levels → List Server → List BillingBudgetPolicy → Levels × List BillingBudgetTransition
evaluate levels servers policies =
    let (after, transitions) = judge_all (servers_by_id servers) levels policies in
    (select (λ (l : String × Level). is_configured policies l.0) after, transitions)

pub record BudgetSnapshot : Type 0 where
  pub id : String
  pub source_id : String
  pub label : String
  pub level : Level
  pub usage_bytes : ℕ
  pub warning_bytes : ℕ
  pub critical_bytes : ℕ
  pub cycle : Cycle

unfoldable pub snapshot_of : Levels → BillingBudgetPolicy → Server → BudgetSnapshot
snapshot_of levels policy server = record {
  id = policy.id;
  source_id = policy.source_id;
  label = policy.label;
  level = or_default (get policy.id levels) none_level;
  usage_bytes = daily_usage_bytes server;
  warning_bytes = policy.warning_bytes;
  critical_bytes = policy.critical_bytes;
  cycle = server.cycle;
}

-- `snapshots`
unfoldable pub snapshots : Levels → List Server → List BillingBudgetPolicy → List BudgetSnapshot
snapshots levels servers [] = []
snapshots levels servers (policy ∷ rest) =
    let others = snapshots levels servers rest in
    elim (judged (servers_by_id servers) policy) [
      | none ↦ others
      | some server ↦ snapshot_of levels policy server ∷ others
    ]
