-- ===== src/Facilities/Overview.antt =====
-- `FacilityMonitor.snapshot` of resources/facilities/observer.py: the projection of the records, and the status that
-- sums them up. Letters are lowered by an argument.
use infra_sentinel.Prelude.{
  ℕ, ◌+◌, String, str_eq, Bool, true, false, ◌&&◌, ◌||◌, not, Option, none, some, List, [], ◌∷◌,
  length, map, select, any, ◌==◌, is_some, if◌then◌else◌,
}
use infra_sentinel.Prelude.Int.{ℤ}
use infra_sentinel.Prelude.Sort.{text_lt, sort}
use infra_sentinel.StatusStability.{StatusDecision}
use infra_sentinel.Facilities.{
  Adapter, ObservedFacility, FacilityObservation, Snapshot, FacilityMonitor, registration_id, has,
}

-- The candidate of a decision, how often it was seen, and how often it has to be.
unfoldable pub pending : Option StatusDecision → Option (String × (ℕ × ℕ))
pending none = none
pending (some d) = elim d.pending_status [
  | none ↦ none
  | some candidate ↦ some (candidate, (d.pending_count, d.required_count))
]

pub record FacilityItem : Type 0 where
  pub id : String
  pub kind : String
  pub instance_id : String
  pub generation : String
  pub label : String
  pub status : String
  pub observed_at : Option String
  pub checked_at : ℤ
  pub protocol : String
  pub protocol_version : String
  pub binding : String
  pub snapshot : Option Snapshot
  pub console_url : Option String
  pub error_kind : Option String
  pub confirmation : Option (String × (ℕ × ℕ))

abbrev label_of : Option FacilityObservation → String → String
label_of none label = label
label_of (some o) label = o.label

abbrev observed_at_of : Option FacilityObservation → Option String
observed_at_of none = none
observed_at_of (some o) = some o.observed_at

abbrev snapshot_of : Option FacilityObservation → Option Snapshot
snapshot_of none = none
snapshot_of (some o) = some o.snapshot

abbrev console_url_of : Option FacilityObservation → Option String
console_url_of none = none
console_url_of (some o) = o.console_url

-- `_ObservedFacility.projection`
unfoldable pub projection : ObservedFacility → FacilityItem
projection r = record {
  id = registration_id r.registration;
  kind = r.registration.kind;
  instance_id = r.registration.instance_id;
  generation = r.registration.generation;
  label = label_of r.observation r.selection.adapter.label;
  status = r.status;
  observed_at = observed_at_of r.observation;
  checked_at = r.last_attempt_epoch;
  protocol = r.selection.adapter.protocol;
  protocol_version = r.selection.protocol_version;
  binding = r.selection.offer.binding;
  snapshot = snapshot_of r.observation;
  console_url = console_url_of r.observation;
  error_kind = r.error_kind;
  confirmation = pending r.confirmation;
}

abbrev pub is_healthy : FacilityItem → Bool
is_healthy item = str_eq item.status "healthy"

abbrev pub needs_attention : FacilityItem → Bool
needs_attention item = not (has item.status ("healthy" ∷ "starting" ∷ []))

abbrev pub is_down : FacilityItem → Bool
is_down item = has item.status ("unavailable" ∷ "unreachable" ∷ [])

abbrev pub is_nil : List FacilityItem → Bool
is_nil [] = true
is_nil (i ∷ is) = false

-- The texts of the status.
pub data OverallStatus : Type 0 where
  critical : OverallStatus
  degraded : OverallStatus
  healthy : OverallStatus
  starting : OverallStatus
  disabled : OverallStatus

unfoldable pub overall_status : List FacilityItem → Bool → OverallStatus
overall_status items failing =
    let well = length (select is_healthy items) in
    let attention = length (select needs_attention items) in
    if any is_down items
    then critical
    else if not (attention == 0) || failing
    then degraded
    else if not (is_nil items) && well == length items
    then healthy
    else if not (is_nil items)
    then starting
    else disabled

pub record Projection : Type 0 where
  pub status : OverallStatus
  pub total : ℕ
  pub healthy : ℕ
  pub attention : ℕ
  pub items : List FacilityItem
  pub checked_at : Option ℤ
  pub error_kind : Option String
  pub confirmation : Option (String × (ℕ × ℕ))

module _ (lower : String → String) where
  abbrev before : FacilityItem → FacilityItem → Bool
  before a b =
      text_lt (lower a.label) (lower b.label)
      || (str_eq (lower a.label) (lower b.label) && text_lt a.id b.id)

  -- `snapshot`
  unfoldable pub snapshot :
      {bindings : List String} {adapters : List Adapter}
      → FacilityMonitor bindings adapters
      → Projection
  snapshot m =
      let items =
        sort before (map (λ (row : String × ObservedFacility). projection row.1) m.records) in
      let failing = is_some m.discovery_error in
      let attention = length (select needs_attention items) in
      record {
        status = overall_status items failing;
        total = length items;
        healthy = length (select is_healthy items);
        attention = if failing then attention + 1 else attention;
        items = items;
        checked_at = m.discovery_checked_epoch;
        error_kind = m.discovery_error;
        confirmation = pending m.discovery_confirmation;
      }
