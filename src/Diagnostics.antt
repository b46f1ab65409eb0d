-- ===== src/Diagnostics.antt =====
-- src/infra_sentinel/core/diagnostics.py: the checks that one sample of the projection yields.
-- An epoch is a whole number of seconds: the code bounds every epoch it accepts to
-- 0 .. 253402300799. The digest of a check's identity (SHA-256, cut to 32 hexadecimal digits) is a
-- parameter. `observed_at` comes parsed: absent, not a timestamp, or an epoch.
pub mod Evidence
use infra_sentinel.Prelude.{
  ℕ, ◌+◌, ◌-◌, String, str_eq, Bool, true, false, ◌&&◌, ◌||◌, not, Option, none, some, List, [],
  ◌∷◌, ltb, leb, length, is_some, take, select, if◌then◌else◌,
}
use infra_sentinel.Prelude.Dict.{Dict, get, put, string_eq}

pub data Category : Type 0 where
  source network system facility upstream : Category

pub data Severity : Type 0 where
  info warning critical : Severity

pub data ObservationStatus : Type 0 where
  observed unknown disabled unobserved : ObservationStatus

pub record DiagnosticCheck : Type 0 where
  pub id : String
  pub category : Category
  pub source_id : String
  pub source_label : String
  pub code : String
  pub severity : Option Severity
  pub observation_status : ObservationStatus
  pub observed_epoch : Option ℕ
  pub freshness_seconds : ℕ

pub record DiagnosticObservation : Type 0 where
  pub observed_epoch : ℕ
  pub checks : List DiagnosticCheck
  pub truncated : Bool

abbrev pub max_normalized_checks : ℕ
max_normalized_checks = 512

abbrev pub max_source_items : ℕ
max_source_items = 128

abbrev pub freshness_seconds : ℕ
freshness_seconds = 60

-- `_Checks`
pub record Checks : Type 0 where
  pub now : ℕ
  pub items : Dict String DiagnosticCheck
  pub truncated : Bool

-- The argument `observed_at`, after `_timestamp_epoch`.
pub data ObservedAt : Type 0 where
  absent unreadable : ObservedAt
  at : ℕ → ObservedAt

abbrev pub is_observed : ObservationStatus → Bool
is_observed observed = true
is_observed _ = false

-- The first two tests on the timestamp: the evidence's epoch, and the status it leaves.
unfoldable pub evidence : ℕ → ObservedAt → ObservationStatus → Option ℕ × ObservationStatus
evidence now absent status = (if is_observed status then some now else none, status)
evidence now unreadable status = (none, unknown)
evidence now (at epoch) status = (some epoch, status)

-- The third test: evidence from the future, or older than its freshness, is no evidence.
unfoldable pub settle_status : ℕ → ℕ → Option ℕ → ObservationStatus → ObservationStatus
settle_status now freshness none status = status
settle_status now freshness (some epoch) status =
    if ltb (now + freshness_seconds) epoch || ltb freshness (now - epoch) then unknown else status

abbrev pub has_key : String → Dict String DiagnosticCheck → Bool
has_key id items = is_some (get id items)

-- `add`, with the check's id and label computed.
unfoldable pub add :
    Checks
    → String
    → Category
    → String
    → String
    → String
    → Option Severity
    → ObservationStatus
    → ObservedAt
    → ℕ
    → Checks
unfolding evidence settle_status
add checks check_id category source_id label code severity status observed_at freshness =
    if leb max_normalized_checks (length checks.items) && not (has_key check_id checks.items)
    then record checks { truncated = true }
    else let (epoch, first) = evidence checks.now observed_at status in
      let final = settle_status checks.now freshness epoch first in
      record checks {
        items =
            put check_id
              (record {
                id = check_id;
                category = category;
                source_id = source_id;
                source_label = label;
                code = code;
                severity = if is_observed final then severity else none;
                observation_status = final;
                observed_epoch = epoch;
                freshness_seconds = freshness;
              })
              checks.items;
      }

-- `rows`: the first 128 entries of a list, those that are objects.
unfoldable pub rows {ℓ} : {A : Type ℓ} → (A → Bool) → Checks → List A → Checks × List A
rows is_object checks value = (
  if ltb max_source_items (length value) then record checks { truncated = true } else checks,
  select is_object (take max_source_items value),
)
