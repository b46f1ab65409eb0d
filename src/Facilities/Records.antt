-- ===== src/Facilities/Records.antt =====
-- The records of observed facilities, and how a poll that succeeds or fails changes one.
use infra_sentinel.Prelude.{
  ℕ, String, str_eq, Bool, true, false, ◌&&◌, not, Option, none, some, List, [], ◌∷◌, is_some,
  or_default, if◌then◌else◌,
}
use infra_sentinel.Prelude.Int.{ℤ, pos, ◌+ℤ◌}
use infra_sentinel.Prelude.Dict.{Dict}
use infra_sentinel.StatusStability.{StatusDecision, StatusStabilizer, init, observe}
use infra_sentinel.Facilities.Offers.{Registration, AdapterSelection, has, offer_eq}

-- The parts of a normalized snapshot that the monitor rewrites, and all the others.
pub record Snapshot : Type 0 where
  pub captured_at : String
  pub sequence : ℕ
  pub state : String
  pub reason_codes : List String
  pub others : String

pub record FacilityObservation : Type 0 where
  pub label : String
  pub status : String
  pub observed_at : String
  pub sequence : ℕ
  pub snapshot : Snapshot
  pub console_url : Option String

pub record ObservedFacility : Type 0 where
  pub registration : Registration
  pub selection : AdapterSelection
  pub status : String
  pub observation : Option FacilityObservation
  pub last_success_epoch : Option ℤ
  pub next_poll_epoch : ℤ
  pub last_attempt_epoch : ℤ
  pub error_kind : Option String
  pub stability : Option StatusStabilizer
  pub confirmation : Option StatusDecision

-- The exceptions that a poll catches.
pub data PollError : Type 0 where
  discovery_error : PollError
  protocol_error : PollError
  transport_error : PollError

abbrev pub error_name : PollError → String
error_name discovery_error = "DiscoveryError"
error_name protocol_error = "FacilityProtocolError"
error_name transport_error = "FacilityTransportError"

abbrev pub is_transient : PollError → Bool
is_transient transport_error = true
is_transient _ = false

pub data Result {ℓ} (A : Type ℓ) : Type ℓ where
  ok : A → Result A
  failed : PollError → Result A

-- FACILITY_STATUS_RANKS
abbrev pub facility_ranks : Dict String ℕ
facility_ranks =
    ("starting", 0)
    ∷ ("stopping", 0)
    ∷ ("healthy", 0)
    ∷ ("degraded", 1)
    ∷ ("unavailable", 2)
    ∷ ("unreachable", 2)
    ∷ []

abbrev pub poll_seconds : ℤ
poll_seconds = pos 15

unfoldable pub same_selection : ObservedFacility → Registration → AdapterSelection → Bool
same_selection r registration selection =
    str_eq r.registration.generation registration.generation
    && str_eq r.selection.adapter.protocol selection.adapter.protocol
    && str_eq r.selection.protocol_version selection.protocol_version
    && offer_eq r.selection.offer selection.offer

abbrev pub same_protocol_generation : ObservedFacility → Registration → AdapterSelection → Bool
same_protocol_generation r registration selection =
    str_eq r.registration.generation registration.generation
    && str_eq r.selection.adapter.protocol selection.adapter.protocol

unfoldable pub stability_of : Option ObservedFacility → StatusStabilizer
stability_of none = init "starting" facility_ranks 3 2
stability_of (some prior) = or_default prior.stability (init prior.status facility_ranks 3 2)

abbrev pub observation_of : Option ObservedFacility → Option FacilityObservation
observation_of none = none
observation_of (some prior) = prior.observation

abbrev prior_error : Option ObservedFacility → Option String
prior_error none = none
prior_error (some prior) = prior.error_kind

-- The last accepted observation with the time and the sequence of the new one.
unfoldable pub retained : FacilityObservation → FacilityObservation → String → FacilityObservation
retained last new status = record {
  label = last.label;
  status = status;
  observed_at = new.observed_at;
  sequence = new.sequence;
  snapshot = record last.snapshot {
    captured_at = new.observed_at;
    sequence = new.sequence;
    state = status;
  };
  console_url = last.console_url;
}

unfoldable pub shown_observation :
    Bool → Option FacilityObservation → FacilityObservation → String → FacilityObservation
shown_observation true last new status = new
shown_observation false none new status = new
shown_observation false (some last) new status = retained last new status

-- `_confirmed_record`
unfoldable pub confirmed_record :
    Registration
    → AdapterSelection
    → Option ObservedFacility
    → FacilityObservation
    → ℤ
    → ObservedFacility
confirmed_record registration selection prior observation now =
    let initial = not (is_some (observation_of prior)) in
    let calm = has observation.status ("healthy" ∷ "starting" ∷ "stopping" ∷ []) in
    let (stability, decision) = observe (stability_of prior) observation.status (initial && calm) in
    let accepted = str_eq decision.status observation.status in
    record {
      registration = registration;
      selection = selection;
      status = decision.status;
      observation =
          some (shown_observation accepted (observation_of prior) observation decision.status);
      last_success_epoch = some now;
      next_poll_epoch = now +ℤ poll_seconds;
      last_attempt_epoch = now;
      error_kind = if accepted then none else prior_error prior;
      stability = some stability;
      confirmation = some decision;
    }

abbrev pub last_success : Option ObservedFacility → Option ℤ
last_success none = none
last_success (some prior) = prior.last_success_epoch

-- `_failed_record`, whose prior record is the one of the same selection.
unfoldable pub failed_record :
    Registration → AdapterSelection → Option ObservedFacility → ℤ → PollError → ObservedFacility
failed_record registration selection stable_prior now error =
    let (stability, decision) =
      observe (stability_of stable_prior) "unreachable" (not (is_transient error)) in
    record {
      registration = registration;
      selection = selection;
      status = decision.status;
      observation = observation_of stable_prior;
      last_success_epoch = last_success stable_prior;
      next_poll_epoch = now +ℤ poll_seconds;
      last_attempt_epoch = now;
      error_kind = if str_eq decision.status "unreachable" then some (error_name error) else none;
      stability = some stability;
      confirmation = some decision;
    }
