-- ===== src/Facilities.antt =====
-- src/infra_sentinel/resources/facilities/observer.py: the reconciliation of discovered facilities, and
-- the polls of those whose protocol is known; with the offers and the selection of
-- resources/facilities/discovery.py and resources/facilities/protocols.py. The directory of registrations, the
-- reading of one and the exchange with a provider are outcomes that a refresh is given, the exceptions that
-- it does not catch among them. Epochs are whole seconds. Two records never share a stabilizer that is still
-- in use, so that a record holds its own; a refresh that an exception ends leaves the old records with what
-- its turns did to them, which share their objects.
pub mod Offers
pub mod Records
pub mod Selecting
pub mod Reconciling
pub mod Following
pub mod Sequences
pub mod Discovery
pub mod Failures
pub mod Overview
pub mod Frames
mod Tests
use Prim.Native.String.{◌++◌ as append}
use infra_sentinel.Prelude.{
  ℕ, String, str_eq, Bool, true, false, ◌&&◌, not, Option, none, some, List, [], ◌∷◌, leb, is_some,
  if◌then◌else◌,
}
use infra_sentinel.Prelude.Int.{ℤ, ltb_ℤ}
use infra_sentinel.Prelude.Dict.{Dict, get, put, string_eq}
use infra_sentinel.StatusStability.{StatusDecision, StatusStabilizer, init, observe}
pub use Offers.{DiscoveryOffer, Registration, Adapter, AdapterSelection, has}
unfoldable pub use Offers.{select_adapter}
pub use Offers.{offer_eq, selection_eq}
pub use Records.{
  Snapshot, FacilityObservation, ObservedFacility, PollError, protocol_error, transport_error,
  error_name, is_transient, Result, ok, failed, facility_ranks, poll_seconds,
  same_protocol_generation, observation_of, last_success,
}
unfoldable pub use Records.{
  same_selection, stability_of, retained, shown_observation, confirmed_record, failed_record,
}

abbrev registration_id : Registration → String
registration_id r = append r.kind (append ":" r.instance_id)

-- What is read of the world during a refresh.
pub data Directory : Type 0 where
  absent : Directory
  refused : String → Directory
  -- its files in order: the registrations, and those that are refused
  files : List (Result Registration) → Directory
  -- an exception that the refresh does not catch
  unreadable : Directory

-- `{registration.id: registration}` over the files in order.
unfoldable pub registered :
    Dict String Registration → List (Result Registration) → Dict String Registration
registered found [] = found
registered found (ok r ∷ rest) = registered (put (registration_id r) r found) rest
registered found (failed e ∷ rest) = registered found rest

-- The sequence of a provider has to advance within its generation and protocol.
abbrev pub repeats : Option FacilityObservation → FacilityObservation → Bool
repeats none new = false
repeats (some last) new = leb new.sequence last.sequence

unfoldable pub stalled :
    Option ObservedFacility → Registration → AdapterSelection → FacilityObservation → Bool
stalled none registration selection new = false
stalled (some prior) registration selection new =
    same_protocol_generation prior registration selection && repeats prior.observation new

unfoldable pub checked :
    Option ObservedFacility
    → AdapterSelection
    → FacilityObservation
    → Result Registration
    → Result (Registration × FacilityObservation)
checked prior selection observation (failed e) = failed e
checked prior selection observation (ok current) =
    if stalled prior current selection observation
    then failed protocol_error
    else ok (current, observation)

-- The registration of a failed record: the one that was read again, where the sequence is at fault.
unfoldable pub failing_registration : Registration → Result Registration → Registration
failing_registration registration (failed e) = registration
failing_registration registration (ok current) = current

-- The record of the same selection, or none.
abbrev pub stable_prior :
    Option ObservedFacility → Registration → AdapterSelection → Option ObservedFacility
stable_prior none registration selection = none
stable_prior (some prior) registration selection =
    if same_selection prior registration selection then some prior else none

unfoldable pub record_of :
    Registration
    → AdapterSelection
    → Option ObservedFacility
    → ℤ
    → Result (Registration × FacilityObservation)
    → ObservedFacility
record_of failing selection prior now (ok (current, observation)) =
    confirmed_record current selection prior observation now
record_of failing selection prior now (failed e) = failed_record failing selection prior now e

unfoldable pub kept_or :
    Option ObservedFacility → Registration → ℤ → ObservedFacility → ObservedFacility
kept_or none registration now new = new
kept_or (some same) registration now new =
    if ltb_ℤ now same.next_poll_epoch then record same { registration = registration } else new

abbrev pub scan_error : Directory → Option String
scan_error (refused name) = some name
scan_error _ = none

abbrev pub is_unreadable : Directory → Bool
is_unreadable unreadable = true
is_unreadable _ = false

-- How the loop over the registrations ends.
pub data Reconciliation : Type 0 where
  completed : Dict String ObservedFacility → Reconciliation
  escaped : Dict String ObservedFacility → Reconciliation

abbrev pub candidate_error : Option String → Option String → Option String
candidate_error none confirmed = confirmed
candidate_error (some name) confirmed = some name

module _ (bindings : List String) (adapters : List Adapter) where
  -- An exchange with a provider, and the registration that is read after it. `escapes` tells the polls that
  -- raise anything but a DiscoveryError or a FacilityProtocolError, which no part of the loop catches.
  pub record World : Type 0 where
    pub escapes : Registration → AdapterSelection → Bool
    pub observe_provider : Registration → AdapterSelection → Result FacilityObservation
    pub read_again : Registration → Result Registration

  unfoldable pub selected_again :
      Registration → AdapterSelection → Option AdapterSelection → Result Registration
  selected_again current selection none = failed protocol_error
  selected_again current selection (some current_selection) =
      if selection_eq current_selection selection then ok current else failed protocol_error

  -- `_confirm_current`, of what was read again.
  unfoldable pub confirm_current :
      Registration → AdapterSelection → Result Registration → Result Registration
  confirm_current registration selection (failed e) = failed e
  confirm_current registration selection (ok current) =
      if str_eq current.generation registration.generation
      then selected_again current selection (select_adapter bindings adapters current)
      else failed protocol_error

  unfoldable pub polled :
      World
      → Option ObservedFacility
      → Registration
      → AdapterSelection
      → Result FacilityObservation
      → Result (Registration × FacilityObservation)
  polled w prior registration selection (failed e) = failed e
  polled w prior registration selection (ok observation) =
      checked prior selection observation
        (confirm_current registration selection (w.read_again registration))

  unfoldable pub confirmed_again :
      World → Registration → AdapterSelection → Result FacilityObservation → Result Registration
  confirmed_again w registration selection (failed e) = failed e
  confirmed_again w registration selection (ok observation) =
      confirm_current registration selection (w.read_again registration)

  -- A facility is polled, whether its poll is answered or not.
  unfoldable pub poll_facility :
      World → Option ObservedFacility → Registration → AdapterSelection → ℤ → ObservedFacility
  poll_facility w prior registration selection now =
      let answer = w.observe_provider registration selection in
      record_of
        (failing_registration registration (confirmed_again w registration selection answer))
        selection (stable_prior prior registration selection) now
        (polled w prior registration selection answer)

  -- A record of the same selection waits for its next poll.
  unfoldable pub reconciled :
      World → Option ObservedFacility → Registration → AdapterSelection → ℤ → ObservedFacility
  reconciled w prior registration selection now =
      kept_or (stable_prior prior registration selection) registration now
        (poll_facility w prior registration selection now)

  unfoldable pub put_selected :
      World
      → ℤ
      → Option ObservedFacility
      → String
      → Registration
      → Dict String ObservedFacility
      → Option AdapterSelection
      → Dict String ObservedFacility
  put_selected w now prior id registration updated none = updated
  put_selected w now prior id registration updated (some selection) =
      put id (reconciled w prior registration selection now) updated

  abbrev is_waiting : ℤ → Option ObservedFacility → Bool
  is_waiting now none = false
  is_waiting now (some same) = ltb_ℤ now same.next_poll_epoch

  -- The facility is due, and its poll raises what is not caught.
  unfoldable pub escapes_now :
      World → ℤ → Option ObservedFacility → Registration → Option AdapterSelection → Bool
  escapes_now w now prior registration none = false
  escapes_now w now prior registration (some selection) =
      not (is_waiting now (stable_prior prior registration selection))
      && w.escapes registration selection

  -- What a turn has done to the prior record, an object that the records share with the turn: it has the
  -- registration where it waits, and where it was polled its stabilizer has observed.
  unfoldable pub touched :
      ℤ → ObservedFacility → Registration → AdapterSelection → ObservedFacility → ObservedFacility
  touched now prior registration selection new =
      if not (same_selection prior registration selection)
      then prior
      else if ltb_ℤ now prior.next_poll_epoch
      then record prior { registration = registration }
      else record prior { stability = if is_some prior.stability then new.stability else none }

  unfoldable pub put_touched :
      World
      → ℤ
      → Option ObservedFacility
      → String
      → Registration
      → Dict String ObservedFacility
      → Option AdapterSelection
      → Dict String ObservedFacility
  put_touched w now prior id registration left none = left
  put_touched w now none id registration left (some selection) = left
  put_touched w now (some p) id registration left (some selection) =
      put id
        (touched now p registration selection (reconciled w (some p) registration selection now))
        left

  -- The loop over the registrations: the new records, or the old ones as an exception leaves them.
  unfoldable pub reconcile_all :
      World
      → ℤ
      → Dict String ObservedFacility
      → Dict String ObservedFacility
      → Dict String ObservedFacility
      → Dict String Registration
      → Reconciliation
  reconcile_all w now previous left updated [] = completed updated
  reconcile_all w now previous left updated ((id, registration) ∷ rest) =
      let selection = select_adapter bindings adapters registration in
      let prior = get id previous in
      let later =
        reconcile_all w now previous (put_touched w now prior id registration left selection)
          (put_selected w now prior id registration updated selection) rest in
      if escapes_now w now prior registration selection then escaped left else later

  pub record FacilityMonitor : Type 0 where
    pub records : Dict String ObservedFacility
    pub discovery_error : Option String
    pub discovery_checked_epoch : Option ℤ
    pub discovery_stability : StatusStabilizer
    pub discovery_confirmation : Option StatusDecision

  unfoldable pub init_monitor : FacilityMonitor
  init_monitor = record {
    records = [];
    discovery_error = none;
    discovery_checked_epoch = none;
    discovery_stability = init "healthy" (("healthy", 0) ∷ ("error", 1) ∷ []) 3 2;
    discovery_confirmation = none;
  }

  unfoldable pub rescanned : World → ℤ → Dict String ObservedFacility → Directory → Reconciliation
  rescanned w now previous absent = completed []
  rescanned w now previous (refused name) = completed previous
  rescanned w now previous (files fs) = reconcile_all w now previous previous [] (registered [] fs)
  rescanned w now previous unreadable = escaped previous

  -- What the refresh leaves, and whether it comes to its end.
  unfoldable pub concluded :
      FacilityMonitor
      → ℤ
      → Option String
      → StatusStabilizer × StatusDecision
      → Reconciliation
      → FacilityMonitor × Bool
  concluded m now error (stability, decision) (completed records) = (
    record {
      records = records;
      discovery_error =
          if str_eq decision.status "error" then candidate_error error m.discovery_error else none;
      discovery_checked_epoch = some now;
      discovery_stability = stability;
      discovery_confirmation = some decision;
    },
    true,
  )
  concluded m now error (stability, decision) (escaped left) =
      (record m { records = left; discovery_stability = stability }, false)

  -- `refresh_once`
  unfoldable pub refresh_once : World → ℤ → Directory → FacilityMonitor → FacilityMonitor × Bool
  refresh_once w now directory m =
      if is_unreadable directory
      then (m, false)
      else concluded m now (scan_error directory)
          (observe m.discovery_stability
            (if is_some (scan_error directory) then "error" else "healthy") false)
          (rescanned w now m.records directory)
