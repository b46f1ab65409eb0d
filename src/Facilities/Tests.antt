-- ===== src/Facilities/Tests.antt =====
-- Tests of the refreshes of facilities, and of the frames of their answers.
use mathlib.Core.Bool.{false≢true}
use infra_sentinel.Prelude.{
  eq_iff, str_eq, true, false, not, any, if◌then◌else◌, ℕ, ◌≤◌, ◌<◌, ◌≡◌, ◌≢◌, refl, String, none,
  some, List, [], ◌∷◌, length, take, drop, arith, length-take,
}
use infra_sentinel.Prelude.Int.{ℤ, pos}
use infra_sentinel.Prelude.Dict.{get, put, string_eq}
use infra_sentinel.StatusStability.{StatusStabilizer, required, window}
use infra_sentinel.Facilities.{
  DiscoveryOffer, Registration, Adapter, AdapterSelection, Snapshot, FacilityObservation,
  ObservedFacility, FacilityMonitor, Result, ok, failed, World, Directory, files, refused,
  protocol_error, transport_error, refresh_once, init_monitor, registered, observation_of,
  same_selection, facility_ranks, same_protocol_generation, select_adapter,
}
use infra_sentinel.Facilities.Reconciling.{escapes_in, own_record, refreshed_record}
use infra_sentinel.Facilities.Following.{Advances}
use infra_sentinel.Facilities.Sequences.{refresh_once-Advances}
use infra_sentinel.Facilities.Discovery.{IsSound, init_monitor-IsSound, refresh_once-IsSound}
use infra_sentinel.Facilities.Failures.{fail_all, fail_all_confirms}
use infra_sentinel.Facilities.Overview.{snapshot}

abbrev adapter : Adapter
adapter = record { protocol = "pcp"; protocol_version = "1"; label = "PCP" }

abbrev adapters : List Adapter
adapters = adapter ∷ []

abbrev bindings : List String
bindings = "socket" ∷ []

abbrev offer : DiscoveryOffer
offer = record {
  protocol = "pcp";
  protocol_versions = "1" ∷ [];
  binding = "socket";
  endpoint = "sockets/a.sock";
}

abbrev registration : Registration
registration = record {
  path = "pcp--a.json";
  kind = "pcp";
  instance_id = "a";
  generation = "g1";
  offers = offer ∷ [];
}

abbrev selection : AdapterSelection
selection = record { adapter = adapter; offer = offer; protocol_version = "1" }

abbrev observed : ℕ → FacilityObservation
observed sequence = record {
  label = "PCP";
  status = "healthy";
  observed_at = "then";
  sequence = sequence;
  snapshot = record {
    captured_at = "then";
    sequence = sequence;
    state = "healthy";
    reason_codes = [];
    others = "";
  };
  console_url = none;
}

-- A world in which every provider answers with the same sequence.
abbrev answering : ℕ → World bindings adapters
answering sequence = record {
  escapes = λ r s. false;
  observe_provider = λ r s. ok (observed sequence);
  read_again = λ r. ok r;
}

abbrev monitor : FacilityMonitor bindings adapters
monitor = init_monitor bindings adapters

abbrev directory : Directory
directory = files (ok registration ∷ failed protocol_error ∷ [])

-- A world in which a provider's answer ends the loop.
abbrev breaking : World bindings adapters
breaking = record (answering 7) { escapes = λ r s. str_eq r.generation "g1" }

abbrev scan : List (Result Registration)
scan = ok registration ∷ failed protocol_error ∷ []

refreshed_record_example :
    let m = refresh_once bindings adapters (answering 7) (pos 100) (files scan) monitor in
    (m.1
      ≡ not (
          any
            (escapes_in bindings adapters (answering 7) (pos 100) monitor.records)
            (registered [] scan)))
    × ((id : String)
        → if m.1
          then get id m.0.records
            ≡ own_record bindings adapters
                (answering 7)
                (pos 100)
                (get id monitor.records)
                (get id (registered [] scan))
          else observation_of (get id m.0.records) ≡ observation_of (get id monitor.records))
refreshed_record_example = refreshed_record bindings adapters (answering 7) (pos 100) scan monitor

-- The refresh is lost with the answer.
lost_refresh : (refresh_once bindings adapters breaking (pos 100) (files scan) monitor).1 ≡ false
unfolding refresh_once infra_sentinel.Facilities.rescanned infra_sentinel.Facilities.reconcile_all
    registered infra_sentinel.Facilities.escapes_now infra_sentinel.Facilities.concluded
    select_adapter get put init_monitor infra_sentinel.Facilities.Offers.first_selection
    infra_sentinel.Facilities.Offers.select_offer infra_sentinel.Facilities.Offers.first_offer
    infra_sentinel.Facilities.Offers.compatible_offers infra_sentinel.Prelude.Sort.sort
    infra_sentinel.Facilities.Offers.matches infra_sentinel.Prelude.Texts.unique_texts
    infra_sentinel.Facilities.Offers.matched infra_sentinel.Facilities.Offers.selected_version
lost_refresh = refl

refresh_once-IsSound_example :
    let after =
      refresh_once bindings adapters (answering 7) (pos 100) (refused "DiscoveryError") monitor in
    (if after.1
      then IsSound bindings adapters after.0
      else after.0.discovery_error ≡ monitor.discovery_error)
    × ((name : String)
        → refused "DiscoveryError" ≡ refused name
        → (after.1 ≡ true) × (after.0.records ≡ monitor.records))
refresh_once-IsSound_example =
    refresh_once-IsSound bindings adapters (answering 7) (pos 100) (refused "DiscoveryError")
      monitor (init_monitor-IsSound bindings adapters)

abbrev stabilizer : StatusStabilizer
stabilizer = record {
  status = "healthy";
  ranks = facility_ranks;
  worsen_after = 3;
  recover_after = 2;
  pending_status = none;
  pending_count = 0;
}

abbrev shown : ObservedFacility
shown = record {
  registration = registration;
  selection = selection;
  status = "healthy";
  observation = some (observed 7);
  last_success_epoch = some (pos 100);
  next_poll_epoch = pos 115;
  last_attempt_epoch = pos 100;
  error_kind = none;
  stability = some stabilizer;
  confirmation = none;
}

abbrev later_monitor : FacilityMonitor bindings adapters
later_monitor = record monitor { records = ("pcp:a", shown) ∷ [] }

abbrev after_refused : ObservedFacility
after_refused = shown

refresh_once-Advances_example :
    Advances
      (same_selection shown registration selection)
      (some (observed 7))
      after_refused.observation
unfolding get refresh_once infra_sentinel.Facilities.rescanned infra_sentinel.Facilities.concluded
refresh_once-Advances_example =
    refresh_once-Advances bindings adapters (answering 9) (pos 120) (refused "OSError")
      later_monitor "pcp:a" shown after_refused refl refl refl

abbrev three_epochs : List ℤ
three_epochs = pos 115 ∷ pos 130 ∷ pos 145 ∷ []

not_unreachable : "unreachable" ≢ stabilizer.status
not_unreachable e = false≢true ((eq_iff "unreachable" "healthy").1 e)

fail_all_confirms_example :
    let after = fail_all registration selection three_epochs shown in
    (after.observation ≡ some (observed 7))
    × (after.last_success_epoch ≡ some (pos 100))
    × (3 < required stabilizer "unreachable" → after.status ≡ "healthy")
    × (3 ≡ required stabilizer "unreachable" → after.status ≡ "unreachable")
fail_all_confirms_example =
    fail_all_confirms registration selection three_epochs shown stabilizer
      (record { stability = refl; status = refl }) refl not_unreachable (ground arith)

three_failures : 3 ≡ required stabilizer "unreachable"
unfolding window get
three_failures = refl

-- A stream of bytes that gives as many as it is asked for, and then is closed.
abbrev recv : List ℕ → ℕ → List ℕ × List ℕ
recv bytes n = (take n bytes, drop n bytes)

recv_bounded : (bytes : List ℕ) (n : ℕ) → length (recv bytes n).0 ≤ n
recv_bounded bytes n = omega (arith, length-take n bytes)
