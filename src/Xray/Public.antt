-- ===== src/Xray/Public.antt =====
-- The polls of a server, and what is shown of them.
use infra_sentinel.Prelude.{
  ℕ, ◌+◌, String, str_eq, Bool, true, false, ◌&&◌, ◌||◌, not, Option, none, some, List, [], ◌∷◌,
  ◌++◌, map, select, ltb, ◌==◌, is_some, or_default, if◌then◌else◌,
}
use infra_sentinel.Prelude.Int.{ℤ, pos, ◌+ℤ◌, ltb_ℤ}
use infra_sentinel.Prelude.Dict.{get, string_eq}
use infra_sentinel.Prelude.Sort.{sort, text_lt}
use infra_sentinel.Prelude.Texts.{has, unique_texts}
use infra_sentinel.StatusStability.{StatusStabilizer, StatusDecision, observe}
use infra_sentinel.Xray.{
  UserTraffic, Users, no_traffic, Reading, XrayStatsTracker, Sample, SessionTotals, apply,
  align_session, new_session, record_session,
}

pub record XrayStatsConfig : Type 0 where
  pub enabled : Bool
  pub poll_seconds : ℕ
  pub expected_users : List String
  pub flagged_users : List String

pub record UserRow : Type 0 where
  pub id : String
  pub traffic : UserTraffic
  pub flagged : Bool

pub record PublicState : Type 0 where
  pub status : String
  pub updated_at : Option String
  pub checked_at : Option ℤ
  pub session : SessionTotals
  pub ready : Bool
  pub users : List UserRow
  pub total_bytes : ℕ
  pub last_sample : Option Sample
  pub error : Option String
  pub confirmation : Option (String × (ℕ × ℕ))

abbrev traffic_of : Users → String → UserTraffic
traffic_of totals label = or_default (get label totals) no_traffic

abbrev label_total : Users → String → ℕ
label_total totals label = (traffic_of totals label).up_bytes + (traffic_of totals label).down_bytes

-- The larger total first, and of equal ones the later label.
abbrev larger_label : Users → String → String → Bool
larger_label totals a b =
    ltb (label_total totals b) (label_total totals a)
    || (label_total totals a == label_total totals b && text_lt b a)

-- `_ordered_labels`
unfoldable pub ordered_labels : XrayStatsConfig → Users → List String
ordered_labels c totals =
    let configured = unique_texts [] (c.expected_users ++ c.flagged_users) in
    configured
    ++ sort (larger_label totals) (
        select (λ label. not (has label configured))
          (map (λ (u : String × UserTraffic). u.0) totals))

abbrev user_row : XrayStatsConfig → Users → String → UserRow
user_row c totals label = record {
  id = label;
  traffic = traffic_of totals label;
  flagged = has label c.flagged_users;
}

abbrev rows_total : List UserRow → ℕ
rows_total [] = 0
rows_total (u ∷ rest) = u.traffic.up_bytes + u.traffic.down_bytes + rows_total rest

-- `_build_public_state`, with no error and no confirmation.
unfoldable pub build_public_state :
    XrayStatsConfig
    → SessionTotals
    → String
    → Option String
    → Option ℤ
    → Option Sample
    → PublicState
build_public_state c s status updated_at checked_at last_sample =
    let rows = map (user_row c s.totals) (ordered_labels c s.totals) in
    record {
      status = status;
      updated_at = updated_at;
      checked_at = checked_at;
      session = s;
      ready = ltb 0 s.intervals;
      users = rows;
      total_bytes = rows_total rows;
      last_sample = last_sample;
      error = none;
      confirmation = none;
    }

pub record XrayStatsMonitor : Type 0 where
  pub config : XrayStatsConfig
  pub tracker : XrayStatsTracker
  pub session : SessionTotals
  pub next_poll_at : ℤ
  pub public_state : PublicState
  pub stability : StatusStabilizer

-- What a poll comes to. A write can fail before the session has the sample, or after.
pub data Poll : Type 0 where
  unread : String → Poll
  unsaved : Reading → String → Poll
  unrecorded : Reading → String → Poll
  read : Reading → Poll

unfoldable pub confirmation_of : StatusDecision → Option (String × (ℕ × ℕ))
confirmation_of d = elim d.pending_status [
  | none ↦ none
  | some candidate ↦ some (candidate, (d.pending_count, d.required_count))
]

-- The exception's branch of `maybe_poll`.
unfoldable pub fail_poll : XrayStatsMonitor → ℤ → String → XrayStatsMonitor
fail_poll m now error =
    let (stability, decision) = observe m.stability "error" false in
    let shown =
      build_public_state m.config m.session decision.status m.public_state.updated_at (some now)
        m.public_state.last_sample in
    record m {
      stability = stability;
      public_state = record shown {
        error = if str_eq decision.status "error" then some error else none;
        confirmation = confirmation_of decision;
      };
    }

unfoldable pub finish_poll : XrayStatsMonitor → Bool → Sample → ℤ → XrayStatsMonitor
finish_poll m was_uninitialized sample now =
    let (stability, decision) =
      observe m.stability (if was_uninitialized then "baseline" else "ok")
        (has m.stability.status ("waiting" ∷ "baseline" ∷ [])) in
    let shown =
      build_public_state m.config m.session decision.status (some sample.timestamp) (some now)
        (some sample) in
    record m {
      stability = stability;
      public_state = record shown { confirmation = confirmation_of decision };
    }

abbrev advanced : XrayStatsMonitor → Reading → XrayStatsMonitor
advanced m raw = record m { tracker = (apply m.tracker raw).0 }

abbrev counted : XrayStatsMonitor → Reading → XrayStatsMonitor
counted m raw = record m {
  tracker = (apply m.tracker raw).0;
  session = record_session m.session (apply m.tracker raw).1;
}

unfoldable pub poll : XrayStatsMonitor → ℤ → Poll → XrayStatsMonitor
poll m now (unread error) = fail_poll m now error
poll m now (unsaved raw error) = fail_poll (advanced m raw) now error
poll m now (unrecorded raw error) = fail_poll (counted m raw) now error
poll m now (read raw) =
    finish_poll (counted m raw) (not (is_some m.tracker.previous_epoch)) (apply m.tracker raw).1 now

-- `maybe_poll`
unfoldable pub maybe_poll : XrayStatsMonitor → ℤ → Bool → Poll → XrayStatsMonitor
maybe_poll m now force outcome =
    if not m.config.enabled
    then record m {
      public_state = build_public_state m.config m.session "disabled" none none none;
      stability = (observe m.stability "disabled" true).0;
    }
    else if not force && ltb_ℤ now m.next_poll_at
    then m
    else poll (record m { next_poll_at = now +ℤ pos m.config.poll_seconds }) now outcome

unfoldable pub aligned : XrayStatsMonitor → SessionTotals × Bool → XrayStatsMonitor
aligned m (session, false) = m
aligned m (session, true) = record m {
  session = session;
  public_state =
      build_public_state m.config session m.public_state.status none m.public_state.checked_at none;
}

abbrev pub align : XrayStatsMonitor → Option ℤ → XrayStatsMonitor
align m epoch = aligned m (align_session m.session epoch)

-- `reset_session`
unfoldable pub reset_session : XrayStatsMonitor → ℤ → Poll → XrayStatsMonitor
reset_session m epoch outcome =
    maybe_poll (record m { session = new_session epoch }) epoch true outcome
