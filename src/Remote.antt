-- ===== src/Remote.antt =====
-- src/infra_sentinel/resources/network/remote.py: the fleet of servers, each with a monitor of its counters
-- and one of its users, and what is shown of them together. What each poll comes to is an argument.
mod Totals
use infra_sentinel.Prelude.{
  ℕ, ◌+◌, String, str_eq, Bool, true, false, ◌&&◌, ◌||◌, not, Option, none, some, List, [], ◌∷◌,
  any, map, select, if◌then◌else◌,
}
use infra_sentinel.Prelude.Int.{ℤ}
use infra_sentinel.Prelude.Sort.{text_lt}
use infra_sentinel.Vps
use infra_sentinel.Xray
use infra_sentinel.Xray.Public

pub record RemoteServerConfig : Type 0 where
  pub id : String
  pub label : String
  pub billing_mode : String

pub record RemoteServer : Type 0 where
  pub config : RemoteServerConfig
  pub vps : Vps.VpsMonitor
  pub xray : Public.XrayStatsMonitor

-- A row of `servers`.
pub record ServerRow : Type 0 where
  pub config : RemoteServerConfig
  pub vps : Vps.PublicState
  pub xray_stats : Public.PublicState

pub record TotalCycle : Type 0 where
  pub in_bytes : ℕ
  pub out_bytes : ℕ
  pub total_bytes : ℕ
  pub interface_total_bytes : ℕ

pub record FleetState : Type 0 where
  pub enabled : Bool
  pub status : String
  pub updated_at : Option String
  pub cycle : TotalCycle
  pub servers : List ServerRow

abbrev row_of : RemoteServer → ServerRow
row_of s = record { config = s.config; vps = s.vps.public_state; xray_stats = s.xray.public_state }

abbrev has_status : String → ServerRow → Bool
has_status status row = str_eq row.vps.status status

-- `_status`
unfoldable pub status_of : List ServerRow → String
status_of rows =
    let active = select (λ (r : ServerRow). r.vps.enabled) rows in
    if not (any (λ (r : ServerRow). true) active)
    then "disabled"
    else if any (has_status "error") active
    then "error"
    else if any (λ r. has_status "waiting" r || has_status "baseline" r) active
    then "waiting"
    else "ok"

-- `billable_bytes` of the server's estimation.
abbrev pub billable_bytes : String → ℕ → ℕ → ℕ
billable_bytes mode incoming outgoing = if str_eq mode "both" then incoming + outgoing else outgoing

unfoldable pub total_cycle : List RemoteServer → TotalCycle
total_cycle [] = record { in_bytes = 0; out_bytes = 0; total_bytes = 0; interface_total_bytes = 0 }
total_cycle (s ∷ rest) =
    let c = s.vps.public_state.cycle.totals in
    let sums = total_cycle rest in
    record {
      in_bytes = c.in_bytes + sums.in_bytes;
      out_bytes = c.out_bytes + sums.out_bytes;
      total_bytes = billable_bytes s.config.billing_mode c.in_bytes c.out_bytes + sums.total_bytes;
      interface_total_bytes = c.total_bytes + sums.interface_total_bytes;
    }

abbrev later_text : String → Option String → Option String
later_text text none = some text
later_text text (some other) = some (if text_lt other text then text else other)

abbrev with_updated : Option String → Option String → Option String
with_updated none latest = latest
with_updated (some text) latest = if str_eq text "" then latest else later_text text latest

-- The latest of the servers' times, as texts.
unfoldable pub latest_update : List RemoteServer → Option String
latest_update [] = none
latest_update (s ∷ rest) = with_updated s.vps.public_state.updated_at (latest_update rest)

-- `_build_public_state`
unfoldable pub build_public_state : List RemoteServer → FleetState
build_public_state monitors =
    let rows = map row_of monitors in
    record {
      enabled = any (λ (r : ServerRow). r.vps.enabled) rows;
      status = status_of rows;
      updated_at = latest_update monitors;
      cycle = total_cycle monitors;
      servers = rows;
    }

-- A server, and what its two polls come to.
abbrev pub Turn : Type 0
Turn = RemoteServer × (Vps.Poll × Public.Poll)

module _ (iso_now : ℤ → String) (daily_usage_start_epoch : ℤ → ℤ) where
  unfoldable pub poll_server : ℤ → Bool → Turn → RemoteServer
  poll_server now force (s, (vps, xray)) = record s {
    vps = Vps.maybe_poll iso_now daily_usage_start_epoch s.vps now force vps;
    xray = Public.maybe_poll s.xray now force xray;
  }

  -- `maybe_poll`: the monitors, and what they show.
  unfoldable pub maybe_poll : ℤ → Bool → List Turn → List RemoteServer × FleetState
  maybe_poll now force turns =
      let monitors = map (poll_server now force) turns in (monitors, build_public_state monitors)

  unfoldable pub reset_server : ℤ → Turn → RemoteServer
  reset_server epoch (s, (vps, xray)) = record s {
    vps = Vps.maybe_poll iso_now daily_usage_start_epoch s.vps epoch true vps;
    xray = Public.reset_session s.xray epoch xray;
  }

  -- `reset_session`
  unfoldable pub reset_session : ℤ → List Turn → List RemoteServer × FleetState
  reset_session epoch turns =
      let monitors = map (reset_server epoch) turns in (monitors, build_public_state monitors)

-- `align_session`
unfoldable pub align_session : Option ℤ → List RemoteServer → List RemoteServer
align_session epoch monitors =
    map (λ (s : RemoteServer). record s { xray = Public.align s.xray epoch }) monitors
