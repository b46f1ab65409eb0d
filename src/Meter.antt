-- ===== src/Meter.antt =====
-- src/infra_sentinel/resources/network/session.py: the meter of a session, which adds up the local samples
-- and the intervals of the servers. Epochs are whole seconds; byte counts are natural numbers, as the
-- samplers make them. The session file and what is shown of a session are left out.
pub mod Recording
pub mod Sums
pub mod Baselines
pub mod Seen
pub mod Repeats
mod Tests
use infra_sentinel.Prelude.{
  ℕ, ◌+◌, String, str_eq, Bool, true, false, ◌&&◌, ◌||◌, not, Option, none, some, List, [], ◌∷◌,
  ◌++◌, length, select, drop, ◌-◌, ◌==◌, or_default, if◌then◌else◌,
}
use infra_sentinel.Prelude.Int.{ℤ, pos, ◌-ℤ◌, leb_ℤ, eqb_ℤ}
use infra_sentinel.Prelude.Dict.{Dict, get, put, string_eq}
use infra_sentinel.Mihomo.{
  ServiceId, Route, proxy, direct, blocked, unknown, residual, Traffic, Host, ServiceTraffic,
  service_id_instance, route_instance,
}
use infra_sentinel.Vps

-- The local sample that is recorded.
pub record LocalSample : Type 0 where
  pub epoch : ℤ
  pub observed_ms : ℕ
  pub interval_kind : Option String
  pub expected_interval_seconds : Option ℕ
  pub kernel : Traffic
  pub services : List (ServiceId × ServiceTraffic)
  pub routes : Dict Route Traffic
  pub observed_bytes : ℕ
  pub unattributed_bytes : ℕ

-- A server of the remote state.
pub record RemoteRow : Type 0 where
  pub id : String
  pub label : String
  pub billing_mode : String
  pub vps : Vps.PublicState

-- What intervals add up to.
pub record Counts : Type 0 where
  pub in_bytes : ℕ
  pub out_bytes : ℕ
  pub in_packets : ℕ
  pub out_packets : ℕ
  pub packet_covered_in_bytes : ℕ
  pub packet_covered_out_bytes : ℕ
  pub intervals : ℕ
  pub packet_intervals : ℕ

-- `_empty_vps`, with the counts of intervals.
abbrev pub empty_vps : Counts
empty_vps = record {
  in_bytes = 0;
  out_bytes = 0;
  in_packets = 0;
  out_packets = 0;
  packet_covered_in_bytes = 0;
  packet_covered_out_bytes = 0;
  intervals = 0;
  packet_intervals = 0;
}

pub record ServerTotals : Type 0 where
  pub id : String
  pub label : String
  pub billing_mode : String
  pub counts : Counts
  pub vps_baselined_at : Option ℤ
  pub last_vps_sample_epoch : Option ℤ

-- `_empty_vps_server`
abbrev pub empty_vps_server : String → String → ServerTotals
empty_vps_server label billing_mode = record {
  id = "default";
  label = label;
  billing_mode = billing_mode;
  counts = empty_vps;
  vps_baselined_at = none;
  last_vps_sample_epoch = none;
}

pub record SessionService : Type 0 where
  pub label : Host
  pub traffic : Traffic

pub record HistoryPoint : Type 0 where
  pub epoch : ℤ
  pub observed_ms : ℕ
  pub interval_kind : Option String
  pub expected_interval_seconds : ℕ
  pub services : Dict ServiceId ℕ
  pub mihomo_total : ℕ
  pub proxy_observed : ℕ
  pub unattributed : ℕ

pub record SessionMeter : Type 0 where
  pub expected_interval_seconds : ℕ
  pub started_epoch : Option ℤ
  pub started_reason : String
  pub kernel : Traffic
  pub services : Dict ServiceId SessionService
  pub routes : Dict Route Traffic
  pub attribution_observed_bytes : ℕ
  pub attribution_unattributed_bytes : ℕ
  pub vps : Counts
  pub vps_servers : Dict String ServerTotals
  pub history : List HistoryPoint

abbrev pub empty_traffic : Traffic
empty_traffic = record { up_bytes = 0; down_bytes = 0 }

abbrev pub route_names : List Route
route_names = proxy ∷ direct ∷ blocked ∷ unknown ∷ residual ∷ []

abbrev pub empty_routes : List Route → Dict Route Traffic
empty_routes [] = []
empty_routes (r ∷ rest) = (r, empty_traffic) ∷ empty_routes rest

-- `_clear`
unfoldable pub clear : SessionMeter → SessionMeter
clear m = record m {
  kernel = empty_traffic;
  services = [];
  routes = empty_routes route_names;
  attribution_observed_bytes = 0;
  attribution_unattributed_bytes = 0;
  vps = empty_vps;
  vps_servers = [];
  history = [];
}

unfoldable pub reset : SessionMeter → ℤ → String → SessionMeter
reset m epoch reason = clear (record m { started_epoch = some epoch; started_reason = reason })

-- The server of a row, with the row's label and billing mode.
abbrev pub server_of : Dict String ServerTotals → RemoteRow → ServerTotals
server_of servers row =
    record (or_default (get row.id servers) (empty_vps_server row.label row.billing_mode)) {
      label = row.label;
      billing_mode = row.billing_mode;
    }

-- What a row gives for a baseline: a sample, nothing, or the exception of reading a sample that is None.
pub data RowBaseline : Type 0 where
  baselined : ℤ → RowBaseline
  passed : RowBaseline
  raised : RowBaseline

unfoldable pub sample_baseline : Bool → Option Vps.Sample → RowBaseline
sample_baseline true none = raised
sample_baseline false none = passed
sample_baseline enabled (some s) = if s.schema == 3 then baselined s.epoch else passed

-- Only the state of a server that is enabled has the key `last_sample`.
unfoldable pub row_baseline : RemoteRow → RowBaseline
row_baseline row =
    if str_eq row.vps.status "error"
    then passed
    else sample_baseline row.vps.enabled row.vps.last_sample

abbrev pub with_baseline : Dict String ServerTotals → RemoteRow → ℤ → Dict String ServerTotals
with_baseline servers row epoch =
    put row.id
      (record (server_of servers row) {
        id = row.id;
        last_vps_sample_epoch = some epoch;
        vps_baselined_at = some epoch;
      })
      servers

-- A turn of the loop, and what follows it.
unfoldable pub baseline_row :
    RowBaseline
    → Dict String ServerTotals
    → RemoteRow
    → (Dict String ServerTotals → Dict String ServerTotals × Bool)
    → Dict String ServerTotals × Bool
baseline_row (baselined epoch) servers row onward = onward (with_baseline servers row epoch)
baseline_row passed servers row onward = onward servers
baseline_row raised servers row onward = (servers, false)

-- The loop of `set_vps_baseline`: the servers, and whether it comes to its end.
unfoldable pub baseline_rows :
    Dict String ServerTotals → List RemoteRow → Dict String ServerTotals × Bool
baseline_rows servers [] = (servers, true)
baseline_rows servers (row ∷ rest) =
    baseline_row (row_baseline row) servers row (λ next. baseline_rows next rest)

-- `set_vps_baseline`
unfoldable pub set_vps_baseline : SessionMeter → List RemoteRow → SessionMeter × Bool
set_vps_baseline m rows =
    let (servers, done) = baseline_rows m.vps_servers rows in
    (record m { vps_servers = servers }, done)
