-- ===== src/Meter/Recording.antt =====
-- `record` of resources/network/session.py.
use infra_sentinel.Prelude.{
  ℕ, ◌+◌, ◌-◌, String, Bool, true, false, Option, none, some, List, [], ◌∷◌, ◌++◌, length, select,
  drop, or_default, if◌then◌else◌,
}
use infra_sentinel.Prelude.Int.{ℤ, pos, ◌-ℤ◌, leb_ℤ, eqb_ℤ}
use infra_sentinel.Prelude.Dict.{Dict, get, put, string_eq}
use infra_sentinel.Mihomo.{
  ServiceId, Route, proxy, Traffic, ServiceTraffic, service_id_instance, route_instance,
}
use infra_sentinel.Vps
use infra_sentinel.Meter.{
  LocalSample, RemoteRow, Counts, ServerTotals, SessionService, HistoryPoint, SessionMeter,
  empty_traffic, route_names, server_of, reset, set_vps_baseline,
}

-- The whole of an interval, with its packets where they are known.
abbrev pub interval_counts : Vps.Sample → Counts
interval_counts s = record {
  in_bytes = s.in_bytes;
  out_bytes = s.out_bytes;
  in_packets = if s.packet_counters_ready then s.in_packets else 0;
  out_packets = if s.packet_counters_ready then s.out_packets else 0;
  packet_covered_in_bytes = if s.packet_counters_ready then s.in_bytes else 0;
  packet_covered_out_bytes = if s.packet_counters_ready then s.out_bytes else 0;
  intervals = 1;
  packet_intervals = if s.packet_counters_ready then 1 else 0;
}

unfoldable pub add_counts : Counts → Counts → Counts
add_counts a b = record {
  in_bytes = a.in_bytes + b.in_bytes;
  out_bytes = a.out_bytes + b.out_bytes;
  in_packets = a.in_packets + b.in_packets;
  out_packets = a.out_packets + b.out_packets;
  packet_covered_in_bytes = a.packet_covered_in_bytes + b.packet_covered_in_bytes;
  packet_covered_out_bytes = a.packet_covered_out_bytes + b.packet_covered_out_bytes;
  intervals = a.intervals + b.intervals;
  packet_intervals = a.packet_intervals + b.packet_intervals;
}

abbrev pub same_epoch : Option ℤ → ℤ → Bool
same_epoch none epoch = false
same_epoch (some last) epoch = eqb_ℤ last epoch

-- A server without a baseline, or an interval that began in the session.
abbrev pub counts_interval : Option ℤ → Option ℤ → ℤ → Bool
counts_interval none started start = true
counts_interval (some at) none start = false
counts_interval (some at) (some started) start = leb_ℤ started start

-- The overall counts and the servers, with a sample of a server.
unfoldable pub record_interval :
    Option ℤ
    → Counts × Dict String ServerTotals
    → RemoteRow
    → Vps.Sample
    → ℤ
    → Counts × Dict String ServerTotals
record_interval started (vps, servers) row s start =
    let server = server_of servers row in
    let seen = record server {
      last_vps_sample_epoch = some s.epoch;
      vps_baselined_at = some s.epoch;
    } in
    if same_epoch server.last_vps_sample_epoch s.epoch
    then (vps, put row.id server servers)
    else if counts_interval server.vps_baselined_at started start
    then (
      add_counts vps (interval_counts s),
      put row.id (record seen { counts = add_counts server.counts (interval_counts s) }) servers,
    )
    else (vps, put row.id seen servers)

unfoldable pub record_from :
    Option ℤ
    → Counts × Dict String ServerTotals
    → RemoteRow
    → Vps.Sample
    → Option ℤ
    → Counts × Dict String ServerTotals
record_from started all row s none = all
record_from started all row s (some start) = record_interval started all row s start

-- A row without a sample, or with one that began at no epoch, is passed over.
unfoldable pub record_sample :
    Option ℤ
    → Counts × Dict String ServerTotals
    → RemoteRow
    → Option Vps.Sample
    → Counts × Dict String ServerTotals
record_sample started all row none = all
record_sample started all row (some s) = record_from started all row s s.interval_started_epoch

-- The loop of `record` over the servers.
unfoldable pub record_rows :
    Option ℤ
    → Counts × Dict String ServerTotals
    → List RemoteRow
    → Counts × Dict String ServerTotals
record_rows started all [] = all
record_rows started all (row ∷ rest) =
    record_rows started (record_sample started all row row.vps.last_sample) rest

abbrev pub sum_traffic : Traffic → Traffic → Traffic
sum_traffic a b = record {
  up_bytes = a.up_bytes + b.up_bytes;
  down_bytes = a.down_bytes + b.down_bytes;
}

abbrev grown_service : Option SessionService → ServiceTraffic → SessionService
grown_service none t = record {
  label = t.label;
  traffic = record { up_bytes = t.up_bytes; down_bytes = t.down_bytes };
}
grown_service (some s) t = record s {
  traffic = sum_traffic s.traffic (record { up_bytes = t.up_bytes; down_bytes = t.down_bytes });
}

-- The services of the session, and the bytes of each in the interval.
unfoldable pub add_services :
    Dict ServiceId SessionService
    → Dict ServiceId ℕ
    → List (ServiceId × ServiceTraffic)
    → Dict ServiceId SessionService × Dict ServiceId ℕ
add_services all interval [] = (all, interval)
add_services all interval ((id, t) ∷ rest) =
    add_services (put id (grown_service (get id all) t) all)
      (put id (t.up_bytes + t.down_bytes) interval) rest

unfoldable pub add_routes :
    Dict Route Traffic → Dict Route Traffic → List Route → Dict Route Traffic
add_routes all sample [] = all
add_routes all sample (r ∷ rest) =
    add_routes
      (put r
        (sum_traffic (or_default (get r all) empty_traffic)
          (or_default (get r sample) empty_traffic))
        all)
      sample rest

abbrev proxy_total : Option Traffic → ℕ
proxy_total none = 0
proxy_total (some t) = t.up_bytes + t.down_bytes

unfoldable pub history_point : SessionMeter → LocalSample → Dict ServiceId ℕ → HistoryPoint
history_point m s services = record {
  epoch = s.epoch;
  observed_ms = s.observed_ms;
  interval_kind = s.interval_kind;
  expected_interval_seconds = or_default s.expected_interval_seconds m.expected_interval_seconds;
  services = services;
  mihomo_total = s.kernel.up_bytes + s.kernel.down_bytes;
  proxy_observed = proxy_total (get proxy s.routes);
  unattributed = s.unattributed_bytes;
}

-- The last 2000 points, and of them those of the last hour.
unfoldable pub kept : ℤ → List HistoryPoint → List HistoryPoint
kept epoch points =
    select (λ (p : HistoryPoint). leb_ℤ (epoch -ℤ pos 3600) p.epoch)
      (drop (length points - 2000) points)

-- The local part of `record`.
unfoldable pub record_local : SessionMeter → LocalSample → SessionMeter
record_local m s =
    let (services, interval) = add_services m.services [] s.services in
    record m {
      kernel = sum_traffic m.kernel s.kernel;
      services = services;
      routes = add_routes m.routes s.routes route_names;
      attribution_observed_bytes = m.attribution_observed_bytes + s.observed_bytes;
      attribution_unattributed_bytes = m.attribution_unattributed_bytes + s.unattributed_bytes;
      history = m.history ++ (history_point m s interval ∷ []);
    }

unfoldable pub record_remote : SessionMeter → List RemoteRow → SessionMeter
record_remote m rows =
    let (vps, servers) = record_rows m.started_epoch (m.vps, m.vps_servers) rows in
    record m { vps = vps; vps_servers = servers }

abbrev pub recorded : SessionMeter → LocalSample → List RemoteRow → Bool → SessionMeter
recorded m s rows available =
    let next = record_remote (if available then record_local m s else m) rows in
    record next { history = kept s.epoch next.history }

-- The first sample starts a session.
unfoldable pub record_in :
    Option ℤ → SessionMeter → LocalSample → List RemoteRow → Bool → SessionMeter × Bool
record_in none m s rows available = set_vps_baseline (reset m s.epoch "automatic") rows
record_in (some started) m s rows available = (recorded m s rows available, true)

-- `record`: the meter, and whether the call comes to its end.
abbrev pub record_session : SessionMeter → LocalSample → List RemoteRow → Bool → SessionMeter × Bool
record_session m s rows available = record_in m.started_epoch m s rows available
