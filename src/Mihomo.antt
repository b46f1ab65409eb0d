-- ===== src/Mihomo.antt =====
-- src/infra_sentinel/resources/network/mihomo.py: the exact totals of the core and their attribution to
-- services and routes. Counters are natural numbers, as the code makes them, and epochs are whole
-- milliseconds. A response is taken as decoded. The socket and its HTTP exchange are left out, but for
-- the chunks of a body.
pub mod Scaling
pub mod Hosts
pub mod Attribution
pub mod Totals
pub mod Conservation
pub mod Interval
pub mod Chunks
mod Tests
use infra_sentinel.Prelude.{
  ℕ, ◌+◌, ◌-◌, ◌≡◌, ◌↔◌, refl, String, str_eq, eq_iff, Bool, true, false, ◌&&◌, ◌||◌, not, Option,
  none, some, List, [], ◌∷◌, ◌++◌, leb, ltb, ◌==◌, length, map, any, max, arith, if◌then◌else◌,
}
use infra_sentinel.Prelude.Int.{ℤ, ◌-ℤ◌, pos_part}
use infra_sentinel.Prelude.Dict.{Eq, Dict, get, put, string_eq}
use infra_sentinel.Prelude.Sort.{sort}
unfoldable pub use Scaling.{scaled}
pub use Scaling.{sum}
pub use Hosts.{
  Host, ServiceId, unknown_host, known, domain, unattributed, Route, proxy, direct, blocked,
  unknown, residual, Service,
}
unfoldable pub use Hosts.{classify_host, classify_route, host_eq}
unfoldable pub use Attribution.{attribute_all, attribute_one, add_residual, service_rows}
pub use Attribution.{
  Traffic, Observed, ServiceTraffic, Attributed, no_attribution, service_id_instance,
  route_instance, text_before, sorted_hosts,
}

-- A connection of a response, with its fields read: `host` is the metadata's host or address.
pub record Connection : Type 0 where
  pub id : String
  pub upload : ℕ
  pub download : ℕ
  pub host : Host
  pub chains : List Host

pub record Response : Type 0 where
  pub upload_total : ℕ
  pub download_total : ℕ
  pub connections : List Connection

pub record MihomoTrafficTracker : Type 0 where
  pub previous_up : Option ℕ
  pub previous_down : Option ℕ
  pub previous_epoch : Option ℤ
  pub previous_connections : Dict String Traffic

-- `_safe_delta`
abbrev pub safe_delta : ℕ → ℕ → ℕ
safe_delta current previous = if leb previous current then current - previous else 0

-- The totals are comparable: both were read before, and neither fell.
unfoldable pub counters_ready : Option ℕ → Option ℕ → Response → Bool
counters_ready (some up) (some down) r = leb up r.upload_total && leb down r.download_total
counters_ready _ _ r = false

abbrev global_delta : Bool → ℕ → Option ℕ → ℕ
global_delta ready current previous = elim previous [
  | none ↦ 0
  | some p ↦ if ready then current - p else 0
]

-- A connection's growth; a new one's counters belong to the interval as a whole.
unfoldable pub connection_delta : Bool → Option Traffic → Connection → Traffic
connection_delta false prior c = record { up_bytes = 0; down_bytes = 0 }
connection_delta true none c = record { up_bytes = c.upload; down_bytes = c.download }
connection_delta true (some prior) c = record {
  up_bytes = safe_delta c.upload prior.up_bytes;
  down_bytes = safe_delta c.download prior.down_bytes;
}

unfoldable pub current_connections : Dict String Traffic → List Connection → Dict String Traffic
current_connections seen [] = seen
current_connections seen (c ∷ rest) =
    let own : Traffic = record { up_bytes = c.upload; down_bytes = c.download } in
    current_connections (if str_eq c.id "" then seen else put c.id own seen) rest

pub record MihomoSample : Type 0 where
  pub epoch : ℤ
  pub observed_ms : ℕ
  pub kernel : Traffic
  pub cumulative : Traffic
  pub services : Dict ServiceId ServiceTraffic
  pub routes : Dict Route Traffic
  pub observed_bytes : ℕ
  pub unattributed_bytes : ℕ
  pub active_connections : ℕ

abbrev elapsed_ms : Option ℤ → ℤ → ℕ
elapsed_ms none epoch = 250
elapsed_ms (some previous) epoch = max 1 (pos_part (epoch -ℤ previous))

module _ (is_address : Host → Bool) (digest : Host → String) where
  abbrev observation : Connection → Traffic → Observed
  observation c delta = record {
    service = classify_host is_address digest c.host;
    route = classify_route c.chains;
    up_bytes = delta.up_bytes;
    down_bytes = delta.down_bytes;
  }

  -- The connections that have an id and grew.
  unfoldable pub observed : Bool → Dict String Traffic → List Connection → List Observed
  observed ready previous [] = []
  observed ready previous (c ∷ rest) =
      let delta = connection_delta ready (get c.id previous) c in
      let others = observed ready previous rest in
      if str_eq c.id "" || (delta.up_bytes == 0 && delta.down_bytes == 0)
      then others
      else observation c delta ∷ others

  -- The attribution of global bytes to what was observed.
  unfoldable pub attributed : ℕ → ℕ → List Observed → Attributed
  attributed global_up global_down seen =
      let ups = scaled (map (λ (o : Observed). o.up_bytes) seen) global_up in
      let downs = scaled (map (λ (o : Observed). o.down_bytes) seen) global_down in
      add_residual (attribute_all no_attribution seen ups downs) (global_up - sum ups)
        (global_down - sum downs)

  abbrev sample : MihomoTrafficTracker → Response → ℤ → ℕ → ℕ → List Observed → MihomoSample
  sample t r epoch global_up global_down seen =
      let ups = scaled (map (λ (o : Observed). o.up_bytes) seen) global_up in
      let downs = scaled (map (λ (o : Observed). o.down_bytes) seen) global_down in
      let a = attributed global_up global_down seen in
      record {
        epoch = epoch;
        observed_ms = elapsed_ms t.previous_epoch epoch;
        kernel = record { up_bytes = global_up; down_bytes = global_down };
        cumulative = record { up_bytes = r.upload_total; down_bytes = r.download_total };
        services = service_rows a.services;
        routes = a.routes;
        observed_bytes = sum ups + sum downs;
        unattributed_bytes = (global_up - sum ups) + (global_down - sum downs);
        active_connections = length (current_connections [] r.connections);
      }

  -- `MihomoTrafficTracker.apply`
  unfoldable pub apply : MihomoTrafficTracker → Response → ℤ → MihomoTrafficTracker × MihomoSample
  apply t r epoch =
      let ready = counters_ready t.previous_up t.previous_down r in
      let global_up = global_delta ready r.upload_total t.previous_up in
      let global_down = global_delta ready r.download_total t.previous_down in
      (
        record {
          previous_up = some r.upload_total;
          previous_down = some r.download_total;
          previous_epoch = some epoch;
          previous_connections = current_connections [] r.connections;
        },
        sample t r epoch global_up global_down
            (observed ready t.previous_connections r.connections),
      )
