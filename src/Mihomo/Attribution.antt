-- ===== src/Mihomo/Attribution.antt =====
-- The attribution of bytes to services and routes, of resources/network/mihomo.py.
use infra_sentinel.Prelude.{
  ℕ, ◌+◌, ◌≡◌, ◌↔◌, str_eq, eq_iff, Bool, true, false, ◌&&◌, ◌||◌, not, Option, none, some, List,
  [], ◌∷◌, ◌++◌, ltb, ◌==◌, length, map, any, arith, if◌then◌else◌,
}
use infra_sentinel.Prelude.Dict.{Eq, Dict, get, put}
use infra_sentinel.Prelude.Sort.{sort}
use infra_sentinel.Mihomo.Hosts.{
  Host, codes, ServiceId, unknown_host, known, domain, unattributed, Route, proxy, direct, blocked,
  unknown, residual, Service, host_eq,
}

pub record Traffic : Type 0 where
  pub up_bytes : ℕ
  pub down_bytes : ℕ

abbrev service_id_eq : ServiceId → ServiceId → Bool
service_id_eq unknown_host unknown_host = true
service_id_eq (known a) (known b) = str_eq a b
service_id_eq (domain a) (domain b) = str_eq a b
service_id_eq unattributed unattributed = true
service_id_eq _ _ = false

pub service_id_eq_iff : (a b : ServiceId) → (service_id_eq a b ≡ true) ↔ (a ≡ b)
service_id_eq_iff unknown_host unknown_host = ground arith
service_id_eq_iff unknown_host (known b) = ground arith
service_id_eq_iff unknown_host (domain b) = ground arith
service_id_eq_iff unknown_host unattributed = ground arith
service_id_eq_iff (known a) unknown_host = ground arith
service_id_eq_iff (known a) (known b) = ground (arith, eq_iff a b)
service_id_eq_iff (known a) (domain b) = ground arith
service_id_eq_iff (known a) unattributed = ground arith
service_id_eq_iff (domain a) unknown_host = ground arith
service_id_eq_iff (domain a) (known b) = ground arith
service_id_eq_iff (domain a) (domain b) = ground (arith, eq_iff a b)
service_id_eq_iff (domain a) unattributed = ground arith
service_id_eq_iff unattributed unknown_host = ground arith
service_id_eq_iff unattributed (known b) = ground arith
service_id_eq_iff unattributed (domain b) = ground arith
service_id_eq_iff unattributed unattributed = ground arith

abbrev pub route_eq : Route → Route → Bool
route_eq proxy proxy = true
route_eq direct direct = true
route_eq blocked blocked = true
route_eq unknown unknown = true
route_eq residual residual = true
route_eq _ _ = false

pub route_eq_iff : (a b : Route) → (route_eq a b ≡ true) ↔ (a ≡ b)
route_eq_iff a b = ground arith

instance abbrev pub service_id_instance : Eq ServiceId
service_id_instance = record { beq = service_id_eq; beq_iff = service_id_eq_iff }

instance abbrev pub route_instance : Eq Route
route_instance = record { beq = route_eq; beq_iff = route_eq_iff }

pub record Observed : Type 0 where
  pub service : Service
  pub route : Route
  pub up_bytes : ℕ
  pub down_bytes : ℕ

pub record ServiceTraffic : Type 0 where
  pub label : Host
  pub up_bytes : ℕ
  pub down_bytes : ℕ
  pub hosts : List Host

-- A set of at most 8 hosts.
unfoldable pub add_host : Host → List Host → List Host
add_host [] hosts = hosts
add_host (x ∷ xs) hosts =
    if ltb (length hosts) 8 && not (any (host_eq (x ∷ xs)) hosts)
    then hosts ++ ((x ∷ xs) ∷ [])
    else hosts

unfoldable pub grown_service : Option ServiceTraffic → Observed → ℕ → ℕ → ServiceTraffic
grown_service none o up down = record {
  label = o.service.label;
  up_bytes = up;
  down_bytes = down;
  hosts = add_host o.service.host [];
}
grown_service (some t) o up down = record t {
  up_bytes = t.up_bytes + up;
  down_bytes = t.down_bytes + down;
  hosts = add_host o.service.host t.hosts;
}

unfoldable pub grown_route : Option Traffic → ℕ → ℕ → Traffic
grown_route none up down = record { up_bytes = up; down_bytes = down }
grown_route (some t) up down = record {
  up_bytes = t.up_bytes + up;
  down_bytes = t.down_bytes + down;
}

pub record Attributed : Type 0 where
  pub services : Dict ServiceId ServiceTraffic
  pub routes : Dict Route Traffic

unfoldable pub attribute_one : Attributed → Observed → ℕ → ℕ → Attributed
attribute_one a o up down = record {
  services = put o.service.id (grown_service (get o.service.id a.services) o up down) a.services;
  routes = put o.route (grown_route (get o.route a.routes) up down) a.routes;
}

-- The loop over what was observed, with the scaled bytes of the same index.
unfoldable pub attribute_all : Attributed → List Observed → List ℕ → List ℕ → Attributed
attribute_all a (o ∷ os) (up ∷ ups) (down ∷ downs) =
    attribute_all (attribute_one a o up down) os ups downs
attribute_all a _ _ _ = a

abbrev no_traffic : Traffic
no_traffic = record { up_bytes = 0; down_bytes = 0 }

abbrev pub no_attribution : Attributed
no_attribution = record {
  services = [];
  routes =
      (proxy, no_traffic)
      ∷ (direct, no_traffic)
      ∷ (blocked, no_traffic)
      ∷ (unknown, no_traffic)
      ∷ (residual, no_traffic)
      ∷ [];
}

-- The bytes that no connection accounts for.
unfoldable pub add_residual : Attributed → ℕ → ℕ → Attributed
add_residual a up down = if up == 0 && down == 0 then a else record {
  services =
      put unattributed
        (record { label = codes "Unattributed"; up_bytes = up; down_bytes = down; hosts = [] })
        a.services;
  routes = put residual (record { up_bytes = up; down_bytes = down }) a.routes;
}

abbrev pub text_before : Host → Host → Bool
text_before [] [] = false
text_before [] (y ∷ ys) = true
text_before (x ∷ xs) [] = false
text_before (x ∷ xs) (y ∷ ys) = ltb x y || (x == y && text_before xs ys)

abbrev pub service_total : ServiceId × ServiceTraffic → ℕ
service_total row = row.1.up_bytes + row.1.down_bytes

abbrev larger_service : ServiceId × ServiceTraffic → ServiceId × ServiceTraffic → Bool
larger_service a b = ltb (service_total b) (service_total a)

abbrev pub sorted_hosts : ServiceId × ServiceTraffic → ServiceId × ServiceTraffic
sorted_hosts (id, t) = (id, record t { hosts = sort text_before t.hosts })

-- The rows of the services, the largest first, each with its hosts in order.
unfoldable pub service_rows : Dict ServiceId ServiceTraffic → Dict ServiceId ServiceTraffic
service_rows services = sort larger_service (map sorted_hosts services)
