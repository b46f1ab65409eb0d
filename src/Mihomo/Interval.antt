-- ===== src/Mihomo/Interval.antt =====
-- `combine_samples` and `collect_interval` of resources/network/mihomo.py: the polls of an interval, and
-- the sample that they come to.
use infra_sentinel.Prelude.{
  ℕ, ◌+◌, ◌≡◌, ◌↔◌, refl, ◌∙◌, subst, Bool, true, false, ◌&&◌, not, Option, none, some, String,
  List, [], ◌∷◌, ◌++◌, length, max, All, any, ltb, arith, if◌then◌else◌,
}
use infra_sentinel.Prelude.Int.{ℤ}
use infra_sentinel.Prelude.Dict.{Dict, get, put}
use infra_sentinel.Mihomo.{
  Host, ServiceId, Route, Response, MihomoTrafficTracker, MihomoSample, Traffic, ServiceTraffic,
  Attributed, service_id_instance, route_instance, apply, service_rows, host_eq,
}
use infra_sentinel.Mihomo.Totals.{total, value_at, total-put, AddsUp, total-service_rows}
use infra_sentinel.Mihomo.Conservation.{apply-AddsUp}

-- A set of at most 8 hosts, empty ones among them.
unfoldable pub add_hosts : List Host → List Host → List Host
add_hosts hosts [] = hosts
add_hosts hosts (h ∷ rest) =
    add_hosts
      (if ltb (length hosts) 8 && not (any (host_eq h) hosts) then hosts ++ (h ∷ []) else hosts)
      rest

unfoldable pub joined_service : Option ServiceTraffic → ServiceTraffic → ServiceTraffic
joined_service none t = record t { hosts = add_hosts [] t.hosts }
joined_service (some s) t = record s {
  up_bytes = s.up_bytes + t.up_bytes;
  down_bytes = s.down_bytes + t.down_bytes;
  hosts = add_hosts s.hosts t.hosts;
}

unfoldable pub joined_route : Option Traffic → Traffic → Traffic
joined_route none t = t
joined_route (some s) t = record {
  up_bytes = s.up_bytes + t.up_bytes;
  down_bytes = s.down_bytes + t.down_bytes;
}

unfoldable pub join_services :
    Dict ServiceId ServiceTraffic → Dict ServiceId ServiceTraffic → Dict ServiceId ServiceTraffic
join_services all [] = all
join_services all ((id, t) ∷ rest) = join_services (put id (joined_service (get id all) t) all) rest

unfoldable pub join_routes : Dict Route Traffic → Dict Route Traffic → Dict Route Traffic
join_routes all [] = all
join_routes all ((route, t) ∷ rest) =
    join_routes (put route (joined_route (get route all) t) all) rest

-- What the loop over the rows adds up.
pub record Combined : Type 0 where
  pub kernel : Traffic
  pub observed_ms : ℕ
  pub observed_bytes : ℕ
  pub unattributed_bytes : ℕ
  pub shares : Attributed

abbrev pub nothing : Combined
nothing = record {
  kernel = record { up_bytes = 0; down_bytes = 0 };
  observed_ms = 0;
  observed_bytes = 0;
  unattributed_bytes = 0;
  shares = record { services = []; routes = [] };
}

unfoldable pub add_row : Combined → MihomoSample → Combined
add_row c s = record {
  kernel = record {
    up_bytes = c.kernel.up_bytes + s.kernel.up_bytes;
    down_bytes = c.kernel.down_bytes + s.kernel.down_bytes;
  };
  observed_ms = c.observed_ms + s.observed_ms;
  observed_bytes = c.observed_bytes + s.observed_bytes;
  unattributed_bytes = c.unattributed_bytes + s.unattributed_bytes;
  shares = record {
    services = join_services c.shares.services s.services;
    routes = join_routes c.shares.routes s.routes;
  };
}

-- The rows added up, and the last of them.
unfoldable pub add_rows : Combined → MihomoSample → List MihomoSample → Combined × MihomoSample
add_rows c latest [] = (c, latest)
add_rows c latest (s ∷ rest) = add_rows (add_row c s) s rest

unfoldable pub combined_sample : Combined × MihomoSample → MihomoSample
combined_sample (c, latest) = record {
  epoch = latest.epoch;
  observed_ms = max c.observed_ms 1;
  kernel = c.kernel;
  cumulative = latest.cumulative;
  services = service_rows c.shares.services;
  routes = c.shares.routes;
  observed_bytes = c.observed_bytes;
  unattributed_bytes = c.unattributed_bytes;
  active_connections = latest.active_connections;
}

-- `combine_samples`: without rows it raises.
unfoldable pub combine_samples : List MihomoSample → Option MihomoSample
combine_samples [] = none
combine_samples (s ∷ rest) = some (combined_sample (add_rows (add_row nothing s) s rest))

module _ (is_address : Host → Bool) (digest : Host → String) where
  -- The polls of `collect_interval` until its deadline: each at an epoch, with a response or, where
  -- the poll raises, with none.
  unfoldable pub poll_all :
      MihomoTrafficTracker → List (ℤ × Option Response) → MihomoTrafficTracker × List MihomoSample
  poll_all t [] = (t, [])
  poll_all t ((epoch, none) ∷ rest) = poll_all t rest
  poll_all t ((epoch, some r) ∷ rest) =
      let (next, s) = apply is_address digest t r epoch in
      let (last, samples) = poll_all next rest in (last, s ∷ samples)

  -- `collect_interval`; `none` is an exception, where no poll had a response.
  unfoldable pub collect_interval :
      MihomoTrafficTracker → List (ℤ × Option Response) → MihomoTrafficTracker × Option MihomoSample
  collect_interval t polls =
      let (last, samples) = poll_all t polls in (last, combine_samples samples)

-- A sample that accounts for its bytes.
abbrev pub Accounts : MihomoSample → Type 0
Accounts s =
    AddsUp s.kernel.up_bytes s.kernel.down_bytes
      (record { services = s.services; routes = s.routes })
    × (s.observed_bytes + s.unattributed_bytes ≡ s.kernel.up_bytes + s.kernel.down_bytes)

join_services-total :
    (f : ServiceTraffic → ℕ)
    → ((found : Option ServiceTraffic) (t : ServiceTraffic)
        → f (joined_service found t) ≡ value_at f found + f t)
    → (all rows : Dict ServiceId ServiceTraffic)
    → total f (join_services all rows) ≡ total f all + total f rows
unfolding join_services
join_services-total f grows all [] = omega arith
join_services-total f grows all ((id, t) ∷ rest) = omega (
  arith,
  join_services-total f grows (put id (joined_service (get id all) t) all) rest,
  total-put f id (joined_service (get id all) t) all,
  grows (get id all) t,
)

join_routes-total :
    (f : Traffic → ℕ)
    → ((found : Option Traffic) (t : Traffic) → f (joined_route found t) ≡ value_at f found + f t)
    → (all rows : Dict Route Traffic) → total f (join_routes all rows) ≡ total f all + total f rows
unfolding join_routes
join_routes-total f grows all [] = omega arith
join_routes-total f grows all ((route, t) ∷ rest) = omega (
  arith,
  join_routes-total f grows (put route (joined_route (get route all) t) all) rest,
  total-put f route (joined_route (get route all) t) all,
  grows (get route all) t,
)

service_joins :
    (found : Option ServiceTraffic) (t : ServiceTraffic)
    → ((joined_service found t).up_bytes ≡ value_at (λ x. x.up_bytes) found + t.up_bytes)
      × ((joined_service found t).down_bytes ≡ value_at (λ x. x.down_bytes) found + t.down_bytes)
unfolding joined_service
service_joins none t = (omega arith, omega arith)
service_joins (some s) t = (refl, refl)

route_joins :
    (found : Option Traffic) (t : Traffic)
    → ((joined_route found t).up_bytes ≡ value_at (λ x. x.up_bytes) found + t.up_bytes)
      × ((joined_route found t).down_bytes ≡ value_at (λ x. x.down_bytes) found + t.down_bytes)
unfolding joined_route
route_joins none t = (omega arith, omega arith)
route_joins (some s) t = (refl, refl)

abbrev IsCombined : Combined → Type 0
IsCombined c =
    AddsUp c.kernel.up_bytes c.kernel.down_bytes c.shares
    × (c.observed_bytes + c.unattributed_bytes ≡ c.kernel.up_bytes + c.kernel.down_bytes)

add_row-IsCombined :
    (c : Combined) (s : MihomoSample) → IsCombined c → Accounts s → IsCombined (add_row c s)
unfolding add_row
add_row-IsCombined c s h a = (
  record {
    services_up = omega (
      arith,
      h.0.services_up,
      a.0.services_up,
      join_services-total (λ x. x.up_bytes) (λ f t. (service_joins f t).0) c.shares.services
          s.services,
    );
    services_down = omega (
      arith,
      h.0.services_down,
      a.0.services_down,
      join_services-total (λ x. x.down_bytes) (λ f t. (service_joins f t).1) c.shares.services
          s.services,
    );
    routes_up = omega (
      arith,
      h.0.routes_up,
      a.0.routes_up,
      join_routes-total (λ x. x.up_bytes) (λ f t. (route_joins f t).0) c.shares.routes s.routes,
    );
    routes_down = omega (
      arith,
      h.0.routes_down,
      a.0.routes_down,
      join_routes-total (λ x. x.down_bytes) (λ f t. (route_joins f t).1) c.shares.routes s.routes,
    );
  },
  omega (arith, h.1, a.1),
)

add_rows-Accounts :
    (c : Combined) (latest : MihomoSample) (rows : List MihomoSample)
    → IsCombined c
    → All Accounts rows
    → Accounts (combined_sample (add_rows c latest rows))
unfolding add_rows combined_sample
add_rows-Accounts c latest [] h a = (
  record {
    services_up =
        total-service_rows (λ x. x.up_bytes) (λ x hosts. refl) c.shares.services ∙ h.0.services_up;
    services_down =
        total-service_rows (λ x. x.down_bytes) (λ x hosts. refl) c.shares.services
        ∙ h.0.services_down;
    routes_up = h.0.routes_up;
    routes_down = h.0.routes_down;
  },
  h.1,
)
add_rows-Accounts c latest (s ∷ rest) h a =
    add_rows-Accounts (add_row c s) s rest (add_row-IsCombined c s h a.0) a.1

none_yet : IsCombined nothing
none_yet = (
  record { services_up = refl; services_down = refl; routes_up = refl; routes_down = refl },
  refl,
)

combined-Accounts :
    (rows : List MihomoSample) (s : MihomoSample)
    → All Accounts rows
    → combine_samples rows ≡ some s
    → Accounts s
unfolding combine_samples add_row
combined-Accounts [] s a h = absurd (ground (arith, h))
combined-Accounts (x ∷ rest) s a h =
    let e : combined_sample (add_rows (add_row nothing x) x rest) ≡ s = ground (arith, h) in
    subst Accounts e
      (add_rows-Accounts (add_row nothing x) x rest (add_row-IsCombined nothing x none_yet a.0) a.1)

abbrev pub has_response : ℤ × Option Response → Bool
has_response (epoch, none) = false
has_response (epoch, some r) = true

module _ (is_address : Host → Bool) (digest : Host → String) where
  poll_all-Accounts :
      (t : MihomoTrafficTracker) (polls : List (ℤ × Option Response))
      → All Accounts (poll_all is_address digest t polls).1
  unfolding poll_all
  poll_all-Accounts t [] = tt
  poll_all-Accounts t ((epoch, none) ∷ rest) = poll_all-Accounts t rest
  poll_all-Accounts t ((epoch, some r) ∷ rest) = (
    apply-AddsUp is_address digest t r epoch,
    poll_all-Accounts (apply is_address digest t r epoch).0 rest,
  )

  -- The sample of an interval accounts for the bytes that its polls counted: whatever polls fail and
  -- whatever connections appear and close in between, over its services and over its routes the bytes
  -- add up to the core's, upwards and downwards, and so do the observed with the unattributed ones.
  pub collect_interval-Accounts :
      (t : MihomoTrafficTracker) (polls : List (ℤ × Option Response)) (s : MihomoSample)
      → (collect_interval is_address digest t polls).1 ≡ some s
      → Accounts s
  unfolding collect_interval
  collect_interval-Accounts t polls s h =
      combined-Accounts (poll_all is_address digest t polls).1 s (poll_all-Accounts t polls) h

  -- An interval ends with an exception exactly when no poll had a response.
  collect_interval_fails :
      (t : MihomoTrafficTracker) (polls : List (ℤ × Option Response))
      → ((collect_interval is_address digest t polls).1 ≡ none) ↔ (any has_response polls ≡ false)
  unfolding collect_interval combine_samples poll_all
  collect_interval_fails t [] = ground arith
  collect_interval_fails t ((epoch, none) ∷ rest) = collect_interval_fails t rest
  collect_interval_fails t ((epoch, some r) ∷ rest) = ground arith
