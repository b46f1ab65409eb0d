-- ===== src/Mihomo/Totals.antt =====
-- The bytes that are attributed are those that the core counted.
use infra_sentinel.Prelude.{
  ℕ, ◌+◌, ◌≡◌, ◌≢◌, refl, ap, ◌∙◌, subst, Option, none, some, List, [], ◌∷◌, length, map, All,
  arith, ◌==◌, ◌&&◌, Bool-cases, inl, inr,
}
pub use infra_sentinel.Prelude.Sums.{total, value_at, total-put}
use infra_sentinel.Prelude.Sums.{total-sort}
use infra_sentinel.Prelude.Dict.{Dict, get, get-put}
use infra_sentinel.Prelude.Sort.{sort}
use infra_sentinel.Mihomo.Scaling.{sum}
use infra_sentinel.Mihomo.Hosts.{Host, codes, ServiceId, unattributed, residual}
use infra_sentinel.Mihomo.Attribution.{
  Traffic, Observed, ServiceTraffic, Attributed, service_id_instance, route_instance,
  service_id_eq_iff, route_eq_iff, grown_service, grown_route, attribute_one, attribute_all,
  add_residual, service_rows, text_before, sorted_hosts,
}

module _ (f : ServiceTraffic → ℕ)
    (same : (t : ServiceTraffic) (hosts : List Host) → f (record t { hosts = hosts }) ≡ f t) where
  total-sorted_hosts :
      (rows : Dict ServiceId ServiceTraffic) → total f (map sorted_hosts rows) ≡ total f rows
  total-sorted_hosts [] = refl
  total-sorted_hosts ((id, t) ∷ rows) =
      omega (arith, same t (sort text_before t.hosts), total-sorted_hosts rows)

  -- The rows of the services have the bytes of the services.
  pub total-service_rows :
      (services : Dict ServiceId ServiceTraffic)
      → total f (service_rows services) ≡ total f services
  unfolding service_rows
  total-service_rows services = total-sort f _ _ ∙ total-sorted_hosts services

service_grows :
    (found : Option ServiceTraffic) (o : Observed) (up down : ℕ)
    → ((grown_service found o up down).up_bytes ≡ value_at (λ t. t.up_bytes) found + up)
      × ((grown_service found o up down).down_bytes ≡ value_at (λ t. t.down_bytes) found + down)
unfolding grown_service
service_grows none o up down = (omega arith, omega arith)
service_grows (some t) o up down = (refl, refl)

route_grows :
    (found : Option Traffic) (up down : ℕ)
    → ((grown_route found up down).up_bytes ≡ value_at (λ t. t.up_bytes) found + up)
      × ((grown_route found up down).down_bytes ≡ value_at (λ t. t.down_bytes) found + down)
unfolding grown_route
route_grows none up down = (omega arith, omega arith)
route_grows (some t) up down = (refl, refl)

-- What is attributed comes to `up` and `down`, over the services and over the routes.
pub record AddsUp (up down : ℕ) (a : Attributed) : Type 0 where
  pub services_up : total (λ (t : ServiceTraffic). t.up_bytes) a.services ≡ up
  pub services_down : total (λ (t : ServiceTraffic). t.down_bytes) a.services ≡ down
  pub routes_up : total (λ (t : Traffic). t.up_bytes) a.routes ≡ up
  pub routes_down : total (λ (t : Traffic). t.down_bytes) a.routes ≡ down

-- Nothing is under the names of the residual yet.
pub record IsOpen (a : Attributed) : Type 0 where
  pub service : get unattributed a.services ≡ none
  pub route : get residual a.routes ≡ some (record { up_bytes = 0; down_bytes = 0 })

abbrev pub IsAttributable : Observed → Type 0
IsAttributable o = (o.service.id ≢ unattributed) × (o.route ≢ residual)

attribute_one-AddsUp :
    (a : Attributed) (o : Observed) (up down u d : ℕ)
    → AddsUp up down a
    → AddsUp (up + u) (down + d) (attribute_one a o u d)
unfolding attribute_one
attribute_one-AddsUp a o up down u d h =
    let s = get o.service.id a.services in
    let r = get o.route a.routes in
    let (su, sd) = service_grows s o u d in
    let (ru, rd) = route_grows r u d in
    record {
      services_up = omega (
        arith,
        su,
        h.services_up,
        total-put (λ (t : ServiceTraffic). t.up_bytes) o.service.id (grown_service s o u d)
            a.services,
      );
      services_down = omega (
        arith,
        sd,
        h.services_down,
        total-put (λ (t : ServiceTraffic). t.down_bytes) o.service.id (grown_service s o u d)
            a.services,
      );
      routes_up = omega (
        arith,
        ru,
        h.routes_up,
        total-put (λ (t : Traffic). t.up_bytes) o.route (grown_route r u d) a.routes,
      );
      routes_down = omega (
        arith,
        rd,
        h.routes_down,
        total-put (λ (t : Traffic). t.down_bytes) o.route (grown_route r u d) a.routes,
      );
    }

attribute_one-IsOpen :
    (a : Attributed) (o : Observed) (u d : ℕ)
    → IsAttributable o
    → IsOpen a
    → IsOpen (attribute_one a o u d)
unfolding attribute_one
attribute_one-IsOpen a o u d n h = record {
  service = ground (
    arith,
    get-put o.service.id unattributed (grown_service (get o.service.id a.services) o u d)
        a.services,
    service_id_eq_iff o.service.id unattributed,
    n.0,
    h.service,
  );
  route = ground (
    arith,
    get-put o.route residual (grown_route (get o.route a.routes) u d) a.routes,
    route_eq_iff o.route residual,
    n.1,
    h.route,
  );
}

pub attribute_all-AddsUp :
    (a : Attributed) (up down n : ℕ) (seen : List Observed) (ups downs : List ℕ)
    → length seen ≡ n
    → length ups ≡ n
    → length downs ≡ n
    → All IsAttributable seen
    → AddsUp up down a
    → IsOpen a
    → AddsUp (up + sum ups) (down + sum downs) (attribute_all a seen ups downs)
      × IsOpen (attribute_all a seen ups downs)
unfolding attribute_all
attribute_all-AddsUp a up down n [] [] [] e f g n' h o = (ground (arith, h), o)
attribute_all-AddsUp a up down n [] (u ∷ us) downs e f g n' h o = absurd (omega (arith, e, f))
attribute_all-AddsUp a up down n [] [] (d ∷ ds) e f g n' h o = absurd (omega (arith, e, g))
attribute_all-AddsUp a up down n (x ∷ seen) [] downs e f g n' h o = absurd (omega (arith, e, f))
attribute_all-AddsUp a up down n (x ∷ seen) (u ∷ us) [] e f g n' h o = absurd (omega (arith, e, g))
attribute_all-AddsUp a up down n (x ∷ seen) (u ∷ us) (d ∷ ds) e f g n' h o =
    let later =
      attribute_all-AddsUp (attribute_one a x u d) (up + u) (down + d) (length seen) seen us ds refl
        (omega (arith, e, f)) (omega (arith, e, g)) n'.1 (attribute_one-AddsUp a x up down u d h)
        (attribute_one-IsOpen a x u d n'.0 o) in
    (
      subst
          (λ (t : ℕ).
            AddsUp t (down + (d + sum ds)) (attribute_all (attribute_one a x u d) seen us ds))
          (omega arith)
          (subst
            (λ (t : ℕ).
              AddsUp (up + u + sum us) t (attribute_all (attribute_one a x u d) seen us ds))
            (omega arith) later.0),
      later.1,
    )

pub add_residual-AddsUp :
    (a : Attributed) (up down u d : ℕ)
    → AddsUp up down a
    → IsOpen a
    → AddsUp (up + u) (down + d) (add_residual a u d)
unfolding add_residual
add_residual-AddsUp a up down u d h o = elim (Bool-cases (u == 0 && d == 0)) [
  | inl nothing ↦ rw nothing (ground (arith, nothing, h))
  | inr some_left ↦ rw some_left (record {
    services_up = omega (
      arith,
      h.services_up,
      ap (value_at (λ (t : ServiceTraffic). t.up_bytes)) o.service,
      total-put (λ (t : ServiceTraffic). t.up_bytes) unattributed
          (record { label = codes "Unattributed"; up_bytes = u; down_bytes = d; hosts = [] })
          a.services,
    );
    services_down = omega (
      arith,
      h.services_down,
      ap (value_at (λ (t : ServiceTraffic). t.down_bytes)) o.service,
      total-put (λ (t : ServiceTraffic). t.down_bytes) unattributed
          (record { label = codes "Unattributed"; up_bytes = u; down_bytes = d; hosts = [] })
          a.services,
    );
    routes_up = omega (
      arith,
      h.routes_up,
      ap (value_at (λ (t : Traffic). t.up_bytes)) o.route,
      total-put (λ (t : Traffic). t.up_bytes) residual (record { up_bytes = u; down_bytes = d })
          a.routes,
    );
    routes_down = omega (
      arith,
      h.routes_down,
      ap (value_at (λ (t : Traffic). t.down_bytes)) o.route,
      total-put (λ (t : Traffic). t.down_bytes) residual (record { up_bytes = u; down_bytes = d })
          a.routes,
    );
  })
]
