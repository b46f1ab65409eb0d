-- ===== src/Mihomo/Conservation.antt =====
-- A sample accounts for the bytes that the core counted, and for nothing else.
use infra_sentinel.Prelude.{
  ℕ, ◌+◌, ◌-◌, ◌≡◌, ◌≢◌, refl, ◌∙◌, subst, String, Bool, ◌&&◌, ◌||◌, List, [], ◌∷◌, length, map,
  All, arith, ◌==◌, str_eq, any, Bool-cases, inl, inr, length-map,
}
use infra_sentinel.Prelude.Int.{ℤ}
use infra_sentinel.Prelude.Dict.{Dict, get, string_eq}
use infra_sentinel.Mihomo.{
  Host, unattributed, residual, Connection, Response, MihomoTrafficTracker, Traffic, Observed,
  ServiceTraffic, no_attribution, scaled, sum, classify_host, classify_route, connection_delta,
  observed, attributed, apply, counters_ready, add_residual, attribute_all, service_id_instance,
  route_instance,
}
use infra_sentinel.Mihomo.Scaling.{scaled-sum}
use infra_sentinel.Mihomo.Hosts.{
  Known, known_services, Service, find_known, host_matches, classify_normal, classify_named,
  normalize,
}
use infra_sentinel.Mihomo.Totals.{
  AddsUp, IsAttributable, attribute_all-AddsUp, add_residual-AddsUp, total-service_rows,
}

find_known_id :
    (host : Host) (ks : List Known) (other : Service)
    → other.id ≢ unattributed
    → (find_known host ks other).id ≢ unattributed
unfolding find_known
find_known_id host [] other h = h
find_known_id host (k ∷ rest) other h = elim (Bool-cases (any (host_matches host) k.suffixes)) [
  | inl e ↦ rw e (ground arith)
  | inr e ↦ rw e (find_known_id host rest other h)
]

classify_normal_id :
    (is_address : Host → Bool) (digest : Host → String) (host : Host)
    → (classify_normal is_address digest host).id ≢ unattributed
unfolding classify_normal classify_named
classify_normal_id is_address digest [] = ground arith
classify_normal_id is_address digest (x ∷ xs) =
    find_known_id (x ∷ xs) known_services _ (ground arith)

classify_host_id :
    (is_address : Host → Bool) (digest : Host → String) (host : Host)
    → (classify_host is_address digest host).id ≢ unattributed
unfolding classify_host
classify_host_id is_address digest host = classify_normal_id is_address digest (normalize host)

classify_route_id : (chains : List Host) → classify_route chains ≢ residual
unfolding classify_route
classify_route_id [] = ground arith
classify_route_id (c ∷ cs) = ground arith

module _ (is_address : Host → Bool) (digest : Host → String) where
  observed-IsAttributable :
      (ready : Bool) (previous : Dict String Traffic) (cs : List Connection)
      → All IsAttributable (observed is_address digest ready previous cs)
  unfolding observed
  observed-IsAttributable ready previous [] = tt
  observed-IsAttributable ready previous (c ∷ rest) =
      let later = observed-IsAttributable ready previous rest in
      let delta = connection_delta ready (get c.id previous) c in
      elim (Bool-cases (str_eq c.id "" || (delta.up_bytes == 0 && delta.down_bytes == 0))) [
        | inl skipped ↦ rw skipped later
        | inr seen ↦
            rw seen ((classify_host_id is_address digest c.host, classify_route_id c.chains), later)
      ]

  -- `a` bytes of which at most `a` are scaled, and the rest.
  split : (values : List ℕ) (a : ℕ) → sum (scaled values a) + (a - sum (scaled values a)) ≡ a
  split values a = omega (arith, (scaled-sum values a).0)

  attributed-AddsUp :
      (up down : ℕ) (seen : List Observed)
      → All IsAttributable seen
      → AddsUp up down (attributed is_address digest up down seen)
  unfolding attributed get
  attributed-AddsUp up down seen h =
      let all_up = map (λ (o : Observed). o.up_bytes) seen in
      let all_down = map (λ (o : Observed). o.down_bytes) seen in
      let ups = scaled all_up up in
      let downs = scaled all_down down in
      let a = attribute_all no_attribution seen ups downs in
      let (shared, fresh) =
        attribute_all-AddsUp no_attribution 0 0 (length seen) seen ups downs refl
          ((scaled-sum all_up up).1 ∙ length-map (λ (o : Observed). o.up_bytes) seen)
          ((scaled-sum all_down down).1 ∙ length-map (λ (o : Observed). o.down_bytes) seen) h
          (record {
            services_up = refl;
            services_down = refl;
            routes_up = refl;
            routes_down = refl;
          })
          (record { service = refl; route = refl }) in
      subst (λ t. AddsUp t down (add_residual a (up - sum ups) (down - sum downs)))
        (omega (arith, split all_up up))
        (subst
          (λ t.
            AddsUp (0 + sum ups + (up - sum ups)) t
              (add_residual a (up - sum ups) (down - sum downs)))
          (omega (arith, split all_down down))
          (add_residual-AddsUp a (0 + sum ups) (0 + sum downs) (up - sum ups) (down - sum downs)
            shared fresh))

  -- Every sample accounts for what the core counted since the one before, whatever the connections
  -- show: over its services, and over its routes, the bytes add up to the core's, upwards and downwards,
  -- and so do the observed bytes with the unattributed ones.
  pub apply-AddsUp :
      (t : MihomoTrafficTracker) (r : Response) (epoch : ℤ)
      → let s = (apply is_address digest t r epoch).1 in
        AddsUp s.kernel.up_bytes s.kernel.down_bytes
          (record { services = s.services; routes = s.routes })
        × (s.observed_bytes + s.unattributed_bytes ≡ s.kernel.up_bytes + s.kernel.down_bytes)
  unfolding apply
  apply-AddsUp t r epoch =
      let s = (apply is_address digest t r epoch).1 in
      let ready = counters_ready t.previous_up t.previous_down r in
      let seen = observed is_address digest ready t.previous_connections r.connections in
      let h =
        attributed-AddsUp s.kernel.up_bytes s.kernel.down_bytes seen
          (observed-IsAttributable ready t.previous_connections r.connections) in
      (
        record {
          services_up =
              total-service_rows (λ (x : ServiceTraffic). x.up_bytes) (λ x hosts. refl) _
              ∙ h.services_up;
          services_down =
              total-service_rows (λ (x : ServiceTraffic). x.down_bytes) (λ x hosts. refl) _
              ∙ h.services_down;
          routes_up = h.routes_up;
          routes_down = h.routes_down;
        },
        omega (
          arith,
          split (map (λ (o : Observed). o.up_bytes) seen) s.kernel.up_bytes,
          split (map (λ (o : Observed). o.down_bytes) seen) s.kernel.down_bytes,
        ),
      )
