-- ===== src/Telemetry/Late.antt =====
-- What an event out of its order does.
use infra_sentinel.Prelude.{
  ◌+◌, ◌<◌, ◌≡◌, ◌≢◌, subst, lt→ltb, ◌⊎◌, inl, inr, refl, sym, ap, ◌∙◌, String, str_eq, eq_iff,
  true, false, none, some, ltb, any, if◌then◌else◌, arith, Bool-cases, Option-cases,
}
use infra_sentinel.Prelude.Dict.{get, string_eq, get-put, get-remove, beq_refl}
use infra_sentinel.Telemetry.{
  RequestEvent, Stream, TelemetryState, stream_key_eq, key_of, remember, late_event, record_event,
  keys_equal, keys_equal_iff,
}

late_stream :
    (s : TelemetryState) (e : RequestEvent) (stream : Stream)
    → get (key_of e) (late_event s e stream).streams
      ≡ some (record { epoch = stream.epoch; pending = none; ambiguous = true })
unfolding late_event
late_stream s e stream =
    let marked : Stream = record { epoch = stream.epoch; pending = none; ambiguous = true } in
    get-put (key_of e) (key_of e) marked s.streams
    ∙ ap (λ b. if b then some marked else get (key_of e) s.streams) (beq_refl (key_of e))

late_dropped :
    (s : TelemetryState) (e : RequestEvent) (stream : Stream)
    → (late_event s e stream).dropped ≡ s.dropped + 1
unfolding late_event
late_dropped s e stream = refl

late_sample :
    (s : TelemetryState) (e : RequestEvent) (stream : Stream)
    → (get e.model (late_event s e stream).samples ≡ none)
      ⊎ ((get e.model s.origins ≢ some (key_of e)) × ((late_event s e stream).samples ≡ s.samples))
unfolding late_event
late_sample s e stream = elim (Option-cases (get e.model s.origins)) [
  | inl gone ↦ inr (rw gone (cc, refl))
  | inr (origin, there) ↦ elim (Bool-cases (keys_equal origin (key_of e))) [
    | inl own ↦ inl (
        rw (there, own)
          (get-remove e.model e.model s.samples
            ∙ ap (λ b. if b then none else get e.model s.samples) (beq_refl e.model)))
    | inr other ↦
        inr (rw (there, other) (ground (arith, keys_equal_iff origin (key_of e), other), refl))
  ]
]

late_others :
    (s : TelemetryState) (e : RequestEvent) (stream : Stream) (other : String)
    → (other ≡ e.model) ⊎ (get other (late_event s e stream).samples ≡ get other s.samples)
unfolding late_event
late_others s e stream other =
    ground (arith, get-remove e.model other s.samples, eq_iff e.model other)

module _ (digest : RequestEvent → String) where
  takes_late :
      (s : TelemetryState) (e : RequestEvent) (stream : Stream)
      → any (str_eq (digest e)) s.seen ≡ false
      → get (key_of e) s.streams ≡ some stream
      → ltb e.epoch stream.epoch ≡ true
      → record_event digest s e
        ≡ late_event (record s { seen = remember (digest e) s.seen }) e stream
  unfolding record_event
  takes_late s e stream new found late = rw (new, found, late) refl

  abbrev LateEvent : TelemetryState → RequestEvent → Stream → String → TelemetryState → Type 0
  LateEvent s e stream other t =
      (get (key_of e) t.streams
        ≡ some (record { epoch = stream.epoch; pending = none; ambiguous = true }))
      × (t.dropped ≡ s.dropped + 1)
      × ((get e.model t.samples ≡ none)
          ⊎ ((get e.model s.origins ≢ some (key_of e)) × (t.samples ≡ s.samples)))
      × ((other ≡ e.model) ⊎ (get other t.samples ≡ get other s.samples))

  -- A new event that is older than its stream's last one leaves that stream ambiguous with nothing
  -- waiting, counts as dropped, and takes the model's sample away when it came from that stream; the
  -- samples of the other models stay.
  pub late_event_lem :
      (s : TelemetryState) (e : RequestEvent) (stream : Stream) (other : String)
      → any (str_eq (digest e)) s.seen ≡ false
      → get (key_of e) s.streams ≡ some stream
      → e.epoch < stream.epoch
      → let t = record_event digest s e in
        (get (key_of e) t.streams
          ≡ some (record { epoch = stream.epoch; pending = none; ambiguous = true }))
        × (t.dropped ≡ s.dropped + 1)
        × ((get e.model t.samples ≡ none)
            ⊎ ((get e.model s.origins ≢ some (key_of e)) × (t.samples ≡ s.samples)))
        × ((other ≡ e.model) ⊎ (get other t.samples ≡ get other s.samples))
  late_event_lem s e stream other new found late =
      let known = record s { seen = remember (digest e) s.seen } in
      let step = takes_late s e stream new found (lt→ltb e.epoch stream.epoch late) in
      subst (LateEvent s e stream other) (sym step) (
        late_stream known e stream,
        late_dropped known e stream,
        late_sample known e stream,
        late_others known e stream other,
      )
