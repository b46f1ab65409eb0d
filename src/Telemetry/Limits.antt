-- ===== src/Telemetry/Limits.antt =====
-- What bounds the state, and what a repeated event does.
use infra_sentinel.Prelude.{
  ℕ, suc, ◌+◌, ◌-◌, ◌≤◌, ◌≡◌, inl, inr, refl, ap, ◌∙◌, String, str_eq, eq_iff, Bool, true, not,
  Option, none, some, List, [], ◌∷◌, ◌++◌, ltb, any, length, arith, Bool-cases, length-append,
  length-select,
}
use infra_sentinel.Prelude.Dict.{Dict, Eq, get, put, remove, string_eq}
use infra_sentinel.Telemetry.{
  Kind, start, failed, complete, RequestEvent, PerformanceSample, StreamKey, Stream, TelemetryState,
  stream_key_eq, max_seen, max_streams, max_models, key_of, remember, stream_of, late_event,
  keep_sample, drop_completed, complete_event, evict, touch, timely_event, record_event,
  record_events, expire, forget, limit_models, record_batch,
}

pub record IsBounded (s : TelemetryState) : Type 0 where
  pub few_seen : length s.seen ≤ max_seen
  pub few_streams : length s.streams ≤ max_streams

module _ {ℓ κ} {K : Type ℓ} {V : Type κ} ⦃e : Eq K⦄ where
  length-remove : (k : K) (m : Dict K V) → length (remove k m) ≤ length m
  unfolding remove
  length-remove k [] = omega arith
  length-remove k ((j, v) ∷ m) = ground (arith, length-remove k m)

  length-put : (k : K) (v w : V) (m : Dict K V) → get k m ≡ some w → length (put k v m) ≡ length m
  unfolding put get
  length-put k v w [] h = cc
  length-put k v w ((j, x) ∷ m) h = elim (Bool-cases (e.beq j k)) [
    | inl same ↦ rw same refl
    | inr other ↦ rw other (ap suc (length-put k v w m (rw other at h)))
  ]

remember_bounded :
    (d : String) (seen : List String) → length seen ≤ max_seen → length (remember d seen) ≤ max_seen
unfolding remember
remember_bounded d [] h = omega arith
remember_bounded d (x ∷ seen) h = ground (arith, length-append seen (d ∷ []), h)

evict_bounded :
    (s : TelemetryState)
    → length s.streams ≤ suc max_streams
    → length (evict s).streams ≤ max_streams
unfolding evict
evict_bounded s h = ground (arith, h)

evict_seen : (s : TelemetryState) → (evict s).seen ≡ s.seen
unfolding evict
evict_seen s = ground arith

touch-IsBounded :
    (s : TelemetryState) (key : StreamKey) (stream : Stream)
    → IsBounded s
    → IsBounded (touch s key stream)
unfolding touch
touch-IsBounded s key stream h =
    let streams = remove key s.streams ++ ((key, stream) ∷ []) in
    let few = length-remove key s.streams in
    let grown = length-append (remove key s.streams) ((key, stream) ∷ []) in
    let moved = record s { streams = streams } in
    record {
      few_seen = omega (arith, h.few_seen, ap length (evict_seen moved));
      few_streams = evict_bounded moved (omega (arith, few, grown, h.few_streams));
    }

complete_kept :
    (s : TelemetryState) (e : RequestEvent) (pending : Option RequestEvent) (ambiguous : Bool)
    → let t = complete_event s e pending ambiguous in (t.seen ≡ s.seen) × (t.streams ≡ s.streams)
unfolding complete_event keep_sample drop_completed
complete_kept s e pending ambiguous = ground arith

timely-IsBounded :
    (s : TelemetryState) (e : RequestEvent) (kind : Kind) (stream : Stream)
    → IsBounded s
    → IsBounded (timely_event s e kind stream)
unfolding timely_event
timely-IsBounded s e start stream h = touch-IsBounded s (key_of e) _ h
timely-IsBounded s e failed stream h =
    touch-IsBounded (record s { dropped = s.dropped + 1 }) (key_of e) _
      (record { few_seen = h.few_seen; few_streams = h.few_streams })
timely-IsBounded s e complete stream h =
    let kept = complete_kept s e stream.pending stream.ambiguous in
    touch-IsBounded (complete_event s e stream.pending stream.ambiguous) (key_of e) _ (record {
      few_seen = omega (arith, h.few_seen, ap length kept.0);
      few_streams = omega (arith, h.few_streams, ap length kept.1);
    })

late-IsBounded :
    (s : TelemetryState) (e : RequestEvent) (found : Option Stream)
    → get (key_of e) s.streams ≡ found
    → ltb e.epoch (stream_of found).epoch ≡ true
    → IsBounded s
    → IsBounded (late_event s e (stream_of found))
unfolding late_event
late-IsBounded s e none g late h = ground (arith, late)
late-IsBounded s e (some stream) g late h = record {
  few_seen = h.few_seen;
  few_streams = omega (
    arith,
    h.few_streams,
    length-put (key_of e) (record { epoch = stream.epoch; pending = none; ambiguous = true }) stream
        s.streams g,
  );
}

forget-IsBounded :
    (digest : RequestEvent → String) (s : TelemetryState) (gone : List (String × PerformanceSample))
    → IsBounded s
    → IsBounded (forget digest s gone)
unfolding forget
forget-IsBounded digest s [] h = h
forget-IsBounded digest s ((model, sample) ∷ rest) h =
    forget-IsBounded digest
      (record s { samples = remove model s.samples; origins = remove model s.origins }) rest
      (record { few_seen = h.few_seen; few_streams = h.few_streams })

limit_models-IsBounded :
    (digest : RequestEvent → String) (s : TelemetryState)
    → IsBounded s
    → IsBounded (limit_models digest s)
unfolding limit_models
limit_models-IsBounded digest s h = elim (Bool-cases (ltb max_models (length s.samples))) [
  | inl many ↦ rw many (forget-IsBounded digest s _ h)
  | inr few ↦ rw few h
]

any_append :
    (test : String → Bool) (xs : List String) (x : String)
    → test x ≡ true
    → any test (xs ++ (x ∷ [])) ≡ true
any_append test [] x h = ground (arith, h)
any_append test (y ∷ xs) x h = ground (arith, h, any_append test xs x h)

remembers : (d : String) (seen : List String) → any (str_eq d) (remember d seen) ≡ true
unfolding remember
remembers d [] = ground (arith, eq_iff d d)
remembers d (x ∷ seen) = ground (
  arith,
  any_append (str_eq d) seen d ((eq_iff d d).1 refl),
  any_append (str_eq d) (x ∷ seen) d ((eq_iff d d).1 refl),
)

timely_seen :
    (s : TelemetryState) (e : RequestEvent) (kind : Kind) (stream : Stream)
    → (timely_event s e kind stream).seen ≡ s.seen
unfolding timely_event touch
timely_seen s e start stream = evict_seen _
timely_seen s e failed stream = evict_seen _
timely_seen s e complete stream =
    evict_seen _ ∙ (complete_kept s e stream.pending stream.ambiguous).0

module _ (digest : RequestEvent → String) where
  record_event-IsBounded :
      (s : TelemetryState) (e : RequestEvent) → IsBounded s → IsBounded (record_event digest s e)
  unfolding record_event
  record_event-IsBounded s e h =
      let stream = stream_of (get (key_of e) s.streams) in
      let known = record s { seen = remember (digest e) s.seen } in
      let bounded : IsBounded known = record {
        few_seen = remember_bounded (digest e) s.seen h.few_seen;
        few_streams = h.few_streams;
      } in
      elim (Bool-cases (any (str_eq (digest e)) s.seen)) [
        | inl again ↦ rw again h
        | inr new ↦ rw new (elim (Bool-cases (ltb e.epoch stream.epoch)) [
          | inl late ↦ rw late (late-IsBounded known e (get (key_of e) s.streams) refl late bounded)
          | inr timely ↦ rw timely (timely-IsBounded known e e.kind stream bounded)
        ])
      ]

  record_events-IsBounded :
      (s : TelemetryState) (events : List RequestEvent)
      → IsBounded s
      → IsBounded (record_events digest s events)
  unfolding record_events
  record_events-IsBounded s [] h = h
  record_events-IsBounded s (e ∷ rest) h =
      record_events-IsBounded (record_event digest s e) rest (record_event-IsBounded s e h)

  -- A batch of any events, however many, keeps the state within its limits: at most 4096 digests of
  -- past events and at most 256 streams.
  pub record_batch-IsBounded :
      (s : TelemetryState) (now : ℕ) (events : List RequestEvent) (records size : ℕ)
      → IsBounded s
      → IsBounded (record_batch digest s now events records size)
  unfolding record_batch expire limit_models
  record_batch-IsBounded s now events records size h =
      let counted = record s {
        received = s.received + length events;
        ignored = s.ignored + (records - length events);
        bytes = s.bytes + size;
      } in
      let after = record_events digest (expire digest counted now) events in
      let started : IsBounded (expire digest counted now) = record {
        few_seen = h.few_seen;
        few_streams = omega (
          arith,
          h.few_streams,
          length-select (λ x. not (ltb (x.1.epoch + 3600000) now)) s.streams,
        );
      } in
      let bounded = record_events-IsBounded (expire digest counted now) events started in
      limit_models-IsBounded digest after bounded

  skips_seen :
      (s : TelemetryState) (e : RequestEvent)
      → any (str_eq (digest e)) s.seen ≡ true
      → record_event digest s e ≡ s
  unfolding record_event
  skips_seen s e again = rw again refl

  sees :
      (s : TelemetryState) (e : RequestEvent)
      → any (str_eq (digest e)) (record_event digest s e).seen ≡ true
  unfolding record_event late_event
  sees s e =
      let stream = stream_of (get (key_of e) s.streams) in
      let known = record s { seen = remember (digest e) s.seen } in
      let now_seen = remembers (digest e) s.seen in
      elim (Bool-cases (any (str_eq (digest e)) s.seen)) [
        | inl again ↦ rw again again
        | inr new ↦ rw new (elim (Bool-cases (ltb e.epoch stream.epoch)) [
          | inl late ↦ rw late now_seen
          | inr timely ↦
              rw timely
                (ap (any (str_eq (digest e))) (timely_seen known e e.kind stream) ∙ now_seen)
        ])
      ]

  -- An event that comes a second time directly after the first changes nothing at all.
  pub record_event_again :
      (s : TelemetryState) (e : RequestEvent)
      → record_event digest (record_event digest s e) e ≡ record_event digest s e
  record_event_again s e = skips_seen (record_event digest s e) e (sees s e)
