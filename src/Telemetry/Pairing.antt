-- ===== src/Telemetry/Pairing.antt =====
-- Where a performance sample comes from.
use infra_sentinel.Prelude.{
  ℕ, ◌+◌, ◌≤◌, ◌<◌, ◌≡◌, ◌⊎◌, inl, inr, refl, sym, ap, ◌∙◌, String, str_eq, eq_iff, Bool, true,
  false, Option, none, some, [], ◌∷◌, ◌++◌, ltb, any, arith, Bool-cases,
}
use infra_sentinel.Prelude.Dict.{get, remove, string_eq, get-put, get-remove}
use infra_sentinel.Telemetry.{
  Kind, start, failed, complete, RequestEvent, PerformanceSample, StreamKey, Stream, TelemetryState,
  stream_key_eq, max_duration_ms, key_of, remember, stream_of, late_event, elapsed, tokens_of,
  sample_of, is_usable, keep_sample, drop_completed, complete_event, evict, touch, timely_event,
  record_event,
}

-- What makes a sample: a completion, and the start that waits in its stream.
pub record IsPair (s : TelemetryState) (e : RequestEvent) (model : String) (p : PerformanceSample)
    : Type 0 where
  pub begun : RequestEvent
  pub stream : Stream
  pub named : model ≡ e.model
  pub completed : e.kind ≡ complete
  pub found : get (key_of e) s.streams ≡ some stream
  pub waiting : stream.pending ≡ some begun
  pub single : stream.ambiguous ≡ false
  pub ordered : stream.epoch ≤ e.epoch
  pub recorded : p.recorded_epoch ≡ e.epoch
  pub timed : p.duration_ms ≡ elapsed begun e
  pub lower : 1 ≤ p.duration_ms
  pub upper : p.duration_ms ≤ max_duration_ms
  pub counted :
      (tokens : ℕ) × (e.output_tokens ≡ some tokens) × (p.output_tokens ≡ tokens) × (0 < tokens)

evict_samples : (s : TelemetryState) → (evict s).samples ≡ s.samples
unfolding evict
evict_samples s = ground arith

touch_samples :
    (s : TelemetryState) (key : StreamKey) (stream : Stream)
    → (touch s key stream).samples ≡ s.samples
unfolding touch
touch_samples s key stream =
    evict_samples (record s { streams = remove key s.streams ++ ((key, stream) ∷ []) })

late_samples :
    (s : TelemetryState) (e : RequestEvent) (stream : Stream) (model : String)
    (p : PerformanceSample)
    → get model (late_event s e stream).samples ≡ some p
    → get model s.samples ≡ some p
unfolding late_event
late_samples s e stream model p h = ground (arith, get-remove e.model model s.samples, h)

drop_samples : (s : TelemetryState) (e : RequestEvent) → (drop_completed s e).samples ≡ s.samples
unfolding drop_completed
drop_samples s e = ground arith

keep_samples :
    (s : TelemetryState) (e : RequestEvent) (q : PerformanceSample) (model : String)
    (p : PerformanceSample)
    → get model (keep_sample s e q).samples ≡ some p
    → (get model s.samples ≡ some p) ⊎ ((model ≡ e.model) × (p ≡ q))
unfolding keep_sample
keep_samples s e q model p h =
    ground (arith, get-put e.model model q s.samples, eq_iff e.model model, h)

complete_samples :
    (s : TelemetryState) (e : RequestEvent) (pending : Option RequestEvent) (ambiguous : Bool)
    (model : String) (p : PerformanceSample)
    → get model (complete_event s e pending ambiguous).samples ≡ some p
    → (get model s.samples ≡ some p)
      ⊎ ((begun : RequestEvent) × (pending ≡ some begun)
          × (is_usable begun e ambiguous ≡ true)
          × (model ≡ e.model)
          × (p ≡ sample_of begun e))
unfolding complete_event
complete_samples s e none ambiguous model p h =
    inl (sym (ap (λ m. get model m) (drop_samples s e)) ∙ h)
complete_samples s e (some begun) ambiguous model p h =
    elim (Bool-cases (is_usable begun e ambiguous)) [
      | inl usable ↦ elim (keep_samples s e (sample_of begun e) model p (rw usable at h)) [
        | inl before ↦ inl before
        | inr (named, same) ↦ inr (begun, refl, usable, named, same)
      ]
      | inr not_usable ↦ inl (sym (ap (λ m. get model m) (drop_samples s e)) ∙ rw not_usable at h)
    ]

-- The same, of an event in its order, whatever its kind.
timely_samples :
    (s : TelemetryState) (e : RequestEvent) (kind : Kind) (stream : Stream) (model : String)
    (p : PerformanceSample)
    → get model (timely_event s e kind stream).samples ≡ some p
    → (get model s.samples ≡ some p)
      ⊎ ((kind ≡ complete)
          × (begun : RequestEvent) × (stream.pending ≡ some begun)
          × (is_usable begun e stream.ambiguous ≡ true)
          × (model ≡ e.model)
          × (p ≡ sample_of begun e))
unfolding timely_event
timely_samples s e start stream model p h =
    inl (sym (ap (λ m. get model m) (touch_samples s (key_of e) _)) ∙ h)
timely_samples s e failed stream model p h = inl (
    sym (ap (λ m. get model m) (touch_samples (record s { dropped = s.dropped + 1 }) (key_of e) _))
    ∙ h)
timely_samples s e complete stream model p h =
    let done = complete_event s e stream.pending stream.ambiguous in
    let before = sym (ap (λ m. get model m) (touch_samples done (key_of e) _)) ∙ h in
    elim (complete_samples s e stream.pending stream.ambiguous model p before) [
      | inl same ↦ inl same
      | inr (begun, waiting, usable, named, same) ↦ inr (refl, begun, waiting, usable, named, same)
    ]

counted_tokens :
    (tokens : Option ℕ) {n : ℕ}
    → ltb 0 (tokens_of tokens) ≡ true
    → n ≡ tokens_of tokens
    → (count : ℕ) × (tokens ≡ some count) × (n ≡ count) × (0 < count)
counted_tokens none u h = cc
counted_tokens (some count) u h = (count, refl, h, ground (arith, u))

usable-IsPair :
    (s : TelemetryState) (e : RequestEvent) (begun : RequestEvent) (model : String)
    (p : PerformanceSample) (found : Option Stream)
    → get (key_of e) s.streams ≡ found
    → ltb e.epoch (stream_of found).epoch ≡ false
    → e.kind ≡ complete
    → (stream_of found).pending ≡ some begun
    → is_usable begun e (stream_of found).ambiguous ≡ true
    → model ≡ e.model
    → p ≡ sample_of begun e
    → IsPair s e model p
unfolding sample_of
usable-IsPair s e begun model p none g o k w u n h = cc
usable-IsPair s e begun model p (some stream) g o k w u n h = record {
  begun = begun;
  stream = stream;
  named = n;
  completed = k;
  found = g;
  waiting = w;
  single = ground (arith, u);
  ordered = ground (arith, o);
  recorded = ap (λ (x : PerformanceSample). x.recorded_epoch) h;
  timed = ap (λ (x : PerformanceSample). x.duration_ms) h;
  lower = ground (arith, u, ap (λ (x : PerformanceSample). x.duration_ms) h);
  upper = ground (arith, u, ap (λ (x : PerformanceSample). x.duration_ms) h);
  counted =
      counted_tokens e.output_tokens (ground (arith, u))
        (ap (λ (x : PerformanceSample). x.output_tokens) h);
}

module _ (digest : RequestEvent → String) (s : TelemetryState) (e : RequestEvent) where
  -- A model's sample after an event is its sample from before, or the pair of this event, as the
  -- completion, with the one start that waits in the stream of the same session and model, where no
  -- second start overlapped: its duration is from the start to the completion with the start's
  -- own time, 1 ms to an hour, and its tokens are the completion's, more than none.
  pub record_event-IsPair :
      (model : String) (p : PerformanceSample)
      → get model (record_event digest s e).samples ≡ some p
      → (get model s.samples ≡ some p) ⊎ IsPair s e model p
  unfolding record_event
  record_event-IsPair model p h =
      let stream = stream_of (get (key_of e) s.streams) in
      let known = record s { seen = remember (digest e) s.seen } in
      elim (Bool-cases (any (str_eq (digest e)) s.seen)) [
        | inl again ↦ inl (rw again at h)
        | inr new ↦
            let fresh = rw new at h in
            elim (Bool-cases (ltb e.epoch stream.epoch)) [
              | inl late ↦ inl (late_samples known e stream model p (rw late at fresh))
              | inr timely ↦
                  elim (timely_samples known e e.kind stream model p (rw timely at fresh)) [
                    | inl before ↦ inl before
                    | inr (kind, begun, waiting, usable, named, same) ↦ inr (
                        usable-IsPair s e begun model p (get (key_of e) s.streams) refl timely kind
                          waiting usable named same)
                  ]
            ]
      ]
