-- ===== src/Telemetry.antt =====
-- src/infra_sentinel/resources/ai/codex_telemetry/state.py: the pairing of request events into
-- performance samples. Times are whole milliseconds, and the digest of an event is an argument. The
-- methods run under one lock: a batch is a step. The checkpoint file is left out.
pub mod Pairing
pub mod Limits
pub mod Late
mod Tests
use infra_sentinel.Prelude.{
  ℕ, ◌+◌, ◌-◌, ◌≡◌, ◌↔◌, String, str_eq, eq_iff, Bool, true, false, ◌&&◌, ◌||◌, not, Option, none,
  some, List, [], ◌∷◌, ◌++◌, ltb, leb, length, take, drop, select, any, is_some, if◌then◌else◌,
  arith,
}
use infra_sentinel.Prelude.Dict.{Eq, Dict, get, put, remove, string_eq}
use infra_sentinel.Prelude.Sort.{sort}

pub data Kind : Type 0 where
  start failed complete : Kind

pub record RequestEvent : Type 0 where
  pub kind : Kind
  pub session : String
  pub model : String
  pub epoch : ℕ
  pub duration_ms : ℕ
  pub output_tokens : Option ℕ
  pub first_token_ms : Option ℕ

pub record PerformanceSample : Type 0 where
  pub recorded_epoch : ℕ
  pub model : String
  pub output_tokens : ℕ
  pub duration_ms : ℕ
  pub first_token_ms : Option ℕ

pub record StreamKey : Type 0 where
  pub session : String
  pub model : String

abbrev pub keys_equal : StreamKey → StreamKey → Bool
keys_equal a b = str_eq a.session b.session && str_eq a.model b.model

pub keys_equal_iff : (a b : StreamKey) → (keys_equal a b ≡ true) ↔ (a ≡ b)
keys_equal_iff a b = ground (arith, eq_iff a.session b.session, eq_iff a.model b.model)

instance abbrev pub stream_key_eq : Eq StreamKey
stream_key_eq = record { beq = keys_equal; beq_iff = keys_equal_iff }

-- The last event's epoch, the start that waits for its completion, and whether it is ambiguous.
pub record Stream : Type 0 where
  pub epoch : ℕ
  pub pending : Option RequestEvent
  pub ambiguous : Bool

pub record TelemetryState : Type 0 where
  pub streams : Dict StreamKey Stream
  pub seen : List String
  pub samples : Dict String PerformanceSample
  pub origins : Dict String StreamKey
  pub dirty : Bool
  pub received : ℕ
  pub ignored : ℕ
  pub matched : ℕ
  pub dropped : ℕ
  pub rejected : ℕ
  pub bytes : ℕ

abbrev pub max_streams : ℕ
max_streams = 256

abbrev pub max_seen : ℕ
max_seen = 4096

abbrev pub max_models : ℕ
max_models = 64

abbrev pub max_duration_ms : ℕ
max_duration_ms = 3600000

abbrev pub key_of : RequestEvent → StreamKey
key_of e = record { session = e.session; model = e.model }

-- The set of digests after a new one: the oldest leaves when there are too many.
unfoldable pub remember : String → List String → List String
remember digest seen =
    let grown = seen ++ (digest ∷ []) in if ltb max_seen (length grown) then drop 1 grown else grown

-- `self._streams.get(key, (0, None, False))`
abbrev pub stream_of : Option Stream → Stream
stream_of none = record { epoch = 0; pending = none; ambiguous = false }
stream_of (some stream) = stream

abbrev is_origin : Option StreamKey → StreamKey → Bool
is_origin none key = false
is_origin (some origin) key = keys_equal origin key

-- An event that is older than its stream's last one.
unfoldable pub late_event : TelemetryState → RequestEvent → Stream → TelemetryState
late_event s e stream =
    let own = is_origin (get e.model s.origins) (key_of e) in
    record s {
      dropped = s.dropped + 1;
      streams =
          put (key_of e) (record { epoch = stream.epoch; pending = none; ambiguous = true })
            s.streams;
      samples = if own then remove e.model s.samples else s.samples;
      origins = if own then remove e.model s.origins else s.origins;
      dirty = own || s.dirty;
    }

-- The time between a start and its completion, with the time before the start that it reports.
abbrev pub elapsed : RequestEvent → RequestEvent → ℕ
elapsed begun e = e.epoch + begun.duration_ms - begun.epoch

abbrev pub tokens_of : Option ℕ → ℕ
tokens_of none = 0
tokens_of (some n) = n

abbrev first_within : Option ℕ → ℕ → Option ℕ
first_within none limit = none
first_within (some first) limit = if leb first limit then some first else none

unfoldable pub sample_of : RequestEvent → RequestEvent → PerformanceSample
sample_of begun e = record {
  recorded_epoch = e.epoch;
  model = e.model;
  output_tokens = tokens_of e.output_tokens;
  duration_ms = elapsed begun e;
  first_token_ms = first_within e.first_token_ms (elapsed begun e);
}

abbrev pub is_newer : PerformanceSample → Option PerformanceSample → Bool
is_newer sample none = true
is_newer sample (some old) = ltb old.recorded_epoch sample.recorded_epoch

unfoldable pub keep_sample : TelemetryState → RequestEvent → PerformanceSample → TelemetryState
keep_sample s e sample =
    if is_newer sample (get e.model s.samples)
    then record s {
      samples = put e.model sample s.samples;
      origins = put e.model (key_of e) s.origins;
      dirty = true;
      matched = s.matched + 1;
    }
    else s

-- A completed request without a sample counts as dropped when it has tokens.
unfoldable pub drop_completed : TelemetryState → RequestEvent → TelemetryState
drop_completed s e =
    if ltb 0 (tokens_of e.output_tokens) then record s { dropped = s.dropped + 1 } else s

abbrev pub is_usable : RequestEvent → RequestEvent → Bool → Bool
is_usable begun e ambiguous =
    not ambiguous
    && (leb 1 (elapsed begun e) && leb (elapsed begun e) max_duration_ms)
    && ltb 0 (tokens_of e.output_tokens)

unfoldable pub complete_event :
    TelemetryState → RequestEvent → Option RequestEvent → Bool → TelemetryState
complete_event s e none ambiguous = drop_completed s e
complete_event s e (some begun) ambiguous =
    if is_usable begun e ambiguous then keep_sample s e (sample_of begun e) else drop_completed s e

abbrev pending_count : Stream → ℕ
pending_count stream = if is_some stream.pending then 1 else 0

-- `popitem(last=False)` when there are too many streams: the first one leaves.
unfoldable pub evict : TelemetryState → TelemetryState
evict s = elim s.streams [
  | [] ↦ s
  | (key, oldest) ∷ rest ↦
      if ltb max_streams (length s.streams)
      then record s { streams = rest; dropped = s.dropped + pending_count oldest }
      else s
]

-- The assignment to a stream, `move_to_end` and the eviction.
unfoldable pub touch : TelemetryState → StreamKey → Stream → TelemetryState
touch s key stream = evict (record s { streams = remove key s.streams ++ ((key, stream) ∷ []) })

-- An event in its order, by its kind.
unfoldable pub timely_event : TelemetryState → RequestEvent → Kind → Stream → TelemetryState
timely_event s e start stream = touch s (key_of e) (record {
  epoch = e.epoch;
  pending = some e;
  ambiguous = is_some stream.pending || stream.ambiguous;
})
timely_event s e failed stream =
    touch (record s { dropped = s.dropped + 1 }) (key_of e)
      (record { epoch = e.epoch; pending = none; ambiguous = false })
timely_event s e complete stream =
    touch (complete_event s e stream.pending stream.ambiguous) (key_of e)
      (record { epoch = e.epoch; pending = none; ambiguous = false })

module _ (digest : RequestEvent → String) where
  -- The body of the loop over the events.
  unfoldable pub record_event : TelemetryState → RequestEvent → TelemetryState
  record_event s e =
      let stream = stream_of (get (key_of e) s.streams) in
      let known = record s { seen = remember (digest e) s.seen } in
      if any (str_eq (digest e)) s.seen
      then s
      else if ltb e.epoch stream.epoch
      then late_event known e stream
      else timely_event known e e.kind stream

  unfoldable pub record_events : TelemetryState → List RequestEvent → TelemetryState
  record_events s [] = s
  record_events s (e ∷ rest) = record_events (record_event s e) rest

  -- Streams without an event for an hour leave first.
  abbrev is_expired : ℕ → StreamKey × Stream → Bool
  is_expired now entry = ltb (entry.1.epoch + 3600000) now

  abbrev pending_total : Dict StreamKey Stream → ℕ
  pending_total [] = 0
  pending_total ((key, stream) ∷ rest) = pending_count stream + pending_total rest

  unfoldable pub expire : TelemetryState → ℕ → TelemetryState
  expire s now = record s {
    streams = select (λ entry. not (is_expired now entry)) s.streams;
    dropped = s.dropped + pending_total (select (is_expired now) s.streams);
  }

  abbrev older : String × PerformanceSample → String × PerformanceSample → Bool
  older a b = ltb a.1.recorded_epoch b.1.recorded_epoch

  unfoldable pub forget : TelemetryState → List (String × PerformanceSample) → TelemetryState
  forget s [] = s
  forget s ((model, sample) ∷ rest) =
      forget (record s { samples = remove model s.samples; origins = remove model s.origins }) rest

  -- The oldest samples beyond the limit leave.
  unfoldable pub limit_models : TelemetryState → TelemetryState
  limit_models s =
      let sorted = sort older s.samples in
      if ltb max_models (length s.samples)
      then forget s (take (length s.samples - max_models) sorted)
      else s

  -- `record_batch`
  unfoldable pub record_batch : TelemetryState → ℕ → List RequestEvent → ℕ → ℕ → TelemetryState
  record_batch s now events records size =
      let counted = record s {
        received = s.received + length events;
        ignored = s.ignored + (records - length events);
        bytes = s.bytes + size;
      } in
      limit_models (record_events (expire counted now) events)

-- `reject`
unfoldable pub reject : TelemetryState → TelemetryState
reject s = record s { rejected = s.rejected + 1 }
