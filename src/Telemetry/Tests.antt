-- ===== src/Telemetry/Tests.antt =====
-- Tests of the pairing: a start and its completion, and then a late event.
use infra_sentinel.Prelude.{
  ℕ, ◌+◌, ◌<◌, ◌≡◌, ◌≢◌, ◌⊎◌, refl, String, str_eq, Bool, true, false, Option, none, some, List, [],
  ◌∷◌, any, arith,
}
use infra_sentinel.Prelude.Dict.{get, string_eq}
use infra_sentinel.Telemetry.{
  Kind, start, complete, RequestEvent, PerformanceSample, Stream, TelemetryState, stream_key_eq,
  key_of, sample_of, record_event, record_events, record_batch,
}
use infra_sentinel.Telemetry.Pairing.{IsPair, record_event-IsPair}
use infra_sentinel.Telemetry.Limits.{IsBounded, record_batch-IsBounded}

abbrev empty : TelemetryState
empty = record {
  streams = [];
  seen = [];
  samples = [];
  origins = [];
  dirty = false;
  received = 0;
  ignored = 0;
  matched = 0;
  dropped = 0;
  rejected = 0;
  bytes = 0;
}

abbrev event : Kind → ℕ → Option ℕ → RequestEvent
event kind epoch tokens = record {
  kind = kind;
  session = "s";
  model = "m";
  epoch = epoch;
  duration_ms = 20;
  output_tokens = tokens;
  first_token_ms = none;
}

abbrev begun : RequestEvent
begun = event start 5000 none

abbrev done : RequestEvent
done = event complete 6000 (some 42)

abbrev digest_by : Kind → String
digest_by start = "a"
digest_by complete = "b"
digest_by _ = "c"

abbrev digest : RequestEvent → String
digest e = digest_by e.kind

abbrev waiting : TelemetryState
waiting = record_event digest empty begun

finds : get "m" (record_event digest waiting done).samples ≡ some (sample_of begun done)
unfolding record_event get infra_sentinel.Telemetry.timely_event infra_sentinel.Telemetry.touch
    infra_sentinel.Telemetry.evict infra_sentinel.Prelude.Dict.remove
    infra_sentinel.Telemetry.remember infra_sentinel.Telemetry.complete_event
    infra_sentinel.Telemetry.keep_sample infra_sentinel.Prelude.Dict.put
finds = refl

record_event-IsPair_example :
    (get "m" waiting.samples ≡ some (sample_of begun done))
    ⊎ IsPair waiting done "m" (sample_of begun done)
record_event-IsPair_example =
    record_event-IsPair digest waiting done "m" (sample_of begun done) finds

empty-IsBounded : IsBounded empty
empty-IsBounded = record { few_seen = omega arith; few_streams = omega arith }

record_batch-IsBounded_example :
    IsBounded (record_batch digest empty 7000 (begun ∷ done ∷ []) 3 900)
record_batch-IsBounded_example =
    record_batch-IsBounded digest empty 7000 (begun ∷ done ∷ []) 3 900 empty-IsBounded

abbrev late : RequestEvent
late = event complete 4000 (some 7)

abbrev stream : Stream
stream = record { epoch = 5000; pending = some begun; ambiguous = false }

abbrev other : String
other = "n"

waits : get (key_of late) waiting.streams ≡ some stream
unfolding record_event get infra_sentinel.Telemetry.timely_event infra_sentinel.Telemetry.touch
    infra_sentinel.Telemetry.evict infra_sentinel.Prelude.Dict.remove
waits = refl

is_new : any (str_eq (digest late)) waiting.seen ≡ false
unfolding record_event get infra_sentinel.Telemetry.timely_event infra_sentinel.Telemetry.touch
    infra_sentinel.Telemetry.evict infra_sentinel.Prelude.Dict.remove
    infra_sentinel.Telemetry.remember
is_new = refl
