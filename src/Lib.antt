-- ===== src/Lib.antt =====
-- Infra Sentinel: the core of the agent, and what makes it correct.
--
-- The agent samples collectors, merges their points into buckets, keeps a journal of diagnostics and
-- guards budgets. Its parts, each with the file of src/infra_sentinel that it models:
--
--   StatusStability  core/status_stability.py. `StatusStabilizer` is a record, `observe` returns the
--                    new record and the decision.
--   Collectors       core/collectors.py. The registry's three dictionaries, `register`, and
--                    `collect`, which takes its turns over the collectors in order. A collector is
--                    its capability and a function to an outcome: points, a collection, or the kind
--                    of the exception that it raised. Each has a stabilizer of its own.
--   Diagnostics      core/diagnostics.py. `_Checks`: the checks of one sample, with `rows` and `add`;
--                    Values has the decoded values that it reads.
--   Journal          metrics/diagnostics.py. The three tables as dictionaries and a list, and the
--                    transaction of `observe_projection` with `_event` and `_retain`. Journal.Query
--                    has `_query` and `query`.
--   Aggregation      metrics/aggregation.py. `MetricAccumulator`, its buckets in a dictionary under
--                    Aggregation.Key's keys, and Aggregation.Time's `bucket_start`.
--   Pipeline         metrics/pipeline.py. `ingest`, the flushes with their rollback, `query_points`.
--                    It owns an accumulator and writes to a store that is an argument: a state, and a
--                    write that may fail.
--   Store            metrics/store.py. The table of points as a dictionary by identity: `write`,
--                    `write_buckets` and `replace_source_history_once`; Store.Compaction has the loop of
--                    `_compact_resolution`, and Store.Maintenance `maintain_history`, which runs it for
--                    each tier with the accumulator of Aggregation.
--   MetricQuery      metrics/query.py. `MetricQuery.from_payload` and `execute_metric_query`.
--   Billing          resources/network/billing_policy.py. `BillingBudgetEngine`.
--   Vps              resources/network/vps.py. `VpsCounterTracker.apply`, `sum_vps_samples` and
--                    `VpsMonitor.maybe_poll`, which feeds a stabilizer.
--   Mihomo           resources/network/mihomo.py. `MihomoTrafficTracker.apply`, with `_scaled` in
--                    Mihomo.Scaling, the hosts and routes in Mihomo.Hosts and Mihomo.Attribution;
--                    `combine_samples` and `collect_interval` in Mihomo.Interval; `_decode_chunked` in
--                    Mihomo.Chunks.
--   Xray             resources/network/xray.py. `XrayStatsTracker.apply` and the totals of a session;
--                    Xray.Public has `maybe_poll`, which feeds a stabilizer, and what is shown.
--   Meter            resources/network/session.py. `SessionMeter` with `reset` and `set_vps_baseline`;
--                    Meter.Recording has `record`. It reads the public states of Vps.
--   Remote           resources/network/remote.py. The fleet, which polls the monitors of Vps and Xray.
--   Facilities       resources/facilities: observer.py's `refresh_once` with its records, which feed
--                    stabilizers, and `snapshot` in Facilities.Overview; the selection of offers of
--                    discovery.py and protocols.py in Facilities.Offers, and `_read_response_frame` in
--                    Facilities.Frames.
--   Telemetry        resources/ai/codex_telemetry/state.py. `TelemetryState.record_batch`.
--   Receipts         metrics/usage_receipts.py. `validate_receipt`, `prepare_receipt` and `record`.
--   Timing           core/timing.py.
--   Prelude          the names that all of these share: tests, lists, integers, dictionaries as
--                    association lists in insertion order, and a stable sort.
--
-- A module's children hold its theorems and are named for what these say; its Tests hold runs and
-- the theorems at concrete inputs. State is passed explicitly, a method is a function from the state
-- to the state and its result, and an exception is a value: `none`, a constructor of a result type, or
-- a flag beside the state that the exception leaves. Where a part catches some exceptions alone, the
-- outcomes that it is given tell the others apart: a collector's points that cannot be read, and a
-- provider's poll that escapes. The methods that hold a lock are single steps. A loop over a list is
-- a structural recursion. Three loops run on fuel: the chunks of a body, the bytes of a frame and the
-- chunks of a compaction. As many passes as the body has bytes and three, one for each byte of a
-- frame's limit and one, and one for each second that is compacted are enough, where lengths are not
-- negative and the stream keeps to what it is asked for.
--
-- Numbers: counts and epochs are natural numbers, or integers where they can be negative; epochs are
-- whole seconds (whole milliseconds in Telemetry and Timing). Python's integers do not overflow. The
-- floats of the metric values are a type with the operations that the code uses on them, about which
-- nothing is assumed. The limits are the code's: 512 checks in a sample and 128 rows of a source, 10000
-- events of 30 days, 512 active conditions and 200 events in an answer, 256 streams and 4096 digests.
--
-- Arguments, since they are not the program's own code: digests (SHA-256), regular expressions, JSON
-- texts and their sizes, the datetime module's texts and local midnights, the outcome of an SSH
-- session, the clock, the directory of registrations, the answers of providers, the reading of hexadecimal
-- numbers and the stream of a socket.
--
-- Not modelled: the process around these parts (sockets, signals, configuration files, command lines),
-- the SQL queries of the metric store and its imports, the readers of other programs' session stores and
-- of the system, the validation of manifests and of providers' answers, the rotation of log files, and the rendering of public states. The user
-- interface is another program.
mod Prelude
pub mod StatusStability
pub mod Collectors
pub mod Values
pub mod Diagnostics
pub mod Facilities
pub mod Journal
pub mod Billing
pub mod Aggregation
pub mod Pipeline
pub mod Store
pub mod Vps
pub mod Mihomo
pub mod Xray
pub mod Meter
pub mod Remote
pub mod Telemetry
pub mod MetricQuery
pub mod Timing
pub mod Receipts
