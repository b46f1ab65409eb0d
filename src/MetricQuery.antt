-- ===== src/MetricQuery.antt =====
-- src/infra_sentinel/metrics/query.py: the validation of a metric query, and its bounded answer. The
-- pattern test of an identifier is an argument; `none` is an exception (a `ValueError`, or the
-- `TypeError` of an instrument that is an array or an object).
pub mod Bounds
mod Tests
use infra_sentinel.Prelude.{
  ℕ, ◌+◌, ◌==◌, String, str_eq, Bool, true, false, ◌&&◌, ◌||◌, not, Option, none, some, List, [],
  ◌∷◌, ltb, length, take, any, ◌>>=◌, if◌then◌else◌,
}
use infra_sentinel.Prelude.Int.{ℤ, pos, negsuc, ◌+ℤ◌, ◌-ℤ◌, ltb_ℤ}
use infra_sentinel.Prelude.Dict.{Dict, get, string_eq}
use infra_sentinel.Values.{Value, null, int, float, text}
use infra_sentinel.Aggregation.{Instrument, counter, gauge}
use infra_sentinel.Pipeline.{Criteria}

pub record MetricQuery : Type 0 where
  pub since_epoch : ℤ
  pub until_epoch : ℤ
  pub resource_id : Option String
  pub source_id : Option String
  pub metric : Option String
  pub instrument : Instrument
  pub bucket_seconds : ℕ
  pub bucket_offset_seconds : ℕ

abbrev supported : List String
supported =
    "since_epoch" ∷ "until_epoch" ∷ "resource_id" ∷ "source_id" ∷ "metric" ∷ "instrument"
    ∷ "bucket_seconds" ∷ "bucket_offset_seconds" ∷ []

-- `set(payload) - supported` is empty.
unfoldable pub no_unknown : Dict String Value → Option (Unit {0})
no_unknown [] = some tt
no_unknown ((key, v) ∷ rest) = if any (str_eq key) supported then no_unknown rest else none

-- `_epoch`: an integer or a finite float, where a bool is none.
unfoldable pub epoch_of : Option Value → ℤ → Option ℤ
epoch_of none default = some default
epoch_of (some (int z)) default = some z
epoch_of (some (float z)) default = some z
epoch_of (some _) default = none

abbrev pub max_points : ℕ
max_points = 10000

abbrev is_bucket : ℕ → Bool
is_bucket n = n == 60 || n == 300 || n == 900 || n == 3600 || n == 86400

unfoldable pub bucket_of : Option Value → Option ℕ
bucket_of none = some 60
bucket_of (some (int (pos n))) = if is_bucket n then some n else none
bucket_of (some _) = none

unfoldable pub offset_of : Option Value → ℕ → Option ℕ
offset_of none bucket = if ltb 0 bucket then some 0 else none
offset_of (some (int (pos n))) bucket = if ltb n bucket then some n else none
offset_of (some _) bucket = none

-- 90 days, or 730 days of whole days.
abbrev pub maximum_range : ℕ → ℕ
maximum_range bucket = if bucket == 86400 then 63072000 else 7776000

-- The two tests of the range, in one place each.
unfoldable pub ordered : ℤ → ℤ → Option ℤ
ordered since until = if ltb_ℤ until since then none else some until

unfoldable pub within_range : ℤ → ℤ → ℕ → Option ℤ
within_range since until bucket =
    if ltb_ℤ (pos (maximum_range bucket)) (until -ℤ since) then none else some since

unfoldable pub instrument_of : Option Value → Option Instrument
instrument_of none = some counter
instrument_of (some (text t)) =
    if str_eq t "counter" then some counter else if str_eq t "gauge" then some gauge else none
instrument_of (some _) = none

-- `_identifier`
unfoldable pub identifier : (String → Bool) → Option Value → Option (Option String)
identifier is_identifier none = some none
identifier is_identifier (some null) = some none
identifier is_identifier (some (text t)) = if is_identifier t then some (some t) else none
identifier is_identifier (some _) = none

pub record QueryRange : Type 0 where
  pub since_epoch : ℤ
  pub until_epoch : ℤ
  pub bucket_seconds : ℕ
  pub bucket_offset_seconds : ℕ

-- The part of `from_payload` on the range and the buckets.
unfoldable pub range_of : Dict String Value → ℤ → Option QueryRange
range_of payload now = do
  asked ← epoch_of (get "since_epoch" payload) (now -ℤ pos 3600)
  last ← epoch_of (get "until_epoch" payload) now
  until ← ordered asked last
  bucket ← bucket_of (get "bucket_seconds" payload)
  offset ← offset_of (get "bucket_offset_seconds" payload) bucket
  since ← within_range asked until bucket
  some (record {
    since_epoch = since;
    until_epoch = until;
    bucket_seconds = bucket;
    bucket_offset_seconds = offset;
  })

unfoldable pub filtered :
    QueryRange → Instrument → Option String → Option String → Option String → MetricQuery
filtered range instrument resource_id source_id metric = record {
  since_epoch = range.since_epoch;
  until_epoch = range.until_epoch;
  resource_id = resource_id;
  source_id = source_id;
  metric = metric;
  instrument = instrument;
  bucket_seconds = range.bucket_seconds;
  bucket_offset_seconds = range.bucket_offset_seconds;
}

-- The part on the instrument and the names.
unfoldable pub filter_by : (String → Bool) → Dict String Value → QueryRange → Option MetricQuery
filter_by is_identifier payload range = do
  instrument ← instrument_of (get "instrument" payload)
  resource_id ← identifier is_identifier (get "resource_id" payload)
  source_id ← identifier is_identifier (get "source_id" payload)
  metric ← identifier is_identifier (get "metric" payload)
  some (filtered range instrument resource_id source_id metric)

-- `MetricQuery.from_payload`
unfoldable pub from_payload : (String → Bool) → Dict String Value → ℤ → Option MetricQuery
from_payload is_identifier payload now = do
  fields ← no_unknown payload
  range ← range_of payload now
  filter_by is_identifier payload range

-- What `execute_metric_query` asks the store for: one row more than it answers.
unfoldable pub criteria_of : MetricQuery → Criteria
criteria_of q = record {
  since_epoch = q.since_epoch;
  until_epoch = q.until_epoch;
  resource_id = q.resource_id;
  source_id = q.source_id;
  metric = q.metric;
  instrument = some q.instrument;
  bucket_seconds = some q.bucket_seconds;
  bucket_offset_seconds = q.bucket_offset_seconds;
  limit = max_points + 1;
}

pub record QueryAnswer (Row : Type 0) : Type 0 where
  pub query : MetricQuery
  pub points : List Row
  pub truncated : Bool

-- `execute_metric_query`, over a source of rows.
unfoldable pub execute_metric_query :
    {Row : Type 0} → (Criteria → List Row) → MetricQuery → QueryAnswer Row
execute_metric_query query_points q =
    let rows = query_points (criteria_of q) in
    let truncated = ltb max_points (length rows) in
    record {
      query = q;
      points = if truncated then take max_points rows else rows;
      truncated = truncated;
    }
