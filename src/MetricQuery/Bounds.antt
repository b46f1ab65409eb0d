-- ===== src/MetricQuery/Bounds.antt =====
-- What an accepted metric query is, and how long its answer is over the pipeline.
use infra_sentinel.Prelude.{ℕ, ◌<◌, ◌≡◌, String, Bool, Option, some, subst, >>=-eq-some, arith}
use mathlib.Core.Option.{some-injective}
use infra_sentinel.Prelude.Int.{ℤ, pos, ◌≤ℤ◌, ◌+ℤ◌, ◌-ℤ◌, -ℤ_parts, +ℤ_parts}
use infra_sentinel.Prelude.Dict.{Dict, get, string_eq}
use infra_sentinel.Values.{Value}
use infra_sentinel.MetricQuery.{
  MetricQuery, QueryRange, range_of, filter_by, filtered, no_unknown, epoch_of, bucket_of,
  offset_of, ordered, within_range, instrument_of, identifier, maximum_range, from_payload,
}

offset_of_bounds : (v : Option Value) (bucket n : ℕ) → offset_of v bucket ≡ some n → n < bucket
unfolding offset_of
offset_of_bounds v bucket n h = ground (arith, h)

ordered_bounds : (since until e : ℤ) → ordered since until ≡ some e → since ≤ℤ e
unfolding ordered
ordered_bounds since until e h = ground (arith, h)

within_range_bounds :
    (since until e : ℤ) (bucket : ℕ)
    → within_range since until bucket ≡ some e
    → (e ≡ since) × (until ≤ℤ since +ℤ pos (maximum_range bucket))
unfolding within_range
within_range_bounds since until e bucket h =
    ground (arith, h, -ℤ_parts until since, +ℤ_parts since (pos (maximum_range bucket)))

abbrev IsRange : ℤ → ℤ → ℕ → ℕ → Type 0
IsRange since until bucket offset =
    (since ≤ℤ until) × (until ≤ℤ since +ℤ pos (maximum_range bucket)) × (offset < bucket)

abbrev pub IsBounded : MetricQuery → Type 0
IsBounded q = IsRange q.since_epoch q.until_epoch q.bucket_seconds q.bucket_offset_seconds

range_of-IsRange :
    (payload : Dict String Value) (now : ℤ) (r : QueryRange)
    → range_of payload now ≡ some r
    → IsRange r.since_epoch r.until_epoch r.bucket_seconds r.bucket_offset_seconds
unfolding range_of
range_of-IsRange payload now r h =
    let (asked, _, h2) = >>=-eq-some (epoch_of (get "since_epoch" payload) (now -ℤ pos 3600)) _ h in
    let (last, _, h3) = >>=-eq-some (epoch_of (get "until_epoch" payload) now) _ h2 in
    let (until, in_order, h4) = >>=-eq-some (ordered asked last) _ h3 in
    let (bucket, _, h5) = >>=-eq-some (bucket_of (get "bucket_seconds" payload)) _ h4 in
    let (offset, inside, h6) =
      >>=-eq-some (offset_of (get "bucket_offset_seconds" payload) bucket) _ h5 in
    let (since, in_range, h7) = >>=-eq-some (within_range asked until bucket) _ h6 in
    let first = ordered_bounds asked last until in_order in
    let (same, range) = within_range_bounds asked until since bucket in_range in
    let good : IsRange since until bucket offset =
      rw same (
        first,
        range,
        offset_of_bounds (get "bucket_offset_seconds" payload) bucket offset inside,
      ) in
    subst
      (λ (x : QueryRange).
        IsRange x.since_epoch x.until_epoch x.bucket_seconds x.bucket_offset_seconds)
      (some-injective _ _ h7) good

filter_by-IsBounded :
    (is_identifier : String → Bool) (payload : Dict String Value) (r : QueryRange) (q : MetricQuery)
    → IsRange r.since_epoch r.until_epoch r.bucket_seconds r.bucket_offset_seconds
    → filter_by is_identifier payload r ≡ some q
    → IsBounded q
unfolding filter_by filtered
filter_by-IsBounded is_identifier payload r q good h =
    let (_, _, h1) = >>=-eq-some (instrument_of (get "instrument" payload)) _ h in
    let (_, _, h2) = >>=-eq-some (identifier is_identifier (get "resource_id" payload)) _ h1 in
    let (_, _, h3) = >>=-eq-some (identifier is_identifier (get "source_id" payload)) _ h2 in
    let (_, _, h4) = >>=-eq-some (identifier is_identifier (get "metric" payload)) _ h3 in
    subst IsBounded (some-injective _ _ h4) good

-- An accepted query has an ordered range of at most 90 days, or 730 days in buckets of a day, and an
-- offset within its bucket.
pub from_payload-IsBounded :
    (is_identifier : String → Bool) (payload : Dict String Value) (now : ℤ) (q : MetricQuery)
    → from_payload is_identifier payload now ≡ some q
    → IsBounded q
unfolding from_payload
from_payload-IsBounded is_identifier payload now q h =
    let (_, _, more) = >>=-eq-some (no_unknown payload) _ h in
    let (range, ranged, last) = >>=-eq-some (range_of payload now) _ more in
    filter_by-IsBounded is_identifier payload range q (range_of-IsRange payload now range ranged)
      last
