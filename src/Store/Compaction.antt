-- ===== src/Store/Compaction.antt =====
-- `_compact_resolution` of metrics/store.py: the rows of one resolution, older than an epoch, become buckets
-- of a coarser one, chunk by chunk.
pub mod Totals
pub mod Steps
pub mod Loop
use infra_sentinel.Prelude.{
  ℕ, zero, suc, ◌+◌, ◌*◌, String, str_eq, Bool, true, false, ◌&&◌, ◌||◌, not, Option, none, some,
  List, [], ◌∷◌, length, map, select, min, max, ◌==◌, if◌then◌else◌,
}
use infra_sentinel.Prelude.Int.{ℤ, pos, ◌+ℤ◌, ltb_ℤ, leb_ℤ, eqb_ℤ}
use infra_sentinel.Prelude.Sort.{text_lt, sort}
use infra_sentinel.Aggregation.{
  Arithmetic, MetricBucket, MetricAccumulator, add_buckets, all_buckets, bucket_start,
}
use infra_sentinel.Store.{Identity, Row, Table, bucket_from_row, write_buckets}

-- The arguments; the target resolution is positive, as every caller passes it.
pub record Compaction : Type 0 where
  pub source_resolution : ℕ
  pub target_resolution : ℕ
  pub before_epoch : ℤ
  pub offset_seconds : ℕ
  pub resource_id : Option String

abbrev pub of_resource : Option String → String → Bool
of_resource none resource = true
of_resource (some id) resource = str_eq id resource

abbrev pub earliest : Option ℤ → ℤ → Option ℤ
earliest none epoch = some epoch
earliest (some e) epoch = some (if ltb_ℤ epoch e then epoch else e)

abbrev pub least_epoch : ℤ → ℤ → ℤ
least_epoch a b = if leb_ℤ a b then a else b

module _ {V : Type 0} (c : Compaction) where
  -- WHERE resolution_seconds = ? AND observed_epoch < ?
  abbrev pub is_old : Row V → Bool
  is_old r =
      r.resolution_seconds == c.source_resolution
      && ltb_ℤ r.observed_epoch c.before_epoch
      && of_resource c.resource_id r.resource_id

  -- WHERE resolution_seconds = ? AND observed_epoch >= ? AND observed_epoch < ?
  abbrev pub in_range : ℤ → ℤ → Row V → Bool
  in_range start end r =
      r.resolution_seconds == c.source_resolution
      && leb_ℤ start r.observed_epoch
      && ltb_ℤ r.observed_epoch end
      && of_resource c.resource_id r.resource_id

  abbrev pub in_chunk : ℤ → ℤ → Identity × Row V → Bool
  in_chunk start end row = in_range start end row.1

  -- SELECT MIN(observed_epoch)
  unfoldable pub first_epoch : Table V → Option ℤ → Option ℤ
  first_epoch [] found = found
  first_epoch (row ∷ rest) found =
      first_epoch rest (if is_old row.1 then earliest found row.1.observed_epoch else found)

abbrev pub chunk_seconds : Compaction → ℕ
chunk_seconds c = max c.target_resolution (min 86400 (c.target_resolution * 96))

-- ORDER BY observed_epoch, metric, source_id, dimensions_json
abbrev pub earlier_row : {V : Type 0} → Identity × Row V → Identity × Row V → Bool
earlier_row (i, p) (j, q) =
    ltb_ℤ p.observed_epoch q.observed_epoch
    || (eqb_ℤ p.observed_epoch q.observed_epoch
        && (text_lt p.metric q.metric
            || (str_eq p.metric q.metric
                && (text_lt p.source_id q.source_id
                    || (str_eq p.source_id q.source_id
                        && text_lt p.dimensions_json q.dimensions_json)))))

pub record Progress (V : Type 0) : Type 0 where
  pub table : Table V
  pub source_points : ℕ
  pub target_points : ℕ

abbrev pub row_buckets : {V : Type 0} → Arithmetic V → Table V → List (MetricBucket V)
row_buckets a rows = map (λ row. bucket_from_row a row.1) rows

module _ {V : Type 0} (a : Arithmetic V) (c : Compaction) where
  abbrev pub empty_accumulator : MetricAccumulator V
  empty_accumulator = record {
    resolution_seconds = c.target_resolution;
    offset_seconds = c.offset_seconds;
    buckets = [];
  }

  -- A chunk with rows: their buckets are written, and then the rows are deleted.
  unfoldable pub compact_rows : ℤ → ℤ → Progress V → Table V → Progress V
  compact_rows start end p [] = p
  compact_rows start end p (row ∷ rows) =
      let buckets = all_buckets (add_buckets a empty_accumulator (row_buckets a (row ∷ rows))) in
      let written = write_buckets a p.table buckets in
      record {
        table = select (λ r. not (in_chunk c start end r)) written;
        source_points = p.source_points + length (select (in_chunk c start end) written);
        target_points = p.target_points + length buckets;
      }

  unfoldable pub compact_chunk : ℤ → ℤ → Progress V → Progress V
  compact_chunk start end p =
      compact_rows start end p (sort earlier_row (select (in_chunk c start end) p.table))

  -- The loop over the chunks; `none` is a loop that has not ended.
  unfoldable pub compact_from : ℕ → ℤ → Progress V → Option (Progress V)
  compact_from zero start p = none
  compact_from (suc fuel) start p =
      let end = least_epoch c.before_epoch (start +ℤ pos (chunk_seconds c)) in
      let rest = compact_from fuel end (compact_chunk start end p) in
      if ltb_ℤ start c.before_epoch then rest else some p

  unfoldable pub compact_since : ℕ → Progress V → Option ℤ → Option (Progress V)
  compact_since fuel p none = some p
  compact_since fuel p (some first) =
      compact_from fuel (bucket_start first c.target_resolution c.offset_seconds) p

  -- `_compact_resolution`
  unfoldable pub compact_resolution : ℕ → Table V → Option (Progress V)
  compact_resolution fuel table =
      compact_since fuel (record { table = table; source_points = 0; target_points = 0 })
        (first_epoch c table none)
