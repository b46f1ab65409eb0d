-- ===== src/Store.antt =====
-- src/infra_sentinel/metrics/store.py: the table of metric points. It is a dictionary by identity; an identity is the
-- payload of which the code takes a digest, and it tells a row from a bucket by the resolution that the payload of
-- the latter holds. `observed_at` is rendered from the epoch. SQLite, its transactions and its files are left
-- out: every operation here is one transaction.
pub mod Compaction
pub mod Writes
pub mod Upserts
pub mod Maintenance
mod Tests
use infra_sentinel.Prelude.{
  ℕ, ◌+◌, ◌≡◌, ◌↔◌, refl, String, Bool, true, false, ◌&&◌, ◌||◌, not, Option, none, some, List, [],
  ◌∷◌, length, max, ltb, ◌==◌, ==_iff, or_default, is_some, arith, if◌then◌else◌,
}
use infra_sentinel.Prelude.Int.{ℤ, pos_part, neg_part, ltb_ℤ, leb_ℤ}
use infra_sentinel.Prelude.Dict.{Eq, Dict, get, put}
use infra_sentinel.Aggregation.{
  Arithmetic, Instrument, counter, gauge, quota, event, BucketKey, MetricPoint, MetricBucket,
  AttributionMethod, Confidence, instrument_eq, value,
}
use infra_sentinel.Aggregation.Key.{keys_equal, keys_equal_iff}

pub data Identity : Type 0 where
  of_point : BucketKey → Identity
  of_bucket : BucketKey → ℕ → Identity

abbrev identity_eq : Identity → Identity → Bool
identity_eq (of_point a) (of_point b) = keys_equal a b
identity_eq (of_bucket a r) (of_bucket b s) = keys_equal a b && r == s
identity_eq _ _ = false

pub identity_eq_iff : (a b : Identity) → (identity_eq a b ≡ true) ↔ (a ≡ b)
identity_eq_iff (of_point a) (of_point b) = ground (arith, keys_equal_iff a b)
identity_eq_iff (of_point a) (of_bucket b s) = ground arith
identity_eq_iff (of_bucket a r) (of_point b) = ground arith
identity_eq_iff (of_bucket a r) (of_bucket b s) = ground (arith, keys_equal_iff a b, ==_iff r s)

instance abbrev pub identity_instance : Eq Identity
identity_instance = record { beq = identity_eq; beq_iff = identity_eq_iff }

-- A row. The columns that were added to the table later can be empty.
pub record Row (V : Type 0) : Type 0 where
  pub observed_epoch : ℤ
  pub metric : String
  pub instrument : Instrument
  pub value : V
  pub unit : String
  pub source_id : String
  pub resource_id : String
  pub dimensions_json : String
  pub attribution_method : AttributionMethod
  pub confidence : Confidence
  pub estimated : Bool
  pub sample_count : ℕ
  pub minimum_value : Option V
  pub maximum_value : Option V
  pub last_value : Option V
  pub last_epoch : Option ℤ
  pub resolution_seconds : ℕ

abbrev pub Table : Type 0 → Type 0
Table V = Dict Identity (Row V)

module _ {V : Type 0} where
  -- `_identity`
  unfoldable pub point_identity : MetricPoint V → Identity
  point_identity p = of_point (record {
    target_epoch = p.observed_epoch;
    metric = p.metric;
    instrument = p.instrument;
    unit = p.unit;
    source_id = p.source_id;
    resource_id = p.resource_id;
    dimensions = p.dimensions;
  })

  -- `_row`
  unfoldable pub point_row : MetricPoint V → Row V
  point_row p = record {
    observed_epoch = p.observed_epoch;
    metric = p.metric;
    instrument = p.instrument;
    value = p.value;
    unit = p.unit;
    source_id = p.source_id;
    resource_id = p.resource_id;
    dimensions_json = p.dimensions;
    attribution_method = p.attribution_method;
    confidence = p.confidence;
    estimated = p.estimated;
    sample_count = 1;
    minimum_value = some p.value;
    maximum_value = some p.value;
    last_value = some p.value;
    last_epoch = some p.observed_epoch;
    resolution_seconds = 0;
  }

  -- `_bucket_identity`
  unfoldable pub bucket_identity : MetricBucket V → Identity
  bucket_identity b =
      of_bucket
        (record {
          target_epoch = b.observed_epoch;
          metric = b.metric;
          instrument = b.instrument;
          unit = b.unit;
          source_id = b.source_id;
          resource_id = b.resource_id;
          dimensions = b.dimensions;
        })
        b.resolution_seconds

  -- `INSERT OR IGNORE` of a row.
  unfoldable pub insert_or_ignore : Identity → Row V → Table V → Table V × ℕ
  insert_or_ignore id row table =
      if is_some (get id table) then (table, 0) else (put id row table, 1)

  -- `write`: the table, and the number of rows that were inserted.
  unfoldable pub write : Table V → List (MetricPoint V) → Table V × ℕ
  write table [] = (table, 0)
  write table (p ∷ rest) =
      let (next, one) = insert_or_ignore (point_identity p) (point_row p) table in
      let (last, more) = write next rest in (last, one + more)

module _ {V : Type 0} (a : Arithmetic V) where
  -- `_bucket_row`
  unfoldable pub bucket_row : MetricBucket V → Row V
  bucket_row b = record {
    observed_epoch = b.observed_epoch;
    metric = b.metric;
    instrument = b.instrument;
    value = value a b;
    unit = b.unit;
    source_id = b.source_id;
    resource_id = b.resource_id;
    dimensions_json = b.dimensions;
    attribution_method = b.attribution_method;
    confidence = b.confidence;
    estimated = b.estimated;
    sample_count = b.sample_count;
    minimum_value = some b.minimum_value;
    maximum_value = some b.maximum_value;
    last_value = some b.last_value;
    last_epoch = some b.last_epoch;
    resolution_seconds = b.resolution_seconds;
  }

  -- The value of a row after a conflict, by the instrument of the row that is there.
  unfoldable pub upserted_value : Instrument → Row V → Row V → V
  upserted_value counter old new = a.add old.value new.value
  upserted_value gauge old new =
      a.over (a.add (a.times old.value old.sample_count) (a.times new.value new.sample_count))
        (max 1 (old.sample_count + new.sample_count))
  upserted_value _ old new = new.value

  -- SQL's MIN and MAX of two values are NULL where one of them is.
  abbrev both : (V → V → V) → V → Option V → Option V
  both f x none = none
  both f x (some y) = some (f x y)

  abbrev later : ℤ → Option ℤ → Bool
  later epoch none = false
  later epoch (some new) = leb_ℤ epoch new

  abbrev latest : ℤ → Option ℤ → Option ℤ
  latest epoch none = none
  latest epoch (some new) = some (if ltb_ℤ epoch new then new else epoch)

  -- `ON CONFLICT(identity) DO UPDATE`
  unfoldable pub upserted : Row V → Row V → Row V
  upserted old new = record old {
    value = upserted_value old.instrument old new;
    sample_count = old.sample_count + new.sample_count;
    minimum_value = both a.minimum (or_default old.minimum_value old.value) new.minimum_value;
    maximum_value = both a.maximum (or_default old.maximum_value old.value) new.maximum_value;
    last_value =
        if later (or_default old.last_epoch old.observed_epoch) new.last_epoch
        then new.last_value
        else some (or_default old.last_value old.value);
    last_epoch = latest (or_default old.last_epoch old.observed_epoch) new.last_epoch;
    resolution_seconds = max old.resolution_seconds new.resolution_seconds;
    estimated = old.estimated || new.estimated;
  }

  abbrev pub stored : Option (Row V) → Row V → Row V
  stored none new = new
  stored (some old) new = upserted old new

  unfoldable pub upsert : Table V → MetricBucket V → Table V
  upsert table b =
      put (bucket_identity b) (stored (get (bucket_identity b) table) (bucket_row b)) table

  -- `_write_buckets_on`, and `write_buckets`.
  unfoldable pub write_buckets : Table V → List (MetricBucket V) → Table V
  write_buckets table [] = table
  write_buckets table (b ∷ rest) = write_buckets (upsert table b) rest

  unfoldable pub row_sum : Instrument → Row V → ℕ → V
  row_sum gauge r samples = a.times r.value samples
  row_sum _ r samples = r.value

  -- `_bucket_from_row`
  unfoldable pub bucket_from_row : Row V → MetricBucket V
  bucket_from_row r = record {
    observed_epoch = r.observed_epoch;
    resolution_seconds = r.resolution_seconds;
    metric = r.metric;
    instrument = r.instrument;
    value_sum = row_sum r.instrument r (max 1 r.sample_count);
    sample_count = max 1 r.sample_count;
    minimum_value = or_default r.minimum_value r.value;
    maximum_value = or_default r.maximum_value r.value;
    last_value = or_default r.last_value r.value;
    last_epoch = or_default r.last_epoch r.observed_epoch;
    unit = r.unit;
    source_id = r.source_id;
    resource_id = r.resource_id;
    dimensions = r.dimensions_json;
    attribution_method = r.attribution_method;
    confidence = r.confidence;
    estimated = r.estimated;
  }
