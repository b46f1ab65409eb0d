-- ===== src/Store/Compaction/Totals.antt =====
-- A chunk's samples: what is written as buckets is what is deleted as rows.
use infra_sentinel.Prelude.{
  ℕ, ◌+◌, ◌<◌, ◌≡◌, refl, ◌∙◌, Option, none, some, List, [], ◌∷◌, All, arith,
}
use infra_sentinel.Prelude.Dict.{Dict, get}
use infra_sentinel.Prelude.Entries.{All-put, All-get}
use infra_sentinel.Prelude.Sums.{total, value_at, total-put}
use infra_sentinel.Aggregation.{
  Arithmetic, BucketKey, MetricBucket, MetricAccumulator, add_bucket, add_buckets, all_buckets,
  values, grow, start, merge, key_of,
}
use infra_sentinel.Aggregation.Key.{key_eq}
use infra_sentinel.Aggregation.Totals.{samples}
use infra_sentinel.Store.{
  Identity, of_point, of_bucket, identity_instance, Row, Table, bucket_from_row,
}
use infra_sentinel.Store.Compaction.{Compaction, row_buckets, empty_accumulator}

-- The resolution that an identity stands for.
abbrev resolved : Identity → ℕ
resolved (of_point k) = 0
resolved (of_bucket k r) = r

-- A row of a table: it has its identity's resolution, and at least one sample.
pub record IsRow {V : Type 0} (row : Identity × Row V) : Type 0 where
  pub resolution : row.1.resolution_seconds ≡ resolved row.0
  pub sampled : 0 < row.1.sample_count

abbrev pub row_samples : {V : Type 0} → Row V → ℕ
row_samples r = r.sample_count

-- The samples of all rows of a table.
abbrev pub table_samples : {V : Type 0} → Table V → ℕ
table_samples table = total row_samples table

-- A bucket of a resolution that was sampled.
pub record IsTarget {V : Type 0} (r : ℕ) (b : MetricBucket V) : Type 0 where
  pub resolution : b.resolution_seconds ≡ r
  pub sampled : 0 < b.sample_count

module _ {V : Type 0} (a : Arithmetic V) where
  abbrev bucket_samples : MetricBucket V → ℕ
  bucket_samples b = b.sample_count

  grow_samples :
      (r o : ℕ) (found : Option (MetricBucket V)) (b : MetricBucket V)
      → (grow a r o found b).sample_count ≡ value_at bucket_samples found + b.sample_count
  unfolding start merge
  grow_samples r o none b = omega arith
  grow_samples r o (some m) b = refl

  grow-IsTarget :
      (r o : ℕ) (found : Option (MetricBucket V)) (b : MetricBucket V)
      → ((m : MetricBucket V) → found ≡ some m → IsTarget r m)
      → 0 < b.sample_count
      → IsTarget r (grow a r o found b)
  unfolding start merge
  grow-IsTarget r o none b h p = record { resolution = refl; sampled = p }
  grow-IsTarget r o (some m) b h p = record {
    resolution = (h m refl).resolution;
    sampled = omega (arith, p);
  }

  add_buckets_samples :
      (acc : MetricAccumulator V) (bs : List (MetricBucket V))
      → total bucket_samples (add_buckets a acc bs).buckets
        ≡ total bucket_samples acc.buckets + samples bs
  unfolding add_buckets add_bucket
  add_buckets_samples acc [] = omega arith
  add_buckets_samples acc (b ∷ rest) =
      let key = key_of acc.resolution_seconds acc.offset_seconds b in
      let new = grow a acc.resolution_seconds acc.offset_seconds (get key acc.buckets) b in
      omega (
        arith,
        add_buckets_samples (add_bucket a acc b) rest,
        total-put bucket_samples key new acc.buckets,
        grow_samples acc.resolution_seconds acc.offset_seconds (get key acc.buckets) b,
      )

  abbrev EntryTarget : ℕ → BucketKey × MetricBucket V → Type 0
  EntryTarget r entry = IsTarget r entry.1

  add_buckets-IsTarget :
      (acc : MetricAccumulator V) (bs : List (MetricBucket V))
      → All (EntryTarget acc.resolution_seconds) acc.buckets
      → All (λ b. 0 < b.sample_count) bs
      → All (EntryTarget acc.resolution_seconds) (add_buckets a acc bs).buckets
  unfolding add_buckets add_bucket
  add_buckets-IsTarget acc [] h p = h
  add_buckets-IsTarget acc (b ∷ rest) h p =
      let r = acc.resolution_seconds in
      let key = key_of r acc.offset_seconds b in
      let found = get key acc.buckets in
      add_buckets-IsTarget (add_bucket a acc b) rest
        (All-put (EntryTarget r) key (grow a r acc.offset_seconds found b) acc.buckets
          (grow-IsTarget r acc.offset_seconds found b
            (λ m e. All-get (EntryTarget r) key acc.buckets h e) p.0)
          h)
        p.1

  samples-values :
      (entries : Dict BucketKey (MetricBucket V))
      → samples (values entries) ≡ total bucket_samples entries
  samples-values [] = refl
  samples-values ((k, b) ∷ rest) = omega (arith, samples-values rest)

  targets-values :
      (r : ℕ) (entries : Dict BucketKey (MetricBucket V))
      → All (EntryTarget r) entries
      → All (IsTarget r) (values entries)
  targets-values r [] h = tt
  targets-values r ((k, b) ∷ rest) h = (h.0, targets-values r rest h.1)

  row_buckets_samples :
      (rows : Table V)
      → All IsRow rows
      → (samples (row_buckets a rows) ≡ table_samples rows)
        × All (λ b. 0 < b.sample_count) (row_buckets a rows)
  unfolding bucket_from_row
  row_buckets_samples [] h = (refl, tt)
  row_buckets_samples ((id, r) ∷ rest) h =
      let (sum, positive) = row_buckets_samples rest h.1 in
      (omega (arith, sum, h.0.sampled), (omega arith, positive))

  -- The buckets of rows: as many samples, each of the target resolution.
  pub compacted_buckets :
      (c : Compaction) (rows : Table V)
      → All IsRow rows
      → let bs = all_buckets (add_buckets a (empty_accumulator a c) (row_buckets a rows)) in
        (samples bs ≡ table_samples rows) × All (IsTarget c.target_resolution) bs
  unfolding all_buckets
  compacted_buckets c rows h =
      let (sum, positive) = row_buckets_samples rows h in
      let acc = add_buckets a (empty_accumulator a c) (row_buckets a rows) in
      (
        samples-values acc.buckets
            ∙ omega (arith, add_buckets_samples (empty_accumulator a c) (row_buckets a rows), sum),
        targets-values c.target_resolution acc.buckets
            (add_buckets-IsTarget (empty_accumulator a c) (row_buckets a rows) tt positive),
      )
