-- ===== src/Store/Compaction/Steps.antt =====
-- What a chunk does to the table: its rows go, their samples stay.
use infra_sentinel.Prelude.{
  ℕ, ◌+◌, ◌<◌, ◌≡◌, ◌≢◌, refl, sym, ap, ◌∙◌, Bool, true, false, not, Option, none, some, List, [],
  ◌∷◌, select, All, arith, if◌then◌else◌, Bool-cases, inl, inr,
}
use infra_sentinel.Prelude.Int.{ℤ, ◌≤ℤ◌}
use mathlib.Core.Option.{some-injective}
use infra_sentinel.Prelude.Dict.{get}
use infra_sentinel.Prelude.Sort.{sort, All-sort}
use infra_sentinel.Prelude.Entries.{All-put, All-get}
use infra_sentinel.Prelude.Sums.{total, value_at, total-put, total-sort, total-select}
use infra_sentinel.Aggregation.{Arithmetic, MetricBucket, add_buckets, all_buckets}
use infra_sentinel.Aggregation.Totals.{samples}
use infra_sentinel.Store.{
  Identity, identity_instance, Row, Table, bucket_row, bucket_identity, upserted, stored, upsert,
  write_buckets,
}
use infra_sentinel.Store.Compaction.{
  Compaction, Progress, in_range, in_chunk, is_old, row_buckets, empty_accumulator, compact_rows,
  compact_chunk, earlier_row,
}
use infra_sentinel.Store.Compaction.Totals.{
  IsRow, IsTarget, row_samples, table_samples, compacted_buckets,
}

All-select :
    {A : Type 0} (P : A → Type 0) (test : A → Bool) (xs : List A)
    → All P xs
    → All P (select test xs)
All-select P test [] h = tt
All-select P test (x ∷ xs) h = elim (Bool-cases (test x)) [
  | inl e ↦ rw e (h.0, All-select P test xs h.1)
  | inr e ↦ rw e (All-select P test xs h.1)
]

module _ {V : Type 0} (a : Arithmetic V) (c : Compaction) where
  -- The samples of a row, where it lies in a range.
  abbrev ranged : ℤ → ℤ → Row V → ℕ
  ranged start end r = if in_range c start end r then r.sample_count else 0

  total-ranged :
      (start end : ℤ) (table : Table V)
      → total row_samples (select (in_chunk c start end) table) ≡ total (ranged start end) table
  total-ranged start end [] = refl
  total-ranged start end ((id, r) ∷ rest) = elim (Bool-cases (in_range c start end r)) [
    | inl e ↦ rw e (omega (arith, total-ranged start end rest))
    | inr e ↦ rw e (omega (arith, total-ranged start end rest))
  ]

  stored_samples :
      (found : Option (Row V)) (b : MetricBucket V)
      → (stored a found (bucket_row a b)).sample_count ≡ value_at row_samples found + b.sample_count
  unfolding upserted bucket_row
  stored_samples none b = omega arith
  stored_samples (some old) b = refl

  stored_resolution :
      (found : Option (Row V)) (b : MetricBucket V)
      → ((old : Row V) → found ≡ some old → old.resolution_seconds ≡ b.resolution_seconds)
      → (stored a found (bucket_row a b)).resolution_seconds ≡ b.resolution_seconds
  unfolding upserted bucket_row
  stored_resolution none b h = refl
  stored_resolution (some old) b h = omega (arith, h old refl)

  outside :
      (start end : ℤ) (r : Row V)
      → r.resolution_seconds ≡ c.target_resolution
      → c.source_resolution ≢ c.target_resolution
      → in_range c start end r ≡ false
  outside start end r e differs = ground (arith, e, differs)

  ranged_outside :
      (start end : ℤ) (found : Option (Row V))
      → ((old : Row V) → found ≡ some old → old.resolution_seconds ≡ c.target_resolution)
      → c.source_resolution ≢ c.target_resolution
      → value_at (ranged start end) found ≡ 0
  ranged_outside start end none h differs = refl
  ranged_outside start end (some r) h differs = rw (outside start end r (h r refl) differs) refl

  old_resolution :
      (table : Table V) (b : MetricBucket V) (old : Row V)
      → All IsRow table
      → get (bucket_identity b) table ≡ some old
      → old.resolution_seconds ≡ b.resolution_seconds
  unfolding bucket_identity
  old_resolution table b old h e = (All-get IsRow (bucket_identity b) table h e).resolution

  upsert-IsRow :
      (table : Table V) (b : MetricBucket V)
      → All IsRow table
      → 0 < b.sample_count
      → All IsRow (upsert a table b)
  unfolding upsert bucket_identity
  upsert-IsRow table b h p =
      let found = get (bucket_identity b) table in
      All-put IsRow (bucket_identity b) (stored a found (bucket_row a b)) table
        (record {
          resolution = stored_resolution found b (λ old e. old_resolution table b old h e);
          sampled = omega (arith, stored_samples found b, p);
        })
        h

  -- What buckets of the target resolution leave alone.
  write_buckets_samples :
      (start end : ℤ) (table : Table V) (bs : List (MetricBucket V))
      → c.source_resolution ≢ c.target_resolution
      → All IsRow table
      → All (IsTarget c.target_resolution) bs
      → All IsRow (write_buckets a table bs)
        × (table_samples (write_buckets a table bs) ≡ table_samples table + samples bs)
        × (total (ranged start end) (write_buckets a table bs) ≡ total (ranged start end) table)
  unfolding write_buckets upsert
  write_buckets_samples start end table [] differs h t = (h, omega arith, refl)
  write_buckets_samples start end table (b ∷ rest) differs h t =
      let id = bucket_identity b in
      let found = get id table in
      let new = stored a found (bucket_row a b) in
      let known = λ (old : Row V) (e : found ≡ some old). old_resolution table b old h e in
      let (sound, sum, rest_sum) =
        write_buckets_samples start end (upsert a table b) rest differs
          (upsert-IsRow table b h t.0.sampled) t.1 in
      (
        sound,
        omega (arith, sum, total-put row_samples id new table, stored_samples found b),
        omega (
          arith,
          rest_sum,
          total-put (ranged start end) id new table,
          ranged_outside start end found (λ old e. known old e ∙ t.0.resolution) differs,
          ranged_outside start end (some new)
              (λ r e.
                ap (λ (x : Row V). x.resolution_seconds) (sym (some-injective _ _ e))
                ∙ stored_resolution found b known
                ∙ t.0.resolution)
              differs,
        ),
      )

  -- The old rows of a table begin at an epoch.
  abbrev pub Waits : ℤ → Identity × Row V → Type 0
  Waits start row = is_old c row.1 ≡ true → start ≤ℤ row.1.observed_epoch

  Waits-new :
      (start : ℤ) (id : Identity) (r : Row V)
      → r.resolution_seconds ≡ c.target_resolution
      → c.source_resolution ≢ c.target_resolution
      → Waits start (id, r)
  Waits-new start id r e differs h = absurd (ground (arith, e, differs, h))

  write_buckets-Waits :
      (start : ℤ) (table : Table V) (bs : List (MetricBucket V))
      → c.source_resolution ≢ c.target_resolution
      → All IsRow table
      → All (IsTarget c.target_resolution) bs
      → All (Waits start) table
      → All (Waits start) (write_buckets a table bs)
  unfolding write_buckets upsert
  write_buckets-Waits start table [] differs h t w = w
  write_buckets-Waits start table (b ∷ rest) differs h t w =
      let id = bucket_identity b in
      let found = get id table in
      let new = stored a found (bucket_row a b) in
      write_buckets-Waits start (upsert a table b) rest differs (upsert-IsRow table b h t.0.sampled)
        t.1
        (All-put (Waits start) id new table
          (Waits-new start id new
            (stored_resolution found b (λ old e. old_resolution table b old h e) ∙ t.0.resolution)
            differs)
          w)

  Waits-next :
      (start end : ℤ) (rows : Table V)
      → All (Waits start) rows
      → All (Waits end) (select (λ r. not (in_chunk c start end r)) rows)
  Waits-next start end [] w = tt
  Waits-next start end ((id, r) ∷ rest) w = elim (Bool-cases (in_range c start end r)) [
    | inl taken ↦ rw taken (Waits-next start end rest w.1)
    | inr left ↦
        rw left ((λ old. later start end r left old (w.0 old)), Waits-next start end rest w.1)
  ]
    where
      later :
          (start end : ℤ) (r : Row V)
          → in_range c start end r ≡ false
          → is_old c r ≡ true
          → start ≤ℤ r.observed_epoch
          → end ≤ℤ r.observed_epoch
      later start end r left old h = ground (arith, left, old, h)

  -- What a chunk leaves: rows of a table, with the samples of before, whose old ones begin at its end.
  pub record Compacted (end : ℤ) (before after : Table V) : Type 0 where
    pub rows : All IsRow after
    pub samples : table_samples after ≡ table_samples before
    pub waits : All (Waits end) after

  compact_rows-Compacted :
      (start end : ℤ) (p : Progress V) (row : Identity × Row V) (rows : Table V)
      → c.source_resolution ≢ c.target_resolution
      → All IsRow p.table
      → All (Waits start) p.table
      → table_samples (row ∷ rows) ≡ total (ranged start end) p.table
      → All IsRow (row ∷ rows)
      → Compacted end p.table (compact_rows a c start end p (row ∷ rows)).table
  unfolding compact_rows
  compact_rows-Compacted start end p row rows differs h w e s =
      let bs = all_buckets (add_buckets a (empty_accumulator a c) (row_buckets a (row ∷ rows))) in
      let (sum, targets) = compacted_buckets a c (row ∷ rows) s in
      let (sound, all, kept) = write_buckets_samples start end p.table bs differs h targets in
      let written = write_buckets a p.table bs in
      record {
        rows = All-select IsRow (λ r. not (in_chunk c start end r)) written sound;
        samples = omega (
          arith,
          total-select row_samples (in_chunk c start end) written,
          total-ranged start end written,
          all,
          kept,
          sum,
          e,
        );
        waits =
            Waits-next start end written (write_buckets-Waits start p.table bs differs h targets w);
      }

  none_in_range :
      (start end : ℤ) (table : Table V)
      → All IsRow table
      → total (ranged start end) table ≡ 0
      → All (Waits start) table
      → All (Waits end) table
  none_in_range start end [] h e w = tt
  none_in_range start end ((id, r) ∷ rest) h e w = (
    (λ old. empty_range start end r h.0.sampled (omega (arith, e)) old (w.0 old)),
    none_in_range start end rest h.1 (omega (arith, e)) w.1,
  )
    where
      empty_range :
          (start end : ℤ) (r : Row V)
          → 0 < r.sample_count
          → ranged start end r ≡ 0
          → is_old c r ≡ true
          → start ≤ℤ r.observed_epoch
          → end ≤ℤ r.observed_epoch
      empty_range start end r p e old h = ground (arith, p, e, old, h)

  -- A chunk keeps the samples of the table, and leaves no old row before its end.
  pub compact_chunk-Compacted :
      (start end : ℤ) (p : Progress V)
      → c.source_resolution ≢ c.target_resolution
      → All IsRow p.table
      → All (Waits start) p.table
      → Compacted end p.table (compact_chunk a c start end p).table
  unfolding compact_chunk compact_rows
  compact_chunk-Compacted start end p differs h w =
      of_rows (sort earlier_row (select (in_chunk c start end) p.table))
        (total-sort row_samples earlier_row (select (in_chunk c start end) p.table)
          ∙ total-ranged start end p.table)
        (All-sort IsRow earlier_row (select (in_chunk c start end) p.table)
          (All-select IsRow (in_chunk c start end) p.table h))
    where
      of_rows :
          (rows : Table V)
          → table_samples rows ≡ total (ranged start end) p.table
          → All IsRow rows
          → Compacted end p.table (compact_rows a c start end p rows).table
      of_rows [] e s = record {
        rows = h;
        samples = refl;
        waits = none_in_range start end p.table h (sym e) w;
      }
      of_rows (row ∷ rows) e s = compact_rows-Compacted start end p row rows differs h w e s
