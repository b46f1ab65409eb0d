-- ===== src/Store/Maintenance.antt =====
-- `maintain_history` and `replace_source_history_once` of metrics/store.py. The local midnight and the local day of
-- an epoch are arguments, and so is the text of a report.
use infra_sentinel.Prelude.{
  ◌+◌, ℕ, suc, ◌<◌, ◌≡◌, ◌≢◌, refl, ap, ◌∙◌, String, str_eq, Bool, true, false, ◌&&◌, ◌||◌, not,
  Option, none, some, List, [], ◌∷◌, select, any, All, ◌==◌, is_some, ◌>>=◌, arith, if◌then◌else◌,
  Bool-cases, inl, inr,
}
use infra_sentinel.Prelude.Int.{ℤ, pos, pos_part, ◌+ℤ◌, ◌-ℤ◌, ltb_ℤ, ◌<ℤ◌, +ℤ_parts, -ℤ_parts}
use infra_sentinel.Prelude.Dict.{Dict, get, put, get-put, beq_refl, string_eq}
use infra_sentinel.Aggregation.{Arithmetic, MetricPoint, bucket_start}
use infra_sentinel.Store.{Table, write}
use infra_sentinel.Store.Compaction.{Compaction, Progress, first_epoch, compact_resolution}
use infra_sentinel.Store.Compaction.Totals.{IsRow, table_samples}
use infra_sentinel.Store.Compaction.Loop.{compact_resolution-Finished}

pub record MetricStore (V : Type 0) : Type 0 where
  pub table : Table V
  pub metadata : Dict String String
  pub maintenance_epoch : Option ℤ

-- midnight % 86400
abbrev day_offset : ℤ → ℕ
day_offset midnight = pos_part (midnight -ℤ bucket_start midnight 86400 0)

abbrev of_all : ℕ → ℕ → ℤ → ℕ → Compaction
of_all source target cutoff offset = record {
  source_resolution = source;
  target_resolution = target;
  before_epoch = cutoff;
  offset_seconds = offset;
  resource_id = none;
}

-- The compactions of a maintenance, in the order in which they run.
unfoldable pub compactions : ℤ → ℤ → List Compaction
compactions now midnight =
    let offset = day_offset midnight in
    of_all 0 900 (bucket_start now 900 0) 0
    ∷ record (of_all 900 3600 (bucket_start midnight 3600 0) 0) { resource_id = some "ai_usage" }
    ∷ record (of_all 3600 86400 (bucket_start midnight 86400 offset) offset) {
      resource_id = some "ai_usage";
    }
    ∷ of_all 900 3600 (bucket_start (now -ℤ pos 604800) 3600 0) 0
    ∷ of_all 3600 86400 (bucket_start (now -ℤ pos 7776000) 86400 offset) offset
    ∷ []

module _ {V : Type 0} (a : Arithmetic V) where
  -- A pass for each second from the first row's bucket on.
  abbrev fuel_since : Compaction → Option ℤ → ℕ
  fuel_since c none = 1
  fuel_since c (some first) =
      suc (pos_part (c.before_epoch -ℤ bucket_start first c.target_resolution c.offset_seconds))

  abbrev compact : Table V → Compaction → Option (Progress V)
  compact table c = compact_resolution a c (fuel_since c (first_epoch c table none)) table

  unfoldable pub compact_all : Table V → List Compaction → Option (Table V × List (ℕ × ℕ))
  compact_all table [] = some (table, [])
  compact_all table (c ∷ rest) = compact table c >>= (λ q.
      compact_all q.table rest >>= (λ r. some (r.0, (q.source_points, q.target_points) ∷ r.1)))

  pub data Maintained : Type 0 where
    current : ℤ → Maintained
    -- the points that went and came from raw rows, to hours and to days
    compacted : List (ℕ × ℕ) → Maintained
    unfinished : Maintained

  abbrev previous_epoch : MetricStore V → ℤ
  previous_epoch s = elim s.maintenance_epoch [ none ↦ pos 0 | some e ↦ e ]

  -- The last maintenance was within a day, and on the same local day.
  unfoldable pub is_current : (ℤ → ℕ) → ℤ → ℤ → Bool
  is_current day_of previous now =
      ltb_ℤ (now -ℤ previous) (pos 86400) && ltb_ℤ (pos 0) previous && day_of previous == day_of now

  abbrev both_counts : ℕ × ℕ → ℕ × ℕ → ℕ × ℕ
  both_counts a b = (a.0 + b.0, a.1 + b.1)

  -- The counts of all resources with those of one.
  unfoldable pub tiers : List (ℕ × ℕ) → List (ℕ × ℕ)
  tiers (raw ∷ ai_hourly ∷ ai_daily ∷ hourly ∷ daily ∷ []) =
      raw ∷ both_counts hourly ai_hourly ∷ both_counts daily ai_daily ∷ []
  tiers counts = counts

  unfoldable pub maintained :
      MetricStore V → ℤ → Option (Table V × List (ℕ × ℕ)) → MetricStore V × Maintained
  maintained s now none = (s, unfinished)
  maintained s now (some (table, counts)) =
      (record s { table = table; maintenance_epoch = some now }, compacted (tiers counts))

  -- `maintain_history`
  unfoldable pub maintain_history :
      (ℤ → ℕ) → ℤ → ℤ → Bool → MetricStore V → MetricStore V × Maintained
  maintain_history day_of midnight now force s =
      let previous = previous_epoch s in
      if not force && is_current day_of previous now
      then (s, current previous)
      else maintained s now (compact_all s.table (compactions now midnight))

  -- `replace_source_history_once`: `none` is a `ValueError`. The text stands for the report.
  unfoldable pub replace_source_history_once :
      String
      → String
      → String
      → List (MetricPoint V)
      → MetricStore V
      → Option (MetricStore V × Bool)
  replace_source_history_once source_id migration_key report points s =
      if str_eq source_id ""
        || str_eq migration_key ""
        || any (λ (p : MetricPoint V). not (str_eq p.source_id source_id)) points
      then none
      else if is_some (get migration_key s.metadata)
      then some (s, false)
      else some (
        record s {
          table = (write (select (λ row. not (str_eq row.1.source_id source_id)) s.table) points).0;
          metadata = put migration_key report s.metadata;
        },
        true,
      )

  fuel_fits :
      (c : Compaction) (table : Table V) (first : ℤ)
      → first_epoch c table none ≡ some first
      → c.before_epoch
        <ℤ bucket_start first c.target_resolution c.offset_seconds
          +ℤ pos (fuel_since c (first_epoch c table none))
  fuel_fits c table first e =
      let start = bucket_start first c.target_resolution c.offset_seconds in
      rw e (
        ground (
          arith,
          +ℤ_parts start (pos (suc (pos_part (c.before_epoch -ℤ start)))),
          -ℤ_parts c.before_epoch start,
        ))

  IsProper : Compaction → Type 0
  IsProper c = (0 < c.target_resolution) × (c.source_resolution ≢ c.target_resolution)

  compact_all_samples :
      (cs : List Compaction) (table : Table V)
      → All IsProper cs
      → All IsRow table
      → (r : Table V × List (ℕ × ℕ)) × (compact_all table cs ≡ some r)
        × All IsRow r.0
        × (table_samples r.0 ≡ table_samples table)
  unfolding compact_all IsProper
  compact_all_samples [] table proper s = ((table, []), refl, s, refl)
  compact_all_samples (c ∷ rest) table proper s =
      let (q, e, f) =
        compact_resolution-Finished a c (fuel_since c (first_epoch c table none)) table proper.0.0
          proper.0.1 s (fuel_fits c table) in
      let (r, e', sound, same) = compact_all_samples rest q.table proper.1 f.rows in
      ((r.0, (q.source_points, q.target_points) ∷ r.1), rw e (rw e' refl), sound, same ∙ f.samples)

  IsProper-compactions : (now midnight : ℤ) → All IsProper (compactions now midnight)
  unfolding compactions IsProper
  IsProper-compactions now midnight = ground arith

  -- A maintenance, due or forced or neither, ends, and keeps the number of samples in the table: whatever
  -- it merges, none is lost and none counts twice.
  pub maintain_history_samples :
      (day_of : ℤ → ℕ) (midnight now : ℤ) (force : Bool) (s : MetricStore V)
      → All IsRow s.table
      → let (after, report) = maintain_history day_of midnight now force s in
        All IsRow after.table
        × (table_samples after.table ≡ table_samples s.table)
        × (report ≢ unfinished)
  unfolding maintain_history maintained
  maintain_history_samples day_of midnight now force s h =
      elim (Bool-cases (not force && is_current day_of (previous_epoch s) now)) [
        | inl recent ↦ rw recent (h, refl, ground arith)
        | inr due ↦
            let (r, e, sound, same) =
              compact_all_samples (compactions now midnight) s.table
                (IsProper-compactions now midnight) h in
            rw (due, e) (sound, same, ground arith)
      ]

  marked :
      (source_id key report : String) (points : List (MetricPoint V)) (s : MetricStore V)
      (r : MetricStore V × Bool)
      → replace_source_history_once source_id key report points s ≡ some r
      → is_some (get key r.0.metadata) ≡ true
  unfolding replace_source_history_once
  marked source_id key report points s r h =
      ground (arith, h, get-put key key report s.metadata, beq_refl key)

  unchanged :
      (source_id key report : String) (points : List (MetricPoint V)) (s : MetricStore V)
      (r : MetricStore V × Bool)
      → is_some (get key s.metadata) ≡ true
      → replace_source_history_once source_id key report points s ≡ some r
      → r ≡ (s, false)
  unfolding replace_source_history_once
  unchanged source_id key report points s r known h = ground (arith, h, known)

  -- A replacement that was made, or found made, is not made again: under the same key, with any points
  -- that are accepted, the store stays as it is.
  replaced_once :
      (source_id key report report' : String) (points points' : List (MetricPoint V))
      (s : MetricStore V)
      → (r r' : MetricStore V × Bool)
      → replace_source_history_once source_id key report points s ≡ some r
      → replace_source_history_once source_id key report' points' r.0 ≡ some r'
      → (r'.0 ≡ r.0) × (r'.1 ≡ false)
  replaced_once source_id key report report' points points' s r r' h h' =
      let e =
        unchanged source_id key report' points' r.0 r' (marked source_id key report points s r h)
          h' in
      (ap (λ (p : MetricStore V × Bool). p.0) e, ap (λ (p : MetricStore V × Bool). p.1) e)
