-- ===== src/Store/Compaction/Loop.antt =====
-- The loop over the chunks: it ends, keeps the samples, and leaves no old row.
use infra_sentinel.Prelude.{
  ℕ, zero, suc, ◌<◌, ◌≡◌, ◌≢◌, refl, sym, ◌∙◌, subst, true, false, Option, none, some, [], ◌∷◌, All,
  arith, if◌then◌else◌, Bool-cases, inl, inr,
}
use infra_sentinel.Prelude.Int.{ℤ, pos, ◌+ℤ◌, ltb_ℤ, ◌≤ℤ◌, ◌<ℤ◌, +ℤ_parts}
use infra_sentinel.Aggregation.{Arithmetic, bucket_start}
use infra_sentinel.Aggregation.Time.{bucket_start_bounds}
use infra_sentinel.Store.{Identity, Row, Table}
use infra_sentinel.Store.Compaction.{
  Compaction, Progress, is_old, earliest, first_epoch, chunk_seconds, least_epoch, compact_chunk,
  compact_from, compact_since, compact_resolution,
}
use infra_sentinel.Store.Compaction.Totals.{IsRow, table_samples}
use infra_sentinel.Store.Compaction.Steps.{Waits, compact_chunk-Compacted}

-- The end of a chunk is after its start, and at most the epoch before which rows are old.
chunk_end :
    (c : Compaction) (start : ℤ)
    → 0 < c.target_resolution
    → start <ℤ c.before_epoch
    → (start <ℤ least_epoch c.before_epoch (start +ℤ pos (chunk_seconds c)))
      × (least_epoch c.before_epoch (start +ℤ pos (chunk_seconds c)) ≤ℤ c.before_epoch)
chunk_end c start h lt = ground (arith, +ℤ_parts start (pos (chunk_seconds c)), h, lt)

module _ {V : Type 0} (a : Arithmetic V) (c : Compaction) where
  abbrev NoOld : Identity × Row V → Type 0
  NoOld row = is_old c row.1 ≡ false

  -- The table after a compaction: as many samples, and no row that is still to be compacted.
  pub record Finished (before after : Table V) : Type 0 where
    pub rows : All IsRow after
    pub samples : table_samples after ≡ table_samples before
    pub compacted : All NoOld after

  none_left :
      (start : ℤ) (rows : Table V)
      → c.before_epoch ≤ℤ start
      → All (Waits a c start) rows
      → All NoOld rows
  none_left start [] h w = tt
  none_left start ((id, r) ∷ rest) h w = (absent start r h w.0, none_left start rest h w.1)
    where
      absent :
          (start : ℤ) (r : Row V)
          → c.before_epoch ≤ℤ start
          → (is_old c r ≡ true → start ≤ℤ r.observed_epoch)
          → is_old c r ≡ false
      absent start r h w = elim (Bool-cases (is_old c r)) [
        | inr young ↦ young
        | inl old ↦ ground (arith, old, h, w old)
      ]

  compact_from_finishes :
      (fuel : ℕ) (start : ℤ) (p : Progress V)
      → 0 < c.target_resolution
      → c.source_resolution ≢ c.target_resolution
      → start ≤ℤ c.before_epoch
      → c.before_epoch <ℤ start +ℤ pos fuel
      → All IsRow p.table
      → All (Waits a c start) p.table
      → (q : Progress V) × (compact_from a c fuel start p ≡ some q) × Finished p.table q.table
  unfolding compact_from
  compact_from_finishes zero start p h differs low fits s w =
      absurd (omega (arith, +ℤ_parts start (pos 0), low, fits))
  compact_from_finishes (suc fuel) start p h differs low fits s w =
      elim (Bool-cases (ltb_ℤ start c.before_epoch)) [
        | inr done ↦ rw done (
          p,
          refl,
          record {
            rows = s;
            samples = refl;
            compacted = none_left start p.table (ground (arith, done)) w;
          },
        )
        | inl more ↦
            let end = least_epoch c.before_epoch (start +ℤ pos (chunk_seconds c)) in
            let (grows, stays) = chunk_end c start h (ground (arith, more)) in
            let chunk = compact_chunk-Compacted a c start end p differs s w in
            let (q, e, f) =
              compact_from_finishes fuel end (compact_chunk a c start end p) h differs stays
                (omega
                  (arith, +ℤ_parts start (pos (suc fuel)), +ℤ_parts end (pos fuel), grows, fits))
                chunk.rows chunk.waits in
            rw more (
              q,
              e,
              record {
                rows = f.rows;
                samples = f.samples ∙ chunk.samples;
                compacted = f.compacted;
              },
            )
      ]

  -- An epoch that was found is at most another.
  LeastOf : Option ℤ → ℤ → Type 0
  LeastOf none x = ⊥
  LeastOf (some f) x = f ≤ℤ x

  least_step : (found : Option ℤ) (epoch x : ℤ) → LeastOf found x → LeastOf (earliest found epoch) x
  unfolding LeastOf
  least_step none epoch x h = absurd h
  least_step (some f) epoch x h = ground (arith, h)

  least_new : (found : Option ℤ) (epoch : ℤ) → LeastOf (earliest found epoch) epoch
  unfolding LeastOf
  least_new none epoch = ground arith
  least_new (some f) epoch = ground arith

  least_kept :
      (rows : Table V) (found : Option ℤ) (x : ℤ)
      → LeastOf found x
      → LeastOf (first_epoch c rows found) x
  unfolding first_epoch
  least_kept [] found x h = h
  least_kept ((id, r) ∷ rest) found x h = elim (Bool-cases (is_old c r)) [
    | inl old ↦ rw old (
        least_kept rest (earliest found r.observed_epoch) x (least_step found r.observed_epoch x h))
    | inr young ↦ rw young (least_kept rest found x h)
  ]

  first_epoch_least :
      (rows : Table V) (found : Option ℤ)
      → All
          (λ row. is_old c row.1 ≡ true → LeastOf (first_epoch c rows found) row.1.observed_epoch)
          rows
  unfolding first_epoch
  first_epoch_least [] found = tt
  first_epoch_least ((id, r) ∷ rest) found = (
    λ old.
        subst
          (λ b.
            LeastOf (first_epoch c rest (if b then earliest found r.observed_epoch else found))
              r.observed_epoch)
          (sym old)
          (least_kept rest (earliest found r.observed_epoch) r.observed_epoch
            (least_new found r.observed_epoch)),
    first_epoch_least rest (if is_old c r then earliest found r.observed_epoch else found),
  )

  Early : Option ℤ → Type 0
  Early none = Unit
  Early (some f) = f <ℤ c.before_epoch

  Early-step :
      (found : Option ℤ) (r : Row V)
      → is_old c r ≡ true
      → Early found
      → Early (earliest found r.observed_epoch)
  unfolding Early
  Early-step none r old h = ground (arith, old)
  Early-step (some f) r old h = ground (arith, old, h)

  first_epoch-Early :
      (rows : Table V) (found : Option ℤ) → Early found → Early (first_epoch c rows found)
  unfolding first_epoch
  first_epoch-Early [] found h = h
  first_epoch-Early ((id, r) ∷ rest) found h = elim (Bool-cases (is_old c r)) [
    | inl old ↦
        rw old (first_epoch-Early rest (earliest found r.observed_epoch) (Early-step found r old h))
    | inr young ↦ rw young (first_epoch-Early rest found h)
  ]

  none_old :
      (rows : Table V)
      → All (λ row. is_old c row.1 ≡ true → LeastOf none row.1.observed_epoch) rows
      → All NoOld rows
  unfolding LeastOf
  none_old [] h = tt
  none_old ((id, r) ∷ rest) h = elim (Bool-cases (is_old c r)) [
    | inl old ↦ absurd (h.0 old)
    | inr young ↦ (young, none_old rest h.1)
  ]

  Waits-from :
      (start f : ℤ) (rows : Table V)
      → start ≤ℤ f
      → All (λ row. is_old c row.1 ≡ true → LeastOf (some f) row.1.observed_epoch) rows
      → All (Waits a c start) rows
  unfolding LeastOf
  Waits-from start f [] le h = tt
  Waits-from start f ((id, r) ∷ rest) le h =
      ((λ old. omega (arith, le, h.0 old)), Waits-from start f rest le h.1)

  since_finishes :
      (fuel : ℕ) (p : Progress V) (first : Option ℤ)
      → 0 < c.target_resolution
      → c.source_resolution ≢ c.target_resolution
      → All IsRow p.table
      → All (λ row. is_old c row.1 ≡ true → LeastOf first row.1.observed_epoch) p.table
      → Early first
      → ((f : ℤ)
          → first ≡ some f
          → c.before_epoch <ℤ bucket_start f c.target_resolution c.offset_seconds +ℤ pos fuel)
      → (q : Progress V) × (compact_since a c fuel p first ≡ some q) × Finished p.table q.table
  unfolding compact_since Early
  since_finishes fuel p none h differs s l e fits =
      (p, refl, record { rows = s; samples = refl; compacted = none_old p.table l })
  since_finishes fuel p (some f) h differs s l e fits =
      let below = (bucket_start_bounds f c.target_resolution c.offset_seconds h).0 in
      compact_from_finishes fuel (bucket_start f c.target_resolution c.offset_seconds) p h differs
        (omega (arith, below, e)) (fits f refl) s
        (Waits-from (bucket_start f c.target_resolution c.offset_seconds) f p.table below l)

  -- The compaction of a resolution to another one ends, with a pass at most for each second from the first
  -- row's bucket to the epoch before which rows are old. The table then has as many samples as before, and
  -- no row is left that is to be compacted; and all rows keep the resolution of their identity.
  pub compact_resolution-Finished :
      (fuel : ℕ) (table : Table V)
      → 0 < c.target_resolution
      → c.source_resolution ≢ c.target_resolution
      → All IsRow table
      → ((first : ℤ)
          → first_epoch c table none ≡ some first
          → c.before_epoch <ℤ bucket_start first c.target_resolution c.offset_seconds +ℤ pos fuel)
      → (q : Progress V) × (compact_resolution a c fuel table ≡ some q) × Finished table q.table
  unfolding compact_resolution Early
  compact_resolution-Finished fuel table h differs s fits =
      since_finishes fuel (record { table = table; source_points = 0; target_points = 0 })
        (first_epoch c table none) h differs s (first_epoch_least table none)
        (first_epoch-Early table none tt) fits
