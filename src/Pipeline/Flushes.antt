-- ===== src/Pipeline/Flushes.antt =====
-- What a flush does with the buckets: they are in the store or in the accumulator, never lost.
use infra_sentinel.Prelude.{
  arith, ℕ, ◌≡◌, ◌≢◌, refl, sym, ap, subst, ◌∙◌, ◌⊎◌, Option, none, some, List, [], ◌∷◌, length,
  map, inl, inr,
}
use infra_sentinel.Prelude.Dict.{get}
use infra_sentinel.Prelude.Int.{ℤ}
use infra_sentinel.Aggregation.Key.{BucketKey, counter, key_eq}
use infra_sentinel.Aggregation.Time.{bucket_start}
use infra_sentinel.Aggregation.{
  Arithmetic, MetricPoint, MetricBucket, MetricAccumulator, point_bucket, add_point, add_points,
  add_buckets, drain_before,
}
use infra_sentinel.Aggregation.Groups.{group, merged, get-add_buckets}
use infra_sentinel.Aggregation.Draining.{
  IsAligned, drain_restored, drain_before-IsAligned, add_buckets-IsAligned,
}
use infra_sentinel.Pipeline.{
  Store, MetricPipeline, Flush, flushed, raised, finish_flush, write_out, flush_completed, ingest,
}

-- A batch of points is a batch of buckets of one sample.
add_points_buckets :
    {V : Type 0} (a : Arithmetic V) (acc : MetricAccumulator V) (points : List (MetricPoint V))
    → add_points a acc points ≡ add_buckets a acc (map point_bucket points)
unfolding add_points add_buckets add_point
add_points_buckets a acc [] = refl
add_points_buckets a acc (p ∷ ps) = add_points_buckets a (add_point a acc p) ps

module _ {V : Type 0} (a : Arithmetic V) (s : Store V) where
  -- The two ways in which a flush ends.
  abbrev pub IsKept : MetricPipeline a s → MetricPipeline a s → MetricAccumulator V → Type 0
  IsKept p q accumulator =
      (q.store ≡ p.store)
      × (q.last_flush_epoch ≡ p.last_flush_epoch)
      × (q.accumulator ≡ accumulator)

  -- The write is called where there are buckets, and nowhere else.
  abbrev pub IsWritten :
      MetricPipeline a s → MetricPipeline a s → List (MetricBucket V) → ℤ → Type 0
  IsWritten p q out now =
      ((out ≡ []) × (q.store ≡ p.store) × (q.last_flush_epoch ≡ p.last_flush_epoch))
      ⊎ ((out ≢ []) × (s.write_buckets p.store out ≡ some q.store) × (q.last_flush_epoch ≡ now))

  abbrev Ends :
      MetricPipeline a s
      → MetricAccumulator V
      → List (MetricBucket V)
      → ℤ
      → MetricPipeline a s × Flush
      → Type 0
  Ends p rest out now (q, raised) = IsKept p q (add_buckets a rest out)
  Ends p rest out now (q, flushed n) =
      (q.accumulator ≡ rest) × IsWritten p q out now × (n ≡ length out)

  finish_flush-Ends :
      (p : MetricPipeline a s) (rest : MetricAccumulator V) (out : List (MetricBucket V)) (now : ℤ)
      (written : Option s.State)
      → out ≢ []
      → s.write_buckets p.store out ≡ written
      → Ends p rest out now (finish_flush a s p rest out now written)
  unfolding finish_flush
  finish_flush-Ends p rest out now none some_out h = (refl, refl, refl)
  finish_flush-Ends p rest out now (some store) some_out h = (refl, inr (some_out, h, refl), refl)

  write_out-Ends :
      (p : MetricPipeline a s) (rest : MetricAccumulator V) (out : List (MetricBucket V)) (now : ℤ)
      → Ends p rest out now (write_out a s p (rest, out) now)
  unfolding write_out
  write_out-Ends p rest [] now = (refl, inl (refl, refl, refl), refl)
  write_out-Ends p rest (b ∷ bs) now =
      finish_flush-Ends p rest (b ∷ bs) now (s.write_buckets p.store (b ∷ bs))
        (λ e. absurd (ground (arith, e))) refl

  -- The completed buckets, and what is left of the accumulator.
  abbrev pub completed : MetricPipeline a s → ℤ → MetricAccumulator V × List (MetricBucket V)
  completed p now = drain_before p.accumulator (bucket_start now p.resolution_seconds 0)

  abbrev pub with_points : MetricPipeline a s → List (MetricPoint V) → MetricPipeline a s
  with_points p points = record p { accumulator = add_points a p.accumulator points }

  with_points-IsAligned :
      (p : MetricPipeline a s) (points : List (MetricPoint V))
      → IsAligned p.accumulator
      → IsAligned (with_points p points).accumulator
  with_points-IsAligned p points h =
      subst IsAligned (sym (add_points_buckets a p.accumulator points))
        (add_buckets-IsAligned a p.accumulator (map point_bucket points) h)

  Ends-IsAligned :
      (p : MetricPipeline a s) (rest : MetricAccumulator V) (out : List (MetricBucket V)) (now : ℤ)
      (result : MetricPipeline a s × Flush)
      → IsAligned rest
      → Ends p rest out now result
      → IsAligned result.0.accumulator
  Ends-IsAligned p rest out now (q, raised) h e =
      subst IsAligned (sym e.2) (add_buckets-IsAligned a rest out h)
  Ends-IsAligned p rest out now (q, flushed n) h e = subst IsAligned (sym e.0) h

  module _ (p : MetricPipeline a s) (points : List (MetricPoint V)) (now : ℤ) where
    ingest-Ends :
        let (rest, out) = completed (with_points p points) now in
        Ends p rest out now (ingest a s p points now)
    unfolding ingest flush_completed write_out
    ingest-Ends =
        let (rest, out) = completed (with_points p points) now in
        write_out-Ends (with_points p points) rest out now

    -- Put together again, what is completed and what is left are all.
    whole :
        (key : BucketKey)
        → IsAligned p.accumulator
        → key.instrument ≡ counter
        → let (rest, out) = completed (with_points p points) now in
          get key (add_buckets a rest out).buckets
          ≡ merged a p.accumulator.resolution_seconds p.accumulator.offset_seconds
              (get key p.accumulator.buckets)
              (group p.accumulator.resolution_seconds p.accumulator.offset_seconds key
                (map point_bucket points))
    whole key h i =
        drain_restored a (with_points p points).accumulator
          (bucket_start now p.resolution_seconds 0) key (with_points-IsAligned p points h) i
        ∙ ap (λ (m : MetricAccumulator V). get key m.buckets)
            (add_points_buckets a p.accumulator points)
        ∙ get-add_buckets a p.accumulator (map point_bucket points) key

    -- When the store's write raises in an `ingest` into an aligned accumulator, the store and the
    -- last flush's epoch are as before, and every counter stands at the merge of its new points, in
    -- order, into what it was before: no new and no old one is lost or counted twice.
    pub ingest-raised :
        (q : MetricPipeline a s) (key : BucketKey)
        → IsAligned p.accumulator
        → ingest a s p points now ≡ (q, raised)
        → key.instrument ≡ counter
        → let r = p.accumulator.resolution_seconds in
          let o = p.accumulator.offset_seconds in
          (q.store ≡ p.store)
          × (q.last_flush_epoch ≡ p.last_flush_epoch)
          × (get key q.accumulator.buckets
              ≡ merged a r o
                  (get key p.accumulator.buckets)
                  (group r o key (map point_bucket points)))
    ingest-raised q key h e i =
        let (rest, out) = completed (with_points p points) now in
        let kept : IsKept p q (add_buckets a rest out) =
          subst (Ends p rest out now) e ingest-Ends in
        (kept.0, kept.1, ap (λ (m : MetricAccumulator V). get key m.buckets) kept.2 ∙ whole key h i)

    -- An `ingest` into an aligned accumulator that does not raise gives the store's write some buckets, as many
    -- as it reports: none, and the store and the last flush's epoch are as before; or some, and the store is the
    -- outcome of writing them, and the epoch is now. Put back into the accumulator that is left they give, for
    -- every counter, the merge of its new points, in order, into what it was before: between the accumulator
    -- and the store no point is lost or counted twice.
    pub ingest_flushed :
        (q : MetricPipeline a s) (n : ℕ)
        → IsAligned p.accumulator
        → ingest a s p points now ≡ (q, flushed n)
        → let r = p.accumulator.resolution_seconds in
          let o = p.accumulator.offset_seconds in
          (out : List (MetricBucket V)) × (n ≡ length out)
          × IsWritten p q out now
          × ((key : BucketKey)
              → key.instrument ≡ counter
              → get key (add_buckets a q.accumulator out).buckets
                ≡ merged a r o
                    (get key p.accumulator.buckets)
                    (group r o key (map point_bucket points)))
    ingest_flushed q n h e =
        let (rest, out) = completed (with_points p points) now in
        let ends = subst (Ends (with_points p points) rest out now) e ingest-Ends in
        (
          out,
          ends.2,
          ends.1,
          λ key i.
              ap (λ (m : MetricAccumulator V). get key (add_buckets a m out).buckets) ends.0
              ∙ whole key h i,
        )

    -- Every `ingest` keeps the accumulator aligned, whether the store's write raises or not.
    pub ingest-IsAligned :
        IsAligned p.accumulator → IsAligned (ingest a s p points now).0.accumulator
    ingest-IsAligned h =
        let (rest, out) = completed (with_points p points) now in
        let cutoff = bucket_start now p.resolution_seconds 0 in
        let left =
          drain_before-IsAligned (with_points p points).accumulator cutoff
            (with_points-IsAligned p points h) in
        Ends-IsAligned (with_points p points) rest out now (ingest a s p points now) left
          ingest-Ends
