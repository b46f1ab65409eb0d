-- ===== src/Aggregation/Totals.antt =====
-- What a merge of many buckets comes to.
use infra_sentinel.Prelude.{
  ℕ, ◌+◌, ◌≡◌, refl, sym, ap, ◌∙◌, Bool, true, false, some, List, [], ◌∷◌, All, arith, Bool-cases,
  inl, inr,
}
use infra_sentinel.Prelude.Dict.{get}
use infra_sentinel.Prelude.Int.{◌≤ℤ◌}
use infra_sentinel.Aggregation.Key.{
  BucketKey, Instrument, counter, gauge, keys_equal, keys_equal_iff, key_eq,
}
use infra_sentinel.Aggregation.{
  Arithmetic, MetricBucket, MetricAccumulator, key_of, first_sum, merge, merged_sum, add_buckets,
}
use infra_sentinel.Aggregation.Groups.{group, merged, get-add_buckets}

-- Instruments whose buckets add up.
abbrev pub is_additive : Instrument → Bool
is_additive counter = true
is_additive gauge = true
is_additive _ = false

module _ {V : Type 0} where
  abbrev pub samples : List (MetricBucket V) → ℕ
  samples [] = 0
  samples (b ∷ bs) = b.sample_count + samples bs

module _ {V : Type 0} (a : Arithmetic V) where
  -- A sum, and the contributions of further buckets added to it one by one: a counter's value, or a
  -- gauge's value as often as it was sampled.
  pub running : V → List (MetricBucket V) → V
  running sum [] = sum
  running sum (b ∷ bs) = running (a.add sum (first_sum a b.instrument b)) bs

  merge_additive :
      (m b : MetricBucket V)
      → is_additive b.instrument ≡ true
      → m.instrument ≡ b.instrument
      → (merge a m b).value_sum ≡ a.add m.value_sum (first_sum a b.instrument b)
  unfolding merge merged_sum first_sum
  merge_additive m b h e = ground arith

  merge_counts :
      (m b : MetricBucket V)
      → ((merge a m b).sample_count ≡ m.sample_count + b.sample_count)
        × ((merge a m b).instrument ≡ m.instrument)
        × (m.last_epoch ≤ℤ (merge a m b).last_epoch)
        × (b.last_epoch ≤ℤ (merge a m b).last_epoch)
  unfolding merge
  merge_counts m b = ground arith

  merged_totals :
      (r o : ℕ) (i : Instrument) (m : MetricBucket V) (bs : List (MetricBucket V))
      → is_additive i ≡ true
      → m.instrument ≡ i
      → All (λ b. b.instrument ≡ i) bs
      → (n : MetricBucket V) × (merged a r o (some m) bs ≡ some n)
        × (n.value_sum ≡ running m.value_sum bs)
        × (n.sample_count ≡ m.sample_count + samples bs)
  unfolding merged running
  merged_totals r o i m [] h e all = (m, refl, refl, omega arith)
  merged_totals r o i m (b ∷ bs) h e all =
      let counts = merge_counts m b in
      let (n, same, sum, count) = merged_totals r o i (merge a m b) bs h (counts.1 ∙ e) all.1 in
      (
        n,
        same,
        sum ∙ ap (λ v. running v bs) (merge_additive m b (ground (arith, all.0)) (e ∙ sym all.0)),
        omega (arith, counts.0),
      )

  group_instruments :
      (r o : ℕ) (key : BucketKey) (bs : List (MetricBucket V))
      → All (λ b. b.instrument ≡ key.instrument) (group r o key bs)
  unfolding key_of
  group_instruments r o key [] = tt
  group_instruments r o key (b ∷ bs) = elim (Bool-cases (keys_equal (key_of r o b) key)) [
    | inl same ↦ rw same (
      ap (λ (k : BucketKey). k.instrument) ((keys_equal_iff (key_of r o b) key).0 same),
      group_instruments r o key bs,
    )
    | inr other ↦ rw other (group_instruments r o key bs)
  ]

  -- Under the key of a counter or a gauge no addition is lost or counted twice: the sum that stands
  -- there is the sum from before with the contribution of each bucket of that key added once, in
  -- order, and the samples are counted likewise.
  pub add_buckets_totals :
      (acc : MetricAccumulator V) (bs : List (MetricBucket V)) (key : BucketKey)
      (m : MetricBucket V)
      → is_additive key.instrument ≡ true
      → m.instrument ≡ key.instrument
      → get key acc.buckets ≡ some m
      → let g = group acc.resolution_seconds acc.offset_seconds key bs in
        (n : MetricBucket V) × (get key (add_buckets a acc bs).buckets ≡ some n)
        × (n.value_sum ≡ running m.value_sum g)
        × (n.sample_count ≡ m.sample_count + samples g)
  add_buckets_totals acc bs key m h i e =
      let r = acc.resolution_seconds in
      let o = acc.offset_seconds in
      let g = group r o key bs in
      let (n, same, sum, count) =
        merged_totals r o key.instrument m g h i (group_instruments r o key bs) in
      (n, get-add_buckets a acc bs key ∙ ap (λ c. merged a r o c g) e ∙ same, sum, count)
