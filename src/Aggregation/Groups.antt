-- ===== src/Aggregation/Groups.antt =====
-- An accumulator is a grouping: under each key stands the merge of all that was added under it, in
-- the order in which it was added, whatever was added between under other keys.
use infra_sentinel.Prelude.{
  ℕ, ◌≡◌, refl, ap, subst, ◌∙◌, Option, some, List, [], ◌∷◌, select, if◌then◌else◌, Bool-cases, inl,
  inr,
}
use infra_sentinel.Prelude.Dict.{get, get-put}
use infra_sentinel.Aggregation.Key.{BucketKey, keys_equal, keys_equal_iff, key_eq}
use infra_sentinel.Aggregation.{
  Arithmetic, MetricBucket, MetricAccumulator, key_of, grow, add_bucket, add_buckets,
}

-- The buckets of a sequence that belong under a key.
abbrev pub group : {V : Type 0} → ℕ → ℕ → BucketKey → List (MetricBucket V) → List (MetricBucket V)
group resolution offset key bs = select (λ b. keys_equal (key_of resolution offset b) key) bs

module _ {V : Type 0} (a : Arithmetic V) where
  -- The merge of a group, from what stands under its key before.
  unfoldable pub merged :
      ℕ → ℕ → Option (MetricBucket V) → List (MetricBucket V) → Option (MetricBucket V)
  merged resolution offset current [] = current
  merged resolution offset current (b ∷ bs) =
      merged resolution offset (some (grow a resolution offset current b)) bs

  get-add_bucket :
      (acc : MetricAccumulator V) (b : MetricBucket V) (key : BucketKey)
      → let r = acc.resolution_seconds in
        let o = acc.offset_seconds in
        get key (add_bucket a acc b).buckets ≡ (
          if keys_equal (key_of r o b) key
          then some (grow a r o (get key acc.buckets) b)
          else get key acc.buckets)
  unfolding add_bucket
  get-add_bucket acc b key =
      let r = acc.resolution_seconds in
      let o = acc.offset_seconds in
      let own = key_of r o b in
      let added = get-put own key (grow a r o (get own acc.buckets) b) acc.buckets in
      elim (Bool-cases (keys_equal own key)) [
        | inl same ↦
            rw (added, same)
              (ap (λ k. some (grow a r o (get k acc.buckets) b)) ((keys_equal_iff own key).0 same))
        | inr other ↦ rw (added, other)
      ]

  pub get-add_buckets :
      (acc : MetricAccumulator V) (bs : List (MetricBucket V)) (key : BucketKey)
      → let r = acc.resolution_seconds in
        let o = acc.offset_seconds in
        get key (add_buckets a acc bs).buckets ≡ merged r o (get key acc.buckets) (group r o key bs)
  unfolding add_buckets merged add_bucket
  get-add_buckets acc [] key = refl
  get-add_buckets acc (b ∷ bs) key =
      let r = acc.resolution_seconds in
      let o = acc.offset_seconds in
      let rest = group r o key bs in
      let later = get-add_buckets (add_bucket a acc b) bs key in
      elim (Bool-cases (keys_equal (key_of r o b) key)) [
        | inl same ↦ rw same (
            later
            ∙ ap (λ c. merged r o c rest)
                (subst
                  (λ t. get key (add_bucket a acc b).buckets ≡ (
                    if t then some (grow a r o (get key acc.buckets) b) else get key acc.buckets))
                  same (get-add_bucket acc b key)))
        | inr other ↦ rw other (
            later
            ∙ ap (λ c. merged r o c rest)
                (subst
                  (λ t. get key (add_bucket a acc b).buckets ≡ (
                    if t then some (grow a r o (get key acc.buckets) b) else get key acc.buckets))
                  other (get-add_bucket acc b key)))
      ]
