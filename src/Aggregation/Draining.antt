-- ===== src/Aggregation/Draining.antt =====
-- Taking completed buckets out of an accumulator, and putting them back.
use infra_sentinel.Prelude.{
  ℕ, ◌<◌, ◌≡◌, refl, sym, ap, ◌∙◌, Bool, not, Option, none, some, List, [], ◌∷◌, All, select, arith,
  Bool-cases, Option-cases, inl, inr,
}
use infra_sentinel.Prelude.Dict.{Dict, get}
use infra_sentinel.Prelude.Int.{ℤ}
use infra_sentinel.Prelude.Entries.{
  Unique, All-put, All-get, Unique-put, Unique-select, get-select, get-select-none,
}
use infra_sentinel.Aggregation.Time.{bucket_start_again}
use infra_sentinel.Aggregation.Key.{BucketKey, counter, keys_equal, keys_equal_iff, key_eq}
use infra_sentinel.Aggregation.{
  Arithmetic, MetricBucket, MetricAccumulator, key_of, start, first_sum, merge, grow, value_by,
  add_bucket, add_buckets, values, drain_before, is_before,
}
use infra_sentinel.Aggregation.Groups.{group, merged, get-add_buckets}

module _ {V : Type 0} where
  -- An entry of an accumulator: its bucket lies at the start of the key's interval.
  pub record IsEntry (resolution offset : ℕ) (entry : BucketKey × MetricBucket V) : Type 0 where
    pub keyed : key_of resolution offset entry.1 ≡ entry.0
    pub placed : entry.1.observed_epoch ≡ entry.0.target_epoch
    pub resolved : entry.1.resolution_seconds ≡ resolution

  pub record IsAligned (acc : MetricAccumulator V) : Type 0 where
    pub positive : 0 < acc.resolution_seconds
    pub entries : All (IsEntry acc.resolution_seconds acc.offset_seconds) acc.buckets
    pub unique : Unique acc.buckets

  module _ (a : Arithmetic V) where
    start-IsEntry :
        (r o : ℕ) (b : MetricBucket V) → 0 < r → IsEntry r o (key_of r o b, start a r o b)
    unfolding start key_of
    start-IsEntry r o b h =
        let again = bucket_start_again b.observed_epoch r o h in
        record {
          keyed = ap (λ t. record (key_of r o b) { target_epoch = t }) again;
          placed = refl;
          resolved = refl;
        }

    merge-IsEntry :
        (r o : ℕ) (key : BucketKey) (m b : MetricBucket V)
        → IsEntry r o (key, m)
        → IsEntry r o (key, merge a m b)
    unfolding merge key_of
    merge-IsEntry r o key m b h = record {
      keyed = h.keyed;
      placed = h.placed;
      resolved = h.resolved;
    }

    -- Every addition keeps an accumulator aligned: each key once, and its bucket at the start of its
    -- interval.
    pub add_bucket-IsAligned :
        (acc : MetricAccumulator V) (b : MetricBucket V)
        → IsAligned acc
        → IsAligned (add_bucket a acc b)
    unfolding add_bucket
    add_bucket-IsAligned acc b h =
        let r = acc.resolution_seconds in
        let o = acc.offset_seconds in
        let key = key_of r o b in
        let entry : (c : Option (MetricBucket V))
            → get key acc.buckets ≡ c
            → IsEntry r o (key, grow a r o c b) =
          λ c e. elim (Option-cases c) [
            | inl gone ↦ rw gone (start-IsEntry r o b h.positive)
            | inr (m, there) ↦ rw there (
                merge-IsEntry r o key m b
                  (All-get (IsEntry r o) key acc.buckets h.entries (e ∙ there)))
          ] in
        record {
          positive = h.positive;
          entries =
              All-put (IsEntry r o) key (grow a r o (get key acc.buckets) b) acc.buckets
                (entry (get key acc.buckets) refl) h.entries;
          unique = Unique-put key (grow a r o (get key acc.buckets) b) acc.buckets h.unique;
        }

  abbrev singleton : Option (MetricBucket V) → List (MetricBucket V)
  singleton none = []
  singleton (some b) = b ∷ []

  -- Among the buckets of aligned entries a key has its own one alone.
  group-values :
      (r o : ℕ) (key : BucketKey) (m : Dict BucketKey (MetricBucket V))
      → All (IsEntry r o) m
      → Unique m
      → group r o key (values m) ≡ singleton (get key m)
  unfolding get
  group-values r o key [] h u = refl
  group-values r o key ((k, b) ∷ m) h u =
      let rest = group-values r o key m h.1 u.1 in
      rw h.0.keyed (elim (Bool-cases (keys_equal k key)) [
        | inl same ↦
            let alone =
              ap singleton (ap (λ i. get i m) (sym ((keys_equal_iff k key).0 same)) ∙ u.0) in
            rw same (ap (λ (l : List (MetricBucket V)). b ∷ l) (rest ∙ alone))
        | inr other ↦ rw other rest
      ])

  All-select :
      (P : BucketKey × MetricBucket V → Type 0) (test : BucketKey × MetricBucket V → Bool)
      (m : Dict BucketKey (MetricBucket V))
      → All P m
      → All P (select test m)
  All-select P test [] h = h
  All-select P test (x ∷ m) h = elim (Bool-cases (test x)) [
    | inl kept ↦ rw kept (h.0, All-select P test m h.1)
    | inr left ↦ rw left (All-select P test m h.1)
  ]

  -- What a drain leaves is aligned.
  pub drain_before-IsAligned :
      (acc : MetricAccumulator V) (cutoff : ℤ)
      → IsAligned acc
      → IsAligned (drain_before acc cutoff).0
  unfolding drain_before
  drain_before-IsAligned acc cutoff h =
      let later : BucketKey × MetricBucket V → Bool = λ e. not (is_before cutoff e) in
      record {
        positive = h.positive;
        entries =
            All-select (IsEntry acc.resolution_seconds acc.offset_seconds) later acc.buckets
              h.entries;
        unique = Unique-select later acc.buckets h.unique;
      }

  pub add_buckets-IsAligned :
      (a : Arithmetic V) (acc : MetricAccumulator V) (bs : List (MetricBucket V))
      → IsAligned acc
      → IsAligned (add_buckets a acc bs)
  unfolding add_buckets
  add_buckets-IsAligned a acc [] h = h
  add_buckets-IsAligned a acc (b ∷ bs) h =
      add_buckets-IsAligned a (add_bucket a acc b) bs (add_bucket-IsAligned a acc b h)

  -- A counter's bucket begins a new bucket equal to itself.
  start_counter :
      (a : Arithmetic V) (r o : ℕ) (key : BucketKey) (b : MetricBucket V)
      → key.instrument ≡ counter
      → IsEntry r o (key, b)
      → start a r o b ≡ b
  unfolding start first_sum value_by key_of
  start_counter a r o key b h e =
      let target = ap (λ (k : BucketKey). k.target_epoch) e.keyed in
      let instrument = ap (λ (k : BucketKey). k.instrument) e.keyed in
      ground (arith, target, instrument, e.placed, e.resolved, h)

  module _ (a : Arithmetic V) (acc : MetricAccumulator V) (cutoff : ℤ) where
    abbrev drained : Dict BucketKey (MetricBucket V)
    drained = select (is_before cutoff) acc.buckets

    abbrev left : Dict BucketKey (MetricBucket V)
    left = select (λ e. not (is_before cutoff e)) acc.buckets

    rejoined :
        (key : BucketKey)
        → IsAligned acc
        → key.instrument ≡ counter
        → merged a acc.resolution_seconds acc.offset_seconds
            (get key left)
            (singleton (get key drained))
          ≡ get key acc.buckets
    unfolding merged
    rejoined key h i =
        let r = acc.resolution_seconds in
        let o = acc.offset_seconds in
        elim (Option-cases (get key acc.buckets)) [
          | inl gone ↦ rw (
            get-select-none (λ e. not (is_before cutoff e)) key acc.buckets gone,
            get-select-none (is_before cutoff) key acc.buckets gone,
            gone,
          )
          | inr (b, there) ↦
              let entry = All-get (IsEntry r o) key acc.buckets h.entries there in
              let before = get-select (is_before cutoff) key acc.buckets h.unique there in
              let after =
                get-select (λ e. not (is_before cutoff e)) key acc.buckets h.unique there in
              elim (Bool-cases (is_before cutoff (key, b))) [
                | inl out ↦
                    rw (before, after, there, out) (ap some (start_counter a r o key b i entry))
                | inr kept ↦ rw (before, after, there, kept)
              ]
        ]

    -- Completed buckets that could not be written are put back: the counters are exactly as before.
    pub drain_restored :
        (key : BucketKey)
        → IsAligned acc
        → key.instrument ≡ counter
        → let (rest, out) = drain_before acc cutoff in
          get key (add_buckets a rest out).buckets ≡ get key acc.buckets
    unfolding drain_before merged
    drain_restored key h i =
        let r = acc.resolution_seconds in
        let o = acc.offset_seconds in
        let own =
          group-values r o key drained
            (All-select (IsEntry r o) (is_before cutoff) acc.buckets h.entries)
            (Unique-select (is_before cutoff) acc.buckets h.unique) in
        get-add_buckets a (record acc { buckets = left }) (values drained) key
        ∙ ap (λ g. merged a r o (get key left) g) own
        ∙ rejoined key h i
