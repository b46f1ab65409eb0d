-- ===== src/Receipts/Counts.antt =====
-- What the counts of an accepted receipt are.
use infra_sentinel.Prelude.{
  ℕ, ◌+◌, ◌≤◌, ◌≡◌, refl, String, Bool, true, false, ◌&&◌, Option, some, [], ◌∷◌, All, >>=-eq-some,
  subst, arith,
}
use mathlib.Core.Option.{some-injective}
use infra_sentinel.Prelude.Int.{ℤ, pos, ◌≤ℤ◌, ◌+ℤ◌}
use infra_sentinel.Prelude.Dict.{Dict, get, string_eq}
use infra_sentinel.Values.{Value}
use infra_sentinel.Receipts.{
  Field, Texts, Receipt, guard, ◌>>◌, count, count_of, counts_read, is_consistent, usage_of,
  complete, known, required_names, count_names, text_of, identity_of, timely, completion_of,
  counts_field, validate_receipt, max_tokens,
}

-- Counts that add up: each at most 10^12, the total that of input and output, the reasoning tokens
-- among the output, and the cached ones among the input.
pub record IsSound (usage : Dict String ℕ) : Type 0 where
  pub bounded : All (λ (entry : String × ℕ). entry.1 ≤ max_tokens) usage
  pub total : count "total_tokens" usage ≡ count "input_tokens" usage + count "output_tokens" usage
  pub reasoning : count "reasoning_output_tokens" usage ≤ count "output_tokens" usage
  pub cached :
      count "cached_input_tokens" usage + count "cache_write_input_tokens" usage
      ≤ count "input_tokens" usage

count_of_bounds : (v : Value) (n : ℕ) → count_of v ≡ some n → n ≤ max_tokens
unfolding count_of
count_of_bounds v n h = ground arith

counts_read_bounds :
    (raw : Dict String Value) (usage : Dict String ℕ)
    → counts_read raw ≡ some usage
    → All (λ (entry : String × ℕ). entry.1 ≤ max_tokens) usage
unfolding counts_read
counts_read_bounds [] usage h =
    subst (All (λ (entry : String × ℕ). entry.1 ≤ max_tokens)) (some-injective _ _ h) tt
counts_read_bounds ((name, v) ∷ rest) usage h =
    let (n, first, more) = >>=-eq-some (count_of v) _ h in
    let (others, second, last) = >>=-eq-some (counts_read rest) _ more in
    subst (All (λ (entry : String × ℕ). entry.1 ≤ max_tokens)) (some-injective _ _ last)
      (count_of_bounds v n first, counts_read_bounds rest others second)

-- A chain that yields a value has passed its guard.
guard-eq-some :
    {B : Type 0} (test : Bool) (k : Option B) {b : B}
    → (guard test >> k) ≡ some b
    → (test ≡ true) × (k ≡ some b)
guard-eq-some true k h = (refl, h)
guard-eq-some false k h = cc

usage_of-IsSound :
    (raw : Dict String Value) (usage : Dict String ℕ) → usage_of raw ≡ some usage → IsSound usage
unfolding usage_of is_consistent
usage_of-IsSound raw usage h =
    let (present, more) =
      guard-eq-some (complete required_names raw && known count_names raw) _ h in
    let (read, counted, rest) = >>=-eq-some (counts_read raw) _ more in
    let (related, last) = guard-eq-some _ _ rest in
    let sound : is_consistent read ≡ true = related in
    let good : IsSound read = record {
      bounded = counts_read_bounds raw read counted;
      total = ground (arith, sound);
      reasoning = ground (arith, sound);
      cached = ground (arith, sound);
    } in
    subst IsSound (some-injective _ _ last) good

counts_field-IsSound :
    (raw : Dict String Field) (usage : Dict String ℕ)
    → counts_field raw ≡ some usage
    → IsSound usage
unfolding counts_field
counts_field-IsSound raw usage h =
    let (tokens, _, read) = >>=-eq-some _ usage_of h in usage_of-IsSound tokens usage read

timely_bounds :
    (now epoch e : ℤ) → timely now epoch ≡ some e → (pos 946684800 ≤ℤ e) × (e ≤ℤ now +ℤ pos 300)
unfolding timely
timely_bounds now epoch e h = ground (arith, h)

completion_of_bounds :
    (t : Texts) (raw : Dict String Field) (now e : ℤ)
    → completion_of t raw now ≡ some e
    → (pos 946684800 ≤ℤ e) × (e ≤ℤ now +ℤ pos 300)
unfolding completion_of
completion_of_bounds t raw now e h =
    let (completed, _, more) = >>=-eq-some (text_of (get "completed_at" raw)) _ h in
    let (epoch, _, last) = >>=-eq-some (t.epoch_of completed) (timely now) more in
    timely_bounds now epoch e last

-- An accepted receipt has counts that add up, and was completed between the year 2000 and five
-- minutes from now.
pub validate_receipt-IsSound :
    (t : Texts) (raw : Dict String Field) (now : ℤ) (r : Receipt)
    → validate_receipt t raw now ≡ some r
    → IsSound r.usage × (pos 946684800 ≤ℤ r.epoch) × (r.epoch ≤ℤ now +ℤ pos 300)
unfolding validate_receipt
validate_receipt-IsSound t raw now r h =
    let (identity, _, more) = >>=-eq-some (identity_of t raw) _ h in
    let (epoch, completed, rest) = >>=-eq-some (completion_of t raw now) _ more in
    let (usage, counted, last) = >>=-eq-some (counts_field raw) _ rest in
    let good : IsSound usage × (pos 946684800 ≤ℤ epoch) × (epoch ≤ℤ now +ℤ pos 300) =
      let (early, late) = completion_of_bounds t raw now epoch completed in
      (counts_field-IsSound raw usage counted, early, late) in
    subst
      (λ (x : Receipt). IsSound x.usage × (pos 946684800 ≤ℤ x.epoch) × (x.epoch ≤ℤ now +ℤ pos 300))
      (some-injective _ _ last) good
