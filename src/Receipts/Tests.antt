-- ===== src/Receipts/Tests.antt =====
-- Tests of the ledger, with a receipt of 12 tokens.
use infra_sentinel.Prelude.{◌≡◌, refl, String, true, none, some, [], ◌∷◌}
use infra_sentinel.Prelude.Int.{pos, ◌≤ℤ◌, ◌+ℤ◌}
use infra_sentinel.Prelude.Dict.{Dict, get, string_eq}
use infra_sentinel.Values.{text, int}
use infra_sentinel.Receipts.{
  Field, plain, counts, Texts, Receipt, Row, Recorded, stored, duplicate, count, validate_receipt,
  record_receipt,
}
use infra_sentinel.Receipts.Counts.{IsSound, validate_receipt-IsSound}
use infra_sentinel.Receipts.Ledger.{recorded_twice}

abbrev texts : Texts
texts = record {
  size = λ raw. 300;
  is_hash = λ t. true;
  is_model = λ t. true;
  is_event_id = λ t. true;
  epoch_of = λ t. some (pos 1800000000);
  digest = λ client id. id;
}

abbrev raw : Dict String Field
raw =
    ("schema", plain (text "infra-sentinel.cli-usage.v1"))
    ∷ ("event_hash", plain (text "h"))
    ∷ ("client", plain (text "codex"))
    ∷ ("model", plain (text "m"))
    ∷ ("model_basis", plain (text "reported"))
    ∷ ("coverage", plain (text "isolated"))
    ∷ ("completed_at", plain (text "2027-01-15T08:00:00Z"))
    ∷ (
      "usage",
      counts (
          ("input_tokens", int (pos 10))
          ∷ ("output_tokens", int (pos 2))
          ∷ ("total_tokens", int (pos 12))
          ∷ []),
    )
    ∷ []

abbrev receipt : Receipt
receipt = record {
  event_hash = "h";
  client = "codex";
  model = "m";
  model_basis = "reported";
  epoch = pos 1800000000;
  usage = ("input_tokens", 10) ∷ ("output_tokens", 2) ∷ ("total_tokens", 12) ∷ [];
}

abbrev canonical : Receipt → String
canonical r = r.model

is_valid : validate_receipt texts raw (pos 1800000000) ≡ some receipt
unfolding validate_receipt infra_sentinel.Receipts.identity_of get
    infra_sentinel.Receipts.completion_of infra_sentinel.Receipts.timely ◌+ℤ◌
    infra_sentinel.Receipts.counts_field infra_sentinel.Receipts.usage_of
    infra_sentinel.Receipts.counts_read infra_sentinel.Receipts.count_of
    infra_sentinel.Receipts.is_consistent
is_valid = refl

still_valid : validate_receipt texts raw (pos 1800000060) ≡ some receipt
unfolding validate_receipt infra_sentinel.Receipts.identity_of get
    infra_sentinel.Receipts.completion_of infra_sentinel.Receipts.timely ◌+ℤ◌
    infra_sentinel.Receipts.counts_field infra_sentinel.Receipts.usage_of
    infra_sentinel.Receipts.counts_read infra_sentinel.Receipts.count_of
    infra_sentinel.Receipts.is_consistent
still_valid = refl

validate_receipt-IsSound_example :
    IsSound receipt.usage
    × (pos 946684800 ≤ℤ receipt.epoch)
    × (receipt.epoch ≤ℤ pos 1800000000 +ℤ pos 300)
validate_receipt-IsSound_example =
    validate_receipt-IsSound texts raw (pos 1800000000) receipt is_valid

abbrev empty : Dict String Row
empty = []

is_free : get receipt.event_hash empty ≡ none
unfolding get
is_free = refl

recorded_twice_example :
    let (once, first) = record_receipt texts canonical empty raw (pos 1800000000) in
    (first ≡ stored (count "total_tokens" receipt.usage))
    × (record_receipt texts canonical once raw (pos 1800000060)
        ≡ (once, duplicate (count "total_tokens" receipt.usage)))
recorded_twice_example =
    recorded_twice texts canonical empty raw (pos 1800000000) (pos 1800000060) receipt is_valid
      still_valid is_free

abbrev row : Row
row = record { canonical = "other"; receipt = receipt }

abbrev one : Dict String Row
one = ("h", row) ∷ []

stands : get "h" one ≡ some row
unfolding get
stands = refl
