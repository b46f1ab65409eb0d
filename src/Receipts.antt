-- ===== src/Receipts.antt =====
-- src/infra_sentinel/metrics/usage_receipts.py: the validation of a usage receipt and the ledger that
-- records it once. What the datetime, json, re and hashlib modules do with a receipt's texts (its size,
-- the pattern tests, its time, the digest and its canonical text) are arguments.
pub mod Counts
pub mod Ledger
mod Tests
use infra_sentinel.Prelude.{
  ℕ, ◌+◌, String, str_eq, ◌==◌, Bool, true, false, ◌&&◌, ◌||◌, not, Option, none, some, List, [],
  ◌∷◌, leb, any, all, is_some, or_default, ◌>>=◌, if◌then◌else◌,
}
use infra_sentinel.Prelude.Int.{ℤ, pos, negsuc, leb_ℤ, ◌+ℤ◌}
use infra_sentinel.Prelude.Dict.{Dict, get, put, remove, string_eq}
use infra_sentinel.Values.{Value, text, int}

-- A field of a receipt: the usage counts, or any other value.
pub data Field : Type 0 where
  plain : Value → Field
  counts : Dict String Value → Field

-- What the third-party modules find.
pub record Texts : Type 0 where
  pub size : Dict String Field → ℕ
  pub is_hash : String → Bool
  pub is_model : String → Bool
  pub is_event_id : String → Bool
  -- the epoch of a time with a timezone
  pub epoch_of : String → Option ℤ
  pub digest : Option Field → String → String

pub record Receipt : Type 0 where
  pub event_hash : String
  pub client : String
  pub model : String
  pub model_basis : String
  pub epoch : ℤ
  pub usage : Dict String ℕ

abbrev fields : List String
fields =
    "schema" ∷ "event_hash" ∷ "client" ∷ "model" ∷ "model_basis" ∷ "coverage" ∷ "completed_at"
    ∷ "usage" ∷ []

abbrev pub required_names : List String
required_names = "input_tokens" ∷ "output_tokens" ∷ "total_tokens" ∷ []

abbrev pub count_names : List String
count_names =
    "input_tokens" ∷ "output_tokens" ∷ "total_tokens" ∷ "cached_input_tokens"
    ∷ "cache_write_input_tokens" ∷ "reasoning_output_tokens" ∷ []

abbrev pub known : {A : Type 0} → List String → Dict String A → Bool
known names [] = true
known names ((name, v) ∷ rest) = any (str_eq name) names && known names rest

abbrev pub complete : {A : Type 0} → List String → Dict String A → Bool
complete names raw = all (λ name. is_some (get name raw)) names

abbrev pub guard : Bool → Option (Unit {0})
guard true = some tt
guard false = none

infixl 5 ◌>>◌
abbrev pub ◌>>◌ : {B : Type 0} → Option (Unit {0}) → Option B → Option B
m >> k = m >>= λ _. k

abbrev pub text_of : Option Field → Option String
text_of (some (plain (text t))) = some t
text_of _ = none

abbrev counts_of : Option Field → Option (Dict String Value)
counts_of (some (counts usage)) = some usage
counts_of _ = none

abbrev pub max_tokens : ℕ
max_tokens = 1000000000000

-- `type(value) is int and 0 <= value <= MAX_TOKENS`
unfoldable pub count_of : Value → Option ℕ
count_of (int (pos n)) = if leb n max_tokens then some n else none
count_of _ = none

unfoldable pub counts_read : Dict String Value → Option (Dict String ℕ)
counts_read [] = some []
counts_read ((name, v) ∷ rest) = do
  n ← count_of v
  others ← counts_read rest
  some ((name, n) ∷ others)

abbrev pub count : String → Dict String ℕ → ℕ
count name usage = or_default (get name usage) 0

-- The relations of the counts.
unfoldable pub is_consistent : Dict String ℕ → Bool
is_consistent usage =
    (count "total_tokens" usage == count "input_tokens" usage + count "output_tokens" usage)
    && leb (count "reasoning_output_tokens" usage) (count "output_tokens" usage)
    && leb (count "cached_input_tokens" usage + count "cache_write_input_tokens" usage)
        (count "input_tokens" usage)

unfoldable pub usage_of : Dict String Value → Option (Dict String ℕ)
usage_of raw = do
  guard (complete required_names raw && known count_names raw)
  usage ← counts_read raw
  guard (is_consistent usage)
  some usage

-- What a receipt is about.
pub record Identity : Type 0 where
  pub event_hash : String
  pub client : String
  pub model : String
  pub model_basis : String

-- The checks of `validate_receipt` before the time of completion.
unfoldable pub identity_of : Texts → Dict String Field → Option Identity
identity_of t raw = do
  guard (known fields raw && complete fields raw)
  guard (leb (t.size raw) 4096)
  schema ← text_of (get "schema" raw)
  coverage ← text_of (get "coverage" raw)
  guard (str_eq schema "infra-sentinel.cli-usage.v1" && str_eq coverage "isolated")
  client ← text_of (get "client" raw)
  basis ← text_of (get "model_basis" raw)
  guard (
      (str_eq client "codex" || str_eq client "agy")
      && (str_eq basis "reported" || str_eq basis "requested"))
  hash ← text_of (get "event_hash" raw)
  guard (t.is_hash hash)
  model ← text_of (get "model" raw)
  guard (t.is_model model)
  some (record { event_hash = hash; client = client; model = model; model_basis = basis })

-- A time from 2000 on, and at most five minutes ahead.
unfoldable pub timely : ℤ → ℤ → Option ℤ
timely now epoch =
    if leb_ℤ (pos 946684800) epoch && leb_ℤ epoch (now +ℤ pos 300) then some epoch else none

unfoldable pub completion_of : Texts → Dict String Field → ℤ → Option ℤ
completion_of t raw now = do
  completed ← text_of (get "completed_at" raw)
  epoch ← t.epoch_of completed
  timely now epoch

unfoldable pub counts_field : Dict String Field → Option (Dict String ℕ)
counts_field raw = do tokens ← counts_of (get "usage" raw); usage_of tokens

-- `validate_receipt`: `none` is a `ValueError`.
unfoldable pub validate_receipt : Texts → Dict String Field → ℤ → Option Receipt
validate_receipt t raw now = do
  identity ← identity_of t raw
  epoch ← completion_of t raw now
  usage ← counts_field raw
  some (record {
    event_hash = identity.event_hash;
    client = identity.client;
    model = identity.model;
    model_basis = identity.model_basis;
    epoch = epoch;
    usage = usage;
  })

-- `prepare_receipt`: the event's id is hashed before the receipt is validated.
unfoldable pub prepare_receipt : Texts → Dict String Field → ℤ → Option Receipt
prepare_receipt t raw now = do
  event_id ← text_of (get "event_id" raw)
  guard (not (is_some (get "event_hash" raw)) && t.is_event_id event_id)
  let hash = t.digest (get "client" raw) event_id
  validate_receipt t (put "event_hash" (plain (text hash)) (remove "event_id" raw)) now

-- The table: a receipt's canonical text and its counts under its event's hash.
pub record Row : Type 0 where
  pub canonical : String
  pub receipt : Receipt

pub data Recorded : Type 0 where
  -- recorded, with the total
  stored : ℕ → Recorded
  duplicate : ℕ → Recorded
  -- `ValueError`: an event with other usage, or an invalid receipt
  refused : Recorded

unfoldable pub record_row : Dict String Row → Row → Option Row → Dict String Row × Recorded
record_row rows row none =
    (put row.receipt.event_hash row rows, stored (count "total_tokens" row.receipt.usage))
record_row rows row (some existing) =
    if str_eq existing.canonical row.canonical
    then (rows, duplicate (count "total_tokens" row.receipt.usage))
    else (rows, refused)

unfoldable pub record_valid :
    (Receipt → String) → Dict String Row → Option Receipt → Dict String Row × Recorded
record_valid canonical rows none = (rows, refused)
record_valid canonical rows (some receipt) =
    record_row rows (record { canonical = canonical receipt; receipt = receipt })
      (get receipt.event_hash rows)

-- `UsageReceiptStore.record`
unfoldable pub record_receipt :
    Texts
    → (Receipt → String)
    → Dict String Row
    → Dict String Field
    → ℤ
    → Dict String Row × Recorded
record_receipt t canonical rows raw now = record_valid canonical rows (validate_receipt t raw now)
