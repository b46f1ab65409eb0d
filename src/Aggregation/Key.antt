-- ===== src/Aggregation/Key.antt =====
-- The key of a bucket in an accumulator, and its equality.
use infra_sentinel.Prelude.{◌≡◌, ◌↔◌, String, str_eq, eq_iff, Bool, true, false, ◌&&◌, arith}
use infra_sentinel.Prelude.Int.{ℤ, eqb_ℤ}
use infra_sentinel.Prelude.Dict.{Eq}

pub data Instrument : Type 0 where
  counter gauge quota event : Instrument

abbrev pub instrument_eq : Instrument → Instrument → Bool
instrument_eq counter counter = true
instrument_eq gauge gauge = true
instrument_eq quota quota = true
instrument_eq event event = true
instrument_eq _ _ = false

pub record BucketKey : Type 0 where
  pub target_epoch : ℤ
  pub metric : String
  pub instrument : Instrument
  pub unit : String
  pub source_id : String
  pub resource_id : String
  pub dimensions : String

abbrev pub keys_equal : BucketKey → BucketKey → Bool
keys_equal a b =
    eqb_ℤ a.target_epoch b.target_epoch
    && str_eq a.metric b.metric
    && instrument_eq a.instrument b.instrument
    && str_eq a.unit b.unit
    && str_eq a.source_id b.source_id
    && str_eq a.resource_id b.resource_id
    && str_eq a.dimensions b.dimensions

instrument_eq_iff : (a b : Instrument) → (instrument_eq a b ≡ true) ↔ (a ≡ b)
instrument_eq_iff a b = ground arith

eqb_ℤ_iff : (a b : ℤ) → (eqb_ℤ a b ≡ true) ↔ (a ≡ b)
eqb_ℤ_iff a b = ground arith

pub keys_equal_iff : (a b : BucketKey) → (keys_equal a b ≡ true) ↔ (a ≡ b)
keys_equal_iff a b = ground (
  arith,
  eqb_ℤ_iff a.target_epoch b.target_epoch,
  eq_iff a.metric b.metric,
  instrument_eq_iff a.instrument b.instrument,
  eq_iff a.unit b.unit,
  eq_iff a.source_id b.source_id,
  eq_iff a.resource_id b.resource_id,
  eq_iff a.dimensions b.dimensions,
)

instance abbrev pub key_eq : Eq BucketKey
key_eq = record { beq = keys_equal; beq_iff = keys_equal_iff }
