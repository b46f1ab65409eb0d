-- ===== src/Receipts/Ledger.antt =====
-- The ledger of receipts: what is recorded once, and never changed.
use infra_sentinel.Prelude.{
  ◌≡◌, ◌⊎◌, inl, inr, refl, ap, ◌∙◌, String, str_eq, eq_iff, Option, none, some, arith,
  Option-cases, if◌then◌else◌,
}
use infra_sentinel.Prelude.Int.{ℤ}
use infra_sentinel.Prelude.Dict.{Dict, get, string_eq, get-put, beq_refl}
use infra_sentinel.Receipts.{
  Field, Texts, Receipt, Row, stored, duplicate, refused, count, validate_receipt, record_row,
  record_valid, record_receipt,
}

row_kept :
    (hash : String) (kept : Row) (rows : Dict String Row) (row : Row) (found : Option Row)
    → get row.receipt.event_hash rows ≡ found
    → get hash rows ≡ some kept
    → get hash (record_row rows row found).0 ≡ some kept
unfolding record_row
row_kept hash kept rows row none g there = ground (
  arith,
  get-put row.receipt.event_hash hash row rows,
  eq_iff row.receipt.event_hash hash,
  g,
  there,
)
row_kept hash kept rows row (some existing) g there = ground (arith, there)

module _ (t : Texts) (canonical : Receipt → String) (rows : Dict String Row)
    (raw : Dict String Field) (now : ℤ) where
  -- Recorded under a hash that is free, a valid receipt is stored with its total, stands under its
  -- hash, and changes no other row.
  pub stored_once :
      (r : Receipt) (other : String)
      → validate_receipt t raw now ≡ some r
      → get r.event_hash rows ≡ none
      → let (after, result) = record_receipt t canonical rows raw now in
        (result ≡ stored (count "total_tokens" r.usage))
        × (get r.event_hash after ≡ some (record { canonical = canonical r; receipt = r }))
        × ((other ≡ r.event_hash) ⊎ (get other after ≡ get other rows))
  unfolding record_receipt record_valid record_row
  stored_once r other valid free =
      let row : Row = record { canonical = canonical r; receipt = r } in
      rw (valid, free)
        (
          refl,
          get-put r.event_hash r.event_hash row rows
              ∙ ap (λ b. if b then some row else get r.event_hash rows) (beq_refl r.event_hash),
          ground (arith, get-put r.event_hash other row rows, eq_iff r.event_hash other),
        )

  -- Whatever is recorded, valid or not: a row that stands in the ledger stays as it is.
  pub rows_kept :
      (hash : String) (row : Row)
      → get hash rows ≡ some row
      → get hash (record_receipt t canonical rows raw now).0 ≡ some row
  unfolding record_receipt record_valid
  rows_kept hash row there = elim (Option-cases (validate_receipt t raw now)) [
    | inl invalid ↦ rw invalid there
    | inr (r, valid) ↦ rw valid (
        row_kept hash row rows (record { canonical = canonical r; receipt = r })
          (get r.event_hash rows) refl there)
  ]

  -- A receipt that is recorded again changes nothing and is reported as a duplicate, with its total;
  -- one with the hash of a recorded event and another canonical text is refused, and changes nothing.
  pub recorded_again :
      (r : Receipt) (row : Row)
      → validate_receipt t raw now ≡ some r
      → get r.event_hash rows ≡ some row
      → record_receipt t canonical rows raw now ≡ (
        rows,
        if str_eq row.canonical (canonical r)
            then duplicate (count "total_tokens" r.usage)
            else refused,
      )
  unfolding record_receipt record_valid record_row
  recorded_again r row valid there = rw (valid, there) (ground arith)

-- A valid receipt that is recorded under a free hash, and then once more at a later time at which it is
-- still valid, counts once: the second record is reported as a duplicate and changes nothing.
pub recorded_twice :
    (t : Texts) (canonical : Receipt → String) (rows : Dict String Row) (raw : Dict String Field)
    (now later : ℤ) (r : Receipt)
    → validate_receipt t raw now ≡ some r
    → validate_receipt t raw later ≡ some r
    → get r.event_hash rows ≡ none
    → let (once, first) = record_receipt t canonical rows raw now in
      (first ≡ stored (count "total_tokens" r.usage))
      × (record_receipt t canonical once raw later
          ≡ (once, duplicate (count "total_tokens" r.usage)))
recorded_twice t canonical rows raw now later r valid again free =
    let (result, there, _) = stored_once t canonical rows raw now r r.event_hash valid free in
    let once = (record_receipt t canonical rows raw now).0 in
    let row : Row = record { canonical = canonical r; receipt = r } in
    (
      result,
      recorded_again t canonical once raw later r row again there
          ∙ ap (λ b. (once, if b then duplicate (count "total_tokens" r.usage) else refused))
              ((eq_iff (canonical r) (canonical r)).1 refl),
    )
