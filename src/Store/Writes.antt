-- ===== src/Store/Writes.antt =====
-- Points that are written again.
use infra_sentinel.Prelude.{
  ◌≡◌, refl, true, List, [], ◌∷◌, All, is_some, arith, Bool-cases, inl, inr,
}
use infra_sentinel.Prelude.Dict.{get, get-put, beq_refl}
use infra_sentinel.Aggregation.{MetricPoint}
use infra_sentinel.Store.{
  Identity, identity_instance, Row, Table, point_identity, point_row, insert_or_ignore, write,
}

module _ {V : Type 0} where
  abbrev pub IsStored : Table V → Identity → Type 0
  IsStored table id = is_some (get id table) ≡ true

  inserted :
      (id : Identity) (row : Row V) (table : Table V)
      → IsStored (insert_or_ignore id row table).0 id
  unfolding insert_or_ignore
  inserted id row table = elim (Bool-cases (is_some (get id table))) [
    | inl there ↦ rw there there
    | inr missing ↦ rw missing (ground (arith, get-put id id row table, beq_refl id))
  ]

  kept :
      (id other : Identity) (row : Row V) (table : Table V)
      → IsStored table other
      → IsStored (insert_or_ignore id row table).0 other
  unfolding insert_or_ignore
  kept id other row table h = elim (Bool-cases (is_some (get id table))) [
    | inl there ↦ rw there h
    | inr missing ↦ rw missing (ground (arith, get-put id other row table, h))
  ]

  write_kept :
      (table : Table V) (ps : List (MetricPoint V)) (id : Identity)
      → IsStored table id
      → IsStored (write table ps).0 id
  unfolding write
  write_kept table [] id h = h
  write_kept table (p ∷ rest) id h =
      write_kept (insert_or_ignore (point_identity p) (point_row p) table).0 rest id
        (kept (point_identity p) id (point_row p) table h)

  write_stored :
      (table : Table V) (ps : List (MetricPoint V))
      → All (λ p. IsStored (write table ps).0 (point_identity p)) ps
  unfolding write
  write_stored table [] = tt
  write_stored table (p ∷ rest) =
      let next = (insert_or_ignore (point_identity p) (point_row p) table).0 in
      (
        write_kept next rest (point_identity p) (inserted (point_identity p) (point_row p) table),
        write_stored next rest,
      )

  ignored :
      (table : Table V) (ps : List (MetricPoint V))
      → All (λ p. IsStored table (point_identity p)) ps
      → ((write table ps).0 ≡ table) × ((write table ps).1 ≡ 0)
  unfolding write insert_or_ignore
  ignored table [] h = (refl, refl)
  ignored table (p ∷ rest) h =
      let later = ignored table rest h.1 in rw h.0 (later.0, omega (arith, later.1))

  -- Points that are written again change nothing, and none of them counts as inserted, whatever stood in
  -- the table before.
  write_again :
      (table : Table V) (ps : List (MetricPoint V))
      → let after = (write table ps).0 in ((write after ps).0 ≡ after) × ((write after ps).1 ≡ 0)
  write_again table ps = ignored (write table ps).0 ps (write_stored table ps)
