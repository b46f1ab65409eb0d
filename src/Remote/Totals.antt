-- ===== src/Remote/Totals.antt =====
-- The totals that a fleet shows.
use infra_sentinel.Prelude.{◌+◌, ◌≤◌, str_eq, List, [], ◌∷◌, arith, Bool-cases, inl, inr}
use infra_sentinel.Remote.{RemoteServer, total_cycle, build_public_state}

-- What is billed of a fleet is at least what goes out, and at most what goes in and out.
total_cycle_bounds :
    (monitors : List RemoteServer)
    → let c = (build_public_state monitors).cycle in
      (c.out_bytes ≤ c.total_bytes) × (c.total_bytes ≤ c.in_bytes + c.out_bytes)
unfolding total_cycle build_public_state
total_cycle_bounds [] = (omega arith, omega arith)
total_cycle_bounds (s ∷ rest) =
    let (low, high) = total_cycle_bounds rest in
    elim (Bool-cases (str_eq s.config.billing_mode "both")) [
      | inl both ↦ rw both (omega (arith, low), omega (arith, high))
      | inr out ↦ rw out (omega (arith, low), omega (arith, high))
    ]
