-- ===== src/Vps/Deltas.antt =====
-- The deltas of a sequence of counter readings.
use infra_sentinel.Prelude.{
  ℕ, ◌+◌, ◌≤◌, ◌≡◌, ◌⊎◌, inl, inr, sym, subst, refl, String, str_eq, eq_iff, true, false, ◌&&◌, leb,
  Bool-cases, Option-cases, List, [], ◌∷◌, Option, some, arith,
}
use infra_sentinel.Vps.{
  Reading, Baseline, Sample, apply, baseline, byte_delta, packet_deltas, sum_bytes,
}

-- The samples of readings taken one after the other, and the last baseline.
unfoldable pub apply_all : Option Baseline → List Reading → Option Baseline × List Sample
apply_all prior [] = (prior, [])
apply_all prior (raw ∷ rest) =
    let (next, sample) = apply prior raw in
    let (last, samples) = apply_all next rest in (last, sample ∷ samples)

-- Readings of one interface whose byte counters never fall.
abbrev pub IsRising : String → ℕ → ℕ → List Reading → Type 0
IsRising interface i o [] = Unit
IsRising interface i o (raw ∷ rest) =
    (raw.interface ≡ interface)
    × (i ≤ raw.in_bytes)
    × (o ≤ raw.out_bytes)
    × IsRising interface raw.in_bytes raw.out_bytes rest

packets_ready :
    (prior : Baseline) (raw : Reading)
    → let sample = (apply (some prior) raw).1 in
      ((sample.packet_counters_ready ≡ false) × (sample.in_packets ≡ 0) × (sample.out_packets ≡ 0))
      ⊎ ((sample.packet_counters_ready ≡ true)
          × (prior.interface ≡ raw.interface)
          × (packets : ℕ × ℕ) × (prior.packets ≡ some packets)
          × (packets.0 + sample.in_packets ≡ raw.in_packets)
          × (packets.1 + sample.out_packets ≡ raw.out_packets))
unfolding apply packet_deltas
packets_ready prior raw =
    let name = eq_iff prior.interface raw.interface in
    elim (Option-cases prior.packets) [
      | inl none_before ↦ inl (rw none_before (refl, refl, refl))
      | inr ((i, o), before) ↦
          elim (Bool-cases (
            str_eq prior.interface raw.interface
            && leb i raw.in_packets
            && leb o raw.out_packets)) [
              | inl grew ↦ inr (
                  rw (before, grew)
                    (
                      refl,
                      ground (arith, name, grew),
                      (i, o),
                      refl,
                      ground (arith, grew),
                      ground (arith, grew),
                    ))
              | inr fell ↦ inl (rw (before, fell) (refl, refl, refl))
            ]
    ]

-- A sample's bytes are none, or the growth of its own interface's counter since the baseline,
-- inwards and outwards each by itself; its packets are marked ready and are the growth of both packet
-- counters of that interface, or are marked not ready and are none in both directions.
pub apply_deltas :
    (prior : Baseline) (raw : Reading)
    → let sample = (apply (some prior) raw).1 in
      ((sample.in_bytes ≡ 0)
        ⊎ ((prior.interface ≡ raw.interface) × (prior.in_bytes + sample.in_bytes ≡ raw.in_bytes)))
      × ((sample.out_bytes ≡ 0)
          ⊎ ((prior.interface ≡ raw.interface)
              × (prior.out_bytes + sample.out_bytes ≡ raw.out_bytes)))
      × (((sample.packet_counters_ready ≡ false)
            × (sample.in_packets ≡ 0)
            × (sample.out_packets ≡ 0))
          ⊎ ((sample.packet_counters_ready ≡ true)
              × (prior.interface ≡ raw.interface)
              × (packets : ℕ × ℕ) × (prior.packets ≡ some packets)
              × (packets.0 + sample.in_packets ≡ raw.in_packets)
              × (packets.1 + sample.out_packets ≡ raw.out_packets)))
unfolding apply byte_delta packet_deltas
apply_deltas prior raw =
    let name = eq_iff prior.interface raw.interface in
    (ground (arith, name), ground (arith, name), packets_ready prior raw)

-- Over readings of one interface whose counters never fall, the samples' bytes add up to the growth
-- of the counters from the first baseline to the last, inwards and outwards: the intervals neither
-- overlap nor leave a gap.
pub apply_all_telescopes :
    (prior : Baseline) (readings : List Reading)
    → IsRising prior.interface prior.in_bytes prior.out_bytes readings
    → let (last, samples) = apply_all (some prior) readings in
      (b : Baseline) × (last ≡ some b)
      × (prior.in_bytes + (sum_bytes samples).0 ≡ b.in_bytes)
      × (prior.out_bytes + (sum_bytes samples).1 ≡ b.out_bytes)
unfolding apply_all apply sum_bytes byte_delta baseline
apply_all_telescopes prior [] h = (prior, refl, omega arith, omega arith)
apply_all_telescopes prior (raw ∷ rest) h =
    let later = subst (λ i. IsRising i raw.in_bytes raw.out_bytes rest) (sym h.0) h.3 in
    let (b, same, ins, outs) = apply_all_telescopes (baseline raw) rest later in
    let name = eq_iff prior.interface raw.interface in
    (b, same, ground (arith, h.0, h.1, h.2, name, ins), ground (arith, h.0, h.1, h.2, name, outs))
