-- ===== src/Mihomo/Chunks/Loops.antt =====
-- When the loop of `_decode_chunked` ends, and when it does not.
use infra_sentinel.Prelude.{
  ℕ, zero, suc, ◌+◌, ◌-◌, ◌≤◌, ◌≡◌, ◌≢◌, refl, ap, ◌∙◌, min, ◌==◌, ◌&&◌, false, Option, some, List,
  [], ◌∷◌, ◌++◌, length, drop, arith, Option-cases, Bool-cases, inl, inr,
}
use infra_sentinel.Prelude.Int.{ℤ, pos, negsuc, ◌+ℤ◌, ltb_ℤ, eqb_ℤ}
use infra_sentinel.Mihomo.Chunks.{
  slice, at, find_line, find, running, Step, stop, next, take_chunk, sized, lined, size_line, step,
  pass, decode_from, decode_chunked,
}

length-drop {ℓ} : {A : Type ℓ} (n : ℕ) (xs : List A) → length (drop n xs) ≡ length xs - n
length-drop zero xs = omega arith
length-drop (suc n) [] = omega arith
length-drop (suc n) (x ∷ xs) = omega (arith, length-drop n xs)

find_line_bounds :
    (i e : ℕ) (xs : List ℕ) → find_line i xs ≡ some e → (i ≤ e) × (e + 2 ≤ i + length xs)
unfolding find_line
find_line_bounds i e [] h = absurd (ground (arith, h))
find_line_bounds i e (x ∷ []) h = absurd (ground (arith, h))
find_line_bounds i e (x ∷ y ∷ rest) h = elim (Bool-cases (x == 13 && y == 10)) [
  | inl here ↦ ground (arith, h, here)
  | inr later ↦ ground (arith, find_line_bounds (suc i) e (y ∷ rest), h, later)
]

-- A line that is found stands at or after its offset, within the body.
pub find_bounds :
    (body : List ℕ) (n e : ℕ) → find body (pos n) ≡ some e → (n ≤ e) × (e + 2 ≤ length body)
unfolding find at
find_bounds body n e h =
    let bounds = find_line_bounds (min n (length body)) e (drop (min n (length body)) body) h in
    (
      omega (arith, bounds, length-drop (min n (length body)) body),
      omega (arith, bounds, length-drop (min n (length body)) body),
    )

module _ (int16 : List ℕ → Option ℤ) (body : List ℕ) where
  -- A pass over a chunk that is no shorter than nothing ends the loop, or goes on behind the chunk and
  -- at most behind the body.
  Advances : ℕ → Step → Type 0
  Advances n (stop outcome) = outcome ≢ running
  Advances n (next done (pos m)) = (n + 5 ≤ m) × (m ≤ length body + 2)
  Advances n (next done (negsuc k)) = ⊥

  take_chunk-Advances :
      (done : List ℕ) (n e s : ℕ) → n ≤ e → Advances n (take_chunk body done (pos (e + 2)) (pos s))
  unfolding take_chunk ◌+ℤ◌ Advances
  take_chunk-Advances done n e s h = ground (arith, h)

  -- No line of the body reads as a negative length, wherever it begins.
  abbrev pub IsNatural : Type 0
  IsNatural =
      (n e k : ℕ) → find body (pos n) ≡ some e → int16 (size_line body (pos n) e) ≢ some (negsuc k)

  step-Advances : IsNatural → (done : List ℕ) (n : ℕ) → Advances n (step int16 body done (pos n))
  unfolding step lined sized Advances
  step-Advances natural done n = elim (Option-cases (find body (pos n))) [
    | inl missing ↦ rw missing (ground arith)
    | inr (e, found) ↦ rw found (elim (Option-cases (int16 (size_line body (pos n) e))) [
      | inl unread ↦ rw unread (ground arith)
      | inr (pos s, read) ↦ rw read (take_chunk-Advances done n e s (find_bounds body n e found).0)
      | inr (negsuc k, read) ↦ absurd (natural n e k found read)
    ])
  ]

  pass_ends :
      (fuel n : ℕ) (s : Step)
      → ((done : List ℕ) (m : ℕ)
          → m ≤ length body + 2
          → length body + 3 ≤ fuel + m
          → decode_from fuel int16 body done (pos m) ≢ running)
      → length body + 3 ≤ suc fuel + n
      → Advances n s
      → pass (decode_from fuel int16 body) s ≢ running
  unfolding Advances pass
  pass_ends fuel n (stop outcome) later fits a = a
  pass_ends fuel n (next done (pos m)) later fits a = later done m a.1 (omega (arith, fits, a.0))
  pass_ends fuel n (next done (negsuc k)) later fits a = absurd a

  ends :
      IsNatural
      → (fuel : ℕ) (done : List ℕ) (n : ℕ) → n ≤ length body + 2
      → length body + 3 ≤ fuel + n
      → decode_from fuel int16 body done (pos n) ≢ running
  unfolding decode_from
  ends natural zero done n low fits = absurd (omega (arith, low, fits))
  ends natural (suc fuel) done n low fits =
      pass_ends fuel n (step int16 body done (pos n)) (ends natural fuel) fits
        (step-Advances natural done n)

  -- The loop ends on every body of which no line, wherever it begins, reads as a negative length: as many
  -- passes as the body has bytes, and three, are enough.
  pub decode_chunked_ends :
      IsNatural → (fuel : ℕ) → length body + 3 ≤ fuel → decode_chunked fuel int16 body ≢ running
  unfolding decode_chunked
  decode_chunked_ends natural fuel fits = ends natural fuel [] 0 (omega arith) (omega (arith, fits))

  again : (n e k : ℕ) → suc k + n ≡ e + 4 → (pos (e + 2) +ℤ negsuc k) +ℤ pos 2 ≡ pos n
  unfolding ◌+ℤ◌
  again n e k h = ground (arith, h)

  within :
      (n e k : ℕ)
      → suc k + n ≡ e + 4
      → n ≤ length body
      → ltb_ℤ (pos (length body)) (pos (e + 2) +ℤ negsuc k) ≡ false
  unfolding ◌+ℤ◌
  within n e k h below = ground (arith, h, below)

  negative : (k : ℕ) → eqb_ℤ (negsuc k) (pos 0) ≡ false
  negative k = ground arith

  step_back :
      (n e k : ℕ)
      → find body (pos n) ≡ some e
      → int16 (size_line body (pos n) e) ≡ some (negsuc k)
      → suc k + n ≡ e + 4
      → (done : List ℕ)
      → step int16 body done (pos n)
        ≡ next (done ++ slice body (pos (e + 2)) (pos (e + 2) +ℤ negsuc k)) (pos n)
  unfolding step lined sized take_chunk
  step_back n e k found read back done = rw found (
      rw read (
        rw (negative k) (
          rw (within n e k back (omega (arith, find_bounds body n e found))) (
            ap (next (done ++ slice body (pos (e + 2)) (pos (e + 2) +ℤ negsuc k)))
              (again n e k back)))))

  -- A line that reads as the negative length which leads back to the line itself is read again and again:
  -- however often, the loop has not ended.
  pub decode_from_runs_on :
      (n e k : ℕ)
      → find body (pos n) ≡ some e
      → int16 (size_line body (pos n) e) ≡ some (negsuc k)
      → suc k + n ≡ e + 4
      → (fuel : ℕ) (done : List ℕ) → decode_from fuel int16 body done (pos n) ≡ running
  unfolding decode_from pass
  decode_from_runs_on n e k found read back zero done = refl
  decode_from_runs_on n e k found read back (suc fuel) done =
      ap (pass (decode_from fuel int16 body)) (step_back n e k found read back done)
      ∙ decode_from_runs_on n e k found read back fuel _
