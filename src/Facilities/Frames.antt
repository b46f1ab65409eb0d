-- ===== src/Facilities/Frames.antt =====
-- `_read_response_frame` of resources/facilities/protocols.py: one line of a provider's answer, within a limit.
-- The stream is an argument: its state, and the bytes that a call of `recv` gives.
use infra_sentinel.Prelude.{
  ℕ, zero, suc, ◌+◌, ◌-◌, ◌≤◌, ◌<◌, ◌≡◌, ◌≢◌, refl, min, ◌==◌, ◌&&◌, Bool, true, false, List, [],
  ◌∷◌, ◌++◌, length, any, leb, ltb, arith, if◌then◌else◌, Bool-cases, inl, inr, length-append,
}

pub data Frame : Type 0 where
  frame : List ℕ → Frame
  over_limit : Frame
  closed : Frame
  trailing_bytes : Frame
  second_frame : Frame
  -- the loop has not ended yet
  reading : Frame

abbrev pub is_newline : ℕ → Bool
is_newline b = b == 10

-- `data.split(b"\n", 1)[0]`, and what stands behind the newline.
unfoldable pub line_of : List ℕ → List ℕ
line_of [] = []
line_of (b ∷ bs) = let rest = line_of bs in if is_newline b then [] else b ∷ rest

unfoldable pub trailing_of : List ℕ → List ℕ
trailing_of [] = []
trailing_of (b ∷ bs) = let rest = trailing_of bs in if is_newline b then bs else rest

abbrev is_nil : List ℕ → Bool
is_nil [] = true
is_nil (b ∷ bs) = false

module _ {S : Type 0} (recv : S → ℕ → List ℕ × S) where
  unfoldable pub finish : ℕ → Bool → S → List ℕ → Frame
  finish limit require_eof s received =
      if ltb limit (length (line_of received) + 1)
      then over_limit
      else if not_nil (trailing_of received)
      then trailing_bytes
      else if require_eof && not_nil (recv s 1).0
      then second_frame
      else frame (line_of received)
    where
      not_nil : List ℕ → Bool
      not_nil bs = if is_nil bs then false else true

  -- The loop on the bytes received so far.
  unfoldable pub read_from : ℕ → ℕ → Bool → S → List ℕ → Frame
  read_from zero limit require_eof s received = reading
  read_from (suc fuel) limit require_eof s received =
      let (chunk, next) = recv s (min 65536 (limit - length received)) in
      let rest = read_from fuel limit require_eof next (received ++ chunk) in
      if any is_newline received
      then finish limit require_eof s received
      else if leb limit (length received)
      then over_limit
      else if is_nil chunk
      then closed
      else rest

  -- `_read_response_frame`
  unfoldable pub read_response_frame : ℕ → ℕ → Bool → S → Frame
  read_response_frame fuel limit require_eof s = read_from fuel limit require_eof s []

  finish_ends :
      (limit : ℕ) (require_eof : Bool) (s : S) (received : List ℕ)
      → finish limit require_eof s received ≢ reading
  unfolding finish
  finish_ends limit require_eof s received = ground arith

  finish_frame :
      (limit : ℕ) (require_eof : Bool) (s : S) (received line : List ℕ)
      → finish limit require_eof s received ≡ frame line
      → (line ≡ line_of received) × (length line + 1 ≤ limit) × (trailing_of received ≡ [])
  unfolding finish
  finish_frame limit require_eof s received line h = ground (arith, h)

  chunk_grows :
      ((s : S) (n : ℕ) → length (recv s n).0 ≤ n)
      → (limit : ℕ) (s : S) (received : List ℕ) → leb limit (length received) ≡ false
      → is_nil (recv s (min 65536 (limit - length received))).0 ≡ false
      → let all = received ++ (recv s (min 65536 (limit - length received))).0 in
        (length received < length all) × (length all ≤ limit)
  chunk_grows bounded limit s received room given =
      let chunk = (recv s (min 65536 (limit - length received))).0 in
      let most = bounded s (min 65536 (limit - length received)) in
      let grown = length-append received chunk in
      (omega (arith, grown, filled chunk given), omega (arith, grown, most, below room))
    where
      filled : (chunk : List ℕ) → is_nil chunk ≡ false → 0 < length chunk
      filled [] h = absurd (ground (arith, h))
      filled (b ∷ bs) h = omega arith

      below : leb limit (length received) ≡ false → length received < limit
      below h = ground (arith, h)

  ends :
      ((s : S) (n : ℕ) → length (recv s n).0 ≤ n)
      → (fuel limit : ℕ) (require_eof : Bool) (s : S) (received : List ℕ) → length received ≤ limit
      → limit < fuel + length received
      → read_from fuel limit require_eof s received ≢ reading
  unfolding read_from
  ends bounded zero limit require_eof s received low fits = absurd (omega (arith, low, fits))
  ends bounded (suc fuel) limit require_eof s received low fits =
      let chunk = (recv s (min 65536 (limit - length received))).0 in
      let next = (recv s (min 65536 (limit - length received))).1 in
      elim (Bool-cases (any is_newline received)) [
        | inl complete ↦ rw complete (finish_ends limit require_eof s received)
        | inr partial ↦ elim (Bool-cases (leb limit (length received))) [
          | inl full ↦ rw (partial, full) (ground arith)
          | inr room ↦ elim (Bool-cases (is_nil chunk)) [
            | inl eof ↦ rw (partial, room, eof) (ground arith)
            | inr more ↦
                let (grows, stays) = chunk_grows bounded limit s received room more in
                rw (partial, room, more)
                  (ends bounded fuel limit require_eof next (received ++ chunk) stays
                    (omega (arith, fits, grows)))
          ]
        ]
      ]

  -- Over a stream that gives at most the bytes that are asked for, the reading of a frame ends: one pass
  -- for each byte of the limit, and one more, are enough.
  read_response_frame_ends :
      ((s : S) (n : ℕ) → length (recv s n).0 ≤ n)
      → (fuel limit : ℕ) (require_eof : Bool) (s : S) → limit < fuel
      → read_response_frame fuel limit require_eof s ≢ reading
  unfolding read_response_frame
  read_response_frame_ends bounded fuel limit require_eof s fits =
      ends bounded fuel limit require_eof s [] (omega arith) (omega (arith, fits))

  line_of_one : (bs : List ℕ) → any is_newline (line_of bs) ≡ false
  unfolding line_of
  line_of_one [] = refl
  line_of_one (b ∷ bs) = ground (arith, line_of_one bs)

  -- A frame that is accepted is a single line, which fits the limit with its newline, whatever the
  -- stream gives.
  read_response_frame_fits :
      (fuel limit : ℕ) (require_eof : Bool) (s : S) (received line : List ℕ)
      → read_from fuel limit require_eof s received ≡ frame line
      → (any is_newline line ≡ false) × (length line + 1 ≤ limit)
  unfolding read_from
  read_response_frame_fits zero limit require_eof s received line h = absurd (ground (arith, h))
  read_response_frame_fits (suc fuel) limit require_eof s received line h =
      let chunk = (recv s (min 65536 (limit - length received))).0 in
      let next = (recv s (min 65536 (limit - length received))).1 in
      elim (Bool-cases (any is_newline received)) [
        | inl complete ↦
            let (e, fits, end) =
              finish_frame limit require_eof s received line (rw complete at h) in
            (rw e (line_of_one received), fits)
        | inr partial ↦ elim (Bool-cases (leb limit (length received))) [
          | inl full ↦ absurd (ground (arith, rw (partial, full) at h))
          | inr room ↦ elim (Bool-cases (is_nil chunk)) [
            | inl eof ↦ absurd (ground (arith, rw (partial, room, eof) at h))
            | inr more ↦
                read_response_frame_fits fuel limit require_eof next (received ++ chunk) line
                  (rw (partial, room, more) at h)
          ]
        ]
      ]
