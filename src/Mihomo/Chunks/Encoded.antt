-- ===== src/Mihomo/Chunks/Encoded.antt =====
-- A body that is written in chunks is read back.
use infra_sentinel.Prelude.{
  ℕ, zero, suc, ◌+◌, ◌-◌, ◌<◌, ◌≡◌, ◌≢◌, refl, sym, ap, ◌∙◌, min, Option, some, List, [], ◌∷◌, ◌++◌,
  length, drop, take, All, arith, length-append,
}
use infra_sentinel.Prelude.Int.{ℤ, pos, ◌+ℤ◌}
use infra_sentinel.Mihomo.Chunks.{
  slice, at, find_line, find, before_extension, decoded, stop, next, take_chunk, sized, lined,
  size_line, step, pass, decode_from, decode_chunked,
}

pub record Chunk : Type 0 where
  -- the line of its length, extensions included
  pub line : List ℕ
  pub bytes : List ℕ

-- The line, CR LF, and the bytes after it.
abbrev with_line : List ℕ → List ℕ → List ℕ
with_line line rest = line ++ 13 ∷ 10 ∷ rest

-- The chunks, and the last one of length 0, with whatever stands after its line.
abbrev pub encoded : List Chunk → List ℕ → List ℕ → List ℕ
encoded [] last trailer = with_line last trailer
encoded (c ∷ cs) last trailer = with_line c.line (c.bytes ++ 13 ∷ 10 ∷ encoded cs last trailer)

abbrev pub content : List Chunk → List ℕ
content [] = []
content (c ∷ cs) = c.bytes ++ content cs

drop-append {ℓ} : {A : Type ℓ} (xs ys : List A) → drop (length xs) (xs ++ ys) ≡ ys
drop-append [] ys = refl
drop-append (x ∷ xs) ys = drop-append xs ys

take-append {ℓ} : {A : Type ℓ} (xs ys : List A) → take (length xs) (xs ++ ys) ≡ xs
take-append [] ys = refl
take-append (x ∷ xs) ys = ap (λ l. x ∷ l) (take-append xs ys)

append_assoc {ℓ} : {A : Type ℓ} (xs ys zs : List A) → (xs ++ ys) ++ zs ≡ xs ++ (ys ++ zs)
append_assoc [] ys zs = refl
append_assoc (x ∷ xs) ys zs = ap (λ l. x ∷ l) (append_assoc xs ys zs)

append_nil {ℓ} : {A : Type ℓ} (xs : List A) → xs ++ [] ≡ xs
append_nil [] = refl
append_nil (x ∷ xs) = ap (λ l. x ∷ l) (append_nil xs)

-- The bytes between two parts of a body.
slice_middle :
    (before middle after : List ℕ)
    → slice
        (before ++ (middle ++ after))
        (pos (length before))
        (pos (length before + length middle))
      ≡ middle
unfolding slice at
slice_middle before middle after =
    let size = length-append before (middle ++ after) in
    let size' = length-append middle after in
    rw (starts size) (
      rw (drop-append before (middle ++ after)) (rw (counts size size') (take-append middle after)))
  where
    body : List ℕ
    body = before ++ (middle ++ after)

    starts :
        length body ≡ length before + length (middle ++ after)
        → min (length before) (length body) ≡ length before
    starts size = omega (arith, size)

    counts :
        length body ≡ length before + length (middle ++ after)
        → length (middle ++ after) ≡ length middle + length after
        → min (length before + length middle) (length body) - length before ≡ length middle
    counts size size' = omega (arith, size, size')

find_line-append :
    (i : ℕ) (line rest : List ℕ)
    → All (λ b. b ≢ 13) line
    → find_line i (with_line line rest) ≡ some (i + length line)
unfolding find_line
find_line-append i [] rest h = ground arith
find_line-append i (x ∷ []) rest h = ground (arith, h.0)
find_line-append i (x ∷ y ∷ line) rest h =
    ground (arith, h.0, find_line-append (suc i) (y ∷ line) rest h.1)

find-append :
    (before line rest : List ℕ)
    → All (λ b. b ≢ 13) line
    → find (before ++ with_line line rest) (pos (length before))
      ≡ some (length before + length line)
unfolding find at
find-append before line rest h =
    let size = length-append before (with_line line rest) in
    rw (starts size)
      (rw (drop-append before (with_line line rest)) (find_line-append (length before) line rest h))
  where
    starts :
        length (before ++ with_line line rest) ≡ length before + length (with_line line rest)
        → min (length before) (length (before ++ with_line line rest)) ≡ length before
    starts size = omega (arith, size)

-- Everything up to the end of a line.
abbrev behind : List ℕ → List ℕ → List ℕ
behind before line = before ++ with_line line []

with_line_nil : (line rest : List ℕ) → with_line line rest ≡ with_line line [] ++ rest
with_line_nil [] rest = refl
with_line_nil (x ∷ line) rest = ap (λ l. x ∷ l) (with_line_nil line rest)

behind-append :
    (before line rest : List ℕ) → before ++ with_line line rest ≡ behind before line ++ rest
behind-append [] line rest = with_line_nil line rest
behind-append (x ∷ before) line rest = ap (λ l. x ∷ l) (behind-append before line rest)

length-behind :
    (before line : List ℕ) → length (behind before line) ≡ length before + length line + 2
length-behind before line =
    omega (arith, length-append before (with_line line []), length-append line (13 ∷ 10 ∷ []))

slice_chunk :
    (before line bytes rest : List ℕ) (start size : ℕ)
    → start ≡ length before + length line + 2
    → size ≡ length bytes
    → slice (before ++ with_line line (with_line bytes rest)) (pos start) (pos (start + size))
      ≡ bytes
slice_chunk before line bytes rest start size e f =
    rw (behind-append before line (with_line bytes rest)) (
      rw (f) (
        rw (e ∙ sym (length-behind before line))
          (slice_middle (behind before line) bytes (13 ∷ 10 ∷ rest))))

length-with_line :
    (line rest : List ℕ) → length (with_line line rest) ≡ length line + 2 + length rest
length-with_line line rest = omega (arith, length-append line (13 ∷ 10 ∷ rest))

add_pos : (a b : ℕ) → pos a +ℤ pos b ≡ pos (a + b)
unfolding ◌+ℤ◌
add_pos a b = ground arith

module _ (int16 : List ℕ → Option ℤ) where
  take_chunk-encoded :
      (before line bytes rest done : List ℕ) (start : ℕ)
      → start ≡ length before + length line + 2
      → 0 < length bytes
      → take_chunk
          (before ++ with_line line (with_line bytes rest))
          done
          (pos start)
          (pos (length bytes))
        ≡ next (done ++ bytes) (pos (start + length bytes + 2))
  unfolding take_chunk
  take_chunk-encoded before line bytes rest done start e full =
      let total = length-append before (with_line line (with_line bytes rest)) in
      let inner = length-with_line line (with_line bytes rest) in
      let inner' = length-with_line bytes rest in
      rw (add_pos start (length bytes)) (
        rw (add_pos (start + length bytes) 2) (
          rw (slice_chunk before line bytes rest start (length bytes) e refl)
            (ground (arith, total, inner, inner', e, full))))

  -- The line reads as the number of its chunk's bytes, which is not 0.
  pub record Sized (c : Chunk) : Type 0 where
    pub line : All (λ b. b ≢ 13) c.line
    pub size : int16 (before_extension c.line) ≡ some (pos (length c.bytes))
    pub full : 0 < length c.bytes

  size_line-encoded :
      (before line rest : List ℕ)
      → size_line
          (before ++ with_line line rest)
          (pos (length before))
          (length before + length line)
        ≡ before_extension line
  unfolding size_line
  size_line-encoded before line rest =
      ap before_extension (slice_middle before line (13 ∷ 10 ∷ rest))

  step_chunk :
      (before rest done : List ℕ) (c : Chunk)
      → Sized c
      → step int16 (before ++ with_line c.line (with_line c.bytes rest)) done (pos (length before))
        ≡ next (done ++ c.bytes) (pos (length (behind (behind before c.line) c.bytes)))
  unfolding step lined sized
  step_chunk before rest done c h = rw (find-append before c.line (with_line c.bytes rest) h.line) (
      rw (size_line-encoded before c.line (with_line c.bytes rest)) (
        rw h.size (
          take_chunk-encoded before c.line c.bytes rest done (length before + length c.line + 2)
            refl h.full
          ∙ ap (λ n. next (done ++ c.bytes) (pos n)) after)))
    where
      after :
          length before + length c.line + 2 + length c.bytes + 2
          ≡ length (behind (behind before c.line) c.bytes)
      after =
          omega (arith, length-behind before c.line, length-behind (behind before c.line) c.bytes)

  step_last :
      (before last trailer done : List ℕ)
      → All (λ b. b ≢ 13) last
      → int16 (before_extension last) ≡ some (pos 0)
      → step int16 (before ++ with_line last trailer) done (pos (length before))
        ≡ stop (decoded done)
  unfolding step lined sized take_chunk
  step_last before last trailer done h e =
      rw (find-append before last trailer h)
        (rw (size_line-encoded before last trailer) (rw e refl))

  decode_encoded :
      (cs : List Chunk) (fuel : ℕ) (before last trailer done : List ℕ)
      → All Sized cs
      → All (λ b. b ≢ 13) last
      → int16 (before_extension last) ≡ some (pos 0)
      → length cs < fuel
      → decode_from fuel int16 (before ++ encoded cs last trailer) done (pos (length before))
        ≡ decoded (done ++ content cs)
  unfolding decode_from pass
  decode_encoded cs zero before last trailer done h l e enough = absurd (omega (arith, enough))
  decode_encoded [] (suc fuel) before last trailer done h l e enough =
      ap (pass (decode_from fuel int16 (before ++ with_line last trailer)))
        (step_last before last trailer done l e)
      ∙ ap decoded (sym (append_nil done))
  decode_encoded (c ∷ cs) (suc fuel) before last trailer done h l e enough =
      let rest = encoded cs last trailer in
      let body = before ++ with_line c.line (with_line c.bytes rest) in
      let there = behind (behind before c.line) c.bytes in
      let same : body ≡ there ++ rest =
        behind-append before c.line (with_line c.bytes rest)
        ∙ behind-append (behind before c.line) c.bytes rest in
      ap (pass (decode_from fuel int16 body)) (step_chunk before rest done c h.0)
      ∙ ap (λ b. decode_from fuel int16 b (done ++ c.bytes) (pos (length there))) same
      ∙ decode_encoded cs fuel there last trailer (done ++ c.bytes) h.1 l e (omega (arith, enough))
      ∙ ap decoded (append_assoc done c.bytes (content cs))

  -- A body that is written in chunks of any sizes but 0, with any extensions on the lines and anything
  -- behind the last line, is read back as the chunks' bytes in order: one pass for each chunk and one
  -- for the end are enough. The lines hold no CR, and read as the numbers of bytes.
  pub decode_chunked-encoded :
      (cs : List Chunk) (last trailer : List ℕ) (fuel : ℕ)
      → All Sized cs
      → All (λ b. b ≢ 13) last
      → int16 (before_extension last) ≡ some (pos 0)
      → length cs < fuel
      → decode_chunked fuel int16 (encoded cs last trailer) ≡ decoded (content cs)
  unfolding decode_chunked
  decode_chunked-encoded cs last trailer fuel h l e enough =
      decode_encoded cs fuel [] last trailer [] h l e enough
