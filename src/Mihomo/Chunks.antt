-- ===== src/Mihomo/Chunks.antt =====
-- `_decode_chunked` of resources/network/mihomo.py: the chunks of an HTTP body. Bytes are numbers, offsets
-- are integers, with Python's reading of negative ones in a slice and in `find`. The reading of a
-- hexadecimal number is an argument.
pub mod Loops
pub mod Encoded
use infra_sentinel.Prelude.{
  ℕ, zero, suc, ◌+◌, ◌-◌, min, ◌==◌, ◌&&◌, ◌>>=◌, Bool, Option, none, some, List, [], ◌∷◌, ◌++◌,
  length, take, drop, if◌then◌else◌,
}
use infra_sentinel.Prelude.Int.{ℤ, pos, negsuc, ◌+ℤ◌, ltb_ℤ, eqb_ℤ}

-- The place that an index of a slice stands for.
unfoldable pub at : ℕ → ℤ → ℕ
at size (pos n) = min n size
at size (negsuc k) = size - (k + 1)

unfoldable pub slice : List ℕ → ℤ → ℤ → List ℕ
slice body first last =
    let start = at (length body) first in take (at (length body) last - start) (drop start body)

-- The place of the first CR LF, where the bytes stand at place `i`.
unfoldable pub find_line : ℕ → List ℕ → Option ℕ
find_line i [] = none
find_line i (x ∷ []) = none
find_line i (x ∷ y ∷ rest) =
    let later = find_line (suc i) (y ∷ rest) in if x == 13 && y == 10 then some i else later

-- `body.find(b"\r\n", offset)`
unfoldable pub find : List ℕ → ℤ → Option ℕ
find body offset = find_line (at (length body) offset) (drop (at (length body) offset) body)

-- `.split(b";", 1)[0]`
unfoldable pub before_extension : List ℕ → List ℕ
before_extension [] = []
before_extension (x ∷ xs) = let rest = before_extension xs in if x == 59 then [] else x ∷ rest

pub data Outcome : Type 0 where
  decoded : List ℕ → Outcome
  invalid_response : Outcome
  invalid_length : Outcome
  incomplete : Outcome
  running : Outcome

pub data Step : Type 0 where
  stop : Outcome → Step
  next : List ℕ → ℤ → Step

unfoldable pub size_line : List ℕ → ℤ → ℕ → List ℕ
size_line body offset line_end = before_extension (slice body offset (pos line_end))

-- The chunk whose length was read, at the place after its line.
unfoldable pub take_chunk : List ℕ → List ℕ → ℤ → ℤ → Step
take_chunk body done start size =
    let chunk_end = start +ℤ size in
    if eqb_ℤ size (pos 0)
    then stop (decoded done)
    else if ltb_ℤ (pos (length body)) chunk_end
    then stop incomplete
    else next (done ++ slice body start chunk_end) (chunk_end +ℤ pos 2)

unfoldable pub sized : List ℕ → List ℕ → ℕ → Option ℤ → Step
sized body done line_end none = stop invalid_length
sized body done line_end (some size) = take_chunk body done (pos (line_end + 2)) size

unfoldable pub lined : (List ℕ → Option ℤ) → List ℕ → List ℕ → ℤ → Option ℕ → Step
lined int16 body done offset none = stop invalid_response
lined int16 body done offset (some line_end) =
    sized body done line_end (int16 (size_line body offset line_end))

-- The body of the loop.
unfoldable pub step : (List ℕ → Option ℤ) → List ℕ → List ℕ → ℤ → Step
step int16 body done offset = lined int16 body done offset (find body offset)

unfoldable pub pass : (List ℕ → ℤ → Outcome) → Step → Outcome
pass later (stop outcome) = outcome
pass later (next done offset) = later done offset

-- The loop, for as many passes as there is fuel.
unfoldable pub decode_from : ℕ → (List ℕ → Option ℤ) → List ℕ → List ℕ → ℤ → Outcome
decode_from zero int16 body done offset = running
decode_from (suc fuel) int16 body done offset =
    pass (decode_from fuel int16 body) (step int16 body done offset)

-- `_decode_chunked`
unfoldable pub decode_chunked : ℕ → (List ℕ → Option ℤ) → List ℕ → Outcome
decode_chunked fuel int16 body = decode_from fuel int16 body [] (pos 0)
