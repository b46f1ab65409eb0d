-- ===== src/Mihomo/Tests.antt =====
-- Tests of the samples of the proxy, and of the chunks of its responses.
use infra_sentinel.Prelude.{
  ℕ, zero, suc, ◌+◌, ◌-◌, ◌*◌, ◌==◌, ◌&&◌, leb, ◌>>=◌, if◌then◌else◌, ◌≡◌, ◌≢◌, ◌↔◌, refl, min,
  String, Bool, true, false, ◌<◌, sym, subst, Bool-cases, inl, inr, ==_iff, Option, none, some,
  List, [], ◌∷◌, length, map, any, arith,
}
use infra_sentinel.Prelude.Int.{ℤ, pos, negsuc}
use infra_sentinel.Mihomo.{
  Host, Connection, Response, MihomoTrafficTracker, MihomoSample, apply, sum, scaled,
}
use infra_sentinel.Mihomo.Hosts.{codes}
use infra_sentinel.Mihomo.Scaling.{scaled-sum, scale_down, indexed, add_ones, add_one}
use infra_sentinel.Mihomo.Interval.{
  Accounts, poll_all, collect_interval, combine_samples, add_rows, nothing, combined_sample,
  collect_interval-Accounts,
}
use infra_sentinel.Mihomo.Chunks.{
  slice, at, find, find_line, size_line, before_extension, running, decoded, decode_from,
  decode_chunked,
}
use infra_sentinel.Mihomo.Chunks.Loops.{
  IsNatural, find_bounds, decode_chunked_ends, decode_from_runs_on,
}
use infra_sentinel.Mihomo.Chunks.Encoded.{Chunk, Sized, encoded, decode_chunked-encoded}

scaled_to_ten : scaled (5 ∷ 5 ∷ 5 ∷ []) 10 ≡ 4 ∷ 3 ∷ 3 ∷ []
unfolding scaled scale_down indexed add_ones add_one infra_sentinel.Prelude.Sort.sort
    infra_sentinel.Prelude.Sort.insert
scaled_to_ten = refl

scaled-sum_example :
    (sum (scaled (5 ∷ 5 ∷ 5 ∷ []) 10) ≡ min 15 10) × (length (scaled (5 ∷ 5 ∷ 5 ∷ []) 10) ≡ 3)
scaled-sum_example = scaled-sum (5 ∷ 5 ∷ 5 ∷ []) 10

abbrev no_address : Host → Bool
no_address host = false

abbrev no_digest : Host → String
no_digest host = ""

abbrev connection : String → ℕ → ℕ → String → Connection
connection id upload download host = record {
  id = id;
  upload = upload;
  download = download;
  host = codes host;
  chains = codes "DIRECT" ∷ [];
}

abbrev first : Response
first = record {
  upload_total = 100;
  download_total = 1000;
  connections = connection "a" 10 20 "chat.openai.com" ∷ [];
}

abbrev second : Response
second = record {
  upload_total = 160;
  download_total = 1900;
  connections = connection "a" 30 620 "chat.openai.com" ∷ connection "b" 10 100 "example.org" ∷ [];
}

abbrev fresh : MihomoTrafficTracker
fresh = record {
  previous_up = none;
  previous_down = none;
  previous_epoch = none;
  previous_connections = [];
}

abbrev polls : List (ℤ × Option Response)
polls = (pos 0, some first) ∷ (pos 250, none) ∷ (pos 500, some second) ∷ []

abbrev interval : Option MihomoSample
interval = (collect_interval no_address no_digest fresh polls).1

abbrev interval_sample : MihomoSample
interval_sample = combined_sample (
    add_rows nothing (apply no_address no_digest fresh first (pos 0)).1 (
      (apply no_address no_digest fresh first (pos 0)).1
      ∷ (apply no_address no_digest (apply no_address no_digest fresh first (pos 0)).0 second
          (pos 500)).1
      ∷ []))

collect_interval-Accounts_example : Accounts interval_sample
unfolding collect_interval poll_all combine_samples add_rows
collect_interval-Accounts_example =
    collect_interval-Accounts no_address no_digest fresh polls interval_sample refl

abbrev hex_digit : ℕ → Option ℕ
hex_digit b =
    if leb 48 b && leb b 57
    then some (b - 48)
    else if leb 97 b && leb b 102
    then some (b - 87)
    else none

abbrev hex_digits : ℕ → List ℕ → Option ℕ
hex_digits n [] = some n
hex_digits n (b ∷ bs) = hex_digit b >>= (λ d. hex_digits (16 * n + d) bs)

abbrev natural : Option ℕ → Option ℤ
natural none = none
natural (some n) = some (pos n)

abbrev negative : Option ℕ → Option ℤ
negative none = none
negative (some zero) = some (pos 0)
negative (some (suc n)) = some (negsuc n)

-- A number in hexadecimal digits, after a sign or not.
abbrev int16 : List ℕ → Option ℤ
int16 [] = none
int16 (b ∷ bs) = if b == 45 then negative (hex_digits 0 bs) else natural (hex_digits 0 (b ∷ bs))

abbrev chunk : Chunk
chunk = record { line = 51 ∷ 59 ∷ 120 ∷ []; bytes = 97 ∷ 98 ∷ 99 ∷ [] }

chunk-Sized : Sized int16 chunk
unfolding before_extension
chunk-Sized = record {
  line = (ground arith, (ground arith, (ground arith, tt)));
  size = refl;
  full = ground arith;
}

decode_chunked-encoded_example :
    decode_chunked 9 int16 (encoded (chunk ∷ chunk ∷ []) (48 ∷ []) (13 ∷ 10 ∷ []))
    ≡ decoded (97 ∷ 98 ∷ 99 ∷ 97 ∷ 98 ∷ 99 ∷ [])
unfolding before_extension
decode_chunked-encoded_example =
    decode_chunked-encoded int16 (chunk ∷ chunk ∷ []) (48 ∷ []) (13 ∷ 10 ∷ []) 9
      (chunk-Sized, (chunk-Sized, tt)) (ground arith, tt) refl (ground arith)

abbrev negative_body : List ℕ
negative_body = 45 ∷ 54 ∷ 13 ∷ 10 ∷ 13 ∷ 10 ∷ []

decode_from_runs_on_example : decode_from 1000000 int16 negative_body [] (pos 0) ≡ running
unfolding find find_line at size_line slice before_extension
decode_from_runs_on_example =
    decode_from_runs_on int16 negative_body 0 2 5 refl refl refl 1000000 []

-- "3\r\nabc\r\n0\r\n\r\n"
abbrev plain_body : List ℕ
plain_body = 51 ∷ 13 ∷ 10 ∷ 97 ∷ 98 ∷ 99 ∷ 13 ∷ 10 ∷ 48 ∷ 13 ∷ 10 ∷ 13 ∷ 10 ∷ []

abbrev is_natural : Option ℤ → Bool
is_natural (some (negsuc k)) = false
is_natural _ = true

abbrev natural_line : ℕ → Option ℕ → Bool
natural_line n none = true
natural_line n (some e) = is_natural (int16 (size_line plain_body (pos n) e))

-- The lines that begin before a place are natural.
natural_below : ℕ → Bool
natural_below zero = true
natural_below (suc n) = natural_line n (find plain_body (pos n)) && natural_below n

all_natural : natural_below 13 ≡ true
unfolding natural_below find find_line at size_line slice before_extension
all_natural = refl

natural_at :
    (m n : ℕ) → n < m → natural_below m ≡ true → natural_line n (find plain_body (pos n)) ≡ true
unfolding natural_below
natural_at zero n below h = absurd (omega (arith, below))
natural_at (suc m) n below h = elim (Bool-cases (n == m)) [
  | inl last ↦
      subst (λ k. natural_line k (find plain_body (pos k)) ≡ true) (sym ((==_iff n m).0 last))
        (ground (arith, h))
  | inr before ↦ natural_at m n (ground (arith, below, before)) (ground (arith, h))
]

plain_body-IsNatural : IsNatural int16 plain_body
plain_body-IsNatural n e k found read =
    let bounds = find_bounds plain_body n e found in
    let here = natural_at 13 n (omega (arith, bounds)) all_natural in
    absurd (ground (arith, rw (found, read) at here))

decode_chunked_ends_example : decode_chunked 16 int16 plain_body ≢ running
decode_chunked_ends_example =
    decode_chunked_ends int16 plain_body plain_body-IsNatural 16 (ground arith)
