-- ===== src/Journal/Query/Bounds.antt =====
-- What an accepted request is.
use infra_sentinel.Prelude.{ℕ, ◌+◌, ◌≤◌, ◌≡◌, String, Bool, Option, arith}
use infra_sentinel.Prelude.Dict.{Dict, string_eq}
use infra_sentinel.Values.{Value}
use infra_sentinel.Journal.Query.{Query, ok, limit_of, parse}

limit_of_bounds : (v : Option Value) (n : ℕ) → limit_of v ≡ ok n → (1 ≤ n) × (n ≤ 200)
unfolding limit_of
limit_of_bounds v n h = ground arith

-- An accepted request asks for 1 to 200 events, over an ordered range of at most 30 days.
pub parse_bounds :
    (source_id_valid : String → Bool) (payload : Dict String Value) (now : ℕ) {q : Query}
    → parse source_id_valid payload now ≡ ok q
    → (1 ≤ q.limit)
      × (q.limit ≤ 200)
      × (q.since_epoch ≤ q.until_epoch)
      × (q.until_epoch ≤ q.since_epoch + 2592000)
unfolding parse
parse_bounds source_id_valid payload now h = grind (arith, limit_of_bounds)
