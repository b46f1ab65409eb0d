-- ===== src/Journal/Query/Answers.antt =====
-- What an answer holds.
use infra_sentinel.Prelude.{
  ℕ, ◌+◌, ◌≤◌, ◌<◌, ◌≡◌, ◌↔◌, true, some, length, take, select, All, length-take, arith, min,
}
use infra_sentinel.Prelude.Sort.{sort, length-sort, All-sort, All-take}
use infra_sentinel.Journal.{Journal, newer_event}
use infra_sentinel.Journal.Retention.{All-select}
use infra_sentinel.Journal.Query.{Query, event_matches, answer, freshness_of, fresh}

-- The events of an answer are as many as match the request, up to its limit, each matches the request, and the
-- answer is marked truncated exactly when more events match than it asks for.
pub answer_events :
    (j : Journal) (q : Query) (now : ℕ)
    → let a = answer j q now in
      let found = length (select (event_matches q) j.events) in
      (length a.events ≡ min q.limit found)
      × All (λ e. event_matches q e ≡ true) a.events
      × ((a.truncated ≡ true) ↔ (q.limit < found))
unfolding answer
answer_events j q now =
    let rows = sort newer_event (select (event_matches q) j.events) in
    let sorted = length-sort newer_event (select (event_matches q) j.events) in
    (
      omega (
        arith,
        length-take q.limit (take (q.limit + 1) rows),
        length-take (q.limit + 1) rows,
        sorted,
      ),
      All-take _ q.limit (take (q.limit + 1) rows) (
          All-take _ (q.limit + 1) rows (
            All-sort _ newer_event (select (event_matches q) j.events)
              (All-select (event_matches q) j.events))),
      ground (arith, length-take (q.limit + 1) rows, sorted),
    )

-- The freshness of an epoch is `fresh` exactly when it lies at most 60 seconds ahead of `now` and at
-- most `seconds` behind it.
freshness_window :
    (epoch now seconds : ℕ)
    → (freshness_of (some epoch) now seconds ≡ fresh)
      ↔ ((epoch ≤ now + 60) × (now ≤ epoch + seconds))
unfolding freshness_of
freshness_window epoch now seconds = ground arith
