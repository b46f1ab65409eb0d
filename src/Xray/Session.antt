-- ===== src/Xray/Session.antt =====
-- The totals of a session against the counters of the server.
use infra_sentinel.Prelude.{
  ℕ, ◌+◌, ◌≤◌, ◌≡◌, refl, String, Bool, true, false, ◌&&◌, not, Option, none, some, List, [], ◌∷◌,
  arith, if◌then◌else◌, Bool-cases, inl, inr,
}
use infra_sentinel.Prelude.Int.{ℤ, ltb_ℤ, pos, ◌+ℤ◌}
use infra_sentinel.Prelude.Dict.{get, string_eq}
use infra_sentinel.Prelude.Entries.{Unique}
use infra_sentinel.Prelude.Sums.{value_at}
use infra_sentinel.Xray.{
  UserTraffic, Users, Direction, Reading, XrayStatsTracker, Sample, SessionTotals, delta,
  apply_users, apply, recorded, record_since, new_session, align_session, same_start,
}
use infra_sentinel.Xray.Public.{
  XrayStatsMonitor, Poll, unread, unsaved, unrecorded, read, fail_poll, finish_poll, poll,
  maybe_poll, align, aligned, reset_session,
}
use infra_sentinel.Xray.Growth.{
  measure, bytes_at, sum_at, sum-get, bytes-add_users, measure-delta, Rises, found_or,
  get-apply_users, Unique-apply_users,
}

module _ (d : Direction) (label : String) where
  -- What a reading adds to a label is at most what its counter grew by.
  apply_bytes :
      (t : XrayStatsTracker) (raw : Reading)
      → Unique raw.users
      → Rises d label t.previous raw.users
      → bytes_at d label t.previous + sum_at d label (apply t raw).1.users
        ≤ bytes_at d label (apply t raw).0.previous
  unfolding apply found_or get
  apply_bytes t raw u rises =
      let (a, b) = get-apply_users label t.previous [] t.previous raw.users u in
      let sum =
        sum-get d label (apply_users t.previous [] t.previous raw.users).0
          (Unique-apply_users t.previous [] t.previous raw.users tt) in
      rw sum (rw a (rw b (by_found (get label raw.users) refl)))
    where
      by_found :
          (found : Option UserTraffic)
          → get label raw.users ≡ found
          → bytes_at d label t.previous
              + value_at (measure d) (found_or found (delta (get label t.previous)) none)
            ≤ value_at (measure d) (found_or found (λ c. c) (get label t.previous))
      by_found none e = omega arith
      by_found (some c) e = measure-delta d (get label t.previous) c (rises c e)

  -- The session has counted no more of a label than its counter has grown since the base.
  abbrev pub IsCovered : ℕ → XrayStatsMonitor → Type 0
  IsCovered base m = bytes_at d label m.session.totals + base ≤ bytes_at d label m.tracker.previous

  abbrev Counts : ℕ → SessionTotals → XrayStatsTracker → Type 0
  Counts base s t = bytes_at d label s.totals + base ≤ bytes_at d label t.previous

  counts_recorded :
      (base v : ℕ) (s : SessionTotals) (started began : Option ℤ) (sample : Sample)
      → bytes_at d label s.totals + base + sum_at d label sample.users ≤ v
      → bytes_at d label (record_since s started began sample).totals + base ≤ v
  unfolding record_since recorded
  counts_recorded base v s none began sample h = omega (arith, h)
  counts_recorded base v s (some e) none sample h = omega (arith, h)
  counts_recorded base v s (some e) (some b) sample h = elim (Bool-cases (ltb_ℤ b e)) [
    | inl early ↦ rw early (omega (arith, h))
    | inr later ↦ rw later (omega (arith, h, bytes-add_users d label s.totals sample.users))
  ]

  -- The reading of a poll, where there is one, names no user twice, and the label's counter rises.
  abbrev pub Admits : Users → Poll → Type 0
  Admits previous (unread error) = Unit
  Admits previous (unsaved raw error) = Unique raw.users × Rises d label previous raw.users
  Admits previous (unrecorded raw error) = Unique raw.users × Rises d label previous raw.users
  Admits previous (read raw) = Unique raw.users × Rises d label previous raw.users

  poll-IsCovered :
      (base : ℕ) (m : XrayStatsMonitor) (now : ℤ) (outcome : Poll)
      → Admits m.tracker.previous outcome
      → IsCovered base m
      → IsCovered base (poll m now outcome)
  unfolding poll fail_poll finish_poll
  poll-IsCovered base m now (unread error) a h = h
  poll-IsCovered base m now (unsaved raw error) a h =
      omega (arith, h, apply_bytes m.tracker raw a.0 a.1)
  poll-IsCovered base m now (unrecorded raw error) a h =
      counts_recorded base _ m.session m.session.started_epoch
        (apply m.tracker raw).1.interval_started_epoch (apply m.tracker raw).1
        (omega (arith, h, apply_bytes m.tracker raw a.0 a.1))
  poll-IsCovered base m now (read raw) a h =
      counts_recorded base _ m.session m.session.started_epoch
        (apply m.tracker raw).1.interval_started_epoch (apply m.tracker raw).1
        (omega (arith, h, apply_bytes m.tracker raw a.0 a.1))

  either-IsCovered :
      (base : ℕ) (b : Bool) (m n : XrayStatsMonitor)
      → IsCovered base m
      → IsCovered base n
      → IsCovered base (if b then m else n)
  either-IsCovered base true m n h k = h
  either-IsCovered base false m n h k = k

  maybe_poll-IsCovered :
      (base : ℕ) (m : XrayStatsMonitor) (now : ℤ) (force : Bool) (outcome : Poll)
      → Admits m.tracker.previous outcome
      → IsCovered base m
      → IsCovered base (maybe_poll m now force outcome)
  unfolding maybe_poll
  maybe_poll-IsCovered base m now force outcome a h =
      let due = record m { next_poll_at = now +ℤ pos m.config.poll_seconds } in
      either-IsCovered base (not m.config.enabled) _ _ h (
        either-IsCovered base (not force && ltb_ℤ now m.next_poll_at) m (poll due now outcome) h
          (poll-IsCovered base due now outcome a h))

  aligned-IsCovered :
      (base : ℕ) (m : XrayStatsMonitor) (epoch : Option ℤ)
      → IsCovered base m
      → IsCovered base (align m epoch)
  unfolding aligned align_session get
  aligned-IsCovered base m none h = h
  aligned-IsCovered base m (some e) h = elim (Bool-cases (same_start m.session.started_epoch e)) [
    | inl same ↦ rw same h
    | inr other ↦ rw other (omega (arith, h))
  ]

-- What happens to a monitor.
pub data Event : Type 0 where
  aligning : Option ℤ → Event
  resetting : ℤ → Poll → Event
  polling : ℤ → Bool → Poll → Event

unfoldable pub after_event : XrayStatsMonitor → Event → XrayStatsMonitor
after_event m (aligning epoch) = align m epoch
after_event m (resetting epoch outcome) = reset_session m epoch outcome
after_event m (polling now force outcome) = maybe_poll m now force outcome

unfoldable pub run : XrayStatsMonitor → List Event → XrayStatsMonitor
run m [] = m
run m (e ∷ rest) = run (after_event m e) rest

module _ (d : Direction) (label : String) where
  abbrev AdmitsEvent : XrayStatsMonitor → Event → Type 0
  AdmitsEvent m (aligning epoch) = Unit
  AdmitsEvent m (resetting epoch outcome) = Admits d label m.tracker.previous outcome
  AdmitsEvent m (polling now force outcome) = Admits d label m.tracker.previous outcome

  -- The label's counter never falls, and no reading names a user twice.
  unfoldable pub AdmitsAll : XrayStatsMonitor → List Event → Type 0
  AdmitsAll m [] = Unit
  AdmitsAll m (e ∷ rest) = AdmitsEvent m e × AdmitsAll (after_event m e) rest

  after_event-IsCovered :
      (base : ℕ) (m : XrayStatsMonitor) (e : Event)
      → AdmitsEvent m e
      → IsCovered d label base m
      → IsCovered d label base (after_event m e)
  unfolding after_event reset_session get
  after_event-IsCovered base m (aligning epoch) a h = aligned-IsCovered d label base m epoch h
  after_event-IsCovered base m (polling now force outcome) a h =
      maybe_poll-IsCovered d label base m now force outcome a h
  after_event-IsCovered base m (resetting epoch outcome) a h =
      maybe_poll-IsCovered d label base (record m { session = new_session epoch }) epoch true
        outcome a (omega (arith, h))

  -- Whatever the polls come to (no reading, a write that fails before the session has the sample or after,
  -- a sample that counts), whether they are due or not, and however often sessions begin: over readings in
  -- which a user's counter never falls, the bytes that the session has of the user stay at most what the
  -- counter grew by since the base, upwards and downwards. No byte counts twice.
  pub run-IsCovered :
      (base : ℕ) (m : XrayStatsMonitor) (events : List Event)
      → AdmitsAll m events
      → IsCovered d label base m
      → IsCovered d label base (run m events)
  unfolding run AdmitsAll
  run-IsCovered base m [] a h = h
  run-IsCovered base m (e ∷ rest) a h =
      run-IsCovered base (after_event m e) rest a.1 (after_event-IsCovered base m e a.0 h)
