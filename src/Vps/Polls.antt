-- ===== src/Vps/Polls.antt =====
-- The polls of a server: their schedule, and what a failure leaves.
use infra_sentinel.Prelude.{
  ◌≡◌, ◌⊎◌, ◌↔◌, inl, inr, sym, subst, refl, ◌∙◌, ap, String, eq_iff, Bool, true, false, not, ◌||◌,
  if◌then◌else◌, some, arith,
}
use infra_sentinel.Prelude.Int.{ℤ, pos, ◌+ℤ◌, ◌<ℤ◌, leb_ℤ}
use infra_sentinel.Vps.{
  Reading, VpsMonitor, Poll, unread, unsaved, read, apply, baseline, fail_poll, finish_poll, poll,
  disabled, maybe_poll,
}
use infra_sentinel.StatusStability.{observe}

when_due :
    (on due : Bool) (x y z : VpsMonitor)
    → on ≡ true
    → due ≡ true
    → (if not on then x else if due then y else z) ≡ y
when_due on due x y z h k = ground arith

when_early :
    (on due : Bool) (x y z : VpsMonitor)
    → on ≡ true
    → due ≡ false
    → (if not on then x else if due then y else z) ≡ z
when_early on due x y z h k = ground arith

module _ (iso_now : ℤ → String) (daily_usage_start_epoch : ℤ → ℤ) where
  poll_settings :
      (n : VpsMonitor) (now : ℤ) (outcome : Poll)
      → let q = poll iso_now daily_usage_start_epoch n now outcome in
        (q.enabled ≡ n.enabled) × (q.next_poll_at ≡ n.next_poll_at)
  unfolding poll fail_poll finish_poll
  poll_settings n now (unread text) = (refl, refl)
  poll_settings n now (unsaved raw text) = (refl, refl)
  poll_settings n now (read raw) = (refl, refl)

  abbrev IsFailure : VpsMonitor → String → VpsMonitor → Type 0
  IsFailure n text q =
      (q.samples ≡ n.samples)
      × (q.public_state.last_sample ≡ n.public_state.last_sample)
      × (q.public_state.updated_at ≡ n.public_state.updated_at)
      × ((q.public_state.error ≡ some text) ↔ (q.public_state.status ≡ "error"))

  IsFailure-shown :
      (n : VpsMonitor) (now : ℤ) (text : String)
      → IsFailure n text (fail_poll iso_now daily_usage_start_epoch n now text)
  unfolding fail_poll
  IsFailure-shown n now text =
      let status = (observe n.stability "error" false).1.status in
      (refl, refl, refl, ground (arith, eq_iff status "error"))

  failure :
      (n : VpsMonitor) (now : ℤ) (outcome : Poll) (text : String)
      → (outcome ≡ unread text) ⊎ ((raw : Reading) × (outcome ≡ unsaved raw text))
      → IsFailure n text (poll iso_now daily_usage_start_epoch n now outcome)
  unfolding poll apply
  failure n now outcome text (inl e) = rw e (IsFailure-shown n now text)
  failure n now outcome text (inr (raw, e)) =
      rw e (IsFailure-shown (record n { tracker = some (baseline raw) }) now text)

  module _ (m : VpsMonitor) (now : ℤ) (force : Bool) (outcome : Poll) where
    abbrev pub after : VpsMonitor
    after = maybe_poll iso_now daily_usage_start_epoch m now force outcome

    abbrev pub waiting : VpsMonitor
    waiting = record m { next_poll_at = now +ℤ pos m.poll_seconds }

    polls_when_due :
        m.enabled ≡ true
        → (force || leb_ℤ m.next_poll_at now) ≡ true
        → after ≡ poll iso_now daily_usage_start_epoch waiting now outcome
    unfolding maybe_poll
    polls_when_due on due =
        when_due m.enabled (force || leb_ℤ m.next_poll_at now)
          (disabled iso_now daily_usage_start_epoch m now)
          (poll iso_now daily_usage_start_epoch waiting now outcome) m on due

    -- A poll that fails adds no sample to the log, and leaves the last sample and the time of its
    -- reading on show; the exception's text is shown exactly when the shown status is error.
    pub failed_poll :
        (text : String)
        → m.enabled ≡ true
        → (force || leb_ℤ m.next_poll_at now) ≡ true
        → (outcome ≡ unread text) ⊎ ((raw : Reading) × (outcome ≡ unsaved raw text))
        → (after.samples ≡ m.samples)
          × (after.public_state.last_sample ≡ m.public_state.last_sample)
          × (after.public_state.updated_at ≡ m.public_state.updated_at)
          × ((after.public_state.error ≡ some text) ↔ (after.public_state.status ≡ "error"))
    failed_poll text on due failed =
        let step = polls_when_due on due in
        subst (IsFailure m text) (sym step) (failure waiting now outcome text failed)

    -- An enabled monitor that was polled is not polled again before its interval has passed, unless
    -- a poll is forced: an earlier call changes nothing.
    pub early_call :
        (later : ℤ) (other : Poll)
        → m.enabled ≡ true
        → (force || leb_ℤ m.next_poll_at now) ≡ true
        → later <ℤ now +ℤ pos m.poll_seconds
        → maybe_poll iso_now daily_usage_start_epoch after later false other ≡ after
    unfolding maybe_poll
    early_call later other on due early =
        let step = polls_when_due on due in
        let settings = poll_settings waiting now outcome in
        let next : after.next_poll_at ≡ now +ℤ pos m.poll_seconds =
          ap (λ (n : VpsMonitor). n.next_poll_at) step ∙ settings.1 in
        when_early after.enabled (false || leb_ℤ after.next_poll_at later)
          (disabled iso_now daily_usage_start_epoch after later)
          (poll iso_now daily_usage_start_epoch
            (record after { next_poll_at = later +ℤ pos after.poll_seconds }) later other)
          after (ap (λ (n : VpsMonitor). n.enabled) step ∙ settings.0 ∙ on)
          (rw next (ground (arith, early)))
