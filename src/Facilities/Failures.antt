-- ===== src/Facilities/Failures.antt =====
-- Polls that fail in transit, one after another.
use infra_sentinel.Prelude.{
  ◌<◌, ◌≡◌, ◌≢◌, refl, sym, ap, ◌∙◌, false, none, some, List, [], ◌∷◌, length, arith,
}
use infra_sentinel.Prelude.Int.{ℤ}
use infra_sentinel.StatusStability.{StatusStabilizer, observe, required}
use infra_sentinel.StatusStability.Runs.{observe_all, repeat, confirmation}
use infra_sentinel.Facilities.{
  Registration, AdapterSelection, ObservedFacility, transport_error, failed_record, stability_of,
}

-- The record after polls that fail in transit, one at each of the epochs.
unfoldable pub fail_all :
    Registration → AdapterSelection → List ℤ → ObservedFacility → ObservedFacility
fail_all registration selection [] r = r
fail_all registration selection (now ∷ rest) r =
    fail_all registration selection rest
      (failed_record registration selection (some r) now transport_error)

-- A record holds a stabilizer of its status.
pub record Holds (r : ObservedFacility) (s : StatusStabilizer) : Type 0 where
  pub stability : r.stability ≡ some s
  pub status : r.status ≡ s.status

module _ (registration : Registration) (selection : AdapterSelection) where
  decided :
      (s : StatusStabilizer)
      → (observe s "unreachable" false).1.status ≡ (observe s "unreachable" false).0.status
  unfolding observe
  decided s = ground arith

  kept :
      (r : ObservedFacility) (now : ℤ)
      → let after = failed_record registration selection (some r) now transport_error in
        (after.observation ≡ r.observation) × (after.last_success_epoch ≡ r.last_success_epoch)
  unfolding failed_record
  kept r now = (refl, refl)

  failed_record-Holds :
      (r : ObservedFacility) (s : StatusStabilizer) (now : ℤ)
      → Holds r s
      → Holds
          (failed_record registration selection (some r) now transport_error)
          (observe s "unreachable" false).0
  unfolding failed_record stability_of
  failed_record-Holds r s now h = rw h.stability (record { stability = refl; status = decided s })

  fail_all-Holds :
      (epochs : List ℤ) (r : ObservedFacility) (s : StatusStabilizer)
      → Holds r s
      → Holds
          (fail_all registration selection epochs r)
          (observe_all s (repeat (length epochs) "unreachable"))
        × ((fail_all registration selection epochs r).observation ≡ r.observation)
        × ((fail_all registration selection epochs r).last_success_epoch ≡ r.last_success_epoch)
  unfolding fail_all observe_all repeat
  fail_all-Holds [] r s h = (h, refl, refl)
  fail_all-Holds (now ∷ rest) r s h =
      let after = failed_record registration selection (some r) now transport_error in
      let (holds, observation, success) =
        fail_all-Holds rest after (observe s "unreachable" false).0
          (failed_record-Holds r s now h) in
      (holds, observation ∙ (kept r now).0, success ∙ (kept r now).1)

  -- A facility that is not shown as unreachable, and has no window open: polls that fail in transit one
  -- after another leave its status as it is while they are fewer than the stabilizer requires, and make it
  -- unreachable when they are as many. Its last observation and the time of its last success stay either way.
  pub fail_all_confirms :
      (epochs : List ℤ) (r : ObservedFacility) (s : StatusStabilizer)
      → Holds r s
      → s.pending_status ≡ none
      → "unreachable" ≢ s.status
      → 0 < length epochs
      → let after = fail_all registration selection epochs r in
        (after.observation ≡ r.observation)
        × (after.last_success_epoch ≡ r.last_success_epoch)
        × (length epochs < required s "unreachable" → after.status ≡ r.status)
        × (length epochs ≡ required s "unreachable" → after.status ≡ "unreachable")
  fail_all_confirms epochs r s h calm differs some_polls =
      let (holds, observation, success) = fail_all-Holds epochs r s h in
      let (few, enough) = confirmation s "unreachable" (length epochs) calm differs some_polls in
      (
        observation,
        success,
        (λ lt. holds.status ∙ few lt ∙ sym h.status),
        λ e. holds.status ∙ ap (λ (t : StatusStabilizer). t.status) (enough e),
      )
