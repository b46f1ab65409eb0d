-- ===== src/StatusStability/Runs.antt =====
-- What a sequence of observations does: how many in a row confirm a status, and how few cannot.
use infra_sentinel.Prelude.{
  ℕ, zero, suc, ◌+◌, ◌≤◌, ◌<◌, min, String, eq_iff, ◌≡◌, ◌≢◌, refl, ap, false, none, some, List, [],
  ◌∷◌, length, arith, if◌then◌else◌, ◌∙◌,
}
use infra_sentinel.StatusStability.{StatusStabilizer, observe, required, window, is_pending}

-- `observe` at each candidate of a list in turn, without `immediate`.
unfoldable pub observe_all : StatusStabilizer → List String → StatusStabilizer
observe_all s [] = s
observe_all s (candidate ∷ rest) = observe_all (observe s candidate false).0 rest

-- The same candidate n times.
unfoldable pub repeat : ℕ → String → List String
repeat zero candidate = []
repeat (suc n) candidate = candidate ∷ repeat n candidate

-- How many observations in a row the candidate has behind it.
abbrev counted : StatusStabilizer → String → ℕ
counted s candidate = if is_pending s.pending_status candidate then s.pending_count else 0

-- A step of a run: one below the window only counts, the last one confirms.
module _ (s : StatusStabilizer) (candidate : String) (h : candidate ≢ s.status) where
  count_step :
      counted s candidate + 1 < required s candidate
      → (observe s candidate false).0
        ≡ record s { pending_status = some candidate; pending_count = counted s candidate + 1 }
  unfolding observe
  count_step lt = ground (arith, eq_iff candidate s.status)

  confirm_step :
      required s candidate ≤ counted s candidate + 1
      → (observe s candidate false).0
        ≡ record s { status = candidate; pending_status = none; pending_count = 0 }
  unfolding observe
  confirm_step le = ground (arith, eq_iff candidate s.status)

-- Fewer observations of a candidate than it needs leave the status as it is.
pub repeat_below :
    (n : ℕ) (s : StatusStabilizer) (candidate : String)
    → candidate ≢ s.status
    → counted s candidate + n < required s candidate
    → (observe_all s (repeat n candidate)).status ≡ s.status
unfolding observe_all repeat
repeat_below zero s candidate h lt = refl
repeat_below (suc n) s candidate h lt =
    let t = record s { pending_status = some candidate; pending_count = counted s candidate + 1 } in
    ap (λ u. (observe_all u (repeat n candidate)).status) (count_step s candidate h (omega arith))
    ∙ repeat_below n t candidate h (ground (arith, eq_iff candidate candidate))

-- The observation that completes the window confirms the candidate, and clears the window.
repeat_confirms :
    (n : ℕ) (s : StatusStabilizer) (candidate : String)
    → candidate ≢ s.status
    → counted s candidate + suc n ≡ required s candidate
    → observe_all s (repeat (suc n) candidate)
      ≡ record s { status = candidate; pending_status = none; pending_count = 0 }
unfolding observe_all repeat
repeat_confirms zero s candidate h e = confirm_step s candidate h (omega arith)
repeat_confirms (suc n) s candidate h e =
    let t = record s { pending_status = some candidate; pending_count = counted s candidate + 1 } in
    ap (λ u. observe_all u (repeat (suc n) candidate)) (count_step s candidate h (omega arith))
    ∙ repeat_confirms n t candidate h (ground (arith, eq_iff candidate candidate))

-- With no window open, n observations in a row of a candidate other than the status leave the
-- status when n is below the candidate's window, and make it the candidate when n is the window.
pub confirmation :
    (s : StatusStabilizer) (candidate : String) (n : ℕ)
    → s.pending_status ≡ none
    → candidate ≢ s.status
    → 0 < n
    → (n < required s candidate → (observe_all s (repeat n candidate)).status ≡ s.status)
      × (n ≡ required s candidate
          → observe_all s (repeat n candidate)
            ≡ record s { status = candidate; pending_status = none; pending_count = 0 })
confirmation s candidate zero p h z = absurd (omega arith)
confirmation s candidate (suc n) p h z = (
  λ lt. repeat_below (suc n) s candidate h (ground arith),
  λ e. repeat_confirms n s candidate h (ground arith),
)

required_bounds :
    (s : StatusStabilizer) (candidate : String)
    → min s.worsen_after s.recover_after ≤ required s candidate
unfolding window
required_bounds s candidate = ground arith

-- What a step does to the count: it grows by one at most, or the status stays and it is cleared.
short_step :
    (s : StatusStabilizer) (candidate : String)
    → s.pending_count + 1 < min s.worsen_after s.recover_after
    → ((observe s candidate false).0.status ≡ s.status)
      × ((observe s candidate false).0.pending_count ≤ s.pending_count + 1)
      × ((observe s candidate false).0.worsen_after ≡ s.worsen_after)
      × ((observe s candidate false).0.recover_after ≡ s.recover_after)
unfolding observe
short_step s candidate lt = ground (arith, required_bounds s candidate)

-- Any observations at all, fewer than the shorter of the two windows less what is already counted,
-- leave the confirmed status as it is: a glitch shorter than the windows is never shown.
pub glitch_ignored :
    (s : StatusStabilizer) (candidates : List String)
    → s.pending_count + length candidates < min s.worsen_after s.recover_after
    → (observe_all s candidates).status ≡ s.status
unfolding observe_all
glitch_ignored s [] lt = refl
glitch_ignored s (candidate ∷ rest) lt =
    let (same, grows, w, r) = short_step s candidate (omega arith) in
    glitch_ignored (observe s candidate false).0 rest (omega arith) ∙ same
