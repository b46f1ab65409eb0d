-- ===== src/StatusStability/Tests.antt =====
-- Runs of the stabilizer at concrete observations.
use infra_sentinel.Prelude.{◌<◌, ◌≡◌, ◌≢◌, refl, eq_iff, none, [], ◌∷◌, arith}
use infra_sentinel.Prelude.Dict.{get}
use infra_sentinel.StatusStability.{StatusStabilizer, observe, window, required}
use infra_sentinel.StatusStability.Runs.{observe_all, repeat, confirmation}

abbrev fresh : StatusStabilizer
fresh = record {
  status = "available";
  ranks = ("available", 0) ∷ ("error", 1) ∷ [];
  worsen_after = 3;
  recover_after = 2;
  pending_status = none;
  pending_count = 0;
}

three_errors : (observe_all fresh ("error" ∷ "error" ∷ "error" ∷ [])).status ≡ "error"
unfolding observe_all observe window get
three_errors = refl

interrupted :
    (observe_all fresh ("error" ∷ "error" ∷ "available" ∷ "error" ∷ [])).status ≡ "available"
unfolding observe_all observe window get
interrupted = refl

error_is_other : "error" ≢ fresh.status
error_is_other e = cc ((eq_iff "error" "available").1 e)

confirmation_example :
    (3 < required fresh "error" → (observe_all fresh (repeat 3 "error")).status ≡ fresh.status)
    × (3 ≡ required fresh "error"
        → observe_all fresh (repeat 3 "error")
          ≡ record fresh { status = "error"; pending_status = none; pending_count = 0 })
confirmation_example = confirmation fresh "error" 3 refl error_is_other (omega arith)
