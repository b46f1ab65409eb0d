-- ===== src/Meter/Baselines.antt =====
-- What ends `set_vps_baseline` with an exception.
use infra_sentinel.Prelude.{
  ℕ, ◌≡◌, ◌∙◌, ◌==◌, ◌||◌, refl, String, str_eq, Bool, true, false, ◌&&◌, not, Option, none, some,
  List, [], ◌∷◌, any, is_some, if◌then◌else◌, Bool-cases, inl, inr,
}
use infra_sentinel.Prelude.Int.{ℤ, pos, leb_ℤ}
use infra_sentinel.Prelude.Dict.{Dict, get, string_eq}
use infra_sentinel.Vps
use infra_sentinel.Vps.Start.{initial_monitor, initial_public_state, latest}
use infra_sentinel.StatusStability.{observe, settle, window, init}
use infra_sentinel.Meter.{
  RemoteRow, baselined, passed, ServerTotals, SessionMeter, sample_baseline, row_baseline,
  with_baseline, baseline_row, baseline_rows, set_vps_baseline,
}

-- A server that is enabled, not in error, and has no sample yet.
abbrev pub is_unsampled : RemoteRow → Bool
is_unsampled row =
    row.vps.enabled && not (str_eq row.vps.status "error") && not (is_some row.vps.last_sample)

module _ (servers : Dict String ServerTotals) (row : RemoteRow)
    (onward : Dict String ServerTotals → Dict String ServerTotals × Bool) (done : Bool)
    (onward_ends : (next : Dict String ServerTotals) → (onward next).1 ≡ done) where
  baseline_row_ends :
      (enabled failed : Bool) (last : Option Vps.Sample)
      → (baseline_row
          (if failed then passed else sample_baseline enabled last)
          servers
          row
          onward).1
        ≡ (not (enabled && not failed && not (is_some last)) && done)
  unfolding baseline_row sample_baseline
  baseline_row_ends false true last = onward_ends servers
  baseline_row_ends true true last = onward_ends servers
  baseline_row_ends false false none = onward_ends servers
  baseline_row_ends true false none = refl
  baseline_row_ends false false (some s) = by_schema (s.schema == 3)
    where
      by_schema :
          (b : Bool)
          → (baseline_row (if b then baselined s.epoch else passed) servers row onward).1 ≡ done
      by_schema true = onward_ends (with_baseline servers row s.epoch)
      by_schema false = onward_ends servers
  baseline_row_ends true false (some s) = by_schema (s.schema == 3)
    where
      by_schema :
          (b : Bool)
          → (baseline_row (if b then baselined s.epoch else passed) servers row onward).1 ≡ done
      by_schema true = onward_ends (with_baseline servers row s.epoch)
      by_schema false = onward_ends servers

not_or : (a b : Bool) → (not a && not b) ≡ not (a || b)
not_or true b = refl
not_or false b = refl

baseline_rows_end :
    (servers : Dict String ServerTotals) (rows : List RemoteRow)
    → (baseline_rows servers rows).1 ≡ not (any is_unsampled rows)
unfolding baseline_rows row_baseline
baseline_rows_end servers [] = refl
baseline_rows_end servers (row ∷ rest) =
    let turn =
      baseline_row_ends servers row (λ next. baseline_rows next rest) (not (any is_unsampled rest))
        (λ next. baseline_rows_end next rest) row.vps.enabled (str_eq row.vps.status "error")
        row.vps.last_sample in
    turn ∙ not_or (is_unsampled row) (any is_unsampled rest)

-- Setting the baselines ends with an exception exactly when some server is enabled, not in error, and has
-- no sample yet.
pub set_vps_baseline_ends :
    (m : SessionMeter) (rows : List RemoteRow)
    → (set_vps_baseline m rows).1 ≡ not (any is_unsampled rows)
unfolding set_vps_baseline
set_vps_baseline_ends m rows = baseline_rows_end m.vps_servers rows

module _ (iso_now : ℤ → String) (daily_usage_start_epoch : ℤ → ℤ) where
  -- A server that is enabled and has no sample on disk, and whose first reading fails: the poll leaves
  -- the status waiting, and setting the baselines ends with an exception at this server, so that the
  -- session keeps no baseline from it or from any server behind it.
  pub first_failure_raises :
      (poll_seconds : ℕ) (tracker : Option Vps.Baseline) (started now : ℤ) (force : Bool)
      (error : String) (id label billing_mode : String) (rest : List RemoteRow) (m : SessionMeter)
      → set_vps_baseline m (
          record {
            id = id;
            label = label;
            billing_mode = billing_mode;
            vps =
                (Vps.maybe_poll iso_now daily_usage_start_epoch
                  (initial_monitor iso_now daily_usage_start_epoch true poll_seconds tracker []
                    started)
                  now
                  force
                  (Vps.unread error)).public_state;
          }
          ∷ rest)
        ≡ (m, false)
  unfolding set_vps_baseline baseline_rows baseline_row row_baseline sample_baseline Vps.maybe_poll
      Vps.poll Vps.fail_poll initial_monitor initial_public_state latest observe settle window init
      get
  first_failure_raises poll_seconds tracker started now true error id label billing_mode rest m =
      refl
  first_failure_raises poll_seconds tracker started now false error id label billing_mode rest m =
      elim (Bool-cases (leb_ℤ (pos 0) now)) [ inl due ↦ rw due refl | inr early ↦ rw early refl ]
