-- ===== src/Journal/Conditions.antt =====
-- When a condition may clear, and what a condition keeps while it lasts.
use infra_sentinel.Prelude.{
  ℕ, String, str_eq, eq_iff, ◌≡◌, refl, false, Option, none, some, ◌&&◌, arith, if◌then◌else◌,
  Bool-cases, inl, inr,
}
use infra_sentinel.Prelude.Dict.{get, put, string_eq, get-put, get-remove}
use infra_sentinel.Diagnostics.{Severity, ObservationStatus, observed, DiagnosticCheck, is_observed}
use infra_sentinel.Journal.{
  Journal, ActiveRow, event, severity_eq, is_replay, effective_status, upsert_check, active_row,
  upsert_active, assert_condition, record_check,
}

-- What an observed check makes of its own condition.
abbrev pub next_condition :
    DiagnosticCheck → Option ActiveRow → Option Severity → ℕ → Option ActiveRow
next_condition check prior none now = none
next_condition check prior (some severity) now =
    some (upsert_active prior (active_row check prior severity now))

module _ (now : ℕ) (j : Journal) (check : DiagnosticCheck) (id : String) where
  assert_condition_active :
      (prior : Option ActiveRow) (severity : Option Severity)
      → get check.id j.active ≡ prior
      → get id (assert_condition j check prior severity now).active
        ≡ (if str_eq check.id id then next_condition check prior severity now else get id j.active)
  unfolding assert_condition event
  assert_condition_active none none h = ground (arith, eq_iff check.id id)
  assert_condition_active (some prior) none h = get-remove check.id id j.active
  assert_condition_active none (some severity) h =
      let row = upsert_active none (active_row check none severity now) in
      rw h (get-put check.id id row j.active)
  assert_condition_active (some prior) (some severity) h =
      let row = upsert_active (some prior) (active_row check (some prior) severity now) in
      elim (Bool-cases (severity_eq prior.severity severity)) [
        | inl e ↦ rw e (rw h (get-put check.id id row j.active))
        | inr e ↦ rw e (rw h (get-put check.id id row j.active))
      ]

module _ (now : ℕ) (j : Journal) (check : DiagnosticCheck) (id : String) where
  abbrev pub effective : ObservationStatus
  effective = effective_status check (get check.id j.active)

  -- A check changes the condition of its own id alone, and only as an observation.
  record_check_active : get id (record_check j.active now j check).active ≡ (
      if str_eq check.id id && is_observed effective
      then next_condition check (get check.id j.active) check.severity now
      else get id j.active)
  unfolding record_check
  record_check_active =
      let prior = get check.id j.active in
      let row = upsert_check (get check.id j.checks) check (effective_status check prior) now in
      let t = record j { checks = put check.id row j.checks } in
      let asserted = assert_condition_active now t check id prior check.severity refl in
      elim (Bool-cases (is_observed effective)) [
        | inl seen ↦ rw seen (rw asserted (ground arith))
        | inr quiet ↦ rw quiet (ground arith)
      ]

  -- A condition clears only by an observation of its own check that asserts no severity, and whose
  -- evidence is no older than the condition's.
  pub clears_on_evidence :
      (p : ActiveRow)
      → get id j.active ≡ some p
      → get id (record_check j.active now j check).active ≡ none
      → (check.id ≡ id)
        × (check.observation_status ≡ observed)
        × (check.severity ≡ none)
        × (is_replay (some p) check.observed_epoch ≡ false)
  unfolding effective_status
  clears_on_evidence p before gone = ground (arith, record_check_active, eq_iff check.id id)

  -- A condition that lasts through a check keeps its start, its category, source and code.
  pub lasting_condition :
      (p q : ActiveRow)
      → get id j.active ≡ some p
      → get id (record_check j.active now j check).active ≡ some q
      → (q.started_epoch ≡ p.started_epoch)
        × (q.category ≡ p.category)
        × (q.source_id ≡ p.source_id)
        × (q.code ≡ p.code)
  unfolding upsert_active active_row
  lasting_condition p q before lasts = ground (arith, record_check_active, eq_iff check.id id)
