-- ===== src/Journal/Replay.antt =====
-- The events of a sample are the history of its conditions: replayed on the severities before the
-- sample they give the severities after it.
use infra_sentinel.Prelude.{
  ℕ, String, str_eq, eq_iff, ◌≡◌, refl, sym, ap, ◌∙◌, true, false, Option, none, some, List, [],
  ◌∷◌, ◌++◌, arith, All, Bool-cases, inl, inr, if◌then◌else◌,
}
use mathlib.Core.List.{append_assoc, append-nil}
use infra_sentinel.Prelude.Dict.{Dict, get, put, string_eq, get-put, get-remove}
use infra_sentinel.Diagnostics.{Severity, DiagnosticCheck, is_observed}
use infra_sentinel.Journal.{
  Journal, ActiveRow, EventRow, recovered, event, severity_eq, effective_status, upsert_check,
  active_row, upsert_active, assert_condition, record_check, record_checks,
}

abbrev pub severity_of : Option ActiveRow → Option Severity
severity_of none = none
severity_of (some row) = some row.severity

-- The severity of a condition after an event of its own.
abbrev pub after : EventRow → Option Severity
after e = elim e.transition [ recovered ↦ none | _ ↦ some e.severity ]

unfoldable pub replay : String → Option Severity → List EventRow → Option Severity
replay id s [] = s
replay id s (e ∷ es) = replay id (if str_eq e.diagnostic_id id then after e else s) es

severity_eq_sound : (a b : Severity) → severity_eq a b ≡ true → a ≡ b
severity_eq_sound a b h = ground arith

replay-append :
    (id : String) (s : Option Severity) (xs ys : List EventRow)
    → replay id s (xs ++ ys) ≡ replay id (replay id s xs) ys
unfolding replay
replay-append id s [] ys = refl
replay-append id s (x ∷ xs) ys =
    replay-append id (if str_eq x.diagnostic_id id then after x else s) xs ys

-- What a step may do to the journal: it adds events, which account for every severity, and touches
-- no condition but its own.
record IsStep (id : String) (j k : Journal) (new : List EventRow) : Type 0 where
  appended : k.events ≡ j.events ++ new
  accounts :
      (i : String) → severity_of (get i k.active) ≡ replay i (severity_of (get i j.active)) new
  elsewhere : (i : String) → str_eq id i ≡ false → get i k.active ≡ get i j.active

module _ (j : Journal) (check : DiagnosticCheck) (now : ℕ) where
  assert_condition-IsStep :
      (prior : Option ActiveRow) (severity : Option Severity)
      → get check.id j.active ≡ prior
      → (new : List EventRow) × IsStep check.id j (assert_condition j check prior severity now) new
  unfolding assert_condition event active_row upsert_active replay
  assert_condition-IsStep none none h =
      ([], record { appended = sym (append-nil _); accounts = λ i. refl; elsewhere = λ i e. refl })
  assert_condition-IsStep (some prior) none h = (
    _,
    record {
      appended = refl;
      accounts = λ i. ground (arith, get-remove check.id i j.active);
      elsewhere = λ i e. ground (arith, get-remove check.id i j.active);
    },
  )
  assert_condition-IsStep none (some severity) h = (
    _,
    record {
      appended = refl;
      accounts = λ i.
          rw h (ground (arith, get-put check.id i (active_row check none severity now) j.active));
      elsewhere = λ i e.
          rw h (ground (arith, get-put check.id i (active_row check none severity now) j.active));
    },
  )
  assert_condition-IsStep (some prior) (some severity) h =
      let row = upsert_active (some prior) (active_row check (some prior) severity now) in
      elim (Bool-cases (severity_eq prior.severity severity)) [
        | inl same ↦ rw same (
            rw h (
              [],
              record {
                appended = sym (append-nil _);
                accounts = λ i. ground (
                  arith,
                  get-put check.id i row j.active,
                  severity_eq_sound prior.severity severity,
                  eq_iff check.id i,
                );
                elsewhere = λ i e. ground (arith, get-put check.id i row j.active);
              },
            ))
        | inr other ↦ rw other (
            rw h (
              _,
              record {
                appended = refl;
                accounts = λ i. ground (arith, get-put check.id i row j.active);
                elsewhere = λ i e. ground (arith, get-put check.id i row j.active);
              },
            ))
      ]

record_check-IsStep :
    (snapshot : Dict String ActiveRow) (now : ℕ) (j : Journal) (check : DiagnosticCheck)
    → get check.id snapshot ≡ get check.id j.active
    → (new : List EventRow) × IsStep check.id j (record_check snapshot now j check) new
unfolding record_check replay
record_check-IsStep snapshot now j check h =
    let prior = get check.id snapshot in
    let status = effective_status check prior in
    let t = record j {
      checks = put check.id (upsert_check (get check.id j.checks) check status now) j.checks;
    } in
    elim (Bool-cases (is_observed status)) [
      | inl seen ↦
          let (new, step) = assert_condition-IsStep t check now prior check.severity (sym h) in
          rw seen (
            new,
            record {
              appended = step.appended;
              accounts = step.accounts;
              elsewhere = step.elsewhere;
            },
          )
      | inr quiet ↦ rw quiet (
        [],
        record { appended = sym (append-nil _); accounts = λ i. refl; elsewhere = λ i e. refl },
      )
    ]

-- Checks of one sample have ids of their own.
abbrev pub IsFreshId : String → List DiagnosticCheck → Type 0
IsFreshId id checks = All (λ c. str_eq id c.id ≡ false) checks

abbrev pub Distinct : List DiagnosticCheck → Type 0
Distinct [] = Unit
Distinct (c ∷ cs) = IsFreshId c.id cs × Distinct cs

-- The active table, at the ids of the checks, is the snapshot of it.
abbrev Agrees : Dict String ActiveRow → Dict String ActiveRow → List DiagnosticCheck → Type 0
Agrees snapshot active checks = All (λ c. get c.id snapshot ≡ get c.id active) checks

Agrees-after :
    (snapshot : Dict String ActiveRow) (id : String) (j k : Journal) (new : List EventRow)
    (checks : List DiagnosticCheck)
    → IsStep id j k new
    → IsFreshId id checks
    → Agrees snapshot j.active checks
    → Agrees snapshot k.active checks
Agrees-after snapshot id j k new [] step f h = h
Agrees-after snapshot id j k new (c ∷ cs) step f h =
    (h.0 ∙ sym (step.elsewhere c.id f.0), Agrees-after snapshot id j k new cs step f.1 h.1)

record_checks_from :
    (snapshot : Dict String ActiveRow) (now : ℕ) (j : Journal) (checks : List DiagnosticCheck)
    → Distinct checks
    → Agrees snapshot j.active checks
    → (new : List EventRow) × ((record_checks snapshot now j checks).events ≡ j.events ++ new)
      × ((id : String)
          → severity_of (get id (record_checks snapshot now j checks).active)
            ≡ replay id (severity_of (get id j.active)) new)
unfolding record_checks replay
record_checks_from snapshot now j [] d h = ([], sym (append-nil _), λ id. refl)
record_checks_from snapshot now j (c ∷ cs) d h =
    let k = record_check snapshot now j c in
    let (new, step) = record_check-IsStep snapshot now j c h.0 in
    let (rest, events, accounts) =
      record_checks_from snapshot now k cs d.1
        (Agrees-after snapshot c.id j k new cs step d.0 h.1) in
    (
      new ++ rest,
      events ∙ ap (λ (l : List EventRow). l ++ rest) step.appended ∙ append_assoc j.events new rest,
      λ id.
          accounts id
          ∙ ap (λ s. replay id s rest) (step.accounts id)
          ∙ sym (replay-append id (severity_of (get id j.active)) new rest),
    )

Agrees-refl :
    (active : Dict String ActiveRow) (checks : List DiagnosticCheck) → Agrees active active checks
Agrees-refl active [] = tt
Agrees-refl active (c ∷ cs) = (refl, Agrees-refl active cs)

-- The checks of a sample, each under an id of its own, only add events to the journal, and these
-- replay the severities of all conditions before the sample into those after it.
pub record_checks-replay :
    (now : ℕ) (j : Journal) (checks : List DiagnosticCheck)
    → Distinct checks
    → let k = record_checks j.active now j checks in
      (new : List EventRow) × (k.events ≡ j.events ++ new)
      × ((id : String)
          → severity_of (get id k.active) ≡ replay id (severity_of (get id j.active)) new)
record_checks-replay now j checks d =
    record_checks_from j.active now j checks d (Agrees-refl j.active checks)
