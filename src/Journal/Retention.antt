-- ===== src/Journal/Retention.antt =====
-- The bounds of the journal, after any samples at all.
use infra_sentinel.Prelude.{
  ℕ, ◌+◌, ◌≤◌, ◌≡◌, refl, Bool, true, false, not, some, List, [], ◌∷◌, length, select, String, All,
  length-take, arith, Bool-cases, inl, inr, ◌∙◌,
}
use infra_sentinel.Prelude.Dict.{Dict, string_eq}
use infra_sentinel.Prelude.Sort.{sort, All-sort, All-take}
use infra_sentinel.Diagnostics.{DiagnosticObservation, DiagnosticCheck}
use infra_sentinel.Journal.{
  Journal, EventRow, ActiveRow, empty, is_expired, newer_event, newer_active, retain, observe,
  is_stale, max_events, max_active, record_check, record_checks, assert_condition, event,
}

pub All-select {ℓ} :
    {A : Type ℓ} (test : A → Bool) (xs : List A) → All (λ x. test x ≡ true) (select test xs)
All-select test [] = tt
All-select test (x ∷ xs) = elim (Bool-cases (test x)) [
  | inl e ↦ rw e (e, All-select test xs)
  | inr e ↦ rw e (All-select test xs)
]

pub All-map {ℓ κ μ} :
    {A : Type ℓ} (P : A → Type κ) (Q : A → Type μ) (xs : List A)
    → ((x : A) → P x → Q x)
    → All P xs
    → All Q xs
All-map P Q [] f h = tt
All-map P Q (x ∷ xs) f h = (f x h.0, All-map P Q xs f h.1)

-- At most 10000 events, none older than 30 days at the time of the sample, and at most 512 active
-- conditions.
pub record IsBounded (now : ℕ) (j : Journal) : Type 0 where
  pub events_bounded : length j.events ≤ 10000
  pub active_bounded : length j.active ≤ 512
  pub events_young : All (λ (e : EventRow). now ≤ e.observed_epoch + 2592000) j.events

young_event :
    (now : ℕ) (e : EventRow)
    → not (is_expired now e.observed_epoch) ≡ true
    → now ≤ e.observed_epoch + 2592000
young_event now e h = ground arith

pub retain-IsBounded : (j : Journal) (now : ℕ) → IsBounded now (retain j now)
unfolding retain
retain-IsBounded j now =
    let young = select (λ (e : EventRow). not (is_expired now e.observed_epoch)) j.events in
    record {
      events_bounded = omega (arith, length-take max_events (sort newer_event young));
      active_bounded = omega (arith, length-take max_active (sort newer_active j.active));
      events_young =
          All-take (λ (e : EventRow). now ≤ e.observed_epoch + 2592000) max_events
            (sort newer_event young)
            (All-sort (λ (e : EventRow). now ≤ e.observed_epoch + 2592000) newer_event young
              (All-map _ _ young (young_event now)
                (All-select (λ (e : EventRow). not (is_expired now e.observed_epoch)) j.events)));
    }

-- The samples of a run, in the order in which they arrive.
unfoldable pub observe_all : Journal → List (DiagnosticObservation × ℕ) → Journal
observe_all j [] = j
observe_all j ((observation, now) ∷ rest) = observe_all (observe j observation now) rest

-- A bounded journal knows a last sample no later than its bounds.
abbrev pub IsKept : Journal → Type 0
IsKept j = (now : ℕ) × (j.observed_epoch ≡ some now) × IsBounded now j

epoch-record_check :
    (snapshot : Dict String ActiveRow) (now : ℕ) (j : Journal) (check : DiagnosticCheck)
    → (record_check snapshot now j check).observed_epoch ≡ j.observed_epoch
unfolding record_check assert_condition event
epoch-record_check snapshot now j check = ground arith

epoch-record_checks :
    (snapshot : Dict String ActiveRow) (now : ℕ) (j : Journal) (checks : List DiagnosticCheck)
    → (record_checks snapshot now j checks).observed_epoch ≡ j.observed_epoch
unfolding record_checks
epoch-record_checks snapshot now j [] = refl
epoch-record_checks snapshot now j (c ∷ cs) =
    epoch-record_checks snapshot now (record_check snapshot now j c) cs
    ∙ epoch-record_check snapshot now j c

epoch-retain : (j : Journal) (now : ℕ) → (retain j now).observed_epoch ≡ j.observed_epoch
unfolding retain
epoch-retain j now = refl

-- A sample that is not older than the last one leaves a bounded journal dated by it, and an older
-- one changes nothing at all.
pub observe_dated :
    (j : Journal) (observation : DiagnosticObservation) (now : ℕ)
    → (is_stale j.observed_epoch now ≡ false
        → ((observe j observation now).observed_epoch ≡ some now)
          × IsBounded now (observe j observation now))
      × (is_stale j.observed_epoch now ≡ true → observe j observation now ≡ j)
unfolding observe
observe_dated j observation now = (
  λ fresh. rw fresh (
    epoch-retain _ now ∙ epoch-record_checks j.active now _ observation.checks,
    retain-IsBounded _ now,
  ),
  λ old. rw old,
)

observe-IsKept :
    (j : Journal) (observation : DiagnosticObservation) (now : ℕ)
    → IsKept j
    → IsKept (observe j observation now)
observe-IsKept j observation now k = elim (Bool-cases (is_stale j.observed_epoch now)) [
  | inl old ↦ rw ((observe_dated j observation now).1 old) k
  | inr fresh ↦
      let (dated, bounded) = (observe_dated j observation now).0 fresh in (now, dated, bounded)
]

observe_all-IsKept :
    (j : Journal) (samples : List (DiagnosticObservation × ℕ))
    → IsKept j
    → IsKept (observe_all j samples)
unfolding observe_all
observe_all-IsKept j [] k = k
observe_all-IsKept j ((observation, now) ∷ rest) k =
    observe_all-IsKept (observe j observation now) rest (observe-IsKept j observation now k)

-- After any samples in any order, at least one, the journal is bounded as of its last sample.
pub run-IsBounded :
    (first : DiagnosticObservation) (now : ℕ) (rest : List (DiagnosticObservation × ℕ))
    → IsKept (observe_all empty ((first, now) ∷ rest))
unfolding observe_all empty
run-IsBounded first now rest =
    let (dated, bounded) = (observe_dated empty first now).0 refl in
    observe_all-IsKept (observe empty first now) rest (now, dated, bounded)
