-- ===== src/Diagnostics/Evidence.antt =====
-- What a check asserts, and how many there can be.
use infra_sentinel.Prelude.{
  ℕ, ◌+◌, ◌≤◌, ◌≡◌, refl, ◌&&◌, not, String, str_eq, eq_iff, true, false, Option, none, some, [],
  ◌∷◌, leb, length, is_some, arith, if◌then◌else◌, Bool-cases, inl, inr, All,
}
use infra_sentinel.Prelude.Dict.{Dict, get, put, string_eq}
use infra_sentinel.Diagnostics.{
  Category, Severity, ObservationStatus, DiagnosticCheck, Checks, ObservedAt, absent, unreadable,
  at, add, evidence, settle_status, is_observed, max_normalized_checks, has_key,
}

length-put :
    (k : String) (v : DiagnosticCheck) (m : Dict String DiagnosticCheck)
    → length (put k v m) ≡ (if is_some (get k m) then length m else length m + 1)
unfolding put get
length-put k v [] = omega arith
length-put k v ((j, w) ∷ m) = ground (arith, length-put k v m)

-- Evidence that is neither from the future nor older than its freshness allows.
abbrev pub IsFresh : ℕ → ℕ → Option ℕ → Type 0
IsFresh now freshness none = ⊥
IsFresh now freshness (some epoch) = (epoch ≤ now + 60) × (now ≤ epoch + freshness)

-- An observed check has fresh evidence, and any other asserts no severity.
pub record IsEvidence (now : ℕ) (c : DiagnosticCheck) : Type 0 where
  pub fresh :
      is_observed c.observation_status ≡ true → IsFresh now c.freshness_seconds c.observed_epoch
  pub quiet : is_observed c.observation_status ≡ false → c.severity ≡ none

pub record IsSound (checks : Checks) : Type 0 where
  pub bounded : length checks.items ≤ 512
  pub evident : All (λ c. IsEvidence checks.now c.1) checks.items
  pub keyed : All (λ c. c.0 ≡ c.1.id) checks.items

module _ {ℓ} (P : String × DiagnosticCheck → Type ℓ) where
  All-put :
      (k : String) (v : DiagnosticCheck) (m : Dict String DiagnosticCheck)
      → ((j : String) → (str_eq j k ≡ true) → P (j, v))
      → P (k, v)
      → All P m
      → All P (put k v m)
  unfolding put
  All-put k v [] same p h = (p, tt)
  All-put k v ((j, w) ∷ m) same p h = elim (Bool-cases (str_eq j k)) [
    | inl e ↦ rw e (same j e, h.1)
    | inr e ↦ rw e (h.0, All-put k v m same p h.1)
  ]

-- What `add` puts in under its id.
abbrev pub new_check :
    ℕ
    → String
    → Category
    → String
    → String
    → String
    → Option Severity
    → ObservationStatus
    → ObservedAt
    → ℕ
    → DiagnosticCheck
new_check now check_id category source_id label code severity status observed_at freshness =
    let (epoch, first) = evidence now observed_at status in
    let final = settle_status now freshness epoch first in
    record {
      id = check_id;
      category = category;
      source_id = source_id;
      source_label = label;
      code = code;
      severity = if is_observed final then severity else none;
      observation_status = final;
      observed_epoch = epoch;
      freshness_seconds = freshness;
    }

module _ (now : ℕ) (check_id : String) (category : Category) (source_id label code : String)
    (severity : Option Severity) (status : ObservationStatus) (freshness : ℕ) where
  abbrev made : ObservedAt → DiagnosticCheck
  made observed_at =
      new_check now check_id category source_id label code severity status observed_at freshness

  new_check-IsEvidence : (observed_at : ObservedAt) → IsEvidence now (made observed_at)
  unfolding evidence settle_status
  new_check-IsEvidence absent = record { fresh = ground arith; quiet = ground arith }
  new_check-IsEvidence unreadable = record { fresh = ground arith; quiet = ground arith }
  new_check-IsEvidence (at epoch) = record { fresh = ground arith; quiet = ground arith }

-- Any `add` keeps a sample sound: at most 512 checks, each under its own id, where only a check with
-- fresh evidence asserts a severity.
pub add-IsSound :
    (checks : Checks) (check_id : String) (category : Category) (source_id label code : String)
    (severity : Option Severity) (status : ObservationStatus) (observed_at : ObservedAt)
    (freshness : ℕ)
    → IsSound checks
    → IsSound
        (add checks check_id category source_id label code severity status observed_at freshness)
unfolding add
add-IsSound checks check_id category source_id label code severity status observed_at freshness s =
    let c =
      new_check checks.now check_id category source_id label code severity status observed_at
        freshness in
    let c_evident =
      new_check-IsEvidence checks.now check_id category source_id label code severity status
        freshness observed_at in
    elim (Bool-cases
      (leb max_normalized_checks (length checks.items) && not (has_key check_id checks.items))) [
        | inl full ↦ rw full (record { bounded = s.bounded; evident = s.evident; keyed = s.keyed })
        | inr room ↦ rw room (record {
          bounded = ground (arith, length-put check_id c checks.items, s.bounded);
          evident =
              All-put (λ x. IsEvidence checks.now x.1) check_id c checks.items (λ j e. c_evident)
                c_evident s.evident;
          keyed =
              All-put (λ x. x.0 ≡ x.1.id) check_id c checks.items (λ j e. (eq_iff j check_id).0 e)
                refl s.keyed;
        })
      ]
