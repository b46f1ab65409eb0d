-- ===== src/Xray/Growth.antt =====
-- The bytes of a user in readings, samples and totals.
use infra_sentinel.Prelude.{
  ℕ, ◌+◌, ◌≤◌, ◌≡◌, refl, ap, ◌∙◌, subst, String, str_eq, eq_iff, true, false, Option, none, some,
  [], ◌∷◌, or_default, arith, if◌then◌else◌, Bool-cases, inl, inr,
}
use infra_sentinel.Prelude.Dict.{get, put, get-put, string_eq}
use infra_sentinel.Prelude.Entries.{Unique, Unique-put}
use infra_sentinel.Prelude.Sums.{value_at}
use infra_sentinel.Xray.{
  UserTraffic, Users, no_traffic, Direction, uplink, downlink, delta, apply_users, add_users,
}

abbrev pub measure : Direction → UserTraffic → ℕ
measure uplink t = t.up_bytes
measure downlink t = t.down_bytes

-- The bytes under a label, or 0.
abbrev pub bytes_at : Direction → String → Users → ℕ
bytes_at d label users = value_at (measure d) (get label users)

abbrev entry_bytes : Direction → String → String × UserTraffic → ℕ
entry_bytes d label entry = if str_eq entry.0 label then measure d entry.1 else 0

pub sum_at : Direction → String → Users → ℕ
sum_at d label [] = 0
sum_at d label (entry ∷ rest) = entry_bytes d label entry + sum_at d label rest

sum_absent :
    (d : Direction) (label : String) (users : Users)
    → get label users ≡ none
    → sum_at d label users ≡ 0
unfolding sum_at get
sum_absent d label [] h = refl
sum_absent d label ((k, t) ∷ rest) h = elim (Bool-cases (str_eq k label)) [
  | inl same ↦ absurd (ground (arith, h, same))
  | inr other ↦ rw other (omega (arith, sum_absent d label rest (rw other at h)))
]

pub sum-get :
    (d : Direction) (label : String) (users : Users)
    → Unique users
    → sum_at d label users ≡ bytes_at d label users
unfolding sum_at get
sum-get d label [] u = refl
sum-get d label ((k, t) ∷ rest) u = elim (Bool-cases (str_eq k label)) [
  | inl same ↦
      let absent =
        sum_absent d label rest (subst (λ l. get l rest ≡ none) ((eq_iff k label).0 same) u.0) in
      rw same (omega (arith, absent))
  | inr other ↦ rw other (omega (arith, sum-get d label rest u.1))
]

measure_sum :
    (d : Direction) (a b : UserTraffic)
    → measure d
        (record { up_bytes = a.up_bytes + b.up_bytes; down_bytes = a.down_bytes + b.down_bytes })
      ≡ measure d a + measure d b
measure_sum uplink a b = refl
measure_sum downlink a b = refl

measure_default :
    (d : Direction) (o : Option UserTraffic)
    → measure d (or_default o no_traffic) ≡ value_at (measure d) o
measure_default uplink none = refl
measure_default downlink none = refl
measure_default d (some t) = refl

pub bytes-add_users :
    (d : Direction) (label : String) (totals ds : Users)
    → bytes_at d label (add_users totals ds) ≡ bytes_at d label totals + sum_at d label ds
unfolding add_users sum_at
bytes-add_users d label totals [] = omega arith
bytes-add_users d label totals ((k, t) ∷ rest) =
    let total = or_default (get k totals) no_traffic in
    let new : UserTraffic = record {
      up_bytes = total.up_bytes + t.up_bytes;
      down_bytes = total.down_bytes + t.down_bytes;
    } in
    let later = bytes-add_users d label (put k new totals) rest in
    let sum =
      measure_sum d total t ∙ ap (λ n. n + measure d t) (measure_default d (get k totals)) in
    let found = ap (value_at (measure d)) (get-put k label new totals) in
    elim (Bool-cases (str_eq k label)) [
      | inl same ↦
          let here = ap (λ l. bytes_at d l totals) ((eq_iff k label).0 same) in
          rw same (omega (arith, later, rw same at found, sum, here))
      | inr other ↦ rw other (omega (arith, later, rw other at found))
    ]

pub measure-delta :
    (d : Direction) (prior : Option UserTraffic) (current : UserTraffic)
    → value_at (measure d) prior ≤ measure d current
    → value_at (measure d) prior + measure d (delta prior current) ≤ measure d current
unfolding delta
measure-delta uplink none current h = omega arith
measure-delta downlink none current h = omega arith
measure-delta uplink (some p) current h = ground (arith, h)
measure-delta downlink (some p) current h = ground (arith, h)

-- The counter of a label does not fall in a reading that has it.
abbrev pub Rises : Direction → String → Users → Users → Type 0
Rises d label previous users =
    (c : UserTraffic) → get label users ≡ some c → bytes_at d label previous ≤ measure d c

unfoldable pub found_or :
    Option UserTraffic → (UserTraffic → UserTraffic) → Option UserTraffic → Option UserTraffic
found_or none g old = old
found_or (some c) g old = some (g c)

put_same :
    (k label : String) (t : UserTraffic) (users : Users)
    → str_eq k label ≡ true
    → get label (put k t users) ≡ some t
put_same k label t users e =
    get-put k label t users ∙ ap (λ b. if b then some t else get label users) e

put_other :
    (k label : String) (t : UserTraffic) (users : Users)
    → str_eq k label ≡ false
    → get label (put k t users) ≡ get label users
put_other k label t users e =
    get-put k label t users ∙ ap (λ b. if b then some t else get label users) e

pub get-apply_users :
    (label : String) (previous deltas next users : Users)
    → Unique users
    → let r = apply_users previous deltas next users in
      (get label r.0 ≡ found_or (get label users) (delta (get label previous)) (get label deltas))
      × (get label r.1 ≡ found_or (get label users) (λ c. c) (get label next))
unfolding apply_users found_or get
get-apply_users label previous deltas next [] u = (refl, refl)
get-apply_users label previous deltas next ((k, c) ∷ rest) u =
    let d = delta (get k previous) c in
    let (a, b) = get-apply_users label previous (put k d deltas) (put k c next) rest u.1 in
    elim (Bool-cases (str_eq k label)) [
      | inl same ↦
          let e : k ≡ label = (eq_iff k label).0 same in
          let gone : get label rest ≡ none = subst (λ l. get l rest ≡ none) e u.0 in
          rw same (
            rw gone at a
                ∙ put_same k label d deltas same
                ∙ ap (λ l. some (delta (get l previous) c)) e,
            rw gone at b ∙ put_same k label c next same,
          )
      | inr other ↦ rw other (
        a
            ∙ ap (found_or (get label rest) (delta (get label previous)))
                (put_other k label d deltas other),
        b ∙ ap (found_or (get label rest) (λ t. t)) (put_other k label c next other),
      )
    ]

pub Unique-apply_users :
    (previous deltas next users : Users)
    → Unique deltas
    → Unique (apply_users previous deltas next users).0
unfolding apply_users
Unique-apply_users previous deltas next [] u = u
Unique-apply_users previous deltas next ((k, c) ∷ rest) u =
    Unique-apply_users previous (put k (delta (get k previous) c) deltas) (put k c next) rest
      (Unique-put k (delta (get k previous) c) deltas u)
