-- ===== src/Billing/Alerts.antt =====
-- Over one evaluation: the transitions are the history of the levels, and say everything once.
use infra_sentinel.Prelude.{
  ◌≡◌, refl, sym, ap, subst, ◌∙◌, String, str_eq, eq_iff, true, false, some, List, [], ◌∷◌, ◌++◌,
  or_default, All, arith, Bool-cases, Option-cases, inl, inr, if◌then◌else◌, select,
}
use infra_sentinel.Prelude.Dict.{Dict, get, string_eq, get-put}
use infra_sentinel.Billing.{
  BillingBudgetPolicy, Level, none_level, Server, BillingBudgetTransition, daily_usage_bytes,
  Levels, level_eq, next_level, judged, transition, judge, judge_server, judge_all, evaluate,
  servers_by_id, is_configured,
}
use infra_sentinel.Billing.Levels.{level_of}

-- The level of a policy after some transitions.
unfoldable pub replay : String → Level → List BillingBudgetTransition → Level
replay id level [] = level
replay id level (t ∷ ts) = replay id (if str_eq t.policy.id id then t.level else level) ts

replay-append :
    (id : String) (level : Level) (xs ys : List BillingBudgetTransition)
    → replay id level (xs ++ ys) ≡ replay id (replay id level xs) ys
unfolding replay
replay-append id level [] ys = refl
replay-append id level (x ∷ xs) ys =
    replay-append id (if str_eq x.policy.id id then x.level else level) xs ys

level_eq_sound : (a b : Level) → level_eq a b ≡ true → a ≡ b
level_eq_sound a b h = ground arith

level_eq_refl : (a : Level) → level_eq a a ≡ true
level_eq_refl a = ground arith

judge-replay :
    (servers : Dict String Server) (levels : Levels) (p : BillingBudgetPolicy) (id : String)
    → level_of (judge servers levels p).0 id
      ≡ replay id (level_of levels id) (judge servers levels p).1
unfolding judge judge_server replay transition
judge-replay servers levels p id = elim (Option-cases (judged servers p)) [
  | inl e ↦ rw (e, judge_server)
  | inr (s, e) ↦
      let next = next_level p (daily_usage_bytes s) in
      let previous = or_default (get p.id levels) none_level in
      rw (e, judge_server)
        (ground (arith, get-put p.id id next levels, level_eq_sound next previous, eq_iff p.id id))
]

judge_all-replay :
    (servers : Dict String Server) (levels : Levels) (policies : List BillingBudgetPolicy)
    (id : String)
    → level_of (judge_all servers levels policies).0 id
      ≡ replay id (level_of levels id) (judge_all servers levels policies).1
unfolding judge_all replay
judge_all-replay servers levels [] id = refl
judge_all-replay servers levels (p ∷ rest) id =
    let (levels', first) = judge servers levels p in
    judge_all-replay servers levels' rest id
    ∙ ap (λ l. replay id l (judge_all servers levels' rest).1) (judge-replay servers levels p id)
    ∙ sym (replay-append id (level_of levels id) first (judge_all servers levels' rest).1)

configured_ne :
    (policies : List BillingBudgetPolicy) (id k : String) (l : Level) (levels : Levels)
    → is_configured policies id ≡ true
    → is_configured policies k ≡ false
    → get id ((k, l) ∷ levels) ≡ get id levels
unfolding get
configured_ne policies id k l levels h e = elim (Bool-cases (str_eq k id)) [
  | inl same ↦ cc (e, subst (λ j. is_configured policies j ≡ true) (sym ((eq_iff k id).0 same)) h)
  | inr other ↦ rw other
]

get-select :
    (policies : List BillingBudgetPolicy) (id : String) (levels : Levels)
    → is_configured policies id ≡ true
    → get id (select (λ (l : String × Level). is_configured policies l.0) levels) ≡ get id levels
unfolding get
get-select policies id [] h = refl
get-select policies id ((k, l) ∷ levels) h = elim (Bool-cases (is_configured policies k)) [
  | inl e ↦ rw e (ground (arith, get-select policies id levels h))
  | inr e ↦ rw e (get-select policies id levels h ∙ sym (configured_ne policies id k l levels h e))
]

-- The level of a configured policy after an evaluation is its level before, changed by the
-- transitions that the evaluation reports.
pub evaluate-replay :
    (levels : Levels) (servers : List Server) (policies : List BillingBudgetPolicy) (id : String)
    → is_configured policies id ≡ true
    → level_of (evaluate levels servers policies).0 id
      ≡ replay id (level_of levels id) (evaluate levels servers policies).1
unfolding evaluate
evaluate-replay levels servers policies id h =
    ap (λ o. or_default o none_level)
      (get-select policies id (judge_all (servers_by_id servers) levels policies).0 h)
    ∙ judge_all-replay (servers_by_id servers) levels policies id

-- Policies have ids of their own.
abbrev IsFreshId : String → List BillingBudgetPolicy → Type 0
IsFreshId id policies = All (λ p. str_eq id p.id ≡ false) policies

abbrev pub DistinctIds : List BillingBudgetPolicy → Type 0
DistinctIds [] = Unit
DistinctIds (p ∷ ps) = IsFreshId p.id ps × DistinctIds ps

-- The policy has the level that its server's usage gives.
IsSettled : Dict String Server → Levels → BillingBudgetPolicy → Type 0
IsSettled servers levels p =
    (s : Server)
    → judged servers p ≡ some s
    → level_of levels p.id ≡ next_level p (daily_usage_bytes s)

others_differ :
    (id : String) (ps : List BillingBudgetPolicy)
    → IsFreshId id ps
    → All (λ q. str_eq q.id id ≡ false) ps
others_differ id [] h = tt
others_differ id (q ∷ ps) h =
    (ground (arith, h.0, eq_iff q.id id, eq_iff id q.id), others_differ id ps h.1)

configured_more :
    (p : BillingBudgetPolicy) (policies ps : List BillingBudgetPolicy)
    → All (λ q. is_configured policies q.id ≡ true) ps
    → All (λ q. is_configured (p ∷ policies) q.id ≡ true) ps
configured_more p policies [] h = tt
configured_more p policies (q ∷ ps) h = (ground (arith, h.0), configured_more p policies ps h.1)

All-configured : (ps : List BillingBudgetPolicy) → All (λ q. is_configured ps q.id ≡ true) ps
All-configured [] = tt
All-configured (p ∷ ps) =
    (ground (arith, eq_iff p.id p.id), configured_more p ps ps (All-configured ps))

module _ (servers : Dict String Server) where
  judge-IsSettled :
      (levels : Levels) (p : BillingBudgetPolicy) → IsSettled servers (judge servers levels p).0 p
  unfolding IsSettled judge judge_server
  judge-IsSettled levels p s e =
      rw (e, judge_server)
        (ground
          (arith, get-put p.id p.id (next_level p (daily_usage_bytes s)) levels, eq_iff p.id p.id))

  level-judge :
      (levels : Levels) (p : BillingBudgetPolicy) (id : String)
      → str_eq p.id id ≡ false
      → level_of (judge servers levels p).0 id ≡ level_of levels id
  unfolding judge judge_server
  level-judge levels p id h = elim (Option-cases (judged servers p)) [
    | inl e ↦ rw (e, judge_server)
    | inr (s, e) ↦
        rw (e, judge_server)
          (ground (arith, get-put p.id id (next_level p (daily_usage_bytes s)) levels))
  ]

  level-judge_all :
      (levels : Levels) (ps : List BillingBudgetPolicy) (id : String)
      → All (λ p. str_eq p.id id ≡ false) ps
      → level_of (judge_all servers levels ps).0 id ≡ level_of levels id
  unfolding judge_all
  level-judge_all levels [] id h = refl
  level-judge_all levels (p ∷ ps) id h =
      level-judge_all (judge servers levels p).0 ps id h.1 ∙ level-judge levels p id h.0

  IsSettled-judge_all :
      (levels : Levels) (p : BillingBudgetPolicy) (ps : List BillingBudgetPolicy)
      → All (λ q. str_eq q.id p.id ≡ false) ps
      → IsSettled servers levels p
      → IsSettled servers (judge_all servers levels ps).0 p
  unfolding IsSettled
  IsSettled-judge_all levels p ps h settled s e = level-judge_all levels ps p.id h ∙ settled s e

  -- An evaluation settles every policy.
  judge_all-settles :
      (levels : Levels) (ps : List BillingBudgetPolicy)
      → DistinctIds ps
      → All (IsSettled servers (judge_all servers levels ps).0) ps
  unfolding judge_all
  judge_all-settles levels [] d = tt
  judge_all-settles levels (p ∷ ps) d =
      let levels' = (judge servers levels p).0 in
      (
        IsSettled-judge_all levels' p ps (others_differ p.id ps d.0) (judge-IsSettled levels p),
        judge_all-settles levels' ps d.1,
      )

  judge_settled :
      (levels : Levels) (p : BillingBudgetPolicy)
      → IsSettled servers levels p
      → (judge servers levels p).1 ≡ []
  unfolding judge judge_server IsSettled
  judge_settled levels p settled = elim (Option-cases (judged servers p)) [
    | inl e ↦ rw (e, judge_server)
    | inr (s, e) ↦
        rw (e, judge_server)
          (rw (settled s e) (ground (arith, level_eq_refl (next_level p (daily_usage_bytes s)))))
  ]

  IsSettled-others :
      (levels : Levels) (p : BillingBudgetPolicy) (ps : List BillingBudgetPolicy)
      → IsFreshId p.id ps
      → All (IsSettled servers levels) ps
      → All (IsSettled servers (judge servers levels p).0) ps
  unfolding IsSettled
  IsSettled-others levels p [] h a = tt
  IsSettled-others levels p (q ∷ ps) h a =
      (λ s e. level-judge levels p q.id h.0 ∙ a.0 s e, IsSettled-others levels p ps h.1 a.1)

  judge_all_settled :
      (levels : Levels) (ps : List BillingBudgetPolicy)
      → DistinctIds ps
      → All (IsSettled servers levels) ps
      → (judge_all servers levels ps).1 ≡ []
  unfolding judge_all
  judge_all_settled levels [] d a = refl
  judge_all_settled levels (p ∷ ps) d a =
      rw (judge_settled levels p a.0)
        (judge_all_settled (judge servers levels p).0 ps d.1 (IsSettled-others levels p ps d.0 a.1))

IsSettled-selected :
    (servers : Dict String Server) (policies ps : List BillingBudgetPolicy) (levels : Levels)
    → All (λ p. is_configured policies p.id ≡ true) ps
    → All (IsSettled servers levels) ps
    → All
        (IsSettled servers (select (λ (l : String × Level). is_configured policies l.0) levels))
        ps
unfolding IsSettled
IsSettled-selected servers policies [] levels c a = tt
IsSettled-selected servers policies (p ∷ ps) levels c a = (
  λ s e. ap (λ o. or_default o none_level) (get-select policies p.id levels c.0) ∙ a.0 s e,
  IsSettled-selected servers policies ps levels c.1 a.1,
)

-- An alert is raised once: evaluated again with the same servers and policies, where each policy has
-- an id of its own, the guard reports no transition.
pub evaluate_once :
    (levels : Levels) (servers : List Server) (policies : List BillingBudgetPolicy)
    → DistinctIds policies
    → (evaluate (evaluate levels servers policies).0 servers policies).1 ≡ []
unfolding evaluate
evaluate_once levels servers policies d =
    let index = servers_by_id servers in
    let (after, transitions) = judge_all index levels policies in
    judge_all_settled index (select (λ (l : String × Level). is_configured policies l.0) after)
      policies d
      (IsSettled-selected index policies policies after (All-configured policies)
        (judge_all-settles index levels policies d))
