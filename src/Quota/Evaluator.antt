-- ===== src/Quota/Evaluator.antt =====
-- internal/domain/quota/quota.go: policies, and the budget and limiter that each tenant has. A
-- call of a method on a nil budget or limiter panics: `none`.
use route_analysis_service.Prelude.{
  ◌&&◌, not, ℤ, pos, ltb_ℤ, Bool, true, false, not, ◌||◌, ◌==◌, if◌then◌else◌, String, Map, lookup,
  insert, contains, contains-insert, contains-some, Option, none, some, is_some, ◌≡◌, refl, arith,
  ap, lookup-insert_self, [],
}
use text.Mathlib.TextEquality.{eq_iff}
use route_analysis_service.Model.Time.{Time, Duration}
use route_analysis_service.Model.Error.{Result, ok, err, message, rate_limited, reject_if, ◌>>◌}
use route_analysis_service.Quota.Budget.{Budget, new_budget, consume, remaining}
use route_analysis_service.Quota.RateLimit.{RateLimiter, new_rate_limiter, allow}

pub record Policy : Type 0 where
  pub tenant : String
  pub request_cap : ℤ
  pub rate_limit : ℤ
  pub window : Duration
  pub exempt : Bool

unfoldable pub validate_policy : Policy → Result (Unit {0})
validate_policy p = do
  reject_if (p.tenant == "") (message "tenant is required")
  reject_if (ltb_ℤ p.request_cap (pos 0) || ltb_ℤ p.rate_limit (pos 0))
      (message "quota values must be non-negative")

pub record Evaluator : Type 0 where
  pub budgets : Map Budget
  pub limits : Map RateLimiter
  pub policy : Map Policy

unfoldable pub new_evaluator : Evaluator
new_evaluator = record { budgets = []; limits = []; policy = [] }

-- Only a tenant that has none gets a new budget and a new limiter.
unfoldable pub install : Evaluator → Policy → Time → Evaluator
install e p now = record {
  policy = insert p.tenant p e.policy;
  budgets =
      if contains p.tenant e.budgets
      then e.budgets
      else insert p.tenant (new_budget p.request_cap p.window now) e.budgets;
  limits =
      if contains p.tenant e.limits
      then e.limits
      else insert p.tenant (new_rate_limiter p.rate_limit p.window) e.limits;
}

unfoldable pub register : Evaluator → Policy → Time → Evaluator × Result (Unit {0})
unfolding install
register e p now = elim (validate_policy p) [ ok _ ↦ (install e p now, ok tt) | err x ↦ (e, err x) ]

-- The limiter is asked only if the budget grants the call, whose unit is then spent in any case.
unfoldable pub authorize_limit : Evaluator → String → Time → Option (Evaluator × Result (Unit {0}))
authorize_limit e tenant at = elim (lookup tenant e.limits) [
  | none ↦ none
  | some l ↦
      let (l', within) = allow l tenant at in
      some (
        record e { limits = insert tenant l' e.limits },
        if within then ok tt else err rate_limited,
      )
]

unfoldable pub authorize_budget : Evaluator → String → Time → Option (Evaluator × Result (Unit {0}))
unfolding authorize_limit
authorize_budget e tenant at = elim (lookup tenant e.budgets) [
  | none ↦ none
  | some b ↦
      let (b', r) = consume b at in
      let e' = record e { budgets = insert tenant b' e.budgets } in
      elim r [ err x ↦ some (e', err x) | ok _ ↦ authorize_limit e' tenant at ]
]

unfoldable pub authorize : Evaluator → String → Time → Option (Evaluator × Result (Unit {0}))
unfolding authorize_budget
authorize e tenant at = elim (lookup tenant e.policy) [
  | none ↦ some (e, ok tt)
  | some p ↦ if p.exempt then some (e, ok tt) else authorize_budget e tenant at
]

unfoldable pub remaining_of : Evaluator → String → Time → ℤ
remaining_of e tenant at = elim (lookup tenant e.budgets) [ none ↦ pos 0 | some b ↦ remaining b at ]

-- Every tenant with a policy has a budget and a limiter.
abbrev pub IsLinked : Evaluator → Type 0
IsLinked e =
    (tenant : String)
    → (not (contains tenant e.policy) || (contains tenant e.budgets && contains tenant e.limits))
      ≡ true

linked :
    (e : Evaluator) (tenant : String)
    → IsLinked e
    → contains tenant e.policy ≡ true
    → (contains tenant e.budgets ≡ true) × (contains tenant e.limits ≡ true)
linked e tenant link known = ground (arith, link tenant)

install-IsLinked :
    (e : Evaluator) (p : Policy) (now : Time) → IsLinked e → IsLinked (install e p now)
unfolding install
install-IsLinked e p now link t =
    let known = contains-insert p.tenant t p e.policy in
    let budget = contains-insert p.tenant t (new_budget p.request_cap p.window now) e.budgets in
    let limiter = contains-insert p.tenant t (new_rate_limiter p.rate_limit p.window) e.limits in
    ground (arith, known, budget, limiter, link t, eq_iff p.tenant t)

-- If every tenant with a policy has a budget and a limiter, that is so after `Register`, whether
-- it accepts the policy or not.
pub register-IsLinked :
    (e : Evaluator) (p : Policy) (now : Time) → IsLinked e → IsLinked (register e p now).0
unfolding register
register-IsLinked e p now link = by_result (validate_policy p)
  where
    by_result :
        (r : Result (Unit {0}))
        → IsLinked (
            let out : Evaluator × Result (Unit {0}) = elim r [
              | ok _ ↦ (install e p now, ok tt)
              | err x ↦ (e, err x)
            ] in
            out.0)
    by_result (ok _) = install-IsLinked e p now link
    by_result (err x) = link

-- The call returns, and leaves every tenant linked.
abbrev pub KeepsLinked : Option (Evaluator × Result (Unit {0})) → Type 0
KeepsLinked none = ⊥
KeepsLinked (some (e, r)) = IsLinked e

authorize_limit-KeepsLinked :
    (e : Evaluator) (tenant : String) (at : Time)
    → IsLinked e
    → contains tenant e.limits ≡ true
    → KeepsLinked (authorize_limit e tenant at)
unfolding authorize_limit
authorize_limit-KeepsLinked e tenant at link has =
    let (l, found) = contains-some tenant e.limits has in
    rw (found, authorize_limit)
      λ t. ground (arith, contains-insert tenant t (allow l tenant at).0 e.limits, link t)

authorize_budget-KeepsLinked :
    (e : Evaluator) (tenant : String) (at : Time)
    → IsLinked e
    → contains tenant e.policy ≡ true
    → KeepsLinked (authorize_budget e tenant at)
unfolding authorize_budget
authorize_budget-KeepsLinked e tenant at link has =
    let (b, found) = contains-some tenant e.budgets (linked e tenant link has).0 in
    rw (found, authorize_budget) (outcome b (consume b at).1)
  where
    spent : Budget → Evaluator
    spent b = record e { budgets = insert tenant (consume b at).0 e.budgets }

    spent-IsLinked : (b : Budget) → IsLinked (spent b)
    spent-IsLinked b t = ground (arith, contains-insert tenant t (consume b at).0 e.budgets, link t)

    outcome :
        (b : Budget) (r : Result (Unit {0}))
        → KeepsLinked
            (elim r [ err x ↦ some (spent b, err x) | ok _ ↦ authorize_limit (spent b) tenant at ])
    outcome b (err x) = spent-IsLinked b
    outcome b (ok _) =
        authorize_limit-KeepsLinked (spent b) tenant at (spent-IsLinked b)
          (linked e tenant link has).1

-- If every tenant with a policy has a budget and a limiter, `Authorize` never meets a nil one,
-- and keeps that so.
pub authorize-KeepsLinked :
    (e : Evaluator) (tenant : String) (at : Time) → IsLinked e → KeepsLinked (authorize e tenant at)
unfolding authorize
authorize-KeepsLinked e tenant at link = by_policy (lookup tenant e.policy) refl
  where
    by_exempt :
        (b : Bool)
        → contains tenant e.policy ≡ true
        → KeepsLinked (if b then some (e, ok tt) else authorize_budget e tenant at)
    by_exempt true has = link
    by_exempt false has = authorize_budget-KeepsLinked e tenant at link has

    by_policy :
        (o : Option Policy)
        → lookup tenant e.policy ≡ o
        → KeepsLinked (elim o [
          | none ↦ some (e, ok tt)
          | some p ↦ if p.exempt then some (e, ok tt) else authorize_budget e tenant at
        ])
    by_policy none found = link
    by_policy (some p) found = by_exempt p.exempt (ap is_some found)

-- A valid policy for a tenant that has a budget is recorded, but its cap does not reach the
-- budget: what the tenant has left is what it was.
remaining-register :
    (e : Evaluator) (p : Policy) (now at : Time)
    → contains p.tenant e.budgets ≡ true
    → validate_policy p ≡ ok tt
    → (lookup p.tenant (register e p now).0.policy ≡ some p)
      × (remaining_of (register e p now).0 p.tenant at ≡ remaining_of e p.tenant at)
unfolding register install remaining_of
remaining-register e p now at has valid =
    (ground (arith, lookup-insert_self p.tenant p e.policy), ground arith)
