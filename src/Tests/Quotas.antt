-- ===== src/Tests/Quotas.antt =====
-- Calls on the quotas of internal/domain/quota.
use route_analysis_service.Prelude.{
  [], ◌∷◌, length, filter, false, ℤ, pos, ◌+ℤ◌, ◌-ℤ◌, ◌≤ℤ◌, lookup, refl, arith,
}
use route_analysis_service.Model.Time.{add}
use route_analysis_service.Quota.Budget.{
  Budget, new_budget, consume_all, IsValid, new_budget-IsValid, consume_all-le-limit,
}
use route_analysis_service.Quota.RateLimit.{
  new_rate_limiter, in_window, final, allow_all, allow_all-le-limit,
}
use route_analysis_service.Quota.Evaluator.{
  Policy, Evaluator, new_evaluator, install, register, authorize, validate_policy, IsLinked,
  KeepsLinked, register-IsLinked, authorize-KeepsLinked,
}

abbrev budget : Budget
budget = new_budget (pos 2) (pos 100) (pos 5)

budget-IsValid : IsValid budget
budget-IsValid = new_budget-IsValid (pos 2) (pos 100) (pos 5) (ground arith)

consume_all-le-limit_example :
    pos (consume_all budget (pos 6 ∷ pos 7 ∷ pos 8 ∷ [])).1 ≤ℤ budget.limit -ℤ budget.used
unfolding new_budget add ◌+ℤ◌
consume_all-le-limit_example =
    consume_all-le-limit budget (pos 6 ∷ pos 7 ∷ pos 8 ∷ []) budget-IsValid
      (refl, (refl, (refl, tt)))

allow_all-le-limit_example :
    let r = new_rate_limiter (pos 1) (pos 10) in
    pos (
      length (
        filter
          (in_window r.window (final (pos 0) (pos 3 ∷ pos 4 ∷ pos 20 ∷ [])))
          (allow_all r "t" [] (pos 3 ∷ pos 4 ∷ pos 20 ∷ [])).1))
    ≤ℤ r.limit
allow_all-le-limit_example =
    allow_all-le-limit (pos 1) (pos 10) "t" (pos 0) (pos 3 ∷ pos 4 ∷ pos 20 ∷ []) (ground arith)

abbrev policy : ℤ → Policy
policy cap = record {
  tenant = "t";
  request_cap = cap;
  rate_limit = pos 5;
  window = pos 100;
  exempt = false;
}

abbrev evaluator : Evaluator
evaluator = install new_evaluator (policy (pos 2)) (pos 5)

new_evaluator-IsLinked : IsLinked new_evaluator
unfolding new_evaluator lookup
new_evaluator-IsLinked t = refl

evaluator-IsLinked : IsLinked evaluator
unfolding register validate_policy
evaluator-IsLinked = register-IsLinked new_evaluator (policy (pos 2)) (pos 5) new_evaluator-IsLinked

authorize-KeepsLinked_example : KeepsLinked (authorize evaluator "t" (pos 6))
authorize-KeepsLinked_example = authorize-KeepsLinked evaluator "t" (pos 6) evaluator-IsLinked
