-- ===== src/Quota.antt =====
-- internal/domain/quota: budgets, rate limits and the evaluator that joins them for each tenant.
pub mod Budget
pub mod RateLimit
pub mod Evaluator
