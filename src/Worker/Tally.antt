-- ===== src/Worker/Tally.antt =====
-- What the workers of internal/infrastructure/worker/dispatcher.go have counted.
use route_analysis_service.Prelude.{
  total, one_if, ℕ, zero, suc, ◌+◌, ◌≤◌, String, List, [], ◌∷◌, ◌++◌, length, ◌==◌, Option, none,
  some, ◌≡◌, refl, ap, arith,
}
use route_analysis_service.Model.Error.{Error}
use route_analysis_service.Worker.Dispatcher.{
  Pc, receiving, holding, calling, answered, reporting, gone, waiting_workers, AllGone,
}

-- Whether the worker has a slot of `sem`.
abbrev pub uses : Pc → ℕ
uses (calling i) = 1
uses (answered i r) = 1
uses _ = 0

-- Whether the worker has the input, and has not counted it.
abbrev pub carries : String → Pc → ℕ
carries x (holding i) = one_if (i == x)
carries x (calling i) = one_if (i == x)
carries x (answered i r) = one_if (i == x)
carries x (reporting i r) = one_if (i == x)
carries x _ = 0

abbrev pub carries_any : Pc → ℕ
carries_any (holding i) = 1
carries_any (calling i) = 1
carries_any (answered i r) = 1
carries_any (reporting i r) = 1
carries_any _ = 0

-- How often an input stands in the log, the answers without an error, and the first error.
unfoldable pub calls_of : String → List (String × Option Error) → ℕ
calls_of x [] = 0
calls_of x ((i, r) ∷ rs) = one_if (i == x) + calls_of x rs

unfoldable pub good : List (String × Option Error) → ℕ
good [] = 0
good ((i, none) ∷ rs) = suc (good rs)
good ((i, some e) ∷ rs) = good rs

unfoldable pub first_error : List (String × Option Error) → Option Error
first_error [] = none
first_error ((i, none) ∷ rs) = first_error rs
first_error ((i, some e) ∷ rs) = some e

pub total-waiting_workers : (f : Pc → ℕ) (n : ℕ) → f receiving ≡ 0 → total f (waiting_workers n) ≡ 0
unfolding total waiting_workers
total-waiting_workers f zero h = refl
total-waiting_workers f (suc n) h = omega (arith, h, total-waiting_workers f n h)

pub total-AllGone : (f : Pc → ℕ) (ps : List Pc) → f gone ≡ 0 → AllGone ps → total f ps ≡ 0
unfolding total
total-AllGone f [] h g = refl
total-AllGone f (p ∷ ps) h g = omega (arith, ap f g.0, h, total-AllGone f ps h g.1)

pub calls_of-snoc :
    (x i : String) (r : Option Error) (log : List (String × Option Error))
    → calls_of x (log ++ (i, r) ∷ []) ≡ calls_of x log + one_if (i == x)
unfolding calls_of
calls_of-snoc x i r [] = omega arith
calls_of-snoc x i r ((j, q) ∷ log) = omega (arith, calls_of-snoc x i r log)

pub good-snoc :
    (i : String) (r : Option Error) (log : List (String × Option Error))
    → good (log ++ (i, r) ∷ []) ≡ good log + good ((i, r) ∷ [])
unfolding good
good-snoc i none [] = refl
good-snoc i (some e) [] = refl
good-snoc i r ((j, none) ∷ log) = omega (arith, good-snoc i r log)
good-snoc i r ((j, some e) ∷ log) = good-snoc i r log

pub good-le-length : (log : List (String × Option Error)) → good log ≤ length log
unfolding good
good-le-length [] = omega arith
good-le-length ((j, none) ∷ log) = omega (arith, good-le-length log)
good-le-length ((j, some e) ∷ log) = omega (arith, good-le-length log)

pub first_error-snoc :
    (i : String) (r : Option Error) (log : List (String × Option Error))
    → first_error (log ++ (i, r) ∷ []) ≡ elim (first_error log) [ none ↦ r | some e ↦ some e ]
unfolding first_error
first_error-snoc i none [] = refl
first_error-snoc i (some e) [] = refl
first_error-snoc i r ((j, none) ∷ log) = first_error-snoc i r log
first_error-snoc i r ((j, some e) ∷ log) = refl
