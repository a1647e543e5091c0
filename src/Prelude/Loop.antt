-- ===== src/Prelude/Loop.antt =====
-- A loop whose body either ends it with an answer or goes on with a new state, on fuel.
use Prim.Native.Nat.{ℕ, zero, suc, ◌<◌}
use mathlib.Core.Path.{◌≡◌, refl}
use mathlib.Core.Option.{Option, none, some}
use native.Mathlib.Omega.{arith}

pub data Outcome (S A : Type 0) : Type 0 where
  done : A → Outcome S A
  more : S → Outcome S A

-- `none`: the fuel ran out.
unfoldable pub run : {S A : Type 0} → ℕ → (S → Outcome S A) → S → Option A
run zero body s = none
run (suc fuel) body s = elim (body s) [ done a ↦ some a | more s' ↦ run fuel body s' ]

-- What the body must do at a state: end with a good answer, or go on to a smaller good state.
abbrev pub Advances :
    {S A : Type 0} (P : S → Type 0) (Q : A → Type 0) (measure : S → ℕ) → ℕ → Outcome S A → Type 0
Advances P Q measure n (done a) = Q a
Advances P Q measure n (more s) = P s × (measure s < n)

-- With more fuel than the measure the loop ends, and its answer is good.
pub run_correct :
    {S A : Type 0} (P : S → Type 0) (Q : A → Type 0) (measure : S → ℕ) (body : S → Outcome S A)
    → ((s : S) → P s → Advances P Q measure (measure s) (body s))
    → (fuel : ℕ) (s : S) → measure s < fuel
    → P s
    → (a : A) × (run fuel body s ≡ some a) × Q a
unfolding run
run_correct P Q measure body advances zero s m p = absurd (omega arith)
run_correct {S} {A} P Q measure body advances (suc fuel) s m p =
    step (body s) (advances s p) (run_correct P Q measure body advances fuel)
  where
    step :
        (o : Outcome S A)
        → Advances P Q measure (measure s) o
        → ((s' : S) → measure s' < fuel → P s' → (a : A) × (run fuel body s' ≡ some a) × Q a)
        → (a : A) × ((elim o [ done a' ↦ some a' | more s' ↦ run fuel body s' ]) ≡ some a) × Q a
    step (done a) q rest = (a, refl, q)
    step (more s') q rest = rest s' (omega arith) q.0
