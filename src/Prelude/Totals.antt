-- ===== src/Prelude/Totals.antt =====
-- Sums over the elements of a list.
use Prim.Native.Nat.{ℕ, ◌+◌}
use mathlib.Core.Path.{◌≡◌, ap}
use mathlib.Core.List.{List, [], ◌∷◌, ◌++◌}
use native.Mathlib.Omega.{arith}

module _ {A : Type 0} (f : A → ℕ) where
  unfoldable pub total : List A → ℕ
  total [] = 0
  total (x ∷ xs) = f x + total xs

  pub total-append : (xs ys : List A) → total (xs ++ ys) ≡ total xs + total ys
  unfolding total
  total-append [] ys = omega arith
  total-append (x ∷ xs) ys = omega (arith, total-append xs ys)

  -- One element changes.
  pub total-change :
      (before after : List A) (x y : A)
      → total (before ++ y ∷ after) + f x ≡ total (before ++ x ∷ after) + f y
  unfolding total
  total-change before after x y =
      omega (arith, total-append before (x ∷ after), total-append before (y ∷ after))

  -- One element of a list changes.
  pub total-replace :
      (zs before after : List A) (x y : A)
      → zs ≡ before ++ x ∷ after
      → total (before ++ y ∷ after) + f x ≡ total zs + f y
  total-replace zs before after x y at = omega (arith, ap total at, total-change before after x y)
