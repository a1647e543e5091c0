-- ===== src/Prelude/Occurs.antt =====
-- How often texts stand in lists.
use Prim.Native.Nat.{ℕ, ◌+◌}
use Prim.Native.String.{String}
use mathlib.Core.Path.{◌≡◌, refl}
use mathlib.Core.Bool.{Bool}
use mathlib.Core.List.{List, [], ◌∷◌, ◌++◌, map}
use native.Mathlib.Omega.{arith}
use route_analysis_service.Prelude.Tests.{if◌then◌else◌}
use route_analysis_service.Prelude.Lists.{any}
use route_analysis_service.Prelude.Text.{◌==◌, Map, lookup, contains}

abbrev pub one_if : Bool → ℕ
one_if b = if b then 1 else 0

unfoldable pub occurs : String → List String → ℕ
occurs x [] = 0
occurs x (t ∷ ts) = one_if (t == x) + occurs x ts

pub occurs-append :
    (x : String) (ts us : List String) → occurs x (ts ++ us) ≡ occurs x ts + occurs x us
unfolding occurs
occurs-append x [] us = omega arith
occurs-append x (t ∷ ts) us = omega (arith, occurs-append x ts us)

-- The keys of a map are what it contains.
pub any-keys :
    {V : Type 0} (x : String) (m : Map V) → any (λ k. k == x) (map (λ e. e.0) m) ≡ contains x m
unfolding any lookup
any-keys x [] = refl
any-keys x (e ∷ m) = ground (arith, any-keys x m)
