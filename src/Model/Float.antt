-- ===== src/Model/Float.antt =====
-- Go's `float64` as a parameter: what the program does with one, and the laws of its order. `F`
-- stands for the values other than NaN where a theorem assumes the laws.
use Prim.Native.Nat.{ℕ, ◌+◌, ◌-◌, ◌*◌, ◌/◌, ◌<◌, min}
use mathlib.Core.Path.{◌≡◌}
use route_analysis_service.Prelude.{ℤ, pos, pos_part, arith, Bool, not, ◌||◌, true, false, ltb, leb}

pub record Float64 (F : Type 0) : Type 0 where
  -- `decimal m k` is the literal m / 10^k; `of_int` converts an `int`.
  pub decimal : ℤ → ℕ → F
  pub of_int : ℤ → F
  pub add : F → F → F
  pub sub : F → F → F
  pub mul : F → F → F
  pub div : F → F → F
  pub lt : F → F → Bool
  pub le : F → F → Bool
  -- `int64(x)`: the integer part.
  pub truncate : F → ℤ
  -- `math.Round`: the nearest whole number, halves away from zero.
  pub round : F → F
  pub neg : F → F
  pub abs : F → F
  pub sqrt : F → F
  pub sin : F → F
  pub cos : F → F
  pub atan2 : F → F → F
  pub pi : F
  pub infinity : F
  pub is_nan : F → Bool
  pub is_inf : F → Bool

-- `<` is a total strict order (up to the two zeros) and `<=` its complement: away from NaN.
pub record IsOrdered {F : Type 0} (fl : Float64 F) : Type 0 where
  pub le-eq-not-lt : (x y : F) → fl.le x y ≡ not (fl.lt y x)
  pub lt_asymm : (x y : F) → fl.lt x y ≡ true → fl.lt y x ≡ false
  pub le_trans : (x y z : F) → fl.lt y x ≡ false → fl.lt z y ≡ false → fl.lt z x ≡ false

-- A magnitude exceeds a bound on one side of zero or on the other.
pub record IsMagnitude {F : Type 0} (fl : Float64 F) : Type 0 where
  pub lt-abs : (m x : F) → fl.lt m (fl.abs x) ≡ (fl.lt m x || fl.lt x (fl.neg m))

-- There are finitely many values: `rank` counts those below.
pub record IsFinite {F : Type 0} (fl : Float64 F) : Type 0 where
  pub rank : F → ℕ
  pub bound : ℕ
  pub rank-lt-bound : (x : F) → rank x < bound
  pub rank_mono : (x y : F) → fl.le y x ≡ false → rank x < rank y

-- A float that the theorems can be run on: whole numbers up to 999, where larger ones count as 999
-- in a comparison, as all that is too large is the one infinity.
abbrev pub ceiling : ℕ → ℕ
ceiling n = min n 999

instance abbrev pub small_float : Float64 ℕ
small_float = record {
  decimal = λ m k. pos_part m;
  of_int = pos_part;
  add = λ x y. x + y;
  sub = λ x y. x - y;
  mul = λ x y. x * y;
  div = λ x y. x / y;
  lt = λ x y. ltb (ceiling x) (ceiling y);
  le = λ x y. leb (ceiling x) (ceiling y);
  truncate = λ x. pos x;
  round = λ x. x;
  neg = λ x. 0;
  abs = λ x. x;
  sqrt = λ x. x;
  sin = λ x. x;
  cos = λ x. x;
  atan2 = λ x y. x;
  pi = 3;
  infinity = 999;
  is_nan = λ x. false;
  is_inf = λ x. leb 999 x;
}

pub small_float-IsOrdered : IsOrdered small_float
small_float-IsOrdered = record {
  le-eq-not-lt = λ x y. ground arith;
  lt_asymm = λ x y h. ground arith;
  le_trans = λ x y z h k. ground arith;
}

pub ceiling-lt-bound : (x : ℕ) → ceiling x < 1000
ceiling-lt-bound x = omega arith

pub ceiling_mono : (x y : ℕ) → small_float.le y x ≡ false → ceiling x < ceiling y
ceiling_mono x y h = ground arith

abbrev pub small_float-IsFinite : IsFinite small_float
small_float-IsFinite = record {
  rank = ceiling;
  bound = 1000;
  rank-lt-bound = ceiling-lt-bound;
  rank_mono = ceiling_mono;
}

pub small_float-IsMagnitude : IsMagnitude small_float
small_float-IsMagnitude = record { lt-abs = λ m x. ground arith }
