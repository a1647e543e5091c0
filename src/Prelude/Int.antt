-- ===== src/Prelude/Int.antt =====
-- Signed integers over the native numbers, and the wrap-around of Go's `int` and `int64`.
-- Sums and orders go through the two parts of an integer, which are numbers that `omega` reads.
use Prim.Native.Nat.{ℕ, suc, ◌+◌, ◌-◌, ◌%◌, ◌^◌, ◌≤◌, ◌<◌}
use mathlib.Core.Path.{◌≡◌}
use mathlib.Core.Bool.{Bool, false}
use native.Mathlib.Omega.{arith}
use route_analysis_service.Prelude.Tests.{ltb, leb, eq_ℕ, if◌then◌else◌}

-- `negsuc n` is -(n + 1).
pub data ℤ : Type 0 where
  pos : ℕ → ℤ
  negsuc : ℕ → ℤ

abbrev pub pos_part : ℤ → ℕ
pos_part (pos n) = n
pos_part (negsuc n) = 0

abbrev pub neg_part : ℤ → ℕ
neg_part (pos n) = 0
neg_part (negsuc n) = suc n

-- a - b, as an integer.
abbrev pub sub_ℕ : ℕ → ℕ → ℤ
sub_ℕ a b = if leb b a then pos (a - b) else negsuc (b - a - 1)

infixl 65 ◌+ℤ◌ ◌-ℤ◌
infix 50 ◌≤ℤ◌ ◌<ℤ◌
unfoldable pub ◌+ℤ◌ : ℤ → ℤ → ℤ
a +ℤ b = sub_ℕ (pos_part a + pos_part b) (neg_part a + neg_part b)

unfoldable pub ◌-ℤ◌ : ℤ → ℤ → ℤ
a -ℤ b = sub_ℕ (pos_part a + neg_part b) (neg_part a + pos_part b)

abbrev pub ◌≤ℤ◌ : ℤ → ℤ → Type 0
a ≤ℤ b = pos_part a + neg_part b ≤ pos_part b + neg_part a

abbrev pub ◌<ℤ◌ : ℤ → ℤ → Type 0
a <ℤ b = pos_part a + neg_part b < pos_part b + neg_part a

abbrev pub ltb_ℤ : ℤ → ℤ → Bool
ltb_ℤ a b = ltb (pos_part a + neg_part b) (pos_part b + neg_part a)

abbrev pub leb_ℤ : ℤ → ℤ → Bool
leb_ℤ a b = leb (pos_part a + neg_part b) (pos_part b + neg_part a)

abbrev pub eq_ℤ : ℤ → ℤ → Bool
eq_ℤ a b = eq_ℕ (pos_part a + neg_part b) (pos_part b + neg_part a)

-- One lemma for each operation lets `omega` work with the operations shut.
pub +ℤ_parts :
    (a b : ℤ)
    → pos_part (a +ℤ b) + neg_part a + neg_part b ≡ neg_part (a +ℤ b) + pos_part a + pos_part b
unfolding ◌+ℤ◌
+ℤ_parts a b = ground arith

pub -ℤ_parts :
    (a b : ℤ)
    → pos_part (a -ℤ b) + neg_part a + pos_part b ≡ neg_part (a -ℤ b) + pos_part a + neg_part b
unfolding ◌-ℤ◌
-ℤ_parts a b = ground arith

pub eq_of_parts : (a b : ℤ) → pos_part a + neg_part b ≡ pos_part b + neg_part a → a ≡ b
eq_of_parts a b h = ground arith

pub ruleset int_laws = (arith, +ℤ_parts, -ℤ_parts, eq_of_parts)

-- 2^63: the first integer that `int` and `int64` cannot hold.
abbrev pub int64_bound : ℕ
int64_bound = 2 ^ 63

-- The value that remains of an integer in 64 bits of two's complement.
unfoldable pub wrap64 : ℤ → ℤ
wrap64 (pos n) =
    if ltb (n % (2 ^ 64)) int64_bound
    then pos (n % (2 ^ 64))
    else negsuc (2 ^ 64 - 1 - n % (2 ^ 64))
wrap64 (negsuc n) =
    if ltb (n % (2 ^ 64)) int64_bound
    then negsuc (n % (2 ^ 64))
    else pos (2 ^ 64 - 1 - n % (2 ^ 64))

-- Go's `+` on `int` and `int64`.
infixl 65 ◌+64◌
unfoldable pub ◌+64◌ : ℤ → ℤ → ℤ
a +64 b = wrap64 (a +ℤ b)

abbrev pub IsInt64 : ℤ → Type 0
IsInt64 z = (pos_part z < int64_bound) × (neg_part z ≤ int64_bound)

pub wrap64-of_IsInt64 : (z : ℤ) → IsInt64 z → wrap64 z ≡ z
unfolding wrap64
wrap64-of_IsInt64 (pos n) h = ground arith
wrap64-of_IsInt64 (negsuc n) h = ground arith

-- A counter below a bound that the type holds does not wrap.
pub increment_lem : (a b : ℤ) → IsInt64 a → IsInt64 b → a <ℤ b → a +64 pos 1 ≡ a +ℤ pos 1
unfolding ◌+64◌ ◌+ℤ◌
increment_lem (pos n) b ha hb h = wrap64-of_IsInt64 (pos n +ℤ pos 1) (ground arith)
increment_lem (negsuc n) b ha hb h = wrap64-of_IsInt64 (negsuc n +ℤ pos 1) (ground arith)

pub increment_fits : (a b : ℤ) → IsInt64 a → IsInt64 b → a <ℤ b → IsInt64 (a +64 pos 1)
unfolding ◌+ℤ◌
increment_fits (pos n) b ha hb h = rw (increment_lem (pos n) b ha hb h) (ground arith)
increment_fits (negsuc n) b ha hb h = rw (increment_lem (negsuc n) b ha hb h) (ground arith)

-- To add one is never the identity, overflow or not.
pub increment_ne : (a : ℤ) → IsInt64 a → eq_ℤ (a +64 pos 1) a ≡ false
unfolding ◌+64◌ ◌+ℤ◌ wrap64
increment_ne (pos n) h = ground arith
increment_ne (negsuc n) h = ground arith
