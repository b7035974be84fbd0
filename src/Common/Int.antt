-- ===== src/Common/Int.antt =====
-- Go's `int` and `int64`: integers with the wrap-around of 64 bits written out.
use Prim.Native.Nat.{ℕ, suc, ◌+◌, ◌-◌, ◌*◌, ◌%◌, ◌≤◌}
use mathlib.Core.Path.{◌≡◌, refl}
use mathlib.Core.Bool.{Bool, true}
use native.Mathlib.Omega.{arith}
use package.aws_k8s_tester.Common.Tests.{ltb, leb, ◌==◌, if◌then◌else◌}

-- `negsuc n` is -(n + 1).
pub data ℤ : Type 0 where
  pos : ℕ → ℤ
  negsuc : ℕ → ℤ

abbrev pub pos_part : ℤ → ℕ
pos_part (pos n) = n
pos_part (negsuc n) = 0

abbrev pub neg_part : ℤ → ℕ
neg_part (pos n) = 0
neg_part (negsuc n) = suc n

-- a - b, as an integer.
abbrev pub sub_ℕ : ℕ → ℕ → ℤ
sub_ℕ a b = if leb b a then pos (a - b) else negsuc (b - a - 1)

abbrev pub int64_min_abs : ℕ
int64_min_abs = 9223372036854775808

abbrev pub int64_mod : ℕ
int64_mod = 18446744073709551616

-- The integer that the low 64 bits stand for.
unfoldable pub wrap64 : ℤ → ℤ
wrap64 (pos n) =
    let m = n % int64_mod in if ltb m int64_min_abs then pos m else negsuc (int64_mod - 1 - m)
wrap64 (negsuc n) =
    let m = n % int64_mod in if ltb m int64_min_abs then negsuc m else pos (int64_mod - 1 - m)

-- `a + b` and `a * b` of Go's `int64`.
unfoldable pub add64 : ℤ → ℤ → ℤ
unfolding wrap64
add64 a b = wrap64 (sub_ℕ (pos_part a + pos_part b) (neg_part a + neg_part b))

unfoldable pub mul64 : ℤ → ℤ → ℤ
unfolding wrap64
mul64 a b = wrap64 (
    sub_ℕ (pos_part a * pos_part b + neg_part a * neg_part b)
      (pos_part a * neg_part b + neg_part a * pos_part b))

abbrev pub leb_ℤ : ℤ → ℤ → Bool
leb_ℤ a b = leb (pos_part a + neg_part b) (pos_part b + neg_part a)

abbrev pub ltb_ℤ : ℤ → ℤ → Bool
ltb_ℤ a b = ltb (pos_part a + neg_part b) (pos_part b + neg_part a)

abbrev pub eqb_ℤ : ℤ → ℤ → Bool
eqb_ℤ a b = (pos_part a + neg_part b) == (pos_part b + neg_part a)

infix 50 ◌≤ℤ◌
abbrev pub ◌≤ℤ◌ : ℤ → ℤ → Type 0
a ≤ℤ b = pos_part a + neg_part b ≤ pos_part b + neg_part a

wrap64_fits : wrap64 (pos 300) ≡ pos 300
unfolding wrap64
wrap64_fits = refl

wrap64_overflows : wrap64 (pos int64_min_abs) ≡ negsuc (int64_min_abs - 1)
unfolding wrap64
wrap64_overflows = refl

pub eqb_ℤ→≡ : (a b : ℤ) → eqb_ℤ a b ≡ true → a ≡ b
eqb_ℤ→≡ (pos m) (pos n) h = let e : m ≡ n = ground arith in rw e refl
eqb_ℤ→≡ (pos m) (negsuc n) h = absurd (ground arith)
eqb_ℤ→≡ (negsuc m) (pos n) h = absurd (ground arith)
eqb_ℤ→≡ (negsuc m) (negsuc n) h = let e : m ≡ n = ground arith in rw e refl

pub eqb_ℤ_refl : (a : ℤ) → eqb_ℤ a a ≡ true
eqb_ℤ_refl (pos m) = ground arith
eqb_ℤ_refl (negsuc m) = ground arith
