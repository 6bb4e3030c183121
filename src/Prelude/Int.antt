-- ===== src/Prelude/Int.antt =====
-- Signed integers over the native numbers: the differences of heights.
use Prim.Native.Nat.{ℕ, suc, ◌+◌, ◌-◌}
use mathlib.Core.Path.{◌≡◌}
use mathlib.Core.Bool.{Bool}
use native.Mathlib.Omega.{arith}
use autobahn_app.Prelude.Tests.{leb, ltb, if◌then◌else◌}

-- `negsuc n` is -(n + 1).
pub data ℤ : Type 0 where
  pos : ℕ → ℤ
  negsuc : ℕ → ℤ

abbrev pub pos_part : ℤ → ℕ
pos_part (pos n) = n
pos_part (negsuc n) = 0

abbrev pub neg_part : ℤ → ℕ
neg_part (pos n) = 0
neg_part (negsuc n) = suc n

-- a - b, as an integer.
unfoldable pub sub_ℕ : ℕ → ℕ → ℤ
sub_ℕ a b = if leb b a then pos (a - b) else negsuc (b - a - 1)

unfoldable pub ltb_ℤ : ℤ → ℤ → Bool
ltb_ℤ a b = ltb (pos_part a + neg_part b) (pos_part b + neg_part a)

unfoldable pub leb_ℤ : ℤ → ℤ → Bool
leb_ℤ a b = leb (pos_part a + neg_part b) (pos_part b + neg_part a)

-- The tests of a difference against 1, 0 and -1, as tests of its two terms.
module _ (a b : ℕ) where
  pub sub-gt_one : ltb_ℤ (pos 1) (sub_ℕ a b) ≡ ltb (b + 1) a
  unfolding sub_ℕ ltb_ℤ
  sub-gt_one = ground arith

  pub sub-lt_minus_one : ltb_ℤ (sub_ℕ a b) (negsuc 0) ≡ ltb (a + 1) b
  unfolding sub_ℕ ltb_ℤ
  sub-lt_minus_one = ground arith

  pub sub-gt_zero : ltb_ℤ (pos 0) (sub_ℕ a b) ≡ ltb b a
  unfolding sub_ℕ ltb_ℤ
  sub-gt_zero = ground arith

  pub sub-lt_zero : ltb_ℤ (sub_ℕ a b) (pos 0) ≡ ltb a b
  unfolding sub_ℕ ltb_ℤ
  sub-lt_zero = ground arith

  pub sub-ge_zero : leb_ℤ (pos 0) (sub_ℕ a b) ≡ leb b a
  unfolding sub_ℕ leb_ℤ
  sub-ge_zero = ground arith

  pub sub-le_zero : leb_ℤ (sub_ℕ a b) (pos 0) ≡ leb a b
  unfolding sub_ℕ leb_ℤ
  sub-le_zero = ground arith

pub ruleset balance_tests =
    (sub-gt_one, sub-lt_minus_one, sub-gt_zero, sub-lt_zero, sub-ge_zero, sub-le_zero)
