-- ===== src/Prelude/Bits.antt =====
-- A mask of k ones keeps a number that is below 2 ^ k.
use Prim.Native.Nat.{
  ℕ, zero, suc, ◌+◌, ◌*◌, ◌/◌, ◌^◌, ◌≤◌, ◌<◌, min, bit_and, digits, bit_and-bitwise,
}
use mathlib.Core.Path.{◌≡◌, refl, ap, ◌∙◌}
use native.Mathlib.Nat.{pow-suc}
use native.Mathlib.Omega.{arith}

unfoldable pub ones : ℕ → ℕ
ones zero = 0
ones (suc k) = ones k * 2 + 1

half-ones : (o : ℕ) → (o * 2 + 1) / 2 ≡ o
half-ones o = omega arith

half_fits : (x p : ℕ) → x < p * 2 → x / 2 < p
half_fits x p h = omega arith

-- The definition of bit_and by digits, on any fuel that is enough.
masked : (fuel k x : ℕ) → x ≤ fuel → x < 2 ^ k → digits (λ d. zero) min fuel x (ones k) ≡ x
unfolding ones
masked zero k zero h fits = refl
masked zero k (suc x) h fits = absurd (omega arith)
masked (suc fuel) k zero h fits = refl
masked (suc fuel) zero (suc x) h fits = absurd (omega (arith, fits))
masked (suc fuel) (suc k) (suc x) h fits =
    let wide : suc x < 2 ^ k * 2 = rw pow-suc at fits in
    omega (
      arith,
      ap (digits (λ d. zero) min fuel (suc x / 2)) (half-ones (ones k)),
      masked fuel k (suc x / 2) (omega arith) (half_fits (suc x) (2 ^ k) wide),
    )

pub bit_and-ones : (k a : ℕ) → a < 2 ^ k → bit_and a (ones k) ≡ a
bit_and-ones k a h = bit_and-bitwise a (ones k) ∙ masked a k a (omega arith) h
