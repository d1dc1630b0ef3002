-- ===== src/Base/Bits.antt =====
-- `bit_or` at variables: it sets the low bits of a number that has none there.
use native.Mathlib.Nat.{pow-suc}
use native.Mathlib.Omega.{arith}
use mathlib.Core.Path.{refl, ap, ap₂, sym, ◌∙◌, ◌≡◌}
use Prim.Native.Nat.{
  bit_or, bit_or-bitwise, digits, max, ◌<◌, ◌≤◌, ◌^◌, ◌%◌, ◌/◌, ◌*◌, ◌-◌, ◌+◌, ℕ, zero, suc,
}

abbrev or_digits : ℕ → ℕ → ℕ → ℕ
or_digits n a b = digits (λ y. y) max n a b

or_digits-zero : (n b : ℕ) → or_digits n 0 b ≡ b
or_digits-zero zero b = refl
or_digits-zero (suc n) b = refl

-- Fuel beyond the number itself changes nothing.
spare_fuel : (d n b a : ℕ) → a ≤ n → or_digits (d + n) a b ≡ or_digits n a b
spare_fuel d n b zero h = or_digits-zero (d + n) b ∙ sym (or_digits-zero n b)
spare_fuel d zero b (suc a) h = absurd (omega arith)
spare_fuel d (suc n) b (suc a) h =
    let shifted : d + suc n ≡ suc (d + n) = omega arith in
    omega (
      arith,
      ap (λ k. or_digits k (suc a) b) shifted,
      spare_fuel d n (b / 2) (suc a / 2) (omega arith),
    )

zero-bit_or : (b : ℕ) → bit_or 0 b ≡ b
zero-bit_or b = bit_or-bitwise 0 b

-- The digits above the lowest one, and the lowest one.
bit_or_halves : (b a : ℕ) → 2 * bit_or (a / 2) (b / 2) + max (a % 2) (b % 2) ≡ bit_or a b
bit_or_halves b zero = omega (arith, zero-bit_or b, zero-bit_or (b / 2))
bit_or_halves b (suc a) =
    let half = suc a / 2 in
    let split : a - half + half ≡ a = omega arith in
    omega (
      arith,
      bit_or-bitwise (suc a) b,
      bit_or-bitwise half (b / 2),
      ap (λ n. or_digits n half (b / 2)) split,
      spare_fuel (a - half) half (b / 2) half (omega arith),
    )

bit_or-zero_below : (n a : ℕ) → a ≤ n → bit_or a 0 ≡ a
bit_or-zero_below n zero h = refl
bit_or-zero_below zero (suc a) h = absurd (omega arith)
bit_or-zero_below (suc n) (suc a) h =
    omega (arith, bit_or_halves 0 (suc a), bit_or-zero_below n (suc a / 2) (omega arith))

pub bit_or_low : (k q b : ℕ) → b < 2 ^ k → bit_or (q * 2 ^ k) b ≡ q * 2 ^ k + b
bit_or_low zero q b h =
    ap₂ bit_or (omega arith) (omega arith) ∙ bit_or-zero_below q q (omega arith) ∙ omega arith
bit_or_low (suc k) q b h =
    let double : q * 2 ^ suc k ≡ q * 2 ^ k * 2 = ap (λ t. q * t) (pow-suc 2 k) ∙ omega arith in
    omega (
      arith,
      double,
      bit_or_halves b (q * 2 ^ suc k),
      ap (λ t. bit_or t (b / 2)) half,
      bit_or_low k q (b / 2) (omega (arith, pow-suc 2 k)),
    )
  where
    half : q * 2 ^ suc k / 2 ≡ q * 2 ^ k
    half = omega (arith, ap (λ t. q * t) (pow-suc 2 k))
