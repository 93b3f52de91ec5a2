-- ===== src/Base/Bits.antt =====
-- The test of a single bit, `num & x` with `num` a power of two, as arithmetic.
use Prim.Native.Nat.{ℕ, zero, suc, ◌*◌, ◌/◌, ◌^◌, ◌≤◌, ◌<◌, min, bit_and, digits, bit_and-bitwise}
use mathlib.Core.Path.{◌≡◌, refl, ◌∙◌}
use native.Mathlib.Omega.{arith}
use native.Mathlib.Nat.{pow-suc}

pub half-two-pow : (k : ℕ) → 2 ^ suc k / 2 ≡ 2 ^ k
half-two-pow k = omega (arith, pow-suc 2 k)

-- The recursion over the binary digits behind `bit_and`, on any sufficient fuel.
abbrev common : ℕ → ℕ → ℕ → ℕ
common fuel num x = digits (λ rest. zero) min fuel num x

common-nothing : (fuel x : ℕ) → common fuel 0 x ≡ 0
common-nothing zero x = refl
common-nothing (suc fuel) x = refl

-- A power of two has no bit in common with a smaller number.
common_below : (k fuel num x : ℕ) → num ≡ 2 ^ k → num ≤ fuel → x < num → common fuel num x ≡ 0
common_below k fuel zero x e enough less = common-nothing fuel x
common_below k zero (suc num) x e enough less = absurd (omega arith)
common_below zero (suc fuel) (suc num) x e enough less =
    let one : suc num / 2 ≡ 0 = omega arith in rw one (omega (arith, common-nothing fuel (x / 2)))
common_below (suc k) (suc fuel) (suc num) x e enough less = omega (
  arith,
  pow-suc 2 k,
  common_below k fuel (suc num / 2) (x / 2) (omega (arith, pow-suc 2 k)) (omega arith)
      (omega (arith, pow-suc 2 k)),
)

-- From the power up to its double, the power itself is what they share.
common_from :
    (k fuel num x : ℕ) → num ≡ 2 ^ k → num ≤ fuel → num ≤ x → x < 2 * num → common fuel num x ≡ num
common_from k fuel zero x e enough le less = common-nothing fuel x
common_from k zero (suc num) x e enough le less = absurd (omega arith)
common_from zero (suc fuel) (suc num) x e enough le less =
    let one : suc num / 2 ≡ 0 = omega arith in rw one (omega (arith, common-nothing fuel (x / 2)))
common_from (suc k) (suc fuel) (suc num) x e enough le less = omega (
  arith,
  pow-suc 2 k,
  common_from k fuel (suc num / 2) (x / 2) (omega (arith, pow-suc 2 k)) (omega arith)
      (omega (arith, pow-suc 2 k)) (omega (arith, pow-suc 2 k)),
)

pub bit_and_two-pow_clear : (k x : ℕ) → x < 2 ^ k → bit_and (2 ^ k) x ≡ 0
bit_and_two-pow_clear k x less =
    (λ i. bit_and-bitwise (2 ^ k) x i) ∙ common_below k (2 ^ k) (2 ^ k) x refl (omega arith) less

pub bit_and_two-pow_set : (k x : ℕ) → 2 ^ k ≤ x → x < 2 * 2 ^ k → bit_and (2 ^ k) x ≡ 2 ^ k
bit_and_two-pow_set k x le less =
    (λ i. bit_and-bitwise (2 ^ k) x i) ∙ common_from k (2 ^ k) (2 ^ k) x refl (omega arith) le less

common-zero : (fuel num : ℕ) → common fuel num 0 ≡ 0
common-zero zero num = refl
common-zero (suc fuel) zero = refl
common-zero (suc fuel) (suc num) = omega (arith, common-zero fuel (suc num / 2))

-- Zero has no bit at all.
pub bit_and-zero : (num : ℕ) → bit_and num 0 ≡ 0
bit_and-zero num = (λ i. bit_and-bitwise num 0 i) ∙ common-zero num num
