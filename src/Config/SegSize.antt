-- ===== src/Config/SegSize.antt =====
-- The size of a compressed segment, as UpdateCompressedSegSize() of src/config.cc computes it.
use Prim.Native.Nat.{bit_and}
use native.Mathlib.Nat.{pow-suc, one-le-pow, pow-le-pow_right}
use native.Mathlib.Decide.{dec_lt}
use bitar.Base.{
  ℕ, zero, suc, ◌*◌, ◌/◌, ◌^◌, ◌≤◌, ◌<◌, ltb, ◌==◌, none, some, ◌≡◌, ◌∙◌, ap, refl, arith,
  Bool-cases, inl, inr,
}
use bitar.Base.Bits.{bit_and_two-pow_clear, bit_and_two-pow_set, bit_and-zero, half-two-pow}
use bitar.Rte.{BuildConfig}
use bitar.Config.{
  Configuration, max_mbuf_data_size, max_seg_size, highest_bit, seg_size_of,
  set_decompressed_seg_size, seg_size_fuel,
}

highest_bit_pass :
    (f num b : ℕ) → bit_and num b ≡ 0 → highest_bit (suc f) num b ≡ highest_bit f (num / 2) b
unfolding highest_bit
highest_bit_pass f num b h = rw h

highest_bit_stop :
    (f num b : ℕ) → 0 < num → bit_and num b ≡ num → highest_bit (suc f) num b ≡ some num
unfolding highest_bit
highest_bit_stop f num b p h = elim (Bool-cases (bit_and num b == 0)) [
  | inl e ↦ absurd (ground arith)
  | inr e ↦ rw e
]

-- From bit `k` down, the loop stops at the highest bit that is set.
highest_bit_lem :
    (k b : ℕ)
    → 0 < b
    → b < 2 * 2 ^ k
    → (j : ℕ) × (highest_bit (suc k) (2 ^ k) b ≡ some (2 ^ j))
      × (j ≤ k)
      × (2 ^ j ≤ b)
      × (b < 2 * 2 ^ j)
highest_bit_lem zero b p h = (
  0,
  highest_bit_stop 0 1 b (omega arith) (bit_and_two-pow_set 0 b p h),
  omega arith,
  omega arith,
  omega arith,
)
highest_bit_lem (suc k) b p h = elim (Bool-cases (ltb b (2 ^ suc k))) [
  | inl below ↦
      let less : b < 2 ^ suc k = ground arith in
      let (j, e, le, lo, hi) = highest_bit_lem k b p (omega (arith, pow-suc 2 k)) in
      let step : highest_bit (suc (suc k)) (2 ^ suc k) b ≡ highest_bit (suc k) (2 ^ suc k / 2) b =
        highest_bit_pass (suc k) (2 ^ suc k) b (bit_and_two-pow_clear (suc k) b less) in
      (j, rw (step, half-two-pow k) e, omega arith, lo, hi)
  | inr above ↦
      let least : 2 ^ suc k ≤ b = ground arith in
      (
        suc k,
        highest_bit_stop (suc k) (2 ^ suc k) b (one-le-pow (suc k) 2 (omega arith))
            (bit_and_two-pow_set (suc k) b least h),
        omega arith,
        least,
        h,
      )
]

highest_bit-zero : (f num : ℕ) → highest_bit f num 0 ≡ none
highest_bit-zero zero num = unfold highest_bit in refl
highest_bit-zero (suc f) num =
    highest_bit_pass f num 0 (bit_and-zero num) ∙ highest_bit-zero f (num / 2)

-- The new configuration, once the loop has stopped at `num`.
set_with :
    (f d num s : ℕ) (c : Configuration)
    → highest_bit f (2 ^ 16) (d * 2) ≡ some num
    → seg_size_of d num ≡ s
    → set_decompressed_seg_size f d c
      ≡ some (record c { decompressed_seg_size = d; compressed_seg_size = s })
unfolding set_decompressed_seg_size
set_with f d num s c e e' =
    rw e (ap (λ t. some (record c { decompressed_seg_size = d; compressed_seg_size = t })) e')

-- For a size from 1 up to kMaxSegSize the setter ends within 17 rounds. It changes the two segment
-- sizes only; the compressed size exceeds the decompressed size and fits into an mbuf. The headroom
-- of an mbuf is taken to be below half of the 16-bit range.
pub set_decompressed_seg_size_fits :
    (b : BuildConfig) (d : ℕ) (c : Configuration)
    → b.pktmbuf_headroom < 2 ^ 15
    → 0 < d
    → d ≤ max_seg_size b
    → (s : ℕ) × (set_decompressed_seg_size seg_size_fuel d c
        ≡ some (record c { decompressed_seg_size = d; compressed_seg_size = s }))
      × (d < s)
      × (s ≤ max_mbuf_data_size b)
unfolding max_seg_size seg_size_of
set_decompressed_seg_size_fits b d c hr p h =
    let (j, e, le, lo, hi) = highest_bit_lem 16 (d * 2) (omega arith) (omega arith) in
    (seg_size_of d (2 ^ j), set_with 17 d (2 ^ j) _ c e refl, ground arith, ground arith)

two-pow-below : (j : ℕ) → 2 ^ j < 2 ^ 16 → 2 ^ j ≤ 2 ^ 15
two-pow-below j lt = elim (dec_lt 15 j) [
  | yes h ↦ absurd (omega (arith, pow-le-pow_right {n = 2} (omega arith) {i = 16} {j = j} h))
  | no h ↦ pow-le-pow_right {n = 2} (omega arith) {i = j} {j = 15} (omega arith)
]

seg_size_of_power : (d j : ℕ) → 2 ^ j < 2 ^ 16 → seg_size_of d (2 ^ j) ≡ 2 ^ j
unfolding seg_size_of
seg_size_of_power d j lt = ground (arith, two-pow-below j lt)

-- Below 2 ^ 15 the compressed size is a power of two that lies above the decompressed size and does
-- not exceed its double, so it is the nearest such power.
pub set_decompressed_seg_size_power :
    (d : ℕ) (c : Configuration)
    → 0 < d
    → d < 2 ^ 15
    → (k : ℕ) × (set_decompressed_seg_size seg_size_fuel d c
        ≡ some (record c { decompressed_seg_size = d; compressed_seg_size = 2 ^ k }))
      × (d < 2 ^ k)
      × (2 ^ k ≤ 2 * d)
set_decompressed_seg_size_power d c p h =
    let (j, e, le, lo, hi) = highest_bit_lem 16 (d * 2) (omega arith) (omega arith) in
    (j, set_with 17 d (2 ^ j) _ c e (seg_size_of_power d j (omega arith)), omega arith, omega arith)

-- A size of 0 keeps the loop of UpdateCompressedSegSize() going: no fuel is enough.
pub set_decompressed_seg_size_diverges :
    (fuel : ℕ) (c : Configuration) → set_decompressed_seg_size fuel 0 c ≡ none
unfolding set_decompressed_seg_size
set_decompressed_seg_size_diverges fuel c = rw (highest_bit-zero fuel (2 ^ 16))
