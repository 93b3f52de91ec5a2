-- ===== src/App/Memzones.antt =====
-- The memzones that apps/app_common.cc preallocates are enough for the segments of apps/demo_app.cc.
use mathlib.Core.Path.{subst}
use bitar.Base.{
  ℕ, zero, suc, ◌+◌, ◌-◌, ◌*◌, ◌/◌, ◌%◌, ◌^◌, ◌≤◌, ◌<◌, min, List, [], ◌∷◌, length, ◌≡◌, refl, sym,
  ap, ◌∙◌, arith,
}
use bitar.QueuePair.Assemble.{round_up_div}
use bitar.QueuePair.Assemble.Burst.{round_up_div_bounds}
use bitar.App.{max_preallocate_memzones_total, max_preallocate_memzones, segments_loop, segments}

abbrev pub sum : List ℕ → ℕ
sum [] = 0
sum (x ∷ xs) = x + sum xs

-- The memzones that a compression of each segment by itself takes: one for each `seg_size` bytes.
abbrev pub needed : ℕ → List ℕ → ℕ
needed seg_size [] = 0
needed seg_size (x ∷ xs) = round_up_div x seg_size + needed seg_size xs

-- Each segment has `q` bytes or one more.
pub data IsSplitEvenly (q : ℕ) : List ℕ → Type 0 where
  none_left : IsSplitEvenly q []
  one_more :
      {x : ℕ} {xs : List ℕ} → q ≤ x → x ≤ q + 1 → IsSplitEvenly q xs → IsSplitEvenly q (x ∷ xs)

sum-segments_loop : (n idx q r : ℕ) → sum (segments_loop n idx q r) ≡ n * q + min n (r - idx)
unfolding segments_loop
sum-segments_loop zero idx q r = omega arith
sum-segments_loop (suc n) idx q r = grind (arith, sum-segments_loop n (idx + 1) q r)

segments_loop-IsSplitEvenly : (n idx q r : ℕ) → IsSplitEvenly q (segments_loop n idx q r)
unfolding segments_loop
segments_loop-IsSplitEvenly zero idx q r = none_left
segments_loop-IsSplitEvenly (suc n) idx q r =
    one_more (grind arith) (grind arith) (segments_loop-IsSplitEvenly n (idx + 1) q r)

length-segments_loop : (n idx q r : ℕ) → length (segments_loop n idx q r) ≡ n
unfolding segments_loop
length-segments_loop zero idx q r = refl
length-segments_loop (suc n) idx q r = ap suc (length-segments_loop n (idx + 1) q r)

needed_bound :
    (seg_size : ℕ) (xs : List ℕ)
    → 0 < seg_size
    → needed seg_size xs * seg_size + length xs ≤ sum xs + length xs * seg_size
needed_bound seg_size [] p = omega arith
needed_bound seg_size (x ∷ xs) p =
    let bounds = round_up_div_bounds x seg_size p in
    grind (arith, bounds.1, needed_bound seg_size xs p)

cancel : (a c s : ℕ) → 0 < s → a * s ≤ c * s → a ≤ c
cancel a c s p h = grind arith

covers : (a b seg n size : ℕ) → 0 < seg → a * seg + n ≤ size + n * seg → size ≤ b * seg → a ≤ b + n
covers a b seg n size p h k = cancel a (b + n) seg p (omega arith)

enough :
    (size seg_size n : ℕ) (xs : List ℕ)
    → 0 < seg_size
    → sum xs ≡ size
    → length xs ≡ n
    → needed seg_size xs ≤ round_up_div size seg_size + n
enough size seg_size n xs p all len =
    covers (needed seg_size xs) (round_up_div size seg_size) seg_size n size p
      (subst (λ k. needed seg_size xs * seg_size + k ≤ size + k * seg_size) len
        (subst (λ k. needed seg_size xs * seg_size + length xs ≤ k + length xs * seg_size) all
          (needed_bound seg_size xs p)))
      (round_up_div_bounds size seg_size p).0

share :
    (total num_devices : ℕ)
    → 0 < num_devices
    → round_up_div total num_devices < 2 ^ 16
    → total ≤ round_up_div total num_devices % 2 ^ 16 * num_devices
share total num_devices d h =
    let whole : round_up_div total num_devices % 2 ^ 16 ≡ round_up_div total num_devices =
      omega arith in
    subst (λ x. total ≤ x * num_devices) (sym whole) (round_up_div_bounds total num_devices d).0

all_bytes : (size n : ℕ) → 0 < n → n * (size / n) + min n (size % n - 0) ≡ size
all_bytes size n p = grind arith

-- The demo splits its input into as many segments as it runs tests, of all bytes and as evenly as
-- possible, for a segment size, a number of tests and one of devices above 0. What it asks for in all is
-- enough to compress each segment by itself; and where the share of a device is below 2 ^ 16, so that its
-- cast loses nothing, the shares of all devices together are as much. That the share of each device is
-- enough for the segments that it gets is not said.
pub segments_lem :
    (size seg_size n num_devices : ℕ)
    → 0 < seg_size
    → 0 < n
    → 0 < num_devices
    → let total = max_preallocate_memzones_total size seg_size n in
      (sum (segments size n) ≡ size)
      × (length (segments size n) ≡ n)
      × IsSplitEvenly (size / n) (segments size n)
      × (needed seg_size (segments size n) ≤ total)
      × (round_up_div total num_devices < 2 ^ 16
          → total ≤ max_preallocate_memzones total num_devices * num_devices)
unfolding segments max_preallocate_memzones_total max_preallocate_memzones
segments_lem size seg_size n num_devices p q d =
    let xs : List ℕ = segments size n in
    let all : sum xs ≡ size = sum-segments_loop n 0 (size / n) (size % n) ∙ all_bytes size n q in
    let len : length xs ≡ n = length-segments_loop n 0 (size / n) (size % n) in
    (
      all,
      len,
      segments_loop-IsSplitEvenly n 0 (size / n) (size % n),
      enough size seg_size n xs p all len,
      λ h. share (max_preallocate_memzones_total size seg_size n) num_devices d h,
    )
