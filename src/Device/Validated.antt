-- ===== src/Device/Validated.antt =====
-- ValidateConfiguration of src/device.cc: what a configuration that passes has, and how it was changed.
use mathlib.Core.Path.{subst}
use bitar.Base.{
  ℕ, ◌^◌, ◌≤◌, ◌<◌, ltb, ◌==◌, Bool, true, false, not, ◌&&◌, some, ok, lt→ltb, ◌≡◌, refl, sym, ap,
  ◌∙◌, arith,
}
use bitar.Config.{Configuration, max_mbuf_data_size, max_seg_size}
use bitar.QueuePair.Assemble.Burst.{IsSized}
use bitar.Rte.{BuildConfig, Compressdev, Capability}
use bitar.Device.{
  validate_queue_pairs, validate_segs, validate_window, validate_window_size, then_window,
  validate_configuration, is_fixed, is_dynamic,
}
use bitar.Device.Checks.{
  too_many, no_burst, validate_queue_pairs_inv, used_segs, used_window, with_segs, not_chained,
  bad_size, validate_segs_inv, window_case, then_window_inv, then_rest_inv, with_capability_inv,
  no_fixed, no_dynamic, bad_memzones, validate_rest_inv,
}

needs : (a b : Bool) → (a && not b) ≡ false → a ≡ true → b ≡ true
needs true true h e = refl
needs true false h e = sym h
needs false b h e = absurd (grind arith)

-- A configuration `c` that passes, and what is used in its place, `c'`.
pub record Validated (b : BuildConfig) (dev : Compressdev) (n : ℕ) (c c' : Configuration)
    : Type 0 where
  pub cap : Capability
  pub supports_deflate : dev.capability ≡ some cap
  pub used : c' ≡ record c { max_sgl_segs = used_segs c; window_size = used_window cap c }
  pub queue_pairs : 0 < dev.max_nb_queue_pairs → n ≤ dev.max_nb_queue_pairs
  pub burst : 0 < c'.burst_size
  pub segs : 0 < c'.max_sgl_segs
  pub chained : 1 < c'.max_sgl_segs → cap.oop_sgl_in_sgl_out ≡ true
  pub seg_size : 8 ≤ c'.decompressed_seg_size
  pub seg_size_fits : c'.decompressed_seg_size ≤ max_seg_size b
  pub window :
      (c.window_size == 0) ≡ false → validate_window_size c.window_size cap.window ≡ some (ok tt)
  pub fixed_supported : is_fixed c'.huffman_enc ≡ true → cap.huffman_fixed ≡ true
  pub dynamic_supported : is_dynamic c'.huffman_enc ≡ true → cap.huffman_dynamic ≡ true
  pub memzones : 20 ≤ c'.max_preallocate_memzones
  pub memzones_fit : c'.max_preallocate_memzones ≤ b.max_memzone

abbrev windowed : Capability → Configuration → Configuration
windowed cap c = record c { window_size = used_window cap c }

abbrev in_use : Capability → Configuration → Configuration
in_use cap c = windowed cap (with_segs c)

collect_checks :
    (b : BuildConfig) (dev : Compressdev) (n : ℕ) (cap : Capability) (c : Configuration)
    → dev.capability ≡ some cap
    → too_many dev n c ≡ false
    → no_burst c ≡ false
    → not_chained cap (with_segs c) ≡ false
    → bad_size b c ≡ false
    → ((c.window_size == 0) ≡ false → validate_window_size c.window_size cap.window ≡ some (ok tt))
    → no_fixed cap c ≡ false
    → no_dynamic cap c ≡ false
    → bad_memzones b c ≡ false
    → Validated b dev n c (in_use cap c)
collect_checks b dev n cap c supports pairs burst chained size window fixed dynamic zones = record {
  cap = cap;
  supports_deflate = supports;
  used = refl;
  queue_pairs = λ p. ground arith;
  burst = ground arith;
  segs = ground arith;
  chained =
      λ p. needs (ltb 1 (used_segs c)) cap.oop_sgl_in_sgl_out chained (lt→ltb 1 (used_segs c) p);
  seg_size = ground arith;
  seg_size_fits = ground arith;
  window = window;
  fixed_supported = needs (is_fixed c.huffman_enc) cap.huffman_fixed fixed;
  dynamic_supported = needs (is_dynamic c.huffman_enc) cap.huffman_dynamic dynamic;
  memzones = ground arith;
  memzones_fit = ground arith;
}

-- ValidateConfiguration() that is OK has checked all of it: the device supports DEFLATE, and the
-- configuration that is used has every value in its range and asks for nothing that the device lacks.
-- It differs from the given one at most in a number of segments of 0, which becomes 1, and a window
-- size of 0, which becomes the greatest one.
pub validate_configuration-Validated :
    (b : BuildConfig) (dev : Compressdev) (n : ℕ) (c c' : Configuration)
    → validate_configuration b dev n c ≡ some (ok tt, c')
    → Validated b dev n c c'
unfolding validate_configuration validate_window
validate_configuration-Validated b dev n c c' h =
    let (cap, c₀, supports, first, h₁) =
      with_capability_inv b dev.capability (validate_queue_pairs dev n c) h in
    let (pairs, burst, same₀) = validate_queue_pairs_inv dev n c c₀ first in
    let (c₂, h₂, last) = then_rest_inv b cap (then_window cap (validate_segs b cap c₀)) h₁ in
    let (c₁, segs, window) = then_window_inv cap (validate_segs b cap c₀) h₂ in
    let (same₁, chained, size) = validate_segs_inv b cap c₀ c₁ segs in
    let (same₂, checked) =
      window_case (c₁.window_size == 0) cap (validate_window_size c₁.window_size cap.window) c₁ c₂
        window in
    let (same₃, fixed, dynamic, zones) = validate_rest_inv b cap c₂ c' last in
    let path₁ : c₁ ≡ with_segs c = same₁ ∙ ap with_segs same₀ in
    let path₂ : c₂ ≡ in_use cap c = same₂ ∙ ap (windowed cap) path₁ in
    subst (Validated b dev n c) (sym (same₃ ∙ path₂)) (
      collect_checks b dev n cap c supports pairs burst
        (ap (λ x. not_chained cap (with_segs x)) (sym same₀) ∙ chained)
        (ap (bad_size b) (sym same₀) ∙ size)
        (subst
          (λ x.
            (x.window_size == 0) ≡ false
            → validate_window_size x.window_size cap.window ≡ some (ok tt))
          path₁ checked)
        (ap (no_fixed cap) (sym path₂) ∙ fixed) (ap (no_dynamic cap) (sym path₂) ∙ dynamic)
        (ap (bad_memzones b) (sym path₂) ∙ zones))

-- A configuration that passes, with its two counts in 16 bits, has the ranges that the assembly of
-- bursts relies on.
pub Validated-IsSized :
    (b : BuildConfig) (dev : Compressdev) (n : ℕ) (c c' : Configuration)
    → c'.burst_size < 2 ^ 16
    → c'.max_sgl_segs < 2 ^ 16
    → validate_configuration b dev n c ≡ some (ok tt, c')
    → IsSized c'
unfolding max_seg_size max_mbuf_data_size
Validated-IsSized b dev n c c' burst segs h =
    let v : Validated b dev n c c' = validate_configuration-Validated b dev n c c' h in
    record {
      burst = burst;
      segs = v.segs;
      segs_fit = segs;
      seg_size = omega (arith, v.seg_size);
      seg_size_fits = omega (arith, v.seg_size_fits);
    }
