-- ===== src/Device/Checks.antt =====
-- The parts of ValidateConfiguration, src/device.cc: what each has checked if it is OK.
use bitar.Base.{
  ℕ, ltb, ◌==◌, if◌then◌else◌, Bool, true, false, not, ◌&&◌, ◌||◌, Option, none, some, StatusCode,
  invalid, Action, Status, ok, err, ◌>>◌, ◌≡◌, refl, sym, ap, ◌∙◌, arith,
}
use bitar.Config.{Configuration, min_seg_size, max_seg_size}
use bitar.DeviceMemory.{min_preallocate_memzones}
use bitar.Rte.{BuildConfig, Compressdev, Capability}
use bitar.Device.{
  guard, validate_queue_pairs, validate_segs, validate_window, validate_rest, with_window,
  then_window, then_rest, with_capability, is_fixed, is_dynamic,
}

guard_case :
    (b : Bool) (e : StatusCode) (c : Configuration) {c' : Configuration}
    → guard (λ _. b) e c ≡ (ok tt, c')
    → (b ≡ false) × (c' ≡ c)
guard_case true e c h = absurd (grind arith)
guard_case false e c h = (refl, sym (ap (λ r. r.1) h))

guard_inv :
    (f : Configuration → Bool) (e : StatusCode) (c : Configuration) {c' : Configuration}
    → guard f e c ≡ (ok tt, c')
    → (f c ≡ false) × (c' ≡ c)
guard_inv f e c h = guard_case (f c) e c h

then_case :
    (b : Bool) (e : StatusCode) (m : Action Configuration (Unit {0})) (c : Configuration)
    {c' : Configuration}
    → (guard (λ _. b) e >> m) c ≡ (ok tt, c')
    → (b ≡ false) × (m c ≡ (ok tt, c'))
then_case true e m c h = absurd (grind arith)
then_case false e m c h = (refl, h)

guard_then :
    (f : Configuration → Bool) (e : StatusCode) (m : Action Configuration (Unit {0}))
    (c : Configuration) {c' : Configuration}
    → (guard f e >> m) c ≡ (ok tt, c')
    → (f c ≡ false) × (m c ≡ (ok tt, c'))
guard_then f e m c h = then_case (f c) e m c h

abbrev pub too_many : Compressdev → ℕ → Configuration → Bool
too_many dev n c = ltb 0 dev.max_nb_queue_pairs && ltb dev.max_nb_queue_pairs n

abbrev pub no_burst : Configuration → Bool
no_burst c = c.burst_size == 0

pub validate_queue_pairs_inv :
    (dev : Compressdev) (n : ℕ) (c c₁ : Configuration)
    → validate_queue_pairs dev n c ≡ (ok tt, c₁)
    → (too_many dev n c ≡ false) × (no_burst c ≡ false) × (c₁ ≡ c)
unfolding validate_queue_pairs
validate_queue_pairs_inv dev n c c₁ h =
    let (pairs, rest) = guard_then (too_many dev n) invalid (guard no_burst invalid) c h in
    let (burst, same) = guard_inv no_burst invalid c rest in (pairs, burst, same)

-- The number of segments that is used.
abbrev pub used_segs : Configuration → ℕ
used_segs c = if ltb c.max_sgl_segs 1 then 1 else c.max_sgl_segs

abbrev pub used_window : Capability → Configuration → ℕ
used_window cap c = if c.window_size == 0 then cap.window.max else c.window_size

one_seg_or_more :
    (t : Bool) (c : Configuration)
    → (if t then record c { max_sgl_segs = 1 } else c)
      ≡ record c { max_sgl_segs = if t then 1 else c.max_sgl_segs }
one_seg_or_more true c = refl
one_seg_or_more false c = refl

abbrev pub with_segs : Configuration → Configuration
with_segs c = record c { max_sgl_segs = used_segs c }

abbrev pub not_chained : Capability → Configuration → Bool
not_chained cap c = ltb 1 c.max_sgl_segs && not cap.oop_sgl_in_sgl_out

abbrev pub bad_size : BuildConfig → Configuration → Bool
bad_size b c =
    ltb c.decompressed_seg_size min_seg_size || ltb (max_seg_size b) c.decompressed_seg_size

pub validate_segs_inv :
    (b : BuildConfig) (cap : Capability) (c c₁ : Configuration)
    → validate_segs b cap c ≡ (ok tt, c₁)
    → (c₁ ≡ with_segs c) × (not_chained cap (with_segs c) ≡ false) × (bad_size b c ≡ false)
unfolding validate_segs
validate_segs_inv b cap c c₁ h =
    let same = one_seg_or_more (ltb c.max_sgl_segs 1) c in
    let rest : Action Configuration (Unit {0}) =
      guard (not_chained cap) invalid >> guard (bad_size b) invalid in
    let h' : rest (with_segs c) ≡ (ok tt, c₁) = ap rest (sym same) ∙ h in
    let (chained, h'') =
      guard_then (not_chained cap) invalid (guard (bad_size b) invalid) (with_segs c) h' in
    let (size, same') = guard_inv (bad_size b) invalid (with_segs c) h'' in (same', chained, size)

with_window_inv :
    (o : Option Status) (c : Configuration) {c' : Configuration}
    → with_window o c ≡ some (ok tt, c')
    → (o ≡ some (ok tt)) × (c' ≡ c)
with_window_inv none c h = absurd (grind arith)
with_window_inv (some (ok tt)) c h = (refl, grind arith)
with_window_inv (some (err e)) c h = absurd (grind arith)

pub window_case :
    (t : Bool) (cap : Capability) (o : Option Status) (c c' : Configuration)
    → (if t then some (ok tt, record c { window_size = cap.window.max }) else with_window o c)
      ≡ some (ok tt, c')
    → (c' ≡ record c { window_size = if t then cap.window.max else c.window_size })
      × (t ≡ false → o ≡ some (ok tt))
window_case true cap o c c' h = (grind arith, λ e. absurd (grind arith))
window_case false cap o c c' h = let (fine, same) = with_window_inv o c h in (same, λ e. fine)

pub then_window_inv :
    (cap : Capability) (r : Status × Configuration) {c' : Configuration}
    → then_window cap r ≡ some (ok tt, c')
    → (c : Configuration) × (r ≡ (ok tt, c)) × (validate_window cap c ≡ some (ok tt, c'))
then_window_inv cap (ok tt, c) h = (c, refl, h)
then_window_inv cap (err e, c) h = absurd (grind arith)

pub then_rest_inv :
    (b : BuildConfig) (cap : Capability) (o : Option (Status × Configuration)) {c' : Configuration}
    → then_rest b cap o ≡ some (ok tt, c')
    → (c : Configuration) × (o ≡ some (ok tt, c)) × (validate_rest b cap c ≡ (ok tt, c'))
then_rest_inv b cap none h = absurd (grind arith)
then_rest_inv b cap (some (ok tt, c)) h = (c, refl, grind arith)
then_rest_inv b cap (some (err e, c)) h = absurd (grind arith)

pub with_capability_inv :
    (b : BuildConfig) (o : Option Capability) (r : Status × Configuration) {c' : Configuration}
    → with_capability b o r ≡ some (ok tt, c')
    → (cap : Capability) × (c : Configuration) × (o ≡ some cap)
      × (r ≡ (ok tt, c))
      × (then_rest b cap (then_window cap (validate_segs b cap c)) ≡ some (ok tt, c'))
with_capability_inv b none (ok tt, c) h = absurd (grind arith)
with_capability_inv b (some cap) (ok tt, c) h = (cap, c, refl, refl, h)
with_capability_inv b o (err e, c) h = absurd (grind arith)

abbrev pub no_fixed : Capability → Configuration → Bool
no_fixed cap c = is_fixed c.huffman_enc && not cap.huffman_fixed

abbrev pub no_dynamic : Capability → Configuration → Bool
no_dynamic cap c = is_dynamic c.huffman_enc && not cap.huffman_dynamic

abbrev pub bad_memzones : BuildConfig → Configuration → Bool
bad_memzones b c =
    ltb c.max_preallocate_memzones min_preallocate_memzones
    || ltb b.max_memzone c.max_preallocate_memzones

pub validate_rest_inv :
    (b : BuildConfig) (cap : Capability) (c c' : Configuration)
    → validate_rest b cap c ≡ (ok tt, c')
    → (c' ≡ c) × (no_fixed cap c ≡ false) × (no_dynamic cap c ≡ false) × (bad_memzones b c ≡ false)
unfolding validate_rest
validate_rest_inv b cap c c' h =
    let last : Action Configuration (Unit {0}) = guard (bad_memzones b) invalid in
    let (fixed, h₁) =
      guard_then (no_fixed cap) invalid (guard (no_dynamic cap) invalid >> last) c h in
    let (dynamic, h₂) = guard_then (no_dynamic cap) invalid last c h₁ in
    let (zones, same) = guard_inv (bad_memzones b) invalid c h₂ in (same, fixed, dynamic, zones)
