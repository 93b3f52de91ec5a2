-- ===== src/Device.antt =====
-- CompressDevice and BlueFieldCompressDevice of src/include/device.h and src/device.cc: the state of a
-- device and the checks of its configuration. Its bursts are in Device/Bursts.antt.
pub mod Window
pub mod Checks
pub mod Validated
pub mod Transforms
pub mod Setup
pub mod Bursts
pub mod Compression
mod Tests
use bitar.Base.{
  ℕ, zero, suc, ◌+◌, ◌-◌, ◌*◌, ◌%◌, ◌^◌, ltb, leb, ◌==◌, if◌then◌else◌, Bool, true, false, not,
  ◌&&◌, ◌||◌, Option, none, some, StatusCode, invalid, not_implemented, Action, Status, Result, ok,
  err, ◌>>=◌, ◌>>◌, List, [], ◌∷◌, length,
}
use bitar.Config.{Configuration, Huffman, default, fixed, dynamic, min_seg_size, max_seg_size}
use bitar.DeviceMemory.{min_preallocate_memzones}
use bitar.Rte.{BuildConfig, Compressdev, Capability, Range}

-- internal::DeviceState, by its underlying values.
pub data DeviceState : Type 0 where
  undefined configured started : DeviceState

abbrev pub state_value : DeviceState → ℕ
state_value undefined = 1
state_value configured = 2
state_value started = 4

-- num_qps().
unfoldable pub num_qps : List ℕ → ℕ
num_qps worker_lcores = length worker_lcores % 2 ^ 16

-- The loop of ValidateWindowSize over a std::uint8_t; `none` when the fuel runs out.
unfoldable pub window_loop : ℕ → ℕ → Range → ℕ → Option Bool
window_loop zero window_size range next_size = none
window_loop (suc fuel) window_size range next_size =
    let rest = window_loop fuel window_size range ((next_size + range.increment) % 2 ^ 8) in
    if leb next_size range.max
    then if window_size == next_size then some true else rest
    else some false

abbrev pub supported : Bool → Status
supported true = ok tt
supported false = err invalid

-- The fuel has a round for each value of next_size.
abbrev pub window_fuel : ℕ
window_fuel = 2 ^ 8 + 1

unfoldable pub validate_window_size : ℕ → Range → Option Status
validate_window_size window_size range =
    if ltb window_size range.min || ltb range.max window_size
    then some (err invalid)
    else if range.increment == 0
    then some (ok tt)
    else elim (window_loop window_fuel window_size range range.min) [
      | none ↦ none
      | some b ↦ some (supported b)
    ]

-- A test that returns a status early.
abbrev pub guard : (Configuration → Bool) → StatusCode → Action Configuration (Unit {0})
guard f e c = if f c then (err e, c) else (ok tt, c)

abbrev pub is_fixed : Huffman → Bool
is_fixed fixed = true
is_fixed _ = false

abbrev pub is_dynamic : Huffman → Bool
is_dynamic dynamic = true
is_dynamic _ = false

-- ValidateConfiguration() in its parts. The checks in front of the window:
unfoldable pub validate_queue_pairs : Compressdev → ℕ → Action Configuration (Unit {0})
validate_queue_pairs dev num_qps = do
  guard (λ c. ltb 0 dev.max_nb_queue_pairs && ltb dev.max_nb_queue_pairs num_qps) invalid
  guard (λ c. c.burst_size == 0) invalid

abbrev pub at_least_one_seg : Action Configuration (Unit {0})
at_least_one_seg c = (ok tt, if ltb c.max_sgl_segs 1 then record c { max_sgl_segs = 1 } else c)

unfoldable pub validate_segs : BuildConfig → Capability → Action Configuration (Unit {0})
validate_segs b cap = do
  at_least_one_seg
  guard (λ c. ltb 1 c.max_sgl_segs && not cap.oop_sgl_in_sgl_out) invalid
  guard
      (λ c.
        ltb c.decompressed_seg_size min_seg_size || ltb (max_seg_size b) c.decompressed_seg_size)
      invalid

-- The window: a size of 0 is replaced by the greatest one.
abbrev pub with_window : Option Status → Configuration → Option (Status × Configuration)
with_window none c = none
with_window (some r) c = some (r, c)

unfoldable pub validate_window : Capability → Configuration → Option (Status × Configuration)
validate_window cap c =
    if c.window_size == 0
    then some (ok tt, record c { window_size = cap.window.max })
    else with_window (validate_window_size c.window_size cap.window) c

-- The checks behind the window.
unfoldable pub validate_rest : BuildConfig → Capability → Action Configuration (Unit {0})
validate_rest b cap = do
  guard (λ c. is_fixed c.huffman_enc && not cap.huffman_fixed) invalid
  guard (λ c. is_dynamic c.huffman_enc && not cap.huffman_dynamic) invalid
  guard
      (λ c.
        ltb c.max_preallocate_memzones min_preallocate_memzones
        || ltb b.max_memzone c.max_preallocate_memzones)
      invalid

-- A part that may not end, behind one that does, and the other way round.
abbrev pub then_window : Capability → Status × Configuration → Option (Status × Configuration)
then_window cap (ok tt, c) = validate_window cap c
then_window cap (err e, c) = some (err e, c)

abbrev pub then_rest :
    BuildConfig → Capability → Option (Status × Configuration) → Option (Status × Configuration)
then_rest b cap none = none
then_rest b cap (some (ok tt, c)) = some (validate_rest b cap c)
then_rest b cap (some (err e, c)) = some (err e, c)

abbrev pub with_capability :
    BuildConfig → Option Capability → Status × Configuration → Option (Status × Configuration)
with_capability b cap (err e, c) = some (err e, c)
with_capability b none (ok tt, c) = some (err not_implemented, c)
with_capability b (some cap) (ok tt, c) = then_rest b cap (then_window cap (validate_segs b cap c))

unfoldable pub validate_configuration :
    BuildConfig → Compressdev → ℕ → Configuration → Option (Status × Configuration)
validate_configuration b dev num_qps c =
    with_capability b dev.capability (validate_queue_pairs dev num_qps c)

-- BlueFieldCompressDevice::ValidateConfiguration, of a configuration of its own type.
unfoldable pub validate_bluefield :
    BuildConfig → Compressdev → ℕ → Configuration → Option (Status × Configuration)
validate_bluefield b dev num_qps c =
    if not (is_fixed c.huffman_enc) && not (is_dynamic c.huffman_enc)
    then some (err invalid, c)
    else validate_configuration b dev num_qps c
