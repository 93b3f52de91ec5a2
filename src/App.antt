-- ===== src/App.antt =====
-- The demo of apps. In this file: how apps/app_common.cc sizes the memory of the devices, and how
-- apps/demo_app.cc splits its input. The child modules have the rest: Devices sets the devices up,
-- Input reads the input, Targets goes through the queue pairs, Sync and Evaluate are the two tests, the
-- second with the rounds of compression of Async, and Demo is the whole program.
pub mod Memzones
pub mod Targets
pub mod Async
pub mod Evaluate
pub mod Devices
pub mod Input
pub mod Sync
pub mod Demo
mod Tests
use bitar.Base.{ℕ, zero, suc, ◌+◌, ◌-◌, ◌/◌, ◌%◌, ◌^◌, ltb, ◌==◌, if◌then◌else◌, List, [], ◌∷◌}

-- GetBlueFieldCompressDevices(): the memzones for all devices, and for each of them. The quotient is
-- cast to a std::uint16_t.
unfoldable pub max_preallocate_memzones_total : ℕ → ℕ → ℕ → ℕ
max_preallocate_memzones_total max_buffer_size seg_size num_parallel_tests =
    (max_buffer_size + seg_size - 1) / seg_size + num_parallel_tests

unfoldable pub max_preallocate_memzones : ℕ → ℕ → ℕ
max_preallocate_memzones total num_devices = (total + num_devices - 1) / num_devices % 2 ^ 16

-- EvaluateAsync(): the sizes of the segments of the input, from the first one on.
unfoldable pub segments_loop : ℕ → ℕ → ℕ → ℕ → List ℕ
segments_loop zero idx min_segment_size extra_bytes = []
segments_loop (suc n) idx min_segment_size extra_bytes =
    (min_segment_size + (if ltb idx extra_bytes then 1 else 0))
    ∷ segments_loop n (idx + 1) min_segment_size extra_bytes

unfoldable pub segments : ℕ → ℕ → List ℕ
segments size num_parallel_tests =
    segments_loop num_parallel_tests 0 (size / num_parallel_tests) (size % num_parallel_tests)
