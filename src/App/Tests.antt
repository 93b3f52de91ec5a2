-- ===== src/App/Tests.antt =====
-- The demo with three tests on two devices, on a buffer of 100 000 bytes.
use bitar.Base.{◌<◌, ◌*◌, ◌/◌, ◌^◌, ◌≤◌, ◌∷◌, [], length, ◌≡◌, refl, arith}
use bitar.App.{max_preallocate_memzones_total, max_preallocate_memzones, segments, segments_loop}
use bitar.QueuePair.Assemble.{round_up_div}
use bitar.App.Memzones.{sum, needed, IsSplitEvenly, segments_lem}

split_run : segments 100000 3 ≡ 33334 ∷ 33333 ∷ 33333 ∷ []
unfolding segments segments_loop
split_run = refl

segments_lem_example :
    let total = max_preallocate_memzones_total 100000 59460 3 in
    (sum (segments 100000 3) ≡ 100000)
    × (length (segments 100000 3) ≡ 3)
    × IsSplitEvenly (100000 / 3) (segments 100000 3)
    × (needed 59460 (segments 100000 3) ≤ total)
    × (round_up_div total 2 < 2 ^ 16 → total ≤ max_preallocate_memzones total 2 * 2)
segments_lem_example = segments_lem 100000 59460 3 2 (omega arith) (omega arith) (omega arith)
