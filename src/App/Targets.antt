-- ===== src/App/Targets.antt =====
-- The queue pairs that apps/demo_app.cc runs its tests on: Advance() and the loops over
-- num_parallel_tests() that use it.
pub mod Walk
use bitar.Base.{
  ℕ, zero, suc, ◌+◌, ◌%◌, ◌^◌, ◌==◌, ltb, if◌then◌else◌, List, [], ◌∷◌, Option, none, some,
  get_elem?, StatusCode, cancelled, Status, ok, err,
}
use mathlib.Core.Option

-- A device, as far as the demo sees it: device_id() and num_qps().
pub record Card : Type 0 where
  pub device_id : ℕ
  pub num_qps : ℕ

-- Advance() on the index of a device and a queue pair of it.
unfoldable pub advance : ℕ → ℕ × ℕ → ℕ × ℕ
advance num_qps (device_id, queue_pair_id) =
    let next : ℕ = (queue_pair_id + 1) % 2 ^ 16 in
    if next == num_qps then ((device_id + 1) % 2 ^ 8, 0) else (device_id, next)

-- What a loop that starts at a target visits, in order. An index behind the last device is `none`:
-- the code reads `devices[device_id]` unchecked.
unfoldable pub visits : List Card → ℕ → ℕ × ℕ → Option (List (ℕ × ℕ))
visits devices zero target = some []
visits devices (suc n) (device_id, queue_pair_id) = elim (get_elem? devices device_id) [
  | none ↦ none
  | some d ↦
      Option.map (λ ts. (device_id, queue_pair_id) ∷ ts)
        (visits devices n (advance d.num_qps (device_id, queue_pair_id)))
]

-- `std::uint8_t device_id = 0; std::uint16_t queue_pair_id = 0;`
unfoldable pub targets : List Card → ℕ → Option (List (ℕ × ℕ))
targets devices num_parallel_tests = visits devices num_parallel_tests (0, 0)

-- total_num_qps, in a std::uint32_t.
unfoldable pub total_num_qps : List Card → ℕ → ℕ
total_num_qps [] num = num
total_num_qps (d ∷ ds) num = total_num_qps ds ((num + d.num_qps) % 2 ^ 32)

-- The check in front of EvaluateAsync().
unfoldable pub enough_queue_pairs : List Card → ℕ → Status
enough_queue_pairs devices num_parallel_tests =
    if ltb (total_num_qps devices 0) num_parallel_tests then err cancelled else ok tt
