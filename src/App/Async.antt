-- ===== src/App/Async.antt =====
-- The asynchronous test of apps/demo_app.cc: compressions that run on the lcores of their queue pairs.
-- What the lcores do is an argument: whether a launch is accepted, the result that a launched call of
-- Compress() hands to the callback, and how the calls of one round, in whatever order they interleave,
-- leave the memories of the devices. A callback writes to an entry of its own, which is not read before
-- the lcore has been waited for, so the model runs it at the wait. `none` is an abort of the program:
-- an ARROW_CHECK_EQ that fails, an exception that nothing catches, or an access out of bounds.
pub mod Recycling
pub mod Round
pub mod Entries
pub mod FirstRound
use bitar.Base.{
  ℕ, zero, suc, ◌+◌, ltb, ◌==◌, if◌then◌else◌, Bool, true, false, ◌&&◌, List, [], ◌∷◌, ◌++◌, Option,
  none, some, length, get_elem?, set, take, StatusCode, io_error, Status, Result, ok, err,
}
use bitar.DeviceMemory.{DeviceMemory}
use bitar.QueuePair.{update}
use bitar.QueuePair.Assemble.{Buffer}
use bitar.Device.Compression.{recycle}
use bitar.App.Targets.{Card}
use mathlib.Core.Option

-- device_to_compressed_buffers_vector, and the memory of each device by its index.
abbrev pub Slots : Type 0
Slots = List (ℕ × List (List Buffer))

abbrev pub Memories : Type 0
Memories = ℕ → DeviceMemory

-- `map[device_id].emplace_back()`, for each target.
unfoldable pub add_slot : ℕ → Slots → Slots
add_slot device_id [] = (device_id, [] ∷ []) ∷ []
add_slot device_id ((j, v) ∷ m) =
    if j == device_id then (j, v ++ [] ∷ []) ∷ m else (j, v) ∷ add_slot device_id m

unfoldable pub make_slots : List (ℕ × ℕ) → Slots → Slots
make_slots [] m = m
make_slots ((device_id, queue_pair_id) ∷ ts) m = make_slots ts (add_slot device_id m)

-- `map.at(device_id)[queue_pair_id] = buffers`.
abbrev pub store_in : ℕ → List Buffer → List (List Buffer) → Option (List (List Buffer))
store_in queue_pair_id bs v =
    if ltb queue_pair_id (length v) then some (set v queue_pair_id bs) else none

unfoldable pub store : ℕ → ℕ → List Buffer → Slots → Option Slots
store device_id queue_pair_id bs [] = none
store device_id queue_pair_id bs ((j, v) ∷ m) =
    if j == device_id
    then Option.map (λ v'. (j, v') ∷ m) (store_in queue_pair_id bs v)
    else Option.map (λ m'. (j, v) ∷ m') (store device_id queue_pair_id bs m)

-- `map.at(device_id)[queue_pair_id]`.
abbrev pub entry : ℕ → ℕ → Slots → Option (List Buffer)
entry i q [] = none
entry i q ((j, v) ∷ m) = if j == i then get_elem? v q else entry i q m

-- Recycle() of the anonymous namespace, with its check of the number of buffers. The order of the
-- entries is that of the map.
unfoldable pub recycle_buffers : ℕ → List Buffer → Memories → Option Memories
recycle_buffers device_id bs ms =
    let (k, m) = recycle bs (ms device_id) in
    if k == length bs then some (update ms device_id m) else none

unfoldable pub recycle_vector : ℕ → List (List Buffer) → Memories → Option Memories
recycle_vector device_id [] ms = some ms
recycle_vector device_id (bs ∷ v) ms = elim (recycle_buffers device_id bs ms) [
  | none ↦ none
  | some ms' ↦ recycle_vector device_id v ms'
]

unfoldable pub recycle_slots : Slots → Memories → Option Memories
recycle_slots [] ms = some ms
recycle_slots ((device_id, v) ∷ m) ms = elim (recycle_vector device_id v ms) [
  | none ↦ none
  | some ms' ↦ recycle_slots m ms'
]

-- The number of the round comes first. A target is the index of a device and a queue pair.
pub record Workers : Type 0 where
  pub launch : ℕ → ℕ × ℕ → Bool
  pub compress_result : ℕ → ℕ × ℕ → Result (List Buffer)
  pub after_compress : ℕ → List (ℕ × ℕ) → Memories → Memories
  pub decompress_status : ℕ → ℕ × ℕ → Status
  -- What rte_eal_wait_lcore() returns for the lcore of a target that has not been launched.
  pub not_launched : ℕ → ℕ × ℕ → ℕ

-- EXIT_FAILURE, and kAsyncReturnOK of src/include/util.h.
abbrev pub exit_failure : ℕ
exit_failure = 1

abbrev pub async_return_ok : ℕ
async_return_ok = 2

-- compress_result_callback, and LcoreCompressFunc() of src/include/util.h behind the call of
-- Compress(): the callback is given the device_id() of the device.
unfoldable pub compress_result_callback : ℕ → ℕ → Result (List Buffer) → Slots → Option (ℕ × Slots)
compress_result_callback device_id queue_pair_id (err e) m = some (exit_failure, m)
compress_result_callback device_id queue_pair_id (ok bs) m =
    Option.map (λ m'. (async_return_ok, m')) (store device_id queue_pair_id bs m)

abbrev pub lcore_compress_func : Card → ℕ → Result (List Buffer) → Slots → Option (ℕ × Slots)
lcore_compress_func d queue_pair_id result m =
    compress_result_callback d.device_id queue_pair_id result m

-- The loop that launches, up to the first launch that is refused: how many are accepted.
unfoldable pub num_launched : (ℕ × ℕ → Bool) → List (ℕ × ℕ) → ℕ
num_launched launch [] = 0
num_launched launch (t ∷ ts) = let rest = num_launched launch ts in if launch t then rest + 1 else 0

abbrev pub and_rest : ℕ → Option (Bool × Slots) → Option (Bool × Slots)
and_rest ret none = none
and_rest ret (some (async_success, m)) = some ((ret == async_return_ok) && async_success, m)

-- WaitForAsyncCompletion(): the first `started` targets have been launched.
unfoldable pub wait_for_async_completion :
    Workers → List Card → ℕ → ℕ → List (ℕ × ℕ) → Slots → Option (Bool × Slots)
wait_for_async_completion w devices round started [] m = some (true, m)
wait_for_async_completion w devices round zero (t ∷ ts) m =
    and_rest (w.not_launched round t) (wait_for_async_completion w devices round zero ts m)
wait_for_async_completion w devices round (suc started) ((i, queue_pair_id) ∷ ts) m =
    elim (get_elem? devices i) [
      | none ↦ none
      | some d ↦
          elim (lcore_compress_func d queue_pair_id (w.compress_result round (i, queue_pair_id))
            m) [
              | none ↦ none
              | some (ret, m') ↦
                  and_rest ret (wait_for_async_completion w devices round started ts m')
            ]
    ]

-- BenchmarkCompressAsync() behind the wait, and the whole of it.
abbrev pub fail_recycled : Slots → Option Memories → Option (Status × (Slots × Memories))
fail_recycled m none = none
fail_recycled m (some ms) = some (err io_error, (m, ms))

abbrev pub finish_round : Memories → Option (Bool × Slots) → Option (Status × (Slots × Memories))
finish_round ms none = none
finish_round ms (some (true, m)) = some (ok tt, (m, ms))
finish_round ms (some (false, m)) = fail_recycled m (recycle_slots m ms)

unfoldable pub benchmark_compress_async :
    Workers → List Card → ℕ → List (ℕ × ℕ) → Slots × Memories → Option (Status × (Slots × Memories))
benchmark_compress_async w devices round ts (m, ms) =
    let started : ℕ = num_launched (w.launch round) ts in
    finish_round (w.after_compress round (take started ts) ms)
      (wait_for_async_completion w devices round started ts m)

-- The loop of EvaluateAsync() over kNumTests rounds of compression: what a round that is not the last
-- one has compressed is recycled, and the entries of the map stay as they are.
abbrev pub num_tests : ℕ
num_tests = 3

abbrev pub recycle_unless_last : ℕ → Slots → Memories → Option Memories
recycle_unless_last zero m ms = some ms
recycle_unless_last (suc n) m ms = recycle_slots m ms

unfoldable pub compress_rounds :
    Workers
    → List Card
    → List (ℕ × ℕ)
    → ℕ
    → ℕ
    → Slots × Memories
    → Option (Status × (Slots × Memories))
compress_rounds w devices ts zero round s = some (ok tt, s)
compress_rounds w devices ts (suc n) round s =
    elim (benchmark_compress_async w devices round ts s) [
      | none ↦ none
      | some (err e, s') ↦ some (err e, s')
      | some (ok u, (m, ms)) ↦ elim (recycle_unless_last n m ms) [
        | none ↦ none
        | some ms' ↦ compress_rounds w devices ts n (round + 1) (m, ms')
      ]
    ]
