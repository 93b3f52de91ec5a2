-- ===== src/App/Evaluate.antt =====
-- EvaluateAsync() of apps/demo_app.cc. The rounds of decompression are numbered behind those of
-- compression. A call of Decompress() takes no memzone and gives none back, so the rounds of
-- decompression leave the memories of the devices alone.
pub mod Outcomes
mod Tests
use bitar.Base.{
  ℕ, zero, suc, ◌+◌, ◌*◌, ltb, ◌==◌, if◌then◌else◌, Bool, true, false, ◌&&◌, List, [], ◌∷◌, Option,
  none, some, length, map, StatusCode, out_of_memory, invalid, io_error, Status, ok, err,
}
use bitar.QueuePair.Assemble.{Buffer}
use bitar.App.{segments}
use bitar.App.Targets.{Card, targets, enough_queue_pairs}
use bitar.App.Async.{
  Slots, Memories, Workers, entry, make_slots, recycle_slots, num_launched, num_tests,
  async_return_ok, exit_failure, compress_rounds,
}

-- What arrow answers: whether the `k`-th allocation, of a number of bytes, succeeds; the size of the
-- buffer that is decompressed for a target; and whether memcmp() finds the `k`-th of them equal to the
-- input at an offset.
pub record Data : Type 0 where
  pub allocates : ℕ → ℕ → Bool
  pub decompressed_size : ℕ × ℕ → ℕ
  pub equal : ℕ → ℕ → Bool

-- kDecompressedSegSize of apps/app_common.h.
abbrev pub decompressed_seg_size : ℕ
decompressed_seg_size = 59460

-- Allocates a buffer of each size, from the `k`-th allocation on.
unfoldable pub allocate_each : Data → ℕ → List ℕ → Status
allocate_each x k [] = ok tt
allocate_each x k (size ∷ sizes) = elim (x.allocates k size) [
  | false ↦ err out_of_memory
  | true ↦ allocate_each x (k + 1) sizes
]

-- The sizes of the buffers to decompress into, and the launches, which read the entry of each target.
unfoldable pub decompressed_sizes : Slots → List (ℕ × ℕ) → Option (List ℕ)
decompressed_sizes m [] = some []
decompressed_sizes m ((i, q) ∷ ts) = elim (entry i q m) [
  | none ↦ none
  | some bs ↦ elim (decompressed_sizes m ts) [
    | none ↦ none
    | some sizes ↦ some ((length bs * decompressed_seg_size) ∷ sizes)
  ]
]

-- decompress_result_callback, LcoreDecompressFunc() of src/include/util.h behind the call of
-- Decompress(), and WaitForAsyncCompletion() behind the launches.
abbrev pub decompress_result_callback : Status → ℕ
decompress_result_callback (ok u) = async_return_ok
decompress_result_callback (err e) = exit_failure

abbrev pub lcore_decompress_func : Status → ℕ
lcore_decompress_func status = decompress_result_callback status

unfoldable pub wait_for_decompression : Workers → ℕ → ℕ → List (ℕ × ℕ) → Bool
wait_for_decompression w round started [] = true
wait_for_decompression w round zero (t ∷ ts) =
    (w.not_launched round t == async_return_ok) && wait_for_decompression w round zero ts
wait_for_decompression w round (suc started) (t ∷ ts) =
    (lcore_decompress_func (w.decompress_status round t) == async_return_ok)
    && wait_for_decompression w round started ts

-- BenchmarkDecompressAsync().
unfoldable pub benchmark_decompress_async : Workers → ℕ → List (ℕ × ℕ) → Status
benchmark_decompress_async w round ts =
    if wait_for_decompression w round (num_launched (w.launch round) ts) ts
    then ok tt
    else err io_error

unfoldable pub decompress_rounds : Workers → List (ℕ × ℕ) → ℕ → ℕ → Status
decompress_rounds w ts zero round = ok tt
decompress_rounds w ts (suc n) round = elim (benchmark_decompress_async w round ts) [
  | err e ↦ err e
  | ok u ↦ decompress_rounds w ts n (round + 1)
]

-- The comparison with the input, once all is recycled.
unfoldable pub total_size : Data → List (ℕ × ℕ) → ℕ
total_size x [] = 0
total_size x (t ∷ ts) = x.decompressed_size t + total_size x ts

unfoldable pub compare_segments : Data → ℕ → ℕ → List (ℕ × ℕ) → Status
compare_segments x k input_offset [] = ok tt
compare_segments x k input_offset (t ∷ ts) = elim (x.equal k input_offset) [
  | false ↦ err invalid
  | true ↦ compare_segments x (k + 1) (input_offset + x.decompressed_size t) ts
]

unfoldable pub compare_with_input : Data → ℕ → List (ℕ × ℕ) → Status
compare_with_input x size ts =
    if total_size x ts == size then compare_segments x 0 0 ts else err invalid

-- What follows a call: its status is returned behind Recycle(), or the next step is taken.
abbrev pub recycle_and_return : Status → Option Memories → Option (Status × Memories)
recycle_and_return r none = none
recycle_and_return r (some ms) = some (r, ms)

abbrev pub or_recycle :
    Slots → Memories → Status → Option (Status × Memories) → Option (Status × Memories)
or_recycle m ms (err e) next = recycle_and_return (err e) (recycle_slots m ms)
or_recycle m ms (ok u) next = next

abbrev pub decompress_into :
    Workers
    → Data
    → ℕ
    → List (ℕ × ℕ)
    → Slots
    → Memories
    → Option (List ℕ)
    → Option (Status × Memories)
decompress_into w x size ts m ms none = none
decompress_into w x size ts m ms (some sizes) =
    or_recycle m ms (allocate_each x (length ts) sizes) (
      or_recycle m ms (decompress_rounds w ts num_tests num_tests)
        (recycle_and_return (compare_with_input x size ts) (recycle_slots m ms)))

-- The part of EvaluateAsync() behind the rounds of compression.
unfoldable pub evaluate_decompression :
    Workers → Data → ℕ → List (ℕ × ℕ) → Slots → Memories → Option (Status × Memories)
evaluate_decompression w x size ts m ms = decompress_into w x size ts m ms (decompressed_sizes m ts)

abbrev pub after_compression :
    Workers
    → Data
    → ℕ
    → List (ℕ × ℕ)
    → Option (Status × (Slots × Memories))
    → Option (Status × Memories)
after_compression w x size ts none = none
after_compression w x size ts (some (err e, (m, ms))) = some (err e, ms)
after_compression w x size ts (some (ok u, (m, ms))) = evaluate_decompression w x size ts m ms

abbrev pub on_targets :
    Workers
    → Data
    → List Card
    → ℕ
    → Memories
    → Status
    → Option (List (ℕ × ℕ))
    → Option (Status × Memories)
on_targets w x devices size ms allocated none = none
on_targets w x devices size ms (err e) (some ts) = some (err e, ms)
on_targets w x devices size ms (ok u) (some ts) =
    after_compression w x size ts (compress_rounds w devices ts num_tests 0 (make_slots ts [], ms))

abbrev pub if_enough : Status → Memories → Option (Status × Memories) → Option (Status × Memories)
if_enough (err e) ms next = some (err e, ms)
if_enough (ok u) ms next = next

-- EvaluateAsync(). The segments of the input are allocated first, then the results.
unfoldable pub evaluate_async :
    Workers → Data → List Card → ℕ → ℕ → Memories → Option (Status × Memories)
evaluate_async w x devices num_parallel_tests size ms =
    if_enough (enough_queue_pairs devices num_parallel_tests) ms (
      on_targets w x devices size ms (allocate_each x 0 (segments size num_parallel_tests))
        (targets devices num_parallel_tests))
