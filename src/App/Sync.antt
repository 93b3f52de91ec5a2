-- ===== src/App/Sync.antt =====
-- EvaluateSync() of apps/demo_app.cc: compression and decompression on queue pair 0 of a device, by
-- Compress(), Decompress() and Recycle() of Device/Compression. `none` is a run that does not return: the
-- fuel of a call has run out, or an ARROW_CHECK_EQ has failed.
pub mod Passing
mod Tests
use bitar.Base.{
  ℕ, zero, suc, ◌+◌, ◌*◌, ◌==◌, if◌then◌else◌, Bool, true, false, List, [], ◌∷◌, Option, none, some,
  length, StatusCode, out_of_memory, invalid, Status, Result, ok, err,
}
use bitar.Config.{Configuration}
use bitar.Rte.{Rte, Compressdev}
use bitar.DeviceMemory.{DeviceMemory}
use bitar.QueuePair.Assemble.{Buffer}
use bitar.Device.Setup.{Device}
use bitar.Device.Bursts.{Run}
use bitar.Device.Compression.{compress, decompress, recycle}
use bitar.App.Async.{num_tests}
use bitar.App.Evaluate.{decompressed_seg_size}

-- The queue pair and its counter, between two calls that collect different results.
abbrev pub collecting : {A B : Type 0} → B → Run A → Run B
collecting output s = record {
  queue_pair = s.queue_pair;
  num_maybe_not_ok = s.num_maybe_not_ok;
  output = output;
}

abbrev pub with_memory : {A : Type 0} → Run A → DeviceMemory → Run A
with_memory s m = record s { queue_pair = record s.queue_pair { device_memory = m } }

-- Recycle() with a check of the number, and without.
abbrev pub recycle_unchecked : {A : Type 0} → List Buffer → Run A → Run A
recycle_unchecked bs s = with_memory s (recycle bs s.queue_pair.device_memory).1

abbrev pub recycle_checked : {A : Type 0} → List Buffer → Run A → Option (Run A)
recycle_checked bs s =
    if (recycle bs s.queue_pair.device_memory).0 == length bs
    then some (recycle_unchecked bs s)
    else none

abbrev pub Compressed : Type 0
Compressed = Option (Result (List Buffer) × Run (List Buffer))

module _ (ndebug : Bool) (rte : Rte) (dev : Compressdev) (c : Configuration) (fuel : ℕ) (d : Device)
    (b : Buffer) where
  -- BenchmarkCompressSync() and BenchmarkDecompressSync(), on queue pair 0.
  abbrev pub benchmark_compress_sync : Run (List Buffer) → Compressed
  benchmark_compress_sync s = compress ndebug rte dev c fuel d 0 (some b) s

  abbrev pub benchmark_decompress_sync :
      List Buffer → Buffer → Run ℕ → Option (Result (Option ℕ) × Run ℕ)
  benchmark_decompress_sync bs destination s =
      decompress ndebug rte dev c fuel d 0 bs (some destination) s

  -- The rounds of compression: the buffers of the last one are kept, those of any other recycled.
  abbrev pub next_round : (Run (List Buffer) → Compressed) → Option (Run (List Buffer)) → Compressed
  next_round k none = none
  next_round k (some s) = k s

  abbrev pub keep_last : ℕ → (Run (List Buffer) → Compressed) → Compressed → Compressed
  keep_last n k none = none
  keep_last n k (some (err e, s)) = some (err e, s)
  keep_last zero k (some (ok bs, s)) = some (ok bs, s)
  keep_last (suc n) k (some (ok bs, s)) = next_round k (recycle_checked bs s)

  unfoldable pub compress_tests : ℕ → Run (List Buffer) → Compressed
  compress_tests zero s = some (ok [], s)
  compress_tests (suc n) s = keep_last n (λ s'. compress_tests n s') (benchmark_compress_sync s)

  -- The rounds of decompression, with the size that the destination has by then.
  abbrev pub resized : ℕ → Option ℕ → ℕ
  resized size none = size
  resized size (some n) = n

  abbrev pub next_size :
      ℕ
      → (ℕ → Run ℕ → Option (Result ℕ × Run ℕ))
      → Option (Result (Option ℕ) × Run ℕ)
      → Option (Result ℕ × Run ℕ)
  next_size size k none = none
  next_size size k (some (err e, s)) = some (err e, s)
  next_size size k (some (ok n, s)) = k (resized size n) s

  unfoldable pub decompress_tests : ℕ → List Buffer → Buffer → ℕ → Run ℕ → Option (Result ℕ × Run ℕ)
  decompress_tests zero bs destination size s = some (ok size, s)
  decompress_tests (suc n) bs destination size s =
      next_size size (λ size' s'. decompress_tests n bs destination size' s')
        (benchmark_decompress_sync bs destination s)

  -- What follows the decompression: an error returns behind an unchecked Recycle(), and the comparison
  -- comes behind a checked one.
  abbrev pub compared : Bool → ℕ → Status
  compared equal size = if size == b.size then if equal then ok tt else err invalid else err invalid

  abbrev pub if_recycled : Bool → ℕ → Option (Run ℕ) → Option (Status × Run ℕ)
  if_recycled equal size none = none
  if_recycled equal size (some s) = some (compared equal size, s)

  abbrev pub after_decompression :
      Bool → List Buffer → Option (Result ℕ × Run ℕ) → Option (Status × Run ℕ)
  after_decompression equal bs none = none
  after_decompression equal bs (some (err e, s)) = some (err e, recycle_unchecked bs s)
  after_decompression equal bs (some (ok size, s)) = if_recycled equal size (recycle_checked bs s)

  -- The destination is allocated for the buffers, or not: `allocate` is arrow's answer for a size.
  abbrev pub into_destination : Bool → List Buffer → Run ℕ → Option Buffer → Option (Status × Run ℕ)
  into_destination equal bs s none = some (err out_of_memory, recycle_unchecked bs s)
  into_destination equal bs s (some destination) =
      after_decompression equal bs (decompress_tests num_tests bs destination destination.size s)

  abbrev pub after_compression : (ℕ → Option Buffer) → Bool → Compressed → Option (Status × Run ℕ)
  after_compression allocate equal none = none
  after_compression allocate equal (some (err e, s)) = some (err e, collecting 0 s)
  after_compression allocate equal (some (ok bs, s)) =
      into_destination equal bs (collecting 0 s) (allocate (length bs * decompressed_seg_size))

  unfoldable pub evaluate_sync :
      (ℕ → Option Buffer) → Bool → Run (List Buffer) → Option (Status × Run ℕ)
  evaluate_sync allocate equal s = after_compression allocate equal (compress_tests num_tests s)
