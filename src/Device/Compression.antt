-- ===== src/Device/Compression.antt =====
-- Compress(), Decompress(), Recycle() and ReleaseAll() of CompressDevice, src/device.cc. A call works
-- on the queue pair that it is given and the device memory behind it; the fuel bounds the rounds of
-- its loops, which poll the device and have no bound of their own.
pub mod Errors
pub mod Recycling
pub mod Collected
pub mod Consumption
pub mod Ends
mod Tests
use bitar.Base.{
  ℕ, zero, suc, ◌+◌, ◌-◌, ◌*◌, min, ltb, ◌==◌, if◌then◌else◌, Bool, true, false, ◌||◌, List, [],
  ◌∷◌, ◌++◌, Option, none, some, length, StatusCode, capacity_error, Action, Status, Result, ok,
  err,
}
use bitar.Config.{Configuration}
use bitar.Rte.{Rte, Compressdev}
use bitar.DeviceMemory.{DeviceMemory}
use bitar.DeviceMemory
use bitar.QueuePair.{QueuePair, Mbuf, Operation, release}
use bitar.QueuePair.Assemble.{Buffer, assemble_from_decompressed, assemble_from_compressed}
use bitar.Device.Setup.{Device, entry_guard}
use bitar.Device.Bursts.{Run, run_bursts}

-- The callback of Compress(): a buffer for each destination mbuf, until what the operation has
-- produced is covered. Beyond the last mbuf the code would follow a null pointer.
unfoldable pub collect : List Mbuf → ℕ → List Buffer
collect [] remaining_length = []
collect (m ∷ ms) remaining_length =
    let data_len : ℕ = min m.data_len remaining_length in
    let rest = collect ms (remaining_length - data_len) in
    if remaining_length == 0 then [] else record { data_addr = m.buf_addr; size = data_len } ∷ rest

abbrev pub compress_callback : Operation → ℕ → List Buffer → List Buffer
compress_callback op produced compressed_buffers =
    compressed_buffers ++ collect op.m_dst.segments produced

abbrev pub decompress_callback : Operation → ℕ → ℕ → ℕ
decompress_callback op produced decompressed_buffer_size = decompressed_buffer_size + produced

-- Recycle(): from the last buffer to the first one.
abbrev pub reversed : List Buffer → List Buffer
reversed [] = []
reversed (b ∷ bs) = reversed bs ++ b ∷ []

unfoldable pub put_each : List Buffer → DeviceMemory → ℕ × DeviceMemory
put_each [] m = (0, m)
put_each (b ∷ bs) m =
    let (k, m') = DeviceMemory.put b.data_addr m in let (n, m'') = put_each bs m' in (k + n, m'')

unfoldable pub recycle : List Buffer → DeviceMemory → ℕ × DeviceMemory
recycle buffers m = put_each (reversed buffers) m

-- ReleaseAll().
unfoldable pub release_all_of : List Buffer → QueuePair → QueuePair
release_all_of buffers q =
    release (record q { device_memory = (recycle buffers q.device_memory).1 })

module _ (ndebug : Bool) (rte : Rte) (dev : Compressdev) (c : Configuration) where
  -- What Compress() does with the end of its loops: on an error all is released.
  abbrev pub finish_compress :
      Option (Status × Run (List Buffer)) → Option (Result (List Buffer) × Run (List Buffer))
  finish_compress none = none
  finish_compress (some (ok u, s)) = some (ok s.output, s)
  finish_compress (some (err e, s)) =
      some (err e, record s { queue_pair = release_all_of s.output s.queue_pair })

  unfoldable pub run_compress :
      ℕ → Buffer → Run (List Buffer) → Option (Result (List Buffer) × Run (List Buffer))
  run_compress fuel b s = finish_compress (
      run_bursts (assemble_from_decompressed rte c b) ndebug dev c compress_callback fuel 0
        (record s { output = [] }))

  abbrev pub compress_if_ready :
      ℕ → Buffer → Run (List Buffer) → Status → Option (Result (List Buffer) × Run (List Buffer))
  compress_if_ready fuel b s (ok u) = run_compress fuel b s
  compress_if_ready fuel b s (err e) = some (err e, s)

  -- Compress(); no buffer is nullptr.
  unfoldable pub compress :
      ℕ
      → Device
      → ℕ
      → Option Buffer
      → Run (List Buffer)
      → Option (Result (List Buffer) × Run (List Buffer))
  compress fuel d queue_pair_id none s = some (ok [], s)
  compress fuel d queue_pair_id (some b) s =
      if b.size == 0
      then some (ok [], s)
      else compress_if_ready fuel b s (entry_guard d queue_pair_id s.queue_pair)

  -- Decompress() with the end of its loops: on an error nothing is released. The value is the size
  -- that the destination is given.
  abbrev pub finish_decompress : Option (Status × Run ℕ) → Option (Result ℕ × Run ℕ)
  finish_decompress none = none
  finish_decompress (some (ok u, s)) = some (ok s.output, s)
  finish_decompress (some (err e, s)) = some (err e, s)

  unfoldable pub run_decompress : ℕ → List Buffer → Buffer → Run ℕ → Option (Result ℕ × Run ℕ)
  run_decompress fuel bs destination s = finish_decompress (
      run_bursts {P = ℕ × ℕ}
        (λ position. assemble_from_compressed rte c bs destination position.0 position.1) ndebug dev
        c decompress_callback fuel (0, 0) (record s { output = 0 }))

  abbrev pub decompress_if_ready :
      ℕ → List Buffer → Buffer → Run ℕ → Status → Option (Result ℕ × Run ℕ)
  decompress_if_ready fuel bs destination s (ok u) = run_decompress fuel bs destination s
  decompress_if_ready fuel bs destination s (err e) = some (err e, s)

  -- The destination is given by its address and its capacity; none is nullptr. Where there is nothing
  -- to decompress its size stays, which is `none`.
  abbrev pub with_size : Option (Result ℕ × Run ℕ) → Option (Result (Option ℕ) × Run ℕ)
  with_size none = none
  with_size (some (ok n, s)) = some (ok (some n), s)
  with_size (some (err e, s)) = some (err e, s)

  unfoldable pub decompress_into :
      ℕ → Device → ℕ → List Buffer → Option Buffer → Run ℕ → Option (Result ℕ × Run ℕ)
  decompress_into fuel d queue_pair_id bs none s = some (err capacity_error, s)
  decompress_into fuel d queue_pair_id bs (some destination) s =
      if ltb destination.size (length bs * c.decompressed_seg_size)
      then some (err capacity_error, s)
      else decompress_if_ready fuel bs destination s (entry_guard d queue_pair_id s.queue_pair)

  unfoldable pub decompress :
      ℕ → Device → ℕ → List Buffer → Option Buffer → Run ℕ → Option (Result (Option ℕ) × Run ℕ)
  decompress fuel d queue_pair_id [] destination s = some (ok none, s)
  decompress fuel d queue_pair_id (b ∷ bs) destination s =
      with_size (decompress_into fuel d queue_pair_id (b ∷ bs) destination s)
