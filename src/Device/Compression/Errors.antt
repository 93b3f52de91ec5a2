-- ===== src/Device/Compression/Errors.antt =====
-- How Compress() and Decompress() of src/device.cc leave the queue pair, errors included.
use bitar.Base.{
  ℕ, ◌*◌, ◌<◌, ltb, leb, ◌==◌, if◌then◌else◌, Bool, true, false, List, [], ◌∷◌, Option, none, some,
  length, capacity_error, cancelled, Status, Result, ok, err, Bool-cases, inl, inr, ◌≡◌, refl, ap,
  arith,
}
use bitar.Config.{Configuration}
use bitar.Rte.{Rte, Compressdev}
use bitar.QueuePair.{QueuePair, has_pending_operations, release}
use bitar.QueuePair.Order.{release_lem}
use bitar.QueuePair.Assemble.{Buffer, assemble_from_decompressed, assemble_from_compressed}
use bitar.Device.{started, num_qps}
use bitar.Device.Setup.{Device, entry_guard}
use bitar.Device.Bursts.{Run}
use bitar.Device.Bursts.Calls.{IsQuiet, run_bursts-IsQuiet}
use bitar.Device.Compression.{
  compress_callback, decompress_callback, recycle, release_all_of, finish_compress, run_compress,
  compress_if_ready, compress, finish_decompress, run_decompress, decompress_if_ready,
  decompress_into, with_size, decompress,
}

release-nothing : (q : QueuePair) → has_pending_operations (release q) ≡ false
release-nothing q = ap has_pending_operations (release_lem q)

release_all_of-nothing :
    (bs : List Buffer) (q : QueuePair) → has_pending_operations (release_all_of bs q) ≡ false
unfolding release_all_of
release_all_of-nothing bs q =
    release-nothing (record q { device_memory = (recycle bs q.device_memory).1 })

not_over : (n k : ℕ) → k < n → leb n k ≡ false
not_over n k h = ground arith

-- A result, if there is one, that leaves nothing pending; one that does so unless it is an error.
abbrev pub IsClean : {A B : Type 0} → Option (Result A × Run B) → Type 0
IsClean none = Unit {0}
IsClean (some (r, s)) = has_pending_operations s.queue_pair ≡ false

abbrev pub IsCleanIfOk : {A B : Type 0} → Option (Result A × Run B) → Type 0
IsCleanIfOk none = Unit {0}
IsCleanIfOk (some (ok a, s)) = has_pending_operations s.queue_pair ≡ false
IsCleanIfOk (some (err e, s)) = Unit {0}

module _ (ndebug : Bool) (rte : Rte) (dev : Compressdev) (c : Configuration) where
  finish_compress-IsClean :
      (o : Option (Status × Run (List Buffer)))
      → IsQuiet o
      → IsClean (finish_compress ndebug rte dev c o)
  finish_compress-IsClean none h = tt
  finish_compress-IsClean (some (ok u, s)) h = h
  finish_compress-IsClean (some (err e, s)) h = release_all_of-nothing s.output s.queue_pair

  compress_if_ready-IsClean :
      (fuel : ℕ) (b : Buffer) (s : Run (List Buffer)) (r : Status)
      → has_pending_operations s.queue_pair ≡ false
      → IsClean (compress_if_ready ndebug rte dev c fuel b s r)
  unfolding run_compress
  compress_if_ready-IsClean fuel b s (ok u) h = finish_compress-IsClean _ (
      run_bursts-IsQuiet ndebug dev c compress_callback (assemble_from_decompressed rte c b) fuel 0
        (record s { output = [] }))
  compress_if_ready-IsClean fuel b s (err e) h = h

  size_case :
      (t : Bool) (s : Run (List Buffer)) (o : Option (Result (List Buffer) × Run (List Buffer)))
      → has_pending_operations s.queue_pair ≡ false
      → IsClean o
      → IsClean (if t then some (ok [], s) else o)
  size_case true s o h k = h
  size_case false s o h k = k

  -- Compress() on a queue pair with no pending operations leaves none, whether it succeeds or fails:
  -- the next call finds the queue pair free.
  pub compress-IsClean :
      (fuel : ℕ) (d : Device) (queue_pair_id : ℕ) (b : Option Buffer) (s : Run (List Buffer))
      → has_pending_operations s.queue_pair ≡ false
      → IsClean (compress ndebug rte dev c fuel d queue_pair_id b s)
  unfolding compress
  compress-IsClean fuel d queue_pair_id none s h = h
  compress-IsClean fuel d queue_pair_id (some b) s h =
      size_case (b.size == 0) s _ h
        (compress_if_ready-IsClean fuel b s (entry_guard d queue_pair_id s.queue_pair) h)

  -- What a call answers that finds its queue pair busy: where there is nothing to do it is OK, and a
  -- destination that is missing or too small is refused before the queue pair is looked at.
  abbrev pub compress_refused : Option Buffer → Result (List Buffer)
  compress_refused none = ok []
  compress_refused (some b) = if b.size == 0 then ok [] else err cancelled

  abbrev pub decompress_refused : List Buffer → Option Buffer → Result (Option ℕ)
  decompress_refused [] destination = ok none
  decompress_refused (b ∷ bs) none = err capacity_error
  decompress_refused (b ∷ bs) (some destination) =
      if ltb destination.size (length (b ∷ bs) * c.decompressed_seg_size)
      then err capacity_error
      else err cancelled

  refused :
      (d : Device) (queue_pair_id : ℕ) (q : QueuePair)
      → d.state ≡ started
      → queue_pair_id < num_qps d.worker_lcores
      → has_pending_operations q ≡ true
      → entry_guard d queue_pair_id q ≡ err cancelled
  unfolding entry_guard
  refused d queue_pair_id q on known busy =
      rw (on, not_over (num_qps d.worker_lcores) queue_pair_id known, busy) refl

  -- On a queue pair of a started device that has pending operations, no call starts, whatever its
  -- arguments are: Compress() and Decompress() return Cancelled, or what they return in front of
  -- EntryGuard(), and leave the queue pair alone.
  pub busy_lem :
      (fuel : ℕ) (d : Device) (queue_pair_id : ℕ) (s : Run (List Buffer)) (t : Run ℕ)
      → d.state ≡ started
      → queue_pair_id < num_qps d.worker_lcores
      → has_pending_operations s.queue_pair ≡ true
      → has_pending_operations t.queue_pair ≡ true
      → ((b : Option Buffer)
          → compress ndebug rte dev c fuel d queue_pair_id b s ≡ some (compress_refused b, s))
        × ((bs : List Buffer) (destination : Option Buffer)
            → decompress ndebug rte dev c fuel d queue_pair_id bs destination t
              ≡ some (decompress_refused bs destination, t))
  unfolding compress decompress decompress_into
  busy_lem fuel d queue_pair_id s t on known busy_s busy_t = (compressing, decompressing)
    where
      compressing :
          (b : Option Buffer)
          → compress ndebug rte dev c fuel d queue_pair_id b s ≡ some (compress_refused b, s)
      compressing none = refl
      compressing (some b) = elim (Bool-cases (b.size == 0)) [
        | inl e ↦ rw e refl
        | inr e ↦ rw (e, refused d queue_pair_id s.queue_pair on known busy_s) refl
      ]

      decompressing :
          (bs : List Buffer) (destination : Option Buffer)
          → decompress ndebug rte dev c fuel d queue_pair_id bs destination t
            ≡ some (decompress_refused bs destination, t)
      decompressing [] destination = refl
      decompressing (b ∷ bs) none = refl
      decompressing (b ∷ bs) (some destination) =
          elim (Bool-cases (ltb destination.size (length (b ∷ bs) * c.decompressed_seg_size))) [
            | inl e ↦ rw e refl
            | inr e ↦ rw (e, refused d queue_pair_id t.queue_pair on known busy_t) refl
          ]

  finish_decompress-IsCleanIfOk :
      (o : Option (Status × Run ℕ))
      → IsQuiet o
      → IsCleanIfOk (with_size ndebug rte dev c (finish_decompress ndebug rte dev c o))
  finish_decompress-IsCleanIfOk none h = tt
  finish_decompress-IsCleanIfOk (some (ok u, s)) h = h
  finish_decompress-IsCleanIfOk (some (err e, s)) h = tt

  decompress_if_ready-IsCleanIfOk :
      (fuel : ℕ) (bs : List Buffer) (destination : Buffer) (s : Run ℕ) (r : Status)
      → IsCleanIfOk (
          with_size ndebug rte dev c (decompress_if_ready ndebug rte dev c fuel bs destination s r))
  unfolding run_decompress
  decompress_if_ready-IsCleanIfOk fuel bs destination s (ok u) = finish_decompress-IsCleanIfOk _ (
      run_bursts-IsQuiet ndebug dev c decompress_callback
        (λ position. assemble_from_compressed rte c bs destination position.0 position.1) fuel
        (0, 0) (record s { output = 0 }))
  decompress_if_ready-IsCleanIfOk fuel bs destination s (err e) = tt

  capacity_case :
      (t : Bool) (s : Run ℕ) (o : Option (Result ℕ × Run ℕ))
      → IsCleanIfOk (with_size ndebug rte dev c o)
      → IsCleanIfOk (with_size ndebug rte dev c (if t then some (err capacity_error, s) else o))
  capacity_case true s o k = tt
  capacity_case false s o k = k

  -- Decompress() of some buffers that succeeds leaves nothing pending; nothing is said of one that
  -- fails.
  pub decompress-IsCleanIfOk :
      (fuel : ℕ) (d : Device) (queue_pair_id : ℕ) (b : Buffer) (bs : List Buffer)
      (destination : Option Buffer) (s : Run ℕ)
      → IsCleanIfOk (decompress ndebug rte dev c fuel d queue_pair_id (b ∷ bs) destination s)
  unfolding decompress decompress_into
  decompress-IsCleanIfOk fuel d queue_pair_id b bs none s = tt
  decompress-IsCleanIfOk fuel d queue_pair_id b bs (some destination) s =
      capacity_case (ltb destination.size (length (b ∷ bs) * c.decompressed_seg_size)) s _ (
        decompress_if_ready-IsCleanIfOk fuel (b ∷ bs) destination s
          (entry_guard d queue_pair_id s.queue_pair))
