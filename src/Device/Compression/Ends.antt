-- ===== src/Device/Compression/Ends.antt =====
-- The loops of Compress() and Decompress(), src/device.cc: enough fuel for them.
use bitar.Base.{
  ℕ, ◌+◌, ◌-◌, ◌*◌, ◌≤◌, ◌<◌, ltb, ◌==◌, if◌then◌else◌, Bool, true, false, List, [], ◌∷◌, Option,
  none, some, length, Status, Result, ok, err, ◌≡◌, refl, arith,
}
use mathlib.Core.Option
use mathlib.Core.Path.{subst}
use bitar.Config.{Configuration}
use bitar.Rte.{Rte, Compressdev}
use bitar.QueuePair.{QueuePair, has_pending_operations}
use bitar.QueuePair.Assemble.{Buffer, assemble_from_decompressed, assemble_from_compressed}
use bitar.QueuePair.Assemble.Burst.{IsSized}
use bitar.Device.Setup.{Device, entry_guard}
use bitar.Device.Bursts.{Run}
use bitar.Device.Bursts.Drain.{Responds, Ends}
use bitar.Device.Bursts.Rounds.{run_bursts-Ends}
use bitar.Device.Compression.Errors.{IsClean, IsCleanIfOk, compress-IsClean, decompress-IsCleanIfOk}
use bitar.Device.Compression.{
  compress_callback, decompress_callback, finish_compress, run_compress, compress_if_ready,
  compress, finish_decompress, run_decompress, decompress_if_ready, decompress_into, with_size,
  decompress,
}
use bitar.Device.Compression.Consumption.{
  assemble_from_decompressed-Consumes, assemble_from_compressed-Consumes,
}

idle_length : (q : QueuePair) → has_pending_operations q ≡ false → length q.pending_operations ≡ 0
idle_length q h = empty q.pending_operations h
  where
    empty : (ps : List ℕ) → (elim ps [ [] ↦ false | p ∷ ps ↦ true ]) ≡ false → length ps ≡ 0
    empty [] k = refl
    empty (p ∷ ps) k = absurd (grind arith)

-- A call that returns.
abbrev pub Returns : {A : Type 0} → Option A → Type 0
Returns {A = A} o = (a : A) × (o ≡ some a)

module _ (ndebug : Bool) (rte : Rte) (dev : Compressdev) (c : Configuration) (sized : IsSized c)
    {budget : ℕ} (responds : Responds dev c budget) where
  finish_compress-Returns :
      (o : Option (Status × Run (List Buffer)))
      → Ends o
      → Returns (finish_compress ndebug rte dev c o)
  finish_compress-Returns none h = absurd (Option.none-ne-some _ h.ends)
  finish_compress-Returns (some (ok u, s)) h = (_, refl)
  finish_compress-Returns (some (err e, s)) h = (_, refl)

  finish_decompress-Returns :
      (o : Option (Status × Run ℕ)) → Ends o → Returns (finish_decompress ndebug rte dev c o)
  finish_decompress-Returns none h = absurd (Option.none-ne-some _ h.ends)
  finish_decompress-Returns (some (ok u, s)) h = (_, refl)
  finish_decompress-Returns (some (err e, s)) h = (_, refl)

  compress_if_ready-Returns :
      (fuel : ℕ) (b : Buffer) (s : Run (List Buffer)) (r : Status)
      → s.queue_pair.num_ops_assembled ≤ c.burst_size
      → s.queue_pair.num_ops_assembled
          + 2 * b.size
          + length s.queue_pair.pending_operations
          + budget
        < fuel
      → Returns (compress_if_ready ndebug rte dev c fuel b s r)
  unfolding run_compress
  compress_if_ready-Returns fuel b s (ok u) le h = finish_compress-Returns _ (
      run_bursts-Ends (assemble_from_decompressed rte c b) (λ offset. b.size - offset) ndebug dev c
        compress_callback (assemble_from_decompressed-Consumes c sized rte b) sized.burst responds
        fuel 0 (record s { output = [] }) le (omega arith))
  compress_if_ready-Returns fuel b s (err e) le h = (_, refl)

  Returns-if :
      {A : Type 0} (t : Bool) (a : A) (o : Option A) → Returns o → Returns (if t then some a else o)
  Returns-if true a o h = (a, refl)
  Returns-if false a o h = h

  -- Compress() on an idle queue pair returns, with a result or with an error, and leaves the queue pair
  -- idle, for a device that takes no more operations than it is offered, and whose calls take or hand
  -- out operations but for at most `budget` of them, wherever these are. As fuel suffices one more than
  -- twice the bytes of the input, the operations that were assembled before, and `budget`.
  pub compress-Returns :
      (fuel : ℕ) (d : Device) (queue_pair_id : ℕ) (b : Buffer) (s : Run (List Buffer))
      → has_pending_operations s.queue_pair ≡ false
      → s.queue_pair.num_ops_assembled ≤ c.burst_size
      → s.queue_pair.num_ops_assembled + 2 * b.size + budget < fuel
      → (r : Result (List Buffer)) × (s' : Run (List Buffer)) × (compress ndebug rte dev c fuel d
            queue_pair_id
            (some b)
            s
          ≡ some (r, s'))
        × (has_pending_operations s'.queue_pair ≡ false)
  unfolding compress
  compress-Returns fuel d queue_pair_id b s idle le h =
      let none_pending = idle_length s.queue_pair idle in
      let ((r, s'), e) = Returns-if (b.size == 0) _ _ (
        compress_if_ready-Returns fuel b s (entry_guard d queue_pair_id s.queue_pair) le
          (omega arith)) in
      (
        r,
        s',
        e,
        subst IsClean e (compress-IsClean ndebug rte dev c fuel d queue_pair_id (some b) s idle),
      )

  decompress_if_ready-Returns :
      (fuel : ℕ) (bs : List Buffer) (b : Buffer) (s : Run ℕ) (r : Status)
      → s.queue_pair.num_ops_assembled ≤ c.burst_size
      → s.queue_pair.num_ops_assembled
          + 2 * length bs
          + length s.queue_pair.pending_operations
          + budget
        < fuel
      → Returns (decompress_if_ready ndebug rte dev c fuel bs b s r)
  unfolding run_decompress
  decompress_if_ready-Returns fuel bs b s (ok u) le h = finish_decompress-Returns _ (
      run_bursts-Ends {P = ℕ × ℕ}
        (λ position. assemble_from_compressed rte c bs b position.0 position.1)
        (λ position. length bs - position.0) ndebug dev c decompress_callback
        (assemble_from_compressed-Consumes c sized rte bs b) sized.burst responds fuel (0, 0)
        (record s { output = 0 }) le (omega arith))
  decompress_if_ready-Returns fuel bs b s (err e) le h = (_, refl)

  with_size-Returns :
      (o : Option (Result ℕ × Run ℕ)) → Returns o → Returns (with_size ndebug rte dev c o)
  with_size-Returns none h = absurd (Option.none-ne-some _ h.1)
  with_size-Returns (some (ok n, s)) h = (_, refl)
  with_size-Returns (some (err e, s)) h = (_, refl)

  into-Returns :
      (fuel : ℕ) (d : Device) (queue_pair_id : ℕ) (bs : List Buffer) (destination : Option Buffer)
      (s : Run ℕ)
      → s.queue_pair.num_ops_assembled ≤ c.burst_size
      → s.queue_pair.num_ops_assembled
          + 2 * length bs
          + length s.queue_pair.pending_operations
          + budget
        < fuel
      → Returns (decompress_into ndebug rte dev c fuel d queue_pair_id bs destination s)
  unfolding decompress_into
  into-Returns fuel d queue_pair_id bs none s le h = (_, refl)
  into-Returns fuel d queue_pair_id bs (some b) s le h =
      Returns-if (ltb b.size (length bs * c.decompressed_seg_size)) _ _
        (decompress_if_ready-Returns fuel bs b s (entry_guard d queue_pair_id s.queue_pair) le h)

  -- Decompress() of some buffers on an idle queue pair returns, for such a device, within one round more
  -- than twice the buffers, the operations that were assembled before, and `budget`; and it leaves the
  -- queue pair idle if it is OK.
  pub decompress-Returns :
      (fuel : ℕ) (d : Device) (queue_pair_id : ℕ) (b : Buffer) (bs : List Buffer)
      (destination : Option Buffer) (s : Run ℕ)
      → has_pending_operations s.queue_pair ≡ false
      → s.queue_pair.num_ops_assembled ≤ c.burst_size
      → s.queue_pair.num_ops_assembled + 2 * length (b ∷ bs) + budget < fuel
      → (r : Result (Option ℕ)) × (s' : Run ℕ) × (decompress ndebug rte dev c fuel d queue_pair_id
            (b ∷ bs)
            destination
            s
          ≡ some (r, s'))
        × IsCleanIfOk (some (r, s'))
  unfolding decompress
  decompress-Returns fuel d queue_pair_id b bs destination s idle le h =
      let none_pending = idle_length s.queue_pair idle in
      let ((r, s'), e) =
        with_size-Returns _
          (into-Returns fuel d queue_pair_id (b ∷ bs) destination s le (omega arith)) in
      (
        r,
        s',
        e,
        subst IsCleanIfOk e
            (decompress-IsCleanIfOk ndebug rte dev c fuel d queue_pair_id b bs destination s),
      )
