-- ===== src/Device/Bursts.antt =====
-- The bursts of Compress() and Decompress() of src/device.cc, on one queue pair. A run carries what is
-- shared by the calls of one burst: the queue pair, the counter in GetErrorCount, and the result so
-- far, to which the callback adds.
pub mod Pending
pub mod Drain
pub mod Calls
pub mod Rounds
use bitar.Base.{
  ℕ, zero, suc, ◌+◌, ◌-◌, ◌*◌, ◌/◌, ◌%◌, ◌^◌, min, ltb, leb, ◌==◌, if◌then◌else◌, Bool, true, false,
  not, List, [], ◌∷◌, ◌++◌, Option, none, some, length, StatusCode, io_error, Action, Status,
  Result, ok, err, ◌>>=◌, ◌>>◌,
}
use bitar.Config.{Configuration}
use bitar.Rte.{Rte, Compressdev, Dequeued, OpStatus, success, out_of_space, failed, Stats}
use bitar.QueuePair.{
  QueuePair, Mbuf, Operation, now, next_call, has_pending_operations, accumulate_unused,
  recycle_resources,
}

pub record Run (B : Type 0) : Type 0 where
  pub queue_pair : QueuePair
  pub num_maybe_not_ok : ℕ
  pub output : B

-- kNumIgnoredMaybeNotOKBurst.
abbrev pub num_ignored_maybe_not_ok_burst : ℕ
num_ignored_maybe_not_ok_burst = 10

-- The pointers in the array from an index on.
abbrev pub slots : (ℕ → ℕ) → ℕ → ℕ → List ℕ
slots f i zero = []
slots f i (suc n) = f i ∷ slots f (i + 1) n

abbrev pub is_success : OpStatus → Bool
is_success success = true
is_success _ = false

-- What follows a call in a loop that may not end: the status of a failure is returned.
abbrev pub and_loop :
    {S A : Type 0} → (A → S → Option (Status × S)) → Result A × S → Option (Status × S)
and_loop f (ok a, s) = f a s
and_loop f (err e, s) = some (err e, s)

module _ {B : Type 0} where
  -- A call on the queue pair of a run, and a call of DPDK that changes no state of it.
  abbrev pub put_back_run : {A : Type 0} → Run B → Result A × QueuePair → Result A × Run B
  put_back_run s (r, q) = (r, record s { queue_pair = q })

  abbrev pub on_queue_pair : {A : Type 0} → Action QueuePair A → Action (Run B) A
  on_queue_pair m s = put_back_run s (m s.queue_pair)

  abbrev pub after_call : Run B → Run B
  after_call s = record s { queue_pair = next_call s.queue_pair }

  -- GetErrorCount of the anonymous namespace. The counter is a std::uint32_t.
  unfoldable pub get_error_count : Compressdev → ℕ → Run B → ℕ × Run B
  get_error_count dev num_bursted_ops s =
      let n : ℕ = (s.num_maybe_not_ok + 1) % 2 ^ 32 in
      let stats : Stats = dev.stats (now s.queue_pair) in
      let counted : Run B = record s { num_maybe_not_ok = n } in
      if ltb 0 num_bursted_ops
      then (0, record s { num_maybe_not_ok = 0 })
      else if not (n % num_ignored_maybe_not_ok_burst == 0)
      then (0, counted)
      else if ltb 0 stats.enqueue_err_count
      then (stats.enqueue_err_count, after_call counted)
      else if ltb 0 stats.dequeue_err_count
      then (stats.dequeue_err_count, after_call counted)
      else (0, after_call (record s { num_maybe_not_ok = 0 }))

  -- EnqueueBurst(): what is left is accumulated, unless there are errors.
  abbrev pub accumulate_if_fine : ℕ → ℕ × Run B → Status × Run B
  accumulate_if_fine unused (zero, s) = on_queue_pair (accumulate_unused unused) s
  accumulate_if_fine unused (suc errors, s) = (err io_error, s)

  unfoldable pub enqueue_burst : Compressdev → ℕ → Action (Run B) (Unit {0})
  enqueue_burst dev num_ops_assembled s =
      let q : QueuePair = s.queue_pair in
      let num_enqueued : ℕ = dev.enqueue_burst (now q) (slots q.operations 0 num_ops_assembled) in
      accumulate_if_fine ((num_ops_assembled + 2 ^ 16 - num_enqueued) % 2 ^ 16)
        (get_error_count dev num_enqueued (after_call s))

  -- DequeueBurst(): the loop over the operations that were dequeued. The callback reads the
  -- operation before it is freed.
  abbrev pub add_output : (Operation → ℕ → B → B) → Dequeued → Action (Run B) (Unit {0})
  add_output callback d s =
      (ok tt, record s { output = callback (s.queue_pair.operation_at d.op) d.produced s.output })

  unfoldable pub dequeue_one : Bool → (Operation → ℕ → B → B) → Dequeued → Action (Run B) (Unit {0})
  dequeue_one ndebug callback d s =
      if is_success d.status
      then (add_output callback d >> on_queue_pair (recycle_resources ndebug d.op)) s
      else (err io_error, s)

  unfoldable pub dequeue_each :
      Bool → (Operation → ℕ → B → B) → List Dequeued → Action (Run B) (Unit {0})
  dequeue_each ndebug callback [] s = (ok tt, s)
  dequeue_each ndebug callback (d ∷ ds) s =
      (do dequeue_one ndebug callback d; dequeue_each ndebug callback ds) s

  abbrev pub dequeue_if_fine :
      Bool → (Operation → ℕ → B → B) → List Dequeued → ℕ × Run B → Status × Run B
  dequeue_if_fine ndebug callback ds (zero, s) = dequeue_each ndebug callback ds s
  dequeue_if_fine ndebug callback ds (suc errors, s) = (err io_error, s)

  unfoldable pub dequeue_burst :
      Bool → Compressdev → Configuration → (Operation → ℕ → B → B) → Action (Run B) (Unit {0})
  dequeue_burst ndebug dev c callback s =
      let ds : List Dequeued = dev.dequeue_burst (now s.queue_pair) c.burst_size in
      dequeue_if_fine ndebug callback ds (get_error_count dev (length ds) (after_call s))

  -- The second loop of both functions: `while (memory->has_pending_operations())`. `none` when the
  -- fuel runs out.
  unfoldable pub drain :
      Bool
      → Compressdev
      → Configuration
      → (Operation → ℕ → B → B)
      → ℕ
      → Run B
      → Option (Status × Run B)
  drain ndebug dev c callback zero s =
      if has_pending_operations s.queue_pair then none else some (ok tt, s)
  drain ndebug dev c callback (suc fuel) s =
      if has_pending_operations s.queue_pair
      then and_loop {A = Unit {0}} (λ _ s'. drain ndebug dev c callback fuel s')
          (dequeue_burst ndebug dev c callback s)
      else some (ok tt, s)

  -- The first loop, while operations are assembled; `P` holds the positions that AssembleFrom() writes
  -- back. Once none is assembled, the second loop follows.
  module _ {P : Type 0} (assemble : P → Action QueuePair (ℕ × P)) where
    abbrev pub one_burst :
        Bool
        → Compressdev
        → Configuration
        → (Operation → ℕ → B → B)
        → ℕ
        → P
        → Action (Run B) (ℕ × P)
    one_burst ndebug dev c callback n position = do
      enqueue_burst dev (n % 2 ^ 16)
      dequeue_burst ndebug dev c callback
      on_queue_pair (assemble position)

    unfoldable pub bursts :
        Bool
        → Compressdev
        → Configuration
        → (Operation → ℕ → B → B)
        → ℕ
        → ℕ
        → P
        → Run B
        → Option (Status × Run B)
    bursts ndebug dev c callback zero n position s = none
    bursts ndebug dev c callback (suc fuel) n position s =
        if n == 0
        then drain ndebug dev c callback (suc fuel) s
        else and_loop {A = ℕ × P} (λ a s'. bursts ndebug dev c callback fuel a.0 a.1 s')
            (one_burst ndebug dev c callback n position s)

    -- The first AssembleFrom() and the two loops.
    unfoldable pub run_bursts :
        Bool
        → Compressdev
        → Configuration
        → (Operation → ℕ → B → B)
        → ℕ
        → P
        → Run B
        → Option (Status × Run B)
    run_bursts ndebug dev c callback fuel position s =
        and_loop {A = ℕ × P} (λ a s'. bursts ndebug dev c callback fuel a.0 a.1 s')
          (on_queue_pair (assemble position) s)
