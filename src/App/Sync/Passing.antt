-- ===== src/App/Sync/Passing.antt =====
-- What EvaluateSync() of apps/demo_app.cc has gone through where it is OK, and how it leaves its queue pair.
use bitar.Base.{
  ℕ, zero, suc, ◌+◌, ◌*◌, ◌==◌, ==_iff, if◌then◌else◌, Bool, true, false, List, [], ◌∷◌, Option,
  none, some, length, invalid, Status, Result, ok, err, Bool-cases, inl, inr, ◌≡◌, refl, sym, ap,
  ◌∙◌, arith,
}
use mathlib.Core.Option
use mathlib.Core.Path.{subst}
use bitar.Config.{Configuration}
use bitar.Rte.{Rte, Compressdev}
use bitar.QueuePair.{has_pending_operations}
use bitar.QueuePair.Assemble.{Buffer}
use bitar.Device.Setup.{Device}
use bitar.Device.Bursts.{Run}
use bitar.Device.Compression.{decompress, recycle}
use bitar.Device.Compression.Errors.{IsClean, IsCleanIfOk, compress-IsClean, decompress-IsCleanIfOk}
use bitar.App.Async.{num_tests}
use bitar.App.Async.Recycling.{occupied, occupied-recycle}
use bitar.App.Evaluate.{decompressed_seg_size}
use bitar.App.Sync.{
  collecting, recycle_unchecked, recycle_checked, Compressed, next_round, keep_last, compress_tests,
  resized, next_size, decompress_tests, compared, if_recycled, after_decompression,
  into_destination, after_compression, evaluate_sync,
}

module _ (ndebug : Bool) (rte : Rte) (dev : Compressdev) (c : Configuration) (fuel : ℕ) (d : Device)
    (b : Buffer) where
  IsClean-recycled :
      (n : ℕ) (k : Run (List Buffer) → Compressed) (bs : List Buffer) (s : Run (List Buffer))
      (t : Bool)
      → ((s' : Run (List Buffer)) → has_pending_operations s'.queue_pair ≡ false → IsClean (k s'))
      → has_pending_operations s.queue_pair ≡ false
      → IsClean (
          next_round ndebug rte dev c fuel d b k
            (if t then some (recycle_unchecked bs s) else none))
  IsClean-recycled n k bs s true f h = f (recycle_unchecked bs s) h
  IsClean-recycled n k bs s false f h = tt

  keep_last-IsClean :
      (n : ℕ) (k : Run (List Buffer) → Compressed) (o : Compressed)
      → ((s' : Run (List Buffer)) → has_pending_operations s'.queue_pair ≡ false → IsClean (k s'))
      → IsClean o
      → IsClean (keep_last ndebug rte dev c fuel d b n k o)
  keep_last-IsClean n k none f h = tt
  keep_last-IsClean n k (some (err e, s)) f h = h
  keep_last-IsClean zero k (some (ok bs, s)) f h = h
  keep_last-IsClean (suc n) k (some (ok bs, s)) f h = IsClean-recycled n k bs s _ f h

  compress_tests-IsClean :
      (n : ℕ) (s : Run (List Buffer))
      → has_pending_operations s.queue_pair ≡ false
      → IsClean (compress_tests ndebug rte dev c fuel d b n s)
  unfolding compress_tests
  compress_tests-IsClean zero s h = h
  compress_tests-IsClean (suc n) s h =
      keep_last-IsClean n _ _ (λ s' h'. compress_tests-IsClean n s' h')
        (compress-IsClean ndebug rte dev c fuel d 0 (some b) s h)

  next_size-IsCleanIfOk :
      (size : ℕ) (k : ℕ → Run ℕ → Option (Result ℕ × Run ℕ))
      (o : Option (Result (Option ℕ) × Run ℕ))
      → ((size' : ℕ) (s' : Run ℕ)
          → has_pending_operations s'.queue_pair ≡ false
          → IsCleanIfOk (k size' s'))
      → IsCleanIfOk o
      → IsCleanIfOk (next_size ndebug rte dev c fuel d b size k o)
  next_size-IsCleanIfOk size k none f h = tt
  next_size-IsCleanIfOk size k (some (err e, s)) f h = tt
  next_size-IsCleanIfOk size k (some (ok n, s)) f h =
      f (resized ndebug rte dev c fuel d b size n) s h

  one_decompression :
      (bs : List Buffer) (destination : Buffer) (s : Run ℕ)
      → has_pending_operations s.queue_pair ≡ false
      → IsCleanIfOk (decompress ndebug rte dev c fuel d 0 bs (some destination) s)
  unfolding decompress
  one_decompression [] destination s h = h
  one_decompression (x ∷ bs) destination s h =
      decompress-IsCleanIfOk ndebug rte dev c fuel d 0 x bs (some destination) s

  decompress_tests-IsCleanIfOk :
      (n : ℕ) (bs : List Buffer) (destination : Buffer) (size : ℕ) (s : Run ℕ)
      → has_pending_operations s.queue_pair ≡ false
      → IsCleanIfOk (decompress_tests ndebug rte dev c fuel d b n bs destination size s)
  unfolding decompress_tests
  decompress_tests-IsCleanIfOk zero bs destination size s h = h
  decompress_tests-IsCleanIfOk (suc n) bs destination size s h =
      next_size-IsCleanIfOk size _ _
        (λ size' s' h'. decompress_tests-IsCleanIfOk n bs destination size' s' h')
        (one_decompression bs destination s h)

  -- What a test that is OK has gone through, and how it ends.
  pub record Passed (allocate : ℕ → Option Buffer) (equal : Bool) (s : Run (List Buffer))
      (s' : Run ℕ) : Type 0 where
    pub buffers : List Buffer
    pub compressed_run : Run (List Buffer)
    pub destination : Buffer
    pub decompressed_run : Run ℕ
    pub compressed :
        compress_tests ndebug rte dev c fuel d b num_tests s ≡ some (ok buffers, compressed_run)
    pub allocated : allocate (length buffers * decompressed_seg_size) ≡ some destination
    pub decompressed :
        decompress_tests ndebug rte dev c fuel d b num_tests buffers destination destination.size
          (collecting 0 compressed_run)
        ≡ some (ok b.size, decompressed_run)
    pub same : equal ≡ true
    pub recycled :
        length buffers + occupied s'.queue_pair.device_memory
        ≡ occupied decompressed_run.queue_pair.device_memory
    pub idle : has_pending_operations s'.queue_pair ≡ false

  recycled_all :
      (bs : List Buffer) (s s' : Run ℕ)
      → recycle_checked bs s ≡ some s'
      → (s' ≡ recycle_unchecked bs s)
        × (length bs + occupied s'.queue_pair.device_memory ≡ occupied s.queue_pair.device_memory)
  recycled_all bs s s' h =
      elim (Bool-cases ((recycle bs s.queue_pair.device_memory).0 == length bs)) [
        | inl e ↦
            let same : recycle_unchecked bs s ≡ s' = Option.some-injective _ _ (rw e at h) in
            (
              sym same,
              subst
                  (λ x.
                    length bs + occupied x.queue_pair.device_memory
                    ≡ occupied s.queue_pair.device_memory)
                  same
                  (subst
                    (λ k.
                      k + occupied (recycle bs s.queue_pair.device_memory).1
                      ≡ occupied s.queue_pair.device_memory)
                    ((==_iff _ _).0 e) (occupied-recycle bs s.queue_pair.device_memory)),
            )
        | inr e ↦ absurd (Option.none-ne-some s' (rw e at h))
      ]

  equal_if_ok : (t : Bool) → ◌≡◌ {A = Status} (if t then ok tt else err invalid) (ok tt) → t ≡ true
  equal_if_ok true h = refl
  equal_if_ok false h = absurd (grind arith)

  compared-ok :
      (equal : Bool) (size : ℕ)
      → compared ndebug rte dev c fuel d b equal size ≡ ok tt
      → (size ≡ b.size) × (equal ≡ true)
  compared-ok equal size h = elim (Bool-cases (size == b.size)) [
    | inl e ↦ ((==_iff _ _).0 e, equal_if_ok equal (rw e at h))
    | inr e ↦ absurd (grind arith)
  ]

  if_recycled-inv :
      (equal : Bool) (size : ℕ) (o : Option (Run ℕ)) (s' : Run ℕ)
      → if_recycled ndebug rte dev c fuel d b equal size o ≡ some (ok tt, s')
      → (o ≡ some s') × (compared ndebug rte dev c fuel d b equal size ≡ ok tt)
  if_recycled-inv equal size none s' h = absurd (Option.none-ne-some _ h)
  if_recycled-inv equal size (some s) s' h =
      let p : (compared ndebug rte dev c fuel d b equal size, s) ≡ (ok tt, s') =
        Option.some-injective _ _ h in
      (ap (λ x. some x.1) p, ap (λ x. x.0) p)

  idle_of :
      {A B : Type 0} (o : Option (Result A × Run B)) (a : A) (s : Run B)
      → o ≡ some (ok a, s)
      → IsCleanIfOk o
      → has_pending_operations s.queue_pair ≡ false
  idle_of o a s e h = subst IsCleanIfOk e h

  module _ (allocate : ℕ → Option Buffer) (equal : Bool) (s : Run (List Buffer)) (s' : Run ℕ)
      (idle : has_pending_operations s.queue_pair ≡ false) where
    finished :
        (bs : List Buffer) (s₁ : Run (List Buffer)) (destination : Buffer)
        (o : Option (Result ℕ × Run ℕ))
        → compress_tests ndebug rte dev c fuel d b num_tests s ≡ some (ok bs, s₁)
        → allocate (length bs * decompressed_seg_size) ≡ some destination
        → decompress_tests ndebug rte dev c fuel d b num_tests bs destination destination.size
            (collecting 0 s₁)
          ≡ o
        → after_decompression ndebug rte dev c fuel d b equal bs o ≡ some (ok tt, s')
        → Passed allocate equal s s'
    finished bs s₁ destination none e a e' h = absurd (Option.none-ne-some _ h)
    finished bs s₁ destination (some (err x, s₂)) e a e' h = absurd (grind arith)
    finished bs s₁ destination (some (ok size, s₂)) e a e' h =
        let (all, matched) = if_recycled-inv equal size (recycle_checked bs s₂) s' h in
        let (whole, same) = compared-ok equal size matched in
        let (end, count) = recycled_all bs s₂ s' all in
        let still : has_pending_operations s₁.queue_pair ≡ false =
          subst IsClean e (compress_tests-IsClean num_tests s idle) in
        let quiet : has_pending_operations s₂.queue_pair ≡ false = idle_of _ size s₂ e' (
          decompress_tests-IsCleanIfOk num_tests bs destination destination.size (collecting 0 s₁)
            still) in
        record {
          buffers = bs;
          compressed_run = s₁;
          destination = destination;
          decompressed_run = s₂;
          compressed = e;
          allocated = a;
          decompressed = e' ∙ ap (λ k. some (ok k, s₂)) whole;
          same = same;
          recycled = count;
          idle = subst (λ x. has_pending_operations x.queue_pair ≡ false) (sym end) quiet;
        }

    into_destination-Passed :
        (bs : List Buffer) (s₁ : Run (List Buffer)) (o : Option Buffer)
        → compress_tests ndebug rte dev c fuel d b num_tests s ≡ some (ok bs, s₁)
        → allocate (length bs * decompressed_seg_size) ≡ o
        → into_destination ndebug rte dev c fuel d b equal bs (collecting 0 s₁) o ≡ some (ok tt, s')
        → Passed allocate equal s s'
    into_destination-Passed bs s₁ none e a h = absurd (grind arith)
    into_destination-Passed bs s₁ (some destination) e a h = finished bs s₁ destination _ e a refl h

    after_compression-Passed :
        (o : Compressed)
        → compress_tests ndebug rte dev c fuel d b num_tests s ≡ o
        → after_compression ndebug rte dev c fuel d b allocate equal o ≡ some (ok tt, s')
        → Passed allocate equal s s'
    after_compression-Passed none e h = absurd (Option.none-ne-some _ h)
    after_compression-Passed (some (err x, s₁)) e h = absurd (grind arith)
    after_compression-Passed (some (ok bs, s₁)) e h = into_destination-Passed bs s₁ _ e refl h

    -- EvaluateSync() on an idle queue pair is OK only where the rounds of compression and decompression
    -- were, the destination has got the size of the input and compares equal to it; the buffers of the
    -- last round have then all left the occupied memzones, and the queue pair is idle again.
    pub evaluate_sync-Passed :
        evaluate_sync ndebug rte dev c fuel d b allocate equal s ≡ some (ok tt, s')
        → Passed allocate equal s s'
    unfolding evaluate_sync
    evaluate_sync-Passed h = after_compression-Passed _ refl h
