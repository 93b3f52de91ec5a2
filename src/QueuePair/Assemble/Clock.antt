-- ===== src/QueuePair/Assemble/Clock.antt =====
-- The calls of DPDK that AssembleFrom() of src/memory.cc makes: their number does not decrease.
use bitar.Base.{
  ℕ, ◌*◌, ◌%◌, ◌^◌, ◌≤◌, leb, ◌||◌, Bool, true, false, if◌then◌else◌, List, length, Option, none,
  some, Result, ok, err, Action, continue, ◌>>=◌, arith,
}
use bitar.Rte.{Rte}
use bitar.Config.{Configuration}
use bitar.QueuePair.{
  QueuePair, now, keep_operations, keep_mbufs, allocate_operations, allocate_mbufs, bulk_allocate,
}
use bitar.QueuePair.Assemble.{
  Buffer, mbufs_to_ops, push_pending, source_bytes, source_buffers, destination_memzones,
  destination_bytes, assemble_bytes, assemble_buffers, assemble_from_decompressed,
  assemble_from_compressed,
}
use bitar.QueuePair.Assemble.Frame.{
  source_bytes-Keeps, source_buffers-Keeps, destination_memzones-Keeps, destination_bytes-Keeps,
}

abbrev pub Later : {A : Type 0} → Action QueuePair A → Type 0
Later m = (q : QueuePair) → now q ≤ now (m q).1

continue-Later :
    {A B : Type 0} (f : A → Action QueuePair B) (t : ℕ) (r : Result A × QueuePair)
    → t ≤ now r.1
    → ((a : A) → Later (f a))
    → t ≤ now (continue f r).1
continue-Later f t (ok a, q) h k = omega (arith, k a q)
continue-Later f t (err e, q) h k = h

>>=-Later :
    {A B : Type 0} (m : Action QueuePair A) (f : A → Action QueuePair B)
    → Later m
    → ((a : A) → Later (f a))
    → Later (m >>= f)
>>=-Later m f h k q = continue-Later f (now q) (m q) (h q) k

keep_operations-Later : (o : Option (List ℕ)) → Later (keep_operations o)
keep_operations-Later none q = omega arith
keep_operations-Later (some ps) q = omega arith

keep_mbufs-Later : (o : Option (List ℕ)) → Later (keep_mbufs o)
keep_mbufs-Later none q = omega arith
keep_mbufs-Later (some ms) q = omega arith

bulk_allocate-Later :
    (rte : Rte) (num_ops num_mbufs : ℕ) → Later (bulk_allocate rte num_ops num_mbufs)
unfolding bulk_allocate allocate_operations allocate_mbufs
bulk_allocate-Later rte num_ops num_mbufs =
    >>=-Later (allocate_operations rte num_ops) _ (λ q. keep_operations-Later _ q)
      (λ _ q. keep_mbufs-Later _ q)

push_pending-Later : (idx : ℕ) → Later (push_pending idx)
unfolding push_pending
push_pending-Later idx q = omega arith

if-Later :
    {A : Type 0} (b : Bool) (x y : Result A × QueuePair) (t : ℕ)
    → t ≤ now x.1
    → t ≤ now y.1
    → t ≤ now (if b then x else y).1
if-Later true x y t h k = h
if-Later false x y t h k = k

module _ (rte : Rte) (c : Configuration) where
  assemble_bytes-Later : (b : Buffer) (n offset : ℕ) → Later (assemble_bytes rte c b n offset)
  unfolding assemble_bytes
  assemble_bytes-Later b n offset q =
      let first : ℕ = q.num_ops_assembled in
      >>=-Later (bulk_allocate rte (mbufs_to_ops c n) (n * 2 % 2 ^ 32)) _
        (bulk_allocate-Later rte (mbufs_to_ops c n) (n * 2 % 2 ^ 32))
        (λ _. >>=-Later (push_pending first) _ (push_pending-Later first) (λ _.
          >>=-Later (source_bytes rte c b n n 0 first offset) _
            (λ q₁. (source_bytes-Keeps rte c b n n 0 first offset q₁).later)
            (λ offset'.
              >>=-Later (destination_memzones rte c n n 0 first) _
                (λ q₁. (destination_memzones-Keeps rte c n n 0 first q₁).later)
                (λ last q₁. omega arith))))
        q

  assemble_buffers-Later :
      (bs : List Buffer) (b : Buffer) (n index offset : ℕ)
      → Later (assemble_buffers rte c bs b n index offset)
  unfolding assemble_buffers
  assemble_buffers-Later bs b n index offset q =
      let first : ℕ = q.num_ops_assembled in
      >>=-Later (bulk_allocate rte (mbufs_to_ops c n) (n * 2 % 2 ^ 32)) _
        (bulk_allocate-Later rte (mbufs_to_ops c n) (n * 2 % 2 ^ 32))
        (λ _. >>=-Later (push_pending first) _ (push_pending-Later first) (λ _.
          >>=-Later (source_buffers rte c bs n n 0 first index) _
            (λ q₁. (source_buffers-Keeps rte c bs n n 0 first index q₁).later)
            (λ index'.
              >>=-Later (destination_bytes rte c b n n 0 first offset) _
                (λ q₁. (destination_bytes-Keeps rte c b n n 0 first offset q₁).later)
                (λ last q₁. omega arith))))
        q

  pub assemble_from_decompressed-Later :
      (b : Buffer) (offset : ℕ) → Later (assemble_from_decompressed rte c b offset)
  unfolding assemble_from_decompressed
  assemble_from_decompressed-Later b offset q =
      if-Later (leb b.size offset || leb c.burst_size q.num_ops_assembled) _ _ (now q) (omega arith)
        (assemble_bytes-Later b _ offset q)

  pub assemble_from_compressed-Later :
      (bs : List Buffer) (b : Buffer) (index offset : ℕ)
      → Later (assemble_from_compressed rte c bs b index offset)
  unfolding assemble_from_compressed
  assemble_from_compressed-Later bs b index offset q =
      if-Later (leb (length bs) index || leb c.burst_size q.num_ops_assembled) _ _ (now q)
        (omega arith) (assemble_buffers-Later bs b _ index offset q)
