-- ===== src/QueuePair/Assemble/Calls.antt =====
-- The two overloads of AssembleFrom, src/memory.cc: what a call that succeeds has assembled.
use mathlib.Core.Path.{subst}
use bitar.Base.{
  ℕ, ◌+◌, ◌-◌, ◌*◌, ◌%◌, ◌^◌, ◌≤◌, ◌<◌, min, leb, if◌then◌else◌, false, ◌||◌, List, length, ok,
  >>=-inv, ◌≡◌, sym, ap, ◌∙◌, arith,
}
use bitar.Rte.{Rte}
use bitar.Config.{Configuration}
use bitar.QueuePair.{QueuePair, bulk_allocate}
use bitar.QueuePair.Assemble.{
  Buffer, next_burst_bytes, bytes_to_mbufs, next_burst_buffers, mbufs_to_ops, push_pending,
  source_bytes, source_buffers, destination_memzones, destination_bytes, assemble_bytes,
  assemble_buffers, assemble_from_decompressed, assemble_from_compressed,
}
use bitar.QueuePair.Assemble.Burst.{
  IsSized, FitsBurst, next_burst_bytes-FitsBurst, next_burst_buffers-FitsBurst,
}
use bitar.QueuePair.Assemble.Frame.{
  source_bytes-Keeps, source_buffers-Keeps, destination_memzones-Keeps, destination_bytes-Keeps,
}
use bitar.QueuePair.Assemble.Source.{ok_inj, source_bytes-ok, source_buffers-ok}
use bitar.QueuePair.Assemble.Destination.{destination_memzones-ok, destination_bytes-ok}
use bitar.QueuePair.Assemble.Total.{
  Assembled, pushed, unpushed, Frame-of, close_burst, bulk_allocate-Allocated,
}

bytes_taken :
    (left room seg n : ℕ)
    → min left (room * seg) ≤ n * seg
    → n ≤ room
    → min (n * seg) left ≡ min left (room * seg)
bytes_taken left room seg n h le = grind arith

module _ (rte : Rte) (c : Configuration) where
  assemble_bytes-Assembled :
      (b : Buffer) (n offset : ℕ) (q q' : QueuePair) {last o : ℕ}
      → IsSized c
      → FitsBurst c q.num_ops_assembled n (mbufs_to_ops c n)
      → offset ≤ b.size
      → assemble_bytes rte c b n offset q ≡ (ok (last, o), q')
      → Assembled c q n last q' × (o ≡ offset + min (n * c.decompressed_seg_size) (b.size - offset))
  unfolding assemble_bytes push_pending
  assemble_bytes-Assembled b n offset q q' {last = last} {o = o} s fits le h =
      let first : ℕ = q.num_ops_assembled in
      let (u, q₁, e₁, h₁) = >>=-inv (bulk_allocate rte (mbufs_to_ops c n) (n * 2 % 2 ^ 32)) _ q h in
      let (offset', qs, e₂, h₂) =
        >>=-inv (source_bytes rte c b n n 0 first offset) _ (pushed first q₁) h₁ in
      let (last', qd, e₃, h₃) = >>=-inv (destination_memzones rte c n n 0 first) _ qs h₂ in
      let (moved, pending) = source_bytes-ok rte c b n n 0 first offset (pushed first q₁) le e₂ in
      let (ends, same) = destination_memzones-ok rte c n n 0 first qs e₃ in
      let burst : Assembled c q n last' (record qd { num_ops_assembled = last' }) =
        close_burst c q q₁ qs qd n last' s fits
          (bulk_allocate-Allocated rte (mbufs_to_ops c n) (n * 2 % 2 ^ 32) q q₁ e₁)
          (unpushed first q₁ qs (
            Frame-of (source_bytes rte c b n n 0 first offset) (pushed first q₁)
              (source_bytes-Keeps rte c b n n 0 first offset) e₂))
          pending
          (Frame-of (destination_memzones rte c n n 0 first) qs
            (destination_memzones-Keeps rte c n n 0 first) e₃)
          same ends in
      let values = ok_inj (ap (λ r. r.0) h₃) in
      (
        subst (λ l. Assembled c q n l q') (ap (λ v. v.0) values)
            (subst (Assembled c q n last') (ap (λ r. r.1) h₃) burst),
        sym (ap (λ v. v.1) values) ∙ moved,
      )

  -- The decompressing overload, likewise.
  assemble_buffers-Assembled :
      (bs : List Buffer) (b : Buffer) (n index offset : ℕ) (q q' : QueuePair) {last i o : ℕ}
      → IsSized c
      → FitsBurst c q.num_ops_assembled n (mbufs_to_ops c n)
      → assemble_buffers rte c bs b n index offset q ≡ (ok (last, (i, o)), q')
      → Assembled c q n last q' × (i ≡ index + n) × (o ≡ offset + n * c.decompressed_seg_size)
  unfolding assemble_buffers push_pending
  assemble_buffers-Assembled bs b n index offset q q' {last = last} s fits h =
      let first : ℕ = q.num_ops_assembled in
      let (u, q₁, e₁, h₁) = >>=-inv (bulk_allocate rte (mbufs_to_ops c n) (n * 2 % 2 ^ 32)) _ q h in
      let (index', qs, e₂, h₂) =
        >>=-inv (source_buffers rte c bs n n 0 first index) _ (pushed first q₁) h₁ in
      let (ends_at, qd, e₃, h₃) = >>=-inv (destination_bytes rte c b n n 0 first offset) _ qs h₂ in
      let (last', offset') = ends_at in
      let (moved, pending) = source_buffers-ok rte c bs n n 0 first index (pushed first q₁) e₂ in
      let (ends, filled, same) = destination_bytes-ok rte c b n n 0 first offset qs e₃ in
      let burst : Assembled c q n last' (record qd { num_ops_assembled = last' }) =
        close_burst c q q₁ qs qd n last' s fits
          (bulk_allocate-Allocated rte (mbufs_to_ops c n) (n * 2 % 2 ^ 32) q q₁ e₁)
          (unpushed first q₁ qs (
            Frame-of (source_buffers rte c bs n n 0 first index) (pushed first q₁)
              (source_buffers-Keeps rte c bs n n 0 first index) e₂))
          pending
          (Frame-of (destination_bytes rte c b n n 0 first offset) qs
            (destination_bytes-Keeps rte c b n n 0 first offset) e₃)
          same ends in
      let values = ok_inj (ap (λ r. r.0) h₃) in
      (
        subst (λ l. Assembled c q n l q') (ap (λ v. v.0) values)
            (subst (Assembled c q n last') (ap (λ r. r.1) h₃) burst),
        sym (ap (λ v. v.1.0) values) ∙ moved,
        sym (ap (λ v. v.1.1) values) ∙ filled,
      )

  -- AssembleFrom() for a compression, with data left and room for an operation: if it succeeds, it
  -- takes as many bytes as are left or as fit into the burst, has added the operations that they need,
  -- at most up to the burst size, behind those that were assembled, and made exactly these pending.
  pub assemble_from_decompressed-Assembled :
      (b : Buffer) (offset : ℕ) (q q' : QueuePair) {last o : ℕ}
      → IsSized c
      → q.num_ops_assembled < c.burst_size
      → offset < b.size
      → assemble_from_decompressed rte c b offset q ≡ (ok (last, o), q')
      → let bytes = next_burst_bytes c q.num_ops_assembled (b.size - offset) in
        Assembled c q (bytes_to_mbufs c bytes) last q' × (o ≡ offset + bytes) × (0 < bytes)
  unfolding assemble_from_decompressed next_burst_bytes
  assemble_from_decompressed-Assembled b offset q q' {last = last} {o = o} s room left h =
      let k : ℕ = q.num_ops_assembled in
      let bytes : ℕ = next_burst_bytes c k (b.size - offset) in
      let n : ℕ = bytes_to_mbufs c bytes in
      let (fits, some_bytes, within, covered, tight) =
        next_burst_bytes-FitsBurst c k (b.size - offset) s room (omega arith) in
      let goes_on : (leb b.size offset || leb c.burst_size k) ≡ false = ground arith in
      let (burst, moved) = assemble_bytes-Assembled b n offset q q' s fits (omega arith) (
        subst
          (λ t.
            (if t then (ok (k, offset), q) else assemble_bytes rte c b n offset q)
            ≡ (ok (last, o), q'))
          goes_on h) in
      (
        burst,
        moved
            ∙ ap (λ x. offset + x)
                (bytes_taken (b.size - offset) ((c.burst_size - k) * c.max_sgl_segs)
                  c.decompressed_seg_size n covered fits.within),
        some_bytes,
      )

  -- AssembleFrom() for a decompression, with buffers left and room for an operation: if it succeeds, it
  -- takes as many buffers as are left or as fit into the burst, gives each of them a segment of the
  -- destination, has added the operations that they need, at most up to the burst size, and made
  -- exactly these pending.
  pub assemble_from_compressed-Assembled :
      (bs : List Buffer) (b : Buffer) (index offset : ℕ) (q q' : QueuePair) {last i o : ℕ}
      → IsSized c
      → q.num_ops_assembled < c.burst_size
      → index < length bs
      → assemble_from_compressed rte c bs b index offset q ≡ (ok (last, (i, o)), q')
      → let n = next_burst_buffers c q.num_ops_assembled (length bs - index) in
        Assembled c q n last q'
        × (i ≡ index + n)
        × (o ≡ offset + n * c.decompressed_seg_size)
        × (n ≡ min ((c.burst_size - q.num_ops_assembled) * c.max_sgl_segs) (length bs - index))
  unfolding assemble_from_compressed
  assemble_from_compressed-Assembled bs b index offset q q' {last = last} {i = i} {o = o} s room
        left h =
      let k : ℕ = q.num_ops_assembled in
      let n : ℕ = next_burst_buffers c k (length bs - index) in
      let (fits, within, exact) =
        next_burst_buffers-FitsBurst c k (length bs - index) s room (omega arith) in
      let goes_on : (leb (length bs) index || leb c.burst_size k) ≡ false = ground arith in
      let (burst, taken, filled) = assemble_buffers-Assembled bs b n index offset q q' s fits (
        subst
          (λ t.
            (if t
              then (ok (k, (index, offset)), q)
              else assemble_buffers rte c bs b n index offset q)
            ≡ (ok (last, (i, o)), q'))
          goes_on h) in
      (burst, taken, filled, exact)
