-- ===== src/QueuePair/Assemble/Destination.antt =====
-- The destination mbufs that AssembleFrom of src/memory.cc constructs: how many operations they
-- complete. No operation becomes pending by them.
use bitar.Base.{
  ℕ, zero, suc, ◌+◌, ◌*◌, ◌%◌, ◌^◌, get_or, if◌then◌else◌, Bool, true, false, none, some, Action,
  ok, ◌>>=◌, >>=-inv, ◌≡◌, sym, ap, ◌∙◌, arith,
}
use bitar.Rte.{Rte, MemzonePtr}
use bitar.Config.{Configuration}
use bitar.DeviceMemory.{DeviceMemory}
use bitar.DeviceMemory
use bitar.QueuePair.{
  QueuePair, SharedInfo, decompressed_mbuf, compressed_mbuf, Xform, compress_xform,
  decompress_xform,
}
use bitar.QueuePair.Assemble.{
  Buffer, completes, append_destination, complete, complete_if, memzone_or_stop, take_memzone,
  destination_memzones, destination_bytes,
}
use bitar.QueuePair.Assemble.Count.{one_if, completed}
use bitar.QueuePair.Assemble.Source.{ok_inj}

count_step :
    (done : Bool) (idx k : ℕ) → (if done then idx + 1 else idx) + k ≡ idx + (one_if done + k)
count_step true idx k = omega arith
count_step false idx k = omega arith

memzone_or_stop-ok :
    (z : MemzonePtr) (q : QueuePair) {a : ℕ × ℕ × ℕ} {q' : QueuePair}
    → memzone_or_stop z q ≡ (ok a, q')
    → q'.pending_operations ≡ q.pending_operations
memzone_or_stop-ok none q h = sym (ap (λ r. r.1.pending_operations) h)
memzone_or_stop-ok (some z) q h = sym (ap (λ r. r.1.pending_operations) h)

module _ (rte : Rte) (c : Configuration) where
  take_memzone-ok :
      (q : QueuePair) {a : ℕ × ℕ × ℕ} {q' : QueuePair}
      → take_memzone rte c q ≡ (ok a, q')
      → q'.pending_operations ≡ q.pending_operations
  unfolding take_memzone
  take_memzone-ok q h =
      let (z, m) = DeviceMemory.take rte c q.device_memory in
      memzone_or_stop-ok z (record q { device_memory = m }) h

  append_destination-ok :
      (idx tail addr iova len : ℕ) (shinfo : SharedInfo) (q : QueuePair) {q' : QueuePair}
      → append_destination rte c idx tail addr iova len shinfo q ≡ (ok tt, q')
      → q'.pending_operations ≡ q.pending_operations
  unfolding append_destination
  append_destination-ok idx tail addr iova len shinfo q h = sym (ap (λ r. r.1.pending_operations) h)

  complete_if-ok :
      (done : Bool) (x : Xform) (idx : ℕ) (q : QueuePair) {q' : QueuePair}
      → complete_if rte c done x idx q ≡ (ok tt, q')
      → q'.pending_operations ≡ q.pending_operations
  unfolding complete
  complete_if-ok true x idx q h = sym (ap (λ r. r.1.pending_operations) h)
  complete_if-ok false x idx q h = sym (ap (λ r. r.1.pending_operations) h)

  -- What a round of either loop does once it has succeeded: the rest of the loop follows.
  round_ok :
      (done : Bool) (x : Xform) (idx tail addr iova len : ℕ) (shinfo : SharedInfo) (q : QueuePair)
      {A : Type 0} (rest : Action QueuePair A) {a : A} {q' : QueuePair}
      → (append_destination rte c idx tail addr iova len shinfo >>= λ _.
            complete_if rte c done x idx >>= λ _. rest)
          q
        ≡ (ok a, q')
      → (q₂ : QueuePair) × (rest q₂ ≡ (ok a, q')) × (q₂.pending_operations ≡ q.pending_operations)
  round_ok done x idx tail addr iova len shinfo q rest h =
      let (u, q₁, e, h₁) =
        >>=-inv (append_destination rte c idx tail addr iova len shinfo)
          (λ _. complete_if rte c done x idx >>= λ _. rest) q h in
      let (v, q₂, e₂, h₂) = >>=-inv (complete_if rte c done x idx) (λ _. rest) q₁ h₁ in
      (
        q₂,
        h₂,
        complete_if-ok done x idx q₁ e₂ ∙ append_destination-ok idx tail addr iova len shinfo q e,
      )

  -- The destination mbufs of a compression: the index moves by the operations that are completed.
  pub destination_memzones-ok :
      (n rounds mbuf_id idx : ℕ) (q : QueuePair) {o : ℕ} {q' : QueuePair}
      → destination_memzones rte c n rounds mbuf_id idx q ≡ (ok o, q')
      → (o ≡ idx + completed c.max_sgl_segs n rounds mbuf_id)
        × (q'.pending_operations ≡ q.pending_operations)
  unfolding destination_memzones
  destination_memzones-ok n zero mbuf_id idx q h =
      (sym (ok_inj (ap (λ r. r.0) h)) ∙ omega arith, sym (ap (λ r. r.1.pending_operations) h))
  destination_memzones-ok n (suc rounds) mbuf_id idx q h =
      let done : Bool = completes c.max_sgl_segs (mbuf_id + 1) n in
      let idx' : ℕ = if done then idx + 1 else idx in
      let (z, q₁, e, h₁) = >>=-inv (take_memzone rte c) _ q h in
      let (q₂, h₂, pending) =
        round_ok done compress_xform idx (get_or q.mbufs (mbuf_id + n) 0) z.0 z.1 (z.2 % 2 ^ 16)
          compressed_mbuf q₁ (destination_memzones rte c n rounds (mbuf_id + 1) idx') h₁ in
      let (last, rest) = destination_memzones-ok n rounds (mbuf_id + 1) idx' q₂ h₂ in
      (
        last ∙ count_step done idx (completed c.max_sgl_segs n rounds (mbuf_id + 1)),
        rest ∙ pending ∙ take_memzone-ok q e,
      )

  -- The destination mbufs of a decompression: the offset moves by a segment for each of them.
  pub destination_bytes-ok :
      (b : Buffer) (n rounds mbuf_id idx offset : ℕ) (q : QueuePair) {o p : ℕ} {q' : QueuePair}
      → destination_bytes rte c b n rounds mbuf_id idx offset q ≡ (ok (o, p), q')
      → (o ≡ idx + completed c.max_sgl_segs n rounds mbuf_id)
        × (p ≡ offset + rounds * c.decompressed_seg_size)
        × (q'.pending_operations ≡ q.pending_operations)
  unfolding destination_bytes
  destination_bytes-ok b n zero mbuf_id idx offset q h =
      let same = ok_inj (ap (λ r. r.0) h) in
      (
        sym (ap (λ r. r.0) same) ∙ omega arith,
        sym (ap (λ r. r.1) same) ∙ omega arith,
        sym (ap (λ r. r.1.pending_operations) h),
      )
  destination_bytes-ok b n (suc rounds) mbuf_id idx offset q h =
      let addr : ℕ = b.data_addr + offset in
      let done : Bool = completes c.max_sgl_segs (mbuf_id + 1) n in
      let idx' : ℕ = if done then idx + 1 else idx in
      let (q₂, h₂, pending) =
        round_ok done decompress_xform idx (get_or q.mbufs (mbuf_id + n) 0) addr
          (rte.mem_virt2iova addr) c.decompressed_seg_size decompressed_mbuf q
          (destination_bytes rte c b n rounds (mbuf_id + 1) idx' (offset + c.decompressed_seg_size))
          h in
      let (last, moved, rest) =
        destination_bytes-ok b n rounds (mbuf_id + 1) idx' (offset + c.decompressed_seg_size) q₂
          h₂ in
      (
        last ∙ count_step done idx (completed c.max_sgl_segs n rounds (mbuf_id + 1)),
        moved ∙ omega arith,
        rest ∙ pending,
      )
