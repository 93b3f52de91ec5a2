-- ===== src/QueuePair/Assemble.antt =====
-- The two overloads of QueuePairMemory::AssembleFrom of src/memory.cc. A value that is `ok` is the
-- number of operations that are assembled, with the positions that the function writes back.
pub mod Burst
pub mod Count
pub mod Frame
pub mod Clock
pub mod Source
pub mod Destination
pub mod Total
pub mod Calls
pub mod Stale
use bitar.Base.{
  ℕ, zero, suc, ◌+◌, ◌-◌, ◌*◌, ◌/◌, ◌%◌, ◌^◌, min, ltb, leb, ◌==◌, if◌then◌else◌, Bool, true, false,
  ◌||◌, ◌&&◌, List, [], ◌∷◌, ◌++◌, Option, none, some, length, get_or, io_error, Action, Result, ok,
  err, ◌>>=◌, ◌>>◌,
}
use bitar.Rte.{Rte, MemzonePtr}
use bitar.Config.{Configuration}
use bitar.DeviceMemory
use bitar.QueuePair.{
  QueuePair, Chain, Operation, SharedInfo, decompressed_mbuf, compressed_mbuf, Xform,
  compress_xform, decompress_xform, update, append_data, update_operation, bulk_allocate,
}

-- arrow::Buffer and absl::Span, by their address and size.
pub record Buffer : Type 0 where
  pub data_addr : ℕ
  pub size : ℕ

-- `(a + d - 1) / d`.
abbrev pub round_up_div : ℕ → ℕ → ℕ
round_up_div a d = (a + d - 1) / d

-- What a burst takes: of the bytes that remain, and of the buffers that remain. The products are
-- done in an int and are taken to fit.
unfoldable pub next_burst_bytes : Configuration → ℕ → ℕ → ℕ
next_burst_bytes c assembled remaining =
    min remaining ((c.burst_size - assembled) * c.max_sgl_segs * c.decompressed_seg_size)

unfoldable pub bytes_to_mbufs : Configuration → ℕ → ℕ
bytes_to_mbufs c bytes = round_up_div bytes c.decompressed_seg_size % 2 ^ 32

unfoldable pub next_burst_buffers : Configuration → ℕ → ℕ → ℕ
next_burst_buffers c assembled remaining =
    min ((c.burst_size - assembled) * c.max_sgl_segs) remaining % 2 ^ 32

unfoldable pub mbufs_to_ops : Configuration → ℕ → ℕ
mbufs_to_ops c num_mbufs = round_up_div num_mbufs c.max_sgl_segs % 2 ^ 16

-- Whether the operation at hand has all of its source mbufs and another one follows; whether it has
-- all of its destination mbufs.
abbrev pub starts_next : ℕ → ℕ → ℕ → Bool
starts_next sgl mbuf_id num_mbufs = mbuf_id % sgl == 0 && ltb mbuf_id num_mbufs

abbrev pub completes : ℕ → ℕ → ℕ → Bool
completes sgl mbuf_id num_mbufs = mbuf_id % sgl == 0 || mbuf_id == num_mbufs

-- pending_operations_.push_back(operations_[idx]).
unfoldable pub push_pending : ℕ → Action QueuePair (Unit {0})
push_pending idx q =
    (ok tt, record q { pending_operations = q.pending_operations ++ q.operations idx ∷ [] })

abbrev pub push_if : Bool → ℕ → Action QueuePair (Unit {0})
push_if true idx q = push_pending idx q
push_if false idx q = (ok tt, q)

-- What a null pointer from Take() ends.
abbrev pub memzone_or_stop : MemzonePtr → Action QueuePair (ℕ × ℕ × ℕ)
memzone_or_stop none q = (err io_error, q)
memzone_or_stop (some z) q = (ok (z.addr, z.iova, z.len), q)

module _ (rte : Rte) (c : Configuration) where
  -- AppendData() on the source and on the destination of the operation at an index.
  unfoldable pub append_source : ℕ → ℕ → ℕ → ℕ → SharedInfo → Action QueuePair (Unit {0})
  append_source idx tail addr len shinfo q =
      let p : ℕ = q.operations idx in
      let op : Operation = q.operation_at p in
      let (r, chain) = append_data rte tail addr (rte.mem_virt2iova addr) len shinfo op.m_src in
      (r, record q { operation_at = update q.operation_at p (record op { m_src = chain }) })

  unfoldable pub append_destination : ℕ → ℕ → ℕ → ℕ → ℕ → SharedInfo → Action QueuePair (Unit {0})
  append_destination idx tail addr iova len shinfo q =
      let p : ℕ = q.operations idx in
      let op : Operation = q.operation_at p in
      let (r, chain) = append_data rte tail addr iova len shinfo op.m_dst in
      (r, record q { operation_at = update q.operation_at p (record op { m_dst = chain }) })

  unfoldable pub complete : Xform → ℕ → Action QueuePair (Unit {0})
  complete private_xform idx q =
      let p : ℕ = q.operations idx in
      (
        ok tt,
        record q {
          operation_at =
              update q.operation_at p (update_operation private_xform (q.operation_at p));
        },
      )

  abbrev pub complete_if : Bool → Xform → ℕ → Action QueuePair (Unit {0})
  complete_if true private_xform idx q = complete private_xform idx q
  complete_if false private_xform idx q = (ok tt, q)

  -- device_memory_->Take(); a null pointer ends the assembly.
  unfoldable pub take_memzone : Action QueuePair (ℕ × ℕ × ℕ)
  take_memzone q =
      let (memzone, memory) = DeviceMemory.take rte c q.device_memory in
      memzone_or_stop memzone (record q { device_memory = memory })

  -- The source mbufs of a compression: `rounds` of them are left, of `n` in all. current_op is the
  -- operation at `idx`. Returns the new offset.
  unfoldable pub source_bytes : Buffer → ℕ → ℕ → ℕ → ℕ → ℕ → Action QueuePair ℕ
  source_bytes b n zero mbuf_id idx offset q = (ok offset, q)
  source_bytes b n (suc rounds) mbuf_id idx offset q =
      let len : ℕ = min c.decompressed_seg_size (b.size - offset) in
      let next : Bool = starts_next c.max_sgl_segs (mbuf_id + 1) n in
      (do
        append_source idx (get_or q.mbufs mbuf_id 0) (b.data_addr + offset) (len % 2 ^ 16)
            decompressed_mbuf
        push_if next (idx + 1)
        source_bytes b n rounds (mbuf_id + 1) (if next then idx + 1 else idx) (offset + len))
        q

  -- The destination mbufs of a compression. Returns the index past the last operation.
  unfoldable pub destination_memzones : ℕ → ℕ → ℕ → ℕ → Action QueuePair ℕ
  destination_memzones n zero mbuf_id idx q = (ok idx, q)
  destination_memzones n (suc rounds) mbuf_id idx q =
      let done : Bool = completes c.max_sgl_segs (mbuf_id + 1) n in
      (do
        (addr, iova, len) ← take_memzone
        append_destination idx (get_or q.mbufs (mbuf_id + n) 0) addr iova (len % 2 ^ 16)
            compressed_mbuf
        complete_if done compress_xform idx
        destination_memzones n rounds (mbuf_id + 1) (if done then idx + 1 else idx))
        q

  -- The source mbufs of a decompression: one for each buffer from `index` on.
  unfoldable pub source_buffers : List Buffer → ℕ → ℕ → ℕ → ℕ → ℕ → Action QueuePair ℕ
  source_buffers bs n zero mbuf_id idx index q = (ok index, q)
  source_buffers bs n (suc rounds) mbuf_id idx index q =
      let b : Buffer = get_or bs index (record { data_addr = 0; size = 0 }) in
      let next : Bool = starts_next c.max_sgl_segs (mbuf_id + 1) n in
      (do
        append_source idx (get_or q.mbufs mbuf_id 0) b.data_addr (b.size % 2 ^ 16) compressed_mbuf
        push_if next (idx + 1)
        source_buffers bs n rounds (mbuf_id + 1) (if next then idx + 1 else idx) (index + 1))
        q

  -- The destination mbufs of a decompression. Returns the index past the last operation and the new
  -- offset. The check that subspan() makes of the offset is left out: Decompress() has checked that the
  -- destination has room for a segment of each buffer.
  unfoldable pub destination_bytes : Buffer → ℕ → ℕ → ℕ → ℕ → ℕ → Action QueuePair (ℕ × ℕ)
  destination_bytes b n zero mbuf_id idx offset q = (ok (idx, offset), q)
  destination_bytes b n (suc rounds) mbuf_id idx offset q =
      let addr : ℕ = b.data_addr + offset in
      let done : Bool = completes c.max_sgl_segs (mbuf_id + 1) n in
      (do
        append_destination idx (get_or q.mbufs (mbuf_id + n) 0) addr (rte.mem_virt2iova addr)
            c.decompressed_seg_size decompressed_mbuf
        complete_if done decompress_xform idx
        destination_bytes b n rounds (mbuf_id + 1) (if done then idx + 1 else idx)
            (offset + c.decompressed_seg_size))
        q

  -- num_ops_assembled_ = num_ops_assembled_with_mbufs.
  abbrev pub set_assembled : ℕ → Action QueuePair (Unit {0})
  set_assembled n q = (ok tt, record q { num_ops_assembled = n })

  -- The part of the compressing overload behind its early return.
  unfoldable pub assemble_bytes : Buffer → ℕ → ℕ → Action QueuePair (ℕ × ℕ)
  assemble_bytes b num_mbufs offset q =
      let first : ℕ = q.num_ops_assembled in
      (do
        bulk_allocate rte (mbufs_to_ops c num_mbufs) (num_mbufs * 2 % 2 ^ 32)
        push_pending first
        offset' ← source_bytes b num_mbufs num_mbufs 0 first offset
        last ← destination_memzones num_mbufs num_mbufs 0 first
        set_assembled last
        λ q'. (ok (last, offset'), q'))
        q

  unfoldable pub assemble_from_decompressed : Buffer → ℕ → Action QueuePair (ℕ × ℕ)
  assemble_from_decompressed b offset q =
      if leb b.size offset || leb c.burst_size q.num_ops_assembled
      then (ok (q.num_ops_assembled, offset), q)
      else assemble_bytes b
          (bytes_to_mbufs c (next_burst_bytes c q.num_ops_assembled (b.size - offset))) offset q

  -- The decompressing overload. Returns the number of operations, the index and the offset.
  unfoldable pub assemble_buffers :
      List Buffer → Buffer → ℕ → ℕ → ℕ → Action QueuePair (ℕ × (ℕ × ℕ))
  assemble_buffers bs b num_mbufs index offset q =
      let first : ℕ = q.num_ops_assembled in
      (do
        bulk_allocate rte (mbufs_to_ops c num_mbufs) (num_mbufs * 2 % 2 ^ 32)
        push_pending first
        index' ← source_buffers bs num_mbufs num_mbufs 0 first index
        (last, offset') ← destination_bytes b num_mbufs num_mbufs 0 first offset
        set_assembled last
        λ q'. (ok (last, (index', offset')), q'))
        q

  unfoldable pub assemble_from_compressed :
      List Buffer → Buffer → ℕ → ℕ → Action QueuePair (ℕ × (ℕ × ℕ))
  assemble_from_compressed bs b index offset q =
      if leb (length bs) index || leb c.burst_size q.num_ops_assembled
      then (ok (q.num_ops_assembled, (index, offset)), q)
      else assemble_buffers bs b (next_burst_buffers c q.num_ops_assembled (length bs - index))
          index offset q
