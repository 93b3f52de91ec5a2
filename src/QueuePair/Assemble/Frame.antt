-- ===== src/QueuePair/Assemble/Frame.antt =====
-- What the loops of AssembleFrom, src/memory.cc, leave alone in a queue pair, whether they succeed or
-- not.
use bitar.Base.{
  ℕ, zero, suc, ◌+◌, ◌-◌, ◌%◌, ◌^◌, List, min, get_or, if◌then◌else◌, Bool, true, false, none, some,
  Action, Result, ok, err, ◌>>=◌, continue, ◌≡◌, ◌≤◌, refl, ◌∙◌, arith,
}
use bitar.Rte.{Rte, MemzonePtr}
use bitar.Config.{Configuration}
use bitar.DeviceMemory.{DeviceMemory}
use bitar.DeviceMemory.Clock.{take-Later}
use bitar.DeviceMemory
use bitar.QueuePair.{
  QueuePair, now, SharedInfo, decompressed_mbuf, compressed_mbuf, Xform, compress_xform,
  decompress_xform,
}
use bitar.QueuePair.Assemble.{
  Buffer, starts_next, completes, push_pending, push_if, append_source, append_destination,
  complete, complete_if, memzone_or_stop, take_memzone, source_bytes, source_buffers,
  destination_memzones, destination_bytes,
}

-- The array of operations, that of the mbufs and the count of assembled operations stay, and no call of
-- DPDK is undone.
pub record Frame (q q' : QueuePair) : Type 0 where
  pub count : q'.num_ops_assembled ≡ q.num_ops_assembled
  pub slots : q'.operations ≡ q.operations
  pub mbufs : q'.mbufs ≡ q.mbufs
  pub later : now q ≤ now q'

pub Frame-refl : (q : QueuePair) → Frame q q
Frame-refl q = record { count = refl; slots = refl; mbufs = refl; later = omega arith }

pub Frame-trans : {q r s : QueuePair} → Frame q r → Frame r s → Frame q s
Frame-trans f g = record {
  count = g.count ∙ f.count;
  slots = g.slots ∙ f.slots;
  mbufs = g.mbufs ∙ f.mbufs;
  later = omega (arith, f.later, g.later);
}

-- An action that keeps them, whatever it returns.
abbrev pub Keeps : {A : Type 0} → Action QueuePair A → Type 0
Keeps m = (q : QueuePair) → Frame q (m q).1

continue-Frame :
    {A B : Type 0} (f : A → Action QueuePair B) {q : QueuePair} (r : Result A × QueuePair)
    → Frame q r.1
    → ((a : A) → Keeps (f a))
    → Frame q (continue f r).1
continue-Frame f (ok a, q') h k = Frame-trans h (k a q')
continue-Frame f (err e, q') h k = h

pub >>=-Keeps :
    {A B : Type 0} (m : Action QueuePair A) (f : A → Action QueuePair B)
    → Keeps m
    → ((a : A) → Keeps (f a))
    → Keeps (m >>= f)
>>=-Keeps m f h k q = continue-Frame f (m q) (h q) k

push_pending-Keeps : (idx : ℕ) → Keeps (push_pending idx)
unfolding push_pending
push_pending-Keeps idx q = record { count = refl; slots = refl; mbufs = refl; later = omega arith }

push_if-Keeps : (b : Bool) (idx : ℕ) → Keeps (push_if b idx)
push_if-Keeps true idx q = push_pending-Keeps idx q
push_if-Keeps false idx q = Frame-refl q

memzone_or_stop-Keeps :
    (z : MemzonePtr) (q : QueuePair) (m : DeviceMemory)
    → now q ≤ m.process.world.now
    → Frame q (memzone_or_stop z (record q { device_memory = m })).1
memzone_or_stop-Keeps none q m h = record { count = refl; slots = refl; mbufs = refl; later = h }
memzone_or_stop-Keeps (some z) q m h = record {
  count = refl;
  slots = refl;
  mbufs = refl;
  later = h;
}

module _ (rte : Rte) (c : Configuration) where
  append_source-Keeps :
      (idx tail addr len : ℕ) (shinfo : SharedInfo)
      → Keeps (append_source rte c idx tail addr len shinfo)
  unfolding append_source
  append_source-Keeps idx tail addr len shinfo q = record {
    count = refl;
    slots = refl;
    mbufs = refl;
    later = omega arith;
  }

  append_destination-Keeps :
      (idx tail addr iova len : ℕ) (shinfo : SharedInfo)
      → Keeps (append_destination rte c idx tail addr iova len shinfo)
  unfolding append_destination
  append_destination-Keeps idx tail addr iova len shinfo q = record {
    count = refl;
    slots = refl;
    mbufs = refl;
    later = omega arith;
  }

  complete-Keeps : (x : Xform) (idx : ℕ) → Keeps (complete rte c x idx)
  unfolding complete
  complete-Keeps x idx q = record { count = refl; slots = refl; mbufs = refl; later = omega arith }

  complete_if-Keeps : (b : Bool) (x : Xform) (idx : ℕ) → Keeps (complete_if rte c b x idx)
  complete_if-Keeps true x idx q = complete-Keeps x idx q
  complete_if-Keeps false x idx q = Frame-refl q

  take_memzone-Keeps : Keeps (take_memzone rte c)
  unfolding take_memzone
  take_memzone-Keeps q =
      let (memzone, memory) = DeviceMemory.take rte c q.device_memory in
      memzone_or_stop-Keeps memzone q memory (take-Later rte c q.device_memory)

  pub source_bytes-Keeps :
      (b : Buffer) (n rounds mbuf_id idx offset : ℕ)
      → Keeps (source_bytes rte c b n rounds mbuf_id idx offset)
  unfolding source_bytes
  source_bytes-Keeps b n zero mbuf_id idx offset q = Frame-refl q
  source_bytes-Keeps b n (suc rounds) mbuf_id idx offset q =
      let len : ℕ = min c.decompressed_seg_size (b.size - offset) in
      let next : Bool = starts_next c.max_sgl_segs (mbuf_id + 1) n in
      >>=-Keeps
        (append_source rte c idx (get_or q.mbufs mbuf_id 0) (b.data_addr + offset) (len % 2 ^ 16)
          decompressed_mbuf)
        _
        (append_source-Keeps idx (get_or q.mbufs mbuf_id 0) (b.data_addr + offset) (len % 2 ^ 16)
          decompressed_mbuf)
        (λ _. >>=-Keeps (push_if next (idx + 1)) _ (push_if-Keeps next (idx + 1)) (λ _.
          source_bytes-Keeps b n rounds (mbuf_id + 1) (if next then idx + 1 else idx)
            (offset + len)))
        q

  pub source_buffers-Keeps :
      (bs : List Buffer) (n rounds mbuf_id idx index : ℕ)
      → Keeps (source_buffers rte c bs n rounds mbuf_id idx index)
  unfolding source_buffers
  source_buffers-Keeps bs n zero mbuf_id idx index q = Frame-refl q
  source_buffers-Keeps bs n (suc rounds) mbuf_id idx index q =
      let b : Buffer = get_or bs index (record { data_addr = 0; size = 0 }) in
      let next : Bool = starts_next c.max_sgl_segs (mbuf_id + 1) n in
      >>=-Keeps
        (append_source rte c idx (get_or q.mbufs mbuf_id 0) b.data_addr (b.size % 2 ^ 16)
          compressed_mbuf)
        _
        (append_source-Keeps idx (get_or q.mbufs mbuf_id 0) b.data_addr (b.size % 2 ^ 16)
          compressed_mbuf)
        (λ _. >>=-Keeps (push_if next (idx + 1)) _ (push_if-Keeps next (idx + 1)) (λ _.
          source_buffers-Keeps bs n rounds (mbuf_id + 1) (if next then idx + 1 else idx)
            (index + 1)))
        q

  pub destination_memzones-Keeps :
      (n rounds mbuf_id idx : ℕ) → Keeps (destination_memzones rte c n rounds mbuf_id idx)
  unfolding destination_memzones
  destination_memzones-Keeps n zero mbuf_id idx q = Frame-refl q
  destination_memzones-Keeps n (suc rounds) mbuf_id idx q =
      let done : Bool = completes c.max_sgl_segs (mbuf_id + 1) n in
      >>=-Keeps (take_memzone rte c) _ take_memzone-Keeps
        (λ z.
          >>=-Keeps
            (append_destination rte c idx (get_or q.mbufs (mbuf_id + n) 0) z.0 z.1 (z.2 % 2 ^ 16)
              compressed_mbuf)
            _
            (append_destination-Keeps idx (get_or q.mbufs (mbuf_id + n) 0) z.0 z.1 (z.2 % 2 ^ 16)
              compressed_mbuf)
            (λ _.
              >>=-Keeps (complete_if rte c done compress_xform idx) _
                (complete_if-Keeps done compress_xform idx)
                (λ _.
                  destination_memzones-Keeps n rounds (mbuf_id + 1)
                    (if done then idx + 1 else idx))))
        q

  pub destination_bytes-Keeps :
      (b : Buffer) (n rounds mbuf_id idx offset : ℕ)
      → Keeps (destination_bytes rte c b n rounds mbuf_id idx offset)
  unfolding destination_bytes
  destination_bytes-Keeps b n zero mbuf_id idx offset q = Frame-refl q
  destination_bytes-Keeps b n (suc rounds) mbuf_id idx offset q =
      let addr : ℕ = b.data_addr + offset in
      let done : Bool = completes c.max_sgl_segs (mbuf_id + 1) n in
      >>=-Keeps
        (append_destination rte c idx (get_or q.mbufs (mbuf_id + n) 0) addr (rte.mem_virt2iova addr)
          c.decompressed_seg_size decompressed_mbuf)
        _
        (append_destination-Keeps idx (get_or q.mbufs (mbuf_id + n) 0) addr (rte.mem_virt2iova addr)
          c.decompressed_seg_size decompressed_mbuf)
        (λ _.
          >>=-Keeps (complete_if rte c done decompress_xform idx) _
            (complete_if-Keeps done decompress_xform idx)
            (λ _.
              destination_bytes-Keeps b n rounds (mbuf_id + 1) (if done then idx + 1 else idx)
                (offset + c.decompressed_seg_size)))
        q
