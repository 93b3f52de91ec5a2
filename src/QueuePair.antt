-- ===== src/QueuePair.antt =====
-- QueuePairMemory of src/include/memory.h and src/memory.cc: the operations of a queue pair, from
-- their allocation to their release. Assembling them is in QueuePair/Assemble.antt.
pub mod Assemble
pub mod Order
pub mod Sizes
mod Tests
use bitar.Base.{
  ℕ, zero, suc, ◌+◌, ◌-◌, ◌%◌, ◌^◌, ltb, leb, ◌==◌, if◌then◌else◌, Bool, true, false, not, ◌&&◌,
  ◌||◌, List, [], ◌∷◌, ◌++◌, Option, none, some, length, get_or, map, StatusCode, out_of_memory,
  invalid, capacity_error, Action, Status, Result, ok, err, ◌>>=◌, ◌>>◌,
}
use bitar.Rte.{Rte}
use bitar.DeviceMemory.{DeviceMemory}
use bitar.DeviceMemory

-- Which rte_mbuf_ext_shared_info an mbuf is attached with. Its reference count is read by DPDK only,
-- and its callback does nothing, so no more of it is kept.
pub data SharedInfo : Type 0 where
  decompressed_mbuf compressed_mbuf : SharedInfo

-- An mbuf with an external buffer, and a chain of them with the packet length of its head. The
-- empty chain is nullptr.
pub record Mbuf : Type 0 where
  pub ptr : ℕ
  pub buf_addr : ℕ
  pub buf_iova : ℕ
  pub data_len : ℕ
  pub shinfo : SharedInfo

pub record Chain : Type 0 where
  pub segments : List Mbuf
  pub pkt_len : ℕ

-- private_xform_compress_ and private_xform_decompress_.
pub data Xform : Type 0 where
  no_xform compress_xform decompress_xform : Xform

-- rte_comp_op, as far as the sources write it; the flush flag is set with the transform.
pub record Operation : Type 0 where
  pub m_src : Chain
  pub m_dst : Chain
  pub src_offset : ℕ
  pub src_length : ℕ
  pub dst_offset : ℕ
  pub input_chksum : ℕ
  pub private_xform : Xform

abbrev pub no_chain : Chain
no_chain = record { segments = []; pkt_len = 0 }

-- An operation as rte_comp_op_bulk_alloc() resets it.
abbrev pub reset_operation : Operation
reset_operation = record {
  m_src = no_chain;
  m_dst = no_chain;
  src_offset = 0;
  src_length = 0;
  dst_offset = 0;
  input_chksum = 0;
  private_xform = no_xform;
}

-- `operation_at` is the memory of the operations, by pointer; `operations` and `mbufs` are the arrays
-- of pointers. What was given back to the two mempools is listed, the latest call's first.
pub record QueuePair : Type 0 where
  pub device_memory : DeviceMemory
  pub num_ops_assembled : ℕ
  pub pending_operations : List ℕ
  pub operations : ℕ → ℕ
  pub mbufs : List ℕ
  pub operation_at : ℕ → Operation
  pub freed_mbufs : List ℕ
  pub freed_operations : List ℕ

abbrev pub update {ℓ} : {A : Type ℓ} → (ℕ → A) → ℕ → A → ℕ → A
update f p v q = if p == q then v else f q

-- The count of the calls of DPDK that is behind the state.
abbrev pub now : QueuePair → ℕ
now q = q.device_memory.process.world.now

abbrev pub next_call : QueuePair → QueuePair
next_call q = record q {
  device_memory = record q.device_memory {
    process = record q.device_memory.process {
      world = record q.device_memory.process.world { now = suc (now q) };
    };
  };
}

abbrev pub has_pending_operations : QueuePair → Bool
has_pending_operations q = elim q.pending_operations [ [] ↦ false | p ∷ ps ↦ true ]

-- Writes the pointers into the array from an index on.
abbrev pub write_at : ℕ → List ℕ → (ℕ → ℕ) → ℕ → ℕ
write_at k ps f i = if leb k i && ltb i (k + length ps) then get_or ps (i - k) 0 else f i

abbrev pub reset_all : List ℕ → (ℕ → Operation) → ℕ → Operation
reset_all [] f = f
reset_all (p ∷ ps) f = update (reset_all ps f) p reset_operation

-- BulkAllocate(), in its two steps. Operations that were allocated stay so when the mbufs fail.
abbrev pub keep_operations : Option (List ℕ) → Action QueuePair (Unit {0})
keep_operations none q = (err out_of_memory, next_call q)
keep_operations (some ps) q = (
  ok tt,
  record (next_call q) {
    operations = write_at q.num_ops_assembled ps q.operations;
    operation_at = reset_all ps q.operation_at;
  },
)

unfoldable pub allocate_operations : Rte → ℕ → Action QueuePair (Unit {0})
allocate_operations rte num_ops q = keep_operations (rte.comp_op_bulk_alloc (now q) num_ops) q

abbrev pub keep_mbufs : Option (List ℕ) → Action QueuePair (Unit {0})
keep_mbufs none q = (err out_of_memory, next_call q)
keep_mbufs (some ms) q = (ok tt, record (next_call q) { mbufs = ms })

unfoldable pub allocate_mbufs : Rte → ℕ → Action QueuePair (Unit {0})
allocate_mbufs rte num_mbufs q = keep_mbufs (rte.pktmbuf_alloc_bulk (now q) num_mbufs) q

unfoldable pub bulk_allocate : Rte → ℕ → ℕ → Action QueuePair (Unit {0})
bulk_allocate rte num_ops num_mbufs = do
  allocate_operations rte num_ops
  allocate_mbufs rte num_mbufs

-- AppendData of the anonymous namespace, on the chain of one side of an operation. A tail that is
-- chained and finds no room stays in the chain with no data.
unfoldable pub append_data : Rte → ℕ → ℕ → ℕ → ℕ → SharedInfo → Action Chain (Unit {0})
append_data rte tail buf_addr buf_iova buf_len shinfo c =
    let attached : Mbuf = record {
      ptr = tail;
      buf_addr = buf_addr;
      buf_iova = buf_iova;
      data_len = 0;
      shinfo = shinfo;
    } in
    let filled : List Mbuf = c.segments ++ record attached { data_len = buf_len } ∷ [] in
    elim c.segments [
      | [] ↦
          if rte.pktmbuf_append buf_len buf_len
          then (ok tt, record { segments = filled; pkt_len = buf_len })
          else (err capacity_error, record { segments = attached ∷ []; pkt_len = 0 })
      | s ∷ ss ↦
          if rte.pktmbuf_chain (length c.segments)
          then if rte.pktmbuf_append buf_len buf_len
            then (ok tt, record { segments = filled; pkt_len = c.pkt_len + buf_len })
            else (
              err capacity_error,
              record { segments = c.segments ++ attached ∷ []; pkt_len = c.pkt_len + buf_len },
            )
          else (err capacity_error, c)
    ]

-- UpdateOperation of the anonymous namespace; the address of the head of the source chain becomes
-- the checksum input.
abbrev head_addr : List Mbuf → ℕ
head_addr [] = 0
head_addr (s ∷ ss) = s.buf_addr

unfoldable pub update_operation : Xform → Operation → Operation
update_operation private_xform op = record op {
  src_offset = 0;
  src_length = op.m_src.pkt_len;
  dst_offset = 0;
  input_chksum = head_addr op.m_src.segments;
  private_xform = private_xform;
}

-- AccumulateUnused(). The move to the front is a memmove of num_unused_ops pointers.
unfoldable pub accumulate_unused : ℕ → Action QueuePair (Unit {0})
accumulate_unused num_unused_ops q =
    let n = q.num_ops_assembled in
    let moved : ℕ → ℕ =
      λ i. if ltb i num_unused_ops then q.operations (n - num_unused_ops + i) else q.operations i in
    if ltb n num_unused_ops
    then (err invalid, q)
    else if ltb 0 num_unused_ops && not (num_unused_ops == n)
    then (ok tt, record q { operations = moved; num_ops_assembled = num_unused_ops })
    else (ok tt, record q { num_ops_assembled = num_unused_ops })

-- rte_pktmbuf_free() of a chain and rte_comp_op_free().
abbrev pub pointers : List Mbuf → List ℕ
pointers [] = []
pointers (m ∷ ms) = m.ptr ∷ pointers ms

-- RecycleResources(). Without NDEBUG the operation must be the oldest pending one. With it, a queue
-- with no pending operations stays empty, where the code would pop from an empty deque.
abbrev pub front_is : List ℕ → ℕ → Bool
front_is [] p = false
front_is (x ∷ xs) p = x == p

abbrev pub pop_front : List ℕ → List ℕ
pop_front [] = []
pop_front (x ∷ xs) = xs

unfoldable pub recycle_resources : Bool → ℕ → Action QueuePair (Unit {0})
recycle_resources ndebug p q =
    let op = q.operation_at p in
    if not ndebug && not (front_is q.pending_operations p) then (err invalid, q) else (
      ok tt,
      record q {
        pending_operations = pop_front q.pending_operations;
        freed_mbufs = pointers op.m_dst.segments ++ (pointers op.m_src.segments ++ q.freed_mbufs);
        freed_operations = p ∷ q.freed_operations;
      },
    )

-- Release(): the destination mbufs of one operation, one after the other.
abbrev pub is_compressed : SharedInfo → Bool
is_compressed compressed_mbuf = true
is_compressed decompressed_mbuf = false

unfoldable pub release_destination : List Mbuf → QueuePair → QueuePair
release_destination [] q = q
release_destination (m ∷ ms) q =
    let memory : DeviceMemory =
      if is_compressed m.shinfo
      then (DeviceMemory.put m.buf_addr q.device_memory).1
      else q.device_memory in
    release_destination ms
      (record q { device_memory = memory; freed_mbufs = m.ptr ∷ q.freed_mbufs })

unfoldable pub release_operation : ℕ → QueuePair → QueuePair
release_operation p q =
    let op = q.operation_at p in
    let q' : QueuePair =
      release_destination op.m_dst.segments
        (record q { freed_mbufs = pointers op.m_src.segments ++ q.freed_mbufs }) in
    record q' { freed_operations = p ∷ q'.freed_operations }

-- The loop over the pending operations. It does not touch num_ops_assembled.
unfoldable pub release_all : List ℕ → QueuePair → QueuePair
release_all [] q = q
release_all (p ∷ ps) q = release_all ps (record (release_operation p q) { pending_operations = ps })

unfoldable pub release : QueuePair → QueuePair
release q = release_all q.pending_operations q
