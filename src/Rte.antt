-- ===== src/Rte.antt =====
-- What the sources take from DPDK and from the platform: parameters of the model.
use bitar.Base.{ℕ, Bool, List, Option}

-- The constants of DPDK's build configuration (rte_config.h, rte_build_config.h), which a build of
-- DPDK chooses.
pub record BuildConfig : Type 0 where
  pub pktmbuf_headroom : ℕ
  pub max_memzone : ℕ
  pub max_lcore : ℕ
  pub mempool_cache_max_size : ℕ

-- The fields of rte_memzone that the sources read. `ptr` is the address of the structure itself, by
-- which two pointers to memzones are compared; no structure stands at address 0.
pub record Memzone : Type 0 where
  pub ptr : ℕ
  pub addr : ℕ
  pub iova : ℕ
  pub len : ℕ

-- const rte_memzone*; `none` is nullptr.
abbrev pub MemzonePtr : Type 0
MemzonePtr = Option Memzone

-- The answers of DPDK's allocation functions. Each takes the number of the call first: the model
-- counts the calls, so two calls with the same arguments may be answered differently.
pub record Rte : Type 0 where
  -- The address of the static variable zero_size_area, which the linker chooses.
  pub zero_size_area : ℕ
  -- arrow::kDefaultBufferAlignment, the alignment of an Allocate() that names none.
  pub default_alignment : ℕ
  -- rte_memzone_reserve_aligned(), of a size and an alignment.
  pub memzone_reserve : ℕ → ℕ → ℕ → MemzonePtr
  -- rte_malloc(), of a size and an alignment, and rte_realloc(), of an address first; `none` is
  -- nullptr.
  pub malloc : ℕ → ℕ → ℕ → Option ℕ
  pub realloc : ℕ → ℕ → ℕ → ℕ → Option ℕ
  -- rte_comp_op_bulk_alloc(), of the number of operations; `none` is the return value 0. The
  -- operations that it hands out are reset.
  pub comp_op_bulk_alloc : ℕ → ℕ → Option (List ℕ)
  -- rte_pktmbuf_alloc_bulk(), of the number of mbufs; `none` is a negative return value.
  pub pktmbuf_alloc_bulk : ℕ → ℕ → Option (List ℕ)
  -- Whether rte_pktmbuf_chain() accepts one more segment, of the number of segments so far.
  pub pktmbuf_chain : ℕ → Bool
  -- Whether rte_pktmbuf_append() finds room, of the size of the empty buffer and the length asked for.
  pub pktmbuf_append : ℕ → ℕ → Bool
  -- rte_mem_virt2iova().
  pub mem_virt2iova : ℕ → ℕ

-- rte_comp_op_status, the values that the sources tell apart.
pub data OpStatus : Type 0 where
  success out_of_space failed : OpStatus

-- What rte_compressdev_dequeue_burst() reports of one operation: its pointer, and its fields
-- `status` and `produced`.
pub record Dequeued : Type 0 where
  pub op : ℕ
  pub status : OpStatus
  pub produced : ℕ

-- rte_compressdev_stats, and rte_param_log2_range and the flags of rte_compressdev_capabilities.
pub record Stats : Type 0 where
  pub enqueue_err_count : ℕ
  pub dequeue_err_count : ℕ

pub record Range : Type 0 where
  pub min : ℕ
  pub max : ℕ
  pub increment : ℕ

pub record Capability : Type 0 where
  pub oop_sgl_in_sgl_out : Bool
  pub huffman_fixed : Bool
  pub huffman_dynamic : Bool
  pub window : Range

-- A compress device and a queue pair of it, as DPDK presents them.
pub record Compressdev : Type 0 where
  -- max_nb_queue_pairs of rte_compressdev_info_get(), and rte_compressdev_capability_get() for
  -- DEFLATE; `none` is nullptr.
  pub max_nb_queue_pairs : ℕ
  pub capability : Option Capability
  -- Whether rte_compressdev_socket_id() is not negative.
  pub has_socket : Bool
  -- Whether these succeed: rte_compressdev_configure(), rte_compressdev_queue_pair_setup() of a
  -- queue pair, and rte_compressdev_start().
  pub configure : Bool
  pub queue_pair_setup : ℕ → Bool
  pub start : Bool
  -- Whether these succeed: rte_pktmbuf_pool_create() and rte_comp_op_pool_create(), of the number of
  -- elements and the cache size; rte_zmalloc_socket(), of the size, for the number-th time;
  -- rte_compressdev_private_xform_create() for the two transforms.
  pub pktmbuf_pool_create : ℕ → ℕ → Bool
  pub comp_op_pool_create : ℕ → ℕ → Bool
  pub zmalloc : ℕ → ℕ → Bool
  pub private_xform_compress : Bool
  pub private_xform_decompress : Bool
  -- How many of the operations rte_compressdev_enqueue_burst() takes, from the first one on; what
  -- rte_compressdev_dequeue_burst() hands out, of the greatest number; rte_compressdev_stats_get().
  -- Each takes the number of the call first.
  pub enqueue_burst : ℕ → List ℕ → ℕ
  pub dequeue_burst : ℕ → ℕ → List Dequeued
  pub stats : ℕ → Stats
