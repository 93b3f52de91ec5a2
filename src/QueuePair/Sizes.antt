-- ===== src/QueuePair/Sizes.antt =====
-- QueuePairMemory::Preallocate of src/memory.cc: the sizes of the two mempools and of the arrays, and
-- the allocations in their order. `error_code` of a private transform and the names are left out.
pub mod Fits
use bitar.Base.{
  ℕ, ◌+◌, ◌-◌, ◌*◌, ◌/◌, ◌%◌, ◌^◌, min, if◌then◌else◌, Bool, true, false, Status, Result, ok, err,
  Action, ◌>>◌, invalid,
}
use bitar.Rte.{BuildConfig, Compressdev}
use bitar.Config.{Configuration}

-- kMaxInflightOps, kCacheSizeAmplifier, kMaxInflightMbufs, and sizeof(void*).
abbrev pub max_inflight_ops : ℕ
max_inflight_ops = 512

abbrev pub cache_size_amplifier : ℕ
cache_size_amplifier = 2

abbrev pub max_inflight_mbufs : ℕ
max_inflight_mbufs = max_inflight_ops * 16

abbrev pub pointer_size : ℕ
pointer_size = 8

-- The size of rte_mbuf_ext_shared_info: a callback, its argument and a 16-bit count, padded.
abbrev pub shared_info_size : ℕ
shared_info_size = 24

-- The values are std::uint32_t; a product of an unsigned and an int wraps.
unfoldable pub num_mbufs_in_burst : Configuration → ℕ
num_mbufs_in_burst c = c.burst_size * c.max_sgl_segs * 2 % 2 ^ 32

unfoldable pub mbuf_pool_cache_size : BuildConfig → Configuration → ℕ
mbuf_pool_cache_size b c =
    min (num_mbufs_in_burst c * cache_size_amplifier % 2 ^ 32) b.mempool_cache_max_size

unfoldable pub num_inflight_mbufs : Configuration → ℕ
num_inflight_mbufs c = min (num_mbufs_in_burst c * max_inflight_ops % 2 ^ 32) max_inflight_mbufs

unfoldable pub num_mbufs_in_pool : BuildConfig → Configuration → ℕ
num_mbufs_in_pool b c =
    (num_inflight_mbufs c + mbuf_pool_cache_size b c + num_mbufs_in_burst c) % 2 ^ 32

unfoldable pub operation_pool_cache_size : BuildConfig → Configuration → ℕ
operation_pool_cache_size b c = min (c.burst_size * cache_size_amplifier) b.mempool_cache_max_size

unfoldable pub num_ops_in_pool : BuildConfig → Configuration → ℕ
num_ops_in_pool b c = ((num_mbufs_in_pool b c / 2 + c.max_sgl_segs - 1) % 2 ^ 32) / c.max_sgl_segs

-- What is held once it is allocated: the elements of the pools, the slots of the arrays, and whether
-- the shared infos and the transforms are there.
pub record Resources : Type 0 where
  pub mbuf_pool : ℕ
  pub operation_pool : ℕ
  pub operation_slots : ℕ
  pub mbuf_slots : ℕ
  pub decompressed_shared_info : Bool
  pub compressed_shared_info : Bool
  pub compress_xform : Bool
  pub decompress_xform : Bool

abbrev pub no_resources : Resources
no_resources = record {
  mbuf_pool = 0;
  operation_pool = 0;
  operation_slots = 0;
  mbuf_slots = 0;
  decompressed_shared_info = false;
  compressed_shared_info = false;
  compress_xform = false;
  decompress_xform = false;
}

-- An allocation that succeeds is kept; one that fails ends the function with Invalid.
abbrev pub keep_if : Bool → (Resources → Resources) → Action Resources (Unit {0})
keep_if true f r = (ok tt, f r)
keep_if false f r = (err invalid, r)

module _ (b : BuildConfig) (dev : Compressdev) (c : Configuration) where
  unfoldable pub create_pools : Action Resources (Unit {0})
  create_pools = do
    keep_if (dev.pktmbuf_pool_create (num_mbufs_in_pool b c) (mbuf_pool_cache_size b c))
        (λ r. record r { mbuf_pool = num_mbufs_in_pool b c })
    keep_if (dev.comp_op_pool_create (num_ops_in_pool b c) (operation_pool_cache_size b c))
        (λ r. record r { operation_pool = num_ops_in_pool b c })

  unfoldable pub create_arrays : Action Resources (Unit {0})
  create_arrays = do
    keep_if (dev.zmalloc 0 ((c.burst_size + num_ops_in_pool b c) % 2 ^ 32 * pointer_size))
        (λ r. record r { operation_slots = (c.burst_size + num_ops_in_pool b c) % 2 ^ 32 })
    keep_if (dev.zmalloc 1 (num_mbufs_in_burst c * pointer_size))
        (λ r. record r { mbuf_slots = num_mbufs_in_burst c })

  unfoldable pub create_shared : Action Resources (Unit {0})
  create_shared = do
    keep_if (dev.zmalloc 2 shared_info_size) (λ r. record r { decompressed_shared_info = true })
    keep_if (dev.zmalloc 3 shared_info_size) (λ r. record r { compressed_shared_info = true })

  unfoldable pub create_xforms : Action Resources (Unit {0})
  create_xforms = do
    keep_if dev.private_xform_compress (λ r. record r { compress_xform = true })
    keep_if dev.private_xform_decompress (λ r. record r { decompress_xform = true })

  unfoldable pub preallocate_queue_pair : Action Resources (Unit {0})
  preallocate_queue_pair = do
    keep_if dev.has_socket (λ r. r)
    create_pools
    create_arrays
    create_shared
    create_xforms
