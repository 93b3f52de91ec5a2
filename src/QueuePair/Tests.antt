-- ===== src/QueuePair/Tests.antt =====
-- The theorems on a queue pair, at bursts of at most four operations.
use bitar.Base.{
  ℕ, zero, suc, ◌+◌, ◌-◌, ◌*◌, ◌≤◌, ◌<◌, true, List, [], ◌∷◌, none, some, min, ok, err, invalid,
  ◌≡◌, refl, ap, inl, inr, arith,
}
use bitar.Config.{Configuration, Huffman, Checksum}
use bitar.Rte.{Rte, BuildConfig, Memzone}
use bitar.MemoryPool.{of, allocate, memzone_allocate, emplace}
use bitar.DeviceMemory.{init, take, allocate_one, insert, contains}
use bitar.QueuePair.{
  QueuePair, reset_operation, accumulate_unused, release, bulk_allocate, allocate_operations,
  allocate_mbufs, append_data, update_operation,
}
use bitar.QueuePair.Order.{accumulate_unused_lem, release_lem, put_all, free_chains}
use bitar.QueuePair.Assemble.{
  Buffer, assemble_from_decompressed, assemble_from_compressed, assemble_bytes, assemble_buffers,
  next_burst_bytes, bytes_to_mbufs, next_burst_buffers, mbufs_to_ops, push_pending, append_source,
  append_destination, complete, take_memzone, source_bytes, source_buffers, destination_memzones,
  destination_bytes,
}
use bitar.QueuePair.Assemble.Burst.{IsSized}
use bitar.QueuePair.Assemble.Total.{Assembled}
use bitar.QueuePair.Assemble.Calls.{
  assemble_from_decompressed-Assembled, assemble_from_compressed-Assembled,
}
use bitar.QueuePair.Assemble.Stale.{IsIn, ReportsFreed, assemble-release}
use bitar.QueuePair.Sizes.Fits.{IsEnough, sizes-IsEnough}

abbrev zone : ℕ → ℕ → Memzone
zone n size = record { ptr = n + 1; addr = 4096 * (n + 1); iova = 4096 * (n + 1); len = size }

abbrev from : ℕ → ℕ → List ℕ
from k zero = []
from k (suc n) = k ∷ from (k + 1) n

abbrev rte : Rte
rte = record {
  zero_size_area = 8;
  default_alignment = 64;
  memzone_reserve = λ n size alignment. some (zone n size);
  malloc = λ n size alignment. none;
  realloc = λ n ptr size alignment. none;
  comp_op_bulk_alloc = λ n num. some (from 100 num);
  pktmbuf_alloc_bulk = λ n num. some (from 200 num);
  pktmbuf_chain = λ num. true;
  pktmbuf_append = λ size len. true;
  mem_virt2iova = λ addr. addr;
}

abbrev configuration : Configuration
configuration = record {
  burst_size = 4;
  max_sgl_segs = 2;
  decompressed_seg_size = 2048;
  compressed_seg_size = 4096;
  window_size = 0;
  huffman_enc = Huffman.dynamic;
  max_preallocate_memzones = 30;
  checksum_type = Checksum.no_checksum;
}

abbrev build : BuildConfig
build = record {
  pktmbuf_headroom = 128;
  max_memzone = 2560;
  max_lcore = 8;
  mempool_cache_max_size = 512;
}

sized : IsSized configuration
sized = record {
  burst = omega arith;
  segs = omega arith;
  segs_fit = omega arith;
  seg_size = omega arith;
  seg_size_fits = omega arith;
}

abbrev idle : QueuePair
idle = record {
  device_memory =
      init
        (record { world = record { now = 0; allocated_memzones = []; trace = [] }; updates = [] });
  num_ops_assembled = 0;
  pending_operations = [];
  operations = λ i. 0;
  mbufs = [];
  operation_at = λ p. reset_operation;
  freed_mbufs = [];
  freed_operations = [];
}

-- Three operations are pending and assembled.
abbrev busy : QueuePair
busy = record idle {
  num_ops_assembled = 3;
  pending_operations = 7 ∷ 8 ∷ 9 ∷ [];
  operations = λ i. 7 + i;
}

-- A buffer that needs three mbufs and two operations, and two compressed ones.
abbrev input : Buffer
input = record { data_addr = 65536; size = 5000 }

abbrev compressed : List Buffer
compressed = record { data_addr = 4096; size = 100 } ∷ record { data_addr = 8192; size = 90 } ∷ []

abbrev after_compress : QueuePair
after_compress = (assemble_from_decompressed rte configuration input 0 idle).1

compress_run :
    assemble_from_decompressed rte configuration input 0 idle ≡ (ok (2, 5000), after_compress)
unfolding assemble_from_decompressed assemble_bytes bulk_allocate allocate_operations allocate_mbufs
    push_pending source_bytes bytes_to_mbufs next_burst_bytes append_source append_data mbufs_to_ops
    destination_memzones take_memzone take allocate_one allocate memzone_allocate contains insert
    emplace of append_destination complete update_operation
compress_run = refl

abbrev after_decompress : QueuePair
after_decompress = (assemble_from_compressed rte configuration compressed input 0 0 idle).1

decompress_run :
    assemble_from_compressed rte configuration compressed input 0 0 idle
    ≡ (ok (1, (2, 4096)), after_decompress)
unfolding assemble_from_compressed assemble_buffers bulk_allocate allocate_operations allocate_mbufs
    push_pending source_buffers next_burst_buffers append_source append_data mbufs_to_ops
    destination_bytes append_destination complete update_operation
decompress_run = refl

assemble_from_decompressed-Assembled_example :
    let bytes = next_burst_bytes configuration 0 5000 in
    Assembled configuration idle (bytes_to_mbufs configuration bytes) 2 after_compress
    × (5000 ≡ 0 + bytes)
    × (0 < bytes)
assemble_from_decompressed-Assembled_example =
    assemble_from_decompressed-Assembled rte configuration input 0 idle after_compress sized
      (omega arith) (omega arith) compress_run

assemble_from_compressed-Assembled_example :
    let n = next_burst_buffers configuration 0 2 in
    Assembled configuration idle n 1 after_decompress
    × (2 ≡ 0 + n)
    × (4096 ≡ 0 + n * 2048)
    × (n ≡ min (4 * 2) 2)
assemble_from_compressed-Assembled_example =
    assemble_from_compressed-Assembled rte configuration compressed input 0 0 idle after_decompress
      sized (omega arith) (omega arith) decompress_run

accumulate_unused_lem_example :
    (3 < 2 → accumulate_unused 2 busy ≡ (err invalid, busy))
    × (2 ≤ 3
        → (f : ℕ → ℕ) × (accumulate_unused 2 busy
            ≡ (ok tt, record busy { operations = f; num_ops_assembled = 2 }))
          × ((i : ℕ) → i < 2 → f i ≡ 7 + (3 - 2 + i)))
accumulate_unused_lem_example = accumulate_unused_lem 2 busy

release_lem_example : release busy ≡ record busy {
  device_memory = put_all busy.operation_at (7 ∷ 8 ∷ 9 ∷ []) busy.device_memory;
  pending_operations = [];
  freed_mbufs = free_chains busy.operation_at (7 ∷ 8 ∷ 9 ∷ []) [];
  freed_operations = 9 ∷ 8 ∷ 7 ∷ [];
}
release_lem_example = release_lem busy

sizes-IsEnough_example : IsEnough build configuration
sizes-IsEnough_example = sizes-IsEnough build configuration sized (omega arith) (omega arith)

assembled_pending : (i : ℕ) → i < 3 → IsIn (busy.operations i) busy.pending_operations
assembled_pending zero h = inl refl
assembled_pending (suc zero) h = inr (inl refl)
assembled_pending (suc (suc zero)) h = inr (inr (inl refl))
assembled_pending (suc (suc (suc i))) h = absurd (omega arith)

freed_run :
    assemble_from_decompressed rte configuration input 5000 (release busy)
    ≡ (ok (3, 5000), release busy)
unfolding assemble_from_decompressed
freed_run = rw (ap (λ x. x.num_ops_assembled) (release_lem busy)) refl

assemble-release_example : ReportsFreed busy 3 (release busy)
assemble-release_example =
    assemble-release rte configuration input 5000 busy (release busy) sized assembled_pending
      freed_run
