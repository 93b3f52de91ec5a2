-- ===== src/App/Sync/Tests.antt =====
-- A run of EvaluateSync() that passes: an input of 3000 bytes, in two segments.
use bitar.Base.{
  min, Result, ℕ, zero, suc, ◌+◌, ◌*◌, ltb, if◌then◌else◌, Bool, true, false, arith, err, List, [],
  ◌∷◌, none, some, length, Option, Status, ok, ◌≡◌, refl,
}
use bitar.Config.{Configuration, Huffman, Checksum}
use bitar.Rte.{Rte, Compressdev, Dequeued, Memzone, success}
use bitar.MemoryPool.{of}
use bitar.DeviceMemory.{DeviceMemory, put, put_back, take, insert, contains, remove}
use bitar.QueuePair.{
  has_pending_operations, reset_operation, accumulate_unused, recycle_resources, bulk_allocate,
  allocate_operations, allocate_mbufs, append_data, update_operation,
}
use bitar.QueuePair.Assemble.{
  Buffer, assemble_from_decompressed, assemble_from_compressed, assemble_bytes, assemble_buffers,
  next_burst_bytes, bytes_to_mbufs, next_burst_buffers, mbufs_to_ops, push_pending, append_source,
  append_destination, complete, take_memzone, source_bytes, source_buffers, destination_memzones,
  destination_bytes,
}
use bitar.Device.{started, num_qps}
use bitar.Device.Setup.{Device, entry_guard}
use bitar.Device.Bursts.{
  Run, run_bursts, bursts, drain, enqueue_burst, dequeue_burst, dequeue_each, dequeue_one,
  get_error_count,
}
use bitar.Device.Compression.{
  compress, run_compress, decompress, decompress_into, run_decompress, collect, recycle, put_each,
}
use bitar.QueuePair.Assemble.Burst.{IsSized}
use bitar.Device.Compression.Errors.{IsCleanIfOk}
use bitar.Device.Bursts.Pending.{num_idle}
use bitar.Device.Bursts.Drain.{Responds}
use bitar.Device.Compression.Ends.{compress-Returns, decompress-Returns}
use bitar.App.Sync.{collecting, evaluate_sync, compress_tests, decompress_tests}
use bitar.App.Sync.Passing.{Passed, evaluate_sync-Passed}

abbrev zone : ℕ → Memzone
zone n = record { ptr = n + 1; addr = 4096 * (n + 1); iova = 0; len = 4096 }

abbrev from : ℕ → ℕ → List ℕ
from k zero = []
from k (suc n) = k ∷ from (k + 1) n

abbrev rte : Rte
rte = record {
  zero_size_area = 8;
  default_alignment = 64;
  memzone_reserve = λ n size alignment. none;
  malloc = λ n size alignment. none;
  realloc = λ n ptr size alignment. none;
  comp_op_bulk_alloc = λ n num. some (from 100 num);
  pktmbuf_alloc_bulk = λ n num. some (from 200 num);
  pktmbuf_chain = λ num. true;
  pktmbuf_append = λ size len. true;
  mem_virt2iova = λ addr. addr;
}

abbrev finished : ℕ → ℕ → Dequeued
finished op produced = record { op = op; status = success; produced = produced }

-- A device that finishes two operations at once. The first 12 calls are those of three compressions.
abbrev dev : Compressdev
dev = record {
  max_nb_queue_pairs = 4;
  capability = none;
  has_socket = true;
  configure = true;
  queue_pair_setup = λ qp. true;
  start = true;
  pktmbuf_pool_create = λ n size. true;
  comp_op_pool_create = λ n size. true;
  zmalloc = λ n size. true;
  private_xform_compress = true;
  private_xform_decompress = true;
  enqueue_burst = λ t ops. length ops;
  dequeue_burst = λ t n.
      if ltb t 12
      then finished 100 70 ∷ finished 101 60 ∷ []
      else finished 100 2048 ∷ finished 101 952 ∷ [];
  stats = λ t. record { enqueue_err_count = 0; dequeue_err_count = 0 };
}

abbrev configuration : Configuration
configuration = record {
  burst_size = 4;
  max_sgl_segs = 1;
  decompressed_seg_size = 2048;
  compressed_seg_size = 4096;
  window_size = 15;
  huffman_enc = Huffman.dynamic;
  max_preallocate_memzones = 30;
  checksum_type = Checksum.no_checksum;
}

abbrev memory : DeviceMemory
memory = record {
  process = record {
    world = record {
      now = 0;
      allocated_memzones = (8192, zone 1) ∷ (4096, zone 0) ∷ [];
      trace = [];
    };
    updates = [];
  };
  memzone_pool = some (zone 0) ∷ some (zone 1) ∷ [];
  occupied_memzones = [];
  num_preallocated_memzones = 2;
}

abbrev device : Device
device = record {
  worker_lcores = 1 ∷ [];
  configuration = some configuration;
  state = started;
  process = memory.process;
  device_memory = some memory;
  qp_memory = [];
  stopped = 0;
  closed = 0;
}

abbrev idle : Run (List Buffer)
idle = record {
  queue_pair = record {
    device_memory = memory;
    num_ops_assembled = 0;
    pending_operations = [];
    operations = λ i. 0;
    mbufs = [];
    operation_at = λ p. reset_operation;
    freed_mbufs = [];
    freed_operations = [];
  };
  num_maybe_not_ok = 0;
  output = [];
}

abbrev input : Buffer
input = record { data_addr = 65536; size = 3000 }

abbrev destination_of : ℕ → Option Buffer
destination_of n = some (record { data_addr = 131072; size = n })

abbrev state_of : Option (Status × Run ℕ) → Run ℕ
state_of none = record { queue_pair = idle.queue_pair; num_maybe_not_ok = 0; output = 0 }
state_of (some (r, s)) = s

abbrev end : Run ℕ
end = state_of (evaluate_sync true rte dev configuration 9 device input destination_of true idle)

abbrev is_ok : Option (Status × Run ℕ) → Bool
is_ok none = false
is_ok (some (ok u, s)) = true
is_ok (some (err e, s)) = false

ok_end : (o : Option (Status × Run ℕ)) → is_ok o ≡ true → o ≡ some (ok tt, state_of o)
ok_end none h = absurd (grind arith)
ok_end (some (ok u, s)) h = refl
ok_end (some (err e, s)) h = absurd (grind arith)

status_run :
    is_ok (evaluate_sync true rte dev configuration 9 device input destination_of true idle) ≡ true
unfolding evaluate_sync compress_tests decompress_tests compress run_compress decompress
    decompress_into run_decompress collect recycle put_each put put_back take insert contains remove
    of accumulate_unused recycle_resources bulk_allocate allocate_operations allocate_mbufs
    append_data update_operation assemble_from_decompressed assemble_from_compressed assemble_bytes
    assemble_buffers next_burst_bytes bytes_to_mbufs next_burst_buffers mbufs_to_ops push_pending
    append_source append_destination complete take_memzone source_bytes source_buffers
    destination_memzones destination_bytes entry_guard num_qps run_bursts bursts drain enqueue_burst
    dequeue_burst dequeue_each dequeue_one get_error_count
status_run = refl

passing_run :
    evaluate_sync true rte dev configuration 9 device input destination_of true idle
    ≡ some (ok tt, end)
passing_run = ok_end _ status_run

evaluate_sync-Passed_example :
    Passed true rte dev configuration 9 device input destination_of true idle end
evaluate_sync-Passed_example =
    evaluate_sync-Passed true rte dev configuration 9 device input destination_of true idle end refl
      passing_run

sized : IsSized configuration
sized = record {
  burst = omega arith;
  segs = omega arith;
  segs_fit = omega arith;
  seg_size = omega arith;
  seg_size_fits = omega arith;
}

-- The same device, where the first five calls are idle.
abbrev slow : Compressdev
slow = record dev {
  enqueue_burst = λ t ops. if ltb t 5 then 0 else length ops;
  dequeue_burst = λ t n. if ltb t 5 then [] else finished 100 70 ∷ finished 101 60 ∷ [];
}

few_early : (t : ℕ) → num_idle (λ n. ltb n 5) t ≡ min t 5
unfolding num_idle
few_early zero = refl
few_early (suc t) = ground (arith, few_early t)

responds : Responds slow configuration 5
responds = record {
  idle = λ t. ltb t 5;
  few = λ t. omega (arith, few_early t);
  no_more = λ t ops. ground arith;
  accepts = λ t ops e h. ground arith;
  hands_out = λ t e. ground arith;
}

compress-Returns_example :
    (r : Result (List Buffer)) × (s' : Run (List Buffer)) × (compress true rte slow configuration
        6006 device 0
        (some input)
        idle
      ≡ some (r, s'))
    × (has_pending_operations s'.queue_pair ≡ false)
compress-Returns_example =
    compress-Returns true rte slow configuration sized responds 6006 device 0 input idle refl
      (omega arith) (omega arith)

-- Of two compressed buffers.
abbrev both : List Buffer
both = record { data_addr = 4096; size = 70 } ∷ record { data_addr = 8192; size = 60 } ∷ []

decompress-Returns_example :
    (r : Result (Option ℕ)) × (s' : Run ℕ) × (decompress true rte slow configuration 10 device 0
        both
        (destination_of 4096)
        (collecting 0 idle)
      ≡ some (r, s'))
    × IsCleanIfOk (some (r, s'))
decompress-Returns_example =
    decompress-Returns true rte slow configuration sized responds 10 device 0
      (record { data_addr = 4096; size = 70 }) (record { data_addr = 8192; size = 60 } ∷ [])
      (destination_of 4096) (collecting 0 idle) refl (omega arith) (omega arith)
