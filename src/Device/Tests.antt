-- ===== src/Device/Tests.antt =====
-- The theorems on a device, at a device with two queue pairs.
use bitar.Base.{
  List, Option, ◌+◌, ◌<◌, true, false, [], ◌∷◌, length, none, some, Status, ok, ◌≡◌, ◌↔◌, refl,
  arith,
}
use bitar.Config.{Configuration, Huffman, Checksum, max_seg_size, max_mbuf_data_size}
use bitar.Rte.{Rte, BuildConfig, Range, Compressdev, success}
use bitar.DeviceMemory.{init}
use bitar.MemoryPool.{Pool}
use bitar.QueuePair.{QueuePair, reset_operation}
use bitar.QueuePair.Assemble.{Buffer}
use bitar.Device.{
  DeviceState, undefined, started, validate_window_size, validate_configuration,
  validate_queue_pairs, validate_segs, validate_window, validate_rest, num_qps,
}
use bitar.Device.Window.{IsSupported, validate_window_size_lem}
use bitar.Device.Validated.{Validated, validate_configuration-Validated}
use bitar.Device.Setup.{Device, entry_guard, initialize}
use bitar.Device.Setup.States.{entry_guard_iff, OutcomeIfAny, initialize-Outcome}
use bitar.Device.Bursts.{Run}
use bitar.Device.Compression.{compress, decompress}
use bitar.Device.Compression.Errors.{
  IsClean, IsCleanIfOk, compress-IsClean, decompress-IsCleanIfOk, busy_lem, compress_refused,
  decompress_refused,
}

abbrev build : BuildConfig
build = record {
  pktmbuf_headroom = 128;
  max_memzone = 2560;
  max_lcore = 8;
  mempool_cache_max_size = 512;
}

-- DPDK hands out nothing.
abbrev rte : Rte
rte = record {
  zero_size_area = 8;
  default_alignment = 64;
  memzone_reserve = λ n size alignment. none;
  malloc = λ n size alignment. none;
  realloc = λ n ptr size alignment. none;
  comp_op_bulk_alloc = λ n num. none;
  pktmbuf_alloc_bulk = λ n num. none;
  pktmbuf_chain = λ num. true;
  pktmbuf_append = λ size len. true;
  mem_virt2iova = λ addr. addr;
}

abbrev range : Range
range = record { min = 10; max = 15; increment = 1 }

-- A device that finishes one operation for each call, the oldest one of 7, 8 and 9.
abbrev dev : Compressdev
dev = record {
  max_nb_queue_pairs = 4;
  capability = some (record {
    oop_sgl_in_sgl_out = true;
    huffman_fixed = true;
    huffman_dynamic = true;
    window = range;
  });
  has_socket = true;
  configure = true;
  queue_pair_setup = λ qp. true;
  start = true;
  pktmbuf_pool_create = λ n size. true;
  comp_op_pool_create = λ n size. true;
  zmalloc = λ n size. true;
  private_xform_compress = true;
  private_xform_decompress = true;
  enqueue_burst = λ t ops. length ops;
  dequeue_burst = λ t n. record { op = 7 + t; status = success; produced = 0 } ∷ [];
  stats = λ t. record { enqueue_err_count = 0; dequeue_err_count = 0 };
}

abbrev configuration : Configuration
configuration = record {
  burst_size = 4;
  max_sgl_segs = 0;
  decompressed_seg_size = 2048;
  compressed_seg_size = 4096;
  window_size = 0;
  huffman_enc = Huffman.dynamic;
  max_preallocate_memzones = 30;
  checksum_type = Checksum.no_checksum;
}

abbrev nothing : Pool
nothing = record { world = record { now = 0; allocated_memzones = []; trace = [] }; updates = [] }

abbrev device : DeviceState → Device
device x = record {
  worker_lcores = 1 ∷ 4 ∷ [];
  configuration = some configuration;
  state = x;
  process = nothing;
  device_memory = none;
  qp_memory = [];
  stopped = 0;
  closed = 0;
}

abbrev idle : QueuePair
idle = record {
  device_memory = init nothing;
  num_ops_assembled = 0;
  pending_operations = [];
  operations = λ i. 0;
  mbufs = [];
  operation_at = λ p. reset_operation;
  freed_mbufs = [];
  freed_operations = [];
}

abbrev busy : QueuePair
busy = record idle { pending_operations = 7 ∷ 8 ∷ 9 ∷ []; num_ops_assembled = 3 }

abbrev run_of : {B : Type 0} → QueuePair → B → Run B
run_of q x = record { queue_pair = q; num_maybe_not_ok = 0; output = x }

abbrev input : Buffer
input = record { data_addr = 65536; size = 5000 }

validate_window_size_lem_example :
    (r : Status) × (validate_window_size 12 range ≡ some r) × ((r ≡ ok tt) ↔ IsSupported 12 range)
validate_window_size_lem_example = validate_window_size_lem 12 range (omega arith)

abbrev in_use : Configuration
in_use = record configuration { max_sgl_segs = 1; window_size = 15 }

validation_run : validate_configuration build dev 2 configuration ≡ some (ok tt, in_use)
unfolding validate_configuration validate_queue_pairs validate_segs validate_window validate_rest
    max_seg_size max_mbuf_data_size
validation_run = refl

validate_configuration-Validated_example : Validated build dev 2 configuration in_use
validate_configuration-Validated_example =
    validate_configuration-Validated build dev 2 configuration in_use validation_run

entry_guard_iff_example :
    (entry_guard (device started) 1 idle ≡ ok tt)
    ↔ ((started ≡ started) × (1 < num_qps (1 ∷ 4 ∷ [])) × (false ≡ false))
entry_guard_iff_example = entry_guard_iff (device started) 1 idle

initialize-Outcome_example :
    OutcomeIfAny build rte dev
      (λ qp. dev)
      (initialize build rte dev (λ qp. dev) true configuration (device undefined))
initialize-Outcome_example =
    initialize-Outcome build rte dev (λ qp. dev) true configuration (device undefined) (omega arith)

compress-IsClean_example :
    IsClean (compress true rte dev configuration 5 (device started) 1 (some input) (run_of idle []))
compress-IsClean_example =
    compress-IsClean true rte dev configuration 5 (device started) 1 (some input) (run_of idle [])
      refl

decompress-IsCleanIfOk_example : IsCleanIfOk (
    decompress true rte dev configuration 5
      (device started)
      1
      (input ∷ [])
      (some input)
      (run_of idle 0))
decompress-IsCleanIfOk_example =
    decompress-IsCleanIfOk true rte dev configuration 5 (device started) 1 input [] (some input)
      (run_of idle 0)

two_pairs : 1 < num_qps (1 ∷ 4 ∷ [])
unfolding num_qps
two_pairs = omega arith

busy_lem_example :
    ((b : Option Buffer)
      → compress true rte dev configuration 5 (device started) 1 b (run_of busy [])
        ≡ some (compress_refused true rte dev configuration b, run_of busy []))
    × ((bs : List Buffer) (destination : Option Buffer)
        → decompress true rte dev configuration 5 (device started) 1 bs destination (run_of busy 0)
          ≡ some (decompress_refused true rte dev configuration bs destination, run_of busy 0))
busy_lem_example =
    busy_lem true rte dev configuration 5 (device started) 1 (run_of busy []) (run_of busy 0) refl
      two_pairs refl refl
