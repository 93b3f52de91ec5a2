-- ===== src/App/Demo/Tests.antt =====
-- A run of the whole demo on one device with 20 lcores and an input of 3000 bytes, which passes.
use bitar.Base.{
  invalid, ℕ, suc, ◌+◌, ◌*◌, ◌==◌, true, List, [], ◌∷◌, none, some, length, ok, err, ◌≡◌, refl,
  zero, ltb, if◌then◌else◌,
}
use bitar.Config.{
  defaults, set_decompressed_seg_size, set_burst_size, set_max_preallocate_memzones, max_seg_size,
  max_mbuf_data_size,
}
use bitar.Rte.{BuildConfig, Rte, Compressdev, Memzone, success}
use bitar.MemoryPool.{Pool, of, emplace, allocate, memzone_allocate}
use bitar.DeviceMemory.{
  allocate_one, fill, give_up, preallocate, DeviceMemory, put, put_back, take, insert, contains,
  remove,
}
use bitar.QueuePair.Sizes.{
  preallocate_queue_pair, create_pools, create_arrays, create_shared, create_xforms,
}
use bitar.Driver.{
  Platform, is_skipped, next_lcore_loop, get_next_lcore, worker_lcores_loop, worker_lcores_of,
  create, get_pci_vendor_id, get_pci_device_id, create_loop, create_devices, get_available,
  get_devices, list_available_device_ids, has_device_ids, not_available,
}
use bitar.Device.{
  num_qps, validate_queue_pairs, validate_segs, validate_window, validate_rest,
  validate_configuration, validate_bluefield,
}
use bitar.Device.Setup.{
  preallocate_device, preallocate_queue_pairs, setup_queue_pairs, set_up, initialize, entry_guard,
}
use bitar.App.{max_preallocate_memzones_total, max_preallocate_memzones, segments, segments_loop}
use bitar.App.Devices.{
  num_parallel_tests, bluefield_config, Hardware, set_up_device, set_up_each,
  get_bluefield_compress_devices,
}
use bitar.QueuePair.{
  accumulate_unused, recycle_resources, bulk_allocate, allocate_operations, allocate_mbufs,
  append_data, update_operation,
}
use bitar.QueuePair.Assemble.{
  Buffer, assemble_from_decompressed, assemble_from_compressed, assemble_bytes, assemble_buffers,
  next_burst_bytes, bytes_to_mbufs, next_burst_buffers, mbufs_to_ops, push_pending, append_source,
  append_destination, complete, take_memzone, source_bytes, source_buffers, destination_memzones,
  destination_bytes,
}
use bitar.Device.Bursts.{
  run_bursts, bursts, drain, enqueue_burst, dequeue_burst, dequeue_each, dequeue_one,
  get_error_count,
}
use bitar.Device.Compression.{
  compress, run_compress, decompress, decompress_into, run_decompress, collect, recycle, put_each,
}
use bitar.App.Sync.{evaluate_sync, compress_tests, decompress_tests}
use bitar.App.Targets.{targets, visits, advance, enough_queue_pairs, total_num_qps}
use bitar.App.Async.{
  Workers, make_slots, add_slot, store, recycle_buffers, recycle_vector, recycle_slots,
  compress_result_callback, num_launched, wait_for_async_completion, benchmark_compress_async,
  compress_rounds,
}
use bitar.App.Evaluate.{
  allocate_each, decompressed_sizes, wait_for_decompression, benchmark_decompress_async,
  decompress_rounds, total_size, compare_segments, compare_with_input, evaluate_decompression,
  evaluate_async,
}
use bitar.Base.Int.{pos}
use bitar.App.Input.{
  File, read_data, read_opened, read_raw_data, read_rounds, get_num_bytes_to_read,
}
use bitar.App.Demo.{Surroundings, evaluate, run, main}
use bitar.App.Demo.Passing.{Passed, evaluate-Passed}

abbrev build : BuildConfig
build = record {
  pktmbuf_headroom = 128;
  max_memzone = 2560;
  max_lcore = 21;
  mempool_cache_max_size = 512;
}

abbrev zone : ℕ → ℕ → Memzone
zone n size = record { ptr = n + 1; addr = 65536 * (n + 1); iova = 0; len = size }

abbrev from : ℕ → ℕ → List ℕ
from k zero = []
from k (suc n) = k ∷ from (k + 1) n

abbrev rte : Rte
rte = record {
  zero_size_area = 8;
  default_alignment = 64;
  memzone_reserve = λ n size alignment. some (zone n size);
  malloc = λ n size alignment. none;
  realloc = λ n ptr size alignment. none;
  comp_op_bulk_alloc = λ n num. some (from 100 num);
  pktmbuf_alloc_bulk = λ n num. some (from 200 num);
  pktmbuf_chain = λ num. true;
  pktmbuf_append = λ size len. true;
  mem_virt2iova = λ addr. addr;
}

-- A device that finishes an operation at once. The first 12 calls are those of three compressions.
abbrev dev : Compressdev
dev = record {
  max_nb_queue_pairs = 32;
  capability = some (record {
    oop_sgl_in_sgl_out = true;
    huffman_fixed = true;
    huffman_dynamic = true;
    window = record { min = 10; max = 15; increment = 1 };
  });
  has_socket = true;
  configure = true;
  queue_pair_setup = λ qp. true;
  start = true;
  pktmbuf_pool_create = λ n size. true;
  comp_op_pool_create = λ n size. true;
  zmalloc = λ n size. true;
  private_xform_compress = true;
  private_xform_decompress = true;
  enqueue_burst = λ t ops. length ops;
  dequeue_burst =
      λ t n. record { op = 100; status = success; produced = if ltb t 12 then 70 else 3000 } ∷ [];
  stats = λ t. record { enqueue_err_count = 0; dequeue_err_count = 0 };
}

abbrev hardware : ℕ → Hardware
hardware id = record { is_bluefield = true; dev = dev; of_pair = λ qp. dev }

abbrev platform : Platform
platform = record {
  devices = 0 ∷ [];
  lcore_is_enabled = λ n. ltb n 21;
  main_lcore = 0;
  lcore_count = 21;
  has_name = λ id. true;
  pci_vendor_id = λ id. ok 5555;
  pci_device_id = λ id. ok 41686;
}

abbrev process : Pool
process = record { world = record { now = 0; allocated_memzones = []; trace = [] }; updates = [] }

-- The workers of queue pair 0 fill a memzone, and the others have nothing to compress.
abbrev filled_memory : DeviceMemory
filled_memory = record {
  process = record {
    world = record { now = 0; allocated_memzones = (65536, zone 0 65406) ∷ []; trace = [] };
    updates = [];
  };
  memzone_pool = [];
  occupied_memzones = some (zone 0 65406) ∷ [];
  num_preallocated_memzones = 1;
}

abbrev workers : Workers
workers = record {
  launch = λ round t. true;
  compress_result =
      λ round t. if t.1 == 0 then ok (record { data_addr = 65536; size = 70 } ∷ []) else ok [];
  after_compress = λ round ts ms i. filled_memory;
  decompress_status = λ round t. ok tt;
  not_launched = λ round t. 0;
}

abbrev surroundings : Surroundings
surroundings = record {
  destination_of = λ n. some (record { data_addr = 131072; size = n });
  equal = true;
  workers = workers;
  answers = record {
    allocates = λ k n. true;
    decompressed_size = λ t. 150;
    equal = λ k offset. true;
  };
}

abbrev input : Buffer
input = record { data_addr = 4096; size = 3000 }

evaluate_run : evaluate true build rte hardware platform 9 surroundings input process ≡ some (ok tt)
unfolding evaluate get_bluefield_compress_devices set_up_each set_up_device bluefield_config
    defaults set_decompressed_seg_size set_burst_size set_max_preallocate_memzones
    max_preallocate_memzones max_preallocate_memzones_total num_parallel_tests
    list_available_device_ids get_devices has_device_ids not_available get_available
    worker_lcores_of worker_lcores_loop get_next_lcore next_lcore_loop is_skipped create_devices
    create_loop create get_pci_vendor_id get_pci_device_id initialize validate_bluefield
    validate_configuration validate_queue_pairs validate_segs validate_window validate_rest
    max_seg_size max_mbuf_data_size set_up preallocate_device preallocate_queue_pairs
    setup_queue_pairs preallocate fill give_up allocate_one allocate memzone_allocate emplace of
    preallocate_queue_pair num_qps create_pools create_arrays create_shared create_xforms
    evaluate_sync compress_tests decompress_tests compress run_compress decompress decompress_into
    run_decompress collect recycle put_each put put_back take insert contains remove
    accumulate_unused recycle_resources bulk_allocate allocate_operations allocate_mbufs append_data
    update_operation assemble_from_decompressed assemble_from_compressed assemble_bytes
    assemble_buffers next_burst_bytes bytes_to_mbufs next_burst_buffers mbufs_to_ops push_pending
    append_source append_destination complete take_memzone source_bytes source_buffers
    destination_memzones destination_bytes entry_guard run_bursts bursts drain enqueue_burst
    dequeue_burst dequeue_each dequeue_one get_error_count evaluate_async enough_queue_pairs
    total_num_qps targets visits advance segments segments_loop allocate_each make_slots add_slot
    compress_rounds benchmark_compress_async num_launched wait_for_async_completion
    compress_result_callback store recycle_slots recycle_vector recycle_buffers
    evaluate_decompression decompressed_sizes decompress_rounds benchmark_decompress_async
    wait_for_decompression compare_with_input total_size compare_segments
evaluate_run = refl

evaluate-Passed_example : Passed true build rte hardware platform 9 surroundings input process
evaluate-Passed_example =
    evaluate-Passed true build rte hardware platform 9 surroundings input process evaluate_run

-- The same by the command line, with a raw file that holds the input.
abbrev file : File
file = record {
  open_file = ok tt;
  get_size = ok 3000;
  allocate_buffer = λ n. ok tt;
  read_at = λ round n. ok n;
  read_parquet = err invalid;
  read_feather = err invalid;
  table_size = err invalid;
  write_table = λ round. err invalid;
  read_batches = λ round. err invalid;
}

abbrev name : List ℕ
name = b'a' ∷ []

main_run :
    main true build rte hardware platform 9 surroundings file 4096 process true (run name (pos 0) 0)
    ≡ some 0
unfolding main read_data read_opened read_raw_data read_rounds get_num_bytes_to_read evaluate
    get_bluefield_compress_devices set_up_each set_up_device bluefield_config defaults
    set_decompressed_seg_size set_burst_size set_max_preallocate_memzones max_preallocate_memzones
    max_preallocate_memzones_total num_parallel_tests list_available_device_ids get_devices
    has_device_ids not_available get_available worker_lcores_of worker_lcores_loop get_next_lcore
    next_lcore_loop is_skipped create_devices create_loop create get_pci_vendor_id get_pci_device_id
    initialize validate_bluefield validate_configuration validate_queue_pairs validate_segs
    validate_window validate_rest max_seg_size max_mbuf_data_size set_up preallocate_device
    preallocate_queue_pairs setup_queue_pairs preallocate fill give_up allocate_one allocate
    memzone_allocate emplace of preallocate_queue_pair num_qps create_pools create_arrays
    create_shared create_xforms evaluate_sync compress_tests decompress_tests compress run_compress
    decompress decompress_into run_decompress collect recycle put_each put put_back take insert
    contains remove accumulate_unused recycle_resources bulk_allocate allocate_operations
    allocate_mbufs append_data update_operation assemble_from_decompressed assemble_from_compressed
    assemble_bytes assemble_buffers next_burst_bytes bytes_to_mbufs next_burst_buffers mbufs_to_ops
    push_pending append_source append_destination complete take_memzone source_bytes source_buffers
    destination_memzones destination_bytes entry_guard run_bursts bursts drain enqueue_burst
    dequeue_burst dequeue_each dequeue_one get_error_count evaluate_async enough_queue_pairs
    total_num_qps targets visits advance segments segments_loop allocate_each make_slots add_slot
    compress_rounds benchmark_compress_async num_launched wait_for_async_completion
    compress_result_callback store recycle_slots recycle_vector recycle_buffers
    evaluate_decompression decompressed_sizes decompress_rounds benchmark_decompress_async
    wait_for_decompression compare_with_input total_size compare_segments
main_run = refl
