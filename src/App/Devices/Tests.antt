-- ===== src/App/Devices/Tests.antt =====
-- A machine with one BlueField-2 device and three worker lcores, and a buffer of 17 segments.
use bitar.Base.{
  ℕ, suc, ◌+◌, ◌-◌, ◌*◌, ◌/◌, ◌<◌, ◌==◌, ◌||◌, true, List, [], ◌∷◌, Option, none, some, length,
  Result, ok, err, ◌≡◌, refl, arith,
}
use bitar.Config.{
  defaults, set_decompressed_seg_size, set_burst_size, set_max_preallocate_memzones, max_seg_size,
  max_mbuf_data_size,
}
use bitar.Rte.{BuildConfig, Rte, Compressdev, Memzone}
use bitar.MemoryPool.{Pool, of, emplace, allocate, memzone_allocate}
use bitar.DeviceMemory.{allocate_one, fill, give_up, preallocate}
use bitar.QueuePair.Sizes.{
  preallocate_queue_pair, create_pools, create_arrays, create_shared, create_xforms,
}
use bitar.Driver.{
  Platform, is_skipped, next_lcore_loop, get_next_lcore, worker_lcores_loop, worker_lcores_of,
  create, get_pci_vendor_id, get_pci_device_id, create_loop, create_devices, get_available,
  get_devices, list_available_device_ids, has_device_ids, not_available,
}
use bitar.Device.{
  num_qps, validate_queue_pairs, validate_segs, validate_window, validate_rest,
  validate_configuration, validate_bluefield,
}
use bitar.Device.Setup.{
  Device, preallocate_device, preallocate_queue_pairs, setup_queue_pairs, set_up, initialize,
}
use bitar.App.{max_preallocate_memzones_total, max_preallocate_memzones}
use bitar.App.Devices.{
  num_parallel_tests, bluefield_config, Hardware, set_up_device, set_up_each,
  get_bluefield_compress_devices,
}
use bitar.App.Devices.Startup.{AllStarted, get_bluefield_compress_devices-AllStarted}

abbrev build : BuildConfig
build = record {
  pktmbuf_headroom = 128;
  max_memzone = 2560;
  max_lcore = 8;
  mempool_cache_max_size = 512;
}

abbrev zone : ℕ → ℕ → Memzone
zone n size = record { ptr = n + 1; addr = 65536 * (n + 1); iova = 0; len = size }

abbrev rte : Rte
rte = record {
  zero_size_area = 8;
  default_alignment = 64;
  memzone_reserve = λ n size alignment. some (zone n size);
  malloc = λ n size alignment. none;
  realloc = λ n ptr size alignment. none;
  comp_op_bulk_alloc = λ n num. none;
  pktmbuf_alloc_bulk = λ n num. none;
  pktmbuf_chain = λ num. true;
  pktmbuf_append = λ size len. true;
  mem_virt2iova = λ addr. addr;
}

abbrev dev : Compressdev
dev = record {
  max_nb_queue_pairs = 4;
  capability = some (record {
    oop_sgl_in_sgl_out = true;
    huffman_fixed = true;
    huffman_dynamic = true;
    window = record { min = 10; max = 15; increment = 1 };
  });
  has_socket = true;
  configure = true;
  queue_pair_setup = λ qp. true;
  start = true;
  pktmbuf_pool_create = λ n size. true;
  comp_op_pool_create = λ n size. true;
  zmalloc = λ n size. true;
  private_xform_compress = true;
  private_xform_decompress = true;
  enqueue_burst = λ t ops. length ops;
  dequeue_burst = λ t n. [];
  stats = λ t. record { enqueue_err_count = 0; dequeue_err_count = 0 };
}

abbrev hardware : ℕ → Hardware
hardware id = record { is_bluefield = true; dev = dev; of_pair = λ qp. dev }

-- The lcores 1, 2, 4 and 5 are enabled, and 2 is the main one.
abbrev platform : Platform
platform = record {
  devices = 0 ∷ [];
  lcore_is_enabled = λ n. n == 1 || n == 2 || n == 4 || n == 5;
  main_lcore = 2;
  lcore_count = 4;
  has_name = λ id. true;
  pci_vendor_id = λ id. ok 5555;
  pci_device_id = λ id. ok 41686;
}

abbrev process : Pool
process = record { world = record { now = 0; allocated_memzones = []; trace = [] }; updates = [] }

abbrev devices_of : Option (Result (List Device)) → List Device
devices_of none = []
devices_of (some (err e)) = []
devices_of (some (ok ds)) = ds

abbrev count_of : Option (Result (List Device)) → ℕ
count_of none = 0
count_of (some (err e)) = 0
count_of (some (ok ds)) = suc (length ds)

ok_of_count :
    (o : Option (Result (List Device))) (n : ℕ) → count_of o ≡ suc n → o ≡ some (ok (devices_of o))
ok_of_count none n h = absurd (omega arith)
ok_of_count (some (err e)) n h = absurd (omega arith)
ok_of_count (some (ok ds)) n h = refl

abbrev run : Option (Result (List Device))
run = get_bluefield_compress_devices build rte hardware platform 1010820 process

one_device : count_of run ≡ 2
unfolding get_bluefield_compress_devices set_up_each set_up_device bluefield_config defaults
    set_decompressed_seg_size set_burst_size set_max_preallocate_memzones max_preallocate_memzones
    max_preallocate_memzones_total num_parallel_tests list_available_device_ids get_devices
    has_device_ids not_available get_available worker_lcores_of worker_lcores_loop get_next_lcore
    next_lcore_loop is_skipped create_devices create_loop create get_pci_vendor_id get_pci_device_id
    initialize validate_bluefield validate_configuration validate_queue_pairs validate_segs
    validate_window validate_rest max_seg_size max_mbuf_data_size set_up preallocate_device
    preallocate_queue_pairs setup_queue_pairs preallocate fill give_up allocate_one allocate
    memzone_allocate emplace of preallocate_queue_pair num_qps create_pools create_arrays
    create_shared create_xforms
one_device = refl

get_bluefield_compress_devices-AllStarted_example :
    AllStarted (devices_of run)
    × (0 < length (devices_of run)
        → 19 * length (devices_of run)
          < (1010820 + 59460 - 1) / 59460 + num_parallel_tests platform)
get_bluefield_compress_devices-AllStarted_example =
    get_bluefield_compress_devices-AllStarted build rte hardware platform 1010820 process
      (devices_of run) (ok_of_count run 1 one_device)
