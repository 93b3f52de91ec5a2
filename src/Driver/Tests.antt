-- ===== src/Driver/Tests.antt =====
-- The theorems on the driver at a machine with four lcores and two BlueField-2 devices.
use bitar.Base.{ℕ, ◌<◌, ◌==◌, ◌||◌, Bool, true, false, List, [], ◌∷◌, some, ok, ◌≡◌, refl, arith}
use bitar.Rte.{BuildConfig}
use bitar.Driver.{
  Platform, is_skipped, create, create_devices, get_devices, get_next_lcore, DeviceInfo,
  get_pci_vendor_id, get_pci_device_id, create_loop,
}
use bitar.Driver.Lcores.{eligible, Found, get_next_lcore-Found}
use bitar.Driver.Split.{IsSplit, AllCreated, no_ids, more_ids, create_devices-IsSplit}
use bitar.Driver.Devices.{no_request, more_requests, get_devices_lem}

abbrev build : BuildConfig
build = record {
  pktmbuf_headroom = 128;
  max_memzone = 2560;
  max_lcore = 8;
  mempool_cache_max_size = 512;
}

-- The lcores 1, 2, 4 and 5 are enabled, and 2 is the main one.
abbrev enabled : ℕ → Bool
enabled n = n == 1 || n == 2 || n == 4 || n == 5

abbrev platform : Platform
platform = record {
  devices = 0 ∷ 1 ∷ [];
  lcore_is_enabled = enabled;
  main_lcore = 2;
  lcore_count = 4;
  has_name = λ id. true;
  pci_vendor_id = λ id. ok 5555;
  pci_device_id = λ id. ok 41686;
}

-- No lcore is enabled but the main one.
abbrev alone : Platform
alone = record {
  devices = 0 ∷ [];
  lcore_is_enabled = λ id. id == 2;
  main_lcore = 2;
  lcore_count = 1;
  has_name = λ id. true;
  pci_vendor_id = λ id. ok 5555;
  pci_device_id = λ id. ok 41686;
}

created : (id : ℕ) → create platform id ≡ ok tt
unfolding create get_pci_vendor_id get_pci_device_id
created id = refl

both_created : AllCreated platform (0 ∷ 1 ∷ [])
both_created = more_ids (created 0) (more_ids (created 1) no_ids)

workers : eligible platform true 0 8 ≡ 1 ∷ 4 ∷ 5 ∷ []
unfolding is_skipped
workers = refl

split_run :
    create_devices platform (0 ∷ 1 ∷ []) (1 ∷ 4 ∷ 5 ∷ [])
    ≡ some (
        ok (
          record { device_id = 0; worker_lcores = 1 ∷ 4 ∷ [] }
          ∷ record { device_id = 1; worker_lcores = 5 ∷ [] }
          ∷ []))
unfolding create_devices create_loop create get_pci_vendor_id get_pci_device_id
split_run = refl

get_devices_lem_example :
    (ds : List DeviceInfo) × (get_devices build platform (0 ∷ 1 ∷ []) ≡ some (ok ds))
    × IsSplit 1 (0 ∷ 1 ∷ []) (eligible platform true 0 8) ds
unfolding is_skipped
get_devices_lem_example =
    get_devices_lem build platform 0 (1 ∷ []) (more_requests refl (more_requests refl no_request))
      refl (omega arith) (omega arith) both_created

create_devices-IsSplit_example : IsSplit 1 (0 ∷ 1 ∷ []) (1 ∷ 4 ∷ 5 ∷ []) (
    record { device_id = 0; worker_lcores = 1 ∷ 4 ∷ [] }
    ∷ record { device_id = 1; worker_lcores = 5 ∷ [] }
    ∷ [])
create_devices-IsSplit_example =
    create_devices-IsSplit platform 0 (1 ∷ []) (1 ∷ 4 ∷ 5 ∷ []) (omega arith) split_run

get_next_lcore-Found_example :
    (next left : ℕ) × (get_next_lcore build platform true false 7 2 ≡ some next)
    × Found build platform true 2 6 next left
get_next_lcore-Found_example = get_next_lcore-Found build platform true 6 7 2 refl (omega arith)

all_skipped : (id : ℕ) → id < 8 → is_skipped alone true id ≡ true
unfolding is_skipped
all_skipped id h = ground arith
