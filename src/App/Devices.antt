-- ===== src/App/Devices.antt =====
-- GetBlueFieldCompressDevices() of apps/app_common.cc: the devices of the driver, each set up with the
-- configuration of the demo. `none` is a call that does not return.
pub mod Settings
pub mod Startup
mod Tests
use bitar.Base.{
  ℕ, zero, suc, ◌+◌, ◌-◌, Bool, true, false, List, [], ◌∷◌, Option, none, some, length, StatusCode,
  invalid, Status, Result, ok, err,
}
use bitar.Config.{
  Configuration, defaults, set_decompressed_seg_size, seg_size_fuel, set_burst_size,
  set_max_preallocate_memzones,
}
use bitar.Rte.{BuildConfig, Rte, Compressdev}
use bitar.MemoryPool.{Pool}
use bitar.Driver.{Platform, DeviceInfo, list_available_device_ids, get_devices}
use bitar.Device.{undefined}
use bitar.Device.Setup.{Device, initialize}
use bitar.App.{max_preallocate_memzones_total, max_preallocate_memzones}
use bitar.App.Evaluate.{decompressed_seg_size}

-- num_parallel_tests(): one lcore is the main one.
unfoldable pub num_parallel_tests : Platform → ℕ
num_parallel_tests p = p.lcore_count - 1

-- kBurstSize.
abbrev pub burst_size : ℕ
burst_size = 32

-- The configuration that a device is given.
abbrev with_memzones : ℕ → ℕ → ℕ → Configuration → Configuration
with_memzones max_buffer_size n num_devices c =
    set_max_preallocate_memzones
      (max_preallocate_memzones
        (max_preallocate_memzones_total max_buffer_size c.decompressed_seg_size n) num_devices)
      (set_burst_size burst_size c)

unfoldable pub bluefield_config : BuildConfig → ℕ → ℕ → ℕ → Option Configuration
bluefield_config b max_buffer_size n num_devices = elim (defaults b) [
  | none ↦ none
  | some c ↦ elim (set_decompressed_seg_size seg_size_fuel decompressed_seg_size c) [
    | none ↦ none
    | some c' ↦ some (with_memzones max_buffer_size n num_devices c')
  ]
]

-- What DPDK presents of a device, by its id; and whether the object is a BlueFieldCompressDevice.
pub record Hardware : Type 0 where
  pub is_bluefield : Bool
  pub dev : Compressdev
  pub of_pair : ℕ → Compressdev

-- A device as its constructor leaves it.
abbrev pub constructed : DeviceInfo → Pool → Device
constructed info p = record {
  worker_lcores = info.worker_lcores;
  configuration = none;
  state = undefined;
  process = p;
  device_memory = none;
  qp_memory = [];
  stopped = 0;
  closed = 0;
}

-- The loop over the devices: each is checked, configured and set up, up to the first that fails. All
-- of them allocate from the same process.
abbrev pub cons_started : Device → Option (Result (List Device)) → Option (Result (List Device))
cons_started d none = none
cons_started d (some (ok ds)) = some (ok (d ∷ ds))
cons_started d (some (err e)) = some (err e)

module _ (b : BuildConfig) (rte : Rte) (hardware : ℕ → Hardware) where
  unfoldable pub set_up_device : ℕ → ℕ → ℕ → DeviceInfo → Pool → Option (Status × Device)
  set_up_device max_buffer_size n num_devices info p =
      let h : Hardware = hardware info.device_id in
      elim h.is_bluefield [
        | false ↦ some (err invalid, constructed info p)
        | true ↦ elim (bluefield_config b max_buffer_size n num_devices) [
          | none ↦ none
          | some c ↦ initialize b rte h.dev h.of_pair true c (constructed info p)
        ]
      ]

  unfoldable pub set_up_each : ℕ → ℕ → ℕ → List DeviceInfo → Pool → Option (Result (List Device))
  set_up_each max_buffer_size n num_devices [] p = some (ok [])
  set_up_each max_buffer_size n num_devices (info ∷ infos) p =
      elim (set_up_device max_buffer_size n num_devices info p) [
        | none ↦ none
        | some (err e, d) ↦ some (err e)
        | some (ok u, d) ↦
            cons_started d (set_up_each max_buffer_size n num_devices infos d.process)
      ]

  abbrev pub set_up_found :
      ℕ → ℕ → Pool → Option (Result (List DeviceInfo)) → Option (Result (List Device))
  set_up_found max_buffer_size n p none = none
  set_up_found max_buffer_size n p (some (err e)) = some (err e)
  set_up_found max_buffer_size n p (some (ok infos)) =
      set_up_each max_buffer_size n (length infos) infos p

  abbrev pub of_available : Platform → ℕ → Pool → Result (List ℕ) → Option (Result (List Device))
  of_available platform max_buffer_size p (err e) = some (err e)
  of_available platform max_buffer_size p (ok device_ids) =
      set_up_found max_buffer_size (num_parallel_tests platform) p
        (get_devices b platform device_ids)

  unfoldable pub get_bluefield_compress_devices :
      Platform → ℕ → Pool → Option (Result (List Device))
  get_bluefield_compress_devices platform max_buffer_size p =
      of_available platform max_buffer_size p (list_available_device_ids platform)
