-- ===== src/Driver.antt =====
-- src/driver.cc and GetNextLcore of src/util.cc: which devices there are and how the worker lcores are
-- spread over them. What the platform says of its devices and lcores are parameters.
pub mod Lcores
pub mod Split
pub mod Devices
mod Tests
use bitar.Base.{
  ℕ, zero, suc, ◌+◌, ◌-◌, ◌/◌, ◌%◌, ◌^◌, ltb, leb, ◌==◌, if◌then◌else◌, Bool, true, false, not,
  ◌&&◌, ◌||◌, List, [], ◌∷◌, ◌++◌, Option, none, some, length, take, drop, StatusCode, invalid,
  not_implemented, unknown_error, Status, Result, ok, err,
}
use bitar.Rte.{BuildConfig}
use mathlib.Core.Option

-- What rte_compressdev_devices_get(), rte_lcore_is_enabled(), rte_get_main_lcore() and
-- rte_lcore_count() answer, and whether the name of a device is found; `pci_vendor_id` and
-- `pci_device_id` are what the files below /sys/class/infiniband hold, once they are read as numbers.
pub record Platform : Type 0 where
  pub devices : List ℕ
  pub lcore_is_enabled : ℕ → Bool
  pub main_lcore : ℕ
  pub lcore_count : ℕ
  pub has_name : ℕ → Bool
  pub pci_vendor_id : ℕ → Result ℕ
  pub pci_device_id : ℕ → Result ℕ

-- GetNextLcore(), by rounds; `none` when they run out.
abbrev pub wrapped : BuildConfig → Bool → ℕ → ℕ
wrapped b wrap id = if wrap then id % b.max_lcore else id

unfoldable pub is_skipped : Platform → Bool → ℕ → Bool
is_skipped p skip_main id = not (p.lcore_is_enabled id) || skip_main && id == p.main_lcore

unfoldable pub next_lcore_loop : BuildConfig → Platform → Bool → Bool → ℕ → ℕ → Option ℕ
next_lcore_loop b p skip_main wrap zero id = none
next_lcore_loop b p skip_main wrap (suc fuel) id =
    let rest = next_lcore_loop b p skip_main wrap fuel (wrapped b wrap (id + 1)) in
    if ltb id b.max_lcore && is_skipped p skip_main id then rest else some id

unfoldable pub get_next_lcore : BuildConfig → Platform → Bool → Bool → ℕ → ℕ → Option ℕ
get_next_lcore b p skip_main wrap fuel start_id =
    next_lcore_loop b p skip_main wrap fuel (wrapped b wrap start_id)

-- The loop of GetDevices() over the worker lcores, and the fuel that any search needs at most.
abbrev pub lcore_fuel : BuildConfig → ℕ
lcore_fuel b = b.max_lcore + 1

unfoldable pub worker_lcores_loop : BuildConfig → Platform → ℕ → Option ℕ → Option (List ℕ)
worker_lcores_loop b p zero found = none
worker_lcores_loop b p (suc fuel) none = none
worker_lcores_loop b p (suc fuel) (some id) =
    let found : Option ℕ = get_next_lcore b p true false (lcore_fuel b) (id + 1) in
    let rest = worker_lcores_loop b p fuel found in
    if ltb id b.max_lcore then Option.map (λ ids. id ∷ ids) rest else some []

unfoldable pub worker_lcores_of : BuildConfig → Platform → Option (List ℕ)
worker_lcores_of b p =
    worker_lcores_loop b p (lcore_fuel b) (get_next_lcore b p true false (lcore_fuel b) 0)

-- ListAvailableDeviceIds() and HasDeviceIds of the anonymous namespace.
abbrev pub at_least_one : List ℕ → Result (List ℕ)
at_least_one [] = err invalid
at_least_one (x ∷ xs) = ok (x ∷ xs)

unfoldable pub list_available_device_ids : Platform → Result (List ℕ)
list_available_device_ids p = at_least_one p.devices

abbrev pub has_id : List ℕ → ℕ → Bool
has_id [] id = false
has_id (x ∷ xs) id = x == id || has_id xs id

unfoldable pub not_available : List ℕ → List ℕ → List ℕ
not_available avail_dev_ids [] = []
not_available avail_dev_ids (id ∷ ids) =
    let rest = not_available avail_dev_ids ids in
    if has_id avail_dev_ids id then rest else id ∷ rest

abbrev pub none_missing : List ℕ → Status
none_missing [] = ok tt
none_missing (id ∷ ids) = err invalid

unfoldable pub has_device_ids : List ℕ → List ℕ → Status
has_device_ids avail_dev_ids device_ids = none_missing (not_available avail_dev_ids device_ids)

-- The enumerations PCIVendorId and PCIDeviceId; DeviceManager::Create() is specialized for the
-- BlueField-2 only.
abbrev pub mellanox : ℕ
mellanox = 5555

abbrev pub mellanox_connectx6dxbf : ℕ
mellanox_connectx6dxbf = 41686

abbrev pub mellanox_connectx7bf : ℕ
mellanox_connectx7bf = 41692

-- GetPCIId(): a number that the enumeration has no value for is refused.
abbrev pub known_id : (ℕ → Bool) → Result ℕ → Result ℕ
known_id has (err e) = err e
known_id has (ok n) = if has (n % 2 ^ 16) then ok (n % 2 ^ 16) else err not_implemented

unfoldable pub get_pci_vendor_id : Platform → ℕ → Result ℕ
get_pci_vendor_id p id = known_id (λ n. n == mellanox) (p.pci_vendor_id id)

unfoldable pub get_pci_device_id : Platform → ℕ → Result ℕ
get_pci_device_id p id =
    known_id (λ n. n == mellanox_connectx6dxbf || n == mellanox_connectx7bf) (p.pci_device_id id)

-- DeviceManager::Create(), by the ids, and the checks in front of it.
abbrev pub created : Result ℕ → Status
created (err e) = err e
created (ok n) = if n == mellanox_connectx6dxbf then ok tt else err not_implemented

abbrev pub create_with : Platform → ℕ → Result ℕ → Status
create_with p id (err e) = err e
create_with p id (ok vendor) = created (get_pci_device_id p id)

unfoldable pub create : Platform → ℕ → Status
create p id = if p.has_name id then create_with p id (get_pci_vendor_id p id) else err unknown_error

-- A device that is created: its id and the lcores of its queue pairs.
pub record DeviceInfo : Type 0 where
  pub device_id : ℕ
  pub worker_lcores : List ℕ

-- The loop of CreateDevices(): `lcores` is what worker_lcores_iter has ahead of it.
abbrev pub num_lcores : ℕ → ℕ → ℕ
num_lcores min_num_qps_per_dev remaining_lcores =
    min_num_qps_per_dev + (if ltb 0 remaining_lcores then 1 else 0)

abbrev pub cons_device : DeviceInfo → Result (List DeviceInfo) → Result (List DeviceInfo)
cons_device d (ok ds) = ok (d ∷ ds)
cons_device d (err e) = err e

abbrev pub after_create : Status → DeviceInfo → Result (List DeviceInfo) → Result (List DeviceInfo)
after_create (ok u) d rest = cons_device d rest
after_create (err e) d rest = err e

unfoldable pub create_loop : Platform → ℕ → ℕ → List ℕ → List ℕ → Result (List DeviceInfo)
create_loop p min_num_qps remaining [] lcores = ok []
create_loop p min_num_qps remaining (id ∷ ids) lcores =
    let n : ℕ = num_lcores min_num_qps remaining in
    after_create (create p id) (record { device_id = id; worker_lcores = take n lcores })
      (create_loop p min_num_qps (remaining - 1) ids (drop n lcores))

-- CreateDevices(). With no device ids the code divides by zero, which is `none`.
unfoldable pub create_devices : Platform → List ℕ → List ℕ → Option (Result (List DeviceInfo))
create_devices p [] worker_lcores = none
create_devices p (id ∷ ids) worker_lcores = some (
    create_loop p (length worker_lcores / length (id ∷ ids) % 2 ^ 16)
      (length worker_lcores % length (id ∷ ids)) (id ∷ ids) worker_lcores)

-- GetDevices(). ARROW_CHECK_EQ aborts the program, which is `none` as well.
abbrev pub with_lcores : Platform → List ℕ → ℕ → Option (List ℕ) → Option (Result (List DeviceInfo))
with_lcores p device_ids num_worker_lcores none = none
with_lcores p device_ids num_worker_lcores (some lcores) =
    if num_worker_lcores == length lcores then create_devices p device_ids lcores else none

unfoldable pub get_available : BuildConfig → Platform → List ℕ → Option (Result (List DeviceInfo))
get_available b p device_ids =
    let num_worker_lcores : ℕ = p.lcore_count - 1 in
    if num_worker_lcores == 0 || ltb num_worker_lcores (length device_ids)
    then some (err invalid)
    else with_lcores p device_ids num_worker_lcores (worker_lcores_of b p)

abbrev pub get_if : BuildConfig → Platform → List ℕ → Status → Option (Result (List DeviceInfo))
get_if b p device_ids (ok u) = get_available b p device_ids
get_if b p device_ids (err e) = some (err e)

abbrev pub get_from :
    BuildConfig → Platform → List ℕ → Result (List ℕ) → Option (Result (List DeviceInfo))
get_from b p device_ids (ok ids) = get_if b p device_ids (has_device_ids ids device_ids)
get_from b p device_ids (err e) = some (err e)

unfoldable pub get_devices : BuildConfig → Platform → List ℕ → Option (Result (List DeviceInfo))
get_devices b p device_ids = get_from b p device_ids (list_available_device_ids p)
