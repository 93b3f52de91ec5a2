-- ===== src/Device/Setup.antt =====
-- CompressDevice of src/device.cc: Initialize() with PreAllocateMemory(), EntryGuard() and the
-- destructor. Sockets, names and what is logged are left out.
pub mod States
use bitar.Base.{
  ℕ, zero, suc, ◌+◌, ltb, leb, if◌then◌else◌, Bool, true, false, not, List, [], ◌∷◌, ◌++◌, Option,
  none, some, StatusCode, invalid, cancelled, Action, Status, Result, ok, err, ◌>>=◌, ◌>>◌,
}
use bitar.Config.{Configuration}
use bitar.Rte.{BuildConfig, Rte, Compressdev}
use bitar.MemoryPool.{Pool}
use bitar.DeviceMemory.{DeviceMemory, preallocate}
use bitar.DeviceMemory
use bitar.QueuePair.{QueuePair, has_pending_operations}
use bitar.QueuePair.Sizes.{Resources, no_resources, preallocate_queue_pair}
use bitar.Device.{
  DeviceState, undefined, configured, started, state_value, num_qps, validate_bluefield,
}

-- `process` is what the device memory is allocated from, before there is one; `closed` counts the
-- calls of rte_compressdev_close() and `stopped` those of rte_compressdev_stop().
pub record Device : Type 0 where
  pub worker_lcores : List ℕ
  pub configuration : Option Configuration
  pub state : DeviceState
  pub process : Pool
  pub device_memory : Option DeviceMemory
  pub qp_memory : List Resources
  pub stopped : ℕ
  pub closed : ℕ

abbrev pub set_state : DeviceState → Action Device (Unit {0})
set_state x d = (ok tt, record d { state = x })

-- A call of DPDK that fails ends the function with Invalid.
abbrev pub require : Bool → Action Device (Unit {0})
require true d = (ok tt, d)
require false d = (err invalid, d)

abbrev pub keep_memory : Result (Unit {0}) × DeviceMemory → Device → Status × Device
keep_memory (r, m) d = (r, record d { device_memory = some m; process = m.process })

abbrev pub keep_resources : Result (Unit {0}) × Resources → Device → Status × Device
keep_resources (r, q) d = (r, record d { qp_memory = d.qp_memory ++ q ∷ [] })

module _ (b : BuildConfig) (rte : Rte) (dev : Compressdev) (of_pair : ℕ → Compressdev) where
  -- PreAllocateMemory(): the memory of the device, then of each queue pair from `qp_id` on. DPDK
  -- answers each queue pair by itself. A device is set up once: the memory of an earlier call, which
  -- the assignment would free, is not given back.
  unfoldable pub preallocate_device : Configuration → Action Device (Unit {0})
  preallocate_device c d = keep_memory (preallocate rte c (DeviceMemory.init d.process)) d

  unfoldable pub preallocate_queue_pairs : Configuration → ℕ → ℕ → Action Device (Unit {0})
  preallocate_queue_pairs c zero qp_id d = (ok tt, d)
  preallocate_queue_pairs c (suc n) qp_id d =
      (do
        keep_resources (preallocate_queue_pair b (of_pair qp_id) c no_resources)
        preallocate_queue_pairs c n (qp_id + 1))
        d

  unfoldable pub setup_queue_pairs : ℕ → ℕ → Action Device (Unit {0})
  setup_queue_pairs zero qp_id d = (ok tt, d)
  setup_queue_pairs (suc n) qp_id d =
      (do require (dev.queue_pair_setup qp_id); setup_queue_pairs n (qp_id + 1)) d

  -- Initialize() behind the validation.
  unfoldable pub set_up : ℕ → Configuration → Action Device (Unit {0})
  set_up n c = do
    preallocate_device c
    preallocate_queue_pairs c n 0
    require dev.configure
    set_state configured
    setup_queue_pairs n 0
    require dev.start
    set_state started

  abbrev pub after_validation : Status × Configuration → Device → Status × Device
  after_validation (ok tt, c) d =
      set_up (num_qps d.worker_lcores) c (record d { configuration = some c })
  after_validation (err e, c) d = (err e, record d { configuration = some c })

  abbrev pub with_validation : Option (Status × Configuration) → Device → Option (Status × Device)
  with_validation none d = none
  with_validation (some r) d = some (after_validation r d)

  -- Whether the configuration is one of a BlueField device is an argument.
  unfoldable pub initialize : Bool → Configuration → Device → Option (Status × Device)
  initialize true c d = with_validation (validate_bluefield b dev (num_qps d.worker_lcores) c) d
  initialize false c d = some (err invalid, d)

-- EntryGuard(), with the queue pair at queue_pair_id.
unfoldable pub entry_guard : Device → ℕ → QueuePair → Status
entry_guard d queue_pair_id q =
    if ltb (state_value d.state) (state_value started)
    then err invalid
    else if leb (num_qps d.worker_lcores) queue_pair_id
    then err invalid
    else if has_pending_operations q
    then err cancelled
    else ok tt

-- The destructor.
unfoldable pub stop_if_started : Device → Device
stop_if_started d =
    if leb (state_value started) (state_value d.state)
    then record d { state = configured; stopped = suc d.stopped }
    else d

unfoldable pub close_if_configured : Device → Device
close_if_configured d =
    if leb (state_value configured) (state_value d.state)
    then record d { state = undefined; closed = suc d.closed }
    else d

unfoldable pub destroy : Device → Device
destroy d = close_if_configured (stop_if_started d)
