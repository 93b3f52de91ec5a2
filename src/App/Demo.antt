-- ===== src/App/Demo.antt =====
-- Evaluate() and main() of apps/demo_app.cc: the devices are set up, the first one runs the synchronous
-- test, all of them the asynchronous one. `none` is a run that does not end, or is aborted. The buffers
-- that arrow allocates from the same memzones, for the input and the results, are not followed.
pub mod Passing
mod Tests
use bitar.Base.{
  ℕ, zero, suc, ltb, if◌then◌else◌, Bool, true, false, List, [], ◌∷◌, Option, none, some, length,
  StatusCode, invalid, Status, Result, ok, err,
}
use bitar.Base.Int.{ℤ}
use bitar.Config.{Configuration}
use bitar.Rte.{BuildConfig, Rte}
use bitar.MemoryPool.{Pool}
use bitar.DeviceMemory.{DeviceMemory}
use bitar.DeviceMemory
use bitar.QueuePair.{reset_operation, update}
use bitar.QueuePair.Assemble.{Buffer}
use bitar.Driver.{Platform, list_available_device_ids}
use bitar.Device.{num_qps}
use bitar.Device.Setup.{Device}
use bitar.Device.Bursts.{Run}
use bitar.App.Targets.{Card}
use bitar.App.Async.{Memories, Workers}
use bitar.App.Evaluate.{Data, evaluate_async}
use bitar.App.Devices.{Hardware, num_parallel_tests, get_bluefield_compress_devices}
use bitar.App.Input.{File, FileReadMode, raw, content, read_data}
use bitar.App.Sync.{evaluate_sync}
use mathlib.Core.Option

-- The process that the devices share, as the last of them has left it.
abbrev pub latest : Pool → List Device → Pool
latest p [] = p
latest p (d ∷ ds) = latest d.process ds

-- The memories of the devices by their index, in that process.
abbrev pub memory_in : Pool → Option DeviceMemory → DeviceMemory
memory_in p none = DeviceMemory.init p
memory_in p (some m) = record m { process = p }

abbrev pub memories : Pool → List Device → Memories
memories p [] i = DeviceMemory.init p
memories p (d ∷ ds) zero = memory_in p d.device_memory
memories p (d ∷ ds) (suc i) = memories p ds i

-- The devices with their ids: they come in the order in which they were asked for.
abbrev pub cards : Result (List ℕ) → List Device → List Card
cards (ok (id ∷ ids)) (d ∷ ds) =
    record { device_id = id; num_qps = num_qps d.worker_lcores } ∷ cards (ok ids) ds
cards (ok []) ds = []
cards (ok (id ∷ ids)) [] = []
cards (err e) ds = []

abbrev pub first_id : Result (List ℕ) → ℕ
first_id (ok (id ∷ ids)) = id
first_id (ok []) = 0
first_id (err e) = 0

-- A queue pair that has not been used yet.
abbrev pub unused_queue_pair : DeviceMemory → Run (List Buffer)
unused_queue_pair m = record {
  queue_pair = record {
    device_memory = m;
    num_ops_assembled = 0;
    pending_operations = [];
    operations = λ i. 0;
    mbufs = [];
    operation_at = λ p. reset_operation;
    freed_mbufs = [];
    freed_operations = [];
  };
  num_maybe_not_ok = 0;
  output = [];
}

-- What the tests meet outside of the program: the destination that arrow allocates for a size and
-- whether memcmp() finds it equal to the input, and the workers and data of the asynchronous test.
pub record Surroundings : Type 0 where
  pub destination_of : ℕ → Option Buffer
  pub equal : Bool
  pub workers : Workers
  pub answers : Data

module _ (ndebug : Bool) (b : BuildConfig) (rte : Rte) (hardware : ℕ → Hardware)
    (platform : Platform) (fuel : ℕ) (x : Surroundings) where
  -- EvaluateAsync() behind EvaluateSync(), which has used the memory of the first device.
  abbrev pub then_async : List Device → ℕ → Option (Status × Run ℕ) → Option Status
  then_async ds size none = none
  then_async ds size (some (err e, s)) = some (err e)
  then_async ds size (some (ok u, s)) =
      let m : DeviceMemory = s.queue_pair.device_memory in
      Option.map (λ r. r.0)
        (evaluate_async x.workers x.answers (cards (list_available_device_ids platform) ds)
          (num_parallel_tests platform) size (update (memories m.process ds) 0 m))

  -- EvaluateSync() of `bluefield_devices[0]`: without a device the access is out of bounds, and a
  -- device that is set up has a configuration and a memory.
  abbrev pub on_first : Buffer → Device → Pool → Option Configuration → Option (Status × Run ℕ)
  on_first input d p none = none
  on_first input d p (some c) =
      evaluate_sync ndebug rte (hardware (first_id (list_available_device_ids platform))).dev c fuel
        d input x.destination_of x.equal (unused_queue_pair (memory_in p d.device_memory))

  abbrev pub on_devices : Buffer → Pool → List Device → Option Status
  on_devices input p [] = none
  on_devices input p (d ∷ ds) =
      then_async (d ∷ ds) input.size (on_first input d (latest p (d ∷ ds)) d.configuration)

  abbrev pub enough_lcores : Buffer → Pool → Option (Result (List Device)) → Option Status
  enough_lcores input p none = none
  enough_lcores input p (some (err e)) = some (err e)
  enough_lcores input p (some (ok ds)) =
      if ltb (num_parallel_tests platform) (length ds)
      then some (err invalid)
      else on_devices input p ds

  unfoldable pub evaluate : Buffer → Pool → Option Status
  evaluate input p =
      enough_lcores input p (get_bluefield_compress_devices b rte hardware platform input.size p)

-- The command line, once it is parsed: the number of the mode is not checked there.
pub data Arguments : Type 0 where
  help missing_file malformed : Arguments
  run : List ℕ → ℤ → ℕ → Arguments

abbrev pub mode_of : ℕ → FileReadMode
mode_of zero = raw
mode_of (suc zero) = content
mode_of (suc (suc n)) = raw

-- The exit code.
abbrev pub exit_code : Option Status → Option ℕ
exit_code none = none
exit_code (some (ok u)) = some 0
exit_code (some (err e)) = some 1

module _ (ndebug : Bool) (b : BuildConfig) (rte : Rte) (hardware : ℕ → Hardware)
    (platform : Platform) (fuel : ℕ) (x : Surroundings) (f : File) (data_addr : ℕ) (p : Pool) where
  -- The input is at an address of its own.
  abbrev pub evaluate_input : Option (Result ℕ) → Option ℕ
  evaluate_input none = none
  evaluate_input (some (err e)) = some 1
  evaluate_input (some (ok size)) = exit_code (
      evaluate ndebug b rte hardware platform fuel x (record { data_addr = data_addr; size = size })
        p)

  -- Whether rte_eal_init() succeeds is an argument.
  unfoldable pub main : Bool → Arguments → Option ℕ
  main false arguments = some 1
  main true help = some 0
  main true missing_file = some 1
  main true malformed = some 1
  main true (run file_path num_bytes_want mode) =
      evaluate_input (read_data f file_path (mode_of mode) num_bytes_want)
