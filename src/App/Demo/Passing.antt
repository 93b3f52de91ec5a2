-- ===== src/App/Demo/Passing.antt =====
-- What the demo of apps/demo_app.cc has gone through where it exits with success.
use bitar.Base.{
  ℕ, suc, ltb, Bool, true, false, List, [], ◌∷◌, Option, none, some, length, Status, Result, ok,
  err, Bool-cases, inl, inr, ◌≡◌, ◌↔◌, refl, ap, ◌≤◌, arith,
}
use bitar.Base.Int.{ℤ}
use mathlib.Core.Option
use bitar.Config.{Configuration}
use bitar.Rte.{BuildConfig, Rte}
use bitar.MemoryPool.{Pool}
use bitar.QueuePair.{update}
use bitar.QueuePair.Assemble.{Buffer}
use bitar.Driver.{Platform, list_available_device_ids}
use bitar.Device.Setup.{Device}
use bitar.Device.Bursts.{Run}
use bitar.App.Targets.{targets}
use bitar.App.Async.{Memories}
use bitar.App.Evaluate.{evaluate_async}
use bitar.App.Evaluate.Outcomes as Async
use bitar.App.Devices.{Hardware, num_parallel_tests, get_bluefield_compress_devices}
use bitar.App.Devices.Startup.{AllStarted, get_bluefield_compress_devices-AllStarted}
use bitar.App.Input.{File, read_data}
use bitar.App.Sync.Passing as Sync
use bitar.App.Demo.{
  latest, memory_in, memories, cards, first_id, unused_queue_pair, Surroundings, then_async,
  on_first, on_devices, enough_lcores, evaluate, run, mode_of, exit_code, evaluate_input, main,
}

module _ (ndebug : Bool) (b : BuildConfig) (rte : Rte) (hardware : ℕ → Hardware)
    (platform : Platform) (fuel : ℕ) (x : Surroundings) where
  -- What a run that is OK has gone through: the devices that it has set up, the two tests, and the
  -- memories that the second starts with.
  pub record Passed (input : Buffer) (p : Pool) : Type 0 where
    pub first : Device
    pub others : List Device
    pub configuration : Configuration
    pub end_of_sync : Run ℕ
    pub targeted : List (ℕ × ℕ)
    pub end_of_async : Memories
    pub all_set_up :
        get_bluefield_compress_devices b rte hardware platform input.size p
        ≡ some (ok (first ∷ others))
    pub all_started : AllStarted (first ∷ others)
    pub enough : suc (length others) ≤ num_parallel_tests platform
    pub configured : first.configuration ≡ some configuration
    pub sync_passed :
        Sync.Passed ndebug rte
          (hardware (first_id (list_available_device_ids platform))).dev
          configuration
          fuel
          first
          input
          x.destination_of
          x.equal
          (unused_queue_pair (memory_in (latest p (first ∷ others)) first.device_memory))
          end_of_sync
    pub walked :
        targets
          (cards (list_available_device_ids platform) (first ∷ others))
          (num_parallel_tests platform)
        ≡ some targeted
    pub async_passed :
        Async.Passed x.workers x.answers input.size targeted
          (cards (list_available_device_ids platform) (first ∷ others))
          (update
            (memories end_of_sync.queue_pair.device_memory.process (first ∷ others))
            0
            end_of_sync.queue_pair.device_memory)
          end_of_async

  map-ok :
      (o : Option (Status × Memories))
      → Option.map (λ r. r.0) o ≡ some (ok tt)
      → (ms' : Memories) × (o ≡ some (ok tt, ms'))
  map-ok none h = absurd (Option.none-ne-some _ h)
  map-ok (some (r, ms')) h = (ms', ap (λ q. some (q, ms')) (Option.some-injective _ _ h))

  then_async-inv :
      (ds : List Device) (size : ℕ) (o : Option (Status × Run ℕ))
      → then_async ndebug b rte hardware platform fuel x ds size o ≡ some (ok tt)
      → (s : Run ℕ) × (ms' : Memories) × (o ≡ some (ok tt, s))
        × (evaluate_async x.workers x.answers
              (cards (list_available_device_ids platform) ds)
              (num_parallel_tests platform)
              size
              (update (memories s.queue_pair.device_memory.process ds) 0 s.queue_pair.device_memory)
            ≡ some (ok tt, ms'))
  then_async-inv ds size none h = absurd (Option.none-ne-some _ h)
  then_async-inv ds size (some (err e, s)) h = absurd (grind arith)
  then_async-inv ds size (some (ok u, s)) h = let (ms', e) = map-ok _ h in (s, ms', refl, e)

  on_first-inv :
      (input : Buffer) (d : Device) (p : Pool) (c : Option Configuration) (s : Run ℕ)
      → on_first ndebug b rte hardware platform fuel x input d p c ≡ some (ok tt, s)
      → (c' : Configuration) × (c ≡ some c')
        × Sync.Passed ndebug rte
            (hardware (first_id (list_available_device_ids platform))).dev
            c'
            fuel
            d
            input
            x.destination_of
            x.equal
            (unused_queue_pair (memory_in p d.device_memory))
            s
  on_first-inv input d p none s h = absurd (Option.none-ne-some _ h)
  on_first-inv input d p (some c) s h = (
    c,
    refl,
    Sync.evaluate_sync-Passed ndebug rte
        (hardware (first_id (list_available_device_ids platform))).dev c fuel d input
        x.destination_of x.equal (unused_queue_pair (memory_in p d.device_memory)) s refl h,
  )

  module _ (input : Buffer) (p : Pool) where
    on_devices-Passed :
        (ds : List Device)
        → get_bluefield_compress_devices b rte hardware platform input.size p ≡ some (ok ds)
        → ltb (num_parallel_tests platform) (length ds) ≡ false
        → on_devices ndebug b rte hardware platform fuel x input p ds ≡ some (ok tt)
        → Passed input p
    on_devices-Passed [] e few h = absurd (Option.none-ne-some _ h)
    on_devices-Passed (d ∷ ds) e few h =
        let (s, ms', sync, async) = then_async-inv (d ∷ ds) input.size _ h in
        let (c, configured, passed) =
          on_first-inv input d (latest p (d ∷ ds)) d.configuration s sync in
        let (ts, visited, passed') =
          Async.evaluate_async-Passed x.workers x.answers
            (cards (list_available_device_ids platform) (d ∷ ds)) (num_parallel_tests platform)
            input.size _ ms' async in
        record {
          first = d;
          others = ds;
          configuration = c;
          end_of_sync = s;
          targeted = ts;
          end_of_async = ms';
          all_set_up = e;
          all_started =
              (get_bluefield_compress_devices-AllStarted b rte hardware platform input.size p
                (d ∷ ds) e).0;
          enough = ground arith;
          configured = configured;
          sync_passed = passed;
          walked = visited;
          async_passed = passed';
        }

    enough_lcores-Passed :
        (o : Option (Result (List Device)))
        → get_bluefield_compress_devices b rte hardware platform input.size p ≡ o
        → enough_lcores ndebug b rte hardware platform fuel x input p o ≡ some (ok tt)
        → Passed input p
    enough_lcores-Passed none e h = absurd (Option.none-ne-some _ h)
    enough_lcores-Passed (some (err c)) e h = absurd (grind arith)
    enough_lcores-Passed (some (ok ds)) e h =
        elim (Bool-cases (ltb (num_parallel_tests platform) (length ds))) [
          | inl few ↦ absurd (grind arith)
          | inr few ↦ on_devices-Passed ds e few (rw few at h)
        ]

    -- Evaluate() is OK only where the devices have been set up and have all started, there is at least
    -- one and there are no more of them than tests, and both tests have been passed, on the memory that
    -- the first has left to the second.
    pub evaluate-Passed :
        evaluate ndebug b rte hardware platform fuel x input p ≡ some (ok tt) → Passed input p
    unfolding evaluate
    evaluate-Passed h = enough_lcores-Passed _ refl h

module _ (ndebug : Bool) (b : BuildConfig) (rte : Rte) (hardware : ℕ → Hardware)
    (platform : Platform) (fuel : ℕ) (x : Surroundings) (f : File) (data_addr : ℕ) (p : Pool) where
  -- A size that is read and a test of it that is OK.
  abbrev pub Demonstrated : Option (Result ℕ) → Type 0
  Demonstrated none = ⊥
  Demonstrated (some (err e)) = ⊥
  Demonstrated (some (ok size)) =
      evaluate ndebug b rte hardware platform fuel x (record { data_addr = data_addr; size = size })
        p
      ≡ some (ok tt)

  exit_code_iff : (o : Option Status) → (exit_code o ≡ some 0) ↔ (o ≡ some (ok tt))
  exit_code_iff none =
      (λ h. absurd (Option.none-ne-some _ h), λ h. absurd (Option.none-ne-some _ h))
  exit_code_iff (some (ok u)) = (λ h. refl, λ h. refl)
  exit_code_iff (some (err e)) = (λ h. absurd (grind arith), λ h. absurd (grind arith))

  evaluate_input_iff :
      (o : Option (Result ℕ))
      → (evaluate_input ndebug b rte hardware platform fuel x f data_addr p o ≡ some 0)
        ↔ Demonstrated o
  evaluate_input_iff none = (λ h. absurd (Option.none-ne-some _ h), λ h. absurd h)
  evaluate_input_iff (some (err e)) = (λ h. absurd (grind arith), λ h. absurd h)
  evaluate_input_iff (some (ok size)) = exit_code_iff _

  -- The program that is run on a file exits with 0 exactly where the environment of DPDK starts, the
  -- file can be read, in the mode of its number, and Evaluate() of what is read is OK.
  pub main_iff :
      (initialized : Bool) (file_path : List ℕ) (num_bytes_want : ℤ) (mode : ℕ)
      → (main ndebug b rte hardware platform fuel x f data_addr p initialized
            (run file_path num_bytes_want mode)
          ≡ some 0)
        ↔ ((initialized ≡ true)
            × Demonstrated (read_data f file_path (mode_of mode) num_bytes_want))
  unfolding main
  main_iff true file_path num_bytes_want mode =
      let read = evaluate_input_iff (read_data f file_path (mode_of mode) num_bytes_want) in
      (λ h. (refl, read.0 h), λ h. read.1 h.1)
  main_iff false file_path num_bytes_want mode =
      (λ h. absurd (grind arith), λ h. absurd (grind arith))
