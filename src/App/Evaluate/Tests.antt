-- ===== src/App/Evaluate/Tests.antt =====
-- The asynchronous test of the demo on two devices with a queue pair each: each compression fills one
-- memzone.
use bitar.Base.{
  ℕ, zero, suc, ◌+◌, ◌≤◌, ltb, ◌==◌, if◌then◌else◌, true, List, [], ◌∷◌, none, some, ok, err,
  out_of_memory, ◌≡◌, refl, arith,
}
use bitar.Rte.{Memzone}
use bitar.MemoryPool.{of}
use bitar.DeviceMemory.{DeviceMemory, put, put_back, contains, remove}
use bitar.QueuePair.Assemble.{Buffer}
use bitar.Device.Compression.{recycle, put_each}
use bitar.App.{segments, segments_loop}
use bitar.App.Targets.{Card, targets, visits, advance, enough_queue_pairs, total_num_qps}
use bitar.App.Targets.Walk.{num_pairs, targets_lem}
use bitar.App.Async.{
  Slots, Memories, Workers, entry, make_slots, add_slot, store, recycle_buffers, recycle_vector,
  recycle_slots, compress_result_callback, num_launched, wait_for_async_completion,
  benchmark_compress_async, compress_rounds,
}
use bitar.App.Async.Recycling.{occupied, num_buffers, benchmark_compress_async_aborts}
use bitar.App.Async.Round.{visited}
use bitar.App.Async.FirstRound.{Numbered, first_round_lem, foreign_device_id_aborts}
use bitar.App.Evaluate.{
  Data, allocate_each, decompressed_sizes, wait_for_decompression, benchmark_decompress_async,
  decompress_rounds, total_size, compare_segments, compare_with_input, evaluate_decompression,
  evaluate_async,
}
use bitar.App.Evaluate.Outcomes.{Passed, evaluate_decompression-Recycles, evaluate_async-Passed}

abbrev zone : Memzone
zone = record { ptr = 1; addr = 4096; iova = 0; len = 4096 }

abbrev full : DeviceMemory
full = record {
  process = record {
    world = record { now = 0; allocated_memzones = (4096, zone) ∷ []; trace = [] };
    updates = [];
  };
  memzone_pool = [];
  occupied_memzones = some zone ∷ [];
  num_preallocated_memzones = 1;
}

abbrev free_memory : DeviceMemory
free_memory = record full { memzone_pool = some zone ∷ []; occupied_memzones = [] }

abbrev filled : List Buffer
filled = record { data_addr = 4096; size = 70 } ∷ []

-- In a round without launches nothing happens.
abbrev after : List (ℕ × ℕ) → Memories → Memories
after [] ms = ms
after (t ∷ ts) ms = λ i. full

abbrev workers : Workers
workers = record {
  launch = λ round t. true;
  compress_result = λ round t. ok filled;
  after_compress = λ round ts ms. after ts ms;
  decompress_status = λ round t. ok tt;
  not_launched = λ round t. 0;
}

-- Workers that are busy from the second round on.
abbrev busy : Workers
busy = record workers { launch = λ round t. round == 0 }

abbrev two_cards : List Card
two_cards = record { device_id = 0; num_qps = 1 } ∷ record { device_id = 1; num_qps = 1 } ∷ []

abbrev both : List (ℕ × ℕ)
both = (0, 0) ∷ (1, 0) ∷ []

abbrev used : Slots
used = (0, filled ∷ []) ∷ (1, filled ∷ []) ∷ []

targets_run : targets two_cards 2 ≡ some both
unfolding targets visits advance
targets_run = refl

targets_lem_example :
    ((enough_queue_pairs two_cards 2 ≡ ok tt → 2 ≤ num_pairs two_cards)
      × (2 ≤ num_pairs two_cards → enough_queue_pairs two_cards 2 ≡ ok tt))
    × (2 ≤ num_pairs two_cards → targets two_cards 2 ≡ some both)
targets_lem_example = targets_lem two_cards 2 (omega arith) (omega arith) (omega arith)

abbrev put_back_all : Memories
put_back_all i = if 1 == i then free_memory else if 0 == i then free_memory else full

recycle_run : recycle_slots used (λ i. full) ≡ some put_back_all
unfolding recycle_slots recycle_vector recycle_buffers recycle put_each put put_back contains remove
    of
recycle_run = refl

benchmark_compress_async_aborts_example :
    benchmark_compress_async busy two_cards 1 both (used, put_back_all) ≡ none
benchmark_compress_async_aborts_example =
    benchmark_compress_async_aborts busy two_cards 1 (0, 0) ((1, 0) ∷ []) used (λ i. full)
      put_back_all 0 recycle_run refl (omega arith) refl (λ h. ground arith) refl

numbered : Numbered two_cards
numbered zero d h = ground arith
numbered (suc zero) d h = ground arith
numbered (suc (suc i)) d h = absurd (ground arith)

first_round_lem_example :
    (ts : List (ℕ × ℕ)) × (m : Slots) × (targets two_cards 2 ≡ some ts)
    × (benchmark_compress_async workers two_cards 0 ts (make_slots ts [], λ i. free_memory)
        ≡ some (ok tt, (m, after ts (λ i. free_memory))))
    × ((i q : ℕ) → visited i q ts ≡ true → entry i q m ≡ some filled)
first_round_lem_example =
    first_round_lem workers 0 two_cards 2 (λ i. free_memory) (λ t. filled) (λ t. refl) (λ t. refl)
      numbered (omega arith) (omega arith) (omega arith) (omega arith)

-- A device whose id is not its index, as where another driver has device 0.
abbrev second : Card
second = record { device_id = 1; num_qps = 2 }

foreign_run : targets (second ∷ []) 2 ≡ some ((0, 0) ∷ (0, 1) ∷ [])
unfolding targets visits advance
foreign_run = refl

foreign_device_id_aborts_example :
    benchmark_compress_async workers
      (second ∷ [])
      0
      ((0, 0) ∷ (0, 1) ∷ [])
      (make_slots ((0, 0) ∷ (0, 1) ∷ []) [], λ i. free_memory)
    ≡ none
foreign_device_id_aborts_example =
    foreign_device_id_aborts workers 0 second [] 1 ((0, 0) ∷ (0, 1) ∷ []) (λ i. free_memory) filled
      (omega arith) foreign_run refl refl

-- All is compared equal, and each segment has half of the input.
abbrev answers : Data
answers = record {
  allocates = λ k n. true;
  decompressed_size = λ t. 1500;
  equal = λ k offset. true;
}

-- An allocation fails behind the compression.
abbrev no_memory : Data
no_memory = record answers { allocates = λ k n. ltb k 2 }

no_memory_run :
    evaluate_decompression workers no_memory 3000 both used (λ i. full)
    ≡ some (err out_of_memory, put_back_all)
unfolding evaluate_decompression decompressed_sizes allocate_each recycle_slots recycle_vector
    recycle_buffers recycle put_each put put_back contains remove of
no_memory_run = refl

evaluate_decompression-Recycles_example :
    (recycle_slots used (λ i. full) ≡ some put_back_all)
    × ((i : ℕ) → num_buffers i used + occupied (put_back_all i) ≡ occupied full)
evaluate_decompression-Recycles_example =
    evaluate_decompression-Recycles workers no_memory 3000 both used (λ i. full) put_back_all
      (err out_of_memory) no_memory_run

passing_run :
    evaluate_async workers answers two_cards 2 3000 (λ i. free_memory) ≡ some (ok tt, put_back_all)
unfolding evaluate_async enough_queue_pairs total_num_qps targets visits advance segments
    segments_loop allocate_each make_slots add_slot compress_rounds benchmark_compress_async
    num_launched wait_for_async_completion compress_result_callback store recycle_slots
    recycle_vector recycle_buffers recycle put_each put put_back contains remove of
    evaluate_decompression decompressed_sizes decompress_rounds benchmark_decompress_async
    wait_for_decompression compare_with_input total_size compare_segments
passing_run = refl

evaluate_async-Passed_example :
    (ts : List (ℕ × ℕ)) × (targets two_cards 2 ≡ some ts)
    × Passed workers answers 3000 ts two_cards (λ i. free_memory) put_back_all
evaluate_async-Passed_example =
    evaluate_async-Passed workers answers two_cards 2 3000 (λ i. free_memory) put_back_all
      passing_run
