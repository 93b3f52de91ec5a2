-- ===== src/DeviceMemory/Tests.antt =====
-- Runs of DeviceMemory, and the theorems at concrete inputs.
use bitar.Base.{
  true, List, ℕ, ◌+◌, ◌*◌, ltb, if◌then◌else◌, ◌≡◌, refl, [], ◌∷◌, none, some, ok, arith, length,
}
use bitar.Config.{Configuration, Huffman, Checksum}
use bitar.Rte.{Memzone, Rte}
use bitar.MemoryPool.{Pool, of, emplace, memzone_allocate, allocate}
use bitar.DeviceMemory.{DeviceMemory, init, allocate_one, fill, give_up, preallocate, take, put}
use bitar.DeviceMemory.Zones.{IsFresh}
use bitar.DeviceMemory.Valid.{IsValid}
use bitar.DeviceMemory.Reuse.{Takes, Puts, take-Takes, put-Puts, put-take}
use bitar.DeviceMemory.Ledger.{Call, take_one, put_at, Follows, run_calls, ledger}
use bitar.DeviceMemory.Ledger.Refine.{Ready, run_calls-Follows}

abbrev zone : ℕ → ℕ → Memzone
zone n size = record { ptr = n + 1; addr = 4096 * (n + 1); iova = 4096 * (n + 1); len = size }

-- The first 25 calls are answered by memzones of their own, the later ones fail.
abbrev rte : Rte
rte = record {
  zero_size_area = 8;
  default_alignment = 64;
  memzone_reserve = λ n size alignment. if ltb n 25 then some (zone n size) else none;
  malloc = λ n size alignment. none;
  realloc = λ n ptr size alignment. none;
  comp_op_bulk_alloc = λ n num. none;
  pktmbuf_alloc_bulk = λ n num. none;
  pktmbuf_chain = λ num. true;
  pktmbuf_append = λ size len. true;
  mem_virt2iova = λ addr. addr;
}

abbrev configuration : Configuration
configuration = record {
  burst_size = 32;
  max_sgl_segs = 1;
  decompressed_seg_size = 2048;
  compressed_seg_size = 4096;
  window_size = 0;
  huffman_enc = Huffman.dynamic;
  max_preallocate_memzones = 30;
  checksum_type = Checksum.no_checksum;
}

abbrev nothing : Pool
nothing = record { world = record { now = 0; allocated_memzones = []; trace = [] }; updates = [] }

-- Two memzones, the one in the pool and the other occupied.
abbrev two : DeviceMemory
two = record {
  process = record {
    world = record {
      now = 2;
      allocated_memzones = (8192, zone 1 4096) ∷ (4096, zone 0 4096) ∷ [];
      trace = [];
    };
    updates = [];
  };
  memzone_pool = some (zone 0 4096) ∷ [];
  occupied_memzones = some (zone 1 4096) ∷ [];
  num_preallocated_memzones = 2;
}

two-IsFresh : IsFresh rte two.process.world
unfolding of
two-IsFresh = record {
  unused = λ n size alignment z le e. grind arith;
  apart = λ n m size size' alignment alignment' z y le lt e e'. grind arith;
}

two-IsValid : IsValid two
unfolding of
two-IsValid = record {
  keyed = omega arith;
  pool_held = (refl, tt);
  occupied_held = (refl, tt);
  once = λ p. ground arith;
}

-- 25 memzones, as DPDK has no more.
preallocate_run :
    let (r, m) = preallocate rte configuration (init nothing) in
    (r ≡ ok tt) × (length m.memzone_pool ≡ 25) × (m.num_preallocated_memzones ≡ 25)
unfolding preallocate fill allocate_one allocate memzone_allocate emplace of give_up
preallocate_run = (refl, refl, refl)

take-Takes_example : Takes rte configuration two (take rte configuration two)
take-Takes_example =
    take-Takes rte configuration two (omega arith) (omega arith) two-IsFresh two-IsValid

put-Puts_example : Puts 8192 two (put 8192 two)
put-Puts_example = put-Puts 8192 two two-IsValid

put-take_example : put 4096 (take rte configuration two).1 ≡ (1, two)
put-take_example = put-take rte configuration two (zone 0 4096) [] two-IsValid refl

two-Ready : Ready rte two
two-Ready = record { valid = two-IsValid; single = λ p. ground arith; fresh = two-IsFresh }

-- The pool is taken, the other memzone given back and taken, then DPDK is asked.
abbrev calls : List Call
calls = take_one ∷ put_at 8192 ∷ put_at 8192 ∷ take_one ∷ take_one ∷ []

run_calls-Follows_example :
    Follows
      (ledger two)
      calls
      (run_calls rte configuration calls two).0
      (ledger (run_calls rte configuration calls two).1)
run_calls-Follows_example =
    run_calls-Follows rte configuration (omega arith) (omega arith) calls two two-Ready
