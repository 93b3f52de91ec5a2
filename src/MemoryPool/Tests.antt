-- ===== src/MemoryPool/Tests.antt =====
-- Runs of the memory pools, and the theorems at concrete inputs.
use bitar.Base.{true, ℕ, ◌+◌, ◌*◌, ◌≡◌, refl, false, [], ◌∷◌, none, some, ok, err, invalid, arith}
use bitar.Base.Int.{pos, negsuc}
use bitar.Rte.{Memzone, Rte}
use bitar.MemoryPool.{
  World, Pool, memzone_reserved, memzone_freed, copied, of, emplace, erase, release,
  memzone_allocate, memzone_reallocate, move_to, memzone_allocator, allocate, reallocate,
}
use bitar.MemoryPool.Outcomes.{IsHonest}
use bitar.MemoryPool.Balance
use bitar.MemoryPool.Balance.{IsBalanced, step, step-IsBalanced, deallocate_twice}

abbrev zone : ℕ → ℕ → Memzone
zone n size = record { ptr = n + 1; addr = 4096 * (n + 1); iova = 4096 * (n + 1); len = size }

-- The n-th call is answered by a memzone of its own.
abbrev rte : Rte
rte = record {
  zero_size_area = 8;
  default_alignment = 64;
  memzone_reserve = λ n size alignment. some (zone n size);
  malloc = λ n size alignment. some (4096 * (n + 1));
  realloc = λ n ptr size alignment. none;
  comp_op_bulk_alloc = λ n num. none;
  pktmbuf_alloc_bulk = λ n num. none;
  pktmbuf_chain = λ num. true;
  pktmbuf_append = λ size len. true;
  mem_virt2iova = λ addr. addr;
}

-- One buffer of 100 bytes.
abbrev one : World
one = record {
  now = 1;
  allocated_memzones = (4096, zone 0 100) ∷ [];
  trace = memzone_reserved (zone 0 100) ∷ [];
}

abbrev start : Pool
start = record { world = one; updates = (pos 100, false) ∷ [] }

one-IsHonest : IsHonest rte one
unfolding of
one-IsHonest size alignment z e = grind arith

one-IsBalanced : IsBalanced one
unfolding of
one-IsBalanced = record { keys = (refl, tt); count = λ p. omega arith }

refused_run : allocate (memzone_allocator rte) (negsuc 4) 64 start ≡ (err invalid, start)
unfolding allocate
refused_run = refl

grow_run : reallocate (memzone_allocator rte) 100 (pos 300) 64 4096 start ≡ (
  ok 8192,
  record {
    world = record {
      now = 2;
      allocated_memzones = (8192, zone 1 300) ∷ [];
      trace =
          memzone_freed (zone 0 100)
          ∷ copied 8192 4096 100
          ∷ memzone_reserved (zone 1 300)
          ∷ memzone_reserved (zone 0 100)
          ∷ [];
    };
    updates = (pos 200, false) ∷ (pos 100, false) ∷ [];
  },
)
unfolding reallocate memzone_reallocate memzone_allocate move_to release of emplace erase
grow_run = refl

step-IsBalanced_example :
    IsBalanced (step rte (Balance.reallocates 100 (pos 300) 64 4096) start).world
step-IsBalanced_example =
    step-IsBalanced rte (Balance.reallocates 100 (pos 300) 64 4096) start one-IsHonest
      one-IsBalanced
