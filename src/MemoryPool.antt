-- ===== src/MemoryPool.antt =====
-- src/include/memory_pool.h and src/memory_pool.cc: the tracker of memzones, the two allocators over
-- DPDK, and the arrow::MemoryPool built over either. The calls are made one at a time, so the
-- tracker's mutex has no counterpart. Built with NDEBUG: the poison bytes and the ARROW_DCHECKs are
-- left out.
pub mod Tracker
pub mod Outcomes
pub mod Balance
mod Tests
use bitar.Base.{
  ℕ, zero, suc, ◌+◌, ◌-◌, ◌%◌, ◌^◌, min, leb, ◌==◌, if◌then◌else◌, Bool, true, false, List, [], ◌∷◌,
  Option, none, some, Action, Result, ok, err, out_of_memory, invalid, ◌>>=◌,
}
use bitar.Base.Int.{ℤ, pos, negsuc, sub_ℕ, neg}
use bitar.Rte.{Memzone, MemzonePtr, Rte}

-- The calls that have an effect outside of the model, newest first.
pub data Event : Type 0 where
  memzone_reserved memzone_freed : Memzone → Event
  freed : ℕ → Event
  copied : ℕ → ℕ → ℕ → Event

-- The state of the process that the allocators share.
pub record World : Type 0 where
  -- The number of the next call of DPDK that returns memory.
  pub now : ℕ
  -- allocated_memzones_ of the tracker, keyed by virtual address.
  pub allocated_memzones : List (ℕ × Memzone)
  pub trace : List Event

-- RtememzoneAllocatorTracker::Of.
unfoldable pub of : List (ℕ × Memzone) → ℕ → MemzonePtr
of [] addr = none
of ((a, z) ∷ zs) addr = if a == addr then some z else of zs addr

-- allocated_memzones_.erase.
unfoldable pub erase : List (ℕ × Memzone) → ℕ → List (ℕ × Memzone)
erase [] addr = []
erase ((a, z) ∷ zs) addr = if a == addr then zs else (a, z) ∷ erase zs addr

-- RtememzoneAllocatorTracker::Emplace. An entry that is there already stays.
unfoldable pub emplace : ℕ → Memzone → List (ℕ × Memzone) → List (ℕ × Memzone)
emplace addr z zs = elim (of zs addr) [ none ↦ (addr, z) ∷ zs | some y ↦ zs ]

-- RtememzoneAllocatorTracker::Release.
unfoldable pub release : ℕ → World → World
release addr w = elim (of w.allocated_memzones addr) [
  | none ↦ w
  | some z ↦ record w {
    allocated_memzones = erase w.allocated_memzones addr;
    trace = memzone_freed z ∷ w.trace;
  }
]

-- What BaseMemoryPoolImpl asks of its template argument. The pointer that a call returns through
-- `out` or `ptr` is the value of `ok`; on an error that pointer is left as it was.
pub record Allocator : Type 0 where
  pub allocate_aligned : ℕ → ℕ → Action World ℕ
  -- Of the old size, the new size, the alignment and the pointer.
  pub reallocate_aligned : ℕ → ℕ → ℕ → ℕ → Action World ℕ
  pub deallocate_aligned : ℕ → World → World

module _ (rte : Rte) where
  -- RtememzoneAllocator.
  unfoldable pub memzone_allocate : ℕ → ℕ → Action World ℕ
  memzone_allocate size alignment w =
      let w' = record w { now = suc w.now } in
      if size == 0
      then (ok rte.zero_size_area, w)
      else elim (rte.memzone_reserve w.now size (alignment % 2 ^ 32)) [
        | none ↦ (err out_of_memory, w')
        | some z ↦ (
          ok z.addr,
          record w' {
            allocated_memzones = emplace z.addr z w.allocated_memzones;
            trace = memzone_reserved z ∷ w.trace;
          },
        )
      ]

  unfoldable pub memzone_deallocate : ℕ → World → World
  memzone_deallocate ptr w = if ptr == rte.zero_size_area then w else release ptr w

  -- rte_memcpy(), then the release of the old chunk.
  unfoldable pub move_to : ℕ → ℕ → ℕ → ℕ → Action World ℕ
  move_to out ptr old_size new_size w =
      (ok out, release ptr (record w { trace = copied out ptr (min new_size old_size) ∷ w.trace }))

  unfoldable pub memzone_reallocate : ℕ → ℕ → ℕ → ℕ → Action World ℕ
  memzone_reallocate old_size new_size alignment ptr w =
      if ptr == rte.zero_size_area
      then memzone_allocate new_size alignment w
      else if new_size == 0
      then (ok rte.zero_size_area, memzone_deallocate ptr w)
      else (do out ← memzone_allocate new_size alignment; move_to out ptr old_size new_size) w

  -- RtemallocAllocator.
  unfoldable pub malloc_allocate : ℕ → ℕ → Action World ℕ
  malloc_allocate size alignment w =
      let w' = record w { now = suc w.now } in
      if size == 0
      then (ok rte.zero_size_area, w)
      else elim (rte.malloc w.now size (alignment % 2 ^ 32)) [
        | none ↦ (err out_of_memory, w')
        | some out ↦ (ok out, w')
      ]

  unfoldable pub malloc_deallocate : ℕ → World → World
  malloc_deallocate ptr w =
      if ptr == rte.zero_size_area then w else record w { trace = freed ptr ∷ w.trace }

  unfoldable pub malloc_reallocate : ℕ → ℕ → ℕ → ℕ → Action World ℕ
  malloc_reallocate old_size new_size alignment ptr w =
      let w' = record w { now = suc w.now } in
      if ptr == rte.zero_size_area
      then malloc_allocate new_size alignment w
      else if new_size == 0
      then (ok rte.zero_size_area, malloc_deallocate ptr w)
      else elim (rte.realloc w.now ptr new_size (alignment % 2 ^ 32)) [
        | none ↦ (err out_of_memory, w')
        | some out ↦ (ok out, w')
      ]

  abbrev pub memzone_allocator : Allocator
  memzone_allocator = record {
    allocate_aligned = memzone_allocate;
    reallocate_aligned = memzone_reallocate;
    deallocate_aligned = memzone_deallocate;
  }

  abbrev pub malloc_allocator : Allocator
  malloc_allocator = record {
    allocate_aligned = malloc_allocate;
    reallocate_aligned = malloc_reallocate;
    deallocate_aligned = malloc_deallocate;
  }

-- stats_.UpdateAllocatedBytes(diff, is_free), newest first, beside the shared state.
pub record Pool : Type 0 where
  pub world : World
  pub updates : List (ℤ × Bool)

-- BaseMemoryPoolImpl<Allocator>. A buffer that exists has a size that is not negative; only the size
-- that is asked for may be.
module _ (a : Allocator) where
  abbrev pub with_update : ℤ → Pool → Result ℕ × World → Result ℕ × Pool
  with_update diff p (ok out, w) =
      (ok out, record { world = w; updates = (diff, false) ∷ p.updates })
  with_update diff p (err e, w) = (err e, record p { world = w })

  unfoldable pub allocate : ℤ → ℕ → Action Pool ℕ
  allocate (negsuc n) alignment p = (err invalid, p)
  allocate (pos size) alignment p =
      if leb (2 ^ 64 - 1) size
      then (err out_of_memory, p)
      else with_update (pos size) p (a.allocate_aligned size alignment p.world)

  unfoldable pub reallocate : ℕ → ℤ → ℕ → ℕ → Action Pool ℕ
  reallocate old_size (negsuc n) alignment ptr p = (err invalid, p)
  reallocate old_size (pos new_size) alignment ptr p =
      if leb (2 ^ 64 - 1) new_size
      then (err out_of_memory, p)
      else with_update (sub_ℕ new_size old_size) p
          (a.reallocate_aligned old_size new_size alignment ptr p.world)

  unfoldable pub free : ℕ → ℕ → Pool → Pool
  free buffer size p = record {
    world = a.deallocate_aligned buffer p.world;
    updates = (neg size, true) ∷ p.updates;
  }

-- enum class MemoryPoolBackend, and GetMemoryPool. Two of arrow's own pools are there only if arrow
-- was built with them; `none` is the call of rte_panic().
pub data MemoryPoolBackend : Type 0 where
  system jemalloc mimalloc rtemalloc rtememzone : MemoryPoolBackend

pub data MemoryPool : Type 0 where
  arrow_pool : MemoryPoolBackend → MemoryPool
  base_pool : Allocator → MemoryPool

unfoldable pub get_memory_pool : Bool → Bool → Rte → MemoryPoolBackend → Option MemoryPool
get_memory_pool with_jemalloc with_mimalloc rte system = some (arrow_pool system)
get_memory_pool with_jemalloc with_mimalloc rte jemalloc =
    if with_jemalloc then some (arrow_pool jemalloc) else none
get_memory_pool with_jemalloc with_mimalloc rte mimalloc =
    if with_mimalloc then some (arrow_pool mimalloc) else none
get_memory_pool with_jemalloc with_mimalloc rte rtemalloc = some (base_pool (malloc_allocator rte))
get_memory_pool with_jemalloc with_mimalloc rte rtememzone =
    some (base_pool (memzone_allocator rte))
