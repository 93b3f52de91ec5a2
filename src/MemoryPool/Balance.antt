-- ===== src/MemoryPool/Balance.antt =====
-- No memzone is lost or given back twice by the pool over RtememzoneAllocator of
-- src/memory_pool.cc.
use bitar.Base.{
  ℕ, ◌+◌, ◌-◌, ◌^◌, ◌==◌, leb, if◌then◌else◌, ◌≡◌, List, [], ◌∷◌, Result, ok, err, arith,
  Bool-cases, Option-cases, inl, inr,
}
use bitar.Base.Int.{ℤ, pos, negsuc}
use bitar.Rte.{Rte}
use bitar.MemoryPool.Tracker.{Distinct, tracked, erase-Distinct, tracked-erase, of-erase_self}
use bitar.MemoryPool.{
  Event, World, Pool, memzone_reserved, memzone_freed, of, release, memzone_deallocate,
  memzone_allocator, allocate, reallocate, free,
}
use bitar.MemoryPool.Outcomes.{
  IsHonest, Allocates, Reallocates, served, failed, tracks, empties, refused, moves,
  memzone_allocate-Allocates, memzone_reallocate-Reallocates,
}
use bitar.MemoryPool.Outcomes
use bitar.MemoryPool.{with_update}

-- How often the memzone at `p` was reserved, and how often it was freed.
abbrev pub reserves : ℕ → List Event → ℕ
reserves p [] = 0
reserves p (memzone_reserved z ∷ t) = (if z.ptr == p then 1 else 0) + reserves p t
reserves p (_ ∷ t) = reserves p t

abbrev pub frees : ℕ → List Event → ℕ
frees p [] = 0
frees p (memzone_freed z ∷ t) = (if z.ptr == p then 1 else 0) + frees p t
frees p (_ ∷ t) = frees p t

-- The tracker has one entry for an address, and for each memzone as many entries as reservations
-- that were not freed.
pub record IsBalanced (w : World) : Type 0 where
  pub keys : Distinct w.allocated_memzones
  pub count : (p : ℕ) → reserves p w.trace ≡ frees p w.trace + tracked p w.allocated_memzones

pub release-IsBalanced : (addr : ℕ) (w : World) → IsBalanced w → IsBalanced (release addr w)
unfolding release
release-IsBalanced addr w v = elim (Option-cases (of w.allocated_memzones addr)) [
  | inl e ↦ rw (e, release) v
  | inr (z, e) ↦
      rw (e, release)
        (record {
          keys = erase-Distinct w.allocated_memzones addr v.keys;
          count = λ p. omega (arith, v.count p, tracked-erase p w.allocated_memzones addr z e);
        })
]

module _ (rte : Rte) where
  Allocates-IsBalanced :
      {size : ℕ} {w : World} {r : Result ℕ × World}
      → Allocates rte size w r
      → IsBalanced w
      → IsBalanced r.1
  Allocates-IsBalanced (served e) v = v
  Allocates-IsBalanced (failed e) v = record { keys = v.keys; count = v.count }
  Allocates-IsBalanced {w = w} (tracks z zs ne new e) v =
      rw e (record { keys = (new, v.keys); count = λ p. omega (arith, v.count p) })

  Reallocates-IsBalanced :
      {old_size new_size ptr : ℕ} {w : World} {r : Result ℕ × World}
      → Reallocates rte old_size new_size ptr w r
      → IsBalanced w
      → IsBalanced r.1
  Reallocates-IsBalanced (Outcomes.allocates r e a) v = Allocates-IsBalanced a v
  Reallocates-IsBalanced {ptr = ptr} {w = w} (empties n e) v = release-IsBalanced ptr w v
  Reallocates-IsBalanced (refused n m) v = record { keys = v.keys; count = v.count }
  Reallocates-IsBalanced {ptr = ptr} {w = w} (moves z zs n m new e) v =
      release-IsBalanced ptr _
        (rw e (record { keys = (new, v.keys); count = λ p. omega (arith, v.count p) }))

-- A client's calls of the pool. A call that fails leaves the buffers as they are.
pub data Call : Type 0 where
  allocates : ℤ → ℕ → Call
  reallocates : ℕ → ℤ → ℕ → ℕ → Call
  frees_buffer : ℕ → ℕ → Call

pub step : Rte → Call → Pool → Pool
step rte (allocates size alignment) p = (allocate (memzone_allocator rte) size alignment p).1
step rte (reallocates old_size new_size alignment ptr) p =
    (reallocate (memzone_allocator rte) old_size new_size alignment ptr p).1
step rte (frees_buffer buffer size) p = free (memzone_allocator rte) buffer size p

module _ (rte : Rte) where
  deallocate-IsBalanced :
      (buffer : ℕ) (w : World) → IsBalanced w → IsBalanced (memzone_deallocate rte buffer w)
  unfolding memzone_deallocate
  deallocate-IsBalanced buffer w v = elim (Bool-cases (buffer == rte.zero_size_area)) [
    | inl e ↦ rw e v
    | inr e ↦ rw e (release-IsBalanced buffer w v)
  ]

  with-IsBalanced :
      (diff : ℤ) (p : Pool) (r : Result ℕ × World)
      → IsBalanced r.1
      → IsBalanced (with_update (memzone_allocator rte) diff p r).1.world
  with-IsBalanced diff p (ok out, w) v = v
  with-IsBalanced diff p (err e, w) v = v

  -- Every call of the pool keeps the tracker balanced, whatever its arguments and its result, if DPDK
  -- does not hand out memory that is still reserved.
  pub step-IsBalanced :
      (c : Call) (p : Pool)
      → IsHonest rte p.world
      → IsBalanced p.world
      → IsBalanced (step rte c p).world
  unfolding step allocate reallocate free
  step-IsBalanced (allocates (negsuc n) alignment) p h v = v
  step-IsBalanced (allocates (pos size) alignment) p h v =
      elim (Bool-cases (leb (2 ^ 64 - 1) size)) [
        | inl e ↦ rw (e, step, allocate) v
        | inr e ↦
            rw (e, step, allocate)
              (with-IsBalanced _ p _ (
                Allocates-IsBalanced rte (memzone_allocate-Allocates rte size alignment p.world h)
                  v))
      ]
  step-IsBalanced (reallocates old_size (negsuc n) alignment ptr) p h v = v
  step-IsBalanced (reallocates old_size (pos new_size) alignment ptr) p h v =
      elim (Bool-cases (leb (2 ^ 64 - 1) new_size)) [
        | inl e ↦ rw (e, step, reallocate) v
        | inr e ↦
            rw (e, step, reallocate)
              (with-IsBalanced _ p _ (
                Reallocates-IsBalanced rte
                  (memzone_reallocate-Reallocates rte old_size new_size alignment ptr p.world h) v))
      ]
  step-IsBalanced (frees_buffer buffer size) p h v = deallocate-IsBalanced buffer p.world v

  -- On a balanced tracker a second release of a buffer does nothing.
  pub deallocate_twice :
      (buffer : ℕ) (w : World)
      → IsBalanced w
      → let w' = memzone_deallocate rte buffer w in memzone_deallocate rte buffer w' ≡ w'
  unfolding memzone_deallocate release
  deallocate_twice buffer w v = ground (arith, of-erase_self w.allocated_memzones buffer v.keys)
