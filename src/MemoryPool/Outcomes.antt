-- ===== src/MemoryPool/Outcomes.antt =====
-- What the calls of RtememzoneAllocator in src/memory_pool.cc can do, as two relations.
use bitar.Base.{
  ℕ, suc, ◌%◌, ◌^◌, ◌==◌, min, ◌≡◌, ◌≢◌, true, false, List, ◌∷◌, none, some, Result, continue, ok,
  err, out_of_memory, arith, Bool-cases, Option-cases, inl, inr,
}
use bitar.Rte.{Memzone, Rte}
use bitar.MemoryPool.Tracker.{emplace_fresh}
use bitar.MemoryPool.{
  World, memzone_reserved, copied, of, release, memzone_allocate, memzone_deallocate,
  memzone_reallocate, move_to,
}

-- DPDK does not hand out memory that is still reserved.
abbrev pub IsHonest : Rte → World → Type 0
IsHonest rte w =
    (size alignment : ℕ) (z : Memzone)
    → rte.memzone_reserve w.now size alignment ≡ some z
    → of w.allocated_memzones z.addr ≡ none

module _ (rte : Rte) where
  -- What a call of RtememzoneAllocator::AllocateAligned can do: it serves the zero-size area, fails,
  -- or reserves a memzone and tracks it.
  pub data Allocates (size : ℕ) (w : World) : Result ℕ × World → Type 0 where
    served : size ≡ 0 → Allocates size w (ok rte.zero_size_area, w)
    failed : size ≢ 0 → Allocates size w (err out_of_memory, record w { now = suc w.now })
    tracks :
        (z : Memzone) (zs : List (ℕ × Memzone))
        → size ≢ 0
        → of w.allocated_memzones z.addr ≡ none
        → zs ≡ (z.addr, z) ∷ w.allocated_memzones
        → Allocates size w (
          ok z.addr,
          record { now = suc w.now; allocated_memzones = zs; trace = memzone_reserved z ∷ w.trace },
        )

  -- RtememzoneAllocator::AllocateAligned on every branch, if DPDK does not hand out memory that is
  -- still reserved.
  pub memzone_allocate-Allocates :
      (size alignment : ℕ) (w : World)
      → IsHonest rte w
      → Allocates size w (memzone_allocate rte size alignment w)
  unfolding memzone_allocate
  memzone_allocate-Allocates size alignment w h = elim (Bool-cases (size == 0)) [
    | inl e ↦ rw e (served (ground arith))
    | inr e ↦
        let ne : size ≢ 0 = ground arith in
        elim (Option-cases (rte.memzone_reserve w.now size (alignment % 2 ^ 32))) [
          | inl f ↦ rw (e, f) (failed ne)
          | inr (z, f) ↦
              let new = h size (alignment % 2 ^ 32) z f in
              rw (e, f) (tracks z _ ne new (emplace_fresh w.allocated_memzones z.addr z new))
        ]
  ]

  -- What a call of RtememzoneAllocator::ReallocateAligned can do: allocate in place of the zero-size
  -- area, release the buffer, fail, or move the contents to a new memzone and release the old one.
  pub data Reallocates (old_size new_size ptr : ℕ) (w : World) : Result ℕ × World → Type 0 where
    allocates :
        (r : Result ℕ × World)
        → ptr ≡ rte.zero_size_area
        → Allocates new_size w r
        → Reallocates old_size new_size ptr w r
    empties :
        ptr ≢ rte.zero_size_area
        → new_size ≡ 0
        → Reallocates old_size new_size ptr w (ok rte.zero_size_area, release ptr w)
    refused :
        ptr ≢ rte.zero_size_area
        → new_size ≢ 0
        → Reallocates old_size new_size ptr w (err out_of_memory, record w { now = suc w.now })
    moves :
        (z : Memzone) (zs : List (ℕ × Memzone))
        → ptr ≢ rte.zero_size_area
        → new_size ≢ 0
        → of w.allocated_memzones z.addr ≡ none
        → zs ≡ (z.addr, z) ∷ w.allocated_memzones
        → Reallocates old_size new_size ptr w (
          ok z.addr,
          release ptr (record {
            now = suc w.now;
            allocated_memzones = zs;
            trace = copied z.addr ptr (min new_size old_size) ∷ memzone_reserved z ∷ w.trace;
          }),
        )

  move-Reallocates :
      (old_size new_size ptr : ℕ) (w : World) (r : Result ℕ × World)
      → ptr ≢ rte.zero_size_area
      → new_size ≢ 0
      → Allocates new_size w r
      → Reallocates old_size new_size ptr w
          (continue (λ out. move_to rte out ptr old_size new_size) r)
  unfolding move_to
  move-Reallocates old_size new_size ptr w r n m (served e) = absurd (m e)
  move-Reallocates old_size new_size ptr w r n m (failed e) = refused n m
  move-Reallocates old_size new_size ptr w r n m (tracks z zs e new f) = moves z zs n m new f

  reallocate_zero :
      (old_size new_size alignment ptr : ℕ) (w : World)
      → (ptr == rte.zero_size_area) ≡ true
      → memzone_reallocate rte old_size new_size alignment ptr w
        ≡ memzone_allocate rte new_size alignment w
  unfolding memzone_reallocate
  reallocate_zero old_size new_size alignment ptr w e = rw (e, memzone_reallocate)

  reallocate_empty :
      (old_size new_size alignment ptr : ℕ) (w : World)
      → (ptr == rte.zero_size_area) ≡ false
      → (new_size == 0) ≡ true
      → memzone_reallocate rte old_size new_size alignment ptr w
        ≡ (ok rte.zero_size_area, release ptr w)
  unfolding memzone_reallocate
  reallocate_empty old_size new_size alignment ptr w e f =
      rw (e, f, memzone_reallocate) (unfold memzone_deallocate in rw e)

  reallocate_move :
      (old_size new_size alignment ptr : ℕ) (w : World)
      → (ptr == rte.zero_size_area) ≡ false
      → (new_size == 0) ≡ false
      → memzone_reallocate rte old_size new_size alignment ptr w
        ≡ continue
            (λ out. move_to rte out ptr old_size new_size)
            (memzone_allocate rte new_size alignment w)
  unfolding memzone_reallocate
  reallocate_move old_size new_size alignment ptr w e f = rw (e, f, memzone_reallocate)

  -- RtememzoneAllocator::ReallocateAligned on every branch, if DPDK does not hand out memory that is
  -- still reserved.
  pub memzone_reallocate-Reallocates :
      (old_size new_size alignment ptr : ℕ) (w : World)
      → IsHonest rte w
      → Reallocates old_size new_size ptr w
          (memzone_reallocate rte old_size new_size alignment ptr w)
  memzone_reallocate-Reallocates old_size new_size alignment ptr w h =
      elim (Bool-cases (ptr == rte.zero_size_area)) [
        | inl e ↦
            rw (reallocate_zero old_size new_size alignment ptr w e)
              (allocates _ (ground arith) (memzone_allocate-Allocates new_size alignment w h))
        | inr e ↦ elim (Bool-cases (new_size == 0)) [
          | inl f ↦
              rw (reallocate_empty old_size new_size alignment ptr w e f)
                (empties (ground arith) (ground arith))
          | inr f ↦ rw (reallocate_move old_size new_size alignment ptr w e f) (
              move-Reallocates old_size new_size ptr w (memzone_allocate rte new_size alignment w)
                (ground arith) (ground arith) (memzone_allocate-Allocates new_size alignment w h))
        ]
      ]
