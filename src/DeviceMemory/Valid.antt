-- ===== src/DeviceMemory/Valid.antt =====
-- The invariant of DeviceMemory of src/memory.cc, and what an allocation of one memzone does to it.
use bitar.Base.{
  ℕ, suc, ◌+◌, ◌-◌, ◌%◌, ◌^◌, ◌≤◌, ◌<◌, leb, ◌≡◌, refl, ap, false, List, ◌∷◌, none, some, Result,
  ok, err, out_of_memory, arith, Option-cases, inl, inr, >>=-ok, >>=-err, ◌∙◌,
}
use bitar.Base.Int.{pos}
use bitar.Rte.{Memzone, MemzonePtr, Rte}
use bitar.MemoryPool.{
  World, Event, Pool, memzone_reserved, of, memzone_allocate, memzone_allocator, allocate,
  with_update,
}
use bitar.MemoryPool.Tracker.{tracked, emplace_fresh}
use bitar.DeviceMemory.{DeviceMemory, allocate_one, look_up}
use bitar.DeviceMemory.Zones.{count, Held, Keyed, IsFresh}

-- Each memzone is in the pool or occupied, and not both nor twice; the tracker has all of them,
-- under their addresses.
pub record IsValid (m : DeviceMemory) : Type 0 where
  pub keyed : Keyed m.process.world.allocated_memzones
  pub pool_held : Held m.process.world.allocated_memzones m.memzone_pool
  pub occupied_held : Held m.process.world.allocated_memzones m.occupied_memzones
  pub once : (p : ℕ) → count p m.memzone_pool + count p m.occupied_memzones ≤ 1

module _ (rte : Rte) where
  -- An allocation fails and changes the number of calls only, or hands out a memzone that is new to
  -- the tracker and that the tracker has from then on.
  pub data AllocatesOne (p : Pool) : Result MemzonePtr × Pool → Type 0 where
    fails :
        (q : Pool)
        → q.world.now ≡ suc p.world.now
        → q.world.allocated_memzones ≡ p.world.allocated_memzones
        → AllocatesOne p (err out_of_memory, q)
    gets :
        (z : Memzone) (q : Pool)
        → q.world.now ≡ suc p.world.now
        → of p.world.allocated_memzones z.addr ≡ none
        → tracked z.ptr p.world.allocated_memzones ≡ 0
        → q.world.allocated_memzones ≡ (z.addr, z) ∷ p.world.allocated_memzones
        → IsFresh rte q.world
        → AllocatesOne p (ok (some z), q)

  reserve_none :
      (size : ℕ) (w : World)
      → 0 < size
      → rte.memzone_reserve w.now size (rte.default_alignment % 2 ^ 32) ≡ none
      → memzone_allocate rte size rte.default_alignment w
        ≡ (err out_of_memory, record w { now = suc w.now })
  unfolding memzone_allocate
  reserve_none size w nonzero e = ground arith

  reserve_some :
      (size : ℕ) (w : World) (z : Memzone)
      → 0 < size
      → rte.memzone_reserve w.now size (rte.default_alignment % 2 ^ 32) ≡ some z
      → of w.allocated_memzones z.addr ≡ none
      → memzone_allocate rte size rte.default_alignment w ≡ (
        ok z.addr,
        record {
          now = suc w.now;
          allocated_memzones = (z.addr, z) ∷ w.allocated_memzones;
          trace = memzone_reserved z ∷ w.trace;
        },
      )
  unfolding memzone_allocate
  reserve_some size w z nonzero e new =
      ground (arith, emplace_fresh w.allocated_memzones z.addr z new)

  allocate_small :
      (size : ℕ) (p : Pool) (r : Result ℕ × World)
      → size < 2 ^ 16
      → memzone_allocate rte size rte.default_alignment p.world ≡ r
      → allocate (memzone_allocator rte) (pos size) rte.default_alignment p
        ≡ with_update (memzone_allocator rte) (pos size) p r
  unfolding allocate
  allocate_small size p r small e =
      let big : leb (2 ^ 64 - 1) size ≡ false = ground arith in
      rw (big, allocate) (ap (with_update (memzone_allocator rte) (pos size) p) e)

  allocate_one-none :
      (size : ℕ) (p : Pool)
      → 0 < size
      → size < 2 ^ 16
      → rte.memzone_reserve p.world.now size (rte.default_alignment % 2 ^ 32) ≡ none
      → allocate_one rte size p
        ≡ (err out_of_memory, record p { world = record p.world { now = suc p.world.now } })
  unfolding allocate_one
  allocate_one-none size p nonzero small e =
      >>=-err (allocate (memzone_allocator rte) (pos size) rte.default_alignment) look_up p
        (allocate_small size p _ small (reserve_none size p.world nonzero e))

  allocate_one-some :
      (size : ℕ) (p : Pool) (z : Memzone)
      → 0 < size
      → size < 2 ^ 16
      → rte.memzone_reserve p.world.now size (rte.default_alignment % 2 ^ 32) ≡ some z
      → of p.world.allocated_memzones z.addr ≡ none
      → allocate_one rte size p ≡ (
        ok (some z),
        record {
          world = record {
            now = suc p.world.now;
            allocated_memzones = (z.addr, z) ∷ p.world.allocated_memzones;
            trace = memzone_reserved z ∷ p.world.trace;
          };
          updates = (pos size, false) ∷ p.updates;
        },
      )
  unfolding allocate_one of
  allocate_one-some size p z nonzero small e new =
      >>=-ok (allocate (memzone_allocator rte) (pos size) rte.default_alignment) look_up p
        (allocate_small size p _ small (reserve_some size p.world z nonzero e new))
      ∙ ground arith

  IsFresh-later :
      (p : Pool) (z : Memzone) (size alignment : ℕ) (t : List Event)
      → IsFresh rte p.world
      → rte.memzone_reserve p.world.now size alignment ≡ some z
      → IsFresh rte (record {
        now = suc p.world.now;
        allocated_memzones = (z.addr, z) ∷ p.world.allocated_memzones;
        trace = t;
      })
  unfolding of
  IsFresh-later p z size alignment t f e = record {
    unused = λ n size' alignment' y le e'. ground (
      arith,
      f.unused n size' alignment' y (omega arith) e',
      f.apart p.world.now n size size' alignment alignment' z y (omega arith) (omega arith) e e',
    );
    apart = λ n m a b c d x y le lt e₁ e₂. f.apart n m a b c d x y (omega arith) lt e₁ e₂;
  }

  pub allocate_one-AllocatesOne :
      (size : ℕ) (p : Pool)
      → 0 < size
      → size < 2 ^ 16
      → IsFresh rte p.world
      → AllocatesOne p (allocate_one rte size p)
  allocate_one-AllocatesOne size p nonzero small f =
      elim (Option-cases (rte.memzone_reserve p.world.now size (rte.default_alignment % 2 ^ 32))) [
        | inl e ↦ rw (allocate_one-none size p nonzero small e) (fails _ refl refl)
        | inr (z, e) ↦
            let new =
              f.unused p.world.now size (rte.default_alignment % 2 ^ 32) z (omega arith) e in
            rw (allocate_one-some size p z nonzero small e new.0) (
              gets z _ refl new.0 new.1 refl
                (IsFresh-later p z size (rte.default_alignment % 2 ^ 32) _ f e))
      ]
