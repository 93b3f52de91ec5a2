-- ===== src/DeviceMemory/Clock.antt =====
-- The calls of DPDK that Take() of src/memory.cc makes: their number does not decrease.
use bitar.Base.{
  ℕ, ◌≤◌, ◌-◌, ◌^◌, leb, Bool, true, false, if◌then◌else◌, Result, ok, err, continue, arith,
}
use bitar.Base.Int.{ℤ, pos}
use bitar.Rte.{Rte}
use bitar.Config.{Configuration}
use bitar.MemoryPool.{World, Pool, memzone_allocate, memzone_allocator, allocate, with_update}
use bitar.DeviceMemory.{DeviceMemory, look_up, allocate_one, take}

memzone_allocate-Later :
    (rte : Rte) (size alignment : ℕ) (w : World)
    → w.now ≤ (memzone_allocate rte size alignment w).1.now
unfolding memzone_allocate
memzone_allocate-Later rte size alignment w = ground arith

updated-Later :
    (rte : Rte) (t : ℕ) (diff : ℤ) (p : Pool) (r : Result ℕ × World)
    → t ≤ r.1.now
    → t ≤ (with_update (memzone_allocator rte) diff p r).1.world.now
updated-Later rte t diff p (ok out, w) h = h
updated-Later rte t diff p (err e, w) h = h

if-Later :
    (t : ℕ) (b : Bool) (x y : Result ℕ × Pool)
    → t ≤ x.1.world.now
    → t ≤ y.1.world.now
    → t ≤ (if b then x else y).1.world.now
if-Later t true x y h k = h
if-Later t false x y h k = k

allocate-Later :
    (rte : Rte) (size alignment : ℕ) (p : Pool)
    → p.world.now ≤ (allocate (memzone_allocator rte) (pos size) alignment p).1.world.now
unfolding allocate
allocate-Later rte size alignment p =
    if-Later p.world.now (leb (2 ^ 64 - 1) size) _ _ (omega arith) (
      updated-Later rte p.world.now (pos size) p (memzone_allocate rte size alignment p.world)
        (memzone_allocate-Later rte size alignment p.world))

looked_up-Later :
    (t : ℕ) (r : Result ℕ × Pool) → t ≤ r.1.world.now → t ≤ (continue look_up r).1.world.now
looked_up-Later t (ok addr, p) h = h
looked_up-Later t (err e, p) h = h

allocate_one-Later :
    (rte : Rte) (size : ℕ) (p : Pool) → p.world.now ≤ (allocate_one rte size p).1.world.now
unfolding allocate_one
allocate_one-Later rte size p =
    looked_up-Later p.world.now
      (allocate (memzone_allocator rte) (pos size) rte.default_alignment p)
      (allocate-Later rte size rte.default_alignment p)

pub take-Later :
    (rte : Rte) (c : Configuration) (m : DeviceMemory)
    → m.process.world.now ≤ (take rte c m).1.process.world.now
unfolding take
take-Later rte c m = ground (arith, allocate_one-Later rte c.compressed_seg_size m.process)
