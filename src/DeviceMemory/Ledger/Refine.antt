-- ===== src/DeviceMemory/Ledger/Refine.antt =====
-- Take() and Put() of src/memory.cc keep the ledger.
use bitar.Base.{
  ℕ, ◌+◌, ◌^◌, ◌<◌, ◌==◌, if◌then◌else◌, List, [], ◌∷◌, none, some, Result, ◌≡◌, refl, sym, ap, ◌∙◌,
  arith,
}
use mathlib.Core.Path.{subst}
use bitar.Config.{Configuration}
use bitar.Rte.{Memzone, MemzonePtr, Rte}
use bitar.MemoryPool.{Pool, of}
use bitar.DeviceMemory.{DeviceMemory, allocate_one, take, put}
use bitar.DeviceMemory.Zones.{Held, of-Keyed, IsFresh}
use bitar.DeviceMemory.Valid.{IsValid, AllocatesOne, fails, gets, allocate_one-AllocatesOne}
use bitar.DeviceMemory.Reuse.{
  Takes, pops, misses, grows, take-Takes, take-IsValid, Puts, unknown, unoccupied, returned,
  put-Puts, put-IsValid,
}
use bitar.DeviceMemory.Ledger.{
  Call, take_one, put_at, lent, given_back, Step, lends, refuses, accepts, ignores, Follows, done,
  next, answer, run_calls, standing, ledger,
}
use bitar.DeviceMemory.Ledger.Standing.{Single, standing-none, standing-count, standing-same}

-- What a memory has between two calls: its invariant, no memzone tracked twice, and a DPDK that hands
-- out memzones that are not in use.
pub record Ready (rte : Rte) (m : DeviceMemory) : Type 0 where
  pub valid : IsValid m
  pub single : Single m.process.world.allocated_memzones
  pub fresh : IsFresh rte m.process.world

AllocatesOne-IsFresh :
    {rte : Rte} {p : Pool} {r : Result MemzonePtr × Pool}
    → AllocatesOne rte p r
    → IsFresh rte p.world
    → IsFresh rte r.1.world
AllocatesOne-IsFresh (fails q now same) f = record {
  unused = λ n size alignment z le e. rw same (f.unused n size alignment z (omega arith) e);
  apart = λ n m a b c d x y le lt e₁ e₂. f.apart n m a b c d x y (omega arith) lt e₁ e₂;
}
AllocatesOne-IsFresh (gets z q now new unheld more fresh) f = fresh

put-process : (a : ℕ) (m : DeviceMemory) → IsValid m → (put a m).1.process ≡ m.process
put-process a m v = same (put-Puts a m v)
  where
    same : {r : ℕ × DeviceMemory} → Puts a m r → r.1.process ≡ m.process
    same (unknown e) = refl
    same (unoccupied z e k) = refl
    same (returned z zs e k h) = refl

module _ (rte : Rte) (c : Configuration) (nonzero : 0 < c.compressed_seg_size)
    (small : c.compressed_seg_size < 2 ^ 16) where
  take-process_none :
      (m : DeviceMemory)
      → m.memzone_pool ≡ []
      → (take rte c m).1.process ≡ (allocate_one rte c.compressed_seg_size m.process).1
  unfolding take
  take-process_none m e = ground arith

  take-process_some :
      (m : DeviceMemory) (z : MemzonePtr) (zs : List MemzonePtr)
      → m.memzone_pool ≡ z ∷ zs
      → (take rte c m).1.process ≡ m.process
  unfolding take
  take-process_some m z zs e = ground arith

  pool-IsFresh :
      (m : DeviceMemory) (zs : List MemzonePtr)
      → m.memzone_pool ≡ zs
      → IsFresh rte m.process.world
      → IsFresh rte (take rte c m).1.process.world
  pool-IsFresh m [] e f =
      subst (λ p. IsFresh rte p.world) (sym (take-process_none m e))
        (AllocatesOne-IsFresh
          (allocate_one-AllocatesOne rte c.compressed_seg_size m.process nonzero small f) f)
  pool-IsFresh m (z ∷ zs) e f =
      subst (λ p. IsFresh rte p.world) (sym (take-process_some m z zs e)) f

  Takes-Single :
      {m : DeviceMemory} {r : MemzonePtr × DeviceMemory}
      → Takes rte c m r
      → Single m.process.world.allocated_memzones
      → Single r.1.process.world.allocated_memzones
  Takes-Single (pops z rest e) single = single
  Takes-Single (misses p e same) single = subst Single (sym same) single
  Takes-Single (grows z p e new unheld more) single =
      subst Single (sym more) (λ q. ground (arith, single q, unheld))

  take-Ready : (m : DeviceMemory) → Ready rte m → Ready rte (take rte c m).1
  take-Ready m r = record {
    valid = take-IsValid rte c m nonzero small r.fresh r.valid;
    single = Takes-Single (take-Takes rte c m nonzero small r.fresh r.valid) r.single;
    fresh = pool-IsFresh m m.memzone_pool refl r.fresh;
  }

  lends_top :
      (m : DeviceMemory) (z : Memzone) (zs : List MemzonePtr)
      → m.memzone_pool ≡ some z ∷ zs
      → Ready rte m
      → ledger m z.addr ≡ 0
  lends_top m z zs e r =
      let held = subst (Held m.process.world.allocated_memzones) e r.valid.pool_held in
      standing-count m.process.world.allocated_memzones z.addr z m.occupied_memzones r.single held.0
        r.valid.occupied_held
      ∙ ground (arith, r.valid.once z.ptr)

  Takes-Step :
      {m : DeviceMemory} {r : MemzonePtr × DeviceMemory}
      → Takes rte c m r
      → Ready rte m
      → Step (ledger m) take_one (lent r.0) (ledger r.1)
  Takes-Step {m = m} (pops none zs e) r =
      absurd (subst (Held m.process.world.allocated_memzones) e r.valid.pool_held).0
  Takes-Step {m = m} (pops (some z) zs e) r = lends z (lends_top m z zs e r) (λ a. refl)
  Takes-Step (misses p e same) r = refuses (λ a. refl)
  Takes-Step {m = m} (grows z p e new unheld more) r =
      lends z
        (standing-none m.process.world.allocated_memzones z.addr m.occupied_memzones new
          r.valid.occupied_held)
        (λ a. refl)

module _ (rte : Rte) where
  put-Ready : (a : ℕ) (m : DeviceMemory) → Ready rte m → Ready rte (put a m).1
  put-Ready a m r =
      let same : m.process ≡ (put a m).1.process = sym (put-process a m r.valid) in
      record {
        valid = put-IsValid a m r.valid;
        single = subst (λ p. Single p.world.allocated_memzones) same r.single;
        fresh = subst (λ p. IsFresh rte p.world) same r.fresh;
      }

  Puts-Step :
      {a : ℕ} {m : DeviceMemory} {r : ℕ × DeviceMemory}
      → Puts a m r
      → Ready rte m
      → Step (ledger m) (put_at a) (given_back r.0) (ledger r.1)
  Puts-Step {a = a} {m = m} (unknown e) r =
      ignores a
        (standing-none m.process.world.allocated_memzones a m.occupied_memzones e
          r.valid.occupied_held)
        (λ b. refl)
  Puts-Step {a = a} {m = m} (unoccupied z e k) r =
      ignores a
        (standing-count m.process.world.allocated_memzones a z m.occupied_memzones r.single e
            r.valid.occupied_held
          ∙ k)
        (λ b. refl)
  Puts-Step {a = a} {m = m} (returned z zs e k held) r =
      let t = m.process.world.allocated_memzones in
      let at_a : z.addr ≡ a = of-Keyed t a z r.valid.keyed e in
      let tracked_there : of t z.addr ≡ some z = subst (λ b. of t b ≡ some z) (sym at_a) e in
      accepts a (λ b.
        standing-same t b m.occupied_memzones (some z ∷ zs) r.single r.valid.occupied_held
          (tracked_there, held) k
        ∙ ap (λ x. (if x == b then 1 else 0) + standing b zs) at_a)

module _ (rte : Rte) (c : Configuration) (nonzero : 0 < c.compressed_seg_size)
    (small : c.compressed_seg_size < 2 ^ 16) where
  -- The memory of a device refines the ledger: any sequence of Take() and Put(), from a memory with the
  -- invariant, is answered as the ledger of the addresses of its occupied memzones allows. So no address
  -- is lent twice without being given back between, and Put() counts exactly the addresses that are lent.
  pub run_calls-Follows :
      (calls : List Call) (m : DeviceMemory)
      → Ready rte m
      → Follows (ledger m) calls (run_calls rte c calls m).0 (ledger (run_calls rte c calls m).1)
  unfolding run_calls answer
  run_calls-Follows [] m r = done
  run_calls-Follows (take_one ∷ calls) m r =
      next (Takes-Step rte c nonzero small (take-Takes rte c m nonzero small r.fresh r.valid) r)
        (run_calls-Follows calls (take rte c m).1 (take-Ready rte c nonzero small m r))
  run_calls-Follows (put_at a ∷ calls) m r =
      next (Puts-Step rte (put-Puts a m r.valid) r)
        (run_calls-Follows calls (put a m).1 (put-Ready rte a m r))
