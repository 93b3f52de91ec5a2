-- ===== src/DeviceMemory/Reuse.antt =====
-- Take() and Put() of DeviceMemory of src/memory.cc: what each does on every branch, that they keep
-- the invariant, and that Put() undoes Take().
use bitar.Base.{
  ℕ, ◌^◌, ◌<◌, ◌≡◌, refl, sym, List, [], ◌∷◌, none, some, Result, ok, err, arith, Bool-cases,
  Option-cases, inl, inr, out_of_memory,
}
use mathlib.Core.Path.{subst}
use bitar.Config.{Configuration}
use bitar.Rte.{Memzone, MemzonePtr, Rte}
use bitar.MemoryPool.{Pool, of}
use bitar.DeviceMemory.{
  DeviceMemory, address_of, contains, remove, allocate_one, take, put, put_back,
}
use bitar.DeviceMemory.Zones.{
  count, Held, Keyed, of-Keyed, IsFresh, contains-count, insert_fresh, count-remove, remove-Held,
  cons-Held, count-Held,
}
use bitar.DeviceMemory.Valid.{IsValid, AllocatesOne, fails, gets, allocate_one-AllocatesOne}
use bitar.MemoryPool.Tracker.{tracked}

module _ (rte : Rte) (c : Configuration) where
  -- Take() pops the top of the pool; on an empty pool it returns nullptr and leaves the lists alone,
  -- or hands out a memzone that is new to the tracker. What it returns is occupied from then on.
  pub data Takes (m : DeviceMemory) : MemzonePtr × DeviceMemory → Type 0 where
    pops :
        (z : MemzonePtr) (rest : List MemzonePtr)
        → m.memzone_pool ≡ z ∷ rest
        → Takes m (z, record m { memzone_pool = rest; occupied_memzones = z ∷ m.occupied_memzones })
    misses :
        (p : Pool)
        → m.memzone_pool ≡ []
        → p.world.allocated_memzones ≡ m.process.world.allocated_memzones
        → Takes m (none, record m { process = p })
    grows :
        (z : Memzone) (p : Pool)
        → m.memzone_pool ≡ []
        → of m.process.world.allocated_memzones z.addr ≡ none
        → tracked z.ptr m.process.world.allocated_memzones ≡ 0
        → p.world.allocated_memzones ≡ (z.addr, z) ∷ m.process.world.allocated_memzones
        → Takes m
            (some z, record m { process = p; occupied_memzones = some z ∷ m.occupied_memzones })

  take_pool :
      (m : DeviceMemory) (z : MemzonePtr) (rest : List MemzonePtr)
      → m.memzone_pool ≡ z ∷ rest
      → count (address_of z) m.occupied_memzones ≡ 0
      → take rte c m
        ≡ (z, record m { memzone_pool = rest; occupied_memzones = z ∷ m.occupied_memzones })
  unfolding take
  take_pool m z rest e free = ground (arith, insert_fresh z m.occupied_memzones free)

  take_failed :
      (m : DeviceMemory) (p : Pool)
      → m.memzone_pool ≡ []
      → allocate_one rte c.compressed_seg_size m.process ≡ (err out_of_memory, p)
      → take rte c m ≡ (none, record m { process = p })
  unfolding take
  take_failed m p e a = ground arith

  take_grown :
      (m : DeviceMemory) (z : MemzonePtr) (p : Pool)
      → m.memzone_pool ≡ []
      → allocate_one rte c.compressed_seg_size m.process ≡ (ok z, p)
      → count (address_of z) m.occupied_memzones ≡ 0
      → take rte c m ≡ (z, record m { process = p; occupied_memzones = z ∷ m.occupied_memzones })
  unfolding take
  take_grown m z p e a free = ground (arith, insert_fresh z m.occupied_memzones free)

  pub top_unoccupied :
      (m : DeviceMemory) (z : MemzonePtr) (rest : List MemzonePtr)
      → m.memzone_pool ≡ z ∷ rest
      → IsValid m
      → count (address_of z) m.occupied_memzones ≡ 0
  top_unoccupied m z rest e v = ground (arith, v.once (address_of z))

  allocated-Takes :
      (m : DeviceMemory) (r : Result MemzonePtr × Pool)
      → m.memzone_pool ≡ []
      → IsValid m
      → allocate_one rte c.compressed_seg_size m.process ≡ r
      → AllocatesOne rte m.process r
      → Takes m (take rte c m)
  allocated-Takes m r e v a (fails p later same) = rw (take_failed m p e a) (misses p e same)
  allocated-Takes m r e v a (gets z p later new unheld more fresh) =
      rw
        (take_grown m (some z) p e a
          (count-Held _ z.ptr m.occupied_memzones unheld v.occupied_held))
        (grows z p e new unheld more)

  take_cases :
      (m : DeviceMemory) (zs : List MemzonePtr)
      → m.memzone_pool ≡ zs
      → 0 < c.compressed_seg_size
      → c.compressed_seg_size < 2 ^ 16
      → IsFresh rte m.process.world
      → IsValid m
      → Takes m (take rte c m)
  take_cases m [] e nonzero small f v =
      allocated-Takes m _ e v refl
        (allocate_one-AllocatesOne rte c.compressed_seg_size m.process nonzero small f)
  take_cases m (z ∷ rest) e nonzero small f v =
      rw (take_pool m z rest e (top_unoccupied m z rest e v)) (pops z rest e)

  -- Take() on every branch, where the invariant holds, the compressed segment size is not 0 and fits
  -- 16 bits, and DPDK hands out memzones that are not in use.
  pub take-Takes :
      (m : DeviceMemory)
      → 0 < c.compressed_seg_size
      → c.compressed_seg_size < 2 ^ 16
      → IsFresh rte m.process.world
      → IsValid m
      → Takes m (take rte c m)
  take-Takes m = take_cases m m.memzone_pool refl

  Takes-IsValid :
      {m : DeviceMemory} {r : MemzonePtr × DeviceMemory} → Takes m r → IsValid m → IsValid r.1
  unfolding of
  Takes-IsValid {m = m} (pops z rest e) v =
      let held : Held m.process.world.allocated_memzones (z ∷ rest) =
        subst (Held m.process.world.allocated_memzones) e v.pool_held in
      record {
        keyed = v.keyed;
        pool_held = held.1;
        occupied_held = (held.0, v.occupied_held);
        once = λ p. ground (arith, v.once p);
      }
  Takes-IsValid {m = m} (misses p e same) v = record {
    keyed = rw same v.keyed;
    pool_held = rw same v.pool_held;
    occupied_held = rw same v.occupied_held;
    once = v.once;
  }
  Takes-IsValid {m = m} (grows z p e new unheld more) v = record {
    keyed = subst Keyed (sym more) (refl, v.keyed);
    pool_held = subst (Held p.world.allocated_memzones) (sym e) tt;
    occupied_held =
        subst (λ t. Held t (some z ∷ m.occupied_memzones)) (sym more)
          (cons_self, cons-Held _ z.addr z _ new v.occupied_held);
    once = λ p.
        ground (arith, v.once p, count-Held _ z.ptr m.occupied_memzones unheld v.occupied_held);
  }
    where
      cons_self : of ((z.addr, z) ∷ m.process.world.allocated_memzones) z.addr ≡ some z
      cons_self = ground arith

  -- Take() keeps the invariant, where the compressed segment size is not 0 and fits 16 bits, and DPDK
  -- hands out memzones that are not in use.
  pub take-IsValid :
      (m : DeviceMemory)
      → 0 < c.compressed_seg_size
      → c.compressed_seg_size < 2 ^ 16
      → IsFresh rte m.process.world
      → IsValid m
      → IsValid (take rte c m).1
  take-IsValid m nonzero small f v = Takes-IsValid (take-Takes m nonzero small f v) v

-- Put() puts back an occupied memzone at that address, or does nothing because the tracker has none
-- there or because it is not occupied.
pub data Puts (addr : ℕ) (m : DeviceMemory) : ℕ × DeviceMemory → Type 0 where
  unknown : of m.process.world.allocated_memzones addr ≡ none → Puts addr m (0, m)
  unoccupied :
      (z : Memzone)
      → of m.process.world.allocated_memzones addr ≡ some z
      → count z.ptr m.occupied_memzones ≡ 0
      → Puts addr m (0, m)
  returned :
      (z : Memzone) (zs : List MemzonePtr)
      → of m.process.world.allocated_memzones addr ≡ some z
      → ((p : ℕ) → count p m.occupied_memzones ≡ count p (some z ∷ zs))
      → Held m.process.world.allocated_memzones zs
      → Puts addr m (1, record m { memzone_pool = some z ∷ m.memzone_pool; occupied_memzones = zs })

put_unknown :
    (addr : ℕ) (m : DeviceMemory)
    → of m.process.world.allocated_memzones addr ≡ none
    → put addr m ≡ (0, m)
unfolding put
put_unknown addr m e = rw (e, put)

put_found :
    (addr : ℕ) (m : DeviceMemory) (z : Memzone)
    → of m.process.world.allocated_memzones addr ≡ some z
    → put addr m ≡ put_back (some z) m
put_found addr m z e = unfold put in rw (e, put)

-- Put() on every branch, where the invariant holds.
pub put-Puts : (addr : ℕ) (m : DeviceMemory) → IsValid m → Puts addr m (put addr m)
put-Puts addr m v = elim (Option-cases (of m.process.world.allocated_memzones addr)) [
  | inl e ↦ rw (put_unknown addr m e) (unknown e)
  | inr (z, e) ↦ elim (Bool-cases (contains (some z) m.occupied_memzones)) [
    | inl f ↦ rw (put_found addr m z e) (
        unfold put_back in
        rw f (
          returned z _ e (λ p. count-remove p (some z) m.occupied_memzones f)
            (remove-Held _ (some z) m.occupied_memzones v.occupied_held)))
    | inr f ↦ rw (put_found addr m z e) (
        unfold put_back in
        rw f (unoccupied z e (ground (arith, contains-count (some z) m.occupied_memzones))))
  ]
]

Puts-IsValid :
    {addr : ℕ} {m : DeviceMemory} {r : ℕ × DeviceMemory} → Puts addr m r → IsValid m → IsValid r.1
Puts-IsValid (unknown e) v = v
Puts-IsValid (unoccupied z e f) v = v
Puts-IsValid {addr = addr} {m = m} (returned z zs e f h) v = record {
  keyed = v.keyed;
  pool_held = (
    subst (λ a. of m.process.world.allocated_memzones a ≡ some z)
        (sym (of-Keyed _ addr z v.keyed e)) e,
    v.pool_held,
  );
  occupied_held = h;
  once = λ p. ground (arith, v.once p, f p);
}

-- Put() keeps the invariant.
pub put-IsValid : (addr : ℕ) (m : DeviceMemory) → IsValid m → IsValid (put addr m).1
put-IsValid addr m v = Puts-IsValid (put-Puts addr m v) v

put_top :
    (m : DeviceMemory) (z : Memzone) (rest : List MemzonePtr)
    → m.memzone_pool ≡ some z ∷ rest
    → of m.process.world.allocated_memzones z.addr ≡ some z
    → put z.addr
        (record m { memzone_pool = rest; occupied_memzones = some z ∷ m.occupied_memzones })
      ≡ (1, m)
unfolding put contains remove
put_top m z rest e h = ground arith

-- A memzone that Take() has popped goes back to where it was: Put() of its address reports one
-- memzone and restores the state, where the invariant holds.
pub put-take :
    (rte : Rte) (c : Configuration) (m : DeviceMemory) (z : Memzone) (rest : List MemzonePtr)
    → IsValid m
    → m.memzone_pool ≡ some z ∷ rest
    → put z.addr (take rte c m).1 ≡ (1, m)
put-take rte c m z rest v e =
    rw (take_pool rte c m (some z) rest e (top_unoccupied rte c m (some z) rest e v))
      (put_top m z rest e (subst (Held m.process.world.allocated_memzones) e v.pool_held).0)
