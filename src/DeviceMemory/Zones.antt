-- ===== src/DeviceMemory/Zones.antt =====
-- Lists of memzones, counted by pointer, and the tracker entries behind them.
use bitar.Base.{
  ℕ, ◌+◌, ◌≤◌, ◌<◌, ltb, ◌==◌, if◌then◌else◌, ◌≡◌, ◌≢◌, refl, true, List, [], ◌∷◌, none, some,
  arith, Bool-cases, inl, inr,
}
use bitar.Rte.{Memzone, MemzonePtr, Rte}
use bitar.MemoryPool.{World, of}
use bitar.MemoryPool.Tracker.{tracked, tracked-erase}
use bitar.DeviceMemory.{address_of, contains, insert, remove}

-- How often the memzone at `p` is in the list.
abbrev pub count : ℕ → List MemzonePtr → ℕ
count p [] = 0
count p (z ∷ zs) = (if address_of z == p then 1 else 0) + count p zs

pub contains-count :
    (z : MemzonePtr) (zs : List MemzonePtr) → contains z zs ≡ ltb 0 (count (address_of z) zs)
unfolding contains
contains-count z [] = refl
contains-count z (y ∷ zs) = ground (arith, contains-count z zs)

pub count-insert :
    (p : ℕ) (z : MemzonePtr) (zs : List MemzonePtr)
    → count (address_of z) zs ≡ 0
    → count p (insert z zs) ≡ count p (z ∷ zs)
unfolding insert
count-insert p z zs h = ground (arith, contains-count z zs)

pub insert_fresh :
    (z : MemzonePtr) (zs : List MemzonePtr) → count (address_of z) zs ≡ 0 → insert z zs ≡ z ∷ zs
unfolding insert
insert_fresh z zs h = ground (arith, contains-count z zs)

pub count-remove :
    (p : ℕ) (z : MemzonePtr) (zs : List MemzonePtr)
    → contains z zs ≡ true
    → count p zs ≡ (if address_of z == p then 1 else 0) + count p (remove z zs)
unfolding contains remove
count-remove p z [] h = cc
count-remove p z (y ∷ zs) h = elim (Bool-cases (address_of y == address_of z)) [
  | inl e ↦ ground arith
  | inr e ↦ ground (arith, count-remove p z zs)
]

-- Each entry stands at the address of its memzone.
abbrev pub Keyed : List (ℕ × Memzone) → Type 0
Keyed [] = Unit {0}
Keyed ((a, z) ∷ t) = (z.addr ≡ a) × Keyed t

pub of-Keyed :
    (t : List (ℕ × Memzone)) (a : ℕ) (z : Memzone) → Keyed t → of t a ≡ some z → z.addr ≡ a
unfolding of
of-Keyed [] a z k h = cc
of-Keyed ((b, y) ∷ t) a z k h = elim (Bool-cases (b == a)) [
  | inl e ↦ ground arith
  | inr e ↦ ground (arith, of-Keyed t a z k.1)
]

-- The tracker finds the memzone at its own address.
abbrev pub IsTracked : List (ℕ × Memzone) → MemzonePtr → Type 0
IsTracked t none = ⊥
IsTracked t (some z) = of t z.addr ≡ some z

abbrev pub Held : List (ℕ × Memzone) → List MemzonePtr → Type 0
Held t [] = Unit {0}
Held t (z ∷ zs) = IsTracked t z × Held t zs

pub remove-Held :
    (t : List (ℕ × Memzone)) (z : MemzonePtr) (zs : List MemzonePtr)
    → Held t zs
    → Held t (remove z zs)
unfolding remove
remove-Held t z [] h = tt
remove-Held t z (y ∷ zs) h = ground (arith, remove-Held t z zs h.1)

pub insert-Held :
    (t : List (ℕ × Memzone)) (z : MemzonePtr) (zs : List MemzonePtr)
    → IsTracked t z
    → Held t zs
    → Held t (insert z zs)
unfolding insert
insert-Held t z zs k h = elim (Bool-cases (contains z zs)) [ inl e ↦ rw e h | inr e ↦ rw e (k, h) ]

-- What one more entry of the tracker leaves alone.
pub cons-IsTracked :
    (t : List (ℕ × Memzone)) (a : ℕ) (y : Memzone) (z : MemzonePtr)
    → of t a ≡ none
    → IsTracked t z
    → IsTracked ((a, y) ∷ t) z
unfolding of
cons-IsTracked t a y none h k = k
cons-IsTracked t a y (some z) h k = ground arith

pub cons-Held :
    (t : List (ℕ × Memzone)) (a : ℕ) (y : Memzone) (zs : List MemzonePtr)
    → of t a ≡ none
    → Held t zs
    → Held ((a, y) ∷ t) zs
cons-Held t a y [] h k = tt
cons-Held t a y (z ∷ zs) h k = (cons-IsTracked t a y z h k.0, cons-Held t a y zs h k.1)

-- A memzone that is nowhere in the tracker is in no list of held memzones.
pub count-Held :
    (t : List (ℕ × Memzone)) (p : ℕ) (zs : List MemzonePtr)
    → tracked p t ≡ 0
    → Held t zs
    → count p zs ≡ 0
count-Held t p [] h k = refl
count-Held t p (none ∷ zs) h k = absurd k.0
count-Held t p (some z ∷ zs) h k =
    ground (arith, tracked-erase p t z.addr z k.0, count-Held t p zs h k.1)

-- From this state on, the memzones that DPDK hands out are at addresses that are not in use, neither
-- by a memzone that the tracker has nor by one another. (Two memzones that are reserved at one time
-- never share memory or their structure.)
pub record IsFresh (rte : Rte) (w : World) : Type 0 where
  pub unused :
      (n size alignment : ℕ) (z : Memzone)
      → w.now ≤ n
      → rte.memzone_reserve n size alignment ≡ some z
      → (of w.allocated_memzones z.addr ≡ none) × (tracked z.ptr w.allocated_memzones ≡ 0)
  pub apart :
      (n m size size' alignment alignment' : ℕ) (z y : Memzone)
      → w.now ≤ n
      → n < m
      → rte.memzone_reserve n size alignment ≡ some z
      → rte.memzone_reserve m size' alignment' ≡ some y
      → (z.addr ≢ y.addr) × (z.ptr ≢ y.ptr)
