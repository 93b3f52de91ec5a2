-- ===== src/DeviceMemory.antt =====
-- DeviceMemory of src/include/memory.h and src/memory.cc: the memzones of a compress device that
-- hold compressed data. The calls are made one at a time, so mutex_ has no counterpart; what is
-- logged is left out.
pub mod Zones
pub mod Valid
pub mod Reuse
pub mod Preallocate
pub mod Ledger
pub mod Clock
mod Tests
use bitar.Base.{
  ℕ, zero, suc, ◌%◌, ◌^◌, ltb, ◌==◌, if◌then◌else◌, Bool, true, false, ◌||◌, List, [], ◌∷◌, Option,
  none, some, length, StatusCode, out_of_memory, Action, Status, Result, ok, err, ◌>>=◌,
}
use bitar.Base.Int.{pos}
use bitar.Config.{Configuration}
use bitar.Rte.{Memzone, MemzonePtr, Rte}
use bitar.MemoryPool.{Pool, of, memzone_allocator, allocate, free}

-- kMinPreallocateMemzones.
abbrev pub min_preallocate_memzones : ℕ
min_preallocate_memzones = 20

-- `process` is the memory pool for MemoryPoolBackend::Rtememzone with the tracker behind it. The head
-- of `memzone_pool` is the top of the stack.
pub record DeviceMemory : Type 0 where
  pub process : Pool
  pub memzone_pool : List MemzonePtr
  pub occupied_memzones : List MemzonePtr
  pub num_preallocated_memzones : ℕ

-- The address that a const rte_memzone* holds.
abbrev pub address_of : MemzonePtr → ℕ
address_of none = 0
address_of (some z) = z.ptr

-- find, insert and erase of a std::unordered_set of pointers.
unfoldable pub contains : MemzonePtr → List MemzonePtr → Bool
contains p [] = false
contains p (q ∷ qs) = address_of q == address_of p || contains p qs

unfoldable pub insert : MemzonePtr → List MemzonePtr → List MemzonePtr
insert p qs = if contains p qs then qs else p ∷ qs

unfoldable pub remove : MemzonePtr → List MemzonePtr → List MemzonePtr
remove p [] = []
remove p (q ∷ qs) = if address_of q == address_of p then qs else q ∷ remove p qs

-- AllocateOne of the anonymous namespace: what the tracker finds at the address that was allocated.
abbrev pub look_up : ℕ → Action Pool MemzonePtr
look_up addr p = (ok (of p.world.allocated_memzones addr), p)

unfoldable pub allocate_one : Rte → ℕ → Action Pool MemzonePtr
allocate_one rte size = do
  addr ← allocate (memzone_allocator rte) (pos size) rte.default_alignment
  look_up addr

abbrev is_out_of_memory : StatusCode → Bool
is_out_of_memory out_of_memory = true
is_out_of_memory _ = false

-- The branches behind an allocation that failed.
unfoldable pub give_up : StatusCode → DeviceMemory → Status
give_up e m =
    if is_out_of_memory e
    then if ltb (length m.memzone_pool) min_preallocate_memzones then err out_of_memory else ok tt
    else err e

-- The loop of Preallocate(). A round adds a memzone or is the last one, so the rounds that are
-- missing from max_preallocate_memzones are enough.
unfoldable pub fill : Rte → Configuration → ℕ → Action DeviceMemory (Unit {0})
fill rte c zero m = (ok tt, m)
fill rte c (suc rounds) m = elim (ltb (length m.memzone_pool) c.max_preallocate_memzones) [
  | false ↦ (ok tt, m)
  | true ↦
      let (r, p) = allocate_one rte c.compressed_seg_size m.process in
      elim r [
        | ok z ↦ fill rte c rounds (record m { process = p; memzone_pool = z ∷ m.memzone_pool })
        | err e ↦ (give_up e m, record m { process = p })
      ]
]

abbrev count_preallocated : Action DeviceMemory (Unit {0})
count_preallocated m =
    (ok tt, record m { num_preallocated_memzones = length m.memzone_pool % 2 ^ 16 })

unfoldable pub preallocate : Rte → Configuration → Action DeviceMemory (Unit {0})
preallocate rte c m = (fill rte c c.max_preallocate_memzones >>= λ _. count_preallocated) m

-- Take(). The remainder by burst_size() decides about a warning only.
unfoldable pub take : Rte → Configuration → DeviceMemory → MemzonePtr × DeviceMemory
take rte c m = elim m.memzone_pool [
  | z ∷ rest ↦
      (z, record m { memzone_pool = rest; occupied_memzones = insert z m.occupied_memzones })
  | [] ↦
      let (r, p) = allocate_one rte c.compressed_seg_size m.process in
      elim r [
        | ok z ↦ (z, record m { process = p; occupied_memzones = insert z m.occupied_memzones })
        | err e ↦ (none, record m { process = p })
      ]
]

-- Put(): the branch behind a memzone that the tracker found.
unfoldable pub put_back : MemzonePtr → DeviceMemory → ℕ × DeviceMemory
put_back z m =
    if contains z m.occupied_memzones
    then (
      1,
      record m {
        memzone_pool = z ∷ m.memzone_pool;
        occupied_memzones = remove z m.occupied_memzones;
      },
    )
    else (0, m)

unfoldable pub put : ℕ → DeviceMemory → ℕ × DeviceMemory
unfolding put_back
put addr m = elim (of m.process.world.allocated_memzones addr) [
  | none ↦ (0, m)
  | some z ↦ put_back (some z) m
]

-- The destructor. A null pointer among the memzones would be dereferenced; the model skips it.
unfoldable pub free_all : Rte → ℕ → List MemzonePtr → Pool → Pool
free_all rte size [] p = p
free_all rte size (none ∷ zs) p = free_all rte size zs p
free_all rte size (some z ∷ zs) p =
    free_all rte size zs (free (memzone_allocator rte) z.addr size p)

unfoldable pub destroy : Rte → Configuration → DeviceMemory → Pool
unfolding free_all
destroy rte c m =
    free_all rte c.compressed_seg_size m.occupied_memzones
      (free_all rte c.compressed_seg_size m.memzone_pool m.process)

-- The constructor.
abbrev pub init : Pool → DeviceMemory
init p = record {
  process = p;
  memzone_pool = [];
  occupied_memzones = [];
  num_preallocated_memzones = 0;
}
