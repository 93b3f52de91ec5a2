-- ===== src/DeviceMemory/Ledger.antt =====
-- What the memzones of src/memory.cc are to their user: a ledger of the addresses that are lent. The
-- ledger is told of each call of Take() and Put() and of its answer, and knows nothing of the pool, of
-- DPDK or of the tracker.
pub mod Standing
pub mod Refine
use bitar.Base.{ℕ, ◌+◌, ◌==◌, if◌then◌else◌, List, [], ◌∷◌, none, some, ◌≡◌}
use bitar.Config.{Configuration}
use bitar.Rte.{Memzone, MemzonePtr, Rte}
use bitar.DeviceMemory.{DeviceMemory, take, put}

pub data Call : Type 0 where
  take_one : Call
  put_at : ℕ → Call

pub data Answer : Type 0 where
  lent : MemzonePtr → Answer
  given_back : ℕ → Answer

-- How often each address is lent.
abbrev pub Lent : Type 0
Lent = ℕ → ℕ

-- A memzone is lent only while its address is not, a nullptr lends nothing; an address that is lent is
-- taken back, and any other is ignored.
pub data Step (l : Lent) : Call → Answer → Lent → Type 0 where
  lends :
      {l' : Lent} (z : Memzone)
      → l z.addr ≡ 0
      → ((a : ℕ) → l' a ≡ (if z.addr == a then 1 else 0) + l a)
      → Step l take_one (lent (some z)) l'
  refuses : {l' : Lent} → ((a : ℕ) → l' a ≡ l a) → Step l take_one (lent none) l'
  accepts :
      {l' : Lent} (a : ℕ)
      → ((b : ℕ) → l b ≡ (if a == b then 1 else 0) + l' b)
      → Step l (put_at a) (given_back 1) l'
  ignores :
      {l' : Lent} (a : ℕ) → l a ≡ 0 → ((b : ℕ) → l' b ≡ l b) → Step l (put_at a) (given_back 0) l'

pub data Follows : Lent → List Call → List Answer → Lent → Type 0 where
  done : {l : Lent} → Follows l [] [] l
  next :
      {l l' l'' : Lent} {c : Call} {r : Answer} {cs : List Call} {rs : List Answer}
      → Step l c r l'
      → Follows l' cs rs l''
      → Follows l (c ∷ cs) (r ∷ rs) l''

-- The calls on the memory of a device, with their answers.
module _ (rte : Rte) (c : Configuration) where
  unfoldable pub answer : Call → DeviceMemory → Answer × DeviceMemory
  answer take_one m = let (z, m') = take rte c m in (lent z, m')
  answer (put_at a) m = let (k, m') = put a m in (given_back k, m')

  unfoldable pub run_calls : List Call → DeviceMemory → List Answer × DeviceMemory
  run_calls [] m = ([], m)
  run_calls (x ∷ xs) m =
      let (r, m') = answer x m in let (rs, m'') = run_calls xs m' in (r ∷ rs, m'')

-- The ledger of a memory: the addresses of its occupied memzones.
abbrev pub standing : ℕ → List MemzonePtr → ℕ
standing a [] = 0
standing a (none ∷ zs) = standing a zs
standing a (some z ∷ zs) = (if z.addr == a then 1 else 0) + standing a zs

abbrev pub ledger : DeviceMemory → Lent
ledger m a = standing a m.occupied_memzones
