-- ===== src/Device/Compression/Recycling.antt =====
-- Recycle() of CompressDevice, src/device.cc: the memzones of the buffers go back to the pool.
use mathlib.Core.Path.{subst}
use bitar.Base.{
  ℕ, ◌+◌, ◌≤◌, List, [], ◌∷◌, ◌++◌, some, length, length-append, ◌≡◌, refl, sym, ap, ◌∙◌, arith,
}
use bitar.Rte.{Memzone, MemzonePtr}
use bitar.MemoryPool.{of}
use bitar.DeviceMemory.{DeviceMemory, put}
use bitar.DeviceMemory.Zones.{count}
use bitar.DeviceMemory.Valid.{IsValid}
use bitar.DeviceMemory.Reuse.{Puts, unknown, unoccupied, returned, put-Puts, put-IsValid}
use bitar.QueuePair.Assemble.{Buffer}
use bitar.Device.Compression.{put_each, reversed, recycle}

-- The memzones that stand behind some buffers, as the tracker has them.
pub data Backed (t : List (ℕ × Memzone)) : List Buffer → List MemzonePtr → Type 0 where
  no_buffers : Backed t [] []
  one_more :
      {b : Buffer} {bs : List Buffer} {zs : List MemzonePtr} (z : Memzone)
      → of t b.data_addr ≡ some z
      → Backed t bs zs
      → Backed t (b ∷ bs) (some z ∷ zs)

-- What putting an occupied memzone back comes to.
pub record PutsOne (z : Memzone) (m : DeviceMemory) (r : ℕ × DeviceMemory) : Type 0 where
  pub counted : r.0 ≡ 1
  pub process : r.1.process ≡ m.process
  pub to_pool : (p : ℕ) → count p r.1.memzone_pool ≡ count p (some z ∷ m.memzone_pool)
  pub from_occupied :
      (p : ℕ) → count p m.occupied_memzones ≡ count p (some z ∷ r.1.occupied_memzones)

same_zone : {z y : Memzone} → some z ≡ some y → z ≡ y
same_zone h = grind arith

Puts-PutsOne :
    (addr : ℕ) (m : DeviceMemory) (z : Memzone) (r : ℕ × DeviceMemory)
    → of m.process.world.allocated_memzones addr ≡ some z
    → 1 ≤ count z.ptr m.occupied_memzones
    → Puts addr m r
    → PutsOne z m r
Puts-PutsOne addr m z r e h (unknown f) = absurd (grind arith)
Puts-PutsOne addr m z r e h (unoccupied y f k) =
    let same : y ≡ z = same_zone (sym f ∙ e) in
    absurd (omega (arith, ap (λ x. count x.ptr m.occupied_memzones) same))
Puts-PutsOne addr m z r e h (returned y zs f k held) =
    let same : z ≡ y = same_zone (sym e ∙ f) in
    subst
      (λ x.
        PutsOne x m
          (1, record m { memzone_pool = some y ∷ m.memzone_pool; occupied_memzones = zs }))
      (sym same) (record { counted = refl; process = refl; to_pool = λ p. refl; from_occupied = k })

-- What Recycle() comes to, for the memzones `zs`.
pub record Recycled (n : ℕ) (zs : List MemzonePtr) (m : DeviceMemory) (r : ℕ × DeviceMemory)
    : Type 0 where
  pub counted : r.0 ≡ n
  pub to_pool : (p : ℕ) → count p r.1.memzone_pool ≡ count p m.memzone_pool + count p zs
  pub from_occupied :
      (p : ℕ) → count p r.1.occupied_memzones + count p zs ≡ count p m.occupied_memzones
  pub valid : IsValid r.1

occupied_once :
    (z : Memzone) (zs : List MemzonePtr) (m : DeviceMemory)
    → count z.ptr (some z ∷ zs) ≤ count z.ptr m.occupied_memzones
    → 1 ≤ count z.ptr m.occupied_memzones
occupied_once z zs m h = ground arith

put_each-Recycled :
    (bs : List Buffer) (zs : List MemzonePtr) (m : DeviceMemory)
    → IsValid m
    → Backed m.process.world.allocated_memzones bs zs
    → ((p : ℕ) → count p zs ≤ count p m.occupied_memzones)
    → Recycled (length bs) zs m (put_each bs m)
unfolding put_each
put_each-Recycled [] zs m v no_buffers h = record {
  counted = refl;
  to_pool = λ p. omega arith;
  from_occupied = λ p. omega arith;
  valid = v;
}
put_each-Recycled (b ∷ bs) [] m v x h = elim x [ ]
put_each-Recycled (b ∷ bs) (y ∷ zs) m v (one_more z e back) h =
    let m' : DeviceMemory = (put b.data_addr m).1 in
    let one : PutsOne z m (put b.data_addr m) =
      Puts-PutsOne b.data_addr m z (put b.data_addr m) e (occupied_once z zs m (h z.ptr))
        (put-Puts b.data_addr m v) in
    let rest : Recycled (length bs) zs m' (put_each bs m') =
      put_each-Recycled bs zs m' (put-IsValid b.data_addr m v)
        (subst (λ x. Backed x.world.allocated_memzones bs zs) (sym one.process) back)
        (λ p. omega (arith, h p, one.from_occupied p)) in
    record {
      counted = omega (arith, one.counted, rest.counted);
      to_pool = λ p. omega (arith, one.to_pool p, rest.to_pool p);
      from_occupied = λ p. omega (arith, one.from_occupied p, rest.from_occupied p);
      valid = rest.valid;
    }

-- The same memzones, from the last one to the first.
abbrev pub backward : List MemzonePtr → List MemzonePtr
backward [] = []
backward (z ∷ zs) = backward zs ++ z ∷ []

count-append : (p : ℕ) (xs ys : List MemzonePtr) → count p (xs ++ ys) ≡ count p xs + count p ys
count-append p [] ys = omega arith
count-append p (x ∷ xs) ys = omega (arith, count-append p xs ys)

count-backward : (p : ℕ) (zs : List MemzonePtr) → count p (backward zs) ≡ count p zs
count-backward p [] = refl
count-backward p (z ∷ zs) =
    omega (arith, count-append p (backward zs) (z ∷ []), count-backward p zs)

length-reversed : (bs : List Buffer) → length (reversed bs) ≡ length bs
length-reversed [] = refl
length-reversed (b ∷ bs) = omega (arith, length-append (reversed bs) (b ∷ []), length-reversed bs)

Backed-append :
    (t : List (ℕ × Memzone)) (bs cs : List Buffer) (zs ys : List MemzonePtr)
    → Backed t bs zs
    → Backed t cs ys
    → Backed t (bs ++ cs) (zs ++ ys)
Backed-append t [] cs zs ys no_buffers k = k
Backed-append t (b ∷ bs) cs [] ys x k = elim x [ ]
Backed-append t (b ∷ bs) cs (x ∷ zs) ys (one_more z e h) k =
    one_more z e (Backed-append t bs cs zs ys h k)

Backed-reversed :
    (t : List (ℕ × Memzone)) (bs : List Buffer) (zs : List MemzonePtr)
    → Backed t bs zs
    → Backed t (reversed bs) (backward zs)
Backed-reversed t [] zs no_buffers = no_buffers
Backed-reversed t (b ∷ bs) [] x = elim x [ ]
Backed-reversed t (b ∷ bs) (x ∷ zs) (one_more z e h) =
    Backed-append t (reversed bs) (b ∷ []) (backward zs) (some z ∷ []) (Backed-reversed t bs zs h)
      (one_more z e no_buffers)

-- Recycle() of buffers that stand in distinct occupied memzones, where the memory of the device is
-- valid: it returns the number of the buffers, moves exactly their memzones from the occupied ones to
-- the pool, and keeps the memory valid.
pub recycle-Recycled :
    (bs : List Buffer) (zs : List MemzonePtr) (m : DeviceMemory)
    → IsValid m
    → Backed m.process.world.allocated_memzones bs zs
    → ((p : ℕ) → count p zs ≤ count p m.occupied_memzones)
    → Recycled (length bs) zs m (recycle bs m)
unfolding recycle
recycle-Recycled bs zs m v back h =
    let rest : Recycled (length (reversed bs)) (backward zs) m (put_each (reversed bs) m) =
      put_each-Recycled (reversed bs) (backward zs) m v
        (Backed-reversed m.process.world.allocated_memzones bs zs back)
        (λ p. omega (arith, h p, count-backward p zs)) in
    record {
      counted = rest.counted ∙ length-reversed bs;
      to_pool = λ p. omega (arith, rest.to_pool p, count-backward p zs);
      from_occupied = λ p. omega (arith, rest.from_occupied p, count-backward p zs);
      valid = rest.valid;
    }
