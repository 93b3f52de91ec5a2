-- ===== src/App/Async/Recycling.antt =====
-- Recycle() of apps/demo_app.cc counts: what it returns was occupied, so the same buffers are not
-- recycled twice.
use bitar.Base.{
  ℕ, suc, ◌+◌, ◌<◌, ◌==◌, if◌then◌else◌, Bool, true, false, ◌&&◌, List, [], ◌∷◌, none, some, length,
  Bool-cases, Option-cases, ==_iff, inl, inr, ◌≡◌, ◌≢◌, refl, ap, ◌∙◌, arith,
}
use mathlib.Core.Path.{subst}
use mathlib.Core.Option
use bitar.Rte.{MemzonePtr}
use bitar.MemoryPool.{of}
use bitar.DeviceMemory.{DeviceMemory, contains, remove, put, put_back}
use bitar.QueuePair.{update}
use bitar.QueuePair.Assemble.{Buffer}
use bitar.Device.Compression.{put_each, reversed, recycle}
use bitar.App.Async.{
  Slots, Memories, Workers, recycle_buffers, recycle_vector, recycle_slots, async_return_ok,
  num_launched, and_rest, wait_for_async_completion, benchmark_compress_async,
}
use bitar.App.Targets.{Card}

-- How many memzones are occupied.
abbrev pub occupied : DeviceMemory → ℕ
occupied m = length m.occupied_memzones

length-remove :
    (z : MemzonePtr) (zs : List MemzonePtr)
    → contains z zs ≡ true
    → length zs ≡ suc (length (remove z zs))
unfolding contains remove
length-remove z [] h = cc
length-remove z (y ∷ zs) h = ground (arith, length-remove z zs)

occupied-put : (a : ℕ) (m : DeviceMemory) → (put a m).0 + occupied (put a m).1 ≡ occupied m
unfolding put put_back
occupied-put a m = elim (Option-cases (of m.process.world.allocated_memzones a)) [
  | inl e ↦ ground arith
  | inr (z, e) ↦ ground (arith, length-remove (some z) m.occupied_memzones)
]

occupied-put_each :
    (bs : List Buffer) (m : DeviceMemory)
    → (put_each bs m).0 + occupied (put_each bs m).1 ≡ occupied m
unfolding put_each
occupied-put_each [] m = omega arith
occupied-put_each (b ∷ bs) m =
    omega (arith, occupied-put b.data_addr m, occupied-put_each bs (put b.data_addr m).1)

pub occupied-recycle :
    (bs : List Buffer) (m : DeviceMemory)
    → (recycle bs m).0 + occupied (recycle bs m).1 ≡ occupied m
unfolding recycle
occupied-recycle bs m = occupied-put_each (reversed bs) m

-- The buffers in the entries of one device.
abbrev pub num_buffers_in : List (List Buffer) → ℕ
num_buffers_in [] = 0
num_buffers_in (bs ∷ v) = length bs + num_buffers_in v

abbrev pub num_buffers : ℕ → Slots → ℕ
num_buffers i [] = 0
num_buffers i ((j, v) ∷ m) = (if j == i then num_buffers_in v else 0) + num_buffers i m

-- What a successful Recycle() takes from the occupied memzones of each device: `n i` of device `i`.
abbrev pub Takes : (ℕ → ℕ) → Memories → Memories → Type 0
Takes n ms ms' = (i : ℕ) → n i + occupied (ms' i) ≡ occupied (ms i)

after_one :
    (j i n : ℕ) (m m' : DeviceMemory) (ms : Memories)
    → n + occupied m' ≡ occupied (ms j)
    → (if j == i then n else 0) + occupied (update ms j m' i) ≡ occupied (ms i)
after_one j i n m m' ms h = elim (Bool-cases (j == i)) [
  | inl e ↦
      subst (λ k. (if j == k then n else 0) + occupied (update ms j m' k) ≡ occupied (ms k))
        ((==_iff j i).0 e) (ground arith)
  | inr e ↦ rw e (omega arith)
]

recycle_buffers-Takes :
    (j : ℕ) (bs : List Buffer) (ms ms' : Memories)
    → recycle_buffers j bs ms ≡ some ms'
    → Takes (λ i. if j == i then length bs else 0) ms ms'
unfolding recycle_buffers
recycle_buffers-Takes j bs ms ms' h i = elim (Bool-cases ((recycle bs (ms j)).0 == length bs)) [
  | inl e ↦
      let all : (recycle bs (ms j)).0 ≡ length bs = (==_iff _ _).0 e in
      let here : update ms j (recycle bs (ms j)).1 ≡ ms' =
        Option.some-injective _ _ (rw (e, recycle_buffers) at h) in
      subst (λ f. (if j == i then length bs else 0) + occupied (f i) ≡ occupied (ms i)) here
        (after_one j i (length bs) (ms j) (recycle bs (ms j)).1 ms (
          subst (λ k. k + occupied (recycle bs (ms j)).1 ≡ occupied (ms j)) all
            (occupied-recycle bs (ms j))))
  | inr e ↦ absurd (Option.none-ne-some ms' (rw (e, recycle_buffers) at h))
]

both : (t : Bool) (a b : ℕ) → (if t then a + b else 0) ≡ (if t then a else 0) + (if t then b else 0)
both true a b = refl
both false a b = refl

recycle_vector-Takes :
    (j : ℕ) (v : List (List Buffer)) (ms ms' : Memories)
    → recycle_vector j v ms ≡ some ms'
    → Takes (λ i. if j == i then num_buffers_in v else 0) ms ms'
unfolding recycle_vector
recycle_vector-Takes j [] ms ms' h i =
    let same : ms ≡ ms' = Option.some-injective _ _ h in
    subst (λ f. (if j == i then 0 else 0) + occupied (f i) ≡ occupied (ms i)) same (ground arith)
recycle_vector-Takes j (bs ∷ v) ms ms' h i = elim (Option-cases (recycle_buffers j bs ms)) [
  | inl e ↦ absurd (ground arith)
  | inr (ms₁, e) ↦ omega (
    arith,
    both (j == i) (length bs) (num_buffers_in v),
    recycle_buffers-Takes j bs ms ms₁ e i,
    recycle_vector-Takes j v ms₁ ms' (rw (e, recycle_vector) at h) i,
  )
]

-- A Recycle() of all entries that passes its checks takes exactly as many memzones from the occupied
-- ones of each device as the entries of the device have buffers.
pub recycle_slots-Takes :
    (m : Slots) (ms ms' : Memories)
    → recycle_slots m ms ≡ some ms'
    → Takes (λ i. num_buffers i m) ms ms'
unfolding recycle_slots
recycle_slots-Takes [] ms ms' h i =
    omega (arith, ap (λ f. occupied (f i)) (Option.some-injective _ _ h))
recycle_slots-Takes ((j, v) ∷ m) ms ms' h i = elim (Option-cases (recycle_vector j v ms)) [
  | inl e ↦ absurd (ground arith)
  | inr (ms₁, e) ↦ omega (
    arith,
    recycle_vector-Takes j v ms ms₁ e i,
    recycle_slots-Takes m ms₁ ms' (rw (e, recycle_slots) at h) i,
  )
]

recycle_slots_twice :
    (m : Slots) (ms ms' : Memories) (i : ℕ)
    → recycle_slots m ms ≡ some ms'
    → occupied (ms i) ≡ num_buffers i m
    → 0 < num_buffers i m
    → recycle_slots m ms' ≡ none
recycle_slots_twice m ms ms' i h all some_buffers = elim (Option-cases (recycle_slots m ms')) [
  | inl e ↦ e
  | inr (ms'', e) ↦
      absurd (omega (arith, recycle_slots-Takes m ms ms' h i, recycle_slots-Takes m ms' ms'' e i))
]

module _ (w : Workers) (devices : List Card) (round : ℕ) where
  nothing_launched :
      (ts : List (ℕ × ℕ)) (m : Slots)
      → (b : Bool) × (wait_for_async_completion w devices round 0 ts m ≡ some (b, m))
  unfolding wait_for_async_completion
  nothing_launched [] m = (true, refl)
  nothing_launched (t ∷ ts) m =
      let (b, e) = nothing_launched ts m in
      ((w.not_launched round t == async_return_ok) && b, ap (and_rest (w.not_launched round t)) e)

  first_refused :
      (t : ℕ × ℕ) (ts : List (ℕ × ℕ)) (m : Slots)
      → w.not_launched round t ≢ async_return_ok
      → wait_for_async_completion w devices round 0 (t ∷ ts) m ≡ some (false, m)
  unfolding wait_for_async_completion
  first_refused t ts m h =
      let (b, e) = nothing_launched ts m in
      let no_ok : (w.not_launched round t == async_return_ok) ≡ false = ground arith in
      ap (and_rest (w.not_launched round t)) e ∙ rw no_ok refl

  refused :
      (t : ℕ × ℕ) (ts : List (ℕ × ℕ))
      → w.launch round t ≡ false
      → num_launched (w.launch round) (t ∷ ts) ≡ 0
  unfolding num_launched
  refused t ts h = ground arith

  -- Recycling leaves the entries of the map as they are. So a round behind one that has been recycled
  -- cannot report its failure: where its first launch is refused, the buffers of the earlier round are
  -- recycled once more, and the check of their number aborts the program instead of a return of IOError.
  -- (With nothing launched the memories do not change; before the recycling, the buffers were all that
  -- was occupied of some device `i`.)
  pub benchmark_compress_async_aborts :
      (t : ℕ × ℕ) (ts : List (ℕ × ℕ)) (m : Slots) (ms ms' : Memories) (i : ℕ)
      → recycle_slots m ms ≡ some ms'
      → occupied (ms i) ≡ num_buffers i m
      → 0 < num_buffers i m
      → w.launch round t ≡ false
      → w.not_launched round t ≢ async_return_ok
      → w.after_compress round [] ms' ≡ ms'
      → benchmark_compress_async w devices round (t ∷ ts) (m, ms') ≡ none
  unfolding benchmark_compress_async
  benchmark_compress_async_aborts t ts m ms ms' i h all some_buffers busy other same =
      rw
        (
          refused t ts busy,
          first_refused t ts m other,
          same,
          recycle_slots_twice m ms ms' i h all some_buffers,
        )
        refl
