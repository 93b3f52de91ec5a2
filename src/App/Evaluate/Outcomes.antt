-- ===== src/App/Evaluate/Outcomes.antt =====
-- What EvaluateAsync() of apps/demo_app.cc comes to: nothing stays occupied behind the rounds of
-- compression, and it is OK only where the data have been compared.
use bitar.Base.{
  ℕ, ◌+◌, ◌==◌, ==_iff, true, List, [], ◌∷◌, Option, none, some, length, Status, ok, err,
  Bool-cases, inl, inr, ◌≡◌, refl, ap, arith,
}
use mathlib.Core.Option
use bitar.App.Targets.{Card, targets, enough_queue_pairs}
use bitar.App.Async.{
  Slots, Memories, Workers, make_slots, recycle_slots, num_tests, compress_rounds,
}
use bitar.App.Async.Recycling.{occupied, num_buffers, recycle_slots-Takes}
use bitar.App.Evaluate.{
  Data, allocate_each, decompressed_sizes, decompress_rounds, total_size, compare_segments,
  compare_with_input, recycle_and_return, or_recycle, decompress_into, evaluate_decompression,
  after_compression, on_targets, if_enough, evaluate_async,
}

-- Each buffer from the `k`-th on equals the input where it stands in it.
abbrev pub Matches : Data → ℕ → ℕ → List (ℕ × ℕ) → Type 0
Matches x k input_offset [] = Unit {0}
Matches x k input_offset (t ∷ ts) =
    (x.equal k input_offset ≡ true) × Matches x (k + 1) (input_offset + x.decompressed_size t) ts

compare_segments-Matches :
    (x : Data) (k input_offset : ℕ) (ts : List (ℕ × ℕ))
    → compare_segments x k input_offset ts ≡ ok tt
    → Matches x k input_offset ts
unfolding compare_segments
compare_segments-Matches x k input_offset [] h = tt
compare_segments-Matches x k input_offset (t ∷ ts) h = elim (Bool-cases (x.equal k input_offset)) [
  | inl e ↦ (
    e,
    compare_segments-Matches x (k + 1) (input_offset + x.decompressed_size t) ts
        (rw (e, compare_segments) at h),
  )
  | inr e ↦ absurd (ground arith)
]

compare_with_input-Matches :
    (x : Data) (size : ℕ) (ts : List (ℕ × ℕ))
    → compare_with_input x size ts ≡ ok tt
    → (total_size x ts ≡ size) × Matches x 0 0 ts
unfolding compare_with_input
compare_with_input-Matches x size ts h = elim (Bool-cases (total_size x ts == size)) [
  | inl e ↦ ((==_iff _ _).0 e, compare_segments-Matches x 0 0 ts (rw (e, compare_with_input) at h))
  | inr e ↦ absurd (ground arith)
]

-- What a Recycle() and the return of a status comes to.
returned :
    (r s : Status) (o : Option Memories) (ms' : Memories)
    → recycle_and_return r o ≡ some (s, ms')
    → (o ≡ some ms') × (r ≡ s)
returned r s none ms' h = absurd (Option.none-ne-some _ h)
returned r s (some ms) ms' h =
    let same : (r, ms) ≡ (s, ms') = Option.some-injective _ _ h in
    (ap (λ p. some p.1) same, ap (λ p. p.0) same)

module _ (m : Slots) (ms : Memories) where
  or_recycle-recycles :
      (r : Status) (next : Option (Status × Memories)) (s : Status) (ms' : Memories)
      → (next ≡ some (s, ms') → recycle_slots m ms ≡ some ms')
      → or_recycle m ms r next ≡ some (s, ms')
      → recycle_slots m ms ≡ some ms'
  or_recycle-recycles (ok u) next s ms' f h = f h
  or_recycle-recycles (err e) next s ms' f h = (returned (err e) s (recycle_slots m ms) ms' h).0

  or_recycle-ok :
      (r : Status) (next : Option (Status × Memories)) (ms' : Memories)
      → or_recycle m ms r next ≡ some (ok tt, ms')
      → next ≡ some (ok tt, ms')
  or_recycle-ok (ok u) next ms' h = h
  or_recycle-ok (err e) next ms' h =
      absurd (grind (arith, (returned (err e) (ok tt) (recycle_slots m ms) ms' h).1))

module _ (w : Workers) (x : Data) (size : ℕ) (ts : List (ℕ × ℕ)) where
  decompress_into-recycles :
      (m : Slots) (ms ms' : Memories) (r : Status) (sizes : Option (List ℕ))
      → decompress_into w x size ts m ms sizes ≡ some (r, ms')
      → recycle_slots m ms ≡ some ms'
  decompress_into-recycles m ms ms' r none h = absurd (Option.none-ne-some _ h)
  decompress_into-recycles m ms ms' r (some sizes) h =
      let checked : Option (Status × Memories) =
        recycle_and_return (compare_with_input x size ts) (recycle_slots m ms) in
      let decompressed : Status = decompress_rounds w ts num_tests num_tests in
      or_recycle-recycles m ms (allocate_each x (length ts) sizes)
        (or_recycle m ms decompressed checked) r ms'
        (or_recycle-recycles m ms decompressed checked r ms'
          (λ k. (returned (compare_with_input x size ts) r (recycle_slots m ms) ms' k).0))
        h

  -- Whatever EvaluateAsync() returns behind the rounds of compression, be it an error of an allocation,
  -- of a decompression or of the comparison, or OK: the buffers of all entries have been recycled, so of
  -- each device just as many memzones have left the occupied ones as its entries have buffers.
  pub evaluate_decompression-Recycles :
      (m : Slots) (ms ms' : Memories) (r : Status)
      → evaluate_decompression w x size ts m ms ≡ some (r, ms')
      → (recycle_slots m ms ≡ some ms')
        × ((i : ℕ) → num_buffers i m + occupied (ms' i) ≡ occupied (ms i))
  unfolding evaluate_decompression
  evaluate_decompression-Recycles m ms ms' r h =
      let all : recycle_slots m ms ≡ some ms' =
        decompress_into-recycles m ms ms' r (decompressed_sizes m ts) h in
      (all, recycle_slots-Takes m ms ms' all)

  decompress_into-ok :
      (m : Slots) (ms ms' : Memories) (sizes : Option (List ℕ))
      → decompress_into w x size ts m ms sizes ≡ some (ok tt, ms')
      → (total_size x ts ≡ size) × Matches x 0 0 ts
  decompress_into-ok m ms ms' none h = absurd (Option.none-ne-some _ h)
  decompress_into-ok m ms ms' (some sizes) h =
      let checked : Option (Status × Memories) =
        recycle_and_return (compare_with_input x size ts) (recycle_slots m ms) in
      let decompressed : Status = decompress_rounds w ts num_tests num_tests in
      compare_with_input-Matches x size ts
        (returned (compare_with_input x size ts) (ok tt) (recycle_slots m ms) ms' (
          or_recycle-ok m ms decompressed checked ms' (
            or_recycle-ok m ms (allocate_each x (length ts) sizes)
              (or_recycle m ms decompressed checked) ms' h))).1

  -- What a run that is OK has gone through, on the targets `ts`.
  pub record Passed (devices : List Card) (ms ms' : Memories) : Type 0 where
    pub slots : Slots
    pub compressed_memories : Memories
    pub compressed :
        compress_rounds w devices ts num_tests 0 (make_slots ts [], ms)
        ≡ some (ok tt, (slots, compressed_memories))
    pub recycled : recycle_slots slots compressed_memories ≡ some ms'
    pub whole : total_size x ts ≡ size
    pub equal : Matches x 0 0 ts

  after_compression-Passed :
      (devices : List Card) (ms ms' : Memories) (o : Option (Status × (Slots × Memories)))
      → compress_rounds w devices ts num_tests 0 (make_slots ts [], ms) ≡ o
      → after_compression w x size ts o ≡ some (ok tt, ms')
      → Passed devices ms ms'
  unfolding evaluate_decompression
  after_compression-Passed devices ms ms' none e h = absurd (Option.none-ne-some _ h)
  after_compression-Passed devices ms ms' (some (err c, (m, ms₁))) e h = absurd (grind arith)
  after_compression-Passed devices ms ms' (some (ok u, (m, ms₁))) e h =
      let checked = decompress_into-ok m ms₁ ms' (decompressed_sizes m ts) h in
      record {
        slots = m;
        compressed_memories = ms₁;
        compressed = e;
        recycled = (evaluate_decompression-Recycles m ms₁ ms' (ok tt) h).0;
        whole = checked.0;
        equal = checked.1;
      }

module _ (w : Workers) (x : Data) (devices : List Card) (n size : ℕ) where
  on_targets-Passed :
      (ms ms' : Memories) (allocated : Status) (o : Option (List (ℕ × ℕ)))
      → on_targets w x devices size ms allocated o ≡ some (ok tt, ms')
      → (ts : List (ℕ × ℕ)) × (o ≡ some ts) × Passed w x size ts devices ms ms'
  on_targets-Passed ms ms' allocated none h = absurd (Option.none-ne-some _ h)
  on_targets-Passed ms ms' (err e) (some ts) h = absurd (grind arith)
  on_targets-Passed ms ms' (ok u) (some ts) h =
      (ts, refl, after_compression-Passed w x size ts devices ms ms' _ refl h)

  if_enough-ok :
      (r : Status) (ms ms' : Memories) (next : Option (Status × Memories))
      → if_enough r ms next ≡ some (ok tt, ms')
      → next ≡ some (ok tt, ms')
  if_enough-ok (ok u) ms ms' next h = h
  if_enough-ok (err e) ms ms' next h = absurd (grind arith)

  -- EvaluateAsync() is OK only where the test has been passed: three rounds of compression on the
  -- targets were OK, all their buffers have been recycled, the decompressed segments have together the
  -- size of the input, and each equals the input at the place where it stands.
  pub evaluate_async-Passed :
      (ms ms' : Memories)
      → evaluate_async w x devices n size ms ≡ some (ok tt, ms')
      → (ts : List (ℕ × ℕ)) × (targets devices n ≡ some ts) × Passed w x size ts devices ms ms'
  unfolding evaluate_async
  evaluate_async-Passed ms ms' h =
      on_targets-Passed ms ms' _ (targets devices n)
        (if_enough-ok (enough_queue_pairs devices n) ms ms' _ h)
