-- ===== src/App/Async/FirstRound.antt =====
-- The first round of compressions in EvaluateAsync() of apps/demo_app.cc, on the entries that it makes.
use bitar.Base.{
  ℕ, zero, suc, ◌+◌, ◌≤◌, ◌<◌, ◌^◌, ◌==◌, if◌then◌else◌, Bool, true, false, List, [], ◌∷◌, Option,
  none, some, length, get_elem?, take, ok, Option-cases, inl, inr, ◌≡◌, refl, sym, ap, arith,
}
use mathlib.Core.Option
use mathlib.Core.Path.{subst}
use bitar.QueuePair.Assemble.{Buffer}
use bitar.App.Targets.{Card, advance, visits, targets}
use bitar.App.Targets.Walk.{pairs_from, num_pairs, HaveQueuePairs, targets_lem}
use bitar.App.Async.{
  entry, Slots, Memories, Workers, make_slots, store, compress_result_callback, num_launched,
  wait_for_async_completion, finish_round, benchmark_compress_async,
}
use bitar.App.Async.Round.{visited, Ready, benchmark_compress_async-Completes}
use bitar.App.Async.Entries.{
  size, count_of, InOrder, Known, size-make_slots, entry-of_lt, store-none, InOrder-pairs,
  visits-Known,
}

get_elem?-length :
    (devices : List Card) (i : ℕ) {d : Card} → get_elem? devices i ≡ some d → i < length devices
get_elem?-length [] i h = absurd (Option.none-ne-some _ h)
get_elem?-length (x ∷ ds) zero h = omega arith
get_elem?-length (x ∷ ds) (suc i) h = omega (arith, get_elem?-length ds i h)

-- No target is on a device behind the last one.
count_of-beyond :
    (devices : List Card) (i : ℕ) (ts : List (ℕ × ℕ))
    → length devices ≤ i
    → Known devices ts
    → count_of i ts ≡ 0
count_of-beyond devices i [] h k = refl
count_of-beyond devices i ((j, q) ∷ ts) h k =
    ground (arith, get_elem?-length devices j k.0.1, count_of-beyond devices i ts h k.1)

-- The devices have the ids 0, 1 and so on, in order.
abbrev pub Numbered : List Card → Type 0
Numbered devices = (i : ℕ) (d : Card) → get_elem? devices i ≡ some d → d.device_id ≡ i

Ready-InOrder :
    (devices : List Card) (m : Slots) (ts : List (ℕ × ℕ)) (c : ℕ → ℕ)
    → Numbered devices
    → Known devices ts
    → InOrder c ts
    → ((i : ℕ) → c i + count_of i ts ≤ size i m)
    → Ready devices m ts
Ready-InOrder devices m [] c numbered k o room = tt
Ready-InOrder devices m ((i, q) ∷ ts) c numbered k o room = (
  (k.0.0, k.0.1, numbered i k.0.0 k.0.1),
  entry-of_lt i q m (ground (arith, room i, o.0)),
  Ready-InOrder devices m ts (λ j. (if i == j then 1 else 0) + c j) numbered k.1 o.1
      (λ j. omega (arith, room j)),
)

InOrder-targets : (n : ℕ) (devices : List Card) → InOrder (λ i. 0) (take n (pairs_from 0 devices))
InOrder-targets zero [] = tt
InOrder-targets (suc n) [] = tt
InOrder-targets n (d ∷ ds) = InOrder-pairs n 0 0 d.num_qps ds (λ i. 0) refl (λ j h. refl)

targets-Known :
    (devices : List Card) (n : ℕ) (ts : List (ℕ × ℕ))
    → targets devices n ≡ some ts
    → Known devices ts
unfolding targets
targets-Known devices n ts h = visits-Known devices n (0, 0) ts h

starts_at_zero :
    (d : Card) (ds : List Card) (n : ℕ) (ts : List (ℕ × ℕ))
    → targets (d ∷ ds) (suc n) ≡ some ts
    → (rest : List (ℕ × ℕ)) × (ts ≡ (0, 0) ∷ rest)
unfolding targets visits
starts_at_zero d ds n ts h = elim (Option-cases (visits (d ∷ ds) n (advance d.num_qps (0, 0)))) [
  | inl f ↦ absurd (ground arith)
  | inr (rest, f) ↦ (rest, sym (Option.some-injective ((0, 0) ∷ rest) ts (rw (f, visits) at h)))
]

visited-entry :
    (t : Bool) (o : Option (List Buffer)) (x y : Option (List Buffer))
    → o ≡ (if t then x else y)
    → t ≡ true
    → o ≡ x
visited-entry true o x y h e = h
visited-entry false o x y h e = absurd (ground arith)

module _ (w : Workers) (round : ℕ) where
  first_lost :
      (d : Card) (ds : List Card) (ts : List (ℕ × ℕ)) (m : Slots) (bs : List Buffer)
      → w.launch round (0, 0) ≡ true
      → w.compress_result round (0, 0) ≡ ok bs
      → store d.device_id 0 bs m ≡ none
      → wait_for_async_completion w
          (d ∷ ds)
          round
          (num_launched (w.launch round) ((0, 0) ∷ ts))
          ((0, 0) ∷ ts)
          m
        ≡ none
  unfolding num_launched wait_for_async_completion compress_result_callback
  first_lost d ds ts m bs launched compressed lost =
      let some_more : (num_launched (w.launch round) ts + 1)
          ≡ suc (num_launched (w.launch round) ts) =
        omega arith in
      rw (launched, some_more) (ground arith)

  -- The first round of EvaluateAsync(), on the entries that it has made: where the device_id() of each
  -- device is its index, there are at least as many queue pairs as tests, each launch is accepted and
  -- each compression succeeds, it returns OK, and the entry of each target has its buffers.
  pub first_round_lem :
      (devices : List Card) (n : ℕ) (ms : Memories) (buffers : ℕ × ℕ → List Buffer)
      → ((t : ℕ × ℕ) → w.launch round t ≡ true)
      → ((t : ℕ × ℕ) → w.compress_result round t ≡ ok (buffers t))
      → Numbered devices
      → length devices ≤ 2 ^ 8
      → num_pairs devices < 2 ^ 32
      → HaveQueuePairs devices
      → n ≤ num_pairs devices
      → (ts : List (ℕ × ℕ)) × (m : Slots) × (targets devices n ≡ some ts)
        × (benchmark_compress_async w devices round ts (make_slots ts [], ms)
            ≡ some (ok tt, (m, w.after_compress round ts ms)))
        × ((i q : ℕ) → visited i q ts ≡ true → entry i q m ≡ some (buffers (i, q)))
  first_round_lem devices n ms buffers launches compresses numbered few fits have enough =
      let ts : List (ℕ × ℕ) = take n (pairs_from 0 devices) in
      let walk : targets devices n ≡ some ts = (targets_lem devices n few fits have).1 enough in
      let ready : Ready devices (make_slots ts []) ts =
        Ready-InOrder devices (make_slots ts []) ts (λ i. 0) numbered
          (targets-Known devices n ts walk) (InOrder-targets n devices)
          (λ i. omega (arith, size-make_slots i ts [])) in
      let (m, done, entries) =
        benchmark_compress_async-Completes w devices round buffers compresses ts (make_slots ts [])
          ms launches ready in
      (ts, m, walk, done, λ i q. visited-entry (visited i q ts) _ _ _ (entries i q))

  -- The callbacks are given the device_id() of a device, and the entries are made under its index. Where
  -- the id of the first device is not an index, a successful compression on it has no entry to go to, and
  -- the exception aborts the program.
  pub foreign_device_id_aborts :
      (d : Card) (ds : List Card) (n : ℕ) (ts : List (ℕ × ℕ)) (ms : Memories) (bs : List Buffer)
      → length (d ∷ ds) ≤ d.device_id
      → targets (d ∷ ds) (suc n) ≡ some ts
      → w.launch round (0, 0) ≡ true
      → w.compress_result round (0, 0) ≡ ok bs
      → benchmark_compress_async w (d ∷ ds) round ts (make_slots ts [], ms) ≡ none
  unfolding benchmark_compress_async
  foreign_device_id_aborts d ds n ts ms bs foreign walk launched compressed =
      let (rest, e) = starts_at_zero d ds n ts walk in
      let absent : size d.device_id (make_slots ts []) ≡ 0 = omega (
        arith,
        size-make_slots d.device_id ts [],
        count_of-beyond (d ∷ ds) d.device_id ts foreign (targets-Known (d ∷ ds) (suc n) ts walk),
      ) in
      let lost : wait_for_async_completion w (d ∷ ds) round (num_launched (w.launch round) ts) ts
            (make_slots ts [])
          ≡ none =
        subst
          (λ x.
            wait_for_async_completion w (d ∷ ds) round (num_launched (w.launch round) x) x
              (make_slots ts [])
            ≡ none)
          (sym e)
          (first_lost d ds rest (make_slots ts []) bs launched compressed
            (store-none d.device_id 0 bs (make_slots ts []) absent)) in
      ap (finish_round _) lost
