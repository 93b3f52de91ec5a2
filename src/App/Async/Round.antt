-- ===== src/App/Async/Round.antt =====
-- A round of compressions of apps/demo_app.cc that goes well: each target's buffers end up in the entry
-- of the target.
use bitar.Base.{
  ℕ, zero, suc, ◌<◌, lt→ltb, ◌==◌, ==_iff, if◌then◌else◌, Bool, true, false, ◌&&◌, ◌||◌, List, [],
  ◌∷◌, Option, some, length, get_elem?, set, take, ok, Bool-cases, inl, inr, ◌≡◌, refl, ap, ◌∙◌,
  arith,
}
use mathlib.Core.Option
use bitar.QueuePair.Assemble.{Buffer}
use bitar.App.Targets.{Card}
use bitar.App.Async.{
  Slots, entry, Memories, Workers, store, compress_result_callback, num_launched,
  wait_for_async_completion, benchmark_compress_async,
}

abbrev pub is_at : ℕ → ℕ → ℕ × ℕ → Bool
is_at i q (j, p) = j == i && p == q

get_elem?-lt :
    (v : List (List Buffer)) (q : ℕ) {bs : List Buffer} → get_elem? v q ≡ some bs → q < length v
get_elem?-lt [] q h = absurd (Option.none-ne-some _ h)
get_elem?-lt (x ∷ v) zero h = omega arith
get_elem?-lt (x ∷ v) (suc q) h = omega (arith, get_elem?-lt v q h)

get_elem?-set :
    (v : List (List Buffer)) (q p : ℕ) (bs : List Buffer)
    → q < length v
    → get_elem? (set v q bs) p ≡ (if q == p then some bs else get_elem? v p)
get_elem?-set [] q p bs h = elim h [ ]
get_elem?-set (x ∷ v) zero zero bs h = refl
get_elem?-set (x ∷ v) zero (suc p) bs h = ground arith
get_elem?-set (x ∷ v) (suc q) zero bs h = ground arith
get_elem?-set (x ∷ v) (suc q) (suc p) bs h = ground (arith, get_elem?-set v q p bs)

-- What a write to an entry that is there makes of the entries.
pub record Stored (i q : ℕ) (bs : List Buffer) (m : Slots) : Type 0 where
  pub slots : Slots
  pub done : store i q bs m ≡ some slots
  pub entries : (j p : ℕ) → entry j p slots ≡ (if is_at j p (i, q) then some bs else entry j p m)

store-Stored :
    (i q : ℕ) (bs : List Buffer) (m : Slots) {old : List Buffer}
    → entry i q m ≡ some old
    → Stored i q bs m
unfolding store
store-Stored i q bs [] h = absurd (Option.none-ne-some _ h)
store-Stored i q bs ((k, v) ∷ m) h = elim (Bool-cases (k == i)) [
  | inl e ↦
      let here : get_elem? v q ≡ some _ = rw e at h in
      let inside : q < length v = get_elem?-lt v q here in
      record {
        slots = (k, set v q bs) ∷ m;
        done = rw (e, lt→ltb q (length v) inside) refl;
        entries = λ j p. ground (arith, get_elem?-set v q p bs);
      }
  | inr e ↦
      let rest : Stored i q bs m = store-Stored i q bs m (rw e at h) in
      record {
        slots = (k, v) ∷ rest.slots;
        done = rw (e, rest.done) refl;
        entries = λ j p. ground (arith, rest.entries j p);
      }
]

abbrev pub visited : ℕ → ℕ → List (ℕ × ℕ) → Bool
visited i q [] = false
visited i q (t ∷ ts) = is_at i q t || visited i q ts

-- Each target names a device whose device_id() is its index, and has an entry.
abbrev pub Ready : List Card → Slots → List (ℕ × ℕ) → Type 0
Ready devices m [] = Unit {0}
Ready devices m ((i, q) ∷ ts) =
    ((d : Card) × (get_elem? devices i ≡ some d) × (d.device_id ≡ i))
    × ((old : List Buffer) × (entry i q m ≡ some old))
    × Ready devices m ts

still_there :
    (t : Bool) (bs : List Buffer) (o : Option (List Buffer)) {old : List Buffer}
    → o ≡ some old
    → (new : List Buffer) × ((if t then some bs else o) ≡ some new)
still_there true bs o h = (bs, refl)
still_there false bs o {old} h = (old, h)

Ready-Stored :
    (devices : List Card) (i q : ℕ) (bs : List Buffer) (m : Slots) (ts : List (ℕ × ℕ))
    (s : Stored i q bs m)
    → Ready devices m ts
    → Ready devices s.slots ts
Ready-Stored devices i q bs m [] s r = tt
Ready-Stored devices i q bs m ((j, p) ∷ ts) s r =
    let (new, e) = still_there (is_at j p (i, q)) bs (entry j p m) r.1.1 in
    (r.0, (new, s.entries j p ∙ e), Ready-Stored devices i q bs m ts s r.2)

at_same :
    (f : ℕ × ℕ → List Buffer) (i q j p : ℕ) (o : Option (List Buffer))
    → (if is_at j p (i, q) then some (f (i, q)) else o)
      ≡ (if is_at j p (i, q) then some (f (j, p)) else o)
at_same f i q j p o = elim (Bool-cases (i == j)) [
  | inl e ↦ elim (Bool-cases (q == p)) [
    | inl e' ↦ rw ((==_iff i j).0 e, (==_iff q p).0 e') refl
    | inr e' ↦ rw (e, e') refl
  ]
  | inr e ↦ rw e refl
]

take_all : (ts : List (ℕ × ℕ)) → take (length ts) ts ≡ ts
take_all [] = refl
take_all (t ∷ ts) = ap (λ xs. t ∷ xs) (take_all ts)

module _ (w : Workers) (devices : List Card) (round : ℕ) (buffers : ℕ × ℕ → List Buffer)
    (compresses : (t : ℕ × ℕ) → w.compress_result round t ≡ ok (buffers t)) where
  wait-step :
      (n i q : ℕ) (ts : List (ℕ × ℕ)) (m m' m'' : Slots) (d : Card)
      → get_elem? devices i ≡ some d
      → d.device_id ≡ i
      → store i q (buffers (i, q)) m ≡ some m'
      → wait_for_async_completion w devices round n ts m' ≡ some (true, m'')
      → wait_for_async_completion w devices round (suc n) ((i, q) ∷ ts) m ≡ some (true, m'')
  unfolding wait_for_async_completion compress_result_callback
  wait-step n i q ts m m' m'' d e same s rest = ground (arith, compresses (i, q))

  wait_done : (m : Slots) → wait_for_async_completion w devices round 0 [] m ≡ some (true, m)
  unfolding wait_for_async_completion
  wait_done m = refl

  pub record Waited (ts : List (ℕ × ℕ)) (m : Slots) : Type 0 where
    pub slots : Slots
    pub done : wait_for_async_completion w devices round (length ts) ts m ≡ some (true, slots)
    pub entries :
        (i q : ℕ)
        → entry i q slots ≡ (if visited i q ts then some (buffers (i, q)) else entry i q m)

  entries-step :
      (i q j p : ℕ) (ts : List (ℕ × ℕ)) (o : Option (List Buffer))
      → (if visited j p ts
          then some (buffers (j, p))
          else if is_at j p (i, q)
          then some (buffers (i, q))
          else o)
        ≡ (if visited j p ((i, q) ∷ ts) then some (buffers (j, p)) else o)
  entries-step i q j p ts o = rw (at_same buffers i q j p o) (ground arith)

  wait-Waited : (ts : List (ℕ × ℕ)) (m : Slots) → Ready devices m ts → Waited ts m
  wait-Waited [] m r = record { slots = m; done = wait_done m; entries = λ i q. refl }
  wait-Waited ((i, q) ∷ ts) m r =
      let s : Stored i q (buffers (i, q)) m = store-Stored i q (buffers (i, q)) m r.1.1 in
      let rest : Waited ts s.slots =
        wait-Waited ts s.slots (Ready-Stored devices i q (buffers (i, q)) m ts s r.2) in
      record {
        slots = rest.slots;
        done = wait-step (length ts) i q ts m s.slots rest.slots r.0.0 r.0.1 r.0.2 s.done rest.done;
        entries = λ j p.
            rest.entries j p
            ∙ ap (λ o. if visited j p ts then some (buffers (j, p)) else o) (s.entries j p)
            ∙ entries-step i q j p ts (entry j p m);
      }

  all_launched :
      (ts : List (ℕ × ℕ))
      → ((t : ℕ × ℕ) → w.launch round t ≡ true)
      → num_launched (w.launch round) ts ≡ length ts
  unfolding num_launched
  all_launched [] h = refl
  all_launched (t ∷ ts) h = rw (h t, all_launched ts h) (omega arith)

  -- A round in which each launch is accepted and each compression succeeds returns OK, where each
  -- target has an entry and names a device whose device_id() is its index: the entry of each target
  -- then has the buffers that were compressed for it, whatever an earlier round has left there, and
  -- the other entries stay.
  pub benchmark_compress_async-Completes :
      (ts : List (ℕ × ℕ)) (m : Slots) (ms : Memories)
      → ((t : ℕ × ℕ) → w.launch round t ≡ true)
      → Ready devices m ts
      → (m' : Slots) × (benchmark_compress_async w devices round ts (m, ms)
          ≡ some (ok tt, (m', w.after_compress round ts ms)))
        × ((i q : ℕ)
            → entry i q m' ≡ (if visited i q ts then some (buffers (i, q)) else entry i q m))
  unfolding benchmark_compress_async
  benchmark_compress_async-Completes ts m ms h r =
      let waited : Waited ts m = wait-Waited ts m r in
      (waited.slots, rw (all_launched ts h, waited.done, take_all ts) refl, waited.entries)
