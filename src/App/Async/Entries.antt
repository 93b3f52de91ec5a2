-- ===== src/App/Async/Entries.antt =====
-- The entries of device_to_compressed_buffers_vector that EvaluateAsync() of apps/demo_app.cc makes: one
-- for each target, under the index of its device.
use bitar.Base.{
  ℕ, zero, suc, ◌+◌, ◌<◌, ltb, ◌==◌, if◌then◌else◌, false, List, [], ◌∷◌, ◌++◌, none, some, length,
  length-append, get_elem?, take, Bool-cases, Option-cases, inl, inr, ◌≡◌, refl, sym, arith,
}
use mathlib.Core.Option
use mathlib.Core.Path.{subst}
use bitar.QueuePair.Assemble.{Buffer}
use bitar.App.Targets.{Card, advance, visits}
use bitar.App.Targets.Walk.{pairs_of, pairs_from}
use bitar.App.Async.{entry, Slots, add_slot, make_slots, store}

-- How many entries a device has, and how many targets are on it.
abbrev pub size : ℕ → Slots → ℕ
size i [] = 0
size i ((j, v) ∷ m) = if j == i then length v else size i m

abbrev pub count_of : ℕ → List (ℕ × ℕ) → ℕ
count_of i [] = 0
count_of i ((j, q) ∷ ts) = (if j == i then 1 else 0) + count_of i ts

size-add_slot : (i j : ℕ) (m : Slots) → size i (add_slot j m) ≡ (if j == i then 1 else 0) + size i m
unfolding add_slot
size-add_slot i j [] = ground arith
size-add_slot i j ((k, v) ∷ m) = ground (arith, length-append v ([] ∷ []), size-add_slot i j m)

pub size-make_slots :
    (i : ℕ) (ts : List (ℕ × ℕ)) (m : Slots) → size i (make_slots ts m) ≡ count_of i ts + size i m
unfolding make_slots
size-make_slots i [] m = omega arith
size-make_slots i ((j, q) ∷ ts) m =
    omega (arith, size-make_slots i ts (add_slot j m), size-add_slot i j m)

get_elem?-of_lt :
    (v : List (List Buffer)) (q : ℕ) → q < length v → (bs : List Buffer) × (get_elem? v q ≡ some bs)
get_elem?-of_lt [] q h = elim h [ ]
get_elem?-of_lt (x ∷ v) zero h = (x, refl)
get_elem?-of_lt (x ∷ v) (suc q) h = get_elem?-of_lt v q (omega arith)

pub entry-of_lt :
    (i q : ℕ) (m : Slots) → q < size i m → (bs : List Buffer) × (entry i q m ≡ some bs)
entry-of_lt i q [] h = elim h [ ]
entry-of_lt i q ((j, v) ∷ m) h = elim (Bool-cases (j == i)) [
  | inl e ↦ rw e (get_elem?-of_lt v q (rw e at h))
  | inr e ↦ rw e (entry-of_lt i q m (rw e at h))
]

-- There is no entry to write to where a device has none.
pub store-none : (i q : ℕ) (bs : List Buffer) (m : Slots) → size i m ≡ 0 → store i q bs m ≡ none
unfolding store
store-none i q bs [] h = refl
store-none i q bs ((j, v) ∷ m) h = elim (Bool-cases (j == i)) [
  | inl e ↦
      let short : length v ≡ 0 = rw e at h in
      let outside : ltb q (length v) ≡ false = ground arith in rw (e, outside) refl
  | inr e ↦ rw (e, store-none i q bs m (rw e at h)) refl
]

-- The queue pairs of a device are visited in order: `c i` have been visited of device `i`.
abbrev pub InOrder : (ℕ → ℕ) → List (ℕ × ℕ) → Type 0
InOrder c [] = Unit {0}
InOrder c ((i, q) ∷ ts) = (q ≡ c i) × InOrder (λ j. (if i == j then 1 else 0) + c j) ts

pub InOrder-pairs :
    (n i q k : ℕ) (ds : List Card) (c : ℕ → ℕ)
    → c i ≡ q
    → ((j : ℕ) → i < j → c j ≡ 0)
    → InOrder c (take n (pairs_of i q k ++ pairs_from (i + 1) ds))
InOrder-pairs zero i q k ds c here ahead = tt
InOrder-pairs (suc n) i q (suc k) ds c here ahead = (
  sym here,
  InOrder-pairs n i (q + 1) k ds (λ j. (if i == j then 1 else 0) + c j) (ground arith)
      (λ j h. ground (arith, ahead j h)),
)
InOrder-pairs (suc n) i q zero [] c here ahead = tt
InOrder-pairs (suc n) i q zero (d ∷ ds) c here ahead =
    InOrder-pairs (suc n) (i + 1) 0 d.num_qps ds c (ahead (i + 1) (omega arith))
      (λ j h. ahead j (omega arith))

-- Each target is on a device.
abbrev pub Known : List Card → List (ℕ × ℕ) → Type 0
Known devices [] = Unit {0}
Known devices ((i, q) ∷ ts) = ((d : Card) × (get_elem? devices i ≡ some d)) × Known devices ts

pub visits-Known :
    (devices : List Card) (n : ℕ) (t : ℕ × ℕ) (ts : List (ℕ × ℕ))
    → visits devices n t ≡ some ts
    → Known devices ts
unfolding visits
visits-Known devices zero t ts h = subst (Known devices) (Option.some-injective _ _ h) tt
visits-Known devices (suc n) (i, q) ts h = elim (Option-cases (get_elem? devices i)) [
  | inl e ↦ absurd (ground arith)
  | inr (d, e) ↦ elim (Option-cases (visits devices n (advance d.num_qps (i, q)))) [
    | inl f ↦ absurd (ground arith)
    | inr (rest, f) ↦
        subst (Known devices) {x = (i, q) ∷ rest}
          (Option.some-injective ((i, q) ∷ rest) ts (rw (e, f, visits) at h))
          ((d, e), visits-Known devices n (advance d.num_qps (i, q)) rest f)
  ]
]
