-- ===== src/MemoryPool/Tracker.antt =====
-- The map of RtememzoneAllocatorTracker: what Of() finds after Emplace() and Release().
use bitar.Base.{
  ℕ, ◌+◌, ◌==◌, if◌then◌else◌, ◌≡◌, ◌≢◌, refl, List, [], ◌∷◌, none, some, arith, Bool-cases,
  Option-cases, inl, inr,
}
use bitar.Rte.{Memzone}
use bitar.MemoryPool.{of, erase, emplace}

-- Every address is a key once.
abbrev pub Distinct : List (ℕ × Memzone) → Type 0
Distinct [] = Unit {0}
Distinct ((a, z) ∷ zs) = (of zs a ≡ none) × Distinct zs

-- How often the memzone at `p` is tracked.
abbrev pub tracked : ℕ → List (ℕ × Memzone) → ℕ
tracked p [] = 0
tracked p ((a, z) ∷ zs) = (if z.ptr == p then 1 else 0) + tracked p zs

pub of-erase_other : (zs : List (ℕ × Memzone)) (a b : ℕ) → a ≢ b → of (erase zs a) b ≡ of zs b
unfolding of erase
of-erase_other [] a b h = refl
of-erase_other ((c, z) ∷ zs) a b h = ground (arith, of-erase_other zs a b h)

pub of-erase_missing :
    (zs : List (ℕ × Memzone)) (a b : ℕ) → of zs b ≡ none → of (erase zs a) b ≡ none
unfolding of erase
of-erase_missing [] a b h = refl
of-erase_missing ((c, z) ∷ zs) a b h = ground (arith, of-erase_missing zs a b)

pub of-erase_self : (zs : List (ℕ × Memzone)) (a : ℕ) → Distinct zs → of (erase zs a) a ≡ none
unfolding of erase
of-erase_self [] a d = refl
of-erase_self ((c, z) ∷ zs) a d = elim (Bool-cases (c == a)) [
  | inl e ↦ let same : c ≡ a = ground arith in rw (e, ← same) d.0
  | inr e ↦ rw (e, e) (of-erase_self zs a d.1)
]

pub erase-Distinct : (zs : List (ℕ × Memzone)) (a : ℕ) → Distinct zs → Distinct (erase zs a)
unfolding erase
erase-Distinct [] a d = tt
erase-Distinct ((c, z) ∷ zs) a d =
    ground (arith, erase-Distinct zs a d.1, of-erase_missing zs a c d.0)

pub emplace-Distinct :
    (zs : List (ℕ × Memzone)) (a : ℕ) (z : Memzone) → Distinct zs → Distinct (emplace a z zs)
unfolding emplace
emplace-Distinct zs a z d = elim (Option-cases (of zs a)) [
  | inl e ↦ rw (e, emplace) (e, d)
  | inr (y, e) ↦ rw (e, emplace) d
]

pub tracked-erase :
    (p : ℕ) (zs : List (ℕ × Memzone)) (a : ℕ) (z : Memzone)
    → of zs a ≡ some z
    → tracked p zs ≡ (if z.ptr == p then 1 else 0) + tracked p (erase zs a)
unfolding of erase
tracked-erase p [] a z h = cc
tracked-erase p ((c, y) ∷ zs) a z h = elim (Bool-cases (c == a)) [
  | inl e ↦ ground arith
  | inr e ↦ ground (arith, tracked-erase p zs a z)
]

pub emplace_fresh :
    (zs : List (ℕ × Memzone)) (a : ℕ) (z : Memzone) → of zs a ≡ none → emplace a z zs ≡ (a, z) ∷ zs
unfolding emplace
emplace_fresh zs a z h = rw (h, emplace)

pub of-emplace_self :
    (zs : List (ℕ × Memzone)) (a : ℕ) (z : Memzone)
    → of zs a ≡ none
    → of (emplace a z zs) a ≡ some z
unfolding of
of-emplace_self zs a z h = rw (emplace_fresh zs a z h) (ground arith)

pub of-emplace_other :
    (zs : List (ℕ × Memzone)) (a b : ℕ) (z y : Memzone)
    → of zs a ≡ none
    → of zs b ≡ some y
    → of (emplace a z zs) b ≡ some y
unfolding of
of-emplace_other zs a b z y h k = rw (emplace_fresh zs a z h) (ground arith)
