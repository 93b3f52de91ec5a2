-- ===== src/DeviceMemory/Ledger/Standing.antt =====
-- Memzones counted by address and by pointer, where the tracker of src/memory_pool.cc has each of them once.
use bitar.Base.{
  ℕ, ◌≤◌, ◌==◌, ==_iff, false, List, [], ◌∷◌, none, some, Bool-cases, Option-cases, inl, inr, ◌≡◌,
  ◌≢◌, refl, sym, ap, ◌∙◌, arith,
}
use mathlib.Core.Path.{subst}
use mathlib.Core.Option
use bitar.Rte.{Memzone, MemzonePtr}
use bitar.MemoryPool.{of, erase}
use bitar.MemoryPool.Tracker.{tracked, tracked-erase, of-erase_other}
use bitar.DeviceMemory.Zones.{count, Held}
use bitar.DeviceMemory.Ledger.{standing}

-- No memzone is tracked at two addresses.
abbrev pub Single : List (ℕ × Memzone) → Type 0
Single t = (p : ℕ) → tracked p t ≤ 1

two_entries :
    (t : List (ℕ × Memzone)) (a b : ℕ) (z y : Memzone)
    → of t a ≡ some z
    → of t b ≡ some y
    → a ≢ b
    → z.ptr ≡ y.ptr
    → 2 ≤ tracked z.ptr t
two_entries t a b z y h k apart same = ground (
  arith,
  tracked-erase z.ptr t a z h,
  tracked-erase z.ptr (erase t a) b y (of-erase_other t a b apart ∙ k),
)

-- An address at which nothing is tracked is not lent; any other as often as its memzone is occupied.
pub standing-none :
    (t : List (ℕ × Memzone)) (a : ℕ) (zs : List MemzonePtr)
    → of t a ≡ none
    → Held t zs
    → standing a zs ≡ 0
standing-none t a [] h k = refl
standing-none t a (none ∷ zs) h k = absurd k.0
standing-none t a (some z ∷ zs) h k = elim (Bool-cases (z.addr == a)) [
  | inl e ↦
      absurd
        (Option.none-ne-some z (sym h ∙ subst (λ b. of t b ≡ some z) ((==_iff z.addr a).0 e) k.0))
  | inr e ↦ rw e (omega (arith, standing-none t a zs h k.1))
]

apart : (a b : ℕ) → (b == a) ≡ false → a ≡ b → ⊥
apart a b h e = ground arith

same_place :
    (t : List (ℕ × Memzone)) (a : ℕ) (z y : Memzone)
    → Single t
    → of t a ≡ some z
    → of t y.addr ≡ some y
    → (y.addr == a) ≡ (y.ptr == z.ptr)
same_place t a z y single h k = elim (Bool-cases (y.addr == a)) [
  | inl e ↦
      let same : z ≡ y =
        Option.some-injective _ _
          (sym h ∙ subst (λ b. of t b ≡ some y) ((==_iff y.addr a).0 e) k) in
      let ptr : z.ptr ≡ y.ptr = ap (λ x. x.ptr) same in ground arith
  | inr e ↦ elim (Bool-cases (y.ptr == z.ptr)) [
    | inl e' ↦
        let two : 2 ≤ tracked z.ptr t =
          two_entries t a y.addr z y h k (λ q. apart a y.addr e q)
            (sym ((==_iff y.ptr z.ptr).0 e')) in
        absurd (omega (arith, two, single z.ptr))
    | inr e' ↦ e ∙ sym e'
  ]
]

pub standing-count :
    (t : List (ℕ × Memzone)) (a : ℕ) (z : Memzone) (zs : List MemzonePtr)
    → Single t
    → of t a ≡ some z
    → Held t zs
    → standing a zs ≡ count z.ptr zs
standing-count t a z [] single h k = refl
standing-count t a z (none ∷ zs) single h k = absurd k.0
standing-count t a z (some y ∷ zs) single h k =
    rw (same_place t a z y single h k.0) (omega (arith, standing-count t a z zs single h k.1))

pub standing-same :
    (t : List (ℕ × Memzone)) (a : ℕ) (xs ys : List MemzonePtr)
    → Single t
    → Held t xs
    → Held t ys
    → ((p : ℕ) → count p xs ≡ count p ys)
    → standing a xs ≡ standing a ys
standing-same t a xs ys single h k same = elim (Option-cases (of t a)) [
  | inl e ↦ standing-none t a xs e h ∙ sym (standing-none t a ys e k)
  | inr (z, e) ↦
      standing-count t a z xs single e h ∙ same z.ptr ∙ sym (standing-count t a z ys single e k)
]
