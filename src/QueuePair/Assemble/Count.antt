-- ===== src/QueuePair/Assemble/Count.antt =====
-- How many operations the loops of AssembleFrom, src/memory.cc, start and complete.
use bitar.Base.{
  ℕ, zero, suc, ◌+◌, ◌/◌, ◌%◌, ◌<◌, ◌==◌, Bool, true, false, Bool-cases, ==_iff, inl, inr, ◌≡◌,
  refl, sym, ap, arith,
}
use bitar.QueuePair.Assemble.{round_up_div, starts_next, completes}

-- The number of operations that the rounds from `mbuf_id` on move to, and that they complete.
abbrev pub one_if : Bool → ℕ
one_if true = 1
one_if false = 0

abbrev pub started : ℕ → ℕ → ℕ → ℕ → ℕ
started sgl n zero mbuf_id = 0
started sgl n (suc rounds) mbuf_id =
    one_if (starts_next sgl (mbuf_id + 1) n) + started sgl n rounds (mbuf_id + 1)

abbrev pub completed : ℕ → ℕ → ℕ → ℕ → ℕ
completed sgl n zero mbuf_id = 0
completed sgl n (suc rounds) mbuf_id =
    one_if (completes sgl (mbuf_id + 1) n) + completed sgl n rounds (mbuf_id + 1)

not_zero : (a : ℕ) → (a == 0) ≡ false → 0 < a
not_zero a h = ground arith

quotient_up : (m d : ℕ) → 0 < d → (m + 1) % d ≡ 0 → (m + 1) / d ≡ m / d + 1
quotient_up m d p h = grind arith

quotient_stays : (m d : ℕ) → 0 < d → 0 < (m + 1) % d → (m + 1) / d ≡ m / d + 0
quotient_stays m d p h = grind arith

div_suc : (m d : ℕ) → 0 < d → (m + 1) / d ≡ m / d + one_if ((m + 1) % d == 0)
div_suc m d p = elim (Bool-cases ((m + 1) % d == 0)) [
  | inl e ↦ rw (e) (quotient_up m d p ((==_iff ((m + 1) % d) 0).0 e))
  | inr e ↦ rw (e) (quotient_stays m d p (not_zero ((m + 1) % d) e))
]

last_up : (m d : ℕ) → 0 < d → round_up_div (m + 1) d ≡ m / d + 1
last_up m d p = grind arith

same_inside : (sgl i n : ℕ) → i < n → completes sgl i n ≡ starts_next sgl i n
same_inside sgl i n h = ground arith

completes_inside : (sgl i n : ℕ) → i < n → completes sgl i n ≡ (i % sgl == 0)
completes_inside sgl i n h = ground arith

last_completes : (sgl i n : ℕ) → i ≡ n → completes sgl i n ≡ true
last_completes sgl i n h = ground arith

last_stays : (sgl i n : ℕ) → i ≡ n → starts_next sgl i n ≡ false
last_stays sgl i n h = ground arith

pub completed_lem :
    (sgl n rounds mbuf_id : ℕ)
    → 0 < sgl
    → mbuf_id + suc rounds ≡ n
    → mbuf_id / sgl + completed sgl n (suc rounds) mbuf_id ≡ round_up_div n sgl
completed_lem sgl n zero mbuf_id p h =
    rw (last_completes sgl (mbuf_id + 1) n h, ← h) (sym (last_up mbuf_id sgl p))
completed_lem sgl n (suc rounds) mbuf_id p h =
    let inside : completes sgl (mbuf_id + 1) n ≡ ((mbuf_id + 1) % sgl == 0) =
      completes_inside sgl (mbuf_id + 1) n (omega arith) in
    omega (
      arith,
      completed_lem sgl n rounds (mbuf_id + 1) p (omega arith),
      div_suc mbuf_id sgl p,
      ap one_if inside,
    )

pub started-completed :
    (sgl n rounds mbuf_id : ℕ)
    → mbuf_id + suc rounds ≡ n
    → started sgl n (suc rounds) mbuf_id + 1 ≡ completed sgl n (suc rounds) mbuf_id
started-completed sgl n zero mbuf_id h =
    rw (last_completes sgl (mbuf_id + 1) n h, last_stays sgl (mbuf_id + 1) n h) refl
started-completed sgl n (suc rounds) mbuf_id h = omega (
  arith,
  started-completed sgl n rounds (mbuf_id + 1) (omega arith),
  ap one_if (same_inside sgl (mbuf_id + 1) n (omega arith)),
)
