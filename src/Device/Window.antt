-- ===== src/Device/Window.antt =====
-- ValidateWindowSize of src/device.cc: which window sizes it accepts.
use bitar.Base.{
  ℕ, zero, suc, ◌+◌, ◌*◌, ◌%◌, ◌^◌, ◌≤◌, ◌<◌, ltb, leb, ◌==◌, Bool, true, false, ◌||◌, some,
  invalid, Status, ok, err, Bool-cases, inl, inr, ==_iff, leb→le, ◌≡◌, ◌⊎◌, ◌↔◌, refl, ◌∙◌, arith,
}
use bitar.Rte.{Range}
use bitar.Device.{window_loop, window_fuel, supported, validate_window_size}

-- The size is one that the steps of the range reach from `next_size` on.
pub record IsReached (window_size : ℕ) (range : Range) (next_size : ℕ) : Type 0 where
  pub steps : ℕ
  pub hits : window_size ≡ next_size + steps * range.increment
  pub within : window_size ≤ range.max

-- What the loop answers, and what the answer says.
pub record Answer (fuel window_size : ℕ) (range : Range) (next_size : ℕ) : Type 0 where
  pub answer : Bool
  pub ends : window_loop fuel window_size range next_size ≡ some answer
  pub says : (answer ≡ true) ↔ IsReached window_size range next_size

past_end :
    (w : ℕ) (range : Range) (next : ℕ) → range.max < next → IsReached w range next → (false ≡ true)
past_end w range next h r = absurd (omega (arith, r.hits, r.within))

one_more :
    (w : ℕ) (range : Range) (next : ℕ)
    → IsReached w range (next + range.increment)
    → IsReached w range next
one_more w range next r = record {
  steps = r.steps + 1;
  hits = grind (arith, r.hits);
  within = r.within;
}

elim_steps :
    (w : ℕ) (range : Range) (next : ℕ)
    → (w == next) ≡ false
    → (k : ℕ) → w ≡ next + k * range.increment
    → w ≤ range.max
    → IsReached w range (next + range.increment)
elim_steps w range next ne zero h le = absurd (grind arith)
elim_steps w range next ne (suc k) h le = record { steps = k; hits = grind arith; within = le }

one_less :
    (w : ℕ) (range : Range) (next : ℕ)
    → (w == next) ≡ false
    → IsReached w range next
    → IsReached w range (next + range.increment)
one_less w range next ne r = elim_steps w range next ne r.steps r.hits r.within

over : (a b : ℕ) → leb a b ≡ false → b < a
over a b h = ground arith

-- One round, with the answer of the rounds behind it.
small : (a b d : ℕ) → b + d < 2 ^ 8 → a ≤ b → (a + d) % 2 ^ 8 ≡ a + d
small a b d h le = omega arith

round-Answer :
    (w : ℕ) (range : Range) (fuel next : ℕ)
    → range.max + range.increment < 2 ^ 8
    → (next ≤ range.max → Answer fuel w range (next + range.increment))
    → Answer (suc fuel) w range next
unfolding window_loop
round-Answer w range fuel next fits rest = elim (Bool-cases (leb next range.max)) [
  | inr past ↦ record {
    answer = false;
    ends = rw (past) refl;
    says = (λ e. absurd (grind arith), past_end w range next (over next range.max past));
  }
  | inl inside ↦ elim (Bool-cases (w == next)) [
    | inl here ↦ record {
      answer = true;
      ends = rw (inside, here) refl;
      says = (
        λ e. record {
          steps = 0;
          hits = (==_iff w next).0 here ∙ grind arith;
          within = omega (arith, (==_iff w next).0 here, leb→le next range.max inside);
        },
        λ r. refl,
      );
    }
    | inr elsewhere ↦
        let a : Answer fuel w range (next + range.increment) =
          rest (leb→le next range.max inside) in
        record {
          answer = a.answer;
          ends =
              rw
                (
                  inside,
                  elsewhere,
                  small next range.max range.increment fits (leb→le next range.max inside),
                )
                a.ends;
          says = (
            λ e. one_more w range next (a.says.0 e),
            λ r. a.says.1 (one_less w range next elsewhere r),
          );
        }
  ]
]

window_loop-Answer :
    (w : ℕ) (range : Range) (fuel next : ℕ)
    → 0 < range.increment
    → range.max + range.increment < 2 ^ 8
    → range.max < next + fuel
    → Answer (suc fuel) w range next
window_loop-Answer w range zero next inc fits h =
    round-Answer w range zero next fits (λ le. absurd (omega arith))
window_loop-Answer w range (suc fuel) next inc fits h =
    round-Answer w range (suc fuel) next fits
      (λ le. window_loop-Answer w range fuel (next + range.increment) inc fits (omega arith))

false-true : false ≡ true → 1 ≤ 0
false-true h = absurd (grind arith)

in_range :
    (w : ℕ) (range : Range)
    → (ltb w range.min || ltb range.max w) ≡ true
    → IsReached w range range.min
    → false ≡ true
in_range w range out r =
    let low : range.min ≤ w = omega (arith, r.hits) in
    let high : w ≤ range.max = r.within in absurd (ground arith)

supported_iff : (b : Bool) → (supported b ≡ ok tt) ↔ (b ≡ true)
supported_iff true = (λ h. refl, λ h. refl)
supported_iff false = (λ h. absurd (grind arith), λ h. absurd (grind arith))

stepping_lem :
    (w : ℕ) (range : Range)
    → 0 < range.increment
    → range.max + range.increment < 2 ^ 8
    → (r : Status) × (validate_window_size w range ≡ some r)
      × ((r ≡ ok tt) ↔ IsReached w range range.min)
unfolding validate_window_size
stepping_lem w range inc fits = elim (Bool-cases (ltb w range.min || ltb range.max w)) [
  | inl out ↦ (
    err invalid,
    rw (out) refl,
    (λ e. absurd (grind arith), λ r. elim (false-true (in_range w range out r)) [ ]),
  )
  | inr fine ↦
      let a : Answer window_fuel w range range.min =
        window_loop-Answer w range (2 ^ 8) range.min inc fits (omega arith) in
      let stepping : (range.increment == 0) ≡ false = ground arith in
      (
        supported a.answer,
        rw (fine, stepping, a.ends) refl,
        (
          λ e. a.says.0 ((supported_iff a.answer).0 e),
          λ r. (supported_iff a.answer).1 (a.says.1 r),
        ),
      )
]

-- What ValidateWindowSize() accepts: the sizes from the minimum to the maximum where there is no
-- increment, and otherwise those of them that steps of the increment reach from the minimum.
abbrev pub IsSupported : ℕ → Range → Type 0
IsSupported w range =
    ((range.increment ≡ 0) × (range.min ≤ w) × (w ≤ range.max))
    ⊎ ((0 < range.increment) × IsReached w range range.min)

single :
    (w : ℕ) (range : Range)
    → range.increment ≡ 0
    → (r : Status) × (validate_window_size w range ≡ some r) × ((r ≡ ok tt) ↔ IsSupported w range)
unfolding validate_window_size
single w range none_of = elim (Bool-cases (ltb w range.min || ltb range.max w)) [
  | inl out ↦ (
    err invalid,
    rw (out) refl,
    (
      λ e. absurd (grind arith),
      λ x. elim x [
        | inl (_, low, high) ↦ absurd (ground arith)
        | inr (some_of, _) ↦ absurd (omega arith)
      ],
    ),
  )
  | inr fine ↦ (
    ok tt,
    rw (fine, (==_iff range.increment 0).1 none_of) refl,
    (λ e. inl (none_of, ground arith, ground arith), λ x. refl),
  )
]

-- ValidateWindowSize() for a range whose last step does not wrap around: it ends, and it accepts exactly
-- the sizes from the minimum to the maximum that steps of the increment reach from the minimum, or all
-- of them where the increment is 0.
pub validate_window_size_lem :
    (w : ℕ) (range : Range)
    → range.max + range.increment < 2 ^ 8
    → (r : Status) × (validate_window_size w range ≡ some r) × ((r ≡ ok tt) ↔ IsSupported w range)
validate_window_size_lem w range fits = elim (Bool-cases (range.increment == 0)) [
  | inl e ↦ single w range ((==_iff range.increment 0).0 e)
  | inr e ↦
      let inc : 0 < range.increment = ground arith in
      let (r, runs, says) = stepping_lem w range inc fits in
      (
        r,
        runs,
        (
          λ h. inr (inc, says.0 h),
          λ x. elim x [
            | inl (none_of, _, _) ↦ absurd (omega arith)
            | inr (_, reached) ↦ says.1 reached
          ],
        ),
      )
]
