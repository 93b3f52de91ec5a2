-- ===== src/Driver/Lcores.antt =====
-- GetNextLcore of src/util.cc, and the loop of GetDevices() that collects the worker lcores.
use native.Mathlib.Nat.{mod-lt}
use bitar.Base.{
  ℕ, zero, suc, ◌+◌, ◌%◌, ◌≤◌, ◌<◌, if◌then◌else◌, Bool, true, false, List, [], ◌∷◌, none, some,
  Bool-cases, lt→ltb, ◌≡◌, refl, ◌⊎◌, inl, inr, arith,
}
use bitar.Rte.{BuildConfig}
use bitar.Driver.{
  Platform, is_skipped, next_lcore_loop, get_next_lcore, lcore_fuel, worker_lcores_loop,
  worker_lcores_of,
}

-- The lcores among the `n` from `id` on that are not skipped, in order.
abbrev pub eligible : Platform → Bool → ℕ → ℕ → List ℕ
eligible p skip_main id zero = []
eligible p skip_main id (suc n) =
    let rest = eligible p skip_main (id + 1) n in
    if is_skipped p skip_main id then rest else id ∷ rest

-- Where a search from `id` stops, with `n` lcores ahead of it: at `next`, before which it has skipped
-- everything; there is an lcore to use there unless none is left.
pub record Found (b : BuildConfig) (p : Platform) (skip_main : Bool) (id n next left : ℕ)
    : Type 0 where
  pub forward : id ≤ next
  pub ahead : next + left ≡ b.max_lcore
  pub skipped : eligible p skip_main id n ≡ eligible p skip_main next left
  pub usable : (left ≡ 0) ⊎ (is_skipped p skip_main next ≡ false)

next_lcore_loop-Found :
    (b : BuildConfig) (p : Platform) (skip_main : Bool) (n fuel id : ℕ)
    → id + n ≡ b.max_lcore
    → n < fuel
    → (next left : ℕ) × (next_lcore_loop b p skip_main false fuel id ≡ some next)
      × Found b p skip_main id n next left
unfolding next_lcore_loop
next_lcore_loop-Found b p skip_main n zero id h k = absurd (omega arith)
next_lcore_loop-Found b p skip_main zero (suc fuel) id h k = (
  id,
  0,
  ground arith,
  record { forward = omega arith; ahead = h; skipped = refl; usable = inl refl },
)
next_lcore_loop-Found b p skip_main (suc n) (suc fuel) id h k =
    elim (Bool-cases (is_skipped p skip_main id)) [
      | inl skip ↦
          let (next, left, e, f) =
            next_lcore_loop-Found b p skip_main n fuel (id + 1) (omega arith) (omega arith) in
          (
            next,
            left,
            rw (lt→ltb id b.max_lcore (omega arith), skip) e,
            record {
              forward = (omega (arith, f.forward));
              ahead = f.ahead;
              skipped = rw (skip) f.skipped;
              usable = f.usable;
            },
          )
      | inr use_it ↦ (
        id,
        suc n,
        rw (lt→ltb id b.max_lcore (omega arith), use_it) refl,
        record { forward = omega arith; ahead = h; skipped = refl; usable = inr use_it },
      )
    ]

-- GetNextLcore() that does not wrap, from an id within the bound: within one round for each id that is
-- ahead and one more, it returns the least id from there on that is enabled and, if the main lcore is
-- to be skipped, is not the main lcore; or RTE_MAX_LCORE if there is none.
pub get_next_lcore-Found :
    (b : BuildConfig) (p : Platform) (skip_main : Bool) (n fuel id : ℕ)
    → id + n ≡ b.max_lcore
    → n < fuel
    → (next left : ℕ) × (get_next_lcore b p skip_main false fuel id ≡ some next)
      × Found b p skip_main id n next left
unfolding get_next_lcore
get_next_lcore-Found b p skip_main n fuel id h k = next_lcore_loop-Found b p skip_main n fuel id h k

spin :
    (b : BuildConfig) (p : Platform) (skip_main : Bool) (fuel id : ℕ)
    → id < b.max_lcore
    → ((i : ℕ) → i < b.max_lcore → is_skipped p skip_main i ≡ true)
    → next_lcore_loop b p skip_main true fuel id ≡ none
unfolding next_lcore_loop
spin b p skip_main zero id h skip = refl
spin b p skip_main (suc fuel) id h skip =
    rw (lt→ltb id b.max_lcore h, skip id h)
      (spin b p skip_main fuel ((id + 1) % b.max_lcore) (mod-lt (id + 1) (omega arith)) skip)

-- With wrap set it searches for ever if no lcore is eligible: no number of rounds is enough.
pub get_next_lcore_diverges :
    (b : BuildConfig) (p : Platform) (skip_main : Bool) (fuel start_id : ℕ)
    → 0 < b.max_lcore
    → ((id : ℕ) → id < b.max_lcore → is_skipped p skip_main id ≡ true)
    → get_next_lcore b p skip_main true fuel start_id ≡ none
unfolding get_next_lcore
get_next_lcore_diverges b p skip_main fuel start_id some_lcore none_left =
    spin b p skip_main fuel (start_id % b.max_lcore) (mod-lt start_id some_lcore) none_left

worker_lcores_loop_lem :
    (b : BuildConfig) (p : Platform) (n fuel id : ℕ)
    → id + n ≡ b.max_lcore
    → n < fuel
    → (n ≡ 0) ⊎ (is_skipped p true id ≡ false)
    → worker_lcores_loop b p fuel (some id) ≡ some (eligible p true id n)
unfolding worker_lcores_loop
worker_lcores_loop_lem b p n zero id h k u = absurd (omega arith)
worker_lcores_loop_lem b p zero (suc fuel) id h k u = ground arith
worker_lcores_loop_lem b p (suc n) (suc fuel) id h k (inl z) = absurd (omega arith)
worker_lcores_loop_lem b p (suc n) (suc fuel) id h k (inr use_it) =
    let (next, left, e, f) =
      get_next_lcore-Found b p true n (lcore_fuel b) (id + 1) (omega arith) (omega arith) in
    let rest : worker_lcores_loop b p fuel (some next) ≡ some (eligible p true next left) =
      worker_lcores_loop_lem b p left fuel next f.ahead (omega (arith, f.ahead, f.forward))
        f.usable in
    rw (lt→ltb id b.max_lcore (omega arith), e, rest, use_it, f.skipped) refl

-- The worker lcores that GetDevices() collects are all of the enabled lcores but the main one, in
-- order.
pub worker_lcores_of_lem :
    (b : BuildConfig) (p : Platform) → worker_lcores_of b p ≡ some (eligible p true 0 b.max_lcore)
unfolding worker_lcores_of
worker_lcores_of_lem b p =
    let (next, left, e, f) =
      get_next_lcore-Found b p true b.max_lcore (lcore_fuel b) 0 (omega arith) (omega arith) in
    rw
      (
        e,
        worker_lcores_loop_lem b p left (lcore_fuel b) next f.ahead
            (omega (arith, f.ahead, f.forward)) f.usable,
        f.skipped,
      )
      refl
