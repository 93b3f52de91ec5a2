-- ===== src/App/Input/Sizes.antt =====
-- How many bytes ReadData() of apps/demo_app.cc reads, and from which files.
use bitar.Base.{
  ℕ, ◌-◌, leb, Bool, true, false, ◌&&◌, List, [], ◌∷◌, ◌++◌, length, length-append, take, drop,
  take-append-drop, ◌↔◌, ◌≡◌, refl, sym, ap, ◌∙◌, arith,
}
use mathlib.Core.Path.{subst}
use bitar.App.Input.{same_bytes, ends_with}

eq_of_same_bytes : (xs ys : List ℕ) → same_bytes xs ys ≡ true → xs ≡ ys
eq_of_same_bytes [] [] h = refl
eq_of_same_bytes [] (y ∷ ys) h = absurd (grind arith)
eq_of_same_bytes (x ∷ xs) [] h = absurd (grind arith)
eq_of_same_bytes (x ∷ xs) (y ∷ ys) h = ground (arith, eq_of_same_bytes xs ys)

same_bytes_refl : (xs : List ℕ) → same_bytes xs xs ≡ true
same_bytes_refl [] = refl
same_bytes_refl (x ∷ xs) = ground (arith, same_bytes_refl xs)

drop-append : (xs ys : List ℕ) → drop (length xs) (xs ++ ys) ≡ ys
drop-append [] ys = refl
drop-append (x ∷ xs) ys = drop-append xs ys

abbrev Ends : List ℕ → List ℕ → Type 0
Ends str suffix =
    (leb (length suffix) (length str) && same_bytes (drop (length str - length suffix) str) suffix)
    ≡ true

-- EndsWith() holds exactly where the suffix stands at the end of the string.
pub ends_with_iff :
    (str suffix : List ℕ)
    → (ends_with str suffix ≡ true) ↔ ((prefix : List ℕ) × (str ≡ prefix ++ suffix))
unfolding ends_with
ends_with_iff str suffix = (
  λ h. split (leb (length suffix) (length str)) h,
  λ p. subst (λ x. Ends x suffix) (sym p.1) (joined p.0 suffix),
)
  where
    split :
        (t : Bool)
        → (t && same_bytes (drop (length str - length suffix) str) suffix) ≡ true
        → (prefix : List ℕ) × (str ≡ prefix ++ suffix)
    split false h = absurd (grind arith)
    split true h = (
      take (length str - length suffix) str,
      sym (take-append-drop (length str - length suffix) str)
          ∙ ap (λ x. take (length str - length suffix) str ++ x) (eq_of_same_bytes _ suffix h),
    )

    joined : (xs ys : List ℕ) → Ends (xs ++ ys) ys
    joined xs ys =
        let cut : length (xs ++ ys) - length ys ≡ length xs = omega (arith, length-append xs ys) in
        let fits : leb (length ys) (length (xs ++ ys)) ≡ true =
          ground (arith, length-append xs ys) in
        rw (fits, cut, drop-append xs ys) (same_bytes_refl ys)
