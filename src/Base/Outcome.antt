-- ===== src/Base/Outcome.antt =====
-- arrow::StatusCode, as far as the sources use it, and what a fallible call returns. The text of a
-- message is left out. `return -static_cast<...>(code)` of a function that returns an int is `err`.
use mathlib.Core.Path.{◌≡◌, ap, refl}
use native.Mathlib.Omega.{arith}

pub data StatusCode : Type 0 where
  out_of_memory invalid io_error capacity_error cancelled not_implemented unknown_error : StatusCode

-- arrow::Status is `Result Unit`; an arrow::Result of a type is `Result` of it.
pub data Result {ℓ} (A : Type ℓ) : Type ℓ where
  ok : A → Result A
  err : StatusCode → Result A

abbrev pub Status : Type 0
Status = Result (Unit {0})

-- A member function of a class with state `S`. The state that a failed call leaves behind stays.
abbrev pub Action : Type 0 → Type 0 → Type 0
Action S A = S → Result A × S

abbrev pub continue : {S A B : Type 0} → (A → Action S B) → Result A × S → Result B × S
continue f (ok a, s) = f a s
continue f (err e, s) = (err e, s)

-- ARROW_RETURN_NOT_OK and ARROW_ASSIGN_OR_RAISE.
infixl 5 ◌>>=◌ ◌>>◌
abbrev pub ◌>>=◌ : {S A B : Type 0} → Action S A → (A → Action S B) → Action S B
◌>>=◌ m f s = continue f (m s)

abbrev pub ◌>>◌ : {S B : Type 0} → Action S (Unit {0}) → Action S B → Action S B
m >> k = m >>= λ _. k

abbrev pub return_ok : {S A : Type 0} → A → Action S A
return_ok a s = (ok a, s)

abbrev pub raise : {S A : Type 0} → StatusCode → Action S A
raise e s = (err e, s)

-- What a chain does once its first call is known.
pub >>=-ok :
    {S A B : Type 0} (m : Action S A) (f : A → Action S B) (s : S) {a : A} {s' : S}
    → m s ≡ (ok a, s')
    → (m >>= f) s ≡ f a s'
>>=-ok m f s h = ap (continue f) h

pub >>=-err :
    {S A B : Type 0} (m : Action S A) (f : A → Action S B) (s : S) {e : StatusCode} {s' : S}
    → m s ≡ (err e, s')
    → (m >>= f) s ≡ (err e, s')
>>=-err m f s h = ap (continue f) h

-- A chain that succeeds got through its first call.
continue_inv :
    {S A B : Type 0} (f : A → Action S B) (r : Result A × S) {b : B} {s' : S}
    → continue f r ≡ (ok b, s')
    → (a : A) × (s₁ : S) × (r ≡ (ok a, s₁)) × (f a s₁ ≡ (ok b, s'))
continue_inv f (ok a, s₁) h = (a, s₁, refl, h)
continue_inv f (err e, s₁) h = absurd (grind arith)

pub >>=-inv :
    {S A B : Type 0} (m : Action S A) (f : A → Action S B) (s : S) {b : B} {s' : S}
    → (m >>= f) s ≡ (ok b, s')
    → (a : A) × (s₁ : S) × (m s ≡ (ok a, s₁)) × (f a s₁ ≡ (ok b, s'))
>>=-inv m f s h = continue_inv f (m s) h
