-- ===== src/App/Input/Outcome.antt =====
-- What ReadData() of apps/demo_app.cc has gone through where it succeeds.
use bitar.Base.{
  ℕ, zero, suc, ◌+◌, ◌≤◌, ◌<◌, leb, ◌==◌, ==_iff, List, ◌++◌, Option, none, some, min, StatusCode,
  Status, Result, ok, err, Bool-cases, inl, inr, ◌⊎◌, ◌≡◌, refl, sym, ap, ◌∙◌, arith,
}
use mathlib.Core.Option
use mathlib.Core.Path.{subst}
use bitar.Base.Int.{ℤ, pos, negsuc}
use bitar.App.Async.{num_tests}
use bitar.App.Input.{
  File, ends_with, get_num_bytes_to_read, all_read, and_then, read_rounds, with_result, raw_of,
  read_raw_data, serialized, write_rounds, serialize_table, slice_of, read_table_data,
  deserialize_rounds, deserialized, FileReadMode, raw, content, dot_parquet, dot_feather,
  read_opened, read_data,
}
use bitar.App.Input.Sizes.{ends_with_iff}

-- `n` of `max` bytes are read: as many as are wanted, as far as there are any, or all of them where no
-- positive number is wanted.
abbrev pub Clipped : ℕ → ℤ → ℕ → Type 0
Clipped max (negsuc k) n = n ≡ max
Clipped max (pos zero) n = n ≡ max
Clipped max (pos (suc k)) n = ((suc k ≤ max) × (n ≡ suc k)) ⊎ ((max < suc k) × (n ≡ max))

clip : (k max : ℕ) → Clipped max (pos (suc k)) (min (suc k) max)
clip k max = elim (Bool-cases (leb (suc k) max)) [
  | inl e ↦ inl (ground arith, ground arith)
  | inr e ↦ inr (ground arith, ground arith)
]

get_num_bytes_to_read-Clipped :
    (want : ℤ) (max : ℕ) → Clipped max want (get_num_bytes_to_read want max)
unfolding get_num_bytes_to_read
get_num_bytes_to_read-Clipped (negsuc n) max = refl
get_num_bytes_to_read-Clipped (pos zero) max = refl
get_num_bytes_to_read-Clipped (pos (suc n)) max = clip n max

-- Each of the rounds reads as much.
abbrev pub AllRead : File → ℕ → ℕ → ℕ → Type 0
AllRead f n zero round = Unit {0}
AllRead f n (suc rounds) round = (f.read_at round n ≡ ok n) × AllRead f n rounds (round + 1)

and_then-ok : (r s : Status) → and_then r s ≡ ok tt → (r ≡ ok tt) × (s ≡ ok tt)
and_then-ok (err e) s h = absurd (grind arith)
and_then-ok (ok u) s h = (refl, h)

all_read-ok : (n : ℕ) (r : Result ℕ) → all_read n r ≡ ok tt → r ≡ ok n
all_read-ok n (err e) h = absurd (grind arith)
all_read-ok n (ok k) h = elim (Bool-cases (k == n)) [
  | inl e ↦ ap ok ((==_iff k n).0 e)
  | inr e ↦ absurd (ground arith)
]

read_rounds-AllRead :
    (f : File) (n rounds round : ℕ)
    → read_rounds f n rounds round ≡ ok tt
    → AllRead f n rounds round
unfolding read_rounds
read_rounds-AllRead f n zero round h = tt
read_rounds-AllRead f n (suc rounds) round h =
    let (first, rest) = and_then-ok (all_read n (f.read_at round n)) _ h in
    (all_read-ok n (f.read_at round n) first, read_rounds-AllRead f n rounds (round + 1) rest)

with_result-ok : (s : Status) (n : ℕ) {k : ℕ} → with_result s n ≡ ok k → (s ≡ ok tt) × (n ≡ k)
with_result-ok (err e) n h = absurd (grind arith)
with_result-ok (ok u) n h = (refl, ground arith)

-- What has been read, by the mode.
pub data Read (f : File) (file_path : List ℕ) (want : ℤ) (n : ℕ) : FileReadMode → Type 0 where
  raw_bytes :
      (max : ℕ)
      → f.get_size ≡ ok max
      → Clipped max want n
      → AllRead f n num_tests 0
      → Read f file_path want n raw
  table_bytes :
      (max : ℕ)
      → (((prefix : List ℕ) × (file_path ≡ prefix ++ dot_parquet)) × (f.read_parquet ≡ ok tt))
        ⊎ (((prefix : List ℕ) × (file_path ≡ prefix ++ dot_feather)) × (f.read_feather ≡ ok tt))
      → f.table_size ≡ ok max
      → Clipped max want n
      → Read f file_path want n content

raw_of-Read :
    (f : File) (file_path : List ℕ) (want : ℤ) (n : ℕ) (r : Result ℕ)
    → f.get_size ≡ r
    → raw_of f want r ≡ ok n
    → Read f file_path want n raw
raw_of-Read f file_path want n (err e) same h = absurd (grind arith)
raw_of-Read f file_path want n (ok max) same h =
    let k : ℕ = get_num_bytes_to_read want max in
    let (done, size) =
      with_result-ok (and_then (f.allocate_buffer k) (read_rounds f k num_tests 0)) k h in
    let (_, all) = and_then-ok (f.allocate_buffer k) (read_rounds f k num_tests 0) done in
    raw_bytes max same (subst (Clipped max want) size (get_num_bytes_to_read-Clipped want max))
      (subst (λ j. AllRead f j num_tests 0) size (read_rounds-AllRead f k num_tests 0 all))

sliced :
    (want : ℤ) (n k parent : ℕ) (o : Option Status)
    → slice_of want (serialized n o) ≡ some (ok (k, parent))
    → (n ≡ parent) × (k ≡ get_num_bytes_to_read want n)
sliced want n k parent none h = absurd (Option.none-ne-some _ h)
sliced want n k parent (some (ok u)) h = (ground arith, ground arith)
sliced want n k parent (some (err e)) h = absurd (grind arith)

Result-cases : (r : Result ℕ) → ((e : StatusCode) × (r ≡ err e)) ⊎ ((n : ℕ) × (r ≡ ok n))
Result-cases (err e) = inl (e, refl)
Result-cases (ok n) = inr (n, refl)

with_table :
    (f : File) (want : ℤ) (n : ℕ) {r : Option (Result (ℕ × ℕ))}
    → f.table_size ≡ ok n
    → slice_of want (serialize_table f) ≡ r
    → slice_of want (serialized n (write_rounds f n num_tests 0)) ≡ r
unfolding serialize_table write_rounds
with_table f want n e h = rw e at h

no_table :
    (f : File) (want : ℤ) (k parent : ℕ) (c : StatusCode)
    → f.table_size ≡ err c
    → slice_of want (serialize_table f) ≡ some (ok (k, parent))
    → ⊥
unfolding serialize_table
no_table f want k parent c e h = grind arith

deserialized-ok :
    (f : File) (n : ℕ) (o : Option (Result (ℕ × ℕ)))
    → deserialized f o ≡ some (ok n)
    → (parent : ℕ) × (o ≡ some (ok (n, parent)))
deserialized-ok f n none h = absurd (Option.none-ne-some _ h)
deserialized-ok f n (some (err e)) h = absurd (grind arith)
deserialized-ok f n (some (ok (k, parent))) h =
    let (_, same) =
      with_result-ok (deserialize_rounds f num_tests 0) k (Option.some-injective _ _ h) in
    (parent, ap (λ m. some (ok (m, parent))) same)

table-Clipped :
    (f : File) (want : ℤ) (k parent : ℕ)
    → slice_of want (serialize_table f) ≡ some (ok (k, parent))
    → (f.table_size ≡ ok parent) × Clipped parent want k
table-Clipped f want k parent h = elim (Result-cases f.table_size) [
  | inl (c, e) ↦ absurd (no_table f want k parent c e h)
  | inr (n, e) ↦
      let (same, cut) =
        sliced want n k parent (write_rounds f n num_tests 0) (with_table f want n e h) in
      (
        e ∙ ap ok same,
        subst (λ m. Clipped m want k) same
            (subst (Clipped n want) (sym cut) (get_num_bytes_to_read-Clipped want n)),
      )
]

read_table-Clipped :
    (f : File) (want : ℤ) (n : ℕ) (s : Status)
    → deserialized f (read_table_data f want s) ≡ some (ok n)
    → (s ≡ ok tt) × ((max : ℕ) × (f.table_size ≡ ok max) × Clipped max want n)
unfolding read_table_data
read_table-Clipped f want n (err e) h = absurd (grind arith)
read_table-Clipped f want n (ok u) h =
    let (parent, e) = deserialized-ok f n (slice_of want (serialize_table f)) h in
    let (size, cut) = table-Clipped f want n parent e in (refl, (parent, size, cut))

read_opened-Read :
    (f : File) (file_path : List ℕ) (mode : FileReadMode) (want : ℤ) (n : ℕ)
    → read_opened f file_path mode want ≡ some (ok n)
    → Read f file_path want n mode
unfolding read_opened read_raw_data
read_opened-Read f file_path raw want n h =
    raw_of-Read f file_path want n f.get_size refl (Option.some-injective _ _ h)
read_opened-Read f file_path content want n h =
    elim (Bool-cases (ends_with file_path dot_parquet)) [
      | inl e ↦
          let (done, (max, size, cut)) = read_table-Clipped f want n f.read_parquet (rw e at h) in
          table_bytes max (inl ((ends_with_iff file_path dot_parquet).0 e, done)) size cut
      | inr e ↦ elim (Bool-cases (ends_with file_path dot_feather)) [
        | inl e' ↦
            let (done, (max, size, cut)) =
              read_table-Clipped f want n f.read_feather (rw (e, e') at h) in
            table_bytes max (inr ((ends_with_iff file_path dot_feather).0 e', done)) size cut
        | inr e' ↦ absurd (grind arith)
      ]
    ]

-- ReadData() that succeeds has read a raw file, in each round as many bytes as are returned, or a table
-- from a file whose name ends with .parquet or .feather; and it returns as many bytes as are wanted, as
-- far as there are any, or all of them where no positive number is wanted.
pub read_data-Read :
    (f : File) (file_path : List ℕ) (mode : FileReadMode) (want : ℤ) (n : ℕ)
    → read_data f file_path mode want ≡ some (ok n)
    → (f.open_file ≡ ok tt) × Read f file_path want n mode
unfolding read_data
read_data-Read f file_path mode want n h = opened f.open_file refl h
  where
    opened :
        (s : Status)
        → f.open_file ≡ s
        → (elim s [ err e ↦ some (err e) | ok u ↦ read_opened f file_path mode want ]) ≡ some (ok n)
        → (f.open_file ≡ ok tt) × Read f file_path want n mode
    opened (ok u) e k = (e, read_opened-Read f file_path mode want n k)
    opened (err c) e k = absurd (grind arith)
