-- ===== src/App/Input.antt =====
-- ReadData() of apps/demo_app.cc: how much of which file becomes the input. A buffer is given by its
-- size; `none` is an ARROW_CHECK_EQ that fails. What is printed is left out.
pub mod Sizes
pub mod Outcome
mod Tests
use bitar.Base.{
  ℕ, zero, suc, ◌+◌, ◌-◌, leb, ◌==◌, if◌then◌else◌, Bool, true, false, ◌&&◌, List, [], ◌∷◌, Option,
  none, some, length, drop, min, StatusCode, io_error, invalid, Status, Result, ok, err,
}
use bitar.Base.Int.{ℤ, pos, negsuc}
use bitar.App.Async.{num_tests}

-- What arrow answers about the file. The number of the round comes first.
pub record File : Type 0 where
  pub open_file : Status
  pub get_size : Result ℕ
  pub allocate_buffer : ℕ → Status
  pub read_at : ℕ → ℕ → Result ℕ
  -- Reading a table of the format, and its size by a writer to a mock stream; then writing it.
  pub read_parquet : Status
  pub read_feather : Status
  pub table_size : Result ℕ
  pub write_table : ℕ → Result ℕ
  -- Reading the table back.
  pub read_batches : ℕ → Status

-- EndsWith(), on the bytes of the two strings.
abbrev pub same_bytes : List ℕ → List ℕ → Bool
same_bytes [] [] = true
same_bytes [] (y ∷ ys) = false
same_bytes (x ∷ xs) [] = false
same_bytes (x ∷ xs) (y ∷ ys) = x == y && same_bytes xs ys

unfoldable pub ends_with : List ℕ → List ℕ → Bool
ends_with str suffix =
    leb (length suffix) (length str) && same_bytes (drop (length str - length suffix) str) suffix

-- GetNumBytesToRead().
unfoldable pub get_num_bytes_to_read : ℤ → ℕ → ℕ
get_num_bytes_to_read (negsuc n) max_bytes = max_bytes
get_num_bytes_to_read (pos zero) max_bytes = max_bytes
get_num_bytes_to_read (pos (suc n)) max_bytes = min (suc n) max_bytes

-- The rounds of ReadRawData().
abbrev pub all_read : ℕ → Result ℕ → Status
all_read n (err e) = err e
all_read n (ok k) = if k == n then ok tt else err io_error

abbrev pub and_then : Status → Status → Status
and_then (err e) s = err e
and_then (ok u) s = s

unfoldable pub read_rounds : File → ℕ → ℕ → ℕ → Status
read_rounds f n zero round = ok tt
read_rounds f n (suc rounds) round =
    and_then (all_read n (f.read_at round n)) (read_rounds f n rounds (round + 1))

abbrev pub with_result : Status → ℕ → Result ℕ
with_result (ok u) n = ok n
with_result (err e) n = err e

abbrev pub raw_of : File → ℤ → Result ℕ → Result ℕ
raw_of f want (err e) = err e
raw_of f want (ok file_size) =
    let n : ℕ = get_num_bytes_to_read want file_size in
    with_result (and_then (f.allocate_buffer n) (read_rounds f n num_tests 0)) n

unfoldable pub read_raw_data : File → ℤ → Result ℕ
read_raw_data f want = raw_of f want f.get_size

-- SerializeTable(): every round writes as much as the mock stream has counted.
abbrev pub written : ℕ → Result ℕ → Option Status
written n (err e) = some (err e)
written n (ok k) = if k == n then some (ok tt) else none

unfoldable pub write_rounds : File → ℕ → ℕ → ℕ → Option Status
write_rounds f n zero round = some (ok tt)
write_rounds f n (suc rounds) round = elim (written n (f.write_table round)) [
  | none ↦ none
  | some (err e) ↦ some (err e)
  | some (ok u) ↦ write_rounds f n rounds (round + 1)
]

abbrev pub serialized : ℕ → Option Status → Option (Result ℕ)
serialized n none = none
serialized n (some s) = some (with_result s n)

unfoldable pub serialize_table : File → Option (Result ℕ)
serialize_table f = elim f.table_size [
  | err e ↦ some (err e)
  | ok n ↦ serialized n (write_rounds f n num_tests 0)
]

-- ReadTableBytes(), with ReadParquetData() or ReadFeatherData() in front of it: the size of the slice
-- and of its parent, the serialized table.
abbrev pub slice_of : ℤ → Option (Result ℕ) → Option (Result (ℕ × ℕ))
slice_of want none = none
slice_of want (some (err e)) = some (err e)
slice_of want (some (ok n)) = some (ok (get_num_bytes_to_read want n, n))

unfoldable pub read_table_data : File → ℤ → Status → Option (Result (ℕ × ℕ))
read_table_data f want (err e) = some (err e)
read_table_data f want (ok u) = slice_of want (serialize_table f)

-- DeserializeTable(), and the rest of ReadData(), where there is a buffer.
unfoldable pub deserialize_rounds : File → ℕ → ℕ → Status
deserialize_rounds f zero round = ok tt
deserialize_rounds f (suc rounds) round =
    and_then (f.read_batches round) (deserialize_rounds f rounds (round + 1))

abbrev pub deserialized : File → Option (Result (ℕ × ℕ)) → Option (Result ℕ)
deserialized f none = none
deserialized f (some (err e)) = some (err e)
deserialized f (some (ok (n, parent))) = some (with_result (deserialize_rounds f num_tests 0) n)

-- FileReadMode; `.parquet` and `.feather`. No name ends with both.
pub data FileReadMode : Type 0 where
  raw content : FileReadMode

abbrev pub dot_parquet : List ℕ
dot_parquet = b'.' ∷ b'p' ∷ b'a' ∷ b'r' ∷ b'q' ∷ b'u' ∷ b'e' ∷ b't' ∷ []

abbrev pub dot_feather : List ℕ
dot_feather = b'.' ∷ b'f' ∷ b'e' ∷ b'a' ∷ b't' ∷ b'h' ∷ b'e' ∷ b'r' ∷ []

unfoldable pub read_opened : File → List ℕ → FileReadMode → ℤ → Option (Result ℕ)
read_opened f file_path raw want = some (read_raw_data f want)
read_opened f file_path content want =
    if ends_with file_path dot_parquet
    then deserialized f (read_table_data f want f.read_parquet)
    else if ends_with file_path dot_feather
    then deserialized f (read_table_data f want f.read_feather)
    else some (err invalid)

unfoldable pub read_data : File → List ℕ → FileReadMode → ℤ → Option (Result ℕ)
read_data f file_path mode want = elim f.open_file [
  | err e ↦ some (err e)
  | ok u ↦ read_opened f file_path mode want
]
