-- ===== src/App/Input/Tests.antt =====
-- Reading 5 of 8 bytes of a raw file, and a file whose name ends with .feather.
use bitar.Base.{ℕ, List, ◌∷◌, some, ok, err, invalid, ◌≡◌, refl}
use bitar.Base.Int.{pos}
use bitar.App.Input.{
  File, ends_with, get_num_bytes_to_read, read_rounds, read_raw_data, serialize_table, write_rounds,
  read_table_data, deserialize_rounds, raw, content, dot_feather, read_opened, read_data,
}
use bitar.App.Input.Outcome.{Read, read_data-Read}

abbrev name : List ℕ
name = b'a' ∷ dot_feather

abbrev file : File
file = record {
  open_file = ok tt;
  get_size = ok 8;
  allocate_buffer = λ n. ok tt;
  read_at = λ round n. ok n;
  read_parquet = err invalid;
  read_feather = ok tt;
  table_size = ok 20;
  write_table = λ round. ok 20;
  read_batches = λ round. ok tt;
}

raw_run : read_data file name raw (pos 5) ≡ some (ok 5)
unfolding read_data read_opened read_raw_data get_num_bytes_to_read read_rounds
raw_run = refl

content_run : read_data file name content (pos 0) ≡ some (ok 20)
unfolding read_data read_opened ends_with read_table_data serialize_table write_rounds
    get_num_bytes_to_read deserialize_rounds
content_run = refl

read_data-Read_example : (file.open_file ≡ ok tt) × Read file name (pos 0) 20 content
read_data-Read_example = read_data-Read file name content (pos 0) 20 content_run
