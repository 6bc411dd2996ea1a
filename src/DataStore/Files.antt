-- ===== src/DataStore/Files.antt =====
-- src/DataStore.cpp: `write_all`, `_generateTempFileName`, `switchToFileMode`, `append`, `read`,
-- `resetReadPosition` and `clear`. An exception of the sources is `runtime_error`.
use left_hook_roll.DataStore.Kernel.{
  Reply, served, exists, refused, BufferMode, ram, file_mode, DataStore, count_of, later,
}
use left_hook_roll.Prelude.Result.{M, Result, ok, threw, runtime_error, out_of_fuel, ◌>>=◌, ◌>>◌}
use left_hook_roll.Prelude.{
  ℕ, zero, suc, ◌+◌, ◌-◌, ◌%◌, ◌^◌, min, ◌||◌, Option, none, some, List, [], ◌∷◌, ◌++◌, ◌==◌, ltb,
  leb, if◌then◌else◌, length, take, drop, is_nil,
}
use left_hook_roll.Text.Numbers.{show}
use left_hook_roll.Text.{Bytes, codes}

abbrev pub Action : Type 0 → Type 0
Action A = M DataStore A

-- size_t addition
abbrev pub add_size : ℕ → ℕ → ℕ
add_size a b = (a + b) % 2 ^ 64

-- The bytes that one write(2) has taken, at the end of the file since it was opened with O_APPEND.
abbrev pub written : Bytes → DataStore → DataStore
written bytes s = record s {
  file_contents = s.file_contents ++ bytes;
  fd = some (length (s.file_contents ++ bytes));
  replies = later s.replies;
}

abbrev pub answered : DataStore → DataStore
answered s = record s { replies = later s.replies }

-- write_all, on fuel: one more than the number of bytes is enough, since a round that goes on has
-- written one.
unfoldable pub write_loop : ℕ → Bytes → Action (Unit {0})
unfolding count_of
write_loop zero bytes s = threw out_of_fuel s
write_loop (suc fuel) [] s = ok tt s
write_loop (suc fuel) (d ∷ ds) s = elim (count_of (length (d ∷ ds)) s.replies) [
  | none ↦ threw runtime_error (answered s)
  | some zero ↦ threw runtime_error (answered s)
  | some (suc k) ↦ write_loop fuel (drop k ds) (written (take (suc k) (d ∷ ds)) s)
]

unfoldable pub write_all : Bytes → Action (Unit {0})
unfolding write_loop
write_all bytes = write_loop (suc (length bytes)) bytes

abbrev pub temp_name : ℕ → Bytes
temp_name n = codes "/tmp/lefthookroll_" ++ show n

abbrev pub opened : DataStore → DataStore
opened s = record s {
  absolute_path = temp_name s.file_counter;
  file_counter = suc s.file_counter;
  file_contents = [];
  fd = some 0;
  replies = later s.replies;
}

-- The loop of _generateTempFileName, along the replies.
unfoldable pub open_loop : List Reply → Action (Unit {0})
open_loop [] s = ok tt (opened s)
open_loop (served k ∷ rs) s = ok tt (opened s)
open_loop (exists ∷ rs) s =
    open_loop rs (record s { file_counter = suc s.file_counter; replies = rs })
open_loop (refused ∷ rs) s =
    threw runtime_error (record s { file_counter = suc s.file_counter; replies = rs })

unfoldable pub generate_temp_file : Action (Unit {0})
unfolding open_loop
generate_temp_file s = open_loop s.replies s

-- The catch block of switchToFileMode.
abbrev pub abandon_file : DataStore → DataStore
abandon_file s = record s { fd = none; absolute_path = [] }

abbrev pub rethrow_closed : Result DataStore (Unit {0}) → Result DataStore (Unit {0})
rethrow_closed (ok a s) = ok a s
rethrow_closed (threw e s) = threw e (abandon_file s)

-- if (!_dataBuffer.empty()) write_all(_fileFd, &_dataBuffer[0], _dataBuffer.size())
unfoldable pub spill : Action (Unit {0})
spill s = if is_nil s.data_buffer then ok tt s else rethrow_closed (write_all s.data_buffer s)

unfoldable pub switch_in : BufferMode → Action (Unit {0})
unfolding spill generate_temp_file
switch_in file_mode s = ok tt s
switch_in ram s =
    (do generate_temp_file; spill; (λ s'. ok tt (record s' { data_buffer = []; mode = file_mode })))
      s

unfoldable pub switch_to_file_mode : Action (Unit {0})
unfolding switch_in
switch_to_file_mode s = switch_in s.mode s

-- write_all(_fileFd, bytes, length); _currentSize += length;
unfoldable pub append_file : Bytes → Action (Unit {0})
append_file bytes = do
  write_all bytes
  (λ s. ok tt (record s { current_size = add_size s.current_size (length bytes) }))

unfoldable pub append_in : BufferMode → Bytes → Action (Unit {0})
unfolding append_file
append_in file_mode bytes s = append_file bytes s
append_in ram bytes s =
    if ltb s.buffer_limit (add_size s.current_size (length bytes))
    then (switch_to_file_mode >> append_file bytes) s
    else ok tt (record s {
      data_buffer = s.data_buffer ++ bytes;
      current_size = add_size s.current_size (length bytes);
    })

unfoldable pub append : Bytes → Action (Unit {0})
unfolding append_in
append bytes s = if is_nil bytes then ok tt s else append_in s.mode bytes s

-- clear()
unfoldable pub clear : DataStore → DataStore
clear s = record s {
  data_buffer = [];
  current_size = 0;
  read_offset = 0;
  mode = ram;
  fd = none;
  absolute_path = [];
  file_contents = [];
}

-- What read(2) on the descriptor gives of `n` bytes: at most what the file has from the position on.
abbrev pub at_position : ℕ → DataStore → Bytes
at_position p s = drop p s.file_contents

-- The loop of read() in FILE_MODE, on fuel: `want` bytes are still to be read, `got` are there.
unfoldable pub read_loop : ℕ → ℕ → Bytes → Action Bytes
unfolding count_of
read_loop zero want got s = threw out_of_fuel s
read_loop (suc fuel) zero got s = ok got s
read_loop (suc fuel) (suc want) got s = elim s.fd [
  | none ↦ threw runtime_error s
  | some p ↦ elim (count_of (min (suc want) (length (at_position p s))) s.replies) [
    | none ↦ threw runtime_error (answered s)
    | some zero ↦ ok got (answered s)
    | some (suc k) ↦
        read_loop fuel (want - k) (got ++ take (suc k) (at_position p s))
          (record s { fd = some (p + suc k); replies = later s.replies })
  ]
]

unfoldable pub read_in : BufferMode → ℕ → Action Bytes
unfolding read_loop
read_in ram n s =
    ok (take n (drop s.read_offset s.data_buffer)) (record s { read_offset = s.read_offset + n })
read_in file_mode n s =
    (do
      bytes ← read_loop (suc n) n []
      (λ s'. ok bytes (record s' { read_offset = s'.read_offset + length bytes })))
      s

-- read(buffer, length): the bytes stored in the buffer.
unfoldable pub read : ℕ → Action Bytes
unfolding read_in
read n s =
    if n == 0 || leb s.current_size s.read_offset
    then ok [] s
    else read_in s.mode (min n (s.current_size - s.read_offset)) s

-- The reopening of the file.
unfoldable pub reopen : BufferMode → Option ℕ → Action (Unit {0})
unfolding count_of
reopen file_mode (some p) s = elim (count_of 1 s.replies) [
  | none ↦ threw runtime_error (record (answered s) { fd = none })
  | some k ↦ ok tt (record (answered s) { fd = some 0 })
]
reopen _ _ s = ok tt s

unfoldable pub reset_read_position : Action (Unit {0})
unfolding reopen
reset_read_position s = reopen s.mode s.fd (record s { read_offset = 0 })
