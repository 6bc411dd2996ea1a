-- ===== src/DataStore/Kernel.antt =====
-- The system calls that src/DataStore.cpp makes, and the state of a store.
use left_hook_roll.Prelude.{ℕ, ◌*◌, min, Option, none, some, List, [], ◌∷◌}
use left_hook_roll.Text.{Bytes}

-- What a call returns: a count of bytes (a descriptor, for open), EEXIST, or another error.
pub data Reply : Type 0 where
  served : ℕ → Reply
  exists : Reply
  refused : Reply

pub data BufferMode : Type 0 where
  ram file_mode : BufferMode

-- `file_contents` is the file at the store's path, and `file_counter` the static counter of
-- `_generateTempFileName` as this store finds it.
pub record DataStore : Type 0 where
  pub mode : BufferMode
  pub buffer_limit : ℕ
  pub current_size : ℕ
  pub read_offset : ℕ
  pub data_buffer : Bytes
  pub fd : Option ℕ
  pub absolute_path : Bytes
  pub file_contents : Bytes
  pub file_counter : ℕ
  pub replies : List Reply

-- DataStore()
unfoldable pub new_store : ℕ → List Reply → DataStore
new_store counter replies = record {
  mode = ram;
  buffer_limit = 1024 * 1024;
  current_size = 0;
  read_offset = 0;
  data_buffer = [];
  fd = none;
  absolute_path = [];
  file_contents = [];
  file_counter = counter;
  replies = replies;
}

-- The count that a call for `n` bytes returns, or `none` for -1.
unfoldable pub count_of : ℕ → List Reply → Option ℕ
count_of n [] = some n
count_of n (served k ∷ rs) = some (min k n)
count_of n (exists ∷ rs) = none
count_of n (refused ∷ rs) = none

abbrev pub later : List Reply → List Reply
later [] = []
later (r ∷ rs) = rs
