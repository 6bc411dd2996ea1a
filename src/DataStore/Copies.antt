-- ===== src/DataStore/Copies.antt =====
-- src/DataStore.cpp: the copy constructor, `copy_fd_contents` and the assignment by copy and swap.
use left_hook_roll.DataStore.Files.{Action, write_all, switch_to_file_mode, answered}
use left_hook_roll.DataStore.Kernel.{BufferMode, ram, file_mode, DataStore, Reply, count_of}
use left_hook_roll.Prelude.Result.{Result, ok, threw, runtime_error, out_of_fuel, ◌>>◌}
use left_hook_roll.Prelude.{
  refl, ◌∙◌, ap, ◌≡◌, ℕ, zero, suc, ◌+◌, ◌-◌, min, true, false, none, some, List, [], ltb,
  if◌then◌else◌, length, take, drop,
}
use left_hook_roll.Text.{Bytes}

-- The loop of copy_fd_contents: `src` is the file that is copied, `offset` bytes of it are done.
unfoldable pub copy_loop : ℕ → Bytes → ℕ → ℕ → Action (Unit {0})
unfolding count_of
copy_loop zero src offset total s = threw out_of_fuel s
copy_loop (suc fuel) src offset total s =
    let to_read = min 8192 (total - offset) in
    elim (ltb offset total) [
      | false ↦ ok tt s
      | true ↦ elim (count_of (min to_read (length src - offset)) s.replies) [
        | none ↦ threw runtime_error (answered s)
        | some zero ↦ threw runtime_error (answered s)
        | some (suc k) ↦
            (write_all (take (suc k) (drop offset src))
                >> copy_loop fuel src (offset + suc k) total)
              (answered s)
      ]
    ]

-- open(srcPath), and the loop
unfoldable pub copy_fd_contents : Bytes → ℕ → Action (Unit {0})
unfolding count_of copy_loop
copy_fd_contents src total s = elim (count_of 1 s.replies) [
  | none ↦ threw runtime_error (answered s)
  | some k ↦ copy_loop (suc total) src 0 total (answered s)
]

-- The members that the copy constructor initialises first.
abbrev pub blank_copy : DataStore → List Reply → DataStore
blank_copy other replies = record other {
  mode = ram;
  current_size = 0;
  read_offset = 0;
  data_buffer = [];
  fd = none;
  absolute_path = [];
  file_contents = [];
  replies = replies;
}

unfoldable pub copy_in : BufferMode → DataStore → List Reply → Result DataStore (Unit {0})
unfolding copy_fd_contents switch_to_file_mode
copy_in ram other replies = ok tt (record (blank_copy other replies) {
  data_buffer = other.data_buffer;
  current_size = other.current_size;
})
copy_in file_mode other replies =
    (do
      switch_to_file_mode
      (if ltb 0 other.current_size
          then copy_fd_contents other.file_contents other.current_size
          else ok tt))
      (record (blank_copy other replies) { current_size = other.current_size })

-- DataStore(const DataStore& other): `replies` are the kernel's to the new object.
unfoldable pub copy : DataStore → List Reply → Result DataStore (Unit {0})
unfolding copy_in
copy other replies = copy_in other.mode other replies

-- operator=(DataStore other): a copy that throws leaves the target as it was.
unfoldable pub assign : DataStore → Action (Unit {0})
unfolding copy
assign other s = elim (copy other s.replies) [
  | ok a t ↦ ok tt t
  | threw e t ↦ threw e (record s { file_counter = t.file_counter; replies = t.replies })
]

pub assign-copy :
    (other s t : DataStore) → copy other [] ≡ ok tt t → s.replies ≡ [] → assign other s ≡ ok tt t
unfolding assign
assign-copy other s t c e =
    ap
      (λ rs. elim (copy other rs) as (λ x. Result DataStore (Unit {0})) [
        | ok a t ↦ ok tt t
        | threw x t ↦ threw x (record s { file_counter = t.file_counter; replies = t.replies })
      ])
      e
    ∙ rw c refl
