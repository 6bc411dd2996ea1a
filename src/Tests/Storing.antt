-- ===== src/Tests/Storing.antt =====
-- src/DataStore.cpp on concrete inputs.
use left_hook_roll.DataStore.Appends.{Appended, append-Appended}
use left_hook_roll.DataStore.Contents.{contents, IsStored}
use left_hook_roll.DataStore.Files.{append, read, write_all, switch_to_file_mode}
use left_hook_roll.DataStore.Kernel.{
  file_mode, Reply, served, exists, refused, DataStore, new_store,
}
use left_hook_roll.DataStore.Copies.{assign}
use left_hook_roll.DataStore.Duplicates.{Duplicates, assign-Duplicates}
use left_hook_roll.DataStore.Readable.{IsReadable, Gives}
use left_hook_roll.DataStore.Reads.{Rewound, read-Gives, reset_read_position-Rewound}
use left_hook_roll.DataStore.Served.{Grown, append-Grown}
use left_hook_roll.DataStore.Switch.{Switched, switch_to_file_mode-Switched}
use left_hook_roll.DataStore.Writes.{Wrote, write_all-Wrote}
use left_hook_roll.Response.Cgi.Drain.{with_store, drain_data_store-contents}
use left_hook_roll.Response.Cgi.{drain_data_store}
use left_hook_roll.Response.State.{Response, new_response}
use left_hook_roll.Prelude.Result.{ok}
use left_hook_roll.Prelude.{◌≡◌, false, some, refl, List, [], ◌∷◌, arith}
use left_hook_roll.Text.{codes}

-- A kernel that refuses the second write.
abbrev unlucky : List Reply
unlucky = exists ∷ served 3 ∷ served 2 ∷ refused ∷ []

abbrev small : DataStore
small = record (new_store 0 unlucky) { buffer_limit = 4 }

write_all-Wrote_example : Wrote (codes "hello") small (write_all (codes "hello") small)
write_all-Wrote_example = write_all-Wrote (codes "hello") small

switch_to_file_mode-Switched_example : Switched small (switch_to_file_mode small)
unfolding new_store
switch_to_file_mode-Switched_example = switch_to_file_mode-Switched small refl refl refl

small-IsStored : IsStored small
unfolding new_store
small-IsStored = record { size_ok = refl; shape_ok = (refl, refl) }

append-Appended_example : Appended (codes "hello") small (append (codes "hello") small)
unfolding new_store
append-Appended_example = append-Appended (codes "hello") small small-IsStored (omega arith)

abbrev served_store : DataStore
served_store = record (new_store 0 []) { buffer_limit = 4 }

append-Grown_example : Grown (codes "hello") served_store
unfolding new_store
append-Grown_example =
    append-Grown (codes "hello") served_store (record { size_ok = refl; shape_ok = (refl, refl) })
      refl (omega arith)

-- A store in a file, with three bytes read.
abbrev half_read : DataStore
half_read = record (new_store 1 []) {
  mode = file_mode;
  current_size = 5;
  read_offset = 3;
  fd = some 3;
  absolute_path = codes "/tmp/lefthookroll_0";
  file_contents = codes "hello";
}

half_read-IsReadable : IsReadable half_read
unfolding new_store
half_read-IsReadable = record {
  stored = record { size_ok = refl; shape_ok = (refl, (λ e. cc e)) };
  placed = refl;
  within = omega arith;
  serves = refl;
}

read-Gives_example : Gives 4 half_read (read 4 half_read)
read-Gives_example = read-Gives 4 half_read half_read-IsReadable

reset_read_position-Rewound_example : Rewound half_read
unfolding new_store
reset_read_position-Rewound_example =
    reset_read_position-Rewound half_read
      (record { size_ok = refl; shape_ok = (refl, (λ e. cc e)) }) refl

abbrev answer : Response
answer = new_response half_read (record { output = []; send_replies = []; sigpipe = false })

drain_data_store-contents_example :
    (t : DataStore) × (drain_data_store answer
      ≡ ok (contents answer.response_data_store) (with_store answer t))
    × (contents t ≡ contents answer.response_data_store)
unfolding new_store new_response
drain_data_store-contents_example =
    drain_data_store-contents answer (record { size_ok = refl; shape_ok = (refl, (λ e. cc e)) })
      refl

assign-Duplicates_example : Duplicates half_read (assign half_read served_store)
unfolding new_store
assign-Duplicates_example =
    assign-Duplicates half_read served_store
      (record { size_ok = refl; shape_ok = (refl, (λ e. cc e)) }) refl
