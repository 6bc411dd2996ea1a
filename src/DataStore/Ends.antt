-- ===== src/DataStore/Ends.antt =====
-- No operation of a store runs out of fuel: what it throws is a std::runtime_error.
use left_hook_roll.DataStore.Files.{
  rethrow_closed, add_size, switch_to_file_mode, append_in, open_loop, spill, append_file, append,
  switch_in, write_all,
}
use left_hook_roll.DataStore.Kernel.{
  refused, exists, served, ram, file_mode, Reply, BufferMode, DataStore,
}
use left_hook_roll.DataStore.Writes.{Wrote, write_all-Wrote}
use left_hook_roll.Prelude.Result.{◌>>◌, Result, ok, threw, runtime_error}
use left_hook_roll.Prelude.{
  ltb, is_nil, if◌then◌else◌, ◌++◌, Bool, length, List, ◌≡◌, refl, [], ◌∷◌, true, false, suc,
}
use left_hook_roll.Text.{Bytes}

abbrev pub Ends : {A : Type 0} → Result DataStore A → Type 0
Ends (ok a s) = Unit
Ends (threw e s) = e ≡ runtime_error

write_all-Ends : (d : Bytes) (s : DataStore) → Ends (write_all d s)
write_all-Ends d s = go (write_all d s) (write_all-Wrote d s)
  where
    go : (r : Result DataStore (Unit {0})) → Wrote d s r → Ends r
    go (ok a t) w = tt
    go (threw e t) w = w.0

append_file-Ends : (d : Bytes) (s : DataStore) → Ends (append_file d s)
unfolding append_file
append_file-Ends d s = go (write_all d s) (write_all-Ends d s)
  where
    go :
        (r : Result DataStore (Unit {0}))
        → Ends r
        → Ends (elim r [
          | ok a s' ↦ ok tt (record s' { current_size = add_size s'.current_size (length d) })
          | threw e s' ↦ threw e s'
        ])
    go (ok a s') h = h
    go (threw e s') h = h

spill-Ends : (s : DataStore) → Ends (spill s)
unfolding spill
spill-Ends s = go (is_nil s.data_buffer)
  where
    closed : (r : Result DataStore (Unit {0})) → Ends r → Ends (rethrow_closed r)
    closed (ok a s') h = h
    closed (threw e s') h = h

    go : (b : Bool) → Ends (if b then ok tt s else rethrow_closed (write_all s.data_buffer s))
    go true = tt
    go false = closed (write_all s.data_buffer s) (write_all-Ends s.data_buffer s)

open_loop-Ends : (rs : List Reply) (s : DataStore) → Ends (open_loop rs s)
unfolding open_loop
open_loop-Ends [] s = tt
open_loop-Ends (served k ∷ rs) s = tt
open_loop-Ends (exists ∷ rs) s =
    open_loop-Ends rs (record s { file_counter = suc s.file_counter; replies = rs })
open_loop-Ends (refused ∷ rs) s = refl

-- A step, and a step behind it that ends wherever the first one does.
Ends-then :
    (r : Result DataStore (Unit {0})) (k : DataStore → Result DataStore (Unit {0}))
    → Ends r
    → ((t : DataStore) → Ends (k t))
    → Ends (elim r [ ok a t ↦ k t | threw e t ↦ threw e t ])
Ends-then (ok a t) k h f = f t
Ends-then (threw e t) k h f = h

switch_in-Ends : (md : BufferMode) (s : DataStore) → Ends (switch_in md s)
unfolding switch_in
switch_in-Ends file_mode s = tt
switch_in-Ends ram s = Ends-then (open_loop s.replies s) _ (open_loop-Ends s.replies s) (λ t.
    Ends-then (spill t) (λ u. ok tt (record u { data_buffer = []; mode = file_mode }))
      (spill-Ends t) (λ u. tt))

switch_to_file_mode-Ends : (s : DataStore) → Ends (switch_to_file_mode s)
unfolding switch_to_file_mode
switch_to_file_mode-Ends s = switch_in-Ends s.mode s

append_in-Ends : (md : BufferMode) (d : Bytes) (s : DataStore) → Ends (append_in md d s)
unfolding append_in
append_in-Ends file_mode d s = append_file-Ends d s
append_in-Ends ram d s = go (ltb s.buffer_limit (add_size s.current_size (length d)))
  where
    grown : DataStore
    grown = record s {
      current_size = add_size s.current_size (length d);
      data_buffer = s.data_buffer ++ d;
    }

    go : (b : Bool) → Ends (if b then (switch_to_file_mode >> append_file d) s else ok tt grown)
    go true =
        Ends-then (switch_to_file_mode s) (append_file d) (switch_to_file_mode-Ends s)
          (λ t. append_file-Ends d t)
    go false = tt

pub append-Ends : (d : Bytes) (s : DataStore) → Ends (append d s)
unfolding append
append-Ends [] s = tt
append-Ends (x ∷ xs) s = append_in-Ends s.mode (x ∷ xs) s
