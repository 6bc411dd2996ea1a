-- ===== src/DataStore/Served.antt =====
-- When the kernel serves every call in full, an append does not throw.
use mathlib.Core.Path.{subst}
use left_hook_roll.DataStore.Appends.{Appended, append-Appended}
use left_hook_roll.DataStore.Contents.{IsStored, contents}
use left_hook_roll.DataStore.Files.{
  answered, written, add_size, rethrow_closed, write_loop, write_all, open_loop, spill,
  switch_to_file_mode, switch_in, append, append_in, append_file,
}
use left_hook_roll.DataStore.Kernel.{later, ram, file_mode, Reply, BufferMode, DataStore, count_of}
use left_hook_roll.Prelude.Result.{◌>>◌, runtime_error, Result, ok, threw}
use left_hook_roll.Prelude.{
  drop-all, sym, ltb, drop, ◌^◌, ◌+◌, ◌++◌, true, false, none, some, zero, suc, Option, take,
  is_nil, if◌then◌else◌, Bool, ◌<◌, List, length, ℕ, ◌≡◌, refl, [], ◌∷◌, arith,
}
use left_hook_roll.Text.{Bytes}

abbrev pub Serves : {A : Type 0} → Result DataStore A → Type 0
Serves (ok a s) = s.replies ≡ []
Serves (threw e s) = ⊥

pub count_of-nil : (n : ℕ) (rs : List Reply) → rs ≡ [] → count_of n rs ≡ some n
unfolding count_of
count_of-nil n rs e = rw e

pub later-nil : (rs : List Reply) → rs ≡ [] → later rs ≡ []
later-nil rs e = rw e

write_loop-Serves :
    (fuel : ℕ) (d : Bytes) (s : DataStore)
    → s.replies ≡ []
    → length d < fuel
    → Serves (write_loop fuel d s)
unfolding write_loop
write_loop-Serves zero d s e h = absurd (omega arith)
write_loop-Serves (suc fuel) [] s e h = e
write_loop-Serves (suc zero) (d ∷ ds) s e h = absurd (omega arith)
write_loop-Serves (suc (suc fuel)) (d ∷ ds) s e h =
    go (count_of (suc (length ds)) s.replies) (count_of-nil (suc (length ds)) s.replies e)
  where
    t : ℕ → DataStore
    t k = written (take (suc k) (d ∷ ds)) s

    go :
        (o : Option ℕ)
        → o ≡ some (suc (length ds))
        → Serves (elim o [
          | none ↦ threw runtime_error (answered s)
          | some zero ↦ threw runtime_error (answered s)
          | some (suc k) ↦ write_loop (suc fuel) (drop k ds) (written (take (suc k) (d ∷ ds)) s)
        ])
    go none q = cc
    go (some zero) q = cc
    go (some (suc k)) q =
        subst (λ n. Serves (write_loop (suc fuel) (drop n ds) (t k))) (ground arith)
          (subst (λ b. Serves (write_loop (suc fuel) b (t k)))
            (sym (drop-all (length ds) ds (omega arith))) (later-nil s.replies e))

pub write_all-Serves : (d : Bytes) (s : DataStore) → s.replies ≡ [] → Serves (write_all d s)
unfolding write_all
write_all-Serves d s e = write_loop-Serves (suc (length d)) d s e (omega arith)

append_file-Serves : (d : Bytes) (s : DataStore) → s.replies ≡ [] → Serves (append_file d s)
unfolding append_file
append_file-Serves d s e = go (write_all d s) (write_all-Serves d s e)
  where
    go :
        (r : Result DataStore (Unit {0}))
        → Serves r
        → Serves (elim r [
          | ok a s' ↦ ok tt (record s' { current_size = add_size s'.current_size (length d) })
          | threw e s' ↦ threw e s'
        ])
    go (ok a s') h = h
    go (threw e s') h = absurd h

spill-Serves : (s : DataStore) → s.replies ≡ [] → Serves (spill s)
unfolding spill
spill-Serves s e = go (is_nil s.data_buffer)
  where
    closed : (r : Result DataStore (Unit {0})) → Serves r → Serves (rethrow_closed r)
    closed (ok a s') h = h
    closed (threw e s') h = h

    go : (b : Bool) → Serves (if b then ok tt s else rethrow_closed (write_all s.data_buffer s))
    go true = e
    go false = closed (write_all s.data_buffer s) (write_all-Serves s.data_buffer s e)

open_loop-Serves :
    (rs : List Reply) (s : DataStore) → rs ≡ [] → s.replies ≡ [] → Serves (open_loop rs s)
unfolding open_loop
open_loop-Serves [] s q e = later-nil s.replies e
open_loop-Serves (r ∷ rs) s q e = cc

-- A step, and a step behind it that serves wherever the first one ends.
Serves-then :
    (r : Result DataStore (Unit {0})) (k : DataStore → Result DataStore (Unit {0}))
    → Serves r
    → ((t : DataStore) → t.replies ≡ [] → Serves (k t))
    → Serves (elim r [ ok a t ↦ k t | threw e t ↦ threw e t ])
Serves-then (ok a t) k h f = f t h
Serves-then (threw e t) k h f = absurd h

switch_in-Serves : (md : BufferMode) (s : DataStore) → s.replies ≡ [] → Serves (switch_in md s)
unfolding switch_in
switch_in-Serves file_mode s e = e
switch_in-Serves ram s e =
    Serves-then (open_loop s.replies s) _ (open_loop-Serves s.replies s e e) (λ t h.
      Serves-then (spill t) (λ u. ok tt (record u { data_buffer = []; mode = file_mode }))
        (spill-Serves t h) (λ u h'. h'))

pub switch_to_file_mode-Serves : (s : DataStore) → s.replies ≡ [] → Serves (switch_to_file_mode s)
unfolding switch_to_file_mode
switch_to_file_mode-Serves s e = switch_in-Serves s.mode s e

append_in-Serves :
    (md : BufferMode) (d : Bytes) (s : DataStore) → s.replies ≡ [] → Serves (append_in md d s)
unfolding append_in
append_in-Serves file_mode d s e = append_file-Serves d s e
append_in-Serves ram d s e = go (ltb s.buffer_limit (add_size s.current_size (length d)))
  where
    grown : DataStore
    grown = record s {
      current_size = add_size s.current_size (length d);
      data_buffer = s.data_buffer ++ d;
    }

    go : (b : Bool) → Serves (if b then (switch_to_file_mode >> append_file d) s else ok tt grown)
    go true =
        Serves-then (switch_to_file_mode s) (append_file d) (switch_to_file_mode-Serves s e)
          (λ t h. append_file-Serves d t h)
    go false = e

append-Serves : (d : Bytes) (s : DataStore) → s.replies ≡ [] → Serves (append d s)
unfolding append
append-Serves [] s e = e
append-Serves (x ∷ xs) s e = append_in-Serves s.mode (x ∷ xs) s e

-- The outcome of an append that the kernel serves.
pub record Grown (d : Bytes) (s : DataStore) : Type 0 where
  pub store : DataStore
  pub returns : append d s ≡ ok tt store
  pub contents_are : contents store ≡ contents s ++ d
  pub stored : IsStored store
  pub serves : store.replies ≡ []
  pub limit_is : store.buffer_limit ≡ s.buffer_limit

-- With every call served, an append returns and adds the bytes.
pub append-Grown :
    (d : Bytes) (s : DataStore)
    → IsStored s
    → s.replies ≡ []
    → length (contents s) + length d < 2 ^ 64
    → Grown d s
append-Grown d s v e small =
    go (append d s) refl (append-Appended d s v small) (append-Serves d s e)
  where
    go : (r : Result DataStore (Unit {0})) → append d s ≡ r → Appended d s r → Serves r → Grown d s
    go (ok a t) q (c, w, o, l, m) h = record {
      store = t;
      returns = q;
      contents_are = c;
      stored = w;
      serves = h;
      limit_is = l;
    }
    go (threw x t) q a h = absurd h
