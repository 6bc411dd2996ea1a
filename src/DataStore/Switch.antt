-- ===== src/DataStore/Switch.antt =====
-- The move of a store to its temporary file, whatever the kernel replies.
use mathlib.Core.Path.{subst}
use left_hook_roll.DataStore.Files.{
  switch_in, write_all, rethrow_closed, open_loop, generate_temp_file, spill, switch_to_file_mode,
}
use left_hook_roll.DataStore.Kernel.{DataStore, Reply, served, exists, refused, ram, file_mode}
use left_hook_roll.DataStore.Writes.{Wrote, write_all-Wrote}
use left_hook_roll.Prelude.Result.{◌>>◌, Result, ok, threw, runtime_error}
use left_hook_roll.Prelude.{
  false, sym, if◌then◌else◌, true, Bool, is_nil, ◌∙◌, suc, none, List, some, ◌≡◌, ◌≢◌, refl, [],
  ◌∷◌, arith,
}
use left_hook_roll.Text.{Bytes}

-- What the move leaves as it was.
pub record Kept (s s' : DataStore) : Type 0 where
  pub limit_is : s'.buffer_limit ≡ s.buffer_limit
  pub size_is : s'.current_size ≡ s.current_size
  pub offset_is : s'.read_offset ≡ s.read_offset

-- The step that opens the file.
abbrev Opened : DataStore → Result DataStore (Unit {0}) → Type 0
Opened s (ok a s') =
    (s'.file_contents ≡ [])
    × (s'.fd ≡ some 0)
    × (s'.mode ≡ s.mode)
    × (s'.data_buffer ≡ s.data_buffer)
    × Kept s s'
Opened s (threw e s') =
    (e ≡ runtime_error)
    × (s'.mode ≡ s.mode)
    × (s'.fd ≡ s.fd)
    × (s'.absolute_path ≡ s.absolute_path)
    × (s'.data_buffer ≡ s.data_buffer)
    × Kept s s'

Opened-exists :
    (rs : List Reply) (s : DataStore) (r : Result DataStore (Unit {0}))
    → Opened (record s { file_counter = suc s.file_counter; replies = rs }) r
    → Opened s r
Opened-exists rs s (ok a s') h = ground arith
Opened-exists rs s (threw e s') h = ground arith

open_loop-Opened : (rs : List Reply) (s : DataStore) → Opened s (open_loop rs s)
unfolding open_loop
open_loop-Opened [] s = ground arith
open_loop-Opened (served k ∷ rs) s = ground arith
open_loop-Opened (exists ∷ rs) s =
    Opened-exists rs s _
      (open_loop-Opened rs (record s { file_counter = suc s.file_counter; replies = rs }))
open_loop-Opened (refused ∷ rs) s = ground arith

-- The move from memory: the file holds what the buffer held and the buffer is empty, or the call
-- threw and the store is in memory as before, with no descriptor and no path.
abbrev pub Switched : DataStore → Result DataStore (Unit {0}) → Type 0
Switched s (ok a s') =
    (s'.mode ≡ file_mode)
    × (s'.data_buffer ≡ [])
    × (s'.file_contents ≡ s.data_buffer)
    × (s'.fd ≢ none)
    × Kept s s'
Switched s (threw e s') =
    (e ≡ runtime_error)
    × (s'.mode ≡ ram)
    × (s'.data_buffer ≡ s.data_buffer)
    × (s'.fd ≡ none)
    × (s'.absolute_path ≡ [])
    × Kept s s'

-- `spill` on a file that was just opened.
abbrev Spilt : DataStore → Result DataStore (Unit {0}) → Type 0
Spilt s (ok a s') = (s'.file_contents ≡ s.data_buffer) × (s'.fd ≢ none) × Kept s s'
Spilt s (threw e s') =
    (e ≡ runtime_error)
    × (s'.mode ≡ s.mode)
    × (s'.data_buffer ≡ s.data_buffer)
    × (s'.fd ≡ none)
    × (s'.absolute_path ≡ [])
    × Kept s s'

Spilt-of-Wrote :
    (s : DataStore) (r : Result DataStore (Unit {0}))
    → s.file_contents ≡ []
    → s.fd ≢ none
    → Wrote s.data_buffer s r
    → Spilt s (rethrow_closed r)
Spilt-of-Wrote s (ok a s') empty is_open (e, same) = (
  ground arith,
  same.still_open is_open,
  record { limit_is = same.limit_is; size_is = same.size_is; offset_is = same.offset_is },
)
Spilt-of-Wrote s (threw x s') empty is_open (e, _, same) = (
  e,
  same.mode_is,
  same.buffer_is,
  refl,
  refl,
  record { limit_is = same.limit_is; size_is = same.size_is; offset_is = same.offset_is },
)

is_nil→nil : (b : Bytes) → is_nil b ≡ true → b ≡ []
is_nil→nil [] h = refl
is_nil→nil (c ∷ cs) h = cc

spill-Spilt : (s : DataStore) → s.file_contents ≡ [] → s.fd ≢ none → Spilt s (spill s)
unfolding spill
spill-Spilt s empty is_open = go (is_nil s.data_buffer) refl
  where
    go :
        (b : Bool)
        → is_nil s.data_buffer ≡ b
        → Spilt s (if b then ok tt s else rethrow_closed (write_all s.data_buffer s))
    go true nil = (
      empty ∙ sym (is_nil→nil s.data_buffer nil),
      is_open,
      record { limit_is = refl; size_is = refl; offset_is = refl },
    )
    go false _ =
        Spilt-of-Wrote s (write_all s.data_buffer s) empty is_open (write_all-Wrote s.data_buffer s)

Kept-trans : (s t u : DataStore) → Kept s t → Kept t u → Kept s u
Kept-trans s t u h k = record {
  limit_is = k.limit_is ∙ h.limit_is;
  size_is = k.size_is ∙ h.size_is;
  offset_is = k.offset_is ∙ h.offset_is;
}

module _ (s : DataStore) (m : s.mode ≡ ram) (closed : s.fd ≡ none)
    (path : s.absolute_path ≡ []) where
  Switched-Spilt :
      (t : DataStore) (r : Result DataStore (Unit {0}))
      → t.mode ≡ ram
      → t.data_buffer ≡ s.data_buffer
      → Kept s t
      → Spilt t r
      → Switched s (elim r [
        | ok a u ↦ ok tt (record u { data_buffer = []; mode = file_mode })
        | threw e u ↦ threw e u
      ])
  Switched-Spilt t (ok a u) tm tb k (c, o, k') = (
    refl,
    refl,
    c ∙ tb,
    o,
    record {
      limit_is = k'.limit_is ∙ k.limit_is;
      size_is = k'.size_is ∙ k.size_is;
      offset_is = k'.offset_is ∙ k.offset_is;
    },
  )
  Switched-Spilt t (threw e u) tm tb k (x, um, b, f, p, k') =
      (x, um ∙ tm, b ∙ tb, f, p, Kept-trans s t u k k')

  Switched-Opened :
      (r : Result DataStore (Unit {0}))
      → Opened s r
      → Switched s (elim r [
        | ok a t ↦ (spill >> λ u. ok tt (record u { data_buffer = []; mode = file_mode })) t
        | threw e t ↦ threw e t
      ])
  Switched-Opened (ok a t) (c, f, tm, b, k) =
      Switched-Spilt t (spill t) (tm ∙ m) b k (spill-Spilt t c (λ h. cc))
  Switched-Opened (threw e t) (x, tm, f, p, b, k) = (x, tm ∙ m, b, f ∙ closed, p ∙ path, k)

  pub switch_to_file_mode-Switched : Switched s (switch_to_file_mode s)
  unfolding switch_to_file_mode
  switch_to_file_mode-Switched =
      subst (λ md. Switched s (switch_in md s)) (sym m)
        (unfold switch_in in
          unfold generate_temp_file in
          Switched-Opened (open_loop s.replies s) (open_loop-Opened s.replies s))
