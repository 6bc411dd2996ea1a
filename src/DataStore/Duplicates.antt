-- ===== src/DataStore/Duplicates.antt =====
-- The copy constructor and the assignment when the kernel serves.
use mathlib.Core.Path.{subst}
use left_hook_roll.DataStore.FileAppends.{contents-file, contents-ram}
use left_hook_roll.DataStore.Contents.{IsStored, Shape, contents}
use left_hook_roll.DataStore.Copies.{assign, blank_copy, copy, copy_fd_contents, copy_in}
use left_hook_roll.DataStore.CopyLoop.{Copied, copy_fd_contents-Copied}
use left_hook_roll.DataStore.Files.{switch_to_file_mode}
use left_hook_roll.DataStore.Kernel.{BufferMode, ram, file_mode, DataStore}
use left_hook_roll.DataStore.Served.{Serves, switch_to_file_mode-Serves}
use left_hook_roll.DataStore.Switch.{Switched, switch_to_file_mode-Switched}
use left_hook_roll.Prelude.Result.{Result, ok, threw}
use left_hook_roll.Prelude.{
  take-all, ◌-◌, take, ◌≡◌, ◌≢◌, refl, Bool, true, false, none, [], ◌∷◌, ◌++◌, ltb, if◌then◌else◌,
  length, arith, ap, sym, ◌∙◌,
}
use left_hook_roll.Text.{Bytes}

-- A store that stands for the bytes that `other` stands for, in the same mode, with its reading
-- position at the start.
abbrev pub Duplicates : DataStore → Result DataStore (Unit {0}) → Type 0
Duplicates other (ok a t) =
    (contents t ≡ contents other)
    × IsStored t
    × (t.mode ≡ other.mode)
    × (t.read_offset ≡ 0)
    × (t.replies ≡ [])
Duplicates other (threw e t) = ⊥

nothing : (xs : Bytes) → length xs ≡ 0 → [] ≡ xs
nothing [] e = refl
nothing (x ∷ xs) e = absurd (omega arith)

module _ (other : DataStore) (v : IsStored other) where
  copy_in-ram : other.mode ≡ ram → Duplicates other (copy_in ram other [])
  unfolding copy_in
  copy_in-ram m = (
    sym (contents-ram other m),
    record { size_ok = v.size_ok ∙ ap length (contents-ram other m); shape_ok = (refl, refl) },
    sym m,
    refl,
    refl,
  )

  -- A store in a file that holds what the file of `other` holds.
  in_file :
      other.mode ≡ file_mode
      → (t : DataStore) → t.mode ≡ file_mode
      → t.data_buffer ≡ []
      → t.file_contents ≡ other.file_contents
      → t.fd ≢ none
      → t.current_size ≡ other.current_size
      → t.read_offset ≡ 0
      → t.replies ≡ []
      → Duplicates other (ok tt t)
  in_file m t tm b f o z p e =
      let c : contents t ≡ contents other = contents-file t tm ∙ f ∙ sym (contents-file other m) in
      (
        c,
        record {
          size_ok = z ∙ v.size_ok ∙ ap length (sym c);
          shape_ok = subst (λ md. Shape md t) (sym tm) (b, o);
        },
        tm ∙ sym m,
        p,
        e,
      )

  -- The file is open, and holds nothing yet.
  opened_copy :
      (m : other.mode ≡ file_mode) (u : DataStore)
      → u.mode ≡ file_mode
      → u.data_buffer ≡ []
      → u.file_contents ≡ []
      → u.fd ≢ none
      → u.current_size ≡ other.current_size
      → u.read_offset ≡ 0
      → u.replies ≡ []
      → Duplicates other (
          (if ltb 0 other.current_size
              then copy_fd_contents other.file_contents other.current_size
              else ok tt)
            u)
  opened_copy m u um b f o z p e = go (ltb 0 other.current_size) refl
    where
      size : other.current_size ≡ length other.file_contents
      size = v.size_ok ∙ ap length (contents-file other m)

      copied :
          (x : Result DataStore (Unit {0}))
          → Copied other.file_contents 0 (length other.file_contents) u x
          → Duplicates other x
      copied (ok a t) (c, so, r) =
          let whole : take (length other.file_contents - 0) other.file_contents
              ≡ other.file_contents =
            take-all (length other.file_contents - 0) other.file_contents (omega arith) in
          in_file m t (so.mode_is ∙ um) (so.buffer_is ∙ b)
            (c ∙ ap (λ g. g ++ take (length other.file_contents - 0) other.file_contents) f ∙ whole)
            (so.still_open o) (so.size_is ∙ z) (so.offset_is ∙ p) r
      copied (threw y t) h = absurd h

      go :
          (d : Bool)
          → ltb 0 other.current_size ≡ d
          → Duplicates other
              ((if d then copy_fd_contents other.file_contents other.current_size else ok tt) u)
      go true q =
          subst (λ n. Duplicates other (copy_fd_contents other.file_contents n u)) (sym size)
            (copied _ (copy_fd_contents-Copied other.file_contents u e))
      go false q =
          in_file m u um b (f ∙ nothing other.file_contents (ground (arith, q, size))) o z p e

  copy_in-file : other.mode ≡ file_mode → Duplicates other (copy_in file_mode other [])
  unfolding copy_in
  copy_in-file m =
      go (switch_to_file_mode start) (switch_to_file_mode-Switched start refl refl refl)
        (switch_to_file_mode-Serves start refl)
    where
      start : DataStore
      start = record (blank_copy other []) { current_size = other.current_size }

      go :
          (x : Result DataStore (Unit {0}))
          → Switched start x
          → Serves x
          → Duplicates other (elim x [
            | ok a u ↦
                (if ltb 0 other.current_size
                    then copy_fd_contents other.file_contents other.current_size
                    else ok tt)
                  u
            | threw y u ↦ threw y u
          ])
      go (ok a u) (um, b, f, o, k) h = opened_copy m u um b f o k.size_is k.offset_is h
      go (threw y u) w h = absurd h

  -- With every call of the new store served, the copy constructor returns a well-formed store that
  -- stands for the same bytes, in the same mode, with its reading position at the start.
  pub copy-Duplicates : Duplicates other (copy other [])
  unfolding copy
  copy-Duplicates = go other.mode refl
    where
      go : (md : BufferMode) → other.mode ≡ md → Duplicates other (copy_in md other [])
      go ram m = copy_in-ram m
      go file_mode m = copy_in-file m

-- The assignment of a well-formed store, every call being served: the target becomes a well-formed
-- store for the bytes of the source, in the source's mode, with its reading position at the start.
pub assign-Duplicates :
    (other s : DataStore) → IsStored other → s.replies ≡ [] → Duplicates other (assign other s)
unfolding assign
assign-Duplicates other s v e =
    subst
      (λ rs. Duplicates other (elim (copy other rs) as (λ x. Result DataStore (Unit {0})) [
        | ok a t ↦ ok tt t
        | threw x t ↦ threw x (record s { file_counter = t.file_counter; replies = t.replies })
      ]))
      (sym e) (go (copy other []) (copy-Duplicates other v))
  where
    go :
        (x : Result DataStore (Unit {0}))
        → Duplicates other x
        → Duplicates other (elim x [
          | ok a t ↦ ok tt t
          | threw y t ↦ threw y (record s { file_counter = t.file_counter; replies = t.replies })
        ])
    go (ok a t) h = h
    go (threw y t) h = absurd h
