-- ===== src/DataStore/Appends.antt =====
-- `append` against the byte string that a store stands for, whatever the kernel replies.
use left_hook_roll.DataStore.FileAppends.{
  append_file-FileAppended, FileAppended-of-Kept, contents-file, FileAppended, contents-ram,
}
use left_hook_roll.DataStore.Contents.{IsStored-ram, is_file, Shape, IsStored, mode_after, contents}
use mathlib.Core.Path.{subst}
use left_hook_roll.DataStore.Files.{append, append_in, append_file, switch_to_file_mode, add_size}
use left_hook_roll.DataStore.Kernel.{DataStore, BufferMode, ram, file_mode}
use left_hook_roll.DataStore.Switch.{Switched, switch_to_file_mode-Switched}
use left_hook_roll.Prelude.Result.{◌>>◌, Result, ok, threw, runtime_error}
use left_hook_roll.Prelude.{
  is_nil, append-nil, take-all, length-append, sym, ap, ◌∙◌, ltb, ◌^◌, true, ◌<◌, false, take, ◌||◌,
  ◌+◌, ◌++◌, if◌then◌else◌, Bool, length, none, ◌≡◌, refl, [], ◌∷◌, arith,
}
use left_hook_roll.Text.{Bytes}

-- The bytes were added at the end; or the call threw, and the bytes that the size counts are those
-- that were there.
abbrev pub Appended : Bytes → DataStore → Result DataStore (Unit {0}) → Type 0
Appended d s (ok a s') =
    (contents s' ≡ contents s ++ d)
    × IsStored s'
    × (s'.read_offset ≡ s.read_offset)
    × (s'.buffer_limit ≡ s.buffer_limit)
    × (s'.mode ≡ mode_after s d)
Appended d s (threw e s') =
    (e ≡ runtime_error)
    × (s'.current_size ≡ s.current_size)
    × (take s.current_size (contents s') ≡ contents s)
    × (s'.read_offset ≡ s.read_offset)
    × Shape s'.mode s'

Appended-of-File :
    (d : Bytes) (s : DataStore) (r : Result DataStore (Unit {0}))
    → mode_after s d ≡ file_mode
    → FileAppended (contents s) d s r
    → Appended d s r
Appended-of-File d s (ok a u) m (c, v, o, l, um) = (c, v, o, l, um ∙ sym m)
Appended-of-File d s (threw e u) m h = h

module _ (d : Bytes) (s : DataStore) (v : IsStored s)
    (small : length (contents s) + length d < 2 ^ 64) where
  append_in-file : s.mode ≡ file_mode → FileAppended s.file_contents d s (append_in file_mode d s)
  unfolding append_in
  append_in-file m =
      let (b, o) = subst (λ md. Shape md s) m v.shape_ok in
      let c = contents-file s m in
      append_file-FileAppended d s m b o (v.size_ok ∙ ap length c) (omega (arith, ap length c))

  -- The append behind a move to the file.
  Switched-append :
      (r : Result DataStore (Unit {0}))
      → s.mode ≡ ram
      → Switched s r
      → FileAppended s.data_buffer d s (elim r [ ok a t ↦ append_file d t | threw e t ↦ threw e t ])
  Switched-append (ok a t) m (tm, tb, tc, o, k) =
      let c = contents-ram s m in
      let z : t.current_size ≡ length t.file_contents =
        omega (arith, k.size_is, v.size_ok, ap length c, ap length tc) in
      FileAppended-of-Kept s.data_buffer d s t (append_file d t) k (
        subst (λ old. FileAppended old d t (append_file d t)) tc
          (append_file-FileAppended d t tm tb o z (omega (arith, ap length c, ap length tc))))
  Switched-append (threw e t) m (x, tm, tb, f, p, k) = (
    x,
    k.size_is,
    rw (v.size_ok ∙ ap length (contents-ram s m)) (
        ap (take (length s.data_buffer)) (contents-ram t tm ∙ tb)
        ∙ take-all (length s.data_buffer) s.data_buffer (omega arith)),
    k.offset_is,
    subst (λ md. Shape md t) (sym tm) (f, p),
  )

  append_in-ram : s.mode ≡ ram → is_nil d ≡ false → Appended d s (append_in ram d s)
  unfolding append_in
  append_in-ram m some_bytes = go (ltb s.buffer_limit (add_size s.current_size (length d))) refl
    where
      c : contents s ≡ s.data_buffer
      c = contents-ram s m

      shape : (s.fd ≡ none) × (s.absolute_path ≡ [])
      shape = subst (λ md. Shape md s) m v.shape_ok

      grown : DataStore
      grown = record s {
        data_buffer = s.data_buffer ++ d;
        current_size = add_size s.current_size (length d);
      }

      size : grown.current_size ≡ length (s.data_buffer ++ d)
      size = omega (arith, v.size_ok, ap length c, length-append s.data_buffer d)

      sum : add_size s.current_size (length d) ≡ s.current_size + length d
      sum = omega (arith, v.size_ok)

      go :
          (b : Bool)
          → ltb s.buffer_limit (add_size s.current_size (length d)) ≡ b
          → Appended d s (if b then (switch_to_file_mode >> append_file d) s else ok tt grown)
      go true over = Appended-of-File d s _ (rw (m, some_bytes, rw sum at over)) (
          subst (λ old. FileAppended old d s ((switch_to_file_mode >> append_file d) s)) (sym c)
            (Switched-append (switch_to_file_mode s) m
              (switch_to_file_mode-Switched s m shape.0 shape.1)))
      go false under = (
        contents-ram grown m ∙ ap (λ t. t ++ d) (sym c),
        IsStored-ram grown m size shape.0 shape.1,
        refl,
        refl,
        m ∙ sym (rw (m, some_bytes, rw sum at under)),
      )

-- On a store whose size is that of its contents, and whatever the kernel replies, an append ends.
-- Either it adds the bytes at the end of the contents, keeps the store well formed and the read
-- position, and leaves the store in a file exactly if it was in one or the limit is passed. Or it
-- throws a std::runtime_error, and the bytes that the size counts are those that were there. The
-- sizes are taken to fit 64 bits.
pub append-Appended :
    (d : Bytes) (s : DataStore)
    → IsStored s
    → length (contents s) + length d < 2 ^ 64
    → Appended d s (append d s)
unfolding append
append-Appended [] s v small = (sym (append-nil (contents s)), v, refl, refl, unchanged s.mode)
  where
    unchanged : (md : BufferMode) → md ≡ (if is_file md || false then file_mode else ram)
    unchanged ram = refl
    unchanged file_mode = refl
append-Appended (x ∷ xs) s v small = go s.mode refl
  where
    go : (md : BufferMode) → s.mode ≡ md → Appended (x ∷ xs) s (append_in md (x ∷ xs) s)
    go ram m = append_in-ram (x ∷ xs) s v small m refl
    go file_mode m = Appended-of-File (x ∷ xs) s _ (rw m) (
        subst (λ c. FileAppended c (x ∷ xs) s (append_in file_mode (x ∷ xs) s))
          (sym (contents-file s m)) (append_in-file (x ∷ xs) s v small m))
