-- ===== src/DataStore/FileAppends.antt =====
-- append_file against the bytes of the file, whatever the kernel replies.
use left_hook_roll.DataStore.Contents.{IsStored-file, contents_in, Shape, IsStored, contents}
use mathlib.Core.Path.{subst}
use left_hook_roll.DataStore.Files.{append_file, write_all, add_size}
use left_hook_roll.DataStore.Kernel.{DataStore, ram, file_mode}
use left_hook_roll.DataStore.Switch.{Kept}
use left_hook_roll.DataStore.Writes.{Wrote, write_all-Wrote}
use left_hook_roll.Prelude.Result.{Result, ok, threw, runtime_error}
use left_hook_roll.Prelude.{
  take-length-append, length-append, sym, ap, ◌∙◌, ◌^◌, ◌<◌, take, ◌+◌, ◌++◌, length, none, ◌≡◌,
  ◌≢◌, [], arith,
}
use left_hook_roll.Text.{Bytes}

pub contents-file : (s : DataStore) → s.mode ≡ file_mode → contents s ≡ s.file_contents
contents-file s m = ap (λ md. contents_in md s) m

pub contents-ram : (s : DataStore) → s.mode ≡ ram → contents s ≡ s.data_buffer
contents-ram s m = ap (λ md. contents_in md s) m

-- `append_file`, started at a file that holds `old`, all of which the size counts.
abbrev pub FileAppended : Bytes → Bytes → DataStore → Result DataStore (Unit {0}) → Type 0
FileAppended old d s (ok a s') =
    (contents s' ≡ old ++ d)
    × IsStored s'
    × (s'.read_offset ≡ s.read_offset)
    × (s'.buffer_limit ≡ s.buffer_limit)
    × (s'.mode ≡ file_mode)
FileAppended old d s (threw e s') =
    (e ≡ runtime_error)
    × (s'.current_size ≡ s.current_size)
    × (take s.current_size (contents s') ≡ old)
    × (s'.read_offset ≡ s.read_offset)
    × Shape s'.mode s'

module _ (d : Bytes) (s : DataStore) (m : s.mode ≡ file_mode) (b : s.data_buffer ≡ [])
    (o : s.fd ≢ none) where
  FileAppended-of-Wrote :
      (r : Result DataStore (Unit {0}))
      → s.current_size ≡ length s.file_contents
      → length s.file_contents + length d < 2 ^ 64
      → Wrote d s r
      → FileAppended s.file_contents d s (elim r [
        | ok a s' ↦ ok tt (record s' { current_size = add_size s'.current_size (length d) })
        | threw e s' ↦ threw e s'
      ])
  FileAppended-of-Wrote (ok a s') z small (c, same) =
      let t : DataStore = record s' { current_size = add_size s'.current_size (length d) } in
      let tm : t.mode ≡ file_mode = same.mode_is ∙ m in
      let size : t.current_size ≡ length t.file_contents =
        omega (arith, ap length c, length-append s.file_contents d, same.size_is) in
      (
        contents-file t tm ∙ c,
        IsStored-file t tm size (same.buffer_is ∙ b) (same.still_open o),
        same.offset_is,
        same.limit_is,
        tm,
      )
  FileAppended-of-Wrote (threw e s') z small (x, (k, lt, c), same) =
      let sm : s'.mode ≡ file_mode = same.mode_is ∙ m in
      (
        x,
        same.size_is,
        rw z (
            ap (take (length s.file_contents)) (contents-file s' sm ∙ c)
            ∙ take-length-append s.file_contents (take k d)),
        same.offset_is,
        subst (λ md. Shape md s') (sym sm) (same.buffer_is ∙ b, same.still_open o),
      )

  pub append_file-FileAppended :
      s.current_size ≡ length s.file_contents
      → length s.file_contents + length d < 2 ^ 64
      → FileAppended s.file_contents d s (append_file d s)
  unfolding append_file
  append_file-FileAppended z small =
      FileAppended-of-Wrote (write_all d s) z small (write_all-Wrote d s)

pub FileAppended-of-Kept :
    (old d : Bytes) (s t : DataStore) (r : Result DataStore (Unit {0}))
    → Kept s t
    → FileAppended old d t r
    → FileAppended old d s r
FileAppended-of-Kept old d s t (ok a u) k (c, v, o, l, m) =
    (c, v, o ∙ k.offset_is, l ∙ k.limit_is, m)
FileAppended-of-Kept old d s t (threw e u) k (x, z, c, o, h) =
    (x, z ∙ k.size_is, subst (λ n. take n (contents u) ≡ old) k.size_is c, o ∙ k.offset_is, h)
