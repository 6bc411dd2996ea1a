-- ===== src/DataStore/Contents.antt =====
-- The byte string that a store stands for.
use mathlib.Core.Path.{subst}
use left_hook_roll.DataStore.Kernel.{DataStore, BufferMode, ram, file_mode}
use left_hook_roll.Prelude.{
  sym, ap, ◌∙◌, is_nil, ltb, ◌&&◌, true, not, false, ◌||◌, ◌+◌, if◌then◌else◌, Bool, length, none,
  ◌≡◌, ◌≢◌, [],
}
use left_hook_roll.Text.{Bytes}

-- The bytes that the store stands for.
abbrev pub contents_in : BufferMode → DataStore → Bytes
contents_in ram s = s.data_buffer
contents_in file_mode s = s.file_contents

abbrev pub contents : DataStore → Bytes
contents s = contents_in s.mode s

abbrev pub Shape : BufferMode → DataStore → Type 0
Shape ram s = (s.fd ≡ none) × (s.absolute_path ≡ [])
Shape file_mode s = (s.data_buffer ≡ []) × (s.fd ≢ none)

-- The size is that of the contents; in memory there is no file, and in a file the buffer is empty.
pub record IsStored (s : DataStore) : Type 0 where
  pub size_ok : s.current_size ≡ length (contents s)
  pub shape_ok : Shape s.mode s

abbrev pub is_file : BufferMode → Bool
is_file ram = false
is_file file_mode = true

-- An append leaves the store in a file if it was in one, or if the limit is passed.
abbrev pub mode_after : DataStore → Bytes → BufferMode
mode_after s d =
    if is_file s.mode || (not (is_nil d) && ltb s.buffer_limit (s.current_size + length d))
    then file_mode
    else ram

pub IsStored-file :
    (s : DataStore)
    → s.mode ≡ file_mode
    → s.current_size ≡ length s.file_contents
    → s.data_buffer ≡ []
    → s.fd ≢ none
    → IsStored s
IsStored-file s m z b o = record {
  size_ok = z ∙ ap (λ md. length (contents_in md s)) (sym m);
  shape_ok = subst (λ md. Shape md s) (sym m) (b, o);
}

pub IsStored-ram :
    (s : DataStore)
    → s.mode ≡ ram
    → s.current_size ≡ length s.data_buffer
    → s.fd ≡ none
    → s.absolute_path ≡ []
    → IsStored s
IsStored-ram s m z f p = record {
  size_ok = z ∙ ap (λ md. length (contents_in md s)) (sym m);
  shape_ok = subst (λ md. Shape md s) (sym m) (f, p);
}
