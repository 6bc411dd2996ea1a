-- ===== src/DataStore/Writes.antt =====
-- What a write to the temporary file does, whatever the kernel replies.
use left_hook_roll.DataStore.Files.{written, answered, write_loop, write_all}
use left_hook_roll.DataStore.Kernel.{DataStore, count_of, Reply, served, exists, refused}
use left_hook_roll.Prelude.Result.{Result, ok, threw, runtime_error}
use left_hook_roll.Prelude.{
  take-add, length-drop, ◌+◌, take-append-drop, ap, append_assoc, Option, take, append-nil, drop,
  sym, ◌<◌, some, none, ◌++◌, ◌∙◌, List, ◌≤◌, length, ℕ, zero, suc, ◌≡◌, ◌≢◌, refl, [], ◌∷◌, arith,
}
use left_hook_roll.Text.{Bytes}

count_of-le : (n : ℕ) (rs : List Reply) (c : ℕ) → count_of n rs ≡ some c → c ≤ n
unfolding count_of
count_of-le n [] c e = ground arith
count_of-le n (served k ∷ rs) c e = ground arith
count_of-le n (exists ∷ rs) c e = cc
count_of-le n (refused ∷ rs) c e = cc

-- All but the file and the kernel is as it was, and an open file stays open.
pub record SameObject (s s' : DataStore) : Type 0 where
  pub mode_is : s'.mode ≡ s.mode
  pub limit_is : s'.buffer_limit ≡ s.buffer_limit
  pub size_is : s'.current_size ≡ s.current_size
  pub offset_is : s'.read_offset ≡ s.read_offset
  pub buffer_is : s'.data_buffer ≡ s.data_buffer
  pub path_is : s'.absolute_path ≡ s.absolute_path
  pub still_open : s.fd ≢ none → s'.fd ≢ none

pub SameObject-refl : (s : DataStore) → SameObject s s
SameObject-refl s = record {
  mode_is = refl;
  limit_is = refl;
  size_is = refl;
  offset_is = refl;
  buffer_is = refl;
  path_is = refl;
  still_open = λ h. h;
}

pub SameObject-trans : (s t u : DataStore) → SameObject s t → SameObject t u → SameObject s u
SameObject-trans s t u h k = record {
  mode_is = k.mode_is ∙ h.mode_is;
  limit_is = k.limit_is ∙ h.limit_is;
  size_is = k.size_is ∙ h.size_is;
  offset_is = k.offset_is ∙ h.offset_is;
  buffer_is = k.buffer_is ∙ h.buffer_is;
  path_is = k.path_is ∙ h.path_is;
  still_open = λ o. k.still_open (h.still_open o);
}

-- The bytes were appended to the file, or the call threw after a proper prefix of them.
abbrev pub Wrote : Bytes → DataStore → Result DataStore (Unit {0}) → Type 0
Wrote d s (ok a s') = (s'.file_contents ≡ s.file_contents ++ d) × SameObject s s'
Wrote d s (threw e s') =
    (e ≡ runtime_error)
    × ((k : ℕ) × (k < length d) × (s'.file_contents ≡ s.file_contents ++ take k d))
    × SameObject s s'

Wrote-none :
    (d : ℕ) (ds : Bytes) (s : DataStore) → Wrote (d ∷ ds) s (threw runtime_error (answered s))
Wrote-none d ds s = (
  refl,
  (0, omega arith, sym (append-nil s.file_contents)),
  record {
    mode_is = refl;
    limit_is = refl;
    size_is = refl;
    offset_is = refl;
    buffer_is = refl;
    path_is = refl;
    still_open = λ h. h;
  },
)

written-SameObject : (d : Bytes) (s : DataStore) → SameObject s (written d s)
written-SameObject d s = record {
  mode_is = refl;
  limit_is = refl;
  size_is = refl;
  offset_is = refl;
  buffer_is = refl;
  path_is = refl;
  still_open = λ h. cc;
}

-- A round that wrote `suc k` bytes, and then the rest of the loop.
Wrote-more :
    (k : ℕ) (d : ℕ) (ds : Bytes) (s : DataStore) (r : Result DataStore (Unit {0}))
    → k ≤ length ds
    → Wrote (drop k ds) (written (take (suc k) (d ∷ ds)) s) r
    → Wrote (d ∷ ds) s r
Wrote-more k d ds s (ok a s') h (e, same) = (
  e
      ∙ append_assoc s.file_contents (d ∷ take k ds) (drop k ds)
      ∙ ap (λ t. s.file_contents ++ (d ∷ t)) (take-append-drop k ds),
  SameObject-trans s _ s' (written-SameObject (d ∷ take k ds) s) same,
)
Wrote-more k d ds s (threw x s') h (e, (j, lt, c), same) = (
  e,
  (
    suc (k + j),
    omega (arith, length-drop k ds, lt),
    c
        ∙ append_assoc s.file_contents (d ∷ take k ds) (take j (drop k ds))
        ∙ ap (λ t. s.file_contents ++ (d ∷ t)) (take-add k j ds),
  ),
  SameObject-trans s _ s' (written-SameObject (d ∷ take k ds) s) same,
)

write_loop-Wrote :
    (fuel : ℕ) (d : Bytes) (s : DataStore) → length d < fuel → Wrote d s (write_loop fuel d s)
unfolding write_loop
write_loop-Wrote zero d s h = absurd (omega arith)
write_loop-Wrote (suc fuel) [] s h = (sym (append-nil s.file_contents), SameObject-refl s)
write_loop-Wrote (suc fuel) (d ∷ ds) s h =
    go
      (λ k.
        write_loop-Wrote fuel (drop k ds) (written (take (suc k) (d ∷ ds)) s)
          (omega (arith, length-drop k ds)))
      (count_of (suc (length ds)) s.replies) (count_of-le (suc (length ds)) s.replies)
  where
    go :
        ((k : ℕ)
          → Wrote
              (drop k ds)
              (written (take (suc k) (d ∷ ds)) s)
              (write_loop fuel (drop k ds) (written (take (suc k) (d ∷ ds)) s)))
        → (o : Option ℕ) → ((c : ℕ) → o ≡ some c → c ≤ suc (length ds))
        → Wrote (d ∷ ds) s (elim o [
          | none ↦ threw runtime_error (answered s)
          | some zero ↦ threw runtime_error (answered s)
          | some (suc k) ↦ write_loop fuel (drop k ds) (written (take (suc k) (d ∷ ds)) s)
        ])
    go rest none le = Wrote-none d ds s
    go rest (some zero) le = Wrote-none d ds s
    go rest (some (suc k)) le =
        Wrote-more k d ds s _ (let b : suc k ≤ suc (length ds) = le (suc k) refl in omega arith)
          (rest k)

pub write_all-Wrote : (d : Bytes) (s : DataStore) → Wrote d s (write_all d s)
unfolding write_all
write_all-Wrote d s = write_loop-Wrote (suc (length d)) d s (omega arith)
