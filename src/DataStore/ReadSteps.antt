-- ===== src/DataStore/ReadSteps.antt =====
-- The parts of read against the contents of the store.
use mathlib.Core.Path.{subst}
use left_hook_roll.DataStore.FileAppends.{contents-file, contents-ram}
use left_hook_roll.DataStore.Contents.{Shape, IsStored, contents}
use left_hook_roll.DataStore.Files.{read_in}
use left_hook_roll.DataStore.Kernel.{BufferMode, ram, file_mode, DataStore, later}
use left_hook_roll.Prelude.Result.{Result, ok, threw}
use left_hook_roll.Prelude.{
  length-take, take-min, length-drop, ℕ, zero, suc, ◌+◌, ◌-◌, ◌≤◌, ◌<◌, ◌≡◌, refl, some, [], ◌∷◌,
  min, length, take, drop, arith, ap, sym, ◌∙◌,
}
use left_hook_roll.Text.{Bytes}
use left_hook_roll.DataStore.Readable.{
  same_contents, same-IsStored, Placed, IsReadable, Gives, read_loop-served,
}

module _ (n : ℕ) (s : DataStore) (h : IsReadable s) (w : 0 < n)
    (more : s.read_offset < length (contents s)) where
  unfoldable pub count : ℕ
  count = min n (s.current_size - s.read_offset)

  next_bytes :
      take count (drop s.read_offset (contents s)) ≡ take n (drop s.read_offset (contents s))
  unfolding count
  next_bytes =
      let size : s.current_size - s.read_offset ≡ length (drop s.read_offset (contents s)) =
        omega (arith, h.stored.size_ok, length-drop s.read_offset (contents s)) in
      ap (λ k. take (min n k) (drop s.read_offset (contents s))) size
      ∙ sym (take-min n (drop s.read_offset (contents s)))

  next_length : length (take n (drop s.read_offset (contents s))) ≡ count
  unfolding count
  next_length = omega (
    arith,
    h.stored.size_ok,
    length-take n (drop s.read_offset (contents s)),
    length-drop s.read_offset (contents s),
  )

  count_within : (0 < count) × (count ≤ length (contents s) - s.read_offset)
  unfolding count
  count_within = omega (arith, h.stored.size_ok)

  -- The store that a read of `count` bytes leaves.
  pub given :
      (t : DataStore) (x : Result DataStore Bytes) (bytes : Bytes)
      → x ≡ ok bytes t
      → bytes ≡ take count (drop s.read_offset (contents s))
      → t.read_offset ≡ s.read_offset + length bytes
      → contents t ≡ contents s
      → IsStored t
      → Placed t.mode t
      → t.replies ≡ []
      → Gives n s x
  unfolding count
  given t x bytes e b o c v p r =
      let bytes_is : bytes ≡ take n (drop s.read_offset (contents s)) = b ∙ next_bytes in
      record {
        bytes = bytes;
        store = t;
        returns = e;
        bytes_are = bytes_is;
        moved = o;
        contents_are = c;
        readable = record {
          stored = v;
          placed = p;
          within = omega (arith, o, ap length c, ap length bytes_is, next_length, h.stored.size_ok);
          serves = r;
        };
      }

  read_in-ram : s.mode ≡ ram → Gives n s (read_in ram count s)
  unfolding read_in
  read_in-ram m =
      given t _ bytes refl bytes_is (omega (arith, ap length (bytes_is ∙ next_bytes), next_length))
        (same_contents s t refl refl refl refl)
        (same-IsStored s t refl refl refl refl h.stored
          (subst (λ md. Shape md t) (sym m) (subst (λ md. Shape md s) m h.stored.shape_ok)))
        (subst (λ md. Placed md t) (sym m) tt) h.serves
    where
      t : DataStore
      t = record s { read_offset = s.read_offset + count }

      bytes : Bytes
      bytes = take count (drop s.read_offset s.data_buffer)

      bytes_is : bytes ≡ take count (drop s.read_offset (contents s))
      bytes_is = ap (λ c. take count (drop s.read_offset c)) (sym (contents-ram s m))

  read_in-file :
      s.mode ≡ file_mode → (c : ℕ) → count ≡ suc c → Gives n s (read_in file_mode (suc c) s)
  unfolding read_in
  read_in-file m c q =
      given t _ bytes returned bytes_is refl (same_contents s t refl refl refl refl)
        (same-IsStored s t refl refl refl refl h.stored (
          subst (λ md. Shape md t) (sym m)
            ((subst (λ md. Shape md s) m h.stored.shape_ok).0, (λ e. cc e))))
        (subst (λ md. Placed md t) (sym m) (ap some (omega (arith, length_is)))) (ap later h.serves)
    where
      bytes : Bytes
      bytes = take (suc c) (drop s.read_offset s.file_contents)

      t : DataStore
      t = record s {
        fd = some (s.read_offset + suc c);
        replies = later s.replies;
        read_offset = s.read_offset + length bytes;
      }

      bytes_is : bytes ≡ take count (drop s.read_offset (contents s))
      bytes_is =
          ap (λ f. take (suc c) (drop s.read_offset f)) (sym (contents-file s m))
          ∙ ap (λ k. take k (drop s.read_offset (contents s))) (sym q)

      length_is : length bytes ≡ suc c
      length_is = ap length (bytes_is ∙ next_bytes) ∙ next_length ∙ q

      at : s.fd ≡ some s.read_offset
      at = subst (λ md. Placed md s) m h.placed

      returned : read_in file_mode (suc c) s ≡ ok bytes t
      returned =
          ap
            (λ r. elim r as (λ x. Result DataStore Bytes) [
              | ok a u ↦ ok a (record u { read_offset = u.read_offset + length a })
              | threw e u ↦ threw e u
            ])
            (read_loop-served c c s.read_offset s at h.serves
              (omega (arith, count_within, q, ap length (contents-file s m))))

  pub read_in-Gives : Gives n s (read_in s.mode count s)
  read_in-Gives = by_mode s.mode refl
    where
      by_count : s.mode ≡ file_mode → (k : ℕ) → count ≡ k → Gives n s (read_in file_mode k s)
      by_count m zero q = absurd (omega (arith, count_within, q))
      by_count m (suc c) q = read_in-file m c q

      by_mode : (md : BufferMode) → s.mode ≡ md → Gives n s (read_in md count s)
      by_mode ram m = read_in-ram m
      by_mode file_mode m = by_count m count refl

pub nothing : (xs : Bytes) → length xs ≡ 0 → [] ≡ xs
nothing [] e = refl
nothing (x ∷ xs) e = absurd (omega arith)
