-- ===== src/DataStore/Readable.antt =====
-- Stores that can be read from, and the loop of `read` when every call is served.
use left_hook_roll.DataStore.Served.{count_of-nil}
use mathlib.Core.Path.{subst}
use left_hook_roll.DataStore.Contents.{contents_in, Shape, IsStored, contents}
use left_hook_roll.DataStore.Files.{answered, at_position, read_loop}
use left_hook_roll.DataStore.Kernel.{BufferMode, ram, file_mode, DataStore, count_of, later}
use left_hook_roll.Prelude.Result.{Result, ok, threw, runtime_error}
use left_hook_roll.Prelude.{
  length-drop, ℕ, zero, suc, ◌+◌, ◌-◌, ◌≤◌, ◌<◌, ◌≡◌, Option, none, some, [], min, length, take,
  drop, arith, ap, sym, ◌∙◌,
}
use left_hook_roll.Text.{Bytes}

-- In a file, the descriptor stands at the read offset.
abbrev pub Placed : BufferMode → DataStore → Type 0
Placed ram s = Unit
Placed file_mode s = s.fd ≡ some s.read_offset

-- A well-formed store of which the reader has read `read_offset` bytes.
pub record IsReadable (s : DataStore) : Type 0 where
  pub stored : IsStored s
  pub placed : Placed s.mode s
  pub within : s.read_offset ≤ length (contents s)
  pub serves : s.replies ≡ []

-- A read returns the next bytes of the contents, at most `n`, and none only at their end.
pub record Gives (n : ℕ) (s : DataStore) (x : Result DataStore Bytes) : Type 0 where
  pub bytes : Bytes
  pub store : DataStore
  pub returns : x ≡ ok bytes store
  pub bytes_are : bytes ≡ take n (drop s.read_offset (contents s))
  pub moved : store.read_offset ≡ s.read_offset + length bytes
  pub contents_are : contents store ≡ contents s
  pub readable : IsReadable store

-- The loop at position `p`: with every call served, one round reads all that is wanted.
pub read_loop-served :
    (fuel want p : ℕ) (s : DataStore)
    → s.fd ≡ some p
    → s.replies ≡ []
    → want < length s.file_contents - p
    → read_loop (suc (suc fuel)) (suc want) [] s
      ≡ ok
          (take (suc want) (drop p s.file_contents))
          (record s { fd = some (p + suc want); replies = later s.replies })
unfolding read_loop
read_loop-served fuel want p s f e h = at_fd s.fd f
  where
    t : ℕ → DataStore
    t k = record s { fd = some (p + suc k); replies = later s.replies }

    result : Result DataStore Bytes
    result = ok (take (suc want) (drop p s.file_contents)) (t want)

    all : min (suc want) (length (at_position p s)) ≡ suc want
    all = omega (arith, length-drop p s.file_contents)

    at_count :
        (c : Option ℕ)
        → c ≡ some (suc want)
        → elim c as (λ x. Result DataStore Bytes) [
          | none ↦ threw runtime_error (answered s)
          | some zero ↦ ok [] (answered s)
          | some (suc k) ↦ read_loop (suc fuel) (want - k) (take (suc k) (at_position p s)) (t k)
        ]
          ≡ result
    at_count none q = absurd (cc q)
    at_count (some zero) q = absurd (cc q)
    at_count (some (suc k)) q =
        let k_is : k ≡ want = ground arith in
        subst (λ k. read_loop (suc fuel) (want - k) (take (suc k) (at_position p s)) (t k) ≡ result)
          (sym k_is) (let z : want - want ≡ 0 = omega arith in rw z)

    at_fd :
        (o : Option ℕ)
        → o ≡ some p
        → elim o as (λ x. Result DataStore Bytes) [
          | none ↦ threw runtime_error s
          | some p ↦ elim (count_of (min (suc want) (length (at_position p s))) s.replies) [
            | none ↦ threw runtime_error (answered s)
            | some zero ↦ ok [] (answered s)
            | some (suc k) ↦
                read_loop
                  (suc fuel)
                  (want - k)
                  (take (suc k) (at_position p s))
                  (record s { fd = some (p + suc k); replies = later s.replies })
          ]
        ]
          ≡ result
    at_fd none q = absurd (cc q)
    at_fd (some o) q =
        let o_is : o ≡ p = ground arith in
        subst
          (λ o.
            elim (count_of (min (suc want) (length (at_position o s))) s.replies)
              as (λ x. Result DataStore Bytes) [
                | none ↦ threw runtime_error (answered s)
                | some zero ↦ ok [] (answered s)
                | some (suc k) ↦
                    read_loop (suc fuel) (want - k) (take (suc k) (at_position o s))
                      (record s { fd = some (o + suc k); replies = later s.replies })
              ]
            ≡ result)
          (sym o_is)
          (at_count (count_of (min (suc want) (length (at_position p s))) s.replies)
            (count_of-nil (min (suc want) (length (at_position p s))) s.replies e ∙ ap some all))

-- A store with the fields of `s`, but for its position.
module _ (s t : DataStore) (mode_is : t.mode ≡ s.mode) (buffer_is : t.data_buffer ≡ s.data_buffer)
    (file_is : t.file_contents ≡ s.file_contents) (size_is : t.current_size ≡ s.current_size) where
  pub same_contents : contents t ≡ contents s
  same_contents = ap (λ md. contents_in md t) mode_is ∙ go s.mode
    where
      go : (md : BufferMode) → contents_in md t ≡ contents_in md s
      go ram = buffer_is
      go file_mode = file_is

  pub same-IsStored : IsStored s → Shape s.mode t → IsStored t
  same-IsStored v p = record {
    size_ok = size_is ∙ v.size_ok ∙ ap length (sym same_contents);
    shape_ok = subst (λ md. Shape md t) (sym mode_is) p;
  }
