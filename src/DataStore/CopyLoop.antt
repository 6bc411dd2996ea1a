-- ===== src/DataStore/CopyLoop.antt =====
-- `copy_fd_contents` when the kernel serves.
use left_hook_roll.DataStore.Copies.{copy_loop, copy_fd_contents}
use left_hook_roll.DataStore.Files.{answered, write_all}
use left_hook_roll.DataStore.Kernel.{DataStore, count_of}
use left_hook_roll.DataStore.Served.{Serves, count_of-nil, later-nil, write_all-Serves}
use left_hook_roll.DataStore.Writes.{
  SameObject, SameObject-refl, SameObject-trans, Wrote, write_all-Wrote,
}
use left_hook_roll.Prelude.Result.{Result, ok, threw, runtime_error, ◌>>◌}
use left_hook_roll.Prelude.{
  ℕ, zero, suc, ◌+◌, ◌-◌, ◌<◌, ◌≤◌, ◌≡◌, refl, Bool, true, false, Option, none, some, [], ◌++◌, min,
  ltb, length, take, drop, arith, ap, sym, ◌∙◌, append-nil, append_assoc, drop-add, take-add,
}
use left_hook_roll.Text.{Bytes}

-- The bytes of `src` from `off` to `total` have been appended to the file.
abbrev pub Copied : Bytes → ℕ → ℕ → DataStore → Result DataStore (Unit {0}) → Type 0
Copied src off total s (ok a t) =
    (t.file_contents ≡ s.file_contents ++ take (total - off) (drop off src))
    × SameObject s t
    × (t.replies ≡ [])
Copied src off total s (threw e t) = ⊥

answered-SameObject : (s : DataStore) → SameObject s (answered s)
answered-SameObject s = record {
  mode_is = refl;
  limit_is = refl;
  size_is = refl;
  offset_is = refl;
  buffer_is = refl;
  path_is = refl;
  still_open = λ h. h;
}

-- A piece, and the rest.
Copied-piece :
    (src : Bytes) (off k total : ℕ) (s t : DataStore) (x : Result DataStore (Unit {0}))
    → off + k ≤ total
    → t.file_contents ≡ s.file_contents ++ take k (drop off src)
    → SameObject s t
    → Copied src (off + k) total t x
    → Copied src off total s x
Copied-piece src off k total s t (threw e u) le c o h = h
Copied-piece src off k total s t (ok a u) le c o (d, p, r) = (
  d
      ∙ ap (λ f. f ++ take (total - (off + k)) (drop (off + k) src)) c
      ∙ append_assoc s.file_contents (take k (drop off src))
          (take (total - (off + k)) (drop (off + k) src))
      ∙ ap (λ f. s.file_contents ++ f)
          (ap (λ y. take k (drop off src) ++ take (total - (off + k)) y) (sym (drop-add off k src))
            ∙ take-add k (total - (off + k)) (drop off src)
            ∙ ap (λ n. take n (drop off src)) (omega arith)),
  SameObject-trans s t u o p,
  r,
)

copy_loop-Copied :
    (fuel : ℕ) (src : Bytes) (off total : ℕ) (s : DataStore)
    → s.replies ≡ []
    → total - off < fuel
    → off ≤ total
    → total ≤ length src
    → Copied src off total s (copy_loop fuel src off total s)
unfolding copy_loop
copy_loop-Copied zero src off total s e l b m = absurd (omega arith)
copy_loop-Copied (suc fuel) src off total s e l b m =
    go (ltb off total) refl
      (λ k t r h. copy_loop-Copied fuel src (off + suc k) total t r (omega arith) h m)
  where
    goal : Result DataStore (Unit {0}) → Type 0
    goal x = Copied src off total s x

    Later : Type 0
    Later =
        (k : ℕ) (t : DataStore)
        → t.replies ≡ []
        → off + suc k ≤ total
        → Copied src (off + suc k) total t (copy_loop fuel src (off + suc k) total t)

    piece : ℕ → Bytes
    piece k = take (suc k) (drop off src)

    written_piece :
        (k : ℕ) (x : Result DataStore (Unit {0}))
        → off + suc k ≤ total
        → Wrote (piece k) (answered s) x
        → Serves x
        → Later
        → Copied src off total s
            (elim x [ ok a t ↦ copy_loop fuel src (off + suc k) total t | threw y t ↦ threw y t ])
    written_piece k (ok a t) le (c, o) v ih =
        Copied-piece src off (suc k) total s t _ le c
          (SameObject-trans s (answered s) t (answered-SameObject s) o) (ih k t v le)
    written_piece k (threw y t) le w v ih = absurd v

    counted :
        (o : Option ℕ)
        → off < total
        → o ≡ some (min (min 8192 (total - off)) (length src - off))
        → Later
        → Copied src off total s (elim o [
          | none ↦ threw runtime_error (answered s)
          | some zero ↦ threw runtime_error (answered s)
          | some (suc k) ↦
              (write_all (piece k) >> copy_loop fuel src (off + suc k) total) (answered s)
        ])
    counted none lt q ih = absurd (cc q)
    counted (some zero) lt q ih =
        let z : 0 ≡ min (min 8192 (total - off)) (length src - off) = ground arith in
        absurd (omega arith)
    counted (some (suc k)) lt q ih =
        let z : suc k ≡ min (min 8192 (total - off)) (length src - off) = ground arith in
        written_piece k (write_all (piece k) (answered s)) (omega arith)
          (write_all-Wrote (piece k) (answered s))
          (write_all-Serves (piece k) (answered s) (later-nil s.replies e)) ih

    go :
        (b : Bool)
        → ltb off total ≡ b
        → Later
        → Copied src off total s (elim b [
          | false ↦ ok tt s
          | true ↦ elim (count_of (min (min 8192 (total - off)) (length src - off)) s.replies) [
            | none ↦ threw runtime_error (answered s)
            | some zero ↦ threw runtime_error (answered s)
            | some (suc k) ↦
                (write_all (piece k) >> copy_loop fuel src (off + suc k) total) (answered s)
          ]
        ])
    go false q ih =
        let z : total - off ≡ 0 = ground (arith, q) in
        (
          sym (append-nil s.file_contents)
              ∙ ap (λ n. s.file_contents ++ take n (drop off src)) (sym z),
          SameObject-refl s,
          e,
        )
    go true q ih =
        counted _ (ground (arith, q))
          (count_of-nil (min (min 8192 (total - off)) (length src - off)) s.replies e) ih

pub copy_fd_contents-Copied :
    (src : Bytes) (s : DataStore)
    → s.replies ≡ []
    → Copied src 0 (length src) s (copy_fd_contents src (length src) s)
unfolding copy_fd_contents
copy_fd_contents-Copied src s e = go (count_of 1 s.replies) (count_of-nil 1 s.replies e)
  where
    looped :
        Copied src 0
          (length src)
          (answered s)
          (copy_loop (suc (length src)) src 0 (length src) (answered s))
    looped =
        copy_loop-Copied (suc (length src)) src 0 (length src) (answered s) (later-nil s.replies e)
          (omega arith) (omega arith) (omega arith)

    started :
        (x : Result DataStore (Unit {0}))
        → Copied src 0 (length src) (answered s) x
        → Copied src 0 (length src) s x
    started (ok a t) (c, o, r) = (c, SameObject-trans s (answered s) t (answered-SameObject s) o, r)
    started (threw y t) h = h

    go :
        (o : Option ℕ)
        → o ≡ some 1
        → Copied src 0 (length src) s (elim o [
          | none ↦ threw runtime_error (answered s)
          | some k ↦ copy_loop (suc (length src)) src 0 (length src) (answered s)
        ])
    go none q = absurd (cc q)
    go (some k) q = started _ looped
