-- ===== src/CgiManager/Paths.antt =====
-- The directory in which a script runs, and the name by which it is run there.
use mathlib.Core.Path.{subst}
use left_hook_roll.Text.Search.{Free}
use left_hook_roll.CgiManager.State.{
  resolve_script_directory, is_absolute, resolve_script_exec_arg, c_str,
}
use left_hook_roll.Text.{codes, rfind, Bytes}
use left_hook_roll.Prelude.{
  ◌∙◌, sym, ◌++◌, ◌+◌, add-one, ◌==◌, take, length-drop, [], Bool-cases, ◌⊎◌, suc, ◌∷◌,
  Option-cases, ap, arith, ◌≢◌, false, drop, ◌≤◌, none, true, some, length, ◌≡◌, ℕ, inl, inr,
}

rfind-Free : (c : ℕ) (s : Bytes) → rfind c s ≡ none → Free c s
unfolding rfind
rfind-Free c [] e = tt
rfind-Free c (x ∷ xs) e = elim (Option-cases (rfind c xs)) [
  | inl q ↦ (ground arith, rfind-Free c xs q)
  | inr (i, q) ↦ absurd (ground arith)
]

-- The last occurrence splits the text.
record LastHit (c : ℕ) (s : Bytes) (i : ℕ) : Type 0 where
  after_free : Free c (drop (suc i) s)
  splits : s ≡ take i s ++ (c ∷ drop (suc i) s)

rfind-LastHit : (c : ℕ) (s : Bytes) (i : ℕ) → rfind c s ≡ some i → LastHit c s i
unfolding rfind
rfind-LastHit c [] i e = cc
rfind-LastHit c (x ∷ xs) i e = elim (Option-cases (rfind c xs)) [
  | inl q ↦
      let z : 0 ≡ i = ground arith in
      let here : LastHit c (x ∷ xs) 0 = record {
        after_free = rfind-Free c xs q;
        splits = ap (λ y. y ∷ xs) (ground arith);
      } in
      subst (LastHit c (x ∷ xs)) z here
  | inr (j, q) ↦
      let z : suc j ≡ i = ground arith in
      let h = rfind-LastHit c xs j q in
      let there : LastHit c (x ∷ xs) (suc j) = record {
        after_free = h.after_free;
        splits = ap (◌∷◌ x) h.splits;
      } in
      subst (LastHit c (x ∷ xs)) z there
]

-- From `directory`, the name `arg` reaches the script at `path`: an absolute path is its own name;
-- any other is taken apart at its last slash, or kept if it has none.
abbrev pub Reaches : Bytes → Bytes → Bytes → Type 0
Reaches path directory arg =
    ((is_absolute path ≡ true) × (arg ≡ path))
    ⊎ (Free b'/' arg
        × (((directory ≡ codes ".") × (arg ≡ path)) ⊎ (path ≡ directory ++ (b'/' ∷ arg))))

length-c_str-le : (s : Bytes) → length (c_str s) ≤ length s
unfolding c_str
length-c_str-le [] = omega arith
length-c_str-le (c ∷ cs) = ground (arith, length-c_str-le cs)

-- A path that does not begin with a slash has its last slash behind the first byte.
relative-ne-zero : (path : Bytes) (i : ℕ) → is_absolute path ≡ false → LastHit b'/' path i → i ≢ 0
unfolding is_absolute
relative-ne-zero [] i e h z =
    let t : ◌≡◌ {A = Bytes} [] (take 0 [] ++ (b'/' ∷ drop 1 [])) =
      subst (λ k. ◌≡◌ {A = Bytes} [] (take k [] ++ (b'/' ∷ drop (suc k) []))) z h.splits in
    cc t
relative-ne-zero (c ∷ cs) i e h z =
    let t : ◌≡◌ {A = Bytes} (c ∷ cs) (b'/' ∷ cs) =
      subst (λ k. ◌≡◌ {A = Bytes} (c ∷ cs) (take k (c ∷ cs) ++ (b'/' ∷ drop (suc k) (c ∷ cs)))) z
        h.splits in
    ground (arith, t)

-- The branches of the two functions.
directory-none : (path : Bytes) → rfind b'/' path ≡ none → resolve_script_directory path ≡ codes "."
unfolding resolve_script_directory
directory-none path q = rw (q, resolve_script_directory)

directory-some :
    (path : Bytes) (i : ℕ)
    → rfind b'/' path ≡ some i
    → (i == 0) ≡ false
    → resolve_script_directory path ≡ take i path
unfolding resolve_script_directory
directory-some path i q z = rw (resolve_script_directory, q, z)

exec_arg-absolute : (path : Bytes) → is_absolute path ≡ true → resolve_script_exec_arg path ≡ path
unfolding resolve_script_exec_arg
exec_arg-absolute path e = rw e

exec_arg-none :
    (path : Bytes)
    → is_absolute path ≡ false
    → rfind b'/' path ≡ none
    → resolve_script_exec_arg path ≡ path
unfolding resolve_script_exec_arg
exec_arg-none path e q = rw (e, q)

exec_arg-some :
    (path : Bytes) (i : ℕ)
    → is_absolute path ≡ false
    → rfind b'/' path ≡ some i
    → resolve_script_exec_arg path ≡ drop (suc i) path
unfolding resolve_script_exec_arg
exec_arg-some path i e q = rw (e, q, add-one)

Reaches-relative :
    (path : Bytes)
    → is_absolute path ≡ false
    → Reaches path (resolve_script_directory path) (resolve_script_exec_arg path)
Reaches-relative path e = elim (Option-cases (rfind b'/' path)) [
  | inl q ↦
      let a = exec_arg-none path e q in
      inr (subst (Free b'/') (sym a) (rfind-Free b'/' path q), inl (directory-none path q, a))
  | inr (i, q) ↦
      let h = rfind-LastHit b'/' path i q in
      let z : (i == 0) ≡ false = ground (arith, relative-ne-zero path i e h) in
      let a = exec_arg-some path i e q in
      let d = directory-some path i q z in
      inr (
        subst (Free b'/') (sym a) h.after_free,
        inr (h.splits ∙ (λ k. sym d k ++ (b'/' ∷ sym a k))),
      )
]

Reaches-absolute :
    (path : Bytes)
    → is_absolute path ≡ true
    → Reaches path (resolve_script_directory path) (resolve_script_exec_arg path)
Reaches-absolute path e = inl (e, exec_arg-absolute path e)

length-exec_arg-le : (path : Bytes) → length (resolve_script_exec_arg path) ≤ length path
unfolding resolve_script_exec_arg
length-exec_arg-le path = elim (Bool-cases (is_absolute path)) [
  | inl e ↦ rw e (omega arith)
  | inr e ↦ elim (Option-cases (rfind b'/' path)) [
    | inl q ↦ rw (e, q) (omega arith)
    | inr (i, q) ↦ rw (e, q) (omega (arith, length-drop (i + 1) path))
  ]
]

-- A script is run in the directory of its path, by a name that reaches it from there: the whole path
-- if it is absolute, and else what stands behind its last slash, which holds no slash. The name fits
-- the buffer of argv that was made for the path.
pub resolve_script-Reaches :
    (path : Bytes)
    → Reaches path (resolve_script_directory path) (resolve_script_exec_arg path)
      × (length (c_str (resolve_script_exec_arg path)) ≤ length path)
resolve_script-Reaches path = (
  elim (Bool-cases (is_absolute path)) [
    | inl e ↦ Reaches-absolute path e
    | inr e ↦ Reaches-relative path e
  ],
  omega (arith, length-c_str-le (resolve_script_exec_arg path), length-exec_arg-le path),
)
