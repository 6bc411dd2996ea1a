-- ===== src/Text/Search.antt =====
-- The laws of the searches in a byte string.
use mathlib.Core.Path.{subst}
use left_hook_roll.Prelude.{
  ◌==◌, inl, inr, Bool-cases, Option-cases, ℕ, suc, ◌≡◌, ◌≢◌, refl, ap, true, none, some, [], ◌∷◌,
  ◌++◌, length, take, drop, arith,
}
use left_hook_roll.Text.{Bytes, find, find_str, starts_with}

-- The byte `c` does not occur.
abbrev pub Free : ℕ → Bytes → Type 0
Free c [] = Unit
Free c (x ∷ xs) = (x ≢ c) × Free c xs

pub Free-append : (c : ℕ) (xs ys : Bytes) → Free c xs → Free c ys → Free c (xs ++ ys)
Free-append c [] ys h k = k
Free-append c (x ∷ xs) ys (n, h) k = (n, Free-append c xs ys h k)

pub find-append : (c : ℕ) (xs ys : Bytes) → Free c xs → find c (xs ++ (c ∷ ys)) ≡ some (length xs)
unfolding find
find-append c [] ys h = ground arith
find-append c (x ∷ xs) ys (n, h) = ground (arith, find-append c xs ys h)

pub find-Free : (c : ℕ) (xs : Bytes) → Free c xs → find c xs ≡ none
unfolding find
find-Free c [] h = refl
find-Free c (x ∷ xs) (n, h) = ground (arith, find-Free c xs h)

-- A hit splits the text at the first occurrence.
pub record Hit (c : ℕ) (s : Bytes) (i : ℕ) : Type 0 where
  pub before_free : Free c (take i s)
  pub splits : s ≡ take i s ++ (c ∷ drop (suc i) s)
  pub before_length : length (take i s) ≡ i

Hit-cons : (c x : ℕ) (xs : Bytes) (i : ℕ) → x ≢ c → Hit c xs i → Hit c (x ∷ xs) (suc i)
Hit-cons c x xs i n h = record {
  before_free = (n, h.before_free);
  splits = ap (◌∷◌ x) h.splits;
  before_length = ap suc h.before_length;
}

find-Hit : (c : ℕ) (s : Bytes) {i : ℕ} → find c s ≡ some i → Hit c s i
unfolding find
find-Hit c [] e = cc
find-Hit c (x ∷ xs) {i} e = elim (Bool-cases (x == c)) [
  | inl same ↦
      let z : 0 ≡ i = ground arith in
      let here : Hit c (x ∷ xs) 0 = record {
        before_free = tt;
        splits = ap (λ y. y ∷ xs) (ground arith);
        before_length = refl;
      } in
      subst (Hit c (x ∷ xs)) z here
  | inr other ↦ elim (Option-cases (find c xs)) [
    | inl missing ↦ absurd (ground arith)
    | inr (j, q) ↦
        let z : suc j ≡ i = ground arith in
        subst (Hit c (x ∷ xs)) z (Hit-cons c x xs j (ground arith) (find-Hit c xs q))
  ]
]

pub starts_with-append : (p ys : Bytes) → starts_with p (p ++ ys) ≡ true
unfolding starts_with
starts_with-append [] ys = refl
starts_with-append (x ∷ p) ys = ground (arith, starts_with-append p ys)

pub find_str-append :
    (c : ℕ) (pat xs ys : Bytes)
    → Free c xs
    → find_str (c ∷ pat) (xs ++ ((c ∷ pat) ++ ys)) ≡ some (length xs)
unfolding find_str
find_str-append c pat [] ys h = ground (arith, starts_with-append pat ys)
find_str-append c pat (x ∷ xs) ys (n, h) = ground (arith, find_str-append c pat xs ys h)
