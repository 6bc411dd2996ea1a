-- ===== src/Text.antt =====
-- Byte strings: what the sources use of std::string and <cctype> (C locale). A position that
-- std::string gives as `npos` is `none`.
pub mod Search
pub mod Trim
pub mod Numbers
use Prim.Native.Char.{code}
use Prim.Native.String.{String}
use left_hook_roll.Prelude.{
  ℕ, suc, ◌+◌, ◌-◌, ◌↔◌, ◌≡◌, Bool, true, false, not, ◌&&◌, ◌||◌, Option, none, some, List, [], ◌∷◌,
  ◌==◌, leb, if◌then◌else◌, take, drop, is_nil, all, arith,
}

abbrev pub Bytes : Type 0
Bytes = List ℕ

-- The code points of a literal: its bytes, since every literal here is ASCII.
abbrev pub codes : String → Bytes
codes String.[] = []
codes (String.◌∷◌ c s) = code c ∷ codes s

unfoldable pub is_space : ℕ → Bool
is_space c = (leb 9 c && leb c 13) || c == 32

unfoldable pub is_digit : ℕ → Bool
is_digit c = leb b'0' c && leb c b'9'

unfoldable pub to_lower : ℕ → ℕ
to_lower c = if leb b'A' c && leb c b'Z' then c + 32 else c

unfoldable pub to_upper : ℕ → ℕ
to_upper c = if leb b'a' c && leb c b'z' then c - 32 else c

-- operator== of std::string
unfoldable pub equal : Bytes → Bytes → Bool
equal [] [] = true
equal (x ∷ xs) (y ∷ ys) = x == y && equal xs ys
equal _ _ = false

-- operator< of std::string
unfoldable pub less : Bytes → Bytes → Bool
less [] [] = false
less [] (y ∷ ys) = true
less (x ∷ xs) [] = false
less (x ∷ xs) (y ∷ ys) = if x == y then less xs ys else leb x y

unfoldable pub starts_with : Bytes → Bytes → Bool
starts_with [] s = true
starts_with (p ∷ ps) [] = false
starts_with (p ∷ ps) (x ∷ xs) = p == x && starts_with ps xs

abbrev pub next : Option ℕ → Option ℕ
next none = none
next (some i) = some (suc i)

abbrev pub shift : ℕ → Option ℕ → Option ℕ
shift n none = none
shift n (some i) = some (n + i)

-- s.find(c)
unfoldable pub find : ℕ → Bytes → Option ℕ
find c [] = none
find c (x ∷ xs) = if x == c then some 0 else next (find c xs)

-- s.find(c, pos)
abbrev pub find_from : ℕ → Bytes → ℕ → Option ℕ
find_from c s pos = shift pos (find c (drop pos s))

-- s.find(pat)
unfoldable pub find_str : Bytes → Bytes → Option ℕ
unfolding starts_with
find_str pat [] = if is_nil pat then some 0 else none
find_str pat (x ∷ xs) = if starts_with pat (x ∷ xs) then some 0 else next (find_str pat xs)

-- s.rfind(c)
unfoldable pub rfind : ℕ → Bytes → Option ℕ
rfind c [] = none
rfind c (x ∷ xs) = elim (rfind c xs) [
  | some i ↦ some (suc i)
  | none ↦ if x == c then some 0 else none
]

-- s.substr(pos, n), where pos is at most the size
abbrev pub substr : Bytes → ℕ → ℕ → Bytes
substr s pos n = take n (drop pos s)

-- s.find_first_not_of("0123456789") == npos
abbrev pub all_digits : Bytes → Bool
all_digits = all is_digit

pub equal_iff : (s t : Bytes) → (equal s t ≡ true) ↔ (s ≡ t)
unfolding equal
equal_iff [] _ = ground arith
equal_iff (c ∷ cs) [] = ground arith
equal_iff (c ∷ cs) (d ∷ ds) = ground (arith, equal_iff cs ds)
