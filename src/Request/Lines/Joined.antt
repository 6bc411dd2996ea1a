-- ===== src/Request/Lines/Joined.antt =====
-- A header section that is written line by line, and the search for its end.
use left_hook_roll.Prelude.{
  length-append, append_assoc, ◌∙◌, ap, sym, Option, is_nil, ◌<◌, length, List, ◌++◌, ℕ, ◌≡◌, ◌≢◌,
  refl, [], ◌∷◌, false, none, some, arith,
}
use left_hook_roll.Request.Headers.{crlf}
use left_hook_roll.Request.Line.{parse_header_line}
use left_hook_roll.Request.State.{Request}
use left_hook_roll.Text.Search.{find_str-append, Free}
use left_hook_roll.Text.{Bytes, find_str, shift}

-- A line of the section: at least one byte, and no carriage return.
abbrev pub IsLine : Bytes → Type 0
IsLine [] = ⊥
IsLine (c ∷ cs) = Free b'\r' (c ∷ cs)

abbrev pub AllLines : List Bytes → Type 0
AllLines [] = Unit
AllLines (l ∷ ls) = IsLine l × AllLines ls

-- The lines with a CRLF between them.
abbrev pub joined : Bytes → List Bytes → Bytes
joined l [] = l
joined l (m ∷ ls) = l ++ (crlf ++ joined m ls)

-- What the lines do to the request, one after the other.
abbrev pub header_lines : List Bytes → Request → Request
header_lines [] r = r
header_lines (l ∷ ls) r = header_lines ls (parse_header_line l r)

-- The blank line that ends the section.
abbrev pub blank_line : Bytes
blank_line = b'\r' ∷ b'\n' ∷ b'\r' ∷ b'\n' ∷ []

shift-zero : (o : Option ℕ) → shift 0 o ≡ o
shift-zero none = refl
shift-zero (some n) = ap some (omega arith)

find_str-skip :
    (c : ℕ) (pat xs ys : Bytes)
    → Free c xs
    → find_str (c ∷ pat) (xs ++ ys) ≡ shift (length xs) (find_str (c ∷ pat) ys)
unfolding find_str
find_str-skip c pat [] ys h = sym (shift-zero (find_str (c ∷ pat) ys))
find_str-skip c pat (x ∷ xs) ys (n, h) = ground (arith, find_str-skip c pat xs ys h)

pub find_str-Free : (c : ℕ) (pat xs : Bytes) → Free c xs → find_str (c ∷ pat) xs ≡ none
unfolding find_str
find_str-Free c pat [] h = refl
find_str-Free c pat (x ∷ xs) (n, h) = ground (arith, find_str-Free c pat xs h)

-- A CRLF inside the section is no blank line, since a line follows it.
find_str-crlf :
    (c : ℕ) (t : Bytes)
    → c ≢ b'\r'
    → find_str blank_line (crlf ++ (c ∷ t)) ≡ shift 2 (find_str blank_line (c ∷ t))
unfolding find_str
find_str-crlf c t n = ground arith

pub IsLine-Free : (l : Bytes) → IsLine l → Free b'\r' l
IsLine-Free [] h = absurd h
IsLine-Free (c ∷ cs) h = h

pub IsLine-length : (l : Bytes) → IsLine l → 0 < length l
IsLine-length [] h = absurd h
IsLine-length (c ∷ cs) h = omega arith

pub not_nil : (l : Bytes) → IsLine l → is_nil l ≡ false
not_nil [] h = absurd h
not_nil (c ∷ cs) h = refl

-- What a line and the lines behind it start with.
record Starts (s : Bytes) : Type 0 where
  head : ℕ
  tail : Bytes
  splits : s ≡ head ∷ tail
  no_cr : head ≢ b'\r'

joined-Starts : (m : Bytes) (ls : List Bytes) (t : Bytes) → IsLine m → Starts (joined m ls ++ t)
joined-Starts [] ls t h = absurd h
joined-Starts (c ∷ cs) [] t h = record { head = c; tail = cs ++ t; splits = refl; no_cr = h.0 }
joined-Starts (c ∷ cs) (l ∷ ls) t h = record {
  head = c;
  tail = (cs ++ (crlf ++ joined l ls)) ++ t;
  splits = refl;
  no_cr = h.0;
}

find_str-crlf_line :
    (s : Bytes) → Starts s → find_str blank_line (crlf ++ s) ≡ shift 2 (find_str blank_line s)
find_str-crlf_line s h =
    ap (λ t. find_str blank_line (crlf ++ t)) h.splits
    ∙ find_str-crlf h.head h.tail h.no_cr
    ∙ ap (λ t. shift 2 (find_str blank_line t)) (sym h.splits)

pub find_str-joined :
    (l : Bytes) (ls : List Bytes) (body : Bytes)
    → IsLine l
    → AllLines ls
    → find_str blank_line (joined l ls ++ (blank_line ++ body)) ≡ some (length (joined l ls))
find_str-joined l [] body h a =
    find_str-append b'\r' (b'\n' ∷ b'\r' ∷ b'\n' ∷ []) l body (IsLine-Free l h)
find_str-joined l (m ∷ ls) body h (k, a) =
    ap (find_str blank_line) (append_assoc l (crlf ++ joined m ls) (blank_line ++ body))
    ∙ find_str-skip b'\r' (b'\n' ∷ b'\r' ∷ b'\n' ∷ []) l
        (crlf ++ (joined m ls ++ (blank_line ++ body))) (IsLine-Free l h)
    ∙ ap (shift (length l)) (
        find_str-crlf_line (joined m ls ++ (blank_line ++ body))
          (joined-Starts m ls (blank_line ++ body) k)
        ∙ ap (shift 2) (find_str-joined m ls body k a))
    ∙ ap some (omega (arith, length-append l (crlf ++ joined m ls)))
