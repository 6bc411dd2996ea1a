-- ===== src/Request/Lines/Section.antt =====
-- `parseHeaders` on a header section that is written line by line.
use left_hook_roll.Prelude.{
  take-length-append, take-all, drop-add, take, drop-length-append, length-append, append_assoc,
  ◌∙◌, ltb, ap, sym, if◌then◌else◌, ◌+◌, is_nil, ◌-◌, drop, ◌≤◌, ◌<◌, length, List, ◌++◌, Bool, ℕ,
  zero, suc, ◌≡◌, refl, [], ◌∷◌, true, false, none, some, arith,
}
use left_hook_roll.Request.Headers.{crlf, line_loop, finish_headers, parse_headers, or_size}
use left_hook_roll.Request.Line.{parse_request_line, parse_header_line}
use left_hook_roll.Request.State.{Request}
use left_hook_roll.Text.Search.{find_str-append}
use left_hook_roll.Text.{substr, Bytes, find_str, shift}
use left_hook_roll.Request.Lines.Joined.{
  IsLine, AllLines, joined, header_lines, blank_line, find_str-Free, IsLine-Free, IsLine-length,
  not_nil, find_str-joined,
}

line_loop_end :
    (fuel : ℕ) (section : Bytes) (start : ℕ) (first : Bool) (r : Request)
    → length section ≤ start
    → line_loop fuel section start first r ≡ r
unfolding line_loop
line_loop_end zero section start first r h = refl
line_loop_end (suc fuel) section start first r h = ground arith

-- One round at a line that `end` closes.
line_loop_round :
    (fuel : ℕ) (section : Bytes) (start : ℕ) (first : Bool) (r : Request) (end : ℕ) (line : Bytes)
    → start < length section
    → or_size (shift start (find_str crlf (drop start section))) section ≡ end
    → substr section start (end - start) ≡ line
    → is_nil line ≡ false
    → line_loop (suc fuel) section start first r
      ≡ line_loop fuel section
          (end + 2)
          false
          (if first then parse_request_line line r else parse_header_line line r)
unfolding line_loop
line_loop_round fuel section start first r end line lt e s n =
    go (ltb start (length section)) (ground arith)
  where
    found : ℕ
    found = or_size (shift start (find_str crlf (drop start section))) section

    round : ℕ → Bytes → Request
    round at text =
        if is_nil text
        then line_loop fuel section (at + 2) first r
        else line_loop fuel section (at + 2) false
            (if first then parse_request_line text r else parse_header_line text r)

    settled : round found (substr section start (found - start)) ≡ round end line
    settled = ap (λ n. round n (substr section start (n - start))) e ∙ ap (round end) s

    go :
        (b : Bool)
        → b ≡ true
        → elim b [ false ↦ r | true ↦ round found (substr section start (found - start)) ]
          ≡ line_loop fuel section
              (end + 2)
              false
              (if first then parse_request_line line r else parse_header_line line r)
    go false q = absurd (cc q)
    go true q = settled ∙ rw n

-- The loop, from the beginning of a line on.
line_loop-lines :
    (fuel : ℕ) (pre l : Bytes) (ls : List Bytes) (first : Bool) (r : Request)
    → length ls < fuel
    → IsLine l
    → AllLines ls
    → line_loop fuel (pre ++ joined l ls) (length pre) first r
      ≡ header_lines ls (if first then parse_request_line l r else parse_header_line l r)
line_loop-lines zero pre l ls first r f h a = absurd (omega arith)
line_loop-lines (suc fuel) pre l [] first r f h a =
    line_loop_round fuel (pre ++ l) (length pre) first r (length (pre ++ l)) l
      (omega (arith, length-append pre l, some_bytes)) no_crlf text (not_nil l h)
    ∙ line_loop_end fuel (pre ++ l) (length (pre ++ l) + 2) false _ (omega arith)
  where
    some_bytes : 0 < length l
    some_bytes = IsLine-length l h

    no_crlf :
        or_size (shift (length pre) (find_str crlf (drop (length pre) (pre ++ l)))) (pre ++ l)
        ≡ length (pre ++ l)
    no_crlf =
        ap (λ t. or_size (shift (length pre) t) (pre ++ l))
          (ap (find_str crlf) (drop-length-append pre l)
            ∙ find_str-Free b'\r' (b'\n' ∷ []) l (IsLine-Free l h))

    text : substr (pre ++ l) (length pre) (length (pre ++ l) - length pre) ≡ l
    text =
        ap (λ n. take n (drop (length pre) (pre ++ l))) (omega (arith, length-append pre l))
        ∙ ap (take (length l)) (drop-length-append pre l)
        ∙ take-all (length l) l (omega arith)
line_loop-lines (suc fuel) pre l (m ∷ ls) first r f h (k, a) =
    line_loop_round fuel section (length pre) first r (length pre + length l) l
      (omega (arith, length-append pre (l ++ (crlf ++ rest)), length-append l (crlf ++ rest)))
      to_crlf text (not_nil l h)
    ∙ ap (λ t. line_loop fuel t (length pre + length l + 2) false next) (sym moved)
    ∙ ap (λ n. line_loop fuel ((pre ++ (l ++ crlf)) ++ rest) n false next) (sym start)
    ∙ line_loop-lines fuel (pre ++ (l ++ crlf)) m ls false next (omega arith) k a
  where
    rest : Bytes
    rest = joined m ls

    section : Bytes
    section = pre ++ (l ++ (crlf ++ rest))

    next : Request
    next = if first then parse_request_line l r else parse_header_line l r

    to_crlf :
        or_size (shift (length pre) (find_str crlf (drop (length pre) section))) section
        ≡ length pre + length l
    to_crlf =
        ap (λ t. or_size (shift (length pre) t) section)
          (ap (find_str crlf) (drop-length-append pre (l ++ (crlf ++ rest)))
            ∙ find_str-append b'\r' (b'\n' ∷ []) l rest (IsLine-Free l h))

    text : substr section (length pre) (length pre + length l - length pre) ≡ l
    text =
        ap (λ n. take n (drop (length pre) section)) (omega arith)
        ∙ ap (take (length l)) (drop-length-append pre (l ++ (crlf ++ rest)))
        ∙ take-length-append l (crlf ++ rest)

    moved : (pre ++ (l ++ crlf)) ++ rest ≡ section
    moved = append_assoc pre (l ++ crlf) rest ∙ ap (λ t. pre ++ t) (append_assoc l crlf rest)

    start : length (pre ++ (l ++ crlf)) ≡ length pre + length l + 2
    start = omega (arith, length-append pre (l ++ crlf), length-append l crlf)

joined_longer :
    (l : Bytes) (ls : List Bytes) → IsLine l → AllLines ls → length ls < length (joined l ls)
joined_longer l [] h a = IsLine-length l h
joined_longer l (m ∷ ls) h (k, a) =
    omega (arith, joined_longer m ls k a, length-append l (crlf ++ joined m ls))

abbrev opened : Bytes → Request → ℕ → ℕ × Request
opened raw r n = (
  n + 4,
  finish_headers (line_loop (length (take n raw)) (take n raw) 0 true (record r { cookies = [] })),
)

parse_headers-opened :
    (raw : Bytes) (r : Request) (n : ℕ)
    → find_str blank_line raw ≡ some n
    → parse_headers raw r ≡ opened raw r n
unfolding parse_headers
parse_headers-opened raw r n e =
    ap (λ o. elim o as (λ x. ℕ × Request) [ none ↦ (0, r) | some i ↦ opened raw r i ]) e

-- A header section that is written line by line, each line of at least one byte and without a
-- carriage return, with a CRLF between two lines and a blank line behind them: parseHeaders hands the
-- first line to the parser of the request line and each further line, in order, to that of header
-- lines, and returns the position of what follows the blank line.
pub parse_headers-joined :
    (l : Bytes) (ls : List Bytes) (body : Bytes) (r : Request)
    → IsLine l
    → AllLines ls
    → (parse_headers (joined l ls ++ (blank_line ++ body)) r ≡ (
      length (joined l ls) + 4,
      finish_headers (header_lines ls (parse_request_line l (record r { cookies = [] }))),
    ))
      × (drop (length (joined l ls) + 4) (joined l ls ++ (blank_line ++ body)) ≡ body)
parse_headers-joined l ls body r h a = (parsed, behind)
  where
    behind : drop (length (joined l ls) + 4) (joined l ls ++ (blank_line ++ body)) ≡ body
    behind =
        sym (drop-add (length (joined l ls)) 4 (joined l ls ++ (blank_line ++ body)))
        ∙ ap (drop 4) (drop-length-append (joined l ls) (blank_line ++ body))

    parsed : parse_headers (joined l ls ++ (blank_line ++ body)) r ≡ (
      length (joined l ls) + 4,
      finish_headers (header_lines ls (parse_request_line l (record r { cookies = [] }))),
    )
    parsed =
        parse_headers-opened (joined l ls ++ (blank_line ++ body)) r (length (joined l ls))
          (find_str-joined l ls body h a)
        ∙ ap
            (λ t. (
              length (joined l ls) + 4,
              finish_headers (line_loop (length t) t 0 true (record r { cookies = [] })),
            ))
            (take-length-append (joined l ls) (blank_line ++ body))
        ∙ ap (λ s. (length (joined l ls) + 4, finish_headers s))
            (line_loop-lines (length (joined l ls)) [] l ls true (record r { cookies = [] })
              (joined_longer l ls h a) h a)
