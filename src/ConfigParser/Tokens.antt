-- ===== src/ConfigParser/Tokens.antt =====
-- src/ConfigParser.cpp: `_tokenize` and the token stream helpers.
pub mod Split
use left_hook_roll.Prelude.Result.{M, ok, threw, fatal_exception, ◌>>=◌}
use left_hook_roll.Prelude.{
  ℕ, zero, suc, Bool, false, not, ◌||◌, Option, none, some, List, [], ◌∷◌, ◌==◌, if◌then◌else◌,
  take, is_nil,
}
use left_hook_roll.Text.{Bytes, is_space, equal}

unfoldable pub is_delimiter : ℕ → Bool
is_delimiter c = c == b'{' || (c == b'}' || c == b';')

-- while (i < size && content[i] != '\n') i++;
unfoldable pub comment_length : Bytes → ℕ
comment_length [] = 0
comment_length (c ∷ cs) = if c == b'\n' then 0 else suc (comment_length cs)

unfoldable pub ends_word : ℕ → Bool
unfolding is_space is_delimiter
ends_word c = is_space c || (is_delimiter c || c == b'#')

-- The inner loop that moves `i` to the end of a word.
unfoldable pub word_length : Bytes → ℕ
unfolding ends_word
word_length [] = 0
word_length (c ∷ cs) = if ends_word c then 0 else suc (word_length cs)

-- How far `i` moves on behind the byte `c`.
advance : ℕ → Bytes → ℕ
advance c cs =
    if is_space c
    then 0
    else if c == b'#'
    then comment_length cs
    else if is_delimiter c
    then 0
    else word_length cs

-- The outer loop, with the bytes that the inner loops have passed over still to be skipped.
unfoldable pub tokenize_from : ℕ → Bytes → List Bytes
unfolding advance comment_length word_length
tokenize_from skip [] = []
tokenize_from (suc skip) (c ∷ cs) = tokenize_from skip cs
tokenize_from zero (c ∷ cs) =
    let rest = tokenize_from (advance c cs) cs in
    if is_space c || c == b'#'
    then rest
    else if is_delimiter c
    then (c ∷ []) ∷ rest
    else (c ∷ take (word_length cs) cs) ∷ rest

unfoldable pub tokenize : Bytes → List Bytes
unfolding tokenize_from
tokenize content = tokenize_from 0 content

abbrev pub Stream : Type 0
Stream = List Bytes

abbrev pub Parser : Type 0 → Type 0
Parser A = M Stream A

abbrev pub config_error : {A : Type 0} → Parser A
config_error s = threw fatal_exception s

abbrev pub or_error : {A : Type 0} → Option A → Parser A
or_error none s = threw fatal_exception s
or_error (some a) s = ok a s

abbrev pub at_end : Stream → Bool
at_end = is_nil

unfoldable pub peek : Parser Bytes
peek [] = threw fatal_exception []
peek (t ∷ ts) = ok t (t ∷ ts)

unfoldable pub consume : Parser Bytes
consume [] = threw fatal_exception []
consume (t ∷ ts) = ok t ts

unfoldable pub expect : Bytes → Parser (Unit {0})
expect token = do got ← consume; if equal got token then ok tt else config_error

-- !_atEnd() && _peek() != token
unfoldable pub goes_on : Bytes → Stream → Bool
goes_on token [] = false
goes_on token (t ∷ ts) = not (equal t token)
