-- ===== src/ConfigParser/Tokens/Split.antt =====
-- What the tokenizer of src/ConfigParser.cpp yields, and the texts that it takes apart exactly.
use left_hook_roll.ConfigParser.Tokens.{
  is_delimiter, ends_word, word_length, advance, tokenize_from, tokenize,
}
use left_hook_roll.Prelude.{
  take-length-append, ◌∙◌, inr, ◌==◌, inl, ◌||◌, ◌⊎◌, ◌++◌, false, [], ◌∷◌, length, true, take,
  List, ℕ, zero, suc, ◌≡◌, refl, ap, arith,
}
use left_hook_roll.Text.{Bytes, is_space}

abbrev pub IsWord : Bytes → Type 0
IsWord [] = Unit
IsWord (c ∷ cs) = (ends_word c ≡ false) × IsWord cs

-- One delimiter, or a word: at least one byte, none of them a space, a delimiter or `#`.
abbrev pub IsToken : Bytes → Type 0
IsToken [] = ⊥
IsToken (c ∷ cs) = ((is_delimiter c ≡ true) × (cs ≡ [])) ⊎ ((ends_word c ≡ false) × IsWord cs)

abbrev pub AllTokens : List Bytes → Type 0
AllTokens [] = Unit
AllTokens (t ∷ ts) = IsToken t × AllTokens ts

take-IsWord : (cs : Bytes) → IsWord (take (word_length cs) cs)
unfolding word_length
take-IsWord [] = tt
take-IsWord (c ∷ cs) = ground (arith, take-IsWord cs)

ends_word_lem : (c : ℕ) → ends_word c ≡ (is_space c || (is_delimiter c || c == b'#'))
unfolding ends_word
ends_word_lem c = refl

ends_word_blank : ends_word b' ' ≡ true
unfolding ends_word
ends_word_blank = refl

tokenize_from-AllTokens : (skip : ℕ) (s : Bytes) → AllTokens (tokenize_from skip s)
unfolding tokenize_from
tokenize_from-AllTokens skip [] = tt
tokenize_from-AllTokens (suc skip) (c ∷ cs) = tokenize_from-AllTokens skip cs
tokenize_from-AllTokens zero (c ∷ cs) =
    ground (arith, tokenize_from-AllTokens (advance c cs) cs, take-IsWord cs, ends_word_lem c)

tokenize_from-skip : (xs ys : Bytes) → tokenize_from (length xs) (xs ++ ys) ≡ tokenize_from 0 ys
unfolding tokenize_from
tokenize_from-skip [] ys = refl
tokenize_from-skip (x ∷ xs) ys = tokenize_from-skip xs ys

word_length-append :
    (xs ys : Bytes) (c : ℕ)
    → IsWord xs
    → ends_word c ≡ true
    → word_length (xs ++ (c ∷ ys)) ≡ length xs
unfolding word_length
word_length-append [] ys c w e = ground arith
word_length-append (x ∷ xs) ys c (n, w) e = ground (arith, word_length-append xs ys c w e)

-- Tokens in a line, each with a blank behind it.
abbrev pub spaced : List Bytes → Bytes
spaced [] = []
spaced (t ∷ ts) = t ++ (b' ' ∷ spaced ts)

blank_step : (s : Bytes) → tokenize_from 0 (b' ' ∷ s) ≡ tokenize_from 0 s
unfolding tokenize_from is_space
blank_step s = refl

delimiter_step :
    (c : ℕ) (s : Bytes)
    → is_delimiter c ≡ true
    → tokenize_from 0 (c ∷ s) ≡ (c ∷ []) ∷ tokenize_from 0 s
unfolding tokenize_from is_space is_delimiter
delimiter_step c s h = ground arith

word_step :
    (c : ℕ) (s : Bytes)
    → ends_word c ≡ false
    → tokenize_from 0 (c ∷ s) ≡ (c ∷ take (word_length s) s) ∷ tokenize_from (word_length s) s
unfolding tokenize_from
word_step c s h = ground (arith, ends_word_lem c)

tokenize_from-token :
    (t rest : Bytes) → IsToken t → tokenize_from 0 (t ++ (b' ' ∷ rest)) ≡ t ∷ tokenize_from 0 rest
tokenize_from-token [] rest h = absurd h
tokenize_from-token (c ∷ cs) rest (inl (d, e)) =
    rw e (delimiter_step c (b' ' ∷ rest) d ∙ ap (◌∷◌ (c ∷ [])) (blank_step rest))
tokenize_from-token (c ∷ cs) rest (inr (n, w)) =
    word_step c (cs ++ (b' ' ∷ rest)) n
    ∙ rw (
      word_length-append cs rest b' ' w ends_word_blank,
      take-length-append cs (b' ' ∷ rest),
      tokenize_from-skip cs (b' ' ∷ rest),
      blank_step rest,
    )

spaced_back : (ts : List Bytes) → AllTokens ts → tokenize_from 0 (spaced ts) ≡ ts
unfolding tokenize_from
spaced_back [] h = refl
spaced_back (t ∷ ts) h = tokenize_from-token t (spaced ts) h.0 ∙ ap (◌∷◌ t) (spaced_back ts h.1)

-- For every text each token is one delimiter or a word, which has at least one byte and no space,
-- delimiter or `#` in it; and a list of such tokens, written with a blank behind each, is taken
-- apart into that list.
pub tokenize-spaced :
    (content : Bytes) (ts : List Bytes)
    → AllTokens (tokenize content) × (AllTokens ts → tokenize (spaced ts) ≡ ts)
unfolding tokenize
tokenize-spaced content ts = (tokenize_from-AllTokens 0 content, spaced_back ts)
