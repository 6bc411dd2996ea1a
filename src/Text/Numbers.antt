-- ===== src/Text/Numbers.antt =====
-- Decimal and hexadecimal numbers in text: `ostringstream <<`, strtoll, strtoul, atoi and atol
-- over 64-bit `long`, as glibc computes them (saturation, and `int` by truncation).
use left_hook_roll.Prelude.Int.{ℤ, pos, negsuc}
use left_hook_roll.Prelude.{
  ℕ, zero, suc, ◌+◌, ◌-◌, ◌*◌, ◌/◌, ◌%◌, ◌^◌, ◌<◌, min, ◌≡◌, refl, ◌∙◌, Bool, true, false, ◌&&◌,
  ◌||◌, Option, none, some, [], ◌∷◌, ◌==◌, ltb, leb, if◌then◌else◌, arith,
}
use left_hook_roll.Text.Trim.{trim_start}
use left_hook_roll.Text.{Bytes, is_digit, all_digits}

show_digits : ℕ → ℕ → Bytes → Bytes
show_digits zero n acc = acc
show_digits (suc f) n acc =
    let more = show_digits f (n / 10) ((b'0' + n % 10) ∷ acc) in
    if ltb n 10 then (b'0' + n) ∷ acc else more

-- ostringstream << n
unfoldable pub show : ℕ → Bytes
unfolding show_digits
show n = show_digits (suc n) n []

-- ostringstream << i, for a signed number
abbrev pub show_int : ℤ → Bytes
show_int (pos n) = show n
show_int (negsuc n) = b'-' ∷ show (suc n)

-- The value of the leading decimal digits, continuing from `acc`.
unfoldable pub decimal : ℕ → Bytes → ℕ
unfolding is_digit
decimal acc [] = acc
decimal acc (c ∷ cs) = if is_digit c then decimal (acc * 10 + (c - b'0')) cs else acc

skip_digits : Bytes → Bytes
skip_digits [] = []
skip_digits (c ∷ cs) = if is_digit c then skip_digits cs else c ∷ cs

starts_digit : Bytes → Bool
unfolding is_digit
starts_digit [] = false
starts_digit (c ∷ cs) = is_digit c

-- What strtoll stores: the number, and the text behind its end pointer.
pub record Converted : Type 0 where
  pub number : ℤ
  pub rest : Bytes

abbrev positive : ℕ → ℤ
positive v = pos (min v (2 ^ 63 - 1))

abbrev negative : ℕ → ℤ
negative v = if v == 0 then pos 0 else negsuc (min v (2 ^ 63) - 1)

-- The digits behind the sign; with none of them the end pointer is the text's start.
convert : Bytes → (ℕ → ℤ) → Bytes → Converted
unfolding decimal skip_digits starts_digit
convert whole sign ds =
    if starts_digit ds
    then record { number = sign (decimal 0 ds); rest = skip_digits ds }
    else record { number = pos 0; rest = whole }

convert_sign : Bytes → Bytes → Converted
unfolding convert
convert_sign whole [] = convert whole positive []
convert_sign whole (c ∷ cs) =
    if c == b'-'
    then convert whole negative cs
    else if c == b'+'
    then convert whole positive cs
    else convert whole positive (c ∷ cs)

-- strtoll(s, &end, 10)
unfoldable pub strtoll : Bytes → Converted
unfolding convert_sign
strtoll s = convert_sign s (trim_start s)

-- (int)n for a long n
unfoldable pub to_int : ℤ → ℤ
to_int (pos n) =
    if ltb (n % 2 ^ 32) (2 ^ 31) then pos (n % 2 ^ 32) else negsuc (2 ^ 32 - 1 - n % 2 ^ 32)
to_int (negsuc n) =
    if ltb (n % 2 ^ 32) (2 ^ 31) then negsuc (n % 2 ^ 32) else pos (2 ^ 32 - 1 - n % 2 ^ 32)

-- atol(s), and atoi(s)
abbrev pub atol : Bytes → ℤ
atol s = (strtoll s).number

abbrev pub atoi : Bytes → ℤ
atoi s = to_int (atol s)

hex_digit : ℕ → Option ℕ
unfolding is_digit
hex_digit c =
    if is_digit c
    then some (c - b'0')
    else if leb b'a' c && leb c b'f'
    then some (c - b'a' + 10)
    else if leb b'A' c && leb c b'F'
    then some (c - b'A' + 10)
    else none

hexadecimal : ℕ → Bytes → ℕ
unfolding hex_digit
hexadecimal acc [] = acc
hexadecimal acc (c ∷ cs) = elim (hex_digit c) [
  | none ↦ acc
  | some d ↦ hexadecimal (acc * 16 + d) cs
]

starts_hex : Bytes → Bool
unfolding hex_digit
starts_hex [] = false
starts_hex (c ∷ cs) = elim (hex_digit c) [ none ↦ false | some d ↦ true ]

-- An optional "0x" counts only if a digit follows it.
skip_0x : Bytes → Bytes
unfolding starts_hex
skip_0x (z ∷ x ∷ ds) =
    if z == b'0' && ((x == b'x' || x == b'X') && starts_hex ds) then ds else z ∷ x ∷ ds
skip_0x ds = ds

magnitude : Bytes → ℕ
unfolding hexadecimal skip_0x
magnitude ds = hexadecimal 0 (skip_0x ds)

unsigned : Bool → ℕ → ℕ
unsigned minus v =
    if ltb (2 ^ 64 - 1) v then 2 ^ 64 - 1 else if minus then (2 ^ 64 - v) % 2 ^ 64 else v

strtoul_sign : Bytes → ℕ
strtoul_sign [] = 0
strtoul_sign (c ∷ cs) =
    if c == b'-'
    then unsigned true (magnitude cs)
    else if c == b'+'
    then unsigned false (magnitude cs)
    else unsigned false (magnitude (c ∷ cs))

-- strtoul(s, NULL, 16)
unfoldable pub strtoul : Bytes → ℕ
unfolding strtoul_sign magnitude unsigned
strtoul s = strtoul_sign (trim_start s)

decimal-show_digits :
    (f n : ℕ) (acc : Bytes) → n < f → decimal 0 (show_digits f n acc) ≡ decimal n acc
unfolding show_digits decimal
decimal-show_digits zero n acc h = absurd (omega arith)
decimal-show_digits (suc f) n acc h =
    ground (arith, decimal-show_digits f (n / 10) ((b'0' + n % 10) ∷ acc))

-- Printing a number and reading its digits gives it back.
decimal-show : (n : ℕ) → decimal 0 (show n) ≡ n
unfolding show
decimal-show n = decimal-show_digits (suc n) n [] (omega arith) ∙ unfold decimal in refl

all_digits-show_digits :
    (f n : ℕ) (acc : Bytes) → all_digits acc ≡ true → all_digits (show_digits f n acc) ≡ true
unfolding show_digits is_digit
all_digits-show_digits zero n acc h = h
all_digits-show_digits (suc f) n acc h =
    ground (arith, all_digits-show_digits f (n / 10) ((b'0' + n % 10) ∷ acc))

all_digits-show : (n : ℕ) → all_digits (show n) ≡ true
unfolding show
all_digits-show n = all_digits-show_digits (suc n) n [] refl

unsigned-lt : (minus : Bool) (v : ℕ) → unsigned minus v < 2 ^ 64
unfolding unsigned
unsigned-lt minus v = ground arith

strtoul_sign-lt : (s : Bytes) → strtoul_sign s < 2 ^ 64
unfolding strtoul_sign
strtoul_sign-lt [] = omega arith
strtoul_sign-lt (c ∷ cs) = ground (
  arith,
  unsigned-lt true (magnitude cs),
  unsigned-lt false (magnitude cs),
  unsigned-lt false (magnitude (c ∷ cs)),
)

-- The result fits an unsigned long.
strtoul-lt : (s : Bytes) → strtoul s < 2 ^ 64
unfolding strtoul
strtoul-lt s = strtoul_sign-lt (trim_start s)
