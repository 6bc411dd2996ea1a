-- ===== src/ConfigParser/Values.antt =====
-- src/ConfigParser.cpp: the validators and converters. `none` is a ConfigException.
pub mod Bounds
use left_hook_roll.Conf.{SockAddr}
use left_hook_roll.Methods.{HttpMethod, get, post, delete}
use left_hook_roll.Prelude.Int.{ℤ, pos, negsuc, to_ℕ}
use left_hook_roll.Prelude.{
  ℕ, suc, ◌-◌, ◌*◌, ◌%◌, ◌^◌, Bool, not, ◌||◌, Option, none, some, [], ◌∷◌, ◌==◌, ltb,
  if◌then◌else◌, take, drop, length, is_nil,
}
use left_hook_roll.Text.Numbers.{atoi, atol, strtoll, to_int}
use left_hook_roll.Text.{Bytes, codes, equal, find, all_digits, is_digit}

-- if (port <= 0 || port > 65535) throw
unfoldable pub check_port : ℤ → Option ℕ
check_port (pos n) = if n == 0 || ltb 65535 n then none else some n
check_port (negsuc n) = none

unfoldable pub read_port : Bytes → Option ℕ
unfolding check_port strtoll to_int is_digit
read_port s = if is_nil s || not (all_digits s) then none else check_port (atoi s)

module _ (resolve : Bytes → Option ℕ) where
  unfoldable pub resolve_host : Bytes → ℕ → Option SockAddr
  resolve_host host port = if is_nil host then none else elim (resolve host) [
    | none ↦ none
    | some address ↦ some (record { address = address; port = port })
  ]

  unfoldable pub parse_sock_addr : Bytes → Option SockAddr
  parse_sock_addr value = elim (find b':' value) [
    | some colon ↦ elim (read_port (drop (suc colon) value)) [
      | none ↦ none
      | some port ↦ resolve_host (take colon value) port
    ]
    | none ↦ elim (read_port value) [
      | none ↦ none
      | some port ↦ some (record { address = 0; port = port })
    ]
  ]

-- value[value.size() - 1]
abbrev last : ℕ → Bytes → ℕ
last c [] = c
last c (d ∷ ds) = last d ds

abbrev is_either : ℕ → ℕ → ℕ → Bool
is_either c a b = c == a || c == b

multiplier : ℕ → ℕ
multiplier suffix =
    if is_either suffix b'k' b'K'
    then 1024
    else if is_either suffix b'm' b'M'
    then 1024 * 1024
    else if is_either suffix b'g' b'G'
    then 1024 * 1024 * 1024
    else 1

has_suffix : ℕ → Bool
has_suffix c = is_either c b'k' b'K' || (is_either c b'm' b'M' || is_either c b'g' b'G')

number_part : ℕ → Bytes → Bytes
unfolding has_suffix
number_part suffix value = if has_suffix suffix then take (length value - 1) value else value

body_size : ℕ → Bytes → Option ℕ
unfolding multiplier is_digit strtoll
body_size suffix number =
    if is_nil number || not (all_digits number)
    then none
    else some (to_ℕ (atol number) * multiplier suffix % 2 ^ 64)

unfoldable pub parse_body_size : Bytes → Option ℕ
unfolding body_size number_part
parse_body_size [] = none
parse_body_size (c ∷ cs) = body_size (last c cs) (number_part (last c cs) (c ∷ cs))

unfoldable pub parse_method_token : Bytes → Option HttpMethod
parse_method_token t =
    if equal t (codes "GET")
    then some get
    else if equal t (codes "POST")
    then some post
    else if equal t (codes "DELETE")
    then some delete
    else none
