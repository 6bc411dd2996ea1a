-- ===== src/ConfigParser/Values/Bounds.antt =====
-- The ranges of the values that the validators of src/ConfigParser.cpp accept.
use left_hook_roll.Conf.{SockAddr}
use left_hook_roll.ConfigParser.Values.{
  check_port, read_port, parse_sock_addr, resolve_host, body_size, last, number_part,
  parse_body_size,
}
use left_hook_roll.Prelude.Int.{ℤ, pos, negsuc}
use left_hook_roll.Prelude.{
  ℕ, suc, ◌≤◌, ◌<◌, ◌^◌, ◌≡◌, Option, some, inl, inr, Option-cases, [], ◌∷◌, drop, take, arith,
}
use left_hook_roll.Text.Numbers.{atoi}
use left_hook_roll.Text.{Bytes, find}

check_port_range : (z : ℤ) {p : ℕ} → check_port z ≡ some p → (0 < p) × (p ≤ 65535)
unfolding check_port
check_port_range (pos n) e = ground arith
check_port_range (negsuc n) e = cc

read_port_range : (s : Bytes) {p : ℕ} → read_port s ≡ some p → (0 < p) × (p ≤ 65535)
unfolding read_port
read_port_range s e = ground (arith, check_port_range (atoi s))

resolve_host-port :
    (resolve : Bytes → Option ℕ) (host : Bytes) (p : ℕ) {a : SockAddr}
    → resolve_host resolve host p ≡ some a
    → a.port ≡ p
unfolding resolve_host
resolve_host-port resolve host p e = ground arith

-- A listen address that is accepted has a port between 1 and 65535.
pub parse_sock_addr_port :
    (resolve : Bytes → Option ℕ) (value : Bytes) {a : SockAddr}
    → parse_sock_addr resolve value ≡ some a
    → (0 < a.port) × (a.port ≤ 65535)
unfolding parse_sock_addr
parse_sock_addr_port resolve value {a} e = elim (Option-cases (find b':' value)) [
  | inl plain ↦ elim (Option-cases (read_port value)) [
    | inl bad ↦ ground arith
    | inr (p, r) ↦ ground (arith, read_port_range value r)
  ]
  | inr (colon, q) ↦ elim (Option-cases (read_port (drop (suc colon) value))) [
    | inl bad ↦ ground arith
    | inr (p, r) ↦
        let host : resolve_host resolve (take colon value) p ≡ some a = ground arith in
        ground (
          arith,
          read_port_range (drop (suc colon) value) r,
          resolve_host-port resolve (take colon value) p host,
        )
  ]
]

body_size-lt : (c : ℕ) (ds : Bytes) {n : ℕ} → body_size c ds ≡ some n → n < 2 ^ 64
unfolding body_size
body_size-lt c ds e = ground arith

pub parse_body_size-lt : (value : Bytes) {n : ℕ} → parse_body_size value ≡ some n → n < 2 ^ 64
unfolding parse_body_size
parse_body_size-lt [] e = cc
parse_body_size-lt (c ∷ cs) e = body_size-lt (last c cs) (number_part (last c cs) (c ∷ cs)) e
