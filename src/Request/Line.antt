-- ===== src/Request/Line.antt =====
-- src/Request.cpp: the request line and the header lines.
use left_hook_roll.Dict.{Dict, insert}
use left_hook_roll.Methods.{HttpMethod, unknown_method, string_to_method}
use left_hook_roll.Prelude.{
  ℕ, ◌+◌, ◌-◌, Bool, true, false, not, ◌||◌, none, some, [], ◌∷◌, ◌==◌, if◌then◌else◌, take, drop,
  is_nil,
}
use left_hook_roll.Request.State.{Request, req_done, fail}
use left_hook_roll.Text.Trim.{trim, lower}
use left_hook_roll.Text.{Bytes, codes, equal, find, find_from, substr}

unfoldable pub extract_query : Request → Request
extract_query r = elim (find b'?' r.url) [
  | none ↦ r
  | some q ↦ record r { query = drop (q + 1) r.url; url = take q r.url }
]

-- !_URL.empty() && _URL[0] == '/'
abbrev pub starts_slash : Bytes → Bool
starts_slash [] = false
starts_slash (c ∷ cs) = c == b'/'

abbrev pub is_unknown : HttpMethod → Bool
is_unknown unknown_method = true
is_unknown _ = false

abbrev pub is_known_protocol : Bytes → Bool
is_known_protocol p = equal p (codes "HTTP/1.0") || equal p (codes "HTTP/1.1")

-- "GET /path"
unfoldable pub simple_request : Request → Bytes → Request
simple_request r url =
    if starts_slash url
    then record (extract_query (record r { url = url; protocol = codes "HTTP/0.9" })) {
      req_state = req_done;
    }
    else fail (record r { url = url }) (codes "400")

-- The URL and the protocol of a full request line.
unfoldable pub full_request : Request → Bytes → Bytes → Request
full_request r url protocol =
    let s = record r { url = url; protocol = protocol } in
    if not (is_known_protocol protocol)
    then fail s (codes "505")
    else if not (starts_slash url)
    then fail s (codes "400")
    else extract_query s

-- What follows the method, which ends at `first`.
unfoldable pub target_of : Request → Bytes → ℕ → Request
target_of r line first = elim (find_from b' ' line (first + 1)) [
  | none ↦ simple_request r (drop (first + 1) line)
  | some second ↦
      full_request r (substr line (first + 1) (second - first - 1)) (drop (second + 1) line)
]

unfoldable pub parse_request_line : Bytes → Request → Request
parse_request_line line r = elim (find b' ' line) [
  | none ↦ fail r (codes "400")
  | some first ↦
      let m = string_to_method (take first line) in
      let s = record r { method_name = m } in
      if is_unknown m then fail s (codes "501") else target_of s line first
]

unfoldable pub parse_header_line : Bytes → Request → Request
parse_header_line line r = elim (find b':' line) [
  | none ↦ r
  | some colon ↦
      let key = lower (trim (take colon line)) in
      let value = trim (drop (colon + 1) line) in
      if is_nil key then r else record r { headers = insert key value r.headers }
]

-- One token of the Cookie header.
unfoldable pub parse_cookie : Bytes → Dict → Dict
parse_cookie token m = elim (find b'=' token) [
  | none ↦ m
  | some eq ↦
      let key = trim (take eq token) in
      let value = trim (drop (eq + 1) token) in if is_nil key then m else insert key value m
]
