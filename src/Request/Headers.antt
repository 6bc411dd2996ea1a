-- ===== src/Request/Headers.antt =====
-- src/Request.cpp: `parseHeaders`, `_parseCookies` and `_typeOfReq`. The loops over positions take
-- fuel: the length of the text is enough, since each round moves the position on.
use left_hook_roll.Methods.{string_to_method}
use left_hook_roll.Dict.{insert, is_some, Dict, lookup}
use left_hook_roll.Prelude.Int.{pos, negsuc, is_negative, to_ℕ}
use left_hook_roll.Prelude.{
  ℕ, zero, suc, ◌+◌, ◌-◌, Bool, true, false, not, ◌&&◌, ◌||◌, Option, none, some, [], ◌∷◌, ◌==◌,
  ltb, if◌then◌else◌, take, drop, length, is_nil,
}
use left_hook_roll.Request.Line.{
  extract_query, full_request, simple_request, target_of, parse_request_line, parse_header_line,
  parse_cookie,
}
use left_hook_roll.Request.State.{
  Request, req_body, req_chunked, req_done, fail, is_error, get_header,
}
use left_hook_roll.Text.Numbers.{Converted, strtoll}
use left_hook_roll.Text.Trim.{trim, lower}
use left_hook_roll.Text.{less, equal, Bytes, codes, find, find_str, shift, substr}

abbrev pub crlf : Bytes
crlf = b'\r' ∷ b'\n' ∷ []

abbrev pub or_size : Option ℕ → Bytes → ℕ
or_size none s = length s
or_size (some i) s = i

-- The loop over the lines of the header section.
unfoldable pub line_loop : ℕ → Bytes → ℕ → Bool → Request → Request
line_loop zero section start first r = r
line_loop (suc fuel) section start first r = elim (ltb start (length section)) [
  | false ↦ r
  | true ↦
      let end = or_size (shift start (find_str crlf (drop start section))) section in
      let line = substr section start (end - start) in
      if is_nil line
      then line_loop fuel section (end + 2) first r
      else line_loop fuel section (end + 2) false
          (if first then parse_request_line line r else parse_header_line line r)
]

-- The loop of _parseCookies.
unfoldable pub cookie_loop : ℕ → Bytes → ℕ → Dict → Dict
cookie_loop zero header start m = m
cookie_loop (suc fuel) header start m = elim (ltb start (length header)) [
  | false ↦ m
  | true ↦
      let end = or_size (shift start (find b';' (drop start header))) header in
      cookie_loop fuel header (end + 1) (parse_cookie (trim (substr header start (end - start))) m)
]

unfoldable pub parse_cookies : Bytes → Dict → Dict
parse_cookies header m = cookie_loop (length header) header 0 m

-- *endPtr == '\0'
abbrev pub at_nul : Bytes → Bool
at_nul [] = true
at_nul (c ∷ cs) = c == 0

-- A Content-Length that was read as `n`.
unfoldable pub sized_body : Request → ℕ → Request
sized_body r n =
    let s = record r { content_length = pos n } in
    if ltb 0 r.max_body_size && ltb r.max_body_size n
    then fail s (codes "413")
    else record s { req_state = if n == 0 then req_done else req_body }

unfoldable pub length_of_body : Request → Converted → Request
length_of_body r c =
    if not (at_nul c.rest) || is_negative c.number
    then fail r (codes "400")
    else sized_body r (to_ℕ c.number)

unfoldable pub type_of_req : Request → Request
type_of_req r =
    let encoding = get_header r (codes "Transfer-Encoding") in
    let content_length = get_header r (codes "Content-Length") in
    if is_some (find_str (codes "chunked") (lower encoding))
    then record r { content_length = negsuc 0; req_state = req_chunked }
    else if not (is_nil content_length)
    then length_of_body r (strtoll content_length)
    else record r { content_length = pos 0; req_state = req_done }

-- The end of parseHeaders.
unfoldable pub finish_headers : Request → Request
finish_headers r =
    let s = if is_error r.req_state then r else type_of_req r in
    elim (lookup (codes "cookie") s.headers) [
      | none ↦ s
      | some header ↦ record s { cookies = parse_cookies header s.cookies }
    ]

-- The returned position, and the request.
unfoldable pub parse_headers : Bytes → Request → ℕ × Request
unfolding line_loop finish_headers type_of_req length_of_body sized_body parse_cookies cookie_loop
    parse_request_line target_of simple_request full_request extract_query parse_header_line
    parse_cookie get_header trim lower find find_str equal lookup insert less strtoll
    string_to_method
parse_headers raw r = elim (find_str (codes "\r\n\r\n") raw) [
  | none ↦ (0, r)
  | some end ↦
      let section = take end raw in
      (
        end + 4,
        finish_headers (line_loop (length section) section 0 true (record r { cookies = [] })),
      )
]
