-- ===== src/Response/Cgi.antt =====
-- src/Response.cpp: the answer that is made of a CGI process's output.
pub mod Status
pub mod Drain
use left_hook_roll.Conf.{ServerConf}
use left_hook_roll.DataStore.Files.{append, clear, read, reset_read_position}
use left_hook_roll.Prelude.Result.{M, ok, threw, out_of_fuel, ◌>>=◌, ◌>>◌}
use left_hook_roll.Prelude.{
  ℕ, zero, suc, ◌+◌, ◌-◌, Bool, true, false, not, ◌||◌, ◌&&◌, none, some, List, [], ◌∷◌, ◌++◌, ◌==◌,
  if◌then◌else◌, is_nil, take, drop, length,
}
use left_hook_roll.Response.Build.{
  add_header, build_error_page, finalize_success, set_status_code, set_response_phrase,
}
use left_hook_roll.Response.Pages.{lookup_reason_phrase}
use left_hook_roll.Response.Paths.{has_at}
use left_hook_roll.Response.State.{Response, Site, build_done, on_store}
use left_hook_roll.Text.Trim.{lower}
use left_hook_roll.Text.{Bytes, codes, equal, find, find_str, all_digits}

-- The loop of _drainDataStore, on fuel: one more than the size is enough, since a read that goes on
-- has given a byte.
unfoldable pub drain_loop : ℕ → Bytes → M Response Bytes
drain_loop zero result r = threw out_of_fuel r
drain_loop (suc fuel) result r = elim (on_store (read 16384) r) [
  | ok bytes s ↦ if is_nil bytes then ok result s else drain_loop fuel (result ++ bytes) s
  | threw e s ↦ threw e s
]

unfoldable pub drain_data_store : M Response Bytes
unfolding drain_loop
drain_data_store = do
  on_store reset_read_position
  (λ r. drain_loop (suc r.response_data_store.current_size) [] r)

-- The header block and the body.
unfoldable pub split_cgi_output : Bytes → Bytes × Bytes
split_cgi_output raw = elim (find_str (codes "\r\n\r\n") raw) [
  | some i ↦ (take i raw, drop (i + 4) raw)
  | none ↦ elim (find_str (codes "\n\n") raw) [
    | some j ↦ (take j raw, drop (j + 2) raw)
    | none ↦ ([], raw)
  ]
]

-- std::getline: the lines of a text, the last one only if it is not empty.
unfoldable pub lines_of : Bytes → Bytes → List Bytes
lines_of line [] = if is_nil line then [] else line ∷ []
lines_of line (c ∷ cs) =
    if c == b'\n' then line ∷ lines_of [] cs else lines_of (line ++ (c ∷ [])) cs

unfoldable pub drop_cr : Bytes → Bytes
drop_cr line =
    if not (is_nil line) && has_at line (length line - 1) b'\r'
    then take (length line - 1) line
    else line

abbrev pub is_blank : ℕ → Bool
is_blank c = c == b' ' || c == b'\t'

-- The position of the first byte that is no blank.
unfoldable pub blanks : Bytes → ℕ
blanks [] = 0
blanks (c ∷ cs) = if is_blank c then suc (blanks cs) else 0

-- A value of blanks alone stays as it is.
unfoldable pub skip_blanks : Bytes → Bytes
unfolding blanks
skip_blanks value = if blanks value == length value then value else drop (blanks value) value

-- The branch of the Status header.
unfoldable pub set_status : Bytes → Response → Response
set_status value r = elim (find b' ' value) [
  | some i ↦ record r { status_code = take i value; response_phrase = drop (i + 1) value }
  | none ↦ record r { status_code = value; response_phrase = lookup_reason_phrase value }
]

abbrev pub is_status : Bytes → Bool
is_status code = length code == 3 && all_digits code

-- What one line does to the response and the content type; `none` for `return false`, which keeps
-- what was done before it.
pub record CgiHeaders : Type 0 where
  pub accepted : Bool
  pub content_type : Bytes
  pub response : Response

unfoldable pub cgi_header : Bytes → Bytes → CgiHeaders → CgiHeaders
cgi_header key value h =
    if equal key (codes "content-type")
    then record h { content_type = value }
    else if equal key (codes "status")
    then (let s = set_status value h.response in
        record h { response = s; accepted = is_status s.status_code })
    else if equal key (codes "location")
    then record h { response = add_header (codes "Location") value h.response }
    else if equal key (codes "set-cookie")
    then record h { response = add_header (codes "Set-Cookie") value h.response }
    else h

unfoldable pub cgi_line : Bytes → CgiHeaders → CgiHeaders
unfolding cgi_header
cgi_line line h = if is_nil line then h else elim (find b':' line) [
  | none ↦ record h { accepted = false }
  | some colon ↦ cgi_header (lower (take colon line)) (skip_blanks (drop (colon + 1) line)) h
]

unfoldable pub cgi_lines : List Bytes → CgiHeaders → CgiHeaders
unfolding cgi_line
cgi_lines [] h = h
cgi_lines (line ∷ lines) h =
    let next = cgi_line (drop_cr line) h in
    let rest = cgi_lines lines next in if next.accepted then rest else next

-- What the loop starts from.
abbrev pub first_headers : Response → CgiHeaders
first_headers r = record {
  accepted = true;
  content_type = codes "text/html";
  response = record r { status_code = codes "200"; response_phrase = codes "OK" };
}

unfoldable pub parse_cgi_headers : Bytes → Response → CgiHeaders
unfolding cgi_lines lines_of drop_cr skip_blanks
parse_cgi_headers block r =
    if is_nil block
    then record (first_headers r) { accepted = false }
    else cgi_lines (lines_of [] block) (first_headers r)

module _ (site : Site) where
  -- The branch of a bad answer: the error page, and the instance deleted.
  unfoldable pub bad_gateway : M Response (Unit {0})
  bad_gateway r =
      (do
        elim r.cached_config [
          | some config ↦ build_error_page site (codes "502") config
          | none ↦ (λ s.
              ok tt (set_response_phrase (codes "Bad Gateway") (set_status_code (codes "502") s)))
        ]
        (λ s. ok tt (record s { cgi_instance = none })))
        r

  -- The new body, and the header block.
  unfoldable pub cgi_answer : Bytes → CgiHeaders → M Response (Unit {0})
  cgi_answer body h r =
      if not h.accepted
      then bad_gateway h.response
      else (do
        (if is_nil body then ok tt else on_store (append body))
        (λ s. ok tt (record (finalize_success site h.content_type s) { cgi_instance = none })))
          (record h.response { response_data_store = clear h.response.response_data_store })

  unfoldable pub answer_of : Bytes → M Response (Unit {0})
  answer_of output r =
      let parts = split_cgi_output output in
      if is_nil parts.0 then bad_gateway r else cgi_answer parts.1 (parse_cgi_headers parts.0 r) r

  unfoldable pub finalize_cgi_response : M Response (Unit {0})
  unfolding answer_of cgi_answer bad_gateway drain_data_store split_cgi_output parse_cgi_headers
  finalize_cgi_response r =
      (do output ← drain_data_store; (if is_nil output then bad_gateway else answer_of output))
        (record r { build_phase = build_done })

  -- cgiTimeout: the process is killed and reaped.
  unfoldable pub cgi_timeout : ServerConf → M Response (Unit {0})
  cgi_timeout config r =
      build_error_page site (codes "504") config
        (record r { cgi_instance = none; build_phase = build_done })
