-- ===== src/Response/Cgi/Status.antt =====
-- The status of an answer that is made of a script's headers.
use left_hook_roll.Dict.{insert}
use left_hook_roll.Prelude.{
  ◌∙◌, ℕ, ap, ◌++◌, ◌≡◌, refl, Bool, true, false, not, Option, none, some, List, [], ◌∷◌,
  if◌then◌else◌, is_nil, drop, take, ◌+◌,
}
use left_hook_roll.Response.Build.{
  generate_header_string, add_header, renewed, is_set_cookie_header,
}
use left_hook_roll.Response.Cgi.{
  CgiHeaders, cgi_header, cgi_line, cgi_lines, drop_cr, first_headers, is_status, lines_of,
  parse_cgi_headers, set_status, skip_blanks,
}
use left_hook_roll.Response.State.{Response}
use left_hook_roll.Text.Trim.{lower}
use left_hook_roll.Text.{is_digit, Bytes, codes, equal, find}

-- If the headers are accepted so far, the status is one of three digits.
abbrev IsFine : CgiHeaders → Type 0
IsFine h = h.accepted ≡ true → is_status h.response.status_code ≡ true

abbrev status_of : Response → Bytes
status_of r = r.status_code

renewed-status : (r : Response) → status_of (renewed r) ≡ status_of r
unfolding renewed
renewed-status r = go (not (is_nil r.header_buffer))
  where
    go :
        (b : Bool)
        → status_of (if b then record r { header_buffer = generate_header_string r } else r)
          ≡ status_of r
    go true = refl
    go false = refl

add_header-status :
    (key value : Bytes) (r : Response) → status_of (add_header key value r) ≡ status_of r
unfolding add_header
add_header-status key value r = go (is_set_cookie_header key)
  where
    s : Response
    s = record r { set_cookies = r.set_cookies ++ (value ∷ []) }

    t : Response
    t = record r { headers = insert key value r.headers }

    go : (b : Bool) → status_of (if b then renewed s else renewed t) ≡ status_of r
    go true = renewed-status s
    go false = renewed-status t

cgi_header-IsFine :
    (key value : Bytes) (h : CgiHeaders) → IsFine h → IsFine (cgi_header key value h)
unfolding cgi_header
cgi_header-IsFine key value h f =
    go (equal key (codes "content-type")) (equal key (codes "status"))
      (equal key (codes "location")) (equal key (codes "set-cookie"))
  where
    kept : (name : Bytes) → IsFine (record h { response = add_header name value h.response })
    kept name a = ap is_status (add_header-status name value h.response) ∙ f a

    go :
        (a b c d : Bool)
        → IsFine (
            if a
            then record h { content_type = value }
            else if b
            then record h {
              response = set_status value h.response;
              accepted = is_status (set_status value h.response).status_code;
            }
            else if c
            then record h { response = add_header (codes "Location") value h.response }
            else if d
            then record h { response = add_header (codes "Set-Cookie") value h.response }
            else h)
    go true b c d = f
    go false true c d = λ a. a
    go false false true d = kept (codes "Location")
    go false false false true = kept (codes "Set-Cookie")
    go false false false false = f

cgi_line-IsFine : (line : Bytes) (h : CgiHeaders) → IsFine h → IsFine (cgi_line line h)
unfolding cgi_line
cgi_line-IsFine line h f = go (is_nil line) (find b':' line)
  where
    go :
        (b : Bool) (o : Option ℕ)
        → IsFine (
            if b then h else elim o [
              | none ↦ record h { accepted = false }
              | some colon ↦
                  cgi_header (lower (take colon line)) (skip_blanks (drop (colon + 1) line)) h
            ])
    go true o = f
    go false none = λ a. absurd (cc a)
    go false (some colon) = cgi_header-IsFine _ _ h f

cgi_lines-IsFine : (lines : List Bytes) (h : CgiHeaders) → IsFine h → IsFine (cgi_lines lines h)
unfolding cgi_lines
cgi_lines-IsFine [] h f = f
cgi_lines-IsFine (line ∷ lines) h f =
    go (cgi_line (drop_cr line) h).accepted (cgi_line-IsFine (drop_cr line) h f)
      (cgi_lines-IsFine lines (cgi_line (drop_cr line) h) (cgi_line-IsFine (drop_cr line) h f))
  where
    go :
        (b : Bool)
        → IsFine (cgi_line (drop_cr line) h)
        → IsFine (cgi_lines lines (cgi_line (drop_cr line) h))
        → IsFine
            (if b then cgi_lines lines (cgi_line (drop_cr line) h) else cgi_line (drop_cr line) h)
    go true p q = q
    go false p q = p

default_status : (r : Response) → is_status (first_headers r).response.status_code ≡ true
unfolding is_digit
default_status r = refl

-- Whatever header block a script writes: if it is accepted, the status of the answer consists of
-- three digits, whether the script gave it or it is the default.
pub parse_cgi_headers-status :
    (block : Bytes) (r : Response)
    → (parse_cgi_headers block r).accepted ≡ true
    → is_status (parse_cgi_headers block r).response.status_code ≡ true
unfolding parse_cgi_headers
parse_cgi_headers-status block r = go (is_nil block)
  where
    go :
        (b : Bool)
        → IsFine (
            if b
            then record (first_headers r) { accepted = false }
            else cgi_lines (lines_of [] block) (first_headers r))
    go true = λ a. absurd (cc a)
    go false = cgi_lines-IsFine (lines_of [] block) (first_headers r) (λ a. default_status r)
