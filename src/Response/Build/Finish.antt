-- ===== src/Response/Build/Finish.antt =====
-- The header block that an answer is sealed with.
use left_hook_roll.Dict.{Dict, insert, lookup, lookup-insert_self, lookup-insert_ne}
use left_hook_roll.Prelude.{◌≡◌, refl, Bool, true, false, not, some, ap, ◌∙◌, if◌then◌else◌, is_nil}
use left_hook_roll.Response.Build.{
  add_header, finish, generate_header_string, is_set_cookie_header, sealed, finalize_success,
}
use left_hook_roll.Response.State.{Response, Site}
use left_hook_roll.Text.Numbers.{show}
use left_hook_roll.Text.Trim.{lower}
use left_hook_roll.Text.{Bytes, codes, equal}

-- addHeader on a key that is not Set-Cookie, but for the header block.
add_header-insert :
    (key value : Bytes) (r : Response)
    → is_set_cookie_header key ≡ false
    → (block : Bytes) × (add_header key value r
        ≡ record r { headers = insert key value r.headers; header_buffer = block })
unfolding add_header
add_header-insert key value r e = rw e (go (is_nil r.header_buffer))
  where
    s : Response
    s = record r { headers = insert key value r.headers }

    go :
        (b : Bool)
        → (block : Bytes) × ((if not b
              then record s { header_buffer = generate_header_string s }
              else s)
            ≡ record s { header_buffer = block })
    go true = (r.header_buffer, refl)
    go false = (generate_header_string s, refl)

sealed-block :
    (block : Bytes) (r : Response) → sealed (record r { header_buffer = block }) ≡ sealed r
unfolding sealed generate_header_string
sealed-block block r = refl

abbrev pub with_headers : Dict → Response → Response
with_headers m r = record r { headers = m }

-- The headers of `finish`.
abbrev pub finished_headers : Site → Bytes → Dict → Dict
finished_headers site length m =
    insert (codes "Connection") (codes "close")
      (insert (codes "Date") site.http_date (insert (codes "Content-Length") length m))

plain :
    (is_set_cookie_header (codes "Connection") ≡ false)
    × (is_set_cookie_header (codes "Date") ≡ false)
    × (is_set_cookie_header (codes "Content-Length") ≡ false)
    × (is_set_cookie_header (codes "Content-Type") ≡ false)
unfolding is_set_cookie_header lower equal
plain = (refl, refl, refl, refl)

finish-sealed :
    (site : Site) (length : Bytes) (r : Response)
    → finish site length r ≡ sealed (with_headers (finished_headers site length r.headers) r)
unfolding finish
finish-sealed site length r =
    ap
      (λ s. sealed (
        add_header (codes "Connection") (codes "close")
          (add_header (codes "Date") site.http_date s)))
      first.1
    ∙ ap (λ s. sealed (add_header (codes "Connection") (codes "close") s)) second.1
    ∙ ap sealed third.1
    ∙ sealed-block third.0 (with_headers (finished_headers site length r.headers) r)
  where
    Inserted : Bytes → Bytes → Response → Type 0
    Inserted key value s =
        (block : Bytes) × (add_header key value s
          ≡ record s { headers = insert key value s.headers; header_buffer = block })

    first : Inserted (codes "Content-Length") length r
    first = add_header-insert (codes "Content-Length") length r plain.2

    second_from : Response
    second_from = record r {
      headers = insert (codes "Content-Length") length r.headers;
      header_buffer = first.0;
    }

    second : Inserted (codes "Date") site.http_date second_from
    second = add_header-insert (codes "Date") site.http_date second_from plain.1

    third_from : Response
    third_from = record second_from {
      headers = insert (codes "Date") site.http_date second_from.headers;
      header_buffer = second.0;
    }

    third : Inserted (codes "Connection") (codes "close") third_from
    third = add_header-insert (codes "Connection") (codes "close") third_from plain.0

-- The headers of `finalize_success`.
abbrev pub success_headers : Site → Bytes → Response → Dict
success_headers site content_type r =
    finished_headers site (show r.response_data_store.current_size)
      (insert (codes "Content-Type") content_type r.headers)

-- _finalizeSuccess puts four headers into the answer and seals it with the header block of them.
pub finalize_success-sealed :
    (site : Site) (content_type : Bytes) (r : Response)
    → finalize_success site content_type r
      ≡ sealed (with_headers (success_headers site content_type r) r)
unfolding finalize_success
finalize_success-sealed site content_type r =
    let h : (block : Bytes) × (add_header (codes "Content-Type") content_type r ≡ record r {
      headers = insert (codes "Content-Type") content_type r.headers;
      header_buffer = block;
    }) =
      add_header-insert (codes "Content-Type") content_type r plain.3 in
    ap (finish site (show r.response_data_store.current_size)) h.1
    ∙ finish-sealed site (show r.response_data_store.current_size) (record r {
      headers = insert (codes "Content-Type") content_type r.headers;
      header_buffer = h.0;
    })
    ∙ sealed-block h.0 (with_headers (success_headers site content_type r) r)

pub content_length_of :
    (site : Site) (length : Bytes) (m : Dict)
    → lookup (codes "Content-Length") (finished_headers site length m) ≡ some length
content_length_of site length m =
    lookup-insert_ne (codes "Connection") (codes "Content-Length") (codes "close") _ (λ e. cc e)
    ∙ lookup-insert_ne (codes "Date") (codes "Content-Length") site.http_date _ (λ e. cc e)
    ∙ lookup-insert_self (codes "Content-Length") length m
