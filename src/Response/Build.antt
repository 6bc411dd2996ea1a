-- ===== src/Response/Build.antt =====
-- src/Response.cpp: the header block, the error pages and the files that are served.
pub mod Finish
pub mod ErrorPages
use left_hook_roll.Conf.{ServerConf, get_error_page_path}
use left_hook_roll.DataStore.Files.{append, clear}
use left_hook_roll.Dict.{Dict, insert}
use left_hook_roll.Prelude.Int.{ℤ, pos, negsuc}
use left_hook_roll.Prelude.Result.{M, ok, ◌>>◌}
use left_hook_roll.Prelude.{
  zero, suc, Bool, not, Option, none, some, List, [], ◌∷◌, ◌++◌, if◌then◌else◌, is_nil,
}
use left_hook_roll.Request.State.{Request, get_cookie}
use left_hook_roll.Response.Pages.{lookup_reason_phrase, build_default_error_html}
use left_hook_roll.Response.Paths.{detect_content_type}
use left_hook_roll.Response.State.{Response, Site, Stat, build_done, sending_res_head, on_store}
use left_hook_roll.Text.Numbers.{show, show_int, atoi, to_int}
use left_hook_roll.Text.Trim.{lower}
use left_hook_roll.Text.{Bytes, codes, equal}

unfoldable pub is_set_cookie_header : Bytes → Bool
is_set_cookie_header key = equal (lower key) (codes "set-cookie")

unfoldable pub header_lines : Dict → Bytes
header_lines [] = []
header_lines ((key, value) ∷ m) = (key ++ (codes ": " ++ (value ++ codes "\r\n"))) ++ header_lines m

unfoldable pub cookie_lines : List Bytes → Bytes
cookie_lines [] = []
cookie_lines (cookie ∷ cs) = (codes "Set-Cookie: " ++ (cookie ++ codes "\r\n")) ++ cookie_lines cs

unfoldable pub generate_header_string : Response → Bytes
generate_header_string r =
    (r.version
      ++ (codes " " ++ (r.status_code ++ (codes " " ++ (r.response_phrase ++ codes "\r\n")))))
    ++ (header_lines r.headers ++ (cookie_lines r.set_cookies ++ codes "\r\n"))

-- if (!_headerBuffer.empty()) _headerBuffer = _generateHeaderString();
unfoldable pub renewed : Response → Response
renewed r =
    if not (is_nil r.header_buffer)
    then record r { header_buffer = generate_header_string r }
    else r

unfoldable pub add_header : Bytes → Bytes → Response → Response
unfolding renewed
add_header key value r =
    if is_set_cookie_header key
    then renewed (record r { set_cookies = r.set_cookies ++ (value ∷ []) })
    else renewed (record r { headers = insert key value r.headers })

-- count++ on an int, which the sources take not to overflow
abbrev pub one_more : ℤ → ℤ
one_more (pos n) = pos (suc n)
one_more (negsuc zero) = pos 0
one_more (negsuc (suc n)) = negsuc n

unfoldable pub cookie_count : Bytes → ℤ
unfolding to_int
cookie_count old = if is_nil old then pos 0 else atoi old

unfoldable pub add_cookie : Request → Response → Response
unfolding cookie_count
add_cookie req r =
    let count = one_more (cookie_count (get_cookie req (codes "session_count"))) in
    record r {
      set_cookies =
          r.set_cookies ++ (((codes "session_count=" ++ show_int count) ++ codes "; Path=/") ∷ []);
    }

unfoldable pub set_status_code : Bytes → Response → Response
set_status_code code r = record r {
  status_code = code;
  response_phrase = lookup_reason_phrase code;
}

unfoldable pub set_response_phrase : Bytes → Response → Response
set_response_phrase phrase r = record r { response_phrase = phrase }

-- _headerBuffer = _generateHeaderString(); _responseState = SENDING_RES_HEAD;
unfoldable pub sealed : Response → Response
sealed r = record r { header_buffer = generate_header_string r; response_state = sending_res_head }

module _ (site : Site) where
  -- The three headers that every answer gets, and the header block.
  unfoldable pub finish : Bytes → Response → Response
  finish length r = sealed (
      add_header (codes "Connection") (codes "close")
        (add_header (codes "Date") site.http_date (add_header (codes "Content-Length") length r)))

  unfoldable pub finalize_success : Bytes → Response → Response
  finalize_success content_type r =
      finish (show r.response_data_store.current_size)
        (add_header (codes "Content-Type") content_type r)

  -- The members that buildErrorPage resets.
  unfoldable pub reset_for_error : Response → Response
  reset_for_error r = record r {
    response_data_store = clear r.response_data_store;
    total_bytes_sent = 0;
    headers = [];
    set_cookies = [];
    header_buffer = [];
    file_fd = none;
    file_size = 0;
    stream_buf_len = 0;
    stream_buf_sent = 0;
    post_out_fd = none;
    build_phase = build_done;
  }

  -- The loop that reads a custom page.
  unfoldable pub append_pieces : List Bytes → M Response (Unit {0})
  append_pieces [] r = ok tt r
  append_pieces ([] ∷ pieces) r = ok tt r
  append_pieces ((c ∷ cs) ∷ pieces) r = (on_store (append (c ∷ cs)) >> append_pieces pieces) r

  unfoldable pub default_page : Bytes → M Response (Unit {0})
  default_page code = do
    (λ r. on_store (append (build_default_error_html code r.response_phrase)) r)
    (λ r. ok tt (finalize_success (codes "text/html") r))

  -- customPath, if it can be opened
  unfoldable pub custom_page : Bytes → Option (List Bytes)
  custom_page path = if is_nil path then none else site.open_to_read path

  unfoldable pub build_error_page : Bytes → ServerConf → M Response (Unit {0})
  build_error_page code config r =
      let s = set_status_code code (reset_for_error r) in
      elim (custom_page (get_error_page_path config code)) [
        | none ↦ default_page code s
        | some pieces ↦
            (do append_pieces pieces; (λ t. ok tt (finalize_success (codes "text/html") t))) s
      ]

  -- _serveFile, once the file is open.
  unfoldable pub stream_file : Bytes → Stat → List Bytes → Response → Response
  stream_file path st pieces r = finish (show st.size) (
      add_header (codes "Content-Type") (detect_content_type path) (record r {
        file_fd = some pieces;
        file_size = st.size;
        stream_buf_len = 0;
        stream_buf_sent = 0;
        status_code = codes "200";
        response_phrase = codes "OK";
      }))

  unfoldable pub serve_file : Bytes → ServerConf → M Response (Unit {0})
  serve_file path config r = elim (site.stat path) [
    | none ↦ build_error_page (codes "404") config r
    | some st ↦ elim (site.open_to_read path) [
      | none ↦ build_error_page (codes "404") config r
      | some pieces ↦ ok tt (stream_file path st pieces r)
    ]
  ]
