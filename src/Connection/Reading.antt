-- ===== src/Connection/Reading.antt =====
-- src/Connection.cpp: `handleRead` and the functions that it calls.
use left_hook_roll.Connection.{
  Connection, ConnectionState, reading, processing, finished, on_request, trigger_error,
  update_activity_timer,
}
use left_hook_roll.DataStore.Files.{add_size, append}
use left_hook_roll.Prelude.Int.{ℤ, pos, negsuc}
use left_hook_roll.Prelude.Result.{M, ok, ◌>>◌}
use left_hook_roll.Prelude.{
  ℕ, ◌-◌, ◌^◌, suc, Bool, false, Option, none, some, [], ◌∷◌, ◌++◌, ltb, leb, if◌then◌else◌, drop,
  length,
}
use left_hook_roll.Request.Body.{on_body, is_chunked_done}
use left_hook_roll.Request.Headers.{parse_headers}
use left_hook_roll.Request.State.{
  Request, ReqState, req_headers, req_body, req_chunked, req_done, req_error,
}
use left_hook_roll.Response.State.{Site}
use left_hook_roll.Text.Numbers.{atoi, to_int}
use left_hook_roll.Text.{Bytes}

-- MAX_HEADER_SIZE
abbrev pub max_header_size : ℕ
max_header_size = 8192

-- static_cast<size_t>(_request->getContentLength())
abbrev pub size_of : ℤ → ℕ
size_of (pos n) = n
size_of (negsuc n) = 2 ^ 64 - suc n

-- _request->getBodyStore().getSize() >= static_cast<size_t>(_request->getContentLength())
abbrev pub has_body : Request → Bool
has_body r = leb (size_of r.content_length) r.body.current_size

abbrev pub process_if : Bool → M Connection (Unit {0})
process_if b c = ok tt (record c { state = if b then processing else c.state })

abbrev pub request_of : Connection → Request
request_of c = c.exchange.request

-- The tests on the bytes of the body that came with the headers.
unfoldable pub is_received : ReqState → Bytes → Request → Bool
unfolding is_chunked_done
is_received req_chunked bytes r = is_chunked_done bytes
is_received req_body bytes r = has_body r
is_received _ bytes r = false

unfoldable pub keep_leftover : Bytes → M Connection (Unit {0})
unfolding is_received
keep_leftover [] c = ok tt c
keep_leftover (b ∷ bs) c =
    (do
      on_request (on_body (append (b ∷ bs)))
      (λ d. process_if (is_received (request_of c).req_state (b ∷ bs) (request_of d)) d))
      c

module _ (site : Site) where
  -- What follows parseHeaders, which returned `header_end`.
  unfoldable pub after_headers : ReqState → ℕ → M Connection (Unit {0})
  unfolding keep_leftover to_int
  after_headers req_error header_end c = trigger_error site (atoi (request_of c).status_code) c
  after_headers req_headers header_end c = ok tt c
  after_headers req_done header_end c = ok tt (record c { read_buffer = []; state = processing })
  after_headers req_body header_end c =
      keep_leftover (drop header_end c.read_buffer) (record c { read_buffer = [] })
  after_headers req_chunked header_end c =
      keep_leftover (drop header_end c.read_buffer) (record c { read_buffer = [] })

  -- The buffer holds all bytes that have come so far.
  unfoldable pub headers_read : M Connection (Unit {0})
  unfolding after_headers parse_headers
  headers_read c =
      let parsed = parse_headers c.read_buffer (request_of c) in
      after_headers parsed.1.req_state parsed.0
        (record c { exchange = record c.exchange { request = parsed.1 } })

  unfoldable pub read_headers : Bytes → M Connection (Unit {0})
  unfolding headers_read
  read_headers bytes c =
      let d = record c { read_buffer = c.read_buffer ++ bytes } in
      if ltb max_header_size (length d.read_buffer)
      then trigger_error site (pos 431) d
      else headers_read d

  unfoldable pub read_body : Bytes → M Connection (Unit {0})
  read_body bytes = do
    on_request (on_body (append bytes))
    (λ c. process_if (has_body (request_of c)) c)

  unfoldable pub read_chunked : Bytes → M Connection (Unit {0})
  unfolding is_chunked_done
  read_chunked bytes = do on_request (on_body (append bytes)); process_if (is_chunked_done bytes)

  unfoldable pub read_by : ReqState → Bytes → M Connection (Unit {0})
  unfolding read_headers read_body read_chunked
  read_by req_headers bytes = read_headers bytes
  read_by req_body bytes = read_body bytes
  read_by req_chunked bytes = read_chunked bytes
  read_by _ bytes = ok tt

  -- recv returned `bytes`, at most MAX_HEADER_SIZE of them; `none` is -1, and no bytes is 0.
  unfoldable pub received : Option Bytes → M Connection (Unit {0})
  unfolding read_by update_activity_timer
  received none c = ok tt (record c { state = finished })
  received (some []) c = ok tt (record c { state = finished })
  received (some (b ∷ bs)) c =
      read_by (request_of c).req_state (b ∷ bs) (record (update_activity_timer site c) {
        total_bytes_read = add_size c.total_bytes_read (length (b ∷ bs));
      })

  abbrev pub read_when : ConnectionState → Option Bytes → M Connection (Unit {0})
  read_when reading reply = received reply
  read_when _ reply = ok tt

  unfoldable pub handle_read : Option Bytes → M Connection (Unit {0})
  unfolding received
  handle_read reply c = read_when c.state reply c
