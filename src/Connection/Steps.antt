-- ===== src/Connection/Steps.antt =====
-- The state machine of a connection: which states the handlers lead to.
use left_hook_roll.Request.Body.{on_body, is_chunked_done}
use left_hook_roll.Response.Send.{send_slice}
use left_hook_roll.DataStore.Files.{append}
use mathlib.Core.Path.{subst}
use left_hook_roll.Request.Headers.{parse_headers}
use left_hook_roll.Prelude.Int.{pos}
use left_hook_roll.Text.Numbers.{atoi}
use left_hook_roll.Connection.{
  update_activity_timer, set_state, Connection, ConnectionState, reading, writing, processing,
  waiting_for_cgi, finished, trigger_error,
}
use left_hook_roll.Connection.Processing.{
  handle_write, process, process_when, try_process, write_when,
}
use left_hook_roll.Connection.Reading.{
  max_header_size, request_of, after_headers, handle_read, has_body, headers_read, is_received,
  keep_leftover, process_if, read_body, read_by, read_chunked, read_headers, read_when, received,
}
use left_hook_roll.Prelude.{
  sym, drop, length, ltb, ◌++◌, ℕ, ◌≡◌, refl, Bool, true, false, Option, none, some, [], ◌∷◌,
  if◌then◌else◌,
}
use left_hook_roll.Prelude.Result.{Result, ok}
use left_hook_roll.Request.State.{ReqState, req_headers, req_body, req_chunked, req_done, req_error}
use left_hook_roll.Response.State.{Site}
use left_hook_roll.Text.{Bytes}
use left_hook_roll.Connection.Leaves.{
  FromReading, FromProcessing, FromWriting, still_reading, still_processing, still_writing,
  request_read, refused, closed, answered, cgi_started, sent, Leaves, Leaves-request,
  Leaves-response, Leaves-error, Leaves-caught, Leaves-tried,
}

-- What handleRead does to a connection that reads.
module _ (site : Site) (P : ConnectionState → Type 0) (w : P writing) (g : P processing)
    (f : P finished) where
  Leaves-if : (b : Bool) (c : Connection) → P c.state → Leaves P (process_if b c)
  Leaves-if true c p = g
  Leaves-if false c p = p

  Leaves-leftover : (bytes : Bytes) (c : Connection) → P c.state → Leaves P (keep_leftover bytes c)
  unfolding keep_leftover
  Leaves-leftover [] c p = p
  Leaves-leftover (b ∷ bs) c p =
      Leaves-request P
        (λ u d. process_if (is_received (request_of c).req_state (b ∷ bs) (request_of d)) d) c p
        (on_body (append (b ∷ bs)))
        (λ u r.
          Leaves-if (is_received (request_of c).req_state (b ∷ bs) r)
            (record c { exchange = record c.exchange { request = r } }) p)

  Leaves-headers :
      (st : ReqState) (n : ℕ) (c : Connection) → P c.state → Leaves P (after_headers site st n c)
  unfolding after_headers
  Leaves-headers req_error n c p = Leaves-error site P w (atoi (request_of c).status_code) c p
  Leaves-headers req_headers n c p = p
  Leaves-headers req_done n c p = g
  Leaves-headers req_body n c p =
      Leaves-leftover (drop n c.read_buffer) (record c { read_buffer = [] }) p
  Leaves-headers req_chunked n c p =
      Leaves-leftover (drop n c.read_buffer) (record c { read_buffer = [] }) p

  Leaves-read_headers :
      (bytes : Bytes) (c : Connection) → P c.state → Leaves P (read_headers site bytes c)
  unfolding read_headers headers_read
  Leaves-read_headers bytes c p = go (ltb max_header_size (length (c.read_buffer ++ bytes)))
    where
      d : Connection
      d = record c { read_buffer = c.read_buffer ++ bytes }

      go : (b : Bool) → Leaves P (if b then trigger_error site (pos 431) d else headers_read site d)
      go true = Leaves-error site P w (pos 431) d p
      go false =
          Leaves-headers (parse_headers d.read_buffer (request_of d)).1.req_state
            (parse_headers d.read_buffer (request_of d)).0 _ p

  Leaves-read_by :
      (st : ReqState) (bytes : Bytes) (c : Connection)
      → P c.state
      → Leaves P (read_by site st bytes c)
  unfolding read_by read_body read_chunked
  Leaves-read_by req_headers bytes c p = Leaves-read_headers bytes c p
  Leaves-read_by req_body bytes c p =
      Leaves-request P (λ u d. process_if (has_body (request_of d)) d) c p (on_body (append bytes))
        (λ u r.
          Leaves-if (has_body r) (record c { exchange = record c.exchange { request = r } }) p)
  Leaves-read_by req_chunked bytes c p =
      Leaves-request P (λ u. process_if (is_chunked_done bytes)) c p (on_body (append bytes))
        (λ u r.
          Leaves-if (is_chunked_done bytes)
            (record c { exchange = record c.exchange { request = r } }) p)
  Leaves-read_by req_done bytes c p = p
  Leaves-read_by req_error bytes c p = p

  Leaves-received :
      (reply : Option Bytes) (c : Connection) → P c.state → Leaves P (received site reply c)
  unfolding received update_activity_timer
  Leaves-received none c p = f
  Leaves-received (some []) c p = f
  Leaves-received (some (b ∷ bs)) c p = Leaves-read_by (request_of c).req_state (b ∷ bs) _ p

-- In its own state a handler leads along the state machine; in any other it changes nothing.
abbrev pub Reads : ConnectionState → Connection → Result Connection (Unit {0}) → Type 0
Reads reading c x = Leaves FromReading x
Reads _ c x = x ≡ ok tt c

abbrev pub Processes : ConnectionState → Connection → Result Connection (Unit {0}) → Type 0
Processes processing c x = Leaves FromProcessing x
Processes _ c x = x ≡ ok tt c

abbrev pub Sends : ConnectionState → Connection → Result Connection (Unit {0}) → Type 0
Sends writing c x = Leaves FromWriting x
Sends _ c x = x ≡ ok tt c

-- Whatever the client, the files and the kernel do, each handler leaves the connection, also where it
-- throws, in a state that the state machine allows: handleRead leads from READING to PROCESSING,
-- WRITING or FINISHED or stays; process leads from PROCESSING to WRITING or WAITING_FOR_CGI or stays;
-- handleWrite leads from WRITING to FINISHED or stays. In any other state each returns and leaves the
-- connection as it was.
pub handlers-act :
    (site : Site) (reply : Option Bytes) (c : Connection)
    → Reads c.state c (handle_read site reply c)
      × Processes c.state c (process site c)
      × Sends c.state c (handle_write site c)
unfolding handle_read process handle_write update_activity_timer
handlers-act site reply c = (read_it c.state refl, process_it c.state refl, write_it c.state refl)
  where
    read_it : (st : ConnectionState) → c.state ≡ st → Reads st c (read_when site st reply c)
    read_it reading e =
        Leaves-received site FromReading refused request_read closed reply c
          (subst FromReading (sym e) still_reading)
    read_it writing e = refl
    read_it processing e = refl
    read_it waiting_for_cgi e = refl
    read_it finished e = refl

    process_it : (st : ConnectionState) → c.state ≡ st → Processes st c (process_when site st c)
    process_it processing e =
        Leaves-caught site FromProcessing answered
          (try_process site (record c { last_activity = site.time }))
          (Leaves-tried site FromProcessing answered cgi_started
            (record c { last_activity = site.time })
            (subst FromProcessing (sym e) still_processing))
    process_it writing e = refl
    process_it reading e = refl
    process_it waiting_for_cgi e = refl
    process_it finished e = refl

    ended :
        (b : Bool) (d : Connection)
        → FromWriting d.state
        → Leaves FromWriting ((if b then set_state finished else ok tt) d)
    ended true d m = sent
    ended false d m = m

    write_it : (st : ConnectionState) → c.state ≡ st → Sends st c (write_when site st c)
    write_it writing e =
        Leaves-response FromWriting (λ b. if b then set_state finished else ok tt)
          (record c { last_activity = site.time }) (subst FromWriting (sym e) still_writing)
          send_slice (λ b r. ended b _ (subst FromWriting (sym e) still_writing))
    write_it reading e = refl
    write_it processing e = refl
    write_it waiting_for_cgi e = refl
    write_it finished e = refl
