-- ===== src/Response/Held/Sending.antt =====
-- The script's instance while an answer is sent.
use left_hook_roll.Response.Held.{Held-on_store, Held-bind, Held-if, Held}
use left_hook_roll.Text.{Bytes}
use left_hook_roll.DataStore.Kernel.{file_mode, ram, BufferMode}
use left_hook_roll.DataStore.Files.{add_size, read, reset_read_position}
use left_hook_roll.Response.State.{
  sending_body_chunked, sending_body_static, sending_res_head, on_store, ResponseState, Response,
  throw_if_sigpipe,
}
use left_hook_roll.Response.Send.{
  close_file, sub_size, filled, send_to, progress, pending, send_in, send_body_from, advance_stream,
  send_from_file, after_header, end_ram_slice, send_body_data_store, end_file_slice, send_slice,
  send_from, end_header_slice, send_from_ram, send_store_slice, send_bytes, send_body_static,
  end_store_slice, send_body_file, send_header, send_file_slice,
}
use left_hook_roll.CgiManager.State.{CgiManager}
use left_hook_roll.Prelude.Result.{ok, M, ◌>>=◌}
use left_hook_roll.Prelude.{
  ◌==◌, not, drop, min, take, length, arith, is_nil, none, ◌∷◌, some, true, ◌≡◌, if◌then◌else◌,
  List, ℕ, Bool, Option, [],
}

-- The slice that is taken of a body in memory, and its sending.
abbrev ram_slice : Response → Bytes
ram_slice r =
    let offset = sub_size r.total_bytes_sent (length r.header_buffer) in
    take (min (sub_size r.response_data_store.current_size offset) r.write_buffer_size)
      (drop offset r.response_data_store.data_buffer)

abbrev ram_bytes : M Response Bool
ram_bytes r = (do sent ← send_bytes (ram_slice r); end_ram_slice (progress sent)) r

-- What follows a read of the body's file.
abbrev sent_if : Bytes → M Response Bool
sent_if bytes s = if is_nil bytes then ok true s else send_store_slice (filled bytes s)

abbrev file_bytes : M Response Bool
file_bytes r = (on_store (read r.write_buffer_size) >>= sent_if) r

-- The slice that is taken of the header block, and its sending.
abbrev header_slice : Response → Bytes
header_slice r =
    take (min (sub_size (length r.header_buffer) r.total_bytes_sent) r.write_buffer_size)
      (drop r.total_bytes_sent r.header_buffer)

abbrev header_bytes : M Response Bool
header_bytes = do sent ← (λ r. send_bytes (header_slice r) r); end_header_slice (progress sent)

module _ (i : Option CgiManager) where
  Held-throw : (r : Response) → r.cgi_instance ≡ i → Held i (throw_if_sigpipe r)
  unfolding throw_if_sigpipe
  Held-throw r h = ground arith

  Held-send_bytes :
      (bytes : Bytes) (r : Response) → r.cgi_instance ≡ i → Held i (send_bytes bytes r)
  unfolding send_bytes
  Held-send_bytes bytes r h =
      Held-bind i throw_if_sigpipe (λ u. ok (send_to bytes r.socket.send_replies r.socket).0)
        (record r { socket = (send_to bytes r.socket.send_replies r.socket).1 }) (Held-throw _ h)
        (λ u s q. q)

  Held-end_file : (k : Option ℕ) (r : Response) → r.cgi_instance ≡ i → Held i (end_file_slice k r)
  unfolding end_file_slice advance_stream
  Held-end_file none r h = h
  Held-end_file (some k) r h = ground arith

  Held-file_slice : (r : Response) → r.cgi_instance ≡ i → Held i (send_file_slice r)
  unfolding send_file_slice
  Held-file_slice r h =
      Held-bind i (λ s. send_bytes (pending s) s) (λ sent. end_file_slice (progress sent)) r
        (Held-send_bytes (pending r) r h) (λ sent. Held-end_file (progress sent))

  Held-body_file :
      (pieces : List Bytes) (r : Response) → r.cgi_instance ≡ i → Held i (send_body_file pieces r)
  unfolding send_body_file
  Held-body_file [] r h =
      Held-if i (not (r.stream_buf_len == 0)) (send_file_slice r) (ok true (close_file r))
        (Held-file_slice r h) h
  Held-body_file (bytes ∷ rest) r h =
      let next = filled bytes (record r { file_fd = some rest }) in
      Held-if i (not (r.stream_buf_len == 0)) (send_file_slice r)
        (if is_nil bytes then ok true (close_file r) else send_file_slice next)
        (Held-file_slice r h)
        (Held-if i (is_nil bytes) (ok true (close_file r)) (send_file_slice next) h
          (Held-file_slice next h))

  Held-end_ram : (k : Option ℕ) (r : Response) → r.cgi_instance ≡ i → Held i (end_ram_slice k r)
  unfolding end_ram_slice
  Held-end_ram none r h = h
  Held-end_ram (some k) r h = h

  Held-ram_bytes : (r : Response) → r.cgi_instance ≡ i → Held i (ram_bytes r)
  Held-ram_bytes r h =
      Held-bind i (send_bytes (ram_slice r)) (λ sent. end_ram_slice (progress sent)) r
        (Held-send_bytes (ram_slice r) r h) (λ sent. Held-end_ram (progress sent))

  Held-ram : (r : Response) → r.cgi_instance ≡ i → Held i (send_from_ram r)
  unfolding send_from_ram
  Held-ram r h =
      let offset = sub_size r.total_bytes_sent (length r.header_buffer) in
      Held-if i (sub_size r.response_data_store.current_size offset == 0) (ok true r) (ram_bytes r)
        h (Held-ram_bytes r h)

  Held-end_store : (k : Option ℕ) (r : Response) → r.cgi_instance ≡ i → Held i (end_store_slice k r)
  unfolding end_store_slice advance_stream
  Held-end_store none r h = h
  Held-end_store (some k) r h = h

  Held-store_slice : (r : Response) → r.cgi_instance ≡ i → Held i (send_store_slice r)
  unfolding send_store_slice
  Held-store_slice r h =
      Held-bind i (λ s. send_bytes (pending s) s) (λ sent. end_store_slice (progress sent)) r
        (Held-send_bytes (pending r) r h) (λ sent. Held-end_store (progress sent))

  Held-sent_if : (bytes : Bytes) (s : Response) → s.cgi_instance ≡ i → Held i (sent_if bytes s)
  Held-sent_if bytes s q = ground (arith, q, Held-store_slice (filled bytes s) q)

  Held-from_file : (r : Response) → r.cgi_instance ≡ i → Held i (send_from_file r)
  unfolding send_from_file
  Held-from_file r h =
      Held-if i (not (r.stream_buf_len == 0)) (send_store_slice r) (file_bytes r)
        (Held-store_slice r h)
        (Held-bind i (on_store (read r.write_buffer_size)) sent_if r
          (Held-on_store i (read r.write_buffer_size) r h) Held-sent_if)

  Held-from : (mode : BufferMode) (r : Response) → r.cgi_instance ≡ i → Held i (send_from mode r)
  unfolding send_from
  Held-from ram r h = Held-ram r h
  Held-from file_mode r h = Held-from_file r h

  Held-data_store : (r : Response) → r.cgi_instance ≡ i → Held i (send_body_data_store r)
  unfolding send_body_data_store
  Held-data_store r h =
      Held-bind i throw_if_sigpipe (λ u s. send_from s.response_data_store.mode s) r
        (Held-throw r h) (λ u s. Held-from s.response_data_store.mode s)

  Held-static : (r : Response) → r.cgi_instance ≡ i → Held i (send_body_static r)
  unfolding send_body_static send_body_from
  Held-static r h = go r.file_fd
    where
      go : (f : Option (List Bytes)) → Held i (send_body_from f r)
      go (some pieces) =
          Held-bind i throw_if_sigpipe (λ u. send_body_file pieces) r (Held-throw r h)
            (λ u. Held-body_file pieces)
      go none =
          Held-bind i (on_store reset_read_position) (λ u. send_body_data_store) r
            (Held-on_store i reset_read_position r h) (λ u. Held-data_store)

  Held-after_header :
      (f : Option (List Bytes)) (r : Response) → r.cgi_instance ≡ i → Held i (after_header f r)
  unfolding after_header
  Held-after_header none r h =
      ground (arith, Held-static (record r { response_state = sending_body_static }) h)
  Held-after_header (some pieces) r h = Held-static _ h

  Held-end_header :
      (k : Option ℕ) (r : Response) → r.cgi_instance ≡ i → Held i (end_header_slice k r)
  unfolding end_header_slice
  Held-end_header none r h = h
  Held-end_header (some k) r h = ground (
    arith,
    Held-after_header r.file_fd (record r { total_bytes_sent = add_size r.total_bytes_sent k }) h,
  )

  Held-header : (r : Response) → r.cgi_instance ≡ i → Held i (send_header r)
  unfolding send_header
  Held-header r h =
      Held-bind i throw_if_sigpipe (λ u. header_bytes) r (Held-throw r h)
        (λ u s q.
          Held-bind i (λ t. send_bytes (header_slice t) t)
            (λ sent. end_header_slice (progress sent)) s (Held-send_bytes (header_slice s) s q)
            (λ sent. Held-end_header (progress sent)))

  pub Held-send_slice : (r : Response) → r.cgi_instance ≡ i → Held i (send_slice r)
  unfolding send_slice send_in
  Held-send_slice r h = go r.response_state
    where
      go : (st : ResponseState) → Held i (send_in st r)
      go sending_res_head = Held-header r h
      go sending_body_static = Held-static r h
      go sending_body_chunked = h
