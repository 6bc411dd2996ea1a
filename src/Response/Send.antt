-- ===== src/Response/Send.antt =====
-- src/Response.cpp: `sendSlice` and the functions that it calls.
pub mod Calls
pub mod Answer
pub mod Body
pub mod InOrder
use left_hook_roll.DataStore.Files.{add_size, read, reset_read_position}
use left_hook_roll.DataStore.Kernel.{BufferMode, ram, file_mode}
use left_hook_roll.Prelude.Result.{M, ok, ◌>>=◌, ◌>>◌}
use left_hook_roll.Prelude.{
  ℕ, zero, suc, ◌+◌, ◌-◌, ◌%◌, ◌^◌, min, Bool, true, false, not, Option, none, some, List, [], ◌∷◌,
  ◌++◌, ◌==◌, ltb, leb, if◌then◌else◌, is_nil, take, drop, length,
}
use left_hook_roll.Response.State.{
  Response, ResponseState, sending_res_head, sending_body_static, sending_body_chunked, SendReply,
  taken, failed, broken_pipe, Socket, on_store, throw_if_sigpipe,
}
use left_hook_roll.Text.{Bytes}

-- size_t subtraction
abbrev pub sub_size : ℕ → ℕ → ℕ
sub_size a b = ((a + 2 ^ 64) - b) % 2 ^ 64

-- One send(2): the count that it returns, or `none` for -1, and the socket.
unfoldable pub send_to : Bytes → List SendReply → Socket → Option ℕ × Socket
send_to bytes [] s =
    (some (length bytes), record s { output = s.output ++ bytes; send_replies = [] })
send_to bytes (taken k ∷ rs) s =
    (some (min k (length bytes)), record s { output = s.output ++ take k bytes; send_replies = rs })
send_to bytes (failed ∷ rs) s = (none, record s { send_replies = rs })
send_to bytes (broken_pipe ∷ rs) s = (none, record s { send_replies = rs; sigpipe = true })

-- send, and throwIfSigpipe behind it
unfoldable pub send_bytes : Bytes → M Response (Option ℕ)
unfolding send_to throw_if_sigpipe
send_bytes bytes r =
    let sent = send_to bytes r.socket.send_replies r.socket in
    (do throw_if_sigpipe; ok sent.0) (record r { socket = sent.1 })

-- The count of a send that goes on: `none` for the test `sent <= 0`.
abbrev pub progress : Option ℕ → Option ℕ
progress none = none
progress (some zero) = none
progress (some (suc k)) = some (suc k)

-- _streamBufSent += sent; _totalBytesSent += sent; if (_streamBufSent == _streamBufLen) ...
unfoldable pub advance_stream : ℕ → Response → Response
advance_stream k r = record r {
  stream_buf_sent = r.stream_buf_sent + k;
  total_bytes_sent = add_size r.total_bytes_sent k;
  stream_buf_len = if r.stream_buf_sent + k == r.stream_buf_len then 0 else r.stream_buf_len;
}

abbrev pub close_file : Response → Response
close_file r = record r { file_fd = none }

-- The rest of the stream buffer that is valid.
abbrev pub pending : Response → Bytes
pending r = take (r.stream_buf_len - r.stream_buf_sent) (drop r.stream_buf_sent r.stream_buf)

abbrev pub filled : Bytes → Response → Response
filled bytes r = record r { stream_buf = bytes; stream_buf_len = length bytes; stream_buf_sent = 0 }

-- _sendBodyFile, once the stream buffer holds bytes.
unfoldable pub end_file_slice : Option ℕ → M Response Bool
unfolding advance_stream
end_file_slice none r = ok true (close_file r)
end_file_slice (some k) r =
    let s = advance_stream k r in
    if leb s.file_size (sub_size s.total_bytes_sent (length s.header_buffer))
    then ok true (close_file s)
    else ok false s

unfoldable pub send_file_slice : M Response Bool
unfolding send_bytes end_file_slice
send_file_slice = do sent ← (λ r. send_bytes (pending r) r); end_file_slice (progress sent)

-- What read(2) on the file returns next.
unfoldable pub send_body_file : List Bytes → M Response Bool
unfolding send_file_slice
send_body_file pieces r = if not (r.stream_buf_len == 0) then send_file_slice r else elim pieces [
  | [] ↦ ok true (close_file r)
  | ◌∷◌ bytes rest ↦
      if is_nil bytes
      then ok true (close_file r)
      else send_file_slice (filled bytes (record r { file_fd = some rest }))
]

abbrev pub is_all_sent : Response → Bool
is_all_sent r =
    r.total_bytes_sent == add_size (length r.header_buffer) r.response_data_store.current_size

-- The RAM branch of _sendBodyDataStore.
unfoldable pub end_ram_slice : Option ℕ → M Response Bool
end_ram_slice none r = ok true r
end_ram_slice (some k) r =
    let s = record r { total_bytes_sent = add_size r.total_bytes_sent k } in ok (is_all_sent s) s

unfoldable pub send_from_ram : M Response Bool
unfolding send_bytes end_ram_slice
send_from_ram r =
    let offset = sub_size r.total_bytes_sent (length r.header_buffer) in
    let remaining = sub_size r.response_data_store.current_size offset in
    if remaining == 0
    then ok true r
    else (do
      sent ←
          send_bytes (
            take (min remaining r.write_buffer_size)
              (drop offset r.response_data_store.data_buffer))
      end_ram_slice (progress sent))
        r

-- The FILE_MODE branch.
unfoldable pub end_store_slice : Option ℕ → M Response Bool
unfolding advance_stream
end_store_slice none r = ok true r
end_store_slice (some k) r = let s = advance_stream k r in ok (is_all_sent s) s

unfoldable pub send_store_slice : M Response Bool
unfolding send_bytes end_store_slice
send_store_slice = do sent ← (λ r. send_bytes (pending r) r); end_store_slice (progress sent)

unfoldable pub send_from_file : M Response Bool
unfolding send_store_slice
send_from_file r =
    if not (r.stream_buf_len == 0)
    then send_store_slice r
    else (do
      bytes ← on_store (read r.write_buffer_size)
      (λ s. if is_nil bytes then ok true s else send_store_slice (filled bytes s)))
        r

unfoldable pub send_from : BufferMode → M Response Bool
unfolding send_from_ram send_from_file
send_from ram = send_from_ram
send_from file_mode = send_from_file

unfoldable pub send_body_data_store : M Response Bool
unfolding send_from
send_body_data_store = do throw_if_sigpipe; (λ r. send_from r.response_data_store.mode r)

unfoldable pub send_body_from : Option (List Bytes) → M Response Bool
unfolding send_body_file send_body_data_store
send_body_from (some pieces) = do throw_if_sigpipe; send_body_file pieces
send_body_from none = do on_store reset_read_position; send_body_data_store

unfoldable pub send_body_static : M Response Bool
unfolding send_body_from
send_body_static r = send_body_from r.file_fd r

-- if (_responseDataStore.getSize() == 0 && _fileFd == -1) return true; and what follows
unfoldable pub after_header : Option (List Bytes) → M Response Bool
after_header none r =
    if r.response_data_store.current_size == 0
    then ok true r
    else send_body_static (record r { response_state = sending_body_static })
after_header (some pieces) r = send_body_static (record r { response_state = sending_body_static })

unfoldable pub end_header_slice : Option ℕ → M Response Bool
unfolding after_header send_body_static
end_header_slice none r = ok true r
end_header_slice (some k) r =
    let s = record r { total_bytes_sent = add_size r.total_bytes_sent k } in
    if ltb s.total_bytes_sent (length s.header_buffer) then ok false s else after_header s.file_fd s

unfoldable pub send_header : M Response Bool
unfolding end_header_slice send_bytes
send_header = do
  throw_if_sigpipe
  sent ← (λ r.
      send_bytes
        (take (min (sub_size (length r.header_buffer) r.total_bytes_sent) r.write_buffer_size)
          (drop r.total_bytes_sent r.header_buffer))
        r)
  end_header_slice (progress sent)

unfoldable pub send_in : ResponseState → M Response Bool
unfolding send_header send_body_static
send_in sending_res_head = send_header
send_in sending_body_static = send_body_static
send_in sending_body_chunked = ok false

unfoldable pub send_slice : M Response Bool
unfolding send_in
send_slice r = send_in r.response_state r
