-- ===== src/Response/Copies.antt =====
-- src/Response.cpp: the copy constructor and the assignment, from another object. A copy has no file
-- open, and no script.
use left_hook_roll.DataStore.Kernel.{Reply, DataStore}
use left_hook_roll.Prelude.{refl, [], ◌≡◌, List, none}
use left_hook_roll.Prelude.Result.{◌>>◌, Made, made, unmade, ok, threw, M}
use left_hook_roll.DataStore.Copies.{assign-copy, copy, assign}
use left_hook_roll.Response.State.{on_store, Response, Socket}

-- The copy of `other` with the store `s`.
abbrev pub response_with : Response → DataStore → Socket → List Reply → Response
response_with other s socket write_replies = record other {
  response_data_store = s;
  file_fd = none;
  cgi_instance = none;
  post_out_fd = none;
  socket = socket;
  write_replies = write_replies;
}

-- Response(const Response& other), with the kernel's replies to the new store, the client's socket, and
-- the replies to later writes.
unfoldable pub copy_response : Response → List Reply → Socket → List Reply → Made Response
unfolding copy
copy_response other replies socket write_replies = elim (copy other.response_data_store replies) [
  | threw e s ↦ unmade e
  | ok a s ↦ made (response_with other s socket write_replies)
]

abbrev members_before_store : Response → M Response (Unit {0})
members_before_store other r = ok tt (record r {
  status_code = other.status_code;
  version = other.version;
  response_phrase = other.response_phrase;
  write_buffer_size = other.write_buffer_size;
})

-- The files of the target are closed, and its script's object is deleted.
abbrev members_behind_store : Response → M Response (Unit {0})
members_behind_store other r = ok tt (record r {
  total_bytes_sent = other.total_bytes_sent;
  headers = other.headers;
  set_cookies = other.set_cookies;
  file_fd = none;
  file_size = other.file_size;
  stream_buf = other.stream_buf;
  stream_buf_len = other.stream_buf_len;
  stream_buf_sent = other.stream_buf_sent;
  build_phase = other.build_phase;
  cached_config = other.cached_config;
  post_out_fd = none;
  post_write_pos = other.post_write_pos;
  post_filename = other.post_filename;
  response_state = other.response_state;
  header_buffer = other.header_buffer;
  cgi_instance = none;
})

-- operator=(const Response& other)
unfoldable pub assign_response : Response → M Response (Unit {0})
unfolding assign
assign_response other = do
  members_before_store other
  on_store (assign other.response_data_store)
  members_behind_store other

-- ~Response: the files are closed, and the script's object is deleted.
unfoldable pub destroy_response : Response → Response
destroy_response r = record r { file_fd = none; post_out_fd = none; cgi_instance = none }

module _ (other : Response) (s : DataStore)
    (copied : copy other.response_data_store [] ≡ ok tt s) where
  pub copy_response-made :
      (socket : Socket) (write_replies : List Reply)
      → copy_response other [] socket write_replies
        ≡ made (response_with other s socket write_replies)
  unfolding copy_response
  copy_response-made socket write_replies = rw (copy_response, copied) refl

  pub assign_response-made :
      (r : Response)
      → r.response_data_store.replies ≡ []
      → assign_response other r ≡ ok tt (response_with other s r.socket r.write_replies)
  unfolding assign_response
  assign_response-made r e =
      rw (◌>>◌, on_store, assign-copy other.response_data_store r.response_data_store s copied e)
        refl
