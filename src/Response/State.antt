-- ===== src/Response/State.antt =====
-- includes/Response.hpp: the response as a record, and the parts of the system that it calls.
use left_hook_roll.CgiManager.State.{CgiManager}
use left_hook_roll.Conf.{ServerConf}
use left_hook_roll.DataStore.Files.{Action}
use left_hook_roll.DataStore.Kernel.{DataStore, Reply}
use left_hook_roll.Dict.{Dict}
use left_hook_roll.Prelude.Result.{M, ok, threw, client_exception}
use left_hook_roll.Prelude.{ℕ, Bool, false, Option, none, List, [], if◌then◌else◌}
use left_hook_roll.Request.State.{Request}
use left_hook_roll.Text.{Bytes, codes}

pub data ResponseState : Type 0 where
  sending_res_head sending_body_static sending_body_chunked : ResponseState

pub data BuildPhase : Type 0 where
  build_idle build_post_writing build_cgi_running build_done : BuildPhase

-- What send(2) returns: a count of bytes, -1, or -1 after a SIGPIPE.
pub data SendReply : Type 0 where
  taken : ℕ → SendReply
  failed : SendReply
  broken_pipe : SendReply

-- The client's socket: the bytes that it has taken, its next replies, and g_sigpipe. A socket that
-- has no reply left takes all that it is given.
pub record Socket : Type 0 where
  pub output : Bytes
  pub send_replies : List SendReply
  pub sigpipe : Bool

-- A file that is open for reading is the list of what its next reads return, end or error last.
-- The upload's file is what has been written to it; `write_replies` are the replies to its writes.
pub record Response : Type 0 where
  pub status_code : Bytes
  pub version : Bytes
  pub response_phrase : Bytes
  pub write_buffer_size : ℕ
  pub response_data_store : DataStore
  pub total_bytes_sent : ℕ
  pub headers : Dict
  pub set_cookies : List Bytes
  pub file_fd : Option (List Bytes)
  pub file_size : ℕ
  pub stream_buf : Bytes
  pub stream_buf_len : ℕ
  pub stream_buf_sent : ℕ
  pub cgi_instance : Option CgiManager
  pub build_phase : BuildPhase
  pub cached_config : Option ServerConf
  pub post_out_fd : Option Bytes
  pub post_write_pos : ℕ
  pub post_filename : Bytes
  pub response_state : ResponseState
  pub header_buffer : Bytes
  pub socket : Socket
  pub write_replies : List Reply

unfoldable pub new_response : DataStore → Socket → Response
new_response store socket = record {
  status_code = codes "200";
  version = codes "HTTP/1.0";
  response_phrase = codes "OK";
  write_buffer_size = 16384;
  response_data_store = store;
  total_bytes_sent = 0;
  headers = [];
  set_cookies = [];
  file_fd = none;
  file_size = 0;
  stream_buf = [];
  stream_buf_len = 0;
  stream_buf_sent = 0;
  cgi_instance = none;
  build_phase = build_idle;
  cached_config = none;
  post_out_fd = none;
  post_write_pos = 0;
  post_filename = [];
  response_state = sending_res_head;
  header_buffer = [];
  socket = socket;
  write_replies = [];
}

pub data FileKind : Type 0 where
  regular directory other : FileKind

pub record Stat : Type 0 where
  pub kind : FileKind
  pub size : ℕ

-- What remove(3) says: done, EACCES or EPERM, or another error.
pub data Removal : Type 0 where
  removed forbidden in_error : Removal

-- What the launch of a CGI process ends in: the instance of a process that runs, or a
-- ClientException of a status.
pub data Launch : Type 0 where
  launched : CgiManager → Launch
  not_launched : ℕ → Launch

-- The files as one call of buildResponse finds them, the time, and the time as an HTTP date.
pub record Site : Type 0 where
  pub stat : Bytes → Option Stat
  pub open_to_read : Bytes → Option (List Bytes)
  pub open_dir : Bytes → Option (List Bytes)
  pub create : Bytes → Bool
  pub remove : Bytes → Removal
  pub launch : Request → Bytes → Bytes → Launch
  pub time : ℕ
  pub http_date : Bytes

-- A method of _responseDataStore.
abbrev pub on_store : {A : Type 0} → Action A → M Response A
on_store m r = elim (m r.response_data_store) [
  | ok a s ↦ ok a (record r { response_data_store = s })
  | threw e s ↦ threw e (record r { response_data_store = s })
]

-- A request and the response to it.
pub record Exchange : Type 0 where
  pub request : Request
  pub response : Response

abbrev pub on_response : {A : Type 0} → M Response A → M Exchange A
on_response m x = elim (m x.response) [
  | ok a r ↦ ok a (record x { response = r })
  | threw e r ↦ threw e (record x { response = r })
]

-- A method of the request's body.
abbrev pub on_request_body : {A : Type 0} → Action A → M Exchange A
on_request_body m x = elim (m x.request.body) [
  | ok a s ↦ ok a (record x { request = record x.request { body = s } })
  | threw e s ↦ threw e (record x { request = record x.request { body = s } })
]

-- throwIfSigpipe
unfoldable pub throw_if_sigpipe : M Response (Unit {0})
throw_if_sigpipe r =
    if r.socket.sigpipe
    then threw (client_exception 502) (record r { socket = record r.socket { sigpipe = false } })
    else ok tt r
