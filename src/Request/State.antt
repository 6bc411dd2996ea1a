-- ===== src/Request/State.antt =====
-- includes/Request.hpp: the request as a record, its states and its accessors.
use left_hook_roll.DataStore.Kernel.{DataStore}
use left_hook_roll.Dict.{Dict, lookup, or_empty}
use left_hook_roll.Methods.{HttpMethod, unknown_method}
use left_hook_roll.Prelude.Int.{ℤ, negsuc}
use left_hook_roll.Prelude.{ℕ, Bool, true, false, []}
use left_hook_roll.Text.Trim.{lower}
use left_hook_roll.Text.{Bytes, codes}

pub data ReqState : Type 0 where
  req_headers req_body req_chunked req_done req_error : ReqState

pub record Request : Type 0 where
  pub method_name : HttpMethod
  pub url : Bytes
  pub protocol : Bytes
  pub query : Bytes
  pub content_length : ℤ
  pub body : DataStore
  pub decoded_body : DataStore
  pub headers : Dict
  pub cookies : Dict
  pub req_state : ReqState
  pub status_code : Bytes
  pub max_body_size : ℕ
  pub total_bytes_read : ℕ
  pub is_body_processed : Bool
  pub chunk_buffer : Bytes

-- Request(maxBodySize), with the stores that its members are.
unfoldable pub new_request : ℕ → DataStore → DataStore → Request
new_request max body decoded = record {
  method_name = unknown_method;
  url = [];
  protocol = [];
  query = [];
  content_length = negsuc 0;
  body = body;
  decoded_body = decoded;
  headers = [];
  cookies = [];
  req_state = req_headers;
  status_code = codes "200";
  max_body_size = max;
  total_bytes_read = 0;
  is_body_processed = false;
  chunk_buffer = [];
}

unfoldable pub get_header : Request → Bytes → Bytes
unfolding lower
get_header r key = or_empty (lookup (lower key) r.headers)

unfoldable pub get_cookie : Request → Bytes → Bytes
get_cookie r key = or_empty (lookup key r.cookies)

-- _reqState = REQ_ERROR; _statusCode = code;
abbrev pub fail : Request → Bytes → Request
fail r code = record r { req_state = req_error; status_code = code }

abbrev pub is_error : ReqState → Bool
is_error req_error = true
is_error _ = false

abbrev pub is_done : ReqState → Bool
is_done req_done = true
is_done _ = false

unfoldable pub is_complete : Request → Bool
is_complete r = is_done r.req_state
