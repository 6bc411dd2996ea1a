-- ===== src/Connection.antt =====
-- includes/Connection.hpp and src/Connection.cpp: the state machine of a client's connection. The
-- time is that of the `Site`, and the configuration pointer an option.
pub mod Reading
pub mod Processing
pub mod Leaves
pub mod Steps
pub mod Delivery
pub mod Copies
use left_hook_roll.Conf.{ServerConf}
use left_hook_roll.DataStore.Files.{Action}
use left_hook_roll.DataStore.Kernel.{DataStore}
use left_hook_roll.Prelude.Int.{ℤ}
use left_hook_roll.Prelude.Result.{M, ok, threw, ◌>>=◌, ◌>>◌}
use left_hook_roll.Prelude.{ℕ, ◌+◌, ◌-◌, Bool, Option, none, some, [], leb}
use left_hook_roll.Request.State.{Request, new_request}
use left_hook_roll.Response.Build.{build_error_page, set_status_code, set_response_phrase}
use left_hook_roll.Response.State.{Response, Socket, Site, Exchange, new_response}
use left_hook_roll.Text.Numbers.{show_int}
use left_hook_roll.Text.{Bytes, codes}

pub data ConnectionState : Type 0 where
  reading writing processing waiting_for_cgi finished : ConnectionState

pub record Connection : Type 0 where
  pub last_activity : ℕ
  pub server_conf : Option ServerConf
  pub read_buffer : Bytes
  pub exchange : Exchange
  pub state : ConnectionState
  pub total_bytes_read : ℕ

abbrev body_limit : Option ServerConf → ℕ
body_limit none = 0
body_limit (some config) = config.max_body_size

-- Connection(fd, ipa, defaultConfig)
unfoldable pub new_connection :
    ℕ → Option ServerConf → DataStore → DataStore → DataStore → Socket → Connection
new_connection now config body decoded store socket = record {
  last_activity = now;
  server_conf = config;
  read_buffer = [];
  exchange = record {
    request = new_request (body_limit config) body decoded;
    response = new_response store socket;
  };
  state = reading;
  total_bytes_read = 0;
}

-- A method of the request, of its body, and of the response.
abbrev pub on_exchange : {A : Type 0} → M Exchange A → M Connection A
on_exchange m c = elim (m c.exchange) [
  | ok a x ↦ ok a (record c { exchange = x })
  | threw e x ↦ threw e (record c { exchange = x })
]

abbrev pub on_request : {A : Type 0} → M Request A → M Connection A
on_request m c = elim (m c.exchange.request) [
  | ok a r ↦ ok a (record c { exchange = record c.exchange { request = r } })
  | threw e r ↦ threw e (record c { exchange = record c.exchange { request = r } })
]

abbrev pub on_response : {A : Type 0} → M Response A → M Connection A
on_response m c = elim (m c.exchange.response) [
  | ok a r ↦ ok a (record c { exchange = record c.exchange { response = r } })
  | threw e r ↦ threw e (record c { exchange = record c.exchange { response = r } })
]

abbrev pub set_state : ConnectionState → M Connection (Unit {0})
set_state s c = ok tt (record c { state = s })

module _ (site : Site) where
  -- _updateActivityTimer
  unfoldable pub update_activity_timer : Connection → Connection
  update_activity_timer c = record c { last_activity = site.time }

  -- time(NULL) - _lastActivity >= timeoutSeconds, a test on signed numbers
  unfoldable pub has_timed_out : ℕ → Connection → Bool
  has_timed_out seconds c = leb (c.last_activity + seconds) site.time

  -- The page of an error, by the configuration.
  unfoldable pub error_page : ℤ → Option ServerConf → M Response (Unit {0})
  error_page code (some config) r = build_error_page site (show_int code) config r
  error_page code none r =
      ok tt (set_response_phrase (codes "Error") (set_status_code (show_int code) r))

  unfoldable pub trigger_error : ℤ → M Connection (Unit {0})
  unfolding error_page
  trigger_error code c = (do on_response (error_page code c.server_conf); set_state writing) c
