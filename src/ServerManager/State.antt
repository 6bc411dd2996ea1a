-- ===== src/ServerManager/State.antt =====
-- includes/ServerManager.hpp: the manager, with the connections that its pointers reach.
use left_hook_roll.Prelude.Int.{pos}
use left_hook_roll.Conf.{ServerConf, SockAddr}
use left_hook_roll.Response.State.{Site}
use left_hook_roll.Prelude.Result.{
  out_of_fuel, runtime_error, fatal_exception, threw, client_exception, ok, M, Result, Exception,
}
use left_hook_roll.Connection.{trigger_error, Connection}
use left_hook_roll.Table.{Keys, set_key, find_key, Table}
use left_hook_roll.Prelude.{none, Option, some, [], List, Bool, ℕ, false, true}

-- The bits of an epoll event.
pub record Events : Type 0 where
  pub input : Bool
  pub output : Bool
  pub hangup : Bool
  pub error : Bool

abbrev pub no_events : Events
no_events = record { input = false; output = false; hangup = false; error = false }

-- EPOLLIN
abbrev pub epollin : Events
epollin = record no_events { input = true }

-- EPOLLIN | EPOLLOUT
abbrev pub epollin_out : Events
epollin_out = record epollin { output = true }

-- A Connection, with its descriptor.
pub record Client : Type 0 where
  pub fd : ℕ
  pub connection : Connection

-- The address of a Connection.
abbrev pub Pointer : Type 0
Pointer = ℕ

-- `clients` holds the Connection objects that are alive, by their addresses. `ctl_replies` says which
-- of the next calls of epoll_ctl succeed, all of them where it has ended; `closed` are the descriptors
-- that have been closed. `last_sweep` is the static variable of _sweepTimeouts.
pub record ServerManager : Type 0 where
  pub clients : Table Client
  pub interface_port_pairs : List (SockAddr × ServerConf)
  pub server_confs : List ServerConf
  pub processing_queue : List Pointer
  pub processing_set : Keys
  pub connections : Table Pointer
  pub cgi_pipe_to_conn : Table Pointer
  pub cgi_start_times : Table ℕ
  pub epoll_fd : Option ℕ
  pub fd_events : Table Events
  pub listen_fds : Keys
  pub listen_fd_to_server_conf : Table (Option ServerConf)
  pub last_sweep : ℕ
  pub ctl_replies : List Bool
  pub closed : List ℕ

-- A method returns or throws; `dangling` is a use of a Connection that has been deleted.
pub data Outcome (A : Type 0) : Type 0 where
  done : A → ServerManager → Outcome A
  raised : Exception → ServerManager → Outcome A
  dangling : Outcome A

abbrev pub Method : Type 0 → Type 0
Method A = ServerManager → Outcome A

infixl 5 ◌>>=◌ ◌>>◌
abbrev pub ◌>>=◌ : {A B : Type 0} → Method A → (A → Method B) → Method B
◌>>=◌ m f s = elim (m s) [ done a t ↦ f a t | raised e t ↦ raised e t | dangling ↦ dangling ]

abbrev pub ◌>>◌ : {A B : Type 0} → Method A → Method B → Method B
◌>>◌ m k s = elim (m s) [ done a t ↦ k t | raised e t ↦ raised e t | dangling ↦ dangling ]

-- A change of the manager that calls nothing.
abbrev pub modify : (ServerManager → ServerManager) → Method (Unit {0})
modify f s = done tt (f s)

-- conn->...
abbrev pub with_client : {A : Type 0} → Pointer → (Client → Method A) → Method A
with_client p k s = elim (find_key p s.clients) [ none ↦ dangling | some c ↦ k c s ]

abbrev pub store_connection : Pointer → Client → Connection → ServerManager → ServerManager
store_connection p c d s = record s { clients = set_key p (record c { connection = d }) s.clients }

unfoldable pub returned : {A : Type 0} → Pointer → Client → Result Connection A → Method A
returned p c (ok a d) s = done a (store_connection p c d s)
returned p c (threw e d) s = raised e (store_connection p c d s)

-- A method of the connection.
abbrev pub on_connection : {A : Type 0} → Pointer → M Connection A → Method A
on_connection p m = with_client p (λ c. returned p c (m c.connection))

-- The catch clauses around the connection's methods.
unfoldable pub catch_errors : Site → Pointer → Outcome (Unit {0}) → Outcome (Unit {0})
catch_errors site p (done a s) = done a s
catch_errors site p (raised (client_exception code) s) =
    on_connection p (trigger_error site (pos code)) s
catch_errors site p (raised fatal_exception s) = raised fatal_exception s
catch_errors site p (raised runtime_error s) = on_connection p (trigger_error site (pos 500)) s
catch_errors site p (raised out_of_fuel s) = raised out_of_fuel s
catch_errors site p dangling = dangling

unfoldable pub new_manager : ℕ → List Bool → ServerManager
new_manager epoll_fd replies = record {
  clients = [];
  interface_port_pairs = [];
  server_confs = [];
  processing_queue = [];
  processing_set = [];
  connections = [];
  cgi_pipe_to_conn = [];
  cgi_start_times = [];
  epoll_fd = some epoll_fd;
  fd_events = [];
  listen_fds = [];
  listen_fd_to_server_conf = [];
  last_sweep = 0;
  ctl_replies = replies;
  closed = [];
}
