-- ===== src/ServerManager/Polling.antt =====
-- src/ServerManager.cpp: `addPollFd`, `_unregisterCgiPipe`, `_registerCgiPipe` and `_closeAllFds`.
use left_hook_roll.Dict.{is_some}
use left_hook_roll.Prelude.Result.{fatal_exception}
use left_hook_roll.Connection.{Connection}
use left_hook_roll.Table.{find_key, set_key, erase_key, Table}
use left_hook_roll.ServerManager.State.{
  raised, epollin, done, with_client, Method, Pointer, Events, ServerManager,
}
use left_hook_roll.Prelude.{
  if◌then◌else◌, ◌∷◌, ◌++◌, true, none, map, [], Bool, some, List, Option, ℕ,
}
use left_hook_roll.Response.Output.{get_cgi_output_fd}

-- epoll_ctl: what the next call says.
unfoldable pub epoll_ctl : List Bool → Bool × List Bool
epoll_ctl [] = (true, [])
epoll_ctl (reply ∷ replies) = (reply, replies)

-- A descriptor that is known is entered before epoll_ctl is called, a new one behind it.
unfoldable pub add_poll_fd : ℕ → Events → Method (Unit {0})
unfolding epoll_ctl
add_poll_fd fd events s =
    let ctl = epoll_ctl s.ctl_replies in
    let t = record s { ctl_replies = ctl.1 } in
    let entered = record t { fd_events = set_key fd events t.fd_events } in
    if ctl.0
    then done tt entered
    else raised fatal_exception (if is_some (find_key fd s.fd_events) then entered else t)

-- conn->getCgiPipeFd()
unfoldable pub get_cgi_pipe_fd : Connection → Option ℕ
unfolding get_cgi_output_fd
get_cgi_pipe_fd c = get_cgi_output_fd c.exchange.response

-- `none` is a descriptor below 0.
unfoldable pub unregister_cgi_pipe : Option ℕ → ServerManager → ServerManager
unregister_cgi_pipe none s = s
unregister_cgi_pipe (some pipe) s = record s {
  fd_events = erase_key pipe s.fd_events;
  cgi_pipe_to_conn = erase_key pipe s.cgi_pipe_to_conn;
  cgi_start_times = erase_key pipe s.cgi_start_times;
}

unfoldable pub register_pipe : ℕ → Pointer → Option ℕ → Method (Unit {0})
unfolding add_poll_fd
register_pipe now p none s = done tt s
register_pipe now p (some pipe) s = add_poll_fd pipe epollin (record s {
  cgi_pipe_to_conn = set_key pipe p s.cgi_pipe_to_conn;
  cgi_start_times = set_key pipe now s.cgi_start_times;
})

unfoldable pub register_cgi_pipe : ℕ → Pointer → Method (Unit {0})
unfolding register_pipe get_cgi_pipe_fd
register_cgi_pipe now p = with_client p (λ c. register_pipe now p (get_cgi_pipe_fd c.connection))

abbrev pub fds_of : Table Events → List ℕ
fds_of m = map (λ e. e.0) m

-- The connections are deleted and every descriptor closed, that of epoll last.
unfoldable pub close_all_fds : ServerManager → ServerManager
close_all_fds s = record s {
  clients = [];
  processing_queue = [];
  processing_set = [];
  connections = [];
  cgi_pipe_to_conn = [];
  cgi_start_times = [];
  fd_events = [];
  listen_fds = [];
  listen_fd_to_server_conf = [];
  epoll_fd = none;
  closed = s.closed ++ (fds_of s.fd_events ++ elim s.epoll_fd [ none ↦ [] | some fd ↦ fd ∷ [] ]);
}
