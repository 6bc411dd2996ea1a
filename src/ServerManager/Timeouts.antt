-- ===== src/ServerManager/Timeouts.antt =====
-- src/ServerManager.cpp: `_sweepCgiTimeouts` and `_sweepTimeouts`.
use left_hook_roll.Prelude.Int.{pos}
use left_hook_roll.Connection.{writing, set_state, trigger_error, on_response, has_timed_out}
use left_hook_roll.ServerManager.State.{
  ServerManager, epollin_out, modify, on_connection, ◌>>◌, with_client, dangling, done, Pointer,
  Method,
}
use left_hook_roll.Text.{codes}
use left_hook_roll.Response.Build.{set_status_code, set_response_phrase}
use left_hook_roll.Response.Cgi.{cgi_timeout}
use left_hook_roll.Prelude.Result.{ok, M}
use left_hook_roll.ServerManager.Scheduling.{finalize_processed}
use left_hook_roll.Conf.{ServerConf}
use left_hook_roll.ServerManager.Clients.{dequeue_processing}
use left_hook_roll.Table.{find_key, Table}
use left_hook_roll.ServerManager.Polling.{add_poll_fd, unregister_cgi_pipe}
use left_hook_roll.Response.State.{Response, Site}
use left_hook_roll.Prelude.{
  map, Bool, [], leb, ◌+◌, none, ltb, ◌∷◌, is_nil, some, if◌then◌else◌, Option, List, ℕ,
}

-- CGI_TIMEOUT_S
abbrev pub cgi_timeout_s : ℕ
cgi_timeout_s = 10

-- CONNECTION_TIMEOUT_S
abbrev pub connection_timeout_s : ℕ
connection_timeout_s = 60

-- The pipes whose scripts have run too long.
unfoldable pub pipes_to_kill : ℕ → Table ℕ → List ℕ
pipes_to_kill now [] = []
pipes_to_kill now ((pipe, start) ∷ times) =
    let rest = pipes_to_kill now times in
    if leb (start + cgi_timeout_s) now then pipe ∷ rest else rest

-- The keys, in the order of the iteration.
abbrev pub keys_of : Table Pointer → List ℕ
keys_of m = map (λ e. e.0) m

module _ (site : Site) where
  -- The answer of a script that has run too long.
  abbrev pub timeout_page : Option ServerConf → M Response (Unit {0})
  timeout_page (some config) r = cgi_timeout site config r
  timeout_page none r =
      ok tt (set_response_phrase (codes "Gateway Timeout") (set_status_code (codes "504") r))

  unfoldable pub time_out_pipe : ℕ → Pointer → Method (Unit {0})
  unfolding unregister_cgi_pipe add_poll_fd
  time_out_pipe pipe p = with_client p (λ c. do
    modify (unregister_cgi_pipe (some pipe))
    on_connection p (on_response (timeout_page c.connection.server_conf))
    on_connection p (set_state writing)
    add_poll_fd c.fd epollin_out)

  unfoldable pub kill_pipe : ℕ → Method (Unit {0})
  unfolding time_out_pipe
  kill_pipe pipe s = elim (find_key pipe s.cgi_pipe_to_conn) [
    | none ↦ done tt s
    | some p ↦ time_out_pipe pipe p s
  ]

  unfoldable pub kill_pipes : List ℕ → Method (Unit {0})
  unfolding kill_pipe
  kill_pipes [] = done tt
  kill_pipes (pipe ∷ pipes) = do kill_pipe pipe; kill_pipes pipes

  unfoldable pub sweep_cgi_timeouts : Method (Unit {0})
  unfolding kill_pipes pipes_to_kill
  sweep_cgi_timeouts s =
      if is_nil s.cgi_pipe_to_conn
      then done tt s
      else kill_pipes (pipes_to_kill site.time s.cgi_start_times) s

  -- toDrop.push_back(it->first)
  abbrev pub fd_if : Bool → ℕ → Option (List ℕ) → Option (List ℕ)
  fd_if late fd none = none
  fd_if late fd (some fds) = some (if late then fd ∷ fds else fds)

  -- The descriptors, of those listed, whose connections have timed out; `none` where a connection is dangling.
  unfoldable pub timed_out : ServerManager → List ℕ → Option (List ℕ)
  timed_out s [] = some []
  timed_out s (fd ∷ fds) = elim (find_key fd s.connections) [
    | none ↦ timed_out s fds
    | some p ↦ elim (find_key p s.clients) [
      | none ↦ none
      | some c ↦ fd_if (has_timed_out site connection_timeout_s c.connection) fd (timed_out s fds)
    ]
  ]

  abbrev time_out : Pointer → Method (Unit {0})
  time_out p = do
    on_connection p (trigger_error site (pos 408))
    modify (dequeue_processing p)
    finalize_processed site.time p

  unfoldable pub time_out_fd : ℕ → Method (Unit {0})
  unfolding dequeue_processing finalize_processed
  time_out_fd fd s = elim (find_key fd s.connections) [ none ↦ done tt s | some p ↦ time_out p s ]

  unfoldable pub time_out_fds : List ℕ → Method (Unit {0})
  unfolding time_out_fd
  time_out_fds [] = done tt
  time_out_fds (fd ∷ fds) = do time_out_fd fd; time_out_fds fds

  abbrev pub time_out_all : Option (List ℕ) → Method (Unit {0})
  time_out_all none s = dangling
  time_out_all (some fds) s = time_out_fds fds s

  -- Every 5 seconds at most.
  unfoldable pub sweep_timeouts : Method (Unit {0})
  unfolding time_out_fds timed_out
  sweep_timeouts s =
      if ltb site.time (s.last_sweep + 5)
      then done tt s
      else time_out_all (timed_out s (keys_of s.connections)) (record s { last_sweep = site.time })
