-- ===== src/ServerManager/Loop.antt =====
-- src/ServerManager.cpp: `run`.
use left_hook_roll.Prelude.Result.{fatal_exception}
use left_hook_roll.Text.{Bytes}
use left_hook_roll.Table.{has_key, find_key}
use left_hook_roll.Dict.{is_some}
use left_hook_roll.ServerManager.Timeouts.{sweep_cgi_timeouts, sweep_timeouts}
use left_hook_roll.Response.State.{Site}
use left_hook_roll.ServerManager.Pipes.{PipeReply, handle_cgi_pipe_event}
use left_hook_roll.ServerManager.Scheduling.{run_round_robin}
use left_hook_roll.ServerManager.Clients.{
  Accepted, handle_connection, accept_new_connections, drop_connection,
}
use left_hook_roll.ServerManager.State.{raised, done, ServerManager, Method, Events, ◌>>◌}
use left_hook_roll.Prelude.{none, Option, is_nil, ◌||◌, ◌∷◌, some, Bool, if◌then◌else◌, List, ℕ, []}

-- An event, and what the calls of its handler find.
pub record Event : Type 0 where
  pub fd : ℕ
  pub events : Events
  pub site : Site
  pub received : Option Bytes
  pub accepts : List Accepted
  pub pipe_reply : PipeReply

abbrev pub is_lost : Events → Bool
is_lost e = e.hangup || e.error

-- The event of a descriptor that is no pipe of a script.
unfoldable pub socket_event : Event → Method (Unit {0})
unfolding drop_connection accept_new_connections handle_connection
socket_event e s =
    if is_lost e.events
    then (if has_key e.fd s.listen_fds then done tt s else drop_connection e.fd s)
    else if has_key e.fd s.listen_fds
    then accept_new_connections e.fd e.accepts s
    else elim (find_key e.fd s.connections) [
      | none ↦ done tt s
      | some p ↦ handle_connection e.site e.received p e.events s
    ]

unfoldable pub handle_event : Event → Method (Unit {0})
unfolding socket_event handle_cgi_pipe_event
handle_event e s =
    if is_some (find_key e.fd s.cgi_pipe_to_conn)
    then handle_cgi_pipe_event e.site e.pipe_reply e.fd e.events s
    else socket_event e s

unfoldable pub handle_events : List Event → Method (Unit {0})
unfolding handle_event
handle_events [] = done tt
handle_events (e ∷ es) = do handle_event e; handle_events es

-- What epoll_wait says: nothing (or EINTR), another error, or the events.
pub data Wait : Type 0 where
  no_event : Wait
  wait_failed : Wait
  ready : List Event → Wait

unfoldable pub dispatch : Wait → Method (Unit {0})
unfolding handle_events
dispatch no_event = done tt
dispatch wait_failed = raised fatal_exception
dispatch (ready events) = handle_events events

-- One turn of the loop of `run`.
pub record Turn : Type 0 where
  pub sites : ℕ → Site
  pub site : Site
  pub cgi_site : Site
  pub wait : Wait

-- What a turn does before it waits.
unfoldable pub before_wait : Turn → Method (Unit {0})
unfolding run_round_robin sweep_timeouts sweep_cgi_timeouts
before_wait t = do run_round_robin t.sites; sweep_timeouts t.site; sweep_cgi_timeouts t.cgi_site

unfoldable pub run_turn : Turn → Method (Unit {0})
unfolding before_wait dispatch
run_turn t = do before_wait t; dispatch t.wait

-- The turns while g_running is set.
unfoldable pub run : List Turn → Method (Unit {0})
unfolding run_turn
run [] = done tt
run (t ∷ turns) = do run_turn t; run turns

-- ePollTimeOut, in milliseconds
unfoldable pub epoll_timeout : ServerManager → ℕ
epoll_timeout s = if is_nil s.processing_queue then 1000 else 0
