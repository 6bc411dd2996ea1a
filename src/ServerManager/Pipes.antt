-- ===== src/ServerManager/Pipes.antt =====
-- src/ServerManager.cpp: `_handleCgiPipeEvent`.
use left_hook_roll.Response.Cgi.{finalize_cgi_response}
use left_hook_roll.ServerManager.State.{
  modify, ◌>>◌, dangling, on_connection, epollin_out, raised, with_client, done, Outcome, Events,
  Method, Pointer,
}
use left_hook_roll.Table.{find_key}
use left_hook_roll.ServerManager.Polling.{add_poll_fd, unregister_cgi_pipe}
use left_hook_roll.Prelude.Int.{pos, ℤ}
use left_hook_roll.CgiManager.Processes.{Pids, WaitReply}
use left_hook_roll.Text.{Bytes}
use left_hook_roll.Connection.{writing, set_state, trigger_error, on_response, Connection}
use left_hook_roll.Prelude.{some, none, false, true, ◌||◌, if◌then◌else◌, Bool, ℕ, Option}
use left_hook_roll.Prelude.Result.{
  out_of_fuel, runtime_error, fatal_exception, client_exception, threw, ok, M, Result,
}
use left_hook_roll.Response.Output.{Reader, read_cgi_output}
use left_hook_roll.Response.State.{Response, Site}

-- What the kernel says to readCgiOutput, and the static set of the processes.
pub record PipeReply : Type 0 where
  pub bytes : Option Bytes
  pub wait : WaitReply
  pub active_pids : Pids

abbrev pub to_response : Result Reader Bool → Result Response Bool
to_response (ok b x) = ok b x.response
to_response (threw e x) = threw e x.response

-- resp->readCgiOutput()
abbrev pub read_output : PipeReply → M Connection Bool
read_output reply = on_response (λ r. to_response (
    read_cgi_output reply.bytes reply.wait
      (record { response = r; active_pids = reply.active_pids })))

-- The try block: whether the output has ended.
unfoldable pub try_read_output : PipeReply → Pointer → Events → Method Bool
unfolding read_cgi_output
try_read_output reply p events =
    if events.hangup || events.error
    then done true
    else if events.input
    then on_connection p (read_output reply)
    else done false

module _ (site : Site) (p : Pointer) (pipe : ℕ) where
  abbrev pub await_writing : Method (Unit {0})
  await_writing = with_client p (λ c. add_poll_fd c.fd epollin_out)

  -- A catch clause.
  abbrev pub give_up_cgi : ℤ → Method (Unit {0})
  give_up_cgi code = do
    on_connection p (trigger_error site code)
    modify (unregister_cgi_pipe (some pipe))
    await_writing

  -- What follows the try block, by the end of the output.
  unfoldable pub finish_cgi : Bool → Method (Unit {0})
  unfolding unregister_cgi_pipe add_poll_fd
  finish_cgi false = done tt
  finish_cgi true = do
    modify (unregister_cgi_pipe (some pipe))
    on_connection p (on_response (finalize_cgi_response site))
    on_connection p (set_state writing)
    await_writing

  unfoldable pub after_output : Outcome Bool → Outcome (Unit {0})
  unfolding finish_cgi
  after_output (done b s) = finish_cgi b s
  after_output (raised (client_exception code) s) = give_up_cgi (pos code) s
  after_output (raised fatal_exception s) = raised fatal_exception s
  after_output (raised runtime_error s) = give_up_cgi (pos 500) s
  after_output (raised out_of_fuel s) = raised out_of_fuel s
  after_output dangling = dangling

unfoldable pub handle_cgi_pipe_event : Site → PipeReply → ℕ → Events → Method (Unit {0})
unfolding try_read_output after_output
handle_cgi_pipe_event site reply pipe events s = elim (find_key pipe s.cgi_pipe_to_conn) [
  | none ↦ done tt s
  | some p ↦ with_client p (λ c t. after_output site p pipe (try_read_output reply p events t)) s
]
