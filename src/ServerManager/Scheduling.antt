-- ===== src/ServerManager/Scheduling.antt =====
-- src/ServerManager.cpp: the round robin over the connections that process.
use left_hook_roll.Connection.Processing.{process}
use left_hook_roll.ServerManager.State.{
  no_events, on_connection, ◌>>◌, done, with_client, epollin_out, modify, raised, Method, Pointer,
  catch_errors,
}
use left_hook_roll.Table.{has_key}
use left_hook_roll.Prelude.Result.{out_of_fuel}
use left_hook_roll.Connection.{finished, waiting_for_cgi, writing, processing, ConnectionState}
use left_hook_roll.Response.State.{Site}
use left_hook_roll.Prelude.{[], ltb, ◌∷◌, ◌+◌, zero, ◌++◌, length, suc, if◌then◌else◌, List, ℕ}
use left_hook_roll.ServerManager.Clients.{drop_connection, dequeue_processing}
use left_hook_roll.ServerManager.Polling.{register_cgi_pipe, add_poll_fd}

-- BACKLOG / 2
abbrev pub budget : ℕ
budget = 64

unfoldable pub finalize_state : ℕ → Pointer → ℕ → ConnectionState → Method (Unit {0})
unfolding add_poll_fd register_cgi_pipe drop_connection
finalize_state now p fd writing = add_poll_fd fd epollin_out
finalize_state now p fd waiting_for_cgi = do add_poll_fd fd no_events; register_cgi_pipe now p
finalize_state now p fd finished = drop_connection fd
finalize_state now p fd _ = done tt

unfoldable pub finalize_processed : ℕ → Pointer → Method (Unit {0})
unfolding finalize_state
finalize_processed now p = with_client p (λ c. finalize_state now p c.fd c.connection.state)

-- What follows a call of process: the connection goes to the back of the queue, or leaves.
unfoldable pub reschedule : ℕ → Pointer → ConnectionState → Method (Unit {0})
unfolding finalize_processed dequeue_processing
reschedule now p processing =
    modify (λ s. record s { processing_queue = s.processing_queue ++ (p ∷ []) })
reschedule now p _ = do modify (dequeue_processing p); finalize_processed now p

unfoldable pub process_one : Site → Pointer → Method (Unit {0})
unfolding catch_errors reschedule
process_one site p = do
  (λ s. catch_errors site p (on_connection p (process site) s))
  with_client p (λ c. reschedule site.time p c.connection.state)

-- The pass after the queue's front has been taken off, and the test of the loop's condition. `again`
-- is the loop.
module _ (sites : ℕ → Site) (again : ℕ → Method (Unit {0})) where
  unfoldable pub visit : ℕ → Pointer → Method (Unit {0})
  unfolding process_one
  visit processed p s =
      if has_key p s.processing_set
      then (do process_one (sites processed) p; again (processed + 1)) s
      else again processed s

  unfoldable pub round_step : ℕ → List Pointer → Method (Unit {0})
  unfolding visit
  round_step processed [] s = done tt s
  round_step processed (p ∷ queue) s =
      if ltb processed budget
      then visit processed p (record s { processing_queue = queue })
      else done tt s

-- The loop, on fuel: `sites n` is the system as the n-th call of process finds it.
unfoldable pub round_loop : (ℕ → Site) → ℕ → ℕ → Method (Unit {0})
unfolding round_step
round_loop sites zero processed s = raised out_of_fuel s
round_loop sites (suc fuel) processed s =
    round_step sites (round_loop sites fuel) processed s.processing_queue s

-- Each turn of the loop takes a pointer that is not in the set off the queue, or spends the budget.
unfoldable pub run_round_robin : (ℕ → Site) → Method (Unit {0})
unfolding round_loop
run_round_robin sites s = round_loop sites (suc (length s.processing_queue + budget)) 0 s
