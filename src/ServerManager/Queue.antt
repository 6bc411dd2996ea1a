-- ===== src/ServerManager/Queue.antt =====
-- The processing queue under the parts of a pass of the round robin.
use left_hook_roll.ServerManager.Returned.{Returns-client, Returns-then, Returns}
use left_hook_roll.Dict.{is_some}
use left_hook_roll.Prelude.Int.{pos}
use left_hook_roll.Table.{set_key, find_key}
use left_hook_roll.Connection.Processing.{process}
use left_hook_roll.Response.State.{Site}
use left_hook_roll.Connection.{
  trigger_error, finished, waiting_for_cgi, writing, reading, processing, Connection,
  ConnectionState,
}
use left_hook_roll.Prelude.Result.{
  out_of_fuel, runtime_error, fatal_exception, client_exception, threw, ok, Result, M,
}
use left_hook_roll.ServerManager.Clients.{
  delete_connection, forget_fd, dequeue_processing, drop_connection,
}
use left_hook_roll.ServerManager.Scheduling.{
  finalize_processed, finalize_state, reschedule, process_one,
}
use left_hook_roll.ServerManager.Polling.{
  get_cgi_pipe_fd, epoll_ctl, register_cgi_pipe, unregister_cgi_pipe, register_pipe, add_poll_fd,
}
use left_hook_roll.Prelude.{
  false, true, if◌then◌else◌, Bool, [], none, ap, ◌∷◌, some, ◌++◌, Option, ◌⊎◌, ℕ, ◌≡◌, List, inl,
  inr,
}
use left_hook_roll.ServerManager.State.{
  store_connection, epollin, no_events, epollin_out, on_connection, dangling, with_client, Events,
  modify, raised, returned, Client, catch_errors, done, Outcome, Method, Pointer, ServerManager,
}

-- The queue is `q`.
abbrev pub QueueIs : List Pointer → ServerManager → Type 0
QueueIs q s = s.processing_queue ≡ q

module _ (q : List Pointer) where
  QueueIs-on :
      {A : Type 0} (p : Pointer) (m : M Connection A) (s : ServerManager)
      → QueueIs q s
      → Returns (QueueIs q) (on_connection p m s)
  unfolding returned
  QueueIs-on {A} p m s h =
      Returns-client (QueueIs q) p (λ c. returned p c (m c.connection)) s
        (λ c. go c (m c.connection))
    where
      go : (c : Client) (x : Result Connection A) → Returns (QueueIs q) (returned p c x s)
      go c (ok a d) = h
      go c (threw e d) = tt

  -- Both where the method returns and where it throws.
  QueueIs-process :
      (site : Site) (p : Pointer) (c : Client) (x : Result Connection (Unit {0}))
      (s : ServerManager)
      → QueueIs q s
      → Returns (QueueIs q) (catch_errors site p (returned p c x s))
  unfolding catch_errors returned
  QueueIs-process site p c (ok a d) s h = h
  QueueIs-process site p c (threw (client_exception code) d) s h =
      QueueIs-on p (trigger_error site (pos code)) (store_connection p c d s) h
  QueueIs-process site p c (threw fatal_exception d) s h = tt
  QueueIs-process site p c (threw runtime_error d) s h =
      QueueIs-on p (trigger_error site (pos 500)) (store_connection p c d s) h
  QueueIs-process site p c (threw out_of_fuel d) s h = tt

  QueueIs-tried :
      (site : Site) (p : Pointer) (m : M Connection (Unit {0})) (s : ServerManager)
      → QueueIs q s
      → Returns (QueueIs q) (catch_errors site p (on_connection p m s))
  unfolding catch_errors
  QueueIs-tried site p m s h = go (find_key p s.clients)
    where
      go :
          (o : Option Client)
          → Returns (QueueIs q) (
              catch_errors site p (elim o as (λ o. Outcome (Unit {0})) [
                | none ↦ dangling
                | some c ↦ returned p c (m c.connection) s
              ]))
      go none = tt
      go (some c) = QueueIs-process site p c (m c.connection) s h

  QueueIs-polled :
      (fd : ℕ) (events : Events) (s : ServerManager)
      → QueueIs q s
      → Returns (QueueIs q) (add_poll_fd fd events s)
  unfolding add_poll_fd
  QueueIs-polled fd events s h = go (epoll_ctl s.ctl_replies).0
    where
      t : ServerManager
      t = record s { ctl_replies = (epoll_ctl s.ctl_replies).1 }

      entered : ServerManager
      entered = record t { fd_events = set_key fd events t.fd_events }

      go :
          (b : Bool)
          → Returns (QueueIs q) (
              if b
              then done tt entered
              else raised fatal_exception
                  (if is_some (find_key fd s.fd_events) then entered else t))
      go true = h
      go false = tt

  QueueIs-register :
      (now : ℕ) (p : Pointer) (o : Option ℕ) (s : ServerManager)
      → QueueIs q s
      → Returns (QueueIs q) (register_pipe now p o s)
  unfolding register_pipe
  QueueIs-register now p none s h = h
  QueueIs-register now p (some pipe) s h =
      QueueIs-polled pipe epollin
        (record s {
          cgi_pipe_to_conn = set_key pipe p s.cgi_pipe_to_conn;
          cgi_start_times = set_key pipe now s.cgi_start_times;
        })
        h

  QueueIs-unregister :
      (o : Option ℕ) (s : ServerManager) → QueueIs q s → QueueIs q (unregister_cgi_pipe o s)
  unfolding unregister_cgi_pipe
  QueueIs-unregister none s h = h
  QueueIs-unregister (some pipe) s h = h

  QueueIs-drop :
      (fd : ℕ) (s : ServerManager) → QueueIs q s → Returns (QueueIs q) (drop_connection fd s)
  unfolding drop_connection
  QueueIs-drop fd s h = go (find_key fd s.connections)
    where
      dropped : Pointer → Client → Method (Unit {0})
      dropped p c = modify (λ t.
          forget_fd fd
            (delete_connection fd p (unregister_cgi_pipe (get_cgi_pipe_fd c.connection) t)))

      go :
          (o : Option Pointer)
          → Returns (QueueIs q) (elim o as (λ o. Outcome (Unit {0})) [
            | none ↦ done tt (forget_fd fd s)
            | some p ↦ with_client p (dropped p) s
          ])
      go none = h
      go (some p) =
          Returns-client (QueueIs q) p (dropped p) s
            (λ c. QueueIs-unregister (get_cgi_pipe_fd c.connection) s h)

  QueueIs-finalize :
      (now : ℕ) (p : Pointer) (fd : ℕ) (st : ConnectionState) (s : ServerManager)
      → QueueIs q s
      → Returns (QueueIs q) (finalize_state now p fd st s)
  unfolding finalize_state register_cgi_pipe
  QueueIs-finalize now p fd writing s h = QueueIs-polled fd epollin_out s h
  QueueIs-finalize now p fd waiting_for_cgi s h =
      Returns-then (QueueIs q) (QueueIs q) (add_poll_fd fd no_events) (register_cgi_pipe now p) s
        (QueueIs-polled fd no_events s h)
        (λ t v.
          Returns-client (QueueIs q) p (λ c. register_pipe now p (get_cgi_pipe_fd c.connection)) t
            (λ c. QueueIs-register now p (get_cgi_pipe_fd c.connection) t v))
  QueueIs-finalize now p fd finished s h = QueueIs-drop fd s h
  QueueIs-finalize now p fd reading s h = h
  QueueIs-finalize now p fd processing s h = h

  -- After a call of process the connection is at the back of the queue, or not in it again.
  abbrev pub Requeued : Pointer → ServerManager → Type 0
  Requeued p s = QueueIs q s ⊎ QueueIs (q ++ (p ∷ [])) s

  QueueIs-left :
      (now : ℕ) (p : Pointer) (s : ServerManager)
      → QueueIs q s
      → Returns (QueueIs q) (finalize_processed now p (dequeue_processing p s))
  unfolding finalize_processed dequeue_processing
  QueueIs-left now p s h =
      Returns-client (QueueIs q) p (λ c. finalize_state now p c.fd c.connection.state)
        (dequeue_processing p s)
        (λ c. QueueIs-finalize now p c.fd c.connection.state (dequeue_processing p s) h)

  Requeued-left :
      (now : ℕ) (p : Pointer) (s : ServerManager)
      → QueueIs q s
      → Returns (Requeued p) (finalize_processed now p (dequeue_processing p s))
  Requeued-left now p s h =
      go (finalize_processed now p (dequeue_processing p s)) (QueueIs-left now p s h)
    where
      go : (x : Outcome (Unit {0})) → Returns (QueueIs q) x → Returns (Requeued p) x
      go (done a t) e = inl e
      go (raised e t) u = tt
      go dangling u = tt

  Requeued-reschedule :
      (now : ℕ) (p : Pointer) (st : ConnectionState) (s : ServerManager)
      → QueueIs q s
      → Returns (Requeued p) (reschedule now p st s)
  unfolding reschedule
  Requeued-reschedule now p processing s h = inr (ap (λ r. r ++ (p ∷ [])) h)
  Requeued-reschedule now p reading s h = Requeued-left now p s h
  Requeued-reschedule now p writing s h = Requeued-left now p s h
  Requeued-reschedule now p waiting_for_cgi s h = Requeued-left now p s h
  Requeued-reschedule now p finished s h = Requeued-left now p s h

  pub Requeued-process_one :
      (site : Site) (p : Pointer) (s : ServerManager)
      → QueueIs q s
      → Returns (Requeued p) (process_one site p s)
  unfolding process_one
  Requeued-process_one site p s h =
      Returns-then (QueueIs q) (Requeued p)
        (λ t. catch_errors site p (on_connection p (process site) t))
        (with_client p (λ c. reschedule site.time p c.connection.state)) s
        (QueueIs-tried site p (process site) s h)
        (λ t v.
          Returns-client (Requeued p) p (λ c. reschedule site.time p c.connection.state) t
            (λ c. Requeued-reschedule site.time p c.connection.state t v))
