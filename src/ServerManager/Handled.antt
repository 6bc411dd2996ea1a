-- ===== src/ServerManager/Handled.antt =====
-- Events of a client's descriptor keep the manager sound.
use left_hook_roll.ServerManager.Dropped.{
  Keeps-error, sound_of, Keeps-drop, Unpiped, Keeps-two, Keeps-polled_sound,
}
use left_hook_roll.ServerManager.Calm.{handle_read-Answers, Calm-handle_write}
use left_hook_roll.Connection.Processing.{handle_write}
use mathlib.Core.Path.{subst}
use left_hook_roll.DataStore.Files.{reset_read_position}
use left_hook_roll.ServerManager.Tends.{
  Tends, Tends-enqueued, Tends-IsUnpiped, Answers-piped, Tends-changed, IsUnpiped-processing,
  Tends-Calm,
}
use left_hook_roll.Request.Body.{on_body}
use left_hook_roll.Prelude.Result.{after}
use left_hook_roll.Connection.Reading.{handle_read}
use left_hook_roll.ServerManager.Kept.{
  Keeps, Keeps-choice, Keeps-caught, Keeps-on, Keeps-then, Keeps-client,
}
use left_hook_roll.Text.{Bytes}
use left_hook_roll.ServerManager.Polling.{get_cgi_pipe_fd}
use left_hook_roll.ServerManager.Sound.{Answers, IsSound}
use left_hook_roll.ServerManager.Clients.{
  enqueue_processing, is_writing, is_processing, start_processing, poll_by_state, read_event,
  write_event, try_handle, handle_connection,
}
use left_hook_roll.Response.State.{Site}
use left_hook_roll.Prelude.{ap, sym, if◌then◌else◌, ◌≡◌, Option, ℕ, refl}
use left_hook_roll.ServerManager.State.{
  modify, epollin_out, no_events, with_client, done, epollin, store_connection, catch_errors,
  on_connection, Events, ServerManager, Pointer, ◌>>◌,
}
use left_hook_roll.Connection.{
  finished, waiting_for_cgi, writing, reading, processing, Connection, ConnectionState, on_request,
}

module _ (site : Site) (fd : ℕ) (p : Pointer) where
  Keeps-start : (s : ServerManager) → Unpiped fd p s → Keeps (Tends fd p) (start_processing p s)
  Keeps-start s (h, u) =
      Keeps-then (Unpiped fd p) (Tends fd p) (λ t v. v.0)
        (on_connection p (on_request (on_body reset_read_position))) (modify (enqueue_processing p))
        s
        (Keeps-on (Unpiped fd p) p (on_request (on_body reset_read_position)) s h.client h.alive
          (Tends-IsUnpiped fd p s h _ u, u))
        (λ t v. Tends-enqueued fd p t v.0 v.1)

  Tends-read :
      (reply : Option Bytes) (s : ServerManager) (h : Tends fd p s)
      → Tends fd p
          (store_connection p h.client (after (handle_read site reply h.client.connection)) s)
  Tends-read reply s h =
      Tends-changed fd p s h (after (handle_read site reply h.client.connection)) (λ pipe e.
        let w = Answers-piped fd p s h pipe e in
        let i : after (handle_read site reply h.client.connection) ≡ h.client.connection =
          ap after (handle_read-Answers site reply h.client.connection w) in
        (ap get_cgi_pipe_fd i, subst (λ (c : Connection). Answers c.state) (sym i) w))

  Keeps-if_processing :
      (s : ServerManager) (h : Tends fd p s) (st : ConnectionState)
      → h.client.connection.state ≡ st
      → Keeps (Tends fd p) ((if is_processing st then start_processing p else done tt) s)
  Keeps-if_processing s h processing e = Keeps-start s (h, IsUnpiped-processing fd p s h e)
  Keeps-if_processing s h reading e = h
  Keeps-if_processing s h writing e = h
  Keeps-if_processing s h waiting_for_cgi e = h
  Keeps-if_processing s h finished e = h

  Keeps-read_event :
      (reply : Option Bytes) (s : ServerManager)
      → Tends fd p s
      → Keeps (Tends fd p) (read_event site reply p s)
  unfolding read_event
  Keeps-read_event reply s h =
      Keeps-two fd p (Tends fd p) (λ t v. v) (on_connection p (handle_read site reply))
        (with_client p
          (λ c. if is_processing c.connection.state then start_processing p else done tt))
        s
        (Keeps-on (Tends fd p) p (handle_read site reply) s h.client h.alive (Tends-read reply s h))
        (λ t v.
          Keeps-client (Tends fd p) p
            (λ c. if is_processing c.connection.state then start_processing p else done tt) t
            v.client v.alive (Keeps-if_processing t v v.client.connection.state refl))

  Keeps-write_event : (s : ServerManager) → Tends fd p s → Keeps (Tends fd p) (write_event site p s)
  unfolding write_event
  Keeps-write_event s h =
      Keeps-client (Tends fd p) p
        (λ c.
          if is_writing c.connection.state then on_connection p (handle_write site) else done tt)
        s h.client h.alive
        (Keeps-choice (Tends fd p) (is_writing h.client.connection.state)
          (on_connection p (handle_write site)) (done tt) s
          (Keeps-on (Tends fd p) p (handle_write site) s h.client h.alive (
            Tends-Calm fd p s h (handle_write site h.client.connection)
              (Calm-handle_write site h.client.connection)))
          h)

  Keeps-try :
      (reply : Option Bytes) (events : Events) (s : ServerManager)
      → Tends fd p s
      → Keeps (Tends fd p) (try_handle site reply p events s)
  unfolding try_handle
  Keeps-try reply events s h =
      Keeps-two fd p (Tends fd p) (λ t v. v)
        (if events.input then read_event site reply p else done tt)
        (if events.output then write_event site p else done tt) s
        (Keeps-choice (Tends fd p) events.input (read_event site reply p) (done tt) s
          (Keeps-read_event reply s h) h)
        (λ t v.
          Keeps-choice (Tends fd p) events.output (write_event site p) (done tt) t
            (Keeps-write_event t v) v)

  Keeps-by_state :
      (st : ConnectionState) (s : ServerManager)
      → Tends fd p s
      → Keeps IsSound (poll_by_state site fd st s)
  unfolding poll_by_state
  Keeps-by_state reading s h = Keeps-polled_sound fd p epollin fd s h
  Keeps-by_state processing s h = Keeps-polled_sound fd p no_events fd s h
  Keeps-by_state writing s h = Keeps-polled_sound fd p epollin_out fd s h
  Keeps-by_state waiting_for_cgi s h = Keeps-polled_sound fd p no_events fd s h
  Keeps-by_state finished s h = Keeps-drop fd s h.sound

  Keeps-handle_fd :
      (reply : Option Bytes) (events : Events) (s : ServerManager)
      → Tends fd p s
      → Keeps IsSound (
          ((λ t. catch_errors site p (try_handle site reply p events t))
              >> with_client p (λ d. poll_by_state site fd d.connection.state))
            s)
  Keeps-handle_fd reply events s h =
      Keeps-two fd p IsSound (sound_of fd p)
        (λ t. catch_errors site p (try_handle site reply p events t))
        (with_client p (λ d. poll_by_state site fd d.connection.state)) s
        (Keeps-caught (Tends fd p) site p (try_handle site reply p events s)
          (Keeps-try reply events s h) (λ code t v. Keeps-error fd p site code t v))
        (λ t v.
          Keeps-client IsSound p (λ d. poll_by_state site fd d.connection.state) t v.client v.alive
            (Keeps-by_state v.client.connection.state t v))

  pub Keeps-handle_connection :
      (reply : Option Bytes) (events : Events) (s : ServerManager)
      → Tends fd p s
      → Keeps IsSound (handle_connection site reply p events s)
  unfolding handle_connection
  Keeps-handle_connection reply events s h =
      Keeps-client IsSound p
        (λ c.
          (λ t. catch_errors site p (try_handle site reply p events t))
          >> with_client p (λ d. poll_by_state site c.fd d.connection.state))
        s h.client h.alive
        (subst
          (λ (n : ℕ). Keeps IsSound (
            ((λ t. catch_errors site p (try_handle site reply p events t))
                >> with_client p (λ d. poll_by_state site n d.connection.state))
              s))
          (sym h.same_fd) (Keeps-handle_fd reply events s h))
