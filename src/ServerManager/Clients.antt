-- ===== src/ServerManager/Clients.antt =====
-- src/ServerManager.cpp: `_acceptNewConnections`, `_handleConnection` and `_dropConnection`.
use left_hook_roll.DataStore.Files.{reset_read_position}
use left_hook_roll.Request.Body.{on_body}
use left_hook_roll.Connection.Reading.{handle_read}
use left_hook_roll.ServerManager.State.{
  ◌>>◌, epollin_out, on_connection, modify, no_events, done, Events, with_client, Client, epollin,
  ServerManager, Method, catch_errors, Pointer,
}
use left_hook_roll.Connection.Processing.{handle_write}
use left_hook_roll.Table.{add_key, erase_key, has_key, set_key, remove_key, find_key}
use left_hook_roll.DataStore.Kernel.{DataStore}
use left_hook_roll.Text.{Bytes}
use left_hook_roll.Conf.{ServerConf}
use left_hook_roll.Response.State.{Socket, Site}
use left_hook_roll.Connection.{
  on_request, finished, waiting_for_cgi, reading, processing, writing, new_connection,
  ConnectionState,
}
use left_hook_roll.ServerManager.Polling.{get_cgi_pipe_fd, add_poll_fd, unregister_cgi_pipe}
use left_hook_roll.Prelude.{
  [], false, ◌∷◌, none, ◌++◌, true, if◌then◌else◌, some, List, Bool, Option, ℕ,
}

-- What is left of a descriptor when its connection is dropped, or where it had none.
abbrev pub forget_fd : ℕ → ServerManager → ServerManager
forget_fd fd s = record s { closed = s.closed ++ (fd ∷ []); fd_events = erase_key fd s.fd_events }

-- A connection is dequeued, deleted and erased.
abbrev pub delete_connection : ℕ → Pointer → ServerManager → ServerManager
delete_connection fd p s = record s {
  processing_set = remove_key p s.processing_set;
  clients = erase_key p s.clients;
  connections = erase_key fd s.connections;
}

unfoldable pub drop_connection : ℕ → Method (Unit {0})
unfolding unregister_cgi_pipe get_cgi_pipe_fd
drop_connection fd s = elim (find_key fd s.connections) [
  | none ↦ done tt (forget_fd fd s)
  | some p ↦
      with_client p
        (λ c. modify (λ t.
          forget_fd fd
            (delete_connection fd p (unregister_cgi_pipe (get_cgi_pipe_fd c.connection) t))))
        s
]

-- A successful accept(2): whether the descriptor could be made non-blocking, where `new Connection`
-- puts the object, and what the object starts from.
pub record Accepted : Type 0 where
  pub fd : ℕ
  pub nonblocking : Bool
  pub pointer : Pointer
  pub now : ℕ
  pub body : DataStore
  pub decoded : DataStore
  pub store : DataStore
  pub socket : Socket

abbrev pub or_null : Option (Option ServerConf) → Option ServerConf
or_null none = none
or_null (some config) = config

abbrev pub accepted_client : Accepted → Option ServerConf → Client
accepted_client a config = record {
  fd = a.fd;
  connection = new_connection a.now config a.body a.decoded a.store a.socket;
}

unfoldable pub accept_one : ℕ → Accepted → Method (Unit {0})
unfolding add_poll_fd
accept_one listen_fd a s =
    if a.nonblocking
    then add_poll_fd a.fd epollin (record s {
      clients =
          set_key a.pointer
            (accepted_client a (or_null (find_key listen_fd s.listen_fd_to_server_conf))) s.clients;
      connections = set_key a.fd a.pointer s.connections;
    })
    else done tt (record s { closed = s.closed ++ (a.fd ∷ []) })

-- The loop ends where accept fails: at the end of the list.
unfoldable pub accept_new_connections : ℕ → List Accepted → Method (Unit {0})
unfolding accept_one
accept_new_connections listen_fd [] = done tt
accept_new_connections listen_fd (a ∷ as') = do
  accept_one listen_fd a
  accept_new_connections listen_fd as'

abbrev pub is_processing : ConnectionState → Bool
is_processing processing = true
is_processing _ = false

abbrev pub is_writing : ConnectionState → Bool
is_writing writing = true
is_writing _ = false

unfoldable pub enqueue_processing : Pointer → ServerManager → ServerManager
enqueue_processing p s = if has_key p s.processing_set then s else record s {
  processing_set = add_key p s.processing_set;
  processing_queue = s.processing_queue ++ (p ∷ []);
}

unfoldable pub dequeue_processing : Pointer → ServerManager → ServerManager
dequeue_processing p s = record s { processing_set = remove_key p s.processing_set }

-- conn->getRequest()->getBodyStore().resetReadPosition(); _enqueueProcessing(conn);
abbrev pub start_processing : Pointer → Method (Unit {0})
start_processing p = do
  on_connection p (on_request (on_body reset_read_position))
  modify (enqueue_processing p)

module _ (site : Site) where
  -- if (events & EPOLLIN); `reply` is what recv returns.
  unfoldable pub read_event : Option Bytes → Pointer → Method (Unit {0})
  unfolding enqueue_processing
  read_event reply p = do
    on_connection p (handle_read site reply)
    with_client p (λ c. if is_processing c.connection.state then start_processing p else done tt)

  -- if ((events & EPOLLOUT) && conn->getState() == WRITING)
  unfoldable pub write_event : Pointer → Method (Unit {0})
  write_event p =
      with_client p (λ c.
        if is_writing c.connection.state then on_connection p (handle_write site) else done tt)

  -- The try block.
  unfoldable pub try_handle : Option Bytes → Pointer → Events → Method (Unit {0})
  unfolding read_event write_event
  try_handle reply p events = do
    (if events.input then read_event reply p else done tt)
    (if events.output then write_event p else done tt)

  -- The switch on the final state.
  unfoldable pub poll_by_state : ℕ → ConnectionState → Method (Unit {0})
  unfolding add_poll_fd drop_connection
  poll_by_state fd reading = add_poll_fd fd epollin
  poll_by_state fd processing = add_poll_fd fd no_events
  poll_by_state fd writing = add_poll_fd fd epollin_out
  poll_by_state fd waiting_for_cgi = add_poll_fd fd no_events
  poll_by_state fd finished = drop_connection fd

  unfoldable pub handle_connection : Option Bytes → Pointer → Events → Method (Unit {0})
  unfolding try_handle catch_errors poll_by_state
  handle_connection reply p events = with_client p (λ c. do
    (λ s. catch_errors site p (try_handle reply p events s))
    with_client p (λ d. poll_by_state c.fd d.connection.state))
