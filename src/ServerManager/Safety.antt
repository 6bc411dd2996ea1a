-- ===== src/ServerManager/Safety.antt =====
-- Memory safety of the event loop.
use left_hook_roll.ServerManager.Sound.Objects.{Sound-added}
use left_hook_roll.ServerManager.Tends.{Tends-owned}
use left_hook_roll.ServerManager.Handled.{Keeps-handle_connection}
use left_hook_roll.ServerManager.Dropped.{Keeps-drop}
use left_hook_roll.ServerManager.Swept.{Keeps-sweep_cgi, Keeps-sweep}
use left_hook_roll.ServerManager.Piped.{Keeps-pipe_event}
use left_hook_roll.ServerManager.Pipes.{handle_cgi_pipe_event}
use left_hook_roll.ServerManager.Rounds.{Keeps-round_loop}
use left_hook_roll.ServerManager.Polling.{add_poll_fd}
use left_hook_roll.Dict.{is_some}
use left_hook_roll.ServerManager.Kept.{Keeps-add_poll_fd, Keeps-then, Keeps-if, Keeps}
use left_hook_roll.Table.{has_key, set_key, find_key}
use left_hook_roll.ServerManager.Sound.{IsSound}
use left_hook_roll.ServerManager.Timeouts.{sweep_cgi_timeouts, sweep_timeouts}
use left_hook_roll.ServerManager.Scheduling.{budget, run_round_robin}
use left_hook_roll.ServerManager.Clients.{
  drop_connection, or_null, accepted_client, handle_connection, accept_new_connections, accept_one,
  Accepted,
}
use left_hook_roll.ServerManager.Loop.{
  run, before_wait, is_lost, wait_failed, no_event, ready, Event, Turn, handle_events, run_turn,
  Wait, socket_event, handle_event, dispatch,
}
use left_hook_roll.ServerManager.State.{
  new_manager, Pointer, epollin, dangling, raised, done, Method, ServerManager, Outcome, ◌>>◌,
}
use left_hook_roll.Prelude.{
  Bool, if◌then◌else◌, ◌++◌, ◌+◌, Option, length, suc, some, none, ◌≡◌, ◌∷◌, ℕ, List, refl, [],
}

-- What the kernel and the allocator guarantee of a connection that accept makes: neither its
-- descriptor nor the address of its object is in use.
abbrev IsFresh : Accepted → ServerManager → Type 0
IsFresh a s = (find_key a.pointer s.clients ≡ none) × (find_key a.fd s.connections ≡ none)

-- The same of every connection that is accepted in a row, when its turn comes.
abbrev FreshAccepts : ℕ → List Accepted → ServerManager → Type 0
FreshAccepts listen_fd [] s = Unit
FreshAccepts listen_fd (a ∷ rest) s =
    IsFresh a s
    × ((t : ServerManager) → accept_one listen_fd a s ≡ done tt t → FreshAccepts listen_fd rest t)

abbrev FreshEvents : List Event → ServerManager → Type 0
FreshEvents [] s = Unit
FreshEvents (e ∷ es) s =
    FreshAccepts e.fd e.accepts s
    × ((t : ServerManager) → handle_event e s ≡ done tt t → FreshEvents es t)

abbrev FreshWait : Wait → ServerManager → Type 0
FreshWait no_event s = Unit
FreshWait wait_failed s = Unit
FreshWait (ready events) s = FreshEvents events s

abbrev pub FreshTurns : List Turn → ServerManager → Type 0
FreshTurns [] s = Unit
FreshTurns (t ∷ turns) s =
    ((u : ServerManager) → before_wait t s ≡ done tt u → FreshWait t.wait u)
    × ((v : ServerManager) → run_turn t s ≡ done tt v → FreshTurns turns v)

-- Two methods in a row, the second with what the first has returned.
Keeps-after :
    (x : Outcome (Unit {0})) (k : Method (Unit {0}))
    → Keeps IsSound x
    → ((t : ServerManager) → x ≡ done tt t → IsSound t → Keeps IsSound (k t))
    → Keeps IsSound (elim x as (λ x. Outcome (Unit {0})) [
      | done a t ↦ k t
      | raised e t ↦ raised e t
      | dangling ↦ dangling
    ])
Keeps-after (done a s) k h g = g s refl h
Keeps-after (raised e s) k h g = h
Keeps-after dangling k h g = h

Keeps-accept_one :
    (listen_fd : ℕ) (a : Accepted) (s : ServerManager)
    → IsSound s
    → IsFresh a s
    → Keeps IsSound (accept_one listen_fd a s)
unfolding accept_one
Keeps-accept_one listen_fd a s h (f, g) =
    Keeps-if IsSound a.nonblocking
      (add_poll_fd a.fd epollin (record s {
        clients =
            set_key a.pointer
              (accepted_client a (or_null (find_key listen_fd s.listen_fd_to_server_conf)))
              s.clients;
        connections = set_key a.fd a.pointer s.connections;
      }))
      (done tt (record s { closed = s.closed ++ (a.fd ∷ []) }))
      (Keeps-add_poll_fd IsSound a.fd epollin
        (record s {
          clients =
              set_key a.pointer
                (accepted_client a (or_null (find_key listen_fd s.listen_fd_to_server_conf)))
                s.clients;
          connections = set_key a.fd a.pointer s.connections;
        })
        (λ replies m.
          Sound-added s.clients s.connections a.fd a.pointer
            (accepted_client a (or_null (find_key listen_fd s.listen_fd_to_server_conf))) f refl g
            s.processing_set s.cgi_pipe_to_conn h))
      h

Keeps-accepts :
    (listen_fd : ℕ) (accepts : List Accepted) (s : ServerManager)
    → IsSound s
    → FreshAccepts listen_fd accepts s
    → Keeps IsSound (accept_new_connections listen_fd accepts s)
unfolding accept_new_connections
Keeps-accepts listen_fd [] s h f = h
Keeps-accepts listen_fd (a ∷ rest) s h f =
    Keeps-after (accept_one listen_fd a s) (accept_new_connections listen_fd rest)
      (Keeps-accept_one listen_fd a s h f.0) (λ t e v. Keeps-accepts listen_fd rest t v (f.1 t e))

Keeps-socket_event :
    (e : Event) (s : ServerManager)
    → IsSound s
    → FreshAccepts e.fd e.accepts s
    → Keeps IsSound (socket_event e s)
unfolding socket_event
Keeps-socket_event e s h f =
    Keeps-if IsSound (is_lost e.events)
      (if has_key e.fd s.listen_fds then done tt s else drop_connection e.fd s)
      (if has_key e.fd s.listen_fds then accept_new_connections e.fd e.accepts s else by_fd)
      (Keeps-if IsSound (has_key e.fd s.listen_fds) (done tt s) (drop_connection e.fd s) h
        (Keeps-drop e.fd s h))
      (Keeps-if IsSound (has_key e.fd s.listen_fds) (accept_new_connections e.fd e.accepts s) by_fd
        (Keeps-accepts e.fd e.accepts s h f) (go (find_key e.fd s.connections) refl))
  where
    by_fd : Outcome (Unit {0})
    by_fd = elim (find_key e.fd s.connections) [
      | none ↦ done tt s
      | some p ↦ handle_connection e.site e.received p e.events s
    ]

    go :
        (o : Option Pointer)
        → find_key e.fd s.connections ≡ o
        → Keeps IsSound (elim o as (λ o. Outcome (Unit {0})) [
          | none ↦ done tt s
          | some p ↦ handle_connection e.site e.received p e.events s
        ])
    go none q = h
    go (some p) q =
        Keeps-handle_connection e.site e.fd p e.received e.events s (Tends-owned e.fd p s h q)

Keeps-event :
    (e : Event) (s : ServerManager)
    → IsSound s
    → FreshAccepts e.fd e.accepts s
    → Keeps IsSound (handle_event e s)
unfolding handle_event
Keeps-event e s h f =
    Keeps-if IsSound (is_some (find_key e.fd s.cgi_pipe_to_conn))
      (handle_cgi_pipe_event e.site e.pipe_reply e.fd e.events s) (socket_event e s)
      (Keeps-pipe_event e.site e.pipe_reply e.fd e.events s h) (Keeps-socket_event e s h f)

Keeps-events :
    (es : List Event) (s : ServerManager)
    → IsSound s
    → FreshEvents es s
    → Keeps IsSound (handle_events es s)
unfolding handle_events
Keeps-events [] s h f = h
Keeps-events (e ∷ es) s h f =
    Keeps-after (handle_event e s) (handle_events es) (Keeps-event e s h f.0)
      (λ t q v. Keeps-events es t v (f.1 t q))

Keeps-dispatch :
    (w : Wait) (s : ServerManager) → IsSound s → FreshWait w s → Keeps IsSound (dispatch w s)
unfolding dispatch
Keeps-dispatch no_event s h f = h
Keeps-dispatch wait_failed s h f = h
Keeps-dispatch (ready events) s h f = Keeps-events events s h f

Keeps-before_wait : (t : Turn) (s : ServerManager) → IsSound s → Keeps IsSound (before_wait t s)
unfolding before_wait run_round_robin
Keeps-before_wait t s h =
    Keeps-then IsSound IsSound (λ u v. v) (run_round_robin t.sites)
      (sweep_timeouts t.site >> sweep_cgi_timeouts t.cgi_site) s
      (Keeps-round_loop t.sites (suc (length s.processing_queue + budget)) 0 s h)
      (λ u v.
        Keeps-then IsSound IsSound (λ a w. w) (sweep_timeouts t.site)
          (sweep_cgi_timeouts t.cgi_site) u (Keeps-sweep t.site u v) (Keeps-sweep_cgi t.cgi_site))

-- Whatever the clients, the files, the scripts and the kernel do, the loop of `run` never uses a
-- connection that has been deleted: started on a sound manager it returns, or throws, and leaves a
-- sound manager, in which the table of connections, the processing set and the table of pipes point
-- to connections that are alive and registered. Each accepted connection is taken to have a
-- descriptor and an address that are not in use.
pub run-IsSound :
    (turns : List Turn) (s : ServerManager)
    → IsSound s
    → FreshTurns turns s
    → Keeps IsSound (run turns s)
unfolding run run_turn
run-IsSound [] s h f = h
run-IsSound (t ∷ turns) s h f =
    Keeps-after (run_turn t s) (run turns)
      (Keeps-after (before_wait t s) (dispatch t.wait) (Keeps-before_wait t s h)
        (λ u e v. Keeps-dispatch t.wait u v (f.0 u e)))
      (λ v e w. run-IsSound turns v w (f.1 v e))

-- The manager that the constructor starts from.
pub new_manager-IsSound :
    (epoll_fd : ℕ) (replies : List Bool) → IsSound (new_manager epoll_fd replies)
unfolding new_manager find_key has_key
new_manager-IsSound epoll_fd replies = record {
  owned = λ fd p e. absurd (cc e);
  scheduled = λ p e. absurd (cc e);
  piped = λ pipe p e. absurd (cc e);
}
