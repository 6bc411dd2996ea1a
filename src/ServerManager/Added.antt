-- ===== src/ServerManager/Added.antt =====
-- What addServer adds to the manager.
use left_hook_roll.ServerManager.Sound.{IsSound}
use left_hook_roll.Dict.{is_some}
use left_hook_roll.Prelude.Result.{fatal_exception}
use left_hook_roll.Table.{
  Table, find_key-set_key, add_key, has_key-add_key, find_key, set_key, has_key,
}
use left_hook_roll.ServerManager.Listening.{
  add_server, or_close, ListenReplies, set_address, find_address, same_address,
  create_listening_socket,
}
use left_hook_roll.Conf.{ServerConf, SockAddr}
use left_hook_roll.ServerManager.Polling.{epoll_ctl, add_poll_fd}
use left_hook_roll.Prelude.{
  map, ◌++◌, if◌then◌else◌, ℕ, refl, [], ◌∷◌, ◌≡◌, List, Bool, true, false, some, none, Option, ◌∙◌,
  arith,
}
use left_hook_roll.ServerManager.State.{
  epollin, Events, ServerManager, Outcome, Method, done, raised, dangling,
}

-- The last configuration that listens on the address.
unfoldable pub bound_to : SockAddr → List (ServerConf × ListenReplies) → Option ServerConf
bound_to a [] = none
bound_to a ((conf, k) ∷ confs) = elim (bound_to a confs) [
  | none ↦ if same_address conf.interface_port_pair a then some conf else none
  | some c ↦ some c
]

-- The socket is known as a listener, and epoll watches it.
pub record IsWatched (fd : ℕ) (s : ServerManager) : Type 0 where
  pub listens : has_key fd s.listen_fds ≡ true
  pub watched : is_some (find_key fd s.fd_events) ≡ true

-- Every configuration has a socket that is watched.
abbrev pub AllWatched : List (ServerConf × ListenReplies) → ServerManager → Type 0
AllWatched [] s = Unit
AllWatched ((conf, k) ∷ confs) s =
    ((fd : ℕ) × (k.socket ≡ some fd) × IsWatched fd s) × AllWatched confs s

-- `t` is `s` with servers for `confs`.
pub record Added (confs : List (ServerConf × ListenReplies)) (s t : ServerManager) : Type 0 where
  pub confs_kept : t.server_confs ≡ s.server_confs ++ map (λ c. c.0) confs
  pub bound :
      (a : SockAddr)
      → find_address a t.interface_port_pairs
        ≡ elim (bound_to a confs) [ none ↦ find_address a s.interface_port_pairs | some c ↦ some c ]
  pub all_watched : AllWatched confs t
  pub still_watched : (fd : ℕ) → IsWatched fd s → IsWatched fd t
  pub sound_kept : IsSound s → IsSound t
  pub epoll_kept : t.epoll_fd ≡ s.epoll_fd

find_address-set_address :
    (a b : SockAddr) (conf : ServerConf) (m : List (SockAddr × ServerConf))
    → find_address a (set_address b conf m)
      ≡ (if same_address b a then some conf else find_address a m)
unfolding find_address set_address same_address
find_address-set_address a b conf [] = refl
find_address-set_address a b conf ((c, d) ∷ m) = ground (arith, find_address-set_address a b conf m)

-- What `P` says of a call of epoll_ctl that fails, or enters the descriptor.
pub add_poll_fd-cases :
    (P : Outcome (Unit {0}) → Type 0) (fd : ℕ) (events : Events) (s : ServerManager)
    → ((replies : List Bool)
        → P (
            done tt
              (record s { ctl_replies = replies; fd_events = set_key fd events s.fd_events })))
    → ((replies : List Bool) (m : Table Events)
        → P (raised fatal_exception (record s { ctl_replies = replies; fd_events = m })))
    → P (add_poll_fd fd events s)
unfolding add_poll_fd
add_poll_fd-cases P fd events s h g = go (epoll_ctl s.ctl_replies).0
  where
    go :
        (b : Bool)
        → P (
            if b
            then done tt (record s {
              ctl_replies = (epoll_ctl s.ctl_replies).1;
              fd_events = set_key fd events s.fd_events;
            })
            else raised fatal_exception (
                if is_some (find_key fd s.fd_events)
                then record s {
                  ctl_replies = (epoll_ctl s.ctl_replies).1;
                  fd_events = set_key fd events s.fd_events;
                }
                else record s { ctl_replies = (epoll_ctl s.ctl_replies).1 }))
    go true = h (epoll_ctl s.ctl_replies).1
    go false = failed (is_some (find_key fd s.fd_events))
      where
        failed :
            (known : Bool)
            → P (
                raised fatal_exception (
                  if known
                  then record s {
                    ctl_replies = (epoll_ctl s.ctl_replies).1;
                    fd_events = set_key fd events s.fd_events;
                  }
                  else record s { ctl_replies = (epoll_ctl s.ctl_replies).1 }))
        failed true = g (epoll_ctl s.ctl_replies).1 (set_key fd events s.fd_events)
        failed false = g (epoll_ctl s.ctl_replies).1 s.fd_events

-- What `P` says of a socket that cannot be made, or of what follows it.
create_listening_socket-cases :
    (P : Outcome (Unit {0}) → Type 0) (k : ListenReplies) (next : ℕ → Method (Unit {0}))
    (s : ServerManager)
    → ((fd : ℕ) → k.socket ≡ some fd → P (next fd s))
    → ((closed : List ℕ) → P (raised fatal_exception (record s { closed = closed })))
    → P (create_listening_socket k next s)
unfolding create_listening_socket
create_listening_socket-cases P k next s h g = go k.socket refl
  where
    closing : (fd : ℕ) (b : Bool) (m : Method (Unit {0})) → P (m s) → P (or_close fd b m s)
    closing fd true m p = p
    closing fd false m p = g _

    go :
        (o : Option ℕ)
        → k.socket ≡ o
        → P (elim o [
          | none ↦ raised fatal_exception s
          | some fd ↦
              or_close fd k.setsockopt
                (or_close fd k.bind (or_close fd k.listen (or_close fd k.fcntl (next fd))))
                s
        ])
    go none e = g s.closed
    go (some fd) e =
        closing fd k.setsockopt _
          (closing fd k.bind _ (closing fd k.listen _ (closing fd k.fcntl (next fd) (h fd e))))

-- What addServer does for the configurations: it adds them, or throws a FatalException.
abbrev pub Adds : List (ServerConf × ListenReplies) → ServerManager → Outcome (Unit {0}) → Type 0
Adds confs s (done a t) = Added confs s t
Adds confs s (raised e t) = (e ≡ fatal_exception) × (t.epoll_fd ≡ s.epoll_fd)
Adds confs s dangling = ⊥

-- The configuration is stored before its server is added.
abbrev pub stored : ServerConf → ServerManager → ServerManager
stored conf s = record s { server_confs = s.server_confs ++ (conf ∷ []) }

-- The manager with the new socket, before epoll is told of it.
abbrev opened : ServerConf → ℕ → ServerManager → ServerManager
opened conf fd s = record (stored conf s) {
  interface_port_pairs = set_address conf.interface_port_pair conf s.interface_port_pairs;
  listen_fds = add_key fd s.listen_fds;
  listen_fd_to_server_conf = set_key fd (some conf) s.listen_fd_to_server_conf;
}

pub add_server-Adds :
    (conf : ServerConf) (k : ListenReplies) (s : ServerManager)
    → Adds ((conf, k) ∷ []) s (add_server k conf (stored conf s))
unfolding add_server bound_to
add_server-Adds conf k s =
    create_listening_socket-cases (Adds ((conf, k) ∷ []) s) k _ (stored conf s)
      (λ fd e.
        add_poll_fd-cases (Adds ((conf, k) ∷ []) s) fd epollin (opened conf fd s)
          (λ replies. record {
            confs_kept = refl;
            bound = λ a.
                find_address-set_address a conf.interface_port_pair conf s.interface_port_pairs
                ∙ ground arith;
            all_watched = (
              (
                fd,
                e,
                record {
                  listens = ground (arith, has_key-add_key fd fd s.listen_fds);
                  watched = ground (arith, find_key-set_key fd fd epollin s.fd_events);
                },
              ),
              tt,
            );
            still_watched = λ other w. record {
              listens = ground (arith, w.listens, has_key-add_key fd other s.listen_fds);
              watched = ground (arith, w.watched, find_key-set_key fd other epollin s.fd_events);
            };
            sound_kept = λ h. h;
            epoll_kept = refl;
          })
          (λ replies m. (refl, refl)))
      (λ closed. (refl, refl))
