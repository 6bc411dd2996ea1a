-- ===== src/ServerManager/Listening.antt =====
-- src/ServerManager.cpp: the listening sockets, the constructors and the copies.
use left_hook_roll.Prelude.Result.{fatal_exception}
use left_hook_roll.Table.{set_key, add_key, Table}
use left_hook_roll.ServerManager.Polling.{close_all_fds, add_poll_fd}
use left_hook_roll.Conf.{ServerConf, SockAddr}
use left_hook_roll.ServerManager.State.{
  modify, dangling, raised, Events, epollin, new_manager, Method, done, ServerManager, Outcome,
  ◌>>◌,
}
use left_hook_roll.Prelude.{
  false, true, ◌++◌, ◌&&◌, if◌then◌else◌, some, none, ◌==◌, ◌∷◌, Bool, ℕ, Option, List, [],
}

-- What the kernel says to the calls of _createListeningSocket.
pub record ListenReplies : Type 0 where
  pub socket : Option ℕ
  pub setsockopt : Bool
  pub bind : Bool
  pub listen : Bool
  pub fcntl : Bool

-- A call on the new socket: its failure closes the socket.
abbrev pub or_close : ℕ → Bool → Method (Unit {0}) → Method (Unit {0})
or_close fd true next s = next s
or_close fd false next s = raised fatal_exception (record s { closed = s.closed ++ (fd ∷ []) })

-- The calls in order, and what follows them.
unfoldable pub create_listening_socket : ListenReplies → (ℕ → Method (Unit {0})) → Method (Unit {0})
create_listening_socket k next s = elim k.socket [
  | none ↦ raised fatal_exception s
  | some fd ↦
      or_close fd k.setsockopt
        (or_close fd k.bind (or_close fd k.listen (or_close fd k.fcntl (next fd)))) s
]

-- SockAddrCompare: neither address is before the other.
unfoldable pub same_address : SockAddr → SockAddr → Bool
same_address a b = a.address == b.address && a.port == b.port

-- _interfacePortPairs[addr] = conf
unfoldable pub set_address :
    SockAddr → ServerConf → List (SockAddr × ServerConf) → List (SockAddr × ServerConf)
unfolding same_address
set_address a conf [] = (a, conf) ∷ []
set_address a conf ((b, c) ∷ m) =
    let rest = set_address a conf m in if same_address b a then (b, conf) ∷ m else (b, c) ∷ rest

unfoldable pub find_address : SockAddr → List (SockAddr × ServerConf) → Option ServerConf
unfolding same_address
find_address a [] = none
find_address a ((b, c) ∷ m) = if same_address b a then some c else find_address a m

-- What addServer and addListenPort do with the new socket.
abbrev pub watch_listener : Option ServerConf → ℕ → Method (Unit {0})
watch_listener conf fd s = add_poll_fd fd epollin (record s {
  listen_fds = add_key fd s.listen_fds;
  listen_fd_to_server_conf = set_key fd conf s.listen_fd_to_server_conf;
})

unfoldable pub add_server : ListenReplies → ServerConf → Method (Unit {0})
unfolding create_listening_socket set_address add_poll_fd
add_server k conf = create_listening_socket k (λ fd s. watch_listener (some conf) fd (record s {
  interface_port_pairs = set_address conf.interface_port_pair conf s.interface_port_pairs;
}))

unfoldable pub add_listen_port : ListenReplies → Method (Unit {0})
unfolding create_listening_socket add_poll_fd
add_listen_port k = create_listening_socket k (watch_listener none)

-- getServerConfForFd: `none` where getsockname fails.
unfoldable pub get_server_conf_for_fd : Option SockAddr → ServerManager → Option ServerConf
unfolding find_address
get_server_conf_for_fd none s = none
get_server_conf_for_fd (some local) s = find_address local s.interface_port_pairs

-- The constructor's loop, over the configurations with the kernel's replies for each.
unfoldable pub add_servers : List (ServerConf × ListenReplies) → Method (Unit {0})
unfolding add_server
add_servers [] = done tt
add_servers ((conf, k) ∷ confs) = do
  modify (λ s. record s { server_confs = s.server_confs ++ (conf ∷ []) })
  add_server k conf
  add_servers confs

-- The catch clause of the constructors: everything is closed, and the exception goes on.
abbrev pub or_close_all : Outcome (Unit {0}) → Outcome (Unit {0})
or_close_all (done a s) = done a s
or_close_all (raised e s) = raised e (close_all_fds (record s { server_confs = [] }))
or_close_all dangling = dangling

-- ServerManager(confs); epoll_create returns `none` for -1.
unfoldable pub server_manager :
    Option ℕ → List Bool → List (ServerConf × ListenReplies) → Outcome (Unit {0})
unfolding add_servers close_all_fds new_manager
server_manager none replies confs =
    raised fatal_exception (record (new_manager 0 replies) { epoll_fd = none })
server_manager (some epoll_fd) replies confs =
    or_close_all (add_servers confs (new_manager epoll_fd replies))

-- The loop that enters the descriptors of another manager.
unfoldable pub poll_all : Table Events → Method (Unit {0})
unfolding add_poll_fd
poll_all [] = done tt
poll_all ((fd, events) ∷ m) = do add_poll_fd fd events; poll_all m

-- What a copy takes from the other manager.
abbrev pub copied : ServerManager → ServerManager → ServerManager
copied other s = record s {
  interface_port_pairs = other.interface_port_pairs;
  listen_fds = other.listen_fds;
  listen_fd_to_server_conf = other.listen_fd_to_server_conf;
}

-- ServerManager(other)
unfoldable pub copy_manager : Option ℕ → List Bool → ServerManager → Outcome (Unit {0})
unfolding poll_all close_all_fds new_manager
copy_manager none replies other =
    raised fatal_exception (record (copied other (new_manager 0 replies)) { epoll_fd = none })
copy_manager (some epoll_fd) replies other =
    elim (poll_all other.fd_events (copied other (new_manager epoll_fd replies))) [
      | done a s ↦ done a s
      | raised e s ↦ raised e (close_all_fds s)
      | dangling ↦ dangling
    ]

-- operator=, from another manager
unfoldable pub assign_manager : Option ℕ → ServerManager → Method (Unit {0})
unfolding poll_all close_all_fds
assign_manager none other s = raised fatal_exception (copied other (close_all_fds s))
assign_manager (some epoll_fd) other s =
    poll_all other.fd_events (record (copied other (close_all_fds s)) { epoll_fd = some epoll_fd })
