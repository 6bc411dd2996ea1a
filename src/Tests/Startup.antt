-- ===== src/Tests/Startup.antt =====
-- src/main.cpp and the constructor of the server manager on concrete inputs.
use left_hook_roll.Program.Ends.{Ends, FreshStart, main-Ends}
use left_hook_roll.Table.{has_key, add_key, set_key, find_key}
use left_hook_roll.ServerManager.Loop.{run, before_wait}
use left_hook_roll.ServerManager.State.{new_manager}
use left_hook_roll.ServerManager.Polling.{epoll_ctl, add_poll_fd}
use left_hook_roll.Tests.Manager.{FreshTurns-turn, turn}
use left_hook_roll.Text.{codes, Bytes}
use left_hook_roll.Conf.{set_defaults, new_server, ServerConf}
use left_hook_roll.ServerManager.Listening.{
  create_listening_socket, add_server, add_servers, server_manager, ListenReplies,
}
use left_hook_roll.Program.{
  exit_code, leave, configured, no_path, Kernel, main, make_manager, Ending,
}
use left_hook_roll.ServerManager.Constructed.{Constructed}
use left_hook_roll.Prelude.{◌*◌, Option, ◌+◌, refl, [], ◌∷◌, ◌≡◌, true, none, some, ℕ}

abbrev listening : ℕ → ListenReplies
listening i = record {
  socket = some (4 + i);
  setsockopt = true;
  bind = true;
  listen = true;
  fcntl = true;
}

abbrev default_conf : ServerConf
default_conf = record new_server {
  server_name = codes "LeftHookRoll";
  max_body_size = 1024 * 1024;
  interface_port_pair = record { address = 0; port = 8080 };
}

abbrev kernel : Kernel
kernel = record { epoll_fd = some 3; ctl_replies = []; sockets = listening }

abbrev ending : Ending
ending = record { start = 100; rounds = []; active_pids = 40 ∷ [] }

abbrev no_resolver : Bytes → Option ℕ
no_resolver name = none

FreshStart-turn : FreshStart (turn ∷ []) (make_manager no_resolver kernel no_path)
unfolding make_manager configured set_defaults server_manager add_servers add_server
    create_listening_socket add_poll_fd epoll_ctl new_manager before_wait find_key set_key
FreshStart-turn = FreshTurns-turn _ (refl, refl)

main-Ends_example :
    Ends
      (turn ∷ [])
      (40 ∷ [])
      (make_manager no_resolver kernel no_path)
      (main no_resolver kernel ending (turn ∷ []) no_path)
main-Ends_example = main-Ends no_resolver kernel ending (turn ∷ []) no_path FreshStart-turn

-- The server accepts the client, and stops with 0.
the_exit : exit_code (main no_resolver kernel ending (turn ∷ []) no_path) ≡ some 0
unfolding main make_manager configured set_defaults server_manager add_servers add_server
    create_listening_socket add_poll_fd epoll_ctl new_manager before_wait find_key set_key run leave
    has_key add_key
the_exit = refl
