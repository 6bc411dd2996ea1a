-- ===== src/Program.antt =====
-- src/main.cpp: the configuration, the manager, its loop, and the end of both. The signal handlers set
-- g_running, which the list of the turns stands for, and g_sigpipe, which the sockets hold.
pub mod Ends
use left_hook_roll.Prelude.Result.{ok, threw}
use left_hook_roll.Conf.{new_server, set_defaults, ServerConf}
use left_hook_roll.ConfigParser.Blocks.{parse}
use left_hook_roll.ServerManager.Loop.{run, Turn}
use left_hook_roll.ServerManager.Polling.{close_all_fds}
use left_hook_roll.CgiManager.Processes.{Pids, Round, cleanup_all_processes, Act}
use left_hook_roll.Text.{Bytes}
use left_hook_roll.ServerManager.Listening.{server_manager, ListenReplies}
use left_hook_roll.Prelude.{refl, [], ◌∷◌, ◌≡◌, List, Bool, true, false, some, none, Option, suc, ℕ}
use left_hook_roll.ServerManager.State.{ServerManager, Outcome, Method, done, raised, dangling}

-- argc and argv: nothing, a path with the text of the file (`none` where it cannot be read), or more.
pub data Arguments : Type 0 where
  no_path : Arguments
  path : Option Bytes → Arguments
  more_arguments : Arguments

-- What the kernel says to the constructor: the descriptor of epoll, the calls of epoll_ctl, and the
-- calls on the sockets, by the number of the server.
pub record Kernel : Type 0 where
  pub epoll_fd : Option ℕ
  pub ctl_replies : List Bool
  pub sockets : ℕ → ListenReplies

-- The end of the loop: the time, the rounds of the grace period, and the scripts that run.
pub record Ending : Type 0 where
  pub start : ℕ
  pub rounds : List Round
  pub active_pids : Pids

-- No manager was made; its constructor threw; it ran, and was destroyed; or it used a Connection that
-- had been deleted.
pub data Exit : Type 0 where
  rejected : Exit
  not_started : ServerManager → Exit
  stopped : ℕ → ServerManager → List Act → Exit
  crashed : Exit

-- ~ServerManager
unfoldable pub destroy_manager : ServerManager → ServerManager
unfolding close_all_fds
destroy_manager s = close_all_fds (record s { server_confs = [] })

abbrev pub numbered : ℕ → (ℕ → ListenReplies) → List ServerConf → List (ServerConf × ListenReplies)
numbered i sockets [] = []
numbered i sockets (conf ∷ confs) = (conf, sockets i) ∷ numbered (suc i) sockets confs

-- The manager is destroyed, then the scripts are ended.
unfoldable pub leave : Ending → ℕ → ServerManager → Exit
unfolding destroy_manager cleanup_all_processes
leave ending code s =
    stopped code (destroy_manager s)
      (cleanup_all_processes ending.start ending.rounds ending.active_pids).0

-- The destructor runs where `run` returns, and where it throws; both catch clauses return 1.
abbrev after_run : Ending → Outcome (Unit {0}) → Exit
after_run ending (done a s) = leave ending 0 s
after_run ending (raised e s) = leave ending 1 s
after_run ending dangling = crashed

-- run() on the manager that has been constructed.
abbrev after_constructor : Ending → List Turn → Outcome (Unit {0}) → Exit
after_constructor ending turns (done a s) = after_run ending (run turns s)
after_constructor ending turns (raised e s) = not_started s
after_constructor ending turns dangling = crashed

module _ (resolve : Bytes → Option ℕ) where
  -- The configurations, or none: too many arguments, or a ConfigException.
  unfoldable pub configured : Arguments → Option (List ServerConf)
  unfolding parse set_defaults
  configured no_path = some (set_defaults new_server ∷ [])
  configured (path none) = none
  configured (path (some content)) = elim (parse resolve content) [
    | ok confs s ↦ some confs
    | threw e s ↦ none
  ]
  configured more_arguments = none

  unfoldable pub make_manager : Kernel → Arguments → Option (Outcome (Unit {0}))
  unfolding configured server_manager
  make_manager k args = elim (configured args) [
    | none ↦ none
    | some confs ↦ some (server_manager k.epoll_fd k.ctl_replies (numbered 0 k.sockets confs))
  ]

  unfoldable pub main : Kernel → Ending → List Turn → Arguments → Exit
  unfolding make_manager run leave
  main k ending turns args = elim (make_manager k args) [
    | none ↦ rejected
    | some x ↦ after_constructor ending turns x
  ]

-- What main returns.
abbrev pub exit_code : Exit → Option ℕ
exit_code rejected = some 1
exit_code (not_started s) = some 1
exit_code (stopped code s acts) = some code
exit_code crashed = none
