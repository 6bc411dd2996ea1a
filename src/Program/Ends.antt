-- ===== src/Program/Ends.antt =====
-- How `main` ends.
use left_hook_roll.ServerManager.Constructed.{
  Released, Released-close_all_fds, IsClosed-close_all_fds, IsClosed, server_manager-Constructed,
  Constructed,
}
use left_hook_roll.ServerManager.Listening.{server_manager, ListenReplies}
use left_hook_roll.Conf.{ServerConf}
use left_hook_roll.Prelude.Result.{Exception, fatal_exception}
use left_hook_roll.ServerManager.Sound.{IsSound}
use left_hook_roll.Text.{Bytes}
use left_hook_roll.CgiManager.Cleanup.{cleanup_all_processes-IsEnded, IsEnded}
use left_hook_roll.Prelude.Members.{In}
use left_hook_roll.ServerManager.Safety.{run-IsSound, FreshTurns}
use left_hook_roll.ServerManager.Kept.{Keeps}
use left_hook_roll.ServerManager.Loop.{run, Turn}
use left_hook_roll.Program.{
  configured, numbered, server_manager, run, after_constructor, ListenReplies, ServerConf, crashed,
  rejected, Arguments, stopped, Kernel, after_run, Bytes, not_started, make_manager,
  destroy_manager, Exit, main, Ending, leave,
}
use left_hook_roll.CgiManager.Processes.{Pids}
use left_hook_roll.Prelude.{ap, refl, [], ◌≡◌, List, some, none, Option, ℕ}
use left_hook_roll.ServerManager.State.{ServerManager, Outcome, done, raised, dangling}

-- The loop ran on the manager and left it as `t`; main returns 0 if `run` returned, and 1 if it threw.
pub data Ran (turns : List Turn) (started : Option (Outcome (Unit {0})))
    : ℕ → ServerManager → Type 0 where
  returned :
      {s t : ServerManager}
      → started ≡ some (done tt s)
      → run turns s ≡ done tt t
      → Ran turns started 0 t
  threw_out :
      {s t : ServerManager} (e : Exception)
      → started ≡ some (done tt s)
      → run turns s ≡ raised e t
      → Ran turns started 1 t

-- What an end means for the outcome of the constructor, if there was one.
abbrev pub Ends : List Turn → Pids → Option (Outcome (Unit {0})) → Exit → Type 0
Ends turns pids started rejected = started ≡ none
Ends turns pids started (not_started s) = IsClosed s × (started ≡ some (raised fatal_exception s))
Ends turns pids started (stopped code s acts) =
    ((t : ServerManager) × Ran turns started code t × IsSound t × Released t s)
    × IsClosed s
    × ((p : ℕ) → In p pids → IsEnded p acts)
Ends turns pids started crashed = ⊥

-- The client addresses and descriptors of the turns are fresh for the manager that is started.
abbrev pub FreshStart : List Turn → Option (Outcome (Unit {0})) → Type 0
FreshStart turns (some (done a s)) = FreshTurns turns s
FreshStart turns _ = Unit

Ends-leave :
    (turns : List Turn) (ending : Ending) (started : Option (Outcome (Unit {0}))) (code : ℕ)
    (t : ServerManager)
    → Ran turns started code t
    → IsSound t
    → Ends turns ending.active_pids started (leave ending code t)
unfolding leave destroy_manager
Ends-leave turns ending started code t r v =
    let c = Released-close_all_fds (record t { server_confs = [] }) in
    (
      (t, r, v, record { fds_closed = c.fds_closed; epoll_closed = c.epoll_closed }),
      IsClosed-close_all_fds (record t { server_confs = [] }) refl,
      cleanup_all_processes-IsEnded ending.start ending.rounds ending.active_pids,
    )

Ends-run :
    (turns : List Turn) (ending : Ending) (s : ServerManager) (x : Outcome (Unit {0}))
    → run turns s ≡ x
    → Keeps IsSound x
    → Ends turns ending.active_pids (some (done tt s)) (after_run ending x)
Ends-run turns ending s (done a t) e k = Ends-leave turns ending _ 0 t (returned refl e) k
Ends-run turns ending s (raised y t) e k = Ends-leave turns ending _ 1 t (threw_out y refl e) k
Ends-run turns ending s dangling e k = absurd k

-- Whatever the arguments, the configuration file, the clients, the scripts and the kernel are, main
-- uses no connection that has been deleted. Where a manager ran, main returns 0 exactly if `run` has
-- returned and 1 if it threw; the loop has left a sound manager, each descriptor that this watched, and
-- epoll's own, has been closed, no connection or configuration is left, and each process of a script
-- has been sent SIGTERM, and after that has been found to have ended, or killed and then waited for.
-- Where the manager was not started, its constructor threw a FatalException and left nothing watched;
-- where main rejects the arguments, no manager was made. Accepted connections are taken to have
-- descriptors and addresses that are not in use.
pub main-Ends :
    (resolve : Bytes → Option ℕ) (k : Kernel) (ending : Ending) (turns : List Turn)
    (args : Arguments)
    → FreshStart turns (make_manager resolve k args)
    → Ends turns ending.active_pids (make_manager resolve k args) (main resolve k ending turns args)
unfolding main make_manager
main-Ends resolve k ending turns args f = from (configured resolve args) f
  where
    begun :
        (confs : List (ServerConf × ListenReplies)) (x : Outcome (Unit {0}))
        → Constructed k.epoll_fd k.ctl_replies confs x
        → FreshStart turns (some x)
        → Ends turns ending.active_pids (some x) (after_constructor ending turns x)
    begun confs (done a s) c f =
        Ends-run turns ending s (run turns s) refl (run-IsSound turns s c.0 f)
    begun confs (raised e s) c f = (c.1, ap (λ e. some (raised e s)) c.0)
    begun confs dangling c f = c

    from :
        (o : Option (List ServerConf))
        → FreshStart turns (elim o as (λ o. Option (Outcome (Unit {0}))) [
          | none ↦ none
          | some confs ↦ some (server_manager k.epoll_fd k.ctl_replies (numbered 0 k.sockets confs))
        ])
        → Ends turns ending.active_pids
            (elim o as (λ o. Option (Outcome (Unit {0}))) [
              | none ↦ none
              | some confs ↦
                  some (server_manager k.epoll_fd k.ctl_replies (numbered 0 k.sockets confs))
            ])
            (elim (elim o as (λ o. Option (Outcome (Unit {0}))) [
              | none ↦ none
              | some confs ↦
                  some (server_manager k.epoll_fd k.ctl_replies (numbered 0 k.sockets confs))
            ])
              as (λ o. Exit) [ none ↦ rejected | some x ↦ after_constructor ending turns x ])
    from none f = refl
    from (some confs) f =
        begun (numbered 0 k.sockets confs)
          (server_manager k.epoll_fd k.ctl_replies (numbered 0 k.sockets confs))
          (server_manager-Constructed k.epoll_fd k.ctl_replies (numbered 0 k.sockets confs)) f
