-- ===== src/Tests/Manager.antt =====
-- src/ServerManager.cpp on concrete inputs.
use left_hook_roll.Response.State.{Site}
use left_hook_roll.ServerManager.Kept.{Keeps}
use left_hook_roll.Connection.{has_timed_out, trigger_error, new_connection}
use left_hook_roll.ServerManager.State.{
  returned, dangling, raised, epollin, done, new_manager, Events, Outcome, ServerManager, Client,
}
use left_hook_roll.ServerManager.Pass.{run_round_robin-TurnsWithin, TurnsWithin}
use left_hook_roll.CgiManager.Processes.{reaped}
use mathlib.Core.Path.{subst}
use left_hook_roll.DataStore.Kernel.{new_store}
use left_hook_roll.Text.{codes}
use left_hook_roll.Tests.Responses.{site}
use left_hook_roll.ServerManager.HungUp.{Finished, handle_cgi_pipe_event-Finished}
use left_hook_roll.Response.Cgi.{finalize_cgi_response}
use left_hook_roll.ServerManager.Sound.{IsSound}
use left_hook_roll.ServerManager.Returned.{Returns}
use left_hook_roll.ServerManager.Safety.{run-IsSound, new_manager-IsSound, FreshTurns}
use left_hook_roll.ServerManager.Clients.{Accepted}
use left_hook_roll.ServerManager.Scheduling.{run_round_robin, budget}
use left_hook_roll.Table.{set_key, find_key}
use left_hook_roll.ServerManager.Pipes.{handle_cgi_pipe_event, PipeReply}
use left_hook_roll.ServerManager.Loop.{run, ready, Event, Turn, before_wait}
use left_hook_roll.ServerManager.Timeouts.{sweep_timeouts}
use left_hook_roll.Prelude.{◌+◌, false, length, none, ◌≡◌, [], some, true, ◌∷◌, refl}

abbrev manager : ServerManager
manager = new_manager 3 []

abbrev accepted : Accepted
accepted = record {
  fd = 5;
  nonblocking = true;
  pointer = 700;
  now = 5;
  body = new_store 0 [];
  decoded = new_store 0 [];
  store = new_store 0 [];
  socket = record { output = []; send_replies = []; sigpipe = false };
}

abbrev reply : PipeReply
reply = record { bytes = some (codes "rest"); wait = reaped; active_pids = [] }

-- A client connects to the listening socket 4.
abbrev event : Event
event = record {
  fd = 4;
  events = epollin;
  site = site;
  received = none;
  accepts = accepted ∷ [];
  pipe_reply = reply;
}

abbrev pub turn : Turn
turn = record { sites = λ n. site; site = site; cgi_site = site; wait = ready (event ∷ []) }

-- The manager after a step is fresh for the client.
abbrev pub FreshAfter : Outcome (Unit {0}) → Type 0
FreshAfter (done a s) = (find_key 700 s.clients ≡ none) × (find_key 5 s.connections ≡ none)
FreshAfter (raised e s) = Unit
FreshAfter dangling = Unit

FreshAfter-turn : FreshAfter (before_wait turn manager)
unfolding before_wait new_manager find_key
FreshAfter-turn = (refl, refl)

pub FreshTurns-turn :
    (s : ServerManager) → FreshAfter (before_wait turn s) → FreshTurns (turn ∷ []) s
FreshTurns-turn s h = (λ u e. ((subst FreshAfter e h, λ t f. tt), λ t f. tt), λ v e. tt)

run-IsSound_example : Keeps IsSound (run (turn ∷ []) manager)
run-IsSound_example =
    run-IsSound (turn ∷ []) manager (new_manager-IsSound 3 [])
      (FreshTurns-turn manager FreshAfter-turn)

-- A manager with that client, whose pointer is in the queue.
abbrev client : Client
client = record {
  fd = 5;
  connection =
      new_connection 5 none (new_store 0 []) (new_store 0 []) (new_store 0 []) accepted.socket;
}

abbrev busy : ServerManager
busy = record manager {
  clients = set_key 700 client [];
  connections = set_key 5 700 [];
  fd_events = set_key 5 epollin [];
  processing_queue = 700 ∷ [];
}

run_round_robin-TurnsWithin_example :
    TurnsWithin
      (λ n. site)
      (length busy.processing_queue + budget)
      0
      busy
      (run_round_robin (λ n. site) busy)
run_round_robin-TurnsWithin_example = run_round_robin-TurnsWithin (λ n. site) busy

abbrev late_site : Site
late_site = record site { time = 100 }

-- The client has been idle for 95 seconds, and is still there.
the_idle_client :
    Returns
      (λ s. find_key 5 s.connections ≡ some 700)
      (sweep_timeouts (record site { time = 100 }) busy)
unfolding sweep_timeouts find_key set_key new_manager has_timed_out new_connection returned
    trigger_error
the_idle_client = refl

-- A manager whose client waits for the script behind the pipe 9.
abbrev waiting : ServerManager
waiting = record busy { cgi_pipe_to_conn = set_key 9 700 [] }

abbrev gone : Events
gone = record epollin { hangup = true }

handle_cgi_pipe_event-Finished_example :
    Finished
      (finalize_cgi_response site client.connection.exchange.response)
      9
      700
      client
      (handle_cgi_pipe_event site reply 9 gone waiting)
unfolding find_key set_key
handle_cgi_pipe_event-Finished_example =
    handle_cgi_pipe_event-Finished site reply 9 gone waiting 700 client refl refl refl
