-- ===== src/Tests/Scripts.antt =====
-- src/CGIManager.cpp on concrete inputs.
use left_hook_roll.CgiManager.Launched.{execute_child-prepare}
use left_hook_roll.Methods.{post}
use left_hook_roll.Dict.{lookup, insert}
use left_hook_roll.DataStore.Kernel.{new_store}
use left_hook_roll.Text.Trim.{lower}
use left_hook_roll.Prelude.Result.{after}
use left_hook_roll.CgiManager.Limit.{execute-Executed, Executed}
use left_hook_roll.CgiManager.Child.{runs, execute_child, ChildKernel}
use left_hook_roll.CgiManager.Paths.{resolve_script-Reaches, Reaches}
use left_hook_roll.CgiManager.State.{
  c_str, resolve_script_exec_arg, resolve_script_directory, new_cgi_manager,
}
use left_hook_roll.CgiManager.Headers.{build_env_map-IsEnvironment, IsEnvironment}
use left_hook_roll.CgiManager.Environment.{env_entry, prepare, build_env_map}
use left_hook_roll.CgiManager.Processes.{
  running, wait_for, kill, reaped, found_ended, Round, reap_finished_active_pids, WaitReply,
  terminate, Spawner, cleanup_all_processes, execute,
}
use left_hook_roll.Text.{rfind, codes, Bytes, equal, less}
use left_hook_roll.Request.State.{new_request, Request}
use left_hook_roll.CgiManager.Cleanup.{cleanup_all_processes-IsEnded, IsEnded}
use left_hook_roll.Prelude.{
  none, map, ◌==◌, ◌≤◌, [], some, ◌≡◌, if◌then◌else◌, length, true, ◌∷◌, ℕ, List, refl, inl, inr,
}

abbrev script : Bytes
script = codes "www/cgi/run.py"

resolve_script-Reaches_example :
    Reaches script (resolve_script_directory script) (resolve_script_exec_arg script)
    × (length (c_str (resolve_script_exec_arg script)) ≤ length script)
resolve_script-Reaches_example = resolve_script-Reaches script

the_directory : resolve_script_directory script ≡ codes "www/cgi"
unfolding resolve_script_directory rfind
the_directory = refl

the_name : resolve_script_exec_arg script ≡ codes "run.py"
unfolding resolve_script_exec_arg rfind
the_name = refl

the_root : resolve_script_directory (codes "/run.py") ≡ codes "/"
unfolding resolve_script_directory rfind
the_root = refl

abbrev request : Request
request = record (new_request 100 (new_store 0 []) (new_store 0 [])) {
  method_name = post;
  url = codes "/cgi/run.py";
  query = codes "a=1";
  protocol = codes "HTTP/1.0";
  headers =
      (codes "content-length", codes "3")
      ∷ (codes "x-real", codes "1")
      ∷ (codes "x_real", codes "2")
      ∷ [];
}

build_env_map-IsEnvironment_example : IsEnvironment request script (build_env_map request script)
build_env_map-IsEnvironment_example = build_env_map-IsEnvironment request script

-- Two headers that share a variable.
the_last_header : lookup (codes "HTTP_X_REAL") (build_env_map request script) ≡ some (codes "2")
unfolding build_env_map lower lookup insert equal less
the_last_header = refl

abbrev kernel : ChildKernel
kernel = record { chdir = λ path. true; dup_stdin = true; dup_stdout = true; execve = true }

abbrev python : Bytes
python = codes "/usr/bin/python3"

execute_child-prepare_example :
    execute_child kernel (some 9) (prepare request script python new_cgi_manager)
    ≡ runs (record {
      directory = resolve_script_directory script;
      file = c_str python;
      argv = c_str python ∷ c_str (resolve_script_exec_arg script) ∷ [];
      envp = map (λ e. c_str (env_entry e)) (build_env_map request script);
      stdin = some 9;
      stdout = none;
    })
unfolding new_cgi_manager
execute_child-prepare_example =
    execute_child-prepare request script python new_cgi_manager kernel (some 9)
      (record { changes = refl; input = refl; output = refl; executes = refl })

abbrev spawner : Spawner
spawner = record { cgi = new_cgi_manager; active_pids = 40 ∷ 41 ∷ [] }

-- Process 40 has ended.
abbrev wait : ℕ → WaitReply
wait pid = if pid == 40 then reaped else running

execute-Executed_example :
    Executed
      (reap_finished_active_pids wait spawner.active_pids)
      (some (5, 6))
      (some 42)
      (execute wait (some (5, 6)) (some 42) spawner)
execute-Executed_example = execute-Executed wait (some (5, 6)) (some 42) spawner

the_set : (after (execute wait (some (5, 6)) (some 42) spawner)).active_pids ≡ 41 ∷ 42 ∷ []
unfolding execute
the_set = refl

abbrev rounds : List Round
rounds = record { now = 100; wait = wait } ∷ record { now = 103; wait = wait } ∷ []

cleanup_all_processes-IsEnded_example :
    IsEnded 41 (cleanup_all_processes 100 rounds (40 ∷ 41 ∷ [])).0
cleanup_all_processes-IsEnded_example =
    cleanup_all_processes-IsEnded 100 rounds (40 ∷ 41 ∷ []) 41 (inr (inl refl))

the_acts :
    (cleanup_all_processes 100 rounds (40 ∷ 41 ∷ [])).0
    ≡ terminate 40 ∷ terminate 41 ∷ found_ended 40 ∷ kill 41 ∷ wait_for 41 ∷ []
unfolding cleanup_all_processes
the_acts = refl
