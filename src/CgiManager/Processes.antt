-- ===== src/CgiManager/Processes.antt =====
-- src/CGIManager.cpp: the parent's side of `execute`, `isDone`, the static set of the processes that
-- run, and its cleanup. What the kernel says of a process is an argument of each call.
use left_hook_roll.Prelude.Result.{ok, client_exception, threw, M}
use left_hook_roll.CgiManager.State.{CgiManager, close_pipes}
use left_hook_roll.Prelude.{
  ◌++◌, map, ◌+◌, length, [], none, ◌||◌, ltb, is_nil, leb, ◌==◌, not, some, if◌then◌else◌, ◌∷◌,
  true, false, List, ℕ, Option, Bool,
}

-- std::set<pid_t>: an increasing list.
abbrev pub Pids : Type 0
Pids = List ℕ

unfoldable pub insert_pid : ℕ → Pids → Pids
insert_pid pid [] = pid ∷ []
insert_pid pid (p ∷ ps) =
    if p == pid then p ∷ ps else if ltb pid p then pid ∷ p ∷ ps else p ∷ insert_pid pid ps

unfoldable pub erase_pid : ℕ → Pids → Pids
erase_pid pid [] = []
erase_pid pid (p ∷ ps) = let rest = erase_pid pid ps in if p == pid then rest else p ∷ rest

-- What waitpid(pid, &status, WNOHANG) returns: 0, the pid, -1 with EINTR, or -1 with another error.
pub data WaitReply : Type 0 where
  running reaped interrupted in_error : WaitReply

-- MAX_ACTIVE_CGI_CHILDREN
abbrev pub max_active_cgi_children : ℕ
max_active_cgi_children = 64

-- result == 0 || (result < 0 && errno == EINTR)
abbrev pub may_run : WaitReply → Bool
may_run running = true
may_run reaped = false
may_run interrupted = true
may_run in_error = false

-- The pids of a set that pass a test, in its order.
unfoldable pub keep_pids : (ℕ → Bool) → Pids → Pids
keep_pids test [] = []
keep_pids test (p ∷ ps) = let rest = keep_pids test ps in if test p then p ∷ rest else rest

unfoldable pub reap_finished_active_pids : (ℕ → WaitReply) → Pids → Pids
unfolding keep_pids
reap_finished_active_pids wait pids = keep_pids (λ p. may_run (wait p)) pids

-- An object, and the static set.
pub record Spawner : Type 0 where
  pub cgi : CgiManager
  pub active_pids : Pids

-- The parent's side, from fork on; `none` is -1.
unfoldable pub forked : Option ℕ → M Spawner (Unit {0})
unfolding close_pipes insert_pid
forked none s =
    threw (client_exception 500) (record s { cgi = close_pipes (record s.cgi { pid = none }) })
forked (some pid) s = ok tt (record s {
  cgi = record s.cgi { pid = some pid; pipe_write = none };
  active_pids = insert_pid pid s.active_pids;
})

-- pipe(_outPipe)
unfoldable pub piped : Option (ℕ × ℕ) → Option ℕ → M Spawner (Unit {0})
unfolding forked
piped none fork s = threw (client_exception 500) s
piped (some (read_end, write_end)) fork s =
    forked fork
      (record s { cgi = record s.cgi { pipe_read = some read_end; pipe_write = some write_end } })

unfoldable pub execute : (ℕ → WaitReply) → Option (ℕ × ℕ) → Option ℕ → M Spawner (Unit {0})
unfolding piped reap_finished_active_pids
execute wait pipe fork s =
    let t = record s { active_pids = reap_finished_active_pids wait s.active_pids } in
    if leb max_active_cgi_children (length t.active_pids)
    then threw (client_exception 503) t
    else piped pipe fork t

-- waitpid returned a result other than 0.
abbrev pub has_ended : WaitReply → Bool
has_ended running = false
has_ended reaped = true
has_ended interrupted = true
has_ended in_error = true

unfoldable pub waited : Option ℕ → WaitReply → Spawner → Bool × Spawner
unfolding erase_pid
waited none reply s = (true, s)
waited (some pid) reply s =
    if has_ended reply
    then (
      true,
      record { cgi = record s.cgi { pid = none }; active_pids = erase_pid pid s.active_pids },
    )
    else (false, s)

unfoldable pub is_cgi_done : WaitReply → Spawner → Bool × Spawner
unfolding waited
is_cgi_done reply s = waited s.cgi.pid reply s

-- What cleanupAllProcesses does to the processes.
pub data Act : Type 0 where
  terminate kill wait_for found_ended : ℕ → Act

-- A round of the grace period: the clock, and what waitpid says.
pub record Round : Type 0 where
  pub now : ℕ
  pub wait : ℕ → WaitReply

-- GRACE_PERIOD
abbrev pub grace_period : ℕ
grace_period = 5

-- The processes that a round finds ended.
abbrev pub ended_in : Round → Pids → Pids
ended_in round pids = keep_pids (λ p. has_ended (round.wait p)) pids

-- The loop of the grace period, over the rounds that begin before the clock passes: what it did, and
-- the processes that still run.
unfoldable pub grace_loop : ℕ → List Round → Pids → List Act × Pids
unfolding keep_pids
grace_loop start [] pids = ([], pids)
grace_loop start (round ∷ rounds) pids =
    let rest = grace_loop start rounds (keep_pids (λ p. not (has_ended (round.wait p))) pids) in
    if is_nil pids || leb (start + grace_period) round.now
    then ([], pids)
    else (map found_ended (ended_in round pids) ++ rest.0, rest.1)

-- All that it does, in order; the set is empty in the end.
unfoldable pub cleanup_all_processes : ℕ → List Round → Pids → List Act × Pids
unfolding grace_loop
cleanup_all_processes start rounds pids =
    let graced = grace_loop start rounds pids in
    if is_nil pids
    then ([], pids)
    else (map terminate pids ++ (graced.0 ++ (map kill graced.1 ++ map wait_for graced.1)), [])
