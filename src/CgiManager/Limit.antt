-- ===== src/CgiManager/Limit.antt =====
-- The limit on the processes.
use left_hook_roll.Prelude.Result.{ok, client_exception, threw, Result}
use left_hook_roll.CgiManager.State.{close_pipes}
use left_hook_roll.CgiManager.Processes.{
  max_active_cgi_children, reap_finished_active_pids, Spawner, WaitReply, piped, execute, forked,
  Pids, insert_pid, keep_pids,
}
use left_hook_roll.Table.{has_key}
use left_hook_roll.Prelude.{
  leb→le, leb, none, [], ◌⊎◌, ◌∷◌, ap, Bool-cases, suc, arith, some, true, ◌≤◌, ◌<◌, ◌≡◌, Bool,
  length, Option, ℕ, refl, inl, inr,
}

length-keep_pids-le : (test : ℕ → Bool) (pids : Pids) → length (keep_pids test pids) ≤ length pids
unfolding keep_pids
length-keep_pids-le test [] = omega arith
length-keep_pids-le test (p ∷ ps) = ground (arith, length-keep_pids-le test ps)

length-insert_pid-le : (pid : ℕ) (pids : Pids) → length (insert_pid pid pids) ≤ suc (length pids)
unfolding insert_pid
length-insert_pid-le pid [] = omega arith
length-insert_pid-le pid (p ∷ ps) = ground (arith, length-insert_pid-le pid ps)

has_key-insert_pid : (pid : ℕ) (pids : Pids) → has_key pid (insert_pid pid pids) ≡ true
unfolding has_key insert_pid
has_key-insert_pid pid [] = ground arith
has_key-insert_pid pid (p ∷ ps) = ground (arith, has_key-insert_pid pid ps)

-- What execute does: it refuses with 503 exactly if as many processes run as may, it fails with 500 if
-- there is no pipe or no process, and else it reads from the pipe, and the new process is in the set.
abbrev pub Executed : Pids → Option (ℕ × ℕ) → Option ℕ → Result Spawner (Unit {0}) → Type 0
Executed live pipe fork (threw (client_exception code) s) =
    ((code ≡ 503) × (64 ≤ length live) × (s.active_pids ≡ live))
    ⊎ ((code ≡ 500)
        × (length live < 64)
        × (s.active_pids ≡ live)
        × ((pipe ≡ none) ⊎ ((fork ≡ none) × (s.cgi.pipe_read ≡ none) × (s.cgi.pipe_write ≡ none))))
Executed live pipe fork (threw _ s) = ⊥
Executed live pipe fork (ok u s) =
    (length live < 64)
    × ((ends : ℕ × ℕ) × (pipe ≡ some ends)
        × (s.cgi.pipe_read ≡ some ends.0)
        × (s.cgi.pipe_write ≡ none))
    × ((pid : ℕ) × (fork ≡ some pid)
        × (s.cgi.pid ≡ some pid)
        × (has_key pid s.active_pids ≡ true)
        × (length s.active_pids ≤ 64))

Executed-forked :
    (live : Pids) (ends : ℕ × ℕ) (fork : Option ℕ) (s : Spawner)
    → s.active_pids ≡ live
    → s.cgi.pipe_read ≡ some ends.0
    → length live < 64
    → Executed live (some ends) fork (forked fork s)
unfolding forked close_pipes
Executed-forked live ends none s e p h = inr (refl, h, e, inr (refl, refl, refl))
Executed-forked live ends (some pid) s e p h = (
  h,
  (ends, refl, p, refl),
  (
    pid,
    refl,
    refl,
    has_key-insert_pid pid s.active_pids,
    omega (arith, length-insert_pid-le pid s.active_pids, ap (length {0}) e),
  ),
)

-- The static set holds at most MAX_ACTIVE_CGI_CHILDREN processes. execute first drops from the set the
-- processes that have ended. If as many are left as may run, it throws 503; if pipe or fork fails, it
-- throws 500, and a pipe is closed again; in both cases the set is those that are left. Else both
-- have succeeded, the object keeps the pipe's end for reading alone, and the new process is the
-- object's and in the set, which is within the limit.
pub execute-Executed :
    (wait : ℕ → WaitReply) (pipe : Option (ℕ × ℕ)) (fork : Option ℕ) (s : Spawner)
    → Executed (reap_finished_active_pids wait s.active_pids) pipe fork (execute wait pipe fork s)
unfolding execute piped
execute-Executed wait pipe fork s = elim (Bool-cases (leb max_active_cgi_children (length live))) [
  | inl e ↦ rw (e, Executed) (inl (refl, leb→le 64 (length live) e, refl))
  | inr e ↦ rw (e, Executed) (go pipe (ground arith))
]
  where
    live : Pids
    live = reap_finished_active_pids wait s.active_pids

    t : Spawner
    t = record s { active_pids = live }

    go : (o : Option (ℕ × ℕ)) → length live < 64 → Executed live o fork (piped o fork t)
    go none h = inr (refl, h, refl, inl refl)
    go (some (read_end, write_end)) h =
        Executed-forked live (read_end, write_end) fork _ refl refl h
