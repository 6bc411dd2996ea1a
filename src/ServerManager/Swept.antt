-- ===== src/ServerManager/Swept.antt =====
-- The events of scripts' pipes and the sweeps keep the manager sound.
use left_hook_roll.ServerManager.Piped.{Keeps-page}
use left_hook_roll.ServerManager.Rounds.{Keeps-left}
use left_hook_roll.ServerManager.Scheduling.{finalize_processed}
use left_hook_roll.ServerManager.Clients.{dequeue_processing}
use left_hook_roll.Table.{find_key}
use left_hook_roll.ServerManager.Sound.{IsSound}
use left_hook_roll.ServerManager.Tends.{Tends-Lives, Tends-owned}
use left_hook_roll.ServerManager.Kept.{Keeps-then, Keeps-if, Keeps}
use left_hook_roll.ServerManager.Dropped.{Keeps-error, Keeps-two}
use left_hook_roll.Prelude.Int.{pos}
use left_hook_roll.ServerManager.Timeouts.{
  keys_of, pipes_to_kill, time_out_all, fd_if, kill_pipe, sweep_timeouts, time_out_fd, timed_out,
  kill_pipes, time_out_pipe, time_out_fds, sweep_cgi_timeouts,
}
use left_hook_roll.Response.State.{Site}
use left_hook_roll.Connection.{trigger_error}
use left_hook_roll.Prelude.{
  ◌+◌, ltb, [], some, is_nil, none, Option-cases, ◌∷◌, ◌≢◌, ◌≡◌, List, Option, Bool, ℕ, refl, inl,
  inr,
}
use left_hook_roll.ServerManager.State.{modify, on_connection, done, ServerManager, Pointer, ◌>>◌}

module _ (site : Site) where
  Keeps-timed_out :
      (pipe : ℕ) (p : Pointer) (s : ServerManager)
      → IsSound s
      → find_key pipe s.cgi_pipe_to_conn ≡ some p
      → Keeps IsSound (time_out_pipe site pipe p s)
  unfolding time_out_pipe
  Keeps-timed_out pipe p s h e =
      let l = (h.piped pipe p e).lives in
      let fd = l.client.fd in
      let v = Tends-Lives p s h l in rw (Keeps, v.alive) (Keeps-page fd p site pipe s v e)

  Keeps-kill_pipe :
      (pipe : ℕ) (s : ServerManager) → IsSound s → Keeps IsSound (kill_pipe site pipe s)
  unfolding kill_pipe
  Keeps-kill_pipe pipe s h = elim (Option-cases (find_key pipe s.cgi_pipe_to_conn)) [
    | inl e ↦ rw (e, Keeps) h
    | inr (p, e) ↦ rw (e, Keeps) (Keeps-timed_out pipe p s h e)
  ]

  Keeps-kill_pipes :
      (pipes : List ℕ) (s : ServerManager) → IsSound s → Keeps IsSound (kill_pipes site pipes s)
  unfolding kill_pipes
  Keeps-kill_pipes [] s h = h
  Keeps-kill_pipes (pipe ∷ pipes) s h =
      Keeps-then IsSound IsSound (λ t v. v) (kill_pipe site pipe) (kill_pipes site pipes) s
        (Keeps-kill_pipe pipe s h) (Keeps-kill_pipes pipes)

  pub Keeps-sweep_cgi : (s : ServerManager) → IsSound s → Keeps IsSound (sweep_cgi_timeouts site s)
  unfolding sweep_cgi_timeouts
  Keeps-sweep_cgi s h =
      Keeps-if IsSound (is_nil s.cgi_pipe_to_conn) (done tt s)
        (kill_pipes site (pipes_to_kill site.time s.cgi_start_times) s) h
        (Keeps-kill_pipes (pipes_to_kill site.time s.cgi_start_times) s h)

  Keeps-time_out_fd :
      (fd : ℕ) (s : ServerManager) → IsSound s → Keeps IsSound (time_out_fd site fd s)
  unfolding time_out_fd
  Keeps-time_out_fd fd s h = elim (Option-cases (find_key fd s.connections)) [
    | inl e ↦ rw (e, Keeps) h
    | inr (p, e) ↦
        let v = Tends-owned fd p s h e in
        rw (e, Keeps)
          (Keeps-two fd p IsSound (λ t w. w.sound) (on_connection p (trigger_error site (pos 408)))
            (modify (dequeue_processing p) >> finalize_processed site.time p) s
            (Keeps-error fd p site (pos 408) s v) (Keeps-left site.time fd p))
  ]

  Keeps-time_out_fds :
      (fds : List ℕ) (s : ServerManager) → IsSound s → Keeps IsSound (time_out_fds site fds s)
  unfolding time_out_fds
  Keeps-time_out_fds [] s h = h
  Keeps-time_out_fds (fd ∷ fds) s h =
      Keeps-then IsSound IsSound (λ t v. v) (time_out_fd site fd) (time_out_fds site fds) s
        (Keeps-time_out_fd fd s h) (Keeps-time_out_fds fds)

  fd_if-none : (late : Bool) (fd : ℕ) (o : Option (List ℕ)) → fd_if site late fd o ≡ none → o ≡ none
  fd_if-none late fd none e = refl
  fd_if-none late fd (some fds) e = absurd (cc e)

  -- No pointer of a sound manager dangles when the sweep looks at the connections.
  timed_out-ne-none : (s : ServerManager) (fds : List ℕ) → IsSound s → timed_out site s fds ≢ none
  unfolding timed_out
  timed_out-ne-none s [] h = λ e. cc e
  timed_out-ne-none s (fd ∷ fds) h = elim (Option-cases (find_key fd s.connections)) [
    | inl e ↦ rw (e, timed_out) (timed_out-ne-none s fds h)
    | inr (p, e) ↦
        rw (timed_out, e, (h.owned fd p e).1) (λ q. timed_out-ne-none s fds h (fd_if-none _ fd _ q))
  ]

  pub Keeps-sweep : (s : ServerManager) → IsSound s → Keeps IsSound (sweep_timeouts site s)
  unfolding sweep_timeouts
  Keeps-sweep s h =
      Keeps-if IsSound (ltb site.time (s.last_sweep + 5)) (done tt s)
        (time_out_all site (timed_out site s (keys_of s.connections))
          (record s { last_sweep = site.time }))
        h
        (go (timed_out site s (keys_of s.connections))
          (timed_out-ne-none s (keys_of s.connections) h))
    where
      go :
          (o : Option (List ℕ))
          → o ≢ none
          → Keeps IsSound (time_out_all site o (record s { last_sweep = site.time }))
      go none n = n refl
      go (some fds) n = Keeps-time_out_fds fds (record s { last_sweep = site.time }) h
