-- ===== src/ServerManager/Rounds.antt =====
-- The round robin keeps the manager sound.
use left_hook_roll.Prelude.Result.{after}
use left_hook_roll.Connection.Processing.{process}
use mathlib.Core.Path.{subst}
use left_hook_roll.ServerManager.Dropped.{Keeps-error, Keeps-drop, Keeps-polled_sound}
use left_hook_roll.Table.{set_key, has_key-remove_key, has_key}
use left_hook_roll.ServerManager.Kept.{
  Keeps-on, Keeps-caught, Keeps-add_poll_fd, Keeps-if, Keeps-then, Keeps-client, Keeps,
}
use left_hook_roll.ServerManager.Sound.{Answers, IsSound}
use left_hook_roll.ServerManager.Tends.{
  IsUnpiped-queued, Tends-IsUnpiped, Tends-registered, Tends-dequeued, Tends-Lives, Tends,
}
use left_hook_roll.Connection.{
  finished, waiting_for_cgi, writing, reading, processing, ConnectionState,
}
use left_hook_roll.ServerManager.Clients.{dequeue_processing}
use left_hook_roll.ServerManager.Polling.{
  register_pipe, add_poll_fd, get_cgi_pipe_fd, register_cgi_pipe,
}
use left_hook_roll.Response.State.{Site}
use left_hook_roll.ServerManager.Scheduling.{
  budget, visit, round_step, reschedule, finalize_state, finalize_processed, round_loop,
  process_one,
}
use left_hook_roll.Prelude.{
  none, [], ltb, some, ==_refl, sym, ◌+◌, if◌then◌else◌, ◌∷◌, Bool, List, Option, zero, true, false,
  suc, ◌≡◌, ℕ, refl,
}
use left_hook_roll.ServerManager.State.{
  epollin, with_client, done, on_connection, no_events, catch_errors, epollin_out, modify,
  ServerManager, Method, Pointer, ◌>>◌,
}

module _ (now fd : ℕ) (p : Pointer) where
  -- The pipe of a connection that now waits for its script is registered.
  Keeps-register :
      (s : ServerManager) (h : Tends fd p s)
      → Answers h.client.connection.state
      → has_key p s.processing_set ≡ false
      → Keeps IsSound (register_cgi_pipe now p s)
  unfolding register_cgi_pipe
  Keeps-register s h w n =
      Keeps-client IsSound p (λ c. register_pipe now p (get_cgi_pipe_fd c.connection)) s h.client
        h.alive (go (get_cgi_pipe_fd h.client.connection) refl)
    where
      go :
          (o : Option ℕ)
          → get_cgi_pipe_fd h.client.connection ≡ o
          → Keeps IsSound (register_pipe now p o s)
      go none e = h.sound
      go (some pipe) e =
          Keeps-add_poll_fd IsSound pipe epollin
            (record s {
              cgi_pipe_to_conn = set_key pipe p s.cgi_pipe_to_conn;
              cgi_start_times = set_key pipe now s.cgi_start_times;
            })
            (λ replies m. Tends-registered fd p s h pipe e w n)

  Waits : ServerManager → Type 0
  Waits s =
      (h : Tends fd p s) × Answers h.client.connection.state × (has_key p s.processing_set ≡ false)

  Keeps-finalize_state :
      (s : ServerManager) (h : Tends fd p s) (st : ConnectionState)
      → h.client.connection.state ≡ st
      → has_key p s.processing_set ≡ false
      → Keeps IsSound (finalize_state now p fd st s)
  unfolding finalize_state Waits
  Keeps-finalize_state s h writing e n = Keeps-polled_sound fd p epollin_out fd s h
  Keeps-finalize_state s h waiting_for_cgi e n =
      Keeps-then Waits IsSound (λ t v. v.0.sound) (add_poll_fd fd no_events)
        (register_cgi_pipe now p) s
        (Keeps-add_poll_fd Waits fd no_events s (λ replies m. (
          record {
            sound = h.sound;
            client = h.client;
            alive = h.alive;
            registered = h.registered;
            same_fd = h.same_fd;
          },
          subst Answers (sym e) tt,
          n,
        )))
        (λ t v. Keeps-register t v.0 v.1 v.2)
  Keeps-finalize_state s h finished e n = Keeps-drop fd s h.sound
  Keeps-finalize_state s h reading e n = h.sound
  Keeps-finalize_state s h processing e n = h.sound

  Keeps-finalize :
      (s : ServerManager)
      → Tends fd p s
      → has_key p s.processing_set ≡ false
      → Keeps IsSound (finalize_processed now p s)
  unfolding finalize_processed
  Keeps-finalize s h n =
      Keeps-client IsSound p (λ c. finalize_state now p c.fd c.connection.state) s h.client h.alive
        (subst (λ (i : ℕ). Keeps IsSound (finalize_state now p i h.client.connection.state s))
          (sym h.same_fd) (Keeps-finalize_state s h h.client.connection.state refl n))

  -- A connection leaves the processing set, and its state is acted on.
  pub Keeps-left :
      (s : ServerManager)
      → Tends fd p s
      → Keeps IsSound ((modify (dequeue_processing p) >> finalize_processed now p) s)
  unfolding dequeue_processing
  Keeps-left s h =
      Keeps-finalize (dequeue_processing p s) (Tends-dequeued fd p s h)
        (rw (has_key-remove_key p p s.processing_set, ==_refl p))

  Keeps-reschedule :
      (st : ConnectionState) (s : ServerManager)
      → Tends fd p s
      → Keeps IsSound (reschedule now p st s)
  unfolding reschedule
  Keeps-reschedule processing s h = h.sound
  Keeps-reschedule reading s h = Keeps-left s h
  Keeps-reschedule writing s h = Keeps-left s h
  Keeps-reschedule waiting_for_cgi s h = Keeps-left s h
  Keeps-reschedule finished s h = Keeps-left s h

Keeps-process_one :
    (site : Site) (p : Pointer) (s : ServerManager)
    → IsSound s
    → has_key p s.processing_set ≡ true
    → Keeps IsSound (process_one site p s)
unfolding process_one
Keeps-process_one site p s h e =
    let l = h.scheduled p e in
    let fd = l.client.fd in
    let v = Tends-Lives p s h l in
    Keeps-then (Tends fd p) IsSound (λ t w. w.sound)
      (λ t. catch_errors site p (on_connection p (process site) t))
      (with_client p (λ c. reschedule site.time p c.connection.state)) s
      (Keeps-caught (Tends fd p) site p (on_connection p (process site) s)
        (Keeps-on (Tends fd p) p (process site) s v.client v.alive (
          Tends-IsUnpiped fd p s v (after (process site v.client.connection))
            (IsUnpiped-queued fd p s v e)))
        (λ code t w. Keeps-error fd p site code t w))
      (λ t w.
        Keeps-client IsSound p (λ c. reschedule site.time p c.connection.state) t w.client w.alive
          (Keeps-reschedule site.time fd p w.client.connection.state t w))

module _ (sites : ℕ → Site) (again : ℕ → Method (Unit {0}))
    (keeps : (n : ℕ) (s : ServerManager) → IsSound s → Keeps IsSound (again n s)) where
  Keeps-visit :
      (n : ℕ) (p : Pointer) (s : ServerManager)
      → IsSound s
      → Keeps IsSound (visit sites again n p s)
  unfolding visit
  Keeps-visit n p s h = go (has_key p s.processing_set) refl
    where
      go :
          (b : Bool)
          → has_key p s.processing_set ≡ b
          → Keeps IsSound (if b then (process_one (sites n) p >> again (n + 1)) s else again n s)
      go true e =
          Keeps-then IsSound IsSound (λ t v. v) (process_one (sites n) p) (again (n + 1)) s
            (Keeps-process_one (sites n) p s h e) (keeps (n + 1))
      go false e = keeps n s h

  Keeps-step :
      (n : ℕ) (queue : List Pointer) (s : ServerManager)
      → IsSound s
      → Keeps IsSound (round_step sites again n queue s)
  unfolding round_step
  Keeps-step n [] s h = h
  Keeps-step n (p ∷ queue) s h =
      let t = record s { processing_queue = queue } in
      Keeps-if IsSound (ltb n budget) (visit sites again n p t) (done tt s) (Keeps-visit n p t h) h

pub Keeps-round_loop :
    (sites : ℕ → Site) (fuel n : ℕ) (s : ServerManager)
    → IsSound s
    → Keeps IsSound (round_loop sites fuel n s)
unfolding round_loop
Keeps-round_loop sites zero n s h = h
Keeps-round_loop sites (suc fuel) n s h =
    Keeps-step sites (round_loop sites fuel) (Keeps-round_loop sites fuel) n s.processing_queue s h
