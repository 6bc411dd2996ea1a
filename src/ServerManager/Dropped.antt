-- ===== src/ServerManager/Dropped.antt =====
-- The drop of a connection, and what a handler may rely on.
use left_hook_roll.ServerManager.Sound.Objects.{Sound-erased}
use left_hook_roll.ServerManager.Calm.{Calm-trigger_error}
use left_hook_roll.ServerManager.Tends.{Tends, Tends-Calm, Tends-owned}
use left_hook_roll.Table.{find_key-erase_key, erase_key, find_key}
use left_hook_roll.ServerManager.Kept.{Keeps, Keeps-on, Keeps-add_poll_fd, Keeps-then}
use left_hook_roll.ServerManager.Polling.{get_cgi_pipe_fd, add_poll_fd, unregister_cgi_pipe}
use left_hook_roll.ServerManager.Sound.{Sound-unregistered, IsUnpiped, IsSound}
use left_hook_roll.Prelude.Int.{ℤ}
use left_hook_roll.ServerManager.Clients.{delete_connection, forget_fd, drop_connection}
use left_hook_roll.Response.State.{Site}
use left_hook_roll.Prelude.{
  ap, ◌∙◌, arith, sym, some, none, ◌≡◌, Option-cases, Option, ℕ, refl, inl, inr,
}
use left_hook_roll.ServerManager.State.{
  Client, on_connection, Method, Events, ServerManager, Pointer, ◌>>◌,
}
use left_hook_roll.Connection.{trigger_error}

abbrev pub sound_of : (fd : ℕ) (p : Pointer) (s : ServerManager) → Tends fd p s → IsSound s
sound_of fd p s h = h.sound

-- What a handler may rely on while it works on a connection that no pipe belongs to.
abbrev pub Unpiped : ℕ → Pointer → ServerManager → Type 0
Unpiped fd p s = Tends fd p s × IsUnpiped s.cgi_pipe_to_conn p

module _ (fd : ℕ) (p : Pointer) where
  -- Two methods in a row.
  pub Keeps-two :
      {A B : Type 0} (Q : ServerManager → Type 0) (w : (s : ServerManager) → Tends fd p s → Q s)
      (m : Method A) (k : Method B) (s : ServerManager)
      → Keeps (Tends fd p) (m s)
      → ((t : ServerManager) → Tends fd p t → Keeps Q (k t))
      → Keeps Q ((m >> k) s)
  Keeps-two Q w = Keeps-then (Tends fd p) Q w

  pub Keeps-error :
      (site : Site) (code : ℤ) (s : ServerManager)
      → Tends fd p s
      → Keeps (Tends fd p) (on_connection p (trigger_error site code) s)
  Keeps-error site code s h = Keeps-on (Tends fd p) p (trigger_error site code) s h.client h.alive (
      Tends-Calm fd p s h (trigger_error site code h.client.connection)
        (Calm-trigger_error site code h.client.connection))

  pub Keeps-polled_sound :
      (events : Events) (other : ℕ) (s : ServerManager)
      → Tends fd p s
      → Keeps IsSound (add_poll_fd other events s)
  Keeps-polled_sound events other s h =
      Keeps-add_poll_fd IsSound other events s (λ replies m. h.sound)

-- _dropConnection
module _ (fd : ℕ) (p : Pointer) (s : ServerManager) (h : Tends fd p s) where
  IsUnpiped-none : get_cgi_pipe_fd h.client.connection ≡ none → IsUnpiped s.cgi_pipe_to_conn p
  IsUnpiped-none e pipe f =
      let w = h.sound.piped pipe p f in
      let i : some w.lives.client ≡ some h.client = sym w.lives.alive ∙ h.alive in
      let j : w.lives.client ≡ h.client = ground arith in
      let k : some pipe ≡ none =
        sym w.own_pipe ∙ ap (λ (c : Client). get_cgi_pipe_fd c.connection) j ∙ e in
      cc k

  -- A pipe that is not the connection's own leads elsewhere.
  IsUnpiped-own :
      (pipe : ℕ)
      → get_cgi_pipe_fd h.client.connection ≡ some pipe
      → IsUnpiped (erase_key pipe s.cgi_pipe_to_conn) p
  IsUnpiped-own pipe e other f =
      let g : find_key other s.cgi_pipe_to_conn ≡ some p =
        ground (arith, find_key-erase_key pipe other s.cgi_pipe_to_conn) in
      let w = h.sound.piped other p g in
      let i : some w.lives.client ≡ some h.client = sym w.lives.alive ∙ h.alive in
      let j : w.lives.client ≡ h.client = ground arith in
      let k : some other ≡ some pipe =
        sym w.own_pipe ∙ ap (λ (c : Client). get_cgi_pipe_fd c.connection) j ∙ e in
      ground (arith, find_key-erase_key pipe other s.cgi_pipe_to_conn)

  IsSound-dropped :
      (o : Option ℕ)
      → get_cgi_pipe_fd h.client.connection ≡ o
      → IsSound (forget_fd fd (delete_connection fd p (unregister_cgi_pipe o s)))
  unfolding unregister_cgi_pipe
  IsSound-dropped none e =
      Sound-erased s.clients s.connections fd p h.client h.alive h.same_fd h.registered
        s.processing_set s.cgi_pipe_to_conn h.sound (IsUnpiped-none e)
  IsSound-dropped (some pipe) e =
      Sound-erased s.clients s.connections fd p h.client h.alive h.same_fd h.registered
        s.processing_set (erase_key pipe s.cgi_pipe_to_conn)
        (Sound-unregistered s.clients s.connections s.processing_set s.cgi_pipe_to_conn h.sound
          pipe)
        (IsUnpiped-own pipe e)

-- With its own pipe unregistered, no pipe belongs to the connection.
pub IsUnpiped-dropped :
    (fd : ℕ) (p : Pointer) (s : ServerManager) (h : Tends fd p s)
    → IsUnpiped (unregister_cgi_pipe (get_cgi_pipe_fd h.client.connection) s).cgi_pipe_to_conn p
unfolding unregister_cgi_pipe
IsUnpiped-dropped fd p s h = go (get_cgi_pipe_fd h.client.connection) refl
  where
    go :
        (o : Option ℕ)
        → get_cgi_pipe_fd h.client.connection ≡ o
        → IsUnpiped (unregister_cgi_pipe o s).cgi_pipe_to_conn p
    go none e = IsUnpiped-none fd p s h e
    go (some pipe) e = IsUnpiped-own fd p s h pipe e

pub Keeps-drop : (fd : ℕ) (s : ServerManager) → IsSound s → Keeps IsSound (drop_connection fd s)
unfolding drop_connection
Keeps-drop fd s h = elim (Option-cases (find_key fd s.connections)) [
  | inl e ↦ rw (e, Keeps) h
  | inr (p, e) ↦
      let v = Tends-owned fd p s h e in
      rw (e, Keeps, v.alive) (IsSound-dropped fd p s v (get_cgi_pipe_fd v.client.connection) refl)
]
