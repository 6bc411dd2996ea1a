-- ===== src/ServerManager/Tends.antt =====
-- The connection that a handler works on, while the manager is sound.
use left_hook_roll.ServerManager.Sound.Objects.{Sound-changed}
use mathlib.Core.Path.{subst}
use left_hook_roll.ServerManager.Calm.{get_cgi_pipe_fd-Calm, Calm}
use left_hook_roll.Table.{set_key, find_key-set_key, add_key, has_key, find_key}
use left_hook_roll.Prelude.Result.{after, Result}
use left_hook_roll.ServerManager.Clients.{dequeue_processing, enqueue_processing}
use left_hook_roll.Connection.{processing, Connection}
use left_hook_roll.ServerManager.Sound.{
  Sound-enqueued, Sound-registered, Sound, IsUnpiped-unregistered, Answers, Sound-unregistered,
  IsUnpiped, Sound-dequeued, IsSound, Lives,
}
use left_hook_roll.ServerManager.Polling.{get_cgi_pipe_fd, unregister_cgi_pipe}
use left_hook_roll.ServerManager.State.{store_connection, Client, ServerManager, Pointer}
use left_hook_roll.Prelude.{
  if◌then◌else◌, Bool, ==_refl, [], arith, ◌∷◌, ◌++◌, sym, false, ◌∙◌, ap, some, true, ◌≡◌, ℕ, refl,
}

-- The manager is sound, and the object at `p` is alive and tends the descriptor `fd`.
pub record Tends (fd : ℕ) (p : Pointer) (s : ServerManager) : Type 0 where
  pub sound : IsSound s
  pub client : Client
  pub alive : find_key p s.clients ≡ some client
  pub registered : find_key fd s.connections ≡ some p
  pub same_fd : client.fd ≡ fd

pub Tends-owned :
    (fd : ℕ) (p : Pointer) (s : ServerManager)
    → IsSound s
    → find_key fd s.connections ≡ some p
    → Tends fd p s
Tends-owned fd p s h e =
    let o = h.owned fd p e in
    record { sound = h; client = o.0; alive = o.1; registered = e; same_fd = o.2 }

pub Tends-Lives :
    (p : Pointer) (s : ServerManager)
    → IsSound s
    → (l : Lives s.clients s.connections p) → Tends l.client.fd p s
Tends-Lives p s h l = record {
  sound = h;
  client = l.client;
  alive = l.alive;
  registered = l.registered;
  same_fd = refl;
}

module _ (fd : ℕ) (p : Pointer) (s : ServerManager) (h : Tends fd p s) where
  pub Tends-changed :
      (d : Connection)
      → ((pipe : ℕ)
          → find_key pipe s.cgi_pipe_to_conn ≡ some p
          → (get_cgi_pipe_fd d ≡ get_cgi_pipe_fd h.client.connection) × Answers d.state)
      → Tends fd p (store_connection p h.client d s)
  Tends-changed d calm = record {
    sound =
        Sound-changed s.clients s.connections p h.client d h.alive s.processing_set
          s.cgi_pipe_to_conn h.sound calm;
    client = record h.client { connection = d };
    alive = simp (find_key-set_key, ==_refl);
    registered = h.registered;
    same_fd = h.same_fd;
  }

  -- A connection that waits for its script is in a state in which it may.
  pub Answers-piped :
      (pipe : ℕ) → find_key pipe s.cgi_pipe_to_conn ≡ some p → Answers h.client.connection.state
  Answers-piped pipe e =
      let w = h.sound.piped pipe p e in
      let i : some w.lives.client ≡ some h.client = sym w.lives.alive ∙ h.alive in
      let j : w.lives.client ≡ h.client = ground arith in
      subst (λ (c : Client). Answers c.connection.state) j w.answers

  pub Tends-Calm :
      {A : Type 0} (x : Result Connection A)
      → Calm h.client.connection x
      → Tends fd p (store_connection p h.client (after x) s)
  Tends-Calm x calm = Tends-changed (after x) (λ pipe e.
      (get_cgi_pipe_fd-Calm h.client.connection x calm, calm.answers_kept (Answers-piped pipe e)))

  -- With no pipe, the connection may change in any way.
  pub Tends-IsUnpiped :
      (d : Connection)
      → IsUnpiped s.cgi_pipe_to_conn p
      → Tends fd p (store_connection p h.client d s)
  Tends-IsUnpiped d u = Tends-changed d (λ pipe e. absurd (u pipe e))

  pub IsUnpiped-processing : h.client.connection.state ≡ processing → IsUnpiped s.cgi_pipe_to_conn p
  IsUnpiped-processing e pipe f = subst Answers e (Answers-piped pipe f)

  pub IsUnpiped-queued : has_key p s.processing_set ≡ true → IsUnpiped s.cgi_pipe_to_conn p
  IsUnpiped-queued e pipe f = cc ((h.sound.piped pipe p f).not_queued)

  Lives-Tends : Lives s.clients s.connections p
  Lives-Tends = record {
    client = h.client;
    alive = h.alive;
    registered = ap (λ x. find_key x s.connections) h.same_fd ∙ h.registered;
  }

  pub Tends-enqueued : IsUnpiped s.cgi_pipe_to_conn p → Tends fd p (enqueue_processing p s)
  unfolding enqueue_processing
  Tends-enqueued u = go (has_key p s.processing_set)
    where
      t : ServerManager
      t = record s {
        processing_set = add_key p s.processing_set;
        processing_queue = s.processing_queue ++ (p ∷ []);
      }

      go : (b : Bool) → Tends fd p (if b then s else t)
      go true = h
      go false = record {
        sound =
            Sound-enqueued s.clients s.connections s.processing_set s.cgi_pipe_to_conn h.sound p
              Lives-Tends u;
        client = h.client;
        alive = h.alive;
        registered = h.registered;
        same_fd = h.same_fd;
      }

  pub Tends-dequeued : Tends fd p (dequeue_processing p s)
  unfolding dequeue_processing
  Tends-dequeued = record {
    sound = Sound-dequeued s.clients s.connections s.processing_set s.cgi_pipe_to_conn h.sound p;
    client = h.client;
    alive = h.alive;
    registered = h.registered;
    same_fd = h.same_fd;
  }

  -- The pipe of the connection is unregistered.
  pub Tends-unregistered :
      (pipe : ℕ)
      → find_key pipe s.cgi_pipe_to_conn ≡ some p
      → Tends fd p (unregister_cgi_pipe (some pipe) s)
        × IsUnpiped (unregister_cgi_pipe (some pipe) s).cgi_pipe_to_conn p
  unfolding unregister_cgi_pipe
  Tends-unregistered pipe e = (
    record {
      sound =
          Sound-unregistered s.clients s.connections s.processing_set s.cgi_pipe_to_conn h.sound
            pipe;
      client = h.client;
      alive = h.alive;
      registered = h.registered;
      same_fd = h.same_fd;
    },
    IsUnpiped-unregistered s.clients s.connections s.processing_set s.cgi_pipe_to_conn h.sound pipe
        p e,
  )

  pub Tends-registered :
      (pipe : ℕ)
      → get_cgi_pipe_fd h.client.connection ≡ some pipe
      → Answers h.client.connection.state
      → has_key p s.processing_set ≡ false
      → Sound s.clients s.connections s.processing_set (set_key pipe p s.cgi_pipe_to_conn)
  unfolding Lives-Tends
  Tends-registered pipe e w n =
      Sound-registered s.clients s.connections s.processing_set s.cgi_pipe_to_conn h.sound pipe p
        (record { lives = Lives-Tends; own_pipe = e; answers = w; not_queued = n })
