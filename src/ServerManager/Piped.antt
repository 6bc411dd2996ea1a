-- ===== src/ServerManager/Piped.antt =====
-- The events of scripts' pipes keep the manager sound.
use mathlib.Core.Path.{subst}
use left_hook_roll.ServerManager.Calm.{Calm-trigger_error}
use left_hook_roll.Response.Output.Descriptor.{fd-read_cgi_output}
use left_hook_roll.Response.Cgi.{finalize_cgi_response}
use left_hook_roll.Table.{find_key}
use left_hook_roll.ServerManager.Sound.{Answers, IsSound}
use left_hook_roll.ServerManager.Tends.{
  Answers-piped, Tends-changed, Tends-unregistered, Tends-Calm, Tends-IsUnpiped, Tends-Lives, Tends,
}
use left_hook_roll.ServerManager.Kept.{Keeps-client, Keeps-on, Keeps-then, Keeps-choice, Keeps}
use left_hook_roll.ServerManager.Dropped.{Keeps-polled_sound, Unpiped}
use left_hook_roll.Prelude.Int.{pos, ℤ}
use left_hook_roll.Response.Output.{read_cgi_output, get_cgi_output_fd, Reader}
use left_hook_roll.ServerManager.Timeouts.{timeout_page}
use left_hook_roll.ServerManager.Pipes.{
  give_up_cgi, to_response, read_output, finish_cgi, after_output, try_read_output, PipeReply,
  handle_cgi_pipe_event,
}
use left_hook_roll.Prelude.Result.{
  out_of_fuel, runtime_error, fatal_exception, client_exception, threw, after, M, ok, Result,
}
use left_hook_roll.Response.State.{Response, Site}
use left_hook_roll.ServerManager.Polling.{unregister_cgi_pipe, add_poll_fd, get_cgi_pipe_fd}
use left_hook_roll.Connection.{writing, set_state, trigger_error, on_response, Connection}
use left_hook_roll.Prelude.{
  sym, false, if◌then◌else◌, true, ap, some, ◌||◌, ◌∙◌, Option-cases, ◌≡◌, Bool, ℕ, refl, inl, inr,
}
use left_hook_roll.ServerManager.State.{
  dangling, epollin_out, modify, raised, on_connection, with_client, done, Outcome, ServerManager,
  Events, Pointer, ◌>>◌,
}

-- The reading of a script's output leaves the connection's pipe and state.
after-to_response : (y : Result Reader Bool) → after (to_response y) ≡ (after y).response
after-to_response (ok b x) = refl
after-to_response (threw e x) = refl

read_connection : (c : Connection) → Result Response Bool → Result Connection Bool
read_connection c x = elim x [
  | ok a r ↦ ok a (record c { exchange = record c.exchange { response = r } })
  | threw e r ↦ threw e (record c { exchange = record c.exchange { response = r } })
]

fd-connection :
    (c : Connection) (x : Result Response Bool)
    → (get_cgi_pipe_fd (after (read_connection c x)) ≡ get_cgi_output_fd (after x))
      × ((after (read_connection c x)).state ≡ c.state)
unfolding read_connection get_cgi_pipe_fd
fd-connection c (ok a r) = (refl, refl)
fd-connection c (threw e r) = (refl, refl)

fd-read_output :
    (reply : PipeReply) (c : Connection)
    → (get_cgi_pipe_fd (after (read_output reply c)) ≡ get_cgi_pipe_fd c)
      × ((after (read_output reply c)).state ≡ c.state)
unfolding read_connection get_cgi_pipe_fd
fd-read_output reply c =
    let x : Reader = record { response = c.exchange.response; active_pids = reply.active_pids } in
    let y = read_cgi_output reply.bytes reply.wait x in
    let h = fd-connection c (to_response y) in
    (
      h.0
          ∙ ap get_cgi_output_fd (after-to_response y)
          ∙ fd-read_cgi_output reply.bytes reply.wait x,
      h.1,
    )

module _ (fd : ℕ) (p : Pointer) where
  -- The pipe is registered for the connection.
  Piped : ℕ → ServerManager → Type 0
  Piped pipe s = Tends fd p s × (find_key pipe s.cgi_pipe_to_conn ≡ some p)

  Keeps-any :
      {A : Type 0} (m : M Connection A) (s : ServerManager)
      → Unpiped fd p s
      → Keeps (Unpiped fd p) (on_connection p m s)
  Keeps-any m s (h, u) =
      Keeps-on (Unpiped fd p) p m s h.client h.alive
        (Tends-IsUnpiped fd p s h (after (m h.client.connection)) u, u)

  Keeps-await :
      (s : ServerManager)
      → Tends fd p s
      → Keeps IsSound (with_client p (λ c. add_poll_fd c.fd epollin_out) s)
  Keeps-await s h =
      Keeps-client IsSound p (λ c. add_poll_fd c.fd epollin_out) s h.client h.alive
        (Keeps-polled_sound fd p epollin_out h.client.fd s h)

  Keeps-try_read :
      (reply : PipeReply) (pipe : ℕ) (events : Events) (s : ServerManager)
      → Piped pipe s
      → Keeps (Piped pipe) (try_read_output reply p events s)
  unfolding try_read_output Piped
  Keeps-try_read reply pipe events s (h, e) =
      Keeps-choice (Piped pipe) (events.hangup || events.error) (done true)
        (if events.input then on_connection p (read_output reply) else done false) s (h, e)
        (Keeps-choice (Piped pipe) events.input (on_connection p (read_output reply)) (done false) s
          (Keeps-on (Piped pipe) p (read_output reply) s h.client h.alive (
            let f = fd-read_output reply h.client.connection in
            (
              Tends-changed fd p s h (after (read_output reply h.client.connection))
                  (λ other g. (f.0, subst Answers (sym f.1) (Answers-piped fd p s h other g))),
              e,
            )))
          (h, e))

  -- A connection whose pipe is gone is changed and waits to write.
  Keeps-answered :
      {A B : Type 0} (m : M Connection A) (k : M Connection B) (s : ServerManager)
      → Unpiped fd p s
      → Keeps IsSound (
          (on_connection p m
              >> (on_connection p k >> with_client p (λ c. add_poll_fd c.fd epollin_out)))
            s)
  Keeps-answered m k s u =
      Keeps-then (Unpiped fd p) IsSound (λ t v. v.0.sound) (on_connection p m)
        (on_connection p k >> with_client p (λ c. add_poll_fd c.fd epollin_out)) s (Keeps-any m s u)
        (λ t v.
          Keeps-then (Unpiped fd p) IsSound (λ a w. w.0.sound) (on_connection p k)
            (with_client p (λ c. add_poll_fd c.fd epollin_out)) t (Keeps-any k t v)
            (λ a w. Keeps-await a w.0))

  -- The same, where the client's descriptor is already known.
  pub Keeps-page :
      (site : Site) (pipe : ℕ) (s : ServerManager) (h : Tends fd p s)
      → find_key pipe s.cgi_pipe_to_conn ≡ some p
      → Keeps IsSound (
          (modify (unregister_cgi_pipe (some pipe))
              >> (on_connection p (on_response (timeout_page site h.client.connection.server_conf))
                  >> (on_connection p (set_state writing) >> add_poll_fd h.client.fd epollin_out)))
            s)
  Keeps-page site pipe s h e =
      let m = on_response (timeout_page site h.client.connection.server_conf) in
      let poll = add_poll_fd h.client.fd epollin_out in
      Keeps-then (Unpiped fd p) IsSound (λ t v. v.0.sound) (on_connection p m)
        (on_connection p (set_state writing) >> poll) (unregister_cgi_pipe (some pipe) s)
        (Keeps-any m (unregister_cgi_pipe (some pipe) s) (Tends-unregistered fd p s h pipe e))
        (λ t v.
          Keeps-then (Unpiped fd p) IsSound (λ a w. w.0.sound) (on_connection p (set_state writing))
            poll t (Keeps-any (set_state writing) t v)
            (λ a w. Keeps-polled_sound fd p epollin_out h.client.fd a w.0))

  Keeps-finish :
      (site : Site) (pipe : ℕ) (b : Bool) (s : ServerManager)
      → Piped pipe s
      → Keeps IsSound (finish_cgi site p pipe b s)
  unfolding finish_cgi Piped
  Keeps-finish site pipe false s (h, e) = h.sound
  Keeps-finish site pipe true s (h, e) =
      Keeps-answered (on_response (finalize_cgi_response site)) (set_state writing)
        (unregister_cgi_pipe (some pipe) s) (Tends-unregistered fd p s h pipe e)

  Keeps-give_up :
      (site : Site) (pipe : ℕ) (code : ℤ) (s : ServerManager)
      → Piped pipe s
      → Keeps IsSound (give_up_cgi site p pipe code s)
  unfolding Piped
  Keeps-give_up site pipe code s (h, e) =
      Keeps-then (Piped pipe) IsSound (λ t v. v.0.sound) (on_connection p (trigger_error site code))
        (modify (unregister_cgi_pipe (some pipe))
          >> with_client p (λ c. add_poll_fd c.fd epollin_out))
        s
        (Keeps-on (Piped pipe) p (trigger_error site code) s h.client h.alive (
          Tends-Calm fd p s h (trigger_error site code h.client.connection)
              (Calm-trigger_error site code h.client.connection),
          e,
        ))
        (λ t v.
          Keeps-await (unregister_cgi_pipe (some pipe) t)
            (Tends-unregistered fd p t v.0 pipe v.1).0)

  Keeps-after_output :
      (site : Site) (pipe : ℕ) (x : Outcome Bool)
      → Keeps (Piped pipe) x
      → Keeps IsSound (after_output site p pipe x)
  unfolding after_output Piped
  Keeps-after_output site pipe (done b s) h = Keeps-finish site pipe b s h
  Keeps-after_output site pipe (raised (client_exception code) s) h =
      Keeps-give_up site pipe (pos code) s h
  Keeps-after_output site pipe (raised fatal_exception s) h = h.0.sound
  Keeps-after_output site pipe (raised runtime_error s) h = Keeps-give_up site pipe (pos 500) s h
  Keeps-after_output site pipe (raised out_of_fuel s) h = h.0.sound
  Keeps-after_output site pipe dangling h = h

pub Keeps-pipe_event :
    (site : Site) (reply : PipeReply) (pipe : ℕ) (events : Events) (s : ServerManager)
    → IsSound s
    → Keeps IsSound (handle_cgi_pipe_event site reply pipe events s)
unfolding handle_cgi_pipe_event Piped
Keeps-pipe_event site reply pipe events s h =
    elim (Option-cases (find_key pipe s.cgi_pipe_to_conn)) [
      | inl e ↦ rw (e, Keeps) h
      | inr (p, e) ↦
          let l = (h.piped pipe p e).lives in
          let v = Tends-Lives p s h l in
          rw (e, Keeps, v.alive)
            (Keeps-after_output l.client.fd p site pipe (try_read_output reply p events s)
              (Keeps-try_read l.client.fd p reply pipe events s (v, e)))
    ]
