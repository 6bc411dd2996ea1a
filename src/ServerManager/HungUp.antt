-- ===== src/ServerManager/HungUp.antt =====
-- The end of a script's output, when its pipe reports that the other end is closed.
use left_hook_roll.ServerManager.Returned.{find_key-stored, with_client-alive}
use left_hook_roll.ServerManager.Added.{add_poll_fd-cases}
use mathlib.Core.Path.{subst}
use left_hook_roll.ServerManager.Polling.{add_poll_fd, unregister_cgi_pipe}
use left_hook_roll.Response.Cgi.{finalize_cgi_response}
use left_hook_roll.ServerManager.Pipes.{
  await_writing, finish_cgi, after_output, try_read_output, handle_cgi_pipe_event, PipeReply,
}
use left_hook_roll.Connection.{on_response, set_state, Connection, writing}
use left_hook_roll.Response.State.{Response, Site}
use left_hook_roll.Table.{find_key-erase_key, find_key-set_key, set_key, find_key, Table}
use left_hook_roll.Prelude.{
  inr, inl, ==_refl, ◌⊎◌, ℕ, refl, ◌≡◌, true, none, some, Option, ap, ◌∙◌, sym,
}
use left_hook_roll.ServerManager.State.{
  Events, ◌>>◌, done, raised, dangling, ServerManager, Outcome, Pointer, Client, on_connection,
  with_client, returned, epollin_out,
}
use left_hook_roll.Prelude.Result.{fatal_exception, ok, threw, Result}

-- The connection with the response, waiting to write it.
abbrev pub writes : Client → Response → Client
writes c u = record c {
  connection = record c.connection {
    exchange = record c.connection.exchange { response = u };
    state = writing;
  };
}

-- The answer is made of what has been read, and the connection waits to write it; or what was thrown
-- is an exception of finalizeCgiResponse or a failure of epoll_ctl. The pipe is not registered any more.
abbrev pub Finished :
    Result Response (Unit {0}) → ℕ → Pointer → Client → Outcome (Unit {0}) → Type 0
Finished answer pipe p c (done a t) =
    (u : Response) × (answer ≡ ok tt u)
    × (find_key p t.clients ≡ some (writes c u))
    × (find_key c.fd t.fd_events ≡ some epollin_out)
    × (find_key pipe t.cgi_pipe_to_conn ≡ none)
Finished answer pipe p c (raised e t) =
    (((u : Response) × (answer ≡ threw e u)) ⊎ (e ≡ fatal_exception))
    × (find_key pipe t.cgi_pipe_to_conn ≡ none)
Finished answer pipe p c dangling = ⊥

module _ (site : Site) (pipe : ℕ) (s : ServerManager) (p : Pointer) (c : Client)
    (alive : find_key p s.clients ≡ some c) where
  answer : Result Response (Unit {0})
  answer = finalize_cgi_response site c.connection.exchange.response

  polled :
      (u : Response) (t : ServerManager)
      → answer ≡ ok tt u
      → find_key p t.clients ≡ some (writes c u)
      → find_key pipe t.cgi_pipe_to_conn ≡ none
      → Finished answer pipe p c (await_writing site p pipe t)
  polled u t e a n =
      subst (Finished answer pipe p c)
        (sym (with_client-alive p (λ b. add_poll_fd b.fd epollin_out) t (writes c u) a))
        (add_poll_fd-cases (Finished answer pipe p c) c.fd epollin_out t
          (λ replies. (u, e, a, stored_events t.fd_events, n)) (λ replies m. (inr refl, n)))
    where
      stored_events :
          (m : Table Events) → find_key c.fd (set_key c.fd epollin_out m) ≡ some epollin_out
      stored_events m = rw (find_key-set_key c.fd c.fd epollin_out m, ==_refl c.fd)

  -- The connection is put into WRITING, after the answer has been made or has failed.
  after_answer :
      (x : Result Response (Unit {0})) (t : ServerManager)
      → answer ≡ x
      → find_key p t.clients ≡ some c
      → find_key pipe t.cgi_pipe_to_conn ≡ none
      → Finished answer pipe p c
          (elim (returned p c
              (elim x as (λ x. Result Connection (Unit {0})) [
                | ok a r ↦ ok a (record c.connection {
                  exchange = record c.connection.exchange { response = r };
                })
                | threw e r ↦ threw e (record c.connection {
                  exchange = record c.connection.exchange { response = r };
                })
              ])
              t)
            as (λ x. Outcome (Unit {0})) [
              | done a v ↦ (on_connection p (set_state writing) >> await_writing site p pipe) v
              | raised e v ↦ raised e v
              | dangling ↦ dangling
            ])
  unfolding returned
  after_answer (threw y u) t e a n = (inl (u, e), n)
  after_answer (ok d u) t e a n =
      let made : Client = record c {
        connection = record c.connection {
          exchange = record c.connection.exchange { response = u };
        };
      } in
      let v : ServerManager = record t { clients = set_key p made t.clients } in
      subst
        (λ x. Finished answer pipe p c (elim x as (λ x. Outcome (Unit {0})) [
          | done b w ↦ await_writing site p pipe w
          | raised z w ↦ raised z w
          | dangling ↦ dangling
        ]))
        (sym (
          with_client-alive p (λ b. returned p b (set_state writing b.connection)) v made
            (find_key-stored p made t.clients)))
        (polled u (record v { clients = set_key p (writes c u) v.clients }) e
          (find_key-stored p (writes c u) v.clients) n)

  finish_cgi-Finished : Finished answer pipe p c (finish_cgi site p pipe true s)
  unfolding finish_cgi unregister_cgi_pipe answer
  finish_cgi-Finished =
      let t : ServerManager = unregister_cgi_pipe (some pipe) s in
      subst
        (λ x. Finished answer pipe p c (elim x as (λ x. Outcome (Unit {0})) [
          | done b w ↦ (on_connection p (set_state writing) >> await_writing site p pipe) w
          | raised z w ↦ raised z w
          | dangling ↦ dangling
        ]))
        (sym (
          with_client-alive p
            (λ b. returned p b (on_response (finalize_cgi_response site) b.connection)) t c alive))
        (after_answer answer t refl alive
          (rw (find_key-erase_key pipe pipe s.cgi_pipe_to_conn, ==_refl pipe)))

-- When the pipe of a script reports that its other end is closed, what the pipe still holds is not
-- read. finalizeCgiResponse makes the answer of what has been read before, whatever a read would
-- return; the pipe is no longer registered, and the connection is in WRITING with that answer and is
-- watched for its socket to take bytes. What is thrown is an exception of finalizeCgiResponse or a
-- failure of epoll_ctl. The connection of the pipe is taken to be alive.
pub handle_cgi_pipe_event-Finished :
    (site : Site) (reply : PipeReply) (pipe : ℕ) (events : Events) (s : ServerManager) (p : Pointer)
    (c : Client)
    → events.hangup ≡ true
    → find_key pipe s.cgi_pipe_to_conn ≡ some p
    → find_key p s.clients ≡ some c
    → Finished
        (finalize_cgi_response site c.connection.exchange.response)
        pipe
        p
        c
        (handle_cgi_pipe_event site reply pipe events s)
unfolding handle_cgi_pipe_event try_read_output after_output answer
handle_cgi_pipe_event-Finished site reply pipe events s p c h r alive =
    subst Done
      (sym (
        ap
          (λ (o : Option Pointer). elim o as (λ o. Outcome (Unit {0})) [
            | none ↦ done tt s
            | some q ↦
                with_client q (λ b t. after_output site q pipe (try_read_output reply q events t)) s
          ])
          r
        ∙ with_client-alive p (λ b t. after_output site p pipe (try_read_output reply p events t)) s
            c alive
        ∙ ap (after_output site p pipe) ended))
      (finish_cgi-Finished site pipe s p c alive)
  where
    Done : Outcome (Unit {0}) → Type 0
    Done = Finished (finalize_cgi_response site c.connection.exchange.response) pipe p c

    ended : try_read_output reply p events s ≡ done true s
    ended = rw h refl
