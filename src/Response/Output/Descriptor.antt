-- ===== src/Response/Output/Descriptor.antt =====
-- The pipe's descriptor, which the reading of a script's output keeps.
use left_hook_roll.DataStore.Files.{append}
use left_hook_roll.Response.Held.{Held-on_store, Held}
use left_hook_roll.Prelude.Result.{ok, threw, Result, after}
use left_hook_roll.Response.State.{on_store, Response}
use left_hook_roll.Text.{Bytes}
use left_hook_roll.CgiManager.State.{CgiManager}
use left_hook_roll.Response.Output.{
  append, on_store, ask_done, reader_after, Result, Reader, Response, output_appended,
  get_cgi_output_fd, output_read, Bytes, CgiManager, read_cgi_output,
}
use left_hook_roll.CgiManager.Processes.{has_ended, Spawner, is_cgi_done, Pids, waited, WaitReply}
use left_hook_roll.Prelude.{
  ◌∙◌, true, none, ◌∷◌, ap, Bool-cases, Bool, some, ◌≡◌, ℕ, Option, refl, inl, inr, [], sym,
}

-- readCgiOutput leaves the descriptor of the pipe.
module _ (wait : WaitReply) (cgi : CgiManager) where
  pipe_read-waited :
      (o : Option ℕ) (s : Spawner) → (waited o wait s).1.cgi.pipe_read ≡ s.cgi.pipe_read
  unfolding waited
  pipe_read-waited none s = refl
  pipe_read-waited (some pid) s = elim (Bool-cases (has_ended wait)) [ inl e ↦ rw e | inr e ↦ rw e ]

  fd-asked :
      (x : Reader)
      → get_cgi_output_fd (reader_after (ask_done wait cgi x) x).response ≡ cgi.pipe_read
  unfolding get_cgi_output_fd is_cgi_done
  fd-asked x = pipe_read-waited cgi.pid (record { cgi = cgi; active_pids = x.active_pids })

  fd-instance : (r : Response) → r.cgi_instance ≡ some cgi → get_cgi_output_fd r ≡ cgi.pipe_read
  unfolding get_cgi_output_fd
  fd-instance r e =
      ap
        (λ (i : Option CgiManager). elim i as (λ i. Option ℕ) [
          | none ↦ none
          | some c ↦ c.pipe_read
        ])
        e

  fd-appended :
      (pids : Pids) (x : Result Response (Unit {0}))
      → Held (some cgi) x
      → get_cgi_output_fd (after (output_appended wait cgi pids x)).response ≡ cgi.pipe_read
  unfolding output_appended
  fd-appended pids (threw e r) h = fd-instance r h
  fd-appended pids (ok u r) h = fd-asked (record { response = r; active_pids = pids })

  fd-read :
      (reply : Option Bytes) (x : Reader)
      → x.response.cgi_instance ≡ some cgi
      → get_cgi_output_fd (after (output_read reply wait cgi x)).response ≡ cgi.pipe_read
  unfolding output_read
  fd-read none x e = fd-asked x
  fd-read (some []) x e = fd-asked x
  fd-read (some (b ∷ bs)) x e =
      fd-appended x.active_pids (on_store (append (b ∷ bs)) x.response)
        (Held-on_store (some cgi) (append (b ∷ bs)) x.response e)

pub fd-read_cgi_output :
    (reply : Option Bytes) (wait : WaitReply) (x : Reader)
    → get_cgi_output_fd (after (read_cgi_output reply wait x)).response
      ≡ get_cgi_output_fd x.response
unfolding read_cgi_output
fd-read_cgi_output reply wait x = go x.response.cgi_instance refl
  where
    read_it : (cgi : CgiManager) → Option ℕ → Result Reader Bool
    read_it cgi o = elim o [ none ↦ ok true x | some fd ↦ output_read reply wait cgi x ]

    read_piped :
        (cgi : CgiManager) (o : Option ℕ)
        → x.response.cgi_instance ≡ some cgi
        → get_cgi_output_fd (after (read_it cgi o)).response ≡ get_cgi_output_fd x.response
    read_piped cgi none e = refl
    read_piped cgi (some fd) e =
        fd-read wait cgi reply x e ∙ sym (fd-instance wait cgi x.response e)

    go :
        (i : Option CgiManager)
        → x.response.cgi_instance ≡ i
        → get_cgi_output_fd
            (after (elim i as (λ i. Result Reader Bool) [
              | none ↦ ok true x
              | some cgi ↦ read_it cgi cgi.pipe_read
            ])).response
          ≡ get_cgi_output_fd x.response
    go none e = refl
    go (some cgi) e = read_piped cgi cgi.pipe_read e
