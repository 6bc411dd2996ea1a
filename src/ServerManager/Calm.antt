-- ===== src/ServerManager/Calm.antt =====
-- What the methods of a connection leave of the script that it waits for.
use left_hook_roll.Text.Numbers.{show_int}
use left_hook_roll.Response.Send.{send_slice}
use left_hook_roll.CgiManager.State.{CgiManager}
use left_hook_roll.Conf.{ServerConf}
use left_hook_roll.Response.Held.{Held}
use left_hook_roll.Response.Held.Sending.{Held-send_slice}
use left_hook_roll.Response.Held.Pages.{Held-error_page}
use left_hook_roll.Prelude.Int.{ℤ}
use left_hook_roll.ServerManager.Sound.{Answers}
use left_hook_roll.Text.{Bytes}
use left_hook_roll.Response.Build.{set_response_phrase, set_status_code}
use left_hook_roll.Response.State.{Response, Site}
use left_hook_roll.Prelude.Result.{threw, ok, M, after, Result}
use left_hook_roll.Response.Output.{get_cgi_output_fd}
use left_hook_roll.Connection.Processing.{write_when, handle_write}
use left_hook_roll.Connection.{
  processing, reading, waiting_for_cgi, writing, ConnectionState, finished, set_state, error_page,
  update_activity_timer, Connection, trigger_error,
}
use left_hook_roll.ServerManager.Polling.{get_cgi_pipe_fd}
use left_hook_roll.Connection.Reading.{read_when, handle_read}
use left_hook_roll.Prelude.{false, true, none, ℕ, some, ap, if◌then◌else◌, ◌≡◌, Option, Bool, refl}

-- The method keeps the script's instance, and a connection that waits for its script, or writes, does
-- not go back to reading or processing.
pub record Calm {A : Type 0} (c : Connection) (x : Result Connection A) : Type 0 where
  pub instance_kept : (after x).exchange.response.cgi_instance ≡ c.exchange.response.cgi_instance
  pub answers_kept : Answers c.state → Answers (after x).state

pub get_cgi_pipe_fd-Calm :
    {A : Type 0} (c : Connection) (x : Result Connection A)
    → Calm c x
    → get_cgi_pipe_fd (after x) ≡ get_cgi_pipe_fd c
unfolding get_cgi_pipe_fd get_cgi_output_fd
get_cgi_pipe_fd-Calm c x h =
    ap
      (λ (i : Option CgiManager). elim i as (λ i. Option ℕ) [
        | none ↦ none
        | some cgi ↦ cgi.pipe_read
      ])
      h.instance_kept

-- A method of the response that keeps the instance, and what follows it.
Calm-response :
    {A B : Type 0} (c : Connection) (x : Result Response A) (k : A → M Connection B)
    → Held c.exchange.response.cgi_instance x
    → ((a : A) (r : Response)
        → r.cgi_instance ≡ c.exchange.response.cgi_instance
        → Calm c (k a (record c { exchange = record c.exchange { response = r } })))
    → Calm c
        (elim (elim x as (λ x. Result Connection A) [
          | ok a r ↦ ok a (record c { exchange = record c.exchange { response = r } })
          | threw e r ↦ threw e (record c { exchange = record c.exchange { response = r } })
        ])
          as (λ x. Result Connection B) [ ok a t ↦ k a t | threw e t ↦ threw e t ])
Calm-response c (ok a r) k h g = g a r h
Calm-response c (threw e r) k h g = record { instance_kept = h; answers_kept = λ w. w }

pub Calm-trigger_error :
    (site : Site) (code : ℤ) (c : Connection) → Calm c (trigger_error site code c)
unfolding trigger_error error_page set_status_code set_response_phrase
Calm-trigger_error site code c =
    Calm-response c (error_page site code c.server_conf c.exchange.response)
      (λ u. set_state writing) (Held-page c.server_conf)
      (λ u r h. record { instance_kept = h; answers_kept = λ w. tt })
  where
    Held-page :
        (config : Option ServerConf)
        → Held c.exchange.response.cgi_instance (error_page site code config c.exchange.response)
    Held-page none = refl
    Held-page (some config) =
        Held-error_page c.exchange.response.cgi_instance site (show_int code) config
          c.exchange.response refl

pub Calm-handle_write : (site : Site) (c : Connection) → Calm c (handle_write site c)
unfolding handle_write update_activity_timer
Calm-handle_write site c = go c.state
  where
    d : Connection
    d = record c { last_activity = site.time }

    end :
        (b : Bool) (r : Response)
        → r.cgi_instance ≡ c.exchange.response.cgi_instance
        → Calm c (
            (if b then set_state finished else ok tt)
              (record d { exchange = record d.exchange { response = r } }))
    end true r h = record { instance_kept = h; answers_kept = λ w. tt }
    end false r h = record { instance_kept = h; answers_kept = λ w. w }

    to_c : (x : Result Connection (Unit {0})) → Calm d x → Calm c x
    to_c x h = record { instance_kept = h.instance_kept; answers_kept = h.answers_kept }

    go : (st : ConnectionState) → Calm c (write_when site st c)
    go writing = to_c _ (
        Calm-response d (send_slice c.exchange.response)
          (λ sent. if sent then set_state finished else ok tt)
          (Held-send_slice c.exchange.response.cgi_instance c.exchange.response refl)
          (λ b r h.
            let e = end b r h in
            record { instance_kept = e.instance_kept; answers_kept = e.answers_kept }))
    go reading = record { instance_kept = refl; answers_kept = λ w. w }
    go processing = record { instance_kept = refl; answers_kept = λ w. w }
    go waiting_for_cgi = record { instance_kept = refl; answers_kept = λ w. w }
    go finished = record { instance_kept = refl; answers_kept = λ w. w }

-- handleRead does nothing to a connection that waits for its script or writes.
pub handle_read-Answers :
    (site : Site) (reply : Option Bytes) (c : Connection)
    → Answers c.state
    → handle_read site reply c ≡ ok tt c
unfolding handle_read
handle_read-Answers site reply c = go c.state
  where
    go : (st : ConnectionState) → Answers st → read_when site st reply c ≡ ok tt c
    go writing h = refl
    go waiting_for_cgi h = refl
    go finished h = refl
    go reading h = elim h [ ]
    go processing h = elim h [ ]
