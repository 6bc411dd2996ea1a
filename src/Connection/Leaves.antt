-- ===== src/Connection/Leaves.antt =====
-- The moves of a connection's state machine, and where `process` leads.
use left_hook_roll.Request.Body.{process_body_slice}
use left_hook_roll.Response.Dispatch.{build_response}
use left_hook_roll.Prelude.Int.{ℤ, pos}
use left_hook_roll.Conf.{ServerConf}
use left_hook_roll.Text.Numbers.{atoi}
use left_hook_roll.Connection.{
  codes, error_page, set_state, ℤ, ServerConf, Connection, ConnectionState, reading, writing,
  processing, waiting_for_cgi, finished, on_exchange, on_request, on_response, trigger_error,
}
use left_hook_roll.Connection.Processing.{
  after_build, catch_exception, decode_slice, process_decoded, respond, state_unbuilt, try_process,
}
use left_hook_roll.Connection.Reading.{request_of}
use left_hook_roll.Prelude.{not, Bool, true, false, Option, none, some, if◌then◌else◌}
use left_hook_roll.Prelude.Result.{
  Result, M, ok, threw, fatal_exception, client_exception, runtime_error, out_of_fuel, ◌>>=◌,
}
use left_hook_roll.Request.State.{Request, ReqState, req_chunked}
use left_hook_roll.Response.State.{build_cgi_running, Response, Exchange, Site, BuildPhase}
use left_hook_roll.Text.{codes, equal}

-- Where handleRead, process and handleWrite lead from the states that they act in.
pub data FromReading : ConnectionState → Type 0 where
  still_reading : FromReading reading
  request_read : FromReading processing
  refused : FromReading writing
  closed : FromReading finished

pub data FromProcessing : ConnectionState → Type 0 where
  still_processing : FromProcessing processing
  answered : FromProcessing writing
  cgi_started : FromProcessing waiting_for_cgi

pub data FromWriting : ConnectionState → Type 0 where
  still_writing : FromWriting writing
  sent : FromWriting finished

-- The state that a method leaves the connection in, whether it returns or throws.
abbrev pub Leaves : {A : Type 0} → (ConnectionState → Type 0) → Result Connection A → Type 0
Leaves P (ok a c) = P c.state
Leaves P (threw e c) = P c.state

-- A method of a part of the connection, and what follows it.
module _ {A : Type 0} (P : ConnectionState → Type 0) (k : A → M Connection (Unit {0}))
    (c : Connection) (p : P c.state) where
  pub Leaves-request :
      (m : M Request A)
      → ((a : A) (r : Request)
          → Leaves P (k a (record c { exchange = record c.exchange { request = r } })))
      → Leaves P ((on_request m >>= k) c)
  Leaves-request m h = go (m c.exchange.request)
    where
      go :
          (x : Result Request A)
          → Leaves P
              (elim (elim x as (λ x. Result Connection A) [
                | ok a r ↦ ok a (record c { exchange = record c.exchange { request = r } })
                | threw e r ↦ threw e (record c { exchange = record c.exchange { request = r } })
              ])
                as (λ x. Result Connection (Unit {0})) [ ok a t ↦ k a t | threw e t ↦ threw e t ])
      go (ok a r) = h a r
      go (threw e r) = p

  Leaves-exchange :
      (m : M Exchange A)
      → ((a : A) (x : Exchange) → Leaves P (k a (record c { exchange = x })))
      → Leaves P ((on_exchange m >>= k) c)
  Leaves-exchange m h = go (m c.exchange)
    where
      go :
          (x : Result Exchange A)
          → Leaves P
              (elim (elim x as (λ x. Result Connection A) [
                | ok a r ↦ ok a (record c { exchange = r })
                | threw e r ↦ threw e (record c { exchange = r })
              ])
                as (λ x. Result Connection (Unit {0})) [ ok a t ↦ k a t | threw e t ↦ threw e t ])
      go (ok a r) = h a r
      go (threw e r) = p

  pub Leaves-response :
      (m : M Response A)
      → ((a : A) (r : Response)
          → Leaves P (k a (record c { exchange = record c.exchange { response = r } })))
      → Leaves P ((on_response m >>= k) c)
  Leaves-response m h = go (m c.exchange.response)
    where
      go :
          (x : Result Response A)
          → Leaves P
              (elim (elim x as (λ x. Result Connection A) [
                | ok a r ↦ ok a (record c { exchange = record c.exchange { response = r } })
                | threw e r ↦ threw e (record c { exchange = record c.exchange { response = r } })
              ])
                as (λ x. Result Connection (Unit {0})) [ ok a t ↦ k a t | threw e t ↦ threw e t ])
      go (ok a r) = h a r
      go (threw e r) = p

module _ (site : Site) (P : ConnectionState → Type 0) (w : P writing) where
  pub Leaves-error : (code : ℤ) (c : Connection) → P c.state → Leaves P (trigger_error site code c)
  unfolding trigger_error
  Leaves-error code c p =
      Leaves-response P (λ u. set_state writing) c p (error_page site code c.server_conf) (λ a r. w)

  pub Leaves-caught :
      (x : Result Connection (Unit {0})) → Leaves P x → Leaves P (catch_exception site x)
  unfolding catch_exception
  Leaves-caught (ok a c) p = p
  Leaves-caught (threw (client_exception code) c) p = Leaves-error (pos code) c p
  Leaves-caught (threw fatal_exception c) p = p
  Leaves-caught (threw runtime_error c) p = Leaves-error (pos 500) c p
  Leaves-caught (threw out_of_fuel c) p = p

  module _ (g : P waiting_for_cgi) where
    Leaves-built : (b : Bool) (c : Connection) → P c.state → Leaves P (after_build b c)
    unfolding after_build
    Leaves-built true c p = w
    Leaves-built false c p = go c.exchange.response.build_phase
      where
        go : (phase : BuildPhase) → P (state_unbuilt phase c.state)
        go build_cgi_running = g
        go _ = p

    Leaves-respond :
        (config : Option ServerConf) (c : Connection) → P c.state → Leaves P (respond site config c)
    unfolding respond
    Leaves-respond none c p = Leaves-error (pos 500) c p
    Leaves-respond (some config) c p =
        Leaves-exchange P after_build c p (build_response site config) (λ b x. Leaves-built b _ p)

    Leaves-decoded : (c : Connection) → P c.state → Leaves P (process_decoded site c)
    unfolding process_decoded
    Leaves-decoded c p = go (not (equal (request_of c).status_code (codes "200")))
      where
        go :
            (b : Bool)
            → Leaves P (
                if b
                then trigger_error site (atoi (request_of c).status_code) c
                else respond site c.server_conf c)
        go true = Leaves-error (atoi (request_of c).status_code) c p
        go false = Leaves-respond c.server_conf c p

    pub Leaves-tried : (c : Connection) → P c.state → Leaves P (try_process site c)
    unfolding try_process decode_slice
    Leaves-tried c p = go (request_of c).req_state
      where
        next :
            (b : Bool) (d : Connection)
            → P d.state
            → Leaves P ((if b then process_decoded site else ok tt) d)
        next true d q = Leaves-decoded d q
        next false d q = q

        go :
            (st : ReqState)
            → Leaves P ((decode_slice st >>= (λ b. if b then process_decoded site else ok tt)) c)
        go req_chunked =
            Leaves-request P (λ b. if b then process_decoded site else ok tt) c p process_body_slice
              (λ b r. next b _ p)
        go _ = Leaves-decoded c p
