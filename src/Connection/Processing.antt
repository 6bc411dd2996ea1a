-- ===== src/Connection/Processing.antt =====
-- src/Connection.cpp: `process` and `handleWrite`.
use left_hook_roll.Conf.{ServerConf}
use left_hook_roll.Connection.{
  Connection, ConnectionState, writing, processing, waiting_for_cgi, finished, on_exchange,
  on_request, on_response, set_state, trigger_error, update_activity_timer,
}
use left_hook_roll.Connection.Reading.{request_of}
use left_hook_roll.Prelude.Int.{pos}
use left_hook_roll.Prelude.Result.{
  Result, M, ok, threw, fatal_exception, client_exception, runtime_error, out_of_fuel, ◌>>=◌,
}
use left_hook_roll.Prelude.{Bool, true, false, not, Option, none, some, if◌then◌else◌}
use left_hook_roll.Request.Body.{process_body_slice}
use left_hook_roll.Request.State.{ReqState, req_chunked}
use left_hook_roll.Response.Dispatch.{build_response}
use left_hook_roll.Response.Send.{send_slice}
use left_hook_roll.Response.State.{Site, BuildPhase, build_cgi_running}
use left_hook_roll.Text.Numbers.{atoi, to_int}
use left_hook_roll.Text.{codes, equal}

-- if (reqState == REQ_CHUNKED) ... processBodySlice(): whether process goes on.
unfoldable pub decode_slice : ReqState → M Connection Bool
unfolding process_body_slice
decode_slice req_chunked = on_request process_body_slice
decode_slice _ = ok true

abbrev pub state_unbuilt : BuildPhase → ConnectionState → ConnectionState
state_unbuilt build_cgi_running s = waiting_for_cgi
state_unbuilt _ s = s

-- What buildResponse answered.
unfoldable pub after_build : Bool → M Connection (Unit {0})
after_build true c = set_state writing c
after_build false c =
    ok tt (record c { state = state_unbuilt c.exchange.response.build_phase c.state })

module _ (site : Site) where
  unfoldable pub respond : Option ServerConf → M Connection (Unit {0})
  unfolding after_build build_response
  respond (some config) = do built ← on_exchange (build_response site config); after_build built
  respond none = trigger_error site (pos 500)

  -- The body of the try block, once the body is decoded.
  unfoldable pub process_decoded : M Connection (Unit {0})
  unfolding respond equal to_int
  process_decoded c =
      if not (equal (request_of c).status_code (codes "200"))
      then trigger_error site (atoi (request_of c).status_code) c
      else respond c.server_conf c

  -- The try block.
  unfoldable pub try_process : M Connection (Unit {0})
  unfolding decode_slice process_decoded
  try_process = do
    decoded ← (λ c. decode_slice (request_of c).req_state c)
    (if decoded then process_decoded else ok tt)

  -- The catch clauses.
  unfoldable pub catch_exception : Result Connection (Unit {0}) → Result Connection (Unit {0})
  catch_exception (ok a c) = ok a c
  catch_exception (threw (client_exception code) c) = trigger_error site (pos code) c
  catch_exception (threw fatal_exception c) = threw fatal_exception c
  catch_exception (threw runtime_error c) = trigger_error site (pos 500) c
  catch_exception (threw out_of_fuel c) = threw out_of_fuel c

  abbrev pub process_when : ConnectionState → M Connection (Unit {0})
  process_when processing c = catch_exception (try_process (update_activity_timer site c))
  process_when _ c = ok tt c

  unfoldable pub process : M Connection (Unit {0})
  unfolding catch_exception try_process update_activity_timer trigger_error
  process c = process_when c.state c

  abbrev pub write_when : ConnectionState → M Connection (Unit {0})
  write_when writing c =
      (do sent ← on_response send_slice; (if sent then set_state finished else ok tt))
        (update_activity_timer site c)
  write_when _ c = ok tt c

  unfoldable pub handle_write : M Connection (Unit {0})
  unfolding send_slice update_activity_timer
  handle_write c = write_when c.state c
