-- ===== src/Tests/Responses.antt =====
-- src/Response.cpp and src/Connection.cpp on concrete inputs.
use left_hook_roll.Prelude.Result.{ok, made}
use left_hook_roll.Connection.Copies.{
  assign_connection-copy_connection, IsCopy, assign_connection, AllStored, copy_connection,
  AllServed,
}
use left_hook_roll.CgiManager.State.{new_cgi_manager}
use left_hook_roll.Text.Trim.{lower}
use left_hook_roll.Dict.{lookup}
use left_hook_roll.Conf.{LocationConf, ServerConf, new_location, new_server, get_error_page_path}
use left_hook_roll.Connection.{writing, Connection, new_connection}
use left_hook_roll.Connection.Delivery.{Delivered, write_events, write_events-Delivered}
use left_hook_roll.Connection.Processing.{handle_write, process}
use left_hook_roll.Connection.Reading.{handle_read}
use left_hook_roll.Connection.Steps.{handlers-act, Reads, Processes, Sends}
use left_hook_roll.DataStore.Kernel.{new_store}
use left_hook_roll.Prelude.{List, ◌≡◌, refl, true, false, none, some, [], ◌∷◌, arith}
use left_hook_roll.Request.Headers.{finish_headers}
use left_hook_roll.Request.Lines.BodyKind.{IsTyped, finish_headers-IsTyped}
use left_hook_roll.Request.State.{Request, new_request}
use left_hook_roll.Response.Build.ErrorPages.{IsErrorPage, build_error_page-IsErrorPage}
use left_hook_roll.Response.Build.{build_error_page, custom_page}
use left_hook_roll.Response.Pages.{build_default_error_html, lookup_reason_phrase}
use left_hook_roll.Response.Cgi.Status.{parse_cgi_headers-status}
use left_hook_roll.Response.Cgi.{is_status, parse_cgi_headers, set_status}
use left_hook_roll.Response.Paths.Choice.{IsChoice, match_location-IsChoice, is_path_safe_always}
use left_hook_roll.Response.Paths.{has_at, match_location, is_path_safe, resolve_path}
use left_hook_roll.Response.Send.Answer.{Sending, Sliced}
use left_hook_roll.Response.Send.InOrder.{send_slice-Sliced}
use left_hook_roll.Response.Send.{send_slice}
use left_hook_roll.Response.State.{
  Response, Socket, Site, taken, failed, removed, launched, new_response,
}
use Prim.Native.String.{String}
use left_hook_roll.Text.{equal, is_digit, codes, find}

abbrev pub site : Site
site = record {
  stat = λ path. none;
  open_to_read = λ path. none;
  open_dir = λ path. none;
  create = λ path. true;
  remove = λ path. removed;
  launch = λ request script interpreter. launched new_cgi_manager;
  time = 5;
  http_date = codes "Thu, 01 Jan 1970 00:00:05 GMT";
}

abbrev at : String → LocationConf
at path = record new_location { path = codes path }

-- A server with a location inside another one.
abbrev server : ServerConf
server = record new_server { locations = at "/" ∷ at "/a/b" ∷ at "/a" ∷ [] }

match_location-IsChoice_example :
    IsChoice (codes "/a/b/c") server.locations (match_location (codes "/a/b/c") server)
match_location-IsChoice_example = match_location-IsChoice (codes "/a/b/c") server

the_choice : match_location (codes "/a/b/c") server ≡ some (at "/a/b")
unfolding match_location
the_choice = refl

is_path_safe_always_example :
    is_path_safe (codes "www") (resolve_path (codes "www") (codes "/../secret")) ≡ true
is_path_safe_always_example = is_path_safe_always (codes "www") (codes "/../secret") (λ e. cc e)

-- A socket that takes three bytes, then fails.
abbrev socket : Socket
socket = record { output = codes "x"; send_replies = taken 3 ∷ failed ∷ []; sigpipe = false }

abbrev short_answer : Response
short_answer =
    record (new_response (record (new_store 0 []) { current_size = 2; data_buffer = codes "ok" })
      socket) { header_buffer = codes "HTTP" }

short_answer-Sending : Sending (codes "x") short_answer
unfolding new_response new_store
short_answer-Sending = record {
  in_ram = refl;
  no_file = refl;
  size_ok = refl;
  fits = omega arith;
  buffer_ok = omega arith;
  in_order = refl;
  phase = omega arith;
}

send_slice-Sliced_example : Sliced (codes "x") short_answer (send_slice short_answer)
send_slice-Sliced_example = send_slice-Sliced (codes "x") short_answer short_answer-Sending

-- A connection that writes the short answer to a socket that takes three bytes at the first event.
abbrev writer : Connection
writer =
    record (new_connection 0 (some server) (new_store 0 []) (new_store 0 []) (new_store 0 [])
      socket) {
        state = writing;
        exchange = record {
          request = new_request 100 (new_store 0 []) (new_store 0 []);
          response = record short_answer { socket = record socket { send_replies = taken 3 ∷ [] } };
        };
      }

writer-Sending : Sending (codes "x") writer.exchange.response
unfolding new_response new_store
writer-Sending = record {
  in_ram = refl;
  no_file = refl;
  size_ok = refl;
  fits = omega arith;
  buffer_ok = omega arith;
  in_order = refl;
  phase = omega arith;
}

abbrev write_times : List Site
write_times = site ∷ site ∷ site ∷ site ∷ site ∷ site ∷ site ∷ []

write_events-Delivered_example :
    Delivered (codes "x") (codes "HTTPok") (write_events write_times writer)
unfolding new_response new_store
write_events-Delivered_example =
    write_events-Delivered (codes "x") write_times writer refl writer-Sending refl (omega arith)

build_error_page-IsErrorPage_example :
    IsErrorPage site (codes "404") server (build_error_page site (codes "404") server short_answer)
unfolding new_response new_store new_server custom_page get_error_page_path build_default_error_html
    lookup_reason_phrase lookup
build_error_page-IsErrorPage_example =
    build_error_page-IsErrorPage site (codes "404") server short_answer refl (omega arith)

abbrev client : Connection
client = new_connection 0 (some server) (new_store 0 []) (new_store 0 []) (new_store 0 []) socket

handlers-act_example :
    Reads client.state client (handle_read site (some (codes "GET / HTTP/1.0\r\n\r\n")) client)
    × Processes client.state client (process site client)
    × Sends client.state client (handle_write site client)
handlers-act_example = handlers-act site (some (codes "GET / HTTP/1.0\r\n\r\n")) client

abbrev fresh : Request
fresh = new_request 100 (new_store 0 []) (new_store 0 [])

finish_headers-IsTyped_example : IsTyped fresh (finish_headers fresh)
unfolding new_request
finish_headers-IsTyped_example = finish_headers-IsTyped fresh refl

parse_cgi_headers-status_example :
    is_status
      (parse_cgi_headers (codes "Status: 404 Not Found\n") short_answer).response.status_code
    ≡ true
unfolding parse_cgi_headers find is_digit lower equal has_at set_status
parse_cgi_headers-status_example =
    parse_cgi_headers-status (codes "Status: 404 Not Found\n") short_answer refl

AllStored-writer : AllStored writer
unfolding new_response new_store new_request
AllStored-writer = record {
  body_stored = record { size_ok = refl; shape_ok = (refl, refl) };
  decoded_stored = record { size_ok = refl; shape_ok = (refl, refl) };
  store_stored = record { size_ok = refl; shape_ok = (refl, refl) };
}

AllServed-client : AllServed client
unfolding new_response new_store new_request new_connection
AllServed-client = record { body_served = refl; decoded_served = refl; store_served = refl }

assign_connection-copy_connection_example :
    (t : Connection) × (copy_connection writer
        (record { body = []; decoded = []; store = []; writes = [] })
      ≡ made t)
    × (assign_connection writer client ≡ ok tt t)
    × IsCopy writer t
unfolding new_response new_connection
assign_connection-copy_connection_example =
    assign_connection-copy_connection writer client AllStored-writer AllServed-client
