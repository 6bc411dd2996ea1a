-- ===== src/Response/Output.antt =====
-- src/Response.cpp: `readCgiOutput` and `getCgiOutputFd`.
pub mod Descriptor
use left_hook_roll.DataStore.Files.{append}
use left_hook_roll.Prelude.Result.{ok, threw, M, Result}
use left_hook_roll.Text.{Bytes}
use left_hook_roll.CgiManager.State.{CgiManager}
use left_hook_roll.Response.State.{on_store, Response}
use left_hook_roll.CgiManager.Processes.{is_cgi_done, Spawner, Pids, WaitReply}
use left_hook_roll.Prelude.{none, ◌∷◌, true, some, ℕ, Bool, Option, []}

unfoldable pub get_cgi_output_fd : Response → Option ℕ
get_cgi_output_fd r = elim r.cgi_instance [ none ↦ none | some cgi ↦ cgi.pipe_read ]

-- A response, and the static set of the processes.
pub record Reader : Type 0 where
  pub response : Response
  pub active_pids : Pids

-- _cgiInstance->isDone()
abbrev pub reader_after : Bool × Spawner → Reader → Reader
reader_after (b, t) x = record {
  response = record x.response { cgi_instance = some t.cgi };
  active_pids = t.active_pids;
}

abbrev pub ask_done : WaitReply → CgiManager → Reader → Bool × Spawner
ask_done wait cgi x = is_cgi_done wait (record { cgi = cgi; active_pids = x.active_pids })

-- read(2) returned bytes: at most RESPONSE_SEND_CHUNK.
unfoldable pub output_appended :
    WaitReply → CgiManager → Pids → Result Response (Unit {0}) → Result Reader Bool
output_appended wait cgi pids (threw e r) = threw e (record { response = r; active_pids = pids })
output_appended wait cgi pids (ok u r) =
    let x : Reader = record { response = r; active_pids = pids } in
    ok (ask_done wait cgi x).0 (reader_after (ask_done wait cgi x) x)

-- `none` is -1, and no bytes is the end of the output.
unfoldable pub output_read : Option Bytes → WaitReply → CgiManager → M Reader Bool
unfolding output_appended is_cgi_done
output_read none wait cgi x = ok true (reader_after (ask_done wait cgi x) x)
output_read (some []) wait cgi x = ok true (reader_after (ask_done wait cgi x) x)
output_read (some (b ∷ bs)) wait cgi x =
    output_appended wait cgi x.active_pids (on_store (append (b ∷ bs)) x.response)

unfoldable pub read_cgi_output : Option Bytes → WaitReply → M Reader Bool
unfolding output_read
read_cgi_output reply wait x = elim x.response.cgi_instance [
  | none ↦ ok true x
  | some cgi ↦ elim cgi.pipe_read [ none ↦ ok true x | some fd ↦ output_read reply wait cgi x ]
]
