-- ===== src/Response/Held.antt =====
-- The script's instance: what keeps it while an answer is sent, or an error page takes its place.
pub mod Pages
pub mod Sending
use left_hook_roll.Response.Pages.{build_default_error_html}
use left_hook_roll.Conf.{get_error_page_path, ServerConf}
use left_hook_roll.Response.Build.{
  is_set_cookie_header, renewed, custom_page, add_header, sealed, set_status_code, reset_for_error,
  finish, finalize_success, build_error_page, append_pieces, default_page,
}
use left_hook_roll.Text.{codes, Bytes}
use left_hook_roll.DataStore.Kernel.{file_mode, ram, DataStore, BufferMode}
use left_hook_roll.DataStore.Files.{append, add_size, read, reset_read_position, Action}
use left_hook_roll.Response.State.{
  Site, sending_body_chunked, sending_body_static, sending_res_head, on_store, ResponseState,
  Response, throw_if_sigpipe,
}
use left_hook_roll.Response.Send.{
  close_file, sub_size, filled, send_to, progress, pending, send_in, send_body_from, advance_stream,
  send_from_file, after_header, end_ram_slice, send_body_data_store, end_file_slice, send_slice,
  send_from, end_header_slice, send_from_ram, send_store_slice, send_bytes, send_body_static,
  end_store_slice, send_body_file, send_header, send_file_slice,
}
use left_hook_roll.CgiManager.State.{CgiManager}
use left_hook_roll.Prelude.Result.{◌>>◌, after, threw, ok, M, Result, ◌>>=◌}
use left_hook_roll.Prelude.{
  inr, inl, Bool-cases, ◌∙◌, ◌==◌, not, drop, min, take, length, arith, is_nil, none, ◌∷◌, some,
  false, true, ◌≡◌, if◌then◌else◌, List, ℕ, Bool, Option, [],
}

-- A method leaves the instance as it was, whether it returns or throws.
abbrev pub Held : {A : Type 0} → Option CgiManager → Result Response A → Type 0
Held i x = (after x).cgi_instance ≡ i

module _ (i : Option CgiManager) {A : Type 0} where
  Held-if : (b : Bool) (x y : Result Response A) → Held i x → Held i y → Held i (if b then x else y)
  Held-if true x y h k = h
  Held-if false x y h k = k

  Held-store :
      (x : Result DataStore A) (r : Response)
      → r.cgi_instance ≡ i
      → Held i (elim x as (λ x. Result Response A) [
        | ok a s ↦ ok a (record r { response_data_store = s })
        | threw e s ↦ threw e (record r { response_data_store = s })
      ])
  Held-store (ok a s) r h = h
  Held-store (threw e s) r h = h

  pub Held-on_store : (m : Action A) (r : Response) → r.cgi_instance ≡ i → Held i (on_store m r)
  Held-on_store m r h = Held-store (m r.response_data_store) r h

module _ (i : Option CgiManager) {A B : Type 0} where
  Held-next :
      (x : Result Response A) (k : A → M Response B)
      → Held i x
      → ((a : A) (s : Response) → s.cgi_instance ≡ i → Held i (k a s))
      → Held i (elim x as (λ x. Result Response B) [ ok a s ↦ k a s | threw e s ↦ threw e s ])
  Held-next (ok a s) k h g = g a s h
  Held-next (threw e s) k h g = h

  pub Held-bind :
      (m : M Response A) (k : A → M Response B) (r : Response)
      → Held i (m r)
      → ((a : A) (s : Response) → s.cgi_instance ≡ i → Held i (k a s))
      → Held i ((m >>= k) r)
  Held-bind m k r h g = Held-next (m r) k h g
