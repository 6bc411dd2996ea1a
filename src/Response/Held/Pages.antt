-- ===== src/Response/Held/Pages.antt =====
-- The script's instance behind an error page.
use left_hook_roll.Response.Held.{Held-on_store, Held-bind, Held}
use left_hook_roll.Response.Pages.{build_default_error_html}
use left_hook_roll.Conf.{get_error_page_path, ServerConf}
use left_hook_roll.Response.Build.{
  is_set_cookie_header, renewed, custom_page, add_header, sealed, set_status_code, reset_for_error,
  finish, finalize_success, build_error_page, append_pieces, default_page,
}
use left_hook_roll.Text.{codes, Bytes}
use left_hook_roll.DataStore.Files.{append}
use left_hook_roll.Response.State.{Site, on_store, Response}
use left_hook_roll.CgiManager.State.{CgiManager}
use left_hook_roll.Prelude.Result.{◌>>◌, ok, Result}
use left_hook_roll.Prelude.{
  inr, inl, Bool-cases, ◌∙◌, is_nil, none, ◌∷◌, some, ◌≡◌, List, Option, [],
}

Held-renewed : (r : Response) → (renewed r).cgi_instance ≡ r.cgi_instance
unfolding renewed
Held-renewed r = elim (Bool-cases (is_nil r.header_buffer)) [ inl e ↦ rw e | inr e ↦ rw e ]

Held-add_header :
    (key value : Bytes) (r : Response) → (add_header key value r).cgi_instance ≡ r.cgi_instance
unfolding add_header
Held-add_header key value r = elim (Bool-cases (is_set_cookie_header key)) [
  | inl e ↦ rw e (Held-renewed _)
  | inr e ↦ rw e (Held-renewed _)
]

module _ (i : Option CgiManager) (site : Site) where
  Held-pieces :
      (pieces : List Bytes) (r : Response)
      → r.cgi_instance ≡ i
      → Held i (append_pieces site pieces r)
  unfolding append_pieces
  Held-pieces [] r h = h
  Held-pieces ([] ∷ pieces) r h = h
  Held-pieces ((c ∷ cs) ∷ pieces) r h =
      Held-bind i (on_store (append (c ∷ cs))) (λ u. append_pieces site pieces) r
        (Held-on_store i (append (c ∷ cs)) r h) (λ u s. Held-pieces pieces s)

  Held-finalized :
      (content_type : Bytes) (r : Response)
      → (finalize_success site content_type r).cgi_instance ≡ r.cgi_instance
  unfolding finalize_success finish sealed
  Held-finalized content_type r = simp Held-add_header

  Held-default :
      (code : Bytes) (r : Response) → r.cgi_instance ≡ i → Held i (default_page site code r)
  unfolding default_page
  Held-default code r h =
      Held-bind i (λ s. on_store (append (build_default_error_html code s.response_phrase)) s)
        (λ u s. ok tt (finalize_success site (codes "text/html") s)) r
        (Held-on_store i (append (build_default_error_html code r.response_phrase)) r h)
        (λ u s q. Held-finalized (codes "text/html") s ∙ q)

  pub Held-error_page :
      (code : Bytes) (config : ServerConf) (r : Response)
      → r.cgi_instance ≡ i
      → Held i (build_error_page site code config r)
  unfolding build_error_page reset_for_error set_status_code
  Held-error_page code config r h = go (custom_page site (get_error_page_path config code))
    where
      s : Response
      s = set_status_code code (reset_for_error site r)

      go :
          (page : Option (List Bytes))
          → Held i (elim page as (λ x. Result Response (Unit {0})) [
            | none ↦ default_page site code s
            | some pieces ↦
                (do
                  append_pieces site pieces
                  (λ t. ok tt (finalize_success site (codes "text/html") t)))
                  s
          ])
      go none = Held-default code s h
      go (some pieces) =
          Held-bind i (append_pieces site pieces)
            (λ u t. ok tt (finalize_success site (codes "text/html") t)) s (Held-pieces pieces s h)
            (λ u t q. Held-finalized (codes "text/html") t ∙ q)
