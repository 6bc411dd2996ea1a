-- ===== src/ServerManager/Paged.antt =====
-- triggerError(408) on a connection that has been idle for too long.
use mathlib.Core.Path.{subst}
use left_hook_roll.Text.{codes}
use left_hook_roll.Prelude.Result.{threw, ok, Result}
use left_hook_roll.Prelude.Int.{pos}
use left_hook_roll.Conf.{ServerConf}
use left_hook_roll.Response.Build.{build_error_page, set_status_code, set_response_phrase}
use left_hook_roll.Response.State.{Response, Site}
use left_hook_roll.Connection.{set_state, writing, Connection, error_page, trigger_error}
use left_hook_roll.Text.Numbers.{show, show_int}
use left_hook_roll.Prelude.{◌^◌, ◌<◌, length, refl, [], ◌≡◌, none, some, Option, ap, ◌∙◌, sym}
use left_hook_roll.Response.Build.ErrorPages.{IsErrorPage, build_error_page-IsErrorPage, page_of}

-- The page of a configuration fits 64 bits.
abbrev Fits : Site → Option ServerConf → Type 0
Fits site none = Unit
Fits site (some config) = length (page_of site (codes "408") config) < 2 ^ 64

-- The kernel serves the store of the response, and the page fits.
pub record Servable (site : Site) (c : Connection) : Type 0 where
  pub serves : c.exchange.response.response_data_store.replies ≡ []
  pub fits : Fits site c.server_conf

-- The connection waits to write an answer of status 408.
pub record IsPaged (c : Connection) : Type 0 where
  pub writes : c.state ≡ writing
  pub status : c.exchange.response.status_code ≡ codes "408"

-- triggerError(408) on a connection returns, and leaves it waiting to write the page.
pub record Paged (site : Site) (c : Connection) : Type 0 where
  pub made : Connection
  pub returns : trigger_error site (pos 408) c ≡ ok tt made
  pub is_paged : IsPaged made
  pub servable : Servable site made

code_text : show_int (pos 408) ≡ codes "408"
unfolding show
code_text = refl

record ErrorMade (site : Site) (o : Option ServerConf) (r : Response) : Type 0 where
  pub response : Response
  returned_is : error_page site (pos 408) o r ≡ ok tt response
  status_is : response.status_code ≡ codes "408"
  pub serving : response.response_data_store.replies ≡ []

error_page-ErrorMade :
    (site : Site) (o : Option ServerConf) (r : Response)
    → r.response_data_store.replies ≡ []
    → Fits site o
    → ErrorMade site o r
unfolding error_page set_response_phrase set_status_code
error_page-ErrorMade site none r e f = record {
  response = _;
  returned_is = refl;
  status_is = code_text;
  serving = e;
}
error_page-ErrorMade site (some config) r e f =
    let h : IsErrorPage site (show_int (pos 408)) config
        (build_error_page site (show_int (pos 408)) config r) =
      subst (λ code. IsErrorPage site code config (build_error_page site code config r))
        (sym code_text) (build_error_page-IsErrorPage site (codes "408") config r e f) in
    record {
      response = h.response;
      returned_is = h.returns;
      status_is = h.status ∙ code_text;
      serving = h.serves;
    }

pub trigger_error-Paged : (site : Site) (c : Connection) → Servable site c → Paged site c
unfolding trigger_error
trigger_error-Paged site c v =
    let h = error_page-ErrorMade site c.server_conf c.exchange.response v.serves v.fits in
    record {
      made = record c { exchange = record c.exchange { response = h.response }; state = writing };
      returns =
          ap
            (λ x.
              elim (elim x as (λ x. Result Connection (Unit {0})) [
                | ok a r ↦ ok a (record c { exchange = record c.exchange { response = r } })
                | threw e r ↦ threw e (record c { exchange = record c.exchange { response = r } })
              ])
                as (λ x. Result Connection (Unit {0})) [
                  | ok a t ↦ set_state writing t
                  | threw e t ↦ threw e t
                ])
            h.returned_is;
      is_paged = record { writes = refl; status = h.status_is };
      servable = record { serves = h.serving; fits = v.fits };
    }
