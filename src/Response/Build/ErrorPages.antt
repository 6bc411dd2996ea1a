-- ===== src/Response/Build/ErrorPages.antt =====
-- `buildErrorPage` when the kernel serves: the page and its header block.
use left_hook_roll.Conf.{ServerConf, get_error_page_path}
use left_hook_roll.DataStore.Contents.{IsStored, contents}
use left_hook_roll.DataStore.Files.{Action, append, clear}
use left_hook_roll.DataStore.Kernel.{DataStore}
use left_hook_roll.DataStore.Served.{Grown, append-Grown}
use left_hook_roll.Dict.{insert, lookup}
use left_hook_roll.Prelude.Result.{Result, M, ok, threw, ◌>>◌}
use left_hook_roll.Prelude.{
  ◌≡◌, ◌<◌, ◌+◌, ◌^◌, refl, Option, none, some, List, [], ◌∷◌, ◌++◌, length, arith, ap, sym, ◌∙◌,
  append-nil, append_assoc, length-append,
}
use left_hook_roll.Response.Build.Finish.{
  finished_headers, finalize_success-sealed, content_length_of, success_headers, with_headers,
}
use left_hook_roll.Response.Build.{
  append_pieces, build_error_page, custom_page, default_page, finalize_success,
  generate_header_string, reset_for_error, sealed, set_status_code,
}
use left_hook_roll.Response.Pages.{build_default_error_html, lookup_reason_phrase}
use left_hook_roll.Response.State.{on_store, Response, build_done, sending_res_head, Site}
use left_hook_roll.Text.Numbers.{show}
use left_hook_roll.Text.{Bytes, codes}

-- What reading a file piece by piece gives.
abbrev pub joined : List Bytes → Bytes
joined [] = []
joined ([] ∷ pieces) = []
joined ((c ∷ cs) ∷ pieces) = (c ∷ cs) ++ joined pieces

abbrev page_from : Bytes → Option (List Bytes) → Bytes
page_from code none = build_default_error_html code (lookup_reason_phrase code)
page_from code (some pieces) = joined pieces

-- The custom page of the configuration if it can be opened, or the default page.
abbrev pub page_of : Site → Bytes → ServerConf → Bytes
page_of site code config = page_from code (custom_page site (get_error_page_path config code))

-- An answer with the status and the page as its body, ready to be sent from its first byte.
pub record IsErrorPage (site : Site) (code : Bytes) (config : ServerConf)
    (x : Result Response (Unit {0})) : Type 0 where
  pub response : Response
  pub returns : x ≡ ok tt response
  pub status : response.status_code ≡ code
  pub phrase : response.response_phrase ≡ lookup_reason_phrase code
  pub body : contents response.response_data_store ≡ page_of site code config
  pub stored : IsStored response.response_data_store
  pub serves : response.response_data_store.replies ≡ []
  pub content_length :
      lookup (codes "Content-Length") response.headers
      ≡ some (show (length (page_of site code config)))
  pub only_headers :
      response.headers
      ≡ finished_headers site
          (show (length (page_of site code config)))
          (insert (codes "Content-Type") (codes "text/html") [])
  pub no_cookies : response.set_cookies ≡ []
  pub no_stream :
      (response.file_size ≡ 0) × (response.stream_buf_len ≡ 0) × (response.stream_buf_sent ≡ 0)
  pub no_upload : response.post_out_fd ≡ none
  pub block : response.header_buffer ≡ generate_header_string response
  pub state : response.response_state ≡ sending_res_head
  pub phase : response.build_phase ≡ build_done
  pub unsent : response.total_bytes_sent ≡ 0
  pub no_file : response.file_fd ≡ none

abbrev with_store : Response → DataStore → Response
with_store r t = record r { response_data_store = t }

-- A store that has grown by `d`, in the place of that of `r`.
record Filled (d : Bytes) (r : Response) (x : Result Response (Unit {0})) : Type 0 where
  store : DataStore
  filled : x ≡ ok tt (with_store r store)
  contents_are : contents store ≡ contents r.response_data_store ++ d
  stored : IsStored store
  serving : store.replies ≡ []

-- An append to the response's store that returns, and what follows it.
on_store-then :
    {A : Type 0} (m : Action (Unit {0})) (k : M Response A) (r : Response) (t : DataStore)
    → m r.response_data_store ≡ ok tt t
    → (on_store m >> k) r ≡ k (with_store r t)
on_store-then {A} m k r t e =
    ap
      (λ q.
        elim (elim q as (λ x. Result Response (Unit {0})) [
          | ok a s ↦ ok a (record r { response_data_store = s })
          | threw x s ↦ threw x (record r { response_data_store = s })
        ])
          as (λ x. Result Response A) [ ok a s ↦ k s | threw x s ↦ threw x s ])
      e

append_pieces-Filled :
    (site : Site) (pieces : List Bytes) (r : Response)
    → IsStored r.response_data_store
    → r.response_data_store.replies ≡ []
    → length (contents r.response_data_store) + length (joined pieces) < 2 ^ 64
    → Filled (joined pieces) r (append_pieces site pieces r)
unfolding append_pieces
append_pieces-Filled site [] r v e h = record {
  store = r.response_data_store;
  filled = refl;
  contents_are = sym (append-nil (contents r.response_data_store));
  stored = v;
  serving = e;
}
append_pieces-Filled site ([] ∷ pieces) r v e h = record {
  store = r.response_data_store;
  filled = refl;
  contents_are = sym (append-nil (contents r.response_data_store));
  stored = v;
  serving = e;
}
append_pieces-Filled site ((c ∷ cs) ∷ pieces) r v e h =
    let g : Grown (c ∷ cs) r.response_data_store =
      append-Grown (c ∷ cs) r.response_data_store v e
        (omega (arith, h, length-append (c ∷ cs) (joined pieces))) in
    let s : Response = with_store r g.store in
    let k : Filled (joined pieces) s (append_pieces site pieces s) =
      append_pieces-Filled site pieces s g.stored g.serves (
        omega (
          arith,
          h,
          ap length g.contents_are,
          length-append (contents r.response_data_store) (c ∷ cs),
          length-append (c ∷ cs) (joined pieces),
        )) in
    record {
      store = k.store;
      filled =
          on_store-then (append (c ∷ cs)) (append_pieces site pieces) r g.store g.returns
          ∙ k.filled;
      contents_are =
          k.contents_are
          ∙ ap (λ t. t ++ joined pieces) g.contents_are
          ∙ append_assoc (contents r.response_data_store) (c ∷ cs) (joined pieces);
      stored = k.stored;
      serving = k.serving;
    }

module _ (site : Site) (code : Bytes) (config : ServerConf) (r : Response)
    (served : r.response_data_store.replies ≡ [])
    (fits : length (page_of site code config) < 2 ^ 64) where
  start : Response
  start = set_status_code code (reset_for_error site r)

  start-IsStored : IsStored start.response_data_store
  unfolding start set_status_code reset_for_error clear
  start-IsStored = record { size_ok = refl; shape_ok = (refl, refl) }

  start-served : start.response_data_store.replies ≡ []
  unfolding start set_status_code reset_for_error clear
  start-served = served

  start-empty :
      (contents start.response_data_store ≡ [])
      × (start.response_phrase ≡ lookup_reason_phrase code)
  unfolding start set_status_code reset_for_error clear
  start-empty = (refl, refl)

  -- The store holds the page, and the answer is finalized.
  finished :
      (t : DataStore)
      → contents t ≡ page_of site code config
      → IsStored t
      → t.replies ≡ []
      → (x : Result Response (Unit {0}))
      → x ≡ ok tt (finalize_success site (codes "text/html") (with_store start t))
      → IsErrorPage site code config x
  unfolding start set_status_code reset_for_error sealed generate_header_string
  finished t c v w x e = record {
    response = sealed (
        with_headers (success_headers site (codes "text/html") (with_store start t))
          (with_store start t));
    returns =
        e ∙ ap (ok tt) (finalize_success-sealed site (codes "text/html") (with_store start t));
    status = refl;
    phrase = refl;
    body = c;
    stored = v;
    serves = w;
    content_length =
        content_length_of site (show t.current_size) _
        ∙ ap (λ n. some (show n)) (v.size_ok ∙ ap length c);
    only_headers =
        ap
          (λ n.
            finished_headers site (show n) (insert (codes "Content-Type") (codes "text/html") []))
          (v.size_ok ∙ ap length c);
    no_cookies = refl;
    no_stream = (refl, refl, refl);
    no_upload = refl;
    block = refl;
    state = refl;
    phase = refl;
    unsent = refl;
    no_file = refl;
  }

  -- With every call of the store served, buildErrorPage returns, and the answer is the page of the
  -- code: the custom page of the configuration if it can be opened, or else the default page. The
  -- status is the code, and Content-Length is the size of the page. Nothing is left of what had been
  -- built before: the headers are the four of the page, there are no cookies, no file is open for
  -- sending or for an upload, and nothing counts as sent. The page is taken to fit 64 bits.
  pub build_error_page-IsErrorPage :
      IsErrorPage site code config (build_error_page site code config r)
  unfolding build_error_page default_page set_status_code start
  build_error_page-IsErrorPage = go (custom_page site (get_error_page_path config code)) refl
    where
      default_html : Bytes
      default_html = build_default_error_html code (lookup_reason_phrase code)

      go :
          (o : Option (List Bytes))
          → custom_page site (get_error_page_path config code) ≡ o
          → IsErrorPage site code config (elim o [
            | none ↦ default_page site code start
            | some pieces ↦
                (append_pieces site pieces
                    >> (λ t. ok tt (finalize_success site (codes "text/html") t)))
                  start
          ])
      go none e =
          let page : page_of site code config ≡ default_html = ap (page_from code) e in
          let g : Grown default_html start.response_data_store =
            append-Grown default_html start.response_data_store start-IsStored start-served
              (omega (arith, fits, ap length page, ap length start-empty.0)) in
          finished g.store (g.contents_are ∙ ap (λ t. t ++ default_html) start-empty.0 ∙ sym page)
            g.stored g.serves _
            (on_store-then (append default_html)
              (λ t. ok tt (finalize_success site (codes "text/html") t)) start g.store g.returns)
      go (some pieces) e =
          let page : page_of site code config ≡ joined pieces = ap (page_from code) e in
          let k : Filled (joined pieces) start (append_pieces site pieces start) =
            append_pieces-Filled site pieces start start-IsStored start-served
              (omega (arith, fits, ap length page, ap length start-empty.0)) in
          finished k.store (k.contents_are ∙ ap (λ t. t ++ joined pieces) start-empty.0 ∙ sym page)
            k.stored k.serving _
            (ap
              (λ q. elim q as (λ x. Result Response (Unit {0})) [
                | ok a t ↦ ok tt (finalize_success site (codes "text/html") t)
                | threw x t ↦ threw x t
              ])
              k.filled)
