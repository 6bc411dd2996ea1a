-- ===== src/Response/Dispatch.antt =====
-- src/Response.cpp: `buildResponse`, and `_handleCGI` up to the launch of the process.
use left_hook_roll.Conf.{
  LocationConf, ServerConf, is_method_allowed, is_cgi_extension, get_cgi_interpreter,
}
use left_hook_roll.DataStore.Files.{reset_read_position, switch_to_file_mode}
use left_hook_roll.DataStore.Kernel.{BufferMode, ram, file_mode}
use left_hook_roll.Methods.{HttpMethod, unknown_method, get, post, delete}
use left_hook_roll.Prelude.Result.{M, ok, threw, client_exception, ◌>>◌}
use left_hook_roll.Prelude.{
  Bool, true, false, not, ◌&&◌, none, some, ◌++◌, ◌==◌, ltb, if◌then◌else◌, is_nil,
}
use left_hook_roll.Response.Build.{add_cookie, add_header, build_error_page, finish}
use left_hook_roll.Response.Handlers.{is_regular, handle_get, handle_delete}
use left_hook_roll.Response.Pages.{lookup_reason_phrase}
use left_hook_roll.Response.Paths.{match_location, get_file_extension, is_path_safe}
use left_hook_roll.Response.State.{
  Response, Site, Exchange, Launch, launched, not_launched, BuildPhase, build_post_writing,
  build_cgi_running, on_response, on_request_body,
}
use left_hook_roll.Response.Uploads.{continue_post_write, handle_post}
use left_hook_roll.Text.{Bytes, codes, equal}

-- if (body.getSize() > 0 && body.getMode() == RAM) body.switchToFileMode();
unfoldable pub body_in_file : BufferMode → M Exchange (Unit {0})
body_in_file ram x =
    if ltb 0 x.request.body.current_size then on_request_body switch_to_file_mode x else ok tt x
body_in_file file_mode x = ok tt x

-- if (body.getMode() == FILE_MODE) body.resetReadPosition();
unfoldable pub rewind_file : BufferMode → M Exchange (Unit {0})
rewind_file ram x = ok tt x
rewind_file file_mode x = on_request_body reset_read_position x

-- A method of the response that answers the request at once.
abbrev pub answered_by : M Response (Unit {0}) → M Exchange Bool
answered_by m = on_response (m >> ok true)

module _ (site : Site) where
  unfoldable pub after_launch : Launch → ServerConf → M Response Bool
  after_launch (launched cgi) config r = ok false (record r {
    cgi_instance = some cgi;
    build_phase = build_cgi_running;
    cached_config = some config;
  })
  after_launch (not_launched code) config r =
      if code == 503
      then (do
        build_error_page site (codes "503") config
        (λ s. ok true (add_header (codes "Retry-After") (codes "5") s)))
          (record r { cgi_instance = none })
      else threw (client_exception code) (record r { cgi_instance = none })

  unfoldable pub run_script : Bytes → LocationConf → ServerConf → M Exchange Bool
  unfolding after_launch body_in_file rewind_file
  run_script script loc config = do
    (λ x. body_in_file x.request.body.mode x)
    (λ x. rewind_file x.request.body.mode x)
    (λ x.
        on_response
          (after_launch
            (site.launch x.request script
              (get_cgi_interpreter loc (get_file_extension x.request.url)))
            config)
          x)

  unfoldable pub handle_cgi : LocationConf → ServerConf → M Exchange Bool
  unfolding run_script is_path_safe
  handle_cgi loc config x =
      let script = loc.root ++ x.request.url in
      (do
        (λ y. on_response (λ r. ok tt (add_cookie y.request r)) y)
        (if not (is_path_safe loc.root script)
            then answered_by (build_error_page site (codes "400") config)
            else if not (is_regular (site.stat script))
            then answered_by (build_error_page site (codes "404") config)
            else run_script script loc config))
        x

  -- The answer of a location that has a return code.
  unfoldable pub redirect : LocationConf → Response → Response
  redirect loc r =
      let s = record r {
        status_code = loc.return_code;
        response_phrase = lookup_reason_phrase loc.return_code;
      } in
      finish site (codes "0")
        (if not (is_nil loc.return_url) then add_header (codes "Location") loc.return_url s else s)

  unfoldable pub handle_method : HttpMethod → LocationConf → ServerConf → M Exchange Bool
  unfolding handle_get handle_delete handle_post
  handle_method get loc config x = answered_by (handle_get site x.request loc config) x
  handle_method post loc config x = handle_post site loc config x
  handle_method delete loc config x = answered_by (handle_delete site x.request loc config) x
  handle_method unknown_method loc config x =
      answered_by (build_error_page site (codes "501") config) x

  unfoldable pub handle_location : LocationConf → ServerConf → M Exchange Bool
  handle_location loc config x =
      let ext = get_file_extension x.request.url in
      if not (is_method_allowed loc x.request.method_name)
      then answered_by (build_error_page site (codes "405") config) x
      else if not (is_nil loc.return_code)
      then on_response (λ r. ok true (redirect loc r)) x
      else if not (is_nil ext) && is_cgi_extension loc ext
      then handle_cgi loc config x
      else handle_method x.request.method_name loc config x

  unfoldable pub handle_request : ServerConf → M Exchange Bool
  handle_request config x =
      if not (equal x.request.status_code (codes "200"))
      then answered_by (build_error_page site x.request.status_code config) x
      else elim (match_location x.request.url config) [
        | none ↦ answered_by (build_error_page site (codes "404") config) x
        | some loc ↦ handle_location loc config x
      ]

  -- The phases in which a response is already under construction.
  unfoldable pub build_from : BuildPhase → ServerConf → M Exchange Bool
  build_from build_post_writing config = continue_post_write site
  build_from build_cgi_running config = ok false
  build_from _ config = do
    on_response (λ r. ok tt (record r { cached_config = some config }))
    handle_request config

  unfoldable pub build_response : ServerConf → M Exchange Bool
  unfolding build_from handle_request handle_location handle_method handle_cgi redirect
      match_location equal is_method_allowed is_cgi_extension
  build_response config x = build_from x.response.build_phase config x
