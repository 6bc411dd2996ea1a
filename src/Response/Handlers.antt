-- ===== src/Response/Handlers.antt =====
-- src/Response.cpp: `_handleGet` and `_handleDelete`.
use left_hook_roll.Conf.{LocationConf, ServerConf}
use left_hook_roll.DataStore.Files.{append}
use left_hook_roll.Prelude.Result.{M, ok, ◌>>◌}
use left_hook_roll.Prelude.{
  ◌&&◌, ◌-◌, Bool, true, false, not, ◌||◌, Option, none, some, ◌++◌, if◌then◌else◌, is_nil, length,
}
use left_hook_roll.Request.State.{Request}
use left_hook_roll.Response.Build.{
  add_cookie, build_error_page, finalize_success, finish, serve_file,
}
use left_hook_roll.Response.Pages.{build_auto_index_page}
use left_hook_roll.Response.Paths.{has_at, is_path_safe, resolve_path}
use left_hook_roll.Response.State.{
  Response, Site, Stat, regular, directory, other, removed, forbidden, in_error, on_store,
}
use left_hook_roll.Text.{Bytes, codes}

-- The index file, if there is one that is a regular file.
abbrev pub is_regular : Option Stat → Bool
is_regular none = false
is_regular (some s) = elim s.kind [ regular ↦ true | _ ↦ false ]

abbrev pub with_slash : Bytes → Bytes
with_slash url =
    if is_nil url || not (has_at url (length url - 1) b'/') then url ++ codes "/" else url

module _ (site : Site) where
  unfoldable pub list_directory : Bytes → Bytes → ServerConf → M Response (Unit {0})
  list_directory url dir config =
      let listing = build_auto_index_page site (with_slash url) dir in
      if is_nil listing then build_error_page site (codes "500") config else (do
        on_store (append listing)
        (λ r. ok tt (
            finalize_success site (codes "text/html")
              (record r { status_code = codes "200"; response_phrase = codes "OK" }))))

  unfoldable pub get_directory : Bytes → Bytes → LocationConf → ServerConf → M Response (Unit {0})
  get_directory url dir loc config =
      let index = dir ++ (codes "/" ++ loc.default_page) in
      if not (is_nil loc.default_page) && is_regular (site.stat index)
      then serve_file site index config
      else if loc.auto_index
      then list_directory url dir config
      else build_error_page site (codes "403") config

  -- What stat says of the resolved path.
  unfoldable pub get_path : Bytes → Bytes → LocationConf → ServerConf → M Response (Unit {0})
  get_path url path loc config = elim (site.stat path) [
    | none ↦ build_error_page site (codes "404") config
    | some st ↦ elim st.kind [
      | directory ↦ get_directory url path loc config
      | regular ↦ serve_file site path config
      | other ↦ build_error_page site (codes "403") config
    ]
  ]

  unfoldable pub handle_get : Request → LocationConf → ServerConf → M Response (Unit {0})
  unfolding get_path get_directory list_directory is_path_safe resolve_path
  handle_get req loc config r =
      let path = resolve_path loc.root req.url in
      let s = add_cookie req r in
      if not (is_path_safe loc.root path)
      then build_error_page site (codes "400") config s
      else get_path req.url path loc config s

  abbrev pub no_content : Response → Response
  no_content r =
      finish site (codes "0")
        (record r { status_code = codes "204"; response_phrase = codes "No Content" })

  unfoldable pub remove_file : Bytes → ServerConf → M Response (Unit {0})
  remove_file path config r = elim (site.remove path) [
    | removed ↦ ok tt (no_content r)
    | forbidden ↦ build_error_page site (codes "403") config r
    | in_error ↦ build_error_page site (codes "500") config r
  ]

  unfoldable pub handle_delete : Request → LocationConf → ServerConf → M Response (Unit {0})
  unfolding remove_file is_path_safe resolve_path
  handle_delete req loc config r =
      let path = resolve_path loc.root req.url in
      let s = add_cookie req r in
      if not (is_path_safe loc.root path)
      then build_error_page site (codes "400") config s
      else elim (site.stat path) [
        | none ↦ build_error_page site (codes "404") config s
        | some st ↦ elim st.kind [
          | regular ↦ remove_file path config s
          | _ ↦ build_error_page site (codes "403") config s
        ]
      ]
