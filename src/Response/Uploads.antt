-- ===== src/Response/Uploads.antt =====
-- src/Response.cpp: `_handlePost` and `_continuePostWrite`. A write to a file raises no SIGPIPE.
use left_hook_roll.Conf.{LocationConf, ServerConf}
use left_hook_roll.DataStore.Files.{append, read, reset_read_position}
use left_hook_roll.DataStore.Kernel.{BufferMode, ram, file_mode, count_of, later}
use left_hook_roll.Prelude.Result.{M, ok, ◌>>=◌, ◌>>◌}
use left_hook_roll.Prelude.{
  ◌||◌, ℕ, zero, suc, ◌+◌, ◌-◌, min, Bool, true, false, not, ◌&&◌, Option, none, some, [], ◌++◌,
  ◌==◌, ltb, leb, if◌then◌else◌, is_nil, take, drop, length,
}
use left_hook_roll.Response.Build.{add_cookie, add_header, build_error_page, finalize_success}
use left_hook_roll.Response.Paths.{extract_filename_from_url}
use left_hook_roll.Response.State.{
  Response, Site, Exchange, build_post_writing, build_done, on_store, on_response, on_request_body,
  throw_if_sigpipe,
}
use left_hook_roll.Text.Numbers.{show}
use left_hook_roll.Text.{Bytes, codes}

-- One write(2) of `bytes` to the upload's file: the count that it returns, or `none` for -1.
unfoldable pub write_upload : Bytes → Response → Option ℕ × Response
unfolding count_of
write_upload bytes r = elim (count_of (length bytes) r.write_replies) [
  | none ↦ (none, record r { write_replies = later r.write_replies })
  | some k ↦ (
    some k,
    record r {
      write_replies = later r.write_replies;
      post_out_fd = elim r.post_out_fd [ none ↦ none | some file ↦ some (file ++ take k bytes) ];
    },
  )
]

-- The bytes of the store that the next slice takes, and the test that all are written.
abbrev pub next_slice : Response → Bytes → Bytes
next_slice r vec =
    take (min (length vec - r.post_write_pos) r.write_buffer_size) (drop r.post_write_pos vec)

module _ (site : Site) where
  -- A write that failed.
  unfoldable pub give_up : M Response Bool
  give_up r =
      let s = record r { post_out_fd = none; build_phase = build_done } in
      elim r.cached_config [
        | none ↦ ok true s
        | some config ↦ (build_error_page site (codes "500") config >> ok true) s
      ]

  upload_body : Bytes
  upload_body =
      codes "<!DOCTYPE html>\r\n<html><body><p>File uploaded successfully.</p></body></html>"

  -- if (!wroteAll) return false; and what follows
  unfoldable pub end_write : Bool → M Response Bool
  unfolding upload_body
  end_write false r = ok false r
  end_write true r =
      (do
        on_store (append upload_body)
        (λ t. ok true (
            finalize_success site (codes "text/html") (
              add_header (codes "Location") (codes "/" ++ t.post_filename)
                (record t { status_code = codes "201"; response_phrase = codes "Created" })))))
        (record r { post_out_fd = none; build_phase = build_done })

  -- The RAM branch: what write(2) returned.
  unfoldable pub wrote_slice : Bytes → Option ℕ × Response → M Response Bool
  wrote_slice vec (none, s) r = give_up s
  wrote_slice vec (some zero, s) r = give_up s
  wrote_slice vec (some (suc k), s) r =
      end_write (is_nil vec || leb (length vec) (s.post_write_pos + suc k))
        (record s { post_write_pos = s.post_write_pos + suc k })

  unfoldable pub write_from_ram : Bytes → M Response Bool
  unfolding write_upload
  write_from_ram vec r =
      if not (is_nil vec) && ltb r.post_write_pos (length vec)
      then wrote_slice vec (write_upload (next_slice r vec) r) r
      else end_write (is_nil vec || leb (length vec) r.post_write_pos) r

  -- The FILE_MODE branch: `n` bytes were to be written, and `done` says that the body has been read.
  unfoldable pub wrote_piece : ℕ → Bool → Option ℕ × Response → M Response Bool
  wrote_piece n done (none, s) r = give_up s
  wrote_piece n done (some k, s) r = if not (k == n) then give_up s else end_write done s

  unfoldable pub write_piece : Bytes → Bool → M Response Bool
  unfolding write_upload
  write_piece bytes done r =
      if is_nil bytes
      then end_write done r
      else wrote_piece (length bytes) done (write_upload bytes r) r

  unfoldable pub write_from : BufferMode → M Exchange Bool
  write_from ram x = on_response (write_from_ram x.request.body.data_buffer) x
  write_from file_mode x =
      (do
        bytes ← on_request_body (read 16384)
        (λ y.
            on_response
              (write_piece bytes (leb y.request.body.current_size y.request.body.read_offset)) y))
        x

  unfoldable pub continue_post_write : M Exchange Bool
  unfolding write_from write_from_ram wrote_slice write_piece wrote_piece end_write give_up
  continue_post_write = do on_response throw_if_sigpipe; (λ x. write_from x.request.body.mode x)

  -- The name of the file to store.
  unfoldable pub upload_name : Bytes → Bytes
  upload_name url =
      let name = extract_filename_from_url url in
      if is_nil name then codes "upload_" ++ show site.time else name

  -- if (body.getMode() != RAM) body.resetReadPosition();
  unfoldable pub rewind_body : BufferMode → M Exchange (Unit {0})
  rewind_body ram x = ok tt x
  rewind_body file_mode x = on_request_body reset_read_position x

  abbrev pub upload_opened : Bytes → Response → Response
  upload_opened name r = record r {
    post_out_fd = some [];
    post_write_pos = 0;
    post_filename = name;
    build_phase = build_post_writing;
  }

  unfoldable pub store_upload : LocationConf → ServerConf → M Exchange Bool
  unfolding continue_post_write rewind_body upload_name
  store_upload loc config x =
      let name = upload_name x.request.url in
      if site.create (loc.storage_location ++ (codes "/" ++ name))
      then (do
        on_response (λ r. ok tt (upload_opened name r))
        (λ y. rewind_body y.request.body.mode y)
        continue_post_write)
          x
      else on_response (build_error_page site (codes "500") config >> ok true) x

  unfoldable pub handle_post : LocationConf → ServerConf → M Exchange Bool
  unfolding store_upload
  handle_post loc config = do
    (λ x. on_response (λ r. ok tt (add_cookie x.request r)) x)
    (if is_nil loc.storage_location
        then on_response (build_error_page site (codes "503") config >> ok true)
        else store_upload loc config)
