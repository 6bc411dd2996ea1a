-- ===== src/Request/Chunks/Whole.antt =====
-- `processBodySlice` on a chunked body that one slice holds.
use left_hook_roll.Request.Chunks.Finished.{finish_slice-IsDecodedBody, with_body, IsDecodedBody}
use left_hook_roll.Request.Headers.{crlf}
use mathlib.Core.Path.{subst}
use left_hook_roll.DataStore.Contents.{contents}
use left_hook_roll.DataStore.Files.{read, add_size}
use left_hook_roll.DataStore.Readable.{IsReadable, Gives}
use left_hook_roll.DataStore.Reads.{read-Gives}
use left_hook_roll.Dict.{insert}
use left_hook_roll.Prelude.Int.{is_negative}
use left_hook_roll.Prelude.Result.{Result, ok, threw, ◌>>=◌, ◌>>◌}
use left_hook_roll.Prelude.{
  length-append, suc, ◌≤◌, ◌≡◌, Bool, true, false, [], ◌∷◌, ◌++◌, if◌then◌else◌, length, take, drop,
  arith, ap, sym, ◌∙◌, not, ◌||◌, List,
}
use left_hook_roll.Request.Body.{chunk_loop, finish_slice, process_body_slice, take_slice}
use left_hook_roll.Request.Chunks.Loop.{Chunk, Decodes, Decoded, chunk_loop-Decoded, encode, joined}
use left_hook_roll.Request.State.{Request, is_error}
use left_hook_roll.Text.Numbers.{show}
use left_hook_roll.Text.{Bytes, codes}

encode-longer : (cs : List Chunk) (last rest : Bytes) → length cs ≤ length (encode cs last rest)
encode-longer [] last rest = omega arith
encode-longer (c ∷ cs) last rest = omega (
  arith,
  encode-longer cs last rest,
  length-append c.line (crlf ++ (c.bytes ++ (crlf ++ encode cs last rest))),
  length-append c.bytes (crlf ++ encode cs last rest),
)

-- The buffer, with what the slice reads of the body behind it.
abbrev pub next_buffer : Request → Bytes
next_buffer r = r.chunk_buffer ++ take 8192 (drop r.body.read_offset (contents r.body))

module _ (cs : List Chunk) (last rest : Bytes) (r : Request)
    (going : (not (is_negative r.content_length) || (r.is_body_processed || is_error r.req_state))
      ≡ false)
    (received : IsReadable r.body)
    (coded : Decodes cs last rest (record r { chunk_buffer = next_buffer r })) where
  g : Gives 8192 r.body (read 8192 r.body)
  g = read-Gives 8192 r.body received

  filled : Request
  filled = record r {
    body = g.store;
    total_bytes_read = add_size r.total_bytes_read (length g.bytes);
    chunk_buffer = r.chunk_buffer ++ g.bytes;
  }

  filled-Decodes : Decodes cs last rest filled
  unfolding filled
  filled-Decodes = record {
    buffer = ap (λ b. r.chunk_buffer ++ b) g.bytes_are ∙ coded.buffer;
    chunks = coded.chunks;
    last_line = coded.last_line;
    last_size = coded.last_size;
    stored = coded.stored;
    serves = coded.serves;
    allowed = coded.allowed;
    fits = coded.fits;
  }

  loop : Decoded cs rest filled (chunk_loop (suc (length filled.chunk_buffer)) filled)
  loop =
      chunk_loop-Decoded (suc (length filled.chunk_buffer)) cs last rest filled
        (omega (arith, encode-longer cs last rest, ap length filled-Decodes.buffer)) filled-Decodes

  finished :
      IsDecodedBody (contents loop.request.decoded_body) loop.request (finish_slice loop.request)
  unfolding filled g
  finished =
      finish_slice-IsDecodedBody loop.request loop.processed loop.stored
        (ap (λ b. b.replies) loop.body_is ∙ g.readable.serves)

  take_slice-filled : take_slice r ≡ ok tt filled
  unfolding take_slice filled
  take_slice-filled =
      ap
        (λ q.
          elim (elim q as (λ x. Result Request Bytes) [
            | ok a s ↦ ok a (with_body r s)
            | threw e s ↦ threw e (with_body r s)
          ])
            as (λ x. Result Request (Unit {0})) [
              | ok a s ↦ ok tt (record s {
                total_bytes_read = add_size s.total_bytes_read (length a);
                chunk_buffer = s.chunk_buffer ++ a;
              })
              | threw e s ↦ threw e s
            ])
        g.returns

  sliced : Result Request Bool
  sliced =
      (do
        take_slice
        returned ← (λ s. chunk_loop (suc (length s.chunk_buffer)) s)
        (if returned then ok true else finish_slice))
        r

  sliced-finished : sliced ≡ finish_slice loop.request
  unfolding sliced
  sliced-finished =
      ap
        (λ q. elim q as (λ x. Result Request Bool) [
          | ok a s ↦
              elim (chunk_loop (suc (length s.chunk_buffer)) s) as (λ x. Result Request Bool) [
                | ok b t ↦ (if b then ok true else finish_slice) t
                | threw e t ↦ threw e t
              ]
          | threw e s ↦ threw e s
        ])
        take_slice-filled
      ∙ ap
          (λ q. elim q as (λ x. Result Request Bool) [
            | ok b t ↦ (if b then ok true else finish_slice) t
            | threw e t ↦ threw e t
          ])
          loop.returns

  -- The slice of a request that is to be decoded: if the buffer, with the bytes of the body that the
  -- slice reads, holds the whole chunked coding of a body, and memory, kernel and limit serve, then
  -- processBodySlice returns true. The body is then the chunks' bytes behind those that were decoded
  -- before, to be read from its start, and the content-length header is its size.
  pub process_body_slice-IsDecodedBody :
      IsDecodedBody (contents r.decoded_body ++ joined cs) r (process_body_slice r)
  unfolding process_body_slice sliced filled
  process_body_slice-IsDecodedBody =
      subst
        (λ b.
          IsDecodedBody (contents r.decoded_body ++ joined cs) r (if b then ok true r else sliced))
        (sym going)
        (record {
          request = finished.request;
          returns = sliced-finished ∙ finished.returns;
          contents_are = finished.contents_are ∙ loop.bytes_are;
          readable = finished.readable;
          at_start = finished.at_start;
          headers_are =
              finished.headers_are
              ∙ ap (λ b. insert (codes "content-length") (show (length b)) loop.request.headers)
                  loop.bytes_are
              ∙ ap
                  (insert (codes "content-length")
                    (show (length (contents r.decoded_body ++ joined cs))))
                  loop.headers_is;
          state_is = finished.state_is ∙ loop.state_is;
        })
