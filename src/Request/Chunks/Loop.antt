-- ===== src/Request/Chunks/Loop.antt =====
-- The decoder over a whole body, and its termination on every buffer.
use mathlib.Core.Path.{subst}
use left_hook_roll.DataStore.Files.{append}
use left_hook_roll.DataStore.Kernel.{DataStore}
use left_hook_roll.DataStore.Contents.{IsStored, contents}
use left_hook_roll.DataStore.Served.{Grown, append-Grown}
use left_hook_roll.Prelude.Result.{Result, ok}
use left_hook_roll.Prelude.{
  append-nil, sym, append_assoc, ap, ◌∙◌, length-append, ◌^◌, ◌≤◌, ◌+◌, ◌⊎◌, ◌++◌, Bool, length,
  List, ℕ, zero, suc, ◌≡◌, ◌<◌, refl, [], ◌∷◌, true, false, arith,
}
use left_hook_roll.Request.Body.{chunk, too_large, last_chunk, chunk_loop, chunk_size, next_chunk}
use left_hook_roll.Request.Chunks.View.{sized, next_chunk-chunk, next_chunk-last}
use left_hook_roll.Request.Headers.{crlf}
use left_hook_roll.Request.State.{Request}
use left_hook_roll.Text.Search.{Free}
use left_hook_roll.Text.{Bytes}

-- A chunk: a size line, which may carry an extension, and the bytes that it announces.
pub record Chunk : Type 0 where
  pub line : Bytes
  pub bytes : Bytes

pub record IsChunk (c : Chunk) : Type 0 where
  pub one_line : Free b'\r' c.line
  pub announced : chunk_size c.line ≡ length c.bytes
  pub some_bytes : 0 < length c.bytes

abbrev pub AllChunks : List Chunk → Type 0
AllChunks [] = Unit
AllChunks (c ∷ cs) = IsChunk c × AllChunks cs

-- The chunked coding of a body, with `last` as the line of the last chunk and `rest` behind it.
abbrev pub encode : List Chunk → Bytes → Bytes → Bytes
encode [] last rest = sized last (crlf ++ rest)
encode (c ∷ cs) last rest = sized c.line (c.bytes ++ (crlf ++ encode cs last rest))

abbrev pub joined : List Chunk → Bytes
joined [] = []
joined (c ∷ cs) = c.bytes ++ joined cs

-- The decoder at the coding of a body.
pub record Decodes (cs : List Chunk) (last rest : Bytes) (r : Request) : Type 0 where
  pub buffer : r.chunk_buffer ≡ encode cs last rest
  pub chunks : AllChunks cs
  pub last_line : Free b'\r' last
  pub last_size : chunk_size last ≡ 0
  pub stored : IsStored r.decoded_body
  pub serves : r.decoded_body.replies ≡ []
  pub allowed :
      (r.max_body_size ≡ 0)
      ⊎ (length (contents r.decoded_body) + length (joined cs) ≤ r.max_body_size)
  pub fits : length (contents r.decoded_body) + length (encode cs last rest) < 2 ^ 64

-- The loop has broken out with the body decoded and `rest` left.
pub record Decoded (cs : List Chunk) (rest : Bytes) (r : Request) (result : Result Request Bool)
    : Type 0 where
  pub request : Request
  pub returns : result ≡ ok false request
  pub processed : request.is_body_processed ≡ true
  pub left : request.chunk_buffer ≡ rest
  pub bytes_are : contents request.decoded_body ≡ contents r.decoded_body ++ joined cs
  pub stored : IsStored request.decoded_body
  pub state_is : request.req_state ≡ r.req_state
  pub body_is : request.body ≡ r.body
  pub headers_is : request.headers ≡ r.headers

loop_last :
    (fuel : ℕ) (r : Request) (rest : Bytes)
    → next_chunk r.chunk_buffer ≡ last_chunk rest
    → chunk_loop (suc fuel) r
      ≡ ok false (record r { chunk_buffer = rest; is_body_processed = true })
unfolding chunk_loop
loop_last fuel r rest e = rw (e, chunk_loop)

abbrev advanced : Request → DataStore → Bytes → Request
advanced r t rest = record r { decoded_body = t; chunk_buffer = rest }

loop_chunk :
    (fuel : ℕ) (r : Request) (bytes rest : Bytes) (t : DataStore)
    → next_chunk r.chunk_buffer ≡ chunk bytes rest
    → append bytes r.decoded_body ≡ ok tt t
    → too_large (record r { decoded_body = t }) ≡ false
    → chunk_loop (suc fuel) r ≡ chunk_loop fuel (advanced r t rest)
unfolding chunk_loop
loop_chunk fuel r bytes rest t e a small = ground arith

-- The state behind the first chunk is again one at the coding of a body.
module _ (c : Chunk) (cs : List Chunk) (last rest : Bytes) (r : Request)
    (d : Decodes (c ∷ cs) last rest r) where
  abbrev tail : Bytes
  tail = encode cs last rest

  length-encode :
      length (encode (c ∷ cs) last rest) ≡ length c.line + length c.bytes + 4 + length tail
  length-encode = omega (
    arith,
    length-append c.line (crlf ++ (c.bytes ++ (crlf ++ tail))),
    length-append c.bytes (crlf ++ tail),
  )

  grown : Grown c.bytes r.decoded_body
  grown =
      append-Grown c.bytes r.decoded_body d.stored d.serves (omega (arith, length-encode, d.fits))

  view : next_chunk r.chunk_buffer ≡ chunk c.bytes tail
  view =
      ap next_chunk d.buffer
      ∙ next_chunk-chunk c.line c.bytes tail d.chunks.0.one_line d.chunks.0.announced
          d.chunks.0.some_bytes (omega (arith, length-encode, d.fits))

  abbrev later_request : Request
  later_request = advanced r grown.store tail

  length-contents :
      length (contents grown.store) ≡ length (contents r.decoded_body) + length c.bytes
  length-contents =
      omega (arith, ap length grown.contents_are, length-append (contents r.decoded_body) c.bytes)

  not_large : too_large (record r { decoded_body = grown.store }) ≡ false
  not_large =
      ground
        (arith, d.allowed, grown.stored.size_ok, length-contents, length-append c.bytes (joined cs))

  later-Decodes : Decodes cs last rest later_request
  later-Decodes = record {
    buffer = refl;
    chunks = d.chunks.1;
    last_line = d.last_line;
    last_size = d.last_size;
    stored = grown.stored;
    serves = grown.serves;
    allowed = ground (arith, d.allowed, length-contents, length-append c.bytes (joined cs));
    fits = omega (arith, length-encode, length-contents, d.fits);
  }

  Decoded-cons :
      (result : Result Request Bool)
      → Decoded cs rest later_request result
      → Decoded (c ∷ cs) rest r result
  Decoded-cons result h = record {
    request = h.request;
    returns = h.returns;
    processed = h.processed;
    left = h.left;
    bytes_are =
        h.bytes_are
        ∙ ap (λ t. t ++ joined cs) grown.contents_are
        ∙ append_assoc (contents r.decoded_body) c.bytes (joined cs);
    stored = h.stored;
    state_is = h.state_is;
    body_is = h.body_is;
    headers_is = h.headers_is;
  }

-- The decoder, started in front of the chunked coding of a body: with fuel for the chunks, memory
-- and kernel that serve, and a size within the limit, the loop breaks out with exactly the chunks'
-- bytes added to the decoded body, the body marked as processed, what stands behind the coding left
-- in the buffer, and the state, the headers and the received body of the request unchanged.
pub chunk_loop-Decoded :
    (fuel : ℕ) (cs : List Chunk) (last rest : Bytes) (r : Request)
    → length cs < fuel
    → Decodes cs last rest r
    → Decoded cs rest r (chunk_loop fuel r)
chunk_loop-Decoded zero cs last rest r h d = absurd (omega arith)
chunk_loop-Decoded (suc fuel) [] last rest r h d = record {
  request = record r { chunk_buffer = rest; is_body_processed = true };
  returns = loop_last fuel r rest (
      ap next_chunk d.buffer
      ∙ next_chunk-last last rest d.last_line d.last_size
          (omega (arith, d.fits, length-append last (crlf ++ (crlf ++ rest)))));
  processed = refl;
  left = refl;
  bytes_are = sym (append-nil (contents r.decoded_body));
  stored = d.stored;
  state_is = refl;
  body_is = refl;
  headers_is = refl;
}
chunk_loop-Decoded (suc fuel) (c ∷ cs) last rest r h d =
    let g = grown c cs last rest r d in
    subst (Decoded (c ∷ cs) rest r)
      (sym (
        loop_chunk fuel r c.bytes (encode cs last rest) g.store (view c cs last rest r d) g.returns
          (not_large c cs last rest r d)))
      (Decoded-cons c cs last rest r d _ (
        chunk_loop-Decoded fuel cs last rest (later_request c cs last rest r d) (omega arith)
          (later-Decodes c cs last rest r d)))
