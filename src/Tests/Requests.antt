-- ===== src/Tests/Requests.antt =====
-- src/Request.cpp on concrete inputs.
use left_hook_roll.DataStore.Kernel.{DataStore, new_store}
use left_hook_roll.Methods.{get}
use left_hook_roll.Prelude.{drop, ◌+◌, length, ◌++◌, inr, ◌≡◌, refl, List, [], ◌∷◌, arith}
use left_hook_roll.Request.Body.{chunk, chunk_size, next_chunk, chunk_loop, process_body_slice}
use left_hook_roll.Request.Chunks.Ends.{RequestEnds, chunk_loop-RequestEnds}
use left_hook_roll.Request.Chunks.Loop.{
  Chunk, Decodes, Decoded, encode, chunk_loop-Decoded, joined as joined_chunks,
}
use left_hook_roll.Request.Chunks.Whole.{next_buffer, process_body_slice-IsDecodedBody}
use left_hook_roll.Request.Chunks.Finished.{IsDecodedBody}
use left_hook_roll.DataStore.Contents.{contents}
use left_hook_roll.DataStore.Readable.{IsReadable}
use left_hook_roll.Request.Chunks.View.{sized, next_chunk_wraps}
use left_hook_roll.Request.Line.{parse_request_line}
use left_hook_roll.Request.Lines.RequestLine.{
  asked, with_query, request_line, parse_request_line-asked,
}
use left_hook_roll.Request.Headers.{finish_headers, parse_headers}
use left_hook_roll.Request.Lines.Joined.{joined, header_lines, blank_line}
use left_hook_roll.Request.Lines.Section.{parse_headers-joined}
use left_hook_roll.Request.State.{Request, new_request}
use left_hook_roll.Text.{Bytes, codes, find, equal}
use left_hook_roll.Text.Numbers.{strtoul}
use left_hook_roll.Text.Trim.{trim_start}

abbrev empty_store : DataStore
empty_store = new_store 0 []

abbrev fresh : Request
fresh = new_request 100 empty_store empty_store

parse_request_line-asked_example :
    (parse_request_line
        (request_line get (with_query (codes "/a") (codes "x=1")) (codes "HTTP/1.1"))
        fresh
      ≡ asked fresh get (codes "/a") (codes "x=1") (codes "HTTP/1.1"))
    × (parse_request_line (request_line get (codes "/a") (codes "HTTP/1.1")) fresh
        ≡ asked fresh get (codes "/a") fresh.query (codes "HTTP/1.1"))
unfolding equal
parse_request_line-asked_example =
    parse_request_line-asked get (codes "/a") (codes "x=1") (codes "HTTP/1.1") fresh (λ e. cc) refl
      refl (ground arith) (ground arith) (ground arith)

abbrev chunks : List Chunk
chunks =
    record { line = codes "3;x=y"; bytes = codes "abc" }
    ∷ record { line = codes "2"; bytes = codes "de" }
    ∷ []

abbrev coded : Request
coded = record fresh { chunk_buffer = encode chunks (codes "0") (codes "rest") }

coded-Decodes : Decodes chunks (codes "0") (codes "rest") coded
unfolding new_request new_store chunk_size strtoul find trim_start
coded-Decodes = record {
  buffer = refl;
  chunks = (
    record { one_line = ground arith; announced = refl; some_bytes = omega arith },
    (record { one_line = ground arith; announced = refl; some_bytes = omega arith }, tt),
  );
  last_line = ground arith;
  last_size = refl;
  stored = record { size_ok = refl; shape_ok = (refl, refl) };
  serves = refl;
  allowed = inr (omega arith);
  fits = omega arith;
}

chunk_loop-Decoded_example : Decoded chunks (codes "rest") coded (chunk_loop 3 coded)
chunk_loop-Decoded_example =
    chunk_loop-Decoded 3 chunks (codes "0") (codes "rest") coded (omega arith) coded-Decodes

chunk_loop-RequestEnds_example : RequestEnds (chunk_loop 40 coded)
unfolding new_request
chunk_loop-RequestEnds_example = chunk_loop-RequestEnds 40 coded (omega arith) (omega arith)

next_chunk_wraps_example :
    next_chunk (sized (codes "fffffffffffffffe") (codes "abc")) ≡ chunk (codes "abc") (codes "abc")
unfolding chunk_size strtoul find trim_start
next_chunk_wraps_example =
    next_chunk_wraps (codes "fffffffffffffffe") (codes "abc") (ground arith) refl (omega arith)

abbrev first_line : Bytes
first_line = codes "GET /a HTTP/1.0"

abbrev more_lines : List Bytes
more_lines = codes "Host: x" ∷ codes "Content-Length: 2" ∷ []

parse_headers-joined_example :
    (parse_headers (joined first_line more_lines ++ (blank_line ++ codes "hi")) fresh ≡ (
      length (joined first_line more_lines) + 4,
      finish_headers
          (header_lines more_lines (parse_request_line first_line (record fresh { cookies = [] }))),
    ))
    × (drop
          (length (joined first_line more_lines) + 4)
          (joined first_line more_lines ++ (blank_line ++ codes "hi"))
        ≡ codes "hi")
parse_headers-joined_example =
    parse_headers-joined first_line more_lines (codes "hi") fresh (ground arith)
      (ground arith, (ground arith, tt))

-- A request whose body store holds the whole coding.
abbrev received : Request
received = record fresh {
  body = record empty_store {
    data_buffer = encode chunks (codes "0") (codes "rest");
    current_size = length (encode chunks (codes "0") (codes "rest"));
  };
}

received-Decodes :
    Decodes chunks
      (codes "0")
      (codes "rest")
      (record received { chunk_buffer = next_buffer received })
unfolding new_request new_store chunk_size strtoul find trim_start
received-Decodes = record {
  buffer = refl;
  chunks = coded-Decodes.chunks;
  last_line = coded-Decodes.last_line;
  last_size = coded-Decodes.last_size;
  stored = record { size_ok = refl; shape_ok = (refl, refl) };
  serves = refl;
  allowed = inr (omega arith);
  fits = omega arith;
}

received-IsReadable : IsReadable received.body
unfolding new_request new_store
received-IsReadable = record {
  stored = record { size_ok = refl; shape_ok = (refl, refl) };
  placed = tt;
  within = omega arith;
  serves = refl;
}

process_body_slice-IsDecodedBody_example :
    IsDecodedBody
      (contents received.decoded_body ++ joined_chunks chunks)
      received
      (process_body_slice received)
unfolding new_request new_store
process_body_slice-IsDecodedBody_example =
    process_body_slice-IsDecodedBody chunks (codes "0") (codes "rest") received refl
      received-IsReadable received-Decodes
