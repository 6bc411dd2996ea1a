-- ===== src/Request/Body.antt =====
-- src/Request.cpp: `processBodySlice` and `isChunkedDone`.
use left_hook_roll.DataStore.Copies.{assign}
use left_hook_roll.DataStore.Files.{Action, add_size, append, read, reset_read_position}
use left_hook_roll.Dict.{insert}
use left_hook_roll.Prelude.Int.{is_negative}
use left_hook_roll.Prelude.Result.{M, ok, threw, runtime_error, out_of_fuel, ◌>>=◌, ◌>>◌}
use left_hook_roll.Prelude.{
  ℕ, zero, suc, ◌+◌, Bool, true, false, not, ◌&&◌, ◌||◌, none, some, [], ◌++◌, ◌==◌, ltb,
  if◌then◌else◌, take, drop, length,
}
use left_hook_roll.Request.Headers.{crlf}
use left_hook_roll.Request.State.{Request, fail, is_error}
use left_hook_roll.Text.Numbers.{show, strtoul}
use left_hook_roll.Text.{Bytes, codes, equal, find, find_str}

-- A method of the body's store, and of the decoded body's.
abbrev pub on_body : {A : Type 0} → Action A → M Request A
on_body m r = elim (m r.body) [
  | ok a s ↦ ok a (record r { body = s })
  | threw e s ↦ threw e (record r { body = s })
]

abbrev pub on_decoded : {A : Type 0} → Action A → M Request A
on_decoded m r = elim (m r.decoded_body) [
  | ok a s ↦ ok a (record r { decoded_body = s })
  | threw e s ↦ threw e (record r { decoded_body = s })
]

-- The size line of a chunk, without its extension.
unfoldable pub chunk_size : Bytes → ℕ
chunk_size line = elim (find b';' line) [
  | none ↦ strtoul line
  | some semi ↦ strtoul (take semi line)
]

-- _maxBodySize > 0 && _decodedBody.getSize() > _maxBodySize
abbrev pub too_large : Request → Bool
too_large r = ltb 0 r.max_body_size && ltb r.max_body_size r.decoded_body.current_size

-- What a round of the loop of processBodySlice finds at the front of the buffer: no whole chunk; a
-- place of the closing CRLF that lies outside the buffer, where `substr` throws; no CRLF there; the
-- last chunk; or the bytes of a chunk. The last two come with the buffer that is left.
pub data ChunkView : Type 0 where
  incomplete : ChunkView
  out_of_range : ChunkView
  malformed : ChunkView
  last_chunk : Bytes → ChunkView
  chunk : Bytes → Bytes → ChunkView

-- The size line ends at `line_end`. The sums are those of size_t.
unfoldable pub sized_chunk : Bytes → ℕ → ℕ → ChunkView
sized_chunk buffer line_end size =
    let data_start = line_end + 2 in
    let data_end = add_size data_start size in
    let needed = add_size data_end 2 in
    if ltb (length buffer) needed
    then incomplete
    else if ltb (length buffer) data_end
    then out_of_range
    else if not (equal (take 2 (drop data_end buffer)) crlf)
    then malformed
    else if size == 0
    then last_chunk (drop needed buffer)
    else chunk (take size (drop data_start buffer)) (drop needed buffer)

unfoldable pub next_chunk : Bytes → ChunkView
next_chunk buffer = elim (find_str crlf buffer) [
  | none ↦ incomplete
  | some line_end ↦ sized_chunk buffer line_end (chunk_size (take line_end buffer))
]

-- The loop of processBodySlice. The answer says whether the method returns from the loop; the fuel
-- is one more than the length of the buffer, since a round that goes on erases two bytes at least.
unfoldable pub chunk_loop : ℕ → M Request Bool
chunk_loop zero r = threw out_of_fuel r
chunk_loop (suc fuel) r = elim (next_chunk r.chunk_buffer) [
  | incomplete ↦ ok false r
  | out_of_range ↦ threw runtime_error r
  | malformed ↦ ok true (fail r (codes "400"))
  | last_chunk rest ↦ ok false (record r { chunk_buffer = rest; is_body_processed = true })
  | chunk bytes rest ↦
      (do
        on_decoded (append bytes)
        (λ s. elim (too_large s) [
          | true ↦ ok true (fail s (codes "413"))
          | false ↦ chunk_loop fuel (record s { chunk_buffer = rest })
        ]))
        r
]

-- What follows the loop.
unfoldable pub finish_slice : M Request Bool
finish_slice r =
    if not r.is_body_processed
    then ok false r
    else (do
      on_body (assign r.decoded_body)
      (λ s. ok tt (record s { chunk_buffer = [] }))
      on_body reset_read_position
      (λ s. ok true (record s {
        headers = insert (codes "content-length") (show s.body.current_size) s.headers;
      })))
        r

-- The bytes of the body that the slice reads.
unfoldable pub take_slice : M Request (Unit {0})
take_slice = do
  bytes ← on_body (read 8192)
  (λ r. ok tt (record r {
    total_bytes_read = add_size r.total_bytes_read (length bytes);
    chunk_buffer = r.chunk_buffer ++ bytes;
  }))

unfoldable pub process_body_slice : M Request Bool
unfolding take_slice chunk_loop finish_slice next_chunk sized_chunk chunk_size find_str equal find
process_body_slice r =
    if not (is_negative r.content_length) || (r.is_body_processed || is_error r.req_state)
    then ok true r
    else (do
      take_slice
      returned ← (λ s. chunk_loop (suc (length s.chunk_buffer)) s)
      (if returned then ok true else finish_slice))
        r

unfoldable pub is_chunked_done : Bytes → Bool
is_chunked_done bytes = elim (find_str (codes "0\r\n\r\n") bytes) [ none ↦ false | some i ↦ true ]
