-- ===== src/Request/Chunks/Ends.antt =====
-- The decoder ends on every buffer, valid coding or not.
use left_hook_roll.Request.Headers.{crlf}
use left_hook_roll.DataStore.Files.{append, add_size}
use left_hook_roll.DataStore.Ends.{Ends, append-Ends}
use left_hook_roll.DataStore.Kernel.{DataStore}
use left_hook_roll.Prelude.Result.{◌>>◌, Result, ok, threw, runtime_error}
use left_hook_roll.Prelude.{
  take, ◌+◌, Option, length-drop, ◌^◌, length, Bool, ℕ, zero, suc, ◌≡◌, ◌<◌, refl, true, false,
  none, some, arith,
}
use left_hook_roll.Request.Body.{
  out_of_range, malformed, incomplete, last_chunk, chunk, on_decoded, too_large, ChunkView,
  chunk_loop, chunk_size, next_chunk, sized_chunk,
}
use left_hook_roll.Request.State.{fail, Request}
use left_hook_roll.Text.{find_str, codes, Bytes}

-- A round that goes on leaves a shorter buffer.
abbrev Shorter : Bytes → ChunkView → Type 0
Shorter buffer (chunk bytes rest) = length rest < length buffer
Shorter buffer v = Unit

sized_chunk-Shorter :
    (buffer : Bytes) (line_end size : ℕ)
    → length buffer < 2 ^ 63
    → Shorter buffer (sized_chunk buffer line_end size)
unfolding sized_chunk
sized_chunk-Shorter buffer line_end size h =
    ground (arith, length-drop (add_size (add_size (line_end + 2) size) 2) buffer)

next_chunk-Shorter : (buffer : Bytes) → length buffer < 2 ^ 63 → Shorter buffer (next_chunk buffer)
unfolding next_chunk
next_chunk-Shorter buffer h = go (find_str crlf buffer)
  where
    go :
        (o : Option ℕ)
        → Shorter buffer (elim o [
          | none ↦ incomplete
          | some line_end ↦ sized_chunk buffer line_end (chunk_size (take line_end buffer))
        ])
    go none = tt
    go (some line_end) = sized_chunk-Shorter buffer line_end (chunk_size (take line_end buffer)) h

abbrev pub RequestEnds : Result Request Bool → Type 0
RequestEnds (ok a r) = Unit
RequestEnds (threw e r) = e ≡ runtime_error

-- A round that appended the bytes of a chunk.
RequestEnds-append :
    (fuel : ℕ) (rest : Bytes) (r : Request) (a : Result DataStore (Unit {0}))
    → Ends a
    → ((t : DataStore)
        → RequestEnds (chunk_loop fuel (record r { decoded_body = t; chunk_buffer = rest })))
    → RequestEnds
        (elim (elim a as (λ x. Result Request (Unit {0})) [
          | ok u t ↦ ok u (record r { decoded_body = t })
          | threw e t ↦ threw e (record r { decoded_body = t })
        ]) [
          | ok u s ↦ elim (too_large s) [
            | true ↦ ok true (fail s (codes "413"))
            | false ↦ chunk_loop fuel (record s { chunk_buffer = rest })
          ]
          | threw e s ↦ threw e s
        ])
RequestEnds-append fuel rest r (ok u t) h k = go (too_large (record r { decoded_body = t }))
  where
    go :
        (b : Bool)
        → RequestEnds (elim b [
          | true ↦ ok true (fail (record r { decoded_body = t }) (codes "413"))
          | false ↦ chunk_loop fuel (record r { decoded_body = t; chunk_buffer = rest })
        ])
    go true = tt
    go false = k t
RequestEnds-append fuel rest r (threw e t) h k = h

-- On every buffer of less than 2^63 bytes, well formed or not, whatever the sizes in it and
-- whatever the kernel replies, one more round than the buffer has bytes is enough: the loop returns
-- or breaks out, or throws a std::runtime_error or a std::out_of_range.
pub chunk_loop-RequestEnds :
    (fuel : ℕ) (r : Request)
    → length r.chunk_buffer < fuel
    → length r.chunk_buffer < 2 ^ 63
    → RequestEnds (chunk_loop fuel r)
unfolding chunk_loop
chunk_loop-RequestEnds zero r h small = absurd (omega arith)
chunk_loop-RequestEnds (suc fuel) r h small =
    go
      (λ bytes rest t less.
        chunk_loop-RequestEnds fuel (record r { decoded_body = t; chunk_buffer = rest })
          (omega arith) (omega arith))
      (next_chunk r.chunk_buffer) (next_chunk-Shorter r.chunk_buffer small)
  where
    go :
        ((bytes rest : Bytes) (t : DataStore)
          → length rest < length r.chunk_buffer
          → RequestEnds (chunk_loop fuel (record r { decoded_body = t; chunk_buffer = rest })))
        → (v : ChunkView) → Shorter r.chunk_buffer v
        → RequestEnds (elim v [
          | incomplete ↦ ok false r
          | out_of_range ↦ threw runtime_error r
          | malformed ↦ ok true (fail r (codes "400"))
          | last_chunk rest ↦ ok false (record r { chunk_buffer = rest; is_body_processed = true })
          | chunk bytes rest ↦
              (do
                on_decoded (append bytes)
                (λ s. elim (too_large s) [
                  | true ↦ ok true (fail s (codes "413"))
                  | false ↦ chunk_loop fuel (record s { chunk_buffer = rest })
                ]))
                r
        ])
    go ih ChunkView.incomplete l = tt
    go ih ChunkView.out_of_range l = refl
    go ih ChunkView.malformed l = tt
    go ih (ChunkView.last_chunk rest) l = tt
    go ih (ChunkView.chunk bytes rest) l =
        RequestEnds-append fuel rest r (append bytes r.decoded_body)
          (append-Ends bytes r.decoded_body) (λ t. ih bytes rest t l)
