-- ===== src/Request/Chunks/View.antt =====
-- What the decoder finds at the front of the buffer.
use left_hook_roll.DataStore.Files.{add_size}
use left_hook_roll.Prelude.{
  take-all, ◌-◌, ap, ◌∙◌, ◌==◌, drop-add, sym, take, drop-length-append, if◌then◌else◌,
  take-length-append, length-append, ◌^◌, ◌+◌, ◌++◌, length, drop, ℕ, ◌≡◌, ◌<◌, [], ◌∷◌, true,
  arith,
}
use left_hook_roll.Request.Body.{last_chunk, chunk, sized_chunk, next_chunk, chunk_size}
use left_hook_roll.Request.Headers.{crlf}
use left_hook_roll.Text.Search.{Free, find_str-append}
use left_hook_roll.Text.{equal, Bytes}

-- A size line and what stands behind its CRLF.
abbrev pub sized : Bytes → Bytes → Bytes
sized line rest = line ++ (crlf ++ rest)

drop-line : (line rest : Bytes) → drop (length line + 2) (sized line rest) ≡ rest
drop-line line rest =
    sym (drop-add (length line) 2 (sized line rest)) ∙ rw (drop-length-append line (crlf ++ rest))

next_chunk-sized :
    (line rest : Bytes)
    → Free b'\r' line
    → next_chunk (sized line rest) ≡ sized_chunk (sized line rest) (length line) (chunk_size line)
unfolding next_chunk
next_chunk-sized line rest h =
    rw (find_str-append b'\r' (b'\n' ∷ []) line rest h, next_chunk)
      (rw (take-length-append line (crlf ++ rest)))

length-sized : (line rest : Bytes) → length (sized line rest) ≡ length line + 2 + length rest
length-sized line rest = omega (arith, length-append line (crlf ++ rest))

take-chunk : (bytes rest : Bytes) (n : ℕ) → n ≡ length bytes → take n (bytes ++ rest) ≡ bytes
take-chunk bytes rest n e = rw e (take-length-append bytes rest)

drop-chunk : (bytes rest : Bytes) (n : ℕ) → n ≡ length bytes → drop n (bytes ++ rest) ≡ rest
drop-chunk bytes rest n e = rw e (drop-length-append bytes rest)

module _ (line bytes more : Bytes) (n : ℕ) (z : n ≡ length bytes)
    (small : length line + length bytes + 4 < 2 ^ 64) where
  buffer : Bytes
  buffer = sized line (bytes ++ (crlf ++ more))

  data_end-is : add_size (length line + 2) n ≡ length line + 2 + n
  data_end-is = omega arith

  needed-is : add_size (length line + 2 + n) 2 ≡ length line + 2 + n + 2
  needed-is = omega arith

  length-buffer : length buffer ≡ length line + 2 + n + 2 + length more
  unfolding buffer
  length-buffer =
      omega (arith, length-sized line (bytes ++ (crlf ++ more)), length-append bytes (crlf ++ more))

  drop-data : drop (length line + 2 + n) buffer ≡ crlf ++ more
  unfolding buffer
  drop-data =
      sym (drop-add (length line + 2) n buffer)
      ∙ ap (drop n) (drop-line line (bytes ++ (crlf ++ more)))
      ∙ drop-chunk bytes (crlf ++ more) n z

  drop-needed : drop (length line + 2 + n + 2) buffer ≡ more
  drop-needed = sym (drop-add (length line + 2 + n) 2 buffer) ∙ ap (drop 2) drop-data

  take-data : take n (drop (length line + 2) buffer) ≡ bytes
  unfolding buffer
  take-data = rw (drop-line line (bytes ++ (crlf ++ more))) (take-chunk bytes (crlf ++ more) n z)

  closing : equal (take 2 (drop (length line + 2 + n) buffer)) crlf ≡ true
  unfolding equal
  closing = rw drop-data

  sized_chunk-whole :
      sized_chunk buffer (length line) n ≡ (if n == 0 then last_chunk more else chunk bytes more)
  unfolding sized_chunk
  sized_chunk-whole =
      ground (arith, data_end-is, needed-is, length-buffer, closing, drop-needed, take-data)

-- A chunk with data, and the last chunk.
pub next_chunk-chunk :
    (line bytes more : Bytes)
    → Free b'\r' line
    → chunk_size line ≡ length bytes
    → 0 < length bytes
    → length line + length bytes + 4 < 2 ^ 64
    → next_chunk (sized line (bytes ++ (crlf ++ more))) ≡ chunk bytes more
unfolding buffer
next_chunk-chunk line bytes more h z p small =
    next_chunk-sized line (bytes ++ (crlf ++ more)) h
    ∙ sized_chunk-whole line bytes more (chunk_size line) z small
    ∙ ground arith

pub next_chunk-last :
    (line more : Bytes)
    → Free b'\r' line
    → chunk_size line ≡ 0
    → length line + 4 < 2 ^ 64
    → next_chunk (sized line (crlf ++ more)) ≡ last_chunk more
unfolding buffer
next_chunk-last line more h z small =
    next_chunk-sized line (crlf ++ more) h
    ∙ sized_chunk-whole line [] more (chunk_size line) z (omega arith)
    ∙ ground arith

module _ (line rest : Bytes) (n : ℕ) (z : n ≡ 2 ^ 64 - 2)
    (small : length line + length rest + 2 < 2 ^ 64 - 2) where
  start-wraps : add_size (length line + 2) n ≡ length line
  start-wraps = omega arith

  needed-wraps : add_size (length line) 2 ≡ length line + 2
  needed-wraps = omega arith

  own_crlf : equal (take 2 (drop (length line) (sized line rest))) crlf ≡ true
  unfolding equal
  own_crlf = rw (drop-length-append line (crlf ++ rest))

  take-rest : take n (drop (length line + 2) (sized line rest)) ≡ rest
  take-rest = rw (drop-line line rest) (take-all n rest (omega arith))

  sized_chunk-wraps : sized_chunk (sized line rest) (length line) n ≡ chunk rest rest
  unfolding sized_chunk
  sized_chunk-wraps = ground (
    arith,
    start-wraps,
    needed-wraps,
    length-sized line rest,
    own_crlf,
    take-rest,
    drop-line line rest,
  )

-- A size line that stands for 2^64 - 2 is taken for a whole chunk, although the buffer holds less
-- than that: the position of the closing CRLF wraps around to the CRLF of the size line itself, all
-- that stands behind the line is delivered as the chunk's bytes, and it is also left in the buffer.
pub next_chunk_wraps :
    (line rest : Bytes)
    → Free b'\r' line
    → chunk_size line ≡ 2 ^ 64 - 2
    → length line + length rest + 2 < 2 ^ 64 - 2
    → next_chunk (sized line rest) ≡ chunk rest rest
next_chunk_wraps line rest h z small =
    next_chunk-sized line rest h ∙ sized_chunk-wraps line rest (chunk_size line) z small
