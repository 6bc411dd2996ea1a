-- ===== src/Response/Send/InOrder.antt =====
-- `sendSlice` on an answer whose body is in memory: the order of the bytes on the socket.
use mathlib.Core.Path.{subst}
use left_hook_roll.DataStore.Files.{add_size}
use left_hook_roll.Prelude.Result.{ok, ◌>>=◌}
use left_hook_roll.Prelude.{
  length-drop, take-all, ◌==◌, length-take, ℕ, suc, ◌+◌, ◌-◌, ◌≤◌, ◌<◌, ◌≡◌, refl, Bool, true,
  false, none, some, ◌++◌, ltb, if◌then◌else◌, min, length, take, drop, arith, length-append, ap,
  sym, ◌∙◌,
}
use left_hook_roll.Response.Send.Calls.{Stays, not_clear, is_serving, after_sigpipe, after_send}
use left_hook_roll.Response.Send.{
  send_bytes, progress, send_slice, send_in, send_header, end_header_slice, after_header,
  send_body_static, sub_size,
}
use left_hook_roll.Response.State.{
  Response, ResponseState, Socket, sending_res_head, sending_body_static, sending_body_chunked,
}
use left_hook_roll.Text.{Bytes}
use left_hook_roll.Response.Send.Answer.{
  answer, InPhase, Sending, Sliced, take-drop-append, in_order_step, Sliced-from,
}
use left_hook_roll.Response.Send.Body.{send_body_static-Sliced}

-- A slice of the header block.
module _ (before : Bytes) (r : Response) (h : Sending before r)
    (head : r.response_state ≡ sending_res_head) where
  short : r.total_bytes_sent < length r.header_buffer
  short = subst (λ st. InPhase st r) head h.phase

  whole : length (answer r) ≡ length r.header_buffer + length r.response_data_store.data_buffer
  whole = length-append r.header_buffer r.response_data_store.data_buffer

  stopped_head :
      (s : Socket)
      → is_serving r ≡ false
      → Sliced before r (end_header_slice none (record r { socket = s }))
  unfolding end_header_slice
  stopped_head s f = (
    refl,
    (λ q. absurd (cc q)),
    ((λ v. absurd (cc (v, f))), (λ v. absurd (cc (v, not_clear r f)))),
    (λ v. absurd (cc (v, f))),
  )

  module _ (s : Socket) (k : ℕ) (le : r.total_bytes_sent + suc k ≤ length r.header_buffer)
      (out : s.output ≡ before ++ take (r.total_bytes_sent + suc k) (answer r))
      (keeps : Stays r s) where
    advanced : ResponseState → Response
    advanced st = record r {
      socket = s;
      total_bytes_sent = add_size r.total_bytes_sent (suc k);
      response_state = st;
    }

    total_is : add_size r.total_bytes_sent (suc k) ≡ r.total_bytes_sent + suc k
    total_is = omega (arith, le, whole, h.fits)

    advanced-Sending :
        (st : ResponseState) → InPhase st (advanced st) → Sending before (advanced st)
    unfolding advanced
    advanced-Sending st p = record {
      in_ram = h.in_ram;
      no_file = h.no_file;
      size_ok = h.size_ok;
      fits = h.fits;
      buffer_ok = h.buffer_ok;
      in_order = rw total_is out;
      phase = p;
    }

    empty_body :
        length r.header_buffer ≤ r.total_bytes_sent + suc k
        → (b : Bool) → (r.response_data_store.current_size == 0) ≡ b
        → Sliced before r (
            if b
            then ok true (advanced r.response_state)
            else send_body_static (advanced sending_body_static))
    unfolding advanced
    empty_body past true e = (
      refl,
      (λ q. absurd (cc q)),
      keeps,
      (λ v w.
          out
          ∙ ap (λ x. before ++ x)
              (take-all (r.total_bytes_sent + suc k) (answer r)
                (ground (arith, whole, h.size_ok, e)))),
    )
    empty_body past false e =
        Sliced-from before r (advanced sending_body_static)
          (send_body_static (advanced sending_body_static)) refl (omega (arith, total_is)) keeps
          (send_body_static-Sliced before (advanced sending_body_static)
            (advanced-Sending sending_body_static
              (omega (arith, total_is), omega (arith, total_is, le, whole)))
            refl)

    moved_head : Sliced before r (end_header_slice (some (suc k)) (record r { socket = s }))
    unfolding end_header_slice after_header advanced
    moved_head = go (ltb (add_size r.total_bytes_sent (suc k)) (length r.header_buffer)) refl
      where
        go :
            (b : Bool)
            → ltb (add_size r.total_bytes_sent (suc k)) (length r.header_buffer) ≡ b
            → Sliced before r (
                if b
                then ok false (advanced r.response_state)
                else after_header r.file_fd (advanced r.response_state))
        go true e = (
          refl,
          (λ q. (
            subst (λ st. Sending before (advanced st)) (sym head)
                (advanced-Sending sending_res_head (ground (arith, e))),
            omega (arith, total_is),
          )),
          keeps,
          (λ v w. absurd (cc w)),
        )
        go false e =
            subst (λ f. Sliced before r (after_header f (advanced r.response_state)))
              (sym h.no_file)
              (empty_body (ground (arith, e, total_is)) (r.response_data_store.current_size == 0)
                refl)

  send_header-Sliced : Sliced before r (send_header r)
  unfolding send_header
  send_header-Sliced =
      after_sigpipe (Sliced before r)
        (do
          sent ← (λ r.
              send_bytes
                (take
                  (min (sub_size (length r.header_buffer) r.total_bytes_sent) r.write_buffer_size)
                  (drop r.total_bytes_sent r.header_buffer))
                r)
          end_header_slice (progress sent))
        r (λ s f. (refl, f))
        (after_send (Sliced before r) end_header_slice
          (take n (drop r.total_bytes_sent r.header_buffer)) r (λ s f. (refl, f))
          (λ s o f. stopped_head s f) moved some_bytes)
    where
      n : ℕ
      n = min (sub_size (length r.header_buffer) r.total_bytes_sent) r.write_buffer_size

      left :
          sub_size (length r.header_buffer) r.total_bytes_sent
          ≡ length r.header_buffer - r.total_bytes_sent
      left = omega (arith, short, whole, h.fits)

      some_bytes : 0 < length (take n (drop r.total_bytes_sent r.header_buffer))
      some_bytes = omega (
        arith,
        left,
        short,
        h.buffer_ok,
        length-take n (drop r.total_bytes_sent r.header_buffer),
        length-drop r.total_bytes_sent r.header_buffer,
      )

      moved :
          (s : Socket) (k : ℕ)
          → s.output
            ≡ r.socket.output ++ take (suc k) (take n (drop r.total_bytes_sent r.header_buffer))
          → suc k ≤ length (take n (drop r.total_bytes_sent r.header_buffer))
          → Stays r s
          → Sliced before r (end_header_slice (some (suc k)) (record r { socket = s }))
      moved s k o le keeps =
          let same : take n (drop r.total_bytes_sent (answer r))
              ≡ take n (drop r.total_bytes_sent r.header_buffer) =
            take-drop-append n r.total_bytes_sent r.header_buffer r.response_data_store.data_buffer
              (omega (arith, left, short)) in
          moved_head s k
            (omega (
              arith,
              le,
              length-take n (drop r.total_bytes_sent r.header_buffer),
              length-drop r.total_bytes_sent r.header_buffer,
              short,
            ))
            (in_order_step before s.output r.socket.output (answer r) r.total_bytes_sent n k
              h.in_order (o ∙ ap (λ x. r.socket.output ++ take (suc k) x) (sym same))
              (omega (arith, le, ap length same)))
            keeps

-- Each slice of an answer whose body is in memory sends the next bytes of the answer, header block
-- first, in their order and none twice, whatever the socket replies. A slice that returns false has
-- sent a byte at least and leaves the answer in the same order of sending; as long as the socket
-- takes bytes, a slice that returns true has sent the whole answer. What it throws is the
-- ClientException of a SIGPIPE, and this only if one was pending or the socket does not take bytes. The answer is taken to fit 64 bits.
pub send_slice-Sliced :
    (before : Bytes) (r : Response) → Sending before r → Sliced before r (send_slice r)
unfolding send_slice send_in
send_slice-Sliced before r h = go r.response_state refl
  where
    go : (st : ResponseState) → r.response_state ≡ st → Sliced before r (send_in st r)
    go sending_res_head e = send_header-Sliced before r h e
    go sending_body_static e = send_body_static-Sliced before r h e
    go sending_body_chunked e = absurd (subst (λ st. InPhase st r) e h.phase)
