-- ===== src/Response/Send/Body.antt =====
-- `sendSlice` in the state of the body, with the body in memory.
use mathlib.Core.Path.{subst}
use left_hook_roll.DataStore.Files.{add_size, reset_read_position, reopen}
use left_hook_roll.DataStore.Kernel.{DataStore, ram}
use left_hook_roll.Prelude.Result.{Result, ok, threw, ◌>>=◌}
use left_hook_roll.Prelude.{
  length-drop, take-all, ◌==◌, length-take, ℕ, suc, ◌+◌, ◌-◌, ◌≤◌, ◌≡◌, refl, Bool, true, false,
  none, some, ◌++◌, if◌then◌else◌, min, length, take, drop, arith, length-append, ap, sym, ◌∙◌,
}
use left_hook_roll.Response.Send.Calls.{Stays, not_clear, is_serving, after_sigpipe, after_send}
use left_hook_roll.Response.Send.{
  send_bytes, progress, send_body_static, send_body_from, send_body_data_store, send_from,
  send_from_ram, end_ram_slice, sub_size,
}
use left_hook_roll.Response.State.{Response, Socket, sending_body_static}
use left_hook_roll.Text.{Bytes}
use left_hook_roll.Response.Send.Answer.{
  answer, InPhase, Sending, Sliced, drop-header, in_order_step, Sliced-from,
}

-- The RAM branch.
module _ (before : Bytes) (r : Response) (h : Sending before r)
    (body : r.response_state ≡ sending_body_static) where
  past : (length r.header_buffer ≤ r.total_bytes_sent) × (r.total_bytes_sent ≤ length (answer r))
  past = subst (λ st. InPhase st r) body h.phase

  offset : ℕ
  offset = r.total_bytes_sent - length r.header_buffer

  sizes : length (answer r) ≡ length r.header_buffer + length r.response_data_store.data_buffer
  sizes = length-append r.header_buffer r.response_data_store.data_buffer

  offset_is : sub_size r.total_bytes_sent (length r.header_buffer) ≡ offset
  unfolding offset
  offset_is = omega (arith, past, sizes, h.fits)

  remaining_is :
      sub_size r.response_data_store.current_size offset ≡ length (answer r) - r.total_bytes_sent
  unfolding offset
  remaining_is = omega (arith, past, sizes, h.fits, h.size_ok)

  rest_is : drop offset r.response_data_store.data_buffer ≡ drop r.total_bytes_sent (answer r)
  unfolding offset
  rest_is =
      let e : length r.header_buffer + (r.total_bytes_sent - length r.header_buffer)
          ≡ r.total_bytes_sent =
        omega (arith, past) in
      sym (
        drop-header (r.total_bytes_sent - length r.header_buffer) r.header_buffer
          r.response_data_store.data_buffer)
      ∙ ap (λ n. drop n (answer r)) e

  -- A send that goes on.
  moved_ram :
      (s : Socket) (k n : ℕ)
      → s.output ≡ r.socket.output ++ take (suc k) (take n (drop r.total_bytes_sent (answer r)))
      → suc k ≤ length (take n (drop r.total_bytes_sent (answer r)))
      → Stays r s
      → Sliced before r (end_ram_slice (some (suc k)) (record r { socket = s }))
  unfolding end_ram_slice
  moved_ram s k n o le keeps = (refl, (λ q. (sending, omega (arith, total))), keeps, complete)
    where
      bound : r.total_bytes_sent + suc k ≤ length (answer r)
      bound = omega (
        arith,
        length-take n (drop r.total_bytes_sent (answer r)),
        length-drop r.total_bytes_sent (answer r),
        le,
      )

      total : add_size r.total_bytes_sent (suc k) ≡ r.total_bytes_sent + suc k
      total = omega (arith, bound, h.fits)

      out : s.output ≡ before ++ take (r.total_bytes_sent + suc k) (answer r)
      out =
          in_order_step before s.output r.socket.output (answer r) r.total_bytes_sent n k h.in_order
            o le

      t : Response
      t = record r { socket = s; total_bytes_sent = add_size r.total_bytes_sent (suc k) }

      sending : Sending before t
      sending = record {
        in_ram = h.in_ram;
        no_file = h.no_file;
        size_ok = h.size_ok;
        fits = h.fits;
        buffer_ok = h.buffer_ok;
        in_order = rw total out;
        phase =
            subst (λ st. InPhase st t) (sym body)
              (omega (arith, total, past), omega (arith, total, bound));
      }

      complete :
          is_serving r ≡ true
          → (add_size r.total_bytes_sent (suc k)
              == add_size (length r.header_buffer) r.response_data_store.current_size)
            ≡ true
          → s.output ≡ before ++ answer r
      complete v d =
          let all : length (answer r) ≤ r.total_bytes_sent + suc k =
            ground (arith, total, sizes, h.size_ok, h.fits) in
          out ∙ ap (λ x. before ++ x) (take-all (r.total_bytes_sent + suc k) (answer r) all)

  stopped_ram :
      (s : Socket)
      → is_serving r ≡ false
      → Sliced before r (end_ram_slice none (record r { socket = s }))
  unfolding end_ram_slice
  stopped_ram s f = (
    refl,
    (λ q. absurd (cc q)),
    ((λ v. absurd (cc (v, f))), (λ v. absurd (cc (v, not_clear r f)))),
    (λ v. absurd (cc (v, f))),
  )

  send_from_ram-Sliced : Sliced before r (send_from_ram r)
  unfolding send_from_ram
  send_from_ram-Sliced =
      rw offset_is
        (rw remaining_is (rw rest_is (go (length (answer r) - r.total_bytes_sent == 0) refl)))
    where
      n : ℕ
      n = min (length (answer r) - r.total_bytes_sent) r.write_buffer_size

      go :
          (b : Bool)
          → (length (answer r) - r.total_bytes_sent == 0) ≡ b
          → Sliced before r (
              if b
              then ok true r
              else (do
                sent ← send_bytes (take n (drop r.total_bytes_sent (answer r)))
                end_ram_slice (progress sent))
                  r)
      go true e = (
        refl,
        (λ q. absurd (cc q)),
        ((λ v. v), (λ v. v)),
        (λ v w.
            h.in_order
            ∙ ap (λ x. before ++ x) (take-all r.total_bytes_sent (answer r) (ground (arith, e)))),
      )
      go false e =
          after_send (Sliced before r) end_ram_slice (take n (drop r.total_bytes_sent (answer r))) r
            (λ s f. (refl, f)) (λ s o f. stopped_ram s f)
            (λ s k o le keeps. moved_ram s k n o le keeps)
            (ground (
              arith,
              length-take n (drop r.total_bytes_sent (answer r)),
              length-drop r.total_bytes_sent (answer r),
              h.buffer_ok,
              e,
            ))

-- A slice of the body, which starts with the reading position reset.
rewound : Response → Response
rewound r = record r { response_data_store = record r.response_data_store { read_offset = 0 } }

reset_ram :
    (s : DataStore) → s.mode ≡ ram → reset_read_position s ≡ ok tt (record s { read_offset = 0 })
unfolding reset_read_position reopen
reset_ram s e = rw e

rewound-Sending :
    (before : Bytes) (r : Response)
    → Sending before r
    → r.response_state ≡ sending_body_static
    → Sending before (rewound r)
unfolding rewound
rewound-Sending before r h body = record {
  in_ram = h.in_ram;
  no_file = h.no_file;
  size_ok = h.size_ok;
  fits = h.fits;
  buffer_ok = h.buffer_ok;
  in_order = h.in_order;
  phase = subst (λ st. InPhase st (rewound r)) (sym body) (subst (λ st. InPhase st r) body h.phase);
}

module _ (before : Bytes) (r : Response) (h : Sending before r)
    (body : r.response_state ≡ sending_body_static) where
  store-Sliced : Sliced before r (send_body_data_store (rewound r))
  unfolding send_body_data_store rewound send_from
  store-Sliced =
      after_sigpipe (Sliced before r) (λ t. send_from t.response_data_store.mode t) (rewound r)
        (λ s f. (refl, f))
        (subst (λ md. Sliced before r (send_from md (rewound r))) (sym h.in_ram)
          (Sliced-from before r (rewound r) (send_from_ram (rewound r)) refl (omega arith)
            ((λ v. v), (λ v. v))
            (send_from_ram-Sliced before (rewound r) (rewound-Sending before r h body) body)))

  pub send_body_static-Sliced : Sliced before r (send_body_static r)
  unfolding send_body_static send_body_from rewound
  send_body_static-Sliced =
      subst (λ f. Sliced before r (send_body_from f r)) (sym h.no_file)
        (subst
          (λ q.
            Sliced before r
              (elim (elim q as (λ x. Result Response (Unit {0})) [
                | ok a s ↦ ok a (record r { response_data_store = s })
                | threw e s ↦ threw e (record r { response_data_store = s })
              ])
                as (λ x. Result Response Bool) [
                  | ok a t ↦ send_body_data_store t
                  | threw e t ↦ threw e t
                ]))
          (sym (reset_ram r.response_data_store h.in_ram)) store-Sliced)
