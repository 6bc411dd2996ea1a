-- ===== src/Connection/Delivery.antt =====
-- The sending of a whole answer, over the events at which the client's socket takes bytes.
use left_hook_roll.Response.Send.InOrder.{send_slice-Sliced}
use left_hook_roll.Response.Send.{send_slice}
use mathlib.Core.Path.{subst}
use left_hook_roll.Response.Send.Calls.{is_clear}
use left_hook_roll.Response.Send.Answer.{Sliced, InPhase, answer, Sending}
use left_hook_roll.Response.State.{
  sending_body_chunked, sending_body_static, sending_res_head, ResponseState, Response, Site,
}
use left_hook_roll.Text.{Bytes}
use left_hook_roll.Connection.Processing.{write_when, handle_write}
use left_hook_roll.Connection.{
  set_state, Bool, finished, writing, ok, threw, M, update_activity_timer, Site, Response,
  Connection,
}
use left_hook_roll.Prelude.Result.{ok, M, Result, ◌>>◌}
use left_hook_roll.Prelude.{
  false, sym, suc, if◌then◌else◌, length-append, Bool, arith, ◌+◌, ◌∙◌, ◌<◌, true, ap, [], length,
  ◌++◌, ◌∷◌, ◌≤◌, ◌≡◌, List, refl,
}

-- handleWrite at one event after another, each at a time of its own.
unfoldable pub write_events : List Site → M Connection (Unit {0})
write_events [] = ok tt
write_events (site ∷ sites) = do handle_write site; write_events sites

abbrev response_of : Connection → Response
response_of c = c.exchange.response

-- The whole of `a` has been sent behind `before`, and the connection is at its end.
abbrev pub Delivered : Bytes → Bytes → Result Connection (Unit {0}) → Type 0
Delivered before a (threw e d) = ⊥
Delivered before a (ok u d) =
    (d.state ≡ finished) × (d.exchange.response.socket.output ≡ before ++ a)

-- At its end, a connection writes no more.
write_events-finished :
    (sites : List Site) (c : Connection) → c.state ≡ finished → write_events sites c ≡ ok tt c
unfolding write_events handle_write
write_events-finished [] c e = refl
write_events-finished (site ∷ sites) c e =
    ap
      (λ st. elim (write_when site st c) as (λ x. Result Connection (Unit {0})) [
        | ok a t ↦ write_events sites t
        | threw e t ↦ threw e t
      ])
      e
    ∙ write_events-finished sites c e

-- No more is sent than the answer.
sent-le-answer :
    (before : Bytes) (r : Response) → Sending before r → r.total_bytes_sent ≤ length (answer r)
sent-le-answer before r h = go r.response_state h.phase
  where
    go : (st : ResponseState) → InPhase st r → r.total_bytes_sent ≤ length (answer r)
    go sending_res_head p =
        omega (arith, length-append r.header_buffer r.response_data_store.data_buffer)
    go sending_body_static p = p.1
    go sending_body_chunked p = elim p [ ]

module _ (before : Bytes) (site : Site) (sites : List Site) (c : Connection)
    (rest : (d : Connection)
      → d.state ≡ writing
      → Sending before (response_of d)
      → is_clear (response_of d) ≡ true
      → length (answer (response_of d)) < (response_of d).total_bytes_sent + length sites
      → Delivered before (answer (response_of d)) (write_events sites d)) where
  -- The connection behind the slice.
  behind : Response → Connection
  behind t = record c { last_activity = site.time; exchange = record c.exchange { response = t } }

  after_slice : Result Response Bool → Result Connection (Unit {0})
  after_slice x =
      elim (elim (elim x as (λ x. Result Connection Bool) [
        | ok sent t ↦ ok sent (behind t)
        | threw e t ↦ threw e (behind t)
      ])
          as (λ x. Result Connection (Unit {0})) [
            | ok sent d ↦ (if sent then set_state finished else ok tt) d
            | threw e d ↦ threw e d
          ])
        as (λ x. Result Connection (Unit {0})) [
          | ok a d ↦ write_events sites d
          | threw e d ↦ threw e d
        ]

  Delivered-after :
      (x : Result Response Bool)
      → c.state ≡ writing
      → Sliced before (response_of c) x
      → is_clear (response_of c) ≡ true
      → length (answer (response_of c)) < (response_of c).total_bytes_sent + suc (length sites)
      → Delivered before (answer (response_of c)) (after_slice x)
  unfolding after_slice behind
  Delivered-after (threw e t) w h v n = absurd (cc (v, h.1))
  Delivered-after (ok true t) w h v n =
      subst (Delivered before (answer (response_of c)))
        (sym (write_events-finished sites (record (behind t) { state = finished }) refl))
        (refl, h.3 (ground (arith, v)) refl)
  Delivered-after (ok false t) w h v n =
      let s = h.1 refl in
      subst (λ a. Delivered before a (write_events sites (behind t))) h.0
        (rest (behind t) w s.0 (h.2.1 v) (omega (arith, s.1, n, ap (length {0}) h.0)))

-- While its socket takes a byte at least at each event, and no SIGPIPE is pending, an answer with its
-- body in memory is sent in full: handleWrite throws nothing, the bytes are sent header block first, in
-- their order and none twice, and the connection comes to FINISHED, within one event more than the answer
-- has bytes that are not yet sent. The answer is taken to fit 64 bits.
pub write_events-Delivered :
    (before : Bytes) (sites : List Site) (c : Connection)
    → c.state ≡ writing
    → Sending before c.exchange.response
    → is_clear c.exchange.response ≡ true
    → length (answer c.exchange.response) < c.exchange.response.total_bytes_sent + length sites
    → Delivered before (answer c.exchange.response) (write_events sites c)
unfolding write_events handle_write update_activity_timer after_slice behind
write_events-Delivered before [] c w h v n =
    absurd (omega (arith, sent-le-answer before c.exchange.response h))
write_events-Delivered before (site ∷ sites) c w h v n =
    subst
      (λ st.
        Delivered before (answer c.exchange.response)
          (elim (write_when site st c) as (λ x. Result Connection (Unit {0})) [
            | ok a t ↦ write_events sites t
            | threw e t ↦ threw e t
          ]))
      (sym w)
      (Delivered-after before site sites c (write_events-Delivered before sites)
        (send_slice c.exchange.response) w (send_slice-Sliced before c.exchange.response h) v n)
