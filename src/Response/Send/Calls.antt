-- ===== src/Response/Send/Calls.antt =====
-- One send(2), and the test of g_sigpipe round it.
use left_hook_roll.Prelude.Result.{Result, M, ok, threw, client_exception, ◌>>=◌, ◌>>◌}
use left_hook_roll.Prelude.{
  not, take-min, take-all, sym, append-nil, ◌∙◌, ap, ℕ, zero, suc, ◌≤◌, ◌<◌, ◌≡◌, refl, Bool, true,
  false, Option, none, some, List, [], ◌∷◌, ◌++◌, ◌&&◌, ltb, if◌then◌else◌, min, length, take,
  arith,
}
use left_hook_roll.Response.Send.{send_to, send_bytes, progress}
use left_hook_roll.Response.State.{
  Response, Socket, SendReply, taken, failed, broken_pipe, throw_if_sigpipe,
}
use left_hook_roll.Text.{Bytes}

-- The socket takes a byte at least in each of its next sends.
abbrev pub serves : List SendReply → Bool
serves [] = true
serves (taken k ∷ rs) = ltb 0 k && serves rs
serves (failed ∷ rs) = false
serves (broken_pipe ∷ rs) = false

abbrev pub is_serving : Response → Bool
is_serving r = serves r.socket.send_replies

-- It does, and no SIGPIPE is pending.
abbrev pub clear : Socket → Bool
clear s = serves s.send_replies && not s.sigpipe

abbrev pub is_clear : Response → Bool
is_clear r = clear r.socket

-- A socket that serves, or is clear, is so still.
abbrev pub Stays : Response → Socket → Type 0
Stays r s =
    (is_serving r ≡ true → serves s.send_replies ≡ true) × (is_clear r ≡ true → clear s ≡ true)

pub not_clear : (r : Response) → is_serving r ≡ false → is_clear r ≡ false
not_clear r f = ap (λ b. b && not r.socket.sigpipe) f

flagged : (r : Response) → r.socket.sigpipe ≡ true → is_clear r ≡ false
flagged r f = ground (arith, f)

abbrev pub on_socket : Response → Socket → Response
on_socket r s = record r { socket = s }

-- What `P` says of a step behind the test of g_sigpipe.
pub after_sigpipe :
    (P : Result Response Bool → Type 0) (k : M Response Bool) (r : Response)
    → ((s : Socket) → is_clear r ≡ false → P (threw (client_exception 502) (on_socket r s)))
    → P (k r)
    → P ((throw_if_sigpipe >> k) r)
unfolding throw_if_sigpipe
after_sigpipe P k r thrown h = go r.socket.sigpipe refl
  where
    go :
        (b : Bool)
        → r.socket.sigpipe ≡ b
        → P
            (elim (if b
                then threw
                    (client_exception 502)
                    (on_socket r (record r.socket { sigpipe = false }))
                else ok tt r)
              as (λ x. Result Response Bool) [ ok a s ↦ k s | threw e s ↦ threw e s ])
    go true e = thrown (record r.socket { sigpipe = false }) (flagged r e)
    go false e = h

-- What `P` says of a step behind a send of at least one byte.
module _ (P : Result Response Bool → Type 0) (next : Option ℕ → M Response Bool) (bytes : Bytes)
    (r : Response)
    (thrown : (s : Socket) → is_clear r ≡ false → P (threw (client_exception 502) (on_socket r s)))
    (stopped : (s : Socket)
      → s.output ≡ r.socket.output
      → is_serving r ≡ false
      → P (next none (on_socket r s)))
    (moved : (s : Socket) (k : ℕ)
      → s.output ≡ r.socket.output ++ take (suc k) bytes
      → suc k ≤ length bytes
      → Stays r s
      → P (next (some (suc k)) (on_socket r s)))
    (some_bytes : 0 < length bytes) where
  behind_flag :
      (o : Option ℕ) (s : Socket)
      → (s.sigpipe ≡ true → is_clear r ≡ false)
      → P (next (progress o) (on_socket r s))
      → P ((do sent ← (throw_if_sigpipe >> ok o); next (progress sent)) (on_socket r s))
  unfolding throw_if_sigpipe
  behind_flag o s q h = go s.sigpipe refl
    where
      go :
          (b : Bool)
          → s.sigpipe ≡ b
          → P
              (elim (elim (if b
                    then threw (client_exception 502) (on_socket r (record s { sigpipe = false }))
                    else ok tt (on_socket r s))
                  as (λ x. Result Response (Option ℕ)) [ ok a t ↦ ok o t | threw e t ↦ threw e t ])
                as (λ x. Result Response Bool) [
                  | ok a t ↦ next (progress a) t
                  | threw e t ↦ threw e t
                ])
      go true e = thrown (record s { sigpipe = false }) (q e)
      go false e = h

  counted :
      (n : ℕ) (s : Socket)
      → s.output ≡ r.socket.output ++ take n bytes
      → n ≤ length bytes
      → s.sigpipe ≡ r.socket.sigpipe
      → (is_serving r ≡ true → (0 < n) × (serves s.send_replies ≡ true))
      → P (next (progress (some n)) (on_socket r s))
  counted zero s o le f h = stopped s (o ∙ append-nil r.socket.output) (ground (arith, h))
  counted (suc k) s o le f h = moved s k o le (λ e. (h e).1, λ e. ground (arith, e, f, h))

  pub after_send : P ((do sent ← send_bytes bytes; next (progress sent)) r)
  unfolding send_bytes send_to
  after_send = go r.socket.send_replies refl
    where
      go :
          (rs : List SendReply)
          → r.socket.send_replies ≡ rs
          → P (
              (do
                sent ← (throw_if_sigpipe >> ok (send_to bytes rs r.socket).0)
                next (progress sent))
                (on_socket r (send_to bytes rs r.socket).1))
      go [] e = behind_flag (some (length bytes)) _ (flagged r) (
          counted (length bytes) _
            (ap (λ t. r.socket.output ++ t) (sym (take-all (length bytes) bytes (omega arith))))
            (omega arith) refl (λ h. (some_bytes, refl)))
      go (taken k ∷ rs) e = behind_flag (some (min k (length bytes))) _ (flagged r) (
          counted (min k (length bytes)) _ (ap (λ t. r.socket.output ++ t) (take-min k bytes))
            (omega arith) refl
            (λ h.
              let h' : serves (taken k ∷ rs) ≡ true = ap serves (sym e) ∙ h in
              (ground arith, ground arith)))
      go (failed ∷ rs) e =
          behind_flag none (record r.socket { send_replies = rs }) (flagged r)
            (stopped _ refl (ap serves e))
      go (broken_pipe ∷ rs) e =
          behind_flag none (record r.socket { send_replies = rs; sigpipe = true })
            (λ q. not_clear r (ap serves e)) (stopped _ refl (ap serves e))
