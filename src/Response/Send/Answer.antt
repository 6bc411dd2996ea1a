-- ===== src/Response/Send/Answer.antt =====
-- The answer that `sendSlice` sends, and what a slice of it does.
use left_hook_roll.DataStore.Kernel.{ram}
use left_hook_roll.Prelude.Result.{Result, ok, threw, client_exception}
use left_hook_roll.Prelude.{
  inr, inl, Bool-cases, drop-length-append, length-take, drop-add, ℕ, zero, suc, ◌+◌, ◌^◌, ◌≤◌, ◌<◌,
  ◌≡◌, refl, Bool, true, false, none, [], ◌∷◌, ◌++◌, length, take, drop, arith, take-add,
  append_assoc, ap, sym, ◌∙◌,
}
use left_hook_roll.Response.Send.Calls.{Stays, is_clear, is_serving}
use left_hook_roll.Response.State.{
  Response, ResponseState, sending_res_head, sending_body_static, sending_body_chunked,
}
use left_hook_roll.Text.{Bytes}

-- The whole answer.
abbrev pub answer : Response → Bytes
answer r = r.header_buffer ++ r.response_data_store.data_buffer

-- How much has been sent in each state.
abbrev pub InPhase : ResponseState → Response → Type 0
InPhase sending_res_head r = r.total_bytes_sent < length r.header_buffer
InPhase sending_body_static r =
    (length r.header_buffer ≤ r.total_bytes_sent) × (r.total_bytes_sent ≤ length (answer r))
InPhase sending_body_chunked r = ⊥

-- An answer with its body in memory, on a socket that held `before` when its sending began.
pub record Sending (before : Bytes) (r : Response) : Type 0 where
  pub in_ram : r.response_data_store.mode ≡ ram
  pub no_file : r.file_fd ≡ none
  pub size_ok : r.response_data_store.current_size ≡ length r.response_data_store.data_buffer
  pub fits : length (answer r) < 2 ^ 64
  pub buffer_ok : 0 < r.write_buffer_size
  pub in_order : r.socket.output ≡ before ++ take r.total_bytes_sent (answer r)
  pub phase : InPhase r.response_state r

-- A slice that started at `r`.
abbrev pub Sliced : Bytes → Response → Result Response Bool → Type 0
Sliced before r (threw e t) = (e ≡ client_exception 502) × (is_clear r ≡ false)
Sliced before r (ok done t) =
    (answer t ≡ answer r)
    × (done ≡ false → Sending before t × (r.total_bytes_sent < t.total_bytes_sent))
    × Stays r t.socket
    × (is_serving r ≡ true → done ≡ true → t.socket.output ≡ before ++ answer r)

take-take : (m n : ℕ) (xs : Bytes) → m ≤ n → take m (take n xs) ≡ take m xs
take-take zero n xs h = refl
take-take (suc m) zero xs h = absurd (omega arith)
take-take (suc m) (suc n) [] h = refl
take-take (suc m) (suc n) (x ∷ xs) h = ap (◌∷◌ x) (take-take m n xs (omega arith))

pub drop-header : (k : ℕ) (xs ys : Bytes) → drop (length xs + k) (xs ++ ys) ≡ drop k ys
drop-header k xs ys =
    sym (drop-add (length xs) k (xs ++ ys)) ∙ ap (drop k) (drop-length-append xs ys)

take-append-short : (n : ℕ) (xs ys : Bytes) → n ≤ length xs → take n (xs ++ ys) ≡ take n xs
take-append-short zero xs ys h = refl
take-append-short (suc n) [] ys h = absurd (omega arith)
take-append-short (suc n) (x ∷ xs) ys h = ap (◌∷◌ x) (take-append-short n xs ys (omega arith))

pub take-drop-append :
    (n m : ℕ) (xs ys : Bytes) → m + n ≤ length xs → take n (drop m (xs ++ ys)) ≡ take n (drop m xs)
take-drop-append n zero xs ys h = take-append-short n xs ys (omega arith)
take-drop-append n (suc m) [] ys h = absurd (omega arith)
take-drop-append n (suc m) (x ∷ xs) ys h = take-drop-append n m xs ys (omega arith)

-- A slice of the answer behind what has been sent.
pub in_order_step :
    (before out old a : Bytes) (sent n k : ℕ)
    → old ≡ before ++ take sent a
    → out ≡ old ++ take (suc k) (take n (drop sent a))
    → suc k ≤ length (take n (drop sent a))
    → out ≡ before ++ take (sent + suc k) a
in_order_step before out old a sent n k e f le =
    let small : suc k ≤ n = omega (arith, length-take n (drop sent a)) in
    f
    ∙ ap (λ t. t ++ take (suc k) (take n (drop sent a))) e
    ∙ ap (λ t. (before ++ take sent a) ++ t) (take-take (suc k) n (drop sent a) small)
    ∙ append_assoc before (take sent a) (take (suc k) (drop sent a))
    ∙ ap (λ t. before ++ t) (take-add sent (suc k) a)

-- A slice that starts behind `r`, on the same answer, is a slice that starts at `r`.
pub Sliced-from :
    (before : Bytes) (r s : Response) (x : Result Response Bool)
    → answer s ≡ answer r
    → r.total_bytes_sent ≤ s.total_bytes_sent
    → Stays r s.socket
    → Sliced before s x
    → Sliced before r x
Sliced-from before r s (threw e t) a le v h =
    (h.0, elim (Bool-cases (is_clear r)) [ inl c ↦ absurd (cc (v.1 c, h.1)) | inr c ↦ c ])
Sliced-from before r s (ok done t) a le v (b, c, d, f) = (
  b ∙ a,
  (λ q. ((c q).0, omega (arith, (c q).1, le))),
  ((λ w. d.0 (v.0 w)), (λ w. d.1 (v.1 w))),
  (λ w q. f (v.0 w) q ∙ ap (λ x. before ++ x) a),
)
