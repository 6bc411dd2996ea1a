-- ===== src/Request/Lines/BodyKind.antt =====
-- The body that `_typeOfReq` makes a request wait for.
use mathlib.Core.Path.{subst}
use left_hook_roll.Dict.{lookup, is_some}
use left_hook_roll.Prelude.Int.{ℤ, pos, negsuc, is_negative, to_ℕ}
use left_hook_roll.Prelude.{
  sym, ap, ℕ, ◌≡◌, ◌<◌, ◌≤◌, ◌⊎◌, inl, inr, refl, Bool, true, false, not, ◌||◌, ◌&&◌, Option, none,
  some, ltb, ◌==◌, if◌then◌else◌, is_nil, arith,
}
use left_hook_roll.Request.Headers.{
  at_nul, finish_headers, length_of_body, parse_cookies, sized_body, type_of_req,
}
use left_hook_roll.Request.State.{
  Request, ReqState, req_headers, req_body, req_chunked, req_done, req_error, fail, get_header,
  is_error,
}
use left_hook_roll.Text.Numbers.{Converted, strtoll}
use left_hook_roll.Text.Trim.{lower}
use left_hook_roll.Text.{Bytes, codes, find_str}

-- A body of `n` bytes within the limit of `r`, where 0 is no limit.
abbrev pub IsWithin : Request → ℤ → Type 0
IsWithin r (pos n) = (0 < n) × ((r.max_body_size ≡ 0) ⊎ (n ≤ r.max_body_size))
IsWithin r (negsuc n) = ⊥

-- What the state says of the content length and the status.
abbrev pub Waits : Request → ReqState → ℤ → Bytes → Type 0
Waits r req_chunked n status = n ≡ negsuc 0
Waits r req_body n status = IsWithin r n
Waits r req_done n status = n ≡ pos 0
Waits r req_error n status = (status ≡ codes "400") ⊎ (status ≡ codes "413")
Waits r req_headers n status = ⊥

abbrev pub IsTyped : Request → Request → Type 0
IsTyped r t = Waits r t.req_state t.content_length t.status_code

sized_body-IsTyped : (r : Request) (n : ℕ) → IsTyped r (sized_body r n)
unfolding sized_body
sized_body-IsTyped r n = over (ltb 0 r.max_body_size && ltb r.max_body_size n) refl (n == 0) refl
  where
    s : Request
    s = record r { content_length = pos n }

    over :
        (b : Bool)
        → (ltb 0 r.max_body_size && ltb r.max_body_size n) ≡ b
        → (z : Bool) → (n == 0) ≡ z
        → IsTyped r (
            if b
            then fail s (codes "413")
            else record s { req_state = if z then req_done else req_body })
    over true e z q = inr refl
    over false e true q = let zero_is : n ≡ 0 = ground (arith, q) in ap pos zero_is
    over false e false q = (ground (arith, q), ground (arith, e))

length_of_body-IsTyped : (r : Request) (c : Converted) → IsTyped r (length_of_body r c)
unfolding length_of_body
length_of_body-IsTyped r c = go (not (at_nul c.rest) || is_negative c.number)
  where
    go : (b : Bool) → IsTyped r (if b then fail r (codes "400") else sized_body r (to_ℕ c.number))
    go true = inl refl
    go false = sized_body-IsTyped r (to_ℕ c.number)

type_of_req-IsTyped : (r : Request) → IsTyped r (type_of_req r)
unfolding type_of_req
type_of_req-IsTyped r =
    go (is_some (find_str (codes "chunked") (lower (get_header r (codes "Transfer-Encoding")))))
      (not (is_nil length))
  where
    length : Bytes
    length = get_header r (codes "Content-Length")

    go :
        (b c : Bool)
        → IsTyped r (
            if b
            then record r { content_length = negsuc 0; req_state = req_chunked }
            else if c
            then length_of_body r (strtoll length)
            else record r { content_length = pos 0; req_state = req_done })
    go true c = refl
    go false true = length_of_body-IsTyped r (strtoll length)
    go false false = refl

-- After the header section of a request whose lines were no error, the request waits for chunks with
-- the content length -1; or for a body of at least one byte, which is within the limit of the
-- server; or for nothing, with the content length 0; or it is an error of status 400 or 413.
pub finish_headers-IsTyped :
    (r : Request) → is_error r.req_state ≡ false → IsTyped r (finish_headers r)
unfolding finish_headers
finish_headers-IsTyped r e =
    with_cookies (if is_error r.req_state then r else type_of_req r)
      (subst (λ b. IsTyped r (if b then r else type_of_req r)) (sym e) (type_of_req-IsTyped r))
  where
    with_cookies :
        (s : Request)
        → IsTyped r s
        → IsTyped r (elim (lookup (codes "cookie") s.headers) [
          | none ↦ s
          | some header ↦ record s { cookies = parse_cookies header s.cookies }
        ])
    with_cookies s h = go (lookup (codes "cookie") s.headers)
      where
        go :
            (o : Option Bytes)
            → IsTyped r (elim o [
              | none ↦ s
              | some header ↦ record s { cookies = parse_cookies header s.cookies }
            ])
        go none = h
        go (some header) = h
