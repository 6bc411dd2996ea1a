-- ===== src/Request/Lines/RequestLine.antt =====
-- The request line and the header line on the texts that they are made for.
use left_hook_roll.Dict.{insert}
use left_hook_roll.Text.Trim.{lower, trim}
use mathlib.Core.Path.{ap₂}
use left_hook_roll.Methods.{HttpMethod, unknown_method, method_to_string}
use left_hook_roll.Methods.Bitmap.{string_to_method-method_to_string}
use left_hook_roll.Prelude.{
  is_nil, true, drop-length-append, ap, ◌∙◌, drop-add, sym, take-length-append, drop-past, ◌-◌, ◌+◌,
  length, drop, ◌++◌, ◌≡◌, ◌≢◌, refl, [], ◌∷◌, false, arith,
}
use left_hook_roll.Request.Line.{
  starts_slash, extract_query, parse_header_line, is_known_protocol, parse_request_line, target_of,
  full_request, is_unknown,
}
use left_hook_roll.Request.State.{Request}
use left_hook_roll.Text.Search.{Free-append, find-Free, Free, find-append}
use left_hook_roll.Text.{substr, Bytes}

-- A target without a query, and the line that asks for it.
abbrev pub with_query : Bytes → Bytes → Bytes
with_query path query = path ++ (b'?' ∷ query)

abbrev pub request_line : HttpMethod → Bytes → Bytes → Bytes
request_line m target protocol = method_to_string m ++ (b' ' ∷ (target ++ (b' ' ∷ protocol)))

method-Free : (m : HttpMethod) → Free b' ' (method_to_string m)
unfolding method_to_string
method-Free unknown_method = ground arith
method-Free _ = ground arith

-- The fields that a request line sets.
abbrev pub asked : Request → HttpMethod → Bytes → Bytes → Bytes → Request
asked r m path query protocol = record r {
  method_name = m;
  url = path;
  query = query;
  protocol = protocol;
}

known : (m : HttpMethod) → m ≢ unknown_method → is_unknown m ≡ false
known unknown_method h = absurd (h refl)
known _ h = refl

target-is :
    (xs target protocol : Bytes)
    → substr
        (xs ++ (b' ' ∷ (target ++ (b' ' ∷ protocol))))
        (length xs + 1)
        (length xs + 1 + length target - length xs - 1)
      ≡ target
target-is xs target protocol =
    let n : length xs + 1 + length target - length xs - 1 ≡ length target = omega arith in
    rw n (
      rw (drop-past xs b' ' (target ++ (b' ' ∷ protocol)))
        (take-length-append target (b' ' ∷ protocol)))

protocol-is :
    (xs target protocol : Bytes)
    → drop (length xs + 1 + length target + 1) (xs ++ (b' ' ∷ (target ++ (b' ' ∷ protocol))))
      ≡ protocol
protocol-is xs target protocol =
    sym (drop-add (length xs + 1 + length target) 1 _)
    ∙ ap (drop 1) (
        sym (drop-add (length xs + 1) (length target) _)
        ∙ ap (drop (length target)) (drop-past xs b' ' (target ++ (b' ' ∷ protocol)))
        ∙ drop-length-append target (b' ' ∷ protocol))

target_of_full :
    (xs target protocol : Bytes) (r : Request)
    → Free b' ' target
    → target_of r (xs ++ (b' ' ∷ (target ++ (b' ' ∷ protocol)))) (length xs)
      ≡ full_request r target protocol
unfolding target_of
target_of_full xs target protocol r f =
    rw (drop-past xs b' ' (target ++ (b' ' ∷ protocol)), target_of)
      (rw (find-append b' ' target protocol f, target_of)
        (ap₂ (full_request r) (target-is xs target protocol) (protocol-is xs target protocol)))

parse_request_line_full :
    (m : HttpMethod) (target protocol : Bytes) (r : Request)
    → m ≢ unknown_method
    → Free b' ' target
    → parse_request_line (request_line m target protocol) r
      ≡ full_request (record r { method_name = m }) target protocol
unfolding parse_request_line
parse_request_line_full m target protocol r k f =
    rw
      (
        find-append b' ' (method_to_string m) (target ++ (b' ' ∷ protocol)) (method-Free m),
        parse_request_line,
      )
      (rw (take-length-append (method_to_string m) (b' ' ∷ (target ++ (b' ' ∷ protocol)))) (
        rw ((string_to_method-method_to_string m []).0)
          (rw (known m k) (target_of_full (method_to_string m) target protocol _ f))))

full_request_plain :
    (r : Request) (path protocol : Bytes)
    → is_known_protocol protocol ≡ true
    → starts_slash path ≡ true
    → Free b'?' path
    → full_request r path protocol ≡ record r { url = path; protocol = protocol }
unfolding full_request extract_query
full_request_plain r path protocol k s f = ground (arith, find-Free b'?' path f)

full_request_query :
    (r : Request) (path query protocol : Bytes)
    → is_known_protocol protocol ≡ true
    → starts_slash path ≡ true
    → Free b'?' path
    → full_request r (with_query path query) protocol
      ≡ record r { url = path; query = query; protocol = protocol }
unfolding full_request extract_query
full_request_query r [] query protocol k s f = cc
full_request_query r (c ∷ path) query protocol k s f = rw k (
    rw s (
      rw (find-append b'?' (c ∷ path) query f, extract_query)
        (rw (take-length-append (c ∷ path) (b'?' ∷ query), drop-past (c ∷ path) b'?' query))))

-- A request line with a known method, an HTTP/1 protocol and a target that starts with a slash and
-- has no blank sets the method, the path, the query and the protocol, and nothing else. Without a
-- question mark the query stays as it was.
pub parse_request_line-asked :
    (m : HttpMethod) (path query protocol : Bytes) (r : Request)
    → m ≢ unknown_method
    → is_known_protocol protocol ≡ true
    → starts_slash path ≡ true
    → Free b'?' path
    → Free b' ' path
    → Free b' ' query
    → (parse_request_line (request_line m (with_query path query) protocol) r
        ≡ asked r m path query protocol)
      × (parse_request_line (request_line m path protocol) r ≡ asked r m path r.query protocol)
parse_request_line-asked m path query protocol r k p s f b b' = (
  parse_request_line_full m (with_query path query) protocol r k
        (Free-append b' ' path (b'?' ∷ query) b (ground arith, b'))
      ∙ full_request_query _ path query protocol p s f,
  parse_request_line_full m path protocol r k b ∙ full_request_plain _ path protocol p s f,
)

is_nil-lower : (s : Bytes) → s ≢ [] → is_nil (lower s) ≡ false
unfolding lower
is_nil-lower [] h = absurd (h refl)
is_nil-lower (c ∷ cs) h = refl

-- A header line: a key, a colon, and a value that may have blanks round it.
parse_header_line-insert :
    (key value : Bytes) (r : Request)
    → Free b':' key
    → trim key ≢ []
    → parse_header_line (key ++ (b':' ∷ value)) r
      ≡ record r { headers = insert (lower (trim key)) (trim value) r.headers }
unfolding parse_header_line
parse_header_line-insert key value r f ne =
    rw (find-append b':' key value f, parse_header_line)
      (rw (take-length-append key (b':' ∷ value), drop-past key b':' value)
        (rw (is_nil-lower (trim key) ne)))
