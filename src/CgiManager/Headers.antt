-- ===== src/CgiManager/Headers.antt =====
-- The environment that a script gets.
use left_hook_roll.Methods.{method_to_string}
use left_hook_roll.Text.Search.{starts_with-append}
use mathlib.Core.Path.{subst}
use left_hook_roll.Dict.{lookup-insert_self, lookup-insert, insert, lookup, Dict}
use left_hook_roll.Request.State.{get_header, Request}
use left_hook_roll.Text.{less, equal_iff, equal, codes, starts_with, Bytes}
use left_hook_roll.CgiManager.Environment.{
  env_char, http_name, request_env, content_env, add_http_headers, build_env_map,
}
use left_hook_roll.Prelude.{
  ap, is_nil, ◌∙◌, map, true, arith, Bool-cases, if◌then◌else◌, [], ◌∷◌, false, ◌≡◌, none, some,
  Option, refl, inl, inr,
}

-- The value of the last header whose name in the environment is `name`.
abbrev pub last_named : Bytes → Dict → Option Bytes
last_named name [] = none
last_named name ((key, value) ∷ headers) = elim (last_named name headers) [
  | some v ↦ some v
  | none ↦ if equal (http_name key) name then some value else none
]

abbrev pub or_else : Option Bytes → Option Bytes → Option Bytes
or_else (some v) o = some v
or_else none o = o

lookup-add_http_headers :
    (name : Bytes) (headers env : Dict)
    → lookup name (add_http_headers headers env)
      ≡ or_else (last_named name headers) (lookup name env)
unfolding add_http_headers
lookup-add_http_headers name [] env = refl
lookup-add_http_headers name ((key, value) ∷ headers) env =
    let h = lookup-add_http_headers name headers (insert (http_name key) value env) in
    ground (arith, h, lookup-insert (http_name key) name value env)

-- Names that do not begin with HTTP_ are no header's.
last_named-other :
    (name : Bytes) (headers : Dict)
    → starts_with (codes "HTTP_") name ≡ false
    → last_named name headers ≡ none
last_named-other name [] e = refl
last_named-other name ((key, value) ∷ headers) e =
    let other : equal (http_name key) name ≡ false =
      elim (Bool-cases (equal (http_name key) name)) [
        | inl same ↦
            let t : http_name key ≡ name = (equal_iff (http_name key) name).0 same in
            let s : starts_with (codes "HTTP_") name ≡ true =
              subst (λ n. starts_with (codes "HTTP_") n ≡ true) t
                (starts_with-append (codes "HTTP_") (map env_char key)) in
            cc s
        | inr differ ↦ differ
      ] in
    rw (last_named-other name headers e, other)

-- A variable of the environment is the value of the last header of that name, if there is one, and
-- else what the request line, the script and the content headers give it.
build_env_map-lookup :
    (request : Request) (script name : Bytes)
    → lookup name (build_env_map request script)
      ≡ or_else
          (last_named name request.headers)
          (lookup name (content_env request (request_env request script)))
unfolding build_env_map
build_env_map-lookup request script name =
    lookup-add_http_headers name request.headers (content_env request (request_env request script))

-- The content headers touch no other variable.
lookup-content_env :
    (request : Request) (env : Dict) (name : Bytes)
    → equal (codes "CONTENT_LENGTH") name ≡ false
    → equal (codes "CONTENT_TYPE") name ≡ false
    → lookup name (content_env request env) ≡ lookup name env
unfolding content_env
lookup-content_env request env name e f =
    elim (Bool-cases (is_nil (get_header request (codes "content-type")))) [
      | inl b ↦ rw (b, lookup-insert, e)
      | inr b ↦ rw (b, lookup-insert, e, lookup-insert, f)
    ]

-- A variable that no header can name.
lookup-fixed :
    (request : Request) (script name : Bytes)
    → starts_with (codes "HTTP_") name ≡ false
    → lookup name (build_env_map request script)
      ≡ lookup name (content_env request (request_env request script))
lookup-fixed request script name e =
    rw (build_env_map-lookup request script name, last_named-other name request.headers e)

lookup-request :
    (request : Request) (script name : Bytes)
    → starts_with (codes "HTTP_") name ≡ false
    → equal (codes "CONTENT_LENGTH") name ≡ false
    → equal (codes "CONTENT_TYPE") name ≡ false
    → lookup name (build_env_map request script) ≡ lookup name (request_env request script)
lookup-request request script name e f g =
    lookup-fixed request script name e
    ∙ lookup-content_env request (request_env request script) name f g

abbrev pub or_zero : Bytes → Bytes
or_zero length = if is_nil length then codes "0" else length

abbrev pub unless_empty : Bytes → Option Bytes
unless_empty value = if is_nil value then none else some value

lookup-length :
    (request : Request) (script : Bytes)
    → lookup (codes "CONTENT_LENGTH") (build_env_map request script)
      ≡ some (or_zero (get_header request (codes "content-length")))
unfolding content_env starts_with equal
lookup-length request script =
    lookup-fixed request script (codes "CONTENT_LENGTH") refl
    ∙ lookup-insert_self (codes "CONTENT_LENGTH")
        (or_zero (get_header request (codes "content-length"))) _

lookup-type :
    (request : Request) (script : Bytes)
    → lookup (codes "CONTENT_TYPE") (build_env_map request script)
      ≡ unless_empty (get_header request (codes "content-type"))
unfolding starts_with content_env request_env equal less lookup insert
lookup-type request script =
    lookup-fixed request script (codes "CONTENT_TYPE") refl
    ∙ elim (Bool-cases (is_nil (get_header request (codes "content-type")))) [
      | inl b ↦ rw b
      | inr b ↦ rw b
    ]

-- The environment of a script.
pub record IsEnvironment (request : Request) (script : Bytes) (env : Dict) : Type 0 where
  pub request_method :
      lookup (codes "REQUEST_METHOD") env ≡ some (method_to_string request.method_name)
  pub query_string : lookup (codes "QUERY_STRING") env ≡ some request.query
  pub script_filename : lookup (codes "SCRIPT_FILENAME") env ≡ some script
  pub script_name : lookup (codes "SCRIPT_NAME") env ≡ some request.url
  pub path_info : lookup (codes "PATH_INFO") env ≡ some request.url
  pub server_protocol : lookup (codes "SERVER_PROTOCOL") env ≡ some request.protocol
  pub gateway_interface : lookup (codes "GATEWAY_INTERFACE") env ≡ some (codes "CGI/1.1")
  pub redirect_status : lookup (codes "REDIRECT_STATUS") env ≡ some (codes "200")
  pub content_length :
      lookup (codes "CONTENT_LENGTH") env
      ≡ some (or_zero (get_header request (codes "content-length")))
  pub content_type :
      lookup (codes "CONTENT_TYPE") env ≡ unless_empty (get_header request (codes "content-type"))
  pub header :
      (key : Bytes) → lookup (http_name key) env ≡ last_named (http_name key) request.headers

lookup-header :
    (request : Request) (script key : Bytes)
    → lookup (http_name key) (build_env_map request script)
      ≡ last_named (http_name key) request.headers
unfolding request_env equal less lookup insert
lookup-header request script key =
    build_env_map-lookup request script (http_name key)
    ∙ ap (or_else (last_named (http_name key) request.headers))
        (lookup-content_env request (request_env request script) (http_name key) refl refl)
    ∙ or_else-none (last_named (http_name key) request.headers)
  where
    or_else-none : (o : Option Bytes) → or_else o none ≡ o
    or_else-none none = refl
    or_else-none (some v) = refl

-- The environment of a script has the method, the query, the URL, the protocol and the script's path
-- of the request, whatever its headers are: no header replaces them. CONTENT_LENGTH is "0" and
-- CONTENT_TYPE is left out where the request has no such header. Every header stands under HTTP_ and
-- its name in capitals with underscores for dashes; of those that share a name the last one counts,
-- and there is no such variable without such a header.
pub build_env_map-IsEnvironment :
    (request : Request) (script : Bytes)
    → IsEnvironment request script (build_env_map request script)
unfolding starts_with equal less lookup insert request_env
build_env_map-IsEnvironment request script = record {
  request_method = lookup-request request script (codes "REQUEST_METHOD") refl refl refl;
  query_string = lookup-request request script (codes "QUERY_STRING") refl refl refl;
  script_filename = lookup-request request script (codes "SCRIPT_FILENAME") refl refl refl;
  script_name = lookup-request request script (codes "SCRIPT_NAME") refl refl refl;
  path_info = lookup-request request script (codes "PATH_INFO") refl refl refl;
  server_protocol = lookup-request request script (codes "SERVER_PROTOCOL") refl refl refl;
  gateway_interface = lookup-request request script (codes "GATEWAY_INTERFACE") refl refl refl;
  redirect_status = lookup-request request script (codes "REDIRECT_STATUS") refl refl refl;
  content_length = lookup-length request script;
  content_type = lookup-type request script;
  header = lookup-header request script;
}
