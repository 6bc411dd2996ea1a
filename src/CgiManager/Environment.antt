-- ===== src/CgiManager/Environment.antt =====
-- src/CGIManager.cpp: `prepare`: the environment of a script, and the arrays for execve.
use left_hook_roll.Prelude.{is_nil, ◌==◌, if◌then◌else◌, some, map, ◌∷◌, [], ◌++◌, ℕ}
use left_hook_roll.Dict.{insert, Dict}
use left_hook_roll.Methods.{method_to_string}
use left_hook_roll.Text.{codes, Bytes, to_upper}
use left_hook_roll.CgiManager.State.{CgiManager, c_str, free_execve_arrays}
use left_hook_roll.Request.State.{Request, get_header}

-- The key of a header in the environment.
unfoldable pub env_char : ℕ → ℕ
unfolding to_upper
env_char c = if c == b'-' then b'_' else to_upper c

abbrev pub http_name : Bytes → Bytes
http_name key = codes "HTTP_" ++ map env_char key

-- The loop over the headers of the request.
unfoldable pub add_http_headers : Dict → Dict → Dict
unfolding env_char
add_http_headers [] env = env
add_http_headers ((key, value) ∷ headers) env =
    add_http_headers headers (insert (http_name key) value env)

-- The entries that the request and the script give.
unfoldable pub request_env : Request → Bytes → Dict
unfolding method_to_string
request_env request script = insert (codes "REDIRECT_STATUS") (codes "200") (
    insert (codes "GATEWAY_INTERFACE") (codes "CGI/1.1") (
      insert (codes "SERVER_PROTOCOL") request.protocol (
        insert (codes "PATH_INFO") request.url (
          insert (codes "SCRIPT_NAME") request.url (
            insert (codes "SCRIPT_FILENAME") script (
              insert (codes "QUERY_STRING") request.query
                (insert (codes "REQUEST_METHOD") (method_to_string request.method_name) [])))))))

-- CONTENT_TYPE where the request has one, and CONTENT_LENGTH, "0" where it has none.
unfoldable pub content_env : Request → Dict → Dict
unfolding get_header
content_env request env =
    let content_type = get_header request (codes "content-type") in
    let length = get_header request (codes "content-length") in
    insert (codes "CONTENT_LENGTH") (if is_nil length then codes "0" else length)
      (if is_nil content_type then env else insert (codes "CONTENT_TYPE") content_type env)

unfoldable pub build_env_map : Request → Bytes → Dict
unfolding request_env content_env add_http_headers
build_env_map request script =
    add_http_headers request.headers (content_env request (request_env request script))

-- it->first + "=" + it->second
abbrev pub env_entry : Bytes × Bytes → Bytes
env_entry (key, value) = key ++ (b'=' ∷ value)

unfoldable pub prep_execve_arrays : CgiManager → CgiManager
unfolding free_execve_arrays c_str
prep_execve_arrays c = record (free_execve_arrays c) {
  execve_argv = some (map c_str c.script_argv);
  execve_envp = some (map (λ e. c_str (env_entry e)) c.env);
}

unfoldable pub prepare : Request → Bytes → Bytes → CgiManager → CgiManager
unfolding build_env_map prep_execve_arrays
prepare request script interpreter c = prep_execve_arrays (record c {
  env = build_env_map request script;
  script_argv = if is_nil interpreter then script ∷ [] else interpreter ∷ script ∷ [];
})
