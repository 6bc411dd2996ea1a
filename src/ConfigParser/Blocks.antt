-- ===== src/ConfigParser/Blocks.antt =====
-- src/ConfigParser.cpp: `_parseLocationBlock`, `_parseServerBlock` and `parse`. The loops take fuel:
-- one more than the number of tokens is enough, since every round consumes a token.
use left_hook_roll.Conf.{LocationConf, ServerConf, new_location, new_server, set_path, add_location}
use left_hook_roll.ConfigParser.Directives.{
  parse_listen, parse_server_name, parse_max_body_size, parse_error_page, parse_root, parse_methods,
  parse_auto_index, parse_index, parse_upload_store, parse_return, parse_cgi_interpreter,
}
use left_hook_roll.ConfigParser.Tokens.{
  Stream, Parser, config_error, at_end, peek, consume, expect, goes_on, tokenize,
}
use left_hook_roll.Prelude.Result.{Result, ok, threw, out_of_fuel, ◌>>=◌, ◌>>◌}
use left_hook_roll.Prelude.{
  ℕ, zero, suc, true, false, Option, List, [], ◌∷◌, ◌++◌, if◌then◌else◌, length, is_nil,
}
use left_hook_roll.Text.{Bytes, codes, equal}

-- The chain of tests on a location's directive.
unfoldable pub location_directive : Bytes → LocationConf → Parser LocationConf
location_directive directive loc =
    if equal directive (codes "root")
    then parse_root loc
    else if equal directive (codes "methods")
    then parse_methods loc
    else if equal directive (codes "autoindex")
    then parse_auto_index loc
    else if equal directive (codes "index")
    then parse_index loc
    else if equal directive (codes "upload_store")
    then parse_upload_store loc
    else if equal directive (codes "return")
    then parse_return loc
    else if equal directive (codes "cgi_interpreter")
    then parse_cgi_interpreter loc
    else config_error

unfoldable pub location_loop : ℕ → LocationConf → Parser LocationConf
location_loop zero loc s = threw out_of_fuel s
location_loop (suc fuel) loc s = elim (goes_on (codes "}") s) [
  | false ↦ ok loc s
  | true ↦
      (do directive ← consume; loc' ← location_directive directive loc; location_loop fuel loc') s
]

unfoldable pub parse_location_block : Bytes → Parser LocationConf
unfolding location_loop
parse_location_block path = do
  loc ← (λ s. location_loop (suc (length s)) (set_path new_location path) s)
  expect (codes "}")
  ok loc

module _ (resolve : Bytes → Option ℕ) where
  -- The branch of the `location` directive.
  unfoldable pub parse_location : ServerConf → Parser ServerConf
  parse_location conf = do
    path ← consume
    expect (codes "{")
    loc ← parse_location_block path
    ok (add_location conf loc)

  unfoldable pub server_directive : Bytes → ServerConf → Parser ServerConf
  server_directive directive conf =
      if equal directive (codes "listen")
      then parse_listen resolve conf
      else if equal directive (codes "server_name")
      then parse_server_name conf
      else if equal directive (codes "client_max_body_size")
      then parse_max_body_size conf
      else if equal directive (codes "error_page")
      then parse_error_page conf
      else if equal directive (codes "location")
      then parse_location conf
      else config_error

  unfoldable pub server_loop : ℕ → ServerConf → Parser ServerConf
  server_loop zero conf s = threw out_of_fuel s
  server_loop (suc fuel) conf s = elim (goes_on (codes "}") s) [
    | false ↦ ok conf s
    | true ↦
        (do directive ← consume; conf' ← server_directive directive conf; server_loop fuel conf') s
  ]

  unfoldable pub parse_server_block : Parser ServerConf
  unfolding server_loop
  parse_server_block = do
    conf ← (λ s. server_loop (suc (length s)) new_server s)
    expect (codes "}")
    ok conf

  unfoldable pub servers_loop : ℕ → List ServerConf → Parser (List ServerConf)
  servers_loop zero servers s = threw out_of_fuel s
  servers_loop (suc fuel) servers s = elim (at_end s) [
    | true ↦ ok servers s
    | false ↦
        (do
          first ← peek
          (if equal first (codes "server")
              then (do
                consume
                expect (codes "{")
                conf ← parse_server_block
                servers_loop fuel (servers ++ (conf ∷ [])))
              else config_error))
          s
  ]

  unfoldable pub parse_servers : Parser (List ServerConf)
  unfolding servers_loop
  parse_servers = do
    servers ← (λ s. servers_loop (suc (length s)) [] s)
    if is_nil servers then config_error else ok servers

  -- parse(), on the text of the file
  unfoldable pub parse : Bytes → Result Stream (List ServerConf)
  unfolding parse_servers
  parse content = parse_servers (tokenize content)
