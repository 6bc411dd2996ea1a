-- ===== src/ConfigParser/Directives.antt =====
-- src/ConfigParser.cpp: the directive handlers. A handler returns the configuration that it was
-- given by reference.
use left_hook_roll.Conf.{
  LocationConf, ServerConf, set_root, set_return_url, set_return_code, set_auto_index,
  set_default_page, set_storage_location, add_allowed_method, add_cgi_interpreter, set_server_name,
  set_interface_port_pair, set_max_body_size, add_error_page,
}
use left_hook_roll.ConfigParser.Tokens.{
  Parser, config_error, or_error, peek, consume, expect, goes_on,
}
use left_hook_roll.ConfigParser.Values.{parse_sock_addr, parse_body_size, parse_method_token}
use left_hook_roll.Prelude.Result.{ok, threw, out_of_fuel, ◌>>=◌, ◌>>◌}
use left_hook_roll.Prelude.{
  ℕ, zero, suc, Bool, true, false, not, ◌&&◌, Option, ◌==◌, if◌then◌else◌, length,
}
use left_hook_roll.Text.{Bytes, codes, equal, all_digits, is_digit}

module _ (resolve : Bytes → Option ℕ) where
  unfoldable pub parse_listen : ServerConf → Parser ServerConf
  parse_listen conf = do
    value ← consume
    expect (codes ";")
    addr ← or_error (parse_sock_addr resolve value)
    ok (set_interface_port_pair conf addr)

unfoldable pub parse_server_name : ServerConf → Parser ServerConf
parse_server_name conf = do name ← consume; expect (codes ";"); ok (set_server_name conf name)

unfoldable pub parse_max_body_size : ServerConf → Parser ServerConf
parse_max_body_size conf = do
  value ← consume
  expect (codes ";")
  size ← or_error (parse_body_size value)
  ok (set_max_body_size conf size)

abbrev pub is_error_code : Bytes → Bool
is_error_code code = length code == 3 && all_digits code

unfoldable pub parse_error_page : ServerConf → Parser ServerConf
unfolding is_digit
parse_error_page conf = do
  code ← consume
  path ← consume
  expect (codes ";")
  if is_error_code code then ok (add_error_page conf code path) else config_error

unfoldable pub parse_root : LocationConf → Parser LocationConf
parse_root loc = do root ← consume; expect (codes ";"); ok (set_root loc root)

-- The loop of `methods`, on fuel.
unfoldable pub parse_method_list : ℕ → LocationConf → Parser LocationConf
parse_method_list zero loc s = threw out_of_fuel s
parse_method_list (suc fuel) loc s = elim (goes_on (codes ";") s) [
  | false ↦ ok loc s
  | true ↦
      (do
        token ← consume
        method ← or_error (parse_method_token token)
        parse_method_list fuel (add_allowed_method loc method))
        s
]

-- The guard `_peek() == ";"` in front of the loop.
unfoldable pub parse_methods : LocationConf → Parser LocationConf
unfolding parse_method_list
parse_methods loc = do
  first ← peek
  (if equal first (codes ";")
      then config_error
      else (do loc' ← (λ s. parse_method_list (suc (length s)) loc s); expect (codes ";"); ok loc'))

unfoldable pub parse_auto_index : LocationConf → Parser LocationConf
parse_auto_index loc = do
  value ← consume
  expect (codes ";")
  (if equal value (codes "on")
      then ok (set_auto_index loc true)
      else if equal value (codes "off")
      then ok (set_auto_index loc false)
      else config_error)

unfoldable pub parse_index : LocationConf → Parser LocationConf
parse_index loc = do page ← consume; expect (codes ";"); ok (set_default_page loc page)

unfoldable pub parse_upload_store : LocationConf → Parser LocationConf
parse_upload_store loc = do dir ← consume; expect (codes ";"); ok (set_storage_location loc dir)

unfoldable pub parse_return : LocationConf → Parser LocationConf
unfolding is_digit
parse_return loc = do
  code ← consume
  url ← consume
  expect (codes ";")
  (if not (all_digits code)
      then config_error
      else ok (set_return_url (set_return_code loc code) url))

unfoldable pub parse_cgi_interpreter : LocationConf → Parser LocationConf
parse_cgi_interpreter loc = do
  path ← consume
  ext ← consume
  expect (codes ";")
  ok (add_cgi_interpreter loc ext path)
