-- ===== src/ConfigParser/Progress/ServerHandlers.antt =====
-- The handlers of a server's directives keep it valid, and use no fuel up.
use left_hook_roll.Conf.{
  ServerConf, set_server_name, set_interface_port_pair, set_max_body_size, add_error_page,
}
use left_hook_roll.ConfigParser.Directives.{
  is_error_code, parse_listen, parse_server_name, parse_max_body_size, parse_error_page,
}
use left_hook_roll.ConfigParser.Progress.Rules.{
  Good, Good-bind, is_fatal, one_value-Good, two_values-Good, or_error-Good,
}
use left_hook_roll.ConfigParser.Tokens.{Stream, config_error, or_error}
use left_hook_roll.ConfigParser.Valid.{IsValidServer, add_error_page-IsValidServer}
use left_hook_roll.ConfigParser.Values.Bounds.{parse_sock_addr_port, parse_body_size-lt}
use left_hook_roll.ConfigParser.Values.{parse_sock_addr, parse_body_size}
use left_hook_roll.Prelude.Result.{ok, ◌>>=◌}
use left_hook_roll.Prelude.{ℕ, ◌≤◌, ◌<◌, ◌^◌, Option, inl, inr, length, if◌then◌else◌, Bool-cases}
use left_hook_roll.Text.{Bytes, codes}

module _ (conf : ServerConf) (v : IsValidServer conf) (n : ℕ) (s : Stream) (h : length s ≤ n) where
  pub parse_server_name-Good : Good IsValidServer n (parse_server_name conf s)
  unfolding parse_server_name set_server_name
  parse_server_name-Good =
      one_value-Good IsValidServer (codes ";") n s (λ name. ok (set_server_name conf name)) h
        (λ name s' le. (
          record {
            port = v.port;
            size = v.size;
            codes_ok = v.codes_ok;
            locations_ok = v.locations_ok;
          },
          le,
        ))

  pub parse_max_body_size-Good : Good IsValidServer n (parse_max_body_size conf s)
  unfolding parse_max_body_size set_max_body_size
  parse_max_body_size-Good =
      one_value-Good IsValidServer (codes ";") n s
        (λ value. do size ← or_error (parse_body_size value); ok (set_max_body_size conf size)) h
        (λ value s' le.
          Good-bind (λ size. size < 2 ^ 64) IsValidServer n (or_error (parse_body_size value))
            (λ size. ok (set_max_body_size conf size)) s'
            (or_error-Good (λ size. size < 2 ^ 64) (parse_body_size value) n s' le
              (λ size e. parse_body_size-lt value e))
            (λ size s'' lt le'. (
              record {
                port = v.port;
                size = lt;
                codes_ok = v.codes_ok;
                locations_ok = v.locations_ok;
              },
              le',
            )))

  pub parse_error_page-Good : Good IsValidServer n (parse_error_page conf s)
  unfolding parse_error_page
  parse_error_page-Good =
      two_values-Good IsValidServer (codes ";") n s
        (λ code path.
          if is_error_code code then ok (add_error_page conf code path) else config_error)
        h
        (λ code path s' le. elim (Bool-cases (is_error_code code)) [
          | inl good ↦ rw good (add_error_page-IsValidServer conf code path v good, le)
          | inr bad ↦ rw bad is_fatal
        ])

  pub parse_listen-Good :
      (resolve : Bytes → Option ℕ) → Good IsValidServer n (parse_listen resolve conf s)
  unfolding parse_listen set_interface_port_pair
  parse_listen-Good resolve =
      one_value-Good IsValidServer (codes ";") n s
        (λ value. do
          addr ← or_error (parse_sock_addr resolve value)
          ok (set_interface_port_pair conf addr))
        h
        (λ value s' le.
          Good-bind (λ a. a.port ≤ 65535) IsValidServer n (or_error (parse_sock_addr resolve value))
            (λ addr. ok (set_interface_port_pair conf addr)) s'
            (or_error-Good (λ a. a.port ≤ 65535) (parse_sock_addr resolve value) n s' le
              (λ a e. (parse_sock_addr_port resolve value e).1))
            (λ a s'' p le'. (
              record {
                port = p;
                size = v.size;
                codes_ok = v.codes_ok;
                locations_ok = v.locations_ok;
              },
              le',
            )))
