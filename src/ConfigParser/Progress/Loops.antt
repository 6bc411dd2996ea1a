-- ===== src/ConfigParser/Progress/Loops.antt =====
-- The block loops: fuel is enough, and the servers that the parser returns are valid.
use left_hook_roll.Conf.{LocationConf, ServerConf, new_location, new_server, set_path, add_location}
use left_hook_roll.ConfigParser.Blocks.{
  parse_servers, parse, servers_loop, location_directive, location_loop, parse_location_block,
  parse_location, server_directive, server_loop, parse_server_block,
}
use left_hook_roll.ConfigParser.Progress.Handlers.{
  parse_root-Keeps, parse_index-Keeps, parse_upload_store-Keeps, parse_auto_index-Keeps,
  parse_return-Keeps, parse_cgi_interpreter-Keeps, parse_methods-Keeps,
}
use left_hook_roll.ConfigParser.Progress.ServerHandlers.{
  parse_listen-Good, parse_server_name-Good, parse_max_body_size-Good, parse_error_page-Good,
}
use left_hook_roll.ConfigParser.Progress.Rules.{
  Good, Good-bind, Good-then, Good-weaken, Anything, is_fatal, expect-Good, one_value-Good,
  round-Good,
}
use left_hook_roll.ConfigParser.Tokens.{peek, consume, tokenize, config_error, Stream, expect}
use left_hook_roll.ConfigParser.Valid.{
  IsValidLocation, IsValidServer, AllServers, AllServers-concat, add_location-IsValidServer,
  new_location-IsValidLocation, new_server-IsValidServer,
}
use left_hook_roll.Prelude.Result.{fatal_exception, threw, Result, ok, ◌>>=◌, ◌>>◌}
use left_hook_roll.Prelude.{
  Bool-cases, inl, inr, List, ◌++◌, ◌≢◌, if◌then◌else◌, is_nil, [], ◌∷◌, ◌≡◌, ℕ, zero, suc, ◌≤◌,
  ◌<◌, Option, length, arith,
}
use left_hook_roll.Text.{equal, Bytes, codes}

location_directive-Good :
    (d : Bytes) (loc : LocationConf) (n : ℕ) (s : Stream)
    → IsValidLocation loc
    → length s ≤ n
    → Good IsValidLocation n (location_directive d loc s)
unfolding location_directive
location_directive-Good d loc n s v h = ground (
  arith,
  is_fatal,
  parse_root-Keeps loc v n s h,
  parse_methods-Keeps loc v n s h,
  parse_auto_index-Keeps loc v n s h,
  parse_index-Keeps loc v n s h,
  parse_upload_store-Keeps loc v n s h,
  parse_return-Keeps loc v n s h,
  parse_cgi_interpreter-Keeps loc v n s h,
)

location_loop-Good :
    (fuel : ℕ) (loc : LocationConf) (s : Stream) (n : ℕ)
    → IsValidLocation loc
    → length s < fuel
    → length s ≤ n
    → Good IsValidLocation n (location_loop fuel loc s)
unfolding location_loop
location_loop-Good zero loc s n v h k = absurd (omega arith)
location_loop-Good (suc fuel) loc s n v h k =
    round-Good IsValidLocation (codes "}") n loc s
      (λ directive. do loc' ← location_directive directive loc; location_loop fuel loc') v k
      (λ t ts less.
        Good-weaken IsValidLocation (length ts) n _
          (Good-bind IsValidLocation IsValidLocation (length ts) (location_directive t loc)
            (location_loop fuel) ts (location_directive-Good t loc (length ts) ts v (omega arith))
            (λ loc' s' v' le. location_loop-Good fuel loc' s' (length ts) v' (omega arith) le))
          (omega arith))

parse_location_block-Good :
    (path : Bytes) (n : ℕ) (s : Stream)
    → length s ≤ n
    → Good IsValidLocation n (parse_location_block path s)
unfolding parse_location_block
parse_location_block-Good path n s h =
    Good-bind IsValidLocation IsValidLocation n
      (λ s'. location_loop (suc (length s')) (set_path new_location path) s')
      (λ loc. expect (codes "}") >> ok loc) s
      (location_loop-Good (suc (length s)) (set_path new_location path) s n
        (new_location-IsValidLocation path) (omega arith) h)
      (λ loc s' v le.
        Good-then Anything IsValidLocation n (expect (codes "}")) (ok loc) s'
          (expect-Good (codes "}") n s' le) (λ s'' le'. (v, le')))

module _ (resolve : Bytes → Option ℕ) where
  parse_location-Good :
      (conf : ServerConf) (n : ℕ) (s : Stream)
      → IsValidServer conf
      → length s ≤ n
      → Good IsValidServer n (parse_location resolve conf s)
  unfolding parse_location
  parse_location-Good conf n s v h =
      one_value-Good IsValidServer (codes "{") n s
        (λ path. do loc ← parse_location_block path; ok (add_location conf loc)) h
        (λ path s' le.
          Good-bind IsValidLocation IsValidServer n (parse_location_block path)
            (λ loc. ok (add_location conf loc)) s' (parse_location_block-Good path n s' le)
            (λ loc s'' v' le'. (add_location-IsValidServer conf loc v v', le')))

  server_directive-Good :
      (d : Bytes) (conf : ServerConf) (n : ℕ) (s : Stream)
      → IsValidServer conf
      → length s ≤ n
      → Good IsValidServer n (server_directive resolve d conf s)
  unfolding server_directive
  server_directive-Good d conf n s v h = ground (
    arith,
    is_fatal,
    parse_listen-Good conf v n s h resolve,
    parse_server_name-Good conf v n s h,
    parse_max_body_size-Good conf v n s h,
    parse_error_page-Good conf v n s h,
    parse_location-Good conf n s v h,
  )

  server_loop-Good :
      (fuel : ℕ) (conf : ServerConf) (s : Stream) (n : ℕ)
      → IsValidServer conf
      → length s < fuel
      → length s ≤ n
      → Good IsValidServer n (server_loop resolve fuel conf s)
  unfolding server_loop
  server_loop-Good zero conf s n v h k = absurd (omega arith)
  server_loop-Good (suc fuel) conf s n v h k =
      round-Good IsValidServer (codes "}") n conf s
        (λ directive. do
          conf' ← server_directive resolve directive conf
          server_loop resolve fuel conf')
        v k
        (λ t ts less.
          Good-weaken IsValidServer (length ts) n _
            (Good-bind IsValidServer IsValidServer (length ts) (server_directive resolve t conf)
              (server_loop resolve fuel) ts
              (server_directive-Good t conf (length ts) ts v (omega arith))
              (λ conf' s' v' le. server_loop-Good fuel conf' s' (length ts) v' (omega arith) le))
            (omega arith))

  parse_server_block-Good :
      (n : ℕ) (s : Stream) → length s ≤ n → Good IsValidServer n (parse_server_block resolve s)
  unfolding parse_server_block
  parse_server_block-Good n s h =
      Good-bind IsValidServer IsValidServer n
        (λ s'. server_loop resolve (suc (length s')) new_server s')
        (λ conf. expect (codes "}") >> ok conf) s
        (server_loop-Good (suc (length s)) new_server s n new_server-IsValidServer (omega arith) h)
        (λ conf s' v le.
          Good-then Anything IsValidServer n (expect (codes "}")) (ok conf) s'
            (expect-Good (codes "}") n s' le) (λ s'' le'. (v, le')))

  servers_loop-Good :
      (fuel : ℕ) (servers : List ServerConf) (s : Stream) (n : ℕ)
      → AllServers servers
      → length s < fuel
      → length s ≤ n
      → Good AllServers n (servers_loop resolve fuel servers s)
  unfolding servers_loop peek consume
  servers_loop-Good zero servers s n v h k = absurd (omega arith)
  servers_loop-Good (suc fuel) servers [] n v h k = (v, k)
  servers_loop-Good (suc fuel) servers (t ∷ ts) n v h k =
      elim (Bool-cases (equal t (codes "server"))) [
        | inr other ↦ rw other is_fatal
        | inl server ↦ rw server (
            Good-weaken AllServers (length ts) n _
              (Good-then Anything AllServers (length ts) (expect (codes "{"))
                (parse_server_block resolve >>= λ conf.
                  servers_loop resolve fuel (servers ++ (conf ∷ [])))
                ts (expect-Good (codes "{") (length ts) ts (omega arith))
                (λ s' le.
                  Good-bind IsValidServer AllServers (length ts) (parse_server_block resolve)
                    (λ conf. servers_loop resolve fuel (servers ++ (conf ∷ []))) s'
                    (parse_server_block-Good (length ts) s' le)
                    (λ conf s'' v' le'.
                      servers_loop-Good fuel (servers ++ (conf ∷ [])) s'' (length ts)
                        (AllServers-concat servers conf v v') (omega arith) le')))
              (omega arith))
      ]

  -- What `parse` may give: at least one server, all of them valid, or a ConfigException.
  abbrev pub Parsed : Result Stream (List ServerConf) → Type 0
  Parsed (ok servers s) = AllServers servers × (servers ≢ [])
  Parsed (threw e s) = e ≡ fatal_exception

  -- On every text the parser ends, and either returns at least one server, or throws a
  -- ConfigException. In each server that it returns the port fits 16 bits, the size limit fits 64
  -- bits, the error pages stand under codes of three digits, and each location's bitmap holds
  -- methods alone and its return code digits alone.
  pub parse-Parsed : (content : Bytes) → Parsed (parse resolve content)
  unfolding parse parse_servers
  parse-Parsed content =
      checked (servers_loop resolve (suc (length (tokenize content))) [] (tokenize content)) (
        servers_loop-Good (suc (length (tokenize content))) [] (tokenize content)
          (length (tokenize content)) tt (omega arith) (omega arith))
    where
      checked :
          (r : Result Stream (List ServerConf))
          → Good AllServers (length (tokenize content)) r
          → Parsed (elim r [
            | ok a s ↦ (if is_nil a then config_error else ok a) s
            | threw e s ↦ threw e s
          ])
      checked (ok [] s) g = is_fatal
      checked (ok (x ∷ xs) s) g = (g.0, λ e. cc)
      checked (threw e s) g = g
