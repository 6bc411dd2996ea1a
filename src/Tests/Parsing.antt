-- ===== src/Tests/Parsing.antt =====
-- src/ConfigParser.cpp and src/AllowedMethods.cpp on concrete inputs.
use left_hook_roll.ConfigParser.Blocks.{parse}
use left_hook_roll.ConfigParser.Progress.Loops.{Parsed, parse-Parsed}
use left_hook_roll.ConfigParser.Tokens.Split.{AllTokens, spaced, tokenize-spaced}
use left_hook_roll.ConfigParser.Tokens.{tokenize}
use left_hook_roll.ConfigParser.Values.Bounds.{parse_sock_addr_port}
use left_hook_roll.ConfigParser.Values.{read_port, resolve_host, parse_sock_addr, parse_body_size}
use left_hook_roll.Methods.Bitmap.{
  IsBitmap, same, is_allowed-add_method-remove_method, string_to_method-method_to_string,
}
use left_hook_roll.Methods.{
  unknown_method, get, post, AllowedMethods, add_method, remove_method, is_allowed,
  string_to_method, method_to_string,
}
use left_hook_roll.Prelude.{
  ℕ, ◌<◌, ◌≤◌, ◌≡◌, ◌⊎◌, refl, false, not, ◌&&◌, ◌||◌, Option, none, some, List, [], ◌∷◌, arith,
}
use left_hook_roll.Text.{Bytes, codes, find}
use left_hook_roll.Text.Trim.{trim_start}

-- A resolver that knows one name.
abbrev localhost : Bytes → Option ℕ
localhost host = some 2130706433

abbrev file : Bytes
file = codes "server { # main\n listen localhost:8080;\n location / { root www; methods GET; } }"

parse-Parsed_example : Parsed localhost (parse localhost file)
parse-Parsed_example = parse-Parsed localhost file

abbrev words : List Bytes
words = codes "listen" ∷ codes "80" ∷ codes ";" ∷ []

tokenize-spaced_example :
    AllTokens (tokenize file) × (AllTokens words → tokenize (spaced words) ≡ words)
tokenize-spaced_example = tokenize-spaced file words

address :
    parse_sock_addr localhost (codes "localhost:8080")
    ≡ some (record { address = 2130706433; port = 8080 })
unfolding parse_sock_addr find read_port trim_start resolve_host
address = refl

parse_sock_addr_port_example : (0 < 8080) × (8080 ≤ 65535)
parse_sock_addr_port_example = parse_sock_addr_port localhost (codes "localhost:8080") address

-- glibc's atoi keeps the low 32 bits.
wrapped_port :
    parse_sock_addr localhost (codes "4294967376") ≡ some (record { address = 0; port = 80 })
unfolding parse_sock_addr find read_port trim_start resolve_host
wrapped_port = refl

sizes : (parse_body_size (codes "10M") ≡ some 10485760) × (parse_body_size (codes "M") ≡ none)
unfolding parse_body_size trim_start
sizes = (refl, refl)

abbrev some_methods : AllowedMethods
some_methods = record { bitmap = 5 }

is_allowed-add_method-remove_method_example :
    (is_allowed (add_method some_methods post) get ≡ (same post get || is_allowed some_methods get))
    × (is_allowed (remove_method some_methods post) get
        ≡ (not (same post get) && is_allowed some_methods get))
    × IsBitmap (add_method some_methods post)
    × IsBitmap (remove_method some_methods post)
    × (is_allowed some_methods unknown_method ≡ false)
is_allowed-add_method-remove_method_example =
    is_allowed-add_method-remove_method some_methods post get (omega arith)

string_to_method-method_to_string_example :
    (string_to_method (method_to_string post) ≡ post)
    × (string_to_method (codes "PUT") ≡ post
        → (post ≡ unknown_method) ⊎ (codes "PUT" ≡ method_to_string post))
string_to_method-method_to_string_example = string_to_method-method_to_string post (codes "PUT")
