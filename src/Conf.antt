-- ===== src/Conf.antt =====
-- includes/LocationConf.hpp, src/LocationConf.cpp, includes/ServerConf.hpp and src/ServerConf.cpp:
-- the configuration of a location and of a server. The getters are the fields.
use left_hook_roll.Dict.{Dict, lookup, insert, or_empty, is_some}
use left_hook_roll.Methods.{HttpMethod, AllowedMethods, no_methods, add_method, is_allowed}
use left_hook_roll.Prelude.{◌*◌, ℕ, Bool, false, List, [], ◌∷◌, ◌++◌}
use left_hook_roll.Text.{codes, Bytes}

pub record LocationConf : Type 0 where
  pub path : Bytes
  pub root : Bytes
  pub allowed_methods : AllowedMethods
  pub return_url : Bytes
  pub return_code : Bytes
  pub auto_index : Bool
  pub default_page : Bytes
  pub storage_location : Bytes
  pub cgi_interpreters : Dict

unfoldable pub new_location : LocationConf
unfolding no_methods
new_location = record {
  path = [];
  root = [];
  allowed_methods = no_methods;
  return_url = [];
  return_code = [];
  auto_index = false;
  default_page = [];
  storage_location = [];
  cgi_interpreters = [];
}

unfoldable pub set_path : LocationConf → Bytes → LocationConf
set_path l path = record l { path = path }

unfoldable pub set_root : LocationConf → Bytes → LocationConf
set_root l root = record l { root = root }

unfoldable pub set_return_url : LocationConf → Bytes → LocationConf
set_return_url l url = record l { return_url = url }

unfoldable pub set_return_code : LocationConf → Bytes → LocationConf
set_return_code l code = record l { return_code = code }

unfoldable pub set_auto_index : LocationConf → Bool → LocationConf
set_auto_index l b = record l { auto_index = b }

unfoldable pub set_default_page : LocationConf → Bytes → LocationConf
set_default_page l page = record l { default_page = page }

unfoldable pub set_storage_location : LocationConf → Bytes → LocationConf
set_storage_location l dir = record l { storage_location = dir }

unfoldable pub add_allowed_method : LocationConf → HttpMethod → LocationConf
add_allowed_method l m = record l { allowed_methods = add_method l.allowed_methods m }

unfoldable pub is_method_allowed : LocationConf → HttpMethod → Bool
is_method_allowed l m = is_allowed l.allowed_methods m

unfoldable pub get_cgi_interpreter : LocationConf → Bytes → Bytes
get_cgi_interpreter l ext = or_empty (lookup ext l.cgi_interpreters)

unfoldable pub add_cgi_interpreter : LocationConf → Bytes → Bytes → LocationConf
add_cgi_interpreter l ext path = record l { cgi_interpreters = insert ext path l.cgi_interpreters }

unfoldable pub is_cgi_extension : LocationConf → Bytes → Bool
is_cgi_extension l ext = is_some (lookup ext l.cgi_interpreters)

-- sockaddr_in, in host byte order.
pub record SockAddr : Type 0 where
  pub address : ℕ
  pub port : ℕ

pub record ServerConf : Type 0 where
  pub server_name : Bytes
  pub interface_port_pair : SockAddr
  pub max_body_size : ℕ
  pub locations : List LocationConf
  pub error_pages : Dict

unfoldable pub new_server : ServerConf
new_server = record {
  server_name = [];
  interface_port_pair = record { address = 0; port = 0 };
  max_body_size = 0;
  locations = [];
  error_pages = [];
}

unfoldable pub set_server_name : ServerConf → Bytes → ServerConf
set_server_name s name = record s { server_name = name }

unfoldable pub set_interface_port_pair : ServerConf → SockAddr → ServerConf
set_interface_port_pair s addr = record s { interface_port_pair = addr }

unfoldable pub set_max_body_size : ServerConf → ℕ → ServerConf
set_max_body_size s n = record s { max_body_size = n }

unfoldable pub add_location : ServerConf → LocationConf → ServerConf
add_location s l = record s { locations = s.locations ++ (l ∷ []) }

unfoldable pub add_error_page : ServerConf → Bytes → Bytes → ServerConf
add_error_page s code path = record s { error_pages = insert code path s.error_pages }

unfoldable pub get_error_page_path : ServerConf → Bytes → Bytes
get_error_page_path s code = or_empty (lookup code s.error_pages)

-- setDefaults, without what it prints: port 8080 of every address, and no location.
unfoldable pub set_defaults : ServerConf → ServerConf
set_defaults s = record s {
  server_name = codes "LeftHookRoll";
  max_body_size = 1024 * 1024;
  interface_port_pair = record { address = 0; port = 8080 };
}
