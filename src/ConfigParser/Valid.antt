-- ===== src/ConfigParser/Valid.antt =====
-- What the parser guarantees of the configurations that it returns.
use left_hook_roll.Conf.{
  LocationConf, ServerConf, new_location, new_server, set_path, add_location, add_error_page,
}
use left_hook_roll.ConfigParser.Directives.{is_error_code}
use left_hook_roll.Dict.{Dict, insert}
use left_hook_roll.Methods.Bitmap.{IsBitmap}
use left_hook_roll.Prelude.{◌^◌, ◌≤◌, ◌<◌, ◌≡◌, refl, true, List, [], ◌∷◌, ◌++◌, arith}
use left_hook_roll.Text.{Bytes, all_digits, equal_iff}

-- The bitmap holds methods alone, and the code of `return` is made of digits.
pub record IsValidLocation (l : LocationConf) : Type 0 where
  pub methods : IsBitmap l.allowed_methods
  pub code : all_digits l.return_code ≡ true

abbrev pub AllValid : List LocationConf → Type 0
AllValid [] = Unit
AllValid (l ∷ ls) = IsValidLocation l × AllValid ls

abbrev pub AllCodes : Dict → Type 0
AllCodes [] = Unit
AllCodes ((k, v) ∷ m) = (is_error_code k ≡ true) × AllCodes m

-- The port fits 16 bits, the size limit fits a size_t, error pages stand under codes of three
-- digits, and the locations are valid.
pub record IsValidServer (s : ServerConf) : Type 0 where
  pub port : s.interface_port_pair.port ≤ 65535
  pub size : s.max_body_size < 2 ^ 64
  pub codes_ok : AllCodes s.error_pages
  pub locations_ok : AllValid s.locations

abbrev pub AllServers : List ServerConf → Type 0
AllServers [] = Unit
AllServers (s ∷ ss) = IsValidServer s × AllServers ss

pub new_location-IsValidLocation : (path : Bytes) → IsValidLocation (set_path new_location path)
unfolding new_location set_path
new_location-IsValidLocation path = record { methods = omega arith; code = refl }

pub new_server-IsValidServer : IsValidServer new_server
unfolding new_server
new_server-IsValidServer = record {
  port = omega arith;
  size = omega arith;
  codes_ok = tt;
  locations_ok = tt;
}

insert-AllCodes :
    (k v : Bytes) (m : Dict) → is_error_code k ≡ true → AllCodes m → AllCodes (insert k v m)
unfolding insert
insert-AllCodes k v [] h a = (h, tt)
insert-AllCodes k v ((j, w) ∷ m) h a = ground (arith, equal_iff j k, insert-AllCodes k v m h)

AllValid-concat :
    (ls : List LocationConf) (l : LocationConf)
    → AllValid ls
    → IsValidLocation l
    → AllValid (ls ++ (l ∷ []))
AllValid-concat [] l a h = (h, tt)
AllValid-concat (x ∷ ls) l (p, a) h = (p, AllValid-concat ls l a h)

pub AllServers-concat :
    (ss : List ServerConf) (s : ServerConf)
    → AllServers ss
    → IsValidServer s
    → AllServers (ss ++ (s ∷ []))
AllServers-concat [] s a h = (h, tt)
AllServers-concat (x ∷ ss) s (p, a) h = (p, AllServers-concat ss s a h)

pub add_location-IsValidServer :
    (s : ServerConf) (l : LocationConf)
    → IsValidServer s
    → IsValidLocation l
    → IsValidServer (add_location s l)
unfolding add_location
add_location-IsValidServer s l v h = record {
  port = v.port;
  size = v.size;
  codes_ok = v.codes_ok;
  locations_ok = AllValid-concat s.locations l v.locations_ok h;
}

pub add_error_page-IsValidServer :
    (s : ServerConf) (code path : Bytes)
    → IsValidServer s
    → is_error_code code ≡ true
    → IsValidServer (add_error_page s code path)
unfolding add_error_page
add_error_page-IsValidServer s code path v h = record {
  port = v.port;
  size = v.size;
  codes_ok = insert-AllCodes code path s.error_pages h v.codes_ok;
  locations_ok = v.locations_ok;
}
