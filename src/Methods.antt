-- ===== src/Methods.antt =====
-- src/AllowedMethods.cpp and includes/AllowedMethods.hpp: the HTTP methods and the bitmap of them.
pub mod Bitmap
use Prim.Native.Nat.{bit_and, bit_or}
use left_hook_roll.Prelude.{ℕ, ◌-◌, Bool, not, ◌==◌, if◌then◌else◌}
use left_hook_roll.Text.{Bytes, codes, equal}

pub data HttpMethod : Type 0 where
  unknown_method get post delete : HttpMethod

-- The enumerators' values.
unfoldable pub bits : HttpMethod → ℕ
bits unknown_method = 0
bits get = 1
bits post = 2
bits delete = 4

-- The bitmap is a `short` that is never negative.
pub record AllowedMethods : Type 0 where
  pub bitmap : ℕ

unfoldable pub no_methods : AllowedMethods
no_methods = record { bitmap = 0 }

unfoldable pub add_method : AllowedMethods → HttpMethod → AllowedMethods
unfolding bits
add_method a m = record a { bitmap = bit_or a.bitmap (bits m) }

-- `~method` has the 15 value bits of a `short` set, but for the method's.
unfoldable pub remove_method : AllowedMethods → HttpMethod → AllowedMethods
unfolding bits
remove_method a m = record a { bitmap = bit_and a.bitmap (32767 - bits m) }

unfoldable pub is_allowed : AllowedMethods → HttpMethod → Bool
unfolding bits
is_allowed a m = not (bit_and a.bitmap (bits m) == 0)

unfoldable pub clear : AllowedMethods → AllowedMethods
clear a = record a { bitmap = 0 }

unfoldable pub string_to_method : Bytes → HttpMethod
string_to_method s =
    if equal s (codes "GET")
    then get
    else if equal s (codes "POST")
    then post
    else if equal s (codes "DELETE")
    then delete
    else unknown_method

unfoldable pub method_to_string : HttpMethod → Bytes
method_to_string get = codes "GET"
method_to_string post = codes "POST"
method_to_string delete = codes "DELETE"
method_to_string unknown_method = codes "UNKNOWN"
