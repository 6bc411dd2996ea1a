-- ===== src/ConfigParser/Progress/Handlers.antt =====
-- The handlers of a location's directives keep it valid, and use no fuel up.
use left_hook_roll.Conf.{
  LocationConf, set_root, set_return_url, set_return_code, set_auto_index, set_default_page,
  set_storage_location, add_allowed_method, add_cgi_interpreter,
}
use left_hook_roll.ConfigParser.Directives.{
  parse_root, parse_methods, parse_method_list, parse_auto_index, parse_index, parse_upload_store,
  parse_return, parse_cgi_interpreter,
}
use left_hook_roll.ConfigParser.Progress.Rules.{
  Good, Good-bind, Good-then, Good-weaken, Anything, is_fatal, peek-Good, expect-Good,
  one_value-Good, two_values-Good, or_error-Good, round-Good,
}
use left_hook_roll.ConfigParser.Tokens.{
  Stream, Parser, config_error, or_error, peek, consume, expect,
}
use left_hook_roll.ConfigParser.Valid.{IsValidLocation}
use left_hook_roll.ConfigParser.Values.{parse_method_token}
use left_hook_roll.Methods.Bitmap.{add_method-IsBitmap}
use left_hook_roll.Methods.{HttpMethod}
use left_hook_roll.Prelude.Result.{ok, ◌>>=◌, ◌>>◌}
use left_hook_roll.Prelude.{
  ℕ, zero, suc, ◌≤◌, ◌<◌, true, false, not, inl, inr, length, if◌then◌else◌, Bool-cases, arith,
}
use left_hook_roll.Text.{Bytes, codes, equal, all_digits}

-- What the location handlers do to a valid location.
abbrev pub Keeps : (LocationConf → Parser LocationConf) → Type 0
Keeps f =
    (loc : LocationConf)
    → IsValidLocation loc
    → (n : ℕ) (s : Stream) → length s ≤ n
    → Good IsValidLocation n (f loc s)

one_value-Keeps :
    (set : LocationConf → Bytes → LocationConf)
    → ((loc : LocationConf) (b : Bytes) → IsValidLocation loc → IsValidLocation (set loc b))
    → Keeps (λ loc. do b ← consume; expect (codes ";"); ok (set loc b))
one_value-Keeps set keep loc v n s h =
    one_value-Good IsValidLocation (codes ";") n s (λ b. ok (set loc b)) h
      (λ b s' le. (keep loc b v, le))

pub parse_root-Keeps : Keeps parse_root
unfolding parse_root set_root
parse_root-Keeps =
    one_value-Keeps set_root (λ loc b v. record { methods = v.methods; code = v.code })

pub parse_index-Keeps : Keeps parse_index
unfolding parse_index set_default_page
parse_index-Keeps =
    one_value-Keeps set_default_page (λ loc b v. record { methods = v.methods; code = v.code })

pub parse_upload_store-Keeps : Keeps parse_upload_store
unfolding parse_upload_store set_storage_location
parse_upload_store-Keeps =
    one_value-Keeps set_storage_location (λ loc b v. record { methods = v.methods; code = v.code })

pub parse_auto_index-Keeps : Keeps parse_auto_index
unfolding parse_auto_index set_auto_index
parse_auto_index-Keeps loc v n s h =
    one_value-Good IsValidLocation (codes ";") n s
      (λ value.
        (if equal value (codes "on")
          then ok (set_auto_index loc true)
          else if equal value (codes "off")
          then ok (set_auto_index loc false)
          else config_error))
      h (λ value s' le. ground (arith, is_fatal))

pub parse_return-Keeps : Keeps parse_return
unfolding parse_return set_return_code set_return_url
parse_return-Keeps loc v n s h =
    two_values-Good IsValidLocation (codes ";") n s
      (λ code url.
        (if not (all_digits code)
          then config_error
          else ok (set_return_url (set_return_code loc code) url)))
      h
      (λ code url s' le. elim (Bool-cases (all_digits code)) [
        | inl good ↦ rw good (record { methods = v.methods; code = good }, le)
        | inr bad ↦ rw bad is_fatal
      ])

pub parse_cgi_interpreter-Keeps : Keeps parse_cgi_interpreter
unfolding parse_cgi_interpreter add_cgi_interpreter
parse_cgi_interpreter-Keeps loc v n s h =
    two_values-Good IsValidLocation (codes ";") n s
      (λ path ext. ok (add_cgi_interpreter loc ext path)) h
      (λ path ext s' le. (record { methods = v.methods; code = v.code }, le))

add_allowed_method-IsValidLocation :
    (loc : LocationConf) (m : HttpMethod)
    → IsValidLocation loc
    → IsValidLocation (add_allowed_method loc m)
unfolding add_allowed_method
add_allowed_method-IsValidLocation loc m v = record {
  methods = add_method-IsBitmap loc.allowed_methods m v.methods;
  code = v.code;
}

parse_method_list-Good :
    (fuel : ℕ) (loc : LocationConf) (s : Stream) (n : ℕ)
    → IsValidLocation loc
    → length s < fuel
    → length s ≤ n
    → Good IsValidLocation n (parse_method_list fuel loc s)
unfolding parse_method_list
parse_method_list-Good zero loc s n v h k = absurd (omega arith)
parse_method_list-Good (suc fuel) loc s n v h k =
    round-Good IsValidLocation (codes ";") n loc s
      (λ token. do
        method ← or_error (parse_method_token token)
        parse_method_list fuel (add_allowed_method loc method))
      v k
      (λ t ts less.
        Good-weaken IsValidLocation (length ts) n _
          (Good-bind Anything IsValidLocation (length ts) (or_error (parse_method_token t))
            (λ method. parse_method_list fuel (add_allowed_method loc method)) ts
            (or_error-Good Anything (parse_method_token t) (length ts) ts (omega arith) (λ _ _. tt))
            (λ m s' _ le.
              parse_method_list-Good fuel (add_allowed_method loc m) s' (length ts)
                (add_allowed_method-IsValidLocation loc m v) (omega arith) le))
          (omega arith))

method_loop-Good :
    (loc : LocationConf) (n : ℕ) (s : Stream)
    → IsValidLocation loc
    → length s ≤ n
    → Good IsValidLocation n (
        (do loc' ← (λ s'. parse_method_list (suc (length s')) loc s'); expect (codes ";"); ok loc')
          s)
method_loop-Good loc n s v h =
    Good-bind IsValidLocation IsValidLocation n (λ s'. parse_method_list (suc (length s')) loc s')
      (λ loc'. expect (codes ";") >> ok loc') s
      (parse_method_list-Good (suc (length s)) loc s n v (omega arith) h)
      (λ loc' s' v' le.
        Good-then Anything IsValidLocation n (expect (codes ";")) (ok loc') s'
          (expect-Good (codes ";") n s' le) (λ s'' le'. (v', le')))

pub parse_methods-Keeps : Keeps parse_methods
unfolding parse_methods
parse_methods-Keeps loc v n s h =
    Good-bind Anything IsValidLocation n peek
      (λ first.
        (if equal first (codes ";") then config_error else (do
          loc' ← (λ s'. parse_method_list (suc (length s')) loc s')
          expect (codes ";")
          ok loc')))
      s (peek-Good n s h)
      (λ first s' _ le. elim (Bool-cases (equal first (codes ";"))) [
        | inl none_given ↦ rw none_given is_fatal
        | inr some_given ↦ rw some_given (method_loop-Good loc n s' v le)
      ])
