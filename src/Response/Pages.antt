-- ===== src/Response/Pages.antt =====
-- src/Response.cpp: the reason phrases and the HTML pages.
use left_hook_roll.Prelude.{
  none, some, Option, Bool, true, false, ◌||◌, List, [], ◌∷◌, ◌++◌, if◌then◌else◌, not,
}
use left_hook_roll.Response.State.{directory, Stat, Site}
use left_hook_roll.Text.{Bytes, codes, equal}

unfoldable pub lookup_reason_phrase : Bytes → Bytes
unfolding equal
lookup_reason_phrase code =
    if equal code (codes "200")
    then codes "OK"
    else if equal code (codes "201")
    then codes "Created"
    else if equal code (codes "204")
    then codes "No Content"
    else if equal code (codes "301")
    then codes "Moved Permanently"
    else if equal code (codes "302")
    then codes "Found"
    else if equal code (codes "303")
    then codes "See Other"
    else if equal code (codes "307")
    then codes "Temporary Redirect"
    else if equal code (codes "308")
    then codes "Permanent Redirect"
    else if equal code (codes "400")
    then codes "Bad Request"
    else if equal code (codes "403")
    then codes "Forbidden"
    else if equal code (codes "404")
    then codes "Not Found"
    else if equal code (codes "405")
    then codes "Method Not Allowed"
    else if equal code (codes "408")
    then codes "Request Timeout"
    else if equal code (codes "411")
    then codes "Length Required"
    else if equal code (codes "413")
    then codes "Content Too Large"
    else if equal code (codes "414")
    then codes "URI Too Long"
    else if equal code (codes "500")
    then codes "Internal Server Error"
    else if equal code (codes "501")
    then codes "Not Implemented"
    else if equal code (codes "502")
    then codes "Bad Gateway"
    else if equal code (codes "503")
    then codes "Service Unavailable"
    else if equal code (codes "504")
    then codes "Gateway Timeout"
    else codes "Unknown"

unfoldable pub build_default_error_html : Bytes → Bytes → Bytes
build_default_error_html code phrase =
    codes "<!DOCTYPE html>\r\n<html>\r\n<head><meta charset=\"utf-8\"><title>"
    ++ ((code ++ (codes " " ++ phrase))
        ++ (codes "</title></head>\r\n<body>\r\n<h1>"
            ++ ((code ++ (codes " " ++ phrase))
                ++ codes "</h1>\r\n<p>LeftHookRoll/1.0</p>\r\n</body>\r\n</html>")))

abbrev is_directory : Option Stat → Bool
is_directory none = false
is_directory (some s) = elim s.kind [ directory ↦ true | _ ↦ false ]

module _ (site : Site) where
  -- One entry of the listing.
  unfoldable pub entry_line : Bytes → Bytes → Bytes
  entry_line dir name =
      if equal name (codes ".") || equal name (codes "..")
      then []
      else (let shown =
            if is_directory (site.stat (dir ++ (codes "/" ++ name)))
            then name ++ codes "/"
            else name in
          codes "<a href=\"" ++ (shown ++ (codes "\">" ++ (shown ++ codes "</a>\r\n"))))

  unfoldable pub entry_lines : Bytes → List Bytes → Bytes
  entry_lines dir [] = []
  entry_lines dir (name ∷ names) = entry_line dir name ++ entry_lines dir names

  unfoldable pub build_auto_index_page : Bytes → Bytes → Bytes
  build_auto_index_page url dir = elim (site.open_dir dir) [
    | none ↦ []
    | some names ↦
        codes "<!DOCTYPE html>\r\n<html>\r\n<head><meta charset=\"utf-8\"><title>Index of "
        ++ (url
            ++ (codes "</title></head>\r\n<body>\r\n<h1>Index of "
                ++ (url
                    ++ (codes "</h1>\r\n<hr>\r\n<pre>\r\n"
                        ++ ((if not (equal url (codes "/"))
                              then codes "<a href=\"../\">../</a>\r\n"
                              else [])
                            ++ (entry_lines dir names
                                ++ codes "</pre>\r\n<hr>\r\n</body>\r\n</html>"))))))
  ]
