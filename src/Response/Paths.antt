-- ===== src/Response/Paths.antt =====
-- src/Response.cpp: the choice of a location, and the functions on paths.
pub mod Choice
use left_hook_roll.Conf.{LocationConf, ServerConf}
use left_hook_roll.Prelude.{
  ◌++◌, ℕ, ◌+◌, ◌-◌, Bool, true, false, ◌&&◌, ◌||◌, Option, none, some, List, [], ◌∷◌, ◌==◌, ltb,
  leb, if◌then◌else◌, take, drop, length,
}
use left_hook_roll.Text.Trim.{lower}
use left_hook_roll.Text.{Bytes, codes, equal, rfind}

-- s[i] == c
unfoldable pub has_at : Bytes → ℕ → ℕ → Bool
has_at s i c = elim (drop i s) [ [] ↦ false | ◌∷◌ d ds ↦ d == c ]

-- The variable `matches` of matchLocation.
unfoldable pub matches : Bytes → Bytes → Bool
matches url lpath =
    if equal lpath (codes "/")
    then true
    else if equal url lpath
    then true
    else if ltb (length lpath) (length url) && has_at url (length lpath) b'/'
    then equal (take (length lpath) url) lpath
    else false

-- The loop of matchLocation, with its variables `best` and `longestMatch`.
unfoldable pub match_loop :
    Bytes → List LocationConf → Option LocationConf → ℕ → Option LocationConf
match_loop url [] best longest = best
match_loop url (l ∷ ls) best longest = elim (matches url l.path && leb longest (length l.path)) [
  | true ↦ match_loop url ls (some l) (length l.path)
  | false ↦ match_loop url ls best longest
]

unfoldable pub match_location : Bytes → ServerConf → Option LocationConf
unfolding match_loop matches equal has_at
match_location url config = match_loop url config.locations none 0

unfoldable pub is_path_safe : Bytes → Bytes → Bool
is_path_safe root resolved =
    if ltb (length resolved) (length root) then false else equal (take (length root) resolved) root

unfoldable pub get_file_extension : Bytes → Bytes
unfolding rfind
get_file_extension path = elim (rfind b'.' path) [
  | none ↦ []
  | some dot ↦ elim (rfind b'/' path) [
    | none ↦ drop dot path
    | some slash ↦ if ltb dot slash then [] else drop dot path
  ]
]

unfoldable pub extract_filename_from_url : Bytes → Bytes
unfolding rfind
extract_filename_from_url url = elim (rfind b'/' url) [
  | none ↦ []
  | some slash ↦ if slash == length url - 1 then [] else drop (slash + 1) url
]

-- The type for an extension in lower case.
unfoldable pub type_of_extension : Bytes → Bytes
unfolding equal
type_of_extension ext =
    if equal ext (codes "html") || equal ext (codes "htm")
    then codes "text/html"
    else if equal ext (codes "css")
    then codes "text/css"
    else if equal ext (codes "js")
    then codes "application/javascript"
    else if equal ext (codes "json")
    then codes "application/json"
    else if equal ext (codes "xml")
    then codes "application/xml"
    else if equal ext (codes "txt")
    then codes "text/plain"
    else if equal ext (codes "png")
    then codes "image/png"
    else if equal ext (codes "jpg") || equal ext (codes "jpeg")
    then codes "image/jpeg"
    else if equal ext (codes "gif")
    then codes "image/gif"
    else if equal ext (codes "svg")
    then codes "image/svg+xml"
    else if equal ext (codes "ico")
    then codes "image/x-icon"
    else if equal ext (codes "pdf")
    then codes "application/pdf"
    else if equal ext (codes "zip")
    then codes "application/zip"
    else codes "application/octet-stream"

unfoldable pub detect_content_type : Bytes → Bytes
unfolding rfind lower type_of_extension
detect_content_type path = elim (rfind b'.' path) [
  | none ↦ codes "application/octet-stream"
  | some dot ↦ type_of_extension (lower (drop (dot + 1) path))
]

-- resolvedPath, without a slash at its end
unfoldable pub resolve_path : Bytes → Bytes → Bytes
unfolding has_at
resolve_path root url =
    let path = root ++ url in
    if ltb 1 (length path) && has_at path (length path - 1) b'/'
    then take (length path - 1) path
    else path
