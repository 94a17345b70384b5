-- ===== src/ProxyList.antt =====
-- Proxy lists as text: trim, normalize_proxy_line, load_proxy_file and default_output_name of
-- include/proxchunk/plan.hpp, and parse_proxy_body of src/proxy_engine.cpp.
pub mod Trim
pub mod Urls
pub mod OutputName
mod Tests
use proxchunk.Prelude.{
  ℕ, Bool, true, ◌&&◌, ◌||◌, Option, none, some, List, [], ◌∷◌, ◌++◌, ◌==◌, if◌then◌else◌, is_empty,
  Bytes, codes, bytes_eq, contains_byte, contains,
}

-- The tests of `trim`'s two loops.
unfoldable pub is_blank : ℕ → Bool
is_blank c = c == b' ' || c == b'\t' || c == b'\r' || c == b'\n'

-- `remove_prefix` while the front is blank.
pub trim_front : Bytes → Bytes
trim_front [] = []
trim_front (c ∷ s) = let rest = trim_front s in if is_blank c then rest else c ∷ s

-- `remove_suffix` while the back is blank: a byte goes when all behind it is gone.
pub trim_back : Bytes → Bytes
trim_back [] = []
trim_back (c ∷ s) = let rest = trim_back s in if is_empty rest && is_blank c then [] else c ∷ rest

unfoldable pub trim : Bytes → Bytes
unfolding trim_front trim_back is_blank
trim s = trim_back (trim_front s)

abbrev pub sep : Bytes
sep = codes "://"

-- `line.empty() || line[0] == '#' || line[0] == '/'`
unfoldable pub is_skipped : Bytes → Bool
is_skipped [] = true
is_skipped (c ∷ s) = c == b'#' || c == b'/'

-- The tests on a trimmed line, and what is made of it.
pub with_scheme : Bytes → Bytes → Bytes
with_scheme line default_scheme =
    if contains sep line
    then line
    else if contains_byte b':' line
    then default_scheme ++ line
    else []

unfoldable pub normalize_proxy_line : Bytes → Bytes → Bytes
unfolding trim is_skipped with_scheme
normalize_proxy_line raw default_scheme =
    let line = trim raw in if is_skipped line then [] else with_scheme line default_scheme

-- `std::getline` until it fails: the pieces between newlines, without an empty last one.
unfoldable pub get_lines_from : Bytes → Bytes → List Bytes
get_lines_from cur [] = if is_empty cur then [] else cur ∷ []
get_lines_from cur (c ∷ s) =
    let next = get_lines_from [] s in
    let more = get_lines_from (cur ++ c ∷ []) s in if c == b'\n' then cur ∷ next else more

abbrev pub get_lines : Bytes → List Bytes
get_lines = get_lines_from []

pub load_lines : Bytes → List Bytes → List Bytes
load_lines default_scheme [] = []
load_lines default_scheme (raw ∷ rest) =
    let url = normalize_proxy_line raw default_scheme in
    let urls = load_lines default_scheme rest in if is_empty url then urls else url ∷ urls

-- The file's contents, or `none` where it cannot be opened.
unfoldable pub load_proxy_file : Option Bytes → Bytes → List Bytes
unfolding load_lines get_lines_from
load_proxy_file none default_scheme = []
load_proxy_file (some text) default_scheme = load_lines default_scheme (get_lines text)

-- `parse_proxy_body` of the engine is written out once more, with `continue`.
pub parse_lines : Bytes → List Bytes → List Bytes
unfolding trim is_skipped
parse_lines bare_scheme [] = []
parse_lines bare_scheme (raw ∷ rest) =
    let line = trim raw in
    let urls = parse_lines bare_scheme rest in
    if is_skipped line
    then urls
    else if contains sep line
    then line ∷ urls
    else if contains_byte b':' line
    then (bare_scheme ++ line) ∷ urls
    else urls

unfoldable pub parse_proxy_body : Bytes → Bytes → List Bytes
unfolding parse_lines get_lines_from
parse_proxy_body body bare_scheme = parse_lines bare_scheme (get_lines body)

-- `url.substr(url.find_last_of('/') + 1)`, or the whole URL.
pub after_last_slash : Bytes → Bytes
after_last_slash [] = []
after_last_slash (c ∷ s) =
    let rest = after_last_slash s in
    if contains_byte b'/' s then rest else if c == b'/' then s else c ∷ s

-- `name.resize(name.find('?'))`
pub before_query : Bytes → Bytes
before_query [] = []
before_query (c ∷ s) = let rest = before_query s in if c == b'?' then [] else c ∷ rest

unfoldable pub default_output_name : Bytes → Bytes
unfolding after_last_slash before_query
default_output_name url =
    let name = before_query (after_last_slash url) in
    if is_empty name || bytes_eq name (codes ".") || bytes_eq name (codes "..")
    then codes "download.bin"
    else name
