-- ===== src/Ia.antt =====
-- include/proxchunk/ia_size.hpp: percent-decoding, and the parts of an archive.org download URL.
pub mod Decode
pub mod Size
pub mod Url
mod Tests
use proxchunk.Prelude.{
  ℕ, ◌+◌, ◌-◌, ◌*◌, Bool, ◌&&◌, ◌||◌, Option, none, some, [], ◌∷◌, leb, ◌==◌, if◌then◌else◌, length,
  drop, is_empty, Bytes, codes, starts_with,
}

pub is_xdigit : ℕ → Bool
is_xdigit c =
    (leb b'0' c && leb c b'9') || ((leb b'a' c && leb c b'f') || (leb b'A' c && leb c b'F'))

pub hex : ℕ → ℕ
hex c =
    if leb b'0' c && leb c b'9'
    then c - b'0'
    else if leb b'a' c && leb c b'f'
    then c - b'a' + 10
    else if leb b'A' c && leb c b'F'
    then c - b'A' + 10
    else 0

pub plus_as_space : ℕ → ℕ
plus_as_space c = if c == b'+' then b' ' else c

-- `(hex(a) << 4) | hex(b)` is a sum, since hex(b) is below 16.
pub url_decode : Bytes → Bytes
unfolding is_xdigit hex plus_as_space
url_decode [] = []
url_decode (c ∷ []) = plus_as_space c ∷ []
url_decode (c ∷ a ∷ []) = plus_as_space c ∷ url_decode (a ∷ [])
url_decode (c ∷ a ∷ b ∷ s) =
    let escaped = url_decode s in
    let plain = url_decode (a ∷ b ∷ s) in
    if c == b'%' && (is_xdigit a && is_xdigit b)
    then (hex a * 16 + hex b) ∷ escaped
    else plus_as_space c ∷ plain

-- What stands behind the first place of the marker.
pub after_marker : Bytes → Bytes → Option Bytes
after_marker marker [] = if is_empty marker then some [] else none
after_marker marker (c ∷ s) =
    let later = after_marker marker s in
    if starts_with marker (c ∷ s) then some (drop (length marker) (c ∷ s)) else later

abbrev in_first : ℕ → Option (Bytes × Bytes) → Option (Bytes × Bytes)
in_first c none = none
in_first c (some (a, b)) = some (c ∷ a, b)

-- Before and behind the first slash.
pub at_slash : Bytes → Option (Bytes × Bytes)
at_slash [] = none
at_slash (c ∷ s) = let found = in_first c (at_slash s) in if c == b'/' then some ([], s) else found

-- Up to the first `?` or `#`.
pub before_query_or_fragment : Bytes → Bytes
before_query_or_fragment [] = []
before_query_or_fragment (c ∷ s) =
    let rest = before_query_or_fragment s in if c == b'?' || c == b'#' then [] else c ∷ rest

pub named_file : Bytes → Bytes → Option (Bytes × Bytes)
named_file ident file =
    if is_empty file || is_empty ident then none else some (ident, url_decode file)

pub ia_parse_rest : Bytes → Option (Bytes × Bytes)
unfolding at_slash before_query_or_fragment named_file
ia_parse_rest rest = elim (at_slash rest) [
  | none ↦ none
  | some (ident, file) ↦
      if is_empty ident then none else named_file ident (before_query_or_fragment file)
]

unfoldable pub ia_parse_download_url : Bytes → Option (Bytes × Bytes)
unfolding after_marker ia_parse_rest
ia_parse_download_url url = elim (after_marker (codes "archive.org/download/") url) [
  | none ↦ none
  | some rest ↦ ia_parse_rest rest
]
