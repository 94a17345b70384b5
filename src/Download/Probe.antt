-- ===== src/Download/Probe.antt =====
-- The probe of the target's size in src/proxchunk.cpp: the header that a Range request brings back, or
-- the metadata of archive.org. What the transfers bring back is given.
pub mod Ranges
use proxchunk.Prelude.{
  ℕ, zero, suc, ◌+◌, ◌-◌, ◌*◌, ◌/◌, ◌%◌, ◌≤◌, ◌<◌, min, max, String, ◌≡◌, refl, sym, ap, ◌∙◌, subst,
  ◌≢◌, ◌↔◌, ◌⊎◌, inl, inr, Bool, true, false, not, ◌&&◌, ◌||◌, Option, none, some, List, [], ◌∷◌,
  ◌++◌, map, append-nil, append_assoc, arith, ltb, leb, ◌==◌, if◌then◌else◌, ltb→lt, lt→ltb, leb→le,
  ==_iff, Bool-cases, Option-cases, length, take, drop, concat, is_empty, length-append,
  take-append-drop, length-take, length-drop, drop-length-append, All, All-append, All-append_left,
  All-append_right, ℤ, pos, negsuc, sub_ℕ, Bytes, codes, bytes_eq, bytes_eq_iff, bytes_eq_refl,
  starts_with, contains_byte, contains, decimal, is_space, is_digit, digits_from, skip_space,
  strtol, atoi, IsDigit, digits_from-append, decimal_from-IsDigit, strtol-decimal,
}
use proxchunk.Ia.{ia_parse_download_url}
use proxchunk.Ia.Size.{from_marker, ia_size_from_metadata_json}

pub record FileInfo : Type 0 where
  pub size : ℤ
  pub accepts_ranges : Bool

-- The messages of `std::unexpected`.
pub data ProbeError : Type 0 where
  no_curl probe_failed no_size not_archive not_listed : ProbeError
  unexpected_http : ℕ → ProbeError

pub data Expected : Type 0 where
  failed : ProbeError → Expected
  found : FileInfo → Expected

-- A transfer: `none` where curl_easy_init fails, and else whether the result is CURLE_OK, the response
-- code, and what was written of the headers or the body.
abbrev pub Got : Type 0
Got = Option (Bool × ℕ × Bytes)

-- `std::stoll`, or `none` where it throws.
abbrev pub in_int64 : ℤ → Bool
in_int64 (pos n) = leb n 9223372036854775807
in_int64 (negsuc n) = leb n 9223372036854775807

abbrev pub stoll : Bytes → Option ℤ
stoll s = elim (strtol s) [ none ↦ none | some n ↦ if in_int64 n then some n else none ]

-- `total.substr(0, total.find_first_of("\r\n "))`
pub before_end : Bytes → Bytes
before_end [] = []
before_end (c ∷ s) =
    let rest = before_end s in if c == b'\r' || c == b'\n' || c == b' ' then [] else c ∷ rest

-- Behind the first slash, or `none`.
pub behind_slash : Bytes → Option Bytes
behind_slash [] = none
behind_slash (c ∷ s) = let later = behind_slash s in if c == b'/' then some s else later

-- From the first digit on, or `none`.
pub from_digit : Bytes → Option Bytes
from_digit [] = none
from_digit (c ∷ s) = let later = from_digit s in if is_digit c then some (c ∷ s) else later

-- `find` of a header's name, and of the name in lower case where it is not there.
abbrev pub header_at : Bytes → Bytes → Bytes → Option Bytes
header_at name lower headers = elim (from_marker name headers) [
  | some rest ↦ some rest
  | none ↦ from_marker lower headers
]

abbrev pub or_unknown : Option ℤ → ℤ
or_unknown none = negsuc 0
or_unknown (some n) = n

abbrev pub range_total : Option Bytes → ℤ
range_total none = negsuc 0
range_total (some rest) = elim (behind_slash rest) [
  | none ↦ negsuc 0
  | some total ↦ or_unknown (stoll (before_end total))
]

abbrev content_length : Option Bytes → ℤ
content_length none = negsuc 0
content_length (some rest) = elim (from_digit rest) [
  | none ↦ negsuc 0
  | some digits ↦ or_unknown (stoll digits)
]

abbrev pub sized : FileInfo → Expected
sized info = elim info.size [
  | pos n ↦ if n == 0 then failed no_size else found info
  | negsuc n ↦ failed no_size
]

abbrev pub from_range : Bytes → FileInfo
from_range headers = record {
  size = range_total (header_at (codes "Content-Range:") (codes "content-range:") headers);
  accepts_ranges = true;
}

abbrev pub from_length : Bytes → FileInfo
from_length headers = record {
  size = content_length (header_at (codes "Content-Length:") (codes "content-length:") headers);
  accepts_ranges = false;
}

abbrev pub answered : ℕ → Bytes → Expected
answered code headers =
    if code == 206
    then sized (from_range headers)
    else if code == 200
    then sized (from_length headers)
    else failed (unexpected_http code)

pub probe_file : Got → Expected
unfolding strtol from_marker before_end behind_slash from_digit
probe_file none = failed no_curl
probe_file (some (ok, code, headers)) =
    if not ok then failed probe_failed else answered code headers

abbrev pub listed : Option ℕ → Expected
listed none = failed not_listed
listed (some n) = found (record { size = pos n; accepts_ranges = true })

abbrev pub metadata_answer : Bytes → Got → Expected
metadata_answer filename none = failed no_curl
metadata_answer filename (some (ok, code, body)) =
    if not ok
    then failed probe_failed
    else if not (code == 200)
    then failed (unexpected_http code)
    else listed (ia_size_from_metadata_json body filename)

-- `fetch` is the transfer of the metadata of an identifier.
pub probe_archive_org_metadata : Bytes → (Bytes → Got) → Expected
unfolding ia_parse_download_url ia_size_from_metadata_json
probe_archive_org_metadata url fetch = elim (ia_parse_download_url url) [
  | none ↦ failed not_archive
  | some (identifier, filename) ↦ metadata_answer filename (fetch identifier)
]

unfoldable pub probe_size_direct : Bytes → (Bytes → Got) → Got → Expected
unfolding probe_archive_org_metadata probe_file
probe_size_direct url fetch probe = elim (probe_archive_org_metadata url fetch) [
  | found info ↦ found info
  | failed error ↦ probe_file probe
]
