-- ===== src/Ia/Size.antt =====
-- ia_size_from_metadata_json of include/proxchunk/ia_size.hpp: the size of a file in the metadata of
-- archive.org.
use proxchunk.Prelude.{
  ℕ, ◌||◌, Option, none, some, [], ◌∷◌, ◌++◌, ◌==◌, if◌then◌else◌, take, is_empty, Bytes, codes,
  starts_with, decimal, is_digit, digits_from,
}
use proxchunk.Ia.{after_marker}

-- `json.substr(json.find(needle))`, or `none` where it is not found.
unfoldable pub from_marker : Bytes → Bytes → Option Bytes
from_marker needle [] = if is_empty needle then some [] else none
from_marker needle (c ∷ s) =
    let later = from_marker needle s in if starts_with needle (c ∷ s) then some (c ∷ s) else later

-- The loop over `' '` and `'"'`.
pub skip_quotes : Bytes → Bytes
skip_quotes [] = []
skip_quotes (c ∷ s) = let rest = skip_quotes s in if c == b' ' || c == b'"' then rest else c ∷ s

abbrev pub name_marker : Bytes → Bytes
name_marker filename = codes "\"name\":\"" ++ (filename ++ codes "\"")

abbrev pub size_marker : Bytes
size_marker = codes "\"size\":"

-- From the first digit on; the source's int64_t holds any number of at most 18 digits.
abbrev pub positive_size : ℕ → Option ℕ
positive_size n = if n == 0 then none else some n

abbrev pub read_size : Bytes → Option ℕ
read_size [] = none
read_size (c ∷ s) = if is_digit c then positive_size (digits_from 0 (c ∷ s)) else none

abbrev pub size_behind : Option Bytes → Option ℕ
size_behind none = none
size_behind (some value) = read_size (skip_quotes value)

abbrev pub size_in : Option Bytes → Option ℕ
size_in none = none
size_in (some entry) = size_behind (after_marker size_marker (take 1024 entry))

unfoldable pub ia_size_from_metadata_json : Bytes → Bytes → Option ℕ
unfolding from_marker skip_quotes digits_from after_marker
ia_size_from_metadata_json json filename =
    if is_empty json || is_empty filename
    then none
    else size_in (from_marker (name_marker filename) json)

-- An entry as the metadata has it: the name, then other fields, then the size in quotes.
abbrev pub entry_of : Bytes → Bytes → ℕ → Bytes
entry_of filename fields n =
    (name_marker filename ++ fields) ++ (size_marker ++ b'"' ∷ (decimal n ++ b'"' ∷ []))
