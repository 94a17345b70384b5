-- ===== src/Download/Probe/Ranges.antt =====
-- What the probe finds.
use proxchunk.Prelude.{
  ℕ, suc, ◌≤◌, ◌<◌, ◌≡◌, refl, ap, ◌∙◌, subst, inl, inr, Bool, true, false, not, ◌||◌, Option, none,
  some, [], ◌∷◌, ◌++◌, arith, ◌==◌, if◌then◌else◌, Bool-cases, Option-cases, take, is_empty, All, ℤ,
  pos, negsuc, Bytes, codes, contains_byte, decimal, is_digit, digits_from, IsDigit,
  decimal_from-IsDigit, strtol-decimal,
}
use proxchunk.Ia.{after_marker, ia_parse_download_url}
use proxchunk.Ia.Size.{
  size_marker, from_marker, ia_size_from_metadata_json, skip_quotes, name_marker, read_size,
  positive_size, size_behind, size_in,
}
use proxchunk.Download.Probe.{
  no_size, from_range, from_length, FileInfo, Expected, failed, found, Got, stoll, in_int64,
  before_end, behind_slash, sized, listed, metadata_answer, range_total, header_at, or_unknown,
  probe_file, probe_archive_org_metadata, probe_size_direct,
}

-- A size that is known.
abbrev IsSized : Expected → Type 0
IsSized (failed error) = Unit {0}
IsSized (found info) = (n : ℕ) × (0 < n) × (info.size ≡ pos n)

sized-IsSized : (info : FileInfo) → IsSized (sized info)
sized-IsSized info = go info.size info.accepts_ranges
  where
    go : (n : ℤ) (ranges : Bool) → IsSized (sized (record { size = n; accepts_ranges = ranges }))
    go (negsuc n) ranges = tt
    go (pos n) ranges = elim (Bool-cases (n == 0)) [
      | inl zero_bytes ↦ rw zero_bytes tt
      | inr bytes ↦ rw bytes (n, ground (arith, bytes), refl)
    ]

either : (b : Bool) (x y : Expected) → IsSized x → IsSized y → IsSized (if b then x else y)
either true x y h k = h
either false x y h k = k

probe_file-IsSized : (got : Got) → IsSized (probe_file got)
unfolding probe_file
probe_file-IsSized none = tt
probe_file-IsSized (some (ok, code, headers)) = either (not ok) _ _ tt (
    either (code == 206) _ _ (sized-IsSized (from_range headers))
      (either (code == 200) _ _ (sized-IsSized (from_length headers)) tt))

-- A number that is more than 0, or none.
abbrev IsCount : Option ℕ → Type 0
IsCount none = Unit {0}
IsCount (some n) = 0 < n

positive_size-IsCount : (n : ℕ) → IsCount (positive_size n)
positive_size-IsCount n = elim (Bool-cases (n == 0)) [
  | inl nothing ↦ rw nothing tt
  | inr some_bytes ↦ rw some_bytes (ground (arith, some_bytes))
]

read_size-IsCount : (s : Bytes) → IsCount (read_size s)
read_size-IsCount [] = tt
read_size-IsCount (c ∷ s) = elim (Bool-cases (is_digit c)) [
  | inl digit ↦ rw digit (positive_size-IsCount (digits_from 0 (c ∷ s)))
  | inr other ↦ rw other tt
]

ia_size-IsCount : (json filename : Bytes) → IsCount (ia_size_from_metadata_json json filename)
unfolding ia_size_from_metadata_json
ia_size-IsCount json filename = elim (Bool-cases (is_empty json || is_empty filename)) [
  | inl empty ↦ rw empty tt
  | inr full ↦ rw full (entry (from_marker (name_marker filename) json))
]
  where
    behind : (o : Option Bytes) → IsCount (size_behind o)
    behind none = tt
    behind (some value) = read_size-IsCount (skip_quotes value)

    entry : (o : Option Bytes) → IsCount (size_in o)
    entry none = tt
    entry (some e) = behind (after_marker size_marker (take 1024 e))

metadata-IsSized :
    (url : Bytes) (fetch : Bytes → Got) → IsSized (probe_archive_org_metadata url fetch)
unfolding probe_archive_org_metadata
metadata-IsSized url fetch = elim (Option-cases (ia_parse_download_url url)) [
  | inl other ↦ rw (other, probe_archive_org_metadata) tt
  | inr ((identifier, filename), archive) ↦
      rw (archive, probe_archive_org_metadata) (answer filename (fetch identifier))
]
  where
    of_count : (o : Option ℕ) → IsCount o → IsSized (listed o)
    of_count none h = tt
    of_count (some n) h = (n, h, refl)

    answer : (filename : Bytes) (got : Got) → IsSized (metadata_answer filename got)
    answer filename none = tt
    answer filename (some (ok, code, body)) = either (not ok) _ _ tt (
        either (not (code == 200)) _ _ tt
          (of_count (ia_size_from_metadata_json body filename) (ia_size-IsCount body filename)))

-- A probe that succeeds has found a size of at least one byte, from whatever the servers answer.
pub probe_size_direct-IsSized :
    (url : Bytes) (fetch : Bytes → Got) (probe : Got) (info : FileInfo)
    → probe_size_direct url fetch probe ≡ found info
    → (n : ℕ) × (0 < n) × (info.size ≡ pos n)
unfolding probe_size_direct
probe_size_direct-IsSized url fetch probe info h =
    subst IsSized h (go (probe_archive_org_metadata url fetch) (metadata-IsSized url fetch))
  where
    go :
        (first : Expected)
        → IsSized first
        → IsSized (elim first [ found info ↦ found info | failed error ↦ probe_file probe ])
    go (found info) h = h
    go (failed error) h = probe_file-IsSized probe

behind_slash_lem :
    (s t : Bytes) → contains_byte b'/' s ≡ false → behind_slash (s ++ b'/' ∷ t) ≡ some t
unfolding behind_slash contains_byte
behind_slash_lem [] t h = refl
behind_slash_lem (c ∷ s) t h = ground (arith, behind_slash_lem s t)

before_end_lem : (s t : Bytes) → All IsDigit s → before_end (s ++ b'\r' ∷ t) ≡ s
unfolding before_end
before_end_lem [] t all = refl
before_end_lem (c ∷ s) t all = ground (arith, all.0, before_end_lem s t all.1)

abbrev range_name : Bytes
range_name = codes "Content-Range:"

-- The headers from `Content-Range` on.
abbrev pub range_tail : Bytes → Bytes → ℕ → Bytes
range_tail unit after n = (range_name ++ unit) ++ b'/' ∷ (decimal n ++ b'\r' ∷ after)

stoll-decimal : (n : ℕ) → n ≤ 9223372036854775807 → or_unknown (stoll (decimal n)) ≡ pos n
stoll-decimal n fits =
    let within : in_int64 (pos n) ≡ true = ground (arith, fits) in
    ap (λ o. or_unknown (elim o [ none ↦ none | some m ↦ if in_int64 m then some m else none ]))
      (strtol-decimal n)
    ∙ ap (λ b. or_unknown (if b then some (pos n) else none)) within

total_lem :
    (unit after : Bytes) (n : ℕ)
    → contains_byte b'/' unit ≡ false
    → n ≤ 9223372036854775807
    → range_total (some (range_tail unit after n)) ≡ pos n
total_lem unit after n one_line fits =
    ap (λ o. elim o [ none ↦ negsuc 0 | some total ↦ or_unknown (stoll (before_end total)) ])
      (behind_slash_lem (range_name ++ unit) (decimal n ++ b'\r' ∷ after)
        (unfold contains_byte in one_line))
    ∙ ap (λ t. or_unknown (stoll t))
        (before_end_lem (decimal n) after
          (unfold decimal in decimal_from-IsDigit (suc n) n (omega arith)))
    ∙ stoll-decimal n fits

header_first :
    (name lower headers rest : Bytes)
    → from_marker name headers ≡ some rest
    → header_at name lower headers ≡ some rest
header_first name lower headers rest h = rw (h, header_at) refl

-- A server that answers a Range request with 206 and the header `Content-Range: ../n`, this being the
-- first header of the name and n a positive number of 64 bits, is found to have n bytes and ranges.
probe_file-range :
    (before unit after : Bytes) (n : ℕ)
    → from_marker range_name (before ++ range_tail unit after n) ≡ some (range_tail unit after n)
    → contains_byte b'/' unit ≡ false
    → 0 < n
    → n ≤ 9223372036854775807
    → probe_file (some (true, 206, before ++ range_tail unit after n))
      ≡ found (record { size = pos n; accepts_ranges = true })
unfolding probe_file
probe_file-range before unit after n first one_line some_bytes fits =
    let bytes : (n == 0) ≡ false = ground (arith, some_bytes) in
    ap (λ o. sized (record { size = range_total o; accepts_ranges = true }))
      (header_first range_name (codes "content-range:") _ _ first)
    ∙ ap (λ m. sized (record { size = m; accepts_ranges = true }))
        (total_lem unit after n one_line fits)
    ∙ ap (λ b. if b then failed no_size else found (record { size = pos n; accepts_ranges = true }))
        bytes
