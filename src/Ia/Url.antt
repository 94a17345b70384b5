-- ===== src/Ia/Url.antt =====
-- The identifier and the file name of a download URL are found again.
use proxchunk.Prelude.{
  ℕ, ◌/◌, ◌%◌, ◌<◌, ◌≡◌, refl, inl, inr, true, false, ◌||◌, some, [], ◌∷◌, ◌++◌, arith, ◌==◌,
  Bool-cases, is_empty, All, All-append, Bytes, codes, starts_with, contains_byte,
}
use proxchunk.Ia.{
  after_marker, at_slash, before_query_or_fragment, named_file, ia_parse_rest,
  ia_parse_download_url,
}
use proxchunk.Ia.Decode.{
  IsByte, is_unreserved, hex_digit, encode_byte, url_encode, url_decode-url_encode,
}

-- The URL of a file of an item.
abbrev pub download_url : Bytes → Bytes → Bytes
download_url ident file = codes "https://archive.org/download/" ++ (ident ++ b'/' ∷ url_encode file)

at_slash-append :
    (ident file : Bytes)
    → contains_byte b'/' ident ≡ false
    → at_slash (ident ++ b'/' ∷ file) ≡ some (ident, file)
unfolding at_slash contains_byte
at_slash-append [] file h = refl
at_slash-append (c ∷ ident) file h =
    let other : (c == b'/') ≡ false = ground arith in
    rw (other, at_slash-append ident file (ground arith)) refl

abbrev NoMark : ℕ → Type 0
NoMark c = (c == b'?' || c == b'#') ≡ false

before_query_or_fragment-plain : (s : Bytes) → All NoMark s → before_query_or_fragment s ≡ s
unfolding before_query_or_fragment
before_query_or_fragment-plain [] h = refl
before_query_or_fragment-plain (c ∷ s) h = rw (h.0, before_query_or_fragment-plain s h.1) refl

hex_digit-NoMark : (d : ℕ) → d < 16 → NoMark (hex_digit d)
unfolding hex_digit
hex_digit-NoMark d h = ground arith

unreserved-NoMark : (c : ℕ) → is_unreserved c ≡ true → NoMark c
unfolding is_unreserved
unreserved-NoMark c h = ground arith

encode_byte-NoMark : (c : ℕ) → IsByte c → All NoMark (encode_byte c)
unfolding encode_byte
encode_byte-NoMark c h = elim (Bool-cases (is_unreserved c)) [
  | inl plain ↦ rw plain (unreserved-NoMark c plain, tt)
  | inr other ↦ rw other (
    refl,
    (hex_digit-NoMark (c / 16) (omega (arith, h)), (hex_digit-NoMark (c % 16) (omega arith), tt)),
  )
]

url_encode-NoMark : (s : Bytes) → All IsByte s → All NoMark (url_encode s)
unfolding url_encode
url_encode-NoMark [] h = tt
url_encode-NoMark (c ∷ s) h =
    All-append NoMark (encode_byte c) (url_encode s) (encode_byte-NoMark c h.0)
      (url_encode-NoMark s h.1)

encode_byte-full : (c : ℕ) (s : Bytes) → is_empty (encode_byte c ++ s) ≡ false
unfolding encode_byte
encode_byte-full c s = elim (Bool-cases (is_unreserved c)) [
  | inl plain ↦ rw plain refl
  | inr other ↦ rw other refl
]

url_encode-full : (s : Bytes) → is_empty s ≡ false → is_empty (url_encode s) ≡ false
unfolding url_encode
url_encode-full [] h = h
url_encode-full (c ∷ s) h = encode_byte-full c (url_encode s)

ia_parse_rest-append :
    (ident file : Bytes)
    → is_empty ident ≡ false
    → contains_byte b'/' ident ≡ false
    → is_empty file ≡ false
    → All IsByte file
    → ia_parse_rest (ident ++ b'/' ∷ url_encode file) ≡ some (ident, file)
unfolding named_file ia_parse_rest
ia_parse_rest-append ident file full no_slash some_file bytes =
    rw
      (
        at_slash-append ident (url_encode file) no_slash,
        ia_parse_rest,
        before_query_or_fragment-plain (url_encode file) (url_encode-NoMark file bytes),
        full,
        url_encode-full file some_file,
        url_decode-url_encode file bytes,
      )
      refl

-- For an identifier that is not empty and holds no slash, and a file name of bytes that is not empty:
-- the download URL, with the file name percent-encoded, is taken apart into exactly these two, also
-- where the name holds slashes, question marks, spaces or percent signs.
pub ia_parse_download_url-download_url :
    (ident file : Bytes)
    → is_empty ident ≡ false
    → contains_byte b'/' ident ≡ false
    → is_empty file ≡ false
    → All IsByte file
    → ia_parse_download_url (download_url ident file) ≡ some (ident, file)
unfolding ia_parse_download_url after_marker starts_with
ia_parse_download_url-download_url ident file full no_slash some_file bytes =
    ia_parse_rest-append ident file full no_slash some_file bytes
