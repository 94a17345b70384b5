-- ===== src/Ia/Decode.antt =====
-- url_decode undoes percent-encoding.
use proxchunk.Prelude.{
  ℕ, ◌+◌, ◌*◌, ◌/◌, ◌%◌, ◌<◌, ◌≡◌, refl, ap, ◌∙◌, inl, inr, Bool, true, false, ◌&&◌, ◌||◌, [], ◌∷◌,
  ◌++◌, arith, ltb, leb, ◌==◌, if◌then◌else◌, Bool-cases, All, Bytes,
}
use proxchunk.Ia.{is_xdigit, hex, plus_as_space, url_decode}

-- The unreserved bytes of RFC 3986.
unfoldable pub is_unreserved : ℕ → Bool
is_unreserved c =
    (leb b'0' c && leb c b'9')
    || ((leb b'a' c && leb c b'z')
        || ((leb b'A' c && leb c b'Z') || (c == b'-' || (c == b'.' || (c == b'_' || c == b'~')))))

unfoldable pub hex_digit : ℕ → ℕ
hex_digit d = if ltb d 10 then b'0' + d else 55 + d

unfoldable pub encode_byte : ℕ → Bytes
unfolding is_unreserved hex_digit
encode_byte c =
    if is_unreserved c then c ∷ [] else b'%' ∷ hex_digit (c / 16) ∷ hex_digit (c % 16) ∷ []

-- Percent-encoding, written from the RFC and not from the source.
unfoldable pub url_encode : Bytes → Bytes
unfolding encode_byte
url_encode [] = []
url_encode (c ∷ s) = encode_byte c ++ url_encode s

abbrev pub IsByte : ℕ → Type 0
IsByte c = c < 256

hex_digit-is_xdigit : (d : ℕ) → d < 16 → is_xdigit (hex_digit d) ≡ true
unfolding is_xdigit hex_digit
hex_digit-is_xdigit d h = ground arith

hex-hex_digit : (d : ℕ) → d < 16 → hex (hex_digit d) ≡ d
unfolding hex hex_digit
hex-hex_digit d h = ground arith

url_decode_plain :
    (c : ℕ) (s : Bytes) → (c == b'%') ≡ false → url_decode (c ∷ s) ≡ plus_as_space c ∷ url_decode s
unfolding url_decode
url_decode_plain c [] h = refl
url_decode_plain c (a ∷ []) h = refl
url_decode_plain c (a ∷ b ∷ s) h = rw h refl

url_decode-escape :
    (d e : ℕ) (s : Bytes)
    → d < 16
    → e < 16
    → url_decode (b'%' ∷ hex_digit d ∷ hex_digit e ∷ s) ≡ (d * 16 + e) ∷ url_decode s
unfolding url_decode
url_decode-escape d e s h k =
    rw (hex_digit-is_xdigit d h, hex_digit-is_xdigit e k, hex-hex_digit d h, hex-hex_digit e k) refl

unreserved-plain : (c : ℕ) → is_unreserved c ≡ true → ((c == b'%') ≡ false) × (plus_as_space c ≡ c)
unfolding is_unreserved plus_as_space
unreserved-plain c h = (ground arith, ground arith)

url_decode-encode_byte :
    (c : ℕ) (s : Bytes) → IsByte c → url_decode (encode_byte c ++ s) ≡ c ∷ url_decode s
unfolding encode_byte
url_decode-encode_byte c s h = elim (Bool-cases (is_unreserved c)) [
  | inl plain ↦
      let (escapes, same) = unreserved-plain c plain in
      rw plain (url_decode_plain c s escapes ∙ ap (λ x. x ∷ url_decode s) same)
  | inr other ↦ rw other (
      url_decode-escape (c / 16) (c % 16) s (omega (arith, h)) (omega arith)
      ∙ ap (λ x. x ∷ url_decode s) (omega arith))
]

-- Any bytes that are percent-encoded decode to themselves.
pub url_decode-url_encode : (s : Bytes) → All IsByte s → url_decode (url_encode s) ≡ s
unfolding url_encode url_decode
url_decode-url_encode [] h = refl
url_decode-url_encode (c ∷ s) h =
    url_decode-encode_byte c (url_encode s) h.0 ∙ ap (◌∷◌ c) (url_decode-url_encode s h.1)
