-- ===== src/Download/Chunks.antt =====
-- download_chunk: a part file is a piece of the target, from the chunk's first byte on.
use proxchunk.Prelude.{
  ℕ, zero, suc, ◌+◌, ◌-◌, ◌≤◌, ◌<◌, ◌≡◌, refl, sym, ap, ◌∙◌, ◌⊎◌, inl, inr, Bool, true, false, ◌&&◌,
  ◌||◌, Option, none, some, [], ◌∷◌, ◌++◌, arith, ltb, leb, ◌==◌, if◌then◌else◌, Bool-cases, length,
  take, drop, length-append, length-take, length-drop, ℤ, pos, Bytes,
}
use proxchunk.Plan.{Chunk}
use proxchunk.Download.{
  Transfer, span, want_of, reaches, add_ℕ, contents, keep_or_cut, download_chunk,
}

-- `n` bytes of the target from `lo` on.
abbrev pub slice : Bytes → ℕ → ℕ → Bytes
slice file lo n = take n (drop lo file)

-- What reached the disk of a Range of the target is a piece of it that begins with the Range and does not
-- pass its end.
abbrev IsPiece : Bytes → ℕ → ℕ → Bytes → Type 0
IsPiece file lo last got = (got ≡ slice file lo (length got)) × (length got ≤ last + 1 - lo)

-- The codes with which download_chunk keeps what has grown.
abbrev is_kept_code : ℕ → Bool
is_kept_code code = code == 206 || code == 200

-- What a server may answer for a Range: a piece of it, under any code, or, under a code that is neither
-- 206 nor 200, any bytes at all, such as the page of an error, that are fewer than the Range asks for.
abbrev IsAnswer : Bytes → ℕ → ℕ → Bytes × ℕ → Type 0
IsAnswer file lo last (got, code) =
    IsPiece file lo last got ⊎ ((is_kept_code code ≡ false) × (length got < last + 1 - lo))

abbrev pub IsHonest : Bytes → Transfer → Type 0
IsHonest file t =
    (lo last : ℕ)
    → lo ≤ last
    → last < length file
    → IsAnswer file lo last (t.perform (pos lo) (pos last))

-- A chunk of bytes of the target.
abbrev pub Spans : Bytes → Chunk → ℕ → ℕ → Type 0
Spans file ch lo last =
    (ch.start ≡ pos lo) × (ch.end ≡ pos last) × (lo ≤ last) × (last < length file)

-- What a part file holds between two tries.
abbrev pub IsPartial : Bytes → ℕ → ℕ → Bytes → Type 0
IsPartial file lo last b = (b ≡ slice file lo (length b)) × (length b ≤ last + 1 - lo)

want_of-Spans :
    (file : Bytes) (ch : Chunk) (lo last : ℕ)
    → Spans file ch lo last
    → want_of ch ≡ pos (last + 1 - lo)
unfolding want_of span
want_of-Spans file ch lo last (s, e, le, lt) =
    rw (s, e) (if_true (leb lo (last + 1)) _ _ (ground arith))
  where
    if_true : (b : Bool) (x y : ℤ) → b ≡ true → (if b then x else y) ≡ x
    if_true true x y h = refl
    if_true false x y h = absurd (ground arith)

take_nil : (n : ℕ) → take {A = ℕ} n [] ≡ []
take_nil zero = refl
take_nil (suc n) = refl

drop_nil : (n : ℕ) → drop {A = ℕ} n [] ≡ []
drop_nil zero = refl
drop_nil (suc n) = refl

take_plus : (m n : ℕ) (xs : Bytes) → take m xs ++ take n (drop m xs) ≡ take (m + n) xs
take_plus zero n xs = ap (λ k. take k xs) (omega arith)
take_plus (suc m) n [] = rw (take_nil n, take_nil (suc m + n)) refl
take_plus (suc m) n (x ∷ xs) =
    let next : suc m + n ≡ suc (m + n) = omega arith in rw next (ap (◌∷◌ x) (take_plus m n xs))

drop_plus : (m n : ℕ) (xs : Bytes) → drop (m + n) xs ≡ drop n (drop m xs)
drop_plus zero n xs = ap (λ k. drop k xs) (omega arith)
drop_plus (suc m) n [] = rw (drop_nil n, drop_nil (suc m + n)) refl
drop_plus (suc m) n (x ∷ xs) =
    let next : suc m + n ≡ suc (m + n) = omega arith in rw next (drop_plus m n xs)

pub slice-append :
    (file : Bytes) (lo m n : ℕ) → slice file lo m ++ slice file (lo + m) n ≡ slice file lo (m + n)
slice-append file lo m n =
    ap (λ xs. slice file lo m ++ take n xs) (drop_plus lo m file) ∙ take_plus m n (drop lo file)

IsPartial-append :
    (file : Bytes) (lo last : ℕ) (a b : Bytes)
    → IsPartial file lo last a
    → b ≡ slice file (lo + length a) (length b)
    → length b ≤ last + 1 - (lo + length a)
    → IsPartial file lo last (a ++ b)
IsPartial-append file lo last a b (ha, la) hb lb = (
  ap (λ x. x ++ b) ha
      ∙ ap (λ x. slice file lo (length a) ++ x) hb
      ∙ slice-append file lo (length a) (length b)
      ∙ ap (slice file lo) (sym (length-append a b)),
  omega (arith, length-append a b, la, lb),
)

take-length-append : (a b : Bytes) → take (length a) (a ++ b) ≡ a
take-length-append [] b = refl
take-length-append (x ∷ a) b = ap (◌∷◌ x) (take-length-append a b)

-- What a try leaves: a piece of the target, and the whole chunk where the result is true.
abbrev pub Leaves : Bytes → ℕ → ℕ → Bool × Option Bytes → Type 0
Leaves file lo last (ok, part) =
    IsPartial file lo last (contents part)
    × (ok ≡ true → (b : Bytes) × (part ≡ some b) × (b ≡ slice file lo (last + 1 - lo)))

keep_or_cut-Leaves :
    (file : Bytes) (lo last : ℕ) (a got : Bytes) (code : ℕ)
    → IsPartial file lo last a
    → IsPartial file lo last (a ++ got)
    → Leaves file lo last (keep_or_cut (length a) (a ++ got) code (pos (last + 1 - lo)))
unfolding keep_or_cut reaches
keep_or_cut-Leaves file lo last a got code ha hg =
    elim (Bool-cases (leb (last + 1 - lo) (length (a ++ got)))) [
      | inl all ↦ rw all (hg, λ _. (a ++ got, refl, hg.0 ∙ ap (slice file lo) (ground arith)))
      | inr less ↦
          rw less
            (elim (Bool-cases
              ((code == 206 || code == 200) && ltb (length a) (length (a ++ got)))) [
                | inl grown ↦ rw grown (hg, λ h. absurd (ground arith))
                | inr bad ↦ rw bad (elim (Bool-cases (length a == 0)) [
                  | inl new ↦ rw new ((refl, omega arith), λ h. absurd (ground arith))
                  | inr old ↦ rw (old, take-length-append a got) (ha, λ h. absurd (ground arith))
                ])
              ])
    ]

-- An error page that is too short to fill the part: what was there before is what is left.
keep_or_cut-error :
    (file : Bytes) (lo last : ℕ) (a got : Bytes) (code : ℕ)
    → IsPartial file lo last a
    → is_kept_code code ≡ false
    → length got < last + 1 - (lo + length a)
    → Leaves file lo last (keep_or_cut (length a) (a ++ got) code (pos (last + 1 - lo)))
unfolding keep_or_cut reaches
keep_or_cut-error file lo last a got code ha other few =
    let less : leb (last + 1 - lo) (length (a ++ got)) ≡ false =
      ground (arith, length-append a got, few) in
    rw (less, other)
      (elim (Bool-cases (length a == 0)) [
        | inl new ↦ rw new ((refl, omega arith), λ h. absurd (ground arith))
        | inr old ↦ rw (old, take-length-append a got) (ha, λ h. absurd (ground arith))
      ])

-- Behind a transfer from the end of the part on.
answer-Leaves :
    (file : Bytes) (lo last : ℕ) (a got : Bytes) (code : ℕ)
    → IsPartial file lo last a
    → IsAnswer file (lo + length a) last (got, code)
    → Leaves file lo last (keep_or_cut (length a) (a ++ got) code (pos (last + 1 - lo)))
answer-Leaves file lo last a got code ha (inl (piece, fits)) =
    keep_or_cut-Leaves file lo last a got code ha
      (IsPartial-append file lo last a got ha piece fits)
answer-Leaves file lo last a got code ha (inr (other, few)) =
    keep_or_cut-error file lo last a got code ha other few

-- The part that is there is long enough.
whole-Leaves :
    (file : Bytes) (lo last : ℕ) (part : Option Bytes)
    → lo ≤ last
    → IsPartial file lo last (contents part)
    → last + 1 - lo ≤ length (contents part)
    → Leaves file lo last (true, part)
whole-Leaves file lo last none le partial long = absurd (omega (arith, le, long))
whole-Leaves file lo last (some b) le partial long =
    (partial, λ _. (b, refl, partial.0 ∙ ap (slice file lo) (omega (arith, partial.1, long))))

-- For a chunk of the target whose part file holds a piece of it (or does not exist), and a server that
-- writes only bytes of the Range it was asked for, or, under a code other than 206 and 200, any bytes that
-- are fewer than it was asked for: after the call the part file still holds a piece of the chunk from its
-- first byte on, whichever way the transfer ends and whether the part is kept, cut or removed; and where
-- the call returns true the file holds exactly the chunk's bytes.
pub download_chunk-Leaves :
    (file : Bytes) (t : Transfer) (ch : Chunk) (part : Option Bytes) (lo last : ℕ)
    → IsHonest file t
    → Spans file ch lo last
    → IsPartial file lo last (contents part)
    → Leaves file lo last (download_chunk t ch part)
unfolding download_chunk reaches add_ℕ
download_chunk-Leaves file t ch part lo last honest spans partial =
    let have = length (contents part) in
    let (got, code) = t.perform (pos (lo + have)) (pos last) in
    rw (want_of-Spans file ch lo last spans, spans.0, spans.1)
      (elim (Bool-cases (leb (last + 1 - lo) have)) [
        | inl long ↦ rw long (whole-Leaves file lo last part spans.2 partial (ground arith))
        | inr short ↦ rw short (elim (Bool-cases t.fopen_ok) [
          | inr fails ↦ rw fails (partial, λ h. absurd (ground arith))
          | inl opens ↦ rw opens (
              answer-Leaves file lo last (contents part) got code partial
                (honest (lo + have) last (ground arith) spans.3))
        ])
      ])

-- A part that is whole is not fetched again.
pub download_chunk_done :
    (file : Bytes) (t : Transfer) (ch : Chunk) (lo last : ℕ)
    → Spans file ch lo last
    → download_chunk t ch (some (slice file lo (last + 1 - lo)))
      ≡ (true, some (slice file lo (last + 1 - lo)))
unfolding download_chunk reaches
download_chunk_done file t ch lo last spans =
    let whole : leb (last + 1 - lo) (length (slice file lo (last + 1 - lo))) ≡ true =
      ground (
        arith,
        length-take (last + 1 - lo) (drop lo file),
        length-drop lo file,
        spans.2,
        spans.3,
      ) in
    rw (want_of-Spans file ch lo last spans, whole) refl
