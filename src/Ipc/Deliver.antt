-- ===== src/Ipc/Deliver.antt =====
-- ipc_read_line: lines survive any fragmentation.
use proxchunk.Prelude.{
  concat, ◌≤◌, ◌≡◌, refl, sym, ap, ◌∙◌, ◌⊎◌, inl, inr, true, false, Option, none, some, List, [],
  ◌∷◌, ◌++◌, append-nil, append_assoc, arith, leb, length, Bytes, contains_byte,
}
use mathlib.Core.Path.{ap₂}
use proxchunk.Ipc.{
  k_ipc_max_line, extract_line, ReadEvent, received, ReadResult, line, checked_line, read_loop,
  ipc_read_line,
}
use proxchunk.Ipc.Lines.{IsMessage, split_newline-none, extract_line-append}

abbrev pub in_pieces : List Bytes → List ReadEvent
in_pieces [] = []
in_pieces (b ∷ bs) = received b ∷ in_pieces bs

-- A text in front of one that begins with the line `l`: the line is whole in it, or it has no
-- newline and is no longer than the line.
line_cases :
    (s t l rest : Bytes)
    → contains_byte b'\n' l ≡ false
    → s ++ t ≡ l ++ b'\n' ∷ rest
    → ((left : Bytes) × (s ≡ l ++ b'\n' ∷ left) × (left ++ t ≡ rest))
      ⊎ ((contains_byte b'\n' s ≡ false) × (length s ≤ length l))
unfolding contains_byte
line_cases [] t l rest n e = inr (refl, omega arith)
line_cases (c ∷ s) t [] rest n e = inl (s, ground arith, ground arith)
line_cases (c ∷ s) t (d ∷ l) rest n e =
    let same : c ≡ d = ground arith in
    let tail : s ++ t ≡ l ++ b'\n' ∷ rest = ground arith in
    elim (line_cases s t l rest (ground arith) tail) [
      | inl (left, a, b) ↦ inl (left, ap₂ ◌∷◌ same a, b)
      | inr (a, b) ↦ inr (ground arith, omega arith)
    ]

checked_line_fits : (l : Bytes) → IsMessage l → checked_line l ≡ line l
unfolding checked_line
checked_line_fits l v = ground (arith, v.fits)

-- The read returns the line, with all that came behind it in the leftover or still to come.
abbrev pub Delivers : Bytes → Bytes → Option (ReadResult × Bytes) × List ReadEvent → Type 0
Delivers l rest r =
    (left : Bytes) × (unread : List Bytes) × (r ≡ (some (line l, left), in_pieces unread))
    × (left ++ concat unread ≡ rest)

-- A leftover that holds a whole message.
extract_whole :
    (s l left : Bytes) → IsMessage l → s ≡ l ++ b'\n' ∷ left → extract_line s ≡ some (l, left)
extract_whole s l left v e = ap extract_line e ∙ extract_line-append l left v

extract_part : (s : Bytes) → contains_byte b'\n' s ≡ false → extract_line s ≡ none
unfolding extract_line
extract_part s n = rw (split_newline-none s n)

contains_newline : (l rest : Bytes) → contains_byte b'\n' (l ++ b'\n' ∷ rest) ≡ true
unfolding contains_byte
contains_newline [] rest = refl
contains_newline (c ∷ l) rest = ground (arith, contains_newline l rest)

newline_inside : (s l rest : Bytes) → contains_byte b'\n' s ≡ false → s ≡ l ++ b'\n' ∷ rest → ⊥
newline_inside s l rest n e = cc (n, ap (contains_byte b'\n') e, contains_newline l rest)

read_loop-Delivers :
    (bs : List Bytes) (s l rest : Bytes)
    → IsMessage l
    → contains_byte b'\n' s ≡ false
    → s ++ concat bs ≡ l ++ b'\n' ∷ rest
    → Delivers l rest (read_loop true s (in_pieces bs))
unfolding read_loop
read_loop-Delivers [] s l rest v n e = absurd (newline_inside s l rest n (sym (append-nil s) ∙ e))
read_loop-Delivers (b ∷ bs) s l rest v n e =
    let e' = append_assoc s b (concat bs) ∙ e in
    elim (line_cases (s ++ b) (concat bs) l rest v.no_newline e') [
      | inl (left, whole, behind) ↦
          rw (extract_whole (s ++ b) l left v whole, read_loop)
            (
              left,
              bs,
              ap (λ (r : ReadResult). (some (r, left), in_pieces bs)) (checked_line_fits l v),
              behind,
            )
      | inr (part, short) ↦
          let fits : leb k_ipc_max_line (length (s ++ b)) ≡ false = ground (arith, v.fits) in
          rw (extract_part (s ++ b) part, read_loop)
            (rw fits (read_loop-Delivers bs (s ++ b) l rest v part e'))
    ]

-- A message that was written with its newline is read back whole by a blocking read, however the
-- stream was cut into pieces between the leftover and the reads, and whatever follows it.
pub ipc_read_line-Delivers :
    (bs : List Bytes) (leftover l rest : Bytes)
    → IsMessage l
    → leftover ++ concat bs ≡ l ++ b'\n' ∷ rest
    → Delivers l rest (ipc_read_line true true leftover (in_pieces bs))
unfolding ipc_read_line
ipc_read_line-Delivers bs s l rest v e = elim (line_cases s (concat bs) l rest v.no_newline e) [
  | inl (left, whole, behind) ↦
      rw (extract_whole s l left v whole, ipc_read_line)
        (
          left,
          bs,
          ap (λ (r : ReadResult). (some (r, left), in_pieces bs)) (checked_line_fits l v),
          behind,
        )
  | inr (part, short) ↦
      let fits : leb k_ipc_max_line (length s) ≡ false = ground (arith, v.fits) in
      rw (extract_part s part, ipc_read_line) (rw fits (read_loop-Delivers bs s l rest v part e))
]
