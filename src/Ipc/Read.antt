-- ===== src/Ipc/Read.antt =====
-- ipc_read_line: no byte of the stream is lost.
use proxchunk.Prelude.{
  ◌-◌, ◌≤◌, ◌<◌, ◌≡◌, refl, sym, ap, ◌∙◌, subst, ◌⊎◌, inl, inr, Bool, false, Option, none, some,
  List, [], ◌∷◌, ◌++◌, append-nil, append_assoc, arith, ltb, leb, leb→le, Bool-cases, Option-cases,
  length, Bytes, contains_byte,
}
use proxchunk.Ipc.{
  k_ipc_max_line, strip_cr, split_newline, extract_line, without_cr, ReadEvent, timed_out,
  poll_interrupted, poll_failed, hung_up, recv_interrupted, would_block, recv_failed, closed,
  received, ReadResult, line, again, eof, error, overflow, at_end, checked_line, read_loop,
  ipc_read_line,
}
use proxchunk.Ipc.Lines.{split_newline-some}

-- The bytes that recv hands over in these rounds.
abbrev pub bytes_of : List ReadEvent → Bytes
bytes_of [] = []
bytes_of (received b ∷ es) = b ++ bytes_of es
bytes_of (_ ∷ es) = bytes_of es

-- A raw line `u` with its newline stood in front of the new leftover.
abbrev Cut : Bytes → Bytes → Bytes → Type 0
Cut stream u left = (stream ≡ u ++ b'\n' ∷ left) × (contains_byte b'\n' u ≡ false)

-- What a result says of the stream, the old leftover with the bytes received behind it.
abbrev pub Explains : Bytes → ReadResult → Bytes → Type 0
Explains stream (line l) left =
    (u : Bytes) × Cut stream u left × (l ≡ strip_cr u) × (length l < k_ipc_max_line)
Explains stream overflow left =
    ((u : Bytes) × Cut stream u left × (k_ipc_max_line ≤ length (strip_cr u)))
    ⊎ ((left ≡ stream) × (k_ipc_max_line ≤ length stream))
Explains stream eof left = (left ≡ stream) × (stream ≡ [])
Explains stream _ left = left ≡ stream

abbrev pub Reads : Bytes → List ReadEvent → Option (ReadResult × Bytes) × List ReadEvent → Type 0
Reads leftover es (none, rest) = Unit {0}
Reads leftover es (some (result, left), rest) =
    (used : List ReadEvent) × (es ≡ used ++ rest) × Explains (leftover ++ bytes_of used) result left

at_end-Explains : (s : Bytes) → Explains s (at_end s) s
unfolding at_end
at_end-Explains [] = (refl, refl)
at_end-Explains (c ∷ s) = refl

extract_line-some :
    (s l rest : Bytes)
    → extract_line s ≡ some (l, rest)
    → (u : Bytes) × Cut s u rest × (l ≡ strip_cr u)
unfolding extract_line
extract_line-some s l rest h = go (split_newline s) (split_newline-some s) h
  where
    go :
        (o : Option (Bytes × Bytes))
        → ((a b : Bytes) → o ≡ some (a, b) → Cut s a b)
        → without_cr o ≡ some (l, rest)
        → (u : Bytes) × Cut s u rest × (l ≡ strip_cr u)
    go none found h = cc
    go (some (a, b)) found h = (a, subst (Cut s a) (ground arith) (found a b refl), ground arith)

checked_line-Explains :
    (s l rest : Bytes) → extract_line s ≡ some (l, rest) → Explains s (checked_line l) rest
unfolding checked_line
checked_line-Explains s l rest h =
    let (u, cut, e) = extract_line-some s l rest h in
    elim (Bool-cases (ltb (k_ipc_max_line - 1) (length l))) [
      | inl long ↦ rw long (inl (u, cut, subst (λ t. k_ipc_max_line ≤ length t) e (ground arith)))
      | inr short ↦ rw short (u, cut, e, ground arith)
    ]

one_more :
    (leftover b : Bytes) (e : ReadEvent) (es : List ReadEvent)
    (r : Option (ReadResult × Bytes) × List ReadEvent)
    → ((used : List ReadEvent) → bytes_of (e ∷ used) ≡ b ++ bytes_of used)
    → Reads (leftover ++ b) es r
    → Reads leftover (e ∷ es) r
one_more leftover b e es (none, rest) f h = tt
one_more leftover b e es (some (result, left), rest) f (used, split, ex) = (
  e ∷ used,
  ap (◌∷◌ e) split,
  subst (λ s. Explains s result left)
      (append_assoc leftover b (bytes_of used) ∙ ap (◌++◌ leftover) (sym (f used))) ex,
)

silent :
    (leftover : Bytes) (e : ReadEvent) (es : List ReadEvent)
    (r : Option (ReadResult × Bytes) × List ReadEvent)
    → ((used : List ReadEvent) → bytes_of (e ∷ used) ≡ bytes_of used)
    → Reads leftover es r
    → Reads leftover (e ∷ es) r
silent leftover e es r f h =
    one_more leftover [] e es r f (subst (λ s. Reads s es r) (sym (append-nil leftover)) h)

stops :
    (leftover : Bytes) (e : ReadEvent) (es : List ReadEvent) (b : Bytes) (result : ReadResult)
    (left : Bytes)
    → bytes_of (e ∷ []) ≡ b
    → Explains (leftover ++ b) result left
    → Reads leftover (e ∷ es) (some (result, left), es)
stops leftover e es b result left f ex =
    (e ∷ [], refl, subst (λ t. Explains (leftover ++ t) result left) (sym f) ex)

quiet :
    (leftover : Bytes) (e : ReadEvent) (es : List ReadEvent) (result : ReadResult)
    → bytes_of (e ∷ []) ≡ []
    → Explains leftover result leftover
    → Reads leftover (e ∷ es) (some (result, leftover), es)
quiet leftover e es result f ex =
    stops leftover e es [] result leftover f
      (subst (λ s. Explains s result leftover) (sym (append-nil leftover)) ex)

read_loop-Reads :
    (blocking : Bool) (leftover : Bytes) (es : List ReadEvent)
    → Reads leftover es (read_loop blocking leftover es)
unfolding read_loop
read_loop-Reads blocking leftover [] = tt
read_loop-Reads blocking leftover (timed_out ∷ es) = quiet leftover timed_out es again refl refl
read_loop-Reads blocking leftover (poll_interrupted ∷ es) =
    silent leftover poll_interrupted es _ (λ _. refl) (read_loop-Reads blocking leftover es)
read_loop-Reads blocking leftover (poll_failed ∷ es) = quiet leftover poll_failed es error refl refl
read_loop-Reads blocking leftover (hung_up ∷ es) =
    quiet leftover hung_up es (at_end leftover) refl (at_end-Explains leftover)
read_loop-Reads blocking leftover (recv_interrupted ∷ es) =
    silent leftover recv_interrupted es _ (λ _. refl) (read_loop-Reads blocking leftover es)
read_loop-Reads blocking leftover (would_block ∷ es) = quiet leftover would_block es again refl refl
read_loop-Reads blocking leftover (recv_failed ∷ es) = quiet leftover recv_failed es error refl refl
read_loop-Reads blocking leftover (closed ∷ es) =
    quiet leftover closed es (at_end leftover) refl (at_end-Explains leftover)
read_loop-Reads blocking leftover (received b ∷ es) =
    let s = leftover ++ b in
    let e = received b in
    elim (Option-cases (extract_line s)) [
      | inr ((l, rest), found) ↦
          rw (found, read_loop)
            (stops leftover e es b (checked_line l) rest (append-nil b)
              (checked_line-Explains s l rest found))
      | inl missing ↦
          rw (missing, read_loop)
            (elim (Bool-cases (leb k_ipc_max_line (length s))) [
              | inl long ↦ rw long (
                  stops leftover e es b overflow s (append-nil b)
                    (inr (refl, leb→le k_ipc_max_line (length s) long)))
              | inr short ↦ rw short (elim (Bool-cases blocking) [
                | inl on ↦ rw on (
                    one_more leftover b e es (read_loop blocking s es) (λ _. refl)
                      (read_loop-Reads blocking s es))
                | inr off ↦ rw off (stops leftover e es b again s (append-nil b) refl)
              ])
            ])
    ]

-- For any leftover and any answers of the kernel, nothing is lost or made up. A returned line is a
-- part of the stream that ends at its first newline, less one carriage return, and is shorter
-- than the limit; the new leftover is all that was received behind it. `eof` is for an empty
-- stream, `overflow` for a line or a leftover at the limit, and with any other result all bytes
-- received stay in the leftover.
pub ipc_read_line-Reads :
    (fd_valid blocking : Bool) (leftover : Bytes) (es : List ReadEvent)
    → Reads leftover es (ipc_read_line fd_valid blocking leftover es)
unfolding ipc_read_line
ipc_read_line-Reads fd_valid blocking leftover es = elim (Option-cases (extract_line leftover)) [
  | inr ((l, rest), found) ↦
      rw (found, ipc_read_line)
        (now (checked_line l) rest (checked_line-Explains leftover l rest found))
  | inl missing ↦
      rw (missing, ipc_read_line)
        (elim (Bool-cases (leb k_ipc_max_line (length leftover))) [
          | inl long ↦
              rw long
                (now overflow leftover (inr (refl, leb→le k_ipc_max_line (length leftover) long)))
          | inr short ↦ rw short (elim (Bool-cases fd_valid) [
            | inl on ↦ rw on (read_loop-Reads blocking leftover es)
            | inr off ↦ rw off (now error leftover refl)
          ])
        ])
]
  where
    now :
        (result : ReadResult) (left : Bytes)
        → Explains leftover result left
        → Reads leftover es (some (result, left), es)
    now result left ex =
        ([], refl, subst (λ s. Explains s result left) (sym (append-nil leftover)) ex)
