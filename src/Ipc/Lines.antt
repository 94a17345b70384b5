-- ===== src/Ipc/Lines.antt =====
-- The first line of a buffer.
use proxchunk.Prelude.{
  ◌-◌, ◌≤◌, ◌≡◌, refl, ap, inl, inr, Bool, false, Option, none, some, [], ◌∷◌, ◌++◌, arith, ◌==◌,
  ==_iff, Bool-cases, length, Bytes, contains_byte,
}
use proxchunk.Ipc.{k_ipc_max_line, in_front, split_newline, strip_cr, extract_line}

abbrev ends_in_cr : Bytes → Bool
ends_in_cr [] = false
ends_in_cr (c ∷ []) = c == b'\r'
ends_in_cr (c ∷ d ∷ s) = ends_in_cr (d ∷ s)

-- What a line may hold for the other side to read it back: no newline, no carriage return at
-- the end, and room for the newline within the limit.
pub record IsMessage (l : Bytes) : Type 0 where
  pub no_newline : contains_byte b'\n' l ≡ false
  pub no_cr : ends_in_cr l ≡ false
  pub fits : length l ≤ k_ipc_max_line - 1

split_newline-append :
    (l rest : Bytes)
    → contains_byte b'\n' l ≡ false
    → split_newline (l ++ b'\n' ∷ rest) ≡ some (l, rest)
unfolding split_newline contains_byte
split_newline-append [] rest h = refl
split_newline-append (c ∷ l) rest h = ground (arith, split_newline-append l rest)

pub split_newline-none : (s : Bytes) → contains_byte b'\n' s ≡ false → split_newline s ≡ none
unfolding split_newline contains_byte
split_newline-none [] h = refl
split_newline-none (c ∷ s) h = ground (arith, split_newline-none s)

-- A split is at the first newline.
pub split_newline-some :
    (s a b : Bytes)
    → split_newline s ≡ some (a, b)
    → (s ≡ a ++ b'\n' ∷ b) × (contains_byte b'\n' a ≡ false)
unfolding split_newline contains_byte
split_newline-some [] a b h = cc
split_newline-some (c ∷ s) a b h = elim (Bool-cases (c == b'\n')) [
  | inl e ↦ let h' = rw e at h in (ground (arith, ==_iff c b'\n'), ground arith)
  | inr e ↦ let h' = rw e at h in go (split_newline s) (λ a b. split_newline-some s a b) e h'
]
  where
    go :
        (o : Option (Bytes × Bytes))
        → ((a b : Bytes) → o ≡ some (a, b) → (s ≡ a ++ b'\n' ∷ b) × (contains_byte b'\n' a ≡ false))
        → (c == b'\n') ≡ false
        → in_front c o ≡ some (a, b)
        → (c ∷ s ≡ a ++ b'\n' ∷ b) × (contains_byte b'\n' a ≡ false)
    go none ih e h = cc
    go (some (a', b')) ih e h =
        let (splits, fresh) = ih a' b' refl in
        let ea : c ∷ a' ≡ a = ground arith in
        let eb : b' ≡ b = ground arith in rw (← ea, ← eb) (ap (◌∷◌ c) splits, rw e fresh)

strip_cr_fixed : (l : Bytes) → ends_in_cr l ≡ false → strip_cr l ≡ l
unfolding strip_cr
strip_cr_fixed [] h = refl
strip_cr_fixed (c ∷ []) h = rw h
strip_cr_fixed (c ∷ d ∷ l) h = ap (◌∷◌ c) (strip_cr_fixed (d ∷ l) h)

pub extract_line-append :
    (l rest : Bytes) → IsMessage l → extract_line (l ++ b'\n' ∷ rest) ≡ some (l, rest)
unfolding extract_line
extract_line-append l rest v =
    rw (split_newline-append l rest v.no_newline, extract_line)
      (ap (λ (t : Bytes). some (t, rest)) (strip_cr_fixed l v.no_cr))

length-strip_cr : (l : Bytes) → length (strip_cr l) ≤ length l
unfolding strip_cr
length-strip_cr [] = omega arith
length-strip_cr (c ∷ []) = ground arith
length-strip_cr (c ∷ d ∷ l) = omega (arith, length-strip_cr (d ∷ l))
