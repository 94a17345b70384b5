-- ===== src/Prelude/Numerals.antt =====
-- Numerals: what the strto family and std::to_string do, in base ten.
use Prim.Native.Nat.{ℕ, zero, suc, ◌+◌, ◌-◌, ◌*◌, ◌/◌, ◌%◌, ◌<◌}
use mathlib.Core.Bool.{Bool, true, false, ◌&&◌, ◌||◌}
use mathlib.Core.List.{[], ◌∷◌, ◌++◌}
use mathlib.Core.Option.{Option, none, some}
use mathlib.Core.Logic.{◌≢◌, inl, inr}
use mathlib.Core.Path.{◌≡◌, refl, ap, ◌∙◌}
use native.Mathlib.Omega.{arith}
use proxchunk.Prelude.Tests.{Bool-cases, ◌==◌, ltb, leb, if◌then◌else◌}
use proxchunk.Prelude.Lists.{All, All-append}
use proxchunk.Prelude.Signed.{ℤ, pos, sub_ℕ}
use proxchunk.Prelude.Text.{Bytes, decimal, decimal_from}

-- `isspace`
abbrev pub is_space : ℕ → Bool
is_space c = c == 32 || leb 9 c && leb c 13

abbrev pub is_digit : ℕ → Bool
is_digit c = leb 48 c && leb c 57

-- The digits at the front, read behind `acc`.
unfoldable pub digits_from : ℕ → Bytes → ℕ
digits_from acc [] = acc
digits_from acc (c ∷ s) =
    let more = digits_from (acc * 10 + (c - 48)) s in if is_digit c then more else acc

unfoldable pub skip_space : Bytes → Bytes
skip_space [] = []
skip_space (c ∷ s) = let rest = skip_space s in if is_space c then rest else c ∷ s

abbrev starts_digit : Bytes → Bool
starts_digit [] = false
starts_digit (c ∷ s) = is_digit c

abbrev unsigned : Bytes → Option ℕ
unsigned s = if starts_digit s then some (digits_from 0 s) else none

abbrev negated : Option ℕ → Option ℤ
negated none = none
negated (some n) = some (sub_ℕ 0 n)

abbrev positive : Option ℕ → Option ℤ
positive none = none
positive (some n) = some (pos n)

abbrev signed : Bytes → Option ℤ
signed [] = none
signed (c ∷ s) =
    if c == b'-'
    then negated (unsigned s)
    else if c == b'+'
    then positive (unsigned s)
    else positive (unsigned (c ∷ s))

-- The number at the front of a text, or `none` where there is none.
unfoldable pub strtol : Bytes → Option ℤ
unfolding digits_from skip_space
strtol s = signed (skip_space s)

-- `std::atoi`, on numbers that an int holds; on others its behaviour is undefined.
abbrev pub atoi : Bytes → ℤ
atoi s = elim (strtol s) [ none ↦ pos 0 | some n ↦ n ]

abbrev pub IsDigit : ℕ → Type 0
IsDigit c = is_digit c ≡ true

pub digits_from-append :
    (acc : ℕ) (s t : Bytes)
    → All IsDigit s
    → digits_from acc (s ++ t) ≡ digits_from (digits_from acc s) t
unfolding digits_from
digits_from-append acc [] t all = refl
digits_from-append acc (c ∷ s) t all = rw all.0 (digits_from-append (acc * 10 + (c - 48)) s t all.1)

pub decimal_from-IsDigit : (fuel n : ℕ) → n < fuel → All IsDigit (decimal_from fuel n)
unfolding decimal_from
decimal_from-IsDigit zero n h = tt
decimal_from-IsDigit (suc fuel) n h = elim (Bool-cases (ltb n 10)) [
  | inl small ↦ rw small (ground arith, tt)
  | inr big ↦ rw big (
      All-append IsDigit (decimal_from fuel (n / 10)) ((48 + n % 10) ∷ [])
        (decimal_from-IsDigit fuel (n / 10) (ground (arith, h, big))) (ground arith, tt))
]

pub digits_from-decimal_from : (fuel n : ℕ) → n < fuel → digits_from 0 (decimal_from fuel n) ≡ n
unfolding decimal_from digits_from
digits_from-decimal_from zero n h = absurd (omega (arith, h))
digits_from-decimal_from (suc fuel) n h = elim (Bool-cases (ltb n 10)) [
  | inl small ↦ rw small (ground (arith, small))
  | inr big ↦
      let less : n / 10 < fuel = ground (arith, h, big) in
      let ih = digits_from-decimal_from fuel (n / 10) less in
      rw big (
        digits_from-append 0 (decimal_from fuel (n / 10)) ((48 + n % 10) ∷ [])
          (decimal_from-IsDigit fuel (n / 10) less)
        ∙ ground (arith, ih))
]

-- A text that begins with a digit is read as its digits.
digits-strtol :
    (c : ℕ) (s : Bytes) → is_digit c ≡ true → strtol (c ∷ s) ≡ some (pos (digits_from 0 (c ∷ s)))
unfolding strtol
digits-strtol c s h = ground arith

snoc_full : (s : Bytes) (c : ℕ) → s ++ c ∷ [] ≢ []
snoc_full [] c = λ e. cc e
snoc_full (d ∷ s) c = λ e. cc e

decimal_full : (n : ℕ) → decimal_from (suc n) n ≢ []
unfolding decimal_from
decimal_full n = elim (Bool-cases (ltb n 10)) [
  | inl small ↦ rw small (λ e. cc e)
  | inr big ↦ rw big (snoc_full (decimal_from n (n / 10)) (48 + n % 10))
]

-- What std::to_string writes is read back.
pub strtol-decimal : (n : ℕ) → strtol (decimal n) ≡ some (pos n)
unfolding decimal
strtol-decimal n =
    read (decimal_from (suc n) n) (decimal_from-IsDigit (suc n) n (omega arith))
      (digits_from-decimal_from (suc n) n (omega arith)) (decimal_full n)
  where
    read : (s : Bytes) → All IsDigit s → digits_from 0 s ≡ n → s ≢ [] → strtol s ≡ some (pos n)
    read [] all h ne = absurd (ne refl)
    read (c ∷ s) all h ne = digits-strtol c s all.0 ∙ ap (λ m. some (pos m)) h

digits_from-newline : (acc : ℕ) → digits_from acc (b'\n' ∷ []) ≡ acc
unfolding digits_from
digits_from-newline acc = refl

-- Nor does a newline behind it matter.
pub strtol-decimal_line : (n : ℕ) → strtol (decimal n ++ b'\n' ∷ []) ≡ some (pos n)
unfolding decimal
strtol-decimal_line n =
    read (decimal_from (suc n) n) (decimal_from-IsDigit (suc n) n (omega arith))
      (digits_from-decimal_from (suc n) n (omega arith)) (decimal_full n)
  where
    read :
        (s : Bytes)
        → All IsDigit s
        → digits_from 0 s ≡ n
        → s ≢ []
        → strtol (s ++ b'\n' ∷ []) ≡ some (pos n)
    read [] all h ne = absurd (ne refl)
    read (c ∷ s) all h ne =
        digits-strtol c (s ++ b'\n' ∷ []) all.0
        ∙ ap (λ m. some (pos m))
            (digits_from-append 0 (c ∷ s) (b'\n' ∷ []) all ∙ digits_from-newline _ ∙ h)
