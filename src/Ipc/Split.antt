-- ===== src/Ipc/Split.antt =====
-- ipc_split against an independent description: the tokens joined by spaces.
use proxchunk.Prelude.{
  concat, ℕ, zero, suc, ◌≤◌, ◌<◌, ◌≡◌, refl, sym, ap, ◌∙◌, subst, Bool, false, List, [], ◌∷◌, ◌++◌,
  append-nil, arith, ◌==◌, if◌then◌else◌, length, is_empty, length-append, All, Bytes,
  contains_byte,
}
use proxchunk.Ipc.{skip_spaces, token_of, after_token, split_from, ipc_split}

pub record IsToken (t : Bytes) : Type 0 where
  pub full : is_empty t ≡ false
  pub no_space : contains_byte b' ' t ≡ false

-- One space between two tokens.
abbrev pub join : List Bytes → Bytes
join [] = []
join (t ∷ []) = t
join (t ∷ u ∷ us) = t ++ b' ' ∷ join (u ∷ us)

-- The bytes that are no spaces, in order.
abbrev squeeze : Bytes → Bytes
squeeze [] = []
squeeze (c ∷ s) = if c == b' ' then squeeze s else c ∷ squeeze s

squeeze-skip_spaces : (s : Bytes) → squeeze (skip_spaces s) ≡ squeeze s
unfolding skip_spaces
squeeze-skip_spaces [] = refl
squeeze-skip_spaces (c ∷ s) = ground (arith, squeeze-skip_spaces s)

squeeze-token : (s : Bytes) → token_of s ++ squeeze (after_token s) ≡ squeeze s
unfolding token_of after_token
squeeze-token [] = refl
squeeze-token (c ∷ s) = ground (arith, squeeze-token s)

token_of-no_space : (s : Bytes) → contains_byte b' ' (token_of s) ≡ false
unfolding token_of contains_byte
token_of-no_space [] = refl
token_of-no_space (c ∷ s) = ground (arith, token_of-no_space s)

token_of-no_space_cons :
    (c : ℕ) (r : Bytes) → (c == b' ') ≡ false → contains_byte b' ' (c ∷ token_of r) ≡ false
unfolding contains_byte
token_of-no_space_cons c r n = rw n (token_of-no_space r)

length-skip_spaces : (s : Bytes) → length (skip_spaces s) ≤ length s
unfolding skip_spaces
length-skip_spaces [] = omega arith
length-skip_spaces (c ∷ s) = ground (arith, length-skip_spaces s)

length-after_token : (s : Bytes) → length (after_token s) ≤ length s
unfolding after_token
length-after_token [] = omega arith
length-after_token (c ∷ s) = ground (arith, length-after_token s)

abbrev starts_with_space : Bytes → Bool
starts_with_space [] = false
starts_with_space (c ∷ s) = c == b' '

skip_spaces-head : (s : Bytes) → starts_with_space (skip_spaces s) ≡ false
unfolding skip_spaces
skip_spaces-head [] = refl
skip_spaces-head (c ∷ s) = ground (arith, skip_spaces-head s)

split_from_lem :
    (fuel : ℕ) (s : Bytes)
    → length s ≤ fuel
    → All IsToken (split_from fuel s) × (concat (split_from fuel s) ≡ squeeze s)
unfolding split_from
split_from_lem zero [] h = (tt, refl)
split_from_lem zero (c ∷ s) h = absurd (omega arith)
split_from_lem (suc fuel) s h =
    go (split_from_lem fuel) (skip_spaces s) (omega (arith, length-skip_spaces s))
      (skip_spaces-head s) (squeeze-skip_spaces s)
  where
    go :
        ((t : Bytes)
          → length t ≤ fuel
          → All IsToken (split_from fuel t) × (concat (split_from fuel t) ≡ squeeze t))
        → (r : Bytes) → length r ≤ suc fuel
        → starts_with_space r ≡ false
        → squeeze r ≡ squeeze s
        → let rest = split_from fuel (after_token r) in
          let ts = if is_empty r then [] else token_of r ∷ rest in
          All IsToken ts × (concat ts ≡ squeeze s)
    go ih [] l n e = (tt, e)
    go ih (c ∷ r) l n e =
        let (tokens, whole) = ih (after_token r) (omega (arith, length-after_token r)) in
        rw n (
          (record { full = refl; no_space = token_of-no_space_cons c r n }, tokens),
          ap (λ (x : Bytes). c ∷ (token_of r ++ x)) whole
              ∙ ap (◌∷◌ c) (squeeze-token r)
              ∙ (rw n at e),
        )

-- Every token is non-empty and holds no space, and the tokens together are the line's bytes other
-- than spaces, in order.
ipc_split-IsToken : (l : Bytes) → All IsToken (ipc_split l) × (concat (ipc_split l) ≡ squeeze l)
unfolding ipc_split
ipc_split-IsToken l = split_from_lem (length l) l (omega arith)

token_of-append :
    (t s : Bytes)
    → contains_byte b' ' t ≡ false
    → (token_of (t ++ b' ' ∷ s) ≡ t) × (after_token (t ++ b' ' ∷ s) ≡ b' ' ∷ s)
unfolding token_of after_token contains_byte
token_of-append [] s h = (refl, refl)
token_of-append (c ∷ t) s h = let ih = token_of-append t s in ground (arith, ih)

token_of_whole :
    (t : Bytes) → contains_byte b' ' t ≡ false → (token_of t ≡ t) × (after_token t ≡ [])
unfolding token_of after_token contains_byte
token_of_whole [] h = (refl, refl)
token_of_whole (c ∷ t) h = let ih = token_of_whole t in ground (arith, ih)

skip_spaces_token : (t s : Bytes) → IsToken t → skip_spaces (t ++ s) ≡ t ++ s
unfolding skip_spaces contains_byte
skip_spaces_token [] s v = absurd (ground (arith, v.full))
skip_spaces_token (c ∷ t) s v = ground (arith, v.no_space)

skip_spaces_space : (s : Bytes) → skip_spaces (b' ' ∷ s) ≡ skip_spaces s
unfolding skip_spaces
skip_spaces_space s = refl

is_empty-token : (t s : Bytes) → IsToken t → is_empty (t ++ s) ≡ false
is_empty-token [] s v = absurd (ground (arith, v.full))
is_empty-token (c ∷ t) s v = refl

join-head : (t : Bytes) (ts : List Bytes) → IsToken t → skip_spaces (join (t ∷ ts)) ≡ join (t ∷ ts)
join-head t [] v = ap skip_spaces (sym (append-nil t)) ∙ skip_spaces_token t [] v ∙ append-nil t
join-head t (u ∷ us) v = skip_spaces_token t (b' ' ∷ join (u ∷ us)) v

-- The tokens that are left to read after the first of them.
abbrev behind : List Bytes → Bytes
behind [] = []
behind (u ∷ us) = b' ' ∷ join (u ∷ us)

join-behind :
    (t : Bytes) (ts : List Bytes)
    → IsToken t
    → (token_of (join (t ∷ ts)) ≡ t)
      × (after_token (join (t ∷ ts)) ≡ behind ts)
      × (is_empty (join (t ∷ ts)) ≡ false)
join-behind t [] v =
    let (a, b) = token_of_whole t v.no_space in
    (a, b, ap is_empty (sym (append-nil t)) ∙ is_empty-token t [] v)
join-behind t (u ∷ us) v =
    let (a, b) = token_of-append t (join (u ∷ us)) v.no_space in
    (a, b, is_empty-token t (b' ' ∷ join (u ∷ us)) v)

split_from_step :
    (fuel : ℕ) (s r : Bytes)
    → skip_spaces s ≡ r
    → split_from (suc fuel) s
      ≡ (if is_empty r then [] else token_of r ∷ split_from fuel (after_token r))
unfolding split_from
split_from_step fuel s r e =
    subst
      (λ x.
        split_from (suc fuel) s
        ≡ (if is_empty x then [] else token_of x ∷ split_from fuel (after_token x)))
      e refl

split_from-nil : (fuel : ℕ) → split_from fuel [] ≡ []
unfolding split_from
split_from-nil zero = refl
split_from-nil (suc fuel) = refl

split_from-join :
    (fuel : ℕ) (t : Bytes) (ts : List Bytes)
    → length ts < fuel
    → All IsToken (t ∷ ts)
    → (s : Bytes) → skip_spaces s ≡ join (t ∷ ts)
    → split_from fuel s ≡ t ∷ ts
split_from-join zero t ts h all s e = absurd (omega arith)
split_from-join (suc fuel) t [] h all s e =
    let (first, rest, full) = join-behind t [] all.0 in
    split_from_step fuel s t e
    ∙ rw (full, first, rest) (ap (λ (x : List Bytes). t ∷ x) (split_from-nil fuel))
split_from-join (suc fuel) t (u ∷ us) h all s e =
    let (first, rest, full) = join-behind t (u ∷ us) all.0 in
    split_from_step fuel s (join (t ∷ u ∷ us)) e
    ∙ rw (full, first, rest)
        (ap (◌∷◌ t) (
          split_from-join fuel u us (omega arith) all.1 (behind (u ∷ us))
            (skip_spaces_space (join (u ∷ us)) ∙ join-head u us all.1.0)))

length-join :
    (t : Bytes) (ts : List Bytes) → All IsToken (t ∷ ts) → length ts < length (join (t ∷ ts))
length-join [] ts all = absurd (ground (arith, all.0.full))
length-join (c ∷ t) [] all = omega arith
length-join (c ∷ t) (u ∷ us) all =
    omega (arith, length-append t (b' ' ∷ join (u ∷ us)), length-join u us all.1)

-- Tokens joined by single spaces are split into the same tokens.
pub ipc_split-join : (ts : List Bytes) → All IsToken ts → ipc_split (join ts) ≡ ts
unfolding ipc_split
ipc_split-join [] all = split_from-nil 0
ipc_split-join (t ∷ ts) all =
    split_from-join (length (join (t ∷ ts))) t ts (length-join t ts all) all (join (t ∷ ts))
      (join-head t ts all.0)
