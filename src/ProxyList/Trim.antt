-- ===== src/ProxyList/Trim.antt =====
-- What `trim` removes and what it leaves.
use proxchunk.Prelude.{
  ℕ, ◌≡◌, refl, ap, ◌∙◌, subst, ◌≢◌, inl, inr, Bool, true, false, ◌&&◌, [], ◌∷◌, ◌++◌,
  if◌then◌else◌, Bool-cases, is_empty, All, Bytes,
}
use proxchunk.ProxyList.{is_blank, trim_front, trim_back, trim}

abbrev IsBlank : ℕ → Type 0
IsBlank c = is_blank c ≡ true

abbrev pub head_blank : Bytes → Bool
head_blank [] = false
head_blank (c ∷ s) = is_blank c

abbrev pub last_blank : Bytes → Bool
last_blank [] = false
last_blank (c ∷ []) = is_blank c
last_blank (c ∷ d ∷ s) = last_blank (d ∷ s)

trim_front_splits :
    (s : Bytes)
    → (pre : Bytes) × (s ≡ pre ++ trim_front s)
      × All IsBlank pre
      × (head_blank (trim_front s) ≡ false)
unfolding trim_front
trim_front_splits [] = ([], refl, tt, refl)
trim_front_splits (c ∷ s) = elim (Bool-cases (is_blank c)) [
  | inl b ↦
      let (pre, e, all, h) = trim_front_splits s in (c ∷ pre, rw b (ap (◌∷◌ c) e), (b, all), rw b h)
  | inr n ↦ ([], rw n refl, tt, rw n n)
]

last_blank-cons : (c : ℕ) (s : Bytes) → s ≢ [] → last_blank (c ∷ s) ≡ last_blank s
last_blank-cons c [] h = absurd (h refl)
last_blank-cons c (d ∷ s) h = refl

trim_back_splits :
    (s : Bytes)
    → (post : Bytes) × (s ≡ trim_back s ++ post)
      × All IsBlank post
      × (last_blank (trim_back s) ≡ false)
unfolding trim_back
trim_back_splits [] = ([], refl, tt, refl)
trim_back_splits (c ∷ s) =
    let (post, e, all, l) = trim_back_splits s in back_step c s (trim_back s) post e all l
  where
    back_step :
        (c : ℕ) (s t post : Bytes)
        → s ≡ t ++ post
        → All IsBlank post
        → last_blank t ≡ false
        → let u = if is_empty t && is_blank c then [] else c ∷ t in
          (post : Bytes) × (c ∷ s ≡ u ++ post) × All IsBlank post × (last_blank u ≡ false)
    back_step c s (d ∷ t) post e all l = (post, ap (◌∷◌ c) e, all, l)
    back_step c s [] post e all l = elim (Bool-cases (is_blank c)) [
      | inl b ↦ (c ∷ post, rw b (ap (◌∷◌ c) e), (b, all), rw b refl)
      | inr n ↦ (post, rw n (ap (◌∷◌ c) e), all, rw n n)
    ]

-- A prefix of a text whose head is not blank, other than the empty one, has the same head.
head_blank-append_left : (s post : Bytes) → head_blank (s ++ post) ≡ false → head_blank s ≡ false
head_blank-append_left [] post h = refl
head_blank-append_left (c ∷ s) post h = h

-- `trim` takes blank bytes off both ends and nothing else, and leaves no blank at either end.
pub trim_splits :
    (s : Bytes)
    → (pre : Bytes) × (post : Bytes) × (s ≡ pre ++ (trim s ++ post))
      × All IsBlank pre
      × All IsBlank post
      × (head_blank (trim s) ≡ false)
      × (last_blank (trim s) ≡ false)
unfolding trim
trim_splits s =
    let (pre, e, blank_pre, h) = trim_front_splits s in
    let (post, f, blank_post, l) = trim_back_splits (trim_front s) in
    (
      pre,
      post,
      e ∙ ap (◌++◌ pre) f,
      blank_pre,
      blank_post,
      head_blank-append_left (trim_back (trim_front s)) post
          (subst (λ t. head_blank t ≡ false) f h),
      l,
    )

trim_front_fixed : (s : Bytes) → head_blank s ≡ false → trim_front s ≡ s
unfolding trim_front
trim_front_fixed [] h = refl
trim_front_fixed (c ∷ s) h = rw h

trim_back_fixed : (s : Bytes) → last_blank s ≡ false → trim_back s ≡ s
unfolding trim_back
trim_back_fixed [] h = refl
trim_back_fixed (c ∷ []) h = rw h
trim_back_fixed (c ∷ d ∷ s) h = rw (trim_back_fixed (d ∷ s) h)

-- A text with no blank at either end is left as it is.
pub trim_fixed : (s : Bytes) → head_blank s ≡ false → last_blank s ≡ false → trim s ≡ s
unfolding trim
trim_fixed s h l = rw (trim_front_fixed s h) (trim_back_fixed s l)

trim_idem : (s : Bytes) → trim (trim s) ≡ trim s
trim_idem s = let t = trim_splits s in trim_fixed (trim s) t.5 t.6

pub last_blank-append : (s t : Bytes) → t ≢ [] → last_blank (s ++ t) ≡ last_blank t
last_blank-append [] t h = refl
last_blank-append (c ∷ []) t h = last_blank-cons c t h
last_blank-append (c ∷ d ∷ s) t h = last_blank-append (d ∷ s) t h
