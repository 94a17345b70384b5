-- ===== src/Engine/Scoring/Counts.antt =====
-- What taking a job out of the running ones changes.
use proxchunk.Prelude.{
  ℕ, zero, suc, ◌+◌, ◌≡◌, refl, ◌⊎◌, inl, inr, none, some, List, [], ◌∷◌, arith, if◌then◌else◌,
  length, Bytes, bytes_eq,
}
use proxchunk.Engine.Rows.{count}
use proxchunk.Engine.Scoring.{take_at}

-- How often an address is in a list.
abbrev pub times : Bytes → List Bytes → ℕ
times a xs = count (λ b. bytes_eq b a) xs

pub take_at_lem :
    (n : ℕ) (xs : List Bytes)
    → (take_at n xs ≡ none)
      ⊎ ((b : Bytes) × (bs : List Bytes) × (take_at n xs ≡ some (b, bs))
          × (length xs ≡ suc (length bs))
          × ((a : Bytes) → times a xs ≡ (if bytes_eq b a then 1 else 0) + times a bs))
unfolding take_at
take_at_lem n [] = inl refl
take_at_lem zero (b ∷ bs) = inr (b, bs, refl, refl, λ a. refl)
take_at_lem (suc n) (c ∷ cs) = elim (take_at_lem n cs) [
  | inl none_there ↦ inl (rw none_there refl)
  | inr (b, bs, got, fewer, counts) ↦
      inr (b, c ∷ bs, rw got refl, omega (arith, fewer), λ a. omega (arith, counts a))
]
