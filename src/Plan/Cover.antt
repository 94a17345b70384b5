-- ===== src/Plan/Cover.antt =====
-- A plan is a partition of the bytes of the file: plan_chunks, for any size and chunk size.
use proxchunk.Prelude.{
  ℕ, zero, suc, ◌+◌, ◌-◌, ◌≤◌, ◌<◌, List, [], ◌∷◌, ltb, ◌==◌, ◌||◌, Bool-cases, inl, inr, ltb→lt,
  pos, ◌≡◌, refl, subst, arith, min, false,
}
use proxchunk.Plan.{Chunk, plan_chunks_from, plan_chunks}

-- The chunks are numbered from `id` on, none is empty, and each begins where the one before it
-- ends: together they hold the bytes from `from` up to `size`, each once and in order.
abbrev pub Covers : ℕ → ℕ → ℕ → List Chunk → Type 0
Covers size id from [] = from ≡ size
Covers size id from (c ∷ cs) =
    (c.id ≡ id)
    × (c.start ≡ pos from)
    × ((last : ℕ) × (c.end ≡ pos last)
        × (from ≤ last)
        × (last < size)
        × Covers size (id + 1) (last + 1) cs)

-- No chunk holds more than `most` bytes.
abbrev pub AtMost : ℕ → List Chunk → Type 0
AtMost most [] = Unit {0}
AtMost most (c ∷ cs) =
    ((lo : ℕ) × (hi : ℕ) × (c.start ≡ pos lo) × (c.end ≡ pos hi) × (hi + 1 ≤ lo + most))
    × AtMost most cs

plan_chunks_from-past :
    (fuel size chunk_bytes off id : ℕ)
    → size ≤ off
    → plan_chunks_from fuel size chunk_bytes off id ≡ []
unfolding plan_chunks_from
plan_chunks_from-past zero size b off id h = refl
plan_chunks_from-past (suc fuel) size b off id h = ground arith

plan_chunks_from-Covers :
    (fuel size chunk_bytes off id : ℕ)
    → 0 < chunk_bytes
    → off ≤ size
    → size ≤ off + fuel
    → Covers size id off (plan_chunks_from fuel size chunk_bytes off id)
unfolding plan_chunks_from
plan_chunks_from-Covers zero size b off id h k l = omega arith
plan_chunks_from-Covers (suc fuel) size b off id h k l = elim (Bool-cases (ltb off size)) [
  | inl more ↦ rw more (
    refl,
    refl,
    (
      min (off + b - 1) (size - 1),
      refl,
      omega (arith, ltb→lt off size more),
      omega (arith, ltb→lt off size more),
      elim (Bool-cases (ltb (off + b) size)) [
        | inl inside ↦
            subst
              (λ from. Covers size (id + 1) from (plan_chunks_from fuel size b (off + b) (id + 1)))
              (omega (arith, ltb→lt (off + b) size inside))
              (plan_chunks_from-Covers fuel size b (off + b) (id + 1) h
                (omega (arith, ltb→lt (off + b) size inside)) (omega arith))
        | inr past ↦
            rw (plan_chunks_from-past fuel size b (off + b) (id + 1) (ground arith))
              (last_is size b off (ground arith) (ground arith))
      ],
    ),
  )
  | inr done ↦ rw done (ground arith)
]
  where
    last_is :
        (size b off : ℕ) → size ≤ off + b → off < size → min (off + b - 1) (size - 1) + 1 ≡ size
    last_is size b off h k = omega arith

plan_chunks_from-AtMost :
    (fuel size chunk_bytes off id : ℕ)
    → 0 < chunk_bytes
    → AtMost chunk_bytes (plan_chunks_from fuel size chunk_bytes off id)
unfolding plan_chunks_from
plan_chunks_from-AtMost zero size b off id h = tt
plan_chunks_from-AtMost (suc fuel) size b off id h = elim (Bool-cases (ltb off size)) [
  | inl more ↦ rw more (
    (off, min (off + b - 1) (size - 1), refl, refl, omega arith),
    plan_chunks_from-AtMost fuel size b (off + b) (id + 1) h,
  )
  | inr done ↦ rw done tt
]

-- For a positive size and chunk size, the chunks are numbered from 0 in order, partition the bytes
-- 0 .. size - 1 with no gap and no overlap, and none is empty or longer than the chunk size.
pub plan_chunks-Covers :
    (size chunk_bytes : ℕ)
    → 0 < size
    → 0 < chunk_bytes
    → Covers size 0 0 (plan_chunks (pos size) (pos chunk_bytes))
      × AtMost chunk_bytes (plan_chunks (pos size) (pos chunk_bytes))
unfolding plan_chunks
plan_chunks-Covers size b h k =
    let tests : (size == 0 || b == 0) ≡ false = ground arith in
    rw tests (
      plan_chunks_from-Covers size size b 0 0 k (omega arith) (omega arith),
      plan_chunks_from-AtMost size size b 0 0 k,
    )
