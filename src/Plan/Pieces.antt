-- ===== src/Plan/Pieces.antt =====
-- The plan in equal pieces: plan_n_piece_count, plan_n_bounds and plan_chunks_n.
use proxchunk.Prelude.{
  ℕ, zero, suc, ◌+◌, ◌-◌, ◌*◌, ◌/◌, ◌%◌, ◌≤◌, ◌<◌, min, ◌≡◌, refl, ap, subst, false, List, [], ◌∷◌,
  arith, ltb, if◌then◌else◌, length, ℤ, pos,
}
use native.Mathlib.Nat.{div-add-mod}
use proxchunk.Plan.{Chunk, plan_n_piece_count, plan_n_bounds, plan_chunks_n_from, plan_chunks_n}
use proxchunk.Plan.Cover.{Covers}

plan_n_piece_count-min :
    (size n : ℕ) → 0 < size → plan_n_piece_count (pos size) (pos n) ≡ min n size
unfolding plan_n_piece_count
plan_n_piece_count-min size n h = ground arith

piece_fits : (size n i : ℕ) → 0 < n → i < n → i * (size / n) + size / n ≤ size
piece_fits size n i h k = grind arith

piece_pos : (size n : ℕ) → 0 < n → n ≤ size → 0 < size / n
piece_pos size n h k = grind arith

plan_n_bounds_inner :
    (size n i : ℕ)
    → i + 1 < n
    → n ≤ size
    → plan_n_bounds (pos size) (pos n) (pos i)
      ≡ (pos (i * (size / n)), pos (i * (size / n) + size / n - 1))
unfolding plan_n_bounds
plan_n_bounds_inner size n i h k = ground (arith, piece_pos size n)

plan_n_bounds_last :
    (size n i : ℕ)
    → i + 1 ≡ n
    → n ≤ size
    → plan_n_bounds (pos size) (pos n) (pos i) ≡ (pos (i * (size / n)), pos (size - 1))
unfolding plan_n_bounds
plan_n_bounds_last size n i h k = ground arith

-- Every chunk has `piece` bytes, and the last one `extra` bytes more.
abbrev pub EqualPieces : ℕ → ℕ → List Chunk → Type 0
EqualPieces piece extra [] = Unit {0}
EqualPieces piece extra (c ∷ []) =
    (lo : ℕ) × (hi : ℕ) × (c.start ≡ pos lo) × (c.end ≡ pos hi) × (hi + 1 ≡ lo + piece + extra)
EqualPieces piece extra (c ∷ d ∷ cs) =
    ((lo : ℕ) × (hi : ℕ) × (c.start ≡ pos lo) × (c.end ≡ pos hi) × (hi + 1 ≡ lo + piece))
    × EqualPieces piece extra (d ∷ cs)

abbrev Pieces : ℕ → ℕ → ℕ → List Chunk → Type 0
Pieces size n i cs = Covers size i (i * (size / n)) cs × EqualPieces (size / n) (size % n) cs

last_width : (size n i : ℕ) → 0 < n → i + 1 ≡ n → size ≡ i * (size / n) + size / n + size % n
last_width size n i h k = omega (arith, div-add-mod size n, ap (λ (t : ℕ). t * (size / n)) k)

next_start : (i piece : ℕ) → 0 < piece → (i + 1) * piece ≡ i * piece + piece - 1 + 1
next_start i piece h = grind arith

plan_chunks_n_from-Pieces :
    (left i size n : ℕ)
    → i + suc left ≡ n
    → n ≤ size
    → Pieces size n i (plan_chunks_n_from (pos size) n (suc left) i)
unfolding plan_chunks_n_from
plan_chunks_n_from-Pieces zero i size n h k =
    let w = last_width size n i (omega arith) (omega arith) in
    let p = piece_pos size n (omega arith) k in
    rw (plan_n_bounds_last size n i (omega arith) k) (
      (refl, refl, (size - 1, refl, omega arith, omega arith, omega arith)),
      (i * (size / n), size - 1, refl, refl, omega arith),
    )
plan_chunks_n_from-Pieces (suc left) i size n h k =
    let p = piece_pos size n (omega arith) k in
    let fits = piece_fits size n i (omega arith) (omega arith) in
    let rest = plan_chunks_n_from-Pieces left (i + 1) size n (omega arith) k in
    let hi = i * (size / n) + size / n - 1 in
    let next =
      subst (λ from. Covers size (i + 1) from (plan_chunks_n_from (pos size) n (suc left) (i + 1)))
        (next_start i (size / n) p) rest.0 in
    rw (plan_n_bounds_inner size n i (omega arith) k) (
      (refl, refl, (hi, refl, omega arith, omega arith, next)),
      ((i * (size / n), hi, refl, refl, omega arith), rest.1),
    )

length-plan_chunks_n_from :
    (left i n : ℕ) (size : ℤ) → length (plan_chunks_n_from size n left i) ≡ left
unfolding plan_chunks_n_from
length-plan_chunks_n_from zero i n size = refl
length-plan_chunks_n_from (suc left) i n size =
    ap suc (length-plan_chunks_n_from left (i + 1) n size)

-- For a positive size and piece count there are min(n, size) pieces, numbered from 0 in order.
-- They partition the bytes 0 .. size - 1 with no gap, no overlap and no empty piece. With k the
-- number of pieces, each has size / k bytes, but for the last one, which has size % k more.
pub plan_chunks_n-Covers :
    (size n : ℕ)
    → 0 < size
    → 0 < n
    → let cs = plan_chunks_n (pos size) (pos n) in
      let k = min n size in
      (length cs ≡ k) × Covers size 0 0 cs × EqualPieces (size / k) (size % k) cs
unfolding plan_chunks_n
plan_chunks_n-Covers size n h k =
    rw (plan_n_piece_count-min size n h) (go (min n size) (omega arith) (omega arith))
  where
    go :
        (m : ℕ)
        → 0 < m
        → m ≤ size
        → let cs = if ltb m 1 then [] else plan_chunks_n_from (pos size) m m 0 in
          (length cs ≡ m) × Covers size 0 0 cs × EqualPieces (size / m) (size % m) cs
    go zero h k = absurd (omega arith)
    go (suc m) h k =
        let (covers, widths) = plan_chunks_n_from-Pieces m 0 size (suc m) (omega arith) k in
        let tests : ltb (suc m) 1 ≡ false = ground arith in
        rw tests (
          length-plan_chunks_n_from (suc m) 0 (suc m) (pos size),
          subst (λ from. Covers size 0 from (plan_chunks_n_from (pos size) (suc m) (suc m) 0))
              (omega arith) covers,
          widths,
        )
