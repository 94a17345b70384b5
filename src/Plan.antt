-- ===== src/Plan.antt =====
-- include/proxchunk/plan_n.h and the planners of include/proxchunk/plan.hpp.
-- int64_t and int are signed integers without bounds here; in Plan/Ranges they have them.
pub mod Cover
pub mod Pieces
pub mod Ranges
mod Tests
use proxchunk.Prelude.{
  ℕ, zero, suc, ◌+◌, ◌-◌, ◌*◌, ◌/◌, min, List, [], ◌∷◌, ltb, leb, ◌==◌, ◌||◌, if◌then◌else◌, ℤ, pos,
  negsuc, sub_ℕ,
}

-- Both offsets are inclusive.
pub record Chunk : Type 0 where
  pub start : ℤ
  pub end : ℤ
  pub id : ℕ

-- The loop `for (off = 0; off < size; off += chunk_bytes)`, on fuel.
pub plan_chunks_from : ℕ → ℕ → ℕ → ℕ → ℕ → List Chunk
plan_chunks_from zero size chunk_bytes off id = []
plan_chunks_from (suc fuel) size chunk_bytes off id =
    let rest = plan_chunks_from fuel size chunk_bytes (off + chunk_bytes) (id + 1) in
    if ltb off size
    then record { start = pos off; end = pos (min (off + chunk_bytes - 1) (size - 1)); id = id }
      ∷ rest
    else []

-- Each round adds at least one to `off`, so `size` rounds are enough.
unfoldable pub plan_chunks : ℤ → ℤ → List Chunk
unfolding plan_chunks_from
plan_chunks (pos size) (pos chunk_bytes) =
    if size == 0 || chunk_bytes == 0 then [] else plan_chunks_from size size chunk_bytes 0 0
plan_chunks _ _ = []

pub plan_n_piece_count : ℤ → ℤ → ℕ
plan_n_piece_count (pos size) (pos n_pieces) =
    if size == 0 || ltb n_pieces 1 then 0 else if ltb size n_pieces then size else n_pieces
plan_n_piece_count _ _ = 0

-- What is written through `start` and `end`; the pointers are never null.
unfoldable pub plan_n_bounds : ℤ → ℤ → ℤ → ℤ × ℤ
plan_n_bounds (pos size) (pos n) (pos i) =
    if size == 0 || ltb n 1 || leb n i
    then (pos 0, negsuc 0)
    else (let piece = size / n in
        let start = i * piece in
        if i == n - 1 then (pos start, pos (size - 1)) else (pos start, sub_ℕ (start + piece) 1))
plan_n_bounds _ _ _ = (pos 0, negsuc 0)

-- `for (i = 0; i < n; ++i)`: `left` is n - i.
pub plan_chunks_n_from : ℤ → ℕ → ℕ → ℕ → List Chunk
plan_chunks_n_from size n zero i = []
plan_chunks_n_from size n (suc left) i =
    let bounds = plan_n_bounds size (pos n) (pos i) in
    record { start = bounds.0; end = bounds.1; id = i } ∷ plan_chunks_n_from size n left (i + 1)

-- With n = 0 the loop makes no chunk, as the test `n < 1` does.
unfoldable pub plan_chunks_n : ℤ → ℤ → List Chunk
unfolding plan_chunks_n_from plan_n_piece_count
plan_chunks_n size n_pieces =
    let n = plan_n_piece_count size n_pieces in
    if ltb n 1 then [] else plan_chunks_n_from size n n 0
