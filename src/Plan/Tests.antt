-- ===== src/Plan/Tests.antt =====
-- Runs of the planners on the inputs of tests/test_plan.cpp, and the plan theorems applied.
use proxchunk.Prelude.{ℕ, ◌≡◌, refl, none, some, [], ◌∷◌, arith, length, pos, negsuc}
use proxchunk.Plan.Ranges.{max_int64, checked_chunks, checked_chunks-plan_chunks}
use proxchunk.Plan.{Chunk, plan_chunks, plan_chunks_n, plan_n_bounds}
use proxchunk.Plan.Cover.{Covers, AtMost, plan_chunks-Covers}
use proxchunk.Plan.Pieces.{EqualPieces, plan_chunks_n-Covers}

abbrev piece : ℕ → ℕ → ℕ → Chunk
piece id lo hi = record { start = pos lo; end = pos hi; id = id }

by_size : plan_chunks (pos 100) (pos 40) ≡ piece 0 0 39 ∷ piece 1 40 79 ∷ piece 2 80 99 ∷ []
unfolding plan_chunks
by_size = refl

by_count : plan_chunks_n (pos 3) (pos 8) ≡ piece 0 0 0 ∷ piece 1 1 1 ∷ piece 2 2 2 ∷ []
unfolding plan_chunks_n plan_n_bounds
by_count = refl

invalid_bounds : plan_n_bounds (pos 10) (pos 3) (negsuc 0) ≡ (pos 0, negsuc 0)
unfolding plan_n_bounds
invalid_bounds = refl

plan_chunks-Covers_example :
    Covers 100 0 0 (plan_chunks (pos 100) (pos 40)) × AtMost 40 (plan_chunks (pos 100) (pos 40))
plan_chunks-Covers_example = plan_chunks-Covers 100 40 (omega arith) (omega arith)

plan_chunks_n-Covers_example :
    let cs = plan_chunks_n (pos 100) (pos 8) in
    (length cs ≡ 8) × Covers 100 0 0 cs × EqualPieces 12 4 cs
plan_chunks_n-Covers_example = plan_chunks_n-Covers 100 8 (omega arith) (omega arith)

checked_chunks-plan_chunks_example :
    checked_chunks (pos 100) (pos 40) ≡ some (plan_chunks (pos 100) (pos 40))
checked_chunks-plan_chunks_example = checked_chunks-plan_chunks 100 40 (omega arith) (omega arith)

-- Near the end of the range the step behind the last chunk leaves it.
step_overflows : checked_chunks (pos max_int64) (pos 4611686018427387905) ≡ none
unfolding checked_chunks
step_overflows = refl
