-- ===== src/Plan/Ranges.antt =====
-- plan_chunks of include/proxchunk/plan.hpp with int64_t offsets and int ids.
use proxchunk.Prelude.{
  ℕ, zero, suc, ◌+◌, ◌-◌, ◌*◌, ◌≤◌, min, ◌≡◌, refl, inl, inr, false, not, ◌||◌, Option, none, some,
  List, [], ◌∷◌, arith, ltb, ◌==◌, if◌then◌else◌, Bool-cases, ℤ, pos,
}
use proxchunk.Plan.{Chunk, plan_chunks_from, plan_chunks}

abbrev pub max_int64 : ℕ
max_int64 = 9223372036854775807

abbrev max_int : ℕ
max_int = 2147483647

abbrev in_front_of : Chunk → Option (List Chunk) → Option (List Chunk)
in_front_of ch none = none
in_front_of ch (some cs) = some (ch ∷ cs)

-- The loop, `none` where an offset or an id is not in the range of its type.
checked_from : ℕ → ℕ → ℕ → ℕ → ℕ → Option (List Chunk)
checked_from zero size chunk_bytes off id = some []
checked_from (suc fuel) size chunk_bytes off id =
    let next = off + chunk_bytes in
    let rest = checked_from fuel size chunk_bytes next (id + 1) in
    if not (ltb off size)
    then some []
    else if ltb max_int64 next || ltb max_int (id + 1)
    then none
    else in_front_of (record { start = pos off; end = pos (min (next - 1) (size - 1)); id = id })
        rest

unfoldable pub checked_chunks : ℤ → ℤ → Option (List Chunk)
unfolding checked_from
checked_chunks (pos size) (pos chunk_bytes) =
    if size == 0 || chunk_bytes == 0 then some [] else checked_from size size chunk_bytes 0 0
checked_chunks _ _ = some []

-- With `left` more rounds behind the offset.
checked_from-plan_chunks_from :
    (fuel size chunk_bytes off id left : ℕ)
    → size ≤ off + left * chunk_bytes
    → id + left ≤ max_int
    → size + chunk_bytes ≤ max_int64
    → checked_from fuel size chunk_bytes off id
      ≡ some (plan_chunks_from fuel size chunk_bytes off id)
unfolding checked_from plan_chunks_from
checked_from-plan_chunks_from zero size chunk_bytes off id left h k fits = refl
checked_from-plan_chunks_from (suc fuel) size chunk_bytes off id zero h k fits =
    let past : ltb off size ≡ false = ground (arith, h) in rw past refl
checked_from-plan_chunks_from (suc fuel) size chunk_bytes off id (suc left) h k fits =
    elim (Bool-cases (ltb off size)) [
      | inr past ↦ rw past refl
      | inl inside ↦
          let next_fits : ltb max_int64 (off + chunk_bytes) ≡ false =
            ground (arith, fits, inside) in
          let id_fits : ltb max_int (id + 1) ≡ false = ground (arith, k) in
          rw
            (
              inside,
              next_fits,
              id_fits,
              checked_from-plan_chunks_from fuel size chunk_bytes (off + chunk_bytes) (id + 1) left
                  (omega (arith, h)) (omega (arith, k)) fits,
            )
            refl
    ]

-- Where a size and a chunk fit into an int64_t together, and there are no more chunks than an int counts,
-- no offset and no id of the planner leaves the range of its type, and the plan is the one of unbounded
-- numbers.
pub checked_chunks-plan_chunks :
    (size chunk_bytes : ℕ)
    → size ≤ max_int * chunk_bytes
    → size + chunk_bytes ≤ max_int64
    → checked_chunks (pos size) (pos chunk_bytes) ≡ some (plan_chunks (pos size) (pos chunk_bytes))
unfolding checked_chunks plan_chunks
checked_chunks-plan_chunks size chunk_bytes few fits =
    elim (Bool-cases (size == 0 || chunk_bytes == 0)) [
      | inl none_left ↦ rw none_left refl
      | inr some_left ↦ rw some_left (
          checked_from-plan_chunks_from size size chunk_bytes 0 0 max_int (omega (arith, few))
            (omega arith) fits)
    ]
