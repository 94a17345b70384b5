-- ===== src/Download/Finish.antt =====
-- The assembled file: with every chunk finished it is the target's first bytes.
use proxchunk.Prelude.{
  ℕ, zero, suc, ◌+◌, ◌-◌, ◌≤◌, ◌<◌, ◌≡◌, refl, ap, ◌∙◌, ◌⊎◌, inl, inr, Bool, true, Option, some,
  List, [], ◌∷◌, ◌++◌, map, arith, ltb, ◌==◌, Bool-cases, length, take, length-take, All, pos,
  Bytes,
}
use proxchunk.Plan.{Chunk}
use proxchunk.Plan.Cover.{Covers}
use proxchunk.Download.{
  Answer, Job, Phase, idle, peeked, settled, returned, piped, running, closing, missed, queueing,
  steps, new_job, start_shared, idle_workers, assemble, finish_download,
}
use proxchunk.Download.Chunks.{slice, slice-append, IsHonest}
use proxchunk.Download.Queue.{total, run_of, steps-Counts}
use proxchunk.Download.Parts.{to_ℕ, first_of, last_of, tally, hand, IsRight, IsKnown, InHand}
use proxchunk.Download.Written.{AllSpan}
use proxchunk.Download.Located.{Located, steps-Located}

abbrev no_chunk : Chunk
no_chunk = record { start = pos 0; end = pos 0; id = 0 }

-- The chunk at a place of the plan.
abbrev nth_chunk : List Chunk → ℕ → Chunk
nth_chunk [] i = no_chunk
nth_chunk (c ∷ cs) zero = c
nth_chunk (c ∷ cs) (suc i) = nth_chunk cs i

Covers-bound : (size id from : ℕ) (cs : List Chunk) → Covers size id from cs → from ≤ size
Covers-bound size id from [] h = omega (arith, h)
Covers-bound size id from (c ∷ cs) (_, _, (last, _, le, lt, rest)) = omega (arith, le, lt)

Covers-AllSpan :
    (file : Bytes) (size id from : ℕ) (cs : List Chunk)
    → size ≤ length file
    → Covers size id from cs
    → AllSpan file (length cs) (nth_chunk cs)
Covers-AllSpan file size id from [] fits covers i h = absurd (omega (arith, h))
Covers-AllSpan file size id from (c ∷ cs) fits (_, start, (last, end, le, lt, rest)) zero h =
    rw (start, end) (refl, refl, le, omega arith)
Covers-AllSpan file size id from (c ∷ cs) fits (_, start, (last, end, le, lt, rest)) (suc i) h =
    Covers-AllSpan file size (id + 1) (last + 1) cs fits rest i (omega (arith, h))

start-IsKnown :
    (file : Bytes) (need : ℕ) (chunk_at : ℕ → Chunk) (size id from : ℕ) (cs : List Chunk)
    → Covers size id from cs
    → id + length cs ≤ need
    → ((i : ℕ) → i < length cs → nth_chunk cs i ≡ chunk_at (id + i))
    → All (IsKnown file need chunk_at) (map new_job cs)
start-IsKnown file need chunk_at size id from [] covers fits at = tt
start-IsKnown file need chunk_at size id from (c ∷ cs) (number, start, (last, end, le, lt, rest))
      fits at =
    (
      (omega (arith, number, fits), at 0 (omega arith) ∙ ap chunk_at (omega (arith, number))),
      start-IsKnown file need chunk_at size (id + 1) (last + 1) cs rest (omega (arith, fits))
          (λ i h. at (suc i) (omega (arith, h)) ∙ ap chunk_at (omega arith)),
    )

start-tally :
    (size id from : ℕ) (cs : List Chunk) (i : ℕ)
    → Covers size id from cs
    → id ≤ i
    → i < id + length cs
    → 1 ≤ tally i (map new_job cs)
start-tally size id from [] i covers low high = absurd (omega (arith, low, high))
start-tally size id from (c ∷ cs) i (number, start, (last, end, le, lt, rest)) low high =
    elim (Bool-cases (c.id == i)) [
      | inl same ↦ rw same (omega arith)
      | inr other ↦
          let later =
            start-tally size (id + 1) (last + 1) cs i rest (ground (arith, number))
              (omega (arith, high)) in
          omega (arith, later)
    ]

idle_workers-InHand :
    (file : Bytes) (need : ℕ) (chunk_at : ℕ → Chunk) (n : ℕ)
    → All (InHand file need chunk_at) (idle_workers n)
unfolding idle_workers
idle_workers-InHand file need chunk_at zero = tt
idle_workers-InHand file need chunk_at (suc n) = (tt, idle_workers-InHand file need chunk_at n)

start-Located :
    (file : Bytes) (size : ℕ) (cs : List Chunk) (n : ℕ)
    → Covers size 0 0 cs
    → Located file (length cs) (nth_chunk cs) (start_shared cs) (idle_workers n)
unfolding start_shared
start-Located file size cs n covers = (
  (λ i h. (refl, omega arith)),
  start-IsKnown file (length cs) (nth_chunk cs) size 0 0 cs covers (omega arith)
      (λ i h. ap (nth_chunk cs) (omega arith)),
  idle_workers-InHand file (length cs) (nth_chunk cs) n,
  λ i h. inl (omega (arith, start-tally size 0 0 cs i covers (omega arith) (omega (arith, h)))),
)

assemble-slice :
    (file : Bytes) (size id from : ℕ) (cs : List Chunk) (parts : ℕ → Option Bytes)
    → Covers size id from cs
    → ((i : ℕ)
        → i < length cs
        → parts (id + i)
          ≡ some (
              slice file
                (first_of (nth_chunk cs i))
                (last_of (nth_chunk cs i) + 1 - first_of (nth_chunk cs i))))
    → assemble (length cs) id parts ≡ some (slice file from (size - from))
unfolding assemble
assemble-slice file size id from [] parts covers right =
    let empty : size - from ≡ 0 = omega (arith, covers) in rw empty refl
assemble-slice file size id from (c ∷ cs) parts (number, start, (last, end, le, lt, rest)) right =
    let first = right 0 (omega arith) in
    let ih =
      assemble-slice file size (id + 1) (last + 1) cs parts rest
        (λ i h. ap parts (omega arith) ∙ right (suc i) (omega (arith, h))) in
    let here : parts id ≡ some (slice file from (last + 1 - from)) =
      ap parts (omega arith)
      ∙ first
      ∙ ap (λ lo. some (slice file (to_ℕ lo) (last_of c + 1 - to_ℕ lo))) start
      ∙ ap (λ hi. some (slice file from (to_ℕ hi + 1 - from))) end in
    rw (here, ih)
      (ap some (
        ap (λ lo. slice file from (last + 1 - from) ++ slice file lo (size - (last + 1)))
          (omega (arith, le))
        ∙ slice-append file from (last + 1 - from) (size - (last + 1))
        ∙ ap (slice file from) (omega (arith, Covers-bound size (id + 1) (last + 1) cs rest, le))))

counted-zero : (i : ℕ) (ws : List Phase) → total (hand i) ws ≤ total run_of ws
counted-zero i [] = omega arith
counted-zero i (idle ∷ ws) = omega (arith, counted-zero i ws)
counted-zero i (peeked ∷ ws) = omega (arith, counted-zero i ws)
counted-zero i (settled ∷ ws) = omega (arith, counted-zero i ws)
counted-zero i (returned ∷ ws) = omega (arith, counted-zero i ws)
counted-zero i (piped p ∷ ws) = omega (arith, counted-zero i ws)
counted-zero i (running p j ∷ ws) = ground (arith, counted-zero i ws)
counted-zero i (closing p ∷ ws) = omega (arith, counted-zero i ws)
counted-zero i (missed p j ∷ ws) = ground (arith, counted-zero i ws)
counted-zero i (queueing j ∷ ws) = ground (arith, counted-zero i ws)

tally-le : (i : ℕ) (js : List Job) → tally i js ≤ length js
tally-le i [] = omega arith
tally-le i (j ∷ js) = ground (arith, tally-le i js)

-- A plan that covers the first `size` bytes of the target, any number of workers, any interleaving of
-- their steps, and any answers of the daemon and of servers that write only bytes of the Range they
-- were asked for, or an error page that is shorter: once as many chunks are counted as there are, either some chunk is counted as failed,
-- or all parts are there, and where the output file opens, the download succeeds and leaves exactly
-- the first `size` bytes of the target, whatever file stood there before.
pub finish_download-target :
    (file : Bytes) (size : ℕ) (chunks : List Chunk) (only_direct : Bool) (n : ℕ)
    (schedule : List (ℕ × Answer)) (old : Option Bytes)
    → Covers size 0 0 chunks
    → size ≤ length file
    → All (λ (step : ℕ × Answer). IsHonest file step.1.transfer) schedule
    → let s = (steps only_direct schedule (start_shared chunks) (idle_workers n)).0 in
      length chunks ≤ s.finished + s.failed
      → (1 ≤ s.failed)
        ⊎ (finish_download true size (length chunks) old s ≡ (true, some (take size file)))
unfolding finish_download
finish_download-target file size chunks only_direct n schedule old covers fits honest all_counted =
    let (s, ws) = steps only_direct schedule (start_shared chunks) (idle_workers n) in
    let need = length chunks in
    let (loss, _, _) = steps-Counts only_direct chunks n schedule in
    let (_, _, _, there) =
      steps-Located file need (nth_chunk chunks) only_direct schedule (start_shared chunks)
        (idle_workers n) (Covers-AllSpan file size 0 0 chunks fits covers) honest
        (start-Located file size chunks n covers) in
    elim (Bool-cases (ltb 0 s.failed)) [
      | inl some_failed ↦ inl (ground arith)
      | inr none_failed ↦
          let right : (i : ℕ) → i < need → IsRight file need (nth_chunk chunks) s.parts i = λ i h.
            elim (there i h) [
              | inl counted ↦
                  absurd (
                    omega (arith, counted, loss, all_counted, tally-le i s.jobs, counted-zero i ws))
              | inr (inl r) ↦ r
              | inr (inr failed) ↦ absurd (ground arith)
            ] in
          let whole : assemble need 0 s.parts ≡ some (slice file 0 (size - 0)) =
            assemble-slice file size 0 0 chunks s.parts covers
              (λ i h. ap s.parts (omega arith) ∙ right i h) in
          let same : size - 0 ≡ size = omega arith in
          let enough : (length (take size file) == size) ≡ true =
            ground (arith, length-take size file) in
          inr (rw (none_failed, whole, same, enough) refl)
    ]
