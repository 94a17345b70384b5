-- ===== src/Download/Located.antt =====
-- Every interleaving of the workers keeps the part files right, and no chunk is lost.
use proxchunk.Prelude.{
  ℕ, zero, suc, ◌+◌, ◌≤◌, ◌<◌, ◌⊎◌, inl, inr, Bool, List, [], ◌∷◌, arith, All, Bytes,
}
use proxchunk.Plan.{Chunk}
use proxchunk.Download.{Phase, Shared, Answer, step_at, steps}
use proxchunk.Download.Chunks.{IsHonest}
use proxchunk.Download.Parts.{tally, hand, IsRight, AllPartial, IsKnown, InHand, Goes}
use proxchunk.Download.Queue.{total}
use proxchunk.Download.Written.{AllSpan, worker_step-GoesTo}

module _ (file : Bytes) (need : ℕ) (chunk_at : ℕ → Chunk) where
  -- Every job is for a chunk of the target, every part is a piece of its chunk, and every chunk is in
  -- the queue, in hand, or whole on the disk, unless one has failed.
  abbrev pub Located : Shared → List Phase → Type 0
  Located s ws =
      AllPartial file need chunk_at s.parts
      × All (IsKnown file need chunk_at) s.jobs
      × All (InHand file need chunk_at) ws
      × ((i : ℕ)
          → i < need
          → (1 ≤ tally i s.jobs + total (hand i) ws)
            ⊎ (IsRight file need chunk_at s.parts i ⊎ 1 ≤ s.failed))

  abbrev AllGo : Shared → List Phase → Shared × List Phase → Type 0
  AllGo s ws (s', ws') =
      Goes file need chunk_at s (λ i. total (hand i) ws) s' (λ i. total (hand i) ws')
      × All (InHand file need chunk_at) ws'

  step_at-AllGo :
      (only_direct : Bool) (n : ℕ) (a : Answer) (s : Shared) (ws : List Phase)
      → AllSpan file need chunk_at
      → IsHonest file a.transfer
      → AllPartial file need chunk_at s.parts
      → All (IsKnown file need chunk_at) s.jobs
      → All (InHand file need chunk_at) ws
      → AllGo s ws (step_at only_direct n a s ws)
  unfolding step_at
  step_at-AllGo only_direct n a s [] spans honest partial known hands =
      ((partial, known, (λ i h. inl (omega arith)), (λ i h r. r), omega arith), tt)
  step_at-AllGo only_direct zero a s (w ∷ ws) spans honest partial known hands =
      let ((partial', known', goes, stays, fails), mine) =
        worker_step-GoesTo file need chunk_at only_direct a s w spans honest partial known
          hands.0 in
      (
        (
          partial',
          known',
          (λ i h. elim (goes i h) [ inl le ↦ inl (omega (arith, le)) | inr r ↦ inr r ]),
          stays,
          fails,
        ),
        (mine, hands.1),
      )
  step_at-AllGo only_direct (suc n) a s (w ∷ ws) spans honest partial known hands =
      let ((partial', known', goes, stays, fails), mine) =
        step_at-AllGo only_direct n a s ws spans honest partial known hands.1 in
      (
        (
          partial',
          known',
          (λ i h. elim (goes i h) [ inl le ↦ inl (omega (arith, le)) | inr r ↦ inr r ]),
          stays,
          fails,
        ),
        (hands.0, mine),
      )

  pub steps-Located :
      (only_direct : Bool) (schedule : List (ℕ × Answer)) (s : Shared) (ws : List Phase)
      → AllSpan file need chunk_at
      → All (λ (step : ℕ × Answer). IsHonest file step.1.transfer) schedule
      → Located s ws
      → let (s', ws') = steps only_direct schedule s ws in Located s' ws'
  unfolding steps
  steps-Located only_direct [] s ws spans honest v = v
  steps-Located only_direct ((n, a) ∷ more) s ws spans honest (partial, known, hands, there) =
      let (s', ws') = step_at only_direct n a s ws in
      let ((partial', known', goes, stays, fails), hands') =
        step_at-AllGo only_direct n a s ws spans honest.0 partial known hands in
      steps-Located only_direct more s' ws' spans honest.1 (
        partial',
        known',
        hands',
        λ i h. elim (there i h) [
          | inr (inl right) ↦ inr (inl (stays i h right))
          | inr (inr failed) ↦ inr (inr (omega (arith, failed, fails)))
          | inl counted ↦ elim (goes i h) [
            | inl le ↦ inl (omega (arith, counted, le))
            | inr r ↦ inr r
          ]
        ],
      )
