-- ===== src/Download/Written.antt =====
-- One step of a worker keeps the part files right.
use proxchunk.Prelude.{
  ℕ, ◌<◌, ◌≡◌, refl, sym, ap, ◌∙◌, subst, inl, inr, Bool, true, false, not, Option, some, arith,
  ◌==◌, if◌then◌else◌, Bool-cases, is_empty, All, Bytes,
}
use proxchunk.Plan.{Chunk}
use proxchunk.Download.{
  Transfer, download_chunk, contents, Pipe, Job, Phase, idle, peeked, settled, returned, piped,
  running, closing, missed, queueing, Shared, Answer, set_part, run_job, worker_step,
}
use proxchunk.Download.Chunks.{
  IsHonest, Spans, IsPartial, Leaves, download_chunk-Leaves, download_chunk_done,
}
use proxchunk.Download.Parts.{
  first_of, last_of, hand, IsRight, AllPartial, IsKnown, InHand, GoesTo, open_pipe-GoesTo,
  take_job-GoesTo, settle-GoesTo, fetched-GoesTo, missed-GoesTo, closing-GoesTo,
}

-- The chunks by their ids are chunks of the target.
abbrev pub AllSpan : Bytes → ℕ → (ℕ → Chunk) → Type 0
AllSpan file need chunk_at =
    (i : ℕ) → i < need → Spans file (chunk_at i) (first_of (chunk_at i)) (last_of (chunk_at i))

set_part-same :
    (i : ℕ) (part : Option Bytes) (parts : ℕ → Option Bytes) → set_part i part parts i ≡ part
unfolding set_part
set_part-same i part parts = ground arith

set_part-other :
    (i k : ℕ) (part : Option Bytes) (parts : ℕ → Option Bytes)
    → (k == i) ≡ false
    → set_part i part parts k ≡ parts k
unfolding set_part
set_part-other i k part parts h = ground arith

module _ (file : Bytes) (need : ℕ) (chunk_at : ℕ → Chunk) where
  set_part-AllPartial :
      (i : ℕ) (part : Option Bytes) (parts : ℕ → Option Bytes)
      → AllPartial file need chunk_at parts
      → IsPartial file (first_of (chunk_at i)) (last_of (chunk_at i)) (contents part)
      → AllPartial file need chunk_at (set_part i part parts)
  set_part-AllPartial i part parts all new k h = elim (Bool-cases (k == i)) [
    | inl same ↦
        let at : i ≡ k = ground arith in
        let now : set_part i part parts k ≡ part =
          subst (λ n. set_part i part parts n ≡ part) at (set_part-same i part parts) in
        let new' : IsPartial file (first_of (chunk_at k)) (last_of (chunk_at k)) (contents part) =
          subst (λ n. IsPartial file (first_of (chunk_at n)) (last_of (chunk_at n)) (contents part))
            at new in
        rw now new'
    | inr other ↦ rw (set_part-other i k part parts other) (all k h)
  ]

  set_part-IsRight :
      (i : ℕ) (part : Option Bytes) (parts : ℕ → Option Bytes)
      → (IsRight file need chunk_at parts i → part ≡ parts i)
      → (k : ℕ) → IsRight file need chunk_at parts k
      → IsRight file need chunk_at (set_part i part parts) k
  set_part-IsRight i part parts keeps k right = elim (Bool-cases (k == i)) [
    | inl same ↦
        let at : i ≡ k = ground arith in
        subst (IsRight file need chunk_at (set_part i part parts)) at (
          let right_i : IsRight file need chunk_at parts i =
            subst (IsRight file need chunk_at parts) (sym at) right in
          set_part-same i part parts ∙ keeps right_i ∙ right_i)
    | inr other ↦ set_part-other i k part parts other ∙ right
  ]

  -- What the transfer of a job leaves, told of the chunk with its id.
  job-Leaves :
      (t : Transfer) (j : Job) (part : Option Bytes)
      → AllSpan file need chunk_at
      → IsHonest file t
      → IsKnown file need chunk_at j
      → IsPartial file (first_of (chunk_at j.ch.id)) (last_of (chunk_at j.ch.id)) (contents part)
      → Leaves file
          (first_of (chunk_at j.ch.id))
          (last_of (chunk_at j.ch.id))
          (download_chunk t j.ch part)
  job-Leaves t j part spans honest (lt, at) partial =
      let lo = first_of (chunk_at j.ch.id) in
      let last = last_of (chunk_at j.ch.id) in
      download_chunk-Leaves file t j.ch part lo last honest
        (subst (λ c. Spans file c lo last) (sym at) (spans j.ch.id lt)) partial

  job_done :
      (t : Transfer) (j : Job) (parts : ℕ → Option Bytes)
      → AllSpan file need chunk_at
      → IsKnown file need chunk_at j
      → IsRight file need chunk_at parts j.ch.id
      → (download_chunk t j.ch (parts j.ch.id)).1 ≡ parts j.ch.id
  job_done t j parts spans (lt, at) right =
      let lo = first_of (chunk_at j.ch.id) in
      let last = last_of (chunk_at j.ch.id) in
      let done =
        download_chunk_done file t j.ch lo last
          (subst (λ c. Spans file c lo last) (sym at) (spans j.ch.id lt)) in
      ap (λ (part : Option Bytes). (download_chunk t j.ch part).1) right
      ∙ ap (λ (r : Bool × Option Bytes). r.1) done
      ∙ sym right

  run_job-GoesTo :
      (a : Answer) (p : Pipe) (j : Job) (s : Shared)
      → AllSpan file need chunk_at
      → IsHonest file a.transfer
      → AllPartial file need chunk_at s.parts
      → All (IsKnown file need chunk_at) s.jobs
      → IsKnown file need chunk_at j
      → GoesTo file need chunk_at s (running p j) (run_job a p j s)
  unfolding run_job
  run_job-GoesTo a p j s spans honest partial known mine =
      let id = j.ch.id in
      let got = download_chunk a.transfer j.ch (s.parts id) in
      let left = job-Leaves a.transfer j (s.parts id) spans honest mine (partial id mine.0) in
      fetched-GoesTo file need chunk_at got.0 p j s _ refl refl
        (set_part-AllPartial id got.1 s.parts partial left.0)
        (λ i h right.
          set_part-IsRight id got.1 s.parts (λ r. job_done a.transfer j s.parts spans mine r) i
            right)
        (λ ok.
          let (b, there, whole) = left.1 ok in
          set_part-same id got.1 s.parts ∙ there ∙ ap some whole)
        known mine

  pub worker_step-GoesTo :
      (only_direct : Bool) (a : Answer) (s : Shared) (w : Phase)
      → AllSpan file need chunk_at
      → IsHonest file a.transfer
      → AllPartial file need chunk_at s.parts
      → All (IsKnown file need chunk_at) s.jobs
      → InHand file need chunk_at w
      → GoesTo file need chunk_at s w (worker_step only_direct a s w)
  unfolding worker_step
  worker_step-GoesTo only_direct a s idle spans honest partial known mine =
      looked (not (is_empty s.jobs)) (s.inflight == 0)
    where
      same :
          (w : Phase)
          → InHand file need chunk_at w
          → ((i : ℕ) → hand i w ≡ 0)
          → GoesTo file need chunk_at s idle (s, w)
      same w mine' none_held = (
        (partial, known, (λ i h. inl (omega (arith, none_held i))), (λ i h r. r), omega arith),
        mine',
      )

      looked :
          (b c : Bool)
          → GoesTo file need chunk_at s idle
              (if b then (s, peeked) else if c then (s, returned) else (s, idle))
      looked true c = same peeked tt (λ i. refl)
      looked false true = same returned tt (λ i. refl)
      looked false false = same idle tt (λ i. refl)
  worker_step-GoesTo only_direct a s peeked spans honest partial known mine =
      open_pipe-GoesTo file need chunk_at only_direct a s partial known
  worker_step-GoesTo only_direct a s (piped p) spans honest partial known mine =
      take_job-GoesTo file need chunk_at p s s.jobs refl partial known
  worker_step-GoesTo only_direct a s (running p j) spans honest partial known mine =
      run_job-GoesTo a p j s spans honest partial known mine
  worker_step-GoesTo only_direct a s (closing p) spans honest partial known mine =
      closing-GoesTo file need chunk_at p s partial known
  worker_step-GoesTo only_direct a s (missed p j) spans honest partial known mine =
      missed-GoesTo file need chunk_at p j s partial known mine
  worker_step-GoesTo only_direct a s (queueing j) spans honest partial known mine =
      settle-GoesTo file need chunk_at j s partial known mine
  worker_step-GoesTo only_direct a s settled spans honest partial known mine =
      ((partial, known, (λ i h. inl (omega arith)), (λ i h r. r), omega arith), tt)
  worker_step-GoesTo only_direct a s returned spans honest partial known mine =
      ((partial, known, (λ i h. inl (omega arith)), (λ i h r. r), omega arith), tt)
