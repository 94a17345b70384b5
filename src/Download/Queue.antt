-- ===== src/Download/Queue.antt =====
-- The counters of the downloader: the numbers of jobs, and when a worker leaves.
use proxchunk.Prelude.{
  ℕ, zero, suc, ◌+◌, ◌≤◌, ◌≡◌, refl, ap, ◌⊎◌, inl, inr, Bool, true, false, not, ◌||◌, List, [], ◌∷◌,
  map, arith, leb, ◌==◌, Bool-cases, Option-cases, length, is_empty, length-append,
}
use proxchunk.Plan.{Chunk}
use proxchunk.Download.{
  Pipe, direct, through, Job, Phase, idle, peeked, settled, returned, piped, running, closing,
  missed, queueing, fetched, Shared, Answer, drop_pipe, open_pipe, take_job, next_try, settle,
  run_job, worker_step, step_at, steps, new_job, start_shared, idle_workers,
}

abbrev pub run_of : Phase → ℕ
run_of (running p j) = 1
run_of (missed p j) = 1
run_of (queueing j) = 1
run_of _ = 0

abbrev settled_of : Phase → ℕ
settled_of settled = 1
settled_of (closing p) = 1
settled_of _ = 0

abbrev gone_of : Phase → ℕ
gone_of returned = 1
gone_of _ = 0

abbrev pub total : (Phase → ℕ) → List Phase → ℕ
total f [] = 0
total f (w ∷ ws) = f w + total f ws

-- Jobs in the queue, in the workers' hands, and counted.
abbrev all_jobs : Shared → ℕ → ℕ
all_jobs s in_hand = length s.jobs + in_hand + s.finished + s.failed

-- From `s` with `runs` jobs in hand, `ends` counted jobs not yet taken off `inflight` and `gone`
-- workers to the same of another state.
abbrev Accounts : Shared → ℕ → ℕ → ℕ → Shared → ℕ → ℕ → ℕ → Type 0
Accounts s runs ends gone s' runs' ends' gone' =
    (all_jobs s' runs' ≡ all_jobs s runs)
    × (runs + ends ≤ s.inflight → s'.inflight + runs + ends ≡ s.inflight + runs' + ends')
    × (s.finished + s.failed ≤ s'.finished + s'.failed)
    × ((gone' ≤ gone) ⊎ (length s.jobs + s.inflight ≡ 0))

abbrev Steps : Shared → Phase → Shared × Phase → Type 0
Steps s w (s', w') =
    Accounts s (run_of w) (settled_of w) (gone_of w) s' (run_of w') (settled_of w') (gone_of w')

quiet : (s : Shared) (gone gone' : ℕ) → gone' ≤ gone → Accounts s 0 0 gone s 0 0 gone'
quiet s gone gone' g = (refl, (λ _. refl), omega arith, inl g)

open_pipe-Steps :
    (only_direct : Bool) (a : Answer) (s : Shared) → Steps s peeked (open_pipe only_direct a s)
unfolding open_pipe
open_pipe-Steps only_direct a s = elim (Bool-cases (only_direct || not s.direct_busy)) [
  | inl on ↦ rw on (elim (Bool-cases a.curl_ok) [
    | inl k ↦ rw k (quiet s 0 0 (omega arith))
    | inr k ↦ rw k (quiet s 0 0 (omega arith))
  ])
  | inr off ↦ rw off (elim (Option-cases a.acquired) [
    | inl nobody ↦ rw nobody (quiet s 0 0 (omega arith))
    | inr (url, got) ↦ rw got (elim (Bool-cases a.curl_ok) [
      | inl k ↦ rw k (quiet s 0 0 (omega arith))
      | inr k ↦ rw k (quiet s 0 0 (omega arith))
    ])
  ])
]

drop_pipe-Steps : (p : Pipe) (s : Shared) → Steps s (piped p) (drop_pipe p s, idle)
drop_pipe-Steps direct s = quiet s 0 0 (omega arith)
drop_pipe-Steps (through url) s = quiet s 0 0 (omega arith)

take_job-Steps :
    (p : Pipe) (s : Shared) (js : List Job) → s.jobs ≡ js → Steps s (piped p) (take_job p s js)
unfolding take_job
take_job-Steps p s [] same = drop_pipe-Steps p s
take_job-Steps p s (j ∷ js) same =
    (omega (arith, ap length same), (λ h. omega arith), omega arith, inl (omega arith))

settle-Accounts : (j : Job) (s : Shared) → Accounts s 1 0 0 (settle j s) 0 1 0
unfolding settle
settle-Accounts j s = elim (Bool-cases (leb 32 (length j.tried))) [
  | inl up ↦ rw up (omega arith, (λ h. omega arith), omega arith, inl (omega arith))
  | inr again ↦ rw again (
    omega (arith, length-append s.jobs (next_try j ∷ [])),
    (λ h. omega arith),
    omega arith,
    inl (omega arith),
  )
]

fetched-Steps :
    (ok : Bool) (p : Pipe) (j : Job) (s : Shared) → Steps s (running p j) (fetched ok p j s)
unfolding fetched
fetched-Steps true p j s = (omega arith, (λ h. omega arith), omega arith, inl (omega arith))
fetched-Steps false p j s = (refl, (λ _. refl), omega arith, inl (omega arith))

run_job-Steps :
    (a : Answer) (p : Pipe) (j : Job) (s : Shared) → Steps s (running p j) (run_job a p j s)
unfolding run_job
run_job-Steps a p j s = fetched-Steps _ p j _

closing-Steps : (p : Pipe) (s : Shared) → Steps s (closing p) (drop_pipe p s, settled)
closing-Steps direct s = (refl, (λ _. refl), omega arith, inl (omega arith))
closing-Steps (through url) s = (refl, (λ _. refl), omega arith, inl (omega arith))

missed-Steps : (p : Pipe) (j : Job) (s : Shared) → Steps s (missed p j) (drop_pipe p s, queueing j)
missed-Steps direct j s = (refl, (λ _. refl), omega arith, inl (omega arith))
missed-Steps (through url) j s = (refl, (λ _. refl), omega arith, inl (omega arith))

idle-Steps :
    (only_direct : Bool) (a : Answer) (s : Shared) → Steps s idle (worker_step only_direct a s idle)
unfolding worker_step
idle-Steps only_direct a s = elim (Bool-cases (not (is_empty s.jobs))) [
  | inl some_job ↦ rw some_job (quiet s 0 0 (omega arith))
  | inr no_job ↦ rw no_job (elim (Bool-cases (s.inflight == 0)) [
    | inl nobody ↦
        rw nobody
          (refl, (λ _. refl), omega arith, inr (nothing s.jobs s.inflight no_job (ground arith)))
    | inr busy ↦ rw busy (quiet s 0 0 (omega arith))
  ])
]
  where
    nothing : (js : List Job) (n : ℕ) → not (is_empty js) ≡ false → n ≡ 0 → length js + n ≡ 0
    nothing [] n h k = omega (arith, k)
    nothing (j ∷ js) n h k = absurd (ground arith)

worker_step-Steps :
    (only_direct : Bool) (a : Answer) (s : Shared) (w : Phase)
    → Steps s w (worker_step only_direct a s w)
unfolding worker_step
worker_step-Steps only_direct a s idle = idle-Steps only_direct a s
worker_step-Steps only_direct a s peeked = open_pipe-Steps only_direct a s
worker_step-Steps only_direct a s (piped p) = take_job-Steps p s s.jobs refl
worker_step-Steps only_direct a s (running p j) = run_job-Steps a p j s
worker_step-Steps only_direct a s (closing p) = closing-Steps p s
worker_step-Steps only_direct a s (missed p j) = missed-Steps p j s
worker_step-Steps only_direct a s (queueing j) = settle-Accounts j s
worker_step-Steps only_direct a s settled =
    (omega arith, (λ h. omega arith), omega arith, inl (omega arith))
worker_step-Steps only_direct a s returned = quiet s 1 1 (omega arith)

abbrev AllStep : Shared → List Phase → Shared × List Phase → Type 0
AllStep s ws (s', ws') =
    Accounts s (total run_of ws) (total settled_of ws) (total gone_of ws) s' (total run_of ws')
      (total settled_of ws') (total gone_of ws')

step_at-AllStep :
    (only_direct : Bool) (i : ℕ) (a : Answer) (s : Shared) (ws : List Phase)
    → AllStep s ws (step_at only_direct i a s ws)
unfolding step_at
step_at-AllStep only_direct i a s [] = quiet s 0 0 (omega arith)
step_at-AllStep only_direct zero a s (w ∷ ws) =
    let (loss, flight, progress, leaves) = worker_step-Steps only_direct a s w in
    (
      omega (arith, loss),
      (λ h. omega (arith, flight (omega (arith, h)))),
      progress,
      elim leaves [ inl g ↦ inl (omega (arith, g)) | inr e ↦ inr e ],
    )
step_at-AllStep only_direct (suc i) a s (w ∷ ws) =
    let (loss, flight, progress, leaves) = step_at-AllStep only_direct i a s ws in
    (
      omega (arith, loss),
      (λ h. omega (arith, flight (omega (arith, h)))),
      progress,
      elim leaves [ inl g ↦ inl (omega (arith, g)) | inr e ↦ inr e ],
    )

-- With `need` chunks: as many jobs are in the queue, in hand or counted; `inflight` counts those in hand
-- and those whose worker has not taken them off yet; and once a worker has returned all are counted.
abbrev pub Counts : ℕ → Shared → List Phase → Type 0
Counts need s ws =
    (all_jobs s (total run_of ws) ≡ need)
    × (s.inflight ≡ total run_of ws + total settled_of ws)
    × ((total gone_of ws ≡ 0) ⊎ (s.finished + s.failed ≡ need))

step_at-Counts :
    (need : ℕ) (only_direct : Bool) (i : ℕ) (a : Answer) (s : Shared) (ws : List Phase)
    → Counts need s ws
    → let (s', ws') = step_at only_direct i a s ws in Counts need s' ws'
step_at-Counts need only_direct i a s ws (loss, flight, gone) =
    let (loss', flight', progress, leaves) = step_at-AllStep only_direct i a s ws in
    (
      omega (arith, loss, loss'),
      omega (arith, flight, flight' (omega (arith, flight))),
      elim gone [
        | inr all ↦ inr (omega (arith, all, loss, loss', progress))
        | inl none_gone ↦ elim leaves [
          | inl g ↦ inl (omega (arith, g, none_gone))
          | inr empty ↦ inr (omega (arith, empty, flight, loss, loss', progress))
        ]
      ],
    )

steps-Counts_from :
    (need : ℕ) (only_direct : Bool) (schedule : List (ℕ × Answer)) (s : Shared) (ws : List Phase)
    → Counts need s ws
    → let (s', ws') = steps only_direct schedule s ws in Counts need s' ws'
unfolding steps
steps-Counts_from need only_direct [] s ws v = v
steps-Counts_from need only_direct ((i, a) ∷ more) s ws v =
    let (s', ws') = step_at only_direct i a s ws in
    steps-Counts_from need only_direct more s' ws' (step_at-Counts need only_direct i a s ws v)

idle_workers-total :
    (n : ℕ)
    → (total run_of (idle_workers n) ≡ 0)
      × (total settled_of (idle_workers n) ≡ 0)
      × (total gone_of (idle_workers n) ≡ 0)
unfolding idle_workers
idle_workers-total zero = (refl, refl, refl)
idle_workers-total (suc n) =
    let (r, e, g) = idle_workers-total n in (omega (arith, r), omega (arith, e), omega (arith, g))

length-new_job : (cs : List Chunk) → length (map new_job cs) ≡ length cs
length-new_job [] = refl
length-new_job (c ∷ cs) = omega (arith, length-new_job cs)

-- For any chunks, any number of workers, any interleaving of their steps, and whatever curl and the
-- daemon answer: as many jobs are in the queue, in the workers' hands, and counted as there are chunks;
-- `inflight` counts those in hand and those whose worker has not taken them off yet; and once a worker
-- has returned, all are counted.
pub steps-Counts :
    (only_direct : Bool) (chunks : List Chunk) (n : ℕ) (schedule : List (ℕ × Answer))
    → let (s, ws) = steps only_direct schedule (start_shared chunks) (idle_workers n) in
      Counts (length chunks) s ws
unfolding start_shared
steps-Counts only_direct chunks n schedule =
    let (r, e, g) = idle_workers-total n in
    steps-Counts_from (length chunks) only_direct schedule (start_shared chunks) (idle_workers n)
      (omega (arith, r, length-new_job chunks), omega (arith, r, e), inl g)
