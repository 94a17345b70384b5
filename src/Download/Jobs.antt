-- ===== src/Download/Jobs.antt =====
-- Which chunk each job of the downloader is for: no job is lost, repeated, or turned into another's.
use proxchunk.Prelude.{
  ℕ, zero, suc, ◌+◌, ◌≡◌, refl, ap, inl, inr, Bool, true, false, not, ◌||◌, List, [], ◌∷◌, ◌++◌,
  map, arith, leb, ◌==◌, if◌then◌else◌, Bool-cases, Option-cases, length, is_empty, length-append,
}
use proxchunk.Plan.{Chunk}
use proxchunk.Download.{
  Pipe, direct, through, Job, Phase, idle, peeked, settled, returned, piped, running, closing,
  missed, queueing, fetched, drop_pipe, Shared, Answer, open_pipe, take_job, next_try, settle,
  run_job, worker_step, step_at, steps, new_job, start_shared, idle_workers,
}
use proxchunk.Download.Queue.{Counts, steps-Counts}

abbrev one : Bool → ℕ
one b = if b then 1 else 0

-- How many chunks pass a test, and how many jobs have such a chunk.
abbrev among : (Chunk → Bool) → List Chunk → ℕ
among f [] = 0
among f (c ∷ cs) = one (f c) + among f cs

abbrev queued : (Chunk → Bool) → List Job → ℕ
queued f [] = 0
queued f (j ∷ js) = one (f j.ch) + queued f js

abbrev pub in_hand : (Chunk → Bool) → Phase → ℕ
in_hand f (running p j) = one (f j.ch)
in_hand f (missed p j) = one (f j.ch)
in_hand f (queueing j) = one (f j.ch)
in_hand f _ = 0

abbrev in_hands : (Chunk → Bool) → List Phase → ℕ
in_hands f [] = 0
in_hands f (w ∷ ws) = in_hand f w + in_hands f ws

-- From `s` with the jobs `hold` counts in hand to the same of another state; `d` are the chunks that are
-- counted as finished on the way, `g` those given up.
abbrev Passes : Shared → ((Chunk → Bool) → ℕ) → Shared → ((Chunk → Bool) → ℕ) → Type 0
Passes s hold s' hold' =
    (d : List Chunk) × (g : List Chunk) × (s'.finished ≡ length d + s.finished)
    × (s'.failed ≡ length g + s.failed)
    × ((f : Chunk → Bool)
        → queued f s'.jobs + hold' f + among f d + among f g ≡ queued f s.jobs + hold f)

abbrev StepPasses : Shared → Phase → Shared × Phase → Type 0
StepPasses s w (s', w') = Passes s (λ f. in_hand f w) s' (λ f. in_hand f w')

same_jobs : (s : Shared) → Passes s (λ f. 0) s (λ f. 0)
same_jobs s = ([], [], omega arith, omega arith, λ f. omega arith)

queued-append :
    (f : Chunk → Bool) (js ks : List Job) → queued f (js ++ ks) ≡ queued f js + queued f ks
queued-append f [] ks = omega arith
queued-append f (j ∷ js) ks = omega (arith, queued-append f js ks)

open_pipe-StepPasses :
    (only_direct : Bool) (a : Answer) (s : Shared) → StepPasses s peeked (open_pipe only_direct a s)
unfolding open_pipe
open_pipe-StepPasses only_direct a s = elim (Bool-cases (only_direct || not s.direct_busy)) [
  | inl on ↦
      rw on
        (elim (Bool-cases a.curl_ok) [ inl k ↦ rw k (same_jobs s) | inr k ↦ rw k (same_jobs s) ])
  | inr off ↦ rw off (elim (Option-cases a.acquired) [
    | inl nobody ↦ rw nobody (same_jobs s)
    | inr (url, got) ↦
        rw got
          (elim (Bool-cases a.curl_ok) [ inl k ↦ rw k (same_jobs s) | inr k ↦ rw k (same_jobs s) ])
  ])
]

take_job-StepPasses :
    (p : Pipe) (s : Shared) (js : List Job) → s.jobs ≡ js → StepPasses s (piped p) (take_job p s js)
unfolding take_job
take_job-StepPasses direct s [] same = same_jobs s
take_job-StepPasses (through url) s [] same = same_jobs s
take_job-StepPasses direct s (j ∷ js) same =
    ([], [], omega arith, omega arith, λ f. omega (arith, ap (queued f) same))
take_job-StepPasses (through url) s (j ∷ js) same =
    ([], [], omega arith, omega arith, λ f. omega (arith, ap (queued f) same))

-- A job that is given up or queued again keeps its chunk.
settle-Passes : (j : Job) (s : Shared) → Passes s (λ f. one (f j.ch)) (settle j s) (λ f. 0)
unfolding settle
settle-Passes j s = elim (Bool-cases (leb 32 (length j.tried))) [
  | inl up ↦ rw up ([], j.ch ∷ [], omega arith, omega arith, λ f. omega arith)
  | inr again ↦ rw again (
    [],
    [],
    omega arith,
    omega arith,
    λ f. omega (arith, queued-append f s.jobs (next_try j ∷ [])),
  )
]

fetched-StepPasses :
    (ok : Bool) (p : Pipe) (j : Job) (s : Shared) → StepPasses s (running p j) (fetched ok p j s)
unfolding fetched
fetched-StepPasses true p j s = (j.ch ∷ [], [], omega arith, omega arith, λ f. omega arith)
fetched-StepPasses false p j s = ([], [], omega arith, omega arith, λ f. omega arith)

run_job-StepPasses :
    (a : Answer) (p : Pipe) (j : Job) (s : Shared) → StepPasses s (running p j) (run_job a p j s)
unfolding run_job
run_job-StepPasses a p j s = fetched-StepPasses _ p j _

missed-StepPasses :
    (p : Pipe) (j : Job) (s : Shared) → StepPasses s (missed p j) (drop_pipe p s, queueing j)
missed-StepPasses direct j s = ([], [], omega arith, omega arith, λ f. omega arith)
missed-StepPasses (through url) j s = ([], [], omega arith, omega arith, λ f. omega arith)

closing-StepPasses : (p : Pipe) (s : Shared) → StepPasses s (closing p) (drop_pipe p s, settled)
closing-StepPasses direct s = same_jobs s
closing-StepPasses (through url) s = same_jobs s

worker_step-StepPasses :
    (only_direct : Bool) (a : Answer) (s : Shared) (w : Phase)
    → StepPasses s w (worker_step only_direct a s w)
unfolding worker_step
worker_step-StepPasses only_direct a s idle = elim (Bool-cases (not (is_empty s.jobs))) [
  | inl some_job ↦ rw some_job (same_jobs s)
  | inr no_job ↦ rw no_job (elim (Bool-cases (s.inflight == 0)) [
    | inl nobody ↦ rw nobody (same_jobs s)
    | inr busy ↦ rw busy (same_jobs s)
  ])
]
worker_step-StepPasses only_direct a s peeked = open_pipe-StepPasses only_direct a s
worker_step-StepPasses only_direct a s (piped p) = take_job-StepPasses p s s.jobs refl
worker_step-StepPasses only_direct a s (running p j) = run_job-StepPasses a p j s
worker_step-StepPasses only_direct a s (closing p) = closing-StepPasses p s
worker_step-StepPasses only_direct a s (missed p j) = missed-StepPasses p j s
worker_step-StepPasses only_direct a s (queueing j) = settle-Passes j s
worker_step-StepPasses only_direct a s settled = same_jobs s
worker_step-StepPasses only_direct a s returned = same_jobs s

abbrev AllPass : Shared → List Phase → Shared × List Phase → Type 0
AllPass s ws (s', ws') = Passes s (λ f. in_hands f ws) s' (λ f. in_hands f ws')

step_at-AllPass :
    (only_direct : Bool) (i : ℕ) (a : Answer) (s : Shared) (ws : List Phase)
    → AllPass s ws (step_at only_direct i a s ws)
unfolding step_at
step_at-AllPass only_direct i a s [] = same_jobs s
step_at-AllPass only_direct zero a s (w ∷ ws) =
    let (d, g, fin, fail, kept) = worker_step-StepPasses only_direct a s w in
    (d, g, fin, fail, λ f. omega (arith, kept f))
step_at-AllPass only_direct (suc i) a s (w ∷ ws) =
    let (d, g, fin, fail, kept) = step_at-AllPass only_direct i a s ws in
    (d, g, fin, fail, λ f. omega (arith, kept f))

-- Some chunks are done and some given up, as many as `finished` and `failed` say, and every chunk of
-- the plan is as often among the queue, the workers' hands, and these as it is in the plan.
abbrev pub Places : List Chunk → Shared → List Phase → Type 0
Places chunks s ws =
    (done : List Chunk) × (given_up : List Chunk) × (length done ≡ s.finished)
    × (length given_up ≡ s.failed)
    × ((f : Chunk → Bool)
        → queued f s.jobs + in_hands f ws + among f done + among f given_up ≡ among f chunks)

among-append :
    (f : Chunk → Bool) (cs ds : List Chunk) → among f (cs ++ ds) ≡ among f cs + among f ds
among-append f [] ds = omega arith
among-append f (c ∷ cs) ds = omega (arith, among-append f cs ds)

steps-Places_from :
    (chunks : List Chunk) (only_direct : Bool) (schedule : List (ℕ × Answer)) (s : Shared)
    (ws : List Phase)
    → Places chunks s ws
    → let (s', ws') = steps only_direct schedule s ws in Places chunks s' ws'
unfolding steps
steps-Places_from chunks only_direct [] s ws v = v
steps-Places_from chunks only_direct ((i, a) ∷ more) s ws (done, given_up, n, m, all) =
    let (s', ws') = step_at only_direct i a s ws in
    let (d, g, fin, fail, kept) = step_at-AllPass only_direct i a s ws in
    steps-Places_from chunks only_direct more s' ws' (
      d ++ done,
      g ++ given_up,
      omega (arith, length-append d done, n, fin),
      omega (arith, length-append g given_up, m, fail),
      λ f. omega (arith, among-append f d done, among-append f g given_up, kept f, all f),
    )

queued-new_job : (f : Chunk → Bool) (cs : List Chunk) → queued f (map new_job cs) ≡ among f cs
queued-new_job f [] = refl
queued-new_job f (c ∷ cs) = omega (arith, queued-new_job f cs)

in_hands-idle : (f : Chunk → Bool) (n : ℕ) → in_hands f (idle_workers n) ≡ 0
unfolding idle_workers
in_hands-idle f zero = refl
in_hands-idle f (suc n) = omega (arith, in_hands-idle f n)

-- For any chunks, any number of workers, any interleaving of their steps, and whatever curl and the
-- daemon answer: every chunk of the plan is as often in the queue, in a worker's hands, finished or
-- given up as it is in the plan, where as many are finished and given up as the two counters say, so
-- that no job is lost, repeated, or becomes one for another chunk; `inflight` counts the jobs that
-- workers hold and those that they have counted but not yet taken off; and once a worker has returned, all chunks are counted, so the waiting loop of `run_download`
-- ends.
pub steps-Places :
    (only_direct : Bool) (chunks : List Chunk) (n : ℕ) (schedule : List (ℕ × Answer))
    → let (s, ws) = steps only_direct schedule (start_shared chunks) (idle_workers n) in
      Places chunks s ws × Counts (length chunks) s ws
unfolding start_shared
steps-Places only_direct chunks n schedule = (
  steps-Places_from chunks only_direct schedule (start_shared chunks) (idle_workers n)
      ([], [], refl, refl, λ f. omega (arith, queued-new_job f chunks, in_hands-idle f n)),
  steps-Counts only_direct chunks n schedule,
)
