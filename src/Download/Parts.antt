-- ===== src/Download/Parts.antt =====
-- The part files: what the workers write, in any interleaving, is the target.
use proxchunk.Prelude.{
  ℕ, ◌+◌, ◌-◌, ◌≤◌, ◌<◌, ◌≡◌, refl, sym, ap, subst, ◌⊎◌, inl, inr, Bool, true, false, not, ◌||◌,
  Option, some, List, [], ◌∷◌, ◌++◌, arith, leb, ◌==◌, if◌then◌else◌, Bool-cases, Option-cases,
  length, All, All-append, ℤ, pos, negsuc, Bytes,
}
use proxchunk.Plan.{Chunk}
use proxchunk.Download.{
  contents, Pipe, direct, through, Job, Phase, idle, peeked, piped, running, closing, missed,
  queueing, settled, fetched, Shared, Answer, drop_pipe, open_pipe, take_job, next_try, settle,
}
use proxchunk.Download.Chunks.{slice, IsPartial}

abbrev pub to_ℕ : ℤ → ℕ
to_ℕ (pos n) = n
to_ℕ (negsuc n) = 0

abbrev pub first_of : Chunk → ℕ
first_of ch = to_ℕ ch.start

abbrev pub last_of : Chunk → ℕ
last_of ch = to_ℕ ch.end

-- How many of the queue's jobs are for the chunk of this id, and whether a worker has it in hand.
abbrev pub tally : ℕ → List Job → ℕ
tally i [] = 0
tally i (j ∷ js) = (if j.ch.id == i then 1 else 0) + tally i js

abbrev pub hand : ℕ → Phase → ℕ
hand i (running p j) = if j.ch.id == i then 1 else 0
hand i (missed p j) = if j.ch.id == i then 1 else 0
hand i (queueing j) = if j.ch.id == i then 1 else 0
hand i _ = 0

module _ (file : Bytes) (need : ℕ) (chunk_at : ℕ → Chunk) where
  -- The part file of a chunk holds all of it.
  abbrev pub IsRight : (ℕ → Option Bytes) → ℕ → Type 0
  IsRight parts i =
      let ch = chunk_at i in
      parts i ≡ some (slice file (first_of ch) (last_of ch + 1 - first_of ch))

  abbrev pub AllPartial : (ℕ → Option Bytes) → Type 0
  AllPartial parts =
      (i : ℕ)
      → i < need
      → IsPartial file (first_of (chunk_at i)) (last_of (chunk_at i)) (contents (parts i))

  abbrev pub IsKnown : Job → Type 0
  IsKnown j = (j.ch.id < need) × (j.ch ≡ chunk_at j.ch.id)

  abbrev pub InHand : Phase → Type 0
  InHand (running p j) = IsKnown j
  InHand (missed p j) = IsKnown j
  InHand (queueing j) = IsKnown j
  InHand _ = Unit {0}

  -- From `s` with `held i` jobs of id `i` in hand to the same of another state: a job that is no longer
  -- there has its part, or something has failed.
  abbrev pub Goes : Shared → (ℕ → ℕ) → Shared → (ℕ → ℕ) → Type 0
  Goes s held s' held' =
      AllPartial s'.parts
      × All IsKnown s'.jobs
      × ((i : ℕ)
          → i < need
          → (tally i s.jobs + held i ≤ tally i s'.jobs + held' i)
            ⊎ (IsRight s'.parts i ⊎ 1 ≤ s'.failed))
      × ((i : ℕ) → i < need → IsRight s.parts i → IsRight s'.parts i)
      × (s.failed ≤ s'.failed)

  abbrev pub GoesTo : Shared → Phase → Shared × Phase → Type 0
  GoesTo s w (s', w') = Goes s (λ i. hand i w) s' (λ i. hand i w') × InHand w'

  pub open_pipe-GoesTo :
      (only_direct : Bool) (a : Answer) (s : Shared)
      → AllPartial s.parts
      → All IsKnown s.jobs
      → GoesTo s peeked (open_pipe only_direct a s)
  unfolding open_pipe
  open_pipe-GoesTo only_direct a s partial known =
      elim (Bool-cases (only_direct || not s.direct_busy)) [
        | inl on ↦ rw on (elim (Bool-cases a.curl_ok) [ inl k ↦ rw k same | inr k ↦ rw k same ])
        | inr off ↦ rw off (elim (Option-cases a.acquired) [
          | inl nobody ↦ rw nobody same
          | inr (url, got) ↦
              rw got (elim (Bool-cases a.curl_ok) [ inl k ↦ rw k same | inr k ↦ rw k same ])
        ])
      ]
    where
      same : GoesTo s peeked (s, idle)
      same = ((partial, known, (λ i h. inl (omega arith)), (λ i h r. r), omega arith), tt)

  drop_pipe-GoesTo :
      (p : Pipe) (s : Shared)
      → AllPartial s.parts
      → All IsKnown s.jobs
      → GoesTo s (piped p) (drop_pipe p s, idle)
  drop_pipe-GoesTo direct s partial known =
      ((partial, known, (λ i h. inl (omega arith)), (λ i h r. r), omega arith), tt)
  drop_pipe-GoesTo (through url) s partial known =
      ((partial, known, (λ i h. inl (omega arith)), (λ i h r. r), omega arith), tt)

  pub take_job-GoesTo :
      (p : Pipe) (s : Shared) (js : List Job)
      → s.jobs ≡ js
      → AllPartial s.parts
      → All IsKnown js
      → GoesTo s (piped p) (take_job p s js)
  unfolding take_job
  take_job-GoesTo p s [] same partial known =
      drop_pipe-GoesTo p s partial (subst (All IsKnown) (sym same) tt)
  take_job-GoesTo direct s (j ∷ js) same partial known = (
    (partial, known.1, (λ i h. inl (omega (arith, ap (tally i) same))), (λ i h r. r), omega arith),
    known.0,
  )
  take_job-GoesTo (through url) s (j ∷ js) same partial known = (
    (partial, known.1, (λ i h. inl (omega (arith, ap (tally i) same))), (λ i h r. r), omega arith),
    known.0,
  )

  tally-append : (i : ℕ) (js ks : List Job) → tally i (js ++ ks) ≡ tally i js + tally i ks
  tally-append i [] ks = omega arith
  tally-append i (j ∷ js) ks = omega (arith, tally-append i js ks)

  -- Behind the transfer: `s` is the state with the new part, `s0` the one before.
  pub fetched-GoesTo :
      (ok : Bool) (p : Pipe) (j : Job) (s0 s : Shared)
      → s0.jobs ≡ s.jobs
      → s0.failed ≡ s.failed
      → AllPartial s.parts
      → ((i : ℕ) → i < need → IsRight s0.parts i → IsRight s.parts i)
      → (ok ≡ true → IsRight s.parts j.ch.id)
      → All IsKnown s.jobs
      → IsKnown j
      → GoesTo s0 (running p j) (fetched ok p j s)
  unfolding fetched
  fetched-GoesTo true p j s0 s jobs fails partial stays right known mine = (
    (
      partial,
      known,
      (λ i h. elim (Bool-cases (j.ch.id == i)) [
        | inl same ↦
            let at : j.ch.id ≡ i = ground arith in
            inr (inl (subst (IsRight s.parts) at (right refl)))
        | inr other ↦ inl (ground (arith, ap (tally i) jobs))
      ]),
      stays,
      omega (arith, fails),
    ),
    tt,
  )
  fetched-GoesTo false p j s0 s jobs fails partial stays right known mine = (
    (partial, known, (λ i h. inl (omega (arith, ap (tally i) jobs))), stays, omega (arith, fails)),
    mine,
  )

  pub settle-GoesTo :
      (j : Job) (s : Shared)
      → AllPartial s.parts
      → All IsKnown s.jobs
      → IsKnown j
      → GoesTo s (queueing j) (settle j s, settled)
  unfolding settle
  settle-GoesTo j s partial known mine = elim (Bool-cases (leb 32 (length j.tried))) [
    | inl up ↦
        rw up ((partial, known, (λ i h. inr (inr (omega arith))), (λ i h r. r), omega arith), tt)
    | inr again ↦ rw again (
      (
        partial,
        All-append IsKnown s.jobs (next_try j ∷ []) known (mine, tt),
        (λ i h. inl (omega (arith, tally-append i s.jobs (next_try j ∷ [])))),
        (λ i h r. r),
        omega arith,
      ),
      tt,
    )
  ]

  pub missed-GoesTo :
      (p : Pipe) (j : Job) (s : Shared)
      → AllPartial s.parts
      → All IsKnown s.jobs
      → IsKnown j
      → GoesTo s (missed p j) (drop_pipe p s, queueing j)
  missed-GoesTo direct j s partial known mine =
      ((partial, known, (λ i h. inl (omega arith)), (λ i h r. r), omega arith), mine)
  missed-GoesTo (through url) j s partial known mine =
      ((partial, known, (λ i h. inl (omega arith)), (λ i h r. r), omega arith), mine)

  pub closing-GoesTo :
      (p : Pipe) (s : Shared)
      → AllPartial s.parts
      → All IsKnown s.jobs
      → GoesTo s (closing p) (drop_pipe p s, settled)
  closing-GoesTo direct s partial known =
      ((partial, known, (λ i h. inl (omega arith)), (λ i h r. r), omega arith), tt)
  closing-GoesTo (through url) s partial known =
      ((partial, known, (λ i h. inl (omega arith)), (λ i h r. r), omega arith), tt)
