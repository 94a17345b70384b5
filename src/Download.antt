-- ===== src/Download.antt =====
-- The downloader of src/proxchunk.cpp: one Range transfer, the workers and their queue, and the
-- assembly of the parts. Calls of the file system do not fail, but for the two that open a file.
pub mod Chunks
pub mod Finish
pub mod Jobs
pub mod Located
pub mod Parts
pub mod Probe
pub mod Queue
pub mod Run
pub mod Written
mod Tests
use proxchunk.Prelude.{
  ℕ, zero, suc, ◌+◌, ◌-◌, Bool, true, false, not, ◌&&◌, ◌||◌, Option, none, some, List, [], ◌∷◌,
  ◌++◌, map, ltb, leb, ◌==◌, if◌then◌else◌, length, take, is_empty, ℤ, pos, negsuc, sub_ℕ, Bytes,
}
use proxchunk.Plan.{Chunk}

-- `ch.end - ch.start + 1`.
pub span : ℤ → ℤ → ℤ
span (pos a) (pos b) = sub_ℕ (b + 1) a
span (pos a) (negsuc b) = sub_ℕ 0 (a + b)
span (negsuc a) (pos b) = pos (a + b + 2)
span (negsuc a) (negsuc b) = sub_ℕ (a + 1) b

pub want_of : Chunk → ℤ
unfolding span
want_of ch = span ch.start ch.end

-- `n >= want`.
pub reaches : ℕ → ℤ → Bool
reaches n (pos w) = leb w n
reaches n (negsuc w) = true

add_ℕ : ℤ → ℕ → ℤ
add_ℕ (pos a) n = pos (a + n)
add_ℕ (negsuc a) n = sub_ℕ n (a + 1)

-- What one transfer meets: whether fopen works, and for a Range the bytes that are written to the
-- file before `curl_easy_perform` returns, with the response code.
pub record Transfer : Type 0 where
  pub fopen_ok : Bool
  pub perform : ℤ → ℤ → Bytes × ℕ

-- A part file; `none` does not exist.
abbrev pub contents : Option Bytes → Bytes
contents none = []
contents (some b) = b

-- Behind the transfer: `have` bytes were there, `now` is on the disk.
pub keep_or_cut : ℕ → Bytes → ℕ → ℤ → Bool × Option Bytes
unfolding reaches
keep_or_cut have now code want =
    if reaches (length now) want
    then (true, some now)
    else if (code == 206 || code == 200) && ltb have (length now)
    then (false, some now)
    else if have == 0
    then (false, none)
    else (false, some (take have now))

-- The result, and the part file. The handle `c` is not null where the workers call this.
pub download_chunk : Transfer → Chunk → Option Bytes → Bool × Option Bytes
unfolding want_of reaches add_ℕ keep_or_cut
download_chunk t ch part =
    let have = length (contents part) in
    if reaches have (want_of ch)
    then (true, part)
    else if not t.fopen_ok
    then (false, part)
    else (let got = t.perform (add_ℕ ch.start have) ch.end in
        keep_or_cut have (contents part ++ got.0) got.1 (want_of ch))

pub data Pipe : Type 0 where
  direct : Pipe
  through : Bytes → Pipe

-- `attempts` is counted, but no decision reads it.
pub record Job : Type 0 where
  pub ch : Chunk
  pub attempts : ℕ
  pub tried : List Bytes

-- Where a worker is: at the top of its loop, past its look at the queue, with a pipe, with a job, past
-- the count of a job that is done and before it drops the pipe, past a transfer that failed, with that
-- job and no pipe, before `inflight.fetch_sub`, or gone.
pub data Phase : Type 0 where
  idle peeked settled returned : Phase
  piped : Pipe → Phase
  running : Pipe → Job → Phase
  closing : Pipe → Phase
  missed : Pipe → Job → Phase
  queueing : Job → Phase

-- What the workers share, with the part files in `tmpdir` by chunk id.
pub record Shared : Type 0 where
  pub jobs : List Job
  pub inflight : ℕ
  pub finished : ℕ
  pub failed : ℕ
  pub direct_busy : Bool
  pub parts : ℕ → Option Bytes

-- What a step of a worker meets: the daemon's answer to an ACQUIRE (`none` without a daemon), whether
-- `curl_easy_init` works, and a transfer.
pub record Answer : Type 0 where
  pub acquired : Option Bytes
  pub curl_ok : Bool
  pub transfer : Transfer

abbrev k_max_proxies : ℕ
k_max_proxies = 32

abbrev pub drop_pipe : Pipe → Shared → Shared
drop_pipe direct s = record s { direct_busy = false }
drop_pipe (through url) s = s

pub open_pipe : Bool → Answer → Shared → Shared × Phase
open_pipe only_direct a s =
    if only_direct || not s.direct_busy
    then (if a.curl_ok
        then (record s { direct_busy = if only_direct then s.direct_busy else true }, piped direct)
        else (record s { direct_busy = false }, idle))
    else elim a.acquired [
      | none ↦ (s, idle)
      | some url ↦ if a.curl_ok then (s, piped (through url)) else (s, idle)
    ]

abbrev with_pipe : Pipe → Job → Job
with_pipe direct j = j
with_pipe (through url) j = record j { tried = j.tried ++ url ∷ [] }

-- `job = jobs.front(); jobs.pop_front(); inflight.fetch_add(1)`.
pub take_job : Pipe → Shared → List Job → Shared × Phase
take_job p s [] = (drop_pipe p s, idle)
take_job p s (j ∷ js) =
    (record s { jobs = js; inflight = s.inflight + 1 }, running p (with_pipe p j))

pub set_part : ℕ → Option Bytes → (ℕ → Option Bytes) → ℕ → Option Bytes
set_part i part parts k = if k == i then part else parts k

abbrev pub next_try : Job → Job
next_try j = record j { attempts = if leb 3 (j.attempts + 1) then 0 else j.attempts + 1 }

-- A job that failed is given up after 32 proxies, or queued again behind the others.
pub settle : Job → Shared → Shared
settle j s =
    if leb k_max_proxies (length j.tried)
    then record s { failed = s.failed + 1 }
    else record s { jobs = s.jobs ++ next_try j ∷ [] }

-- Behind the transfer: a job that is done is counted.
pub fetched : Bool → Pipe → Job → Shared → Shared × Phase
fetched true p j s = (record s { finished = s.finished + 1 }, closing p)
fetched false p j s = (s, missed p j)

pub run_job : Answer → Pipe → Job → Shared → Shared × Phase
unfolding download_chunk set_part fetched
run_job a p j s =
    let got = download_chunk a.transfer j.ch (s.parts j.ch.id) in
    fetched got.0 p j (record s { parts = set_part j.ch.id got.1 s.parts })

-- One worker up to its next access to what is shared; a transfer that succeeds is counted in the same step,
-- since no other worker reads the part. `only_direct` is `opt.direct`.
pub worker_step : Bool → Answer → Shared → Phase → Shared × Phase
unfolding open_pipe take_job run_job settle
worker_step only_direct a s idle =
    if not (is_empty s.jobs)
    then (s, peeked)
    else if s.inflight == 0
    then (s, returned)
    else (s, idle)
worker_step only_direct a s peeked = open_pipe only_direct a s
worker_step only_direct a s (piped p) = take_job p s s.jobs
worker_step only_direct a s (running p j) = run_job a p j s
worker_step only_direct a s (closing p) = (drop_pipe p s, settled)
worker_step only_direct a s (missed p j) = (drop_pipe p s, queueing j)
worker_step only_direct a s (queueing j) = (settle j s, settled)
worker_step only_direct a s settled = (record s { inflight = s.inflight - 1 }, idle)
worker_step only_direct a s returned = (s, returned)

-- The worker at a place of the list takes a step.
pub step_at : Bool → ℕ → Answer → Shared → List Phase → Shared × List Phase
unfolding worker_step
step_at only_direct i a s [] = (s, [])
step_at only_direct zero a s (w ∷ ws) =
    let (s', w') = worker_step only_direct a s w in (s', w' ∷ ws)
step_at only_direct (suc i) a s (w ∷ ws) =
    let (s', ws') = step_at only_direct i a s ws in (s', w ∷ ws')

-- Any interleaving of the workers.
pub steps : Bool → List (ℕ × Answer) → Shared → List Phase → Shared × List Phase
unfolding step_at
steps only_direct [] s ws = (s, ws)
steps only_direct ((i, a) ∷ more) s ws =
    let (s', ws') = step_at only_direct i a s ws in steps only_direct more s' ws'

abbrev pub new_job : Chunk → Job
new_job c = record { ch = c; attempts = 0; tried = [] }

pub start_shared : List Chunk → Shared
start_shared chunks = record {
  jobs = map new_job chunks;
  inflight = 0;
  finished = 0;
  failed = 0;
  direct_busy = false;
  parts = λ i. none;
}

-- The workers at the start.
pub idle_workers : ℕ → List Phase
idle_workers zero = []
idle_workers (suc n) = idle ∷ idle_workers n

abbrev behind_part : Option Bytes → Option Bytes → Option Bytes
behind_part none rest = none
behind_part (some b) none = none
behind_part (some b) (some more) = some (b ++ more)

-- The loop over the parts `i`, i + 1, ..; `none` where one is missing.
pub assemble : ℕ → ℕ → (ℕ → Option Bytes) → Option Bytes
assemble zero i parts = some []
assemble (suc left) i parts = behind_part (parts i) (assemble left (i + 1) parts)

abbrev checked_output : ℕ → Option Bytes → Bool × Option Bytes
checked_output download_size none = (false, none)
checked_output download_size (some out) = (length out == download_size, some out)

-- `run_download` behind the workers: its result, and the output file it leaves.
pub finish_download : Bool → ℕ → ℕ → Option Bytes → Shared → Bool × Option Bytes
unfolding assemble
finish_download out_ok download_size need old s =
    if ltb 0 s.failed
    then (false, old)
    else if not out_ok
    then (false, old)
    else checked_output download_size (assemble need 0 s.parts)
