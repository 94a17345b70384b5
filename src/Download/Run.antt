-- ===== src/Download/Run.antt =====
-- run_download of src/proxchunk.cpp from end to end: the probe, the TARGET test, the plan, the workers
-- and the assembly.
pub mod Whole
use proxchunk.Prelude.{
  ℕ, zero, suc, ◌+◌, ◌-◌, ◌*◌, ◌/◌, ◌%◌, ◌≤◌, ◌<◌, min, max, String, ◌≡◌, refl, sym, ap, ◌∙◌, subst,
  ◌≢◌, ◌↔◌, ◌⊎◌, inl, inr, Bool, true, false, not, ◌&&◌, ◌||◌, Option, none, some, List, [], ◌∷◌,
  ◌++◌, map, append-nil, append_assoc, arith, ltb, leb, ◌==◌, if◌then◌else◌, ltb→lt, lt→ltb, leb→le,
  ==_iff, Bool-cases, Option-cases, length, take, drop, concat, is_empty, length-append,
  take-append-drop, length-take, length-drop, drop-length-append, All, All-append, All-append_left,
  All-append_right, ℤ, pos, negsuc, sub_ℕ, Bytes, codes, bytes_eq, bytes_eq_iff, bytes_eq_refl,
  starts_with, contains_byte, contains, decimal, is_space, is_digit, digits_from, skip_space,
  strtol, atoi, IsDigit, digits_from-append, decimal_from-IsDigit, strtol-decimal,
}
use proxchunk.Plan.{Chunk, plan_chunks, plan_chunks_n}
use proxchunk.Plan.Cover.{Covers, plan_chunks-Covers}
use proxchunk.Plan.Pieces.{plan_chunks_n-Covers}
use proxchunk.Daemon.Args.{below_one}
use proxchunk.Cli.{Settings, download, cli_main}
use proxchunk.Cli.Accepted.{IsAccepted, cli_main-IsAccepted}
use proxchunk.Download.{Answer, Shared, steps, start_shared, idle_workers, finish_download}
use proxchunk.Download.Parts.{to_ℕ}
use proxchunk.Download.Chunks.{IsHonest}
use proxchunk.Download.Finish.{finish_download-target}
use proxchunk.Download.Probe.{FileInfo, Expected, failed, found, Got, probe_size_direct}
use proxchunk.Download.Probe.Ranges.{probe_size_direct-IsSized}

-- `limit_bytes`, where it is positive and less than the size.
abbrev pub limited : ℤ → ℤ → ℤ
limited (pos limit) (pos size) = if ltb 0 limit && ltb limit size then pos limit else pos size
limited (pos limit) (negsuc n) = negsuc n
limited (negsuc n) size = size

abbrev pub planned : ℤ → ℤ → ℤ → List Chunk
planned (pos chunk_mb) concurrent size =
    if ltb 0 chunk_mb
    then plan_chunks size (pos (chunk_mb * 1024 * 1024))
    else plan_chunks_n size concurrent
planned (negsuc n) concurrent size = plan_chunks_n size concurrent

-- `std::max(1, std::min(max_concurrent, chunks.size()))`
abbrev pub n_workers : ℤ → List Chunk → ℕ
n_workers concurrent chunks = max 1 (min (to_ℕ concurrent) (length chunks))

-- `n < 1` of the answer to TARGET; there is none without a client.
abbrev pub reaches_target : Option ℤ → Bool
reaches_target none = true
reaches_target (some n) = not (below_one n)

abbrev pub size_of : Settings → FileInfo → ℤ
size_of s info = limited s.opt.limit_bytes info.size

abbrev pub chunks_of : Settings → FileInfo → List Chunk
chunks_of s info = planned s.chunk_mb s.concurrent (size_of s info)

-- What the workers leave, `schedule` being the steps up to the end of the wait for all chunks.
abbrev pub workers_of : Settings → FileInfo → List (ℕ × Answer) → Shared
workers_of s info schedule =
    let chunks = chunks_of s info in
    (steps s.opt.direct schedule (start_shared chunks)
      (idle_workers (n_workers s.concurrent chunks))).0

-- The result, and the output file.
pub run_download :
    Settings → Expected → Option ℤ → List (ℕ × Answer) → Bool → Option Bytes → Bool × Option Bytes
unfolding steps start_shared idle_workers finish_download plan_chunks plan_chunks_n
run_download s (failed error) target schedule out_ok old = (false, old)
run_download s (found info) target schedule out_ok old =
    if not info.accepts_ranges
    then (false, old)
    else if not (reaches_target target)
    then (false, old)
    else finish_download out_ok (to_ℕ (size_of s info)) (length (chunks_of s info)) old
        (workers_of s info schedule)
