-- ===== src/Download/Run/Whole.antt =====
-- The whole program: a download that its command line allows leaves the target's bytes.
use proxchunk.Prelude.{
  ℕ, ◌+◌, ◌*◌, ◌≤◌, ◌<◌, ◌≡◌, refl, sym, ap, ◌∙◌, subst, ◌⊎◌, inl, inr, Bool, true, false, ◌&&◌,
  Option, some, List, arith, ltb, Bool-cases, length, take, All, ℤ, pos, negsuc, Bytes,
}
use proxchunk.Plan.{plan_chunks_n}
use proxchunk.Plan.Cover.{Covers, plan_chunks-Covers}
use proxchunk.Plan.Pieces.{plan_chunks_n-Covers}
use proxchunk.Daemon.Args.{below_one}
use proxchunk.Cli.{Settings, download, cli_main}
use proxchunk.Cli.Accepted.{cli_main-IsAccepted}
use proxchunk.Download.{Answer, finish_download}
use proxchunk.Download.Parts.{to_ℕ}
use proxchunk.Download.Chunks.{IsHonest}
use proxchunk.Download.Finish.{finish_download-target}
use proxchunk.Download.Probe.{FileInfo, found, Got, probe_size_direct}
use proxchunk.Download.Probe.Ranges.{probe_size_direct-IsSized}
use proxchunk.Download.Run.{
  limited, planned, n_workers, reaches_target, size_of, chunks_of, workers_of, run_download,
}

-- What is downloaded of n bytes.
limited_lem :
    (limit : ℤ) (n : ℕ) → 0 < n → (m : ℕ) × (0 < m) × (m ≤ n) × (limited limit (pos n) ≡ pos m)
limited_lem (negsuc l) n h = (n, h, omega arith, refl)
limited_lem (pos l) n h = elim (Bool-cases (ltb 0 l && ltb l n)) [
  | inl less ↦ rw less (l, ground (arith, less), ground (arith, less), refl)
  | inr all ↦ rw all (n, h, omega arith, refl)
]

pieces-Covers :
    (concurrent : ℤ) (size : ℕ)
    → 0 < size
    → below_one concurrent ≡ false
    → Covers size 0 0 (plan_chunks_n (pos size) concurrent)
pieces-Covers (pos n) size h k = (plan_chunks_n-Covers size n h (ground (arith, k))).1
pieces-Covers (negsuc n) size h k = cc

planned-Covers :
    (chunk_mb concurrent : ℤ) (size : ℕ)
    → 0 < size
    → below_one concurrent ≡ false
    → Covers size 0 0 (planned chunk_mb concurrent (pos size))
planned-Covers (negsuc n) concurrent size h k = pieces-Covers concurrent size h k
planned-Covers (pos n) concurrent size h k = elim (Bool-cases (ltb 0 n)) [
  | inl by_size ↦
      rw by_size (plan_chunks-Covers size (n * 1024 * 1024) h (ground (arith, by_size))).0
  | inr by_pieces ↦ rw by_pieces (pieces-Covers concurrent size h k)
]

found_lem :
    (s : Settings) (info : FileInfo) (target : Option ℤ) (schedule : List (ℕ × Answer))
    (out_ok : Bool) (old : Option Bytes)
    → info.accepts_ranges ≡ true
    → reaches_target target ≡ true
    → run_download s (found info) target schedule out_ok old
      ≡ finish_download out_ok
          (to_ℕ (size_of s info))
          (length (chunks_of s info))
          old
          (workers_of s info schedule)
unfolding run_download
found_lem s info target schedule out_ok old ranges reached = rw (ranges, reached, run_download) refl

-- From the command line to the file: where proxchunk starts a download, its probe finds a size that the
-- target has and ranges, and a proxy reaches the target or none is wanted, then whatever the daemon
-- answers and however the workers interleave, with servers that write only bytes of the Range they are
-- asked for, or, under a code other than 206 and 200, any bytes that are fewer than that, once every chunk
-- is counted: some chunk is counted as failed, or the program succeeds and
-- the output is exactly the first bytes of the target, as many as it has or the limit says.
pub run_download-target :
    (ncpu : ℕ) (args : List Bytes) (s : Settings) (fetch : Bytes → Got) (probe : Got)
    (info : FileInfo) (target : Option ℤ) (file : Bytes) (schedule : List (ℕ × Answer))
    (old : Option Bytes)
    → cli_main ncpu args ≡ download s
    → probe_size_direct s.url fetch probe ≡ found info
    → info.accepts_ranges ≡ true
    → reaches_target target ≡ true
    → to_ℕ info.size ≤ length file
    → All (λ (step : ℕ × Answer). IsHonest file step.1.transfer) schedule
    → let after = workers_of s info schedule in
      length (chunks_of s info) ≤ after.finished + after.failed
      → (1 ≤ after.failed)
        ⊎ (run_download s (probe_size_direct s.url fetch probe) target schedule true old
            ≡ (true, some (take (to_ℕ (size_of s info)) file)))
unfolding run_download
run_download-target ncpu args s fetch probe info target file schedule old run probed ranges reached
      fits honest counted =
    let accepted = cli_main-IsAccepted ncpu args s run in
    let (n, some_bytes, size) = probe_size_direct-IsSized s.url fetch probe info probed in
    let (m, some_wanted, le, wanted) = limited_lem s.opt.limit_bytes n some_bytes in
    let same : size_of s info ≡ pos m = ap (limited s.opt.limit_bytes) size ∙ wanted in
    let covers : Covers m 0 0 (chunks_of s info) =
      subst (λ z. Covers m 0 0 (planned s.chunk_mb s.concurrent z)) (sym same)
        (planned-Covers s.chunk_mb s.concurrent m some_wanted accepted.some_concurrent) in
    elim (finish_download-target file m (chunks_of s info) s.opt.direct
      (n_workers s.concurrent (chunks_of s info)) schedule old covers
      (omega (arith, le, fits, ap to_ℕ size)) honest counted) [
        | inl lost ↦ inl lost
        | inr whole ↦ inr (
            ap (λ p. run_download s p target schedule true old) probed
            ∙ found_lem s info target schedule true old ranges reached
            ∙ ap
                (λ z.
                  finish_download true (to_ℕ z) (length (chunks_of s info)) old
                    (workers_of s info schedule))
                same
            ∙ whole
            ∙ sym (ap (λ z. (true, some (take (to_ℕ z) file))) same))
      ]
