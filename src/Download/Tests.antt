-- ===== src/Download/Tests.antt =====
-- The theorems on the downloader, at a target of five bytes in two chunks.
use proxchunk.Prelude.{
  ℕ, zero, suc, ◌+◌, ◌-◌, ◌≤◌, min, ◌≡◌, refl, sym, ap, ◌⊎◌, inl, inr, true, false, none, some,
  List, [], ◌∷◌, ◌++◌, arith, length, take, drop, length-take, length-drop, All, pos, negsuc, Bytes,
  codes, bytes_eq, starts_with, contains_byte, decimal, strtol,
}
use proxchunk.Plan.{Chunk, plan_chunks, plan_chunks_n, plan_n_bounds}
use proxchunk.Ia.Size.{ia_size_from_metadata_json, entry_of}
use proxchunk.Cli.{Settings, default_settings, download, cli_main}
use proxchunk.Download.Probe.{FileInfo, found, Got, probe_size_direct}
use proxchunk.Download.Probe.Ranges.{range_tail}
use proxchunk.Download.Run.{workers_of, chunks_of, run_download}
use proxchunk.Download.Run.Whole.{run_download-target}
use proxchunk.Download.{Transfer, Answer, download_chunk, steps, start_shared, idle_workers}
use proxchunk.Download.Chunks.{IsHonest, Leaves, download_chunk-Leaves}
use proxchunk.Download.Queue.{Counts}
use proxchunk.Download.Jobs.{Places, steps-Places}

abbrev target : Bytes
target = codes "hello"

-- A server that breaks off after two bytes of a Range.
abbrev two_bytes : Transfer
two_bytes = record {
  fopen_ok = true;
  perform = λ from to. elim from [
    | pos lo ↦ elim to [
      | pos last ↦ (take (min 2 (last + 1 - lo)) (drop lo target), 206)
      | negsuc _ ↦ ([], 416)
    ]
    | negsuc _ ↦ ([], 416)
  ];
}

two_bytes-IsHonest : IsHonest target two_bytes
two_bytes-IsHonest lo last le lt =
    let long = length-take (min 2 (last + 1 - lo)) (drop lo target) in
    let enough : length (take (min 2 (last + 1 - lo)) (drop lo target)) ≡ min 2 (last + 1 - lo) =
      omega (arith, long, length-drop lo target) in
    inl (ap (λ n. take n (drop lo target)) (sym enough), omega (arith, enough))

abbrev middle : Chunk
middle = record { start = pos 1; end = pos 3; id = 0 }

-- A server that answers with the page of an error.
abbrev error_page : Transfer
error_page = record {
  fopen_ok = true;
  perform = λ from to. elim from [
    | pos lo ↦ elim to [ pos last ↦ (take (last - lo) (codes "oops"), 500) | negsuc _ ↦ ([], 416) ]
    | negsuc _ ↦ ([], 416)
  ];
}

error_page-IsHonest : IsHonest target error_page
error_page-IsHonest lo last le lt =
    inr (refl, omega (arith, length-take (last - lo) (codes "oops"), le))

download_chunk-Leaves_example :
    Leaves target 1 3 (download_chunk error_page middle (some (codes "e")))
download_chunk-Leaves_example =
    download_chunk-Leaves target error_page middle (some (codes "e")) 1 3 error_page-IsHonest
      (refl, refl, omega arith, omega arith) (refl, omega arith)

-- What is left is the byte that was there.
error_page-cut : download_chunk error_page middle (some (codes "e")) ≡ (false, some (codes "e"))
unfolding download_chunk
error_page-cut = refl

abbrev direct_answer : Answer
direct_answer = record { acquired = none; curl_ok = true; transfer = two_bytes }

-- One worker runs both chunks of a plan, the first of them twice.
abbrev solo : ℕ → List (ℕ × Answer)
solo zero = []
solo (suc n) = (0, direct_answer) ∷ solo n

solo-IsHonest : (n : ℕ) → All (λ (step : ℕ × Answer). IsHonest target step.1.transfer) (solo n)
solo-IsHonest zero = tt
solo-IsHonest (suc n) = (two_bytes-IsHonest, solo-IsHonest n)

abbrev schedule : List (ℕ × Answer)
schedule = solo 24

abbrev plan : List Chunk
plan = plan_chunks (pos 5) (pos 3)

steps-Places_example :
    let (s, ws) = steps false schedule (start_shared plan) (idle_workers 1) in
    Places plan s ws × Counts (length plan) s ws
steps-Places_example = steps-Places false plan 1 schedule

-- A command line, and a server that tells the size.
abbrev args : List Bytes
args = codes "http://x/a" ∷ codes "-c" ∷ codes "2" ∷ codes "--direct" ∷ []

abbrev settings : Settings
settings = record default_settings {
  url = codes "http://x/a";
  out_path = codes "a";
  concurrent = pos 2;
  concurrent_set = true;
  opt = record default_settings.opt { direct = true };
}

abbrev five_bytes : FileInfo
five_bytes = record { size = pos 5; accepts_ranges = true }

abbrev headers : Bytes
headers = range_tail (codes " bytes 0-4") (codes "\n") 5

args-settings : cli_main 8 args ≡ download settings
unfolding cli_main bytes_eq contains_byte strtol
args-settings = refl

abbrev no_metadata : Bytes → Got
no_metadata identifier = none

headers-found :
    probe_size_direct (codes "http://x/a") no_metadata (some (true, 206, headers))
    ≡ found five_bytes
unfolding probe_size_direct starts_with strtol decimal
headers-found = refl

all_done :
    let after = workers_of settings five_bytes schedule in
    (length (chunks_of settings five_bytes) ≡ 2) × (after.finished ≡ 2) × (after.failed ≡ 0)
unfolding steps plan_chunks_n plan_n_bounds start_shared idle_workers
all_done = (refl, refl, refl)

all_counted :
    let after = workers_of settings five_bytes schedule in
    length (chunks_of settings five_bytes) ≤ after.finished + after.failed
all_counted = omega (arith, all_done)

run_download-target_example :
    let after = workers_of settings five_bytes schedule in
    (1 ≤ after.failed)
    ⊎ (run_download settings
          (probe_size_direct (codes "http://x/a") no_metadata (some (true, 206, headers)))
          none
          schedule
          true
          none
        ≡ (true, some target))
run_download-target_example =
    run_download-target 8 args settings no_metadata (some (true, 206, headers)) five_bytes none
      target schedule none args-settings headers-found refl refl (omega arith) (solo-IsHonest 24)
      all_counted

-- The metadata of a file of 12 bytes.
metadata :
    ia_size_from_metadata_json (codes "{" ++ entry_of (codes "f") (codes ",") 12) (codes "f")
    ≡ some 12
unfolding ia_size_from_metadata_json starts_with decimal
metadata = refl
