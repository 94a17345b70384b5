-- ===== src/Engine/Refresh.antt =====
-- The scoring passes of src/proxy_engine.cpp: refresh, try_reuse_cache, and the thread that start
-- makes. A pass tests without the mutex and then installs its rows under it, so it is one function
-- of the engine and the cache file. What curl, the clock and the stop flag report is given.
mod Tests
pub mod Keeps
pub mod Reuse
pub mod Thread
use proxchunk.Prelude.{
  ℕ, Bool, true, false, not, ◌&&◌, Option, List, [], ◌∷◌, ◌++◌, ltb, if◌then◌else◌, length, take,
  is_empty, ℤ, pos, negsuc, Bytes,
}
use proxchunk.Engine.Rows.{Floats, Proxy, sort}
use proxchunk.Engine.{Engine}
use proxchunk.Engine.Candidates.{ProxyEngineConfig, local_proxy_urls, all_candidates}
use proxchunk.Engine.Cache.{load_cache, save_cache}
use proxchunk.Engine.Install.{install_tested}
use proxchunk.Engine.Scoring.{Start, Rounds, test_proxies_multi}

-- One call of test_proxies_multi, and whether the stop flag is set behind it.
pub record Trial (D : Type 0) : Type 0 where
  pub multi_ok : Bool
  pub starts : ℕ → Start
  pub rounds : Rounds D
  pub stopped : Bool

-- One refresh: what the public lists are, how they are shuffled, the test, and whether the cache
-- file can be written.
pub record Pass (D : Type 0) : Type 0 where
  pub body : Bytes → Bytes
  pub shuffle : List Bytes → List Bytes
  pub trial : Trial D
  pub can_write : Bool

-- What the passes change.
pub record Pool (D : Type 0) : Type 0 where
  pub engine : Engine D
  pub file : Option Bytes

-- The thread of `start`: the stop flag as it finds it before and after the cache, and in front of
-- the updater; the test of the cached rows; the first refresh and those of the updater.
pub record Work (D : Type 0) : Type 0 where
  pub stop_first : Bool
  pub stop_cached : Bool
  pub reuse : Trial D
  pub can_write : Bool
  pub stop_second : Bool
  pub first : Pass D
  pub stop_last : Bool
  pub updates : List (Pass D)

-- The flags of the engine.
pub record Flags : Type 0 where
  pub running : Bool
  pub stop_flag : Bool
  pub warming : Bool

-- `locals` and the rows of the file.
pub cached_candidates : ProxyEngineConfig → Option Bytes → List Bytes
unfolding local_proxy_urls load_cache
cached_candidates cfg file = local_proxy_urls cfg ++ load_cache file

module _ {D : Type 0} ⦃F : Floats D⦄ (cfg : ProxyEngineConfig) where
  -- The call of test_proxies_multi, and the sort behind it.
  pub test_sorted : ℕ → List Bytes → Trial D → List (Proxy D)
  unfolding test_proxies_multi sort local_proxy_urls
  test_sorted max_keep candidates t = sort (
      test_proxies_multi cfg.max_inflight max_keep candidates (length (local_proxy_urls cfg))
        t.multi_ok t.starts t.rounds)

  -- The rows that are tested again, cut to `max_keep`.
  pub reused_rows : Trial D → Pool D → List (Proxy D)
  unfolding cached_candidates test_sorted
  reused_rows t s =
      take s.engine.max_keep (test_sorted s.engine.max_keep (cached_candidates cfg s.file) t)

module _ {D : Type 0} ⦃F : Floats D⦄ (cfg : ProxyEngineConfig) (show : D → Bytes) where
  pub install_and_save : Bool → List (Proxy D) → Pool D → Pool D
  unfolding install_tested save_cache
  install_and_save can_write tested s =
      let e = install_tested s.engine tested in
      record { engine = e; file = save_cache cfg show e.pool can_write s.file }

  pub refresh : Pass D → Pool D → Pool D
  unfolding all_candidates test_sorted install_and_save
  refresh p s =
      let candidates = all_candidates cfg p.body p.shuffle in
      let tested = test_sorted cfg s.engine.max_keep candidates p.trial in
      if is_empty candidates
      then s
      else if p.trial.stopped
      then s
      else install_and_save p.can_write tested s

  -- Whether the cache was used, or the engine stops. `stop_before` is the stop flag in front of the
  -- test.
  pub try_reuse_cache : Bool → Trial D → Bool → Pool D → Bool × Pool D
  unfolding load_cache reused_rows install_and_save
  try_reuse_cache stop_before t can_write s =
      let cached = load_cache s.file in
      let tested = reused_rows cfg t s in
      if not cfg.use_cache
      then (false, s)
      else if is_empty cached
      then (false, s)
      else if ltb (length cached) s.engine.max_keep
      then (false, s)
      else if stop_before
      then (true, s)
      else if t.stopped
      then (true, s)
      else if ltb (length tested) 3
      then (false, s)
      else (true, install_and_save can_write tested s)

  pub refresh_each : List (Pass D) → Pool D → Pool D
  unfolding refresh
  refresh_each [] s = s
  refresh_each (p ∷ ps) s = refresh_each ps (refresh p s)

  -- `if (!stop && !try_reuse_cache() && !stop) refresh()`
  pub first_pass : Work D → Pool D → Pool D
  unfolding try_reuse_cache refresh
  first_pass w s =
      let (reused, s') = try_reuse_cache w.stop_cached w.reuse w.can_write s in
      if w.stop_first then s else if not reused && not w.stop_second then refresh w.first s' else s'

  -- The body of the thread; the updater runs only for a positive `refresh_sec`, and sleeps between
  -- its passes until one is due or it is told to stop.
  pub work : ℤ → Work D → Pool D → Pool D
  unfolding first_pass refresh_each
  work refresh_sec w s =
      let s' = first_pass w s in
      let updated = refresh_each w.updates s' in
      elim refresh_sec [
        | pos n ↦ if ltb 0 n && not w.stop_last then updated else s'
        | negsuc n ↦ s'
      ]

  -- `start` as its caller sees it: whether a thread is made, and the flags.
  abbrev pub start : Flags → Bool × Flags
  start f =
      if f.running
      then (false, f)
      else (true, record { running = true; stop_flag = false; warming = true })

  -- `stop`, for the pool that the joined threads leave, or the one that is there where no thread
  -- runs.
  pub stop : Bool → (Pool D → Pool D) → Flags × Pool D → Flags × Pool D
  unfolding save_cache
  stop can_write joined (f, s) =
      let s' = joined s in
      if not f.running then (record f { stop_flag = true }, s) else (
        record { running = false; stop_flag = true; warming = false },
        record s' { file = save_cache cfg show s'.engine.pool can_write s'.file },
      )
