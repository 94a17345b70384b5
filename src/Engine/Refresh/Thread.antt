-- ===== src/Engine/Refresh/Thread.antt =====
-- The thread that start makes, and stop.
use proxchunk.Prelude.{
  ◌≡◌, refl, inl, inr, Bool, List, [], ◌∷◌, Bool-cases, All, ℤ, pos, negsuc, Bytes,
}
use proxchunk.Engine.Rows.{Floats, HasDistinctRows}
use proxchunk.Engine.Candidates.{ProxyEngineConfig}
use proxchunk.Engine.Candidates.Distinct.{IsShuffle}
use proxchunk.Engine.Refresh.{
  Pass, Pool, Work, refresh, cached_candidates, try_reuse_cache, refresh_each, first_pass, work,
  Flags, stop,
}
use proxchunk.Engine.Refresh.Keeps.{
  IsDistinct, LocalsApart, KeepsLeases, KeepsLeases-trans, either, refresh-KeepsLeases,
  try_reuse_cache-KeepsLeases,
}

module _ {D : Type 0} ⦃F : Floats D⦄ (cfg : ProxyEngineConfig) (show : D → Bytes) where
  -- What a pass of the program has: a shuffle, and public lists without the local proxies.
  abbrev IsPass : Pass D → Type 0
  IsPass p = IsShuffle p.shuffle × LocalsApart cfg p.body

  refresh_each-KeepsLeases :
      (ps : List (Pass D)) (s : Pool D)
      → HasDistinctRows s.engine.pool
      → All IsPass ps
      → KeepsLeases s.engine (refresh_each cfg show ps s).engine
  unfolding refresh_each
  refresh_each-KeepsLeases [] s d all = (d, λ a. refl)
  refresh_each-KeepsLeases (p ∷ ps) s d ((shuffled, apart), all) =
      let once = refresh-KeepsLeases cfg show p s d shuffled apart in
      KeepsLeases-trans s.engine (refresh cfg show p s).engine
        (refresh_each cfg show ps (refresh cfg show p s)).engine once
        (refresh_each-KeepsLeases ps (refresh cfg show p s) once.0 all)

  first_pass-KeepsLeases :
      (w : Work D) (s : Pool D)
      → HasDistinctRows s.engine.pool
      → IsDistinct (cached_candidates cfg s.file)
      → IsPass w.first
      → KeepsLeases s.engine (first_pass cfg show w s).engine
  unfolding first_pass
  first_pass-KeepsLeases w s d distinct (shuffled, apart) =
      let s' = (try_reuse_cache cfg show w.stop_cached w.reuse w.can_write s).1 in
      let reused =
        try_reuse_cache-KeepsLeases cfg show w.stop_cached w.reuse w.can_write s d distinct in
      let again = refresh-KeepsLeases cfg show w.first s' reused.0 shuffled apart in
      either cfg show s w.stop_first s _ (d, λ a. refl)
        (either cfg show s _ (refresh cfg show w.first s') s'
          (KeepsLeases-trans s.engine s'.engine (refresh cfg show w.first s').engine reused again)
          reused)

  -- The scoring thread, from the cached rows through the first refresh to every later one, wherever
  -- it is stopped: each address has as many leased rows as before, and at most one row, for
  -- local proxies that are given once and are neither in the cache nor in the public lists.
  pub work-KeepsLeases :
      (refresh_sec : ℤ) (w : Work D) (s : Pool D)
      → HasDistinctRows s.engine.pool
      → IsDistinct (cached_candidates cfg s.file)
      → All IsPass (w.first ∷ w.updates)
      → KeepsLeases s.engine (work cfg show refresh_sec w s).engine
  unfolding work
  work-KeepsLeases (negsuc n) w s d distinct all = first_pass-KeepsLeases w s d distinct all.0
  work-KeepsLeases (pos n) w s d distinct all =
      let s' = first_pass cfg show w s in
      let once = first_pass-KeepsLeases w s d distinct all.0 in
      let more = refresh_each-KeepsLeases w.updates s' once.0 all.1 in
      either cfg show s _ (refresh_each cfg show w.updates s') s'
        (KeepsLeases-trans s.engine s'.engine (refresh_each cfg show w.updates s').engine once more)
        once

  -- A second `stop` changes nothing, whatever the first found.
  stop_idem :
      (w w' : Bool) (joined joined' : Pool D → Pool D) (fs : Flags × Pool D)
      → stop cfg show w' joined' (stop cfg show w joined fs) ≡ stop cfg show w joined fs
  unfolding stop
  stop_idem w w' joined joined' (f, s) = elim (Bool-cases f.running) [
    | inl running ↦ rw (running, stop) refl
    | inr idle ↦ rw (idle, stop) refl
  ]
