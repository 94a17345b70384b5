-- ===== src/Engine/Refresh/Keeps.antt =====
-- A scoring pass loses no lease and gives no address two rows.
use proxchunk.Prelude.{
  ℕ, zero, suc, ◌+◌, ◌≤◌, min, ◌≡◌, refl, ◌∙◌, inl, inr, Bool, true, false, List, [], ◌∷◌, arith,
  if◌then◌else◌, length, take, is_empty, All, Bytes,
}
use proxchunk.Engine.Rows.{Floats, Proxy, count, count-sort, has_address, busy_at, HasDistinctRows}
use proxchunk.Engine.{Engine}
use proxchunk.Engine.Order.{All-sort}
use proxchunk.Engine.Candidates.{
  ProxyEngineConfig, local_proxy_urls, fetch_all_lists, all_candidates,
}
use proxchunk.Engine.Candidates.Distinct.{IsShuffle, all_candidates_lem}
use proxchunk.Engine.Install.Carry.{NoneBusy, IsTested}
use proxchunk.Engine.Install.Leases.{install_tested-leases}
use proxchunk.Engine.Install.Distinct.{install_tested-HasDistinctRows}
use proxchunk.Engine.Scoring.{test_proxies_multi}
use proxchunk.Engine.Scoring.Counts.{times}
use proxchunk.Engine.Scoring.Fits.{IsFresh}
use proxchunk.Engine.Scoring.Sound.{test_all-Ends}
use proxchunk.Engine.Refresh.{
  Trial, Pass, Pool, test_sorted, install_and_save, refresh, cached_candidates, reused_rows,
  try_reuse_cache,
}
use proxchunk.Engine.Refresh.Reuse.{try_reuse_cache-Reuses}

-- Every address is there once at most.
abbrev pub IsDistinct : List Bytes → Type 0
IsDistinct bs = (a : Bytes) → times a bs ≤ 1

-- No local proxy is given twice, and none is in the public lists too.
abbrev pub LocalsApart : ProxyEngineConfig → (Bytes → Bytes) → Type 0
LocalsApart cfg body =
    (a : Bytes)
    → times a (local_proxy_urls cfg)
        + (if cfg.fetch_public then min 1 (times a (fetch_all_lists body)) else 0)
      ≤ 1

module _ {D : Type 0} ⦃F : Floats D⦄ where
  -- Two pools have the same leases, and the second has no two rows of one address.
  abbrev pub KeepsLeases : Engine D → Engine D → Type 0
  KeepsLeases e e' =
      HasDistinctRows e'.pool × ((a : Bytes) → count (busy_at a) e'.pool ≡ count (busy_at a) e.pool)

  pub KeepsLeases-trans : (e f g : Engine D) → KeepsLeases e f → KeepsLeases f g → KeepsLeases e g
  KeepsLeases-trans e f g h k = (k.0, λ a. k.1 a ∙ h.1 a)

  fresh-NoneBusy : (ps : List (Proxy D)) → All IsFresh ps → NoneBusy ps
  fresh-NoneBusy [] all = tt
  fresh-NoneBusy (p ∷ ps) all = (all.0.not_leased, fresh-NoneBusy ps all.1)

  All-take : (P : Proxy D → Type 0) (n : ℕ) (ps : List (Proxy D)) → All P ps → All P (take n ps)
  All-take P zero ps all = tt
  All-take P (suc n) [] all = tt
  All-take P (suc n) (p ∷ ps) all = (all.0, All-take P n ps all.1)

  count-take : (f : Proxy D → Bool) (n : ℕ) (ps : List (Proxy D)) → count f (take n ps) ≤ count f ps
  count-take f zero ps = omega arith
  count-take f (suc n) [] = omega arith
  count-take f (suc n) (p ∷ ps) = omega (arith, count-take f n ps)

  take-IsTested : (n : ℕ) (ps : List (Proxy D)) → IsTested ps → IsTested (take n ps)
  take-IsTested n ps h = (
    All-take (λ p. p.busy ≡ false) n ps h.0,
    λ a. omega (arith, h.1 a, count-take (has_address a) n ps),
  )

  module _ (cfg : ProxyEngineConfig) (show : D → Bytes) where
    -- What a scoring pass finds among candidates without repetition is what an install wants: rows
    -- that nobody leases, no two with one address.
    test_sorted-IsTested :
        (max_keep : ℕ) (candidates : List Bytes) (t : Trial D)
        → IsDistinct candidates
        → IsTested (test_sorted cfg max_keep candidates t)
    unfolding test_sorted test_proxies_multi
    test_sorted-IsTested max_keep candidates t d =
        let ends =
          test_all-Ends cfg.max_inflight max_keep candidates (length (local_proxy_urls cfg))
            t.multi_ok t.starts t.rounds in
        (
          All-sort (λ p. p.busy ≡ false) _ (fresh-NoneBusy _ ends.fresh),
          λ a. omega (arith, count-sort (has_address a) _, ends.once a, d a),
        )

    install_and_save-KeepsLeases :
        (can_write : Bool) (tested : List (Proxy D)) (s : Pool D)
        → HasDistinctRows s.engine.pool
        → IsTested tested
        → KeepsLeases s.engine (install_and_save cfg show can_write tested s).engine
    unfolding install_and_save
    install_and_save-KeepsLeases can_write tested s d h = (
      install_tested-HasDistinctRows s.engine tested d h.1,
      install_tested-leases s.engine tested d h.0,
    )

    -- One of two ways to leave a pool.
    pub either :
        (s : Pool D) (b : Bool) (x y : Pool D)
        → KeepsLeases s.engine x.engine
        → KeepsLeases s.engine y.engine
        → KeepsLeases s.engine (if b then x else y).engine
    either s true x y h k = h
    either s false x y h k = k

    pub refresh-KeepsLeases :
        (p : Pass D) (s : Pool D)
        → HasDistinctRows s.engine.pool
        → IsShuffle p.shuffle
        → LocalsApart cfg p.body
        → KeepsLeases s.engine (refresh cfg show p s).engine
    unfolding refresh
    refresh-KeepsLeases p s d shuffled apart =
        let same : KeepsLeases s.engine s.engine = (d, λ a. refl) in
        let candidates = all_candidates cfg p.body p.shuffle in
        let distinct : IsDistinct candidates =
          λ a. omega (arith, apart a, all_candidates_lem cfg p.body p.shuffle a shuffled) in
        either s (is_empty candidates) s _ same (
          either s p.trial.stopped s _ same (
            install_and_save-KeepsLeases p.can_write _ s d
              (test_sorted-IsTested s.engine.max_keep candidates p.trial distinct)))

    -- Testing the cache again changes no lease, for local proxies that are not in the file.
    pub try_reuse_cache-KeepsLeases :
        (stop_before : Bool) (t : Trial D) (can_write : Bool) (s : Pool D)
        → HasDistinctRows s.engine.pool
        → IsDistinct (cached_candidates cfg s.file)
        → KeepsLeases s.engine (try_reuse_cache cfg show stop_before t can_write s).1.engine
    unfolding reused_rows
    try_reuse_cache-KeepsLeases stop_before t can_write s d distinct =
        elim (try_reuse_cache-Reuses cfg show stop_before t can_write s) [
          | inl (r, _) ↦ rw r (d, λ a. refl)
          | inr (inl (r, _)) ↦ rw r (d, λ a. refl)
          | inr (inr (r, _, _, _)) ↦ rw r (
              install_and_save-KeepsLeases can_write (reused_rows cfg t s) s d (
                take-IsTested s.engine.max_keep _ (
                  test_sorted-IsTested s.engine.max_keep (cached_candidates cfg s.file) t
                    distinct)))
        ]
