-- ===== src/Engine/Refresh/Reuse.antt =====
-- try_reuse_cache: when the rows of the cache file are used.
use proxchunk.Prelude.{
  ◌≤◌, ◌<◌, max, ◌≡◌, refl, ◌⊎◌, inl, inr, Bool, true, false, not, List, [], ◌∷◌, arith, ltb,
  if◌then◌else◌, length, is_empty, length-take, Bytes,
}
use proxchunk.Engine.Rows.{Floats}
use proxchunk.Engine.Candidates.{ProxyEngineConfig}
use proxchunk.Engine.Cache.{load_cache}
use proxchunk.Engine.Refresh.{
  Trial, Pool, test_sorted, install_and_save, cached_candidates, reused_rows, try_reuse_cache,
}

-- The guards of try_reuse_cache, one after the other.
guards {ℓ} :
    {A : Type ℓ} (used none_there few stops stopped dead : Bool) (refused left installed : A)
    → let r =
        if not used
        then refused
        else if none_there
        then refused
        else if few
        then refused
        else if stops
        then left
        else if stopped
        then left
        else if dead
        then refused
        else installed in
      ((r ≡ refused) × ((used ≡ false) ⊎ (none_there ≡ true) ⊎ (few ≡ true) ⊎ (dead ≡ true)))
      ⊎ ((r ≡ left) × ((stops ≡ true) ⊎ (stopped ≡ true)))
      ⊎ ((r ≡ installed) × (few ≡ false) × (dead ≡ false))
guards false _ _ _ _ _ refused left installed = inl (refl, inl refl)
guards true true _ _ _ _ refused left installed = inl (refl, inr (inl refl))
guards true false true _ _ _ refused left installed = inl (refl, inr (inr (inl refl)))
guards true false false true _ _ refused left installed = inr (inl (refl, inl refl))
guards true false false false true _ refused left installed = inr (inl (refl, inr refl))
guards true false false false false true refused left installed = inl (refl, inr (inr (inr refl)))
guards true false false false false false refused left installed = inr (inr (refl, refl, refl))

module _ {D : Type 0} ⦃F : Floats D⦄ (cfg : ProxyEngineConfig) (show : D → Bytes) where
  -- The three ways that try_reuse_cache can go.
  abbrev pub Reuses : Bool → Trial D → Bool → Pool D → Bool × Pool D → Type 0
  Reuses stop_before t can_write s r =
      let cached = length (load_cache s.file) in
      let live = length (reused_rows cfg t s) in
      ((r ≡ (false, s))
        × ((cfg.use_cache ≡ false) ⊎ (cached < max 1 s.engine.max_keep) ⊎ (live < 3)))
      ⊎ ((r ≡ (true, s)) × ((stop_before ≡ true) ⊎ (t.stopped ≡ true)))
      ⊎ ((r ≡ (true, install_and_save cfg show can_write (reused_rows cfg t s) s))
          × (3 ≤ live)
          × (live ≤ s.engine.max_keep)
          × (s.engine.max_keep ≤ cached))

  -- try_reuse_cache refuses the cache, and leaves engine and file as they are, only where it is
  -- off, has no row or fewer than `max_keep`, or fewer than 3 of its rows are live; it accepts
  -- without an install only where the engine stops; else it installs 3 to `max_keep` live rows.
  pub try_reuse_cache-Reuses :
      (stop_before : Bool) (t : Trial D) (can_write : Bool) (s : Pool D)
      → Reuses stop_before t can_write s (try_reuse_cache cfg show stop_before t can_write s)
  unfolding try_reuse_cache reused_rows
  try_reuse_cache-Reuses stop_before t can_write s =
      let cached = load_cache s.file in
      let live = reused_rows cfg t s in
      let most =
        length-take s.engine.max_keep
          (test_sorted cfg s.engine.max_keep (cached_candidates cfg s.file) t) in
      elim (guards {A = Bool × Pool D} cfg.use_cache (is_empty cached)
        (ltb (length cached) s.engine.max_keep) stop_before t.stopped (ltb (length live) 3)
        (false, s) (true, s) (true, install_and_save cfg show can_write live s)) [
          | inl (r, inl off) ↦ inl (r, inl off)
          | inl (r, inr (inl none_there)) ↦ inl (r, inr (inl (is_empty-length cached none_there)))
          | inl (r, inr (inr (inl few))) ↦ inl (r, inr (inl (ground (arith, few))))
          | inl (r, inr (inr (inr dead))) ↦ inl (r, inr (inr (ground (arith, dead))))
          | inr (inl (r, stops)) ↦ inr (inl (r, stops))
          | inr (inr (r, many, enough)) ↦
              inr (inr (r, ground (arith, enough), omega (arith, most), ground (arith, many)))
        ]
    where
      is_empty-length : (bs : List Bytes) → is_empty bs ≡ true → length bs < max 1 s.engine.max_keep
      is_empty-length [] h = omega arith
      is_empty-length (b ∷ bs) h = cc
