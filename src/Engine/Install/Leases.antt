-- ===== src/Engine/Install/Leases.antt =====
-- A refresh keeps every lease, and keeps the pool within its size.
use proxchunk.Prelude.{
  ℕ, ◌≤◌, max, ◌≡◌, refl, sym, ◌∙◌, Bool, true, List, [], ◌∷◌, ◌++◌, arith, length, length-append,
  Bytes,
}
use proxchunk.Engine.Rows.{
  Floats, IsOrdered, Proxy, sort, count, count-append, count-sort, busy_at, is_busy,
  HasDistinctRows, IsSorted,
}
use proxchunk.Engine.Order.{sort-IsSorted}
use proxchunk.Engine.{Engine}
use proxchunk.Engine.Install.Carry.{NoneBusy, old_busy_from-count, carry_over-count, kept-count}
use proxchunk.Engine.Install.{old_busy_from, carry_over, busy_rows, fill, install_tested}

module _ {D : Type 0} ⦃F : Floats D⦄ where
  -- Installing freshly tested rows, none of them leased, over a pool where no two rows have one
  -- address: every address has as many leased rows afterwards as before, so no lease is lost
  -- and none is made up, whichever rows the test found and however small the pool is kept.
  pub install_tested-leases :
      (e : Engine D) (tested : List (Proxy D))
      → HasDistinctRows e.pool
      → NoneBusy tested
      → (a : Bytes) → count (busy_at a) (install_tested e tested).pool ≡ count (busy_at a) e.pool
  unfolding install_tested
  install_tested-leases e tested d n a =
      let (all_busy, counts) = old_busy_from-count [] e.pool tt (λ b. omega (arith, d b)) in
      let old = old_busy_from [] e.pool in
      let all = sort (carry_over tested old) in
      omega (
        arith,
        count-sort (busy_at a) (fill e.max_keep (busy_rows all) all),
        kept-count a e.max_keep all,
        count-sort (busy_at a) (carry_over tested old),
        carry_over-count a tested old n all_busy,
        counts a,
      )

  every : Proxy D → Bool
  every p = true

  length-count : (ps : List (Proxy D)) → length ps ≡ count every ps
  unfolding every
  length-count [] = refl
  length-count (p ∷ ps) = omega (arith, length-count ps)

  length-sort : (ps : List (Proxy D)) → length (sort ps) ≡ length ps
  length-sort ps = length-count (sort ps) ∙ count-sort every ps ∙ sym (length-count ps)

  fill_bound :
      (max_keep : ℕ) (kept ts : List (Proxy D))
      → length (fill max_keep kept ts) ≤ max max_keep (length kept)
  unfolding fill
  fill_bound max_keep kept [] = omega arith
  fill_bound max_keep kept (t ∷ ts) = ground (
    arith,
    fill_bound max_keep kept ts,
    fill_bound max_keep (kept ++ t ∷ []) ts,
    length-append kept (t ∷ []),
  )

  fill-busy :
      (max_keep : ℕ) (kept ts : List (Proxy D))
      → count is_busy (fill max_keep kept ts) ≡ count is_busy kept
  unfolding fill
  fill-busy max_keep kept [] = refl
  fill-busy max_keep kept (t ∷ ts) = ground (
    arith,
    fill-busy max_keep kept ts,
    fill-busy max_keep (kept ++ t ∷ []) ts,
    count-append is_busy kept (t ∷ []),
  )

  length-busy_rows : (ts : List (Proxy D)) → length (busy_rows ts) ≡ count is_busy (busy_rows ts)
  unfolding busy_rows
  length-busy_rows [] = refl
  length-busy_rows (t ∷ ts) = ground (arith, length-busy_rows ts)

  -- For any pool and any tested rows, the pool that is installed is sorted by speed, and holds at
  -- most `max_keep` rows, or as many as are leased if those are more.
  install_tested_bound :
      (e : Engine D) (tested : List (Proxy D))
      → IsOrdered F
      → IsSorted (install_tested e tested).pool
        × (length (install_tested e tested).pool
            ≤ max e.max_keep (count is_busy (install_tested e tested).pool))
  unfolding install_tested
  install_tested_bound e tested o =
      let all = sort (carry_over tested (old_busy_from [] e.pool)) in
      let kept = busy_rows all in
      (
        sort-IsSorted o (fill e.max_keep kept all),
        omega (
          arith,
          length-sort (fill e.max_keep kept all),
          fill_bound e.max_keep kept all,
          count-sort is_busy (fill e.max_keep kept all),
          fill-busy e.max_keep kept all,
          length-busy_rows all,
        ),
      )
