-- ===== src/Engine/Install/Distinct.antt =====
-- install_tested: no address gets two rows.
use proxchunk.Prelude.{
  ℕ, ◌+◌, ◌≤◌, ◌≡◌, refl, inl, inr, Option, none, some, List, [], ◌∷◌, ◌++◌, arith, Bytes,
  bytes_eq_iff,
}
use proxchunk.Engine.Rows.{
  Floats, Proxy, sort, count, count-append, count-sort, has_address, busy_at, busy_at-le,
  HasDistinctRows,
}
use proxchunk.Engine.{Engine}
use proxchunk.Engine.Install.Carry.{old_busy_from-count, take_row-count}
use proxchunk.Engine.Install.{
  old_busy_from, take_row, carry, carry_over, busy_rows, fill, install_tested,
}

module _ {D : Type 0} where
  carry-address : (t : Proxy D) (o : Option (Proxy D)) → (carry t o).address ≡ t.address
  carry-address t none = refl
  carry-address t (some old) = refl

  take_row_missing :
      (a : Bytes) (ps : List (Proxy D)) → (take_row a ps).0 ≡ none → count (has_address a) ps ≡ 0
  unfolding take_row
  take_row_missing a [] h = refl
  take_row_missing a (p ∷ ps) h = ground (arith, take_row_missing a ps)

  carry_over-le :
      (a : Bytes) (ts old : List (Proxy D))
      → count (has_address a) (carry_over ts old)
        ≤ count (has_address a) ts + count (has_address a) old
  unfolding carry_over
  carry_over-le a [] old = omega arith
  carry_over-le a (t ∷ ts) old =
      let kept = carry-address t (take_row t.address old).0 in
      let ih = carry_over-le a ts (take_row t.address old).1 in
      elim (take_row-count t.address old) [
        | inl (missing, rest) ↦ ground (arith, rest, kept, ih)
        | inr (p, found, same, counts, all) ↦ ground (arith, kept, ih, counts (has_address a))
      ]

  carry_over-distinct :
      (a : Bytes) (ts old : List (Proxy D))
      → count (has_address a) ts ≤ 1
      → count (has_address a) old ≤ 1
      → count (has_address a) (carry_over ts old) ≤ 1
  unfolding carry_over
  carry_over-distinct a [] old d e = e
  carry_over-distinct a (t ∷ ts) old d e =
      let rest = (take_row t.address old).1 in
      let kept = carry-address t (take_row t.address old).0 in
      let ih = carry_over-distinct a ts rest in
      let le = carry_over-le a ts rest in
      elim (take_row-count t.address old) [
        | inl (missing, same) ↦
            let none_old = take_row_missing t.address old missing in
            ground (arith, same, kept, ih, le, none_old, bytes_eq_iff t.address a)
        | inr (p, found, same, counts, all) ↦ ground (
          arith,
          kept,
          ih,
          le,
          counts (has_address a),
          same,
          bytes_eq_iff t.address a,
          bytes_eq_iff p.address a,
          bytes_eq_iff p.address t.address,
        )
      ]

  busy_rows-address :
      (a : Bytes) (ts : List (Proxy D))
      → count (has_address a) (busy_rows ts) ≡ count (busy_at a) ts
  unfolding busy_rows
  busy_rows-address a [] = refl
  busy_rows-address a (t ∷ ts) = ground (arith, busy_rows-address a ts)

  fill-le :
      (a : Bytes) (max_keep : ℕ) (kept ts : List (Proxy D))
      → count (has_address a) (fill max_keep kept ts) + count (busy_at a) ts
        ≤ count (has_address a) kept + count (has_address a) ts
  unfolding fill
  fill-le a max_keep kept [] = omega arith
  fill-le a max_keep kept (t ∷ ts) = ground (
    arith,
    fill-le a max_keep kept ts,
    fill-le a max_keep (kept ++ t ∷ []) ts,
    count-append (has_address a) kept (t ∷ []),
    busy_at-le a ts,
  )

module _ {D : Type 0} ⦃F : Floats D⦄ where
  pub install_tested-HasDistinctRows :
      (e : Engine D) (tested : List (Proxy D))
      → HasDistinctRows e.pool
      → HasDistinctRows tested
      → HasDistinctRows (install_tested e tested).pool
  unfolding install_tested
  install_tested-HasDistinctRows e tested d n a =
      let (all_busy, counts) = old_busy_from-count [] e.pool tt (λ b. omega (arith, d b)) in
      let old = old_busy_from [] e.pool in
      let all = sort (carry_over tested old) in
      omega (
        arith,
        count-sort (has_address a) (fill e.max_keep (busy_rows all) all),
        fill-le a e.max_keep (busy_rows all) all,
        busy_rows-address a all,
        count-sort (has_address a) (carry_over tested old),
        carry_over-distinct a tested old (n a) (omega (arith, counts a, d a, busy_at-le a e.pool)),
      )
