-- ===== src/Engine/Release.antt =====
-- release: what it does to the row, to the leases, and to the order of the pool.
use proxchunk.Prelude.{
  ◌≤◌, ◌≡◌, refl, ◌∙◌, subst, inl, inr, Bool, true, false, not, ◌&&◌, ◌||◌, List, [], ◌∷◌, arith,
  if◌then◌else◌, Bool-cases, All, Bytes, bytes_eq, bytes_eq_iff,
}
use proxchunk.Engine.Rows.{
  Floats, Proxy, count, count-sort, has_address, busy_at, HasDistinctRows, busy_at-le,
}
use proxchunk.Engine.Order.{All-sort}
use proxchunk.Engine.{Engine, release_row, release_rows, release}

module _ {D : Type 0} where
  -- A row that stays in the pool is alive, or leased; a dead row has failed four times in a row, and
  -- a live one fewer times.
  pub record IsKept (p : Proxy D) : Type 0 where
    pub in_use : (p.alive || p.busy) ≡ true
    pub healthy : p.alive ≡ true → p.fails ≤ 3

module _ {D : Type 0} ⦃F : Floats D⦄ where
  release_row-free :
      (success : Bool) (mbps : D) (p : Proxy D) → (release_row success mbps p).busy ≡ false
  unfolding release_row
  release_row-free true mbps p = refl
  release_row-free false mbps p = refl

  release_row-address :
      (success : Bool) (mbps : D) (p : Proxy D) → (release_row success mbps p).address ≡ p.address
  unfolding release_row
  release_row-address true mbps p = refl
  release_row-address false mbps p = refl

  release_row-IsKept :
      (success : Bool) (mbps : D) (p : Proxy D)
      → IsKept p
      → (release_row success mbps p).alive ≡ true
      → IsKept (release_row success mbps p)
  unfolding release_row
  release_row-IsKept true mbps p v h = record { in_use = refl; healthy = λ _. omega arith }
  release_row-IsKept false mbps p v h = record {
    in_use = ground arith;
    healthy = λ _. ground arith;
  }

  release_rows-IsKept :
      (url : Bytes) (success : Bool) (mbps : D) (ps : List (Proxy D))
      → All IsKept ps
      → All IsKept (release_rows url success mbps ps)
  unfolding release_rows
  release_rows-IsKept url success mbps [] v = tt
  release_rows-IsKept url success mbps (p ∷ ps) v = elim (Bool-cases (bytes_eq p.address url)) [
    | inr other ↦ rw other (v.0, release_rows-IsKept url success mbps ps v.1)
    | inl found ↦
        let q = release_row success mbps p in
        let free = release_row-free success mbps p in
        rw found (elim (Bool-cases (not q.alive && not q.busy)) [
          | inl dead ↦ rw dead v.1
          | inr lives ↦ rw lives (release_row-IsKept success mbps p v.0 (ground arith), v.1)
        ])
  ]

  release_rows_found :
      (url : Bytes) (success : Bool) (mbps : D) (ps : List (Proxy D))
      → count (has_address url) ps ≤ 1
      → count (busy_at url) (release_rows url success mbps ps) ≡ 0
  unfolding release_rows
  release_rows_found url success mbps [] h = refl
  release_rows_found url success mbps (p ∷ ps) h = ground (
    arith,
    release_rows_found url success mbps ps,
    busy_at-le url ps,
    release_row-free success mbps p,
  )

  release_rows_other :
      (url a : Bytes) (success : Bool) (mbps : D) (ps : List (Proxy D))
      → bytes_eq url a ≡ false
      → count (busy_at a) (release_rows url success mbps ps) ≡ count (busy_at a) ps
  unfolding release_rows
  release_rows_other url a success mbps [] h = refl
  release_rows_other url a success mbps (p ∷ ps) h = ground (
    arith,
    release_rows_other url a success mbps ps,
    release_row-free success mbps p,
    release_row-address success mbps p,
    bytes_eq_iff p.address url,
    bytes_eq_iff p.address a,
    bytes_eq_iff url a,
  )

  release_rows-count-le :
      (url a : Bytes) (success : Bool) (mbps : D) (ps : List (Proxy D))
      → count (has_address a) (release_rows url success mbps ps) ≤ count (has_address a) ps
  unfolding release_rows
  release_rows-count-le url a success mbps [] = omega arith
  release_rows-count-le url a success mbps (p ∷ ps) =
      ground
        (arith, release_rows-count-le url a success mbps ps, release_row-address success mbps p)

  -- In a pool where no two rows have one address, a release frees the leases of its URL and of no
  -- other, whether it reports success or failure, and no address gets more rows.
  pub release-count :
      (e : Engine D) (url : Bytes) (success : Bool) (mbps : D)
      → HasDistinctRows e.pool
      → (a : Bytes)
      → (count (busy_at a) (release e url success mbps).pool
          ≡ (if bytes_eq url a then 0 else count (busy_at a) e.pool))
        × (count (has_address a) (release e url success mbps).pool ≤ count (has_address a) e.pool)
  unfolding release
  release-count e url success mbps v a = (
    count-sort (busy_at a) (release_rows url success mbps e.pool) ∙ freed,
    omega (
      arith,
      count-sort (has_address a) (release_rows url success mbps e.pool),
      release_rows-count-le url a success mbps e.pool,
    ),
  )
    where
      freed :
          count (busy_at a) (release_rows url success mbps e.pool)
          ≡ (if bytes_eq url a then 0 else count (busy_at a) e.pool)
      freed = elim (Bool-cases (bytes_eq url a)) [
        | inl same ↦ rw same (
            subst (λ b. count (busy_at b) (release_rows url success mbps e.pool) ≡ 0)
              ((bytes_eq_iff url a).0 same) (release_rows_found url success mbps e.pool (v url)))
        | inr other ↦ rw other (release_rows_other url a success mbps e.pool other)
      ]

  -- A release keeps the pool healthy: every row in it is alive or leased, and every live row has
  -- failed at most three times in a row.
  release-IsKept :
      (e : Engine D) (url : Bytes) (success : Bool) (mbps : D)
      → All IsKept e.pool
      → All IsKept (release e url success mbps).pool
  unfolding release
  release-IsKept e url success mbps v =
      All-sort IsKept (release_rows url success mbps e.pool)
        (release_rows-IsKept url success mbps e.pool v)
