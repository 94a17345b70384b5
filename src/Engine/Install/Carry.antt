-- ===== src/Engine/Install/Carry.antt =====
-- The steps of install_tested, counted by address.
use proxchunk.Prelude.{
  ℕ, ◌+◌, ◌≤◌, ◌≡◌, refl, ap, ◌∙◌, ◌⊎◌, inl, inr, Bool, true, false, not, ◌&&◌, none, some, List,
  [], ◌∷◌, ◌++◌, arith, if◌then◌else◌, Bool-cases, All, All-append, Bytes, bytes_eq, bytes_eq_iff,
  bytes_eq_refl,
}
use proxchunk.Engine.Rows.{Proxy, count, count-append, has_address, busy_at, HasDistinctRows}
use proxchunk.Engine.Install.{has_row, old_busy_from, take_row, carry_over, busy_rows, fill}

module _ {D : Type 0} where
  abbrev AllBusy : List (Proxy D) → Type 0
  AllBusy = All (λ p. p.busy ≡ true)

  abbrev pub NoneBusy : List (Proxy D) → Type 0
  NoneBusy = All (λ p. p.busy ≡ false)

  -- What a refresh installs: tested rows, none of them leased, and no two with one address.
  abbrev pub IsTested : List (Proxy D) → Type 0
  IsTested tested = NoneBusy tested × HasDistinctRows tested

  has_row-count :
      (a : Bytes) (ps : List (Proxy D)) → count (has_address a) ps ≡ 0 → has_row a ps ≡ false
  unfolding has_row
  has_row-count a [] h = refl
  has_row-count a (p ∷ ps) h = ground (arith, has_row-count a ps)

  -- Where no address occurs twice, every leased row is taken up.
  pub old_busy_from-count :
      (old ps : List (Proxy D))
      → AllBusy old
      → ((b : Bytes) → count (has_address b) old + count (has_address b) ps ≤ 1)
      → AllBusy (old_busy_from old ps)
        × ((a : Bytes)
            → count (has_address a) (old_busy_from old ps)
              ≡ count (has_address a) old + count (busy_at a) ps)
  unfolding old_busy_from
  old_busy_from-count old [] v d = (v, λ a. omega arith)
  old_busy_from-count old (p ∷ ps) v d = elim (Bool-cases p.busy) [
    | inr free ↦
        let test : (p.busy && not (has_row p.address old)) ≡ false = ground arith in
        let (all, counts) = old_busy_from-count old ps v (λ b. ground (arith, d b)) in
        rw test (all, λ a. ground (arith, counts a))
    | inl busy ↦
        let fresh =
          has_row-count p.address old (ground (arith, d p.address, bytes_eq_refl p.address)) in
        let test : (p.busy && not (has_row p.address old)) ≡ true = ground arith in
        let (all, counts) =
          old_busy_from-count (old ++ p ∷ []) ps
            (All-append (λ (q : Proxy D). q.busy ≡ true) old (p ∷ []) v (busy, tt))
            (λ b. ground (arith, d b, count-append (has_address b) old (p ∷ []))) in
        rw test (all, λ a. ground (arith, counts a, count-append (has_address a) old (p ∷ [])))
  ]

  -- The row that is found has the address, and is one of the list.
  pub take_row-count :
      (a : Bytes) (ps : List (Proxy D))
      → ((take_row a ps).0 ≡ none) × ((take_row a ps).1 ≡ ps)
        ⊎ ((p : Proxy D) × ((take_row a ps).0 ≡ some p)
            × (bytes_eq p.address a ≡ true)
            × ((f : Proxy D → Bool)
                → count f ps ≡ (if f p then 1 else 0) + count f (take_row a ps).1)
            × (AllBusy ps → AllBusy (take_row a ps).1))
  unfolding take_row
  take_row-count a [] = inl (refl, refl)
  take_row-count a (p ∷ ps) = elim (Bool-cases (bytes_eq p.address a)) [
    | inl same ↦ rw same (inr (p, refl, same, (λ f. refl), (λ v. v.1)))
    | inr other ↦ rw other (elim (take_row-count a ps) [
      | inl (missing, rest) ↦ inl (missing, ap (◌∷◌ p) rest)
      | inr (q, found, same, counts, all) ↦
          inr (q, found, same, (λ f. omega (arith, counts f)), (λ v. (v.0, all v.1)))
    ])
  ]

  AllBusy-count :
      (a : Bytes) (ps : List (Proxy D))
      → AllBusy ps
      → count (busy_at a) ps ≡ count (has_address a) ps
  AllBusy-count a [] v = refl
  AllBusy-count a (p ∷ ps) v = ground (arith, AllBusy-count a ps v.1)

  -- The leases of the new rows are those of the old ones, taken over or put behind.
  pub carry_over-count :
      (a : Bytes) (ts old : List (Proxy D))
      → NoneBusy ts
      → AllBusy old
      → count (busy_at a) (carry_over ts old) ≡ count (has_address a) old
  unfolding carry_over
  carry_over-count a [] old n v = AllBusy-count a old v
  carry_over-count a (t ∷ ts) old n v = elim (take_row-count t.address old) [
    | inl (missing, rest) ↦
        rw (missing, rest) (ground (arith, n.0, carry_over-count a ts old n.1 v))
    | inr (p, found, same, counts, all) ↦
        let ih = carry_over-count a ts (take_row t.address old).1 n.1 (all v) in
        let addresses = (bytes_eq_iff p.address t.address).0 same in
        rw found (ground (arith, ih, counts (has_address a)))
  ]

  busy_rows-count :
      (a : Bytes) (ts : List (Proxy D)) → count (busy_at a) (busy_rows ts) ≡ count (busy_at a) ts
  unfolding busy_rows
  busy_rows-count a [] = refl
  busy_rows-count a (t ∷ ts) = ground (arith, busy_rows-count a ts)

  fill-count :
      (a : Bytes) (max_keep : ℕ) (kept ts : List (Proxy D))
      → count (busy_at a) (fill max_keep kept ts) ≡ count (busy_at a) kept
  unfolding fill
  fill-count a max_keep kept [] = refl
  fill-count a max_keep kept (t ∷ ts) = ground (
    arith,
    fill-count a max_keep kept ts,
    fill-count a max_keep (kept ++ t ∷ []) ts,
    count-append (busy_at a) kept (t ∷ []),
  )

  pub kept-count :
      (a : Bytes) (max_keep : ℕ) (all : List (Proxy D))
      → count (busy_at a) (fill max_keep (busy_rows all) all) ≡ count (busy_at a) all
  kept-count a max_keep all = fill-count a max_keep (busy_rows all) all ∙ busy_rows-count a all
