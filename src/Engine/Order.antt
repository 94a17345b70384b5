-- ===== src/Engine/Order.antt =====
-- The pool is kept sorted, and so the first free row is a fastest one.
use proxchunk.Prelude.{
  ◌≡◌, subst, inl, inr, Bool, true, false, some, List, [], ◌∷◌, ◌++◌, Bool-cases, All,
  All-append_right, Bytes,
}
use proxchunk.Engine.Rows.{Floats, IsOrdered, Proxy, is_faster, insert_row, sort, IsSorted}
use proxchunk.Engine.{Engine, is_free, acquire}
use proxchunk.Engine.Acquire.{LeasesFirst, is_available, AcquireSpec, acquire-AcquireSpec}

module _ {D : Type 0} ⦃F : Floats D⦄ where
  All-insert_row :
      (P : Proxy D → Type 0) (p : Proxy D) (ps : List (Proxy D))
      → P p
      → All P ps
      → All P (insert_row p ps)
  unfolding insert_row
  All-insert_row P p [] h all = (h, tt)
  All-insert_row P p (q ∷ qs) h all = elim (Bool-cases (is_faster q p)) [
    | inl first ↦ rw first (all.0, All-insert_row P p qs h all.1)
    | inr last ↦ rw last (h, all)
  ]

  pub All-sort : (P : Proxy D → Type 0) (ps : List (Proxy D)) → All P ps → All P (sort ps)
  unfolding sort
  All-sort P [] all = tt
  All-sort P (p ∷ ps) all = All-insert_row P p (sort ps) all.0 (All-sort P ps all.1)

  slower :
      (o : IsOrdered F) (p q : Proxy D) (qs : List (Proxy D))
      → is_faster q p ≡ false
      → All (λ r. is_faster r q ≡ false) qs
      → All (λ r. is_faster r p ≡ false) qs
  slower o p q [] h all = tt
  slower o p q (r ∷ qs) h all =
      (o.trans r.speed_mbps q.speed_mbps p.speed_mbps all.0 h, slower o p q qs h all.1)

  insert_row-IsSorted :
      (o : IsOrdered F) (p : Proxy D) (ps : List (Proxy D))
      → IsSorted ps
      → IsSorted (insert_row p ps)
  unfolding insert_row
  insert_row-IsSorted o p [] s = (tt, tt)
  insert_row-IsSorted o p (q ∷ qs) s = elim (Bool-cases (is_faster q p)) [
    | inl first ↦ rw first (
      All-insert_row (λ r. is_faster r q ≡ false) p qs (o.asym q.speed_mbps p.speed_mbps first) s.0,
      insert_row-IsSorted o p qs s.1,
    )
    | inr last ↦ rw last ((last, slower o p q qs last s.0), s)
  ]

  pub sort-IsSorted : (o : IsOrdered F) (ps : List (Proxy D)) → IsSorted (sort ps)
  unfolding sort
  sort-IsSorted o [] = tt
  sort-IsSorted o (p ∷ ps) = insert_row-IsSorted o p (sort ps) (sort-IsSorted o ps)

  not_faster_self : (o : IsOrdered F) (p : Proxy D) → is_faster p p ≡ false
  not_faster_self o p = elim (Bool-cases (is_faster p p)) [
    | inl faster ↦ o.asym p.speed_mbps p.speed_mbps faster
    | inr same ↦ same
  ]

  All-weaken :
      (P : Proxy D → Type 0) (test : Proxy D → Bool) (ps : List (Proxy D))
      → All P ps
      → All (λ r. test r ≡ true → P r) ps
  All-weaken P test [] all = tt
  All-weaken P test (p ∷ ps) all = ((λ t. all.0), All-weaken P test ps all.1)

  fastest :
      (o : IsOrdered F) (test : Proxy D → Bool) (before : List (Proxy D)) (p : Proxy D)
      (after : List (Proxy D))
      → IsSorted (before ++ p ∷ after)
      → All (λ r. test r ≡ false) before
      → All (λ r. test r ≡ true → is_faster r p ≡ false) (before ++ p ∷ after)
  fastest o test [] p after s n =
      ((λ t. not_faster_self o p), All-weaken (λ r. is_faster r p ≡ false) test after s.0)
  fastest o test (q ∷ before) p after s n = ((λ t. cc), fastest o test before p after s.1 n.1)

  LeasesFirst-fastest :
      (o : IsOrdered F) (test : Proxy D → Bool) (pool pool' : List (Proxy D)) (q : Proxy D)
      → IsSorted pool
      → LeasesFirst test pool q pool'
      → All (λ r. test r ≡ true → is_faster r q ≡ false) pool
  LeasesFirst-fastest o test pool pool' q s h =
      rw (h.leased, h.was) (fastest o test h.before h.row h.after (subst IsSorted h.was s) h.first)

  passes_some :
      (test : Proxy D → Bool) (pool pool' : List (Proxy D)) (q : Proxy D)
      → LeasesFirst test pool q pool'
      → All (λ r. test r ≡ false) pool
      → ⊥
  passes_some test pool pool' q h all = cc (
    h.passes,
    (All-append_right (λ r. test r ≡ false) h.before (h.row ∷ h.after)
        (subst (All (λ r. test r ≡ false)) h.was all)).0,
  )

  -- In a pool that is sorted by speed, no row that `acquire` could lease is faster than the one it
  -- leases: neither one that is free and not skipped, nor, where all free rows are skipped, a
  -- free one.
  pub acquire_fastest :
      (o : IsOrdered F) (e e' : Engine D) (skip : List Bytes) (q : Proxy D)
      → IsSorted e.pool
      → acquire e skip ≡ (some q, e')
      → All (λ r. is_available e.target_filter true skip r ≡ true → is_faster r q ≡ false) e.pool
        × (All (λ r. is_available e.target_filter true skip r ≡ false) e.pool
            → All (λ r. is_free e.target_filter r ≡ true → is_faster r q ≡ false) e.pool)
  acquire_fastest o e e' skip q s h = go (subst (AcquireSpec e skip) h (acquire-AcquireSpec e skip))
    where
      wanted : Proxy D → Bool
      wanted = is_available e.target_filter true skip

      go :
          AcquireSpec e skip (some q, e')
          → All (λ r. wanted r ≡ true → is_faster r q ≡ false) e.pool
            × (All (λ r. wanted r ≡ false) e.pool
                → All (λ r. is_free e.target_filter r ≡ true → is_faster r q ≡ false) e.pool)
      go (same, inl l) = (
        LeasesFirst-fastest o wanted e.pool e'.pool q s l,
        λ none_wanted. absurd (passes_some wanted e.pool e'.pool q l none_wanted),
      )
      go (same, inr (none_wanted, l)) = (
        vacuous e.pool none_wanted,
        λ _. LeasesFirst-fastest o (is_free e.target_filter) e.pool e'.pool q s l,
      )
        where
          vacuous :
              (ps : List (Proxy D))
              → All (λ r. wanted r ≡ false) ps
              → All (λ r. wanted r ≡ true → is_faster r q ≡ false) ps
          vacuous [] all = tt
          vacuous (p ∷ ps) all = ((λ t. cc), vacuous ps all.1)
