-- ===== src/Engine/Acquire.antt =====
-- acquire: which row is leased, and that no row is leased twice.
use proxchunk.Prelude.{
  ◌+◌, ◌≡◌, refl, ap, subst, ◌⊎◌, inl, inr, Bool, true, false, not, ◌&&◌, Option, none, some, List,
  [], ◌∷◌, ◌++◌, arith, if◌then◌else◌, Bool-cases, All, Bytes, bytes_eq,
}
use mathlib.Core.Path.{fun_ext}
use proxchunk.Engine.Rows.{Proxy, count, count-append, has_address, busy_at}
use proxchunk.Engine.{Engine, is_free, is_listed, lease, behind, pick, or_else, with_pool, acquire}

module _ {D : Type 0} where
  -- What `pick` does not pass over.
  abbrev pub is_available : Bool → Bool → List Bytes → Proxy D → Bool
  is_available target_filter honor_skip skip p =
      is_free target_filter p && not (honor_skip && is_listed p.address skip)

  -- `q` is the first row of the pool that passes the test, and the new pool has it leased.
  pub record LeasesFirst (test : Proxy D → Bool) (pool : List (Proxy D)) (q : Proxy D)
      (pool' : List (Proxy D)) : Type 0 where
    pub before : List (Proxy D)
    pub row : Proxy D
    pub after : List (Proxy D)
    pub was : pool ≡ before ++ row ∷ after
    pub is : pool' ≡ before ++ lease row ∷ after
    pub leased : q ≡ lease row
    pub passes : test row ≡ true
    pub first : All (λ p. test p ≡ false) before

  abbrev Picks : (Proxy D → Bool) → List (Proxy D) → Option (Proxy D × List (Proxy D)) → Type 0
  Picks test pool none = All (λ p. test p ≡ false) pool
  Picks test pool (some (q, pool')) = LeasesFirst test pool q pool'

  behind-Picks :
      (test : Proxy D → Bool) (p : Proxy D) (ps : List (Proxy D))
      (r : Option (Proxy D × List (Proxy D)))
      → test p ≡ false
      → Picks test ps r
      → Picks test (p ∷ ps) (behind p r)
  behind-Picks test p ps none n h = (n, h)
  behind-Picks test p ps (some (q, qs)) n h = record {
    before = p ∷ h.before;
    row = h.row;
    after = h.after;
    was = ap (◌∷◌ p) h.was;
    is = ap (◌∷◌ p) h.is;
    leased = h.leased;
    passes = h.passes;
    first = (n, h.first);
  }

  pick-Picks :
      (filter honor : Bool) (skip : List Bytes) (pool : List (Proxy D))
      → Picks (is_available filter honor skip) pool (pick filter honor skip pool)
  unfolding pick
  pick-Picks filter honor skip [] = tt
  pick-Picks filter honor skip (p ∷ ps) = elim (Bool-cases (is_free filter p)) [
    | inr taken ↦ rw taken (passed_over (pick-Picks filter honor skip ps) (ground arith))
    | inl free ↦ elim (Bool-cases (honor && is_listed p.address skip)) [
      | inl skipped ↦
          rw (free, skipped) (passed_over (pick-Picks filter honor skip ps) (ground arith))
      | inr wanted ↦
          rw (free, wanted)
            (record {
              before = [];
              row = p;
              after = ps;
              was = refl;
              is = refl;
              leased = refl;
              passes = ground arith;
              first = tt;
            })
    ]
  ]
    where
      passed_over :
          Picks (is_available filter honor skip) ps (pick filter honor skip ps)
          → is_available filter honor skip p ≡ false
          → Picks (is_available filter honor skip) (p ∷ ps) (behind p (pick filter honor skip ps))
      passed_over ih n =
          behind-Picks (is_available filter honor skip) p ps (pick filter honor skip ps) n ih

  -- With `skip` off a row is available when it is free.
  available-free :
      (filter : Bool) (skip : List Bytes)
      → ◌≡◌ {A = Proxy D → Bool} (is_available filter false skip) (is_free filter)
  available-free filter skip = fun_ext (λ p. and_true (is_free filter p))
    where
      and_true : (b : Bool) → (b && true) ≡ b
      and_true true = refl
      and_true false = refl

  -- The row that `acquire` leases, if any, and what it leaves as it was.
  abbrev pub AcquireSpec : Engine D → List Bytes → Option (Proxy D) × Engine D → Type 0
  AcquireSpec e skip (none, e') = (e' ≡ e) × All (λ p. is_free e.target_filter p ≡ false) e.pool
  AcquireSpec e skip (some q, e') =
      (e' ≡ record e { pool = e'.pool })
      × (LeasesFirst (is_available e.target_filter true skip) e.pool q e'.pool
          ⊎ (All (λ p. is_available e.target_filter true skip p ≡ false) e.pool
              × LeasesFirst (is_free e.target_filter) e.pool q e'.pool))

  -- For every pool and skip list: `acquire` leases the first row that is free and not skipped; if
  -- there is none, the first free row; and if there is none, it returns nothing and changes
  -- nothing. Every other row, and the rest of the state, stays as it was.
  pub acquire-AcquireSpec : (e : Engine D) (skip : List Bytes) → AcquireSpec e skip (acquire e skip)
  unfolding acquire
  acquire-AcquireSpec e skip =
      go (pick e.target_filter true skip e.pool) (pick e.target_filter false skip e.pool)
        (pick-Picks e.target_filter true skip e.pool)
        (subst (λ test. Picks test e.pool (pick e.target_filter false skip e.pool))
          (available-free e.target_filter skip) (pick-Picks e.target_filter false skip e.pool))
    where
      go :
          (r t : Option (Proxy D × List (Proxy D)))
          → Picks (is_available e.target_filter true skip) e.pool r
          → Picks (is_free e.target_filter) e.pool t
          → AcquireSpec e skip (with_pool e (or_else r t))
      go (some (q, pool)) t h k = (refl, inl h)
      go none (some (q, pool)) h k = (refl, inr (h, k))
      go none none h k = (refl, k)

  -- What leasing one row of a pool does to the counts.
  abbrev pub Leases : Engine D → Option (Proxy D) × Engine D → Type 0
  Leases e (none, e') = e' ≡ e
  Leases e (some q, e') =
      (q.busy ≡ true)
      × ((a : Bytes)
          → (count (busy_at a) e'.pool
              ≡ count (busy_at a) e.pool + (if bytes_eq q.address a then 1 else 0))
            × (count (has_address a) e'.pool ≡ count (has_address a) e.pool))

  LeasesFirst-Leases :
      (test : Proxy D → Bool) (pool pool' : List (Proxy D)) (q : Proxy D) (a : Bytes)
      → ((p : Proxy D) → test p ≡ true → p.busy ≡ false)
      → LeasesFirst test pool q pool'
      → (count (busy_at a) pool' ≡ count (busy_at a) pool + (if bytes_eq q.address a then 1 else 0))
        × (count (has_address a) pool' ≡ count (has_address a) pool)
  LeasesFirst-Leases test pool pool' q a f h =
      let free = f h.row h.passes in
      let busy_old = count-append (busy_at a) h.before (h.row ∷ h.after) in
      let busy_new = count-append (busy_at a) h.before (lease h.row ∷ h.after) in
      let rows_old = count-append (has_address a) h.before (h.row ∷ h.after) in
      let rows_new = count-append (has_address a) h.before (lease h.row ∷ h.after) in
      rw (h.is, h.was, h.leased) (ground arith)

  LeasesFirst-busy :
      (test : Proxy D → Bool) (pool pool' : List (Proxy D)) (q : Proxy D)
      → LeasesFirst test pool q pool'
      → q.busy ≡ true
  LeasesFirst-busy test pool pool' q h = rw h.leased

  free_not_busy : (filter : Bool) (p : Proxy D) → is_free filter p ≡ true → p.busy ≡ false
  unfolding is_free
  free_not_busy filter p h = ground arith

  available_not_busy :
      (filter honor : Bool) (skip : List Bytes) (p : Proxy D)
      → is_available filter honor skip p ≡ true
      → p.busy ≡ false
  available_not_busy filter honor skip p h = free_not_busy filter p (ground arith)

  -- A lease marks one row busy that was not, so no row is leased to two holders at once: the busy
  -- rows of the leased address become one more, and no other count changes.
  pub acquire-Leases : (e : Engine D) (skip : List Bytes) → Leases e (acquire e skip)
  acquire-Leases e skip = go (acquire e skip) (acquire-AcquireSpec e skip)
    where
      go : (r : Option (Proxy D) × Engine D) → AcquireSpec e skip r → Leases e r
      go (none, e') s = s.0
      go (some q, e') (same, inl h) = (
        LeasesFirst-busy (is_available e.target_filter true skip) e.pool e'.pool q h,
        λ a.
            LeasesFirst-Leases (is_available e.target_filter true skip) e.pool e'.pool q a
              (available_not_busy e.target_filter true skip) h,
      )
      go (some q, e') (same, inr (skipped, h)) = (
        LeasesFirst-busy (is_free e.target_filter) e.pool e'.pool q h,
        λ a.
            LeasesFirst-Leases (is_free e.target_filter) e.pool e'.pool q a
              (free_not_busy e.target_filter) h,
      )
