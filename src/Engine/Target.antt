-- ===== src/Engine/Target.antt =====
-- verify_target: the Range test of the pool against the file to download. What the transfers
-- bring back is given: a log of the addresses that answered 200 or 206 with their speed, in the
-- order in which they finished, or `none` where curl gives no multi handle.
use proxchunk.Prelude.{
  ℕ, ◌≡◌, refl, sym, ◌∙◌, ◌⊎◌, inl, inr, Bool, true, false, Option, none, some, List, [], ◌∷◌, map,
  arith, if◌then◌else◌, Bool-cases, Option-cases, length, is_empty, All, Bytes, bytes_eq,
  bytes_eq_iff,
}
use proxchunk.Engine.Rows.{Floats, Proxy, sort, count, count-sort, has_address, busy_at}
use proxchunk.Engine.{Engine, is_free}
use proxchunk.Engine.Order.{All-sort}

module _ {D : Type 0} where
  -- `ok_speed[address] = speed`
  unfoldable pub put_speed : Bytes → D → List (Bytes × D) → List (Bytes × D)
  put_speed a s [] = (a, s) ∷ []
  put_speed a s ((b, t) ∷ m) = if bytes_eq b a then (a, s) ∷ m else (b, t) ∷ put_speed a s m

  pub find_speed : Bytes → List (Bytes × D) → Option D
  find_speed a [] = none
  find_speed a ((b, t) ∷ m) = if bytes_eq b a then some t else find_speed a m

  unfoldable pub ok_speeds : List (Bytes × D) → List (Bytes × D) → List (Bytes × D)
  unfolding put_speed
  ok_speeds m [] = m
  ok_speeds m ((a, s) ∷ log) = ok_speeds (put_speed a s m) log

  abbrev unreach : Proxy D → Proxy D
  unreach p = record p { target_ok = false }

  -- The first locked part: the filter is on, and no row has reached the target yet.
  start_target : Engine D → Bytes → Engine D
  start_target e url = record e {
    target_url = url;
    target_filter = true;
    pool = map unreach e.pool;
  }

  unfoldable pub alive_addresses : List (Proxy D) → List Bytes
  alive_addresses [] = []
  alive_addresses (p ∷ ps) = if p.alive then p.address ∷ alive_addresses ps else alive_addresses ps

  abbrev reach : Option D → Proxy D → Proxy D
  reach none p = record p { target_ok = false }
  reach (some s) p = record p { target_ok = true; speed_mbps = s; fails = 0; alive = true }

  abbrev judge : List (Bytes × D) → Proxy D → Proxy D
  judge oks p = reach (find_speed p.address oks) p

module _ {D : Type 0} ⦃F : Floats D⦄ where
  -- The second locked part.
  finish_target : Engine D → List (Bytes × D) → Engine D
  finish_target e oks = record e { pool = sort (map (judge oks) e.pool) }

  -- The transfers answer for the addresses of the live rows.
  unfoldable pub verify_target :
      Engine D → Bytes → (List Bytes → Option (List (Bytes × D))) → Engine D × ℕ
  unfolding start_target finish_target ok_speeds alive_addresses
  verify_target e url probe =
      if is_empty url then (e, 0) else elim (probe (alive_addresses e.pool)) [
        | none ↦ (start_target e url, 0)
        | some log ↦
            (finish_target (start_target e url) (ok_speeds [] log), length (ok_speeds [] log))
      ]

  count-judge :
      (f : Proxy D → Bool) (oks : List (Bytes × D)) (ps : List (Proxy D))
      → ((p : Proxy D) (o : Option D) → f (reach o p) ≡ f p)
      → count f (map (judge oks) ps) ≡ count f ps
  count-judge f oks [] same = refl
  count-judge f oks (p ∷ ps) same =
      ground (arith, count-judge f oks ps same, same p (find_speed p.address oks))

  count-unreach :
      (f : Proxy D → Bool) (ps : List (Proxy D))
      → ((p : Proxy D) → f (unreach p) ≡ f p)
      → count f (map unreach ps) ≡ count f ps
  count-unreach f [] same = refl
  count-unreach f (p ∷ ps) same = ground (arith, count-unreach f ps same, same p)

  reach-keeps :
      (a : Bytes) (p : Proxy D) (o : Option D)
      → (busy_at a (reach o p) ≡ busy_at a p) × (has_address a (reach o p) ≡ has_address a p)
  reach-keeps a p none = (refl, refl)
  reach-keeps a p (some s) = (refl, refl)

  ok_target : Engine D → Bytes → List (Bytes × D) → Engine D
  unfolding start_target finish_target
  ok_target e url oks = finish_target (start_target e url) oks

  ok_target-leases :
      (e : Engine D) (url : Bytes) (oks : List (Bytes × D)) (a : Bytes)
      → (count (busy_at a) (ok_target e url oks).pool ≡ count (busy_at a) e.pool)
        × (count (has_address a) (ok_target e url oks).pool ≡ count (has_address a) e.pool)
  unfolding ok_target
  ok_target-leases e url oks a = (
    count-sort (busy_at a) (map (judge oks) (map unreach e.pool))
        ∙ count-judge (busy_at a) oks (map unreach e.pool) (λ p o. (reach-keeps a p o).0)
        ∙ count-unreach (busy_at a) e.pool (λ p. refl),
    count-sort (has_address a) (map (judge oks) (map unreach e.pool))
        ∙ count-judge (has_address a) oks (map unreach e.pool) (λ p o. (reach-keeps a p o).1)
        ∙ count-unreach (has_address a) e.pool (λ p. refl),
  )

  -- The three ways that `verify_target` can go.
  abbrev Verified :
      Engine D → Bytes → (List Bytes → Option (List (Bytes × D))) → Engine D × ℕ → Type 0
  Verified e url probe r =
      ((is_empty url ≡ true) × (r ≡ (e, 0)))
      ⊎ ((is_empty url ≡ false)
          × (probe (alive_addresses e.pool) ≡ none)
          × (r ≡ (start_target e url, 0)))
      ⊎ ((log : List (Bytes × D)) × (is_empty url ≡ false)
          × (probe (alive_addresses e.pool) ≡ some log)
          × (r ≡ (ok_target e url (ok_speeds [] log), length (ok_speeds [] log))))

  verify_target-Verified :
      (e : Engine D) (url : Bytes) (probe : List Bytes → Option (List (Bytes × D)))
      → Verified e url probe (verify_target e url probe)
  unfolding verify_target ok_target
  verify_target-Verified e [] probe = inl (refl, refl)
  verify_target-Verified e (c ∷ url) probe = elim (Option-cases (probe (alive_addresses e.pool))) [
    | inl failed ↦ inr (inl (refl, failed, rw (failed, verify_target)))
    | inr (log, answered) ↦ inr (inr (log, refl, answered, rw (answered, verify_target)))
  ]

  -- A TARGET command changes no lease and no address: every address has as many rows, and as many
  -- leased rows, afterwards as before, whatever the transfers bring back.
  pub verify_target-leases :
      (e : Engine D) (url : Bytes) (probe : List Bytes → Option (List (Bytes × D))) (a : Bytes)
      → (count (busy_at a) (verify_target e url probe).0.pool ≡ count (busy_at a) e.pool)
        × (count (has_address a) (verify_target e url probe).0.pool ≡ count (has_address a) e.pool)
  unfolding start_target
  verify_target-leases e url probe a = elim (verify_target-Verified e url probe) [
    | inl (_, same) ↦ rw same (refl, refl)
    | inr (inl (_, _, started)) ↦ rw started (
      count-unreach (busy_at a) e.pool (λ p. refl),
      count-unreach (has_address a) e.pool (λ p. refl),
    )
    | inr (inr (log, _, _, done)) ↦ rw done (ok_target-leases e url (ok_speeds [] log) a)
  ]

  -- What a log says of an address.
  abbrev pub Answered : Bytes → Option (List (Bytes × D)) → Type 0
  Answered a none = ⊥
  Answered a (some []) = ⊥
  Answered a (some ((b, s) ∷ log)) = (a ≡ b) ⊎ Answered a (some log)

  find_speed-put_speed :
      (a b : Bytes) (s : D) (m : List (Bytes × D))
      → find_speed a (put_speed b s m) ≡ (if bytes_eq b a then some s else find_speed a m)
  unfolding find_speed put_speed
  find_speed-put_speed a b s [] = refl
  find_speed-put_speed a b s ((c, t) ∷ m) =
      ground
        (arith, find_speed-put_speed a b s m, bytes_eq_iff c b, bytes_eq_iff c a, bytes_eq_iff b a)

  find_speed-ok_speeds :
      (a : Bytes) (log m : List (Bytes × D)) (s : D)
      → find_speed a (ok_speeds m log) ≡ some s
      → (find_speed a m ≡ some s) ⊎ Answered a (some log)
  unfolding ok_speeds
  find_speed-ok_speeds a [] m s h = inl h
  find_speed-ok_speeds a ((b, t) ∷ log) m s h =
      elim (find_speed-ok_speeds a log (put_speed b t m) s h) [
        | inr later ↦ inr (inr later)
        | inl put ↦ elim (Bool-cases (bytes_eq b a)) [
          | inl same ↦ inr (inl (sym ((bytes_eq_iff b a).0 same)))
          | inr other ↦ inl (ground (arith, find_speed-put_speed a b t m))
        ]
      ]

  abbrev LeasableAnswered : Option (List (Bytes × D)) → Proxy D → Type 0
  LeasableAnswered answers p = is_free true p ≡ true → Answered p.address answers

  unreach-LeasableAnswered :
      (answers : Option (List (Bytes × D))) (ps : List (Proxy D))
      → All (LeasableAnswered answers) (map unreach ps)
  unfolding is_free
  unreach-LeasableAnswered answers [] = tt
  unreach-LeasableAnswered answers (p ∷ ps) =
      ((λ h. absurd (ground arith)), unreach-LeasableAnswered answers ps)

  reach-LeasableAnswered :
      (log : List (Bytes × D)) (p : Proxy D) (o : Option D)
      → find_speed p.address (ok_speeds [] log) ≡ o
      → LeasableAnswered (some log) (reach o p)
  unfolding is_free find_speed
  reach-LeasableAnswered log p none e h = absurd (ground arith)
  reach-LeasableAnswered log p (some s) e h = elim (find_speed-ok_speeds p.address log [] s e) [
    | inl nothing ↦ cc
    | inr answered ↦ answered
  ]

  judge-LeasableAnswered :
      (log : List (Bytes × D)) (ps : List (Proxy D))
      → All (LeasableAnswered (some log)) (map (judge (ok_speeds [] log)) ps)
  judge-LeasableAnswered log [] = tt
  judge-LeasableAnswered log (p ∷ ps) =
      (reach-LeasableAnswered log p _ refl, judge-LeasableAnswered log ps)

  -- After a TARGET command with a URL the filter is on, and every row that may be leased has
  -- answered this very test; where curl fails, no row may be leased.
  pub verify_target-Answered :
      (e : Engine D) (url : Bytes) (probe : List Bytes → Option (List (Bytes × D)))
      → is_empty url ≡ false
      → let e' = (verify_target e url probe).0 in
        (e'.target_filter ≡ true)
        × All
            (λ p. is_free true p ≡ true → Answered p.address (probe (alive_addresses e.pool)))
            e'.pool
  unfolding start_target ok_target
  verify_target-Answered e url probe full = elim (verify_target-Verified e url probe) [
    | inl (empty, _) ↦ cc (full, empty)
    | inr (inl (_, failed, started)) ↦
        rw (started, failed) (refl, unreach-LeasableAnswered none e.pool)
    | inr (inr (log, _, answered, done)) ↦
        rw (done, answered)
          (
            refl,
            All-sort (LeasableAnswered (some log))
                (map (judge (ok_speeds [] log)) (map unreach e.pool))
                (judge-LeasableAnswered log (map unreach e.pool)),
          )
  ]
