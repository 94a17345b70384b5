-- ===== src/Engine/Candidates/Distinct.antt =====
-- The public candidates are each there once.
use proxchunk.Prelude.{
  ◌+◌, ◌≤◌, min, ◌≡◌, refl, ap, ◌∙◌, subst, inl, inr, true, false, List, [], ◌∷◌, arith,
  if◌then◌else◌, Bool-cases, All, Bytes, bytes_eq, bytes_eq_iff,
}
use proxchunk.Engine.Rows.{count-append}
use proxchunk.Engine.Scoring.Counts.{times}
use proxchunk.Engine.Candidates.{
  ProxyEngineConfig, local_proxy_urls, fetch_all_lists, bytes_ltb, insert_name, sort_names, unique,
  all_candidates,
}

bytes_ltb_trans :
    (a b c : Bytes) → bytes_ltb b a ≡ false → bytes_ltb c b ≡ false → bytes_ltb c a ≡ false
unfolding bytes_ltb
bytes_ltb_trans [] b [] h k = refl
bytes_ltb_trans [] b (z ∷ c) h k = refl
bytes_ltb_trans (x ∷ a) [] c h k = cc
bytes_ltb_trans (x ∷ a) (y ∷ b) [] h k = cc
bytes_ltb_trans (x ∷ a) (y ∷ b) (z ∷ c) h k = ground (arith, bytes_ltb_trans a b c)

bytes_ltb_asym : (a b : Bytes) → bytes_ltb a b ≡ true → bytes_ltb b a ≡ false
unfolding bytes_ltb
bytes_ltb_asym [] [] h = refl
bytes_ltb_asym [] (y ∷ b) h = refl
bytes_ltb_asym (x ∷ a) [] h = cc
bytes_ltb_asym (x ∷ a) (y ∷ b) h = ground (arith, bytes_ltb_asym a b)

bytes_ltb_antisym : (a b : Bytes) → bytes_ltb a b ≡ false → bytes_ltb b a ≡ false → a ≡ b
unfolding bytes_ltb
bytes_ltb_antisym [] [] h k = refl
bytes_ltb_antisym [] (y ∷ b) h k = cc
bytes_ltb_antisym (x ∷ a) [] h k = cc
bytes_ltb_antisym (x ∷ a) (y ∷ b) h k = ground (arith, bytes_ltb_antisym a b)

-- No string is less than one before it.
abbrev IsSortedNames : List Bytes → Type 0
IsSortedNames [] = Unit {0}
IsSortedNames (a ∷ bs) = All (λ b. bytes_ltb b a ≡ false) bs × IsSortedNames bs

above :
    (a b : Bytes) (bs : List Bytes)
    → bytes_ltb b a ≡ false
    → All (λ c. bytes_ltb c b ≡ false) bs
    → All (λ c. bytes_ltb c a ≡ false) bs
above a b [] h all = tt
above a b (c ∷ bs) h all = (bytes_ltb_trans a b c h all.0, above a b bs h all.1)

All-insert_name :
    (P : Bytes → Type 0) (a : Bytes) (bs : List Bytes) → P a → All P bs → All P (insert_name a bs)
unfolding insert_name
All-insert_name P a [] h all = (h, tt)
All-insert_name P a (b ∷ bs) h all = elim (Bool-cases (bytes_ltb b a)) [
  | inl less ↦ rw less (all.0, All-insert_name P a bs h all.1)
  | inr more ↦ rw more (h, all)
]

insert_name-IsSortedNames :
    (a : Bytes) (bs : List Bytes) → IsSortedNames bs → IsSortedNames (insert_name a bs)
unfolding insert_name
insert_name-IsSortedNames a [] s = (tt, tt)
insert_name-IsSortedNames a (b ∷ bs) s = elim (Bool-cases (bytes_ltb b a)) [
  | inl less ↦ rw less (
    All-insert_name (λ c. bytes_ltb c b ≡ false) a bs (bytes_ltb_asym b a less) s.0,
    insert_name-IsSortedNames a bs s.1,
  )
  | inr more ↦ rw more ((more, above a b bs more s.0), s)
]

sort_names-IsSortedNames : (bs : List Bytes) → IsSortedNames (sort_names bs)
unfolding sort_names
sort_names-IsSortedNames [] = tt
sort_names-IsSortedNames (a ∷ bs) =
    insert_name-IsSortedNames a (sort_names bs) (sort_names-IsSortedNames bs)

times-insert_name :
    (c a : Bytes) (bs : List Bytes)
    → times c (insert_name a bs) ≡ (if bytes_eq a c then 1 else 0) + times c bs
unfolding insert_name
times-insert_name c a [] = refl
times-insert_name c a (b ∷ bs) = ground (arith, times-insert_name c a bs)

times-sort_names : (c : Bytes) (bs : List Bytes) → times c (sort_names bs) ≡ times c bs
unfolding sort_names
times-sort_names c [] = refl
times-sort_names c (a ∷ bs) =
    omega (arith, times-insert_name c a (sort_names bs), times-sort_names c bs)

unique-le : (c : Bytes) (bs : List Bytes) → times c (unique bs) ≤ times c bs
unfolding unique
unique-le c [] = omega arith
unique-le c (a ∷ []) = omega arith
unique-le c (a ∷ b ∷ bs) = ground (arith, unique-le c (b ∷ bs))

-- What is greater than a neighbour is not met again.
gone :
    (a b : Bytes) (bs : List Bytes)
    → bytes_ltb b a ≡ false
    → bytes_eq a b ≡ false
    → All (λ c. bytes_ltb c b ≡ false) bs
    → times a bs ≡ 0
gone a b [] h n all = refl
gone a b (c ∷ bs) h n all = elim (Bool-cases (bytes_eq c a)) [
  | inl same ↦ absurd (again ((bytes_eq_iff c a).0 same) all.0)
  | inr other ↦ ground (arith, gone a b bs h n all.1)
]
  where
    again : c ≡ a → bytes_ltb c b ≡ false → ⊥
    again e k =
        cc (
          n,
          (bytes_eq_iff a b).1 (bytes_ltb_antisym a b (subst (λ t. bytes_ltb t b ≡ false) e k) h),
        )

-- A string that is there stays, once.
unique_lem :
    (c : Bytes) (bs : List Bytes) → IsSortedNames bs → times c (unique bs) ≡ min 1 (times c bs)
unfolding unique
unique_lem c [] s = refl
unique_lem c (a ∷ []) s = ground arith
unique_lem c (a ∷ b ∷ bs) s =
    let ih = unique_lem c (b ∷ bs) s.1 in
    elim (Bool-cases (bytes_eq a b)) [
      | inl same ↦ ground (arith, ih, same, bytes_eq_iff a b, bytes_eq_iff a c, bytes_eq_iff b c)
      | inr other ↦ elim (Bool-cases (bytes_eq a c)) [
        | inr apart ↦ rw (other, apart) (omega (arith, ih))
        | inl first ↦
            let none_left =
              subst (λ t. times t bs ≡ 0) ((bytes_eq_iff a c).0 first)
                (gone a b bs s.0.0 other s.1.0) in
            ground (
              arith,
              ih,
              other,
              first,
              none_left,
              bytes_eq_iff a c,
              bytes_eq_iff b c,
              bytes_eq_iff a b,
            )
      ]
    ]

-- The public part of the candidates has every string that the lists have, once, and nothing else.
public_candidates :
    (bs : List Bytes) (c : Bytes) → times c (unique (sort_names bs)) ≡ min 1 (times c bs)
public_candidates bs c =
    unique_lem c (sort_names bs) (sort_names-IsSortedNames bs) ∙ ap (min 1) (times-sort_names c bs)

-- What `std::shuffle` does with a list: each string is there as often as before.
abbrev pub IsShuffle : (List Bytes → List Bytes) → Type 0
IsShuffle shuffle = (bs : List Bytes) (c : Bytes) → times c (shuffle bs) ≡ times c bs

-- The candidates of a refresh: the local ones as often as they are given, and beside them each
-- string of the public lists once, or none where they are not fetched.
pub all_candidates_lem :
    (cfg : ProxyEngineConfig) (body : Bytes → Bytes) (shuffle : List Bytes → List Bytes) (c : Bytes)
    → IsShuffle shuffle
    → times c (all_candidates cfg body shuffle)
      ≡ times c (local_proxy_urls cfg)
        + (if cfg.fetch_public then min 1 (times c (fetch_all_lists body)) else 0)
unfolding all_candidates
all_candidates_lem cfg body shuffle c shuffled =
    let public = unique (sort_names (fetch_all_lists body)) in
    count-append (λ b. bytes_eq b c) (local_proxy_urls cfg)
      (if cfg.fetch_public then shuffle public else [])
    ∙ ap (◌+◌ (times c (local_proxy_urls cfg))) (elim (Bool-cases cfg.fetch_public) [
      | inl fetched ↦ rw fetched (shuffled public c ∙ public_candidates (fetch_all_lists body) c)
      | inr not_fetched ↦ rw not_fetched refl
    ])
