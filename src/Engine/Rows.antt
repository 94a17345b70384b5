-- ===== src/Engine/Rows.antt =====
-- The rows of the pool: struct Proxy of include/proxchunk/proxy_engine.hpp, its order, and counts.
use proxchunk.Prelude.{
  ℕ, ◌+◌, ◌≤◌, ◌≡◌, refl, Bool, true, false, ◌&&◌, List, [], ◌∷◌, ◌++◌, arith, if◌then◌else◌,
  length, All, Bytes, bytes_eq,
}

-- What the source does with doubles. `lit m k` is the literal m / 10^k.
pub record Floats (D : Type 0) : Type 0 where
  pub gtb : D → D → Bool
  pub add : D → D → D
  pub mul : D → D → D
  pub div : D → D → D
  pub lit : ℕ → ℕ → D
  pub of_nat : ℕ → D
  pub to_nat : D → ℕ

-- `>` on doubles that are no NaN.
pub record IsOrdered {D : Type 0} (F : Floats D) : Type 0 where
  pub asym : (a b : D) → F.gtb a b ≡ true → F.gtb b a ≡ false
  pub trans : (a b c : D) → F.gtb a b ≡ false → F.gtb b c ≡ false → F.gtb a c ≡ false

pub record Proxy (D : Type 0) : Type 0 where
  pub address : Bytes
  pub speed_mbps : D
  pub latency_ms : ℕ
  pub fails : ℕ
  pub alive : Bool
  pub busy : Bool
  pub target_ok : Bool

module _ {D : Type 0} ⦃F : Floats D⦄ where
  -- `operator>`
  abbrev pub is_faster : Proxy D → Proxy D → Bool
  is_faster p o = F.gtb p.speed_mbps o.speed_mbps

  unfoldable pub insert_row : Proxy D → List (Proxy D) → List (Proxy D)
  insert_row p [] = p ∷ []
  insert_row p (q ∷ qs) =
      let later = q ∷ insert_row p qs in if is_faster q p then later else p ∷ q ∷ qs

  -- `std::sort(first, last, std::greater<>{})`: fastest first. Of rows with equal speed the
  -- library may put any first; here they keep their order.
  unfoldable pub sort : List (Proxy D) → List (Proxy D)
  unfolding insert_row
  sort [] = []
  sort (p ∷ ps) = insert_row p (sort ps)

module _ {ℓ} {A : Type ℓ} where
  -- How many elements pass a test.
  abbrev pub count : (A → Bool) → List A → ℕ
  count f [] = 0
  count f (x ∷ xs) = (if f x then 1 else 0) + count f xs

  pub count-append : (f : A → Bool) (xs ys : List A) → count f (xs ++ ys) ≡ count f xs + count f ys
  count-append f [] ys = omega arith
  count-append f (x ∷ xs) ys = omega (arith, count-append f xs ys)

  count-le-length : (f : A → Bool) (xs : List A) → count f xs ≤ length xs
  count-le-length f [] = omega arith
  count-le-length f (x ∷ xs) = ground (arith, count-le-length f xs)

module _ {D : Type 0} where
  -- Rows with a given address, and those of them that are leased.
  abbrev pub has_address : Bytes → Proxy D → Bool
  has_address a p = bytes_eq p.address a

  abbrev pub busy_at : Bytes → Proxy D → Bool
  busy_at a p = p.busy && bytes_eq p.address a

  abbrev pub is_busy : Proxy D → Bool
  is_busy p = p.busy

  -- No two rows have one address.
  abbrev pub HasDistinctRows : List (Proxy D) → Type 0
  HasDistinctRows ps = (a : Bytes) → count (has_address a) ps ≤ 1

  pub busy_at-le :
      (a : Bytes) (ps : List (Proxy D)) → count (busy_at a) ps ≤ count (has_address a) ps
  busy_at-le a [] = omega arith
  busy_at-le a (p ∷ ps) = ground (arith, busy_at-le a ps)

module _ {D : Type 0} ⦃F : Floats D⦄ where
  count-insert_row :
      (f : Proxy D → Bool) (p : Proxy D) (ps : List (Proxy D))
      → count f (insert_row p ps) ≡ (if f p then 1 else 0) + count f ps
  unfolding insert_row
  count-insert_row f p [] = refl
  count-insert_row f p (q ∷ qs) = ground (arith, count-insert_row f p qs)

  -- Sorting keeps every row, as often as it was there.
  pub count-sort : (f : Proxy D → Bool) (ps : List (Proxy D)) → count f (sort ps) ≡ count f ps
  unfolding sort
  count-sort f [] = refl
  count-sort f (p ∷ ps) = omega (arith, count-insert_row f p (sort ps), count-sort f ps)

  -- No row is faster than one before it.
  abbrev pub IsSorted : List (Proxy D) → Type 0
  IsSorted [] = Unit {0}
  IsSorted (p ∷ ps) = All (λ q. is_faster q p ≡ false) ps × IsSorted ps
