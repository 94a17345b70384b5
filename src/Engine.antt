-- ===== src/Engine.antt =====
-- The proxy pool of src/proxy_engine.cpp: leases, the install of tested rows, and counts.
-- Each method holds the engine's mutex for its whole body, so it is one function of the state.
pub mod Rows
pub mod Acquire
pub mod Cache
pub mod Candidates
pub mod Install
pub mod Order
pub mod Refresh
pub mod Release
pub mod Scoring
pub mod Sample
pub mod Target
mod Tests
use proxchunk.Prelude.{
  ℕ, ◌+◌, Bool, true, false, not, ◌&&◌, ◌||◌, Option, none, some, List, [], ◌∷◌, leb, if◌then◌else◌,
  Bytes, bytes_eq,
}
use Rows.{Floats, Proxy, sort, count, is_busy}

pub record Engine (D : Type 0) : Type 0 where
  pub max_keep : ℕ
  pub pool : List (Proxy D)
  pub target_url : Bytes
  pub target_filter : Bool

pub is_listed : Bytes → List Bytes → Bool
is_listed a [] = false
is_listed a (s ∷ skip) = bytes_eq s a || is_listed a skip

abbrev pub or_else {ℓ} : {A : Type ℓ} → Option A → Option A → Option A
or_else none b = b
or_else (some a) b = some a

module _ {D : Type 0} where
  -- A row that `acquire` does not pass over for its state.
  pub is_free : Bool → Proxy D → Bool
  is_free target_filter p =
      not (not p.alive || p.busy || leb 4 p.fails) && not (target_filter && not p.target_ok)

  abbrev pub lease : Proxy D → Proxy D
  lease p = record p { busy = true }

  abbrev pub behind :
      Proxy D → Option (Proxy D × List (Proxy D)) → Option (Proxy D × List (Proxy D))
  behind p none = none
  behind p (some (q, qs)) = some (q, p ∷ qs)

  -- The lambda `pick`: the leased row, and the pool with it.
  unfoldable pub pick :
      Bool → Bool → List Bytes → List (Proxy D) → Option (Proxy D × List (Proxy D))
  unfolding is_free is_listed
  pick target_filter honor_skip skip [] = none
  pick target_filter honor_skip skip (p ∷ ps) =
      let later = behind p (pick target_filter honor_skip skip ps) in
      if not (is_free target_filter p)
      then later
      else if honor_skip && is_listed p.address skip
      then later
      else some (lease p, lease p ∷ ps)

  abbrev pub with_pool : Engine D → Option (Proxy D × List (Proxy D)) → Option (Proxy D) × Engine D
  with_pool e none = (none, e)
  with_pool e (some (p, pool)) = (some p, record e { pool = pool })

  unfoldable pub acquire : Engine D → List Bytes → Option (Proxy D) × Engine D
  acquire e skip =
      with_pool e
        (or_else (pick e.target_filter true skip e.pool) (pick e.target_filter false skip e.pool))

  unfoldable pub live : Engine D → ℕ
  live e = count (λ p. p.alive && (not e.target_filter || p.target_ok)) e.pool

  unfoldable pub busy : Engine D → ℕ
  busy e = count is_busy e.pool

module _ {D : Type 0} ⦃F : Floats D⦄ where
  unfoldable pub top_mbps : Engine D → D
  top_mbps e = elim e.pool [ [] ↦ F.lit 0 1 | p ∷ _ ↦ p.speed_mbps ]

  -- The body of the loop of `release`, at the row that is found.
  pub release_row : Bool → D → Proxy D → Proxy D
  release_row true mbps p =
      let speed = F.add (F.mul p.speed_mbps (F.lit 7 1)) (F.mul mbps (F.lit 3 1)) in
      record p {
        busy = false;
        fails = 0;
        speed_mbps = if F.gtb mbps (F.lit 0 1) then speed else p.speed_mbps;
        alive = true;
      }
  release_row false mbps p = record p {
    busy = false;
    fails = p.fails + 1;
    speed_mbps = F.mul p.speed_mbps (F.lit 25 2);
    alive = if leb 4 (p.fails + 1) then false else p.alive;
  }

  -- The first row with this address is updated, and erased if it is dead and free.
  pub release_rows : Bytes → Bool → D → List (Proxy D) → List (Proxy D)
  release_rows url success mbps [] = []
  release_rows url success mbps (p ∷ ps) =
      let q = release_row success mbps p in
      let later = release_rows url success mbps ps in
      if not (bytes_eq p.address url)
      then p ∷ later
      else if not q.alive && not q.busy
      then ps
      else q ∷ ps

  pub release : Engine D → Bytes → Bool → D → Engine D
  release e url success mbps = record e { pool = sort (release_rows url success mbps e.pool) }
