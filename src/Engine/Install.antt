-- ===== src/Engine/Install.antt =====
-- install_tested: new rows take over the pool, and no lease is lost on the way.
pub mod Carry
pub mod Distinct
pub mod Leases
use proxchunk.Prelude.{
  ℕ, Bool, true, false, not, ◌&&◌, ◌||◌, Option, none, some, List, [], ◌∷◌, ◌++◌, ltb,
  if◌then◌else◌, length, Bytes, bytes_eq,
}
use proxchunk.Engine.Rows.{Floats, Proxy, sort}
use proxchunk.Engine.{Engine}

module _ {D : Type 0} where
  pub has_row : Bytes → List (Proxy D) → Bool
  has_row a [] = false
  has_row a (p ∷ ps) = bytes_eq p.address a || has_row a ps

  -- The map `old_busy`, as a list without two rows of one address: `emplace` keeps the row that is
  -- there. The source's map has no order; its rows are sorted below.
  pub old_busy_from : List (Proxy D) → List (Proxy D) → List (Proxy D)
  unfolding has_row
  old_busy_from old [] = old
  old_busy_from old (p ∷ ps) =
      old_busy_from (if p.busy && not (has_row p.address old) then old ++ p ∷ [] else old) ps

  -- `find` and `erase`: the row with this address, and the rest.
  pub take_row : Bytes → List (Proxy D) → Option (Proxy D) × List (Proxy D)
  take_row a [] = (none, [])
  take_row a (p ∷ ps) =
      let found = take_row a ps in
      if bytes_eq p.address a then (some p, ps) else (found.0, p ∷ found.1)

  abbrev pub carry : Proxy D → Option (Proxy D) → Proxy D
  carry t none = t
  carry t (some old) = record t { busy = true; fails = old.fails }

  -- The loop over the tested rows, with the old rows that no tested row took over behind them.
  pub carry_over : List (Proxy D) → List (Proxy D) → List (Proxy D)
  unfolding take_row
  carry_over [] old = old
  carry_over (t ∷ ts) old =
      let found = take_row t.address old in carry t found.0 ∷ carry_over ts found.1

  pub busy_rows : List (Proxy D) → List (Proxy D)
  busy_rows [] = []
  busy_rows (t ∷ ts) = if t.busy then t ∷ busy_rows ts else busy_rows ts

  -- The second loop over `tested`: rows that are not taken, while there is room.
  pub fill : ℕ → List (Proxy D) → List (Proxy D) → List (Proxy D)
  fill max_keep kept [] = kept
  fill max_keep kept (t ∷ ts) =
      let next = fill max_keep (if t.busy then kept else kept ++ t ∷ []) ts in
      if ltb (length kept) max_keep then next else kept

module _ {D : Type 0} ⦃F : Floats D⦄ where
  unfoldable pub install_tested : Engine D → List (Proxy D) → Engine D
  unfolding old_busy_from carry_over busy_rows fill
  install_tested e tested =
      let all = sort (carry_over tested (old_busy_from [] e.pool)) in
      record e { pool = sort (fill e.max_keep (busy_rows all) all) }
