-- ===== src/Engine/Cache.antt =====
-- save_cache and load_cache of src/proxy_engine.cpp: the file of scored proxies.
pub mod Saved
use proxchunk.Prelude.{
  Bool, true, not, ◌||◌, Option, none, some, List, [], ◌∷◌, ◌++◌, ◌==◌, if◌then◌else◌, is_empty,
  Bytes, codes, contains_byte, contains,
}
use proxchunk.ProxyList.{trim, sep, get_lines, get_lines_from}
use proxchunk.Engine.Rows.{Proxy}
use proxchunk.Engine.Candidates.{ProxyEngineConfig}

-- `line.substr(0, line.find(' '))`, or the whole line.
pub before_space : Bytes → Bytes
before_space [] = []
before_space (c ∷ s) = let rest = before_space s in if c == b' ' then [] else c ∷ rest

-- `line.empty() || line[0] == '#'`
unfoldable pub is_no_row : Bytes → Bool
is_no_row [] = true
is_no_row (c ∷ s) = c == b'#'

-- The loop of load_cache.
pub load_rows : List Bytes → List Bytes
unfolding trim is_no_row before_space
load_rows [] = []
load_rows (raw ∷ rest) =
    let line = trim raw in
    let address = before_space line in
    let out = load_rows rest in
    if is_no_row line
    then out
    else if contains sep address
    then address ∷ out
    else if not (contains_byte b':' address)
    then out
    else (codes "http://" ++ address) ∷ out

-- The file's contents, or `none` where it cannot be opened.
unfoldable pub load_cache : Option Bytes → List Bytes
unfolding load_rows get_lines_from
load_cache none = []
load_cache (some text) = load_rows (get_lines text)

module _ {D : Type 0} where
  -- The loop of save_cache; `show` is what `<<` makes of a double.
  pub rows_text : (D → Bytes) → List (Proxy D) → Bytes
  rows_text show [] = []
  rows_text show (p ∷ ps) =
      let rest = rows_text show ps in
      if not p.alive then rest else p.address ++ b' ' ∷ (show p.speed_mbps ++ b'\n' ∷ rest)

  abbrev cache_text : (D → Bytes) → List (Proxy D) → Bytes
  cache_text show pool = codes "# proxchunk proxy cache" ++ b'\n' ∷ rows_text show pool

  -- The file afterwards, for the file before; `can_write` where the stream opens.
  unfoldable pub save_cache :
      ProxyEngineConfig → (D → Bytes) → List (Proxy D) → Bool → Option Bytes → Option Bytes
  unfolding rows_text
  save_cache cfg show pool can_write file =
      if not cfg.use_cache || is_empty cfg.cache_path
      then file
      else if is_empty pool
      then file
      else if not can_write
      then file
      else some (cache_text show pool)
