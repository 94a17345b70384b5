-- ===== src/Engine/Cache/Saved.antt =====
-- The cache is read back as it was written.
use proxchunk.Prelude.{
  ℕ, ◌≡◌, refl, sym, ap, ◌∙◌, ◌≢◌, inl, inr, true, false, ◌||◌, Option, List, [], ◌∷◌, ◌++◌,
  append_assoc, arith, Bool-cases, is_empty, All, Bytes, codes, contains_byte, contains,
}
use proxchunk.ProxyList.{trim, sep, get_lines, get_lines_from}
use proxchunk.ProxyList.Trim.{head_blank, last_blank, last_blank-append, trim_fixed}
use proxchunk.ProxyList.Urls.{IsLine, get_lines_from-line}
use proxchunk.Engine.Rows.{Proxy}
use proxchunk.Engine.Target.{alive_addresses}
use proxchunk.Engine.Candidates.{ProxyEngineConfig}
use proxchunk.Engine.Cache.{before_space, is_no_row, load_rows, load_cache, rows_text, save_cache}

-- An address of the pool: it has a scheme, does not begin with a blank or `#`, and has no space
-- and no newline.
pub record IsAddress (a : Bytes) : Type 0 where
  pub has_scheme : contains sep a ≡ true
  pub head_full : head_blank a ≡ false
  pub is_row : is_no_row a ≡ false
  pub no_space : contains_byte b' ' a ≡ false
  pub one_line : IsLine a

-- A speed as `<<` writes it: not empty, with no blank at its end, and on one line.
pub record IsNumeral (s : Bytes) : Type 0 where
  pub full : s ≢ []
  pub last_full : last_blank s ≡ false
  pub one_line : IsLine s

before_space_lem : (a s : Bytes) → contains_byte b' ' a ≡ false → before_space (a ++ b' ' ∷ s) ≡ a
unfolding before_space contains_byte
before_space_lem [] s h = refl
before_space_lem (c ∷ a) s h = ground (arith, before_space_lem a s)

contains_byte-append :
    (b : ℕ) (s t : Bytes) → contains_byte b (s ++ t) ≡ contains_byte b s || contains_byte b t
unfolding contains_byte
contains_byte-append b [] t = refl
contains_byte-append b (c ∷ s) t = ground (arith, contains_byte-append b s t)

row_line : (a s : Bytes) → IsAddress a → IsNumeral s → trim (a ++ b' ' ∷ s) ≡ a ++ b' ' ∷ s
row_line a s h k = trim_fixed (a ++ b' ' ∷ s) (front a h) back
  where
    front : (a : Bytes) → IsAddress a → head_blank (a ++ b' ' ∷ s) ≡ false
    front [] h = absurd (unfold is_no_row in cc (h.is_row))
    front (c ∷ a) h = h.head_full

    back : last_blank (a ++ b' ' ∷ s) ≡ false
    back =
        last_blank-append a (b' ' ∷ s) (λ e. cc e)
        ∙ last_blank-append (b' ' ∷ []) s k.full
        ∙ k.last_full

row_kept : (a s : Bytes) → IsAddress a → is_no_row (a ++ b' ' ∷ s) ≡ false
unfolding is_no_row
row_kept [] s h = absurd (cc h.is_row)
row_kept (c ∷ a) s h = h.is_row

load_rows-row :
    (a s : Bytes) (rest : List Bytes)
    → IsAddress a
    → IsNumeral s
    → load_rows ((a ++ b' ' ∷ s) ∷ rest) ≡ a ∷ load_rows rest
unfolding load_rows
load_rows-row a s rest h k =
    rw (row_line a s h k, before_space_lem a s h.no_space, row_kept a s h, h.has_scheme) refl

row_text-IsLine : (a s : Bytes) → IsAddress a → IsNumeral s → IsLine (a ++ b' ' ∷ s)
row_text-IsLine a s h k =
    contains_byte-append b'\n' a (b' ' ∷ s) ∙ rw h.one_line (unfold contains_byte in k.one_line)

abbrev header : Bytes
header = codes "# proxchunk proxy cache"

load_rows-header : (rest : List Bytes) → load_rows (header ∷ rest) ≡ load_rows rest
unfolding load_rows trim is_no_row
load_rows-header rest = refl

module _ {D : Type 0} (show : D → Bytes) where
  load_rows-rows_text :
      (ps : List (Proxy D))
      → All (λ p. IsAddress p.address × IsNumeral (show p.speed_mbps)) ps
      → load_rows (get_lines (rows_text show ps)) ≡ alive_addresses ps
  unfolding rows_text alive_addresses
  load_rows-rows_text [] all = unfold get_lines_from load_rows in refl
  load_rows-rows_text (p ∷ ps) ((h, k), all) = elim (Bool-cases p.alive) [
    | inr dead ↦ rw dead (load_rows-rows_text ps all)
    | inl alive ↦ rw alive (
        ap (λ t. load_rows (get_lines t))
          (sym (append_assoc p.address (b' ' ∷ show p.speed_mbps) (b'\n' ∷ rows_text show ps)))
        ∙ ap load_rows (
            get_lines_from-line (p.address ++ b' ' ∷ show p.speed_mbps) [] (rows_text show ps)
              (row_text-IsLine p.address (show p.speed_mbps) h k))
        ∙ load_rows-row p.address (show p.speed_mbps) _ h k
        ∙ ap (◌∷◌ p.address) (load_rows-rows_text ps all))
  ]

  -- A pool that is saved to the cache is read back: load_cache returns the addresses of its alive
  -- rows, in their order.
  pub load_cache-save_cache :
      (cfg : ProxyEngineConfig) (pool : List (Proxy D)) (file : Option Bytes)
      → cfg.use_cache ≡ true
      → is_empty cfg.cache_path ≡ false
      → is_empty pool ≡ false
      → All (λ p. IsAddress p.address × IsNumeral (show p.speed_mbps)) pool
      → load_cache (save_cache cfg show pool true file) ≡ alive_addresses pool
  unfolding save_cache load_cache
  load_cache-save_cache cfg pool file used named full all =
      rw (used, named, full)
        (ap load_rows
            (get_lines_from-line header [] (rows_text show pool) (unfold contains_byte in refl))
          ∙ load_rows-header (get_lines (rows_text show pool))
          ∙ load_rows-rows_text pool all)
