-- ===== src/ProxyList/Urls.antt =====
-- The lists that the loaders return hold URLs only, and are read back unchanged.
use proxchunk.Prelude.{
  ℕ, ◌≡◌, refl, sym, ap, ◌∙◌, ◌≢◌, ◌⊎◌, inl, inr, true, false, Option, none, some, List, [], ◌∷◌,
  ◌++◌, append-nil, append_assoc, arith, if◌then◌else◌, Bool-cases, is_empty, All, Bytes,
  starts_with, contains_byte, contains,
}
use proxchunk.ProxyList.{
  trim, sep, is_skipped, with_scheme, normalize_proxy_line, get_lines_from, get_lines, load_lines,
  load_proxy_file, parse_lines, parse_proxy_body,
}
use proxchunk.ProxyList.Trim.{head_blank, last_blank, last_blank-append, trim_splits, trim_fixed}

-- A scheme is in it, no blank is at either end, and it is no comment.
pub record IsUrl (t : Bytes) : Type 0 where
  pub has_scheme : contains sep t ≡ true
  pub head_full : head_blank t ≡ false
  pub last_full : last_blank t ≡ false
  pub no_comment : is_skipped t ≡ false

-- What the source passes as a scheme: `http://` or `socks5h://`.
pub record IsScheme (d : Bytes) : Type 0 where
  pub has_scheme : contains sep d ≡ true
  pub head_full : head_blank d ≡ false
  pub no_comment : is_skipped d ≡ false

starts_with-append : (p s t : Bytes) → starts_with p s ≡ true → starts_with p (s ++ t) ≡ true
unfolding starts_with
starts_with-append [] s t h = refl
starts_with-append (x ∷ p) [] t h = cc
starts_with-append (x ∷ p) (c ∷ s) t h = ground (arith, starts_with-append p s t)

contains-append : (needle s t : Bytes) → contains needle s ≡ true → contains needle (s ++ t) ≡ true
unfolding contains
contains-append needle [] [] h = h
contains-append needle [] (c ∷ t) h = ground (arith, starts_with-append needle [] (c ∷ t))
contains-append needle (c ∷ s) t h =
    ground (arith, starts_with-append needle (c ∷ s) t, contains-append needle s t)

scheme-IsUrl :
    (d line : Bytes) → IsScheme d → line ≢ [] → last_blank line ≡ false → IsUrl (d ++ line)
unfolding is_skipped
scheme-IsUrl [] line v ne l = absurd (ground (arith, v.no_comment))
scheme-IsUrl (c ∷ d) line v ne l = record {
  has_scheme = contains-append sep (c ∷ d) line v.has_scheme;
  head_full = v.head_full;
  last_full = last_blank-append (c ∷ d) line ne ∙ l;
  no_comment = v.no_comment;
}

-- A line becomes the empty string or a URL.
pub normalize_proxy_line-IsUrl :
    (raw d : Bytes)
    → IsScheme d
    → (normalize_proxy_line raw d ≡ []) ⊎ IsUrl (normalize_proxy_line raw d)
unfolding normalize_proxy_line with_scheme
normalize_proxy_line-IsUrl raw d v =
    let t = trim_splits raw in
    elim (Bool-cases (is_skipped (trim raw))) [
      | inl skipped ↦ inl (rw skipped)
      | inr line ↦ rw line (with_scheme-IsUrl (trim raw) line t.5 t.6)
    ]
  where
    with_scheme-IsUrl :
        (line : Bytes)
        → is_skipped line ≡ false
        → head_blank line ≡ false
        → last_blank line ≡ false
        → (with_scheme line d ≡ []) ⊎ IsUrl (with_scheme line d)
    with_scheme-IsUrl line n h l = elim (Bool-cases (contains sep line)) [
      | inl has ↦
          rw has (inr (record { has_scheme = has; head_full = h; last_full = l; no_comment = n }))
      | inr not_has ↦ elim (Bool-cases (contains_byte b':' line)) [
        | inl colon ↦
            rw (not_has, colon) (inr (scheme-IsUrl d line v (λ e. cc (n, ap is_skipped e)) l))
        | inr bare ↦ rw (not_has, bare) (inl refl)
      ]
    ]

-- A URL is left as it is, whatever the default scheme.
pub normalize_proxy_line_fixed : (t d : Bytes) → IsUrl t → normalize_proxy_line t d ≡ t
unfolding normalize_proxy_line with_scheme
normalize_proxy_line_fixed t d u =
    rw (trim_fixed t u.head_full u.last_full, u.no_comment, u.has_scheme)

-- Normalising twice is normalising once, with whatever default scheme the second time.
normalize_proxy_line_idem :
    (raw d d' : Bytes)
    → IsScheme d
    → normalize_proxy_line (normalize_proxy_line raw d) d' ≡ normalize_proxy_line raw d
normalize_proxy_line_idem raw d d' v = elim (normalize_proxy_line-IsUrl raw d v) [
  | inl e ↦ rw e (unfold normalize_proxy_line in refl)
  | inr u ↦ normalize_proxy_line_fixed _ d' u
]

load_lines-IsUrl : (d : Bytes) (ls : List Bytes) → IsScheme d → All IsUrl (load_lines d ls)
unfolding load_lines
load_lines-IsUrl d [] v = tt
load_lines-IsUrl d (raw ∷ ls) v = elim (normalize_proxy_line-IsUrl raw d v) [
  | inl e ↦ rw e (load_lines-IsUrl d ls v)
  | inr u ↦ keep (normalize_proxy_line raw d) _ u (load_lines-IsUrl d ls v)
]
  where
    keep :
        (t : Bytes) (ts : List Bytes)
        → IsUrl t
        → All IsUrl ts
        → All IsUrl (if is_empty t then ts else t ∷ ts)
    keep [] ts u all = all
    keep (c ∷ t) ts u all = (u, all)

-- `load_proxy_file` returns URLs only, for any file and for a file that is missing.
pub load_proxy_file-IsUrl :
    (file : Option Bytes) (d : Bytes) → IsScheme d → All IsUrl (load_proxy_file file d)
unfolding load_proxy_file
load_proxy_file-IsUrl none d v = tt
load_proxy_file-IsUrl (some text) d v = load_lines-IsUrl d (get_lines text) v

is_empty-append-cons : (d : Bytes) (c : ℕ) (t : Bytes) → is_empty (d ++ c ∷ t) ≡ false
is_empty-append-cons [] c t = refl
is_empty-append-cons (x ∷ d) c t = refl

parse_lines-load_lines : (d : Bytes) (ls : List Bytes) → parse_lines d ls ≡ load_lines d ls
unfolding parse_lines load_lines normalize_proxy_line with_scheme
parse_lines-load_lines d [] = refl
parse_lines-load_lines d (raw ∷ ls) = let ih = parse_lines-load_lines d ls in step (trim raw) ih
  where
    step :
        (line : Bytes) {us vs : List Bytes}
        → us ≡ vs
        → (if is_skipped line
            then us
            else if contains sep line
            then line ∷ us
            else if contains_byte b':' line
            then (d ++ line) ∷ us
            else us)
          ≡ (let url = if is_skipped line then [] else with_scheme line d in
              if is_empty url then vs else url ∷ vs)
    step [] e = e
    step (c ∷ t) e = ground (arith, is_empty-append-cons d c t)

-- The engine's own copy of the loader, `parse_proxy_body`, agrees with `load_proxy_file` on every
-- text and for every scheme.
pub parse_proxy_body-load_proxy_file :
    (body d : Bytes) → parse_proxy_body body d ≡ load_proxy_file (some body) d
unfolding parse_proxy_body load_proxy_file
parse_proxy_body-load_proxy_file body d = parse_lines-load_lines d (get_lines body)

-- One line per URL, as a user or the program writes such a file.
abbrev lines_of : List Bytes → Bytes
lines_of [] = []
lines_of (u ∷ us) = u ++ b'\n' ∷ lines_of us

abbrev pub IsLine : Bytes → Type 0
IsLine u = contains_byte b'\n' u ≡ false

pub get_lines_from-line :
    (u cur rest : Bytes)
    → IsLine u
    → get_lines_from cur (u ++ b'\n' ∷ rest) ≡ (cur ++ u) ∷ get_lines_from [] rest
unfolding get_lines_from contains_byte
get_lines_from-line [] cur rest h =
    ap (λ (l : Bytes). l ∷ get_lines_from [] rest) (sym (append-nil cur))
get_lines_from-line (c ∷ u) cur rest h =
    ground (arith, get_lines_from-line u (cur ++ c ∷ []) rest, append_assoc cur (c ∷ []) u)

pub url_full : (u : Bytes) → IsUrl u → is_empty u ≡ false
unfolding is_skipped
url_full [] v = absurd (ground (arith, v.no_comment))
url_full (c ∷ u) v = refl

load_lines-lines_of :
    (us : List Bytes) (d : Bytes)
    → All (λ u. IsUrl u × IsLine u) us
    → load_lines d (get_lines (lines_of us)) ≡ us
unfolding load_lines
load_lines-lines_of [] d all = unfold get_lines_from in refl
load_lines-lines_of (u ∷ us) d ((v, line), all) =
    rw (get_lines_from-line u [] (lines_of us) line, normalize_proxy_line_fixed u d v, url_full u v)
      (ap (◌∷◌ u) (load_lines-lines_of us d all))

-- A list of URLs written one per line is read back as it was.
load_proxy_file-lines_of :
    (us : List Bytes) (d : Bytes)
    → All (λ u. IsUrl u × IsLine u) us
    → load_proxy_file (some (lines_of us)) d ≡ us
unfolding load_proxy_file
load_proxy_file-lines_of us d all = load_lines-lines_of us d all
