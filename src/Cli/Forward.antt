-- ===== src/Cli/Forward.antt =====
-- The options that proxchunk hands to a daemon it starts mean there what they mean here.
use proxchunk.Prelude.{
  ◌≡◌, refl, sym, ap, ◌∙◌, Bool, true, false, not, Option, none, some, List, [], ◌∷◌, ◌++◌,
  append-nil, append_assoc, if◌then◌else◌, All, ℤ, pos, negsuc, Bytes, codes, bytes_eq,
  strtol-decimal,
}
use proxchunk.ProxyList.Urls.{IsUrl, normalize_proxy_line_fixed, url_full}
use proxchunk.Daemon.Args.{
  select, Options, default_options, Outcome, proceeds, push_full, daemon_option, parse_from,
  below_one, is_negative,
}
use proxchunk.Cli.{Settings, to_string, push_each, push_if, absolutes, daemon_extra, spawn_args}
use proxchunk.Cli.Accepted.{IsAccepted}

abbrev parse_rest : Options → List Bytes → Outcome Options
parse_rest = parse_from daemon_option none

-- Each option that is handed on, in front of the rest.
parse-proxies :
    (given : Bool) (n : ℤ) (o : Options) (rest : List Bytes)
    → is_negative n ≡ false
    → (given ≡ false → o.max_proxies ≡ n)
    → parse_rest o (push_if given (codes "-p" ∷ to_string n ∷ []) ++ rest)
      ≡ parse_rest (record o { max_proxies = n }) rest
unfolding parse_from daemon_option select bytes_eq
parse-proxies false n o rest h k = ap (λ m. parse_rest (record o { max_proxies = m }) rest) (k refl)
parse-proxies true (pos n) o rest h k =
    ap (λ t. parse_rest (record o { max_proxies = elim t [ none ↦ pos 0 | some m ↦ m ] }) rest)
      (strtol-decimal n)
parse-proxies true (negsuc n) o rest h k = cc

parse-refresh :
    (given : Bool) (n : ℤ) (o : Options) (rest : List Bytes)
    → is_negative n ≡ false
    → parse_rest o (push_if given (codes "-r" ∷ to_string n ∷ []) ++ rest)
      ≡ parse_rest (record o { refresh_sec = if given then n else o.refresh_sec }) rest
unfolding parse_from daemon_option select bytes_eq
parse-refresh false n o rest h = refl
parse-refresh true (pos n) o rest h =
    ap (λ t. parse_rest (record o { refresh_sec = elim t [ none ↦ pos 0 | some m ↦ m ] }) rest)
      (strtol-decimal n)
parse-refresh true (negsuc n) o rest h = cc

parse-no_cache :
    (kept : Bool) (o : Options) (rest : List Bytes)
    → o.use_cache ≡ true
    → parse_rest o (push_if (not kept) (codes "--no-cache" ∷ []) ++ rest)
      ≡ parse_rest (record o { use_cache = kept }) rest
unfolding parse_from daemon_option select bytes_eq
parse-no_cache false o rest h = refl
parse-no_cache true o rest h = ap (λ t. parse_rest (record o { use_cache = t }) rest) h

parse-no_tor :
    (kept : Bool) (o : Options) (rest : List Bytes)
    → o.use_tor ≡ true
    → parse_rest o (push_if (not kept) (codes "--no-tor" ∷ []) ++ rest)
      ≡ parse_rest (record o { use_tor = kept }) rest
unfolding parse_from daemon_option select bytes_eq
parse-no_tor false o rest h = refl
parse-no_tor true o rest h = ap (λ t. parse_rest (record o { use_tor = t }) rest) h

parse-no_user :
    (kept : Bool) (o : Options) (rest : List Bytes)
    → o.use_user_list ≡ true
    → parse_rest o (push_if (not kept) (codes "--no-user-proxies" ∷ []) ++ rest)
      ≡ parse_rest (record o { use_user_list = kept }) rest
unfolding parse_from daemon_option select bytes_eq
parse-no_user false o rest h = refl
parse-no_user true o rest h = ap (λ t. parse_rest (record o { use_user_list = t }) rest) h

push_full-url : (u : Bytes) (us : List Bytes) → IsUrl u → push_full u us ≡ us ++ u ∷ []
push_full-url u us h = rw (url_full u h) refl

parse-socks :
    (us : List Bytes) (o : Options) (rest : List Bytes)
    → All IsUrl us
    → parse_rest o (push_each "--socks" us ++ rest)
      ≡ parse_rest (record o { extra_proxies = o.extra_proxies ++ us }) rest
unfolding parse_from daemon_option select bytes_eq
parse-socks [] o rest all = rw (append-nil o.extra_proxies) refl
parse-socks (u ∷ us) o rest (h, all) =
    let with : List Bytes → Outcome Options =
      λ t. parse_rest (record o { extra_proxies = t }) (push_each "--socks" us ++ rest) in
    ap (λ t. with (push_full t o.extra_proxies)) (normalize_proxy_line_fixed u (codes "http://") h)
    ∙ ap with (push_full-url u o.extra_proxies h)
    ∙ parse-socks us (record o { extra_proxies = o.extra_proxies ++ u ∷ [] }) rest all
    ∙ ap (λ t. parse_rest (record o { extra_proxies = t }) rest)
        (append_assoc o.extra_proxies (u ∷ []) us)

parse-files :
    (fs : List Bytes) (o : Options)
    → parse_rest o (push_each "--proxy-file" fs)
      ≡ proceeds (record o { proxy_files = o.proxy_files ++ fs })
unfolding parse_from daemon_option select bytes_eq
parse-files [] o = rw (append-nil o.proxy_files) refl
parse-files (f ∷ fs) o =
    parse-files fs (record o { proxy_files = o.proxy_files ++ f ∷ [] })
    ∙ ap (λ t. proceeds (record o { proxy_files = t })) (append_assoc o.proxy_files (f ∷ []) fs)

-- What the daemon is to run with.
abbrev pub forwarded : Bytes → (Bytes → Option Bytes) → Bytes → Settings → Options
forwarded url absolute socket s = record (default_options url) {
  socket_path = socket;
  max_proxies = s.max_proxies;
  refresh_sec = if s.refresh_set then s.refresh_sec else pos 180;
  use_cache = s.use_cache;
  use_tor = s.use_tor;
  use_user_list = s.use_user_list;
  extra_proxies = s.extra_proxies;
  proxy_files = absolutes absolute s.proxy_files;
}

pub parse-spawn_args :
    (url : Bytes) (absolute : Bytes → Option Bytes) (socket : Bytes) (s : Settings)
    → IsAccepted s
    → parse_rest (default_options url) (spawn_args absolute socket s)
      ≡ proceeds (forwarded url absolute socket s)
unfolding parse_from daemon_option select bytes_eq daemon_extra
parse-spawn_args url absolute socket s h =
    parse-proxies s.max_proxies_set s.max_proxies
      (record (default_options url) { socket_path = socket }) _
      (not_below s.max_proxies h.some_proxies) (λ unset. sym (h.parsed.0 unset))
    ∙ parse-refresh s.refresh_set s.refresh_sec _ _ h.some_refresh
    ∙ parse-no_cache s.use_cache _ _ refl
    ∙ parse-no_tor s.use_tor _ _ refl
    ∙ parse-no_user s.use_user_list _ _ refl
    ∙ parse-socks s.extra_proxies _ _ h.parsed.2
    ∙ parse-files (absolutes absolute s.proxy_files) _
  where
    not_below : (n : ℤ) → below_one n ≡ false → is_negative n ≡ false
    not_below (pos n) h = refl
    not_below (negsuc n) h = cc
