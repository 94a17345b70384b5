-- ===== src/Cli/Started.antt =====
-- A daemon that proxchunk starts goes on with the settings of its command line.
use proxchunk.Prelude.{
  decimal_from-IsDigit, ℕ, suc, String, ◌≡◌, refl, ap, inl, inr, Bool, true, false, not, ◌||◌,
  Option, List, [], ◌∷◌, ◌++◌, arith, if◌then◌else◌, Bool-cases, All, ℤ, pos, negsuc, Bytes, codes,
  bytes_eq, bytes_eq_iff, contains, decimal, IsDigit,
}
use proxchunk.ProxyList.{sep}
use proxchunk.ProxyList.Urls.{IsUrl}
use proxchunk.Daemon.{is_word}
use proxchunk.Daemon.Args.{proceeds, asks_info, parse_args, below_one, is_negative, daemon_options}
use proxchunk.Cli.{
  Settings, download, cli_main, to_string, push_each, push_if, absolutes, daemon_extra, spawn_args,
}
use proxchunk.Cli.Accepted.{IsAccepted, cli_main-IsAccepted}
use proxchunk.Cli.Forward.{forwarded, parse-spawn_args}

-- An argument that does not ask for the help or the version.
abbrev IsQuiet : Bytes → Type 0
IsQuiet v = asks_info (v ∷ []) ≡ false

asks_info-append :
    (xs ys : List Bytes)
    → asks_info xs ≡ false
    → asks_info ys ≡ false
    → asks_info (xs ++ ys) ≡ false
unfolding asks_info
asks_info-append [] ys h k = k
asks_info-append (x ∷ xs) ys h k = ground (arith, asks_info-append xs ys)

push_if-quiet :
    (b : Bool) (xs : List Bytes) → asks_info xs ≡ false → asks_info (push_if b xs) ≡ false
push_if-quiet true xs h = h
push_if-quiet false xs h = unfold asks_info in refl

not_word : (u w : Bytes) → contains sep u ≡ true → contains sep w ≡ false → bytes_eq u w ≡ false
not_word u w h k = elim (Bool-cases (bytes_eq u w)) [
  | inr differ ↦ differ
  | inl same ↦ cc (h, k, ap (contains sep) ((bytes_eq_iff u w).0 same))
]

url-IsQuiet : (u : Bytes) → contains sep u ≡ true → IsQuiet u
unfolding asks_info contains
url-IsQuiet u h = ground (
  arith,
  not_word u (codes "-h") h refl,
  not_word u (codes "--help") h refl,
  not_word u (codes "-v") h refl,
  not_word u (codes "--version") h refl,
)

digits-IsQuiet : (s : Bytes) → All IsDigit s → IsQuiet s
unfolding asks_info bytes_eq
digits-IsQuiet [] all = refl
digits-IsQuiet (c ∷ s) all = ground (arith, all.0)

to_string-IsQuiet : (n : ℤ) → is_negative n ≡ false → IsQuiet (to_string n)
to_string-IsQuiet (pos n) h =
    digits-IsQuiet (decimal n) (unfold decimal in decimal_from-IsDigit (suc n) n (omega arith))
to_string-IsQuiet (negsuc n) h = cc

push_each-quiet :
    (name : String) (vs : List Bytes)
    → IsQuiet (codes name)
    → All IsQuiet vs
    → asks_info (push_each name vs) ≡ false
unfolding asks_info
push_each-quiet name [] h all = refl
push_each-quiet name (v ∷ vs) h (k, all) = ground (arith, push_each-quiet name vs h all)

urls-IsQuiet : (us : List Bytes) → All IsUrl us → All IsQuiet us
urls-IsQuiet [] all = tt
urls-IsQuiet (u ∷ us) (h, all) = (url-IsQuiet u h.has_scheme, urls-IsQuiet us all)

-- A word and its value.
pair-quiet : (w v : Bytes) → IsQuiet w → IsQuiet v → asks_info (w ∷ v ∷ []) ≡ false
pair-quiet w v h k = asks_info-append (w ∷ []) (v ∷ []) h k

word-IsQuiet :
    (w : String)
    → (is_word (codes w) "-h"
        || is_word (codes w) "--help"
        || is_word (codes w) "-v"
        || is_word (codes w) "--version"
        || false)
      ≡ false
    → IsQuiet (codes w)
unfolding asks_info
word-IsQuiet w h = h

spawn_args-quiet :
    (absolute : Bytes → Option Bytes) (socket : Bytes) (s : Settings)
    → IsAccepted s
    → IsQuiet socket
    → All IsQuiet (absolutes absolute s.proxy_files)
    → asks_info (spawn_args absolute socket s) ≡ false
unfolding daemon_extra
spawn_args-quiet absolute socket s h k files =
    let proxies =
      pair-quiet (codes "-p") (to_string s.max_proxies)
        (word-IsQuiet "-p" (unfold bytes_eq in refl))
        (to_string-IsQuiet s.max_proxies (not_below s.max_proxies h.some_proxies)) in
    let refresh =
      pair-quiet (codes "-r") (to_string s.refresh_sec)
        (word-IsQuiet "-r" (unfold bytes_eq in refl))
        (to_string-IsQuiet s.refresh_sec h.some_refresh) in
    asks_info-append (codes "--socket" ∷ socket ∷ []) _
      (pair-quiet (codes "--socket") socket (word-IsQuiet "--socket" (unfold bytes_eq in refl)) k)
      (asks_info-append _ _ (push_if-quiet s.max_proxies_set _ proxies) (
        asks_info-append _ _ (push_if-quiet s.refresh_set _ refresh) (
          asks_info-append _ _
            (push_if-quiet (not s.use_cache) _
              (word-IsQuiet "--no-cache" (unfold bytes_eq in refl)))
            (asks_info-append _ _
              (push_if-quiet (not s.use_tor) _ (word-IsQuiet "--no-tor" (unfold bytes_eq in refl)))
              (asks_info-append _ _
                (push_if-quiet (not s.use_user_list) _
                  (word-IsQuiet "--no-user-proxies" (unfold bytes_eq in refl)))
                (asks_info-append _ _
                  (push_each-quiet "--socks" s.extra_proxies
                    (word-IsQuiet "--socks" (unfold bytes_eq in refl))
                    (urls-IsQuiet s.extra_proxies h.parsed.2))
                  (push_each-quiet "--proxy-file" (absolutes absolute s.proxy_files)
                    (word-IsQuiet "--proxy-file" (unfold bytes_eq in refl)) files)))))))
  where
    not_below : (n : ℤ) → below_one n ≡ false → is_negative n ≡ false
    not_below (pos n) h = refl
    not_below (negsuc n) h = cc

-- A daemon that proxchunk starts for a download reads its arguments back as the settings of
-- proxchunk's own command line, with its default of 180 seconds where no refresh was given, and goes
-- on: it exits neither with a complaint nor for a help text, as long as neither the socket's path nor
-- a list's is spelled like one of the options for these.
pub daemon_options-forwarded :
    (ncpu : ℕ) (args : List Bytes) (s : Settings) (url : Bytes) (absolute : Bytes → Option Bytes)
    (socket : Bytes)
    → cli_main ncpu args ≡ download s
    → IsQuiet socket
    → All IsQuiet (absolutes absolute s.proxy_files)
    → daemon_options url (spawn_args absolute socket s) ≡ proceeds (forwarded url absolute socket s)
unfolding daemon_options parse_args
daemon_options-forwarded ncpu args s url absolute socket run k files =
    let h = cli_main-IsAccepted ncpu args s run in
    rw
      (
        spawn_args-quiet absolute socket s h k files,
        parse-spawn_args url absolute socket s h,
        h.some_proxies,
        refresh_lem s.refresh_set s.refresh_sec h.some_refresh,
      )
      refl
  where
    refresh_lem :
        (given : Bool) (n : ℤ)
        → is_negative n ≡ false
        → is_negative (if given then n else pos 180) ≡ false
    refresh_lem true n h = h
    refresh_lem false n h = refl
