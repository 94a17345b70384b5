-- ===== src/Daemon/Args.antt =====
-- The command line of proxchunkd: `parse_args` and the checks of `main` in src/proxchunkd.cpp.
use proxchunk.Prelude.{
  atoi, ℕ, String, Bool, true, false, not, ◌||◌, Option, none, some, List, [], ◌∷◌, ◌++◌, ◌==◌,
  if◌then◌else◌, is_empty, ℤ, pos, negsuc, Bytes, codes,
}
use proxchunk.ProxyList.{normalize_proxy_line}
use proxchunk.Daemon.{is_word}

-- struct Options; a path is its text.
pub record Options : Type 0 where
  pub foreground : Bool
  pub do_stop : Bool
  pub do_status : Bool
  pub socket_path : Bytes
  pub pid_path : Bytes
  pub log_path : Bytes
  pub max_proxies : ℤ
  pub refresh_sec : ℤ
  pub test_url : Bytes
  pub use_cache : Bool
  pub use_tor : Bool
  pub fetch_public : Bool
  pub use_user_list : Bool
  pub debug : Bool
  pub extra_proxies : List Bytes
  pub proxy_files : List Bytes

-- `url` is k_default_test_url.
abbrev pub default_options : Bytes → Options
default_options url = record {
  foreground = false;
  do_stop = false;
  do_status = false;
  socket_path = [];
  pid_path = [];
  log_path = [];
  max_proxies = pos 128;
  refresh_sec = pos 180;
  test_url = url;
  use_cache = true;
  use_tor = true;
  fetch_public = true;
  use_user_list = true;
  debug = false;
  extra_proxies = [];
  proxy_files = [];
}

-- The process ends with an exit code, or goes on.
pub data Outcome (A : Type 0) : Type 0 where
  exits : ℕ → Outcome A
  proceeds : A → Outcome A

-- An argument: an option alone, one whose value is `need`ed from the next argument, or none.
pub data Effect (O : Type 0) : Type 0 where
  flag : (O → O) → Effect O
  valued : (Bytes → O → O) → Effect O
  unknown : Effect O

-- `if (!u.empty()) push_back(u)`
abbrev pub push_full : Bytes → List Bytes → List Bytes
push_full u us = if not (is_empty u) then us ++ u ∷ [] else us

-- A chain of `else if`: for each branch the words that the argument is compared with, and what it does.
abbrev pub is_one_of : Bytes → List String → Bool
is_one_of a [] = false
is_one_of a (w ∷ ws) = is_word a w || is_one_of a ws

unfoldable pub select {ℓ} : {A : Type ℓ} → Bytes → List (List String × A) → A → A
select a [] last = last
select a ((words, effect) ∷ rest) last =
    let later = select a rest last in if is_one_of a words then effect else later

-- The branches of the second loop.
abbrev pub daemon_table : List (List String × Effect Options)
daemon_table =
    ("--foreground" ∷ [], flag (λ o. record o { foreground = true }))
    ∷ ("--stop" ∷ [], flag (λ o. record o { do_stop = true }))
    ∷ ("--status" ∷ [], flag (λ o. record o { do_status = true }))
    ∷ ("--socket" ∷ [], valued (λ v o. record o { socket_path = v }))
    ∷ ("--pid-file" ∷ [], valued (λ v o. record o { pid_path = v }))
    ∷ ("-p" ∷ "--proxies" ∷ [], valued (λ v o. record o { max_proxies = atoi v }))
    ∷ ("-r" ∷ "--refresh" ∷ [], valued (λ v o. record o { refresh_sec = atoi v }))
    ∷ ("--test-url" ∷ [], valued (λ v o. record o { test_url = v }))
    ∷ ("--no-cache" ∷ [], flag (λ o. record o { use_cache = false }))
    ∷ ("--no-tor" ∷ [], flag (λ o. record o { use_tor = false }))
    ∷ ("--no-fetch" ∷ [], flag (λ o. record o { fetch_public = false }))
    ∷ (
      "--socks" ∷ [],
      valued (λ v o. record o {
        extra_proxies = push_full (normalize_proxy_line v (codes "http://")) o.extra_proxies;
      }),
    )
    ∷ ("--proxy-file" ∷ [], valued (λ v o. record o { proxy_files = o.proxy_files ++ v ∷ [] }))
    ∷ ("--no-user-proxies" ∷ [], flag (λ o. record o { use_user_list = false }))
    ∷ ("--log-file" ∷ [], valued (λ v o. record o { log_path = v }))
    ∷ ("--debug" ∷ [], flag (λ o. record o { debug = true }))
    ∷ []

unfoldable pub daemon_option : Bytes → Effect Options
unfolding select
daemon_option a = select a daemon_table unknown

module _ {O : Type 0} (option : Bytes → Effect O) where
  -- The loop over the arguments. `needed` is the option that waits for its value: where no argument
  -- is left, `need` ends the process.
  unfoldable pub parse_from : Option (Bytes → O → O) → O → List Bytes → Outcome O
  parse_from none o [] = proceeds o
  parse_from (some set) o [] = exits 1
  parse_from (some set) o (v ∷ args) = parse_from none (set v o) args
  parse_from none o (a ∷ args) = elim (option a) [
    | flag set ↦ parse_from none (set o) args
    | valued set ↦ parse_from (some set) o args
    | unknown ↦ exits 1
  ]

-- The first loop: does one of the arguments, values included, ask for the help or the version?
unfoldable pub asks_info : List Bytes → Bool
asks_info [] = false
asks_info (a ∷ args) =
    is_word a "-h"
    || is_word a "--help"
    || is_word a "-v"
    || is_word a "--version"
    || asks_info args

-- `args` is argv without its first entry.
unfoldable pub parse_args : List Bytes → Options → Outcome Options
unfolding asks_info parse_from daemon_option
parse_args args o = if asks_info args then exits 0 else parse_from daemon_option none o args

abbrev pub below_one : ℤ → Bool
below_one (pos n) = n == 0
below_one (negsuc n) = true

abbrev pub is_negative : ℤ → Bool
is_negative (pos n) = false
is_negative (negsuc n) = true

abbrev pub checked_options : Outcome Options → Outcome Options
checked_options (exits code) = exits code
checked_options (proceeds o) =
    if below_one o.max_proxies
    then exits 1
    else if is_negative o.refresh_sec
    then exits 1
    else proceeds o

-- The first part of `main`.
unfoldable pub daemon_options : Bytes → List Bytes → Outcome Options
unfolding parse_args
daemon_options url args = checked_options (parse_args args (default_options url))
