-- ===== src/Cli.antt =====
-- The command line of proxchunk: `main` of src/proxchunk.cpp up to the call of `run_download`, with the
-- options that it hands to a daemon it starts.
pub mod Forward
pub mod Accepted
pub mod Parsed
pub mod Started
mod Tests
use proxchunk.Prelude.{
  ℕ, zero, suc, ◌+◌, ◌-◌, ◌*◌, ◌/◌, ◌%◌, ◌≤◌, ◌<◌, min, max, String, ◌≡◌, refl, sym, ap, ◌∙◌, subst,
  ◌≢◌, ◌↔◌, ◌⊎◌, inl, inr, Bool, true, false, not, ◌&&◌, ◌||◌, Option, none, some, List, [], ◌∷◌,
  ◌++◌, map, append-nil, append_assoc, arith, ltb, leb, ◌==◌, if◌then◌else◌, ltb→lt, lt→ltb, leb→le,
  ==_iff, Bool-cases, Option-cases, length, take, drop, concat, is_empty, length-append,
  take-append-drop, length-take, length-drop, drop-length-append, All, All-append, All-append_left,
  All-append_right, ℤ, pos, negsuc, sub_ℕ, Bytes, codes, bytes_eq, bytes_eq_iff, bytes_eq_refl,
  starts_with, contains_byte, contains, decimal, is_space, is_digit, digits_from, skip_space,
  strtol, atoi, IsDigit, digits_from-append, strtol-decimal,
}
use proxchunk.ProxyList.{normalize_proxy_line, default_output_name}
use proxchunk.Daemon.{is_word}
use proxchunk.Daemon.Args.{
  select, Effect, flag, valued, unknown, Outcome, exits, proceeds, push_full, below_one,
  is_negative,
}

-- struct RunOptions, but for the two fields that `main` sets at the end.
pub record RunOptions : Type 0 where
  pub limit_bytes : ℤ
  pub direct : Bool
  pub progress : Bool
  pub show_proxies : Bool

-- The variables of `main`.
pub record Settings : Type 0 where
  pub url : Bytes
  pub out_path : Bytes
  pub concurrent : ℤ
  pub concurrent_set : Bool
  pub chunk_mb : ℤ
  pub chunk_mb_set : Bool
  pub max_proxies : ℤ
  pub max_proxies_set : Bool
  pub refresh_sec : ℤ
  pub refresh_set : Bool
  pub opt : RunOptions
  pub use_cache : Bool
  pub use_tor : Bool
  pub use_user_list : Bool
  pub extra_proxies : List Bytes
  pub proxy_files : List Bytes
  pub socket_path : Bytes

abbrev pub default_settings : Settings
default_settings = record {
  url = [];
  out_path = [];
  concurrent = pos 0;
  concurrent_set = false;
  chunk_mb = pos 0;
  chunk_mb_set = false;
  max_proxies = pos 128;
  max_proxies_set = false;
  refresh_sec = pos 0;
  refresh_set = false;
  opt = record { limit_bytes = pos 0; direct = false; progress = true; show_proxies = false };
  use_cache = true;
  use_tor = true;
  use_user_list = true;
  extra_proxies = [];
  proxy_files = [];
  socket_path = [];
}

abbrev times_ℕ : ℤ → ℕ → ℤ
times_ℕ (pos n) m = pos (n * m)
times_ℕ (negsuc n) m = sub_ℕ 0 ((n + 1) * m)

-- What an argument does: print something and return 0, or as in the daemon.
pub data Argument : Type 0 where
  info : Argument
  option : Effect Settings → Argument

abbrev pub starts_dash : Bytes → Bool
starts_dash [] = false
starts_dash (c ∷ a) = c == b'-'

-- The branches of the loop that compare the argument.
abbrev pub cli_table : List (List String × Argument)
cli_table =
    ("-h" ∷ "--help" ∷ [], info)
    ∷ ("-v" ∷ "--version" ∷ [], info)
    ∷ ("-o" ∷ "--output" ∷ [], option (valued (λ v s. record s { out_path = v })))
    ∷ (
      "-c" ∷ "--concurrent" ∷ [],
      option (valued (λ v s. record s { concurrent = atoi v; concurrent_set = true })),
    )
    ∷ (
      "-s" ∷ "--chunk-mb" ∷ [],
      option (valued (λ v s. record s { chunk_mb = atoi v; chunk_mb_set = true })),
    )
    ∷ (
      "-p" ∷ "--proxies" ∷ [],
      option (valued (λ v s. record s { max_proxies = atoi v; max_proxies_set = true })),
    )
    ∷ (
      "-r" ∷ "--refresh" ∷ [],
      option (valued (λ v s. record s { refresh_sec = atoi v; refresh_set = true })),
    )
    ∷ ("--socket" ∷ [], option (valued (λ v s. record s { socket_path = v })))
    ∷ (
      "--limit-mb" ∷ [],
      option (
          valued (λ v s. record s {
            opt = record s.opt { limit_bytes = times_ℕ (atoi v) (1024 * 1024) };
          })),
    )
    ∷ ("--direct" ∷ [], option (flag (λ s. record s { opt = record s.opt { direct = true } })))
    ∷ (
      "--no-progress" ∷ [],
      option (flag (λ s. record s { opt = record s.opt { progress = false } })),
    )
    ∷ ("--no-cache" ∷ [], option (flag (λ s. record s { use_cache = false })))
    ∷ (
      "--show-proxies" ∷ [],
      option (flag (λ s. record s { opt = record s.opt { show_proxies = true } })),
    )
    ∷ ("--no-tor" ∷ [], option (flag (λ s. record s { use_tor = false })))
    ∷ (
      "--socks" ∷ [],
      option (
          valued (λ v s. record s {
            extra_proxies = push_full (normalize_proxy_line v (codes "http://")) s.extra_proxies;
          })),
    )
    ∷ (
      "--proxy-file" ∷ [],
      option (valued (λ v s. record s { proxy_files = s.proxy_files ++ v ∷ [] })),
    )
    ∷ ("--no-user-proxies" ∷ [], option (flag (λ s. record s { use_user_list = false })))
    ∷ []

pub cli_argument : Bytes → Argument
unfolding select
cli_argument a =
    select a cli_table
      (if not (starts_dash a) then option (flag (λ s. record s { url = a })) else option unknown)

-- The loop; `needed` is the option that waits for its value.
pub cli_from : Option (Bytes → Settings → Settings) → Settings → List Bytes → Outcome Settings
unfolding cli_argument
cli_from none s [] = proceeds s
cli_from (some set) s [] = exits 1
cli_from (some set) s (v ∷ args) = cli_from none (set v s) args
cli_from none s (a ∷ args) = elim (cli_argument a) [
  | info ↦ exits 0
  | option (flag set) ↦ cli_from none (set s) args
  | option (valued set) ↦ cli_from (some set) s args
  | option unknown ↦ exits 1
]

-- What `main` goes on to do.
pub data Action : Type 0 where
  quit : ℕ → Action
  run_repl : Action
  download : Settings → Action

-- `unsigned ncpu = hardware_concurrency()`, of which `0` is no answer.
abbrev cpus : ℕ → ℤ
cpus ncpu = if ncpu == 0 then pos 4 else pos ncpu

-- Behind the loop: the default of `concurrent`, and `opt.chunk_mb`, which is 0 where it is not set.
abbrev pub completed : ℕ → Settings → Settings
completed ncpu s = record s {
  concurrent = if not s.concurrent_set then cpus ncpu else s.concurrent;
  chunk_mb = if s.chunk_mb_set then s.chunk_mb else pos 0;
}

-- The checks, and the default of `out_path`.
pub checked : Settings → Action
unfolding default_output_name
checked s =
    if is_empty s.url
    then quit 0
    else if below_one s.concurrent || below_one s.max_proxies
    then quit 1
    else if s.chunk_mb_set && below_one s.chunk_mb
    then quit 1
    else if is_negative s.refresh_sec
    then quit 1
    else download (record s {
      out_path = if is_empty s.out_path then default_output_name s.url else s.out_path;
    })

abbrev pub check_outcome : ℕ → Outcome Settings → Action
check_outcome ncpu (exits code) = quit code
check_outcome ncpu (proceeds s) = checked (completed ncpu s)

pub has_repl : List Bytes → Bool
has_repl [] = false
has_repl (a ∷ args) = is_word a "--repl" || has_repl args

-- `args` is argv without its first entry.
unfoldable pub cli_main : ℕ → List Bytes → Action
unfolding has_repl cli_from checked
cli_main ncpu args =
    if has_repl args
    then run_repl
    else if is_empty args
    then quit 0
    else check_outcome ncpu (cli_from none default_settings args)

-- std::to_string
abbrev pub to_string : ℤ → Bytes
to_string (pos n) = decimal n
to_string (negsuc n) = b'-' ∷ decimal (n + 1)

-- `daemon_extra.push_back(option)`, with a value, for each of a list.
abbrev pub push_each : String → List Bytes → List Bytes
push_each name [] = []
push_each name (v ∷ vs) = codes name ∷ v ∷ push_each name vs

abbrev pub push_if : Bool → List Bytes → List Bytes
push_if b words = if b then words else []

-- `absolute` is what fs::absolute makes of a path, or `none` on an error.
abbrev pub absolutes : (Bytes → Option Bytes) → List Bytes → List Bytes
absolutes absolute [] = []
absolutes absolute (f ∷ fs) =
    elim (absolute f) [ none ↦ f | some path ↦ path ] ∷ absolutes absolute fs

pub daemon_extra : (Bytes → Option Bytes) → Settings → List Bytes
daemon_extra absolute s =
    push_if s.max_proxies_set (codes "-p" ∷ to_string s.max_proxies ∷ [])
    ++ (push_if s.refresh_set (codes "-r" ∷ to_string s.refresh_sec ∷ [])
        ++ (push_if (not s.use_cache) (codes "--no-cache" ∷ [])
            ++ (push_if (not s.use_tor) (codes "--no-tor" ∷ [])
                ++ (push_if (not s.use_user_list) (codes "--no-user-proxies" ∷ [])
                    ++ (push_each "--socks" s.extra_proxies
                        ++ push_each "--proxy-file" (absolutes absolute s.proxy_files))))))

-- The arguments of ProxyClient::spawn_daemon behind the program's name.
abbrev pub spawn_args : (Bytes → Option Bytes) → Bytes → Settings → List Bytes
spawn_args absolute socket s = codes "--socket" ∷ socket ∷ daemon_extra absolute s
