-- ===== src/Cli/Accepted.antt =====
-- What proxchunk has checked when it starts a download.
use proxchunk.Prelude.{
  ℕ, ◌≤◌, Option, some, ◌≡◌, refl, subst, inl, inr, true, false, ◌&&◌, ◌||◌, none, List, [], ◌∷◌,
  arith, if◌then◌else◌, Bool-cases, is_empty, pos, Bytes,
}
use proxchunk.ProxyList.{default_output_name}
use proxchunk.ProxyList.OutputName.{default_output_name-IsFileName}
use proxchunk.Daemon.Args.{Outcome, exits, proceeds, flag, valued, unknown, below_one, is_negative}
use proxchunk.Cli.{
  check_outcome, has_repl, Settings, default_settings, cli_from, cli_argument, Argument, info,
  option, Action, quit, run_repl, download, completed, checked, cli_main,
}
use proxchunk.Cli.Parsed.{IsParsed, Parsed, cli_from-Parsed}

-- What `main` has made sure of.
pub record IsAccepted (s : Settings) : Type 0 where
  pub url_full : is_empty s.url ≡ false
  pub out_full : is_empty s.out_path ≡ false
  pub some_concurrent : below_one s.concurrent ≡ false
  pub some_proxies : below_one s.max_proxies ≡ false
  chunk_or_pieces :
      (s.chunk_mb_set ≡ true → below_one s.chunk_mb ≡ false)
      × (s.chunk_mb_set ≡ false → s.chunk_mb ≡ pos 0)
  pub some_refresh : is_negative s.refresh_sec ≡ false
  pub parsed : IsParsed s

abbrev CheckedAction : Action → Type 0
CheckedAction (quit code) = code ≤ 1
CheckedAction run_repl = ⊥
CheckedAction (download s) = IsAccepted s

-- The console is started for --repl alone.
abbrev pub AcceptedAction : List Bytes → Action → Type 0
AcceptedAction args (quit code) = (has_repl args ≡ false) × (code ≤ 1)
AcceptedAction args run_repl = has_repl args ≡ true
AcceptedAction args (download s) = (has_repl args ≡ false) × IsAccepted s

abbrev SmallCode : Outcome Settings → Type 0
SmallCode (exits code) = code ≤ 1
SmallCode (proceeds s) = Unit {0}

cli_from-SmallCode :
    (needed : Option (Bytes → Settings → Settings)) (s : Settings) (args : List Bytes)
    → SmallCode (cli_from needed s args)
unfolding cli_from
cli_from-SmallCode none s [] = tt
cli_from-SmallCode (some set) s [] = omega arith
cli_from-SmallCode (some set) s (v ∷ args) = cli_from-SmallCode none (set v s) args
cli_from-SmallCode none s (a ∷ args) =
    by_argument (cli_argument a) (λ n t. cli_from-SmallCode n t args)
  where
    by_argument :
        (arg : Argument)
        → ((n : Option (Bytes → Settings → Settings)) (t : Settings)
            → SmallCode (cli_from n t args))
        → let after : Outcome Settings = elim arg [
          | info ↦ exits 0
          | option (flag set) ↦ cli_from none (set s) args
          | option (valued set) ↦ cli_from (some set) s args
          | option unknown ↦ exits 1
        ] in
          SmallCode after
    by_argument info ih = omega arith
    by_argument (option (flag set)) ih = ih none (set s)
    by_argument (option (valued set)) ih = ih (some set) s
    by_argument (option unknown) ih = omega arith

named_lem :
    (out url : Bytes) → is_empty (if is_empty out then default_output_name url else out) ≡ false
named_lem [] url = (default_output_name-IsFileName url).not_empty
named_lem (c ∷ out) url = refl

checked-Accepted :
    (s : Settings)
    → (s.chunk_mb_set ≡ false → s.chunk_mb ≡ pos 0)
    → IsParsed s
    → CheckedAction (checked s)
unfolding checked
checked-Accepted s pieces h = elim (Bool-cases (is_empty s.url)) [
  | inl no_url ↦ rw no_url (omega arith)
  | inr url ↦ elim (Bool-cases (below_one s.concurrent || below_one s.max_proxies)) [
    | inl low ↦ rw (url, low) (omega arith)
    | inr enough ↦ elim (Bool-cases (s.chunk_mb_set && below_one s.chunk_mb)) [
      | inl small ↦ rw (url, enough, small) (omega arith)
      | inr big ↦ elim (Bool-cases (is_negative s.refresh_sec)) [
        | inl negative ↦ rw (url, enough, big, negative) (omega arith)
        | inr positive ↦
            rw (url, enough, big, positive)
              (record {
                url_full = url;
                out_full = named_lem s.out_path s.url;
                some_concurrent = ground (arith, enough);
                some_proxies = ground (arith, enough);
                chunk_or_pieces = ((λ given. ground (arith, big)), pieces);
                some_refresh = positive;
                parsed = h;
              })
      ]
    ]
  ]
]

completed-Accepted :
    (ncpu : ℕ) (s : Settings) → IsParsed s → CheckedAction (checked (completed ncpu s))
completed-Accepted ncpu s h = checked-Accepted (completed ncpu s) (λ unset. rw unset refl) h

checked_outcome :
    (ncpu : ℕ) (o : Outcome Settings)
    → SmallCode o
    → Parsed o
    → CheckedAction (check_outcome ncpu o)
checked_outcome ncpu (exits code) small h = small
checked_outcome ncpu (proceeds s) small h = completed-Accepted ncpu s h

without_repl :
    (args : List Bytes) (act : Action)
    → has_repl args ≡ false
    → CheckedAction act
    → AcceptedAction args act
without_repl args (quit code) none_asked h = (none_asked, h)
without_repl args run_repl none_asked h = absurd h
without_repl args (download s) none_asked h = (none_asked, h)

-- Whatever its arguments, proxchunk does one of three things: with --repl among them, and then only, it
-- starts the console; it ends with code 0 or 1; or it starts a download, with a URL, an output path, at
-- least one connection and one proxy, a chunk size of at least 1 MiB or none, and a refresh that is not
-- negative. In a download the local proxies are URLs, and the number of proxies is 128 and the refresh
-- is 0 where they were not given.
pub cli_main-AcceptedAction :
    (ncpu : ℕ) (args : List Bytes) → AcceptedAction args (cli_main ncpu args)
unfolding cli_main
cli_main-AcceptedAction ncpu args =
    let parsed = cli_from-Parsed none default_settings args tt ((λ e. refl), (λ e. refl), tt) in
    let small = cli_from-SmallCode none default_settings args in
    elim (Bool-cases (has_repl args)) [
      | inl repl ↦ rw (repl, cli_main) repl
      | inr no_repl ↦ elim (Bool-cases (is_empty args)) [
        | inl bare ↦ rw (no_repl, cli_main, bare) (no_repl, omega arith)
        | inr given ↦
            rw (no_repl, cli_main, given)
              (without_repl args (check_outcome ncpu (cli_from none default_settings args)) no_repl
                (checked_outcome ncpu (cli_from none default_settings args) small parsed))
      ]
    ]

-- What the download starts with.
pub cli_main-IsAccepted :
    (ncpu : ℕ) (args : List Bytes) (s : Settings) → cli_main ncpu args ≡ download s → IsAccepted s
cli_main-IsAccepted ncpu args s h =
    (subst (AcceptedAction args) h (cli_main-AcceptedAction ncpu args)).1
