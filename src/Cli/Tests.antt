-- ===== src/Cli/Tests.antt =====
-- A command line of proxchunk, and the daemon that it starts.
use proxchunk.Prelude.{
  ◌≡◌, refl, true, false, Option, some, List, [], ◌∷◌, ◌++◌, pos, Bytes, codes, bytes_eq,
  contains_byte, contains, strtol,
}
use proxchunk.ProxyList.{normalize_proxy_line}
use proxchunk.Daemon.Args.{exits, proceeds, asks_info, daemon_options}
use proxchunk.Cli.{Settings, default_settings, quit, download, cli_main, spawn_args}
use proxchunk.Cli.Accepted.{AcceptedAction, cli_main-AcceptedAction}
use proxchunk.Cli.Forward.{forwarded}
use proxchunk.Cli.Started.{daemon_options-forwarded}

abbrev line : List Bytes
line =
    codes "-p"
    ∷ codes "64"
    ∷ codes "http://x/a"
    ∷ codes "--socks"
    ∷ codes "1.2.3.4:9"
    ∷ codes "--no-tor"
    ∷ codes "--proxy-file"
    ∷ codes "l"
    ∷ []

abbrev settings : Settings
settings = record default_settings {
  url = codes "http://x/a";
  out_path = codes "a";
  concurrent = pos 8;
  max_proxies = pos 64;
  max_proxies_set = true;
  use_tor = false;
  extra_proxies = codes "http://1.2.3.4:9" ∷ [];
  proxy_files = codes "l" ∷ [];
}

line-settings : cli_main 8 line ≡ download settings
unfolding cli_main bytes_eq contains contains_byte strtol normalize_proxy_line
line-settings = refl

cli_main-AcceptedAction_example : AcceptedAction line (cli_main 8 line)
cli_main-AcceptedAction_example = cli_main-AcceptedAction 8 line

abbrev absolute : Bytes → Option Bytes
absolute f = some (codes "/home/" ++ f)

daemon_options-forwarded_example :
    daemon_options (codes "http://t") (spawn_args absolute (codes "/run/s") settings)
    ≡ proceeds (forwarded (codes "http://t") absolute (codes "/run/s") settings)
daemon_options-forwarded_example =
    daemon_options-forwarded 8 line settings (codes "http://t") absolute (codes "/run/s")
      line-settings (unfold asks_info bytes_eq in refl) ((unfold asks_info bytes_eq in refl), tt)

-- A value that is missing, an option that is none, and a size of 0.
refused :
    (cli_main 8 (codes "http://x/a" ∷ codes "-o" ∷ []) ≡ quit 1)
    × (cli_main 8 (codes "--none" ∷ []) ≡ quit 1)
    × (cli_main 8 (codes "http://x/a" ∷ codes "-s" ∷ codes "0" ∷ []) ≡ quit 1)
unfolding cli_main bytes_eq strtol
refused = (refl, refl, refl)

-- The first loop of the daemon takes a value for an option: a socket `-v` prints the version.
version : daemon_options (codes "http://t") (codes "--socket" ∷ codes "-v" ∷ []) ≡ exits 0
unfolding daemon_options bytes_eq
version = refl
