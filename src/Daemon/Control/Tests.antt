-- ===== src/Daemon/Control/Tests.antt =====
-- A stop that the daemon takes, a recovery, and the lists of a command line.
use proxchunk.Prelude.{
  ◌≡◌, refl, true, false, Option, none, some, List, [], ◌∷◌, leb, if◌then◌else◌, All, Bytes, codes,
  bytes_eq, contains_byte, contains,
}
use proxchunk.ProxyList.{normalize_proxy_line}
use proxchunk.ProxyList.Urls.{IsUrl}
use proxchunk.Daemon.Args.{Options, default_options, proceeds, daemon_options}
use proxchunk.Daemon.Control.{Files, connected, refused, cmd_stop, recover_stale, load_extra_lists}
use proxchunk.Daemon.Control.Lists.{load_extra_lists-IsUrl}

abbrev both : Files
both = record { socket_there = true; pid_there = true }

stopped :
    cmd_stop true (λ i. leb 2 i) false connected both
    ≡ (0, record { socket_there = false; pid_there = false })
unfolding cmd_stop
stopped = refl

-- A socket that someone listens on is left, a dead one goes.
recovered :
    (recover_stale connected true both ≡ both)
    × (recover_stale refused false both ≡ record { socket_there = false; pid_there = true })
unfolding recover_stale
recovered = (refl, refl)

abbrev args : List Bytes
args =
    codes "--no-fetch" ∷ codes "--socks" ∷ codes "1.2.3.4:9" ∷ codes "--proxy-file" ∷ codes "l" ∷ []

abbrev options : Options
options = record (default_options (codes "http://t")) {
  fetch_public = false;
  extra_proxies = codes "http://1.2.3.4:9" ∷ [];
  proxy_files = codes "l" ∷ [];
}

args-options : daemon_options (codes "http://t") args ≡ proceeds options
unfolding daemon_options bytes_eq contains contains_byte normalize_proxy_line
args-options = refl

abbrev read : Bytes → Option Bytes
read f = if bytes_eq f (codes "l") then some (codes "5.6.7.8:80\n") else none

load_extra_lists-IsUrl_example : All IsUrl (load_extra_lists read (codes "u") options).extra_proxies
load_extra_lists-IsUrl_example =
    load_extra_lists-IsUrl (codes "http://t") args read (codes "u") options args-options
