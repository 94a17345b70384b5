-- ===== src/Daemon/Control.antt =====
-- The commands of proxchunkd beside the server: the lists it loads, --stop, the recovery of what a dead
-- daemon left, and what `main` decides (src/proxchunkd.cpp). What the processes, the socket and the
-- lock of the pid file answer is given.
mod Tests
pub mod Remove
pub mod Lists
use proxchunk.Prelude.{
  ℕ, zero, suc, ◌+◌, ◌-◌, ◌*◌, ◌/◌, ◌%◌, ◌≤◌, ◌<◌, min, max, String, ◌≡◌, refl, sym, ap, ◌∙◌, subst,
  ◌≢◌, ◌↔◌, ◌⊎◌, inl, inr, Bool, true, false, not, ◌&&◌, ◌||◌, Option, none, some, List, [], ◌∷◌,
  ◌++◌, map, append-nil, append_assoc, arith, ltb, leb, ◌==◌, if◌then◌else◌, ltb→lt, lt→ltb, leb→le,
  ==_iff, Bool-cases, Option-cases, length, take, drop, concat, is_empty, length-append,
  take-append-drop, length-take, length-drop, drop-length-append, All, All-append, All-append_left,
  All-append_right, ℤ, pos, negsuc, sub_ℕ, Bytes, codes, bytes_eq, bytes_eq_iff, bytes_eq_refl,
  starts_with, contains_byte, contains, decimal, is_space, is_digit, digits_from, skip_space,
  strtol, atoi, IsDigit, digits_from-append, decimal_from-IsDigit, strtol-decimal,
}
use proxchunk.ProxyList.{load_proxy_file}
use proxchunk.Daemon.Args.{Options}

-- `load_list` for each file. `read` has the contents of a file, or `none` where it cannot be opened.
pub load_lists : (Bytes → Option Bytes) → List Bytes → List Bytes → List Bytes
unfolding load_proxy_file
load_lists read extra [] = extra
load_lists read extra (f ∷ fs) =
    load_lists read (extra ++ load_proxy_file (read f) (codes "http://")) fs

-- `user_list` is default_user_proxy_list_path().
pub load_extra_lists : (Bytes → Option Bytes) → Bytes → Options → Options
unfolding load_lists
load_extra_lists read user_list o = record o {
  extra_proxies =
      load_lists read o.extra_proxies
        (if o.use_user_list then user_list ∷ o.proxy_files else o.proxy_files);
}

-- Which of its two files are there.
pub record Files : Type 0 where
  pub socket_there : Bool
  pub pid_there : Bool

-- `unix_connect_errno`: 0, ECONNREFUSED, ENOENT, or another error.
pub data Connect : Type 0 where
  connected refused no_entry other_error : Connect

-- `wait_gone`: `gone i` is the answer of the i-th look, at the process where its id is known, else at
-- the socket. `steps` looks are followed by a sleep, one more is not.
pub wait_gone : ℕ → ℕ → (ℕ → Bool) → Bool
wait_gone zero i gone = gone i
wait_gone (suc steps) i gone =
    let later = wait_gone steps (i + 1) gone in if gone i then true else later

-- `std::max(timeout_ms / 50, 1)`
abbrev pub wait_steps : ℕ → ℕ
wait_steps timeout_ms = max (timeout_ms / 50) 1

abbrev pub unlink_dead : Connect → Files → Files
unlink_dead refused f = record f { socket_there = false }
unlink_dead no_entry f = record f { socket_there = false }
unlink_dead connected f = f
unlink_dead other_error f = f

-- The exit code, and the files afterwards. `sent_stop` is whether the daemon answered STOP.
pub cmd_stop : Bool → (ℕ → Bool) → Bool → Connect → Files → ℕ × Files
unfolding wait_gone
cmd_stop sent_stop gone lock_free c f =
    if sent_stop
    then (if wait_gone (wait_steps 15000) 0 gone
        then (0, record { socket_there = false; pid_there = false })
        else (1, f))
    else if lock_free
    then (0, record (unlink_dead c f) { pid_there = false })
    else (1, f)

pub recover_stale : Connect → Bool → Files → Files
recover_stale connected lock_free f = f
recover_stale c lock_free f =
    let f' = unlink_dead c f in if lock_free then record f' { pid_there = false } else f'

-- What `main` does behind the checks.
pub data Command : Type 0 where
  stops status already_running : Command
  serves : Bool → Files → Command

abbrev unless_connected : Connect → Command → Command
unless_connected connected command = already_running
unless_connected refused command = command
unless_connected no_entry command = command
unless_connected other_error command = command

-- `ping` is the answer to a PING, and `c` and `c'` those of the socket before and after the recovery;
-- it serves in the foreground or as a daemon.
unfoldable daemon_main : Options → Bool → Connect → Bool → Connect → Files → Command
unfolding recover_stale
daemon_main o ping c lock_free c' f =
    if o.do_stop
    then stops
    else if o.do_status
    then status
    else if ping
    then already_running
    else unless_connected c' (serves o.foreground (recover_stale c lock_free f))
