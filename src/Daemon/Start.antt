-- ===== src/Daemon/Start.antt =====
-- How the server of src/proxchunkd.cpp starts: run_server up to its loop, the pid file, and what
-- daemonize_and_run tells the shell. What the system calls answer is given.
pub mod Tells
pub mod PidFile
mod Tests
use proxchunk.Prelude.{
  ℕ, zero, suc, ◌+◌, ◌-◌, ◌*◌, ◌/◌, ◌%◌, ◌≤◌, ◌<◌, min, max, String, ◌≡◌, refl, sym, ap, ◌∙◌, subst,
  ◌≢◌, ◌↔◌, ◌⊎◌, inl, inr, Bool, true, false, not, ◌&&◌, ◌||◌, Option, none, some, List, [], ◌∷◌,
  ◌++◌, map, append-nil, append_assoc, arith, ltb, leb, ◌==◌, if◌then◌else◌, ltb→lt, lt→ltb, leb→le,
  ==_iff, Bool-cases, Option-cases, length, take, drop, concat, is_empty, length-append,
  take-append-drop, length-take, length-drop, drop-length-append, All, All-append, All-append_left,
  All-append_right, ℤ, pos, negsuc, sub_ℕ, Bytes, codes, bytes_eq, bytes_eq_iff, bytes_eq_refl,
  starts_with, contains_byte, contains, decimal, is_space, is_digit, digits_from, skip_space,
  strtol, atoi, IsDigit, digits_from-append, decimal_from-IsDigit, strtol-decimal,
}

-- What `write` answers: EINTR, another error, or the number of bytes that it took.
pub data WriteEvent : Type 0 where
  interrupted write_error : WriteEvent
  wrote : ℕ → WriteEvent

abbrev pub and_then : Bytes → Option Bool × Bytes → Option Bool × Bytes
and_then front (r, out) = (r, front ++ out)

-- The loop over `write`: its result, `none` where the answers end before the loop does, and what
-- reached the file.
pub write_all : Bytes → List WriteEvent → Option Bool × Bytes
write_all s [] = (if is_empty s then some true else none, [])
write_all s (e ∷ es) =
    let again = write_all s es in
    let further = λ (n : ℕ). and_then (take n s) (write_all (drop n s) es) in
    if is_empty s
    then (some true, [])
    else elim e [ interrupted ↦ again | write_error ↦ (some false, []) | wrote n ↦ further n ]

-- Whether open, the lock, ftruncate and lseek succeed on the pid file, and the answers of `write`.
pub record PidCalls : Type 0 where
  pub opens : Bool
  pub locks : Bool
  pub truncates : Bool
  pub seeks : Bool
  pub writes : List WriteEvent

abbrev pub pid_text : ℕ → Bytes
pid_text pid = decimal pid ++ b'\n' ∷ []

-- The result, and what is in the file behind it.
pub lock_and_write_pid : PidCalls → ℕ → Bytes → Option Bool × Bytes
unfolding write_all
lock_and_write_pid a pid file =
    if not a.opens
    then (some false, file)
    else if not a.locks
    then (some false, file)
    else if not a.truncates
    then (some false, file)
    else if not a.seeks
    then (some false, [])
    else write_all (pid_text pid) a.writes

-- `static_cast<pid_t>` of a positive long.
abbrev as_pid : ℕ → ℤ
as_pid n =
    let low = n % 4294967296 in if ltb low 2147483648 then pos low else negsuc (4294967295 - low)

-- `none` where the file cannot be opened; a number that a long does not hold makes `>>` fail.
pub read_pidfile : Option Bytes → ℤ
read_pidfile none = pos 0
read_pidfile (some text) = elim (strtol text) [
  | none ↦ pos 0
  | some (negsuc n) ↦ pos 0
  | some (pos n) ↦ if ltb 9223372036854775807 n then pos 0 else if n == 0 then pos 0 else as_pid n
]

-- What bind_listen comes to: a listening socket, EADDRINUSE, or another error.
pub data Bound : Type 0 where
  listening in_use bind_error : Bound

-- What the calls of run_server answer. `makes_dir` is also true where the socket's path names no
-- directory; `leaves_pid` is whether a pid file is there where it could not be locked and written.
pub record ServerCalls : Type 0 where
  pub makes_dir : Bool
  pub locks_pid : Bool
  pub leaves_pid : Bool
  pub pings : Bool
  pub binds : Bound
  pub signals : Bool
  pub inits_curl : Bool

-- The pipe to the process that waits, what was written to it, and whether the two files are there.
pub record Startup : Type 0 where
  pub ready : Bool
  pub told : Bytes
  pub socket_file : Bool
  pub pid_file : Bool

abbrev tell : Bytes → Startup → Startup
tell text s = if s.ready then record s { told = s.told ++ text } else s

abbrev no_files : Startup → Startup
no_files s = record s { socket_file = false; pid_file = false }

-- With the socket bound: the signals, libcurl, and the engine.
abbrev pub serve : ServerCalls → Startup → Option ℕ × Startup
serve a s =
    if not a.signals
    then (some 1, tell (codes "E") (no_files s))
    else if not a.inits_curl
    then (some 1, tell (codes "E") (no_files s))
    else (none, record (tell (codes "R") s) { ready = false })

-- With the pid file locked.
abbrev pub bind_socket : ServerCalls → Bound → Startup → Option ℕ × Startup
bind_socket a listening s = serve a (record s { socket_file = true })
bind_socket a in_use s =
    if a.pings
    then (some 0, tell (codes "R") s)
    else (some 1, tell (codes "E") (record s { pid_file = false }))
bind_socket a bind_error s = (some 1, tell (codes "E") (record s { pid_file = false }))

-- Without it.
abbrev pub not_locked : ServerCalls → Startup → Option ℕ × Startup
not_locked a s = if a.pings then (some 0, tell (codes "R") s) else (some 1, tell (codes "E") s)

-- run_server up to its loop: the exit code, or `none` where it goes on to serve.
pub start_server : ServerCalls → Startup → Option ℕ × Startup
start_server a s =
    if not a.makes_dir
    then (some 1, tell (codes "E") s)
    else if not a.locks_pid
    then not_locked a (record s { pid_file = a.leaves_pid })
    else bind_socket a a.binds (record s { pid_file = true })

-- What pipe2, the two forks and setsid answer.
pub record ForkCalls : Type 0 where
  pub pipes : Bool
  pub forks : Bool
  pub leads : Bool
  pub forks_again : Bool

abbrev starts_r : Bytes → Bool
starts_r [] = false
starts_r (c ∷ s) = c == b'R'

abbrev pub parent_code : Option ℕ × Startup → ℕ × (Option ℕ × Startup)
parent_code (r, s) = (if starts_r s.told then 0 else 1, (r, s))

-- daemonize_and_run: the exit code of the process in the shell, and what the server came to, which is
-- code 1 where there is none.
pub daemonize_and_run : ForkCalls → ServerCalls → Startup → ℕ × (Option ℕ × Startup)
unfolding start_server
daemonize_and_run f a s =
    if not f.pipes || not f.forks
    then (1, (some 1, s))
    else if not f.leads || not f.forks_again
    then parent_code (some 1, s)
    else parent_code (start_server a s)
