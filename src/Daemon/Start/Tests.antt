-- ===== src/Daemon/Start/Tests.antt =====
-- The theorems on the start, applied to runs of it.
use proxchunk.Prelude.{◌≡◌, refl, true, false, some, List, [], ◌∷◌, arith, pos, codes, decimal}
use proxchunk.Daemon.Start.{
  WriteEvent, interrupted, write_error, wrote, lock_and_write_pid, read_pidfile, ServerCalls,
  listening, in_use, ForkCalls, daemonize_and_run,
}
use proxchunk.Daemon.Start.Tells.{waiting, Told, daemonize_and_run-Told}
use proxchunk.Daemon.Start.PidFile.{read_pidfile-lock_and_write_pid}

abbrev all_forks : ForkCalls
all_forks = record { pipes = true; forks = true; leads = true; forks_again = true }

-- Another server has the socket, but not this pid file.
abbrev second : ServerCalls
second = record {
  makes_dir = true;
  locks_pid = true;
  leaves_pid = true;
  pings = true;
  binds = in_use;
  signals = true;
  inits_curl = true;
}

daemonize_and_run-Told_example :
    Told
      (record second { binds = listening })
      false
      (daemonize_and_run all_forks (record second { binds = listening }) (waiting false true))
daemonize_and_run-Told_example =
    daemonize_and_run-Told all_forks (record second { binds = listening }) false true (λ e. refl)

-- A second server on the same socket with a pid file of its own ends well, and leaves that file.
second_leaves :
    daemonize_and_run all_forks second (waiting true false)
    ≡ (0, (some 0, record { ready = true; told = codes "R"; socket_file = true; pid_file = true }))
unfolding daemonize_and_run
second_leaves = refl

-- A write error after the truncation.
cut_off :
    lock_and_write_pid
      (record {
        opens = true;
        locks = true;
        truncates = true;
        seeks = true;
        writes = wrote 2 ∷ interrupted ∷ write_error ∷ [];
      })
      4711
      (codes "12345")
    ≡ (some false, codes "47")
unfolding lock_and_write_pid decimal
cut_off = refl

abbrev one_each : List WriteEvent
one_each = wrote 1 ∷ wrote 1 ∷ wrote 1 ∷ wrote 5 ∷ wrote 1 ∷ []

read_pidfile-lock_and_write_pid_example :
    let (r, file) =
      lock_and_write_pid
        (record { opens = true; locks = true; truncates = true; seeks = true; writes = one_each })
        4711
        (codes "123456") in
    (r ≡ some true) × (read_pidfile (some file) ≡ pos 4711)
unfolding decimal
read_pidfile-lock_and_write_pid_example =
    read_pidfile-lock_and_write_pid one_each 4711 (codes "123456") (omega arith) (omega arith)
      (omega arith) (omega arith, (omega arith, (omega arith, (omega arith, (omega arith, tt)))))
